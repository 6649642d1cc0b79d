-- ===== src/Queries/Sort.antt =====
-- What sorting leaves of a list.
use py_aleph.Prelude.{
  suc, ◌≡◌, refl, ◌∙◌, Bool, true, false, ◌||◌, List, [], ◌∷◌, any, length, Bool-cases, arith, inl,
  inr,
}
use py_aleph.Queries.{insert_by, sort_by}

module _ {ℓ} {A : Type ℓ} (before : A → A → Bool) where
  -- No row is to come before one that stands earlier.
  abbrev pub IsSorted : List A → Type 0
  IsSorted [] = Unit
  IsSorted (x ∷ xs) = (any (λ y. before y x) xs ≡ false) × IsSorted xs

  -- A strict order whose negation is transitive, as the order of a column is.
  pub record IsWeakOrder : Type ℓ where
    pub asym : (x y : A) → before x y ≡ true → before y x ≡ false
    pub trans : (x y z : A) → before y x ≡ false → before z y ≡ false → before z x ≡ false

  insert_by-any :
      (p : A → Bool) (x : A) (xs : List A) → any p (insert_by before x xs) ≡ (p x || any p xs)
  insert_by-any p x [] = refl
  insert_by-any p x (y ∷ ys) = ground (arith, insert_by-any p x ys)

  pub any-sort_by : (p : A → Bool) (xs : List A) → any p (sort_by before xs) ≡ any p xs
  any-sort_by p [] = refl
  any-sort_by p (x ∷ xs) = insert_by-any p x (sort_by before xs) ∙ rw (any-sort_by p xs) refl

  insert_by-length : (x : A) (xs : List A) → length (insert_by before x xs) ≡ suc (length xs)
  insert_by-length x [] = refl
  insert_by-length x (y ∷ ys) = ground (arith, insert_by-length x ys)

  pub length-sort_by : (xs : List A) → length (sort_by before xs) ≡ length xs
  length-sort_by [] = refl
  length-sort_by (x ∷ xs) = insert_by-length x (sort_by before xs) ∙ rw (length-sort_by xs) refl

  later :
      IsWeakOrder
      → (x y : A) (ys : List A) → before y x ≡ false
      → any (λ z. before z y) ys ≡ false
      → any (λ z. before z x) ys ≡ false
  later w x y [] h a = refl
  later w x y (z ∷ zs) h a = elim (Bool-cases (before z y)) [
    | inl b ↦ absurd (ground (arith, a, b))
    | inr n ↦ rw (w.trans x y z h n) (later w x y zs h (rw n at a))
  ]

  insert_by-IsSorted :
      IsWeakOrder → (x : A) (xs : List A) → IsSorted xs → IsSorted (insert_by before x xs)
  insert_by-IsSorted w x [] s = (refl, tt)
  insert_by-IsSorted w x (y ∷ ys) s = elim (Bool-cases (before y x)) [
    | inr n ↦ rw n (rw n (later w x y ys n s.0), s)
    | inl b ↦ rw b (
      rw (insert_by-any (λ z. before z y) x ys) (rw (w.asym y x b, s.0) refl),
      insert_by-IsSorted w x ys s.1,
    )
  ]

  pub sort_by-IsSorted : IsWeakOrder → (xs : List A) → IsSorted (sort_by before xs)
  sort_by-IsSorted w [] = tt
  sort_by-IsSorted w (x ∷ xs) = insert_by-IsSorted w x (sort_by before xs) (sort_by-IsSorted w xs)
