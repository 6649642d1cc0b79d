-- ===== src/Queries/Lists.antt =====
-- Lemmas on mapped, filtered and paged listings.
use py_aleph.Prelude.{
  ℕ, zero, suc, ◌-◌, ◌*◌, ◌≡◌, refl, ◌∙◌, ap, Bool, true, false, List, [], ◌∷◌, ◌++◌, arith, ◌==◌,
  any, keep, length, map, All, Bool-cases, inl, inr,
}
use py_aleph.Queries.{SortOrder, ascending, descending, earlier, take, drop, paginate}
use py_aleph.Queries.Sort.{IsSorted, IsWeakOrder}

module _ {ℓ κ} {A : Type ℓ} {B : Type κ} (f : A → B) where
  pub length-map : (xs : List A) → length (map f xs) ≡ length xs
  length-map [] = refl
  length-map (x ∷ xs) = ap (λ n. suc n) (length-map xs)

  pub any-map : (p : B → Bool) (xs : List A) → any p (map f xs) ≡ any (λ x. p (f x)) xs
  any-map p [] = refl
  any-map p (x ∷ xs) = rw (any-map p xs) refl

  pub map-append : (xs ys : List A) → map f (xs ++ ys) ≡ map f xs ++ map f ys
  map-append [] ys = refl
  map-append (x ∷ xs) ys = ap (λ l. f x ∷ l) (map-append xs ys)

module _ {ℓ} {A : Type ℓ} where
  any-take : (p : A → Bool) (n : ℕ) (xs : List A) → any p xs ≡ false → any p (take n xs) ≡ false
  any-take p zero xs a = refl
  any-take p (suc n) [] a = refl
  any-take p (suc n) (x ∷ xs) a = ground (arith, a, any-take p n xs)

  pub All-weaken {κ ι} :
      {P : A → Type κ} {Q : A → Type ι} (xs : List A) → ((x : A) → P x → Q x) → All P xs → All Q xs
  All-weaken [] k a = tt
  All-weaken (x ∷ xs) k a = (k x a.0, All-weaken xs k a.1)

  pub All-keep_test : (p : A → Bool) (xs : List A) → All (λ x. p x ≡ true) (keep p xs)
  All-keep_test p [] = tt
  All-keep_test p (x ∷ xs) = elim (Bool-cases (p x)) [
    | inl y ↦ rw y (y, All-keep_test p xs)
    | inr n ↦ rw n (All-keep_test p xs)
  ]

  pub All-take {κ} : (P : A → Type κ) (n : ℕ) (xs : List A) → All P xs → All P (take n xs)
  All-take P zero xs a = tt
  All-take P (suc n) [] a = tt
  All-take P (suc n) (x ∷ xs) a = (a.0, All-take P n xs a.1)

  module _ (before : A → A → Bool) where
    IsSorted-take : (n : ℕ) (xs : List A) → IsSorted before xs → IsSorted before (take n xs)
    IsSorted-take zero xs s = tt
    IsSorted-take (suc n) [] s = tt
    IsSorted-take (suc n) (x ∷ xs) s = (any-take (λ y. before y x) n xs s.0, IsSorted-take n xs s.1)

    IsSorted-drop : (n : ℕ) (xs : List A) → IsSorted before xs → IsSorted before (drop n xs)
    IsSorted-drop zero xs s = s
    IsSorted-drop (suc n) [] s = tt
    IsSorted-drop (suc n) (x ∷ xs) s = IsSorted-drop n xs s.1

    -- A page of a sorted listing is sorted.
    pub paginate-IsSorted :
        (page pagination : ℕ) (xs : List A)
        → IsSorted before xs
        → IsSorted before (paginate page pagination xs)
    unfolding paginate
    paginate-IsSorted page pagination xs s = elim (Bool-cases (pagination == 0)) [
      | inl all ↦ rw all (IsSorted-drop ((page - 1) * pagination) xs s)
      | inr some_ ↦ rw some_ (
          IsSorted-take pagination (drop ((page - 1) * pagination) xs)
            (IsSorted-drop ((page - 1) * pagination) xs s))
    ]

pub IsSorted-map :
    {A B : Type 0} (f : A → B) (before : B → B → Bool) (xs : List A)
    → IsSorted (λ a b. before (f a) (f b)) xs
    → IsSorted before (map f xs)
IsSorted-map f before [] s = tt
IsSorted-map f before (x ∷ xs) s =
    (any-map f (λ y. before y (f x)) xs ∙ s.0, IsSorted-map f before xs s.1)

-- The order of a column is a weak order.
pub earlier-IsWeakOrder :
    {A : Type 0} (order : SortOrder) (column : A → ℕ)
    → IsWeakOrder (λ a b. earlier order (column a) (column b))
earlier-IsWeakOrder ascending column = record {
  asym = λ x y h. ground (arith, h);
  trans = λ x y z h i. ground (arith, h, i);
}
earlier-IsWeakOrder descending column = record {
  asym = λ x y h. ground (arith, h);
  trans = λ x y z h i. ground (arith, h, i);
}
