-- ===== src/Prelude/Keys.antt =====
-- Rows with a unique key, as the queries by that key find them.
use mathlib.Core.Path.{◌≡◌, refl, sym, subst}
use mathlib.Core.Logic.{inl, inr}
use mathlib.Core.Bool.{Bool, false}
use mathlib.Core.Option.{none, some}
use mathlib.Core.List.{List, [], ◌∷◌, ◌++◌}
use native.Mathlib.Omega.{arith}
use py_aleph.Prelude.Tests.{if◌then◌else◌, ◌==◌, Bool-cases}
use py_aleph.Prelude.Lists.{any, any-append, keep, first, bind, All}
use Prim.Native.Nat.{ℕ}

pub some_inj {ℓ} : {A : Type ℓ} {a b : A} → some a ≡ some b → a ≡ b
some_inj e = cc (e)

module _ {A : Type 0} (key : A → ℕ) where
  abbrev pub is_key : ℕ → A → Bool
  is_key h a = key a == h

  -- No two rows have the same key.
  abbrev pub IsUnique : List A → Type 0
  IsUnique [] = Unit
  IsUnique (x ∷ xs) = (any (is_key (key x)) xs ≡ false) × IsUnique xs

  pub IsUnique-append :
      (xs : List A) (x : A)
      → IsUnique xs
      → any (is_key (key x)) xs ≡ false
      → IsUnique (xs ++ (x ∷ []))
  IsUnique-append [] x u n = (refl, tt)
  IsUnique-append (y ∷ xs) x u n = (
    rw (any-append (is_key (key y)) xs (x ∷ [])) (ground (arith, n, u.0)),
    IsUnique-append xs x u.1 (ground (arith, n)),
  )

  pub any-keep : (q r : A → Bool) (xs : List A) → any q xs ≡ false → any q (keep r xs) ≡ false
  any-keep q r [] h = refl
  any-keep q r (x ∷ xs) h = ground (arith, h, any-keep q r xs)

  pub IsUnique-keep : (r : A → Bool) (xs : List A) → IsUnique xs → IsUnique (keep r xs)
  IsUnique-keep r [] u = tt
  IsUnique-keep r (x ∷ xs) u = elim (Bool-cases (r x)) [
    | inl y ↦ rw y (any-keep (is_key (key x)) r xs u.0, IsUnique-keep r xs u.1)
    | inr n ↦ rw n (IsUnique-keep r xs u.1)
  ]

  pub first-none : (q : A → Bool) (xs : List A) → any q xs ≡ false → first q xs ≡ none
  first-none q [] h = refl
  first-none q (x ∷ xs) h = ground (arith, h, first-none q xs)

  -- The row of a key, if it stays, is found among the rows that stay, and no other.
  pub first-keep :
      (r : A → Bool) (h : ℕ) (xs : List A)
      → IsUnique xs
      → first (is_key h) (keep r xs)
        ≡ bind (first (is_key h) xs) (λ x. if r x then some x else none)
  first-keep r h [] u = refl
  first-keep r h (x ∷ xs) u = elim (Bool-cases (key x == h)) [
    | inr other ↦ elim (Bool-cases (r x)) [
      | inl stays ↦ rw (stays, other) (rw (first-keep r h xs u.1) refl)
      | inr goes ↦ rw (goes, other) (first-keep r h xs u.1)
    ]
    | inl same ↦ elim (Bool-cases (r x)) [
      | inl stays ↦ rw (stays, same, stays) refl
      | inr goes ↦
          (let eq : key x ≡ h = ground (arith, same) in
            let others : any (is_key h) xs ≡ false = rw eq at u.0 in
            rw (goes, same, goes)
              (first-none (is_key h) (keep r xs) (any-keep (is_key h) r xs others)))
    ]
  ]

  pub first-is_key : (h : ℕ) (xs : List A) (x : A) → first (is_key h) xs ≡ some x → key x ≡ h
  first-is_key h [] x e = absurd (cc)
  first-is_key h (y ∷ xs) x e = elim (Bool-cases (key y == h)) [
    | inl same ↦
        (let it : some y ≡ some x = rw same at e in rw (sym (some_inj it)) (ground (arith, same)))
    | inr other ↦ first-is_key h xs x (rw other at e)
  ]

  any-none : (q : A → Bool) (xs : List A) → any q xs ≡ false → All (λ x. q x ≡ false) xs
  any-none q [] h = tt
  any-none q (x ∷ xs) h = (ground (arith, h), any-none q xs (ground (arith, h)))

  All-first :
      (P : A → Type 0) (q : A → Bool) (xs : List A) (x : A) → All P xs → first q xs ≡ some x → P x
  All-first P q [] x a e = absurd (cc)
  All-first P q (y ∷ xs) x a e = elim (Bool-cases (q y)) [
    | inl found ↦ (let eq : some y ≡ some x = rw found at e in subst P (some_inj eq) a.0)
    | inr n ↦ All-first P q xs x a.1 (rw n at e)
  ]

  -- The row that a query finds is the one of its key.
  pub first_unique :
      (q : A → Bool) (xs : List A) (x : A)
      → IsUnique xs
      → first q xs ≡ some x
      → first (is_key (key x)) xs ≡ some x
  first_unique q [] x u e = absurd (cc)
  first_unique q (y ∷ xs) x u e = elim (Bool-cases (q y)) [
    | inl found ↦ (let eq : some y ≡ some x = rw found at e in rw (some_inj eq) (ground arith))
    | inr n ↦
        (let later : first q xs ≡ some x = rw n at e in
          let other : (key x == key y) ≡ false =
            All-first (λ z. (key z == key y) ≡ false) q xs x (any-none (is_key (key y)) xs u.0)
              later in
          let turned : (key y == key x) ≡ false = ground (arith, other) in
          rw turned (first_unique q xs x u.1 later))
  ]
