-- ===== src/Prelude/Lists.antt =====
-- Lists and options as the models use them: tests by Boolean functions, and chains of options.
use Prim.Native.Nat.{ℕ, suc}
use mathlib.Core.Path.{◌≡◌, refl}
use mathlib.Core.Bool.{Bool, false, true, ◌||◌}
use mathlib.Core.Option.{Option, none, some}
use mathlib.Core.List.{List, [], ◌∷◌, ◌++◌}
use native.Mathlib.Omega.{arith}
use py_aleph.Prelude.Tests.{if◌then◌else◌, Bool-cases}
use mathlib.Core.Logic.{inl, inr}

abbrev pub bind {ℓ κ} : {A : Type ℓ} {B : Type κ} → Option A → (A → Option B) → Option B
bind none f = none
bind (some a) f = f a

module _ {ℓ} {A : Type ℓ} where
  abbrev pub any : (A → Bool) → List A → Bool
  any p [] = false
  any p (x ∷ xs) = p x || any p xs

  -- `WHERE` of a select: the rows that pass a test, in their order.
  abbrev pub keep : (A → Bool) → List A → List A
  keep p [] = []
  keep p (x ∷ xs) = if p x then x ∷ keep p xs else keep p xs

  -- The first row that passes a test, as a `scalar()` of a select returns it.
  abbrev pub first : (A → Bool) → List A → Option A
  first p [] = none
  first p (x ∷ xs) = if p x then some x else first p xs

  abbrev pub All {κ} : (A → Type κ) → List A → Type κ
  All P [] = Unit
  All P (x ∷ xs) = P x × All P xs

  abbrev pub length : List A → ℕ
  length [] = 0
  length (x ∷ xs) = suc (length xs)

module _ {ℓ} {A : Type ℓ} where
  pub any-append : (p : A → Bool) (xs ys : List A) → any p (xs ++ ys) ≡ (any p xs || any p ys)
  any-append p [] ys = refl
  any-append p (x ∷ xs) ys = ground (arith, any-append p xs ys)

  pub keep-append : (p : A → Bool) (xs ys : List A) → keep p (xs ++ ys) ≡ keep p xs ++ keep p ys
  keep-append p [] ys = refl
  keep-append p (x ∷ xs) ys = ground (arith, keep-append p xs ys)

  pub All-append {κ} : (P : A → Type κ) (xs ys : List A) → All P xs → All P ys → All P (xs ++ ys)
  All-append P [] ys hx hy = hy
  All-append P (x ∷ xs) ys hx hy = (hx.0, All-append P xs ys hx.1 hy)

  pub All-keep {κ} : (P : A → Type κ) (r : A → Bool) (xs : List A) → All P xs → All P (keep r xs)
  All-keep P r [] a = tt
  All-keep P r (x ∷ xs) a = elim (Bool-cases (r x)) [
    | inl y ↦ rw y (a.0, All-keep P r xs a.1)
    | inr n ↦ rw n (All-keep P r xs a.1)
  ]

  -- A row that was found first stays so when one is added at the end.
  pub first-append :
      (p : A → Bool) (xs ys : List A) (x : A) → first p xs ≡ some x → first p (xs ++ ys) ≡ some x
  first-append p [] ys x h = absurd (cc)
  first-append p (y ∷ xs) ys x h = ground (arith, h, first-append p xs ys x)

  -- The added row is found, if none before it is.
  pub first-new :
      (p : A → Bool) (xs : List A) (x : A)
      → any p xs ≡ false
      → p x ≡ true
      → first p (xs ++ (x ∷ [])) ≡ some x
  first-new p [] x h i = ground (arith, i)
  first-new p (y ∷ xs) x h i = ground (arith, h, i, first-new p xs x)

  -- Another row that is added is not found.
  pub first-skip :
      (p : A → Bool) (xs : List A) (x : A) → p x ≡ false → first p (xs ++ (x ∷ [])) ≡ first p xs
  first-skip p [] x i = ground (arith, i)
  first-skip p (y ∷ xs) x i = ground (arith, i, first-skip p xs x)
