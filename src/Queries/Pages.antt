-- ===== src/Queries/Pages.antt =====
-- The pages of a listing, and the listing as a whole.
use py_aleph.Prelude.{
  ℕ, zero, suc, ◌+◌, ◌-◌, ◌==◌, false, ◌*◌, ◌≤◌, ◌<◌, ◌≡◌, refl, ◌∙◌, sym, ap, List, [], ◌∷◌, ◌++◌,
  length, arith,
}
use py_aleph.Queries.{take, drop, paginate}

module _ {ℓ} {A : Type ℓ} where
  -- The first pages of a listing, one after another.
  unfoldable pub pages : ℕ → ℕ → List A → List A
  pages zero pagination rows = []
  pages (suc n) pagination rows = pages n pagination rows ++ paginate (suc n) pagination rows

  take-nil : (n : ℕ) → take {A = A} n [] ≡ []
  take-nil zero = refl
  take-nil (suc n) = refl

  take-same : (m n : ℕ) (xs : List A) → m ≡ n → take m xs ≡ take n xs
  take-same m n xs e = rw e refl

  take-drop : (m n : ℕ) (xs : List A) → take m xs ++ take n (drop m xs) ≡ take (m + n) xs
  take-drop zero n xs = take-same n (0 + n) xs (omega arith)
  take-drop (suc m) n [] = take-nil n ∙ sym (take-nil (suc m + n))
  take-drop (suc m) n (x ∷ xs) =
      ap (λ l. x ∷ l) (take-drop m n xs)
      ∙ take-same (suc (m + n)) (suc m + n) (x ∷ xs) (omega arith)

  pub take_all : (n : ℕ) (xs : List A) → length xs ≤ n → take n xs ≡ xs
  take_all zero [] h = refl
  take_all zero (x ∷ xs) h = absurd (omega arith)
  take_all (suc n) [] h = refl
  take_all (suc n) (x ∷ xs) h = ap (λ l. x ∷ l) (take_all n xs (omega arith))

  pub length-take : (n : ℕ) (xs : List A) → length (take n xs) ≤ n
  length-take zero xs = omega arith
  length-take (suc n) [] = omega arith
  length-take (suc n) (x ∷ xs) = let h = length-take n xs in omega arith

  pub paginate-zero : (xs : List A) → paginate 1 0 xs ≡ xs
  unfolding paginate
  paginate-zero xs = refl

  paginate-page :
      (n k : ℕ) (xs : List A) → paginate (suc n) (suc k) xs ≡ take (suc k) (drop (n * suc k) xs)
  unfolding paginate
  paginate-page n k xs =
      let first : (suc n - 1) ≡ n = omega arith in
      let some_limit : (suc k == 0) ≡ false = ground arith in rw (first, some_limit) refl

  pages-take :
      (n pagination : ℕ) (xs : List A)
      → 0 < pagination
      → pages n pagination xs ≡ take (n * pagination) xs
  unfolding pages
  pages-take zero pagination xs h = take-same 0 (0 * pagination) xs (omega arith)
  pages-take (suc n) zero xs h = absurd (omega arith)
  pages-take (suc n) (suc k) xs h =
      rw (pages-take n (suc k) xs h, paginate-page n k xs)
        (take-drop (n * suc k) (suc k) xs
          ∙ take-same (n * suc k + suc k) (suc n * suc k) xs (omega arith))

  -- The pages, one after another, are the whole listing, if there are enough of them.
  pub pages_all :
      (n pagination : ℕ) (xs : List A)
      → 0 < pagination
      → length xs ≤ n * pagination
      → pages n pagination xs ≡ xs
  pages_all n pagination xs h e = pages-take n pagination xs h ∙ take_all (n * pagination) xs e
