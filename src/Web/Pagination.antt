-- ===== src/Web/Pagination.antt =====
-- `get_path_page` and the class `Pagination` of src/aleph/web/controllers/utils.py.
use py_aleph.Prelude.{
  ℕ, zero, suc, ◌+◌, ◌-◌, ◌*◌, ◌/◌, ◌≤◌, ◌<◌, ◌≡◌, refl, ap, Bool, ◌&&◌, ◌||◌, Option, none, some,
  List, [], ◌∷◌, arith, ltb, leb, ◌==◌, if◌then◌else◌, keep, length, Bool-cases, inl, inr,
}
use py_aleph.Prelude.Keys.{some_inj}
use native.Mathlib.Nat.{le-div_iff_mul-le}
use py_aleph.Queries.Pages.{pages, pages_all}
use py_aleph.Queries.Status.{Response, http_error, response, bad_request, unprocessable_entity}

-- What `int` makes of the text of a page.
pub data PageText : Type 0 where
  not_a_number negative : PageText
  number : ℕ → PageText

unfoldable pub get_path_page : Option PageText → Response (Option ℕ)
get_path_page none = response none
get_path_page (some not_a_number) = http_error bad_request
get_path_page (some negative) = http_error unprocessable_entity
get_path_page (some (number page)) =
    if ltb page 1 then http_error unprocessable_entity else response (some page)

-- `Pagination`, without the parts for links. The division is that of the numbers that a float has
-- exactly; for 0 on a page it raises.
pub record Pagination : Type 0 where
  pub page : ℕ
  pub per_page : ℕ
  pub total_count : ℕ

abbrev pub ceil_div : ℕ → ℕ → ℕ
ceil_div total per_page = (total + (per_page - 1)) / per_page

unfoldable pub pages_of : Pagination → Option ℕ
pages_of p = if p.per_page == 0 then none else some (ceil_div p.total_count p.per_page)

unfoldable pub has_prev : Pagination → Bool
has_prev p = ltb 1 p.page

unfoldable pub has_next : Pagination → Option Bool
unfolding pages_of
has_next p = elim (pages_of p) [ none ↦ none | some last ↦ some (ltb p.page last) ]

-- The arguments of `iter_pages`.
pub record Edges : Type 0 where
  pub left_edge : ℕ
  pub left_current : ℕ
  pub right_current : ℕ
  pub right_edge : ℕ

-- `num > page - left_current - 1` and `num > pages - right_edge` over the integers.
abbrev pub is_shown : Edges → ℕ → ℕ → ℕ → Bool
is_shown e page count num =
    leb num e.left_edge
    || (ltb page (num + e.left_current + 1) && ltb num (page + e.right_current)
        || ltb count (num + e.right_edge))

-- The loop, from a number on, for so many numbers; `none` stands for a gap.
abbrev pub iter_from : Edges → ℕ → ℕ → ℕ → ℕ → ℕ → List (Option ℕ)
iter_from e page count last num zero = []
iter_from e page count last num (suc left) =
    let shown = some num ∷ iter_from e page count num (suc num) left in
    let skipped = iter_from e page count last (suc num) left in
    if is_shown e page count num then if last + 1 == num then shown else none ∷ shown else skipped

unfoldable pub iter_pages : Edges → Pagination → Option (List (Option ℕ))
unfolding pages_of
iter_pages e p = elim (pages_of p) [
  | none ↦ none
  | some count ↦ some (iter_from e p.page count 0 1 count)
]

-- The numbers that a listing of pages shows.
abbrev pub numbers : List (Option ℕ) → List ℕ
numbers [] = []
numbers (none ∷ xs) = numbers xs
numbers (some n ∷ xs) = n ∷ numbers xs

abbrev pub range_from : ℕ → ℕ → List ℕ
range_from num zero = []
range_from num (suc left) = num ∷ range_from (suc num) left

-- A gap stands exactly where the next number is not the successor of the last one.
abbrev pub IsGapped : ℕ → List (Option ℕ) → Type 0
IsGapped last [] = Unit
IsGapped last (some n ∷ xs) = (n ≡ last + 1) × IsGapped n xs
IsGapped last (none ∷ []) = ⊥
IsGapped last (none ∷ none ∷ xs) = ⊥
IsGapped last (none ∷ some n ∷ xs) = (last + 1 < n) × IsGapped n xs

iter_from-numbers :
    (e : Edges) (page count last num left : ℕ)
    → numbers (iter_from e page count last num left)
      ≡ keep (is_shown e page count) (range_from num left)
iter_from-numbers e page count last num zero = refl
iter_from-numbers e page count last num (suc left) = elim (Bool-cases (is_shown e page count num)) [
  | inr n ↦ rw n (iter_from-numbers e page count last (suc num) left)
  | inl y ↦ elim (Bool-cases (last + 1 == num)) [
    | inl next ↦
        rw (y, next) (ap (λ l. num ∷ l) (iter_from-numbers e page count num (suc num) left))
    | inr gap ↦ rw (y, gap) (ap (λ l. num ∷ l) (iter_from-numbers e page count num (suc num) left))
  ]
]

iter_from-IsGapped :
    (e : Edges) (page count last num left : ℕ)
    → last < num
    → IsGapped last (iter_from e page count last num left)
iter_from-IsGapped e page count last num zero h = tt
iter_from-IsGapped e page count last num (suc left) h =
    elim (Bool-cases (is_shown e page count num)) [
      | inr n ↦ rw n (iter_from-IsGapped e page count last (suc num) left (omega arith))
      | inl y ↦
          (let rest = iter_from-IsGapped e page count num (suc num) left (omega arith) in
            elim (Bool-cases (last + 1 == num)) [
              | inl next ↦ rw (y, next) (ground (arith, next), rest)
              | inr gap ↦ rw (y, gap) (ground (arith, gap, h), rest)
            ])
    ]

-- For a pagination whose number of pages is known, the iteration shows, in their order, the pages
-- that are at the left edge, around the current one or at the right edge, and no others; there is a gap
-- before a page if and only if the page before it is not the last one that was shown.
pub iter_pages-numbers :
    (e : Edges) (p : Pagination) (count : ℕ)
    → pages_of p ≡ some count
    → (shown : List (Option ℕ)) × (iter_pages e p ≡ some shown)
      × (numbers shown ≡ keep (is_shown e p.page count) (range_from 1 count))
      × IsGapped 0 shown
unfolding iter_pages
iter_pages-numbers e p count k = (
  iter_from e p.page count 0 1 count,
  rw (iter_pages, k) refl,
  iter_from-numbers e p.page count 0 1 count,
  iter_from-IsGapped e p.page count 0 1 count (omega arith),
)

times_suc : (n k : ℕ) → suc n * k ≡ n * k + k
times_suc n k = omega arith

ceil_div-bounds :
    (total per_page : ℕ)
    → 0 < per_page
    → (total ≤ ceil_div total per_page * per_page)
      × ((n : ℕ) → n < ceil_div total per_page → n * per_page < total)
ceil_div-bounds total per_page h = (
  (let c = ceil_div total per_page in
      let over : ¬ (suc c ≤ c) = λ x. omega arith in
      let past : ¬ (suc c * per_page ≤ total + (per_page - 1)) = λ x.
        over ((le-div_iff_mul-le {k = per_page} {x = suc c} {y = total + (per_page - 1)} h).1 x) in
      let split = times_suc c per_page in omega arith),
  λ n below.
      let within : suc n * per_page ≤ total + (per_page - 1) =
        (le-div_iff_mul-le {k = per_page} {x = suc n} {y = total + (per_page - 1)} h).0 below in
      let split = times_suc n per_page in omega arith,
)

-- A listing has as many pages as its pagination says: these pages, one after another, are the whole
-- listing, and the one before the last would not be enough.
pub pages_of-pages :
    {A : Type 0} (p : Pagination) (rows : List A) (count : ℕ)
    → p.total_count ≡ length rows
    → pages_of p ≡ some count
    → (pages count p.per_page rows ≡ rows) × ((n : ℕ) → n < count → n * p.per_page < length rows)
unfolding pages_of
pages_of-pages p rows count t k = elim (Bool-cases (p.per_page == 0)) [
  | inl zero_ ↦ absurd (cc (rw zero_ at k))
  | inr some_ ↦
      (let positive : 0 < p.per_page = ground (arith, some_) in
        let counted : some (ceil_div p.total_count p.per_page) ≡ some count = rw some_ at k in
        let bounds = ceil_div-bounds p.total_count p.per_page positive in
        let (enough, fewer) = rw (some_inj counted, t) at bounds in
        (pages_all count p.per_page rows positive enough, fewer))
]
