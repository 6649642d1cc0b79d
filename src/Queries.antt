-- ===== src/Queries.antt =====
-- What the listings of src/aleph/db/accessors share: the order, the offset and the limit of a
-- SELECT, and the sort orders of src/aleph/types/sort_order.py.
pub mod Sort
pub mod Pages
pub mod Lists
pub mod Messages
pub mod Status
pub mod Socket
pub mod Posts
use py_aleph.Prelude.{
  ℕ, zero, suc, ◌-◌, ◌*◌, Bool, true, false, not, Option, none, some, List, [], ◌∷◌, ltb, leb, ◌==◌,
  if◌then◌else◌, any, keep,
}

-- `SortOrder` and `SortBy`.
pub data SortOrder : Type 0 where
  ascending descending : SortOrder

pub data SortBy : Type 0 where
  by_time by_tx_time : SortBy

abbrev pub is_by_tx_time : SortBy → Bool
is_by_tx_time by_time = false
is_by_tx_time by_tx_time = true

-- A column in an order: whether a row is to come strictly before another.
abbrev pub earlier : SortOrder → ℕ → ℕ → Bool
earlier ascending a b = ltb a b
earlier descending a b = ltb b a

-- `nullslast` of the ascending order, `nullsfirst` of the descending one.
abbrev pub earlier_or_null : SortOrder → Option ℕ → Option ℕ → Bool
earlier_or_null order (some a) (some b) = earlier order a b
earlier_or_null ascending (some a) none = true
earlier_or_null ascending none b = false
earlier_or_null descending none (some b) = true
earlier_or_null descending a none = false

-- `IN`, and a filter that is absent or empty and so is not applied.
abbrev pub is_in : ℕ → List ℕ → Bool
is_in a values = any (λ v. v == a) values

abbrev pub in_filter : List ℕ → ℕ → Bool
in_filter [] a = true
in_filter (v ∷ values) a = is_in a (v ∷ values)

-- A column that may be NULL passes no filter.
abbrev pub in_filter? : List ℕ → Option ℕ → Bool
in_filter? [] a = true
in_filter? (v ∷ values) none = false
in_filter? (v ∷ values) (some a) = is_in a (v ∷ values)

-- `has_any` of the tags.
abbrev pub tags_filter : List ℕ → List ℕ → Bool
tags_filter [] tags = true
tags_filter (v ∷ values) tags = any (λ tag. is_in tag (v ∷ values)) tags

-- `coerce_to_datetime`: 0 is no date.
unfoldable pub coerce_to_datetime : Option ℕ → Option ℕ
coerce_to_datetime none = none
coerce_to_datetime (some timestamp) = if timestamp == 0 then none else some timestamp

abbrev pub from_date : Option ℕ → ℕ → Bool
from_date none time = true
from_date (some start) time = leb start time

abbrev pub until_date : Option ℕ → ℕ → Bool
until_date none time = true
until_date (some end) time = ltb time end

module _ {ℓ} {A : Type ℓ} where
  -- `ORDER BY`: equal rows stay in the order of the table.
  abbrev pub insert_by : (A → A → Bool) → A → List A → List A
  insert_by before x [] = x ∷ []
  insert_by before x (y ∷ ys) =
      let rest = insert_by before x ys in if before y x then y ∷ rest else x ∷ y ∷ ys

  abbrev pub sort_by : (A → A → Bool) → List A → List A
  sort_by before [] = []
  sort_by before (x ∷ xs) = insert_by before x (sort_by before xs)

  -- `LIMIT` and `OFFSET`.
  abbrev pub take : ℕ → List A → List A
  take zero xs = []
  take (suc n) [] = []
  take (suc n) (x ∷ xs) = x ∷ take n xs

  abbrev pub drop : ℕ → List A → List A
  drop zero xs = xs
  drop (suc n) [] = []
  drop (suc n) (x ∷ xs) = drop n xs

  -- `.offset((page - 1) * pagination)`, and the limit unless `pagination` is 0.
  unfoldable pub paginate : ℕ → ℕ → List A → List A
  paginate page pagination rows =
      let rest = drop ((page - 1) * pagination) rows in
      if pagination == 0 then rest else take pagination rest
