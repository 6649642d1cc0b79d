-- ===== src/Range.antt =====
-- src/aleph/toolkit/range.py: ranges and sorted lists of ranges, over naturals.
pub mod Points
pub mod Subtract
pub mod Remove
pub mod Separated
pub mod Multi
use py_aleph.Prelude.{
  ℕ, min, max, Bool, true, false, not, ◌&&◌, ◌||◌, Option, none, some, List, [], ◌∷◌, ◌++◌, ltb,
  leb, ◌==◌, if◌then◌else◌, bind,
}

pub record Range : Type 0 where
  pub lower : ℕ
  pub upper : ℕ
  pub lower_inc : Bool
  pub upper_inc : Bool

-- `Range.__init__`: `none` is the `ValueError` of an upper bound below the lower one.
unfoldable pub make_range : ℕ → ℕ → Bool → Bool → Option Range
make_range lower upper lower_inc upper_inc =
    if ltb upper lower
    then none
    else some
        (record { lower = lower; upper = upper; lower_inc = lower_inc; upper_inc = upper_inc })

unfoldable pub is_strictly_left_of : Range → Range → Bool
is_strictly_left_of self other =
    if self.upper_inc || other.lower_inc
    then ltb self.upper other.lower
    else leb self.upper other.lower

unfoldable pub is_strictly_right_of : Range → Range → Bool
unfolding is_strictly_left_of
is_strictly_right_of self other = is_strictly_left_of other self

-- `Range.overlaps`: ranges that touch overlap if one of the two ends that meet is included.
unfoldable pub overlaps : Range → Range → Bool
overlaps self other =
    if ltb other.upper self.lower || ltb self.upper other.lower
    then false
    else if ltb self.lower other.lower
    then if ltb other.lower self.upper
      then true
      else self.upper == other.lower && (self.upper_inc || other.lower_inc)
    else if self.lower == other.lower && (self.lower_inc || other.lower_inc)
    then true
    else if ltb self.lower other.upper
    then true
    else self.lower == other.upper && (self.lower_inc || other.upper_inc)

-- `Range.__add__`: the result is built with the default flags, `[` and `)`.
unfoldable pub range_add : Range → Range → Option Range
unfolding make_range overlaps
range_add self other =
    if overlaps self other
    then make_range (min self.lower other.lower) (max self.upper other.upper) true false
    else some self

-- The list of the ranges that constructors returned; one that raised raises.
abbrev pub one_range : Option Range → Option (List Range)
one_range r = bind r λ a. some (a ∷ [])

abbrev pub two_ranges : Option Range → Option Range → Option (List Range)
two_ranges r s = bind r λ a. bind s λ b. some (a ∷ b ∷ [])

-- `Range.__sub__`.
unfoldable pub range_sub : Range → Range → Option (List Range)
unfolding make_range overlaps
range_sub self other =
    let below = make_range self.lower other.lower self.lower_inc (not other.lower_inc) in
    let above = make_range other.upper self.upper (not other.upper_inc) self.upper_inc in
    if not (overlaps self other)
    then some (self ∷ [])
    else if ltb self.lower other.lower
    then if leb self.upper other.upper then one_range below else two_ranges below above
    else if ltb other.upper self.upper
    then one_range above
    else if self.upper == other.upper && (self.upper_inc && not other.upper_inc)
    then one_range above
    else some []

-- The inner loop of `Range.remove_multirange`: subtract one range from all that is missing.
unfoldable pub sub_each : List Range → Range → Option (List Range)
sub_each [] rng = some []
sub_each (missing ∷ rest) rng =
    bind (range_sub missing rng)
      λ pieces. bind (sub_each rest rng) λ others. some (pieces ++ others)

unfoldable pub sub_all : List Range → List Range → Option (List Range)
sub_all missing [] = some missing
sub_all missing (rng ∷ rngs) = bind (sub_each missing rng) λ left. sub_all left rngs

-- `Range.remove_multirange`.
unfoldable pub remove_multirange : Range → List Range → Option (List Range)
unfolding sub_each sub_all
remove_multirange self ranges = sub_all (self ∷ []) ranges

-- `sorted(ranges, key=lambda rng: rng.lower)`, which is stable.
unfoldable pub insert_sorted : Range → List Range → List Range
insert_sorted r [] = r ∷ []
insert_sorted r (s ∷ rest) = if leb r.lower s.lower then r ∷ s ∷ rest else s ∷ insert_sorted r rest

-- `MultiRange.__init__`: the ranges of the object.
unfoldable pub multirange : List Range → List Range
unfolding insert_sorted
multirange [] = []
multirange (r ∷ rest) = insert_sorted r (multirange rest)

-- The state of the loop in `MultiRange.add_range`.
pub record Placing : Type 0 where
  pub other : Range
  pub left_ranges : List Range
  pub right_ranges : List Range

-- The body of that loop, for one range of the object.
unfoldable pub place : Placing → Range → Option Placing
place p rng =
    if overlaps p.other rng
    then bind (range_add p.other rng) (λ merged. some (record p { other = merged }))
    else if is_strictly_left_of rng p.other
    then some (record p { left_ranges = p.left_ranges ++ (rng ∷ []) })
    else some (record p { right_ranges = p.right_ranges ++ (rng ∷ []) })

unfoldable pub place_all : Placing → List Range → Option Placing
place_all p [] = some p
place_all p (rng ∷ rngs) = bind (place p rng) λ q. place_all q rngs

abbrev pub placed : Placing → List Range
placed p = p.left_ranges ++ (p.other ∷ p.right_ranges)

-- `MultiRange.add_range`, and `MultiRange.__add__` of a range.
unfoldable pub add_range : List Range → Range → Option (List Range)
unfolding place_all
add_range ranges other =
    bind (place_all (record { other = other; left_ranges = []; right_ranges = [] }) ranges)
      λ p. some (placed p)

unfoldable pub remove_each : List Range → List Range → Option (List Range)
remove_each [] other = some []
remove_each (rng ∷ rngs) other =
    bind (remove_multirange rng other)
      λ pieces. bind (remove_each rngs other) λ rest. some (pieces ++ rest)

-- `MultiRange.__sub__`.
unfoldable pub multirange_sub : List Range → List Range → Option (List Range)
unfolding remove_each multirange
multirange_sub ranges other = bind (remove_each ranges other) λ missing. some (multirange missing)
