-- ===== src/Range/Points.antt =====
-- What a range holds, point by point, for range.py.
use py_aleph.Prelude.{ℕ, ◌≤◌, ◌≡◌, Bool, false, not, ◌&&◌, ◌||◌, List, ltb, leb, ◌==◌, any}
use py_aleph.Range.{Range}

-- `x in range`, with the flags of the two ends.
abbrev pub contains : ℕ → Range → Bool
contains x r =
    (ltb r.lower x || (r.lower == x && r.lower_inc))
    && (ltb x r.upper || (x == r.upper && r.upper_inc))

-- The points from the lower end on and below the upper one, whatever the flags say.
abbrev pub in_core : ℕ → Range → Bool
in_core x r = leb r.lower x && ltb x r.upper

abbrev pub covers : ℕ → List Range → Bool
covers x rs = any (contains x) rs

abbrev pub core_covers : ℕ → List Range → Bool
core_covers x rs = any (in_core x) rs

-- What the constructor lets through.
abbrev pub IsValid : Range → Type 0
IsValid r = r.lower ≤ r.upper

-- A valid range that holds its ends, or more than one number between them: it is not one of
-- `[a, a)`, `(a, a]` and `(a, a)`.
abbrev pub is_degenerate : Range → Bool
is_degenerate r = r.lower == r.upper && not (r.lower_inc && r.upper_inc)

abbrev pub IsProper : Range → Type 0
IsProper r = IsValid r × (is_degenerate r ≡ false)

-- The points of `self` outside `other` that `self - other` leaves out: a shared upper end that only
-- `self` includes, when `self` begins below `other`, and a shared lower end that only `self` includes.
abbrev pub lost : ℕ → Range → Range → Bool
lost x self other =
    (x == self.upper
      && self.upper == other.upper
      && self.upper_inc
      && not other.upper_inc
      && ltb self.lower other.lower)
    || (x == self.lower && self.lower == other.lower && self.lower_inc && not other.lower_inc)

-- `x` is an end of one of the ranges.
abbrev pub is_end : ℕ → Range → Bool
is_end x r = x == r.lower || x == r.upper

abbrev pub ends : ℕ → List Range → Bool
ends x rs = any (is_end x) rs
