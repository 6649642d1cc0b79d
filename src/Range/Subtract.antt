-- ===== src/Range/Subtract.antt =====
-- What `Range.__sub__` and `Range.remove_multirange` of range.py leave.
use mathlib.Core.Option
use py_aleph.Prelude.{
  ℕ, ◌≤◌, ◌<◌, ◌≡◌, inl, inr, ap, ◌∙◌, Bool, true, false, not, ◌&&◌, ◌||◌, Option, some, List, [],
  ◌∷◌, arith, ltb, leb, ◌==◌, Bool-cases,
}
use py_aleph.Range.{Range, make_range, overlaps, range_sub}
use py_aleph.Range.Points.{contains, covers, IsValid, IsProper, lost}

-- Ranges that do not overlap have no point in common.
pub overlaps-disjoint :
    (x : ℕ) (a b : Range) → overlaps a b ≡ false → contains x a ≡ true → contains x b ≡ false
unfolding overlaps
overlaps-disjoint x a b h i = ground arith

-- Ranges that overlap meet: neither lies beyond an end of the other.
pub overlaps-meet : (a b : Range) → overlaps a b ≡ true → (a.lower ≤ b.upper) × (b.lower ≤ a.upper)
unfolding overlaps
overlaps-meet a b h = ground arith

-- Of two overlapping ranges that only touch, one includes the point where they meet.
overlaps-touch_above :
    (a b : Range)
    → overlaps a b ≡ true
    → a.lower < b.lower
    → (a.upper == b.lower && not (a.upper_inc || b.lower_inc)) ≡ false
unfolding overlaps
overlaps-touch_above a b h l = ground arith

overlaps-touch_below :
    (a b : Range)
    → overlaps a b ≡ true
    → b.lower < a.lower
    → (a.lower == b.upper && not (a.lower_inc || b.upper_inc)) ≡ false
unfolding overlaps
overlaps-touch_below a b h l = ground arith

-- The points that subtraction keeps.
abbrev pub left_over : ℕ → Range → Range → Bool
left_over x self other = contains x self && not (contains x other) && not (lost x self other)

abbrev range : ℕ → ℕ → Bool → Bool → Range
range l u li ui = record { lower = l; upper = u; lower_inc = li; upper_inc = ui }

module _ (self other : Range) where
  abbrev below_piece : Range
  below_piece = range self.lower other.lower self.lower_inc (not other.lower_inc)

  abbrev above_piece : Range
  above_piece = range other.upper self.upper (not other.upper_inc) self.upper_inc

-- The shapes of the answer, with what the tests of the code say there.
module _ (x : ℕ) (self other : Range) (v : IsValid self) (p : IsProper other) where
  below_points :
      self.lower < other.lower
      → other.lower ≤ self.upper
      → self.upper ≤ other.upper
      → (self.upper == other.lower && not (self.upper_inc || other.lower_inc)) ≡ false
      → covers x (below_piece self other ∷ []) ≡ left_over x self other
  below_points a b c h = ground (arith, p.1)

  both_points :
      self.lower < other.lower
      → other.upper < self.upper
      → covers x (below_piece self other ∷ above_piece self other ∷ []) ≡ left_over x self other
  both_points a b = ground (arith, p.0)

  above_points :
      other.lower ≤ self.lower
      → other.upper < self.upper
      → self.lower ≤ other.upper
      → (ltb other.lower self.lower
          && (self.lower == other.upper && not (self.lower_inc || other.upper_inc)))
        ≡ false
      → covers x (above_piece self other ∷ []) ≡ left_over x self other
  above_points a b c d = ground (arith, p.1)

  end_points :
      other.lower ≤ self.lower
      → (self.upper == other.upper && (self.upper_inc && not other.upper_inc)) ≡ true
      → (ltb other.lower self.lower
          && (self.lower == other.upper && not (self.lower_inc || other.upper_inc)))
        ≡ false
      → covers x (above_piece self other ∷ []) ≡ left_over x self other
  end_points a b c = ground (arith, p.1)

  no_points :
      other.lower ≤ self.lower
      → self.upper ≤ other.upper
      → (self.upper == other.upper && (self.upper_inc && not other.upper_inc)) ≡ false
      → false ≡ left_over x self other
  no_points a b c = ground arith

  abbrev Keeps : Option (List Range) → Type 0
  Keeps r = Option.map (covers x) r ≡ some (left_over x self other)

  sub_below : overlaps self other ≡ true → self.lower < other.lower → Keeps (range_sub self other)
  unfolding range_sub make_range
  sub_below o l = elim (Bool-cases (leb self.upper other.upper)) [
    | inl u ↦
        (let shape : range_sub self other ≡ some (below_piece self other ∷ []) = ground arith in
          ap (Option.map (covers x)) shape
          ∙ ap some (
              below_points l (overlaps-meet self other o).1 (ground arith)
                (overlaps-touch_above self other o l)))
    | inr u ↦
        (let shape : range_sub self other
              ≡ some (below_piece self other ∷ above_piece self other ∷ []) =
            ground (arith, p.0) in
          ap (Option.map (covers x)) shape ∙ ap some (both_points l (ground arith)))
  ]

  sub_above : overlaps self other ≡ true → other.lower ≤ self.lower → Keeps (range_sub self other)
  unfolding range_sub make_range
  sub_above o l =
      let touch : (ltb other.lower self.lower
            && (self.lower == other.upper && not (self.lower_inc || other.upper_inc)))
          ≡ false =
        ground (arith, overlaps-touch_below self other o) in
      elim (Bool-cases (ltb other.upper self.upper)) [
        | inl u ↦
            (let shape : range_sub self other ≡ some (above_piece self other ∷ []) = ground arith in
              ap (Option.map (covers x)) shape
              ∙ ap some (above_points l (ground arith) (overlaps-meet self other o).0 touch))
        | inr u ↦
            elim (Bool-cases
              (self.upper == other.upper && (self.upper_inc && not other.upper_inc))) [
                | inl e ↦
                    (let shape : range_sub self other ≡ some (above_piece self other ∷ []) =
                        ground arith in
                      ap (Option.map (covers x)) shape ∙ ap some (end_points l e touch))
                | inr e ↦
                    (let shape : range_sub self other ≡ some [] = ground arith in
                      ap (Option.map (covers x)) shape ∙ ap some (no_points l (ground arith) e))
              ]
      ]

overlaps-lost :
    (x : ℕ) (self other : Range)
    → IsValid self
    → IsProper other
    → overlaps self other ≡ false
    → lost x self other ≡ false
unfolding overlaps
overlaps-lost x self other v p o = ground (arith, v, p.0, p.1)

and_apart :
    (c d e : Bool) → (c ≡ true → d ≡ false) → e ≡ false → (c || false) ≡ (c && not d && not e)
and_apart c d e h k = ground (arith, h)

apart_points :
    (x : ℕ) (self other : Range)
    → IsValid self
    → IsProper other
    → overlaps self other ≡ false
    → (contains x self || false) ≡ left_over x self other
apart_points x self other v p o =
    and_apart (contains x self) (contains x other) (lost x self other)
      (overlaps-disjoint x self other o) (overlaps-lost x self other v p o)

-- Subtraction of ranges, point by point, where both have their bounds in order and the one that is
-- taken away is not degenerate (its bounds differ, or both are included): it does not raise, and
-- the pieces cover what `self` holds and `other` does not, but for the points that `lost` names.
pub range_sub-covers :
    (x : ℕ) (self other : Range)
    → IsValid self
    → IsProper other
    → Option.map (covers x) (range_sub self other)
      ≡ some (contains x self && not (contains x other) && not (lost x self other))
unfolding range_sub
range_sub-covers x self other v p = elim (Bool-cases (overlaps self other)) [
  | inl o ↦ elim (Bool-cases (ltb self.lower other.lower)) [
    | inl l ↦ sub_below x self other v p o (ground arith)
    | inr l ↦ sub_above x self other v p o (ground arith)
  ]
  | inr o ↦
      (let shape : range_sub self other ≡ some (self ∷ []) = ground arith in
        ap (Option.map (covers x)) shape ∙ ap some (apart_points x self other v p o))
]
