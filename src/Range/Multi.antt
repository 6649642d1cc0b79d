-- ===== src/Range/Multi.antt =====
-- What `MultiRange.add_range` of range.py does to separated ranges.
use mathlib.Core.Option
use py_aleph.Prelude.{
  ℕ, ◌<◌, min, max, ◌≡◌, inl, inr, refl, ap, ◌&&◌, ◌==◌, Bool, true, false, not, ◌||◌, some, List,
  [], ◌∷◌, ◌++◌, arith, All-append, any-append, Bool-cases,
}
use py_aleph.Range.{
  Range, Placing, make_range, overlaps, is_strictly_left_of, range_add, place, place_all, placed,
  add_range,
}
use py_aleph.Range.Points.{contains, in_core, core_covers, IsValid}
use py_aleph.Range.Subtract.{overlaps-meet}
use py_aleph.Range.Separated.{
  IsClosed, Before, IsSeparated, AllBefore, ListBefore, IsSeparated-append, ListBefore-one,
  ListBefore-head, ListBefore-tail, AllBefore-min, overlaps-gap, AllBefore-around,
}

merged : Range → Range → Range
merged a b = record {
  lower = min a.lower b.lower;
  upper = max a.upper b.upper;
  lower_inc = true;
  upper_inc = false;
}

range_add-merged :
    (a b : Range) → IsValid a → IsValid b → overlaps a b ≡ true → range_add a b ≡ some (merged a b)
unfolding range_add merged make_range
range_add-merged a b ha hb h = ground arith

-- Ranges that overlap leave no gap, so their sum has the points of both.
in_core-merged :
    (x : ℕ) (a b : Range)
    → overlaps a b ≡ true
    → in_core x (merged a b) ≡ (in_core x a || in_core x b)
unfolding merged
in_core-merged x a b h = ground (arith, overlaps-meet a b h)

-- A range that overlaps the new one comes before any range was put on the right.
merged-right :
    (a b : Range) (right : List Range) (rest : List Range)
    → overlaps a b ≡ true
    → IsSeparated right
    → Before a right
    → ListBefore right (b ∷ rest)
    → Before (merged a b) right
merged-right a b [] rest o s h k = tt
merged-right a b (r ∷ rs) rest o s h k =
    absurd (omega (arith, overlaps-meet a b o, s.0.0, h.0, k.0.0))

not-left_of :
    (r s : Range) → IsClosed s → IsValid r → s.upper < r.lower → is_strictly_left_of r s ≡ false
unfolding is_strictly_left_of
not-left_of r s c v h = ground arith

left_of-closed : (r s : Range) → IsClosed s → r.upper < s.lower → is_strictly_left_of r s ≡ true
unfolding is_strictly_left_of
left_of-closed r s c h = ground arith

or_swap :
    (l r a b m : Bool) {lm la : Bool}
    → m ≡ (a || b)
    → lm ≡ (l || (m || r))
    → la ≡ (l || (a || r))
    → lm ≡ (la || b)
or_swap l r a b m h e f = ground arith

or_left :
    (l r a b : Bool) {lba lb la : Bool}
    → lba ≡ (lb || (a || r))
    → lb ≡ (l || (b || false))
    → la ≡ (l || (a || r))
    → lba ≡ (la || b)
or_left l r a b e f g = ground arith

or_right :
    (l r a b : Bool) {larb rb la : Bool}
    → larb ≡ (l || (a || rb))
    → rb ≡ (r || (b || false))
    → la ≡ (l || (a || r))
    → larb ≡ (la || b)
or_right l r a b e f g = ground arith

-- One more range among the placed ones, wherever it is put, adds its points.
any_swap :
    (x : ℕ) (l r : List Range) (a b m : Range)
    → in_core x m ≡ (in_core x a || in_core x b)
    → core_covers x (l ++ (m ∷ r)) ≡ (core_covers x (l ++ (a ∷ r)) || in_core x b)
any_swap x l r a b m h =
    or_swap (core_covers x l) (core_covers x r) (in_core x a) (in_core x b) (in_core x m) h
      (any-append (in_core x) l (m ∷ r)) (any-append (in_core x) l (a ∷ r))

any_left :
    (x : ℕ) (l r : List Range) (a b : Range)
    → core_covers x ((l ++ (b ∷ [])) ++ (a ∷ r)) ≡ (core_covers x (l ++ (a ∷ r)) || in_core x b)
any_left x l r a b =
    or_left (core_covers x l) (core_covers x r) (in_core x a) (in_core x b)
      (any-append (in_core x) (l ++ (b ∷ [])) (a ∷ r)) (any-append (in_core x) l (b ∷ []))
      (any-append (in_core x) l (a ∷ r))

any_right :
    (x : ℕ) (l r : List Range) (a b : Range)
    → core_covers x (l ++ (a ∷ (r ++ (b ∷ [])))) ≡ (core_covers x (l ++ (a ∷ r)) || in_core x b)
any_right x l r a b =
    or_right (core_covers x l) (core_covers x r) (in_core x a) (in_core x b)
      (any-append (in_core x) l (a ∷ (r ++ (b ∷ [])))) (any-append (in_core x) r (b ∷ []))
      (any-append (in_core x) l (a ∷ r))

-- The invariant of the loop of `add_range`, before the ranges `rest`.
record IsPlacing (p : Placing) (rest : List Range) : Type 0 where
  closed : IsClosed p.other
  left_separated : IsSeparated p.left_ranges
  right_separated : IsSeparated p.right_ranges
  rest_separated : IsSeparated rest
  left_other : AllBefore p.left_ranges p.other
  other_right : Before p.other p.right_ranges
  left_rest : ListBefore p.left_ranges rest
  right_rest : ListBefore p.right_ranges rest

module _ (x : ℕ) where
  -- The range was put somewhere, and no point was lost or won.
  abbrev Placed : Placing → Range → List Range → Placing → Type 0
  Placed p rng rest q =
      IsPlacing q rest × (core_covers x (placed q) ≡ (core_covers x (placed p) || in_core x rng))

  place_merge :
      (p : Placing) (rng : Range) (rest : List Range)
      → IsPlacing p (rng ∷ rest)
      → overlaps p.other rng ≡ true
      → Placed p rng rest (record p { other = merged p.other rng })
  unfolding merged
  place_merge p rng rest i o = (
    record {
      closed = (omega (arith, i.closed.0, i.rest_separated.0.0), refl);
      left_separated = i.left_separated;
      right_separated = i.right_separated;
      rest_separated = i.rest_separated.2;
      left_other =
          AllBefore-min p.left_ranges p.other rng (merged p.other rng) refl i.left_other
            (ListBefore-head p.left_ranges rng rest i.left_rest);
      other_right =
          merged-right p.other rng p.right_ranges rest o i.right_separated i.other_right
            i.right_rest;
      left_rest = ListBefore-tail p.left_ranges rng rest i.left_rest;
      right_rest = ListBefore-tail p.right_ranges rng rest i.right_rest;
    },
    any_swap x p.left_ranges p.right_ranges p.other rng (merged p.other rng)
        (in_core-merged x p.other rng o),
  )

  place_left :
      (p : Placing) (rng : Range) (rest : List Range)
      → IsPlacing p (rng ∷ rest)
      → rng.upper < p.other.lower
      → Placed p rng rest (record p { left_ranges = p.left_ranges ++ (rng ∷ []) })
  place_left p rng rest i h = (
    record {
      closed = i.closed;
      left_separated =
          IsSeparated-append p.left_ranges (rng ∷ []) i.left_separated (i.rest_separated.0, tt, tt)
            (ListBefore-one p.left_ranges rng (ListBefore-head p.left_ranges rng rest i.left_rest));
      right_separated = i.right_separated;
      rest_separated = i.rest_separated.2;
      left_other = All-append _ p.left_ranges (rng ∷ []) i.left_other (h, tt);
      other_right = i.other_right;
      left_rest =
          All-append _ p.left_ranges (rng ∷ []) (ListBefore-tail p.left_ranges rng rest i.left_rest)
            (i.rest_separated.1, tt);
      right_rest = ListBefore-tail p.right_ranges rng rest i.right_rest;
    },
    any_left x p.left_ranges p.right_ranges p.other rng,
  )

  place_right :
      (p : Placing) (rng : Range) (rest : List Range)
      → IsPlacing p (rng ∷ rest)
      → p.other.upper < rng.lower
      → Placed p rng rest (record p { right_ranges = p.right_ranges ++ (rng ∷ []) })
  place_right p rng rest i h = (
    record {
      closed = i.closed;
      left_separated = i.left_separated;
      right_separated =
          IsSeparated-append p.right_ranges (rng ∷ []) i.right_separated
            (i.rest_separated.0, tt, tt)
            (ListBefore-one p.right_ranges rng
              (ListBefore-head p.right_ranges rng rest i.right_rest));
      rest_separated = i.rest_separated.2;
      left_other = i.left_other;
      other_right = All-append _ p.right_ranges (rng ∷ []) i.other_right (h, tt);
      left_rest = ListBefore-tail p.left_ranges rng rest i.left_rest;
      right_rest =
          All-append _ p.right_ranges (rng ∷ [])
            (ListBefore-tail p.right_ranges rng rest i.right_rest) (i.rest_separated.1, tt);
    },
    any_right x p.left_ranges p.right_ranges p.other rng,
  )

  place-Placed :
      (p : Placing) (rng : Range) (rest : List Range)
      → IsPlacing p (rng ∷ rest)
      → (q : Placing) × (place p rng ≡ some q) × Placed p rng rest q
  unfolding place
  place-Placed p rng rest i = elim (Bool-cases (overlaps p.other rng)) [
    | inl o ↦ (
      record p { other = merged p.other rng },
      rw (o, range_add-merged p.other rng i.closed.0 i.rest_separated.0.0 o),
      place_merge p rng rest i o,
    )
    | inr o ↦ elim (overlaps-gap p.other rng i.closed i.rest_separated.0 o) [
      | inl h ↦ (
        record p { right_ranges = p.right_ranges ++ (rng ∷ []) },
        rw (o, not-left_of rng p.other i.closed i.rest_separated.0.0 h),
        place_right p rng rest i h,
      )
      | inr h ↦ (
        record p { left_ranges = p.left_ranges ++ (rng ∷ []) },
        rw (o, left_of-closed rng p.other i.closed h),
        place_left p rng rest i h,
      )
    ]
  ]

  place_all-Placed :
      (p : Placing) (rngs : List Range)
      → IsPlacing p rngs
      → (q : Placing) × (place_all p rngs ≡ some q)
        × IsPlacing q []
        × (core_covers x (placed q) ≡ (core_covers x (placed p) || core_covers x rngs))
  unfolding place_all
  place_all-Placed p [] i = (p, refl, i, ground arith)
  place_all-Placed p (rng ∷ rngs) i =
      let (q, e, (j, c)) = place-Placed p rng rngs i in
      let (r, f, k, d) = place_all-Placed q rngs j in (r, rw e f, k, ground (arith, c, d))

or_turn : (a r : Bool) {q : Bool} → q ≡ ((a || false) || r) → q ≡ (r || a)
or_turn a r h = ground arith

start-IsPlacing :
    (ranges : List Range) (other : Range)
    → IsSeparated ranges
    → IsClosed other
    → IsPlacing (record { other = other; left_ranges = []; right_ranges = [] }) ranges
start-IsPlacing ranges other s c = record {
  closed = c;
  left_separated = tt;
  right_separated = tt;
  rest_separated = s;
  left_other = tt;
  other_right = tt;
  left_rest = tt;
  right_rest = tt;
}

placed-IsSeparated : (p : Placing) → IsPlacing p [] → IsSeparated (placed p)
placed-IsSeparated p i =
    IsSeparated-append p.left_ranges (p.other ∷ p.right_ranges) i.left_separated
      (i.closed, i.other_right, i.right_separated)
      (AllBefore-around p.left_ranges p.other p.right_ranges i.closed.0 i.left_other i.other_right)

-- Adding a closed range to separated ranges does not raise, and leaves separated ranges that hold,
-- from their lower ends on and below their upper ones, exactly the points that the ranges and the
-- new one held.
pub add_range-IsSeparated :
    (x : ℕ) (ranges : List Range) (other : Range)
    → IsSeparated ranges
    → IsClosed other
    → (rs : List Range) × (add_range ranges other ≡ some rs)
      × IsSeparated rs
      × (core_covers x rs ≡ (core_covers x ranges || in_core x other))
unfolding add_range
add_range-IsSeparated x ranges other s c =
    let (q, e, i, h) =
      place_all-Placed x (record { other = other; left_ranges = []; right_ranges = [] }) ranges
        (start-IsPlacing ranges other s c) in
    (placed q, rw e, placed-IsSeparated q i, or_turn (in_core x other) (core_covers x ranges) h)

-- The sum of two overlapping ranges that include their lower ends holds exactly the points of both,
-- but for its own upper end, which it never includes.
pub range_add-contains :
    (x : ℕ) (a b : Range)
    → IsClosed a
    → IsClosed b
    → overlaps a b ≡ true
    → Option.map (contains x) (range_add a b)
      ≡ some ((contains x a || contains x b) && not (x == max a.upper b.upper))
unfolding merged
range_add-contains x a b va vb o =
    rw (range_add-merged a b va.0 vb.0 o) (ap some (ground (arith, overlaps-meet a b o)))
