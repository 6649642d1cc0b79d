-- ===== src/Examples/Ranges.antt =====
-- Runs of range.py.
use mathlib.Core.Option
use py_aleph.Prelude.{ℕ, ◌≡◌, refl, true, false, some, List, [], ◌∷◌, arith}
use py_aleph.Range.{Range, range_sub, multirange_sub, add_range}
use py_aleph.Range.Points.{covers, core_covers}
use py_aleph.Range.Subtract.{range_sub-covers}
use py_aleph.Range.Remove.{multirange_sub-covers}
use py_aleph.Range.Separated.{IsSeparated}
use py_aleph.Range.Multi.{add_range-IsSeparated}

-- The range `[lower, upper)`.
abbrev range : ℕ → ℕ → Range
range lower upper = record { lower = lower; upper = upper; lower_inc = true; upper_inc = false }

-- Both ends are included.
abbrev closed : ℕ → ℕ → Range
closed lower upper = record { lower = lower; upper = upper; lower_inc = true; upper_inc = true }

range_sub-covers_example :
    Option.map (covers 10) (range_sub (closed 1 10) (range 5 10)) ≡ some false
range_sub-covers_example =
    range_sub-covers 10 (closed 1 10) (range 5 10) (omega arith) (omega arith, refl)

multirange_sub-covers_example :
    Option.map (covers 27) (multirange_sub (range 0 10 ∷ range 20 30 ∷ []) (range 5 25 ∷ []))
    ≡ some true
multirange_sub-covers_example =
    multirange_sub-covers 27 (range 0 10 ∷ range 20 30 ∷ []) (range 5 25 ∷ [])
      (omega arith, (omega arith, tt)) ((omega arith, refl), tt) refl

add_range-IsSeparated_example :
    (rs : List Range) × (add_range (range 0 10 ∷ range 20 30 ∷ []) (range 10 15) ≡ some rs)
    × IsSeparated rs
    × (core_covers 12 rs ≡ true)
add_range-IsSeparated_example =
    add_range-IsSeparated 12 (range 0 10 ∷ range 20 30 ∷ []) (range 10 15)
      ((omega arith, refl), (omega arith, tt), ((omega arith, refl), tt, tt)) (omega arith, refl)
