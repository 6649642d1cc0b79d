-- ===== src/Range/Separated.antt =====
-- Ranges of range.py in increasing order with gaps between them, the invariant of a MultiRange.
use py_aleph.Prelude.{
  ◌≤◌, ◌<◌, min, ◌≡◌, ◌⊎◌, true, false, List, [], ◌∷◌, ◌++◌, arith, All, All-append,
}
use py_aleph.Range.{Range, overlaps}
use py_aleph.Range.Points.{IsValid}

-- Valid, and its lower end is included, as `Range` builds it by default.
abbrev pub IsClosed : Range → Type 0
IsClosed r = IsValid r × (r.lower_inc ≡ true)

-- `r` ends before each range of the list begins.
abbrev pub Before : Range → List Range → Type 0
Before r rs = All (λ s. r.upper < s.lower) rs

-- Closed ranges in increasing order, with a gap between any two.
abbrev pub IsSeparated : List Range → Type 0
IsSeparated [] = Unit
IsSeparated (r ∷ rs) = IsClosed r × Before r rs × IsSeparated rs

abbrev pub AllBefore : List Range → Range → Type 0
AllBefore rs r = All (λ s. s.upper < r.lower) rs

abbrev pub ListBefore : List Range → List Range → Type 0
ListBefore rs ss = All (λ r. Before r ss) rs

pub IsSeparated-append :
    (l r : List Range) → IsSeparated l → IsSeparated r → ListBefore l r → IsSeparated (l ++ r)
IsSeparated-append [] r hl hr b = hr
IsSeparated-append (x ∷ xs) r hl hr b =
    (hl.0, All-append _ xs r hl.1 b.0, IsSeparated-append xs r hl.2 hr b.1)

pub ListBefore-one : (l : List Range) (r : Range) → AllBefore l r → ListBefore l (r ∷ [])
ListBefore-one [] r h = tt
ListBefore-one (x ∷ xs) r h = ((h.0, tt), ListBefore-one xs r h.1)

pub ListBefore-head :
    (l : List Range) (r : Range) (rs : List Range) → ListBefore l (r ∷ rs) → AllBefore l r
ListBefore-head [] r rs h = tt
ListBefore-head (x ∷ xs) r rs h = (h.0.0, ListBefore-head xs r rs h.1)

pub ListBefore-tail :
    (l : List Range) (r : Range) (rs : List Range) → ListBefore l (r ∷ rs) → ListBefore l rs
ListBefore-tail [] r rs h = tt
ListBefore-tail (x ∷ xs) r rs h = (h.0.1, ListBefore-tail xs r rs h.1)

ListBefore-cons :
    (l : List Range) (r : Range) (rs : List Range)
    → AllBefore l r
    → ListBefore l rs
    → ListBefore l (r ∷ rs)
ListBefore-cons [] r rs h k = tt
ListBefore-cons (x ∷ xs) r rs h k = ((h.0, k.0), ListBefore-cons xs r rs h.1 k.1)

pub AllBefore-min :
    (l : List Range) (a b : Range) (m : Range)
    → m.lower ≡ min a.lower b.lower
    → AllBefore l a
    → AllBefore l b
    → AllBefore l m
AllBefore-min [] a b m e h k = tt
AllBefore-min (x ∷ xs) a b m e h k = (omega (arith, h.0, k.0), AllBefore-min xs a b m e h.1 k.1)

Before-later : (r s : Range) (rs : List Range) → r.upper ≤ s.upper → Before s rs → Before r rs
Before-later r s [] e h = tt
Before-later r s (x ∷ xs) e h = (omega (arith, h.0), Before-later r s xs e h.1)

-- Ranges that do not overlap lie one after the other.
pub overlaps-gap :
    (a b : Range)
    → IsClosed a
    → IsClosed b
    → overlaps a b ≡ false
    → (a.upper < b.lower) ⊎ (b.upper < a.lower)
unfolding overlaps
overlaps-gap a b ha hb h = ground arith

pub AllBefore-around :
    (l : List Range) (a : Range) (r : List Range)
    → IsValid a
    → AllBefore l a
    → Before a r
    → ListBefore l (a ∷ r)
AllBefore-around [] a r v h k = tt
AllBefore-around (x ∷ xs) a r v h k =
    ((h.0, Before-later x a r (omega (arith, h.0)) k), AllBefore-around xs a r v h.1 k)
