-- ===== src/Range/Remove.antt =====
-- What `Range.remove_multirange` and `MultiRange.__sub__` of range.py leave.
use mathlib.Core.Option
use py_aleph.Prelude.{
  ℕ, ◌≡◌, refl, sym, ap, ◌∙◌, Bool, true, false, not, ◌&&◌, ◌||◌, Option, none, some, List, [], ◌∷◌,
  ◌++◌, arith, inl, inr, All, All-append, any, any-append, leb, Bool-cases,
}
use py_aleph.Range.{
  Range, make_range, range_sub, sub_each, sub_all, remove_multirange, insert_sorted, multirange,
  remove_each, multirange_sub,
}
use py_aleph.Range.Points.{contains, covers, ends, is_end, IsValid, IsProper, lost}
use py_aleph.Range.Subtract.{range_sub-covers}

map-eq-some :
    {B C : Type 0} (f : B → C) (o : Option B) {c : C}
    → Option.map f o ≡ some c
    → (b : B) × (o ≡ some b) × (f b ≡ c)
map-eq-some f none h = absurd (cc)
map-eq-some f (some b) h = (b, refl, cc)

-- Constructors check what they build, so what a subtraction returns is valid.
range_sub-IsValid :
    (self other : Range) {rs : List Range}
    → IsValid self
    → range_sub self other ≡ some rs
    → All IsValid rs
unfolding range_sub make_range
range_sub-IsValid self other {rs} v e = ground arith

-- What is left of `missing` after `gone` was taken away, at one point.
pub record Leaves (x : ℕ) (missing gone : Bool) (clear : Bool) (rs : List Range) : Type 0 where
  pub valid : All IsValid rs
  pub sound : covers x rs ≡ true → (missing ≡ true) × (gone ≡ false)
  pub complete : clear ≡ false → missing ≡ true → gone ≡ false → covers x rs ≡ true

and_split : (c d e : Bool) → (c && not d && not e) ≡ true → (c ≡ true) × (d ≡ false)
and_split c d e h = ground arith

and_join : (c d e : Bool) → c ≡ true → d ≡ false → e ≡ false → (c && not d && not e) ≡ true
and_join c d e a b h = ground arith

lost-clear : (x : ℕ) (self other : Range) → is_end x other ≡ false → lost x self other ≡ false
lost-clear x self other h = ground arith

range_sub-Leaves :
    (x : ℕ) (self other : Range)
    → IsValid self
    → IsProper other
    → (rs : List Range) × (range_sub self other ≡ some rs)
      × Leaves x (contains x self) (contains x other) (is_end x other) rs
range_sub-Leaves x self other v p =
    let (rs, e, c) =
      map-eq-some (covers x) (range_sub self other) (range_sub-covers x self other v p) in
    (
      rs,
      e,
      record {
        valid = range_sub-IsValid self other v e;
        sound = λ h. and_split (contains x self) (contains x other) (lost x self other) (sym c ∙ h);
        complete = λ a b d.
            c
            ∙ and_join (contains x self) (contains x other) (lost x self other) b d
                (lost-clear x self other a);
      },
    )

-- The same for a list of what is missing.
abbrev Left : ℕ → Bool → Bool → Bool → Option (List Range) → Type 0
Left x missing gone clear r = (rs : List Range) × (r ≡ some rs) × Leaves x missing gone clear rs

sub_each-Leaves :
    (x : ℕ) (missing : List Range) (rng : Range)
    → All IsValid missing
    → IsProper rng
    → Left x (covers x missing) (contains x rng) (is_end x rng) (sub_each missing rng)
unfolding sub_each
sub_each-Leaves x [] rng v p =
    ([], refl, record { valid = tt; sound = λ h. absurd (cc); complete = λ a b c. b })
sub_each-Leaves x (m ∷ ms) rng v p =
    let (ps, ea, la) = range_sub-Leaves x m rng v.0 p in
    let (bs, eb, lb) = sub_each-Leaves x ms rng v.1 p in
    (
      ps ++ bs,
      rw (ea, eb),
      record {
        valid = All-append IsValid ps bs la.valid lb.valid;
        sound = λ h. ground (arith, any-append (contains x) ps bs, la.sound, lb.sound);
        complete =
            λ a b c. ground (arith, any-append (contains x) ps bs, la.complete a, lb.complete a);
      },
    )

sub_all-Leaves :
    (x : ℕ) (missing rngs : List Range)
    → All IsValid missing
    → All IsProper rngs
    → Left x (covers x missing) (covers x rngs) (ends x rngs) (sub_all missing rngs)
unfolding sub_all
sub_all-Leaves x missing [] v p =
    (missing, refl, record { valid = v; sound = λ h. (h, refl); complete = λ a b c. b })
sub_all-Leaves x missing (r ∷ rs) v p =
    let (ps, ea, la) = sub_each-Leaves x missing r v p.0 in
    let (bs, eb, lb) = sub_all-Leaves x ps rs la.valid p.1 in
    (
      bs,
      rw ea eb,
      record {
        valid = lb.valid;
        sound = λ h. ground (arith, la.sound, lb.sound);
        complete = λ a b c. ground (arith, la.complete, lb.complete);
      },
    )

-- Taking ranges away one after the other, at one point.
pub remove_multirange-Leaves :
    (x : ℕ) (self : Range) (ranges : List Range)
    → IsValid self
    → All IsProper ranges
    → Left x (contains x self) (covers x ranges) (ends x ranges) (remove_multirange self ranges)
unfolding remove_multirange
remove_multirange-Leaves x self ranges v p =
    let (rs, e, l) = sub_all-Leaves x (self ∷ []) ranges (v, tt) p in
    (
      rs,
      e,
      record {
        valid = l.valid;
        sound = λ h. ground (arith, l.sound);
        complete = λ a b c. ground (arith, l.complete);
      },
    )

remove_each-Leaves :
    (x : ℕ) (ranges other : List Range)
    → All IsValid ranges
    → All IsProper other
    → Left x (covers x ranges) (covers x other) (ends x other) (remove_each ranges other)
unfolding remove_each
remove_each-Leaves x [] other v p =
    ([], refl, record { valid = tt; sound = λ h. absurd (cc); complete = λ a b c. b })
remove_each-Leaves x (r ∷ rs) other v p =
    let (ps, ea, la) = remove_multirange-Leaves x r other v.0 p in
    let (bs, eb, lb) = remove_each-Leaves x rs other v.1 p in
    (
      ps ++ bs,
      rw (ea, eb),
      record {
        valid = All-append IsValid ps bs la.valid lb.valid;
        sound = λ h. ground (arith, any-append (contains x) ps bs, la.sound, lb.sound);
        complete =
            λ a b c. ground (arith, any-append (contains x) ps bs, la.complete a, lb.complete a);
      },
    )

any-insert_sorted :
    (p : Range → Bool) (r : Range) (rs : List Range)
    → any p (insert_sorted r rs) ≡ (p r || any p rs)
unfolding insert_sorted
any-insert_sorted p r [] = refl
any-insert_sorted p r (s ∷ rs) = ground (arith, any-insert_sorted p r rs)

-- Sorting the ranges moves no point.
pub any-multirange : (p : Range → Bool) (rs : List Range) → any p (multirange rs) ≡ any p rs
unfolding multirange
any-multirange p [] = refl
any-multirange p (r ∷ rs) =
    ground (arith, any-insert_sorted p r (multirange rs), any-multirange p rs)

IsValid-insert_sorted :
    (r : Range) (rs : List Range) → IsValid r → All IsValid rs → All IsValid (insert_sorted r rs)
unfolding insert_sorted
IsValid-insert_sorted r [] h hs = (h, tt)
IsValid-insert_sorted r (s ∷ rs) h hs = elim (Bool-cases (leb r.lower s.lower)) [
  | inl e ↦ rw e (h, hs)
  | inr e ↦ rw e (hs.0, IsValid-insert_sorted r rs h hs.1)
]

pub IsValid-multirange : (rs : List Range) → All IsValid rs → All IsValid (multirange rs)
unfolding multirange
IsValid-multirange [] h = tt
IsValid-multirange (r ∷ rs) h =
    IsValid-insert_sorted r (multirange rs) h.0 (IsValid-multirange rs h.1)

-- Subtraction of multiranges, at one point.
multirange_sub-Leaves :
    (x : ℕ) (ranges other : List Range)
    → All IsValid ranges
    → All IsProper other
    → (rs : List Range) × (multirange_sub ranges other ≡ some rs)
      × Leaves x (covers x ranges) (covers x other) (ends x other) rs
unfolding multirange_sub
multirange_sub-Leaves x ranges other v p =
    let (rs, e, l) = remove_each-Leaves x ranges other v p in
    (
      multirange rs,
      rw e,
      record {
        valid = IsValid-multirange rs l.valid;
        sound = λ h. l.sound (sym (any-multirange (contains x) rs) ∙ h);
        complete = λ a b c. any-multirange (contains x) rs ∙ l.complete a b c;
      },
    )

-- Subtracting proper ranges from valid ones does not raise. The result has valid ranges only, and
-- covers no point that `ranges` does not cover or that `other` covers.
pub multirange_sub_sound :
    (x : ℕ) (ranges other : List Range)
    → All IsValid ranges
    → All IsProper other
    → (rs : List Range) × (multirange_sub ranges other ≡ some rs)
      × All IsValid rs
      × ((covers x rs && not (covers x ranges && not (covers x other))) ≡ false)
multirange_sub_sound x ranges other v p =
    let (rs, e, l) = multirange_sub-Leaves x ranges other v p in
    (rs, e, l.valid, ground (arith, l.sound))

-- At a point that is no end of a range of `other`, the difference of multiranges, from valid ranges
-- and proper ones taken away, covers what `ranges` covers and `other` does not.
pub multirange_sub-covers :
    (x : ℕ) (ranges other : List Range)
    → All IsValid ranges
    → All IsProper other
    → ends x other ≡ false
    → Option.map (covers x) (multirange_sub ranges other)
      ≡ some (covers x ranges && not (covers x other))
multirange_sub-covers x ranges other v p n =
    let (rs, e, l) = multirange_sub-Leaves x ranges other v p in
    rw e (ap some (ground (arith, l.sound, l.complete n)))
