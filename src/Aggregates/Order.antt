-- ===== src/Aggregates/Order.antt =====
-- What merging elements in the order of their times gives, for a new one at either end.
use py_aleph.Prelude.{
  ℕ, ◌<◌, ◌≡◌, refl, sym, ap, ◌∙◌, Bool, Option, none, some, List, [], ◌∷◌, ◌++◌, arith, ltb, ◌==◌,
  any, keep, first, All, Bool-cases, inl, inr,
}
use py_aleph.Aggregates.{Fields, get_field, Element, merge_from, insert_by_time, sort_from}

-- The first value, or else the second.
abbrev pub or_field : Option ℕ → Option ℕ → Option ℕ
or_field none b = b
or_field (some v) b = some v

pub get_field-append :
    (a b : Fields) (k : ℕ) → get_field (a ++ b) k ≡ or_field (get_field a k) (get_field b k)
unfolding get_field
get_field-append [] b k = refl
get_field-append ((j, v) ∷ a) b k = ground (arith, get_field-append a b k)

pub or_field_assoc : (a b c : Option ℕ) → or_field (or_field a b) c ≡ or_field a (or_field b c)
or_field_assoc none b c = refl
or_field_assoc (some v) b c = refl

pub or_field-none : (x : Option ℕ) → or_field x none ≡ x
or_field-none none = refl
or_field-none (some v) = refl

-- What was there before a merge shows where no element has the key.
pub merge_from-field :
    (c : Fields) (es : List Element) (k : ℕ)
    → get_field (merge_from c es) k ≡ or_field (get_field (merge_from [] es) k) (get_field c k)
unfolding merge_from get_field
merge_from-field c [] k = refl
merge_from-field c (e ∷ es) k =
    merge_from-field (e.content ++ c) es k
    ∙ (ap (or_field (get_field (merge_from [] es) k)) (get_field-append e.content c k)
        ∙ (sym (
              or_field_assoc (get_field (merge_from [] es) k) (get_field e.content k)
                (get_field c k))
            ∙ ap (λ x. or_field x (get_field c k))
                (sym (
                  merge_from-field (e.content ++ []) es k
                  ∙ ap (or_field (get_field (merge_from [] es) k))
                      (get_field-append e.content [] k ∙ or_field-none (get_field e.content k))))))

pub merge_from-append :
    (c : Fields) (es : List Element) (e : Element)
    → merge_from c (es ++ (e ∷ [])) ≡ e.content ++ merge_from c es
unfolding merge_from
merge_from-append c [] e = refl
merge_from-append c (x ∷ es) e = merge_from-append (x.content ++ c) es e

pub sort_from-append :
    (sorted es : List Element) (e : Element)
    → sort_from sorted (es ++ (e ∷ [])) ≡ insert_by_time e (sort_from sorted es)
unfolding sort_from
sort_from-append sorted [] e = refl
sort_from-append sorted (x ∷ es) e = sort_from-append (insert_by_time x sorted) es e

module _ {κ} (P : Element → Type κ) where
  pub All-insert_by_time :
      (e : Element) (es : List Element) → P e → All P es → All P (insert_by_time e es)
  unfolding insert_by_time
  All-insert_by_time e [] h hs = (h, tt)
  All-insert_by_time e (x ∷ xs) h hs = elim (Bool-cases (ltb e.creation x.creation)) [
    | inl y ↦ rw y (h, hs)
    | inr n ↦ rw n (hs.0, All-insert_by_time e xs h hs.1)
  ]

  pub All-sort_from :
      (sorted es : List Element) → All P sorted → All P es → All P (sort_from sorted es)
  unfolding sort_from
  All-sort_from sorted [] h hs = h
  All-sort_from sorted (x ∷ xs) h hs =
      All-sort_from (insert_by_time x sorted) xs (All-insert_by_time x sorted hs.0 h) hs.1

  pub All-first :
      (p : Element → Bool) (es : List Element) {x : Element} → first p es ≡ some x → All P es → P x
  All-first p [] e h = absurd (cc)
  All-first p (y ∷ ys) {x} e h = elim (Bool-cases (p y)) [
    | inl t ↦
        mathlib.Core.Path.subst P {x = y} {y = x} (let w : some y ≡ some x = rw t at e in cc (w))
          h.0
    | inr n ↦ All-first p ys (rw n at e) h.1
  ]

pub insert_by_time-last :
    (e : Element) (es : List Element)
    → All (λ x. x.creation < e.creation) es
    → insert_by_time e es ≡ es ++ (e ∷ [])
unfolding insert_by_time
insert_by_time-last e [] h = refl
insert_by_time-last e (x ∷ xs) h = ground (arith, h.0, insert_by_time-last e xs h.1)

pub insert_by_time-first :
    (e : Element) (es : List Element)
    → All (λ x. e.creation < x.creation) es
    → insert_by_time e es ≡ e ∷ es
unfolding insert_by_time
insert_by_time-first e [] h = refl
insert_by_time-first e (x ∷ xs) h = ground (arith, h.0)

pub merged-later :
    (e : Element) (es : List Element)
    → All (λ x. x.creation < e.creation) es
    → merge_from [] (sort_from [] (es ++ (e ∷ []))) ≡ e.content ++ merge_from [] (sort_from [] es)
merged-later e es h =
    ap (merge_from []) (
      sort_from-append [] es e
      ∙ insert_by_time-last e (sort_from [] es)
          (All-sort_from (λ x. x.creation < e.creation) [] es tt h))
    ∙ merge_from-append [] (sort_from [] es) e

pub merged-earlier :
    (e : Element) (es : List Element)
    → All (λ x. e.creation < x.creation) es
    → merge_from [] (sort_from [] (es ++ (e ∷ []))) ≡ merge_from (e.content ++ []) (sort_from [] es)
unfolding merge_from
merged-earlier e es h = ap (merge_from []) (
    sort_from-append [] es e
    ∙ insert_by_time-first e (sort_from [] es)
        (All-sort_from (λ x. e.creation < x.creation) [] es tt h))

pub no_conflict : (ks : List ℕ) → keep (λ k. any (λ j. j == k) []) ks ≡ []
no_conflict [] = refl
no_conflict (k ∷ ks) = no_conflict ks

-- The field of one element, put before or after others.
pub get_field-one : (e : Element) (k : ℕ) → get_field (e.content ++ []) k ≡ get_field e.content k
unfolding get_field
get_field-one e k = get_field-append e.content [] k ∙ or_field-none (get_field e.content k)
