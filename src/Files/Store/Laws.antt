-- ===== src/Files/Store/Laws.antt =====
-- What the handler of STORE messages (store.py) keeps of the pins and the tags of files.
use py_aleph.Prelude.{
  ℕ, ◌+◌, ◌*◌, ◌≤◌, ◌≡◌, ◌≢◌, refl, true, false, ◌&&◌, Option, none, some, List, [], ◌∷◌, ◌++◌,
  arith, ltb, ◌==◌, if◌then◌else◌, any, Bool-cases, inl, inr,
}
use py_aleph.Result.{ok}
use py_aleph.Node.{put}
use py_aleph.Files.{
  FileTables, FilePin, FileTag, grace_period_pin, refers_to, latest_pin, later_pin, get_file_tag,
  upsert_file_tag, refresh_file_tag, tag_of_pin,
}
use py_aleph.Files.Store.{StoreEnv}

-- Two revisions of one owner's file with different times leave the same tags in either order of
-- arrival.
pub upsert_file_tag_comm :
    (tag owner a b ta tb : ℕ) (t : FileTables) (j : ℕ)
    → ta ≢ tb
    → (upsert_file_tag tag owner a ta (upsert_file_tag tag owner b tb t)).tags j
      ≡ (upsert_file_tag tag owner b tb (upsert_file_tag tag owner a ta t)).tags j
unfolding upsert_file_tag
upsert_file_tag_comm tag owner a b ta tb t j h = ground arith

module _ (tag : ℕ) where
  latest_pin-ge :
      (b : FilePin) (ps : List FilePin)
      → (best : FilePin) × (latest_pin (some b) tag ps ≡ some best) × (b.created ≤ best.created)
  unfolding latest_pin
  latest_pin-ge b [] = (b, refl, omega arith)
  latest_pin-ge b (p ∷ ps) = elim (Bool-cases (refers_to tag p && ltb b.created p.created)) [
    | inl y ↦
        (let (best, e, l) = latest_pin-ge p ps in (best, ground (arith, e), ground (arith, l)))
    | inr n ↦ (let (best, e, l) = latest_pin-ge b ps in (best, ground (arith, e), l))
  ]

  -- A pin that refers to the tag is no later than the one that is found.
  latest_pin-upper :
      (b : Option FilePin) (l : List FilePin) (p : FilePin) (r : List FilePin)
      → refers_to tag p ≡ true
      → (best : FilePin) × (latest_pin b tag (l ++ (p ∷ r)) ≡ some best)
        × (p.created ≤ best.created)
  unfolding latest_pin
  latest_pin-upper none [] p r h =
      let (best, e, l) = latest_pin-ge p r in (best, ground (arith, h, e), l)
  latest_pin-upper (some b) [] p r h = elim (Bool-cases (ltb b.created p.created)) [
    | inl y ↦
        (let (best, e, l) = latest_pin-ge p r in
          (best, ground (arith, h, y, e), ground (arith, l, y)))
    | inr n ↦
        (let (best, e, l) = latest_pin-ge b r in
          (best, ground (arith, h, n, e), ground (arith, l, n)))
  ]
  latest_pin-upper b (x ∷ xs) p r h =
      latest_pin-upper (if refers_to tag x then later_pin b x else b) xs p r h

  latest_pin-none :
      (ps : List FilePin) → any (refers_to tag) ps ≡ false → latest_pin none tag ps ≡ none
  unfolding latest_pin
  latest_pin-none [] h = refl
  latest_pin-none (p ∷ ps) h = ground (arith, latest_pin-none ps)

-- Where a refresh does not raise, a tag that some pin refers to stands after it, and is no earlier
-- than that pin, wherever the pin stands in the table.
pub refresh_file_tag-ge :
    (tag : ℕ) (t u : FileTables) (l : List FilePin) (p : FilePin) (r : List FilePin)
    → t.pins ≡ l ++ (p ∷ r)
    → refers_to tag p ≡ true
    → refresh_file_tag tag t ≡ ok u
    → (g : FileTag) × (get_file_tag tag u ≡ some g) × (p.created ≤ g.last_updated)
unfolding refresh_file_tag get_file_tag latest_pin
refresh_file_tag-ge tag t u l p r e h k =
    let (best, eb, lb) = latest_pin-upper tag none l p r h in
    (tag_of_pin best, ground (arith, e, eb, k), lb)

-- A tag that is not itself the text of the ref of a pin, or its item hash where it has no ref, is
-- deleted by a refresh.
pub refresh_file_tag-deletes :
    (tag : ℕ) (t : FileTables)
    → any (refers_to tag) t.pins ≡ false
    → refresh_file_tag tag t ≡ ok (record t { tags = put t.tags tag none })
unfolding refresh_file_tag
refresh_file_tag-deletes tag t h = rw (latest_pin-none tag t.pins h) refl

module _ (env : StoreEnv) where
  -- The pin of a grace period that begins at `now`.
  abbrev pub grace_pin : ℕ → ℕ → FilePin
  grace_pin now h = record {
    file_hash = h;
    created = now;
    kind = grace_period_pin (now + env.grace_period * 3600);
  }

  -- The pins, and one more for a file that has none among them.
  abbrev pub with_grace : ℕ → ℕ → List FilePin → List FilePin
  with_grace now h pins =
      if any (λ p. p.file_hash == h) pins then pins else pins ++ (grace_pin now h ∷ [])
