-- ===== src/Publisher/Parse.antt =====
-- What the schemas let through.
use mathlib.Core.Path.{subst}
use py_aleph.Prelude.{
  ℕ, ◌≤◌, ◌≡◌, refl, Bool, true, false, not, ◌&&◌, Option, none, some, arith, ltb, ◌==◌, is_none,
  coalesce,
}
use py_aleph.Result.{ok, invert, ok_inj}
use py_aleph.Node.{MessageType, ItemType, inline, storage, ipfs}
use py_aleph.Publisher.{
  PublisherEnv, RawMessage, Parsed, MessageFields, parse_message, max_inline_size, must, require,
  load_content, default_item_type, check_content, check_item_hash, check_schema, check_item_type,
  expect,
}

-- The keys that a message of these keys has when it is sent with all of them.
abbrev pub raw_of : Parsed → RawMessage
raw_of p = record {
  type = some p.type;
  item_hash = some p.item_hash;
  item_content = p.item_content;
  item_type = some p.item_type;
  fields = some p.fields;
}

must-true : (b : Bool) (u : Unit {0}) → must b ≡ ok u → b ≡ true
must-true true u e = refl
must-true false u e = absurd (cc)

module _ (env : PublisherEnv) where
  -- An inline message has a content that is short enough, JSON, accepted by the schema of its type,
  -- and of which its hash is the SHA-256; another message has none, and its hash is of its item type.
  abbrev pub IsSound : MessageType → ℕ → ItemType → Option ℕ → Type 0
  IsSound type h inline none = ⊥
  IsSound type h inline (some c) =
      (env.text_length c ≤ max_inline_size)
      × (env.is_json c ≡ true)
      × (h ≡ env.sha256 c)
      × (env.is_content type c ≡ true)
  IsSound type h storage c = (c ≡ none) × (env.item_type_from_hash h ≡ some storage)
  IsSound type h ipfs c = (c ≡ none) × (env.item_type_from_hash h ≡ some ipfs)

  is_none_eq : (c : Option ℕ) → is_none c ≡ true → c ≡ none
  is_none_eq none e = refl
  is_none_eq (some a) e = absurd (cc)

  expect_eq :
      (i : ItemType) (o : Option ItemType) (u : Unit {0}) → expect env i o ≡ ok u → o ≡ some i
  expect_eq i none u e = absurd (cc)
  expect_eq inline (some inline) u e = refl
  expect_eq inline (some storage) u e = absurd (cc)
  expect_eq inline (some ipfs) u e = absurd (cc)
  expect_eq storage (some inline) u e = absurd (cc)
  expect_eq storage (some storage) u e = refl
  expect_eq storage (some ipfs) u e = absurd (cc)
  expect_eq ipfs (some inline) u e = absurd (cc)
  expect_eq ipfs (some storage) u e = absurd (cc)
  expect_eq ipfs (some ipfs) u e = refl

  checks-IsSound :
      (type : MessageType) (h : ℕ) (i : ItemType) (c : Option ℕ) (u v w x : Unit {0})
      → check_content env i c ≡ ok u
      → check_item_hash env i c h ≡ ok v
      → check_schema env type i c ≡ ok w
      → check_item_type env i h ≡ ok x
      → IsSound type h i c
  checks-IsSound type h inline none u v w x p q r s = absurd (cc)
  checks-IsSound type h inline (some c) u v w x p q r s =
      let e = must-true (not (ltb max_inline_size (env.text_length c)) && env.is_json c) u p in
      let f = must-true (h == env.sha256 c) v q in
      (
        ground (arith, e),
        ground (arith, e),
        ground (arith, f),
        must-true (env.is_content type c) w r,
      )
  checks-IsSound type h storage c u v w x p q r s =
      (is_none_eq c (must-true (is_none c) u p), expect_eq storage (env.item_type_from_hash h) x s)
  checks-IsSound type h ipfs c u v w x p q r s =
      (is_none_eq c (must-true (is_none c) u p), expect_eq ipfs (env.item_type_from_hash h) x s)

  abbrev keys_of : MessageType → ℕ → ItemType → Option ℕ → MessageFields → Parsed
  keys_of type h i c fields = record {
    type = type;
    item_hash = h;
    item_content = c;
    item_type = i;
    fields = fields;
  }

  parse_keys :
      (type : MessageType) (h : ℕ) (i : ItemType) (c : Option ℕ) (fields : MessageFields)
      → IsSound type h i c
      → parse_message env (raw_of (keys_of type h i c fields)) ≡ ok (keys_of type h i c fields)
  unfolding parse_message
  parse_keys type h inline none fields s = absurd s
  parse_keys type h inline (some c) fields s =
      let short : ltb max_inline_size (env.text_length c) ≡ false = ground (arith, s.0) in
      let same : (h == env.sha256 c) ≡ true = ground (arith, s.2) in
      rw (short, s.1) (rw (same, s.3) refl)
  parse_keys type h storage c fields s = rw (s.0) (rw (s.1) (rw (s.1) refl))
  parse_keys type h ipfs c fields s = rw (s.0) (rw (s.1) (rw (s.1) refl))

  -- What the schemas let through has sound keys: an inline message has a content of at most 200000
  -- characters that is JSON, fits the schema of its type and has the hash of the message; another
  -- message has no content, and a hash of its item type. Parsing these keys again gives them back.
  pub parse_message-IsSound :
      (raw : RawMessage) (p : Parsed)
      → parse_message env raw ≡ ok p
      → IsSound p.type p.item_hash p.item_type p.item_content
        × (parse_message env (raw_of p) ≡ ok p)
  unfolding parse_message
  parse_message-IsSound raw p e = invert (require raw.type) _ e λ type et e1.
      invert (require raw.item_hash) _ e1 λ h eh e2.
        invert (load_content env h raw.item_content raw.item_type) _ e2 λ i ei e3.
          invert (require raw.fields) _ e3 λ fields ef e4.
            invert (check_item_hash env i raw.item_content h) _ e4 λ v ev e5.
              invert (check_schema env type i raw.item_content) _ e5 λ w ew e6.
                invert (check_item_type env i h) _ e6 λ x ex e7.
                  invert (require (default_item_type env h raw.item_content)) _ ei λ d ed i1.
                    invert (check_content env (coalesce raw.item_type d) raw.item_content) _ i1
                      λ u eu i2.
                        let same : coalesce raw.item_type d ≡ i = ok_inj i2 in
                        let content : check_content env i raw.item_content ≡ ok u = rw same at eu in
                        let sound =
                          checks-IsSound type h i raw.item_content u v w x content ev ew ex in
                        subst
                          (λ q.
                            IsSound q.type q.item_hash q.item_type q.item_content
                            × (parse_message env (raw_of q) ≡ ok q))
                          (ok_inj e7) (sound, parse_keys type h i raw.item_content fields sound)
