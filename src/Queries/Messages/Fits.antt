-- ===== src/Queries/Messages/Fits.antt =====
-- The filters of make_matching_messages_query (src/aleph/db/accessors/messages.py) against a
-- description by membership, which shares no test with them.
use mathlib.Core.Path.{subst}
use py_aleph.Prelude.{
  ℕ, ◌≡◌, ◌≤◌, ◌<◌, ◌⊎◌, ◌↔◌, inl, inr, refl, sym, Bool, true, false, ◌&&◌, Option, none, some,
  List, [], ◌∷◌, arith, ◌==◌, leb, ltb, any, keep, Bool-cases, ap,
}
use py_aleph.Node.{MessageType, Message}
use py_aleph.Chains.{ChainTx}
use py_aleph.Permissions.Guards.{Among, any-Among, Among-any, ==-sound, ==-complete}
use py_aleph.Queries.{
  is_in, in_filter, in_filter?, tags_filter, coerce_to_datetime, from_date, until_date,
}
use py_aleph.Queries.Messages.{
  JsonColumns, MessageFilters, same_type, type_filter, types_filter, matches,
}

-- A list that is not empty has the value; a column that may be NULL has a value then.
abbrev pub Has : {A : Type 0} → List A → A → Type 0
Has values a = (values ≡ []) ⊎ Among a values

abbrev pub HasSome : List ℕ → Option ℕ → Type 0
HasSome values o = (values ≡ []) ⊎ ((a : ℕ) × (o ≡ some a) × Among a values)

-- A message fits the filters: each filter that is given lets it pass. The end is excluded.
pub record Fits (json : JsonColumns) (f : MessageFilters) (m : Message) : Type 0 where
  pub hashes : Has f.hashes m.item_hash
  pub addresses : Has f.addresses m.sender
  pub chains : Has f.chains m.chain
  pub types : Has f.message_types m.type
  pub type : (f.message_type ≡ none) ⊎ (f.message_type ≡ some m.type)
  pub start : (f.start_date ≡ 0) ⊎ (f.start_date ≤ m.time)
  pub before_end : (f.end_date ≡ 0) ⊎ (m.time < f.end_date)
  pub refs : HasSome f.refs (json.ref m)
  pub content_hashes : HasSome f.content_hashes (json.item_hash m)
  pub content_types : HasSome f.content_types (json.type m)
  pub tags : (f.tags ≡ []) ⊎ ((tag : ℕ) × Among tag (json.tags m) × Among tag f.tags)
  pub channels : HasSome f.channels m.channel

in-Among : (a : ℕ) (values : List ℕ) → is_in a values ≡ true → Among a values
in-Among a values e = any-Among (λ v. v == a) a (==-sound a) (==-complete a) values e

Among-in : (a : ℕ) (values : List ℕ) → Among a values → is_in a values ≡ true
Among-in a values h = Among-any (λ v. v == a) a (==-sound a) (==-complete a) values h

filter_iff : (values : List ℕ) (a : ℕ) → (in_filter values a ≡ true) ↔ Has values a
filter_iff [] a = (λ e. inl refl, λ e. refl)
filter_iff (v ∷ values) a = (λ e. inr (in-Among a (v ∷ values) e), back)
  where
    back : Has (v ∷ values) a → in_filter (v ∷ values) a ≡ true
    back (inl e) = absurd (cc)
    back (inr h) = Among-in a (v ∷ values) h

filter_some_iff : (values : List ℕ) (o : Option ℕ) → (in_filter? values o ≡ true) ↔ HasSome values o
filter_some_iff [] o = (λ e. inl refl, λ e. refl)
filter_some_iff (v ∷ values) none = (λ e. absurd (cc), back)
  where
    back : HasSome (v ∷ values) none → in_filter? (v ∷ values) none ≡ true
    back (inl e) = absurd (cc)
    back (inr (a, e, h)) = absurd (cc)
filter_some_iff (v ∷ values) (some b) = (λ e. inr (b, refl, in-Among b (v ∷ values) e), back)
  where
    back : HasSome (v ∷ values) (some b) → in_filter? (v ∷ values) (some b) ≡ true
    back (inl e) = absurd (cc)
    back (inr (a, e, h)) =
        (let same : a ≡ b = cc (e) in
          subst (λ x. is_in x (v ∷ values) ≡ true) same (Among-in a (v ∷ values) h))

same_type_sound : (t a : MessageType) → same_type a t ≡ true → a ≡ t
same_type_sound MessageType.aggregate MessageType.aggregate e = refl
same_type_sound MessageType.instance_ MessageType.instance_ e = refl
same_type_sound MessageType.post MessageType.post e = refl
same_type_sound MessageType.program MessageType.program e = refl
same_type_sound MessageType.store MessageType.store e = refl
same_type_sound MessageType.forget MessageType.forget e = refl
same_type_sound _ _ e = absurd (cc)

same_type_complete : (t : MessageType) → same_type t t ≡ true
same_type_complete MessageType.aggregate = refl
same_type_complete MessageType.instance_ = refl
same_type_complete MessageType.post = refl
same_type_complete MessageType.program = refl
same_type_complete MessageType.store = refl
same_type_complete MessageType.forget = refl

types_iff :
    (wanted : List MessageType) (t : MessageType) → (types_filter wanted t ≡ true) ↔ Has wanted t
types_iff [] t = (λ e. inl refl, λ e. refl)
types_iff (w ∷ wanted) t = (
  λ e.
      inr (
        any-Among (λ x. same_type x t) t (same_type_sound t) (same_type_complete t) (w ∷ wanted) e),
  back,
)
  where
    back : Has (w ∷ wanted) t → types_filter (w ∷ wanted) t ≡ true
    back (inl e) = absurd (cc)
    back (inr h) =
        Among-any (λ x. same_type x t) t (same_type_sound t) (same_type_complete t) (w ∷ wanted) h

type_iff :
    (o : Option MessageType) (t : MessageType)
    → (type_filter o t ≡ true) ↔ ((o ≡ none) ⊎ (o ≡ some t))
type_iff none t = (λ e. inl refl, λ e. refl)
type_iff (some w) t = (λ e. inr (ap (λ x. some x) (same_type_sound t w e)), back)
  where
    back : (some w ≡ none) ⊎ (some w ≡ some t) → type_filter (some w) t ≡ true
    back (inl e) = absurd (cc)
    back (inr e) = (let same : w ≡ t = cc (e) in rw same (same_type_complete t))

start_iff :
    (d time : ℕ) → (from_date (coerce_to_datetime (some d)) time ≡ true) ↔ ((d ≡ 0) ⊎ (d ≤ time))
unfolding coerce_to_datetime
start_iff d time = (forth, back)
  where
    forth : from_date (coerce_to_datetime (some d)) time ≡ true → (d ≡ 0) ⊎ (d ≤ time)
    forth e = elim (Bool-cases (d == 0)) [
      | inl y ↦ inl (ground (arith, y))
      | inr n ↦ inr (let h : leb d time ≡ true = rw n at e in ground (arith, h))
    ]

    back : (d ≡ 0) ⊎ (d ≤ time) → from_date (coerce_to_datetime (some d)) time ≡ true
    back (inl e) = rw e refl
    back (inr h) = ground (arith, h)

end_iff :
    (d time : ℕ) → (until_date (coerce_to_datetime (some d)) time ≡ true) ↔ ((d ≡ 0) ⊎ (time < d))
unfolding coerce_to_datetime
end_iff d time = (forth, back)
  where
    forth : until_date (coerce_to_datetime (some d)) time ≡ true → (d ≡ 0) ⊎ (time < d)
    forth e = elim (Bool-cases (d == 0)) [
      | inl y ↦ inl (ground (arith, y))
      | inr n ↦ inr (let h : ltb time d ≡ true = rw n at e in ground (arith, h))
    ]

    back : (d ≡ 0) ⊎ (time < d) → until_date (coerce_to_datetime (some d)) time ≡ true
    back (inl e) = rw e refl
    back (inr h) = ground (arith, h)

any_in :
    (wanted tags : List ℕ)
    → any (λ tag. is_in tag wanted) tags ≡ true
    → (tag : ℕ) × Among tag tags × Among tag wanted
any_in wanted [] e = absurd (cc)
any_in wanted (t ∷ tags) e = elim (Bool-cases (is_in t wanted)) [
  | inl y ↦ (t, inl refl, in-Among t wanted y)
  | inr n ↦ (let (tag, there, h) = any_in wanted tags (rw n at e) in (tag, inr there, h))
]

in_any :
    (wanted tags : List ℕ) (tag : ℕ)
    → Among tag tags
    → Among tag wanted
    → any (λ t. is_in t wanted) tags ≡ true
in_any wanted [] tag a h = absurd a
in_any wanted (t ∷ tags) tag (inl e) h =
    let y : is_in t wanted ≡ true = rw e (Among-in tag wanted h) in rw y refl
in_any wanted (t ∷ tags) tag (inr a) h = let y = in_any wanted tags tag a h in ground (arith, y)

tags_iff :
    (wanted tags : List ℕ)
    → (tags_filter wanted tags ≡ true)
      ↔ ((wanted ≡ []) ⊎ ((tag : ℕ) × Among tag tags × Among tag wanted))
tags_iff [] tags = (λ e. inl refl, λ e. refl)
tags_iff (w ∷ wanted) tags = (λ e. inr (any_in (w ∷ wanted) tags e), back)
  where
    back :
        (w ∷ wanted ≡ []) ⊎ ((tag : ℕ) × Among tag tags × Among tag (w ∷ wanted))
        → tags_filter (w ∷ wanted) tags ≡ true
    back (inl e) = absurd (cc)
    back (inr (tag, a, h)) = in_any (w ∷ wanted) tags tag a h

both : (a b : Bool) → (a && b) ≡ true → (a ≡ true) × (b ≡ true)
both true b e = (refl, e)
both false b e = absurd (cc)

module _ {J : Type 0} (json : JsonColumns) (confirmed : ℕ → ℕ → Bool) (txs : List (ChainTx J)) where
  -- The filters let through exactly the messages that fit.
  pub matches_iff :
      (f : MessageFilters) (m : Message) → (matches json confirmed txs f m ≡ true) ↔ Fits json f m
  unfolding matches
  matches_iff f m = (forth, back)
    where
      forth : matches json confirmed txs f m ≡ true → Fits json f m
      forth e =
          let (a, e1) = both _ _ e in
          let (b, e2) = both _ _ e1 in
          let (c, e3) = both _ _ e2 in
          let (d, e4) = both _ _ e3 in
          let (g, e5) = both _ _ e4 in
          let (h, e6) = both _ _ e5 in
          let (i, e7) = both _ _ e6 in
          let (j, e8) = both _ _ e7 in
          let (k, e9) = both _ _ e8 in
          let (l, e10) = both _ _ e9 in
          let (n, o) = both _ _ e10 in
          record {
            hashes = (filter_iff f.hashes m.item_hash).0 a;
            addresses = (filter_iff f.addresses m.sender).0 b;
            chains = (filter_iff f.chains m.chain).0 c;
            types = (types_iff f.message_types m.type).0 d;
            type = (type_iff f.message_type m.type).0 g;
            start = (start_iff f.start_date m.time).0 h;
            before_end = (end_iff f.end_date m.time).0 i;
            refs = (filter_some_iff f.refs (json.ref m)).0 j;
            content_hashes = (filter_some_iff f.content_hashes (json.item_hash m)).0 k;
            content_types = (filter_some_iff f.content_types (json.type m)).0 l;
            tags = (tags_iff f.tags (json.tags m)).0 n;
            channels = (filter_some_iff f.channels m.channel).0 o;
          }

      back : Fits json f m → matches json confirmed txs f m ≡ true
      back p =
          let a = (filter_iff f.hashes m.item_hash).1 p.hashes in
          let b = (filter_iff f.addresses m.sender).1 p.addresses in
          let c = (filter_iff f.chains m.chain).1 p.chains in
          let d = (types_iff f.message_types m.type).1 p.types in
          let g = (type_iff f.message_type m.type).1 p.type in
          let h = (start_iff f.start_date m.time).1 p.start in
          let i = (end_iff f.end_date m.time).1 p.before_end in
          let j = (filter_some_iff f.refs (json.ref m)).1 p.refs in
          let k = (filter_some_iff f.content_hashes (json.item_hash m)).1 p.content_hashes in
          let l = (filter_some_iff f.content_types (json.type m)).1 p.content_types in
          let n = (tags_iff f.tags (json.tags m)).1 p.tags in
          let o = (filter_some_iff f.channels m.channel).1 p.channels in
          rw (a, b, c, d, g, h, i, j, k, l, n, o) refl

  -- A message of some kind is among those that the filters keep.
  abbrev pub SomeFits : (Message → Bool) → MessageFilters → List Message → Type 0
  SomeFits p f messages = (m : Message) × Among m messages × Fits json f m × (p m ≡ true)

  pub kept-SomeFits :
      (p : Message → Bool) (f : MessageFilters) (messages : List Message)
      → (any p (keep (matches json confirmed txs f) messages) ≡ true) ↔ SomeFits p f messages
  kept-SomeFits p f [] = (λ e. absurd (cc), λ h. absurd h.1)
  kept-SomeFits p f (x ∷ xs) = let rest = kept-SomeFits p f xs in (forth rest, back rest)
    where
      forth :
          ((any p (keep (matches json confirmed txs f) xs) ≡ true) ↔ SomeFits p f xs)
          → any p (keep (matches json confirmed txs f) (x ∷ xs)) ≡ true
          → SomeFits p f (x ∷ xs)
      forth rest e = elim (Bool-cases (matches json confirmed txs f x)) [
        | inr n ↦ (let (m, a, k, t) = rest.0 (rw n at e) in (m, inr a, k, t))
        | inl y ↦ elim (Bool-cases (p x)) [
          | inl t ↦ (x, inl refl, (matches_iff f x).0 y, t)
          | inr u ↦ (let (m, a, k, t) = rest.0 (rw u at (rw y at e)) in (m, inr a, k, t))
        ]
      ]

      back :
          ((any p (keep (matches json confirmed txs f) xs) ≡ true) ↔ SomeFits p f xs)
          → SomeFits p f (x ∷ xs)
          → any p (keep (matches json confirmed txs f) (x ∷ xs)) ≡ true
      back rest (m, inl e, k, t) =
          let y : matches json confirmed txs f x ≡ true =
            subst (λ z. matches json confirmed txs f z ≡ true) (sym e) ((matches_iff f m).1 k) in
          let u : p x ≡ true = subst (λ z. p z ≡ true) (sym e) t in rw y (rw u refl)
      back rest (m, inr a, k, t) = elim (Bool-cases (matches json confirmed txs f x)) [
        | inr n ↦ rw n (rest.1 (m, a, k, t))
        | inl y ↦ rw y (let r = rest.1 (m, a, k, t) in ground (arith, r))
      ]
