-- ===== src/Permissions/Guards.antt =====
-- The guards of `check_sender_authorization`, each with what it asks by membership.
use mathlib.Core.Path.{subst}
use py_aleph.Prelude.{
  ℕ, ◌≡◌, ◌⊎◌, ◌↔◌, inl, inr, refl, sym, ap, ◌∙◌, Bool, true, false, not, ◌&&◌, Option, none, some,
  List, [], ◌∷◌, arith, ◌==◌, if◌then◌else◌, any, Bool-cases,
}
use py_aleph.Node.{MessageType, PostType, amend, named, Content, aggregate_content, post_content}
use py_aleph.Permissions.{
  Authorization, is_value, is_empty, other_chain, in_channels, type_code, same_type, same_post_type,
  content_refused,
}

-- A value is in a list.
abbrev pub Among : {A : Type 0} → A → List A → Type 0
Among x [] = ⊥
Among x (y ∷ ys) = (y ≡ x) ⊎ Among x ys

-- What an authorization asks of the content: the type of a post, or the key of an aggregate, where
-- the message is of that type and the list is not empty.
abbrev pub AllowsContent : MessageType → Content → Authorization → Type 0
AllowsContent MessageType.post (post_content c) auth =
    (auth.post_types ≡ []) ⊎ Among c.type auth.post_types
AllowsContent MessageType.aggregate (aggregate_content c) auth =
    (auth.aggregate_keys ≡ []) ⊎ Among c.key auth.aggregate_keys
AllowsContent _ _ auth = Unit {0}

-- A test that decides membership.
module _ {A : Type 0} (test : A → Bool) (x : A) (sound : (a : A) → test a ≡ true → a ≡ x)
    (complete : test x ≡ true) where
  pub any-Among : (xs : List A) → any test xs ≡ true → Among x xs
  any-Among [] e = absurd (cc)
  any-Among (a ∷ xs) e = elim (Bool-cases (test a)) [
    | inl y ↦ inl (sound a y)
    | inr n ↦ inr (any-Among xs (rw n at e))
  ]

  pub Among-any : (xs : List A) → Among x xs → any test xs ≡ true
  Among-any [] h = absurd h
  Among-any (a ∷ xs) (inl e) =
      let y : test a ≡ true = subst (λ b. test b ≡ true) (sym e) complete in ground (arith, y)
  Among-any (a ∷ xs) (inr h) = ground (arith, Among-any xs h)

  -- The guard of a list: an empty list asks for nothing.
  pub listed :
      (xs : List A) → (not (is_empty xs) && not (any test xs)) ≡ false → (xs ≡ []) ⊎ Among x xs
  listed [] e = inl refl
  listed (a ∷ xs) e = inr (any-Among (a ∷ xs) (ground (arith, e)))

  pub unlisted :
      (xs : List A) → (xs ≡ []) ⊎ Among x xs → (not (is_empty xs) && not (any test xs)) ≡ false
  unlisted [] h = refl
  unlisted (a ∷ xs) (inl e) = absurd (cc)
  unlisted (a ∷ xs) (inr h) = let y = Among-any (a ∷ xs) h in ground (arith, y)

pub ==-sound : (x a : ℕ) → (a == x) ≡ true → a ≡ x
==-sound x a e = ground (arith, e)

pub ==-complete : (x : ℕ) → (x == x) ≡ true
==-complete x = ground arith

type_at : ℕ → MessageType
type_at n =
    if n == 0
    then MessageType.aggregate
    else if n == 1
    then MessageType.instance_
    else if n == 2
    then MessageType.post
    else if n == 3
    then MessageType.program
    else if n == 4
    then MessageType.store
    else MessageType.forget

type_at-type_code : (m : MessageType) → type_at (type_code m) ≡ m
unfolding type_at
type_at-type_code MessageType.aggregate = refl
type_at-type_code MessageType.instance_ = refl
type_at-type_code MessageType.post = refl
type_at-type_code MessageType.program = refl
type_at-type_code MessageType.store = refl
type_at-type_code MessageType.forget = refl

pub same_type_sound : (x a : MessageType) → same_type a x ≡ true → a ≡ x
same_type_sound x a e =
    let codes : type_code a ≡ type_code x = ground (arith, e) in
    sym (type_at-type_code a) ∙ (ap type_at codes ∙ type_at-type_code x)

same_post_type_sound : (x a : PostType) → same_post_type a x ≡ true → a ≡ x
same_post_type_sound amend amend e = refl
same_post_type_sound amend (named n) e = absurd (cc)
same_post_type_sound (named n) amend e = absurd (cc)
same_post_type_sound (named n) (named m) e = ap (λ k. named k) (ground (arith, e))

same_post_type_complete : (x : PostType) → same_post_type x x ≡ true
same_post_type_complete amend = refl
same_post_type_complete (named n) = ground arith

-- Each guard of the loop, and what an authorization asks there.
pub value_iff : (o : Option ℕ) (v : ℕ) → (is_value o v ≡ true) ↔ (o ≡ some v)
value_iff none v = (λ e. absurd (cc), λ e. absurd (cc))
value_iff (some a) v = (λ e. ap (λ x. some x) (ground (arith, e)), λ e. ground (arith, e))

pub chain_iff : (o : Option ℕ) (v : ℕ) → (other_chain o v ≡ false) ↔ ((o ≡ none) ⊎ (o ≡ some v))
chain_iff none v = (λ e. inl refl, λ e. refl)
chain_iff (some a) v = (λ e. inr (ap (λ x. some x) (ground (arith, e))), back)
  where
    back : (some a ≡ none) ⊎ (some a ≡ some v) → other_chain (some a) v ≡ false
    back (inl e) = absurd (cc)
    back (inr e) = ground (arith, e)

abbrev pub InChannels : Option ℕ → List ℕ → Type 0
InChannels o channels = (channels ≡ []) ⊎ ((c : ℕ) × (o ≡ some c) × Among c channels)

pub channel_in :
    (o : Option ℕ) (channels : List ℕ)
    → (not (is_empty channels) && not (in_channels o channels)) ≡ false
    → InChannels o channels
channel_in o [] e = inl refl
channel_in none (x ∷ xs) e = absurd (cc)
channel_in (some c) (x ∷ xs) e =
    inr
      (c, refl, any-Among (λ a. a == c) c (==-sound c) (==-complete c) (x ∷ xs) (ground (arith, e)))

pub channel_back :
    (o : Option ℕ) (channels : List ℕ)
    → InChannels o channels
    → (not (is_empty channels) && not (in_channels o channels)) ≡ false
channel_back o [] h = refl
channel_back o (x ∷ xs) (inl e) = absurd (cc)
channel_back o (x ∷ xs) (inr (c, e, m)) =
    let y = Among-any (λ a. a == c) c (==-sound c) (==-complete c) (x ∷ xs) m in rw (e, y) refl

pub content_in :
    (type : MessageType) (content : Content) (auth : Authorization)
    → content_refused type content auth ≡ false
    → AllowsContent type content auth
content_in MessageType.post (post_content c) auth e =
    listed (λ t. same_post_type t c.type) c.type (same_post_type_sound c.type)
      (same_post_type_complete c.type) auth.post_types e
content_in MessageType.aggregate (aggregate_content c) auth e =
    listed (λ k. k == c.key) c.key (==-sound c.key) (==-complete c.key) auth.aggregate_keys e
content_in _ _ auth e = tt

pub content_back :
    (type : MessageType) (content : Content) (auth : Authorization)
    → AllowsContent type content auth
    → content_refused type content auth ≡ false
content_back MessageType.post (post_content c) auth h =
    unlisted (λ t. same_post_type t c.type) c.type (same_post_type_sound c.type)
      (same_post_type_complete c.type) auth.post_types h
content_back MessageType.aggregate (aggregate_content c) auth h =
    unlisted (λ k. k == c.key) c.key (==-sound c.key) (==-complete c.key) auth.aggregate_keys h
content_back _ _ auth h = refl
