-- ===== src/Permissions/Laws.antt =====
-- Whom `check_sender_authorization` lets act for an address: its answer against a description by
-- membership, which shares no test with the code.
use py_aleph.Prelude.{
  ℕ, ◌≡◌, ◌⊎◌, ◌↔◌, inl, inr, refl, Bool, true, false, not, ◌&&◌, Option, none, some, List, [], ◌∷◌,
  arith, ◌==◌, if◌then◌else◌, any, Bool-cases,
}
use py_aleph.Node.{Message}
use py_aleph.Permissions.{
  Authorization, is_value, is_empty, other_chain, in_channels, type_code, same_type,
  content_refused, address_of, check_authorizations, check_security, check_sender_authorization,
}
use py_aleph.Permissions.Guards.{
  Among, AllowsContent, ==-complete, listed, unlisted, same_type_sound, value_iff, chain_iff,
  channel_in, channel_back, content_in, content_back,
}

-- An authorization lets the sender of a message act: it is for that address; if it names a chain, for
-- that of the message; if it lists channels or types, then also those of the message, which has a
-- channel then; and it allows the content.
pub record Allows (message : Message) (auth : Authorization) : Type 0 where
  pub address : auth.address ≡ some message.sender
  pub chain : (auth.chain ≡ none) ⊎ (auth.chain ≡ some message.chain)
  pub channel :
      (auth.channels ≡ []) ⊎ ((c : ℕ) × (message.channel ≡ some c) × Among c auth.channels)
  pub type : (auth.types ≡ []) ⊎ Among message.type auth.types
  pub content : AllowsContent message.type message.content auth

abbrev pub AnyAllows : Message → List Authorization → Type 0
AnyAllows message [] = ⊥
AnyAllows message (auth ∷ auths) = Allows message auth ⊎ AnyAllows message auths

-- A message is authorized: the address of its content is its sender, or that address has a "security"
-- aggregate with an authorization that allows the message.
abbrev pub IsAuthorized : (ℕ → Option (List Authorization)) → Message → Type 0
IsAuthorized security message =
    (message.sender ≡ address_of message.content)
    ⊎ ((auths : List Authorization) × (security (address_of message.content) ≡ some auths)
        × AnyAllows message auths)

-- The ladder of `continue`s.
abbrev ladder : Bool → Bool → Bool → Bool → Bool → Bool → Bool
ladder a b c d e rest =
    if not a
    then rest
    else if b
    then rest
    else if c
    then rest
    else if d
    then rest
    else if e
    then rest
    else true

ladder_inv :
    (a b c d e rest : Bool)
    → ladder a b c d e rest ≡ true
    → ((a ≡ true) × (b ≡ false) × (c ≡ false) × (d ≡ false) × (e ≡ false)) ⊎ (rest ≡ true)
ladder_inv false b c d e rest h = inr h
ladder_inv true true c d e rest h = inr h
ladder_inv true false true d e rest h = inr h
ladder_inv true false false true e rest h = inr h
ladder_inv true false false false true rest h = inr h
ladder_inv true false false false false rest h = inl (refl, refl, refl, refl, refl)

ladder_rest : (a b c d e rest : Bool) → rest ≡ true → ladder a b c d e rest ≡ true
ladder_rest a b c d e rest h = ground arith

module _ (message : Message) (auth : Authorization) where
  abbrev no_channel : Bool
  no_channel = not (is_empty auth.channels) && not (in_channels message.channel auth.channels)

  abbrev no_type : Bool
  no_type = not (is_empty auth.types) && not (any (λ t. same_type t message.type) auth.types)

  guards-Allows :
      is_value auth.address message.sender ≡ true
      → other_chain auth.chain message.chain ≡ false
      → no_channel ≡ false
      → no_type ≡ false
      → content_refused message.type message.content auth ≡ false
      → Allows message auth
  guards-Allows a b c d e = record {
    address = (value_iff auth.address message.sender).0 a;
    chain = (chain_iff auth.chain message.chain).0 b;
    channel = channel_in message.channel auth.channels c;
    type =
        listed (λ t. same_type t message.type) message.type (same_type_sound message.type)
          (==-complete (type_code message.type)) auth.types d;
    content = content_in message.type message.content auth e;
  }

  Allows-ladder :
      (rest : Bool)
      → Allows message auth
      → ladder
          (is_value auth.address message.sender)
          (other_chain auth.chain message.chain)
          no_channel
          no_type
          (content_refused message.type message.content auth)
          rest
        ≡ true
  Allows-ladder rest k =
      let a = (value_iff auth.address message.sender).1 k.address in
      let b = (chain_iff auth.chain message.chain).1 k.chain in
      let c = channel_back message.channel auth.channels k.channel in
      let d =
        unlisted (λ t. same_type t message.type) message.type (same_type_sound message.type)
          (==-complete (type_code message.type)) auth.types k.type in
      let e = content_back message.type message.content auth k.content in rw (a, b, c, d, e) refl

check_authorizations-AnyAllows :
    (message : Message) (auths : List Authorization)
    → check_authorizations message auths ≡ true
    → AnyAllows message auths
unfolding check_authorizations
check_authorizations-AnyAllows message [] h = absurd (cc)
check_authorizations-AnyAllows message (x ∷ xs) h =
    elim (ladder_inv (is_value x.address message.sender) (other_chain x.chain message.chain)
      (no_channel message x) (no_type message x) (content_refused message.type message.content x)
      (check_authorizations message xs) h) [
        | inl (a, b, c, d, e) ↦ inl (guards-Allows message x a b c d e)
        | inr rest ↦ inr (check_authorizations-AnyAllows message xs rest)
      ]

AnyAllows-check_authorizations :
    (message : Message) (auths : List Authorization)
    → AnyAllows message auths
    → check_authorizations message auths ≡ true
unfolding check_authorizations
AnyAllows-check_authorizations message [] h = absurd h
AnyAllows-check_authorizations message (x ∷ xs) (inl k) =
    Allows-ladder message x (check_authorizations message xs) k
AnyAllows-check_authorizations message (x ∷ xs) (inr k) =
    ladder_rest (is_value x.address message.sender) (other_chain x.chain message.chain)
      (no_channel message x) (no_type message x) (content_refused message.type message.content x)
      (check_authorizations message xs) (AnyAllows-check_authorizations message xs k)

-- `check_sender_authorization` answers True exactly if the address of the content is the sender,
-- or the "security" aggregate of that address has an authorization for the sender in which the
-- chain, if there is one, is that of the message, and each of the lists of channels, types, post
-- types (of a POST) and aggregate keys (of an AGGREGATE) is empty or has what the message has.
pub check_sender_authorization_iff :
    (security : ℕ → Option (List Authorization)) (message : Message)
    → (check_sender_authorization security message ≡ true) ↔ IsAuthorized security message
unfolding check_sender_authorization
check_sender_authorization_iff security message = (forth, back)
  where
    found :
        (o : Option (List Authorization))
        → check_security message o ≡ true
        → (auths : List Authorization) × (o ≡ some auths) × AnyAllows message auths
    found none e = absurd (cc)
    found (some auths) e = (auths, refl, check_authorizations-AnyAllows message auths e)

    forth : check_sender_authorization security message ≡ true → IsAuthorized security message
    forth e = elim (Bool-cases (message.sender == address_of message.content)) [
      | inl y ↦ inl (ground (arith, y))
      | inr n ↦ inr (found (security (address_of message.content)) (rw n at e))
    ]

    back : IsAuthorized security message → check_sender_authorization security message ≡ true
    back (inl e) =
        (let y : (message.sender == address_of message.content) ≡ true = ground (arith, e) in
          rw y refl)
    back (inr (auths, e, k)) = elim (Bool-cases (message.sender == address_of message.content)) [
      | inl y ↦ rw y refl
      | inr n ↦ rw n (rw e (AnyAllows-check_authorizations message auths k))
    ]
