-- ===== src/Permissions.antt =====
-- src/aleph/permissions.py, and the check of src/aleph/handlers/content/content_handler.py that
-- calls it.
pub mod Guards
pub mod Laws
use py_aleph.Prelude.{
  ℕ, Bool, true, false, not, ◌&&◌, ◌||◌, Option, none, some, List, [], ◌∷◌, ◌==◌, if◌then◌else◌,
  any,
}
use py_aleph.Result.{Result, ok}
use py_aleph.Node.{
  MessageType, PostType, amend, named, Content, Message, aggregate_content, post_content,
  store_content, forget_content, vm_content,
}

-- The number of a message type, to compare types by.
abbrev pub type_code : MessageType → ℕ
type_code MessageType.aggregate = 0
type_code MessageType.instance_ = 1
type_code MessageType.post = 2
type_code MessageType.program = 3
type_code MessageType.store = 4
type_code MessageType.forget = 5

abbrev pub same_type : MessageType → MessageType → Bool
same_type a b = type_code a == type_code b

abbrev pub same_post_type : PostType → PostType → Bool
same_post_type amend amend = true
same_post_type (named a) (named b) = a == b
same_post_type _ _ = false

-- One entry of `authorizations`; a missing list is the empty one.
pub record Authorization : Type 0 where
  pub address : Option ℕ
  pub chain : Option ℕ
  pub channels : List ℕ
  pub types : List MessageType
  pub post_types : List PostType
  pub aggregate_keys : List ℕ

abbrev pub address_of : Content → ℕ
address_of (aggregate_content c) = c.address
address_of (post_content c) = c.address
address_of (store_content c) = c.address
address_of (forget_content c) = c.address
address_of (vm_content c) = c.address

abbrev pub is_empty {ℓ} : {A : Type ℓ} → List A → Bool
is_empty [] = true
is_empty (x ∷ xs) = false

abbrev pub is_value : Option ℕ → ℕ → Bool
is_value none v = false
is_value (some a) v = a == v

-- `auth.get("chain") and message.chain != auth.get("chain")`.
abbrev pub other_chain : Option ℕ → ℕ → Bool
other_chain none v = false
other_chain (some a) v = not (a == v)

abbrev pub in_channels : Option ℕ → List ℕ → Bool
in_channels none channels = false
in_channels (some c) channels = any (λ a. a == c) channels

-- The tests on the content, made for posts and for aggregates.
abbrev pub content_refused : MessageType → Content → Authorization → Bool
content_refused MessageType.post (post_content c) auth =
    not (is_empty auth.post_types) && not (any (λ t. same_post_type t c.type) auth.post_types)
content_refused MessageType.aggregate (aggregate_content c) auth =
    not (is_empty auth.aggregate_keys) && not (any (λ k. k == c.key) auth.aggregate_keys)
content_refused _ _ auth = false

-- The loop over the authorizations: each `continue` goes on with the rest.
unfoldable pub check_authorizations : Message → List Authorization → Bool
check_authorizations message [] = false
check_authorizations message (auth ∷ auths) =
    let rest = check_authorizations message auths in
    if not (is_value auth.address message.sender)
    then rest
    else if other_chain auth.chain message.chain
    then rest
    else if not (is_empty auth.channels) && not (in_channels message.channel auth.channels)
    then rest
    else if not (is_empty auth.types) && not (any (λ t. same_type t message.type) auth.types)
    then rest
    else if content_refused message.type message.content auth
    then rest
    else true

abbrev pub check_security : Message → Option (List Authorization) → Bool
check_security message none = false
check_security message (some authorizations) = check_authorizations message authorizations

-- `check_sender_authorization`; `security` has the authorizations of each owner's "security"
-- aggregate, where there is one.
unfoldable pub check_sender_authorization : (ℕ → Option (List Authorization)) → Message → Bool
unfolding check_authorizations
check_sender_authorization security message =
    let address = address_of message.content in
    if message.sender == address then true else check_security message (security address)

-- `ContentHandler.check_permissions`: the answer of the call is not used.
unfoldable pub check_permissions : (ℕ → Option (List Authorization)) → Message → Result (Unit {0})
unfolding check_sender_authorization
check_permissions security message =
    let authorized = check_sender_authorization security message in ok tt
