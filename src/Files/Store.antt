-- ===== src/Files/Store.antt =====
-- src/aleph/handlers/content/store.py: the handler of STORE messages, on the file tables. Fetching
-- over the network is the storage service's and not modelled.
pub mod Laws
use py_aleph.Prelude.{
  ℕ, ◌+◌, ◌*◌, Bool, true, false, not, Option, none, some, List, [], ◌∷◌, ◌==◌, if◌then◌else◌,
}
use py_aleph.Status.{Error}
use py_aleph.Result.{Result, ok, raise, ◌>>=◌, ◌>>◌, raise_if}
use py_aleph.Node.{
  ItemType, inline, storage, ipfs, StoreContent, Content, aggregate_content, post_content,
  store_content, forget_content, vm_content, Message,
}
use py_aleph.Permissions.{Authorization, check_permissions}
use py_aleph.Files.{
  FileTables, FilePin, FileTag, PinKind, content_pin, message_pin, tx_pin, grace_period_pin,
  is_pinned_file, insert_message_file_pin, delete_file_pin, insert_grace_period_file_pin,
  get_message_file_pin, get_file_tag, upsert_file_tag, refresh_file_tag,
}

-- `_get_store_content`.
abbrev pub store_content_of : Content → Result StoreContent
store_content_of (store_content c) = ok c
store_content_of (aggregate_content c) = raise Error.invalid_message_format
store_content_of (post_content c) = raise Error.invalid_message_format
store_content_of (forget_content c) = raise Error.invalid_message_format
store_content_of (vm_content c) = raise Error.invalid_message_format

abbrev pub same_item_type : ItemType → ItemType → Bool
same_item_type inline inline = true
same_item_type storage storage = true
same_item_type ipfs ipfs = true
same_item_type _ _ = false

abbrev pub pin_ref : PinKind → Option ℕ
pin_ref (message_pin item_hash owner ref) = ref
pin_ref _ = none

-- What the handler uses: `ItemHash`, which accepts a text or not; the text of an owner, a slash and
-- a ref; `item_type_from_hash`, which raises where no type fits; and the hours of grace.
pub record StoreEnv : Type 0 where
  pub is_item_hash : ℕ → Bool
  pub join : ℕ → ℕ → ℕ
  pub item_type_from_hash : ℕ → Option ItemType
  pub grace_period : ℕ

module _ (env : StoreEnv) where
  -- `make_file_tag`.
  abbrev pub tag_for : ℕ → Option ℕ → ℕ → ℕ
  tag_for owner none item_hash = item_hash
  tag_for owner (some ref) item_hash = if env.is_item_hash ref then ref else env.join owner ref

  unfoldable pub make_file_tag : ℕ → Option ℕ → ℕ → ℕ
  make_file_tag owner ref item_hash = tag_for owner ref item_hash

  abbrev check_target : Option FilePin → Result (Unit {0})
  check_target none = raise Error.missing_store_ref
  check_target (some p) = elim (pin_ref p.kind) [
    | none ↦ ok tt
    | some r ↦ raise Error.store_cannot_update_store_with_ref
  ]

  abbrev check_ref : Option ℕ → FileTables → Result (Unit {0})
  check_ref none t = ok tt
  check_ref (some ref) t =
      if env.is_item_hash ref then check_target (get_message_file_pin ref t) else ok tt

  -- `StoreMessageHandler.check_dependencies`.
  unfoldable pub check_dependencies : Message → FileTables → Result (Unit {0})
  check_dependencies message t =
      store_content_of message.content >>= λ content. check_ref content.ref t

  abbrev check_owner : ℕ → Option FileTag → Result (Unit {0})
  check_owner owner none = ok tt
  check_owner owner (some tag) = raise_if (not (tag.owner == owner)) Error.denied

  abbrev check_tag : Message → StoreContent → Option ℕ → FileTables → Result (Unit {0})
  check_tag message content none t = ok tt
  check_tag message content (some ref) t =
      check_owner content.address
        (get_file_tag (make_file_tag content.address (some ref) message.item_hash) t)

  -- `StoreMessageHandler.check_permissions`.
  unfoldable pub check_store_permissions :
      (ℕ → Option (List Authorization)) → Message → FileTables → Result (Unit {0})
  check_store_permissions security message t = check_permissions security message >>= λ _.
      store_content_of message.content >>= λ content. check_tag message content content.ref t

  -- `_pin_and_tag_file`.
  abbrev pin_and_tag : Message → StoreContent → FileTables → Result FileTables
  pin_and_tag message content t =
      insert_message_file_pin content.item_hash content.address message.item_hash content.ref
        content.time t
      >>= λ t'. ok (
          upsert_file_tag (make_file_tag content.address content.ref message.item_hash)
            content.address content.item_hash content.time t')

  unfoldable pub pin_and_tag_file : Message → FileTables → Result FileTables
  pin_and_tag_file message t =
      store_content_of message.content >>= λ content. pin_and_tag message content t

  abbrev check_type : Option ItemType → ItemType → Result (Unit {0})
  check_type none type = raise Error.unknown_hash
  check_type (some detected) type = raise_if (not (same_item_type type detected)) Error.other

  -- `_check_remaining_pins`, at the time `now`; a grace period of some hours, in seconds.
  unfoldable pub check_remaining_pins : ℕ → ℕ → ItemType → FileTables → Result FileTables
  check_remaining_pins now storage_hash storage_type t =
      if is_pinned_file storage_hash t
      then ok t
      else (check_type (env.item_type_from_hash storage_hash) storage_type >>= λ _.
          ok (insert_grace_period_file_pin storage_hash now (now + env.grace_period * 3600) t))

  abbrev forget_content_of : ℕ → Message → StoreContent → FileTables → Result FileTables
  forget_content_of now message content t =
      refresh_file_tag (make_file_tag content.address content.ref message.item_hash)
        (delete_file_pin message.item_hash t)
      >>= λ t'. check_remaining_pins now content.item_hash content.item_type t'

  -- `StoreMessageHandler.forget_message`, which names no further message to forget.
  unfoldable pub forget_store : ℕ → Message → FileTables → Result (FileTables × List ℕ)
  forget_store now message t = store_content_of message.content >>= λ content.
      forget_content_of now message content t >>= λ t'. ok (t', [])
