-- ===== src/Publisher.antt =====
-- The MessagePublisher of src/aleph/handlers/message_handler.py, and the schemas of a raw message in
-- src/aleph/schemas/base_messages.py and pending_messages.py: how a message of the network becomes a
-- row of pending messages.
pub mod Admits
pub mod Parse
use py_aleph.Prelude.{
  ℕ, ◌+◌, Bool, true, false, not, ◌&&◌, ◌||◌, Option, none, some, List, [], ◌∷◌, ◌++◌, ltb, ◌==◌,
  if◌then◌else◌, first, any, is_none, coalesce, min,
}
use py_aleph.Status.{MessageOrigin, MessageStatus, Error, is_invalid_message}
use py_aleph.Result.{Result, ok, raise, ◌>>=◌, ◌>>◌, raise_if}
use py_aleph.Node.{MessageType, ItemType, inline, storage, ipfs, Message, Pending, Tables}
use py_aleph.Node.Accessors.{is_rejected, upsert_message_status, reject_new_pending_message}
use py_aleph.Files.Store.{same_item_type}
use py_aleph.Handler.{HandlerEnv, Session, message_of, same_signature}

-- The fields of a raw message that the validators only pass on, once pydantic has accepted them.
pub record MessageFields : Type 0 where
  pub chain : ℕ
  pub sender : ℕ
  pub signature : Option ℕ
  pub time : ℕ
  pub channel : Option ℕ

-- A raw message, as a dictionary: the keys that it has. An unknown `type` is none.
pub record RawMessage : Type 0 where
  pub type : Option MessageType
  pub item_hash : Option ℕ
  pub item_content : Option ℕ
  pub item_type : Option ItemType
  pub fields : Option MessageFields

-- What is not code of the schemas: the type of a hash, texts and JSON, SHA-256, the schemas of the
-- contents, the transactions that are known, and whether the files of an inline message are there.
pub record PublisherEnv : Type 0 where
  pub item_type_from_hash : ℕ → Option ItemType
  pub text_length : ℕ → ℕ
  pub is_json : ℕ → Bool
  pub sha256 : ℕ → ℕ
  pub is_content : MessageType → ℕ → Bool
  pub is_tx : ℕ → Bool
  pub is_related_content_fetched : Message → Bool

-- What `add_pending_message` is given besides the message.
pub record Source : Type 0 where
  pub reception_time : ℕ
  pub tx_hash : Option ℕ
  pub check_message : Bool
  pub origin : Option MessageOrigin

abbrev pub max_inline_size : ℕ
max_inline_size = 200000

abbrev pub require {ℓ} : {A : Type ℓ} → Option A → Result A
require none = raise Error.invalid_message_format
require (some a) = ok a

abbrev pub must : Bool → Result (Unit {0})
must b = raise_if (not b) Error.invalid_message_format

-- The keys of a message that passed the schemas.
pub record Parsed : Type 0 where
  pub type : MessageType
  pub item_hash : ℕ
  pub item_content : Option ℕ
  pub item_type : ItemType
  pub fields : MessageFields

module _ (env : PublisherEnv) where
  -- `load_content`; the content of an inline message is validated by the schema of its type.
  abbrev pub default_item_type : ℕ → Option ℕ → Option ItemType
  default_item_type item_hash none = env.item_type_from_hash item_hash
  default_item_type item_hash (some content) = some inline

  abbrev pub check_content : ItemType → Option ℕ → Result (Unit {0})
  check_content inline none = raise Error.invalid_message_format
  check_content inline (some content) =
      must (not (ltb max_inline_size (env.text_length content)) && env.is_json content)
  check_content storage content = must (is_none content)
  check_content ipfs content = must (is_none content)

  abbrev pub load_content : ℕ → Option ℕ → Option ItemType → Result ItemType
  load_content item_hash content given =
      require (default_item_type item_hash content) >>= λ default_.
      let item_type = coalesce given default_ in check_content item_type content >> ok item_type

  -- `check_item_hash`.
  abbrev pub check_item_hash : ItemType → Option ℕ → ℕ → Result (Unit {0})
  check_item_hash inline none item_hash = raise Error.invalid_message_format
  check_item_hash inline (some content) item_hash = must (item_hash == env.sha256 content)
  check_item_hash storage content item_hash = ok tt
  check_item_hash ipfs content item_hash = ok tt

  -- `check_item_type`: an unknown hash is no error of the schema.
  abbrev pub expect : ItemType → Option ItemType → Result (Unit {0})
  expect item_type none = raise Error.unknown_hash
  expect item_type (some expected) = must (same_item_type item_type expected)

  abbrev pub check_item_type : ItemType → ℕ → Result (Unit {0})
  check_item_type inline item_hash = ok tt
  check_item_type storage item_hash = expect storage (env.item_type_from_hash item_hash)
  check_item_type ipfs item_hash = expect ipfs (env.item_type_from_hash item_hash)

  abbrev pub check_schema : MessageType → ItemType → Option ℕ → Result (Unit {0})
  check_schema type inline (some content) = must (env.is_content type content)
  check_schema type _ _ = ok tt

  -- `parse_message`.
  unfoldable pub parse_message : RawMessage → Result Parsed
  parse_message raw = do
    type ← require raw.type
    item_hash ← require raw.item_hash
    item_type ← load_content item_hash raw.item_content raw.item_type
    fields ← require raw.fields
    check_item_hash item_type raw.item_content item_hash
    check_schema type item_type raw.item_content
    check_item_type item_type item_hash
    ok (record {
      type = type;
      item_hash = item_hash;
      item_content = raw.item_content;
      item_type = item_type;
      fields = fields;
    })

-- `PendingMessageDb.from_obj`, with the time of the first attempt; the database gives the id.
unfoldable pub from_obj : ℕ → ℕ → Parsed → Source → Pending
from_obj id now p source = record {
  id = id;
  item_hash = p.item_hash;
  type = p.type;
  chain = p.fields.chain;
  sender = p.fields.sender;
  signature = p.fields.signature;
  item_type = p.item_type;
  time = p.fields.time;
  channel = p.fields.channel;
  reception_time = source.reception_time;
  check_message = source.check_message;
  next_attempt = min p.fields.time now;
  retries = 0;
  tx_hash = source.tx_hash;
  fetched = false;
  origin = source.origin;
}

-- The columns of `uq_pending_message`, as the query for an existing row compares them; two rows
-- without a signature do not conflict for the constraint itself.
abbrev pub same_message : Pending → Pending → Bool
same_message p q =
    p.sender == q.sender && (p.item_hash == q.item_hash && same_signature p.signature q.signature)

abbrev pub tx_there : PublisherEnv → Option ℕ → Bool
tx_there env none = true
tx_there env (some tx) = env.is_tx tx

-- The check constraint on the signature, and the foreign key of the transaction.
abbrev pub has_integrity : PublisherEnv → Pending → Bool
has_integrity env p = (not (is_none p.signature) || not p.check_message) && tx_there env p.tx_hash

module _ {E : Type 0} (env : PublisherEnv) (handlers : HandlerEnv E) where
  -- `load_fetched_content`.
  unfoldable pub load_fetched_content : Pending → Result Pending
  load_fetched_content p = elim p.item_type [
    | inline ↦ message_of p (handlers.get_message_content p) >>= λ message.
        ok (record p { fetched = env.is_related_content_fetched message })
    | storage ↦ ok (record p { fetched = false })
    | ipfs ↦ ok (record p { fetched = false })
  ]

  -- `except InvalidMessageException`: the message is rejected if it has a hash; another exception is
  -- not caught.
  abbrev pub reject_raw : ℕ → Option ℕ → Error → Option ℕ → Tables → Tables
  reject_raw now none e tx_hash t = t
  reject_raw now (some h) e tx_hash t = (reject_new_pending_message now h e tx_hash t).1

  abbrev pub catch_invalid :
      ℕ → RawMessage → Source → Error → Tables → Result (Option Pending × Tables)
  catch_invalid now raw source e t =
      if is_invalid_message e
      then ok (none, reject_raw now raw.item_hash e source.tx_hash t)
      else raise e

  -- The insertion of a row that is new: an integrity error leaves the tables as they were.
  abbrev pub insert_pending : Pending → Tables → Option Pending × Tables
  insert_pending p t =
      if has_integrity env p
      then (let u =
            upsert_message_status p.item_hash MessageStatus.pending p.reception_time is_rejected
              t in
          (some p, record u { pending = u.pending ++ (p ∷ []) }))
      else (none, t)

  abbrev pub insert_new : Option Pending → Pending → Tables → Option Pending × Tables
  insert_new (some existing) p t = (some existing, t)
  insert_new none p t = insert_pending p t

  abbrev pub after_load :
      ℕ → RawMessage → Source → Result Pending → Tables → Result (Option Pending × Tables)
  after_load now raw source (raise e) t = catch_invalid now raw source e t
  after_load now raw source (ok p) t = ok (insert_new (first (same_message p) t.pending) p t)

  abbrev pub after_parse :
      ℕ → ℕ → RawMessage → Source → Result Parsed → Tables → Result (Option Pending × Tables)
  after_parse id now raw source (raise e) t = catch_invalid now raw source e t
  after_parse id now raw source (ok parsed) t =
      after_load now raw source (load_fetched_content (from_obj id now parsed source)) t

  -- `add_pending_message`; `id` is the next id of the table.
  unfoldable pub add_pending_message :
      ℕ → ℕ → RawMessage → Source → Tables → Result (Option Pending × Tables)
  unfolding parse_message load_fetched_content from_obj
  add_pending_message id now raw source t = after_parse id now raw source (parse_message env raw) t
