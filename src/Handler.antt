-- ===== src/Handler.antt =====
-- src/aleph/handlers/message_handler.py: how a pending message becomes a message of the node, over
-- the content handlers (content_handler.py) as an interface. A step that raises has no state: the
-- caller rolls the session back.

pub mod Process
use py_aleph.Prelude.{
  ℕ, Bool, true, false, not, Option, none, some, List, [], ◌∷◌, ◌==◌, if◌then◌else◌,
}
use py_aleph.Status.{MessageOrigin, MessageStatus, ErrorCode, Error}
use py_aleph.Result.{Result, ok, raise, ◌>>=◌, ◌>>◌, raise_if}
use py_aleph.Node.{
  MessageType, ItemType, inline, storage, ipfs, Content, aggregate_content, post_content,
  store_content, forget_content, vm_content, Message, Forgotten, Pending, Tables,
}
use py_aleph.Node.Accessors.{
  get_message_by_item_hash, get_forgotten_message, upsert_message, upsert_confirmation,
  upsert_message_status, is_pending, delete_pending_message,
}
use py_aleph.Files.{FileTables, FileType, file, upsert_file, insert_content_file_pin}

-- The database: the message tables, the file tables, and the tables `E` of the content handlers.
pub record Session (E : Type 0) : Type 0 where
  pub tables : Tables
  pub files : FileTables
  pub ext : E

-- `ContentHandler`.
pub record ContentHandler (E : Type 0) : Type 0 where
  pub fetch_related_content : Message → Session E → Result (Session E)
  pub check_dependencies : Message → Session E → Result (Unit {0})
  pub check_permissions : Message → Session E → Result (Unit {0})
  pub check_balance : Message → Session E → Result (Unit {0})
  pub process : Message → Session E → Result (Session E)
  pub forget_message : Message → Session E → Result (Session E × List ℕ)

-- A content as the storage service returns it: the fields that may be missing, the validation of
-- the content with an address and a time, and its size.
pub record RawContent : Type 0 where
  pub address : Option ℕ
  pub time : Option ℕ
  pub validate : MessageType → ℕ → ℕ → Option Content
  pub size : ℕ

pub data Fetched : Type 0 where
  found : RawContent → Fetched
  invalid_content : Fetched
  unavailable : Fetched

-- What the handler is given: the signature verifier, the storage service and the content handlers.
pub record HandlerEnv (E : Type 0) : Type 0 where
  pub verify : Pending → Result (Unit {0})
  pub get_message_content : Pending → Fetched
  pub content_handlers : MessageType → ContentHandler E

abbrev pub or_else : Option ℕ → ℕ → ℕ
or_else none d = d
or_else (some a) d = a

-- `MessageDb.from_pending_message`, with `_coerce_content`; `none` is a `ValidationError`.
abbrev message_with : Pending → RawContent → Option Content → Result Message
message_with p raw none = raise Error.invalid_message_format
message_with p raw (some content) = ok (record {
  item_hash = p.item_hash;
  type = p.type;
  chain = p.chain;
  sender = p.sender;
  signature = p.signature;
  item_type = p.item_type;
  content = content;
  time = p.time;
  channel = p.channel;
  size = raw.size;
})

unfoldable pub from_pending_message : Pending → RawContent → Result Message
from_pending_message p raw =
    message_with p raw
      (raw.validate p.type (or_else raw.address p.sender) (or_else raw.time p.time))

abbrev pub message_of : Pending → Fetched → Result Message
message_of p (found raw) = from_pending_message p raw
message_of p invalid_content = raise Error.invalid_message_format
message_of p unavailable = raise Error.message_content_unavailable

abbrev pub same_signature : Option ℕ → Option ℕ → Bool
same_signature none none = true
same_signature (some a) (some b) = a == b
same_signature _ _ = false

-- `if tx_hash := pending_message.tx_hash: ...`.
abbrev pub confirm : ℕ → Option ℕ → Tables → Tables
confirm item_hash none t = t
confirm item_hash (some tx) t = upsert_confirmation item_hash tx t

pub data ProcessingResult : Type 0 where
  processed_message : Message → Option MessageOrigin → Bool → ProcessingResult
  rejected_message : Pending → ErrorCode → ProcessingResult
  will_retry_message : Pending → ErrorCode → ProcessingResult

-- `confirm_existing_message`.
unfoldable pub confirm_existing_message : Message → Pending → Tables → Result Tables
confirm_existing_message existing p t =
    if not (same_signature p.signature existing.signature)
    then raise Error.bad_signature
    else ok (confirm p.item_hash p.tx_hash (delete_pending_message p t))

-- `confirm_existing_forgotten_message`.
unfoldable pub confirm_existing_forgotten_message : Forgotten → Pending → Tables → Result Tables
confirm_existing_forgotten_message f p t =
    if not (same_signature p.signature f.signature)
    then raise Error.bad_signature
    else ok (delete_pending_message p t)

-- The statements of `insert_message` on the message tables; in the source the file statements stand
-- after the first of them.
unfoldable pub insert_rows : Pending → Message → Tables → Tables
insert_rows p m t = confirm m.item_hash p.tx_hash (
    upsert_message_status m.item_hash MessageStatus.processed p.reception_time is_pending
      (delete_pending_message p (upsert_message m t)))

abbrev pub content_time : Content → ℕ
content_time (aggregate_content c) = c.time
content_time (post_content c) = c.time
content_time (store_content c) = c.time
content_time (forget_content c) = c.time
content_time (vm_content c) = c.time

-- The file of a content that is not inline is stored, and pinned by the message.
abbrev pub insert_content_file : Message → ItemType → FileTables → Result FileTables
insert_content_file m inline t = ok t
insert_content_file m _ t =
    insert_content_file_pin m.item_hash m.sender m.item_hash (content_time m.content)
      (upsert_file m.item_hash m.size file t)

-- `except UnknownHashError`.
abbrev pub catch_unknown_hash {ℓ} : {A : Type ℓ} → Result A → Result A
catch_unknown_hash (ok a) = ok a
catch_unknown_hash (raise Error.unknown_hash) = raise Error.invalid_message_format
catch_unknown_hash (raise e) = raise e

module _ {E : Type 0} (env : HandlerEnv E) where
  -- `insert_message`.
  unfoldable pub insert_message : Pending → Message → Session E → Result (Session E)
  unfolding insert_rows
  insert_message p m s = insert_content_file m m.item_type s.files >>= λ files.
      ok (record s { tables = insert_rows p m s.tables; files = files })

  -- `verify_signature`.
  abbrev pub verify_signature : Pending → Result (Unit {0})
  verify_signature p = if p.check_message then env.verify p else ok tt

  -- `fetch_pending_message`.
  abbrev pub fetch_pending_message : Pending → Result Message
  fetch_pending_message p = message_of p (env.get_message_content p)

  abbrev pub fetch_related_content : Message → Session E → Result (Session E)
  fetch_related_content m s =
      catch_unknown_hash ((env.content_handlers m.type).fetch_related_content m s)

  -- `verify_and_fetch`.
  unfoldable pub verify_and_fetch : Pending → Session E → Result (Message × Session E)
  verify_and_fetch p s = do
    verify_signature p
    m ← fetch_pending_message p
    s' ← fetch_related_content m s
    ok (m, s')

  -- The part of `process` for a message that the node does not have.
  unfoldable pub process_new : Pending → Session E → Result (ProcessingResult × Session E)
  process_new p s = do
    fetched ← verify_and_fetch p s
    let m = fetched.0
    let handler = env.content_handlers m.type
    handler.check_dependencies m fetched.1
    handler.check_permissions m fetched.1
    handler.check_balance m fetched.1
    inserted ← insert_message p m fetched.1
    done ← handler.process m inserted
    ok (processed_message m p.origin false, done)

  abbrev pub process_by :
      Option Message
      → Option Forgotten
      → Pending
      → Session E
      → Result (ProcessingResult × Session E)
  process_by (some existing) f p s = confirm_existing_message existing p s.tables >>= λ t.
      ok (processed_message existing none true, record s { tables = t })
  process_by none (some f) p s = confirm_existing_forgotten_message f p s.tables >>= λ t.
      ok (rejected_message p ErrorCode.forgotten_duplicate, record s { tables = t })
  process_by none none p s = process_new p s

  -- `MessageHandler.process`.
  unfoldable pub process : Pending → Session E → Result (ProcessingResult × Session E)
  process p s =
      process_by (get_message_by_item_hash s.tables p.item_hash)
        (get_forgotten_message s.tables p.item_hash) p s
