-- ===== src/Node.antt =====
-- The rows of the message tables: src/aleph/db/models/messages.py and pending_messages.py, and the
-- message contents as the handlers read them. Hashes, addresses, chains, channels and the like are
-- only compared, so they are naturals; so are times, which are only compared and shifted.
pub mod Accessors
pub mod Consistent
pub mod Next
use py_aleph.Prelude.{ℕ, Bool, Option, some, List, ◌==◌, if◌then◌else◌}
use py_aleph.Machines.{VmContent}
use py_aleph.Status.{MessageOrigin, MessageStatus, ErrorCode}

pub data MessageType : Type 0 where
  aggregate instance_ post program store forget : MessageType

pub data ItemType : Type 0 where
  inline storage ipfs : ItemType

-- The `type` of a post: the reserved word `amend`, or any other text.
pub data PostType : Type 0 where
  amend : PostType
  named : ℕ → PostType

-- The `ref` of a post: a `ChainRef`, of which the item hash is read, or a text.
pub data PostRef : Type 0 where
  chain_ref text : ℕ → PostRef

pub record PostContent : Type 0 where
  pub address : ℕ
  pub time : ℕ
  pub type : PostType
  pub ref : Option PostRef
  pub body : ℕ

pub record StoreContent : Type 0 where
  pub address : ℕ
  pub time : ℕ
  pub item_hash : ℕ
  pub item_type : ItemType
  pub ref : Option ℕ

pub record AggregateContent : Type 0 where
  pub address : ℕ
  pub time : ℕ
  pub key : ℕ
  pub fields : List (ℕ × ℕ)

pub record ForgetContent : Type 0 where
  pub address : ℕ
  pub time : ℕ
  pub hashes : List ℕ
  pub aggregates : List ℕ

pub data Content : Type 0 where
  aggregate_content : AggregateContent → Content
  post_content : PostContent → Content
  store_content : StoreContent → Content
  forget_content : ForgetContent → Content
  vm_content : VmContent → Content

-- `MessageDb`.
pub record Message : Type 0 where
  pub item_hash : ℕ
  pub type : MessageType
  pub chain : ℕ
  pub sender : ℕ
  pub signature : Option ℕ
  pub item_type : ItemType
  pub content : Content
  pub time : ℕ
  pub channel : Option ℕ
  pub size : ℕ

-- `MessageStatusDb`.
pub record StatusRow : Type 0 where
  pub status : MessageStatus
  pub reception_time : ℕ

-- `ForgottenMessageDb`.
pub record Forgotten : Type 0 where
  pub item_hash : ℕ
  pub type : MessageType
  pub chain : ℕ
  pub sender : ℕ
  pub signature : Option ℕ
  pub item_type : ItemType
  pub time : ℕ
  pub channel : Option ℕ
  pub forgotten_by : List ℕ

-- `RejectedMessageDb`, without the texts for people: the copy of the message, details, traceback.
pub record Rejected : Type 0 where
  pub item_hash : ℕ
  pub error_code : ErrorCode
  pub tx_hash : Option ℕ

-- `PendingMessageDb`, whose `content` the model leaves to the storage service.
pub record Pending : Type 0 where
  pub id : ℕ
  pub item_hash : ℕ
  pub type : MessageType
  pub chain : ℕ
  pub sender : ℕ
  pub signature : Option ℕ
  pub item_type : ItemType
  pub time : ℕ
  pub channel : Option ℕ
  pub reception_time : ℕ
  pub check_message : Bool
  pub next_attempt : ℕ
  pub retries : ℕ
  pub tx_hash : Option ℕ
  pub fetched : Bool
  pub origin : Option MessageOrigin

-- The tables. One with the item hash as its primary key is a function from hashes to rows, so a key
-- has at most one row.
pub record Tables : Type 0 where
  pub messages : ℕ → Option Message
  pub statuses : ℕ → Option StatusRow
  pub forgotten : ℕ → Option Forgotten
  pub rejected : ℕ → Option Rejected
  pub confirmations : ℕ → ℕ → Bool
  pub pending : List Pending

-- Write a row under its key.
abbrev pub put {ℓ} : {A : Type ℓ} → (ℕ → A) → ℕ → A → ℕ → A
put table key row j = if key == j then row else table j
