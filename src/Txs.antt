-- ===== src/Txs.antt =====
-- src/aleph/chains/chain_data_service.py and src/aleph/jobs/process_pending_txs.py: how the messages of a
-- pending transaction become pending messages.
pub mod Keeps
pub mod Rounds
use py_aleph.Prelude.{
  ℕ, suc, Bool, true, false, not, ◌&&◌, Option, none, some, List, [], ◌∷◌, ltb, ◌==◌, if◌then◌else◌,
  any, keep,
}
use py_aleph.Status.{MessageOrigin, Error}
use py_aleph.Result.{Result, ok, raise}
use py_aleph.Node.{MessageType, inline, Pending, Tables}
use py_aleph.Files.{FileTables, file, upsert_file, upsert_tx_file_pin}
use py_aleph.Chains.{
  ChainTx, Protocol, on_chain_sync, off_chain_sync, smart_contract, ChainTables, delete_pending_tx,
}
use py_aleph.Handler.{HandlerEnv}
use py_aleph.Publisher.{RawMessage, Source, PublisherEnv, add_pending_message}
use py_aleph.Queries.{take, sort_by}

-- The exceptions that leave a transaction pending: `InvalidContent`, `ContentCurrentlyUnavailable`, and
-- any other.
pub data TxError : Type 0 where
  invalid_content content_currently_unavailable other : TxError

pub data TxResult (A : Type 0) : Type 0 where
  failed : TxError → TxResult A
  fetched : A → TxResult A

-- A chain data file as the storage service returns it.
pub record SyncFile (J : Type 0) : Type 0 where
  pub hash : ℕ
  pub value : J
  pub size : ℕ

-- The payload of a smart contract event, for Tezos and for the other chains.
pub record Payload : Type 0 where
  pub address : ℕ
  pub timestamp_seconds : ℕ
  pub type : ℕ
  pub content : ℕ

-- What is not code of these files: JSON, the storage service, the schemas of payloads and contents,
-- the settings. `as_text` is a JSON value that
-- is a text, as the schema of an off-chain transaction asks of its content. `store_content` is the
-- text of the content of a STORE message, unless the hash is none;
-- `message_type` reads the type of a message; `messages_of` is what iterating over a value gives.
pub record TxEnv (J : Type 0) : Type 0 where
  pub get : ℕ → J → Option J
  pub messages_key : ℕ
  pub content_key : ℕ
  pub is_list : J → Bool
  pub messages_of : J → List RawMessage
  pub as_text : J → Option ℕ
  pub get_json : ℕ → TxResult (SyncFile J)
  pub ipfs_enabled : Bool
  pub tezos : ℕ
  pub tezos_payload : J → Option Payload
  pub message_event : J → Option Payload
  pub store_ipfs : ℕ
  pub store_content : ℕ → ℕ → ℕ → Option ℕ
  pub sha256 : ℕ → ℕ
  pub message_type : ℕ → Option MessageType

-- The database, the hashes of the files that this round has asked for, and the next id of a pending
-- message.
pub record TxState (J : Type 0) : Type 0 where
  pub tables : Tables
  pub chain : ChainTables J
  pub files : FileTables
  pub seen_ids : List ℕ
  pub next_id : ℕ

abbrev pub is_seen : ℕ → List ℕ → Bool
is_seen h seen = any (λ s. s == h) seen

module _ {J : Type 0} (env : TxEnv J) where
  -- `_get_sync_messages`: a missing key raises.
  abbrev pub get_sync_messages : J → TxResult J
  get_sync_messages content = elim (env.get env.messages_key content) [
    | none ↦ failed TxError.other
    | some messages ↦ fetched messages
  ]

  abbrev pub check_list : TxResult J → TxResult (List RawMessage)
  check_list (failed e) = failed e
  check_list (fetched messages) =
      if env.is_list messages
      then fetched (env.messages_of messages)
      else failed TxError.invalid_content

  unfoldable pub get_tx_messages_on_chain_protocol : ChainTx J → TxResult (List RawMessage)
  get_tx_messages_on_chain_protocol tx = check_list (get_sync_messages tx.content)

  -- The file of an off-chain transaction is recorded and pinned; pinning it on IPFS does not fail.
  unfoldable pub record_file : ℕ → ChainTx J → ℕ → SyncFile J → TxState J → TxState J
  unfolding upsert_file upsert_tx_file_pin
  record_file now tx file_hash sync_file s =
      if env.ipfs_enabled
      then record s {
        files =
            upsert_tx_file_pin file_hash tx.hash now
              (upsert_file sync_file.hash sync_file.size file s.files);
      }
      else s

  abbrev pub sync_file_messages : SyncFile J → TxResult (List RawMessage)
  sync_file_messages sync_file = elim (env.get env.content_key sync_file.value) [
    | none ↦ failed TxError.other
    | some content ↦ elim (get_sync_messages content) [
      | failed e ↦ failed e
      | fetched messages ↦ fetched (env.messages_of messages)
    ]
  ]

  abbrev pub with_messages :
      ℕ
      → ChainTx J
      → ℕ
      → SyncFile J
      → TxResult (List RawMessage)
      → TxState J
      → TxResult (List RawMessage) × TxState J
  with_messages now tx file_hash sync_file (failed e) s = (failed e, s)
  with_messages now tx file_hash sync_file (fetched messages) s =
      (fetched messages, record_file now tx file_hash sync_file s)

  -- An exception of the storage service that is none of its own means that the file is unavailable.
  abbrev pub storage_error : TxError → TxError
  storage_error TxError.other = TxError.content_currently_unavailable
  storage_error TxError.invalid_content = TxError.invalid_content
  storage_error TxError.content_currently_unavailable = TxError.content_currently_unavailable

  abbrev pub with_file :
      ℕ → ChainTx J → ℕ → TxResult (SyncFile J) → TxState J → TxResult (List RawMessage) × TxState J
  with_file now tx file_hash (failed e) s = (failed (storage_error e), s)
  with_file now tx file_hash (fetched sync_file) s =
      with_messages now tx file_hash sync_file (sync_file_messages sync_file) s

  -- `_get_tx_messages_off_chain_protocol`: a file that this round has asked for has no messages.
  abbrev pub off_chain :
      ℕ → ChainTx J → Option ℕ → TxState J → TxResult (List RawMessage) × TxState J
  off_chain now tx none s = (failed TxError.other, s)
  off_chain now tx (some file_hash) s =
      if is_seen file_hash s.seen_ids
      then (fetched [], s)
      else with_file now tx file_hash (env.get_json file_hash)
          (record s { seen_ids = file_hash ∷ s.seen_ids })

  unfoldable pub get_tx_messages_off_chain_protocol :
      ℕ → ChainTx J → TxState J → TxResult (List RawMessage) × TxState J
  get_tx_messages_off_chain_protocol now tx s = off_chain now tx (env.as_text tx.content) s

  -- `_get_tx_messages_smart_contract_protocol`.
  abbrev pub message_dict : ChainTx J → Payload → Option MessageType → ℕ → RawMessage
  message_dict tx payload type item_content = record {
    type = type;
    item_hash = some (env.sha256 item_content);
    item_content = some item_content;
    item_type = some inline;
    fields = some (record {
      chain = tx.chain;
      sender = payload.address;
      signature = none;
      time = tx.datetime;
      channel = none;
    });
  }

  abbrev pub store_message : ChainTx J → Payload → Option ℕ → TxResult (List RawMessage)
  store_message tx payload none = failed TxError.other
  store_message tx payload (some content) =
      fetched (message_dict tx payload (some MessageType.store) content ∷ [])

  abbrev pub payload_messages : ChainTx J → Option Payload → TxResult (List RawMessage)
  payload_messages tx none = failed TxError.invalid_content
  payload_messages tx (some payload) =
      if payload.type == env.store_ipfs
      then store_message tx payload
          (env.store_content payload.address payload.timestamp_seconds payload.content)
      else fetched (message_dict tx payload (env.message_type payload.type) payload.content ∷ [])

  unfoldable pub get_tx_messages_smart_contract_protocol : ChainTx J → TxResult (List RawMessage)
  get_tx_messages_smart_contract_protocol tx =
      payload_messages tx (
        if tx.chain == env.tezos
        then env.tezos_payload tx.content
        else env.message_event tx.content)

  -- `get_tx_messages`.
  unfoldable pub by_protocol :
      ℕ → Protocol → ChainTx J → TxState J → TxResult (List RawMessage) × TxState J
  unfolding get_tx_messages_on_chain_protocol get_tx_messages_off_chain_protocol
      get_tx_messages_smart_contract_protocol
  by_protocol now on_chain_sync tx s = (get_tx_messages_on_chain_protocol tx, s)
  by_protocol now off_chain_sync tx s = get_tx_messages_off_chain_protocol now tx s
  by_protocol now smart_contract tx s = (get_tx_messages_smart_contract_protocol tx, s)

  unfoldable pub get_tx_messages :
      ℕ → ChainTx J → TxState J → TxResult (List RawMessage) × TxState J
  unfolding by_protocol
  get_tx_messages now tx s =
      if tx.protocol_version == 1
      then by_protocol now tx.protocol tx s
      else (failed TxError.invalid_content, s)

abbrev pub is_smart_contract : Protocol → Bool
is_smart_contract smart_contract = true
is_smart_contract on_chain_sync = false
is_smart_contract off_chain_sync = false

abbrev pub is_off_chain : Protocol → Bool
is_off_chain off_chain_sync = true
is_off_chain on_chain_sync = false
is_off_chain smart_contract = false

-- `get_pending_txs`, over the rows of the transactions.
unfoldable pub get_pending_txs :
    {J : Type 0} → ℕ → List (ChainTx J) → ChainTables J → List (ChainTx J)
get_pending_txs limit txs t =
    take limit (sort_by (λ a b. ltb a.datetime b.datetime) (keep (λ tx. t.pending_txs tx.hash) txs))

module _ {J E : Type 0} (env : TxEnv J) (publisher : PublisherEnv) (handlers : HandlerEnv E) where
  abbrev pub source_of : ℕ → ChainTx J → Source
  source_of now tx = record {
    reception_time = now;
    tx_hash = some tx.hash;
    check_message = not (is_smart_contract tx.protocol);
    origin = some MessageOrigin.onchain;
  }

  -- The loop over the messages; each is committed by itself. `some e` is an exception that ends it.
  abbrev pub add_more :
      Result (Option Pending × Tables)
      → TxState J
      → (TxState J → Option Error × TxState J)
      → Option Error × TxState J
  add_more (raise e) s next = (some e, s)
  add_more (ok r) s next = next (record s { tables = r.1; next_id = suc s.next_id })

  unfoldable pub add_messages :
      ℕ → ChainTx J → List RawMessage → TxState J → Option Error × TxState J
  add_messages now tx [] s = (none, s)
  add_messages now tx (raw ∷ raws) s =
      add_more
        (add_pending_message publisher handlers s.next_id now raw (source_of now tx) s.tables) s
        λ u. add_messages now tx raws u

  -- `handle_pending_tx`: the transaction stays pending after an exception, and if it has no messages.
  unfoldable pub finish : ChainTx J → Option Error × TxState J → TxState J
  unfolding delete_pending_tx
  finish tx (some e, s) = s
  finish tx (none, s) = record s { chain = delete_pending_tx tx.hash s.chain }

  abbrev pub publish : ℕ → ChainTx J → TxResult (List RawMessage) → TxState J → TxState J
  publish now tx (failed e) s = s
  publish now tx (fetched []) s = s
  publish now tx (fetched (raw ∷ raws)) s = finish tx (add_messages now tx (raw ∷ raws) s)

  unfoldable pub handle_pending_tx : ℕ → ChainTx J → TxState J → TxState J
  unfolding get_tx_messages add_messages finish
  handle_pending_tx now tx s = let got = get_tx_messages env now tx s in publish now tx got.0 got.1

  -- The loop of `process_pending_txs`, which runs the tasks one after another. Of the off-chain
  -- transactions with the same content only the first is handled; it is compared by its text.
  abbrev pub is_duplicate : ChainTx J → List ℕ → Bool
  is_duplicate tx seen = elim (env.as_text tx.content) [
    | none ↦ false
    | some file_hash ↦ is_off_chain tx.protocol && is_seen file_hash seen
  ]

  abbrev pub mark_seen : ChainTx J → List ℕ → List ℕ
  mark_seen tx seen = elim (env.as_text tx.content) [
    | none ↦ seen
    | some file_hash ↦ if is_off_chain tx.protocol then file_hash ∷ seen else seen
  ]

  unfoldable pub handle_txs : ℕ → List ℕ → List (ChainTx J) → TxState J → TxState J
  unfolding handle_pending_tx
  handle_txs now seen [] s = s
  handle_txs now seen (tx ∷ txs) s =
      let u = if is_duplicate tx seen then s else handle_pending_tx now tx s in
      handle_txs now (if is_duplicate tx seen then seen else mark_seen tx seen) txs u

  unfoldable pub process_pending_txs : ℕ → ℕ → List (ChainTx J) → TxState J → TxState J
  unfolding handle_txs get_pending_txs
  process_pending_txs limit now txs s =
      handle_txs now [] (get_pending_txs limit txs s.chain) (record s { seen_ids = [] })
