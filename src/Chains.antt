-- ===== src/Chains.antt =====
-- src/aleph/db/models/chains.py, db/accessors/chains.py and db/accessors/pending_txs.py: the
-- transactions that a node saw on chains, and how far it has read each chain.
pub mod Sync
pub mod Reader
pub mod Verify
pub mod Tezos
use py_aleph.Prelude.{
  ℕ, Bool, true, false, not, ◌&&◌, Option, none, some, List, [], ◌∷◌, ◌++◌, ltb, ◌==◌,
  if◌then◌else◌, any, keep, bind,
}
use py_aleph.Range.{Range, make_range, add_range, multirange_sub}

-- `ChainEventType` and `ChainSyncProtocol`.
pub data EventType : Type 0 where
  message_event sync_event : EventType

pub data Protocol : Type 0 where
  on_chain_sync off_chain_sync smart_contract : Protocol

abbrev pub same_event_type : EventType → EventType → Bool
same_event_type message_event message_event = true
same_event_type sync_event sync_event = true
same_event_type _ _ = false

-- `ChainTxDb`; the content is JSON.
pub record ChainTx (J : Type 0) : Type 0 where
  pub hash : ℕ
  pub chain : ℕ
  pub height : ℕ
  pub datetime : ℕ
  pub publisher : ℕ
  pub protocol : Protocol
  pub protocol_version : ℕ
  pub content : J

-- `ChainSyncStatusDb`, without its key.
pub record SyncStatus : Type 0 where
  pub height : ℕ
  pub last_update : ℕ

-- `IndexerSyncStatusDb`, whose key is the chain, the type and the start.
pub record IndexerRow : Type 0 where
  pub chain : ℕ
  pub event_type : EventType
  pub start_block_datetime : ℕ
  pub end_block_datetime : ℕ
  pub start_included : Bool
  pub end_included : Bool
  pub last_updated : ℕ

pub record ChainTables (J : Type 0) : Type 0 where
  pub txs : ℕ → Option (ChainTx J)
  pub pending_txs : ℕ → Bool
  pub sync_status : ℕ → EventType → Option SyncStatus
  pub indexer : List IndexerRow

-- `IndexerSyncStatusDb.to_range`.
unfoldable pub to_range : IndexerRow → Option Range
to_range row =
    make_range row.start_block_datetime row.end_block_datetime row.start_included row.end_included

abbrev pub is_of : ℕ → EventType → IndexerRow → Bool
is_of chain event_type row = row.chain == chain && same_event_type row.event_type event_type

-- `order_by(start_block_datetime)`.
pub insert_row : IndexerRow → List IndexerRow → List IndexerRow
insert_row r [] = r ∷ []
insert_row r (s ∷ rows) =
    let rest = insert_row r rows in
    if ltb s.start_block_datetime r.start_block_datetime then s ∷ rest else r ∷ s ∷ rows

pub sort_rows : List IndexerRow → List IndexerRow
unfolding insert_row
sort_rows [] = []
sort_rows (r ∷ rows) = insert_row r (sort_rows rows)

-- The loop of `get_indexer_multirange`.
pub add_rows : List Range → List IndexerRow → Option (List Range)
add_rows ranges [] = some ranges
add_rows ranges (row ∷ rows) =
    bind (bind (to_range row) (add_range ranges)) λ more. add_rows more rows

-- What `update_indexer_multirange` inserts for a range.
abbrev pub row_of : ℕ → EventType → ℕ → Range → IndexerRow
row_of chain event_type now r = record {
  chain = chain;
  event_type = event_type;
  start_block_datetime = r.lower;
  end_block_datetime = r.upper;
  start_included = r.lower_inc;
  end_included = r.upper_inc;
  last_updated = now;
}

-- The primary key refuses a second row of the same start.
abbrev pub has_key : IndexerRow → IndexerRow → Bool
has_key r s = is_of r.chain r.event_type s && s.start_block_datetime == r.start_block_datetime

pub insert_ranges : ℕ → EventType → ℕ → List Range → List IndexerRow → Option (List IndexerRow)
insert_ranges chain event_type now [] rows = some rows
insert_ranges chain event_type now (r ∷ ranges) rows =
    let row = row_of chain event_type now r in
    if any (has_key row) rows
    then none
    else insert_ranges chain event_type now ranges (rows ++ (row ∷ []))

module _ {J : Type 0} where
  unfoldable pub get_last_height : ℕ → EventType → ChainTables J → Option ℕ
  get_last_height chain sync_type t = elim (t.sync_status chain sync_type) [
    | none ↦ none
    | some status ↦ some status.height
  ]

  abbrev or_new_tx : Option (ChainTx J) → ChainTx J → ChainTx J
  or_new_tx none tx = tx
  or_new_tx (some old) tx = old

  -- `upsert_chain_tx`: a transaction that is there stays as it is.
  unfoldable pub upsert_chain_tx : ChainTx J → ChainTables J → ChainTables J
  upsert_chain_tx tx t = record t {
    txs = λ h. if tx.hash == h then some (or_new_tx (t.txs h) tx) else t.txs h;
  }

  unfoldable pub upsert_chain_sync_status : ℕ → EventType → ℕ → ℕ → ChainTables J → ChainTables J
  upsert_chain_sync_status chain sync_type height now t = record t {
    sync_status = λ c e.
        if chain == c && same_event_type sync_type e
        then some (record { height = height; last_update = now })
        else t.sync_status c e;
  }

  unfoldable pub upsert_pending_tx : ℕ → ChainTables J → ChainTables J
  upsert_pending_tx tx_hash t = record t {
    pending_txs = λ h. if tx_hash == h then true else t.pending_txs h;
  }

  unfoldable pub delete_pending_tx : ℕ → ChainTables J → ChainTables J
  delete_pending_tx tx_hash t = record t {
    pending_txs = λ h. if tx_hash == h then false else t.pending_txs h;
  }

  -- `PendingTxPublisher.add_pending_tx` of src/aleph/chains/chain_data_service.py.
  unfoldable pub add_pending_tx : ChainTx J → ChainTables J → ChainTables J
  unfolding upsert_chain_tx upsert_pending_tx
  add_pending_tx tx t = upsert_pending_tx tx.hash (upsert_chain_tx tx t)

  -- `get_indexer_multirange`; `none` is an exception.
  unfoldable pub get_indexer_multirange : ℕ → EventType → ChainTables J → Option (List Range)
  unfolding add_rows sort_rows
  get_indexer_multirange chain event_type t =
      add_rows [] (sort_rows (keep (is_of chain event_type) t.indexer))

  -- `get_missing_indexer_datetime_multirange`.
  unfoldable pub get_missing_indexer_datetime_multirange :
      ℕ → EventType → List Range → ChainTables J → Option (List Range)
  unfolding get_indexer_multirange
  get_missing_indexer_datetime_multirange chain event_type indexer_multirange t =
      bind (get_indexer_multirange chain event_type t) (multirange_sub indexer_multirange)

  -- `update_indexer_multirange`, at the time `now`.
  unfoldable pub update_indexer_multirange :
      ℕ → EventType → ℕ → List Range → ChainTables J → Option (ChainTables J)
  unfolding insert_ranges
  update_indexer_multirange chain event_type now ranges t =
      bind
        (insert_ranges chain event_type now ranges
          (keep (λ row. not (is_of chain event_type row)) t.indexer))
        λ rows. some (record t { indexer = rows })

  -- `add_indexer_range`.
  unfoldable pub add_indexer_range :
      ℕ → EventType → ℕ → Range → ChainTables J → Option (ChainTables J)
  unfolding get_indexer_multirange update_indexer_multirange
  add_indexer_range chain event_type now r t =
      bind (get_indexer_multirange chain event_type t) λ ranges.
        bind (add_range ranges r) λ more. update_indexer_multirange chain event_type now more t
