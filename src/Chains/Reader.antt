-- ===== src/Chains/Reader.antt =====
-- src/aleph/chains/indexer_reader.py: how a node reads the events of a chain from an indexer. A round
-- of the loop commits, so an exception leaves the tables of the round before.
pub mod Progress
use py_aleph.Prelude.{
  ℕ, zero, suc, ◌+◌, Bool, true, false, Option, none, some, List, [], ◌∷◌, ◌++◌, map, ltb, leb,
  ◌==◌, if◌then◌else◌, length, bind,
}
use py_aleph.Range.{Range, make_range, multirange}
use py_aleph.Chains.{
  EventType, message_event, sync_event, Protocol, smart_contract, ChainTx, ChainTables,
  add_pending_tx, add_indexer_range, get_missing_indexer_datetime_multirange,
}

-- `MessageEvent` and `SyncEvent`; the times of an indexer are in milliseconds.
pub record IndexerEvent : Type 0 where
  pub timestamp : ℕ
  pub address : ℕ
  pub height : ℕ
  pub transaction : ℕ

pub data Event : Type 0 where
  message : IndexerEvent → ℕ → ℕ → Event
  sync : IndexerEvent → ℕ → Event

-- What is not part of the node: the answers of the indexer to the queries of a loop, by their number;
-- the clock; JSON; and the conversion of a time.
pub record ReaderEnv (J : Type 0) : Type 0 where
  pub fetch_events : ℕ → EventType → ℕ → ℕ → ℕ → Option (List Event × List Event)
  pub now : ℕ → ℕ
  pub datetime_of : ℕ → ℕ
  pub event_json : Event → J
  pub parse_sync : ℕ → Option (Protocol × ℕ × J)

-- How a loop ends, with the tables that it committed last.
pub data Run (A : Type 0) : Type 0 where
  finished : A → Run A
  raised : A → Run A
  unfinished : A → Run A

abbrev pub limit : ℕ
limit = 1000

module _ {J : Type 0} (env : ReaderEnv J) (chain : ℕ) where
  abbrev tx_of : IndexerEvent → Protocol → ℕ → J → ChainTx J
  tx_of event protocol version content = record {
    hash = event.transaction;
    chain = chain;
    height = event.height;
    datetime = env.datetime_of event.timestamp;
    publisher = event.address;
    protocol = protocol;
    protocol_version = version;
    content = content;
  }

  -- `indexer_event_to_chain_tx`.
  unfoldable pub indexer_event_to_chain_tx : Event → Option (ChainTx J)
  indexer_event_to_chain_tx (message event type content) =
      some (tx_of event smart_contract 1 (env.event_json (message event type content)))
  indexer_event_to_chain_tx (sync event text) =
      bind (env.parse_sync text) λ parsed. some (tx_of event parsed.0 parsed.1 parsed.2)

  -- `extract_aleph_messages_from_indexer_response`, of all events.
  unfoldable pub extract_txs : List Event → Option (List (ChainTx J))
  unfolding indexer_event_to_chain_tx
  extract_txs [] = some []
  extract_txs (event ∷ events) =
      bind (indexer_event_to_chain_tx event) λ tx. bind (extract_txs events) λ txs. some (tx ∷ txs)

  unfoldable pub add_txs : List (ChainTx J) → ChainTables J → ChainTables J
  add_txs [] t = t
  add_txs (tx ∷ txs) t = add_txs txs (add_pending_tx tx t)

  -- `txs[-1].datetime`.
  abbrev pub last_datetime : List (ChainTx J) → Option ℕ
  last_datetime [] = none
  last_datetime (tx ∷ []) = some tx.datetime
  last_datetime (tx ∷ (next ∷ txs)) = last_datetime (next ∷ txs)

  abbrev pub nb_events : EventType → List Event × List Event → ℕ
  nb_events message_event answer = length answer.0
  nb_events sync_event answer = length answer.1

  -- The range that a page of events covers: up to its last event if the page is full.
  abbrev pub synced_range : ℕ → ℕ → ℕ → List (ChainTx J) → Option Range
  synced_range start end_ n txs =
      if leb limit n
      then bind (last_datetime txs) (λ last. make_range start last true false)
      else make_range start end_ true true

  abbrev pub read_page : EventType → ℕ → ℕ → List Event × List Event → Option (List (ChainTx J))
  read_page event_type start end_ answer =
      if nb_events event_type answer == 0 then some [] else extract_txs (answer.0 ++ answer.1)

  -- One round of the loop of `fetch_range`: the tables after it, and where the next one starts, if
  -- there is one. `none` is an exception.
  unfoldable pub fetch_round :
      EventType → ℕ → ℕ → ℕ → ChainTables J → Option (ChainTables J × Option ℕ)
  unfolding extract_txs add_txs
  fetch_round event_type round start end_ t =
      bind (env.fetch_events round event_type start end_ limit) λ answer.
        bind (read_page event_type start end_ answer) λ txs.
          bind (synced_range start end_ (nb_events event_type answer) txs) λ synced.
            bind (add_indexer_range chain event_type (env.now round) synced (add_txs txs t)) λ u.
              some (u, if ltb (nb_events event_type answer) limit then none else some synced.upper)

  abbrev go_on :
      Option (ChainTables J × Option ℕ)
      → ChainTables J
      → (ℕ → ChainTables J → Run (ChainTables J))
      → Run (ChainTables J)
  go_on none t rest = raised t
  go_on (some (u, none)) t rest = finished u
  go_on (some (u, some start)) t rest = rest start u

  -- `fetch_range`, of as many rounds as the fuel says.
  unfoldable pub fetch_range : ℕ → EventType → ℕ → ℕ → ℕ → ChainTables J → Run (ChainTables J)
  unfolding fetch_round
  fetch_range zero event_type round start end_ t = unfinished t
  fetch_range (suc fuel) event_type round start end_ t =
      go_on (fetch_round event_type round start end_ t) t
        (λ next u. fetch_range fuel event_type (round + 1) next end_ u)

  abbrev then_fetch :
      Run (ChainTables J) → (ChainTables J → Run (ChainTables J)) → Run (ChainTables J)
  then_fetch (finished t) rest = rest t
  then_fetch (raised t) rest = raised t
  then_fetch (unfinished t) rest = unfinished t

  -- The loop over the ranges that are missing; each has the same fuel.
  unfoldable pub fetch_ranges : ℕ → EventType → List Range → ChainTables J → Run (ChainTables J)
  unfolding fetch_range
  fetch_ranges fuel event_type [] t = finished t
  fetch_ranges fuel event_type (r ∷ ranges) t =
      then_fetch (fetch_range fuel event_type 0 r.lower r.upper t)
        (λ u. fetch_ranges fuel event_type ranges u)

  abbrev processed_ranges : List (ℕ × ℕ) → Option (List Range)
  processed_ranges [] = some []
  processed_ranges ((start, end_) ∷ rest) =
      bind (make_range start end_ true true) λ r. bind (processed_ranges rest) λ rs. some (r ∷ rs)

  abbrev fetch_missing : ℕ → EventType → ChainTables J → Option (List Range) → Run (ChainTables J)
  fetch_missing fuel event_type t none = raised t
  fetch_missing fuel event_type t (some ranges) = fetch_ranges fuel event_type ranges t

  -- `fetch_new_events`, of the intervals that the indexer says it has processed, if it knows the
  -- account.
  unfoldable pub fetch_new_events :
      ℕ → EventType → Option (List (ℕ × ℕ)) → ChainTables J → Run (ChainTables J)
  unfolding fetch_ranges
  fetch_new_events fuel event_type none t = finished t
  fetch_new_events fuel event_type (some processed) t = fetch_missing fuel event_type t (
      bind (processed_ranges processed)
        λ ranges. get_missing_indexer_datetime_multirange chain event_type (multirange ranges) t)
