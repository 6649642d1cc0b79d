-- ===== src/Examples/Readers.antt =====
-- Runs of the synchronisation with an indexer.
use py_aleph.Prelude.{
  ℕ, zero, suc, ◌+◌, ◌≤◌, ◌≡◌, refl, true, false, none, some, List, [], ◌∷◌, append-nil, length,
  arith,
}
use py_aleph.Range.{Range}
use py_aleph.Range.Points.{core_covers}
use py_aleph.Range.Separated.{IsSeparated}
use py_aleph.Chains.{message_event, smart_contract, ChainTx, ChainTables, get_indexer_multirange}
use py_aleph.Chains.Reader.{
  Event, message, ReaderEnv, finished, indexer_event_to_chain_tx, extract_txs, last_datetime,
  read_page, fetch_range,
}
use py_aleph.Chains.Reader.Progress.{Page, StuckPage, fetch_range-covers}

abbrev span : ℕ → ℕ → Range
span lower upper = record { lower = lower; upper = upper; lower_inc = true; upper_inc = false }

abbrev two_spans : List Range
two_spans = span 0 10 ∷ span 20 30 ∷ []

abbrev no_chains : ChainTables (Unit {0})
no_chains = record {
  txs = λ h. none;
  pending_txs = λ h. false;
  sync_status = λ c e. none;
  indexer = [];
}

two_spans-IsSeparated : IsSeparated two_spans
two_spans-IsSeparated = ((omega arith, refl), (omega arith, tt), ((omega arith, refl), tt, tt))

abbrev event : Event
event = message (record { timestamp = 5; address = 2; height = 3; transaction = 4 }) 1 1

abbrev events : ℕ → List Event
events zero = []
events (suc n) = event ∷ events n

-- An indexer that answers each query with the same number of equal events.
abbrev env_of : ℕ → ReaderEnv (Unit {0})
env_of n = record {
  fetch_events = λ round e start end_ l. some (events n, []);
  now = λ round. 100 + round;
  datetime_of = λ ms. ms;
  event_json = λ e. tt;
  parse_sync = λ text. none;
}

abbrev tx : ChainTx (Unit {0})
tx = record {
  hash = 4;
  chain = 1;
  height = 3;
  datetime = 5;
  publisher = 2;
  protocol = smart_contract;
  protocol_version = 1;
  content = tt;
}

abbrev txs : ℕ → List (ChainTx (Unit {0}))
txs zero = []
txs (suc n) = tx ∷ txs n

length-events : (n : ℕ) → length (events n) ≡ n
length-events zero = refl
length-events (suc n) = rw (length-events n) refl

extract_txs-events : (n m : ℕ) → extract_txs (env_of m) 1 (events n) ≡ some (txs n)
unfolding extract_txs indexer_event_to_chain_tx
extract_txs-events zero m = refl
extract_txs-events (suc n) m = rw (extract_txs-events n m) refl

last_datetime-txs : (n m : ℕ) → last_datetime (env_of m) 1 (txs (suc n)) ≡ some 5
last_datetime-txs zero m = refl
last_datetime-txs (suc n) m = last_datetime-txs n m

read_page-events :
    (n start end_ : ℕ)
    → read_page (env_of (suc n)) 1 message_event start end_ (events (suc n), [])
      ≡ some (txs (suc n))
read_page-events n start end_ = rw append-nil (ground (arith, extract_txs-events (suc n) (suc n)))

one_event : (round start : ℕ) → start ≤ 9 → Page (env_of 1) 1 message_event round start 9
one_event round start le = record {
  answer = (events 1, []);
  txs = txs 1;
  answered = refl;
  parsed = read_page-events 0 start 9;
  ahead = tt;
}

fetch_range-covers_example :
    (u : ChainTables (Unit {0})) × (ss : List Range) × (fetch_range
        (env_of 1)
        1
        8
        message_event
        0
        2
        9
        no_chains
      ≡ finished u)
    × (get_indexer_multirange 1 message_event u ≡ some ss)
    × IsSeparated ss
    × (core_covers 7 ss ≡ true)
unfolding get_indexer_multirange
fetch_range-covers_example =
    fetch_range-covers (env_of 1) 1 message_event 7 8 0 2 9 [] no_chains one_event (omega arith)
      (omega arith) refl tt

full_page : (n : ℕ) → n ≡ 999 → (round : ℕ) → StuckPage (env_of (suc n)) 1 message_event round 5 9
full_page n h round = record {
  answer = (events (suc n), []);
  txs = txs (suc n);
  answered = refl;
  parsed = read_page-events n 5 9;
  full = rw (length-events n, h) refl;
  at_start = last_datetime-txs n (suc n);
}
