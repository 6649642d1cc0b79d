-- ===== src/Examples/Rounds.antt =====
-- Runs of the jobs for pending transactions and for fetches, and of the storage service.
use py_aleph.Prelude.{
  ℕ, ◌≡◌, ◌≤◌, refl, true, false, ◌==◌, if◌then◌else◌, Option, none, some, List, [], ◌∷◌, arith,
  length, Bool-cases, inl, inr,
}
use py_aleph.Prelude.Keys.{IsUnique, some_inj}
use py_aleph.Node.{Message, Tables, storage, ipfs}
use py_aleph.Node.Consistent.{IsConsistent}
use py_aleph.Handler.{Session}
use py_aleph.Chains.{ChainTx, ChainTables, on_chain_sync}
use py_aleph.Publisher.Admits.{IsDistinct}
use py_aleph.Txs.{TxError, failed, TxEnv, TxState, handle_pending_tx, process_pending_txs}
use py_aleph.Txs.Keeps.{Handles, handle_pending_tx-Handles}
use py_aleph.Txs.Rounds.{IsFewer, process_pending_txs-IsConsistent}
use py_aleph.Jobs.Fetch.{FetchState, Round, fetch_rounds, fetch_pending_message}
use py_aleph.Jobs.Fetch.Tasks.{IsInSync, fetch_rounds-IsInSync}
use py_aleph.Storage.{
  StorageEnv, Engine, got, default_flags, add_json, get_json, get_hash_content, from_db,
}
use py_aleph.Storage.Sound.{
  by_sha256, IsSound, IsHonest, IsChecked, get_hash_content-IsSound, add_json-get_json,
}
use py_aleph.Examples.{no_files, pending_post, pending_tables, session}
use py_aleph.Examples.Publishers
use py_aleph.Examples.Pendings

-- JSON is a number: 1 is a content with a list of one message.
abbrev env : TxEnv ℕ
env = record {
  get = λ key value. some value;
  messages_key = 1;
  content_key = 2;
  is_list = λ value. true;
  messages_of = λ value. Publishers.raw ∷ [];
  as_text = λ value. none;
  get_json = λ h. failed TxError.content_currently_unavailable;
  ipfs_enabled = true;
  tezos = 2;
  tezos_payload = λ value. none;
  message_event = λ value. none;
  store_ipfs = 1;
  store_content = λ address time h. some h;
  sha256 = λ text. text;
  message_type = λ type. none;
}

abbrev tx : ℕ → ChainTx ℕ
tx version = record {
  hash = 3;
  chain = 1;
  height = 10;
  datetime = 90;
  publisher = 5;
  protocol = on_chain_sync;
  protocol_version = version;
  content = 1;
}

abbrev chain : ChainTables ℕ
chain = record {
  txs = λ h. none;
  pending_txs = λ h. h == 3;
  sync_status = λ c e. none;
  indexer = [];
}

abbrev state : TxState ℕ
state = record {
  tables = Publishers.empty;
  chain = chain;
  files = no_files;
  seen_ids = [];
  next_id = 1;
}

process_pending_txs-IsConsistent_example :
    let u = process_pending_txs env Publishers.env Publishers.handlers 200 150 (tx 1 ∷ []) state in
    IsConsistent u.tables
    × IsDistinct u.tables.pending
    × IsFewer env Publishers.env Publishers.handlers chain u.chain
    × IsUnique (λ h. h) u.seen_ids
process_pending_txs-IsConsistent_example =
    process_pending_txs-IsConsistent env Publishers.env Publishers.handlers 200 150 (tx 1 ∷ [])
      state (record { at = λ h. tt }) tt

handle_pending_tx-Handles_example :
    Handles env Publishers.env Publishers.handlers 150
      (tx 1)
      state
      (handle_pending_tx env Publishers.env Publishers.handlers 150 (tx 1) state)
handle_pending_tx-Handles_example =
    handle_pending_tx-Handles env Publishers.env Publishers.handlers 150 (tx 1) state

-- A round that starts a task, and one in which it finishes.
abbrev idle : FetchState
idle = record { tasks = []; being_fetched = [] }

abbrev unfetched : Tables
unfetched = record pending_tables { pending = (record pending_post { fetched = false }) ∷ [] }

abbrev rounds : List Round
rounds =
    (record { now = 60; is_finished = λ p. false; tables = unfetched })
    ∷ (record { now = 61; is_finished = λ p. true; tables = pending_tables })
    ∷ []

fetch_rounds-IsInSync_example :
    (u : FetchState) × (fetch_rounds 10 rounds idle ≡ some u) × IsInSync u × (length u.tasks ≤ 10)
fetch_rounds-IsInSync_example =
    fetch_rounds-IsInSync 10 rounds idle (record { hashes = refl; unique = tt }) (omega arith)

abbrev fetched : Option Message × Session (Unit {0})
fetched = fetch_pending_message Pendings.retry Pendings.env 60 pending_post (session pending_tables)

-- Each content is its own hash; the peers have the content 7, and IPFS has the content 8.
abbrev pub storage_env : StorageEnv ℕ
storage_env = record {
  http_enabled = true;
  ipfs_enabled = true;
  p2p_http_request_hash = λ h. if h == 7 then some 7 else none;
  get_ipfs_content = λ h. if h == 8 then some 8 else none;
  get_cid_version = λ h. some 1;
  ipfs_hash = λ version content. some content;
  ipfs_add_bytes = λ content. some content;
  ipfs_add_file = λ content. some content;
  sha256 = λ content. content;
  loads = λ content. some content;
  dumps = λ value. value;
  contains_u0000 = λ content. false;
  size = λ content. 1;
}

abbrev pub nothing : Engine
nothing h = none

nothing-IsSound : IsSound storage_env nothing
nothing-IsSound h content e = absurd (cc (e))

pub is_honest : IsHonest storage_env
is_honest = record {
  fetched = λ h content e. elim (Bool-cases (h == 8)) [
    | inl y ↦ by_sha256 (ground (arith, y, some_inj (rw y at e)))
    | inr n ↦ absurd (cc (rw n at e))
  ];
  bytes_added = λ h content e. by_sha256 (some_inj e);
  file_added = λ h content e. by_sha256 (some_inj e);
}

get_hash_content-IsSound_example :
    IsChecked storage_env 7 (get_hash_content storage_env default_flags 7 storage nothing)
get_hash_content-IsSound_example =
    get_hash_content-IsSound storage_env default_flags 7 storage nothing is_honest nothing-IsSound

added : (add_json storage_env 5 ipfs (nothing, no_files)).0 ≡ got 5
unfolding add_json
added = refl

add_json-get_json_example :
    let stored = (add_json storage_env 5 ipfs (nothing, no_files)).1.0 in
    (get_json storage_env 5 storage stored
      ≡ (got (record { hash = 5; source = from_db; value = 5; raw_value = 5 }), stored))
    × (IsHonest storage_env → IsSound storage_env nothing → IsSound storage_env stored)
add_json-get_json_example =
    add_json-get_json storage_env 5 ipfs storage 5 nothing no_files refl added
