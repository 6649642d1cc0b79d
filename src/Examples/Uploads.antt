-- ===== src/Examples/Uploads.antt =====
-- Runs of uploads and downloads, of the signed buffers and of the Tezos reader.
use py_aleph.Prelude.{
  ℕ, ◌+◌, ◌≡◌, ◌≤◌, refl, sym, ap, ◌∙◌, false, ◌==◌, any, if◌then◌else◌, none, some, List, [], ◌∷◌,
  Bool-cases, inl, inr, arith,
}
use py_aleph.Prelude.Keys.{some_inj}
use py_aleph.Node.{MessageType, Pending, storage}
use py_aleph.Files.{FileTables, StoredFile, file, get_file}
use py_aleph.Storage.{Engine}
use py_aleph.Storage.Sound.{by_sha256, IsSound, Matches}
use py_aleph.Web.Upload.{
  max_file_size, UploadEnv, file_part, metadata_part, multipart, Body, get_raw_hash,
}
use py_aleph.Web.Upload.Checked.{get_raw_hash-Matches}
use py_aleph.Queries.Status.{response}
use py_aleph.Chains.{ChainTables, message_event, get_last_height, upsert_chain_sync_status}
use py_aleph.Chains.Verify.{
  Texts, IsFaithful, newline, get_verification_buffer, get_verification_buffer_inj,
}
use py_aleph.Chains.Tezos.{
  TezosEvent, pages_of_list, add_all, fetch_incoming_messages, fetch_incoming_messages-add_all,
}
use py_aleph.Examples.{no_files, pending_post}
use py_aleph.Examples.Rounds

-- The message 2 of the metadata 2 is signed, and its content is for the file 7.
abbrev upload_env : UploadEnv
upload_env = record {
  parse_metadata = λ text. some (record { message = 2; item_content = some 7; sync = false });
  parse_content = λ text. some (record { address = 5; item_hash = text });
  verify_signature = λ message. message == 2;
  covers = λ address size. false;
  item_type_from_hash = λ h. some storage;
}

abbrev form : Body
form =
    multipart
      (metadata_part (some 2) ∷ file_part (record { chunks = 1000 ∷ 24 ∷ []; content = 7 }) ∷ [])

abbrev one_content : Engine
one_content h = if h == 7 then some 7 else none

one_content-IsSound : IsSound Rounds.storage_env one_content
one_content-IsSound h content e = elim (Bool-cases (h == 7)) [
  | inl y ↦ by_sha256 (ground (arith, y, some_inj (rw y at e)))
  | inr n ↦ absurd (cc (rw n at e))
]

abbrev one_file : FileTables
one_file = record no_files {
  files = λ h. if h == 7 then some (record { size = 1024; type = file }) else none;
}

is_served : get_raw_hash Rounds.storage_env upload_env (some 7) (one_content, one_file) ≡ response 7
unfolding get_raw_hash
is_served = refl

get_raw_hash-Matches_example :
    (f : StoredFile) × (get_file 7 one_file ≡ some f)
    × (f.size ≤ max_file_size)
    × Matches Rounds.storage_env 7 7
get_raw_hash-Matches_example =
    get_raw_hash-Matches Rounds.storage_env upload_env 7 7 one_content one_file Rounds.is_honest
      one_content-IsSound is_served

-- Each text is one byte that is no newline.
abbrev type_byte : MessageType → ℕ
type_byte MessageType.aggregate = 20
type_byte MessageType.instance_ = 21
type_byte MessageType.post = 22
type_byte MessageType.program = 23
type_byte MessageType.store = 24
type_byte MessageType.forget = 25

abbrev texts : Texts
texts = record {
  chain_text = λ c. (c + 11) ∷ [];
  text = λ a. (a + 11) ∷ [];
  type_text = λ m. type_byte m ∷ [];
  iso_8601 = λ a. [];
  decimal = λ a. [];
}

byte_line : (a : ℕ) → any (λ b. b == newline) ((a + 11) ∷ []) ≡ false
byte_line a = elim (Bool-cases (a + 11 == newline)) [
  | inl y ↦ absurd (ground (arith, y))
  | inr n ↦ rw n refl
]

byte_inj : (a b : ℕ) → (a + 11) ∷ [] ≡ (b + 11) ∷ [] → a ≡ b
byte_inj a b e = let h : a + 11 ≡ b + 11 = cc (e) in omega arith

texts-IsFaithful : IsFaithful texts
texts-IsFaithful = record {
  chain_line = byte_line;
  text_line = byte_line;
  type_line = type_line;
  chain_inj = byte_inj;
  text_inj = byte_inj;
  type_inj = type_inj;
}
  where
    type_line : (m : MessageType) → any (λ b. b == newline) (type_byte m ∷ []) ≡ false
    type_line MessageType.aggregate = refl
    type_line MessageType.instance_ = refl
    type_line MessageType.post = refl
    type_line MessageType.program = refl
    type_line MessageType.store = refl
    type_line MessageType.forget = refl

    type_at : ℕ → MessageType
    type_at b =
        if b == 20
        then MessageType.aggregate
        else if b == 21
        then MessageType.instance_
        else if b == 22
        then MessageType.post
        else if b == 23
        then MessageType.program
        else if b == 24
        then MessageType.store
        else MessageType.forget

    type_at-type_byte : (m : MessageType) → type_at (type_byte m) ≡ m
    type_at-type_byte MessageType.aggregate = refl
    type_at-type_byte MessageType.instance_ = refl
    type_at-type_byte MessageType.post = refl
    type_at-type_byte MessageType.program = refl
    type_at-type_byte MessageType.store = refl
    type_at-type_byte MessageType.forget = refl

    type_inj : (m n : MessageType) → type_byte m ∷ [] ≡ type_byte n ∷ [] → m ≡ n
    type_inj m n e =
        let h : type_byte m ≡ type_byte n = cc (e) in
        sym (type_at-type_byte m) ∙ (ap type_at h ∙ type_at-type_byte n)

abbrev resent : Pending
resent = record pending_post { retries = 3; time = 120 }

get_verification_buffer_inj_example :
    (pending_post.chain ≡ resent.chain)
    × (pending_post.sender ≡ resent.sender)
    × (pending_post.type ≡ resent.type)
    × (pending_post.item_hash ≡ resent.item_hash)
unfolding get_verification_buffer
get_verification_buffer_inj_example =
    get_verification_buffer_inj texts pending_post resent texts-IsFaithful refl

abbrev events : List (TezosEvent ℕ)
events =
    (record { operation_hash = 31; block_level = 1; timestamp = 10; source = 5; payload = 1 })
    ∷ (record { operation_hash = 32; block_level = 2; timestamp = 20; source = 5; payload = 1 })
    ∷ []

abbrev unread : ChainTables ℕ
unread = record {
  txs = λ h. none;
  pending_txs = λ h. false;
  sync_status = λ c e. none;
  indexer = [];
}

fetch_incoming_messages-add_all_example :
    fetch_incoming_messages 2 1 60 (pages_of_list 2 events) 2 unread
    ≡ some (upsert_chain_sync_status 2 message_event 2 60 (add_all 2 events unread))
unfolding get_last_height
fetch_incoming_messages-add_all_example =
    fetch_incoming_messages-add_all 2 1 60 events unread (omega arith) (omega arith)
