-- ===== src/Web/Upload.antt =====
-- src/aleph/web/controllers/storage.py: uploads of files and of JSON, and downloads.
pub mod Checked
use py_aleph.Prelude.{
  ℕ, ◌+◌, ◌*◌, Bool, true, false, Option, none, some, List, [], ◌∷◌, ltb, ◌==◌, if◌then◌else◌,
}
use py_aleph.Result.{Result, ok, ◌>>=◌}
use py_aleph.Status.{MessageProcessingStatus}
use py_aleph.Node.{ItemType, storage, ipfs}
use py_aleph.Costs.{mib, hour}
use py_aleph.Files.{FileTables, StoredFile, get_file, count_file_pins, insert_grace_period_file_pin}
use py_aleph.Storage.{
  Got, error, got, RawContent, StorageEnv, Engine, Flags, add_json,
  add_file_content_to_local_storage, get_hash_content,
}
use py_aleph.Queries.Status.{
  Response, http_error, response, respond, not_found, bad_request, unprocessable_entity,
  entity_too_large, forbidden, payment_required,
}
use py_aleph.Web.Broadcast.{broadcast_and_process_message, broadcast_status_to_http_status}

abbrev pub max_file_size : ℕ
max_file_size = 100 * mib

abbrev pub max_unauthenticated_upload_file_size : ℕ
max_unauthenticated_upload_file_size = 25 * mib

-- A file as the request sends it: the sizes of its chunks, and the content that they make.
pub record FilePart : Type 0 where
  pub chunks : List ℕ
  pub content : ℕ

-- The body: raw, or the parts of a form. Metadata that are empty count as none.
pub data FormPart : Type 0 where
  file_part : FilePart → FormPart
  metadata_part : Option ℕ → FormPart
  other_part : FormPart

pub data Body : Type 0 where
  raw_body : FilePart → Body
  multipart : List FormPart → Body

-- `StorageMetadata`, with the content of its message.
pub record StorageMetadata : Type 0 where
  pub message : ℕ
  pub item_content : Option ℕ
  pub sync : Bool

-- The fields of a STORE content that are read.
pub record UploadContent : Type 0 where
  pub address : ℕ
  pub item_hash : ℕ

-- The schemas, the signature verifier, the type of a hash, and whether the balance of an address covers
-- a third of a token for each MiB of a size beside the costs that the address has.
pub record UploadEnv : Type 0 where
  pub parse_metadata : ℕ → Option StorageMetadata
  pub parse_content : ℕ → Option UploadContent
  pub verify_signature : ℕ → Bool
  pub covers : ℕ → ℕ → Bool
  pub item_type_from_hash : ℕ → Option ItemType

-- `read_and_validate`: the size, unless it exceeds the limit after some chunk.
abbrev pub read_from : ℕ → ℕ → List ℕ → Response ℕ
read_from max_size total [] = response total
read_from max_size total (c ∷ chunks) =
    let rest = read_from max_size (total + c) chunks in
    if ltb max_size (total + c) then http_error entity_too_large else rest

unfoldable pub read_and_validate : ℕ → List ℕ → Response ℕ
read_and_validate max_size chunks = read_from max_size 0 chunks

-- `UploadedFile` once it is read.
pub record UploadedFile : Type 0 where
  pub content : ℕ
  pub size : ℕ

unfoldable pub uploaded : ℕ → FilePart → Response UploadedFile
unfolding read_and_validate
uploaded max_size part =
    respond (read_and_validate max_size part.chunks)
      λ size. response (record { content = part.content; size = size })

-- The loop over the parts: a later file or later metadata take the place of earlier ones.
unfoldable pub read_part :
    FormPart → Option UploadedFile × Option ℕ → Response (Option UploadedFile × Option ℕ)
unfolding uploaded
read_part (file_part part) read =
    respond (uploaded max_file_size part) λ u. response (some u, read.1)
read_part (metadata_part metadata) read = response (read.0, metadata)
read_part other_part read = response read

unfoldable pub read_parts :
    List FormPart → Option UploadedFile × Option ℕ → Response (Option UploadedFile × Option ℕ)
unfolding read_part
read_parts [] read = response read
read_parts (part ∷ parts) read = respond (read_part part read) (read_parts parts)

unfoldable pub read_body : Body → Response (Option UploadedFile × Option ℕ)
unfolding read_parts uploaded
read_body (raw_body part) =
    respond (uploaded max_unauthenticated_upload_file_size part) λ u. response (some u, none)
read_body (multipart parts) = read_parts parts (none, none)

-- The checks of the size and of the presence of a file.
abbrev pub limit_of : Option ℕ → ℕ
limit_of none = max_unauthenticated_upload_file_size
limit_of (some metadata) = max_file_size

abbrev pub check_size : Option UploadedFile × Option ℕ → Response (UploadedFile × Option ℕ)
check_size (none, metadata) = http_error bad_request
check_size (some u, metadata) =
    if ltb (limit_of metadata) u.size then http_error entity_too_large else response (u, metadata)

module _ {J : Type 0} (store : StorageEnv J) (env : UploadEnv) where
  abbrev pub parse_message : Option ℕ → Response (Option StorageMetadata)
  parse_message none = response none
  parse_message (some metadata) = elim (env.parse_metadata metadata) [
    | none ↦ http_error unprocessable_entity
    | some m ↦ response (some m)
  ]

  -- `_verify_message_signature` and `_verify_user_balance`.
  abbrev pub verify_message_signature : ℕ → Response (Unit {0})
  verify_message_signature message =
      if env.verify_signature message then response tt else http_error forbidden

  abbrev pub verify_user_balance : ℕ → ℕ → Response (Unit {0})
  verify_user_balance address size =
      if ltb (25 * mib) size
      then if env.covers address size then response tt else http_error payment_required
      else response tt

  -- The checks of `_check_and_add_file` on a message.
  abbrev pub check_content_hash : Option UploadContent → ℕ → Response UploadContent
  check_content_hash none file_hash = http_error unprocessable_entity
  check_content_hash (some content) file_hash =
      if content.item_hash == file_hash then response content else http_error unprocessable_entity

  abbrev pub check_item_content : Option ℕ → ℕ → Response UploadContent
  check_item_content none file_hash = http_error unprocessable_entity
  check_item_content (some text) file_hash = check_content_hash (env.parse_content text) file_hash

  abbrev pub check_message : UploadedFile → Option StorageMetadata → Response (Unit {0})
  check_message file none = response tt
  check_message file (some m) = respond (verify_message_signature m.message) λ _.
      respond (check_item_content m.item_content (store.sha256 file.content))
        λ content. verify_user_balance content.address file.size

  -- `add_grace_period_for_file`; only a file without a message has one.
  unfoldable pub add_grace_period_for_file : ℕ → ℕ → ℕ → FileTables → FileTables
  unfolding insert_grace_period_file_pin
  add_grace_period_for_file now file_hash hours t =
      insert_grace_period_file_pin file_hash now (now + hours * hour) t

  abbrev pub pin_upload : ℕ → ℕ → ℕ → Option StorageMetadata → FileTables → FileTables
  pin_upload now grace_period file_hash none t =
      add_grace_period_for_file now file_hash grace_period t
  pin_upload now grace_period file_hash (some m) t = t

  unfoldable pub add_upload :
      ℕ → ℕ → UploadedFile → Option StorageMetadata → Engine × FileTables → Engine × FileTables
  unfolding add_grace_period_for_file add_file_content_to_local_storage
  add_upload now grace_period file message s =
      let file_hash = store.sha256 file.content in
      let added = add_file_content_to_local_storage store file.content file_hash s in
      (added.0, pin_upload now grace_period file_hash message added.1)

  -- What an upload is, before anything is written.
  unfoldable pub accept_upload : Body → Response (UploadedFile × Option StorageMetadata)
  unfolding read_body
  accept_upload body = respond (read_body body) λ read. respond (check_size read) λ sized.
      respond (parse_message sized.1)
        λ message. respond (check_message sized.0 message) λ _. response (sized.0, message)

  -- `storage_add_file`: the hash of the file, and the message to be broadcast; no file is written
  -- before the last check.
  unfoldable pub write_upload :
      ℕ
      → ℕ
      → Response (UploadedFile × Option StorageMetadata)
      → Engine × FileTables
      → Response (ℕ × Option StorageMetadata) × (Engine × FileTables)
  unfolding add_upload
  write_upload now grace_period (http_error e) s = (http_error e, s)
  write_upload now grace_period (response (file, message)) s =
      (response (store.sha256 file.content, message), add_upload now grace_period file message s)

  unfoldable pub storage_add_file :
      ℕ
      → ℕ
      → Body
      → Engine × FileTables
      → Response (ℕ × Option StorageMetadata) × (Engine × FileTables)
  unfolding accept_upload write_upload
  storage_add_file now grace_period body s = write_upload now grace_period (accept_upload body) s

  -- The status code of the response, with what the broadcast of the message meets.
  unfoldable pub upload_code :
      Option StorageMetadata → Option Bool → Bool → Option MessageProcessingStatus → Result ℕ
  unfolding broadcast_and_process_message broadcast_status_to_http_status
  upload_code none ipfs_succeeds p2p_succeeds read = ok 200
  upload_code (some m) ipfs_succeeds p2p_succeeds read =
      broadcast_and_process_message m.sync ipfs_succeeds p2p_succeeds read >>= λ status.
      broadcast_status_to_http_status status

  -- `add_ipfs_json_controller` and `add_storage_json_controller`.
  abbrev pub pin_json : ℕ → ℕ → Got ℕ × (Engine × FileTables) → Got ℕ × (Engine × FileTables)
  pin_json now grace_period (error e, s) = (error e, s)
  pin_json now grace_period (got h, s) =
      (got h, (s.0, add_grace_period_for_file now h grace_period s.1))

  unfoldable pub add_ipfs_json_controller :
      ℕ → ℕ → J → Engine × FileTables → Got ℕ × (Engine × FileTables)
  unfolding add_json
  add_ipfs_json_controller now grace_period value s =
      pin_json now grace_period (add_json store value ipfs s)

  unfoldable pub add_storage_json_controller :
      ℕ → ℕ → J → Engine × FileTables → Got ℕ × (Engine × FileTables)
  unfolding add_json
  add_storage_json_controller now grace_period value s =
      pin_json now grace_period (add_json store value storage s)

  -- `assert_file_is_downloadable`.
  abbrev pub check_file : Option StoredFile → Response (Unit {0})
  check_file none = http_error not_found
  check_file (some f) =
      if ltb max_file_size f.size then http_error entity_too_large else response tt

  unfoldable pub assert_file_is_downloadable : ℕ → FileTables → Response (Unit {0})
  unfolding get_file
  assert_file_is_downloadable file_hash t = check_file (get_file file_hash t)

  -- `get_raw_hash`: a read that asks no peer and stores nothing.
  abbrev pub download_flags : Flags
  download_flags = record { use_network = false; use_ipfs = true; store_value = false }

  abbrev pub served : Got RawContent → Response ℕ
  served (error e) = http_error not_found
  served (got content) = response content.value

  abbrev pub type_of_hash : ℕ → Response ItemType
  type_of_hash h = elim (env.item_type_from_hash h) [
    | none ↦ http_error bad_request
    | some type ↦ response type
  ]

  abbrev pub given_hash : Option ℕ → Response ℕ
  given_hash none = http_error bad_request
  given_hash (some h) = response h

  unfoldable pub get_raw_hash : Option ℕ → Engine × FileTables → Response ℕ
  unfolding assert_file_is_downloadable get_hash_content
  get_raw_hash given s = respond (given_hash given) λ h. respond (type_of_hash h) λ type.
      respond (assert_file_is_downloadable h s.1)
        λ _. served (get_hash_content store download_flags h type s.0).0

  -- `get_hash`, before the content is written in base64.
  abbrev pub with_engine : ℕ → ItemType → Response ℕ → Response (ℕ × ItemType × ℕ)
  with_engine h type r = respond r λ content. response (h, type, content)

  unfoldable pub get_hash : Option ℕ → Engine × FileTables → Response (ℕ × ItemType × ℕ)
  unfolding assert_file_is_downloadable get_hash_content
  get_hash given s = respond (given_hash given) λ h. respond (type_of_hash h) λ type.
      respond (assert_file_is_downloadable h s.1)
        λ _. with_engine h type (served (get_hash_content store download_flags h type s.0).0)

  unfoldable pub get_file_pins_count : Option ℕ → FileTables → Response ℕ
  unfolding count_file_pins
  get_file_pins_count given t = respond (given_hash given) λ h. response (count_file_pins h t)
