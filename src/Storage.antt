-- ===== src/Storage.antt =====
-- src/aleph/storage.py: where the node reads contents from, how it checks them, and what it stores.
pub mod Sound
use py_aleph.Prelude.{ℕ, Bool, true, false, ◌&&◌, Option, none, some, ◌==◌, if◌then◌else◌}
use py_aleph.Node.{ItemType, inline, storage, ipfs, put}
use py_aleph.Files.{FileTables, file, upsert_file}

-- `InvalidContent`, `ContentCurrentlyUnavailable`, and the exceptions that are none of these: of a
-- value, and of a timeout.
pub data StorageError : Type 0 where
  invalid_content content_currently_unavailable value_error timeout_error : StorageError

pub data Got (A : Type 0) : Type 0 where
  error : StorageError → Got A
  got : A → Got A

-- `ContentSource`.
pub data ContentSource : Type 0 where
  from_db from_p2p from_ipfs from_inline : ContentSource

pub record RawContent : Type 0 where
  pub hash : ℕ
  pub value : ℕ
  pub source : ContentSource

pub record MessageContent (J : Type 0) : Type 0 where
  pub hash : ℕ
  pub source : ContentSource
  pub value : J
  pub raw_value : ℕ

-- The settings, the IPFS daemon, the peers, hashes and JSON. `ipfs_hash` is what adding bytes with
-- a version of the CID returns, or none after a timeout; `ipfs_add_bytes` and `ipfs_add_file` are
-- the same with the version of the daemon.
pub record StorageEnv (J : Type 0) : Type 0 where
  pub http_enabled : Bool
  pub ipfs_enabled : Bool
  pub p2p_http_request_hash : ℕ → Option ℕ
  pub get_ipfs_content : ℕ → Option ℕ
  pub get_cid_version : ℕ → Option ℕ
  pub ipfs_hash : ℕ → ℕ → Option ℕ
  pub ipfs_add_bytes : ℕ → Option ℕ
  pub ipfs_add_file : ℕ → Option ℕ
  pub sha256 : ℕ → ℕ
  pub loads : ℕ → Option J
  pub dumps : J → ℕ
  pub contains_u0000 : ℕ → Bool
  pub size : ℕ → ℕ

-- The contents that the storage engine has, by their file names.
abbrev pub Engine : Type 0
Engine = ℕ → Option ℕ

-- The flags of `get_hash_content`.
pub record Flags : Type 0 where
  pub use_network : Bool
  pub use_ipfs : Bool
  pub store_value : Bool

abbrev pub default_flags : Flags
default_flags = record { use_network = true; use_ipfs = true; store_value = true }

module _ {J : Type 0} (env : StorageEnv J) where
  -- `_verify_content_hash`.
  abbrev pub compare_hash : Option ℕ → ℕ → Got (Unit {0})
  compare_hash none expected = error content_currently_unavailable
  compare_hash (some computed) expected =
      if computed == expected then got tt else error invalid_content

  abbrev pub verify_cid : Option ℕ → ℕ → ℕ → Got (Unit {0})
  verify_cid none content expected = error invalid_content
  verify_cid (some version) content expected = compare_hash (env.ipfs_hash version content) expected

  abbrev pub verify_content_hash : ℕ → ItemType → ℕ → Got (Unit {0})
  verify_content_hash content ipfs expected =
      if env.ipfs_enabled
      then verify_cid (env.get_cid_version expected) content expected
      else error value_error
  verify_content_hash content storage expected = compare_hash (some (env.sha256 content)) expected
  verify_content_hash content inline expected = error value_error

  -- `_fetch_content_from_network`.
  abbrev pub checked : Got (Unit {0}) → ℕ → Got (Option ℕ)
  checked (error e) content = error e
  checked (got done) content = got (some content)

  abbrev pub check_answer : ItemType → ℕ → Option ℕ → Got (Option ℕ)
  check_answer via content_hash none = got none
  check_answer via content_hash (some content) =
      checked (verify_content_hash content via content_hash) content

  unfoldable pub fetch_content_from_network : ℕ → ItemType → Got (Option ℕ)
  fetch_content_from_network content_hash via =
      check_answer via content_hash
        (if env.http_enabled then env.p2p_http_request_hash content_hash else none)

  -- `get_hash_content`: the engine first, then the network, then IPFS.
  abbrev pub is_ipfs : ItemType → Bool
  is_ipfs ipfs = true
  is_ipfs storage = false
  is_ipfs inline = false

  abbrev pub keep_value : Flags → ℕ → ℕ → ContentSource → Engine → Got RawContent × Engine
  keep_value flags h content source files = (
    got (record { hash = h; value = content; source = source }),
    if flags.store_value then put files h (some content) else files,
  )

  abbrev pub after_ipfs : Flags → ℕ → Option ℕ → Engine → Got RawContent × Engine
  after_ipfs flags h none files = (error content_currently_unavailable, files)
  after_ipfs flags h (some content) files = keep_value flags h content from_ipfs files

  abbrev pub after_network :
      Flags → ℕ → ItemType → Got (Option ℕ) → Engine → Got RawContent × Engine
  after_network flags h via (error e) files = (error e, files)
  after_network flags h via (got (some content)) files = keep_value flags h content from_p2p files
  after_network flags h via (got none) files =
      after_ipfs flags h
        (if flags.use_ipfs && (is_ipfs via && env.ipfs_enabled)
          then env.get_ipfs_content h
          else none)
        files

  unfoldable pub after_engine : Flags → ℕ → ItemType → Option ℕ → Engine → Got RawContent × Engine
  unfolding fetch_content_from_network
  after_engine flags h via (some content) files =
      (got (record { hash = h; value = content; source = from_db }), files)
  after_engine flags h via none files =
      after_network flags h via
        (if flags.use_network then fetch_content_from_network h via else got none) files

  unfoldable pub get_hash_content : Flags → ℕ → ItemType → Engine → Got RawContent × Engine
  unfolding after_engine
  get_hash_content flags h via files = after_engine flags h via (files h) files

  -- `get_json`.
  abbrev pub decoded : RawContent → Option J → Got (MessageContent J)
  decoded content none = error invalid_content
  decoded content (some value) = got (record {
    hash = content.hash;
    source = content.source;
    value = value;
    raw_value = content.value;
  })

  abbrev pub decode : Got RawContent → Got (MessageContent J)
  decode (error e) = error e
  decode (got content) = decoded content (env.loads content.value)

  unfoldable pub get_json : ℕ → ItemType → Engine → Got (MessageContent J) × Engine
  unfolding get_hash_content
  get_json h via files = let r = get_hash_content default_flags h via files in (decode r.0, r.1)

  -- `get_message_content`, of a message whose inline content the schema has checked.
  unfoldable pub check_for_u0000 : ℕ → Got (Unit {0})
  check_for_u0000 content = if env.contains_u0000 content then error invalid_content else got tt

  abbrev pub decode_checked : Got (Unit {0}) → RawContent → Got (MessageContent J)
  decode_checked (error e) content = error e
  decode_checked (got done) content = decode (got content)

  unfoldable pub message_content_of : Got RawContent → Got (MessageContent J)
  unfolding check_for_u0000
  message_content_of (error e) = error e
  message_content_of (got content) = decode_checked (check_for_u0000 content.value) content

  unfoldable pub get_message_content : ItemType → ℕ → ℕ → Engine → Got (MessageContent J) × Engine
  unfolding get_hash_content message_content_of
  get_message_content inline h item_content files = (
    message_content_of (got (record { hash = h; value = item_content; source = from_inline })),
    files,
  )
  get_message_content storage h item_content files =
      let r = get_hash_content default_flags h storage files in (message_content_of r.0, r.1)
  get_message_content ipfs h item_content files =
      let r = get_hash_content default_flags h ipfs files in (message_content_of r.0, r.1)

  -- `add_file_content_to_local_storage`, `add_json` and `add_file`.
  unfoldable pub add_file_content_to_local_storage :
      ℕ → ℕ → Engine × FileTables → Engine × FileTables
  unfolding upsert_file
  add_file_content_to_local_storage content h (files, tables) =
      (put files h (some content), upsert_file h (env.size content) file tables)

  abbrev pub hash_by : (ℕ → Option ℕ) → ℕ → ItemType → Got ℕ
  hash_by add content ipfs = elim (add content) [ none ↦ error timeout_error | some h ↦ got h ]
  hash_by add content storage = got (env.sha256 content)
  hash_by add content inline = error value_error

  unfoldable pub add_content : Got ℕ → ℕ → Engine × FileTables → Got ℕ × (Engine × FileTables)
  unfolding add_file_content_to_local_storage
  add_content (error e) content s = (error e, s)
  add_content (got h) content s = (got h, add_file_content_to_local_storage content h s)

  unfoldable pub add_json : J → ItemType → Engine × FileTables → Got ℕ × (Engine × FileTables)
  unfolding add_content
  add_json value via s =
      let content = env.dumps value in
      add_content (hash_by env.ipfs_add_bytes content via) content s

  unfoldable pub add_file : ℕ → ItemType → Engine × FileTables → Got ℕ × (Engine × FileTables)
  unfolding add_content
  add_file content via s = add_content (hash_by env.ipfs_add_file content via) content s
