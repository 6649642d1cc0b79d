-- ===== src/Web/Upload/Checked.antt =====
-- What the node accepts as an upload, and what it serves.
use py_aleph.Prelude.{
  ℕ, ◌*◌, ◌≤◌, ◌≡◌, ◌⊎◌, refl, true, Option, none, some, ltb, Bool-cases, inl, inr, arith,
}
use mathlib.Core.Path.{subst}
use py_aleph.Costs.{mib}
use py_aleph.Files.{FileTables, StoredFile, get_file, is_pinned_file}
use py_aleph.Storage.{Got, error, got, RawContent, StorageEnv, Engine, get_hash_content}
use py_aleph.Storage.Sound.{Matches, IsSound, IsHonest, IsChecked, get_hash_content-IsSound}
use py_aleph.Queries.Status.{Response, http_error, response}
use py_aleph.Queries.Status.Laws.{respond-inv, response_inj}
use py_aleph.Web.Upload.{
  max_file_size, max_unauthenticated_upload_file_size, StorageMetadata, UploadContent, UploadEnv,
  UploadedFile, check_file, assert_file_is_downloadable, download_flags, served, type_of_hash,
  get_raw_hash,
}

module _ {J : Type 0} (store : StorageEnv J) (env : UploadEnv) where
  -- The message of an upload allows it: its signature is valid, its item content is that of a STORE
  -- message for the file, and beyond 25 MiB the balance of the address in that content covers it.
  pub record IsAuthorized (file : UploadedFile) (m : StorageMetadata) : Type 0 where
    pub signed : env.verify_signature m.message ≡ true
    pub text : ℕ
    pub has_content : m.item_content ≡ some text
    pub content : UploadContent
    pub parsed : env.parse_content text ≡ some content
    pub same_hash : content.item_hash ≡ store.sha256 file.content
    pub balance : (file.size ≤ 25 * mib) ⊎ (env.covers content.address file.size ≡ true)

  -- The size of the file is within the limit, which is higher for a message that allows the upload.
  abbrev pub IsAllowed : UploadedFile → Option StorageMetadata → Type 0
  IsAllowed file none = file.size ≤ max_unauthenticated_upload_file_size
  IsAllowed file (some m) = (file.size ≤ max_file_size) × IsAuthorized file m

  -- The content that was checked is that of the message.
  record IsContentOf (o : Option ℕ) (h : ℕ) (c : UploadContent) : Type 0 where
    text : ℕ
    has_content : o ≡ some text
    parsed : env.parse_content text ≡ some c
    same_hash : c.item_hash ≡ h

  -- What an upload came to: after an error nothing is written; otherwise the file is allowed, it is
  -- stored under its SHA-256, and if it came without a message, it is pinned.
  abbrev pub IsAccepted :
      Engine × FileTables → Response (ℕ × Option StorageMetadata) × (Engine × FileTables) → Type 0
  IsAccepted s (http_error e, u) = u ≡ s
  IsAccepted s (response (h, message), u) =
      (file : UploadedFile) × (h ≡ store.sha256 file.content)
      × IsAllowed file message
      × (u.0 h ≡ some file.content)
      × (message ≡ none → is_pinned_file h u.1 ≡ true)

  served-inv :
      (h : ℕ) (r : Got RawContent × Engine) (content : ℕ)
      → IsChecked store h r
      → served store env r.0 ≡ response content
      → Matches store h content
  served-inv h (error e, files) content c q = absurd (cc)
  served-inv h (got raw, files) content c q = subst (Matches store h) (response_inj q) c.1

  file_inv :
      (o : Option StoredFile)
      → check_file store env o ≡ response tt
      → (f : StoredFile) × (o ≡ some f) × (f.size ≤ max_file_size)
  file_inv none e = absurd (cc)
  file_inv (some f) e = elim (Bool-cases (ltb max_file_size f.size)) [
    | inl big ↦ absurd (cc (rw big at e))
    | inr fits ↦ (f, refl, ground (arith, fits))
  ]

  -- A download that responds serves a content with the hash that was asked for, of a file that the node
  -- has in its tables with at most 100 MiB, if what is stored matches its hash and the IPFS daemon is
  -- honest.
  pub get_raw_hash-Matches :
      (h content : ℕ) (files : Engine) (tables : FileTables)
      → IsHonest store
      → IsSound store files
      → get_raw_hash store env (some h) (files, tables) ≡ response content
      → (f : StoredFile) × (get_file h tables ≡ some f)
        × (f.size ≤ max_file_size)
        × Matches store h content
  unfolding get_raw_hash assert_file_is_downloadable
  get_raw_hash-Matches h content files tables honest sound e =
      let (type, et, r) = respond-inv (type_of_hash store env h) _ content e in
      let (done, ea, q) =
        respond-inv (assert_file_is_downloadable store env h tables) _ content r in
      let (f, ef, fits) = file_inv (get_file h tables) ea in
      (
        f,
        ef,
        fits,
        served-inv h (get_hash_content store (download_flags store env) h type files) content
            (get_hash_content-IsSound store (download_flags store env) h type files honest sound) q,
      )
