-- ===== src/Storage/Sound.antt =====
-- That the node returns and stores only contents that match their hashes.
use py_aleph.Prelude.{
  ℕ, ◌≡◌, refl, ap, ◌&&◌, Option, none, some, ◌==◌, Bool-cases, Option-cases, inl, inr, arith,
  ==-refl,
}
use mathlib.Core.Path.{subst}
use py_aleph.Prelude.Keys.{some_inj}
use py_aleph.Node.{ItemType, inline, storage, ipfs, put}
use py_aleph.Files.{FileTables}
use py_aleph.Storage.{
  Got, error, got, StorageError, RawContent, MessageContent, StorageEnv, Engine, Flags,
  default_flags, compare_hash, verify_cid, verify_content_hash, checked, check_answer,
  fetch_content_from_network, is_ipfs, keep_value, after_ipfs, after_network, after_engine,
  get_hash_content, decoded, decode, get_json, add_file_content_to_local_storage, hash_by,
  add_content, add_json, add_file,
}

got_inj : {A : Type 0} {a b : A} → got a ≡ got b → a ≡ b
got_inj e = cc (e)

module _ {J : Type 0} (env : StorageEnv J) where
  -- A content has a hash: it is its SHA-256, or what IPFS gives for it with some version.
  pub data Matches (h content : ℕ) : Type 0 where
    by_sha256 : env.sha256 content ≡ h → Matches h content
    by_ipfs : (version : ℕ) → env.ipfs_hash version content ≡ some h → Matches h content

  abbrev pub IsSound : Engine → Type 0
  IsSound files = (h content : ℕ) → files h ≡ some content → Matches h content

  -- What the node relies on: the IPFS daemon returns contents that have the hash asked for, and the
  -- hash that it returns for a content that is added is one of that content.
  pub record IsHonest : Type 0 where
    pub fetched : (h content : ℕ) → env.get_ipfs_content h ≡ some content → Matches h content
    pub bytes_added : (h content : ℕ) → env.ipfs_add_bytes content ≡ some h → Matches h content
    pub file_added : (h content : ℕ) → env.ipfs_add_file content ≡ some h → Matches h content

  compare_hash_sound : (o : Option ℕ) (h : ℕ) → compare_hash env o h ≡ got tt → o ≡ some h
  compare_hash_sound none h e = absurd (cc)
  compare_hash_sound (some c) h e = elim (Bool-cases (c == h)) [
    | inl y ↦ ap (λ x. some x) (ground (arith, y))
    | inr n ↦ absurd (cc (rw n at e))
  ]

  verify_content_hash-Matches :
      (content : ℕ) (via : ItemType) (h : ℕ)
      → verify_content_hash env content via h ≡ got tt
      → Matches h content
  verify_content_hash-Matches content storage h e =
      by_sha256 (some_inj (compare_hash_sound (some (env.sha256 content)) h e))
  verify_content_hash-Matches content inline h e = absurd (cc)
  verify_content_hash-Matches content ipfs h e = elim (Bool-cases env.ipfs_enabled) [
    | inr n ↦ absurd (cc (rw n at e))
    | inl y ↦ go (env.get_cid_version h) (rw y at e)
  ]
    where
      go : (v : Option ℕ) → verify_cid env v content h ≡ got tt → Matches h content
      go none q = absurd (cc)
      go (some version) q = by_ipfs version (compare_hash_sound (env.ipfs_hash version content) h q)

  check_answer-Matches :
      (via : ItemType) (h : ℕ) (o : Option ℕ) (content : ℕ)
      → check_answer env via h o ≡ got (some content)
      → Matches h content
  check_answer-Matches via h none content e = absurd (cc (got_inj e))
  check_answer-Matches via h (some c) content e = go (verify_content_hash env c via h) refl e
    where
      go :
          (r : Got (Unit {0}))
          → verify_content_hash env c via h ≡ r
          → checked env r c ≡ got (some content)
          → Matches h content
      go (error x) v q = absurd (cc)
      go (got done) v q =
          subst (Matches h) (some_inj (got_inj q)) (verify_content_hash-Matches c via h v)

  put-IsSound :
      (files : Engine) (h content : ℕ)
      → IsSound files
      → Matches h content
      → IsSound (put files h (some content))
  put-IsSound files h content s m k c e = elim (Bool-cases (h == k)) [
    | inr other ↦ s k c (rw other at e)
    | inl same ↦
        (let eq : h ≡ k = ground (arith, same) in
          let found : some content ≡ some c = rw same at e in
          subst (λ x. Matches x c) eq (subst (Matches h) (some_inj found) m))
  ]

  -- What a read came to.
  abbrev pub IsChecked : ℕ → Got RawContent × Engine → Type 0
  IsChecked h (error e, files) = IsSound files
  IsChecked h (got r, files) = (r.hash ≡ h) × Matches h r.value × IsSound files

  keep_value-IsChecked :
      (flags : Flags) (h content : ℕ) (source : py_aleph.Storage.ContentSource) (files : Engine)
      → IsSound files
      → Matches h content
      → IsChecked h (keep_value env flags h content source files)
  keep_value-IsChecked flags h content source files s m = elim (Bool-cases flags.store_value) [
    | inl y ↦ rw y (refl, m, put-IsSound files h content s m)
    | inr n ↦ rw n (refl, m, s)
  ]

  after_ipfs-IsChecked :
      (flags : Flags) (h : ℕ) (o : Option ℕ) (files : Engine)
      → IsSound files
      → ((content : ℕ) → o ≡ some content → Matches h content)
      → IsChecked h (after_ipfs env flags h o files)
  after_ipfs-IsChecked flags h none files s k = s
  after_ipfs-IsChecked flags h (some content) files s k =
      keep_value-IsChecked flags h content py_aleph.Storage.from_ipfs files s (k content refl)

  after_network-IsChecked :
      (flags : Flags) (h : ℕ) (via : ItemType) (r : Got (Option ℕ)) (files : Engine)
      → IsHonest
      → IsSound files
      → ((content : ℕ) → r ≡ got (some content) → Matches h content)
      → IsChecked h (after_network env flags h via r files)
  after_network-IsChecked flags h via (error e) files honest s k = s
  after_network-IsChecked flags h via (got (some content)) files honest s k =
      keep_value-IsChecked flags h content py_aleph.Storage.from_p2p files s (k content refl)
  after_network-IsChecked flags h via (got none) files honest s k =
      after_ipfs-IsChecked flags h _ files s λ content e.
        elim (Bool-cases (flags.use_ipfs && (is_ipfs env via && env.ipfs_enabled))) [
          | inl y ↦ honest.fetched h content (rw y at e)
          | inr n ↦ absurd (cc (rw n at e))
        ]

  -- Reading a content by its hash, with any flags and whatever the peers answer, where the IPFS
  -- daemon returns only contents that have the hash asked for, which the node does not verify: if
  -- what is stored matches its hash, then so does what is returned, if anything is, and all that
  -- is stored after it.
  pub get_hash_content-IsSound :
      (flags : Flags) (h : ℕ) (via : ItemType) (files : Engine)
      → IsHonest
      → IsSound files
      → IsChecked h (get_hash_content env flags h via files)
  unfolding get_hash_content after_engine fetch_content_from_network
  get_hash_content-IsSound flags h via files honest s = elim (Option-cases (files h)) [
    | inr (content, e) ↦ rw e (refl, s h content e, s)
    | inl missing ↦ rw missing (
        after_network-IsChecked flags h via _ files honest s λ content e.
          elim (Bool-cases flags.use_network) [
            | inl y ↦ check_answer-Matches via h _ content (rw y at e)
            | inr n ↦ absurd (cc (got_inj (rw n at e)))
          ])
  ]

  hash_by-Matches :
      (add : ℕ → Option ℕ) (content h : ℕ) (via : ItemType)
      → ((k : ℕ) → add content ≡ some k → Matches k content)
      → hash_by env add content via ≡ got h
      → Matches h content
  hash_by-Matches add content h inline k e = absurd (cc)
  hash_by-Matches add content h storage k e = by_sha256 (got_inj e)
  hash_by-Matches add content h ipfs k e = elim (Option-cases (add content)) [
    | inl n ↦ absurd (cc (rw (hash_by, n) at e))
    | inr (j, f) ↦ subst (λ x. Matches x content) (got_inj (rw (hash_by, f) at e)) (k j f)
  ]

  -- Adding a content: the hash, and what is stored.
  add_content-got :
      (r : Got ℕ) (content h : ℕ) (s : Engine × FileTables)
      → (add_content env r content s).0 ≡ got h
      → r ≡ got h
  unfolding add_content
  add_content-got (error x) content h s e = absurd (cc)
  add_content-got (got k) content h s e = e

  -- A value that was added, on whatever engine, and that JSON reads back as it wrote it, is read
  -- back from the stored file, without asking the network; and if the IPFS daemon returns the hash
  -- of what it is given, which the node does not verify, and what was stored matched its hash, it
  -- still does.
  pub add_json-get_json :
      (value : J) (via by : ItemType) (h : ℕ) (files : Engine) (tables : FileTables)
      → env.loads (env.dumps value) ≡ some value
      → (add_json env value via (files, tables)).0 ≡ got h
      → let stored = (add_json env value via (files, tables)).1.0 in
        (get_json env h by stored ≡ (
          got (record {
            hash = h;
            source = py_aleph.Storage.from_db;
            value = value;
            raw_value = env.dumps value;
          }),
          stored,
        ))
        × (IsHonest → IsSound files → IsSound stored)
  unfolding add_json add_content add_file_content_to_local_storage get_json get_hash_content
      after_engine
  add_json-get_json value via by h files tables read e =
      let content = env.dumps value in
      let hashed =
        add_content-got (hash_by env env.ipfs_add_bytes content via) content h (files, tables) e in
      let stored : (add_json env value via (files, tables)).1.0 ≡ put files h (some content) =
        rw hashed refl in
      let there : put files h (some content) h ≡ some content = rw (==-refl h) refl in
      (
        rw stored (rw there (rw read refl)),
        λ honest s. rw stored (
            put-IsSound files h content s (
              hash_by-Matches env.ipfs_add_bytes content h via (λ k. honest.bytes_added k content)
                hashed)),
      )
