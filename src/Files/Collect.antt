-- ===== src/Files/Collect.antt =====
-- src/aleph/services/storage/garbage_collector.py: what a run of the collector deletes. The files on
-- disk and in IPFS are the list of the hashes that the run removes, which is taken to succeed.
use py_aleph.Prelude.{
  ℕ, ◌≡◌, ◌≤◌, ◌<◌, refl, Bool, true, false, not, ◌&&◌, none, some, List, [], ◌∷◌, ◌++◌, arith,
  ◌==◌, any, keep, All, Bool-cases, ◌⊎◌, inl, inr, Option, Option-cases, ◌∙◌,
}
use py_aleph.Status.{Error}
use py_aleph.Result.{Result, ok, raise}
use py_aleph.Node.{put}
use py_aleph.Files.{
  StoredFile, FileTables, FilePin, PinKind, tags_file, content_pin, message_pin, tx_pin,
  grace_period_pin, is_outdated, is_pinned_file, delete_file, delete_grace_period_file_pins,
}

-- The rows of the table of files, by their keys.
abbrev has_file : FileTables → ℕ → Bool
has_file t h = elim (t.files h) [ none ↦ false | some f ↦ true ]

-- `get_unpinned_files`, of the keys of the table, `stored`.
unfoldable pub get_unpinned_files : List ℕ → FileTables → List ℕ
get_unpinned_files stored t = keep (λ h. has_file t h && not (is_pinned_file h t)) stored

-- What a run leaves: the tables, the hashes whose data was deleted, and whether it came to its end, or
-- to an exception, after which what was committed stays.
pub record Collected : Type 0 where
  pub tables : FileTables
  pub deleted : List ℕ
  pub finished : Bool

abbrev pub after_delete : ℕ → Result FileTables → FileTables → (FileTables → Collected) → Collected
after_delete h (raise e) t rest = record { tables = t; deleted = []; finished = false }
after_delete h (ok u) t rest =
    let r = rest u in record { tables = r.tables; deleted = h ∷ r.deleted; finished = r.finished }

-- The loop over the files: each deletion is committed before the data goes.
unfoldable pub delete_files : List ℕ → List ℕ → FileTables → Collected
delete_files tag_names [] t = record { tables = t; deleted = []; finished = true }
delete_files tag_names (h ∷ hs) t =
    after_delete h (delete_file tag_names h t) t (λ u. delete_files tag_names hs u)

-- `GarbageCollector.collect`, where the keys of the tables of files and of tags are given.
unfoldable pub collect : ℕ → List ℕ → List ℕ → FileTables → Collected
unfolding delete_files
collect datetime stored tag_names t =
    let t' = delete_grace_period_file_pins datetime t in
    delete_files tag_names (get_unpinned_files stored t') t'

-- A pin still keeps its file at `datetime`: it is no grace period, or one that has not ended.
abbrev pub Holds : ℕ → PinKind → Type 0
Holds datetime (grace_period_pin delete_by) = datetime ≤ delete_by
Holds datetime (content_pin item_hash owner) = Unit
Holds datetime (message_pin item_hash owner ref) = Unit
Holds datetime (tx_pin tx_hash) = Unit

-- A pin is a grace period that ended before `datetime`.
abbrev pub Ended : ℕ → PinKind → Type 0
Ended datetime (grace_period_pin delete_by) = delete_by < datetime
Ended datetime (content_pin item_hash owner) = ⊥
Ended datetime (message_pin item_hash owner ref) = ⊥
Ended datetime (tx_pin tx_hash) = ⊥

Holds-stays : (datetime : ℕ) (k : PinKind) → Holds datetime k → is_outdated datetime k ≡ false
Holds-stays datetime (grace_period_pin delete_by) h = ground arith
Holds-stays datetime (content_pin item_hash owner) h = refl
Holds-stays datetime (message_pin item_hash owner ref) h = refl
Holds-stays datetime (tx_pin tx_hash) h = refl

Ended-goes : (datetime : ℕ) (k : PinKind) → Ended datetime k → is_outdated datetime k ≡ true
Ended-goes datetime (grace_period_pin delete_by) h = ground arith
Ended-goes datetime (content_pin item_hash owner) h = absurd h
Ended-goes datetime (message_pin item_hash owner ref) h = absurd h
Ended-goes datetime (tx_pin tx_hash) h = absurd h

pinned_still :
    (datetime : ℕ) (l : List FilePin) (p : FilePin) (r : List FilePin)
    → is_outdated datetime p.kind ≡ false
    → any
        (λ q. q.file_hash == p.file_hash)
        (keep (λ q. not (is_outdated datetime q.kind)) (l ++ (p ∷ r)))
      ≡ true
pinned_still datetime [] p r h = ground (arith, h)
pinned_still datetime (q ∷ qs) p r h = ground (arith, pinned_still datetime qs p r h)

abbrev without : ℕ → FileTables → FileTables
without h t = record t { files = put t.files h none }

-- The database deletes a file that nothing names, or refuses.
delete_file-cases :
    (tag_names : List ℕ) (h : ℕ) (t : FileTables)
    → ((delete_file tag_names h t ≡ ok (without h t)) × (is_pinned_file h t ≡ false))
      ⊎ (delete_file tag_names h t ≡ raise Error.other)
unfolding delete_file
delete_file-cases tag_names h t = elim (Bool-cases (is_pinned_file h t)) [
  | inl y ↦ inr (rw y refl)
  | inr n ↦ elim (Bool-cases (any (λ tag. tags_file h (t.tags tag)) tag_names)) [
    | inl y ↦ inr (rw (n, y) refl)
    | inr m ↦ inl (rw (n, m) refl, n)
  ]
]

-- A file that is pinned goes through the loop.
delete_files-pinned :
    (tag_names hs : List ℕ) (t : FileTables) (h : ℕ)
    → is_pinned_file h t ≡ true
    → ((delete_files tag_names hs t).tables.files h ≡ t.files h)
      × (any (λ k. k == h) (delete_files tag_names hs t).deleted ≡ false)
unfolding delete_files is_pinned_file
delete_files-pinned tag_names [] t h e = (refl, refl)
delete_files-pinned tag_names (k ∷ ks) t h e = elim (delete_file-cases tag_names k t) [
  | inr r ↦ rw r (refl, refl)
  | inl (o, n) ↦
      (let other : (k == h) ≡ false = (elim (Bool-cases (k == h)) [
        | inr d ↦ d
        | inl y ↦ absurd (
            let same : k ≡ h = ground (arith, y) in
            let p : is_pinned_file h t ≡ false = rw same at n in cc (p, e))
      ]) in
        let rest = delete_files-pinned tag_names ks (without k t) h e in
        rw o (rest.0 ∙ rw other refl, rw other rest.1))
]

put-none : (k h : ℕ) (files : ℕ → Option StoredFile) → files h ≡ none → put files k none h ≡ none
put-none k h files e = ground (arith, e)

-- A file that is gone stays so.
delete_files-none :
    (tag_names hs : List ℕ) (t : FileTables) (h : ℕ)
    → t.files h ≡ none
    → (delete_files tag_names hs t).tables.files h ≡ none
unfolding delete_files
delete_files-none tag_names [] t h e = e
delete_files-none tag_names (k ∷ ks) t h e = elim (delete_file-cases tag_names k t) [
  | inr r ↦ rw r e
  | inl (o, n) ↦ rw o (delete_files-none tag_names ks (without k t) h (put-none k h t.files e))
]

delete_files-finished :
    (tag_names hs : List ℕ) (t : FileTables) (h : ℕ)
    → any (λ k. k == h) hs ≡ true
    → (delete_files tag_names hs t).finished ≡ true
    → (delete_files tag_names hs t).tables.files h ≡ none
unfolding delete_files
delete_files-finished tag_names [] t h m e = absurd (cc)
delete_files-finished tag_names (k ∷ ks) t h m e = elim (delete_file-cases tag_names k t) [
  | inr r ↦ absurd (cc (rw r at e))
  | inl (o, n) ↦ elim (Bool-cases (k == h)) [
    | inl y ↦ rw o (delete_files-none tag_names ks (without k t) h (rw y refl))
    | inr d ↦ rw o (delete_files-finished tag_names ks (without k t) h (rw d at m) (rw o at e))
  ]
]

has_row : (t : FileTables) (h : ℕ) (row : StoredFile) → t.files h ≡ some row → has_file t h ≡ true
has_row t h row e = ground (arith, e)

any-unpinned :
    (t : FileTables) (h : ℕ) (stored : List ℕ)
    → any (λ k. k == h) (get_unpinned_files stored t)
      ≡ (any (λ k. k == h) stored && (has_file t h && not (is_pinned_file h t)))
unfolding get_unpinned_files is_pinned_file
any-unpinned t h [] = refl
any-unpinned t h (k ∷ ks) = ground (arith, any-unpinned t h ks)

none_pinned :
    (datetime h : ℕ) (ps : List FilePin)
    → All (λ p. p.file_hash ≡ h → Ended datetime p.kind) ps
    → any (λ q. q.file_hash == h) (keep (λ q. not (is_outdated datetime q.kind)) ps) ≡ false
none_pinned datetime h [] a = refl
none_pinned datetime h (p ∷ ps) a = elim (Bool-cases (p.file_hash == h)) [
  | inl y ↦
      (let gone = Ended-goes datetime p.kind (a.0 (ground (arith, y))) in
        rw gone (none_pinned datetime h ps a.1))
  | inr n ↦ ground (arith, n, none_pinned datetime h ps a.1)
]

-- A run of the garbage collector keeps the row and the data of each file that some pin holds,
-- wherever the pin stands in the table: a pin of a message, a content or a transaction, or a grace
-- period that has not ended. This holds too where the run ends with an exception.
pub collect-keeps :
    (datetime : ℕ) (stored tag_names : List ℕ) (t : FileTables) (l : List FilePin) (p : FilePin)
    (r : List FilePin)
    → t.pins ≡ l ++ (p ∷ r)
    → Holds datetime p.kind
    → let run = collect datetime stored tag_names t in
      (run.tables.files p.file_hash ≡ t.files p.file_hash)
      × (any (λ k. k == p.file_hash) run.deleted ≡ false)
unfolding collect delete_grace_period_file_pins is_pinned_file
collect-keeps datetime stored tag_names t l p r e h =
    let t' = delete_grace_period_file_pins datetime t in
    delete_files-pinned tag_names (get_unpinned_files stored t') t' p.file_hash
      (rw e (pinned_still datetime l p r (Holds-stays datetime p.kind h)))

-- Where a run of the garbage collector comes to its end, each stored file whose pins are all grace
-- periods that have ended, or that has none, has no row after it.
pub collect-deletes :
    (datetime : ℕ) (stored tag_names : List ℕ) (t : FileTables) (h : ℕ)
    → any (λ k. k == h) stored ≡ true
    → All (λ p. p.file_hash ≡ h → Ended datetime p.kind) t.pins
    → (collect datetime stored tag_names t).finished ≡ true
    → (collect datetime stored tag_names t).tables.files h ≡ none
unfolding collect delete_grace_period_file_pins is_pinned_file
collect-deletes datetime stored tag_names t h m a f =
    let t' = delete_grace_period_file_pins datetime t in
    elim (Option-cases (t.files h)) [
      | inl gone ↦ delete_files-none tag_names (get_unpinned_files stored t') t' h gone
      | inr (row, e) ↦
          delete_files-finished tag_names (get_unpinned_files stored t') t' h
            (any-unpinned t' h stored
              ∙ rw (m, has_row t' h row e, none_pinned datetime h t.pins a) refl)
            f
    ]
