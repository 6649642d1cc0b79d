-- ===== src/Files.antt =====
-- src/aleph/db/models/files.py and src/aleph/db/accessors/files.py: stored files, the pins that keep
-- them, and the tags that name the latest revision of a file.
pub mod Store
pub mod Collect
use py_aleph.Prelude.{
  ℕ, ◌+◌, Bool, true, false, not, ◌&&◌, ◌||◌, Option, none, some, List, [], ◌∷◌, ◌++◌, ltb, leb,
  ◌==◌, if◌then◌else◌, any, keep, first,
}
use py_aleph.Status.{Error}
use py_aleph.Result.{Result, ok, raise}
use py_aleph.Node.{put}

pub data FileType : Type 0 where
  file directory : FileType

-- `StoredFileDb`, without its key.
pub record StoredFile : Type 0 where
  pub size : ℕ
  pub type : FileType

-- The columns that the kinds of `FilePinDb` add.
pub data PinKind : Type 0 where
  content_pin : ℕ → ℕ → PinKind
  message_pin : ℕ → ℕ → Option ℕ → PinKind
  tx_pin : ℕ → PinKind
  grace_period_pin : ℕ → PinKind

pub record FilePin : Type 0 where
  pub file_hash : ℕ
  pub created : ℕ
  pub kind : PinKind

-- `FileTagDb`, without its key.
pub record FileTag : Type 0 where
  pub owner : ℕ
  pub file_hash : ℕ
  pub last_updated : ℕ

pub record FileTables : Type 0 where
  pub files : ℕ → Option StoredFile
  pub pins : List FilePin
  pub tags : ℕ → Option FileTag

unfoldable pub is_pinned_file : ℕ → FileTables → Bool
is_pinned_file file_hash t = any (λ p. p.file_hash == file_hash) t.pins

abbrev pub or_new {ℓ} : {A : Type ℓ} → Option A → A → Option A
or_new none a = some a
or_new (some old) a = some old

-- `upsert_file`: a file that is there stays as it is.
unfoldable pub upsert_file : ℕ → ℕ → FileType → FileTables → FileTables
upsert_file file_hash size type t = record t {
  files = put t.files file_hash (or_new (t.files file_hash) (record { size = size; type = type }));
}

unfoldable pub get_file : ℕ → FileTables → Option StoredFile
get_file file_hash t = t.files file_hash

abbrev pub tags_file : ℕ → Option FileTag → Bool
tags_file file_hash none = false
tags_file file_hash (some tag) = tag.file_hash == file_hash

-- `delete_file`: the foreign keys of the pins and of the tags, whose keys are `tag_names`, refuse to
-- delete a file that a row of theirs names.
unfoldable pub delete_file : List ℕ → ℕ → FileTables → Result FileTables
unfolding is_pinned_file
delete_file tag_names file_hash t =
    if is_pinned_file file_hash t || any (λ tag. tags_file file_hash (t.tags tag)) tag_names
    then raise Error.other
    else ok (record t { files = put t.files file_hash none })

abbrev pub is_message_pin : ℕ → PinKind → Bool
is_message_pin item_hash (message_pin h owner ref) = h == item_hash
is_message_pin item_hash _ = false

abbrev pub is_content_pin : ℕ → PinKind → Bool
is_content_pin item_hash (content_pin h owner) = h == item_hash
is_content_pin item_hash _ = false

abbrev pub add_pin : FilePin → FileTables → FileTables
add_pin p t = record t { pins = t.pins ++ (p ∷ []) }

-- The unique constraint on item hash and type refuses a second pin of one message.
unfoldable pub insert_content_file_pin : ℕ → ℕ → ℕ → ℕ → FileTables → Result FileTables
insert_content_file_pin file_hash owner item_hash created t =
    if any (λ p. is_content_pin item_hash p.kind) t.pins
    then raise Error.other
    else ok (
        add_pin
          (record { file_hash = file_hash; created = created; kind = content_pin item_hash owner })
          t)

unfoldable pub insert_message_file_pin : ℕ → ℕ → ℕ → Option ℕ → ℕ → FileTables → Result FileTables
insert_message_file_pin file_hash owner item_hash ref created t =
    if any (λ p. is_message_pin item_hash p.kind) t.pins
    then raise Error.other
    else ok (
        add_pin
          (record {
            file_hash = file_hash;
            created = created;
            kind = message_pin item_hash owner ref;
          })
          t)

-- `upsert_tx_file_pin`: the only unique columns, item hash and type, hold no hash for such a pin,
-- so that nothing conflicts.
unfoldable pub upsert_tx_file_pin : ℕ → ℕ → ℕ → FileTables → FileTables
upsert_tx_file_pin file_hash tx_hash created t =
    add_pin (record { file_hash = file_hash; created = created; kind = tx_pin tx_hash }) t

unfoldable pub insert_grace_period_file_pin : ℕ → ℕ → ℕ → FileTables → FileTables
insert_grace_period_file_pin file_hash created delete_by t =
    add_pin (record { file_hash = file_hash; created = created; kind = grace_period_pin delete_by })
      t

-- `delete_file_pin`: of the pins of messages only.
unfoldable pub delete_file_pin : ℕ → FileTables → FileTables
delete_file_pin item_hash t = record t {
  pins = keep (λ p. not (is_message_pin item_hash p.kind)) t.pins;
}

abbrev pub is_outdated : ℕ → PinKind → Bool
is_outdated datetime (grace_period_pin delete_by) = ltb delete_by datetime
is_outdated datetime _ = false

unfoldable pub delete_grace_period_file_pins : ℕ → FileTables → FileTables
delete_grace_period_file_pins datetime t = record t {
  pins = keep (λ p. not (is_outdated datetime p.kind)) t.pins;
}

unfoldable pub get_message_file_pin : ℕ → FileTables → Option FilePin
get_message_file_pin item_hash t = first (λ p. is_message_pin item_hash p.kind) t.pins

unfoldable pub count_file_pins : ℕ → FileTables → ℕ
count_file_pins file_hash t = py_aleph.Prelude.length (keep (λ p. p.file_hash == file_hash) t.pins)

unfoldable pub get_file_tag : ℕ → FileTables → Option FileTag
get_file_tag tag t = t.tags tag

-- `upsert_file_tag`: a tag that is there moves to a later revision only, and keeps its owner.
abbrev pub newer_tag : Option FileTag → FileTag → FileTag
newer_tag none new = new
newer_tag (some old) new =
    if ltb old.last_updated new.last_updated
    then record old { file_hash = new.file_hash; last_updated = new.last_updated }
    else old

unfoldable pub upsert_file_tag : ℕ → ℕ → ℕ → ℕ → FileTables → FileTables
upsert_file_tag tag owner file_hash last_updated t = record t {
  tags = put t.tags tag (
      some (
        newer_tag (t.tags tag)
          (record { owner = owner; file_hash = file_hash; last_updated = last_updated })));
}

-- `coalesce(ref, item_hash)` of a pin of a message.
abbrev pub coalesced_ref : PinKind → Option ℕ
coalesced_ref (message_pin item_hash owner none) = some item_hash
coalesced_ref (message_pin item_hash owner (some ref)) = some ref
coalesced_ref _ = none

abbrev pub refers_to : ℕ → FilePin → Bool
refers_to tag p = elim (coalesced_ref p.kind) [ none ↦ false | some text ↦ text == tag ]

abbrev pub pin_owner : PinKind → ℕ
pin_owner (message_pin item_hash owner ref) = owner
pin_owner (content_pin item_hash owner) = owner
pin_owner _ = 0

-- The latest of the pins that refer to the tag, the first of the table among equal times.
abbrev pub later_pin : Option FilePin → FilePin → Option FilePin
later_pin none p = some p
later_pin (some q) p = if ltb q.created p.created then some p else some q

unfoldable pub latest_pin : Option FilePin → ℕ → List FilePin → Option FilePin
latest_pin best tag [] = best
latest_pin best tag (p ∷ ps) =
    latest_pin (if refers_to tag p then later_pin best p else best) tag ps

abbrev pub tag_of_pin : FilePin → FileTag
tag_of_pin p = record {
  owner = pin_owner p.kind;
  file_hash = p.file_hash;
  last_updated = p.created;
}

-- More than one pin that refers to the tag has the time of this one.
abbrev pub is_tied : FilePin → ℕ → List FilePin → Bool
is_tied p tag pins =
    ltb 1 (py_aleph.Prelude.length (keep (λ q. refers_to tag q && q.created == p.created) pins))

abbrev pub refresh_from : Option FilePin → ℕ → FileTables → Result FileTables
refresh_from none tag t = ok (record t { tags = put t.tags tag none })
refresh_from (some p) tag t =
    if is_tied p tag t.pins
    then raise Error.other
    else ok (record t { tags = put t.tags tag (some (tag_of_pin p)) })

-- `refresh_file_tag`: the tag is deleted, and made again from the latest pin. The upsert is of all
-- pins of the latest time, and the database refuses one that has a row twice.
unfoldable pub refresh_file_tag : ℕ → FileTables → Result FileTables
unfolding latest_pin
refresh_file_tag tag t = refresh_from (latest_pin none tag t.pins) tag t
