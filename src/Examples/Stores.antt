-- ===== src/Examples/Stores.antt =====
-- Runs of files.py, store.py, garbage_collector.py and permissions.py.
use py_aleph.Prelude.{
  ℕ, ◌≡◌, ◌≤◌, ◌↔◌, any, ◌+◌, ◌*◌, refl, Bool, true, false, Option, none, some, List, [], ◌∷◌,
  arith, ◌==◌,
}
use py_aleph.Node.{MessageType, storage, StoreContent, store_content, Message, put}
use py_aleph.Permissions.{Authorization, check_sender_authorization}
use py_aleph.Permissions.Laws.{IsAuthorized, check_sender_authorization_iff}
use py_aleph.Files.{
  FileTables, FilePin, message_pin, grace_period_pin, file, delete_file,
  delete_grace_period_file_pins,
}
use py_aleph.Files.Store.{StoreEnv}
use py_aleph.Files.Collect.{
  collect, collect-keeps, collect-deletes, delete_files, get_unpinned_files,
}
use py_aleph.Examples.{post}

-- The owner 5 pinned two revisions of the file of the tag 70.
abbrev first_pin : FilePin
first_pin = record { file_hash = 40; created = 10; kind = message_pin 70 5 none }

abbrev second_pin : FilePin
second_pin = record { file_hash = 41; created = 20; kind = message_pin 71 5 (some 70) }

abbrev pinned : FileTables
pinned = record {
  files = λ h. some (record { size = 1; type = file });
  pins = first_pin ∷ second_pin ∷ [];
  tags = λ h. none;
}

-- Two revisions under the ref 200, which is no item hash, and their tag.
abbrev owned : FileTables
owned = record {
  files = λ h. none;
  pins =
      record { file_hash = 40; created = 10; kind = message_pin 70 5 (some 200) }
      ∷ record { file_hash = 41; created = 20; kind = message_pin 71 5 (some 200) }
      ∷ [];
  tags = put (λ h. none) 5200 (some (record { owner = 5; file_hash = 41; last_updated = 20 }));
}

-- Texts under 100 are item hashes.
abbrev env : StoreEnv
env = record {
  is_item_hash = λ text. py_aleph.Prelude.ltb text 100;
  join = λ owner ref. 1000 * owner + ref;
  item_type_from_hash = λ h. some storage;
  grace_period = 24;
}

abbrev content : StoreContent
content = record { address = 5; time = 20; item_hash = 41; item_type = storage; ref = some 70 }

abbrev store_message : Message
store_message = record post {
  item_hash = 71;
  type = MessageType.store;
  content = store_content content;
}

-- The pins without that of the message, and a grace period of a day for its file.
abbrev left_pins : List FilePin
left_pins =
    first_pin ∷ record { file_hash = 41; created = 1000; kind = grace_period_pin 87400 } ∷ []

abbrev no_more : List ℕ
no_more = []

abbrev refreshed : FileTables
refreshed = record pinned {
  tags = put (λ h. none) 70 (some (record { owner = 5; file_hash = 41; last_updated = 20 }));
}

-- 5200 is the tag of the owner 5 and the ref 200.
-- The tables after the second message was forgotten: a grace period of a day for its file.
abbrev forgotten : FileTables
forgotten = record pinned {
  pins = left_pins;
  tags = put (λ h. none) 70 (some (record { owner = 5; file_hash = 40; last_updated = 10 }));
}

-- At the time 100: the file 41 has a grace period that ends then, and 42 one that ended before.
abbrev graced : FileTables
graced = record pinned {
  pins =
      record { file_hash = 41; created = 10; kind = grace_period_pin 100 }
      ∷ record { file_hash = 42; created = 10; kind = grace_period_pin 99 }
      ∷ [];
}

collect-keeps_example :
    ((collect 100 (41 ∷ 42 ∷ []) (70 ∷ []) graced).tables.files 41 ≡ graced.files 41)
    × (any (λ k. k == 41) (collect 100 (41 ∷ 42 ∷ []) (70 ∷ []) graced).deleted ≡ false)
collect-keeps_example =
    collect-keeps 100 (41 ∷ 42 ∷ []) (70 ∷ []) graced []
      (record { file_hash = 41; created = 10; kind = grace_period_pin 100 })
      (record { file_hash = 42; created = 10; kind = grace_period_pin 99 } ∷ []) refl (omega arith)

run_ends : (collect 100 (41 ∷ 42 ∷ []) (70 ∷ []) graced).finished ≡ true
unfolding collect delete_files delete_file delete_grace_period_file_pins get_unpinned_files
run_ends = refl

collect-deletes_example : (collect 100 (41 ∷ 42 ∷ []) (70 ∷ []) graced).tables.files 42 ≡ none
collect-deletes_example =
    collect-deletes 100 (41 ∷ 42 ∷ []) (70 ∷ []) graced 42 refl
      (λ e. absurd (cc (e)), (λ e. omega arith, tt)) run_ends

-- A tag that names the file 42 makes the run end with an exception.
tagged :
    (collect 100 (41 ∷ 42 ∷ []) (5200 ∷ []) (record graced {
      tags = put (λ h. none) 5200 (some (record { owner = 5; file_hash = 42; last_updated = 20 }));
    })).finished
    ≡ false
unfolding collect delete_files delete_file delete_grace_period_file_pins get_unpinned_files
tagged = refl

-- The address 5 lets 6 act for it by posts only.
abbrev security : ℕ → Option (List Authorization)
security owner = some (
    record {
      address = some 6;
      chain = none;
      channels = [];
      types = MessageType.post ∷ [];
      post_types = [];
      aggregate_keys = [];
    }
    ∷ [])

check_sender_authorization_iff_example :
    (check_sender_authorization security (record post { sender = 6 }) ≡ true)
    ↔ IsAuthorized security (record post { sender = 6 })
check_sender_authorization_iff_example =
    check_sender_authorization_iff security (record post { sender = 6 })
