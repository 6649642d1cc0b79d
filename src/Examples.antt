-- ===== src/Examples.antt =====
-- The theorems at concrete inputs, and the environments and rows that these use.
mod Ranges
mod Stores
mod Pendings
mod Merges
mod Readers
mod Posts
mod Forgets
mod Machines
mod Publishers
mod Listings
mod Rounds
mod Uploads
use py_aleph.Prelude.{ℕ, true, false, Option, none, some, List, [], ◌∷◌}
use py_aleph.Status.{MessageOrigin}
use py_aleph.Result.{ok}
use py_aleph.Node.{MessageType, inline, named, Content, post_content, Message, Pending, Tables}
use py_aleph.Files.{FileTables}
use py_aleph.Handler.{Session, ContentHandler}

-- A pending post with the hash 7, from the sender 5, on a node that has nothing else.
abbrev pub pending_post : Pending
pending_post = record {
  id = 1;
  item_hash = 7;
  type = MessageType.post;
  chain = 1;
  sender = 5;
  signature = some 9;
  item_type = inline;
  time = 100;
  channel = none;
  reception_time = 101;
  check_message = true;
  next_attempt = 50;
  retries = 0;
  tx_hash = some 3;
  fetched = true;
  origin = some MessageOrigin.p2p;
}

abbrev pub post_body : ℕ → ℕ → Content
post_body address time =
    post_content (record { address = address; time = time; type = named 1; ref = none; body = 0 })

abbrev pub post : Message
post = record {
  item_hash = 7;
  type = MessageType.post;
  chain = 1;
  sender = 5;
  signature = some 9;
  item_type = inline;
  content = post_body 5 100;
  time = 100;
  channel = none;
  size = 10;
}

abbrev pub no_files : FileTables
no_files = record { files = λ h. none; pins = []; tags = λ h. none }

abbrev pub pending_tables : Tables
pending_tables = record {
  messages = λ h. none;
  statuses = λ h. none;
  forgotten = λ h. none;
  rejected = λ h. none;
  confirmations = λ h tx. false;
  pending = pending_post ∷ [];
}

abbrev pub session : Tables → Session (Unit {0})
session t = record { tables = t; files = no_files; ext = tt }

-- A content handler that accepts every message and has no tables.
abbrev pub accepting : ContentHandler (Unit {0})
accepting = record {
  fetch_related_content = λ m s. ok s;
  check_dependencies = λ m s. ok tt;
  check_permissions = λ m s. ok tt;
  check_balance = λ m s. ok tt;
  process = λ m s. ok s;
  forget_message = λ m s. ok (s, []);
}
