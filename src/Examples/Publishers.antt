-- ===== src/Examples/Publishers.antt =====
-- Runs of the publisher.
use py_aleph.Prelude.{◌≤◌, ◌≡◌, refl, true, false, none, some, [], ◌∷◌}
use py_aleph.Status.{MessageOrigin, MessageStatus}
use py_aleph.Result.{ok}
use py_aleph.Node.{MessageType, inline, Pending, Tables}
use py_aleph.Node.Accessors.{is_rejected, upsert_message_status}
use py_aleph.Node.Consistent.{IsConsistent}
use py_aleph.Handler.{HandlerEnv, RawContent, found, from_pending_message}
use py_aleph.Publisher.{
  RawMessage, Parsed, PublisherEnv, Source, parse_message, from_obj, load_fetched_content,
  add_pending_message,
}
use py_aleph.Publisher.Parse.{raw_of, parse_message-IsSound}
use py_aleph.Publisher.Admits.{IsDistinct, add_pending_message-Keeps}
use py_aleph.Examples.{accepting, post_body}

-- Texts are their own hashes here.
abbrev pub env : PublisherEnv
env = record {
  item_type_from_hash = λ h. none;
  text_length = λ text. 12;
  is_json = λ text. true;
  sha256 = λ text. text;
  is_content = λ type text. true;
  is_tx = λ tx. false;
  is_related_content_fetched = λ message. true;
}

abbrev pub raw : RawMessage
raw = record {
  type = some MessageType.post;
  item_hash = some 7;
  item_content = some 7;
  item_type = none;
  fields = some (record { chain = 1; sender = 5; signature = some 9; time = 100; channel = none });
}

abbrev parsed : Parsed
parsed = record {
  type = MessageType.post;
  item_hash = 7;
  item_content = some 7;
  item_type = inline;
  fields = record { chain = 1; sender = 5; signature = some 9; time = 100; channel = none };
}

run_parse : parse_message env raw ≡ ok parsed
unfolding parse_message
run_parse = refl

parse_message-IsSound_example :
    ((12 ≤ 200000) × (true ≡ true) × (parsed.item_hash ≡ 7) × (true ≡ true))
    × (parse_message env (raw_of parsed) ≡ ok parsed)
parse_message-IsSound_example = parse_message-IsSound env raw parsed run_parse

abbrev raw_content : RawContent
raw_content = record {
  address = some 5;
  time = some 100;
  validate = λ type address time. some (post_body address time);
  size = 10;
}

abbrev pub handlers : HandlerEnv (Unit {0})
handlers = record {
  verify = λ p. ok tt;
  get_message_content = λ p. found raw_content;
  content_handlers = λ type. accepting;
}

abbrev source : Source
source = record {
  reception_time = 101;
  tx_hash = none;
  check_message = true;
  origin = some MessageOrigin.p2p;
}

abbrev pub empty : Tables
empty = record {
  messages = λ h. none;
  statuses = λ h. none;
  forgotten = λ h. none;
  rejected = λ h. none;
  confirmations = λ h tx. false;
  pending = [];
}

-- The row of the message.
abbrev row : Pending
row = record {
  id = 1;
  item_hash = 7;
  type = MessageType.post;
  chain = 1;
  sender = 5;
  signature = some 9;
  item_type = inline;
  time = 100;
  channel = none;
  reception_time = 101;
  check_message = true;
  next_attempt = 100;
  retries = 0;
  tx_hash = none;
  fetched = true;
  origin = some MessageOrigin.p2p;
}

abbrev admitted : Tables
admitted =
    let t : Tables = upsert_message_status 7 MessageStatus.pending 101 is_rejected empty in
    record t { pending = row ∷ [] }

run_add : add_pending_message env handlers 1 150 raw source empty ≡ ok (some row, admitted)
unfolding add_pending_message parse_message from_obj load_fetched_content from_pending_message
    upsert_message_status
run_add = refl

add_pending_message-Keeps_example : IsConsistent admitted × IsDistinct admitted.pending
add_pending_message-Keeps_example =
    add_pending_message-Keeps env handlers 1 150 raw source empty admitted (some row) run_add
      (record { at = λ h. tt }) tt
