-- ===== src/Node/Accessors.antt =====
-- src/aleph/db/accessors/messages.py and pending_messages.py: the statements on the message tables.
use py_aleph.Prelude.{
  ℕ, min, Bool, true, false, not, ◌&&◌, ◌||◌, Option, none, some, List, [], ◌∷◌, ◌++◌, map, leb,
  ltb, ◌==◌, if◌then◌else◌, keep, any,
}
use py_aleph.Status.{MessageStatus, Error, error_code}
use py_aleph.Result.{Result, ok, raise}
use py_aleph.Node.{Message, StatusRow, Forgotten, Rejected, Pending, Tables, put}

pub is_some {ℓ} : {A : Type ℓ} → Option A → Bool
is_some none = false
is_some (some _) = true

unfoldable pub get_message_by_item_hash : Tables → ℕ → Option Message
get_message_by_item_hash t item_hash = t.messages item_hash

unfoldable pub message_exists : Tables → ℕ → Bool
unfolding is_some
message_exists t item_hash = is_some (t.messages item_hash)

unfoldable pub get_message_status : Tables → ℕ → Option StatusRow
get_message_status t item_hash = t.statuses item_hash

unfoldable pub get_forgotten_message : Tables → ℕ → Option Forgotten
get_forgotten_message t item_hash = t.forgotten item_hash

-- `make_message_upsert_query`: a message that is there keeps all but the later time.
abbrev merge_time : Option Message → Message → Message
merge_time none m = m
merge_time (some old) m = record old { time = min old.time m.time }

unfoldable pub upsert_message : Message → Tables → Tables
upsert_message m t = record t {
  messages = put t.messages m.item_hash (some (merge_time (t.messages m.item_hash) m));
}

unfoldable pub upsert_confirmation : ℕ → ℕ → Tables → Tables
upsert_confirmation item_hash tx_hash t = record t {
  confirmations = put t.confirmations item_hash (put (t.confirmations item_hash) tx_hash true);
}

-- The row that `make_message_status_upsert_query` leaves: a new one, or the old one updated if its
-- status passes `where`.
abbrev upsert_row : (MessageStatus → Bool) → MessageStatus → ℕ → Option StatusRow → StatusRow
upsert_row where_ new_status reception_time none = record {
  status = new_status;
  reception_time = reception_time;
}
upsert_row where_ new_status reception_time (some row) =
    if where_ row.status
    then record { status = new_status; reception_time = min row.reception_time reception_time }
    else row

unfoldable pub upsert_message_status :
    ℕ → MessageStatus → ℕ → (MessageStatus → Bool) → Tables → Tables
upsert_message_status item_hash new_status reception_time where_ t = record t {
  statuses =
      put t.statuses item_hash
        (some (upsert_row where_ new_status reception_time (t.statuses item_hash)));
}

abbrev pub is_pending : MessageStatus → Bool
is_pending MessageStatus.pending = true
is_pending _ = false

abbrev pub is_rejected : MessageStatus → Bool
is_rejected MessageStatus.rejected = true
is_rejected _ = false

abbrev pub is_processed : MessageStatus → Bool
is_processed MessageStatus.processed = true
is_processed _ = false

abbrev pub is_forgotten : MessageStatus → Bool
is_forgotten MessageStatus.forgotten = true
is_forgotten _ = false

-- `delete_pending_message`.
unfoldable pub delete_pending_message : Pending → Tables → Tables
delete_pending_message p t = record t { pending = keep (λ q. not (q.id == p.id)) t.pending }

-- The row that `forget_message` copies.
abbrev forgotten_row : Message → ℕ → Forgotten
forgotten_row m forget_message_hash = record {
  item_hash = m.item_hash;
  type = m.type;
  chain = m.chain;
  sender = m.sender;
  signature = m.signature;
  item_type = m.item_type;
  time = m.time;
  channel = m.channel;
  forgotten_by = forget_message_hash ∷ [];
}

abbrev mark_forgotten : Option StatusRow → Option StatusRow
mark_forgotten none = none
mark_forgotten (some row) = some (record row { status = MessageStatus.forgotten })

-- The four statements of `forget_message` after the copy.
abbrev drop_message : ℕ → Tables → Tables
drop_message item_hash t = record t {
  statuses = put t.statuses item_hash (mark_forgotten (t.statuses item_hash));
  confirmations = put t.confirmations item_hash (λ tx. false);
  messages = put t.messages item_hash none;
}

-- The copy is of no row if the message is not there, and breaks the primary key if the table of
-- forgotten messages has the hash.
abbrev copy_row : Option Message → Option Forgotten → ℕ → ℕ → Tables → Result Tables
copy_row none f item_hash by t = ok t
copy_row (some m) (some f) item_hash by t = raise Error.other
copy_row (some m) none item_hash by t =
    ok (record t { forgotten = put t.forgotten item_hash (some (forgotten_row m by)) })

abbrev then_drop : ℕ → Result Tables → Result Tables
then_drop item_hash (ok t) = ok (drop_message item_hash t)
then_drop item_hash (raise e) = raise e

-- `forget_message`.
unfoldable pub forget_message : ℕ → ℕ → Tables → Result Tables
forget_message item_hash forget_message_hash t =
    then_drop item_hash
      (copy_row (t.messages item_hash) (t.forgotten item_hash) item_hash forget_message_hash t)

abbrev add_forgotten_by : ℕ → Option Forgotten → Option Forgotten
add_forgotten_by by none = none
add_forgotten_by by (some f) = some (record f { forgotten_by = f.forgotten_by ++ (by ∷ []) })

unfoldable pub append_to_forgotten_by : ℕ → ℕ → Tables → Tables
append_to_forgotten_by item_hash forget_hash t = record t {
  forgotten = put t.forgotten item_hash (add_forgotten_by forget_hash (t.forgotten item_hash));
}

-- `mark_pending_message_as_rejected`, at the time `now`.
unfoldable pub mark_pending_message_as_rejected :
    ℕ → ℕ → Error → Option ℕ → Tables → Rejected × Tables
unfolding upsert_message_status error_code
mark_pending_message_as_rejected now item_hash exception tx_hash t =
    let row : Rejected = record {
      item_hash = item_hash;
      error_code = error_code exception;
      tx_hash = tx_hash;
    } in
    let t' = upsert_message_status item_hash MessageStatus.rejected now is_pending t in
    (row, record t' { rejected = put t'.rejected item_hash (some row) })

-- `reject_new_pending_message`, for a message that has an item hash.
abbrev is_settled : Option StatusRow → Bool
is_settled none = false
is_settled (some row) = not (is_rejected row.status)

unfoldable pub reject_new_pending_message :
    ℕ → ℕ → Error → Option ℕ → Tables → Option Rejected × Tables
unfolding mark_pending_message_as_rejected
reject_new_pending_message now item_hash exception tx_hash t =
    if is_settled (t.statuses item_hash)
    then (none, t)
    else let (row, t') = mark_pending_message_as_rejected now item_hash exception tx_hash t in
      (some row, t')

-- `reject_existing_pending_message`.
abbrev is_final : Option StatusRow → Bool
is_final none = false
is_final (some row) = not (is_pending row.status || is_rejected row.status)

unfoldable pub reject_existing_pending_message :
    ℕ → Pending → Error → Tables → Option Rejected × Tables
unfolding mark_pending_message_as_rejected delete_pending_message
reject_existing_pending_message now p exception t =
    if is_final (t.statuses p.item_hash)
    then (none, delete_pending_message p t)
    else (let (row, t') = mark_pending_message_as_rejected now p.item_hash exception p.tx_hash t in
        (some row, delete_pending_message p t'))

-- `get_next_pending_message`: the first due row by `next_attempt`. Of equal times the database may
-- return any; the model takes the first of the table.
abbrev pub earlier : Option Pending → Pending → Option Pending
earlier none p = some p
earlier (some q) p = if ltb p.next_attempt q.next_attempt then some p else some q

abbrev pub earliest_from : Option Pending → List Pending → Option Pending
earliest_from best [] = best
earliest_from best (p ∷ ps) = earliest_from (earlier best p) ps

abbrev pub same_bool : Bool → Bool → Bool
same_bool true b = b
same_bool false b = not b

abbrev pub has_fetched : Option Bool → Pending → Bool
has_fetched none p = true
has_fetched (some b) p = same_bool b p.fetched

unfoldable pub get_next_pending_message : ℕ → Option Bool → List ℕ → Tables → Option Pending
get_next_pending_message current_time fetched exclude t = earliest_from none (
    keep
      (λ p.
        leb p.next_attempt current_time
        && has_fetched fetched p
        && not (any (λ h. h == p.item_hash) exclude))
      t.pending)

-- `set_next_retry` and the later writes of attributes of the same row, as one update of the row.
unfoldable pub update_pending : ℕ → (Pending → Pending) → Tables → Tables
update_pending id f t = record t { pending = map (λ p. if p.id == id then f p else p) t.pending }
