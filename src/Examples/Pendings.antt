-- ===== src/Examples/Pendings.antt =====
-- Runs of message_handler.py, job_utils.py and process_pending_messages.py.
use mathlib.Core.Path.{subst}
use py_aleph.Prelude.{◌≡◌, ◌≤◌, refl, true, none, some, [], arith}
use py_aleph.Status.{MessageOrigin, MessageStatus}
use py_aleph.Result.{ok}
use py_aleph.Node.{StatusRow, Pending, Tables}
use py_aleph.Node.Accessors.{get_message_by_item_hash, get_forgotten_message}
use py_aleph.Node.Accessors.{get_next_pending_message}
use py_aleph.Node.Next.{is_due, get_next_pending_message-earliest}
use py_aleph.Node.Consistent.{IsConsistent}
use py_aleph.Handler.{
  Session, HandlerEnv, found, from_pending_message, verify_signature, verify_and_fetch, process_new,
  process, insert_message, insert_rows, will_retry_message,
}
use py_aleph.Handler.Process.{KeepsTables, process-verified}
use py_aleph.Jobs.{RetryEnv}
use py_aleph.Examples.{pending_post, post_body, post, pending_tables, session, accepting}

abbrev pub env : HandlerEnv (Unit {0})
env = record {
  verify = λ p. ok tt;
  get_message_content = λ p. found (record {
    address = none;
    time = none;
    validate = λ type address time. some (post_body address time);
    size = 10;
  });
  content_handlers = λ type. accepting;
}

pub keeps : KeepsTables env
keeps = record {
  fetch_same = λ type m s s' e. cc (e);
  process_consistent = λ type m s s' e c.
      subst (λ (x : Session (Unit {0})). IsConsistent x.tables) {x = s} {y = s'} (cc (e)) c;
}

pub pending-IsConsistent : IsConsistent pending_tables
pending-IsConsistent = record { at = λ h. tt }

abbrev pub retry : RetryEnv
retry = record { max_retries = 10; refreshed = λ n. n; refreshed_grows = λ n. omega arith }

process-verified_example :
    (verify_signature env pending_post ≡ ok tt)
    × (post.item_hash ≡ 7)
    × (post.sender ≡ 5)
    × (pending_tables.messages 7 ≡ none)
    × (pending_tables.forgotten 7 ≡ none)
unfolding process process_new verify_and_fetch from_pending_message insert_message
    get_message_by_item_hash get_forgotten_message
process-verified_example =
    process-verified env pending_post (session pending_tables)
      (session (insert_rows pending_post post pending_tables)) post (some MessageOrigin.p2p) refl

abbrev rejected_row : StatusRow
rejected_row = record { status = MessageStatus.rejected; reception_time = 90 }

abbrev rejected_tables : Tables
rejected_tables = record pending_tables { statuses = λ h. some rejected_row }

abbrev retried : Pending
retried = record pending_post { next_attempt = 62; retries = 2 }

get_next_pending_message-earliest_example :
    (p : Pending) × (get_next_pending_message 60 (some true) [] pending_tables ≡ some p)
    × (is_due 60 (some true) [] p ≡ true)
    × (p.next_attempt ≤ 50)
get_next_pending_message-earliest_example =
    get_next_pending_message-earliest 60 (some true) [] pending_tables [] pending_post [] refl refl
