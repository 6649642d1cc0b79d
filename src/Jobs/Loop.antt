-- ===== src/Jobs/Loop.antt =====
-- The loop of process_pending_messages.py over the pending messages: what it keeps.
use mathlib.Core.Path.{}
use py_aleph.Prelude.{ℕ, Option, none, some, arith}
use py_aleph.Status.{Error}
use py_aleph.Result.{Result}
use py_aleph.Node.{Pending, Tables}
use py_aleph.Node.Consistent.{
  IsConsistent, reject_existing-IsConsistent, update_pending-IsConsistent,
}
use py_aleph.Handler.{Session, HandlerEnv, ProcessingResult}
use py_aleph.Handler.Process.{KeepsTables}
use py_aleph.Jobs.{
  RetryEnv, before_retry, schedule_next_attempt, handle_rejection, handle_retry,
  handle_processing_error,
}

module _ (env : RetryEnv) where
  pub handle_error-IsConsistent :
      (now : ℕ) (p : Pending) (e : Error) (t : Tables)
      → IsConsistent t
      → IsConsistent (handle_processing_error env now p e t).1
  unfolding handle_processing_error handle_retry handle_rejection
  handle_error-IsConsistent now p e t c = ground (
    arith,
    reject_existing-IsConsistent now p e t c,
    reject_existing-IsConsistent now (before_retry env now e p) e t c,
    update_pending-IsConsistent p.id
        (λ row. schedule_next_attempt env now (before_retry env now e p)) t c,
  )

  module _ {E : Type 0} (handler : HandlerEnv E) (k : KeepsTables handler) where
    -- A round, whether it processes, confirms, rejects or reschedules a message.
    abbrev NextConsistent : Option (ProcessingResult × Session E) → Type 0
    NextConsistent none = Unit
    NextConsistent (some (r, s)) = IsConsistent s.tables
