-- ===== src/Jobs.antt =====
-- src/aleph/jobs/job_utils.py and process_pending_messages.py: retries, and the loop over the pending
-- messages.
pub mod Retry
pub mod Loop
pub mod Fetch
pub mod Attempts
use py_aleph.Prelude.{
  ℕ, zero, suc, ◌+◌, ◌^◌, min, Bool, true, false, not, Option, none, some, List, [], ◌∷◌, leb, ◌==◌,
  if◌then◌else◌,
}
use py_aleph.Status.{ErrorCode, Error, is_invalid_message, is_file_not_found, is_retry, error_code}
use py_aleph.Result.{Result, ok, raise}
use py_aleph.Node.{Pending, Rejected, Tables}
use py_aleph.Node.Accessors.{
  reject_existing_pending_message, get_next_pending_message, update_pending,
}
use py_aleph.Handler.{
  Session, HandlerEnv, ProcessingResult, rejected_message, will_retry_message, process,
}

-- `MAX_RETRY_INTERVAL`, in seconds.
abbrev pub max_retry_interval : ℕ
max_retry_interval = 300

unfoldable pub compute_next_retry_interval : ℕ → ℕ
compute_next_retry_interval attempts = min (2 ^ attempts) max_retry_interval

-- What the session and the configuration give: the number of retries allowed, and the value of
-- `retries` that the session's object has after the UPDATE statement of `set_next_retry`, by which
-- SQLAlchemy may or may not refresh it.
pub record RetryEnv : Type 0 where
  pub max_retries : ℕ
  pub refreshed : ℕ → ℕ
  pub refreshed_grows : (n : ℕ) → py_aleph.Prelude.◌≤◌ n (refreshed n)

module _ (env : RetryEnv) where
  -- `schedule_next_attempt`: the object, whose changed attributes the session writes to its row.
  unfoldable pub schedule_next_attempt : ℕ → Pending → Pending
  unfolding compute_next_retry_interval
  schedule_next_attempt now p = record p {
    next_attempt = now + compute_next_retry_interval p.retries;
    retries = env.refreshed p.retries + 1;
  }

  -- The first part of `_handle_retry`: the object after it.
  unfoldable pub before_retry : ℕ → Error → Pending → Pending
  before_retry now exception p =
      if is_file_not_found exception
      then record p { fetched = false }
      else if is_retry exception
      then schedule_next_attempt now p
      else p

  abbrev pub code_or : Option Rejected → Error → ErrorCode
  code_or none exception = error_code exception
  code_or (some row) exception = row.error_code

  -- `_handle_rejection`.
  unfoldable pub handle_rejection : ℕ → Pending → Error → Tables → ProcessingResult × Tables
  handle_rejection now p exception t =
      let (row, t') = reject_existing_pending_message now p exception t in
      (rejected_message p (code_or row exception), t')

  -- `_handle_retry`.
  unfoldable pub handle_retry : ℕ → Pending → Error → Tables → ProcessingResult × Tables
  handle_retry now p exception t =
      let q = before_retry now exception p in
      if leb env.max_retries q.retries
      then handle_rejection now q exception t
      else (let r = schedule_next_attempt now q in
          (will_retry_message r (error_code exception), update_pending p.id (λ row. r) t))

  -- `handle_processing_error`.
  unfoldable pub handle_processing_error : ℕ → Pending → Error → Tables → ProcessingResult × Tables
  handle_processing_error now p exception t =
      if is_invalid_message exception
      then handle_rejection now p exception t
      else handle_retry now p exception t

  module _ {E : Type 0} (handler : HandlerEnv E) where
    -- What is committed: the new session, or the old one with the error handled.
    abbrev pub commit :
        ℕ
        → Pending
        → Session E
        → Result (ProcessingResult × Session E)
        → ProcessingResult × Session E
    commit now p s (ok (r, s')) = (r, s')
    commit now p s (raise e) =
        let (r, t) = handle_processing_error now p e s.tables in (r, record s { tables = t })

    abbrev pub round_on : ℕ → Session E → Option Pending → Option (ProcessingResult × Session E)
    round_on now s none = none
    round_on now s (some p) = some (commit now p s (process handler p s))

    -- One round of `process_messages` at the time `now`: `none` ends the loop.
    unfoldable pub process_next : ℕ → Session E → Option (ProcessingResult × Session E)
    process_next now s = round_on now s (get_next_pending_message now (some true) [] s.tables)

    -- The loop ends at the first round with nothing to do.
    abbrev pub go_on :
        Session E
        → Option (ProcessingResult × Session E)
        → (Session E → List ProcessingResult × Session E)
        → List ProcessingResult × Session E
    go_on s none rest = ([], s)
    go_on s (some (r, s')) rest = let (rs, s'') = rest s' in (r ∷ rs, s'')

    -- `process_messages`: one round at each of the given times, until nothing is due.
    unfoldable pub process_messages : List ℕ → Session E → List ProcessingResult × Session E
    process_messages [] s = ([], s)
    process_messages (now ∷ later) s =
        go_on s (process_next now s) (λ s'. process_messages later s')
