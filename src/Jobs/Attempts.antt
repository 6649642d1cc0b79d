-- ===== src/Jobs/Attempts.antt =====
-- How often a pending message is tried, by the job that fetches (fetch_pending_messages.py) and the one
-- that processes (process_pending_messages.py), which take turns with it by its column `fetched`.
use py_aleph.Prelude.{
  ℕ, zero, suc, ◌<◌, ◌≡◌, refl, Bool, true, false, Option, none, some, List, [], ◌∷◌, arith, leb,
}
use py_aleph.Status.{Error, is_invalid_message, is_file_not_found, error_code}
use py_aleph.Node.{Pending, Tables}
use py_aleph.Node.Accessors.{update_pending}
use py_aleph.Handler.{ProcessingResult, processed_message, rejected_message, will_retry_message}
use py_aleph.Jobs.{
  RetryEnv, schedule_next_attempt, before_retry, handle_retry, handle_processing_error,
}
use py_aleph.Jobs.Fetch.{make_pending_message_fetched_statement}

-- An attempt of the job that has the message at the time: it fails, or the message is fetched.
pub data Attempt : Type 0 where
  fails : ℕ → Error → Attempt
  fetches : Attempt

abbrev pub failures : List Attempt → ℕ
failures [] = 0
failures (fails now e ∷ rest) = suc (failures rest)
failures (fetches ∷ rest) = failures rest

-- The failure is not that a file was not found.
abbrev pub IsOther : Attempt → Type 0
IsOther (fails now e) = is_file_not_found e ≡ false
IsOther fetches = Unit

-- The job that fetches takes rows only that are not fetched.
abbrev after_fetch : Bool → Pending → Tables → (Pending → Tables → Option Pending) → Option Pending
after_fetch true p t k = k p t
after_fetch false p t k =
    k (record p { fetched = true; retries = 0 }) (make_pending_message_fetched_statement p t)

-- Go on with a message that is to be tried again.
abbrev try_again : ProcessingResult → (Pending → Option Pending) → Option Pending
try_again (will_retry_message q code) k = k q
try_again (rejected_message q code) k = none
try_again (processed_message m o c) k = none

module _ (env : RetryEnv) where
  -- The pending message that is left after the attempts, if any is.
  pub after_attempts : List Attempt → Pending → Tables → Option Pending
  after_attempts [] p t = some p
  after_attempts (fails now e ∷ rest) p t =
      let (r, u) = handle_processing_error env now p e t in
      try_again r (λ q. after_attempts rest q u)
  after_attempts (fetches ∷ rest) p t = after_fetch p.fetched p t (λ q u. after_attempts rest q u)

  -- A message that is tried again is as fetched as it was.
  abbrev KeepsFetched : Pending → ProcessingResult → Type 0
  KeepsFetched p (will_retry_message q code) = q.fetched ≡ p.fetched
  KeepsFetched p (rejected_message q code) = Unit
  KeepsFetched p (processed_message m o c) = Unit

  -- n rounds of a file that is not found by the one job and is fetched by the other.
  abbrev pub rounds : ℕ → ℕ → Error → List Attempt
  rounds zero now e = []
  rounds (suc n) now e = fails now e ∷ (fetches ∷ rounds n now e)

  -- A message whose file is not found goes back to the job that fetches.
  handle_processing_error-back :
      (now : ℕ) (p : Pending) (e : Error) (t : Tables)
      → is_invalid_message e ≡ false
      → is_file_not_found e ≡ true
      → p.retries < env.max_retries
      → let r = schedule_next_attempt env now (record p { fetched = false }) in
        handle_processing_error env now p e t
        ≡ (will_retry_message r (error_code e), update_pending p.id (λ row. r) t)
  unfolding handle_processing_error handle_retry before_retry
  handle_processing_error-back now p e t v f h =
      let few : leb env.max_retries p.retries ≡ false = ground (arith, h) in rw (v, f, few) refl

  -- A message with no retries used whose file is found by the job that fetches, and not by the one that
  -- processes, is tried again however often that happens, and has used no retries then.
  pub after_attempts-again :
      (n now : ℕ) (e : Error) (p : Pending) (t : Tables)
      → is_invalid_message e ≡ false
      → is_file_not_found e ≡ true
      → 0 < env.max_retries
      → p.retries ≡ 0
      → (q : Pending) × (after_attempts (rounds n now e) p t ≡ some q) × (q.retries ≡ 0)
  unfolding after_attempts schedule_next_attempt
  after_attempts-again zero now e p t v f h z = (p, refl, z)
  after_attempts-again (suc n) now e p t v f h z =
      let r = schedule_next_attempt env now (record p { fetched = false }) in
      let back = handle_processing_error-back now p e t v f (omega (arith, z, h)) in
      let u = make_pending_message_fetched_statement r (update_pending p.id (λ row. r) t) in
      let (q, eq, zero_again) =
        after_attempts-again n now e (record r { fetched = true; retries = 0 }) u v f h refl in
      (q, rw back eq, zero_again)
