-- ===== src/Jobs/Retry.antt =====
-- The retry policy of job_utils.py.
use native.Mathlib.Nat.{pow-le-pow_right}
use py_aleph.Prelude.{
  ℕ, ◌+◌, ◌≤◌, ◌<◌, ◌≡◌, refl, true, false, not, ◌&&◌, List, [], ◌∷◌, arith, leb, ◌==◌,
  if◌then◌else◌, any, keep, map, Bool-cases, inl, inr,
}
use py_aleph.Status.{ErrorCode, Error, is_invalid_message, is_file_not_found, is_retry, error_code}
use py_aleph.Node.{Pending, Tables}
use py_aleph.Node.Accessors.{
  reject_existing_pending_message, delete_pending_message, update_pending,
  mark_pending_message_as_rejected,
}
use py_aleph.Handler.{ProcessingResult, processed_message, rejected_message, will_retry_message}
use py_aleph.Jobs.{
  compute_next_retry_interval, RetryEnv, schedule_next_attempt, before_retry, handle_rejection,
  handle_retry, handle_processing_error,
}

-- The interval before the next attempt is between 1 and 300 seconds, and does not shrink as the
-- attempts grow.
pub compute_next_retry_interval_bounds :
    (a b : ℕ)
    → a ≤ b
    → (1 ≤ compute_next_retry_interval a)
      × (compute_next_retry_interval a ≤ compute_next_retry_interval b)
      × (compute_next_retry_interval b ≤ 300)
unfolding compute_next_retry_interval
compute_next_retry_interval_bounds a b h = (
  omega (arith, pow-le-pow_right {n = 2} (omega arith) {i = 0} {j = a} (omega arith)),
  omega (arith, pow-le-pow_right {n = 2} (omega arith) h),
  omega arith,
)

interval_pos : (a : ℕ) → 1 ≤ compute_next_retry_interval a
interval_pos a = (compute_next_retry_interval_bounds a a (omega arith)).0

-- Every row with the id of `p`, changed to `r`.
abbrev replaced : Pending → Pending → List Pending → List Pending
replaced p r rows = map (λ q. if q.id == p.id then r else q) rows

any-removed :
    (id : ℕ) (ps : List Pending) → any (λ q. q.id == id) (keep (λ q. not (q.id == id)) ps) ≡ false
any-removed id [] = refl
any-removed id (p ∷ ps) = ground (arith, any-removed id ps)

-- What an error leaves of the pending message `p`: a rejection, and no row of its id; or a later
-- attempt with more retries, of a message that had not used all of them.
abbrev pub Handled : RetryEnv → ℕ → Pending → ProcessingResult × Tables → Type 0
Handled env now p (rejected_message q code, t) = any (λ row. row.id == p.id) t.pending ≡ false
Handled env now p (will_retry_message q code, t) =
    (p.retries < env.max_retries)
    × (p.retries < q.retries)
    × (now < q.next_attempt)
    × (q.id ≡ p.id)
    × (any (λ row. row.id == p.id && leb row.retries p.retries) t.pending ≡ false)
Handled env now p (processed_message m o c, t) = ⊥

module _ (env : RetryEnv) where
  before-id : (now : ℕ) (e : Error) (p : Pending) → (before_retry env now e p).id ≡ p.id
  unfolding before_retry schedule_next_attempt
  before-id now e p = ground arith

  before-retries :
      (now : ℕ) (e : Error) (p : Pending) → p.retries ≤ (before_retry env now e p).retries
  unfolding before_retry schedule_next_attempt
  before-retries now e p = ground (arith, env.refreshed_grows p.retries)

  handle_rejection-Handled :
      (now : ℕ) (p q : Pending) (e : Error) (t : Tables)
      → q.id ≡ p.id
      → Handled env now p (handle_rejection env now q e t)
  unfolding handle_rejection reject_existing_pending_message delete_pending_message
  handle_rejection-Handled now p q e t h = ground (
    arith,
    h,
    any-removed q.id t.pending,
    any-removed q.id (mark_pending_message_as_rejected now q.item_hash e q.tx_hash t).1.pending,
  )

  any-replaced :
      (p r : Pending) (rows : List Pending)
      → p.retries < r.retries
      → any (λ row. row.id == p.id && leb row.retries p.retries) (replaced p r rows) ≡ false
  any-replaced p r [] h = refl
  any-replaced p r (x ∷ xs) h = ground (arith, any-replaced p r xs h)

  scheduled-Handled :
      (now : ℕ) (p q : Pending) (code : ErrorCode) (t : Tables)
      → q.id ≡ p.id
      → p.retries ≤ q.retries
      → q.retries < env.max_retries
      → let r = schedule_next_attempt env now q in
        Handled env now p (will_retry_message r code, update_pending p.id (λ row. r) t)
  unfolding schedule_next_attempt update_pending
  scheduled-Handled now p q code t same more n = (
    omega (arith, more, n),
    omega (arith, more, env.refreshed_grows q.retries),
    omega (arith, interval_pos q.retries),
    same,
    any-replaced p (schedule_next_attempt env now q) t.pending
        (omega (arith, more, env.refreshed_grows q.retries)),
  )

  handle_retry-Handled :
      (now : ℕ) (p : Pending) (e : Error) (t : Tables)
      → Handled env now p (handle_retry env now p e t)
  unfolding handle_retry
  handle_retry-Handled now p e t =
      let q = before_retry env now e p in
      elim (Bool-cases (leb env.max_retries q.retries)) [
        | inl y ↦ rw y (handle_rejection-Handled now p q e t (before-id now e p))
        | inr n ↦ rw n (
            scheduled-Handled now p q (error_code e) t (before-id now e p) (before-retries now e p)
              (ground (arith, n)))
      ]

  -- Whatever went wrong with a pending message, either it is rejected and no pending row has its id,
  -- or it had retries left, keeps its id, is tried again at a later time, and has used up at least one
  -- more of them, in its row too.
  pub handle_processing_error-Handled :
      (now : ℕ) (p : Pending) (e : Error) (t : Tables)
      → Handled env now p (handle_processing_error env now p e t)
  unfolding handle_processing_error
  handle_processing_error-Handled now p e t = elim (Bool-cases (is_invalid_message e)) [
    | inl y ↦ rw y (handle_rejection-Handled now p p e t refl)
    | inr n ↦ rw n (handle_retry-Handled now p e t)
  ]

  -- A retry exception that is not about a file is scheduled twice: if the message is tried again, it
  -- has lost at least two retries at once, and waits for the interval after the first of them.
  pub handle_retry-twice :
      (now : ℕ) (p q : Pending) (e : Error) (code : ErrorCode) (t : Tables)
      → is_retry e ≡ true
      → is_file_not_found e ≡ false
      → (handle_retry env now p e t).0 ≡ will_retry_message q code
      → (p.retries + 2 ≤ q.retries)
        × (q.next_attempt ≡ now + compute_next_retry_interval (env.refreshed p.retries + 1))
  unfolding handle_retry before_retry schedule_next_attempt handle_rejection
  handle_retry-twice now p q e code t y n h =
      ground
        (arith, env.refreshed_grows p.retries, env.refreshed_grows (env.refreshed p.retries + 1))
