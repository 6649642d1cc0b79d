-- ===== src/Jobs/Fetch.antt =====
-- src/aleph/jobs/fetch_pending_messages.py: the fetch of one pending message, and which messages the job
-- fetches at the same time.
pub mod Tasks
pub mod Commit
use py_aleph.Prelude.{
  ℕ, ◌+◌, ◌-◌, Bool, true, false, not, ◌&&◌, Option, none, some, List, [], ◌∷◌, ◌++◌, leb, ltb,
  ◌==◌, if◌then◌else◌, any, keep, map, length, bind,
}
use py_aleph.Status.{Error}
use py_aleph.Result.{Result, ok, raise}
use py_aleph.Node.{Message, Pending, Tables}
use py_aleph.Node.Accessors.{has_fetched, update_pending}
use py_aleph.Handler.{Session, HandlerEnv, verify_and_fetch}
use py_aleph.Jobs.{RetryEnv, handle_processing_error}
use py_aleph.Queries.{sort_by, take, drop}

-- `make_pending_message_fetched_statement`; the model has no column for the content.
unfoldable pub make_pending_message_fetched_statement : Pending → Tables → Tables
unfolding update_pending
make_pending_message_fetched_statement p t =
    update_pending p.id (λ row. record row { fetched = true; retries = 0 }) t

-- `get_next_pending_messages`.
unfoldable pub get_next_pending_messages : ℕ → ℕ → ℕ → Option Bool → List ℕ → Tables → List Pending
get_next_pending_messages current_time limit offset fetched exclude t = take limit (
    drop offset (
      sort_by (λ p q. ltb p.next_attempt q.next_attempt)
        (keep
          (λ p.
            leb p.next_attempt current_time
            && has_fetched fetched p
            && not (any (λ h. h == p.item_hash) exclude))
          t.pending)))

module _ {E : Type 0} (retries : RetryEnv) (handler : HandlerEnv E) where
  -- `PendingMessageFetcher.fetch_pending_message`: what is committed; an exception rolls back what the
  -- handler wrote.
  abbrev pub commit_fetch :
      ℕ → Pending → Session E → Result (Message × Session E) → Option Message × Session E
  commit_fetch now p s (ok (m, u)) =
      (some m, record u { tables = make_pending_message_fetched_statement p u.tables })
  commit_fetch now p s (raise e) =
      (none, record s { tables = (handle_processing_error retries now p e s.tables).1 })

  unfoldable pub fetch_pending_message : ℕ → Pending → Session E → Option Message × Session E
  unfolding make_pending_message_fetched_statement
  fetch_pending_message now p s = commit_fetch now p s (verify_and_fetch handler p s)

-- The tasks that run, each with its pending message, and `messages_being_fetched`.
pub record FetchState : Type 0 where
  pub tasks : List Pending
  pub being_fetched : List ℕ

abbrev pub is_being_fetched : ℕ → List ℕ → Bool
is_being_fetched h hashes = any (λ x. x == h) hashes

-- `set.remove`: a missing element raises.
pub remove : ℕ → List ℕ → Option (List ℕ)
remove h [] = none
remove h (x ∷ xs) =
    let rest = remove h xs in if x == h then some xs else bind rest λ ys. some (x ∷ ys)

pub remove_all : List Pending → List ℕ → Option (List ℕ)
unfolding remove
remove_all [] hashes = some hashes
remove_all (p ∷ ps) hashes = bind (remove p.item_hash hashes) (remove_all ps)

-- The finished tasks are taken away; `none` is the exception that ends the iteration.
unfoldable pub finish_tasks : (Pending → Bool) → FetchState → Option FetchState
unfolding remove_all
finish_tasks is_finished s = bind (remove_all (keep is_finished s.tasks) s.being_fetched) λ hashes.
    some (record { tasks = keep (λ p. not (is_finished p)) s.tasks; being_fetched = hashes })

-- The loop over the messages of the query.
abbrev pub start_task : Pending → FetchState → FetchState
start_task p s =
    if is_being_fetched p.item_hash s.being_fetched
    then s
    else record { tasks = p ∷ s.tasks; being_fetched = p.item_hash ∷ s.being_fetched }

abbrev pub start_tasks : List Pending → FetchState → FetchState
start_tasks [] s = s
start_tasks (p ∷ ps) s = start_tasks ps (start_task p s)

-- The second half of a round of `fetch_pending_messages`.
unfoldable pub schedule : ℕ → ℕ → Tables → FetchState → FetchState
unfolding get_next_pending_messages
schedule max_concurrent_tasks now t s =
    let running = length s.tasks in
    if ltb running max_concurrent_tasks
    then start_tasks
        (get_next_pending_messages now (max_concurrent_tasks - running) running (some false)
          s.being_fetched t)
        s
    else s

-- A round: tasks finish, at a time when any run, and others start.
unfoldable pub fetch_round : ℕ → ℕ → (Pending → Bool) → Tables → FetchState → Option FetchState
unfolding finish_tasks schedule
fetch_round max_concurrent_tasks now is_finished t s =
    bind (finish_tasks is_finished s) λ u. some (schedule max_concurrent_tasks now t u)

-- The job, with the finished tasks, the time and the tables of each of its rounds.
pub record Round : Type 0 where
  pub now : ℕ
  pub is_finished : Pending → Bool
  pub tables : Tables

pub fetch_rounds : ℕ → List Round → FetchState → Option FetchState
unfolding fetch_round
fetch_rounds max_concurrent_tasks [] s = some s
fetch_rounds max_concurrent_tasks (r ∷ rounds) s =
    bind (fetch_round max_concurrent_tasks r.now r.is_finished r.tables s)
      (fetch_rounds max_concurrent_tasks rounds)
