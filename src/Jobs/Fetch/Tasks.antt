-- ===== src/Jobs/Fetch/Tasks.antt =====
-- That the job never fetches one message twice at a time, nor more messages than it may, and what it
-- keeps of the tables.
use py_aleph.Prelude.{
  ℕ, zero, suc, ◌+◌, ◌-◌, ◌≤◌, ◌≡◌, refl, ◌∙◌, sym, ap, Bool, false, not, some, List, [], ◌∷◌,
  arith, ltb, leb, ◌&&◌, ◌==◌, any, keep, map, length, bind, Bool-cases, Option-cases, inl, inr,
  ==-refl,
}
use py_aleph.Prelude.Keys.{IsUnique, IsUnique-keep, any-keep}
use py_aleph.Node.{Pending, Tables}
use py_aleph.Node.Accessors.{has_fetched}
use py_aleph.Queries.{take, drop, sort_by}
use py_aleph.Queries.Sort.{length-sort_by}
use py_aleph.Queries.Pages.{length-take}
use py_aleph.Jobs.Fetch.{
  FetchState, is_being_fetched, remove, remove_all, finish_tasks, start_task, start_tasks, schedule,
  get_next_pending_messages, fetch_round, Round, fetch_rounds,
}

-- The hashes being fetched are those of the tasks, no two of which have the same.
pub record IsInSync (s : FetchState) : Type 0 where
  pub hashes : s.being_fetched ≡ map (λ p. p.item_hash) s.tasks
  pub unique : IsUnique (λ p. p.item_hash) s.tasks

any-hashes :
    (h : ℕ) (ps : List Pending)
    → any (λ x. x == h) (map (λ p. p.item_hash) ps) ≡ any (λ p. p.item_hash == h) ps
any-hashes h [] = refl
any-hashes h (p ∷ ps) = rw (any-hashes h ps) refl

-- Taking the first task away.
remove_first : (h : ℕ) (xs : List ℕ) → remove h (h ∷ xs) ≡ some xs
unfolding remove
remove_first h xs = rw (==-refl h) refl

-- An element that no removed task has stays.
remove_all-skip :
    (x : ℕ) (gone : List Pending) (xs ys : List ℕ)
    → any (λ p. p.item_hash == x) gone ≡ false
    → remove_all gone xs ≡ some ys
    → remove_all gone (x ∷ xs) ≡ some (x ∷ ys)
unfolding remove_all remove
remove_all-skip x [] xs ys n e = ap (λ o. bind o λ l. some (x ∷ l)) e
remove_all-skip x (p ∷ gone) xs ys n e =
    let other : (x == p.item_hash) ≡ false = ground (arith, n) in
    let others : any (λ q. q.item_hash == x) gone ≡ false = ground (arith, n) in
    elim (Option-cases (remove p.item_hash xs)) [
      | inl missing ↦ absurd (cc (rw missing at e))
      | inr (zs, found) ↦
          (let rest : remove_all gone zs ≡ some ys = rw found at e in
            rw (other, found) (remove_all-skip x gone zs ys others rest))
    ]

remove_all-keep :
    (f : Pending → Bool) (ps : List Pending)
    → IsUnique (λ p. p.item_hash) ps
    → remove_all (keep f ps) (map (λ p. p.item_hash) ps)
      ≡ some (map (λ p. p.item_hash) (keep (λ p. not (f p)) ps))
unfolding remove_all
remove_all-keep f [] u = refl
remove_all-keep f (p ∷ ps) u = elim (Bool-cases (f p)) [
  | inl done ↦
      rw done (rw (remove_first p.item_hash (map (λ q. q.item_hash) ps)) (remove_all-keep f ps u.1))
  | inr runs ↦ rw runs (
      remove_all-skip p.item_hash (keep f ps) (map (λ q. q.item_hash) ps)
        (map (λ q. q.item_hash) (keep (λ q. not (f q)) ps))
        (any-keep (λ q. q.item_hash) (λ q. q.item_hash == p.item_hash) f ps u.0)
        (remove_all-keep f ps u.1))
]

length-keep : (f : Pending → Bool) (ps : List Pending) → length (keep f ps) ≤ length ps
length-keep f [] = omega arith
length-keep f (p ∷ ps) = ground (arith, length-keep f ps)

-- Taking away the finished tasks raises nothing.
finish_tasks-IsInSync :
    (f : Pending → Bool) (s : FetchState)
    → IsInSync s
    → (u : FetchState) × (finish_tasks f s ≡ some u)
      × IsInSync u
      × (length u.tasks ≤ length s.tasks)
unfolding finish_tasks
finish_tasks-IsInSync f s i =
    let tasks = keep (λ p. not (f p)) s.tasks in
    let u : FetchState = record { tasks = tasks; being_fetched = map (λ p. p.item_hash) tasks } in
    (
      u,
      rw i.hashes (rw (remove_all-keep f s.tasks i.unique) refl),
      record {
        hashes = refl;
        unique = IsUnique-keep (λ p. p.item_hash) (λ p. not (f p)) s.tasks i.unique;
      },
      length-keep (λ p. not (f p)) s.tasks,
    )

start_task-IsInSync : (p : Pending) (s : FetchState) → IsInSync s → IsInSync (start_task p s)
start_task-IsInSync p s i = elim (Bool-cases (is_being_fetched p.item_hash s.being_fetched)) [
  | inl already ↦ rw already i
  | inr new ↦
      (let fresh : any (λ q. q.item_hash == p.item_hash) s.tasks ≡ false =
          sym (any-hashes p.item_hash s.tasks) ∙ (rw i.hashes at new) in
        rw new (record { hashes = ap (λ l. p.item_hash ∷ l) i.hashes; unique = (fresh, i.unique) }))
]

length-start_task :
    (p : Pending) (s : FetchState) → length (start_task p s).tasks ≤ 1 + length s.tasks
length-start_task p s = ground arith

start_tasks-IsInSync :
    (ps : List Pending) (s : FetchState) → IsInSync s → IsInSync (start_tasks ps s)
start_tasks-IsInSync [] s i = i
start_tasks-IsInSync (p ∷ ps) s i =
    start_tasks-IsInSync ps (start_task p s) (start_task-IsInSync p s i)

length-start_tasks :
    (ps : List Pending) (s : FetchState)
    → length (start_tasks ps s).tasks ≤ length ps + length s.tasks
length-start_tasks [] s = omega arith
length-start_tasks (p ∷ ps) s =
    let h = length-start_tasks ps (start_task p s) in let g = length-start_task p s in omega arith

schedule-IsInSync :
    (max_concurrent_tasks now : ℕ) (t : Tables) (s : FetchState)
    → IsInSync s
    → length s.tasks ≤ max_concurrent_tasks
    → let u = schedule max_concurrent_tasks now t s in
      IsInSync u × (length u.tasks ≤ max_concurrent_tasks)
unfolding schedule get_next_pending_messages
schedule-IsInSync max_concurrent_tasks now t s i h =
    elim (Bool-cases (ltb (length s.tasks) max_concurrent_tasks)) [
      | inr full ↦ rw full (i, h)
      | inl free ↦
          (let next =
              get_next_pending_messages now (max_concurrent_tasks - length s.tasks) (length s.tasks)
                (some false) s.being_fetched t in
            let few : length next ≤ max_concurrent_tasks - length s.tasks =
              length-take (max_concurrent_tasks - length s.tasks) _ in
            let grown = length-start_tasks next s in
            rw free (start_tasks-IsInSync next s i, omega arith))
    ]

-- Whatever the rounds of the fetch job find in the tables, and in whatever order the tasks finish:
-- the job raises nothing, at each time no two tasks fetch the same message, the set of the hashes
-- being fetched is that of the tasks, and there are no more tasks than allowed.
pub fetch_rounds-IsInSync :
    (max_concurrent_tasks : ℕ) (rounds : List Round) (s : FetchState)
    → IsInSync s
    → length s.tasks ≤ max_concurrent_tasks
    → (u : FetchState) × (fetch_rounds max_concurrent_tasks rounds s ≡ some u)
      × IsInSync u
      × (length u.tasks ≤ max_concurrent_tasks)
unfolding fetch_rounds fetch_round
fetch_rounds-IsInSync m [] s i h = (s, refl, i, h)
fetch_rounds-IsInSync m (r ∷ rounds) s i h =
    let (u, e, j, fewer) = finish_tasks-IsInSync r.is_finished s i in
    let (k, l) = schedule-IsInSync m r.now r.tables u j (omega arith) in
    let (v, rest, x, y) = fetch_rounds-IsInSync m rounds (schedule m r.now r.tables u) k l in
    (v, rw e rest, x, y)

drop-nil : {A : Type 0} (n : ℕ) (xs : List A) → length xs ≤ n → drop n xs ≡ []
drop-nil zero [] h = refl
drop-nil zero (x ∷ xs) h = absurd (omega arith)
drop-nil (suc n) [] h = refl
drop-nil (suc n) (x ∷ xs) h = drop-nil n xs (omega arith)

take-nil : {A : Type 0} (n : ℕ) → take {A = A} n [] ≡ []
take-nil zero = refl
take-nil (suc n) = refl

-- The messages that the query looks for: due, not fetched, and not being fetched.
abbrev pub waiting : ℕ → Tables → FetchState → List Pending
waiting now t s =
    keep
      (λ p.
        leb p.next_attempt now
        && has_fetched (some false) p
        && not (any (λ h. h == p.item_hash) s.being_fetched))
      t.pending

-- As long as at least so many tasks run as there are messages waiting, the job starts none of these,
-- also where it could run more tasks: the messages being fetched are both excluded and skipped.
pub schedule-waiting :
    (max_concurrent_tasks now : ℕ) (t : Tables) (s : FetchState)
    → length (waiting now t s) ≤ length s.tasks
    → schedule max_concurrent_tasks now t s ≡ s
unfolding schedule get_next_pending_messages
schedule-waiting m now t s h =
    let sorted = sort_by (λ p q. ltb p.next_attempt q.next_attempt) (waiting now t s) in
    let few : length sorted ≤ length s.tasks =
      rw (length-sort_by (λ p q. ltb p.next_attempt q.next_attempt) (waiting now t s)) h in
    let none_left : get_next_pending_messages now (m - length s.tasks) (length s.tasks) (some false)
          s.being_fetched t
        ≡ [] =
      ap (take (m - length s.tasks)) (drop-nil (length s.tasks) sorted few)
      ∙ take-nil (m - length s.tasks) in
    elim (Bool-cases (ltb (length s.tasks) m)) [
      | inl free ↦ rw free (ap (λ l. start_tasks l s) none_left)
      | inr full ↦ rw full refl
    ]
