-- ===== src/Node/Next.antt =====
-- Which row `get_next_pending_message` of pending_messages.py takes.
use py_aleph.Prelude.{
  ℕ, ◌≤◌, ◌≡◌, refl, Bool, true, not, ◌&&◌, Option, none, some, List, [], ◌∷◌, ◌++◌, arith, ltb,
  leb, ◌==◌, any, keep, Bool-cases, inl, inr,
}
use py_aleph.Node.{Pending, Tables}
use py_aleph.Node.Accessors.{earliest_from, has_fetched, get_next_pending_message}

-- The row is one that the query asks for.
abbrev pub is_due : ℕ → Option Bool → List ℕ → Pending → Bool
is_due now fetched exclude p =
    leb p.next_attempt now && has_fetched fetched p && not (any (λ h. h == p.item_hash) exclude)

module _ (now : ℕ) (fetched : Option Bool) (exclude : List ℕ) where
  abbrev due : Pending → Bool
  due p = is_due now fetched exclude p

  earliest_from_one :
      (b : Pending) (ps : List Pending)
      → due b ≡ true
      → (best : Pending) × (earliest_from (some b) (keep due ps) ≡ some best)
        × (due best ≡ true)
        × (best.next_attempt ≤ b.next_attempt)
  earliest_from_one b [] d = (b, refl, d, omega arith)
  earliest_from_one b (p ∷ ps) d = elim (Bool-cases (due p)) [
    | inr n ↦ rw n (earliest_from_one b ps d)
    | inl y ↦ (elim (Bool-cases (ltb p.next_attempt b.next_attempt)) [
      | inl l ↦
          (let (best, e, f, g) = earliest_from_one p ps y in
            (best, ground (arith, y, l, e), f, ground (arith, g, l)))
      | inr l ↦
          (let (best, e, f, g) = earliest_from_one b ps d in
            (best, ground (arith, y, l, e), f, ground (arith, g, l)))
    ])
  ]

  earliest_from-some :
      (b : Pending) (l : List Pending) (q : Pending) (r : List Pending)
      → due b ≡ true
      → due q ≡ true
      → (best : Pending) × (earliest_from (some b) (keep due (l ++ (q ∷ r))) ≡ some best)
        × (due best ≡ true)
        × (best.next_attempt ≤ q.next_attempt)
  earliest_from-some b [] q r c d = (elim (Bool-cases (ltb q.next_attempt b.next_attempt)) [
    | inl l ↦
        (let (best, e, f, g) = earliest_from_one q r d in
          (best, ground (arith, d, l, e), f, ground (arith, g, l)))
    | inr l ↦
        (let (best, e, f, g) = earliest_from_one b r c in
          (best, ground (arith, d, l, e), f, ground (arith, g, l)))
  ])
  earliest_from-some b (p ∷ ps) q r c d = elim (Bool-cases (due p)) [
    | inr n ↦ rw n (earliest_from-some b ps q r c d)
    | inl y ↦ (elim (Bool-cases (ltb p.next_attempt b.next_attempt)) [
      | inl l ↦
          (let (best, e, f, g) = earliest_from-some p ps q r y d in
            (best, ground (arith, y, l, e), f, ground (arith, g, l)))
      | inr l ↦
          (let (best, e, f, g) = earliest_from-some b ps q r c d in
            (best, ground (arith, y, l, e), f, ground (arith, g, l)))
    ])
  ]

  earliest_from-none :
      (l : List Pending) (q : Pending) (r : List Pending)
      → due q ≡ true
      → (best : Pending) × (earliest_from none (keep due (l ++ (q ∷ r))) ≡ some best)
        × (due best ≡ true)
        × (best.next_attempt ≤ q.next_attempt)
  earliest_from-none [] q r d = rw d (earliest_from_one q r d)
  earliest_from-none (p ∷ ps) q r d = elim (Bool-cases (due p)) [
    | inr n ↦ rw n (earliest_from-none ps q r d)
    | inl y ↦ rw y (earliest_from-some p ps q r y d)
  ]

  -- If a row of the table of pending messages is due, the query finds one that is due and is no later
  -- than that row, wherever it stands in the table.
  pub get_next_pending_message-earliest :
      (t : Tables) (l : List Pending) (q : Pending) (r : List Pending)
      → t.pending ≡ l ++ (q ∷ r)
      → is_due now fetched exclude q ≡ true
      → (p : Pending) × (get_next_pending_message now fetched exclude t ≡ some p)
        × (is_due now fetched exclude p ≡ true)
        × (p.next_attempt ≤ q.next_attempt)
  unfolding get_next_pending_message
  get_next_pending_message-earliest t l q r e d = rw e (earliest_from-none l q r d)
