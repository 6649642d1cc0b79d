-- ===== src/Chains/Reader/Progress.antt =====
-- That the reader of an indexer ends, and what it has read then.
use py_aleph.Prelude.{
  ℕ, zero, suc, ◌+◌, ◌≤◌, ◌<◌, ◌≡◌, refl, ap, ◌∙◌, Bool, true, false, ◌&&◌, ◌||◌, Option, none,
  some, List, [], ◌∷◌, arith, ltb, leb, if◌then◌else◌, Bool-cases, Option-cases, inl, inr,
}
use py_aleph.Range.{Range, make_range}
use py_aleph.Range.Points.{in_core, core_covers}
use py_aleph.Range.Separated.{IsClosed, IsSeparated}
use py_aleph.Chains.{
  EventType, ChainTx, ChainTables, add_pending_tx, upsert_chain_tx, upsert_pending_tx,
  add_indexer_range, get_indexer_multirange,
}
use py_aleph.Chains.Sync.{add_indexer_range-covers}
use py_aleph.Chains.Reader.{
  Event, ReaderEnv, finished, unfinished, limit, add_txs, last_datetime, nb_events, synced_range,
  read_page, fetch_round, fetch_range,
}

module _ {J : Type 0} (env : ReaderEnv J) (chain : ℕ) (e : EventType) where
  abbrev IsLater : ℕ → ℕ → Bool → Option ℕ → Type 0
  IsLater start end_ false last = Unit
  IsLater start end_ true none = ⊥
  IsLater start end_ true (some last) = (start < last) × (last ≤ end_)

  -- A page that ends the loop, or whose last event is later than the start of the query.
  abbrev pub IsAhead : ℕ → ℕ → ℕ → List (ChainTx J) → Type 0
  IsAhead start end_ n txs = IsLater start end_ (leb limit n) (last_datetime env chain txs)

  -- The answer to one query, and what it holds.
  pub record Page (round start end_ : ℕ) : Type 0 where
    pub answer : List Event × List Event
    pub txs : List (ChainTx J)
    pub answered : env.fetch_events round e start end_ limit ≡ some answer
    pub parsed : read_page env chain e start end_ answer ≡ some txs
    pub ahead : IsAhead start end_ (nb_events env chain e answer) txs

  add_txs-indexer :
      (txs : List (ChainTx J)) (t : ChainTables J) → (add_txs env chain txs t).indexer ≡ t.indexer
  unfolding add_txs add_pending_tx upsert_chain_tx upsert_pending_tx
  add_txs-indexer [] t = refl
  add_txs-indexer (tx ∷ txs) t = add_txs-indexer txs (add_pending_tx tx t)

  get-add_txs :
      (txs : List (ChainTx J)) (t : ChainTables J)
      → get_indexer_multirange chain e (add_txs env chain txs t) ≡ get_indexer_multirange chain e t
  unfolding get_indexer_multirange
  get-add_txs txs t = rw (add_txs-indexer txs t) refl

  -- The range of a page that is ahead, and where the next query starts.
  record Step (start end_ n : ℕ) (txs : List (ChainTx J)) : Type 0 where
    range : Range
    eq : synced_range env chain start end_ n txs ≡ some range
    closed : IsClosed range
    from : range.lower ≡ start
    to : range.upper ≤ end_
    later : ltb n limit ≡ false → start < range.upper
    last : ltb n limit ≡ true → range.upper ≡ end_

  full-Step :
      (start end_ n last : ℕ) (txs : List (ChainTx J))
      → leb limit n ≡ true
      → last_datetime env chain txs ≡ some last
      → start < last
      → last ≤ end_
      → Step start end_ n txs
  unfolding make_range
  full-Step start end_ n last txs full l ahead le = record {
    range = record { lower = start; upper = last; lower_inc = true; upper_inc = false };
    eq = ground (arith, full, l, ahead);
    closed = (omega (arith, ahead), refl);
    from = refl;
    to = le;
    later = λ _. ahead;
    last = λ h. absurd (ground (arith, full, h));
  }

  page-Step :
      (start end_ n : ℕ) (txs : List (ChainTx J))
      → start ≤ end_
      → IsAhead start end_ n txs
      → Step start end_ n txs
  unfolding make_range
  page-Step start end_ n txs le a = elim (Bool-cases (leb limit n)) [
    | inr short ↦ record {
      range = record { lower = start; upper = end_; lower_inc = true; upper_inc = true };
      eq = ground (arith, short, le);
      closed = (le, refl);
      from = refl;
      to = omega arith;
      later = λ h. absurd (ground (arith, short, h));
      last = λ _. refl;
    }
    | inl full ↦ elim (Option-cases (last_datetime env chain txs)) [
      | inl no_last ↦ absurd (rw (full, no_last) at a)
      | inr (last, l) ↦
          (let ahead : (start < last) × (last ≤ end_) = rw (full, l) at a in
            full-Step start end_ n last txs full l ahead.0 ahead.1)
    ]
  ]

  round-eq :
      (round start end_ : ℕ) (t u : ChainTables J) (pg : Page round start end_)
      → (st : Step start end_ (nb_events env chain e pg.answer) pg.txs)
      → add_indexer_range chain e (env.now round) st.range (add_txs env chain pg.txs t) ≡ some u
      → fetch_round env chain e round start end_ t
        ≡ some
            (u, if ltb (nb_events env chain e pg.answer) limit then none else some st.range.upper)
  unfolding fetch_round
  round-eq round start end_ t u pg st a = rw (pg.answered) (rw (pg.parsed) (rw (st.eq) (rw a refl)))

  -- The points from `start` on and below `end_`.
  abbrev pub between : ℕ → ℕ → ℕ → Bool
  between start end_ x = leb start x && ltb x end_

  in_core-between :
      (x start end_ : ℕ) (r : Range)
      → r.lower ≡ start
      → r.upper ≡ end_
      → in_core x r ≡ between start end_ x
  in_core-between x start end_ r h k = rw (h, k) refl

  between_step :
      (start mid end_ x : ℕ) (c : Bool)
      → start < mid
      → mid ≤ end_
      → ((c || between start mid x) || between mid end_ x) ≡ (c || between start end_ x)
  between_step start mid end_ x c h k = ground arith

  -- If every query of the loop is answered, and a full page ends later than its query starts, the
  -- loop over a range ends within as many rounds as the range is long, and one more. The synced
  -- ranges that are read afterwards are separated and hold, from their lower ends on and below their
  -- upper ones, the points of those before and all of the range.
  pub fetch_range-covers :
      (x fuel round start end_ : ℕ) (rs : List Range) (t : ChainTables J)
      → ((round start : ℕ) → start ≤ end_ → Page round start end_)
      → start ≤ end_
      → end_ < start + fuel
      → get_indexer_multirange chain e t ≡ some rs
      → IsSeparated rs
      → (u : ChainTables J) × (ss : List Range) × (fetch_range env chain fuel e round start end_ t
          ≡ finished u)
        × (get_indexer_multirange chain e u ≡ some ss)
        × IsSeparated ss
        × (core_covers x ss ≡ (core_covers x rs || between start end_ x))
  unfolding fetch_range
  fetch_range-covers x zero round start end_ rs t pages le f g s = absurd (omega (arith, le, f))
  fetch_range-covers x (suc fuel) round start end_ rs t pages le f g s =
      let pg = pages round start le in
      let st = page-Step start end_ (nb_events env chain e pg.answer) pg.txs le pg.ahead in
      let (u, ss, ea, ga, sa, ca) =
        add_indexer_range-covers chain e (env.now round) x st.range rs (add_txs env chain pg.txs t)
          (get-add_txs pg.txs t ∙ g) s st.closed in
      let run = round-eq round start end_ t u pg st ea in
      elim (Bool-cases (ltb (nb_events env chain e pg.answer) limit)) [
        | inl done ↦ (
          u,
          ss,
          rw (run, done),
          ga,
          sa,
          ca
              ∙ ap (λ b. core_covers x rs || b)
                  (in_core-between x start end_ st.range st.from (st.last done)),
        )
        | inr more ↦
            (let mid = st.range.upper in
              let later = st.later more in
              let (v, vs, ev, gv, sv, cv) =
                fetch_range-covers x fuel (round + 1) mid end_ ss u pages st.to
                  (omega (arith, f, later)) ga sa in
              (
                v,
                vs,
                rw (run, more) ev,
                gv,
                sv,
                cv
                    ∙ (ap (λ b. b || between mid end_ x)
                          (ca
                            ∙ ap (λ b. core_covers x rs || b)
                                (in_core-between x start mid st.range st.from refl))
                        ∙ between_step start mid end_ x (core_covers x rs) later st.to),
              ))
      ]

  -- A full page whose last event has the time of the start of its query.
  pub record StuckPage (round start end_ : ℕ) : Type 0 where
    pub answer : List Event × List Event
    pub txs : List (ChainTx J)
    pub answered : env.fetch_events round e start end_ limit ≡ some answer
    pub parsed : read_page env chain e start end_ answer ≡ some txs
    pub full : leb limit (nb_events env chain e answer) ≡ true
    pub at_start : last_datetime env chain txs ≡ some start

  stuck-round :
      (round start end_ : ℕ) (t u : ChainTables J) (pg : StuckPage round start end_)
      → let r : Range = record {
        lower = start;
        upper = start;
        lower_inc = true;
        upper_inc = false;
      } in
        add_indexer_range chain e (env.now round) r (add_txs env chain pg.txs t) ≡ some u
        → fetch_round env chain e round start end_ t ≡ some (u, some start)
  unfolding fetch_round make_range
  stuck-round round start end_ t u pg a =
      ground (arith, pg.answered, pg.parsed, pg.full, pg.at_start, a)

  -- If a page at the start of a range is full and all its events up to the last have the time of the
  -- start, and the indexer answers this at each round, the loop over the range does not end, whatever
  -- the fuel is.
  pub fetch_range-stuck :
      (fuel round start end_ : ℕ) (rs : List Range) (t : ChainTables J)
      → ((round : ℕ) → StuckPage round start end_)
      → get_indexer_multirange chain e t ≡ some rs
      → IsSeparated rs
      → (u : ChainTables J) × (fetch_range env chain fuel e round start end_ t ≡ unfinished u)
  unfolding fetch_range
  fetch_range-stuck zero round start end_ rs t pages g s = (t, refl)
  fetch_range-stuck (suc fuel) round start end_ rs t pages g s =
      let pg = pages round in
      let r : Range = record {
        lower = start;
        upper = start;
        lower_inc = true;
        upper_inc = false;
      } in
      let (u, ss, ea, ga, sa, _) =
        add_indexer_range-covers chain e (env.now round) start r rs (add_txs env chain pg.txs t)
          (get-add_txs pg.txs t ∙ g) s (omega arith, refl) in
      let (v, ev) = fetch_range-stuck fuel (round + 1) start end_ ss u pages ga sa in
      (v, rw (stuck-round round start end_ t u pg ea) ev)
