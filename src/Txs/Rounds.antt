-- ===== src/Txs/Rounds.antt =====
-- Rounds of the job of the pending transactions.
use py_aleph.Prelude.{ℕ, ◌≡◌, true, List, [], ◌∷◌, arith, Bool-cases, inl, inr}
use py_aleph.Prelude.Keys.{IsUnique}
use py_aleph.Chains.{ChainTx, ChainTables, delete_pending_tx}
use py_aleph.Handler.{HandlerEnv}
use py_aleph.Publisher.{PublisherEnv}
use py_aleph.Publisher.Admits.{Keeps, IsDistinct}
use py_aleph.Node.Consistent.{IsConsistent}
use py_aleph.Txs.{
  TxEnv, TxState, handle_pending_tx, is_duplicate, mark_seen, handle_txs, get_pending_txs,
  process_pending_txs,
}
use py_aleph.Txs.Keeps.{handle_pending_tx-Handles}

module _ {J E : Type 0} (env : TxEnv J) (publisher : PublisherEnv) (handlers : HandlerEnv E) where
  -- No transaction becomes pending.
  abbrev pub IsFewer : ChainTables J → ChainTables J → Type 0
  IsFewer t u = (h : ℕ) → u.pending_txs h ≡ true → t.pending_txs h ≡ true

  handle-IsFewer :
      (now : ℕ) (tx : ChainTx J) (s : TxState J)
      → IsFewer s.chain (handle_pending_tx env publisher handlers now tx s).chain
  unfolding delete_pending_tx
  handle-IsFewer now tx s h p =
      elim (handle_pending_tx-Handles env publisher handlers now tx s).removed [
        | inl same ↦ rw same at p
        | inr (raw, raws, v, got, published, tables, removed) ↦
            (let q = rw removed at p in ground (arith, q))
      ]

  handle_txs-Keeps :
      (now : ℕ) (seen : List ℕ) (txs : List (ChainTx J)) (s : TxState J)
      → Keeps s.tables
      → IsUnique (λ h. h) s.seen_ids
      → let u = handle_txs env publisher handlers now seen txs s in
        Keeps u.tables × IsFewer s.chain u.chain × IsUnique (λ h. h) u.seen_ids
  unfolding handle_txs
  handle_txs-Keeps now seen [] s k o = (k, λ h p. p, o)
  handle_txs-Keeps now seen (tx ∷ txs) s k o =
      elim (Bool-cases (is_duplicate env publisher handlers tx seen)) [
        | inl duplicate ↦ rw (handle_txs, duplicate) (handle_txs-Keeps now seen txs s k o)
        | inr new ↦
            (let u = handle_pending_tx env publisher handlers now tx s in
              let h = handle_pending_tx-Handles env publisher handlers now tx s in
              let (kept, fewer, once) =
                handle_txs-Keeps now (mark_seen env publisher handlers tx seen) txs u (h.kept k)
                  (h.once o) in
              rw (handle_txs, new) (kept, λ j p. handle-IsFewer now tx s j (fewer j p), once))
      ]

  -- A round keeps the tables of messages consistent, with no two pending messages of the same
  -- sender, hash and signature, whatever the transactions hold; and no transaction that was not
  -- pending before it is pending after it. It asks for no chain data file twice.
  pub process_pending_txs-IsConsistent :
      (limit now : ℕ) (txs : List (ChainTx J)) (s : TxState J)
      → IsConsistent s.tables
      → IsDistinct s.tables.pending
      → let u = process_pending_txs env publisher handlers limit now txs s in
        IsConsistent u.tables
        × IsDistinct u.tables.pending
        × IsFewer s.chain u.chain
        × IsUnique (λ h. h) u.seen_ids
  unfolding process_pending_txs
  process_pending_txs-IsConsistent limit now txs s c d =
      let u : TxState J = record s { seen_ids = [] } in
      let (kept, fewer, once) =
        handle_txs-Keeps now [] (get_pending_txs limit txs s.chain) u (c, d) tt in
      (kept.0, kept.1, fewer, once)
