-- ===== src/Txs/Keeps.antt =====
-- What handling a transaction keeps of the tables, and when it removes the transaction.
use mathlib.Core.Path.{}
use py_aleph.Prelude.{
  ℕ, suc, ◌≡◌, refl, ◌∙◌, ◌⊎◌, ap, false, Option, none, some, List, [], ◌∷◌, ◌==◌, Bool-cases, inl,
  inr,
}
use py_aleph.Prelude.Keys.{IsUnique}
use py_aleph.Status.{Error}
use py_aleph.Result.{Result, ok, raise}
use py_aleph.Node.{Pending, Tables}
use py_aleph.Chains.{
  ChainTx, Protocol, on_chain_sync, off_chain_sync, smart_contract, delete_pending_tx,
}
use py_aleph.Handler.{HandlerEnv}
use py_aleph.Publisher.{RawMessage, PublisherEnv, add_pending_message}
use py_aleph.Publisher.Admits.{Keeps, add_pending_message-Keeps}
use py_aleph.Txs.{
  TxResult, failed, fetched, SyncFile, TxEnv, TxState, get_tx_messages, by_protocol, with_file,
  with_messages, record_file, off_chain, sync_file_messages, get_tx_messages_off_chain_protocol,
  is_seen, source_of, add_more, add_messages, finish, publish, handle_pending_tx,
}

module _ {J : Type 0} (env : TxEnv J) where
  -- Reading the messages of a transaction writes neither the tables of messages nor those of chains,
  -- and asks for no file a second time.
  pub record Reads (s u : TxState J) : Type 0 where
    pub tables : u.tables ≡ s.tables
    pub chain : u.chain ≡ s.chain
    pub once : IsUnique (λ h. h) s.seen_ids → IsUnique (λ h. h) u.seen_ids

  Reads-with_messages :
      (now h : ℕ) (tx : ChainTx J) (f : SyncFile J) (r : TxResult (List RawMessage)) (s : TxState J)
      → Reads s (with_messages env now tx h f r s).1
  unfolding record_file
  Reads-with_messages now h tx f (failed e) s = record {
    tables = refl;
    chain = refl;
    once = λ q. q;
  }
  Reads-with_messages now h tx f (fetched messages) s = elim (Bool-cases env.ipfs_enabled) [
    | inl y ↦ rw y (record { tables = refl; chain = refl; once = λ q. q })
    | inr n ↦ rw n (record { tables = refl; chain = refl; once = λ q. q })
  ]

  Reads-off_chain :
      (now : ℕ) (tx : ChainTx J) (o : Option ℕ) (s : TxState J)
      → Reads s (off_chain env now tx o s).1
  Reads-off_chain now tx none s = record { tables = refl; chain = refl; once = λ q. q }
  Reads-off_chain now tx (some h) s = elim (Bool-cases (is_seen h s.seen_ids)) [
    | inl seen ↦ rw seen (record { tables = refl; chain = refl; once = λ q. q })
    | inr new ↦ rw new (go new (env.get_json h))
  ]
    where
      go :
          is_seen h s.seen_ids ≡ false
          → (r : TxResult (SyncFile J))
          → Reads s (with_file env now tx h r (record s { seen_ids = h ∷ s.seen_ids })).1
      go new (failed e) = record { tables = refl; chain = refl; once = λ q. (new, q) }
      go new (fetched f) =
          let u : TxState J = record s { seen_ids = h ∷ s.seen_ids } in
          let r = Reads-with_messages now h tx f (sync_file_messages env f) u in
          record { tables = r.tables; chain = r.chain; once = λ q. r.once (new, q) }

  Reads-by_protocol :
      (now : ℕ) (p : Protocol) (tx : ChainTx J) (s : TxState J)
      → Reads s (by_protocol env now p tx s).1
  unfolding by_protocol get_tx_messages_off_chain_protocol
  Reads-by_protocol now on_chain_sync tx s = record { tables = refl; chain = refl; once = λ q. q }
  Reads-by_protocol now smart_contract tx s = record { tables = refl; chain = refl; once = λ q. q }
  Reads-by_protocol now off_chain_sync tx s = Reads-off_chain now tx (env.as_text tx.content) s

  pub Reads-get_tx_messages :
      (now : ℕ) (tx : ChainTx J) (s : TxState J) → Reads s (get_tx_messages env now tx s).1
  unfolding get_tx_messages
  Reads-get_tx_messages now tx s = elim (Bool-cases (tx.protocol_version == 1)) [
    | inl y ↦ rw y (Reads-by_protocol now tx.protocol tx s)
    | inr n ↦ rw n (record { tables = refl; chain = refl; once = λ q. q })
  ]

module _ {J E : Type 0} (env : TxEnv J) (publisher : PublisherEnv) (handlers : HandlerEnv E) where
  -- The messages, each of which the publisher has taken without an exception, one after another.
  pub data Published (now : ℕ) (tx : ChainTx J)
      : List RawMessage → TxState J → TxState J → Type 0 where
    none_left : {s : TxState J} → Published now tx [] s s
    one_more :
        {raw : RawMessage} {raws : List RawMessage} {s u : TxState J} (r : Option Pending)
        (t : Tables)
        → add_pending_message publisher handlers s.next_id now raw
            (source_of env publisher handlers now tx)
            s.tables
          ≡ ok (r, t)
        → Published now tx raws (record s { tables = t; next_id = suc s.next_id }) u
        → Published now tx (raw ∷ raws) s u

  -- Such messages leave consistent tables consistent, and write no table of the chains.
  pub Published-Keeps :
      (now : ℕ) (tx : ChainTx J) (raws : List RawMessage) (s u : TxState J)
      → Published now tx raws s u
      → Keeps s.tables
      → Keeps u.tables
  Published-Keeps now tx [] s u none_left k = k
  Published-Keeps now tx (raw ∷ raws) s u (one_more r t e rest) k =
      Published-Keeps now tx raws (record s { tables = t; next_id = suc s.next_id }) u rest
        (add_pending_message-Keeps publisher handlers s.next_id now raw
          (source_of env publisher handlers now tx) s.tables t r e k.0 k.1)

  -- What the loop over the messages came to.
  pub record Adds (now : ℕ) (tx : ChainTx J) (raws : List RawMessage) (s : TxState J)
      (e : Option Error) (u : TxState J) : Type 0 where
    pub chain : u.chain ≡ s.chain
    pub kept : Keeps s.tables → Keeps u.tables
    pub once : u.seen_ids ≡ s.seen_ids
    pub all_published : e ≡ none → Published now tx raws s u

  add_messages-Adds :
      (now : ℕ) (tx : ChainTx J) (raws : List RawMessage) (s : TxState J)
      → let r = add_messages env publisher handlers now tx raws s in Adds now tx raws s r.0 r.1
  unfolding add_messages
  add_messages-Adds now tx [] s = record {
    chain = refl;
    kept = λ k. k;
    once = refl;
    all_published = λ e. none_left;
  }
  add_messages-Adds now tx (raw ∷ raws) s =
      go
        (add_pending_message publisher handlers s.next_id now raw
          (source_of env publisher handlers now tx) s.tables)
        refl (λ u. add_messages-Adds now tx raws u)
    where
      go :
          (r : Result (Option Pending × Tables))
          → add_pending_message publisher handlers s.next_id now raw
              (source_of env publisher handlers now tx)
              s.tables
            ≡ r
          → ((u : TxState J)
              → let q = add_messages env publisher handlers now tx raws u in
                Adds now tx raws u q.0 q.1)
          → let q =
              add_more env publisher handlers r s
                (λ u. add_messages env publisher handlers now tx raws u) in
            Adds now tx (raw ∷ raws) s q.0 q.1
      go (raise e) h induct = (record {
        chain = refl;
        kept = λ k. k;
        once = refl;
        all_published = λ n. absurd (cc (n));
      })
      go (ok (r, t)) h induct =
          let u : TxState J = record s { tables = t; next_id = suc s.next_id } in
          let rest = induct u in
          (record {
            chain = rest.chain;
            once = rest.once;
            kept = λ k. rest.kept (
                add_pending_message-Keeps publisher handlers s.next_id now raw
                  (source_of env publisher handlers now tx) s.tables t r h k.0 k.1);
            all_published = λ n. one_more r t h (rest.all_published n);
          })

  -- What handling a transaction came to: the tables of messages stay consistent, and either the
  -- transactions are as before, or this one is removed, and its messages, of which there is one at
  -- least, were all published.
  pub record Handles (now : ℕ) (tx : ChainTx J) (s u : TxState J) : Type 0 where
    pub kept : Keeps s.tables → Keeps u.tables
    pub once : IsUnique (λ h. h) s.seen_ids → IsUnique (λ h. h) u.seen_ids
    pub removed :
        (u.chain ≡ s.chain)
        ⊎ ((raw : RawMessage) × (raws : List RawMessage) × (v : TxState J) × ((get_tx_messages env
                now tx s).0
              ≡ fetched (raw ∷ raws))
            × Published now tx (raw ∷ raws) (get_tx_messages env now tx s).1 v
            × (u.tables ≡ v.tables)
            × (u.chain ≡ delete_pending_tx tx.hash s.chain))

  finished :
      (now : ℕ) (tx : ChainTx J) (raw : RawMessage) (raws : List RawMessage) (s r : TxState J)
      (q : Option Error × TxState J)
      → Reads env s r
      → (get_tx_messages env now tx s).1 ≡ r
      → (get_tx_messages env now tx s).0 ≡ fetched (raw ∷ raws)
      → Adds now tx (raw ∷ raws) r q.0 q.1
      → Handles now tx s (finish env publisher handlers tx q)
  unfolding finish
  finished now tx raw raws s r (some e, u) reads er eg adds = record {
    kept = λ k. adds.kept (rw reads.tables k);
    once = λ q. rw adds.once (reads.once q);
    removed = inl (adds.chain ∙ reads.chain);
  }
  finished now tx raw raws s r (none, u) reads er eg adds = record {
    kept = λ k. adds.kept (rw reads.tables k);
    once = λ q. rw adds.once (reads.once q);
    removed = inr (
      raw,
      raws,
      u,
      eg,
      rw er (adds.all_published refl),
      refl,
      ap (delete_pending_tx tx.hash) (adds.chain ∙ reads.chain),
    );
  }

  -- Handling a transaction, whatever its content and the messages in it: if the tables of messages were
  -- consistent, with no two pending messages of the same sender, hash and signature, they are so
  -- after it. The transaction is removed from the pending ones only if its messages, of which there
  -- is one at least, were read and all taken by the publisher; otherwise all transactions stay as they
  -- were.
  pub handle_pending_tx-Handles :
      (now : ℕ) (tx : ChainTx J) (s : TxState J)
      → Handles now tx s (handle_pending_tx env publisher handlers now tx s)
  unfolding handle_pending_tx
  handle_pending_tx-Handles now tx s = go (get_tx_messages env now tx s).0 refl
    where
      reads : Reads env s (get_tx_messages env now tx s).1
      reads = Reads-get_tx_messages env now tx s

      go :
          (g : TxResult (List RawMessage))
          → (get_tx_messages env now tx s).0 ≡ g
          → Handles now tx s
              (publish env publisher handlers now tx g (get_tx_messages env now tx s).1)
      go (failed e) h = record {
        kept = λ k. rw reads.tables k;
        once = reads.once;
        removed = inl reads.chain;
      }
      go (fetched []) h = record {
        kept = λ k. rw reads.tables k;
        once = reads.once;
        removed = inl reads.chain;
      }
      go (fetched (raw ∷ raws)) h =
          finished now tx raw raws s (get_tx_messages env now tx s).1
            (add_messages env publisher handlers now tx (raw ∷ raws)
              (get_tx_messages env now tx s).1)
            reads refl h (add_messages-Adds now tx (raw ∷ raws) (get_tx_messages env now tx s).1)
