-- ===== src/Chains/Tezos.antt =====
-- The reader of src/aleph/chains/tezos.py: the events of the sync contract, page by page.
use py_aleph.Prelude.{
  ℕ, zero, suc, ◌+◌, ◌-◌, ◌*◌, ◌≤◌, ◌<◌, ◌≡◌, refl, sym, ap, ◌∙◌, Option, none, some, List, [], ◌∷◌,
  ◌++◌, leb, if◌then◌else◌, length, coalesce, arith, Bool-cases, inl, inr,
}
use py_aleph.Chains.{
  ChainTx, smart_contract, message_event, ChainTables, add_pending_tx, upsert_chain_sync_status,
  get_last_height,
}
use py_aleph.Queries.{take, drop}
use py_aleph.Queries.Pages.{take_all}

-- `IndexerMessageEvent`.
pub record TezosEvent (J : Type 0) : Type 0 where
  pub operation_hash : ℕ
  pub block_level : ℕ
  pub timestamp : ℕ
  pub source : ℕ
  pub payload : J

abbrev pub page_limit : ℕ
page_limit = 100

module _ {J : Type 0} (tezos : ℕ) where
  -- `indexer_event_to_chain_tx`.
  unfoldable pub tezos_event_to_chain_tx : TezosEvent J → ChainTx J
  tezos_event_to_chain_tx e = record {
    hash = e.operation_hash;
    chain = tezos;
    height = e.block_level;
    datetime = e.timestamp;
    publisher = e.source;
    protocol = smart_contract;
    protocol_version = 1;
    content = e.payload;
  }

  abbrev pub add_all : List (TezosEvent J) → ChainTables J → ChainTables J
  add_all [] t = t
  add_all (e ∷ events) t = add_all events (add_pending_tx (tezos_event_to_chain_tx e) t)

  -- The loop of `fetch_incoming_messages`, with what the indexer answers for a number of events to
  -- skip, and the total that it states; `none` is a loop that goes on.
  unfoldable pub fetch_pages :
      ℕ → (ℕ → List (TezosEvent J)) → ℕ → ℕ → ChainTables J → Option (ℕ × ChainTables J)
  fetch_pages zero fetch total skip t = none
  fetch_pages (suc fuel) fetch total skip t =
      let u = add_all (fetch skip) t in
      let rest = fetch_pages fuel fetch total (skip + page_limit) u in
      if leb total (skip + page_limit) then some (total, u) else rest

  abbrev pub store_height : ℕ → Option (ℕ × ChainTables J) → Option (ChainTables J)
  store_height now none = none
  store_height now (some (height, t)) =
      some (upsert_chain_sync_status tezos message_event height now t)

  -- `fetch_incoming_messages`, where the indexer is synced and answers; a missing height is 0.
  unfoldable pub fetch_incoming_messages :
      ℕ → ℕ → (ℕ → List (TezosEvent J)) → ℕ → ChainTables J → Option (ChainTables J)
  unfolding fetch_pages get_last_height upsert_chain_sync_status add_pending_tx
  fetch_incoming_messages fuel now fetch total t =
      store_height now
        (fetch_pages fuel fetch total (coalesce (get_last_height tezos message_event t) 0) t)

  pub add_all-append :
      (xs ys : List (TezosEvent J)) (t : ChainTables J)
      → add_all (xs ++ ys) t ≡ add_all ys (add_all xs t)
  add_all-append [] ys t = refl
  add_all-append (x ∷ xs) ys t = add_all-append xs ys (add_pending_tx (tezos_event_to_chain_tx x) t)

module _ {A : Type 0} where
  take-drop : (n : ℕ) (xs : List A) → take n xs ++ drop n xs ≡ xs
  take-drop zero xs = refl
  take-drop (suc n) [] = refl
  take-drop (suc n) (x ∷ xs) = ap (λ l. x ∷ l) (take-drop n xs)

  drop_same : (m n : ℕ) (xs : List A) → m ≡ n → drop m xs ≡ drop n xs
  drop_same m n xs e = rw e refl

  drop-nil : (n : ℕ) → drop {A = A} n [] ≡ []
  drop-nil zero = refl
  drop-nil (suc n) = refl

  drop-drop : (m n : ℕ) (xs : List A) → drop n (drop m xs) ≡ drop (m + n) xs
  drop-drop zero n xs = drop_same n (0 + n) xs (omega arith)
  drop-drop (suc m) n [] = drop-nil n ∙ sym (drop-nil (suc m + n))
  drop-drop (suc m) n (x ∷ xs) =
      drop-drop m n xs ∙ drop_same (suc (m + n)) (suc m + n) (x ∷ xs) (omega arith)

  length-drop : (n : ℕ) (xs : List A) → length (drop n xs) ≡ length xs - n
  length-drop zero xs = omega arith
  length-drop (suc n) [] = omega arith
  length-drop (suc n) (x ∷ xs) = let h = length-drop n xs in omega arith

module _ {J : Type 0} (tezos : ℕ) where
  -- The indexer has a list of events, and answers with a page of it.
  abbrev pub pages_of_list : List (TezosEvent J) → ℕ → List (TezosEvent J)
  pages_of_list events skip = take page_limit (drop skip events)

  fetch_pages_enough :
      (fuel : ℕ) (events : List (TezosEvent J)) (skip : ℕ) (t : ChainTables J)
      → length events ≤ skip + fuel * page_limit
      → 0 < fuel
      → fetch_pages tezos fuel (pages_of_list events) (length events) skip t
        ≡ some (length events, add_all tezos (drop skip events) t)
  unfolding fetch_pages
  fetch_pages_enough zero events skip t h f = absurd (omega arith)
  fetch_pages_enough (suc fuel) events skip t h f =
      let rest = drop skip events in
      elim (Bool-cases (leb (length events) (skip + page_limit))) [
        | inl last ↦
            (let few : length rest ≤ page_limit =
                (let l = length-drop skip events in ground (arith, l, last)) in
              let whole : take page_limit rest ≡ rest = take_all page_limit rest few in
              rw last (ap (λ l. some (length events, add_all tezos l t)) whole))
        | inr more ↦
            (let past : skip + page_limit < length events = ground (arith, more) in
              let left : length events ≤ (skip + page_limit) + fuel * page_limit = omega arith in
              let some_left : 0 < fuel = omega arith in
              let ih =
                fetch_pages_enough fuel events (skip + page_limit)
                  (add_all tezos (take page_limit rest) t) left some_left in
              let joined : add_all tezos (drop (skip + page_limit) events)
                    (add_all tezos (take page_limit rest) t)
                  ≡ add_all tezos rest t =
                sym
                  (add_all-append tezos (take page_limit rest) (drop (skip + page_limit) events) t)
                ∙ ap (λ l. add_all tezos l t)
                    (ap (λ l. take page_limit rest ++ l) (sym (drop-drop skip page_limit events))
                      ∙ take-drop page_limit rest) in
              rw more (ih ∙ ap (λ u. some (length events, u)) joined))
      ]

  -- Where the indexer has a fixed list of events: with a round for each page and one more at most,
  -- the reader ends, it has added each event after the height that it knew, in their order and no
  -- other, and the height that it stores is the number of events.
  pub fetch_incoming_messages-add_all :
      (fuel now : ℕ) (events : List (TezosEvent J)) (t : ChainTables J)
      → let height = coalesce (get_last_height tezos message_event t) 0 in
        length events ≤ height + fuel * page_limit
        → 0 < fuel
        → fetch_incoming_messages tezos fuel now (pages_of_list events) (length events) t
          ≡ some (
              upsert_chain_sync_status tezos message_event
                (length events)
                now
                (add_all tezos (drop height events) t))
  unfolding fetch_incoming_messages
  fetch_incoming_messages-add_all fuel now events t h f =
      ap (store_height tezos now)
        (fetch_pages_enough fuel events (coalesce (get_last_height tezos message_event t) 0) t h f)
