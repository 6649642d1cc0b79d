-- ===== src/Queries/Messages/Laws.antt =====
-- The listing of messages: its pages, its total, what is in it, and in which order.
use py_aleph.Prelude.{
  ℕ, ◌≤◌, ◌≡◌, refl, ◌∙◌, sym, ap, Bool, true, false, not, ◌&&◌, ◌||◌, Option, List, [], ◌∷◌, arith,
  ◌==◌, any, keep, Bool-cases, inl, inr, ◌↔◌, length, map, All, is_none,
}
use py_aleph.Node.{Message}
use py_aleph.Chains.{ChainTx}
use py_aleph.Queries.{SortOrder, ascending, descending, by_time, earlier, sort_by, paginate}
use py_aleph.Queries.Sort.{IsSorted, any-sort_by, length-sort_by, sort_by-IsSorted}
use py_aleph.Queries.Pages.{paginate-zero, length-take}
use py_aleph.Queries.Lists.{
  length-map, any-map, All-weaken, All-keep_test, All-take, paginate-IsSorted, IsSorted-map,
  earlier-IsWeakOrder,
}
use py_aleph.Queries.Messages.Fits.{SomeFits, kept-SomeFits}
use py_aleph.Queries.Messages.{
  JsonColumns, MessageFilters, MessageQuery, is_joined, comes_before, before_in_time, matches,
  join_rows, found_rows, matching_rows, make_matching_messages_query, get_matching_messages,
  count_matching_messages, is_of_chain, get_unconfirmed_messages,
}

-- The same query, at a page.
abbrev pub at_page : ℕ → ℕ → MessageQuery → MessageQuery
at_page page pagination q = record q { page = page; pagination = pagination }

-- The listing by time, with no blocks asked for.
abbrev pub IsByTime : MessageQuery → Type 0
IsByTime q = (q.order_by ≡ by_time) × (is_joined q ≡ false)

-- Each message is no later than those after it, in the ascending order, and no earlier in the other.
abbrev pub IsInTurn : SortOrder → ℕ → ℕ → Type 0
IsInTurn ascending a b = a ≤ b
IsInTurn descending a b = b ≤ a

abbrev pub IsInOrder : SortOrder → List Message → Type 0
IsInOrder order [] = Unit
IsInOrder order (m ∷ ms) = All (λ n. IsInTurn order m.time n.time) ms × IsInOrder order ms

not_earlier : (order : SortOrder) (a b : ℕ) → earlier order b a ≡ false → IsInTurn order a b
not_earlier ascending a b e = ground (arith, e)
not_earlier descending a b e = ground (arith, e)

none_earlier :
    (order : SortOrder) (time : ℕ) (ms : List Message)
    → any (λ n. earlier order n.time time) ms ≡ false
    → All (λ n. IsInTurn order time n.time) ms
none_earlier order time [] e = tt
none_earlier order time (m ∷ ms) e = elim (Bool-cases (earlier order m.time time)) [
  | inl y ↦ absurd (cc (rw y at e))
  | inr n ↦ (not_earlier order time m.time n, none_earlier order time ms (rw n at e))
]

IsSorted-IsInOrder :
    (order : SortOrder) (ms : List Message)
    → IsSorted (λ a b. earlier order a.time b.time) ms
    → IsInOrder order ms
IsSorted-IsInOrder order [] s = tt
IsSorted-IsInOrder order (m ∷ ms) s =
    (none_earlier order m.time ms s.0, IsSorted-IsInOrder order ms s.1)

module _ {J : Type 0} (json : JsonColumns) (confirmed : ℕ → ℕ → Bool) (txs : List (ChainTx J)) where
  get_matching_messages-rows :
      (q : MessageQuery) (messages : List Message)
      → get_matching_messages json confirmed txs (at_page 1 0 q) messages
        ≡ map (λ r. r.0) (matching_rows json confirmed txs q messages)
  unfolding get_matching_messages make_matching_messages_query
  get_matching_messages-rows q messages =
      ap (λ rows. map (λ r. r.0) rows) (paginate-zero (matching_rows json confirmed txs q messages))

  joined_by_time :
      (q : MessageQuery) (o : SortOrder) (page pagination : ℕ)
      → q.order_by ≡ by_time
      → let u : MessageQuery = record {
        filters = q.filters;
        order_by = by_time;
        sort_order = o;
        page = page;
        pagination = pagination;
      } in
        is_joined u ≡ is_joined q
  joined_by_time q o page pagination e = rw e refl

  length-matching_rows :
      (q : MessageQuery) (messages : List Message)
      → length (matching_rows json confirmed txs q messages)
        ≡ length (found_rows json confirmed txs (is_joined q) q.filters messages)
  unfolding matching_rows
  length-matching_rows q messages =
      length-sort_by (comes_before q)
        (found_rows json confirmed txs (is_joined q) q.filters messages)

  counted : MessageQuery → MessageQuery
  counted q = record {
    filters = q.filters;
    order_by = by_time;
    sort_order = descending;
    page = 1;
    pagination = 0;
  }

  count-found :
      (fast_count : ℕ) (q : MessageQuery) (messages : List Message)
      → q.order_by ≡ by_time
      → count_matching_messages json confirmed txs true fast_count q messages
        ≡ length (matching_rows json confirmed txs q messages)
  unfolding counted count_matching_messages make_matching_messages_query
  count-found fast_count q messages e =
      ap (λ rows. length (map (λ r. r.0) rows))
        (paginate-zero (matching_rows json confirmed txs (counted q) messages))
      ∙ length-map (λ r. r.0) (matching_rows json confirmed txs (counted q) messages)
      ∙ length-matching_rows (counted q) messages
      ∙ ap (λ b. length (found_rows json confirmed txs b q.filters messages))
          (joined_by_time q descending 1 0 e)
      ∙ sym (length-matching_rows q messages)

  transfer :
      (p : Message → Bool) (f : MessageFilters) (messages : List Message) {b : Bool}
      → b ≡ any p (keep (matches json confirmed txs f) messages)
      → (b ≡ true) ↔ SomeFits json confirmed txs p f messages
  transfer p f messages e =
      let k = kept-SomeFits json confirmed txs p f messages in
      (λ t. k.0 (sym e ∙ t), λ h. e ∙ k.1 h)

  unjoined :
      (p : Message → Bool) (ms : List Message)
      → any (λ r. p r.0) (join_rows json confirmed txs false ms) ≡ any p ms
  unjoined p [] = refl
  unjoined p (m ∷ ms) = rw (unjoined p ms) refl

  -- For a listing by time without blocks, whatever the order in which the rows are read: the whole
  -- listing has so many messages as `count_matching_messages` says where some argument besides the
  -- dates is given, it has a message of some kind if and only if the table has one of that kind
  -- that fits each filter that is given, and each of its pages has the times in the order asked
  -- for.
  pub get_matching_messages-IsSorted :
      (fast_count : ℕ) (q : MessageQuery) (messages : List Message)
      → IsByTime q
      → (length (get_matching_messages json confirmed txs (at_page 1 0 q) messages)
          ≡ count_matching_messages json confirmed txs true fast_count q messages)
        × ((p : Message → Bool)
            → (any p (get_matching_messages json confirmed txs (at_page 1 0 q) messages) ≡ true)
              ↔ SomeFits json confirmed txs p q.filters messages)
        × ((page pagination : ℕ)
            → IsInOrder q.sort_order
                (get_matching_messages json confirmed txs (at_page page pagination q) messages))
  unfolding matching_rows get_matching_messages make_matching_messages_query
  get_matching_messages-IsSorted fast_count q messages (e, j) =
      let found = found_rows json confirmed txs false q.filters messages in
      let rows : matching_rows json confirmed txs q messages
          ≡ sort_by (before_in_time q.sort_order) found =
        rw j (rw e refl) in
      (
        rw (get_matching_messages-rows q messages) (
            length-map (λ r. r.0) (matching_rows json confirmed txs q messages)
            ∙ sym (count-found fast_count q messages e)),
        λ p. transfer p q.filters messages (
            ap (any p) (get_matching_messages-rows q messages)
            ∙ any-map (λ r. r.0) p (matching_rows json confirmed txs q messages)
            ∙ ap (any (λ r. p r.0)) rows
            ∙ any-sort_by (before_in_time q.sort_order) (λ r. p r.0) found
            ∙ unjoined p (keep (matches json confirmed txs q.filters) messages)),
        λ page pagination. IsSorted-IsInOrder q.sort_order _ (
            IsSorted-map (λ r. r.0) (λ a b. earlier q.sort_order a.time b.time)
              (paginate page pagination (matching_rows json confirmed txs q messages))
              (rw rows (
                paginate-IsSorted (before_in_time q.sort_order) page pagination
                  (sort_by (before_in_time q.sort_order) found)
                  (sort_by-IsSorted (before_in_time q.sort_order)
                    (earlier-IsWeakOrder q.sort_order (λ r. r.0.time)) found)))),
      )

  -- Where blocks are asked for and the order is by time, the sort order changes nothing: of rows that
  -- are read in the same order, both give the same page, whatever the times of the messages are.
  pub get_matching_messages_unordered :
      (f : MessageFilters) (page pagination : ℕ) (messages : List Message)
      → (f.start_block == 0 && f.end_block == 0) ≡ false
      → get_matching_messages json confirmed txs
          (record {
            filters = f;
            order_by = by_time;
            sort_order = ascending;
            page = page;
            pagination = pagination;
          })
          messages
        ≡ get_matching_messages json confirmed txs
            (record {
              filters = f;
              order_by = by_time;
              sort_order = descending;
              page = page;
              pagination = pagination;
            })
            messages
  unfolding matching_rows get_matching_messages make_matching_messages_query
  get_matching_messages_unordered f page pagination messages blocks =
      let joined : (not (f.start_block == 0) || not (f.end_block == 0)) ≡ true = ground arith in
      rw joined refl

  -- The unconfirmed messages: no more than the limit, each with a signature and without a confirmation
  -- on the chain, or on any chain if none is given.
  pub get_unconfirmed_messages_sound :
      (limit : ℕ) (chain : Option ℕ) (messages : List Message)
      → let found = get_unconfirmed_messages json confirmed txs limit chain messages in
        (length found ≤ limit)
        × All
            (λ m.
              (is_none m.signature ≡ false)
              × (any
                    (λ tx. confirmed m.item_hash tx.hash && is_of_chain json confirmed txs chain tx)
                    txs
                  ≡ false))
            found
  unfolding get_unconfirmed_messages
  get_unconfirmed_messages_sound limit chain messages =
      let q : Message → Bool = λ m.
        not (is_none m.signature)
        && not (
            any (λ tx. confirmed m.item_hash tx.hash && is_of_chain json confirmed txs chain tx)
              txs) in
      (
        length-take limit (keep q messages),
        All-take _ limit (keep q messages) (
            All-weaken (keep q messages) (λ m h. (ground (arith, h), ground (arith, h)))
              (All-keep_test q messages)),
      )
