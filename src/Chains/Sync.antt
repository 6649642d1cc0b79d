-- ===== src/Chains/Sync.antt =====
-- Reading back what is written of the synced ranges of a chain.
use py_aleph.Prelude.{
  ℕ, ◌<◌, ◌≡◌, refl, ◌∙◌, true, false, not, ◌||◌, some, List, [], ◌∷◌, ◌++◌, append-nil,
  append_assoc, arith, any, keep, keep-append, any-append, bind, map, All, All-append,
}
use py_aleph.Range.{Range, make_range, overlaps, is_strictly_left_of, place, place_all, add_range}
use py_aleph.Range.Points.{in_core, core_covers, IsValid}
use py_aleph.Range.Separated.{
  IsClosed, Before, IsSeparated, AllBefore, ListBefore, ListBefore-head, ListBefore-tail,
}
use py_aleph.Range.Multi.{add_range-IsSeparated}
use py_aleph.Chains.{
  EventType, message_event, sync_event, same_event_type, IndexerRow, ChainTables, to_range, is_of,
  insert_row, sort_rows, add_rows, row_of, has_key, insert_ranges, get_indexer_multirange,
  update_indexer_multirange, add_indexer_range,
}

-- A range after all others is put at the end.
left_of :
    (x r : Range)
    → IsClosed x
    → IsClosed r
    → x.upper < r.lower
    → (overlaps r x ≡ false) × (is_strictly_left_of x r ≡ true)
unfolding overlaps is_strictly_left_of
left_of x r v w h = ground arith

place_all-left :
    (r : Range) (l xs : List Range)
    → IsClosed r
    → All IsClosed xs
    → AllBefore xs r
    → place_all (record { other = r; left_ranges = l; right_ranges = [] }) xs
      ≡ some (record { other = r; left_ranges = l ++ xs; right_ranges = [] })
unfolding place_all place
place_all-left r l [] c v b = rw append-nil refl
place_all-left r l (x ∷ xs) c v b =
    let (o, s) = left_of x r v.0 c b.0 in
    rw (o, s) (place_all-left r (l ++ (x ∷ [])) xs c v.1 b.1 ∙ rw append_assoc refl)

-- Adding a range after all others puts it at the end.
add_range-last :
    (xs : List Range) (r : Range)
    → All IsClosed xs
    → IsClosed r
    → AllBefore xs r
    → add_range xs r ≡ some (xs ++ (r ∷ []))
unfolding add_range
add_range-last xs r v c b = rw (place_all-left r [] xs c v b) refl

IsSeparated-IsClosed : (xs : List Range) → IsSeparated xs → All IsClosed xs
IsSeparated-IsClosed [] s = tt
IsSeparated-IsClosed (x ∷ xs) s = (s.0, IsSeparated-IsClosed xs s.2)

same_event_type_refl : (e : EventType) → same_event_type e e ≡ true
same_event_type_refl message_event = refl
same_event_type_refl sync_event = refl

to_range-row_of :
    (chain : ℕ) (e : EventType) (now : ℕ) (r : Range)
    → IsValid r
    → to_range (row_of chain e now r) ≡ some r
unfolding to_range make_range
to_range-row_of chain e now r v = ground arith

module _ (chain : ℕ) (e : EventType) (now : ℕ) where
  abbrev rows_of : List Range → List IndexerRow
  rows_of rs = map (row_of chain e now) rs

  keep-rows_of : (rs : List Range) → keep (is_of chain e) (rows_of rs) ≡ rows_of rs
  keep-rows_of [] = refl
  keep-rows_of (r ∷ rs) = ground (arith, same_event_type_refl e, keep-rows_of rs)

  insert_row-rows_of :
      (r : Range) (rs : List Range)
      → Before r rs
      → IsValid r
      → insert_row (row_of chain e now r) (rows_of rs) ≡ row_of chain e now r ∷ rows_of rs
  unfolding insert_row
  insert_row-rows_of r [] b v = refl
  insert_row-rows_of r (s ∷ rs) b v = ground (arith, b.0)

  sort_rows-rows_of : (rs : List Range) → IsSeparated rs → sort_rows (rows_of rs) ≡ rows_of rs
  unfolding sort_rows
  sort_rows-rows_of [] s = refl
  sort_rows-rows_of (r ∷ rs) s = rw (sort_rows-rows_of rs s.2) (insert_row-rows_of r rs s.1 s.0.0)

  add_rows-rows_of :
      (done rs : List Range)
      → All IsClosed done
      → IsSeparated rs
      → ListBefore done rs
      → add_rows done (rows_of rs) ≡ some (done ++ rs)
  unfolding add_rows
  add_rows-rows_of done [] v s b = rw append-nil refl
  add_rows-rows_of done (r ∷ rs) v s b = rw (to_range-row_of chain e now r s.0.0) (
      rw (add_range-last done r v s.0 (ListBefore-head done r rs b)) (
        add_rows-rows_of (done ++ (r ∷ [])) rs (All-append IsClosed done (r ∷ []) v (s.0, tt)) s.2
          (All-append _ done (r ∷ []) (ListBefore-tail done r rs b) (s.1, tt))
        ∙ rw append_assoc refl))

  -- No row of another key is in the way.
  abbrev IsFree : List Range → List IndexerRow → Type 0
  IsFree rs rows = All (λ r. any (has_key (row_of chain e now r)) rows ≡ false) rs

  IsFree-append :
      (r : Range) (rs : List Range) (rows : List IndexerRow)
      → Before r rs
      → IsValid r
      → IsFree rs rows
      → IsFree rs (rows ++ (row_of chain e now r ∷ []))
  IsFree-append r [] rows b v f = tt
  IsFree-append r (s ∷ rs) rows b v f = (
    any-append (has_key (row_of chain e now s)) rows (row_of chain e now r ∷ [])
        ∙ ground (arith, f.0, b.0),
    IsFree-append r rs rows b.1 v f.1,
  )

  insert_ranges-rows_of :
      (rs : List Range) (rows : List IndexerRow)
      → IsSeparated rs
      → IsFree rs rows
      → insert_ranges chain e now rs rows ≡ some (rows ++ rows_of rs)
  unfolding insert_ranges
  insert_ranges-rows_of [] rows s f = rw append-nil refl
  insert_ranges-rows_of (r ∷ rs) rows s f = rw f.0 (
      insert_ranges-rows_of rs (rows ++ (row_of chain e now r ∷ [])) s.2
        (IsFree-append r rs rows s.1 s.0.0 f.1)
      ∙ rw append_assoc refl)

  any-others :
      (r : Range) (rows : List IndexerRow)
      → any (has_key (row_of chain e now r)) (keep (λ row. not (is_of chain e row)) rows) ≡ false
  any-others r [] = refl
  any-others r (x ∷ rows) = ground (arith, any-others r rows)

  others-IsFree :
      (rs : List Range) (rows : List IndexerRow)
      → IsFree rs (keep (λ row. not (is_of chain e row)) rows)
  others-IsFree [] rows = tt
  others-IsFree (r ∷ rs) rows = (any-others r rows, others-IsFree rs rows)

  keep-others :
      (rows : List IndexerRow)
      → keep (is_of chain e) (keep (λ row. not (is_of chain e row)) rows) ≡ []
  keep-others [] = refl
  keep-others (x ∷ rows) = ground (arith, keep-others rows)

  abbrev written : List Range → List IndexerRow → List IndexerRow
  written rs rows = keep (λ row. not (is_of chain e row)) rows ++ rows_of rs

  update-eq :
      {J : Type 0} (rs : List Range) (t : ChainTables J)
      → IsSeparated rs
      → update_indexer_multirange chain e now rs t
        ≡ some (record t { indexer = written rs t.indexer })
  unfolding update_indexer_multirange
  update-eq rs t s =
      rw
        (insert_ranges-rows_of rs (keep (λ row. not (is_of chain e row)) t.indexer) s
          (others-IsFree rs t.indexer))
        refl

  get-written :
      {J : Type 0} (rs : List Range) (t : ChainTables J)
      → IsSeparated rs
      → get_indexer_multirange chain e (record t { indexer = written rs t.indexer }) ≡ some rs
  unfolding get_indexer_multirange
  get-written rs t s =
      rw
        (keep-append (is_of chain e) (keep (λ row. not (is_of chain e row)) t.indexer) (rows_of rs))
        (rw (keep-others t.indexer, keep-rows_of rs)
          (rw (sort_rows-rows_of rs s) (add_rows-rows_of [] rs tt s tt)))

  -- What is written of separated ranges is read back: writing them does not raise, and reading gives
  -- the same ranges.
  pub get-update_indexer_multirange :
      {J : Type 0} (rs : List Range) (t : ChainTables J)
      → IsSeparated rs
      → bind (update_indexer_multirange chain e now rs t) (get_indexer_multirange chain e) ≡ some rs
  get-update_indexer_multirange rs t s = rw (update-eq rs t s) (get-written rs t s)

module _ {J : Type 0} (chain : ℕ) (e : EventType) (now x : ℕ) where
  -- Adding a closed range to the separated ranges that are synced does not raise, and the ranges that
  -- are read afterwards are separated and hold, from their lower ends on and below their upper ones,
  -- the points of the ranges before and of the new one.
  pub add_indexer_range-covers :
      (r : Range) (rs : List Range) (t : ChainTables J)
      → get_indexer_multirange chain e t ≡ some rs
      → IsSeparated rs
      → IsClosed r
      → (u : ChainTables J) × (ss : List Range) × (add_indexer_range chain e now r t ≡ some u)
        × (get_indexer_multirange chain e u ≡ some ss)
        × IsSeparated ss
        × (core_covers x ss ≡ (core_covers x rs || in_core x r))
  unfolding add_indexer_range
  add_indexer_range-covers r rs t g s c =
      let (ss, ea, sa, ca) = add_range-IsSeparated x rs r s c in
      (
        record t { indexer = written chain e now ss t.indexer },
        ss,
        rw (g, ea) (update-eq chain e now ss t sa),
        get-written chain e now ss t sa,
        sa,
        ca,
      )
