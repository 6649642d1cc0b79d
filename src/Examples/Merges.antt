-- ===== src/Examples/Merges.antt =====
-- Runs of aggregate.py.
use py_aleph.Prelude.{ℕ, ◌≡◌, refl, false, some, [], ◌∷◌, arith}
use py_aleph.Result.{ok}
use py_aleph.Aggregates.{
  get_field, Element, Aggregate, AggregateTables, last_revision, process_element,
  get_aggregate_elements, merge_aggregate_elements,
}
use py_aleph.Aggregates.Merge.{IsMerged, process_element-append}

abbrev element : ℕ → ℕ → ℕ → Element
element item_hash creation value = record {
  item_hash = item_hash;
  content = (1, value) ∷ [];
  creation = creation;
}

-- Two elements set the key 1, at the times 10 and 30.
abbrev merged : Aggregate
merged = record {
  content = (1, 30) ∷ (1, 10) ∷ [];
  creation = 10;
  last_revision_hash = 103;
  dirty = false;
}

abbrev tables : AggregateTables
tables = record { aggregate = some merged; elements = element 101 10 10 ∷ element 103 30 30 ∷ [] }

tables-IsMerged : IsMerged 1 merged tables
unfolding get_field merge_aggregate_elements get_aggregate_elements
tables-IsMerged = refl

process_element-append_example :
    (u : AggregateTables) × (b : Aggregate) × (process_element 0 5 (element 104 40 40) tables
      ≡ ok u)
    × (u.aggregate ≡ some b)
    × (last_revision b u ≡ some (element 104 40 40))
    × IsMerged 1 b u
process_element-append_example =
    process_element-append 0 5 1 (element 104 40 40) (element 103 30 30) merged tables refl refl
      refl refl refl (omega arith, (omega arith, tt)) tables-IsMerged

-- What is left after the message of the hash 103 was forgotten.
abbrev left : Aggregate
left = record { content = (1, 10) ∷ []; creation = 10; last_revision_hash = 101; dirty = false }

abbrev left_tables : AggregateTables
left_tables = record { aggregate = some left; elements = element 101 10 10 ∷ [] }
