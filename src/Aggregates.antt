-- ===== src/Aggregates.antt =====
-- src/aleph/handlers/content/aggregate.py and src/aleph/db/accessors/aggregates.py: the rows of one
-- owner and key, which every statement but the deletion of an element selects by.

mod Order
pub mod Merge
use mathlib.Core.Option
use py_aleph.Prelude.{
  ℕ, min, ◌+◌, Bool, true, false, not, ◌&&◌, Option, none, some, List, [], ◌∷◌, ◌++◌, map, ltb, leb,
  ◌==◌, if◌then◌else◌, any, keep, first, length,
}
use py_aleph.Status.{Error}
use py_aleph.Result.{Result, ok, raise, ◌>>=◌}

-- A JSON object, as the list of its fields, of which the first of a key counts.
abbrev pub Fields : Type 0
Fields = List (ℕ × ℕ)

unfoldable pub get_field : Fields → ℕ → Option ℕ
get_field [] key = none
get_field ((k, v) ∷ rest) key = if k == key then some v else get_field rest key

-- `old.update(new)`, and `old || new` of JSON objects in the database.
abbrev pub dict_update : Fields → Fields → Fields
dict_update old new = new ++ old

-- `AggregateElementDb`, without owner and key.
pub record Element : Type 0 where
  pub item_hash : ℕ
  pub content : Fields
  pub creation : ℕ

-- `AggregateDb`, without owner and key.
pub record Aggregate : Type 0 where
  pub content : Fields
  pub creation : ℕ
  pub last_revision_hash : ℕ
  pub dirty : Bool

pub record AggregateTables : Type 0 where
  pub aggregate : Option Aggregate
  pub elements : List Element

pub merge_from : Fields → List Element → Fields
merge_from content [] = content
merge_from content (element ∷ elements) = merge_from (dict_update content element.content) elements

unfoldable pub merge_aggregate_elements : List Element → Fields
unfolding merge_from
merge_aggregate_elements elements = merge_from [] elements

-- `order_by(creation_datetime)`; of equal times the table's order is kept.
pub insert_by_time : Element → List Element → List Element
insert_by_time e [] = e ∷ []
insert_by_time e (x ∷ xs) =
    let rest = insert_by_time e xs in if ltb e.creation x.creation then e ∷ x ∷ xs else x ∷ rest

pub sort_from : List Element → List Element → List Element
sort_from sorted [] = sorted
sort_from sorted (x ∷ xs) = sort_from (insert_by_time x sorted) xs

unfoldable pub get_aggregate_elements : AggregateTables → List Element
unfolding sort_from insert_by_time
get_aggregate_elements t = sort_from [] t.elements

-- The primary key refuses a second element of a message.
unfoldable pub insert_aggregate_element : Element → AggregateTables → Result AggregateTables
insert_aggregate_element e t =
    if any (λ x. x.item_hash == e.item_hash) t.elements
    then raise Error.other
    else ok (record t { elements = t.elements ++ (e ∷ []) })

abbrev pub updated : Fields → ℕ → ℕ → Bool → Aggregate → Aggregate
updated content creation last prepend a = record a {
  content = if prepend then dict_update content a.content else dict_update a.content content;
  creation = creation;
  last_revision_hash = last;
}

-- `update_aggregate` of the accessors.
unfoldable pub update_row : Fields → ℕ → ℕ → Bool → AggregateTables → AggregateTables
update_row content creation last prepend t = record t {
  aggregate = Option.map (updated content creation last prepend) t.aggregate;
}

abbrev pub last_of : Element → List Element → Element
last_of e [] = e
last_of e (x ∷ xs) = last_of x xs

-- `aggregate.last_revision`, by its foreign key.
abbrev pub last_revision : Aggregate → AggregateTables → Option Element
last_revision a t = first (λ x. x.item_hash == a.last_revision_hash) t.elements

-- `_append_to_aggregate` and `_prepend_to_aggregate`, of the new elements `e ∷ es`.
unfoldable pub append_to_aggregate :
    Aggregate → Element → List Element → AggregateTables → AggregateTables
unfolding update_row merge_aggregate_elements
append_to_aggregate a e es t =
    update_row (merge_aggregate_elements (e ∷ es)) a.creation (last_of e es).item_hash false t

unfoldable pub prepend_to_aggregate :
    Aggregate → Element → List Element → AggregateTables → AggregateTables
unfolding update_row merge_aggregate_elements
prepend_to_aggregate a e es t =
    update_row (merge_aggregate_elements (e ∷ es)) e.creation a.last_revision_hash true t

abbrev pub keys : Fields → List ℕ
keys fields = map (λ f. f.0) fields

-- `set(itertools.chain(element.content.keys for element in elements))`: a set of methods, so no key
-- is in it.
abbrev pub new_keys : List Element → List ℕ
new_keys elements = []

abbrev pub is_nonempty : List ℕ → Bool
is_nonempty [] = false
is_nonempty (x ∷ xs) = true

-- The latest element of the table, from `best` on.
abbrev pub latest_from : Element → List Element → Element
latest_from best [] = best
latest_from best (x ∷ xs) = latest_from (if ltb best.creation x.creation then x else best) xs

abbrev pub earliest_time : ℕ → List Element → ℕ
earliest_time time [] = time
earliest_time time (x ∷ xs) = earliest_time (min time x.creation) xs

abbrev pub merged_row : Element → List Element → List Element → Aggregate
merged_row latest sorted elements = record {
  content = merge_aggregate_elements sorted;
  creation = earliest_time latest.creation elements;
  last_revision_hash = latest.item_hash;
  dirty = false;
}

abbrev pub refresh_from : List Element → AggregateTables → Result AggregateTables
refresh_from [] t = ok t
refresh_from (x ∷ xs) t =
    let latest = latest_from x xs in
    if ltb 1 (length (keep (λ y. y.creation == latest.creation) (x ∷ xs)))
    then raise Error.other
    else ok (record t { aggregate = some (merged_row latest (get_aggregate_elements t) (x ∷ xs)) })

-- `refresh_aggregate`: without elements nothing is written; two elements of the latest time make two
-- rows of one key, which the upsert refuses.
unfoldable pub refresh_aggregate : AggregateTables → Result AggregateTables
unfolding get_aggregate_elements merge_aggregate_elements
refresh_aggregate t = refresh_from t.elements t

abbrev pub dirty_threshold : ℕ
dirty_threshold = 1000

-- The part of `_update_aggregate` after the two cases of elements in order.
unfoldable pub update_out_of_order :
    Aggregate → Element → Element → List Element → AggregateTables → Result AggregateTables
unfolding append_to_aggregate refresh_aggregate
update_out_of_order a last e es t =
    let conflicting = keep (λ k. any (λ j. j == k) (new_keys (e ∷ es))) (keys a.content) in
    let requiring = keep (λ k. not (any (λ j. j == k) (keys last.content))) (new_keys (e ∷ es)) in
    if not (is_nonempty conflicting)
    then ok (append_to_aggregate a e es t)
    else if not (is_nonempty requiring)
    then ok t
    else if ltb dirty_threshold (length t.elements)
    then ok (record t { aggregate = some (record a { dirty = true }) })
    else refresh_aggregate t

abbrev pub update_by_time :
    Aggregate → Option Element → Element → List Element → AggregateTables → Result AggregateTables
update_by_time a none e es t = raise Error.other
update_by_time a (some last) e es t =
    if ltb last.creation e.creation
    then ok (append_to_aggregate a e es t)
    else if ltb (last_of e es).creation a.creation
    then ok (prepend_to_aggregate a e es t)
    else update_out_of_order a last e es t

abbrev pub update_from :
    Option Aggregate → Element → List Element → AggregateTables → Result AggregateTables
update_from none e es t = ok (record t {
  aggregate = some (record {
    content = merge_aggregate_elements (e ∷ es);
    creation = e.creation;
    last_revision_hash = (last_of e es).item_hash;
    dirty = false;
  });
})
update_from (some a) e es t = if a.dirty then ok t else update_by_time a (last_revision a t) e es t

-- `_update_aggregate`; one owner, `excluded`, is left out.
unfoldable pub update_aggregate :
    ℕ → ℕ → Element → List Element → AggregateTables → Result AggregateTables
unfolding append_to_aggregate prepend_to_aggregate merge_aggregate_elements update_out_of_order
update_aggregate excluded owner e es t =
    if owner == excluded then ok t else update_from t.aggregate e es t

-- `process` of one message, as the message handler calls it.
unfoldable pub process_element : ℕ → ℕ → Element → AggregateTables → Result AggregateTables
unfolding insert_aggregate_element update_aggregate
process_element excluded owner e t =
    insert_aggregate_element e t >>= λ t'. update_aggregate excluded owner e [] t'

-- `forget_message`: the aggregate and the element of the message are deleted, and the aggregate is
-- made again of the elements that are left.
unfoldable pub forget_element : ℕ → AggregateTables → Result AggregateTables
unfolding refresh_aggregate
forget_element item_hash t =
    refresh_aggregate (record {
      aggregate = none;
      elements = keep (λ x. not (x.item_hash == item_hash)) t.elements;
    })
