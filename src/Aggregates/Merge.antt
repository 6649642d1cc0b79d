-- ===== src/Aggregates/Merge.antt =====
-- That an aggregate follows from its elements, through the handler of aggregate.py.
use py_aleph.Prelude.{
  first-append, first-new, ℕ, ◌≤◌, ◌<◌, ◌≡◌, refl, sym, ap, ◌∙◌, Bool, true, false, some, [], ◌∷◌,
  ◌++◌, arith, ◌==◌, any, All,
}
use py_aleph.Result.{ok}
use py_aleph.Aggregates.{
  keys, get_field, Element, Aggregate, AggregateTables, merge_from, merge_aggregate_elements,
  sort_from, get_aggregate_elements, insert_aggregate_element, update_row, updated, last_revision,
  append_to_aggregate, prepend_to_aggregate, update_out_of_order, update_aggregate, process_element,
}
use py_aleph.Aggregates.Order.{
  or_field, get_field-append, merge_from-field, All-first, merged-later, merged-earlier,
  no_conflict, get_field-one,
}

-- At this key, the aggregate has what its elements give, merged in the order of their times.
abbrev pub IsMerged : ℕ → Aggregate → AggregateTables → Type 0
IsMerged k a t =
    get_field a.content k ≡ get_field (merge_aggregate_elements (get_aggregate_elements t)) k

abbrev added : Element → AggregateTables → AggregateTables
added e t = record t { elements = t.elements ++ (e ∷ []) }

abbrev appended : Element → Aggregate → Aggregate
appended e a = updated (merge_aggregate_elements (e ∷ [])) a.creation e.item_hash false a

abbrev prepended : Element → Aggregate → Aggregate
prepended e a = updated (merge_aggregate_elements (e ∷ [])) e.creation a.last_revision_hash true a

module _ (excluded owner : ℕ) (k : ℕ) (e last : Element) (a : Aggregate) (t : AggregateTables) where
  -- For an owner that is not the one that `_update_aggregate` leaves out: a new element of a
  -- merged aggregate that is not dirty, later than all elements before, is appended: the aggregate
  -- has at each key what all its elements give in the order of their times, and the element is the
  -- last revision.
  pub process_element-append :
      (owner == excluded) ≡ false
      → t.aggregate ≡ some a
      → a.dirty ≡ false
      → last_revision a t ≡ some last
      → any (λ x. x.item_hash == e.item_hash) t.elements ≡ false
      → All (λ x. x.creation < e.creation) t.elements
      → IsMerged k a t
      → (u : AggregateTables) × (b : Aggregate) × (process_element excluded owner e t ≡ ok u)
        × (u.aggregate ≡ some b)
        × (last_revision b u ≡ some e)
        × IsMerged k b u
  unfolding process_element insert_aggregate_element update_aggregate append_to_aggregate update_row
      merge_aggregate_elements merge_from get_aggregate_elements
  process_element-append o ea ed el new later m =
      let same : Element → Bool = λ x. x.item_hash == a.last_revision_hash in
      (
        record (added e t) { aggregate = some (appended e a) },
        appended e a,
        ground (
          arith,
          o,
          ea,
          ed,
          new,
          first-append same t.elements (e ∷ []) last el,
          All-first (λ x. x.creation < e.creation) same t.elements el later,
        ),
        refl,
        first-new (λ x. x.item_hash == e.item_hash) t.elements e new (ground arith),
        get_field-append (e.content ++ []) a.content k
            ∙ (ap (λ x. or_field x (get_field a.content k)) (get_field-one e k)
                ∙ (ap (or_field (get_field e.content k)) m
                    ∙ (sym (get_field-append e.content (merge_from [] (sort_from [] t.elements)) k)
                        ∙ ap (λ f. get_field f k) (sym (merged-later e t.elements later))))),
      )

  -- A new element of a merged aggregate that is not dirty, earlier than all elements before and than
  -- the aggregate, is prepended: the aggregate has at each key what all its elements give in the
  -- order of their times, and the last revision stays.
  pub process_element-prepend :
      (owner == excluded) ≡ false
      → t.aggregate ≡ some a
      → a.dirty ≡ false
      → last_revision a t ≡ some last
      → any (λ x. x.item_hash == e.item_hash) t.elements ≡ false
      → All (λ x. e.creation < x.creation) t.elements
      → e.creation < a.creation
      → IsMerged k a t
      → (u : AggregateTables) × (b : Aggregate) × (process_element excluded owner e t ≡ ok u)
        × (u.aggregate ≡ some b)
        × (last_revision b u ≡ some last)
        × IsMerged k b u
  unfolding process_element insert_aggregate_element update_aggregate prepend_to_aggregate
      update_row merge_aggregate_elements merge_from get_aggregate_elements
  process_element-prepend o ea ed el new earlier before m =
      let same : Element → Bool = λ x. x.item_hash == a.last_revision_hash in
      (
        record (added e t) { aggregate = some (prepended e a) },
        prepended e a,
        ground (
          arith,
          o,
          ea,
          ed,
          new,
          before,
          first-append same t.elements (e ∷ []) last el,
          All-first (λ x. e.creation < x.creation) same t.elements el earlier,
        ),
        refl,
        first-append same t.elements (e ∷ []) last el,
        get_field-append a.content (e.content ++ []) k
            ∙ (ap (λ x. or_field x (get_field (e.content ++ []) k)) m
                ∙ (sym (merge_from-field (e.content ++ []) (sort_from [] t.elements) k)
                    ∙ ap (λ f. get_field f k) (sym (merged-earlier e t.elements earlier)))),
      )

  -- A new element of an aggregate that is not dirty, no later than the last revision and no earlier
  -- than the aggregate, is appended all the same: its fields replace those of later elements, and it
  -- counts as the last revision.
  pub process_element_out_of_order :
      (owner == excluded) ≡ false
      → t.aggregate ≡ some a
      → a.dirty ≡ false
      → last_revision a t ≡ some last
      → any (λ x. x.item_hash == e.item_hash) t.elements ≡ false
      → e.creation ≤ last.creation
      → a.creation ≤ e.creation
      → (u : AggregateTables) × (b : Aggregate) × (process_element excluded owner e t ≡ ok u)
        × (u.aggregate ≡ some b)
        × (b.last_revision_hash ≡ e.item_hash)
        × (get_field b.content k ≡ or_field (get_field e.content k) (get_field a.content k))
  unfolding process_element insert_aggregate_element update_aggregate update_out_of_order
      append_to_aggregate update_row merge_aggregate_elements merge_from
  process_element_out_of_order o ea ed el new before after =
      let same : Element → Bool = λ x. x.item_hash == a.last_revision_hash in
      (
        record (added e t) { aggregate = some (appended e a) },
        appended e a,
        ground (
          arith,
          o,
          ea,
          ed,
          new,
          before,
          after,
          first-append same t.elements (e ∷ []) last el,
          no_conflict (keys a.content),
        ),
        refl,
        refl,
        get_field-append (e.content ++ []) a.content k
            ∙ ap (λ x. or_field x (get_field a.content k)) (get_field-one e k),
      )
