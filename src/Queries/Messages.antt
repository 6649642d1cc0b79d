-- ===== src/Queries/Messages.antt =====
-- make_matching_messages_query, count_matching_messages, get_matching_messages and
-- get_unconfirmed_messages of src/aleph/db/accessors/messages.py, and the parameters that
-- src/aleph/web/controllers/messages.py admits for them.
pub mod Fits
pub mod Laws
use py_aleph.Prelude.{
  ℕ, Bool, true, false, not, ◌&&◌, ◌||◌, Option, none, some, List, [], ◌∷◌, ◌++◌, ltb, leb, ◌==◌,
  if◌then◌else◌, any, keep, is_none, map, min, length,
}
use py_aleph.Status.{Error}
use py_aleph.Result.{Result, ok, ◌>>◌, raise_if}
use py_aleph.Node.{MessageType, Message}
use py_aleph.Chains.{ChainTx}
use py_aleph.Queries.{
  SortOrder, descending, SortBy, by_time, by_tx_time, is_by_tx_time, earlier, earlier_or_null,
  in_filter, in_filter?, tags_filter, coerce_to_datetime, from_date, until_date, sort_by, take,
  paginate,
}

-- The fields of the JSON content that filters read, as texts: `ref`, `item_hash`, `type`, and
-- `content.tags`.
pub record JsonColumns : Type 0 where
  pub ref : Message → Option ℕ
  pub item_hash : Message → Option ℕ
  pub type : Message → Option ℕ
  pub tags : Message → List ℕ

abbrev pub same_type : MessageType → MessageType → Bool
same_type MessageType.aggregate MessageType.aggregate = true
same_type MessageType.instance_ MessageType.instance_ = true
same_type MessageType.post MessageType.post = true
same_type MessageType.program MessageType.program = true
same_type MessageType.store MessageType.store = true
same_type MessageType.forget MessageType.forget = true
same_type _ _ = false

-- The filters; a list that is absent is empty, and a number that is absent is 0.
pub record MessageFilters : Type 0 where
  pub hashes : List ℕ
  pub addresses : List ℕ
  pub refs : List ℕ
  pub chains : List ℕ
  pub message_type : Option MessageType
  pub message_types : List MessageType
  pub start_date : ℕ
  pub end_date : ℕ
  pub start_block : ℕ
  pub end_block : ℕ
  pub content_hashes : List ℕ
  pub content_types : List ℕ
  pub tags : List ℕ
  pub channels : List ℕ

-- The filters, with the order and the page.
pub record MessageQuery : Type 0 where
  pub filters : MessageFilters
  pub order_by : SortBy
  pub sort_order : SortOrder
  pub page : ℕ
  pub pagination : ℕ

abbrev pub type_filter : Option MessageType → MessageType → Bool
type_filter none type = true
type_filter (some wanted) type = same_type wanted type

abbrev pub types_filter : List MessageType → MessageType → Bool
types_filter [] type = true
types_filter (wanted ∷ more) type = any (λ w. same_type w type) (wanted ∷ more)

-- A row of the subquery of the earliest confirmations, which groups by the hash and the height.
pub record Confirmation : Type 0 where
  pub height : ℕ
  pub earliest_confirmation : ℕ

abbrev pub add_to_groups : ℕ → ℕ → List Confirmation → List Confirmation
add_to_groups height datetime [] =
    (record { height = height; earliest_confirmation = datetime }) ∷ []
add_to_groups height datetime (g ∷ groups) =
    let rest = add_to_groups height datetime groups in
    if g.height == height
    then (record g { earliest_confirmation = min datetime g.earliest_confirmation }) ∷ groups
    else g ∷ rest

-- A message, and the group of confirmations that the outer join puts beside it.
abbrev pub MatchRow : Type 0
MatchRow = Message × Option Confirmation

abbrev pub outer_join : Message → List Confirmation → List MatchRow
outer_join m [] = (m, none) ∷ []
outer_join m (g ∷ groups) = map (λ c. (m, some c)) (g ∷ groups)

abbrev pub from_block : ℕ → Option Confirmation → Bool
from_block start_block none = true
from_block start_block (some c) = start_block == 0 || leb start_block c.height

abbrev pub until_block : ℕ → Option Confirmation → Bool
until_block end_block none = end_block == 0
until_block end_block (some c) = end_block == 0 || ltb c.height end_block

abbrev pub earliest_of : Option Confirmation → Option ℕ
earliest_of none = none
earliest_of (some c) = some c.earliest_confirmation

-- `order_by`: no column at all where blocks are asked for and the order is by time.
abbrev pub before_in_time : SortOrder → MatchRow → MatchRow → Bool
before_in_time order a b = earlier order a.0.time b.0.time

abbrev pub before_in_tx_time : SortOrder → MatchRow → MatchRow → Bool
before_in_tx_time order a b =
    earlier_or_null order (earliest_of a.1) (earliest_of b.1)
    || not (earlier_or_null order (earliest_of b.1) (earliest_of a.1)) && before_in_time order a b

abbrev pub is_joined : MessageQuery → Bool
is_joined q =
    is_by_tx_time q.order_by || (not (q.filters.start_block == 0) || not (q.filters.end_block == 0))

abbrev pub order_of : SortBy → Bool → SortOrder → MatchRow → MatchRow → Bool
order_of by_tx_time joined order = before_in_tx_time order
order_of by_time true order = λ a b. false
order_of by_time false order = before_in_time order

abbrev pub comes_before : MessageQuery → MatchRow → MatchRow → Bool
comes_before q = order_of q.order_by (is_joined q) q.sort_order

module _ {J : Type 0} (json : JsonColumns) (confirmed : ℕ → ℕ → Bool) (txs : List (ChainTx J)) where
  -- The filters on the columns of the message.
  unfoldable pub matches : MessageFilters → Message → Bool
  unfolding coerce_to_datetime
  matches f m =
      in_filter f.hashes m.item_hash
      && (in_filter f.addresses m.sender
          && (in_filter f.chains m.chain
              && (types_filter f.message_types m.type
                  && (type_filter f.message_type m.type
                      && (from_date (coerce_to_datetime (some f.start_date)) m.time
                          && (until_date (coerce_to_datetime (some f.end_date)) m.time
                              && (in_filter? f.refs (json.ref m)
                                  && (in_filter? f.content_hashes (json.item_hash m)
                                      && (in_filter? f.content_types (json.type m)
                                          && (tags_filter f.tags (json.tags m)
                                              && in_filter? f.channels m.channel))))))))))

  -- The groups of the transactions that confirm a message.
  abbrev pub add_groups : ℕ → List (ChainTx J) → List Confirmation
  add_groups h [] = []
  add_groups h (tx ∷ more) =
      let groups = add_groups h more in
      if confirmed h tx.hash then add_to_groups tx.height tx.datetime groups else groups

  unfoldable pub select_earliest_confirmation : Message → List Confirmation
  select_earliest_confirmation m = add_groups m.item_hash txs

  -- The rows, joined or not.
  abbrev pub rows_of : Bool → Message → List MatchRow
  rows_of false m = (m, none) ∷ []
  rows_of true m = outer_join m (select_earliest_confirmation m)

  abbrev pub join_rows : Bool → List Message → List MatchRow
  join_rows joined [] = []
  join_rows joined (m ∷ ms) = rows_of joined m ++ join_rows joined ms

  abbrev pub in_blocks : MessageFilters → MatchRow → Bool
  in_blocks f r = from_block f.start_block r.1 && until_block f.end_block r.1

  -- The rows that match.
  abbrev pub found_rows : Bool → MessageFilters → List Message → List MatchRow
  found_rows joined f messages =
      let found = join_rows joined (keep (matches f) messages) in
      if joined then keep (in_blocks f) found else found

  -- In their order. Rows that no column of the order tells apart, which are all of them where there is
  -- none, may come in any order: they come as this execution of the query reads them, which is the
  -- order of `messages`. Another execution, for another page, may read them in another order.
  unfoldable pub matching_rows : MessageQuery → List Message → List MatchRow
  matching_rows q messages = sort_by (comes_before q) (found_rows (is_joined q) q.filters messages)

  -- `make_matching_messages_query`, executed.
  unfoldable pub make_matching_messages_query : MessageQuery → List Message → List Message
  unfolding matching_rows paginate
  make_matching_messages_query q messages =
      map (λ r. r.0) (paginate q.page q.pagination (matching_rows q messages))

  unfoldable pub get_matching_messages : MessageQuery → List Message → List Message
  unfolding make_matching_messages_query
  get_matching_messages q messages = make_matching_messages_query q messages

  -- `count_matching_messages`: `kwargs` says whether any further argument was given, and `fast_count`
  -- is the estimate of the database. The order and the page are not passed on.
  unfoldable pub count_matching_messages : Bool → ℕ → MessageQuery → List Message → ℕ
  unfolding make_matching_messages_query
  count_matching_messages kwargs fast_count q messages =
      if kwargs || (not (q.filters.start_date == 0) || not (q.filters.end_date == 0))
      then length (
          make_matching_messages_query
            (record {
              filters = q.filters;
              order_by = by_time;
              sort_order = descending;
              page = 1;
              pagination = 0;
            })
            messages)
      else fast_count

  -- `get_unconfirmed_messages`.
  abbrev pub is_of_chain : Option ℕ → ChainTx J → Bool
  is_of_chain none tx = true
  is_of_chain (some chain) tx = tx.chain == chain

  unfoldable pub get_unconfirmed_messages : ℕ → Option ℕ → List Message → List Message
  get_unconfirmed_messages limit chain messages = take limit (
      keep
        (λ m.
          not (is_none m.signature)
          && not (any (λ tx. confirmed m.item_hash tx.hash && is_of_chain chain tx) txs))
        messages)

-- `validate_field_dependencies` of the parameters of a listing.
abbrev pub check_order : ℕ → ℕ → Result (Unit {0})
check_order start end = raise_if (not (start == 0) && (not (end == 0) && ltb end start)) Error.other

unfoldable pub validate_field_dependencies : MessageFilters → Result (Unit {0})
validate_field_dependencies f =
    check_order f.start_date f.end_date >> check_order f.start_block f.end_block

-- `view_messages_list`: a page of the path takes the place of the parameter's, which is at least 1;
-- for the page 0, the offset is negative and the database refuses it. The response has the messages
-- and the total.
abbrev pub page_of : Option ℕ → ℕ → ℕ
page_of none page = page
page_of (some url_page) page = url_page

abbrev pub check_page : MessageQuery → Result (Unit {0})
check_page q = raise_if (q.page == 0 && not (q.pagination == 0)) Error.other

module _ {J : Type 0} (json : JsonColumns) (confirmed : ℕ → ℕ → Bool) (txs : List (ChainTx J)) where
  unfoldable pub view_messages_list :
      ℕ → Option ℕ → MessageQuery → List Message → Result (List Message × ℕ)
  unfolding validate_field_dependencies get_matching_messages count_matching_messages
  view_messages_list fast_count url_page q messages =
      validate_field_dependencies q.filters
      >> (let u : MessageQuery = record q { page = page_of url_page q.page } in
          check_page u
          >> ok (
            get_matching_messages json confirmed txs u messages,
            count_matching_messages json confirmed txs true fast_count u messages,
          ))
