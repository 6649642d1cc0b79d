-- ===== src/Queries/Status.antt =====
-- The views of one message and of the hashes, of src/aleph/web/controllers/messages.py, and the queries
-- of the hashes of src/aleph/db/accessors/messages.py.
pub mod Laws
pub mod Hashes
use py_aleph.Prelude.{
  ℕ, Bool, true, false, not, ◌&&◌, Option, none, some, List, ◌==◌, if◌then◌else◌, keep, length, map,
}
use py_aleph.Status.{MessageStatus}
use py_aleph.Node.{
  Content, aggregate_content, post_content, store_content, forget_content, vm_content, Message,
  StatusRow, Forgotten, Pending, Rejected, Tables,
}
use py_aleph.Node.Accessors.{get_message_by_item_hash, get_message_status, get_forgotten_message}
use py_aleph.Queries.{
  SortOrder, ascending, earlier, coerce_to_datetime, from_date, until_date, sort_by, paginate,
}

-- The exceptions of aiohttp that the views raise.
pub data HttpError : Type 0 where
  not_found bad_request unprocessable_entity entity_too_large forbidden payment_required : HttpError

pub data Response {ℓ} (A : Type ℓ) : Type ℓ where
  http_error : HttpError → Response A
  response : A → Response A

abbrev pub respond {ℓ} : {A B : Type ℓ} → Response A → (A → Response B) → Response B
respond (http_error e) next = http_error e
respond (response a) next = next a

-- `MessageWithStatus`: the hash and the reception time, with what the status adds.
pub data StatusBody : Type 0 where
  pending_status : List Pending → StatusBody
  processed_status : Message → StatusBody
  forgotten_status : Forgotten → StatusBody
  rejected_status : Rejected → StatusBody

pub record MessageWithStatus : Type 0 where
  pub item_hash : ℕ
  pub reception_time : ℕ
  pub body : StatusBody

abbrev pub status_of : StatusBody → MessageStatus
status_of (pending_status messages) = MessageStatus.pending
status_of (processed_status message) = MessageStatus.processed
status_of (forgotten_status message) = MessageStatus.forgotten
status_of (rejected_status message) = MessageStatus.rejected

-- `get_pending_messages` and `get_rejected_message`.
unfoldable pub get_pending_messages : ℕ → Tables → List Pending
get_pending_messages item_hash t =
    sort_by (λ p q. earlier ascending p.time q.time)
      (keep (λ p. p.item_hash == item_hash) t.pending)

unfoldable pub get_rejected_message : Tables → ℕ → Option Rejected
get_rejected_message t item_hash = t.rejected item_hash

-- `_get_message_with_status`.
abbrev pub or_not_found : {A B : Type 0} → (A → B) → Option A → Response B
or_not_found f none = http_error not_found
or_not_found f (some a) = response (f a)

abbrev pub body_of : ℕ → MessageStatus → Tables → Response StatusBody
body_of h MessageStatus.pending t = response (pending_status (get_pending_messages h t))
body_of h MessageStatus.processed t = or_not_found processed_status (get_message_by_item_hash t h)
body_of h MessageStatus.forgotten t = or_not_found forgotten_status (get_forgotten_message t h)
body_of h MessageStatus.rejected t = or_not_found rejected_status (get_rejected_message t h)

unfoldable pub get_message_with_status : ℕ → StatusRow → Tables → Response MessageWithStatus
get_message_with_status h row t =
    respond (body_of h row.status t)
      λ body. response (record { item_hash = h; reception_time = row.reception_time; body = body })

-- The hash of the request: missing or empty, no `ItemHash`, or a hash.
module _ (is_item_hash : ℕ → Bool) where
  abbrev pub request_hash : Option ℕ → Response ℕ
  request_hash none = http_error unprocessable_entity
  request_hash (some h) = if is_item_hash h then response h else http_error bad_request

  abbrev pub request_status : Option ℕ → Tables → Response (ℕ × StatusRow)
  request_status given t =
      respond (request_hash given) λ h. or_not_found (λ row. (h, row)) (get_message_status t h)

  -- `view_message`.
  unfoldable pub view_message : Option ℕ → Tables → Response MessageWithStatus
  unfolding get_message_with_status
  view_message given t =
      respond (request_status given t) λ found. get_message_with_status found.0 found.1 t

  -- `view_message_content`: the content of a processed post.
  abbrev pub content_of_post : Content → Response ℕ
  content_of_post (post_content c) = response c.body
  content_of_post (aggregate_content c) = http_error unprocessable_entity
  content_of_post (store_content c) = http_error unprocessable_entity
  content_of_post (forget_content c) = http_error unprocessable_entity
  content_of_post (vm_content c) = http_error unprocessable_entity

  abbrev pub content_of_body : StatusBody → Response ℕ
  content_of_body (processed_status message) = content_of_post message.content
  content_of_body (pending_status messages) = http_error unprocessable_entity
  content_of_body (forgotten_status message) = http_error unprocessable_entity
  content_of_body (rejected_status message) = http_error unprocessable_entity

  unfoldable pub view_message_content : Option ℕ → Tables → Response ℕ
  unfolding view_message
  view_message_content given t = respond (view_message given t) λ found. content_of_body found.body

  -- `view_message_status`: `MessageStatusInfo` has the status and the reception time.
  unfoldable pub view_message_status : Option ℕ → Tables → Response StatusRow
  view_message_status given t = respond (request_status given t) λ found. response found.1

-- `make_matching_hashes_query` over the rows of message statuses, each with its hash.
pub record HashQuery : Type 0 where
  pub start_date : ℕ
  pub end_date : ℕ
  pub status : Option MessageStatus
  pub sort_order : SortOrder
  pub page : ℕ
  pub pagination : ℕ

abbrev pub same_status : MessageStatus → MessageStatus → Bool
same_status MessageStatus.pending MessageStatus.pending = true
same_status MessageStatus.processed MessageStatus.processed = true
same_status MessageStatus.rejected MessageStatus.rejected = true
same_status MessageStatus.forgotten MessageStatus.forgotten = true
same_status _ _ = false

abbrev pub status_filter : Option MessageStatus → MessageStatus → Bool
status_filter none status = true
status_filter (some wanted) status = same_status wanted status

unfoldable pub hash_matches : HashQuery → ℕ × StatusRow → Bool
unfolding coerce_to_datetime
hash_matches q (h, row) =
    from_date (coerce_to_datetime (some q.start_date)) row.reception_time
    && (until_date (coerce_to_datetime (some q.end_date)) row.reception_time
        && status_filter q.status row.status)

abbrev pub hash_before : HashQuery → ℕ × StatusRow → ℕ × StatusRow → Bool
hash_before q a b = earlier q.sort_order a.1.reception_time b.1.reception_time

unfoldable pub make_matching_hashes_query : HashQuery → List (ℕ × StatusRow) → List (ℕ × StatusRow)
unfolding hash_matches paginate
make_matching_hashes_query q rows =
    paginate q.page q.pagination (sort_by (hash_before q) (keep (hash_matches q) rows))

unfoldable pub get_matching_hashes : HashQuery → List (ℕ × StatusRow) → List (ℕ × StatusRow)
unfolding make_matching_hashes_query
get_matching_hashes q rows = make_matching_hashes_query q rows

-- `count_matching_hashes`: the page is passed on, but not the pagination.
unfoldable pub count_matching_hashes : HashQuery → List (ℕ × StatusRow) → ℕ
unfolding make_matching_hashes_query
count_matching_hashes q rows =
    length (make_matching_hashes_query (record q { pagination = 0 }) rows)

-- `view_message_hashes` with the parameter `hash_only`, and the total.
unfoldable pub view_message_hashes : HashQuery → List (ℕ × StatusRow) → List ℕ × ℕ
unfolding get_matching_hashes count_matching_hashes
view_message_hashes q rows =
    (map (λ r. r.0) (get_matching_hashes q rows), count_matching_hashes q rows)
