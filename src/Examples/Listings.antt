-- ===== src/Examples/Listings.antt =====
-- Runs of the listings, the views of one message, the pagination and the broadcast of a message.
use py_aleph.Prelude.{
  ℕ, ◌*◌, ◌<◌, ◌≤◌, ◌≡◌, refl, Bool, true, false, ◌&&◌, ◌↔◌, any, ◌==◌, if◌then◌else◌, Bool-cases,
  inl, inr, none, some, List, [], ◌∷◌, length, arith,
}
use py_aleph.Status.{MessageStatus, MessageProcessingStatus}
use py_aleph.Result.{ok}
use py_aleph.Node.{named, Message, StatusRow, Tables}
use py_aleph.Node.Accessors.{get_message_status}
use py_aleph.Node.Consistent.{IsConsistent}
use py_aleph.Chains.{ChainTx}
use py_aleph.Posts.{PostTables, Post, get_post}
use py_aleph.Permissions.{is_empty}
use py_aleph.Queries.{descending, by_time}
use py_aleph.Queries.Pages.{pages}
use py_aleph.Queries.Messages.{
  JsonColumns, MessageFilters, MessageQuery, matches, get_matching_messages,
  count_matching_messages,
}
use py_aleph.Queries.Messages.Laws.{at_page, IsInOrder, get_matching_messages-IsSorted}
use py_aleph.Queries.Messages.Fits.{SomeFits}
use py_aleph.Queries.Status.{response, MessageWithStatus, status_of, view_message}
use py_aleph.Queries.Status.Laws.{view_message-IsConsistent}
use py_aleph.Queries.Socket.{Attributes, message_matches_filters, message_matches_filters-matches}
use py_aleph.Queries.Posts.{PostQuery, get_matching_posts, count_matching_posts}
use py_aleph.Queries.Posts.One.{only_hash, at_most_one, get_matching_posts-get_post}
use py_aleph.Web.Pagination.{Pagination, pages_of, pages_of-pages}
use py_aleph.Web.Broadcast.{
  BroadcastStatus, pub_message, code_of, pub_message-code_of, pub_on_p2p_topics,
}
use py_aleph.Examples.{post}

abbrev json : JsonColumns
json = record { ref = λ m. none; item_hash = λ m. none; type = λ m. some 1; tags = λ m. 4 ∷ [] }

abbrev unconfirmed : ℕ → ℕ → Bool
unconfirmed h tx = false

abbrev no_txs : List (ChainTx ℕ)
no_txs = []

-- Those of the sender 5 with the tag 4.
abbrev filters : MessageFilters
filters = record {
  hashes = [];
  addresses = 5 ∷ [];
  refs = [];
  chains = [];
  message_type = none;
  message_types = [];
  start_date = 0;
  end_date = 0;
  start_block = 0;
  end_block = 0;
  content_hashes = [];
  content_types = [];
  tags = 4 ∷ [];
  channels = [];
}

abbrev query : MessageQuery
query = record {
  filters = filters;
  order_by = by_time;
  sort_order = descending;
  page = 1;
  pagination = 2;
}

-- Three messages, of the times 100, 101 and 102, the second of another sender.
abbrev messages : List Message
messages =
    post
    ∷ (record post { item_hash = 8; sender = 6; time = 101 })
    ∷ (record post { item_hash = 9; time = 102 })
    ∷ []

get_matching_messages-IsSorted_example :
    (length (get_matching_messages json unconfirmed no_txs (at_page 1 0 query) messages)
      ≡ count_matching_messages json unconfirmed no_txs true 0 query messages)
    × ((p : Message → Bool)
        → (any p (get_matching_messages json unconfirmed no_txs (at_page 1 0 query) messages)
            ≡ true)
          ↔ SomeFits json unconfirmed no_txs p filters messages)
    × ((page pagination : ℕ)
        → IsInOrder descending (
            get_matching_messages json unconfirmed no_txs (at_page page pagination query) messages))
get_matching_messages-IsSorted_example =
    get_matching_messages-IsSorted json unconfirmed no_txs 0 query messages (refl, refl)

-- The first message, stored.
abbrev row : StatusRow
row = record { status = MessageStatus.processed; reception_time = 101 }

abbrev stored : Tables
stored = record {
  messages = λ h. if h == 7 then some post else none;
  statuses = λ h. if h == 7 then some row else none;
  forgotten = λ h. none;
  rejected = λ h. none;
  confirmations = λ h tx. false;
  pending = [];
}

stored-IsConsistent : IsConsistent stored
stored-IsConsistent = record {
  at = λ h. elim (Bool-cases (h == 7)) [ inl y ↦ rw y (ground (arith, y), refl) | inr n ↦ rw n tt ];
}

abbrev is_hash : ℕ → Bool
is_hash h = true

row_there : get_message_status stored 7 ≡ some row
unfolding get_message_status
row_there = refl

view_message-IsConsistent_example :
    (w : MessageWithStatus) × (view_message is_hash (some 7) stored ≡ response w)
    × (w.item_hash ≡ 7)
    × (w.reception_time ≡ 101)
    × (status_of w.body ≡ MessageStatus.processed)
view_message-IsConsistent_example =
    view_message-IsConsistent is_hash 7 row stored stored-IsConsistent refl row_there refl

abbrev attributes : Attributes
attributes = record {
  ref = λ m. none;
  type = λ m. some 1;
  item_hash = λ m. none;
  content = λ m. some 1;
  is_empty = λ c. false;
}

-- No filter by tags: with the tag 4 of the message, no message would pass.
abbrev socket_filters : MessageFilters
socket_filters = record filters { tags = [] }

message_matches_filters-matches_example :
    message_matches_filters attributes socket_filters post
    ≡ ok (is_empty socket_filters.tags && matches json unconfirmed no_txs socket_filters post)
message_matches_filters-matches_example =
    message_matches_filters-matches attributes json unconfirmed no_txs socket_filters post
      (record { ref = refl; type = refl; item_hash = refl; nested = 1; content = refl })
      (refl, refl) refl

abbrev tags_of : ℕ → List ℕ
tags_of content = []

abbrev original : Post
original = record {
  item_hash = 7;
  owner = 5;
  type = named 1;
  ref = none;
  amends = none;
  channel = none;
  content = 1;
  creation_datetime = 100;
}

-- A post and its amend.
abbrev posts : PostTables ℕ
posts = record {
  posts =
      original
      ∷ (record original { item_hash = 50; amends = some 7; creation_datetime = 150; content = 2 })
      ∷ [];
  latest_amend = λ h. if h == 7 then some 50 else none;
  balances = [];
}

get_matching_posts-get_post_example :
    get_matching_posts tags_of unconfirmed no_txs
      (record {
        filters = only_hash 7;
        order_by = by_time;
        sort_order = some descending;
        page = 1;
        pagination = 0;
      })
      posts
    ≡ at_most_one (get_post 7 posts)
get_matching_posts-get_post_example =
    get_matching_posts-get_post tags_of unconfirmed no_txs 7 by_time (some descending) posts
      (refl, (refl, tt))

abbrev post_query : PostQuery
post_query = record {
  filters = only_hash 7;
  order_by = by_time;
  sort_order = some descending;
  page = 1;
  pagination = 20;
}

posts_fit : count_matching_posts tags_of unconfirmed no_txs post_query posts ≤ 1 * 20
unfolding count_matching_posts
posts_fit = omega arith

abbrev pagination : Pagination
pagination = record { page = 1; per_page = 2; total_count = 3 }

two_pages : pages_of pagination ≡ some 2
unfolding pages_of
two_pages = refl

pages_of-pages_example : (pages 2 2 messages ≡ messages) × ((n : ℕ) → n < 2 → n * 2 < 3)
pages_of-pages_example = pages_of-pages pagination messages 2 refl two_pages

pub_message-code_of_example :
    (b : BroadcastStatus) × (pub_message true
        (some true)
        false
        (some MessageProcessingStatus.failed_rejected)
      ≡ ok (b, code_of true (some MessageProcessingStatus.failed_rejected)))
unfolding pub_on_p2p_topics
pub_message-code_of_example =
    pub_message-code_of true (some true) false (some MessageProcessingStatus.failed_rejected)
      (omega arith)
