-- ===== src/Examples/Forgets.antt =====
-- Runs of forget.py over the handler of posts.
use py_aleph.Prelude.{
  ℕ, ◌≡◌, ◌≢◌, refl, false, none, some, [], ◌∷◌, arith, ◌==◌, if◌then◌else◌, Bool-cases, inl, inr,
}
use py_aleph.Status.{MessageStatus}
use py_aleph.Result.{Result, ok, raise, for_each}
use py_aleph.Node.{MessageType, ForgetContent, forget_content, Message, StatusRow, Tables}
use py_aleph.Node.Accessors.{get_message_by_item_hash, get_message_status, forget_message}
use py_aleph.Node.Consistent.{IsConsistent}
use py_aleph.Handler.{Session}
use py_aleph.Forget.{
  ForgetEnv, list_target_messages, aggregate_hashes, forget_with_handler, forget_item_hash,
  process_forget_message,
}
use py_aleph.Forget.Linked.{IsLinked}
use py_aleph.Forget.Laws.{process_forget_message-forgets}
use py_aleph.Forget.Named.{post_handler-NamesKnown}
use py_aleph.Posts.{
  PostTables, delete_posts, delete_amends, delete_post, refresh_latest_amend, get_original_post,
  post_handler, forget_post,
}
use py_aleph.Posts.Forget.{names}
use py_aleph.Examples.{no_files, pending_tables}
use py_aleph.Examples.Posts.{env, original_message, amend_message, two_posts}

abbrev forget_env : ForgetEnv (PostTables ℕ)
forget_env = record {
  security = λ s owner. none;
  aggregate_exists = λ s key owner. false;
  element_hashes = λ s key owner. [];
  has_dependent_volumes = λ s h. false;
  content_handlers = λ type. post_handler env;
}

abbrev processed_row : StatusRow
processed_row = record { status = MessageStatus.processed; reception_time = 101 }

-- The post 7 and its amend 8 are stored, and nothing else.
abbrev stored : Tables
stored = record pending_tables {
  messages =
      λ h. if h == 7 then some original_message else if h == 8 then some amend_message else none;
  statuses =
      λ h. if h == 7 then some processed_row else if h == 8 then some processed_row else none;
  pending = [];
}

abbrev before : Session (PostTables ℕ)
before = record { tables = stored; files = no_files; ext = two_posts }

stored-IsConsistent : IsConsistent stored
stored-IsConsistent = record {
  at = λ h. elim (Bool-cases (h == 7)) [
    | inl y ↦ rw y (ground (arith, y), refl)
    | inr n ↦
        rw n
          (elim (Bool-cases (h == 8)) [ inl y ↦ rw y (ground (arith, y), refl) | inr m ↦ rw m tt ])
  ];
}

before-IsLinked : IsLinked (names env) before
before-IsLinked = (inl (λ q. cc), (inl (λ q. cc), tt))

abbrev content : ForgetContent
content = record { address = 5; time = 200; hashes = 7 ∷ []; aggregates = [] }

-- A message that forgets the post, and names no amend.
abbrev forget : Message
forget = record original_message {
  item_hash = 9;
  type = MessageType.forget;
  content = forget_content content;
}

abbrev session_of : Result (Session (PostTables ℕ)) → Session (PostTables ℕ)
session_of (ok s) = s
session_of (raise e) = before

abbrev after : Session (PostTables ℕ)
after = session_of (process_forget_message forget_env forget before)

is_processed : process_forget_message forget_env forget before ≡ ok after
unfolding process_forget_message list_target_messages aggregate_hashes forget_item_hash
    forget_with_handler forget_message get_message_status get_message_by_item_hash for_each
    forget_post delete_posts delete_amends delete_post refresh_latest_amend get_original_post
is_processed = refl

-- The amend is forgotten too.
amend_is_forgotten : after.tables.messages 8 ≡ none
unfolding process_forget_message list_target_messages aggregate_hashes forget_item_hash
    forget_with_handler forget_message get_message_status get_message_by_item_hash for_each
    forget_post delete_posts delete_amends delete_post refresh_latest_amend get_original_post
amend_is_forgotten = refl

process_forget_message-forgets_example :
    (IsConsistent after.tables × IsLinked (names env) after)
    × (((after.tables.forgotten 7 ≢ none) × (after.tables.messages 7 ≡ none)) × Unit {0})
unfolding list_target_messages aggregate_hashes
process_forget_message-forgets_example =
    process_forget_message-forgets forget_env (names env)
      (post_handler-NamesKnown env forget_env (λ type. refl)) forget content before after refl
      stored-IsConsistent before-IsLinked is_processed
