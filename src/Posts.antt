-- ===== src/Posts.antt =====
-- src/aleph/db/models/posts.py, src/aleph/db/accessors/posts.py and src/aleph/handlers/content/post.py:
-- posts and their amends. The column `latest_amend`, the only one that is ever updated, stands apart
-- from the rows; it is NULL in a new row.
pub mod Rows
pub mod Latest
pub mod Amends
pub mod Process
pub mod Delete
pub mod Forget
use py_aleph.Prelude.{
  ℕ, Bool, true, false, not, ◌&&◌, ◌||◌, Option, none, some, List, [], ◌∷◌, ◌++◌, map, ltb, leb,
  ◌==◌, if◌then◌else◌, max, any, keep, first, bind, equals, is_none, coalesce,
}
use py_aleph.Status.{Error}
use py_aleph.Result.{Result, ok, raise, ◌>>=◌, ◌>>◌, raise_if}
use py_aleph.Node.{
  PostType, amend, named, PostRef, chain_ref, text, PostContent, Content, aggregate_content,
  post_content, store_content, forget_content, vm_content, Message, put,
}
use py_aleph.Permissions.{Authorization, same_post_type, check_permissions}
use py_aleph.Handler.{Session, ContentHandler}
use py_aleph.Balances.{Balance, update_balances}

-- `PostDb`, less `latest_amend`.
pub record Post : Type 0 where
  pub item_hash : ℕ
  pub owner : ℕ
  pub type : PostType
  pub ref : Option ℕ
  pub amends : Option ℕ
  pub channel : Option ℕ
  pub content : ℕ
  pub creation_datetime : ℕ

pub record PostTables (D : Type 0) : Type 0 where
  pub posts : List Post
  pub latest_amend : ℕ → Option ℕ
  pub balances : List (Balance D)

-- `MergedPost`.
pub record MergedPost : Type 0 where
  pub item_hash : ℕ
  pub content : ℕ
  pub original_item_hash : ℕ
  pub original_type : PostType
  pub owner : ℕ
  pub ref : Option ℕ
  pub channel : Option ℕ
  pub last_updated : ℕ
  pub created : ℕ

-- The fields of a balance post that are read, where the JSON object has them.
pub record BalanceFields (D : Type 0) : Type 0 where
  pub chain : Option ℕ
  pub main_height : Option ℕ
  pub dapp : Option ℕ
  pub balances : Option (List (ℕ × D))

-- The settings; the JSON of a content and whether it is empty; the values of `Chain`; the texts that
-- `str` makes of None and of a `ChainRef`; the security aggregates.
pub record PostEnv (D : Type 0) : Type 0 where
  pub balances_addresses : List ℕ
  pub balances_post_type : PostType
  pub fields : ℕ → BalanceFields D
  pub is_empty : ℕ → Bool
  pub is_chain : ℕ → Bool
  pub none_text : ℕ
  pub chain_ref_text : ℕ → ℕ
  pub security : ℕ → Option (List Authorization)

abbrev pub is_amend : PostType → Bool
is_amend amend = true
is_amend (named type) = false

abbrev pub post_content_of : Content → Result PostContent
post_content_of (post_content c) = ok c
post_content_of (aggregate_content c) = raise Error.invalid_message_format
post_content_of (store_content c) = raise Error.invalid_message_format
post_content_of (forget_content c) = raise Error.invalid_message_format
post_content_of (vm_content c) = raise Error.invalid_message_format

-- `get_post_content_ref`.
abbrev pub get_post_content_ref : Option PostRef → Option ℕ
get_post_content_ref none = none
get_post_content_ref (some (chain_ref item_hash)) = some item_hash
get_post_content_ref (some (text ref)) = some ref

abbrev pub has_hash : ℕ → Post → Bool
has_hash h p = p.item_hash == h

abbrev pub amends_post : ℕ → Post → Bool
amends_post h p = equals p.amends h

-- The foreign key of `amends`: each row that one amends is there.
abbrev pub has_key : List Post → Option ℕ → Bool
has_key posts none = true
has_key posts (some h) = any (has_hash h) posts

abbrev pub has_keys : List Post → List Post → Bool
has_keys posts [] = true
has_keys posts (p ∷ ps) = has_key posts p.amends && has_keys posts ps

-- The time that a merged post shows: that of the amend that its column names, or its own.
abbrev pub time_of : Post → Option Post → ℕ
time_of original none = original.creation_datetime
time_of original (some a) = a.creation_datetime

abbrev pub latest_of : List Post → Option ℕ → Option Post
latest_of posts latest = bind latest λ l. first (has_hash l) posts

-- A row of `make_select_merged_post_stmt`.
abbrev pub merge_post : Post → Option Post → MergedPost
merge_post original latest = record {
  item_hash = elim latest [ none ↦ original.item_hash | some a ↦ a.item_hash ];
  content = elim latest [ none ↦ original.content | some a ↦ a.content ];
  original_item_hash = original.item_hash;
  original_type = original.type;
  owner = original.owner;
  ref = original.ref;
  channel = original.channel;
  last_updated = time_of original latest;
  created = original.creation_datetime;
}

-- `func.max(creation_datetime)` of the amends of a post.
abbrev pub max_with : ℕ → Option ℕ → ℕ
max_with n none = n
max_with n (some m) = max n m

abbrev pub latest_time : ℕ → List Post → Option ℕ
latest_time h [] = none
latest_time h (p ∷ ps) =
    if amends_post h p
    then some (max_with p.creation_datetime (latest_time h ps))
    else latest_time h ps

-- The query of `refresh_latest_amend`: of amends of the same time the database gives any.
abbrev pub latest_amend_from : ℕ → List Post → Option ℕ → Option ℕ
latest_amend_from h posts none = none
latest_amend_from h posts (some time) =
    bind (first (λ p. amends_post h p && p.creation_datetime == time) posts) λ a. some a.item_hash

module _ {D : Type 0} where
  unfoldable pub get_original_post : ℕ → PostTables D → Option Post
  get_original_post h t = first (has_hash h) t.posts

  -- `get_post`, which is also `get_matching_posts` with one hash.
  unfoldable pub get_post : ℕ → PostTables D → Option MergedPost
  unfolding get_original_post
  get_post h t = bind (get_original_post h t) λ p.
      if is_none p.amends
      then some (merge_post p (latest_of t.posts (t.latest_amend p.item_hash)))
      else none

  unfoldable pub refresh_latest_amend : ℕ → PostTables D → PostTables D
  refresh_latest_amend h t = record t {
    latest_amend = put t.latest_amend h (latest_amend_from h t.posts (latest_time h t.posts));
  }

  -- `session.add(post)`, with the primary and the foreign key.
  unfoldable pub add_post : Post → PostTables D → Result (PostTables D)
  add_post post t =
      let posts = t.posts ++ (post ∷ []) in
      if any (has_hash post.item_hash) t.posts
      then raise Error.other
      else if has_keys posts posts
      then ok (record t { posts = posts; latest_amend = put t.latest_amend post.item_hash none })
      else raise Error.other

  -- `DELETE`, which the foreign key of a row that stays may refuse.
  unfoldable pub delete_posts : (Post → Bool) → PostTables D → Result (PostTables D)
  delete_posts p t =
      let posts = keep (λ post. not (p post)) t.posts in
      if has_keys posts posts then ok (record t { posts = posts }) else raise Error.other

  unfoldable pub delete_amends : ℕ → PostTables D → Result (List ℕ × PostTables D)
  unfolding delete_posts
  delete_amends h t = delete_posts (amends_post h) t >>= λ u.
      ok (map (λ p. p.item_hash) (keep (amends_post h) t.posts), u)

  unfoldable pub delete_post : ℕ → PostTables D → Result (PostTables D)
  unfolding delete_posts
  delete_post h t = delete_posts (has_hash h) t

module _ {D : Type 0} (env : PostEnv D) where
  -- `check_dependencies`.
  abbrev pub check_original : Option Post → Result (Unit {0})
  check_original none = raise Error.amend_target_not_found
  check_original (some original) = raise_if (is_amend original.type) Error.cannot_amend_amend

  abbrev pub check_amend_target : Option ℕ → PostTables D → Result (Unit {0})
  check_amend_target none t = raise Error.no_amend_target
  check_amend_target (some ref) t = check_original (get_original_post ref t)

  unfoldable pub check_dependencies : Message → PostTables D → Result (Unit {0})
  check_dependencies m t = do
    content ← post_content_of m.content
    if is_amend content.type then check_amend_target (get_post_content_ref content.ref) t else ok tt

  -- `update_balances` of post.py: a missing chain or height is an invalid format, while any other
  -- exception is not caught.
  abbrev write_balances :
      ℕ → ℕ → Option ℕ → Option (List (ℕ × D)) → PostTables D → Result (PostTables D)
  write_balances chain height dapp none t = raise Error.other
  write_balances chain height dapp (some balances) t =
      ok (record t { balances = update_balances chain dapp height balances t.balances })

  abbrev pub balances_at :
      ℕ → Option ℕ → Option ℕ → Option (List (ℕ × D)) → PostTables D → Result (PostTables D)
  balances_at chain none dapp balances t = raise Error.invalid_message_format
  balances_at chain (some height) dapp balances t = write_balances chain height dapp balances t

  abbrev pub balances_of : Option ℕ → BalanceFields D → PostTables D → Result (PostTables D)
  balances_of none fields t = raise Error.invalid_message_format
  balances_of (some chain) fields t =
      if env.is_chain chain
      then balances_at chain fields.main_height fields.dapp fields.balances t
      else raise Error.other

  unfoldable pub update_post_balances : ℕ → PostTables D → Result (PostTables D)
  update_post_balances body t = balances_of (env.fields body).chain (env.fields body) t

  abbrev pub is_balance_post : PostContent → Bool
  is_balance_post content =
      same_post_type content.type env.balances_post_type
      && (any (λ a. a == content.address) env.balances_addresses && not (env.is_empty content.body))

  abbrev pub post_of : Message → PostContent → Post
  post_of m content = record {
    item_hash = m.item_hash;
    owner = content.address;
    type = content.type;
    ref = get_post_content_ref content.ref;
    amends = if is_amend content.type then get_post_content_ref content.ref else none;
    channel = m.channel;
    content = content.body;
    creation_datetime = content.time;
  }

  -- The unpacking of the one amended post, and the update of its latest amend.
  abbrev update_latest : ℕ → ℕ → Option MergedPost → PostTables D → Result (PostTables D)
  update_latest item_hash creation none t = raise Error.other
  update_latest item_hash creation (some amended) t =
      if ltb amended.last_updated creation
      then ok (record t {
        latest_amend = put t.latest_amend amended.original_item_hash (some item_hash);
      })
      else ok t

  abbrev pub amend_original : Option ℕ → ℕ → ℕ → PostTables D → Result (PostTables D)
  amend_original none item_hash creation t = raise Error.other
  amend_original (some ref) item_hash creation t =
      update_latest item_hash creation (get_post ref t) t

  -- `process_post`.
  unfoldable pub process_post : Message → PostTables D → Result (PostTables D)
  process_post m t = do
    content ← post_content_of m.content
    added ← add_post (post_of m content) t
    amended ←
        (if is_amend content.type
          then amend_original (get_post_content_ref content.ref) m.item_hash content.time added
          else ok added)
    if is_balance_post content then update_post_balances content.body amended else ok amended

  -- `str(content.ref)`.
  abbrev pub ref_text : Option PostRef → ℕ
  ref_text none = env.none_text
  ref_text (some (chain_ref item_hash)) = env.chain_ref_text item_hash
  ref_text (some (text ref)) = ref

  abbrev pub refresh_original : ℕ → Option Post → PostTables D → Result (PostTables D)
  refresh_original item_hash none t = raise Error.internal
  refresh_original item_hash (some original) t =
      if equals (t.latest_amend original.item_hash) item_hash
      then ok (refresh_latest_amend original.item_hash t)
      else ok t

  -- `forget_message`.
  unfoldable pub forget_post : Message → PostTables D → Result (PostTables D × List ℕ)
  forget_post m t = do
    content ← post_content_of m.content
    deleted ← delete_amends m.item_hash t
    rest ← delete_post m.item_hash deleted.1
    refreshed ←
        (if is_amend content.type
          then refresh_original m.item_hash (get_original_post (ref_text content.ref) rest) rest
          else ok rest)
    ok (refreshed, deleted.0)

  -- `PostMessageHandler`, on a session whose other tables are these.
  abbrev pub post_handler : ContentHandler (PostTables D)
  post_handler = record {
    fetch_related_content = λ m s. ok s;
    check_dependencies = λ m s. check_dependencies m s.ext;
    check_permissions = λ m s. check_permissions env.security m;
    check_balance = λ m s. ok tt;
    process = λ m s. process_post m s.ext >>= λ t. ok (record s { ext = t });
    forget_message = λ m s. forget_post m s.ext >>= λ done. ok (record s { ext = done.0 }, done.1);
  }
