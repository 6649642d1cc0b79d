-- ===== src/Queries/Posts.antt =====
-- filter_post_select_stmt, count_matching_posts and get_matching_posts of
-- src/aleph/db/accessors/posts.py, with the views of src/aleph/web/controllers/posts.py.
pub mod Laws
pub mod One
use py_aleph.Prelude.{
  ℕ, ◌-◌, ◌*◌, Bool, true, false, not, ◌&&◌, ◌||◌, Option, none, some, List, [], ◌∷◌, ◌==◌,
  if◌then◌else◌, keep, is_none, min, length, any,
}
use py_aleph.Node.{PostType}
use py_aleph.Permissions.{same_post_type}
use py_aleph.Posts.{Post, PostTables, MergedPost, latest_of, merge_post}
use py_aleph.Chains.{ChainTx}
use py_aleph.Queries.{
  SortOrder, SortBy, by_time, by_tx_time, earlier, earlier_or_null, in_filter, in_filter?,
  tags_filter, coerce_to_datetime, from_date, until_date, sort_by, take, drop,
}

-- The filters; a list that is absent is empty, and a date that is absent is 0.
pub record PostFilters : Type 0 where
  pub hashes : List ℕ
  pub addresses : List ℕ
  pub refs : List ℕ
  pub post_types : List PostType
  pub tags : List ℕ
  pub channels : List ℕ
  pub start_date : ℕ
  pub end_date : ℕ

-- With no sort order, the rows are not ordered; with the page 0, there is no offset.
pub record PostQuery : Type 0 where
  pub filters : PostFilters
  pub order_by : SortBy
  pub sort_order : Option SortOrder
  pub page : ℕ
  pub pagination : ℕ

abbrev pub post_types_filter : List PostType → PostType → Bool
post_types_filter [] type = true
post_types_filter (v ∷ values) type = any (λ w. same_post_type w type) (v ∷ values)

-- `LIMIT` if the pagination is not 0, `OFFSET` if the page is not 0.
abbrev pub limit_posts {ℓ} : {A : Type ℓ} → ℕ → ℕ → List A → List A
limit_posts page pagination rows =
    let rest = if page == 0 then rows else drop ((page - 1) * pagination) rows in
    if pagination == 0 then rest else take pagination rest

-- `kwargs` of `count_matching_posts`: the filters of the request besides the dates.
abbrev pub is_given {ℓ} : {A : Type ℓ} → List A → Bool
is_given [] = false
is_given (v ∷ values) = true

abbrev pub has_kwargs : PostFilters → Bool
has_kwargs f =
    is_given f.hashes
    || (is_given f.addresses
        || (is_given f.refs || (is_given f.post_types || (is_given f.tags || is_given f.channels))))

-- The select of the merged posts, over the rows of the table.
abbrev pub merge_posts : List Post → (ℕ → Option ℕ) → List Post → List MergedPost
merge_posts posts latest [] = []
merge_posts posts latest (p ∷ ps) =
    let rest = merge_posts posts latest ps in
    if is_none p.amends then merge_post p (latest_of posts (latest p.item_hash)) ∷ rest else rest

unfoldable pub make_select_merged_post_stmt : {D : Type 0} → PostTables D → List MergedPost
make_select_merged_post_stmt t = merge_posts t.posts t.latest_amend t.posts

module _ {J : Type 0} (tags_of : ℕ → List ℕ) (confirmed : ℕ → ℕ → Bool)
    (txs : List (ChainTx J)) where
  -- `func.min` of the times of the transactions that confirm a post.
  abbrev pub min_with : ℕ → Option ℕ → ℕ
  min_with n none = n
  min_with n (some m) = min n m

  abbrev pub earliest_among : ℕ → List (ChainTx J) → Option ℕ
  earliest_among h [] = none
  earliest_among h (tx ∷ more) =
      let rest = earliest_among h more in
      if confirmed h tx.hash then some (min_with tx.datetime rest) else rest

  unfoldable pub post_matches : PostFilters → MergedPost → Bool
  unfolding coerce_to_datetime
  post_matches f p =
      in_filter f.hashes p.original_item_hash
      && (in_filter f.addresses p.owner
          && (in_filter? f.refs p.ref
              && (post_types_filter f.post_types p.original_type
                  && (tags_filter f.tags (tags_of p.content)
                      && (in_filter? f.channels p.channel
                          && (from_date (coerce_to_datetime (some f.start_date)) p.last_updated
                              && until_date (coerce_to_datetime (some f.end_date))
                                  p.last_updated))))))

  abbrev pub tx_time_before : SortOrder → MergedPost → MergedPost → Bool
  tx_time_before order p q =
      let a = earliest_among p.original_item_hash txs in
      let b = earliest_among q.original_item_hash txs in
      earlier_or_null order a b
      || not (earlier_or_null order b a) && earlier order p.created q.created

  abbrev pub post_before : SortBy → Option SortOrder → MergedPost → MergedPost → Bool
  post_before order_by none p q = false
  post_before by_time (some order) p q = earlier order p.last_updated q.last_updated
  post_before by_tx_time (some order) p q = tx_time_before order p q

  unfoldable pub filter_post_select_stmt : PostQuery → List MergedPost → List MergedPost
  unfolding post_matches
  filter_post_select_stmt q posts =
      limit_posts q.page q.pagination
        (sort_by (post_before q.order_by q.sort_order) (keep (post_matches q.filters) posts))

  unfoldable pub get_matching_posts : {D : Type 0} → PostQuery → PostTables D → List MergedPost
  unfolding make_select_merged_post_stmt filter_post_select_stmt
  get_matching_posts q t = filter_post_select_stmt q (make_select_merged_post_stmt t)

  -- `count_matching_posts`: without `kwargs`, the dates are not looked at.
  unfoldable pub count_matching_posts : {D : Type 0} → PostQuery → PostTables D → ℕ
  unfolding make_select_merged_post_stmt filter_post_select_stmt
  count_matching_posts q t =
      if has_kwargs q.filters
      then length (
          filter_post_select_stmt
            (record {
              filters = q.filters;
              order_by = by_time;
              sort_order = none;
              page = 1;
              pagination = 0;
            })
            (make_select_merged_post_stmt t))
      else length (keep (λ p. is_none p.amends) t.posts)

  -- `view_posts_list_v1`: a page of the path, if there is one, takes the place of the parameter's.
  -- The response has the posts and the total.
  unfoldable pub view_posts_list_v1 :
      {D : Type 0} → Option ℕ → PostQuery → PostTables D → List MergedPost × ℕ
  unfolding get_matching_posts count_matching_posts
  view_posts_list_v1 path_page q t =
      let u : PostQuery = record q { page = elim path_page [ none ↦ q.page | some page ↦ page ] } in
      (get_matching_posts u t, count_matching_posts u t)
