-- ===== src/Queries/Posts/Laws.antt =====
-- The listing of posts: its pages and its total.
use py_aleph.Prelude.{
  ℕ, zero, suc, ◌*◌, ◌≤◌, ◌<◌, ◌≡◌, refl, ◌∙◌, sym, ap, Bool, true, false, Option, none, List, [],
  ◌∷◌, ◌++◌, arith, ◌==◌, keep, is_none, length,
}
use py_aleph.Posts.{Post, PostTables, MergedPost}
use py_aleph.Chains.{ChainTx}
use py_aleph.Queries.{by_time, sort_by, paginate}
use py_aleph.Queries.Sort.{length-sort_by}
use py_aleph.Queries.Pages.{pages, pages_all}
use py_aleph.Queries.Posts.{
  PostQuery, limit_posts, has_kwargs, merge_posts, make_select_merged_post_stmt, post_matches,
  post_before, filter_post_select_stmt, get_matching_posts, count_matching_posts,
}

-- From the page 1 on, an offset that is there.
limit_posts-paginate :
    {A : Type 0} (n pagination : ℕ) (rows : List A)
    → limit_posts (suc n) pagination rows ≡ paginate (suc n) pagination rows
unfolding paginate
limit_posts-paginate n pagination rows =
    let there : (suc n == 0) ≡ false = ground arith in rw there refl

length-merge_posts :
    (posts : List Post) (latest : ℕ → Option ℕ) (ps : List Post)
    → length (merge_posts posts latest ps) ≡ length (keep (λ p. is_none p.amends) ps)
length-merge_posts posts latest [] = refl
length-merge_posts posts latest (p ∷ ps) = ground (arith, length-merge_posts posts latest ps)

module _ {D J : Type 0} (tags_of : ℕ → List ℕ) (confirmed : ℕ → ℕ → Bool)
    (txs : List (ChainTx J)) where
  -- The first pages of the listing, one after another.
  pub post_pages : ℕ → PostQuery → PostTables D → List MergedPost
  post_pages zero q t = []
  post_pages (suc n) q t =
      post_pages n q t ++ get_matching_posts tags_of confirmed txs (record q { page = suc n }) t

  sorted_posts : PostQuery → PostTables D → List MergedPost
  sorted_posts q t =
      sort_by (post_before tags_of confirmed txs q.order_by q.sort_order)
        (keep (post_matches tags_of confirmed txs q.filters) (make_select_merged_post_stmt t))

  post_pages-pages :
      (n : ℕ) (q : PostQuery) (t : PostTables D)
      → post_pages n q t ≡ pages n q.pagination (sorted_posts q t)
  unfolding post_pages pages sorted_posts get_matching_posts filter_post_select_stmt
  post_pages-pages zero q t = refl
  post_pages-pages (suc n) q t = rw (post_pages-pages n q t) (
      ap (λ l. pages n q.pagination (sorted_posts q t) ++ l)
        (limit_posts-paginate n q.pagination (sorted_posts q t)))

  count-found :
      (q : PostQuery) (t : PostTables D)
      → has_kwargs q.filters ≡ true
      → count_matching_posts tags_of confirmed txs q t ≡ length (sorted_posts q t)
  unfolding sorted_posts count_matching_posts filter_post_select_stmt
  count-found q t given =
      let found =
        keep (post_matches tags_of confirmed txs q.filters) (make_select_merged_post_stmt t) in
      rw given (
        length-sort_by (post_before tags_of confirmed txs by_time none) found
        ∙ sym (length-sort_by (post_before tags_of confirmed txs q.order_by q.sort_order) found))

  -- Where a filter besides the dates is given, in any order of the rows: if the total fits on n pages,
  -- these, one after another, are the whole listing, and it has so many posts as the total says.
  pub get_matching_posts-count :
      (n : ℕ) (q : PostQuery) (t : PostTables D)
      → has_kwargs q.filters ≡ true
      → 0 < q.pagination
      → count_matching_posts tags_of confirmed txs q t ≤ n * q.pagination
      → let whole =
          get_matching_posts tags_of confirmed txs (record q { page = 1; pagination = 0 }) t in
        (post_pages n q t ≡ whole) × (length whole ≡ count_matching_posts tags_of confirmed txs q t)
  unfolding sorted_posts get_matching_posts filter_post_select_stmt
  get_matching_posts-count n q t given some_ fits =
      let count = count-found q t given in
      (
        post_pages-pages n q t
            ∙ pages_all n q.pagination (sorted_posts q t) some_ (rw count at fits),
        sym count,
      )

  -- Where no filter but dates is given, the total is that of all original posts, whatever the dates
  -- are.
  pub count_matching_posts-make_select_merged_post_stmt :
      (q : PostQuery) (t : PostTables D)
      → has_kwargs q.filters ≡ false
      → count_matching_posts tags_of confirmed txs q t ≡ length (make_select_merged_post_stmt t)
  unfolding count_matching_posts make_select_merged_post_stmt
  count_matching_posts-make_select_merged_post_stmt q t n =
      rw n (sym (length-merge_posts t.posts t.latest_amend t.posts))
