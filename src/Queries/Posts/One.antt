-- ===== src/Queries/Posts/One.antt =====
-- The listing of the posts of one hash, and `get_post`.
use py_aleph.Prelude.{
  ℕ, ◌≡◌, refl, ◌∙◌, ap, Bool, false, Option, none, some, List, [], ◌∷◌, arith, any, keep, first,
  is_none, Bool-cases, Option-cases, inl, inr, if◌then◌else◌,
}
use py_aleph.Prelude.Keys.{IsUnique}
use py_aleph.Posts.{
  Post, PostTables, MergedPost, has_hash, latest_of, merge_post, get_post, get_original_post,
}
use py_aleph.Chains.{ChainTx}
use py_aleph.Queries.{coerce_to_datetime, SortBy, SortOrder, sort_by}
use py_aleph.Queries.Posts.{
  PostFilters, merge_posts, make_select_merged_post_stmt, post_matches, post_before,
  filter_post_select_stmt, get_matching_posts,
}

-- The filters of a listing by one hash.
abbrev pub only_hash : ℕ → PostFilters
only_hash h = record {
  hashes = h ∷ [];
  addresses = [];
  refs = [];
  post_types = [];
  tags = [];
  channels = [];
  start_date = 0;
  end_date = 0;
}

abbrev pub at_most_one : {A : Type 0} → Option A → List A
at_most_one none = []
at_most_one (some a) = a ∷ []

-- The merged post of an original.
abbrev merged_of : List Post → (ℕ → Option ℕ) → Option Post → Option MergedPost
merged_of posts latest none = none
merged_of posts latest (some p) =
    if is_none p.amends then some (merge_post p (latest_of posts (latest p.item_hash))) else none

sort_by_one :
    {A : Type 0} (before : A → A → Bool) (o : Option A)
    → sort_by before (at_most_one o) ≡ at_most_one o
sort_by_one before none = refl
sort_by_one before (some a) = refl

merged_of-get_post :
    {D : Type 0} (h : ℕ) (t : PostTables D)
    → merged_of t.posts t.latest_amend (first (has_hash h) t.posts) ≡ get_post h t
unfolding get_post get_original_post
merged_of-get_post h t = elim (Option-cases (first (has_hash h) t.posts)) [
  | inl n ↦ rw n refl
  | inr (p, e) ↦ rw e refl
]

module _ {J : Type 0} (tags_of : ℕ → List ℕ) (confirmed : ℕ → ℕ → Bool)
    (txs : List (ChainTx J)) where
  -- A merged post passes if and only if its original has the hash.
  only_hash-matches :
      (h : ℕ) (p : Post) (latest : Option Post)
      → post_matches tags_of confirmed txs (only_hash h) (merge_post p latest) ≡ has_hash h p
  unfolding post_matches coerce_to_datetime
  only_hash-matches h p latest = ground arith

  keep-none :
      (h : ℕ) (posts : List Post) (latest : ℕ → Option ℕ) (ps : List Post)
      → any (has_hash h) ps ≡ false
      → keep (post_matches tags_of confirmed txs (only_hash h)) (merge_posts posts latest ps) ≡ []
  keep-none h posts latest [] n = refl
  keep-none h posts latest (p ∷ ps) n =
      let rest = keep-none h posts latest ps (ground (arith, n)) in
      let other : has_hash h p ≡ false = ground (arith, n) in
      elim (Bool-cases (is_none p.amends)) [
        | inr amends_one ↦ rw amends_one rest
        | inl original ↦
            rw original
              (rw (only_hash-matches h p (latest_of posts (latest p.item_hash)), other) rest)
      ]

  keep-one :
      (h : ℕ) (posts : List Post) (latest : ℕ → Option ℕ) (ps : List Post)
      → IsUnique (λ p. p.item_hash) ps
      → keep (post_matches tags_of confirmed txs (only_hash h)) (merge_posts posts latest ps)
        ≡ at_most_one (merged_of posts latest (first (has_hash h) ps))
  keep-one h posts latest [] u = refl
  keep-one h posts latest (p ∷ ps) u = elim (Bool-cases (has_hash h p)) [
    | inr other ↦ elim (Bool-cases (is_none p.amends)) [
      | inr amends_one ↦ rw (other, amends_one) (keep-one h posts latest ps u.1)
      | inl original ↦
          rw (other, original)
            (rw (only_hash-matches h p (latest_of posts (latest p.item_hash)), other)
              (keep-one h posts latest ps u.1))
    ]
    | inl same ↦
        (let eq : p.item_hash ≡ h = ground (arith, same) in
          let rest = keep-none h posts latest ps (rw eq at u.0) in
          elim (Bool-cases (is_none p.amends)) [
            | inr amends_one ↦ rw (same, amends_one) rest
            | inl original ↦
                rw (same, original)
                  (rw (only_hash-matches h p (latest_of posts (latest p.item_hash)), same)
                    (ap (λ l. merge_post p (latest_of posts (latest p.item_hash)) ∷ l) rest))
          ])
  ]

  -- Of a table in which no two posts have the same hash, the listing by one hash, in any order, has the
  -- post that `get_post` returns, and nothing if it returns none.
  pub get_matching_posts-get_post :
      {D : Type 0} (h : ℕ) (order_by : SortBy) (order : Option SortOrder) (t : PostTables D)
      → IsUnique (λ p. p.item_hash) t.posts
      → get_matching_posts tags_of confirmed txs
          (record {
            filters = only_hash h;
            order_by = order_by;
            sort_order = order;
            page = 1;
            pagination = 0;
          })
          t
        ≡ at_most_one (get_post h t)
  unfolding get_matching_posts filter_post_select_stmt make_select_merged_post_stmt
  get_matching_posts-get_post h order_by order t u =
      ap (sort_by (post_before tags_of confirmed txs order_by order))
        (keep-one h t.posts t.latest_amend t.posts u)
      ∙ sort_by_one (post_before tags_of confirmed txs order_by order)
          (merged_of t.posts t.latest_amend (first (has_hash h) t.posts))
      ∙ ap at_most_one (merged_of-get_post h t)
