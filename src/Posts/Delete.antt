-- ===== src/Posts/Delete.antt =====
-- What remains of the posts when one and its amends are deleted.
use mathlib.Core.Path.{subst}
use py_aleph.Prelude.{
  All-keep, ℕ, ◌≡◌, refl, sym, ap, ◌∙◌, Bool, true, false, not, ◌&&◌, Option, none, some, List, [],
  ◌∷◌, arith, ◌==◌, keep, first, equals, Bool-cases, ==-refl, Option-cases, ◌⊎◌, inl, inr,
}
use py_aleph.Result.{ok, ok_inj}
use py_aleph.Posts.{
  Post, PostTables, has_hash, amends_post, has_keys, latest_time, latest_amend_from, delete_posts,
  refresh_latest_amend,
}
use py_aleph.Prelude.Keys.{
  some_inj, IsUnique, IsUnique-keep, first-keep, first-is_key, first_unique,
}
use py_aleph.Posts.Rows.{
  hash_of, AtMost, AtMost-others, latest_time-none, latest_time_max, latest_time_found,
}
use py_aleph.Posts.Latest.{IsFound, ShowsLatest, IsCurrent}

keep-keep : (r s : Post → Bool) (ps : List Post) → keep s (keep r ps) ≡ keep (λ p. r p && s p) ps
keep-keep r s [] = refl
keep-keep r s (p ∷ ps) = ground (arith, keep-keep r s ps)

-- The rows that a FORGET of a post leaves.
abbrev pub stays : ℕ → Post → Bool
stays h p = not (amends_post h p) && not (has_hash h p)

-- The amend of a post that stays, if it is not the row that goes, stays.
stays_amend :
    (h g l : ℕ) (o a : Post)
    → stays h o ≡ true
    → o.item_hash ≡ g
    → a.item_hash ≡ l
    → (l == h) ≡ false
    → amends_post g a ≡ true
    → stays h a ≡ true
stays_amend h g l o a stay hash hash_a differs m =
    let apart : (o.item_hash == h) ≡ false = ground (arith, stay) in
    let elsewhere : amends_post h a ≡ false = go a.amends m (rw hash at apart) in
    rw (elsewhere, hash_a, differs) refl
  where
    go : (amends : Option ℕ) → equals amends g ≡ true → (g == h) ≡ false → equals amends h ≡ false
    go none e d = refl
    go (some n) e d = ground (arith, e, d)

-- The query for the latest amend gives the latest one.
shows_refreshed :
    (g : ℕ) (posts : List Post)
    → IsUnique hash_of posts
    → ShowsLatest g posts
        (first (has_hash g) posts)
        (latest_amend_from g posts (latest_time g posts))
shows_refreshed g posts u = elim (Option-cases (first (has_hash g) posts)) [
  | inl missing ↦ rw missing tt
  | inr (o, found) ↦ rw found (elim (Option-cases (latest_time g posts)) [
    | inl empty ↦
        rw empty (tt, AtMost-others g o.creation_datetime posts (latest_time-none g posts empty))
    | inr (time, e) ↦
        (let (a, f, m, t) = latest_time_found g posts time e in
          let self =
            first_unique hash_of (λ p. amends_post g p && p.creation_datetime == time) posts a u
              f in
          rw (e, f) ((a, self, m), rw (self, t) (latest_time_max g posts time e)))
  ])
]

module _ {D : Type 0} (t : PostTables D) (h : ℕ) where
  abbrev pub left : List Post
  left = keep (stays h) t.posts

  -- What remains shows the latest amend, if that is not the row that goes.
  shows_kept :
      (g : ℕ)
      → IsCurrent t
      → equals (t.latest_amend g) h ≡ false
      → ShowsLatest g left (first (has_hash g) left) (t.latest_amend g)
  shows_kept g k other =
      rw (first-keep hash_of (stays h) g t.posts k.unique)
        (elim (Option-cases (first (has_hash g) t.posts)) [
          | inl missing ↦ rw missing tt
          | inr (o, found) ↦ rw found (elim (Bool-cases (stays h o)) [
            | inr goes ↦ rw goes tt
            | inl stay ↦
                rw stay (go o stay found (t.latest_amend g) other (rw found at (k.latest g)))
          ])
        ])
    where
      go :
          (o : Post)
          → stays h o ≡ true
          → first (has_hash g) t.posts ≡ some o
          → (latest : Option ℕ) → equals latest h ≡ false
          → ShowsLatest g t.posts (some o) latest
          → ShowsLatest g left (some o) latest
      go o stay found none differs now =
          (tt, All-keep (AtMost g o.creation_datetime) (stays h) t.posts now.1)
      go o stay found (some l) differs ((a, f, m), at_most) =
          let hash = first-is_key hash_of g t.posts o found in
          let hash_a = first-is_key hash_of l t.posts a f in
          let stay_a : stays h a ≡ true = stays_amend h g l o a stay hash hash_a differs m in
          let f' : first (has_hash l) left ≡ some a =
            first-keep hash_of (stays h) l t.posts k.unique ∙ rw (f, stay_a) refl in
          (
            (a, f', m),
            rw f' (All-keep (AtMost g a.creation_datetime) (stays h) t.posts (rw f at at_most)),
          )

  -- The latest amend that goes amended a post that stays.
  pub amended_by :
      (g : ℕ) (p o : Post)
      → IsCurrent t
      → first (has_hash h) t.posts ≡ some p
      → equals (t.latest_amend g) h ≡ true
      → first (has_hash g) left ≡ some o
      → amends_post g p ≡ true
  amended_by g p o k stored this found =
      let kept = sym (first-keep hash_of (stays h) g t.posts k.unique) ∙ found in
      elim (Option-cases (first (has_hash g) t.posts)) [
        | inl missing ↦ absurd (cc (rw missing at kept))
        | inr (o', found') ↦ go (t.latest_amend g) this (rw found' at (k.latest g)).0
      ]
    where
      go :
          (latest : Option ℕ)
          → equals latest h ≡ true
          → IsFound g t.posts latest
          → amends_post g p ≡ true
      go none e f = absurd (cc)
      go (some l) e (a, f, m) =
          let eq : l ≡ h = ground (arith, e) in
          let a_is : some a ≡ some p = sym (rw eq at f) ∙ stored in
          subst (λ x. amends_post g x ≡ true) (some_inj a_is) m

module _ {D : Type 0} where
  delete_posts-keep :
      (q : Post → Bool) (t u : PostTables D)
      → delete_posts q t ≡ ok u
      → (let posts = keep (λ p. not (q p)) t.posts in
          (has_keys posts posts ≡ true) × (record t { posts = posts } ≡ u))
  unfolding delete_posts
  delete_posts-keep q t u e =
      let posts = keep (λ p. not (q p)) t.posts in
      elim (Bool-cases (has_keys posts posts)) [
        | inl y ↦ (y, ok_inj (rw y at e))
        | inr n ↦ absurd (cc (rw n at e))
      ]

  abbrev pub with_posts : PostTables D → List Post → PostTables D
  with_posts t posts = record t { posts = posts }

  pub two_deletions :
      (h : ℕ) (t u v : PostTables D)
      → delete_posts (amends_post h) t ≡ ok u
      → delete_posts (has_hash h) u ≡ ok v
      → (has_keys (left t h) (left t h) ≡ true) × (record t { posts = left t h } ≡ v)
  two_deletions h t u v e f =
      let (_, eq) = delete_posts-keep (amends_post h) t u e in
      let (keys, eq') = delete_posts-keep (has_hash h) u v f in
      let posts : keep (λ p. not (has_hash h p)) u.posts ≡ left t h =
        ap (λ w. keep (λ p. not (has_hash h p)) w.posts) (sym eq)
        ∙ keep-keep (λ p. not (amends_post h p)) (λ p. not (has_hash h p)) t.posts in
      (
        rw posts at keys,
        ap (λ w. with_posts w (left t h)) eq ∙ (ap (with_posts u) (sym posts) ∙ eq'),
      )

  pub shows_refresh :
      (t : PostTables D) (h g : ℕ)
      → IsCurrent t
      → ShowsLatest g
          (left t h)
          (first (has_hash g) (left t h))
          ((refresh_latest_amend g (with_posts t (left t h))).latest_amend g)
  unfolding refresh_latest_amend
  shows_refresh t h g k =
      rw (==-refl g)
        (shows_refreshed g (left t h) (IsUnique-keep hash_of (stays h) t.posts k.unique))

  -- What the refresh leaves: no change, or the latest amend of one post.
  abbrev pub RefreshedOne : PostTables D → PostTables D → Type 0
  RefreshedOne rest v = (v ≡ rest) ⊎ ((x : ℕ) × (v ≡ refresh_latest_amend x rest))

  pub posts_after :
      (t : PostTables D) (h : ℕ) (v : PostTables D)
      → RefreshedOne (with_posts t (left t h)) v
      → v.posts ≡ left t h
  unfolding refresh_latest_amend
  posts_after t h v (inl same) = ap (λ w. w.posts) same
  posts_after t h v (inr (x, refreshed)) = ap (λ w. w.posts) refreshed

  pub shows_other :
      (t : PostTables D) (h : ℕ) (v : PostTables D) (g : ℕ)
      → IsCurrent t
      → equals (t.latest_amend g) h ≡ false
      → RefreshedOne (with_posts t (left t h)) v
      → ShowsLatest g (left t h) (first (has_hash g) (left t h)) (v.latest_amend g)
  unfolding refresh_latest_amend
  shows_other t h v g k other (inl same) =
      rw (ap (λ w. w.latest_amend) same) (shows_kept t h g k other)
  shows_other t h v g k other (inr (x, refreshed)) =
      rw (ap (λ w. w.latest_amend) refreshed) (elim (Bool-cases (x == g)) [
        | inr differ ↦ rw differ (shows_kept t h g k other)
        | inl mine ↦ (let eq : x ≡ g = ground (arith, mine) in rw eq (shows_refresh t h g k))
      ])
