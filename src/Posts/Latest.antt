-- ===== src/Posts/Latest.antt =====
-- That a merged post shows the latest of its amends, whatever messages are processed.
use mathlib.Core.Path.{}
use py_aleph.Prelude.{
  ℕ, ◌≤◌, ◌≡◌, refl, sym, ◌∙◌, true, false, Option, none, some, List, [], ◌∷◌, ◌++◌, arith, ◌==◌,
  any, first, first-append, first-new, first-skip, All, All-append, Bool-cases, Option-cases, inl,
  inr,
}
use py_aleph.Result.{ok, ok_inj}
use py_aleph.Node.{put}
use py_aleph.Posts.{Post, PostTables, has_hash, amends_post, has_keys, time_of, latest_of, add_post}
use py_aleph.Prelude.Keys.{IsUnique}
use py_aleph.Posts.Rows.{hash_of, not_amended, AtMost, AtMost-others}

-- The latest amend of a post, if it has one, is a row, and amends it.
abbrev pub IsFound : ℕ → List Post → Option ℕ → Type 0
IsFound h posts none = Unit
IsFound h posts (some l) =
    (a : Post) × (first (has_hash l) posts ≡ some a) × (amends_post h a ≡ true)

-- No amend of a post is later than what the merged post shows.
abbrev pub ShowsLatest : ℕ → List Post → Option Post → Option ℕ → Type 0
ShowsLatest h posts none latest = Unit
ShowsLatest h posts (some original) latest =
    IsFound h posts latest × All (AtMost h (time_of original (latest_of posts latest))) posts

pub record IsCurrent {D : Type 0} (t : PostTables D) : Type 0 where
  pub unique : IsUnique hash_of t.posts
  pub keys : has_keys t.posts t.posts ≡ true
  pub latest : (h : ℕ) → ShowsLatest h t.posts (first (has_hash h) t.posts) (t.latest_amend h)

pub latest_of-append :
    (h : ℕ) (posts : List Post) (p : Post) (latest : Option ℕ)
    → IsFound h posts latest
    → latest_of (posts ++ (p ∷ [])) latest ≡ latest_of posts latest
latest_of-append h posts p none f = refl
latest_of-append h posts p (some l) (a, f, m) = first-append (has_hash l) posts (p ∷ []) a f ∙ sym f

pub IsFound-append :
    (h : ℕ) (posts : List Post) (p : Post) (latest : Option ℕ)
    → IsFound h posts latest
    → IsFound h (posts ++ (p ∷ [])) latest
IsFound-append h posts p none f = tt
IsFound-append h posts p (some l) (a, f, m) = (a, first-append (has_hash l) posts (p ∷ []) a f, m)

ShowsLatest-append :
    (h : ℕ) (posts : List Post) (p original : Post) (latest : Option ℕ)
    → ShowsLatest h posts (some original) latest
    → (amends_post h p ≡ true → p.creation_datetime ≤ time_of original (latest_of posts latest))
    → ShowsLatest h (posts ++ (p ∷ [])) (some original) latest
ShowsLatest-append h posts p original latest (f, m) b = (
  IsFound-append h posts p latest f,
  rw (latest_of-append h posts p latest f)
      (All-append (AtMost h (time_of original (latest_of posts latest))) posts (p ∷ []) m (b, tt)),
)

module _ {D : Type 0} (t : PostTables D) (p : Post) where
  abbrev pub added : List Post
  added = t.posts ++ (p ∷ [])

  -- What `add_post` has tested and done.
  pub record Added (u : PostTables D) : Type 0 where
    pub fresh : any (has_hash p.item_hash) t.posts ≡ false
    pub keys : has_keys added added ≡ true
    pub eq : u ≡ record t { posts = added; latest_amend = put t.latest_amend p.item_hash none }

  pub add_post-Added : (u : PostTables D) → add_post p t ≡ ok u → Added u
  unfolding add_post
  add_post-Added u e = elim (Bool-cases (any (has_hash p.item_hash) t.posts)) [
    | inl old ↦ absurd (cc (rw old at e))
    | inr fresh ↦ elim (Bool-cases (has_keys added added)) [
      | inr bad ↦ absurd (cc (rw (fresh, bad) at e))
      | inl good ↦ record { fresh = fresh; keys = good; eq = sym (ok_inj (rw (fresh, good) at e)) }
    ]
  ]

  -- A new row leaves a post with the latest of its amends, if it is not a later amend of that post.
  pub shows_added :
      (g : ℕ)
      → IsCurrent t
      → any (has_hash p.item_hash) t.posts ≡ false
      → ((original : Post)
          → first (has_hash g) t.posts ≡ some original
          → amends_post g p ≡ true
          → p.creation_datetime ≤ time_of original (latest_of t.posts (t.latest_amend g)))
      → ShowsLatest g added (first (has_hash g) added) (put t.latest_amend p.item_hash none g)
  shows_added g k fresh b = elim (Bool-cases (p.item_hash == g)) [
    | inl same ↦
        (let eq : p.item_hash ≡ g = ground (arith, same) in
          let new : any (has_hash g) t.posts ≡ false = rw eq at fresh in
          rw (first-new (has_hash g) t.posts p new same, same)
            (
              tt,
              All-append (AtMost g p.creation_datetime) t.posts (p ∷ [])
                  (AtMost-others g p.creation_datetime t.posts
                    (not_amended g t.posts t.posts new k.keys))
                  ((λ _. omega arith), tt),
            ))
    | inr other ↦
        rw (first-skip (has_hash g) t.posts p other, other)
          (elim (Option-cases (first (has_hash g) t.posts)) [
            | inl missing ↦ rw missing tt
            | inr (original, found) ↦
                (let now : ShowsLatest g t.posts (some original) (t.latest_amend g) =
                    rw found at (k.latest g) in
                  rw found (
                    ShowsLatest-append g t.posts p original (t.latest_amend g) now
                      (b original found)))
          ])
  ]
