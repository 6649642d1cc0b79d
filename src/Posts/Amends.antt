-- ===== src/Posts/Amends.antt =====
-- What an amend does to the post that it amends.
use mathlib.Core.Path.{subst}
use py_aleph.Prelude.{
  ℕ, ◌≤◌, ◌≡◌, sym, ap, ◌∙◌, true, false, Option, none, some, List, [], ◌∷◌, arith, ltb, ◌==◌,
  if◌then◌else◌, any, first, first-new, first-skip, All-append, is_none, Bool-cases, ==-refl,
  Option-cases, inl, inr,
}
use py_aleph.Result.{ok, ok_inj}
use py_aleph.Node.{put}
use py_aleph.Posts.{
  Post, PostTables, PostEnv, has_hash, amends_post, has_keys, time_of, latest_of, get_original_post,
  get_post, amend_original, balances_of, balances_at, write_balances, update_post_balances,
}
use py_aleph.Prelude.Keys.{some_inj, IsUnique-append, first-is_key}
use py_aleph.Posts.Rows.{hash_of, AtMost, AtMost-le}
use py_aleph.Posts.Latest.{ShowsLatest, IsCurrent, latest_of-append, added, shows_added}

module _ {D : Type 0} (env : PostEnv D) where
  -- What the amended post is, and what becomes of its latest amend.
  pub record Amended (r x time : ℕ) (u v : PostTables D) : Type 0 where
    pub original : Post
    pub found : first (has_hash r) u.posts ≡ some original
    pub is_original : is_none original.amends ≡ true
    pub eq : v ≡ (
        if ltb (time_of original (latest_of u.posts (u.latest_amend r))) time
        then record u { latest_amend = put u.latest_amend r (some x) }
        else u)

  pub amend_original-Amended :
      (r x time : ℕ) (u v : PostTables D)
      → amend_original env (some r) x time u ≡ ok v
      → Amended r x time u v
  unfolding get_post get_original_post
  amend_original-Amended r x time u v e = elim (Option-cases (first (has_hash r) u.posts)) [
    | inl missing ↦ absurd (cc (rw missing at e))
    | inr (original, found) ↦ elim (Bool-cases (is_none original.amends)) [
      | inr amend' ↦ absurd (cc (rw (found, amend') at e))
      | inl is_original ↦
          (let hash = first-is_key hash_of r u.posts original found in
            let shown = ltb (time_of original (latest_of u.posts (u.latest_amend r))) time in
            record {
              original = original;
              found = found;
              is_original = is_original;
              eq = elim (Bool-cases shown) [
                | inl newer ↦ rw newer (sym (ok_inj (rw (found, is_original, hash, newer) at e)))
                | inr older ↦ rw older (sym (ok_inj (rw (found, is_original, hash, older) at e)))
              ];
            })
    ]
  ]

  pub update_post_balances-posts :
      (body : ℕ) (t u : PostTables D)
      → update_post_balances env body t ≡ ok u
      → (u.posts ≡ t.posts) × (u.latest_amend ≡ t.latest_amend)
  unfolding update_post_balances
  update_post_balances-posts body t u e = go (env.fields body).chain e
    where
      last :
          (chain height : ℕ) (dapp : Option ℕ) (balances : Option (List (ℕ × D)))
          → write_balances env chain height dapp balances t ≡ ok u
          → (u.posts ≡ t.posts) × (u.latest_amend ≡ t.latest_amend)
      last chain height dapp none e = absurd (cc)
      last chain height dapp (some balances) e =
          (ap (λ v. v.posts) (sym (ok_inj e)), ap (λ v. v.latest_amend) (sym (ok_inj e)))

      at_ :
          (chain : ℕ) (height dapp : Option ℕ) (balances : Option (List (ℕ × D)))
          → balances_at env chain height dapp balances t ≡ ok u
          → (u.posts ≡ t.posts) × (u.latest_amend ≡ t.latest_amend)
      at_ chain none dapp balances e = absurd (cc)
      at_ chain (some height) dapp balances e = last chain height dapp balances e

      go :
          (chain : Option ℕ)
          → balances_of env chain (env.fields body) t ≡ ok u
          → (u.posts ≡ t.posts) × (u.latest_amend ≡ t.latest_amend)
      go none e = absurd (cc)
      go (some chain) e = elim (Bool-cases (env.is_chain chain)) [
        | inl y ↦ (let f = env.fields body in at_ chain f.main_height f.dapp f.balances (rw y at e))
        | inr n ↦ absurd (cc (rw n at e))
      ]

module _ {D : Type 0} (env : PostEnv D) (t : PostTables D) (p : Post) where
  -- The tables with the new row.
  abbrev pub with_row : PostTables D
  with_row = record t { posts = added t p; latest_amend = put t.latest_amend p.item_hash none }

  pub IsCurrent-added :
      IsCurrent t
      → any (has_hash p.item_hash) t.posts ≡ false
      → has_keys (added t p) (added t p) ≡ true
      → ((g : ℕ) (original : Post)
          → first (has_hash g) t.posts ≡ some original
          → amends_post g p ≡ true
          → p.creation_datetime ≤ time_of original (latest_of t.posts (t.latest_amend g)))
      → IsCurrent with_row
  IsCurrent-added k fresh keys b = record {
    unique = IsUnique-append hash_of t.posts p k.unique fresh;
    keys = keys;
    latest = λ g. shows_added t p g k fresh (b g);
  }

  -- The amended post is not the amend itself.
  pub amended_other :
      (r : ℕ) (o : Post)
      → any (has_hash p.item_hash) t.posts ≡ false
      → p.amends ≡ some r
      → first (has_hash r) (added t p) ≡ some o
      → is_none o.amends ≡ true
      → (p.item_hash == r) ≡ false
  amended_other r o fresh names_it found original = elim (Bool-cases (p.item_hash == r)) [
    | inr other ↦ other
    | inl same ↦
        (let eq : p.item_hash ≡ r = ground (arith, same) in
          let new : any (has_hash r) t.posts ≡ false = rw eq at fresh in
          let itself : some p ≡ some o = sym (first-new (has_hash r) t.posts p new same) ∙ found in
          let mine : is_none p.amends ≡ true = cc (itself, original) in
          absurd (cc (rw names_it at mine)))
  ]

  -- An amend that is not later than what its post shows.
  bound_older :
      (r : ℕ) (o : Post)
      → p.amends ≡ some r
      → first (has_hash r) t.posts ≡ some o
      → ltb (time_of o (latest_of t.posts (t.latest_amend r))) p.creation_datetime ≡ false
      → (g : ℕ) (original : Post) → first (has_hash g) t.posts ≡ some original
      → amends_post g p ≡ true
      → p.creation_datetime ≤ time_of original (latest_of t.posts (t.latest_amend g))
  bound_older r o names_it old older g original found a =
      let mine : (r == g) ≡ true = rw names_it at a in
      let eq : r ≡ g = ground (arith, mine) in
      let found' : first (has_hash r) t.posts ≡ some original =
        subst (λ h. first (has_hash h) t.posts ≡ some original) (sym eq) found in
      subst (λ h. p.creation_datetime ≤ time_of original (latest_of t.posts (t.latest_amend h))) eq
        (subst (λ q. p.creation_datetime ≤ time_of q (latest_of t.posts (t.latest_amend r)))
          (some_inj (sym old ∙ found')) (ground (arith, older)))

  -- A later amend is the latest one of its post.
  IsCurrent-newer :
      (r : ℕ) (o : Post)
      → IsCurrent t
      → any (has_hash p.item_hash) t.posts ≡ false
      → has_keys (added t p) (added t p) ≡ true
      → p.amends ≡ some r
      → (p.item_hash == r) ≡ false
      → first (has_hash r) t.posts ≡ some o
      → time_of o (latest_of t.posts (t.latest_amend r)) ≤ p.creation_datetime
      → IsCurrent
          (record with_row { latest_amend = put with_row.latest_amend r (some p.item_hash) })
  IsCurrent-newer r o k fresh keys names_it other found le = record {
    unique = IsUnique-append hash_of t.posts p k.unique fresh;
    keys = keys;
    latest = λ g. elim (Bool-cases (r == g)) [
      | inr differ ↦
          rw differ (shows_added t p g k fresh (λ _ _ a. absurd (cc (rw (names_it, differ) at a))))
      | inl same ↦
          (let eq : r ≡ g = ground (arith, same) in
            let self : first (has_hash p.item_hash) (added t p) ≡ some p =
              first-new (has_hash p.item_hash) t.posts p fresh (ground arith) in
            let now : ShowsLatest r t.posts (some o) (t.latest_amend r) =
              rw found at (k.latest r) in
            let mine : amends_post r p ≡ true = rw names_it (ground arith) in
            subst
              (λ h.
                ShowsLatest h (added t p) (first (has_hash h) (added t p))
                  (put with_row.latest_amend r (some p.item_hash) h))
              eq
              (rw (first-skip (has_hash r) t.posts p other) (
                rw found (
                  rw (==-refl r) (
                    (p, self, mine),
                    rw self (
                        All-append (AtMost r p.creation_datetime) t.posts (p ∷ [])
                          (AtMost-le r (time_of o (latest_of t.posts (t.latest_amend r)))
                            p.creation_datetime t.posts le now.1)
                          ((λ _. omega arith), tt)),
                  )))))
    ];
  }

  pub IsCurrent-Amended :
      (r : ℕ) (v : PostTables D)
      → IsCurrent t
      → any (has_hash p.item_hash) t.posts ≡ false
      → has_keys (added t p) (added t p) ≡ true
      → p.amends ≡ some r
      → Amended env r p.item_hash p.creation_datetime with_row v
      → IsCurrent v
  IsCurrent-Amended r v k fresh keys names_it am =
      let o = am.original in
      let other : (p.item_hash == r) ≡ false =
        amended_other r o fresh names_it am.found am.is_original in
      let old : first (has_hash r) t.posts ≡ some o =
        sym (first-skip (has_hash r) t.posts p other) ∙ am.found in
      let now : ShowsLatest r t.posts (some o) (t.latest_amend r) = rw old at (k.latest r) in
      let shown = time_of o (latest_of t.posts (t.latest_amend r)) in
      let eq : v ≡ (
          if ltb shown p.creation_datetime
          then record with_row { latest_amend = put with_row.latest_amend r (some p.item_hash) }
          else with_row) =
        rw (other, latest_of-append r t.posts p (t.latest_amend r) now.0) at (am.eq) in
      elim (Bool-cases (ltb shown p.creation_datetime)) [
        | inl newer ↦
            (subst IsCurrent (sym (rw newer at eq))
              (IsCurrent-newer r o k fresh keys names_it other old (ground (arith, newer))))
        | inr older ↦
            (subst IsCurrent (sym (rw older at eq))
              (IsCurrent-added k fresh keys (bound_older r o names_it old older)))
      ]
