-- ===== src/Posts/Process.antt =====
-- What processing a post does to the merged posts.
use mathlib.Core.Path.{subst}
use py_aleph.Prelude.{
  ℕ, ◌≡◌, sym, ap, ◌∙◌, true, false, Option, none, some, arith, ltb, if◌then◌else◌, any, first,
  first-new, first-skip, is_none, Bool-cases, ==-refl, if_true, if_false, inl, inr,
}
use py_aleph.Result.{ok, invert, ok_inj}
use py_aleph.Node.{Message, PostContent, put}
use py_aleph.Posts.{
  Post, PostTables, PostEnv, MergedPost, has_hash, has_keys, time_of, latest_of, merge_post,
  is_amend, post_content_of, get_post_content_ref, get_original_post, get_post, add_post,
  amend_original, update_post_balances, is_balance_post, post_of, process_post,
}
use py_aleph.Prelude.Keys.{some_inj, first-is_key}
use py_aleph.Posts.Rows.{hash_of}
use py_aleph.Posts.Amends.{
  Amended, amend_original-Amended, update_post_balances-posts, with_row, amended_other,
  IsCurrent-added, IsCurrent-Amended,
}
use py_aleph.Posts.Latest.{ShowsLatest, IsCurrent, latest_of-append, added, add_post-Added}

module _ {D : Type 0} (env : PostEnv D) where
  -- The steps of `process_post`.
  record Processed (m : Message) (t w : PostTables D) : Type 0 where
    content : PostContent
    is_content : post_content_of m.content ≡ ok content
    fresh : any (has_hash m.item_hash) t.posts ≡ false
    keys : (let p = post_of env m content in has_keys (added t p) (added t p) ≡ true)
    amended : PostTables D
    eq :
        (if is_amend content.type
          then amend_original env
              (get_post_content_ref content.ref)
              m.item_hash
              content.time
              (with_row env t (post_of env m content))
          else ok (with_row env t (post_of env m content)))
        ≡ ok amended
    same_posts : w.posts ≡ amended.posts
    same_latest : w.latest_amend ≡ amended.latest_amend

  balances_kept :
      (c : PostContent) (v w : PostTables D)
      → (if is_balance_post env c then update_post_balances env c.body v else ok v) ≡ ok w
      → (w.posts ≡ v.posts) × (w.latest_amend ≡ v.latest_amend)
  balances_kept c v w e = elim (Bool-cases (is_balance_post env c)) [
    | inl y ↦ update_post_balances-posts env c.body v w (rw y at e)
    | inr n ↦
        (let eq = ok_inj (rw n at e) in
          (ap (λ u. u.posts) (sym eq), ap (λ u. u.latest_amend) (sym eq)))
  ]

  process_post-Processed :
      (m : Message) (t w : PostTables D) → process_post env m t ≡ ok w → Processed m t w
  unfolding process_post
  process_post-Processed m t w e = invert (post_content_of m.content) _ e λ c ec e1.
      invert (add_post (post_of env m c) t) _ e1 λ u eu e2.
        invert
          (if is_amend c.type
            then amend_original env (get_post_content_ref c.ref) m.item_hash c.time u
            else ok u)
          _ e2
          λ v ev e3.
            let ad = add_post-Added t (post_of env m c) u eu in
            let (same_posts, same_latest) = balances_kept c v w e3 in
            record {
              content = c;
              is_content = ec;
              fresh = ad.fresh;
              keys = ad.keys;
              amended = v;
              eq = rw (ad.eq) at ev;
              same_posts = same_posts;
              same_latest = same_latest;
            }

  IsCurrent-same :
      (v w : PostTables D)
      → w.posts ≡ v.posts
      → w.latest_amend ≡ v.latest_amend
      → IsCurrent v
      → IsCurrent w
  IsCurrent-same v w p l k = record {
    unique = rw p (k.unique);
    keys = rw p (k.keys);
    latest = λ h. rw (p, l) (k.latest h);
  }

  amended-IsCurrent :
      (p : Post) (t v : PostTables D) (ref : Option ℕ)
      → IsCurrent t
      → any (has_hash p.item_hash) t.posts ≡ false
      → has_keys (added t p) (added t p) ≡ true
      → p.amends ≡ ref
      → amend_original env ref p.item_hash p.creation_datetime (with_row env t p) ≡ ok v
      → IsCurrent v
  amended-IsCurrent p t v none k fresh keys names_it e = absurd (cc)
  amended-IsCurrent p t v (some r) k fresh keys names_it e =
      IsCurrent-Amended env t p r v k fresh keys names_it
        (amend_original-Amended env r p.item_hash p.creation_datetime (with_row env t p) v e)

  -- Processing a post, if it does not raise, keeps the tables such that hashes are unique, amended rows
  -- are there, and each merged post shows the latest of its amends, if it shows one, and none of them
  -- is later than the post otherwise.
  pub process_post-IsCurrent :
      (m : Message) (t w : PostTables D) → process_post env m t ≡ ok w → IsCurrent t → IsCurrent w
  process_post-IsCurrent m t w e k =
      let st = process_post-Processed m t w e in
      let c = st.content in
      let p = post_of env m c in
      IsCurrent-same st.amended w st.same_posts st.same_latest
        (elim (Bool-cases (is_amend c.type)) [
          | inl amends_one ↦
              amended-IsCurrent p t st.amended (get_post_content_ref c.ref) k st.fresh st.keys
                (if_true _ _ amends_one) (sym (if_true _ _ amends_one) ∙ st.eq)
          | inr plain ↦
              (let eq : ok (with_row env t p) ≡ ok st.amended = sym (if_false _ _ plain) ∙ st.eq in
                let none_amended : p.amends ≡ none = if_false _ _ plain in
                subst IsCurrent (ok_inj eq) (
                  IsCurrent-added env t p k st.fresh st.keys
                    λ g o f a. absurd (cc (rw none_amended at a))))
        ])

  -- What a post shows after an amend: the amend, if it is later than what was shown.
  abbrev pub with_amend : Message → PostContent → MergedPost → MergedPost
  with_amend m c before =
      if ltb before.last_updated c.time
      then record before { item_hash = m.item_hash; content = c.body; last_updated = c.time }
      else before

  get_post-found :
      (r : ℕ) (o : Post) (u : PostTables D)
      → first (has_hash r) u.posts ≡ some o
      → is_none o.amends ≡ true
      → get_post r u ≡ some (merge_post o (latest_of u.posts (u.latest_amend r)))
  unfolding get_post get_original_post
  get_post-found r o u found is_original =
      rw (found, is_original)
        (ap (λ h. some (merge_post o (latest_of u.posts (u.latest_amend h))))
          (first-is_key hash_of r u.posts o found))

  get_post-Amended :
      (p : Post) (r : ℕ) (before : MergedPost) (t v : PostTables D)
      → IsCurrent t
      → any (has_hash p.item_hash) t.posts ≡ false
      → p.amends ≡ some r
      → get_post r t ≡ some before
      → Amended env r p.item_hash p.creation_datetime (with_row env t p) v
      → get_post r v
        ≡ some (
            if ltb before.last_updated p.creation_datetime
            then record before {
              item_hash = p.item_hash;
              content = p.content;
              last_updated = p.creation_datetime;
            }
            else before)
  get_post-Amended p r before t v k fresh names_it g am =
      let o = am.original in
      let other = amended_other env t p r o fresh names_it am.found am.is_original in
      let old : first (has_hash r) t.posts ≡ some o =
        sym (first-skip (has_hash r) t.posts p other) ∙ am.found in
      let now : ShowsLatest r t.posts (some o) (t.latest_amend r) = rw old at (k.latest r) in
      let shown = latest_of t.posts (t.latest_amend r) in
      let same = latest_of-append r t.posts p (t.latest_amend r) now.0 in
      let self : first (has_hash p.item_hash) (added t p) ≡ some p =
        first-new (has_hash p.item_hash) t.posts p fresh (ground arith) in
      let was : merge_post o shown ≡ before =
        some_inj (sym (get_post-found r o t old am.is_original) ∙ g) in
      let u : PostTables D = with_row env t p in
      let u' : PostTables D = record u { latest_amend = put u.latest_amend r (some p.item_hash) } in
      let eq : v ≡ (if ltb (time_of o shown) p.creation_datetime then u' else u) =
        rw (other, same) at (am.eq) in
      let to_self : latest_of u'.posts (u'.latest_amend r) ≡ some p = rw (==-refl r) self in
      let unchanged : latest_of u.posts (u.latest_amend r) ≡ shown = rw other same in
      let newer : get_post r u' ≡ some (merge_post o (some p)) =
        get_post-found r o u' am.found am.is_original ∙ ap (λ a. some (merge_post o a)) to_self in
      let older : get_post r u ≡ some (merge_post o shown) =
        get_post-found r o u am.found am.is_original ∙ ap (λ a. some (merge_post o a)) unchanged in
      subst
        (λ b.
          get_post r v
          ≡ some (
              if ltb b.last_updated p.creation_datetime
              then record b {
                item_hash = p.item_hash;
                content = p.content;
                last_updated = p.creation_datetime;
              }
              else b))
        was
        (elim (Bool-cases (ltb (time_of o shown) p.creation_datetime)) [
          | inl later ↦ rw later (ap (get_post r) (rw later at eq) ∙ newer)
          | inr not_later ↦ rw not_later (ap (get_post r) (rw not_later at eq) ∙ older)
        ])

  -- Processing an amend of a post that the node shows, if it does not raise, makes the node show the
  -- content, the hash and the time of the amend for it if the amend is later than the last update
  -- shown before, and leaves what is shown of it otherwise.
  pub get_post-process_post :
      (m : Message) (c : PostContent) (r : ℕ) (before : MergedPost) (t w : PostTables D)
      → post_content_of m.content ≡ ok c
      → is_amend c.type ≡ true
      → get_post_content_ref c.ref ≡ some r
      → IsCurrent t
      → get_post r t ≡ some before
      → process_post env m t ≡ ok w
      → get_post r w ≡ some (with_amend m c before)
  unfolding get_post get_original_post
  get_post-process_post m c r before t w ec ea er k g e =
      let st = process_post-Processed m t w e in
      let same : st.content ≡ c = ok_inj (sym st.is_content ∙ ec) in
      let amends_one : is_amend st.content.type ≡ true = ap (λ x. is_amend x.type) same ∙ ea in
      let ref : get_post_content_ref st.content.ref ≡ some r =
        ap (λ x. get_post_content_ref x.ref) same ∙ er in
      let p = post_of env m st.content in
      let done : amend_original env (some r) p.item_hash p.creation_datetime (with_row env t p)
          ≡ ok st.amended =
        ap (λ o. amend_original env o p.item_hash p.creation_datetime (with_row env t p)) (sym ref)
        ∙ sym (if_true _ _ amends_one)
        ∙ st.eq in
      let am =
        amend_original-Amended env r p.item_hash p.creation_datetime (with_row env t p) st.amended
          done in
      subst (λ x. get_post r w ≡ some (with_amend m x before)) same
        (rw (st.same_posts, st.same_latest)
          (get_post-Amended p r before t st.amended k st.fresh (if_true _ _ amends_one ∙ ref) g am))
