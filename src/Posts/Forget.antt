-- ===== src/Posts/Forget.antt =====
-- That the merged posts show the latest of their amends after a post is forgotten.
use mathlib.Core.Path.{}
use py_aleph.Prelude.{
  ℕ, ◌≡◌, refl, sym, ap, ◌∙◌, Bool, true, false, Option, none, some, List, [], ◌∷◌, All, arith,
  if◌then◌else◌, keep, first, map, equals, Bool-cases, if_true, if_false, Option-cases, inl, inr,
}
use py_aleph.Result.{Result, ok, raise, ◌>>=◌, invert, ok_inj}
use py_aleph.Node.{Message, PostContent, PostRef, chain_ref, text}
use py_aleph.Posts.{
  Post, PostTables, PostEnv, has_hash, amends_post, has_keys, is_amend, post_content_of,
  get_post_content_ref, get_original_post, delete_posts, delete_amends, delete_post,
  refresh_latest_amend, refresh_original, ref_text, post_of, forget_post,
}
use py_aleph.Prelude.Keys.{some_inj, IsUnique-keep, first-is_key}
use py_aleph.Posts.Rows.{hash_of}
use py_aleph.Posts.Latest.{IsCurrent}
use py_aleph.Posts.Delete.{
  stays, left, amended_by, with_posts, two_deletions, RefreshedOne, shows_refresh, posts_after,
  shows_other,
}

module _ {D : Type 0} (env : PostEnv D) where
  -- The steps of `forget_post`.
  record Forgets (m : Message) (c : PostContent) (t v : PostTables D) (hashes : List ℕ)
      : Type 0 where
    keys : has_keys (left t m.item_hash) (left t m.item_hash) ≡ true
    named : hashes ≡ map (λ p. p.item_hash) (keep (amends_post m.item_hash) t.posts)
    eq :
        (let rest : PostTables D = record t { posts = left t m.item_hash } in
          if is_amend c.type
          then refresh_original env m.item_hash (get_original_post (ref_text env c.ref) rest) rest
          else ok rest)
        ≡ ok v

  forget_post-Forgets :
      (m : Message) (c : PostContent) (t v : PostTables D) (hashes : List ℕ)
      → post_content_of m.content ≡ ok c
      → forget_post env m t ≡ ok (v, hashes)
      → Forgets m c t v hashes
  unfolding forget_post delete_amends delete_post
  forget_post-Forgets m c t v hashes ec e =
      let e1 = rw ec at e in
      let names = map (λ p. p.item_hash) (keep (amends_post m.item_hash) t.posts) in
      invert (delete_posts (amends_post m.item_hash) t >>= λ u. ok (names, u)) _ e1 λ d ed e2.
        invert (delete_posts (amends_post m.item_hash) t) _ ed λ u eu ed'.
          invert (delete_posts (has_hash m.item_hash) d.1) _ e2 λ rest er e3.
            invert
              (if is_amend c.type
                then refresh_original env m.item_hash (get_original_post (ref_text env c.ref) rest)
                    rest
                else ok rest)
              _ e3
              λ w ew e4.
                let same : (names, u) ≡ d = ok_inj ed' in
                let (keys, eq) =
                  two_deletions m.item_hash t u rest eu (rw (ap (λ x. x.1) (sym same)) at er) in
                let done : ◌≡◌ {A = PostTables D × List ℕ} (w, d.0) (v, hashes) = ok_inj e4 in
                let last : (if is_amend c.type
                      then refresh_original env m.item_hash
                          (get_original_post (ref_text env c.ref) rest) rest
                      else ok rest)
                    ≡ ok v =
                  ew ∙ ap ok (ap (λ x. x.0) done) in
                record {
                  keys = keys;
                  named = sym (ap (λ x. x.1) done) ∙ ap (λ x. x.0) (sym same);
                  eq = rw (sym eq) at last;
                }

  refreshed_cases :
      (h : ℕ) (o : Option Post) (rest v : PostTables D)
      → refresh_original env h o rest ≡ ok v
      → RefreshedOne rest v
  refreshed_cases h none rest v e = absurd (cc)
  refreshed_cases h (some o) rest v e =
      elim (Bool-cases (equals (rest.latest_amend o.item_hash) h)) [
        | inl y ↦ inr (o.item_hash, sym (ok_inj (rw y at e)))
        | inr n ↦ inl (sym (ok_inj (rw n at e)))
      ]

  abbrev pub IsText : Option PostRef → Type 0
  IsText none = Unit
  IsText (some (text ref)) = Unit
  IsText (some (chain_ref item_hash)) = ⊥

  ref_text_lem :
      (ref : Option PostRef) (r : ℕ)
      → IsText ref
      → get_post_content_ref ref ≡ some r
      → ref_text env ref ≡ r
  ref_text_lem none r i e = absurd (cc)
  ref_text_lem (some (text ref)) r i e = some_inj e
  ref_text_lem (some (chain_ref h)) r i e = absurd i

  amended_ref :
      (b : Bool) (ref : Option ℕ) (g : ℕ)
      → equals (if b then ref else none) g ≡ true
      → (b ≡ true) × (ref ≡ some g)
  amended_ref true none g e = absurd (cc)
  amended_ref true (some r) g e = (refl, ap some (ground (arith, e)))
  amended_ref false ref g e = absurd (cc)

  outcome :
      (m : Message) (c : PostContent) (t v : PostTables D) (hashes : List ℕ)
      → Forgets m c t v hashes
      → RefreshedOne (with_posts t (left t m.item_hash)) v
  outcome m c t v hashes st =
      let rest = with_posts t (left t m.item_hash) in
      elim (Bool-cases (is_amend c.type)) [
        | inl y ↦
            refreshed_cases m.item_hash (get_original_post (ref_text env c.ref) rest) rest v
              (sym (if_true _ _ y) ∙ st.eq)
        | inr n ↦ inl (sym (ok_inj (sym (if_false _ _ n) ∙ st.eq)))
      ]

  -- The post of the latest amend that goes is refreshed.
  refreshed_this :
      (m : Message) (c : PostContent) (t v : PostTables D) (hashes : List ℕ) (g : ℕ) (o : Post)
      → Forgets m c t v hashes
      → IsText c.ref
      → amends_post g (post_of env m c) ≡ true
      → first (has_hash g) (left t m.item_hash) ≡ some o
      → equals (t.latest_amend g) m.item_hash ≡ true
      → v ≡ refresh_latest_amend g (with_posts t (left t m.item_hash))
  unfolding get_original_post
  refreshed_this m c t v hashes g o st is_text by found this =
      let (amends_one, ref) = amended_ref (is_amend c.type) (get_post_content_ref c.ref) g by in
      let target = ref_text_lem c.ref g is_text ref in
      let hash = first-is_key hash_of g (left t m.item_hash) o found in
      let run : refresh_original env m.item_hash (some o) (with_posts t (left t m.item_hash))
          ≡ ok v =
        sym (if_true _ _ amends_one ∙ rw (target, found) refl) ∙ st.eq in
      sym (ok_inj (rw (hash, this) at run))

  -- Forgetting a post whose `ref` is no `ChainRef`, if it does not raise, keeps the tables such that
  -- hashes are unique, amended rows are there, and each merged post shows the latest of its amends, if
  -- it shows one, and none of them is later than the post otherwise.
  pub forget_post-IsCurrent :
      (m : Message) (c : PostContent) (t v : PostTables D) (hashes : List ℕ)
      → post_content_of m.content ≡ ok c
      → IsText c.ref
      → first (has_hash m.item_hash) t.posts ≡ some (post_of env m c)
      → forget_post env m t ≡ ok (v, hashes)
      → IsCurrent t
      → IsCurrent v
  forget_post-IsCurrent m c t v hashes ec is_text stored e k =
      let st = forget_post-Forgets m c t v hashes ec e in
      let h = m.item_hash in
      let after = outcome m c t v hashes st in
      let same_posts = posts_after t h v after in
      record {
        unique = rw same_posts (IsUnique-keep hash_of (stays h) t.posts k.unique);
        keys = rw same_posts (st.keys);
        latest = λ g. rw same_posts (elim (Bool-cases (equals (t.latest_amend g) h)) [
          | inr other ↦ shows_other t h v g k other after
          | inl this ↦ elim (Option-cases (first (has_hash g) (left t h))) [
            | inl missing ↦ rw missing tt
            | inr (o, found) ↦
                (let by = amended_by t h g (post_of env m c) o k stored this found in
                  let eq = refreshed_this m c t v hashes g o st is_text by found this in
                  rw eq (shows_refresh t h g k))
          ]
        ]);
      }

  -- The hashes that the rows of posts name.
  abbrev pub names : PostTables D → List ℕ
  names t = map (λ p. p.item_hash) t.posts

  All-names_keep :
      (P : ℕ → Type 0) (r : Post → Bool) (ps : List Post)
      → All P (map (λ p. p.item_hash) ps)
      → All P (map (λ p. p.item_hash) (keep r ps))
  All-names_keep P r [] a = tt
  All-names_keep P r (p ∷ ps) a = elim (Bool-cases (r p)) [
    | inl y ↦ rw y (a.0, All-names_keep P r ps a.1)
    | inr n ↦ rw n (All-names_keep P r ps a.1)
  ]

  forget_from-names :
      (P : ℕ → Type 0) (m : Message) (r : Result PostContent) (t v : PostTables D) (hashes : List ℕ)
      → post_content_of m.content ≡ r
      → forget_post env m t ≡ ok (v, hashes)
      → All P (names t)
      → All P hashes × All P (names v)
  unfolding forget_post
  forget_from-names P m (raise x) t v hashes er e a = absurd (cc (rw er at e))
  forget_from-names P m (ok c) t v hashes er e a =
      let st = forget_post-Forgets m c t v hashes er e in
      (
        rw st.named (All-names_keep P (amends_post m.item_hash) t.posts a),
        rw (posts_after t m.item_hash v (outcome m c t v hashes st))
            (All-names_keep P (stays m.item_hash) t.posts a),
      )

  -- Forgetting a post returns, and leaves in the table of posts, only hashes of rows that were there.
  pub forget_post-names :
      (P : ℕ → Type 0) (m : Message) (t v : PostTables D) (hashes : List ℕ)
      → forget_post env m t ≡ ok (v, hashes)
      → All P (names t)
      → All P hashes × All P (names v)
  forget_post-names P m t v hashes e a =
      forget_from-names P m (post_content_of m.content) t v hashes refl e a
