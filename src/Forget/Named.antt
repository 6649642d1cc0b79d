-- ===== src/Forget/Named.antt =====
-- forget.py over the handler of posts (src/aleph/handlers/content/post.py), which returns the hashes
-- of the amends of a post, to be forgotten with it.
use py_aleph.Prelude.{ℕ, ◌≡◌, ap, ◌∙◌, sym, List}
use py_aleph.Result.{ok, invert, ok_inj}
use py_aleph.Node.{MessageType, Message}
use py_aleph.Node.Consistent.{IsKnown}
use py_aleph.Handler.{Session}
use py_aleph.Forget.{ForgetEnv}
use py_aleph.Forget.Linked.{NamesKnown}
use py_aleph.Posts.{PostTables, PostEnv, post_handler, forget_post}
use py_aleph.Posts.Forget.{names, forget_post-names}

module _ {D : Type 0} (posts : PostEnv D) where
  -- What the handler of posts makes of a message.
  record Forgets (m : Message) (s s' : Session (PostTables D)) (hs : List ℕ) : Type 0 where
    run : forget_post posts m s.ext ≡ ok (s'.ext, hs)
    same : s'.tables ≡ s.tables

  forget_message-Forgets :
      (m : Message) (s s' : Session (PostTables D)) (hs : List ℕ)
      → (post_handler posts).forget_message m s ≡ ok (s', hs)
      → Forgets m s s' hs
  forget_message-Forgets m s s' hs e = invert (forget_post posts m s.ext) _ e λ done ed e1.
      let eq : ◌≡◌ {A = Session (PostTables D) × List ℕ} (record s { ext = done.0 }, done.1)
          (s', hs) =
        ok_inj e1 in
      let split : ◌≡◌ {A = PostTables D × List ℕ} done (s'.ext, hs) =
        ap (λ x. let y : PostTables D × List ℕ = (x.0.ext, x.1) in y) eq in
      record { run = ed ∙ ap ok split; same = sym (ap (λ x. x.0.tables) eq) }

  -- Where every handler is that of posts, what FORGET messages assume of the handlers is met.
  pub post_handler-NamesKnown :
      (env : ForgetEnv (PostTables D))
      → ((type : MessageType) → env.content_handlers type ≡ post_handler posts)
      → NamesKnown env (names posts)
  post_handler-NamesKnown env all = record {
    same = λ type m s s' hs e. (forget_message-Forgets m s s' hs (rw (all type) at e)).same;
    named = λ type m s s' hs t e k.
        forget_post-names posts (λ h. IsKnown h t) m s.ext s'.ext hs
          (forget_message-Forgets m s s' hs (rw (all type) at e)).run k;
  }
