-- ===== src/Forget/Laws.antt =====
-- What the handler of FORGET messages (forget.py) leaves of the tables.
use mathlib.Core.Path.{subst}
use py_aleph.Prelude.{
  ℕ, ◌≡◌, ◌≢◌, ◌⊎◌, inl, inr, refl, sym, ap, Option, none, some, List, [], ◌∷◌, arith, All,
  Bool-cases, Option-cases,
}
use py_aleph.Status.{MessageStatus}
use py_aleph.Result.{ok, for_each, invert, ok_inj}
use py_aleph.Node.{MessageType, ForgetContent, forget_content, Message, Tables}
use py_aleph.Node.Accessors.{get_message_status, get_message_by_item_hash, append_to_forgotten_by}
use py_aleph.Node.Consistent.{
  IsConsistent, IsKnown, forget_message-IsConsistent, append_to_forgotten_by-IsConsistent,
}
use py_aleph.Handler.{Session}
use py_aleph.Forget.{
  ForgetEnv, is_forget, list_target_messages, forget_one, forget_with_handler, forget_stored,
  forget_item_hash, process_forget_message,
}
use py_aleph.Forget.Linked.{
  forget_message-IsForgotten, forget_message_self, append-IsForgotten, All-append,
  forget_one-tables, forget_all-IsConsistent, forget_all-IsForgotten, forget_one-IsLinked,
  forget_all-IsLinked, IsForgotten, IsLinked, NamesKnown,
}

status-cases :
    (s : MessageStatus)
    → (s ≡ MessageStatus.processed)
      ⊎ ((s ≡ MessageStatus.forgotten)
          ⊎ ((s ≡ MessageStatus.rejected) ⊎ (s ≡ MessageStatus.pending)))
status-cases MessageStatus.processed = inl refl
status-cases MessageStatus.forgotten = inr (inl refl)
status-cases MessageStatus.rejected = inr (inr (inl refl))
status-cases MessageStatus.pending = inr (inr (inr refl))

module _ {E : Type 0} (env : ForgetEnv E) where
  module _ (names : E → List ℕ) (laws : NamesKnown env names) where
    -- The tables that a content handler leaves, and the hashes that it returns.
    handler-named :
        (type : MessageType) (m : Message) (s s' : Session E) (hs : List ℕ)
        → (env.content_handlers type).forget_message m s ≡ ok (s', hs)
        → IsLinked names s
        → All (λ h. IsKnown h s'.tables) hs × IsLinked names s'
    handler-named type m s s' hs e k =
        laws.named type m s s' hs s'.tables e
          (subst (λ x. All (λ h. IsKnown h x) (names s.ext)) (sym (laws.same type m s s' hs e)) k)

    forget_with_handler-IsConsistent :
        (message : Message) (by : ℕ) (s t : Session E)
        → IsKnown message.item_hash s.tables
        → forget_with_handler env message by s ≡ ok t
        → IsConsistent s.tables
        → IsLinked names s
        → IsConsistent t.tables × IsLinked names t
    unfolding forget_with_handler
    forget_with_handler-IsConsistent message by s t k e c l =
        invert (forget_one env by message.item_hash s) _ e λ u eu e1.
          invert ((env.content_handlers message.type).forget_message message u) _ e1 λ v ev e2.
            let f = forget_one-tables env by message.item_hash s u eu in
            let same = laws.same message.type message u v.0 v.1 ev in
            let (known, linked) =
              handler-named message.type message u v.0 v.1 ev
                (forget_one-IsLinked env names by message.item_hash s u eu l) in
            (
              forget_all-IsConsistent env by v.1 v.0 t e2 known (
                  subst IsConsistent (sym same)
                    (forget_message-IsConsistent message.item_hash by s.tables u.tables c k f)),
              forget_all-IsLinked env names by v.1 v.0 t e2 linked,
            )

    forget_with_handler-IsForgotten :
        (message : Message) (by j : ℕ) (s t : Session E)
        → IsKnown message.item_hash s.tables
        → (j ≡ message.item_hash) ⊎ IsForgotten j s.tables
        → forget_with_handler env message by s ≡ ok t
        → IsForgotten j t.tables
    unfolding forget_with_handler
    forget_with_handler-IsForgotten message by j s t k h e =
        invert (forget_one env by message.item_hash s) _ e λ u eu e1.
          invert ((env.content_handlers message.type).forget_message message u) _ e1 λ v ev e2.
            let f = forget_one-tables env by message.item_hash s u eu in
            let done : IsForgotten j u.tables = elim h [
              | inl q ↦
                  subst (λ i. IsForgotten i u.tables) (sym q)
                    (forget_message_self message.item_hash by s.tables u.tables k f)
              | inr q ↦ forget_message-IsForgotten message.item_hash by j s.tables u.tables q f
            ] in
            forget_all-IsForgotten env by j v.1 v.0 t e2
              (subst (IsForgotten j) (sym (laws.same message.type message u v.0 v.1 ev)) done)

    -- What one target of a FORGET message leaves.
    record Leaves (h : ℕ) (s t : Session E) : Type 0 where
      kept : IsConsistent t.tables × IsLinked names t
      done : IsForgotten h t.tables
      stays : (j : ℕ) → IsForgotten j s.tables → IsForgotten j t.tables

    forget_stored-Leaves :
        (by h : ℕ) (m : Option Message) (s t : Session E)
        → s.tables.messages h ≡ m
        → IsConsistent s.tables
        → IsLinked names s
        → forget_stored env by m s ≡ ok t
        → Leaves h s t
    forget_stored-Leaves by h none s t em c l e = absurd (cc)
    forget_stored-Leaves by h (some message) s t em c l e =
        elim (Bool-cases (is_forget message.type)) [
          | inl y ↦ absurd (cc (rw y at e))
          | inr n ↦
              let run : forget_with_handler env message by s ≡ ok t = rw n at e in
              let same : message.item_hash ≡ h = ground (arith, c.at h) in
              let known : IsKnown message.item_hash s.tables = rw same (inl (rw em (λ q. cc))) in
              record {
                kept = forget_with_handler-IsConsistent message by s t known run c l;
                done = forget_with_handler-IsForgotten message by h s t known (inl (sym same)) run;
                stays = λ j k. forget_with_handler-IsForgotten message by j s t known (inr k) run;
              }
        ]

    forget_item_hash-Leaves :
        (by h : ℕ) (s t : Session E)
        → IsConsistent s.tables
        → IsLinked names s
        → forget_item_hash env by h s ≡ ok t
        → Leaves h s t
    unfolding forget_item_hash get_message_status get_message_by_item_hash
    forget_item_hash-Leaves by h s t c l e = elim (Option-cases (s.tables.statuses h)) [
      | inl n ↦ absurd (cc (rw n at e))
      | inr (row, q) ↦ elim (status-cases row.status) [
        | inl y ↦
            let run : forget_stored env by (s.tables.messages h) s ≡ ok t = rw (q, y) at e in
            forget_stored-Leaves by h (s.tables.messages h) s t refl c l run
        | inr (inl y) ↦
            let after : Session E = record s { tables = append_to_forgotten_by h by s.tables } in
            let all : after ≡ t = (let w : ok after ≡ ok t = rw (q, y) at e in ok_inj w) in
            let run : append_to_forgotten_by h by s.tables ≡ t.tables = ap (λ x. x.tables) all in
            record {
              kept = (
                subst IsConsistent {x = append_to_forgotten_by h by s.tables} {y = t.tables} run
                    (append_to_forgotten_by-IsConsistent h by s.tables c),
                subst (IsLinked names) all (All-append h by s.tables (names s.ext) l),
              );
              done =
                  subst (IsForgotten h) {x = append_to_forgotten_by h by s.tables} {y = t.tables}
                    run (append-IsForgotten h by h s.tables (ground (arith, q, y, c.at h)));
              stays = λ j k.
                  subst (IsForgotten j) {x = append_to_forgotten_by h by s.tables} {y = t.tables}
                    run (append-IsForgotten h by j s.tables k);
            }
        | inr (inr (inl y)) ↦ absurd (cc (rw (q, y) at e))
        | inr (inr (inr y)) ↦ absurd (cc (rw (q, y) at e))
      ]
    ]

    forget_each-Leaves :
        (by : ℕ) (hs : List ℕ) (s t : Session E)
        → IsConsistent s.tables
        → IsLinked names s
        → for_each (forget_item_hash env by) hs s ≡ ok t
        → (IsConsistent t.tables × IsLinked names t)
          × (((j : ℕ) → IsForgotten j s.tables → IsForgotten j t.tables)
              × All (λ h. IsForgotten h t.tables) hs)
    unfolding for_each
    forget_each-Leaves by [] s t c l e =
        subst
          (λ (x : Session E).
            (IsConsistent x.tables × IsLinked names x)
            × (((j : ℕ) → IsForgotten j s.tables → IsForgotten j x.tables) × Unit {0}))
          {x = s} {y = t} (cc (e)) ((c, l), (λ j k. k, tt))
    forget_each-Leaves by (h ∷ hs) s t c l e = invert (forget_item_hash env by h s) _ e λ u eu er.
        let one = forget_item_hash-Leaves by h s u c l eu in
        let rest = forget_each-Leaves by hs u t one.kept.0 one.kept.1 er in
        (rest.0, (λ j k. rest.1.0 j (one.stays j k), (rest.1.0 h one.done, rest.1.1)))

    gone :
        (t : Tables) (hs : List ℕ)
        → IsConsistent t
        → All (λ h. IsForgotten h t) hs
        → All (λ h. (t.forgotten h ≢ none) × (t.messages h ≡ none)) hs
    gone t [] c a = tt
    gone t (h ∷ hs) c a = ((a.0, ground (arith, c.at h, a.0)), gone t hs c a.1)

    -- When a FORGET message was processed on consistent tables, and the hashes that the tables of
    -- the content handlers name are those of messages or of forgotten messages: both hold after
    -- it, and every hash that the message targets has a row in the table of forgotten messages and
    -- no message. The content handlers leave the message tables to the caller, and return and keep
    -- only hashes that their tables named before, as the handler of posts does.
    pub process_forget_message-forgets :
        (message : Message) (content : ForgetContent) (s t : Session E)
        → message.content ≡ forget_content content
        → IsConsistent s.tables
        → IsLinked names s
        → process_forget_message env message s ≡ ok t
        → (IsConsistent t.tables × IsLinked names t)
          × All
              (λ h. (t.tables.forgotten h ≢ none) × (t.tables.messages h ≡ none))
              (list_target_messages env s content)
    unfolding process_forget_message
    process_forget_message-forgets message content s t ec c l e =
        let all =
          forget_each-Leaves message.item_hash (list_target_messages env s content) s t c l
            (rw ec at e) in
        (all.0, gone t.tables (list_target_messages env s content) all.0.0 all.1.1)
