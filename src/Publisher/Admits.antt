-- ===== src/Publisher/Admits.antt =====
-- What the publisher admits, and what it keeps of the tables.
use mathlib.Core.Path.{subst}
use py_aleph.Prelude.{
  ℕ, ◌≡◌, refl, ap, false, Option, none, some, List, [], ◌∷◌, ◌++◌, arith, first, any, any-append,
  Bool-cases, inl, inr,
}
use py_aleph.Status.{MessageStatus, Error, is_invalid_message}
use py_aleph.Result.{Result, ok, raise, ok_inj}
use py_aleph.Node.{Pending, Tables}
use py_aleph.Node.Accessors.{
  is_rejected, upsert_message_status, mark_pending_message_as_rejected, reject_new_pending_message,
}
use py_aleph.Node.Consistent.{Fits, IsConsistent, mark_rejected-IsConsistent}
use py_aleph.Handler.{HandlerEnv}
use py_aleph.Publisher.{
  PublisherEnv, RawMessage, Source, Parsed, same_message, has_integrity, reject_raw, catch_invalid,
  insert_new, after_load, after_parse, load_fetched_content, from_obj, parse_message,
  add_pending_message,
}

-- No row was there when one of the same sender, hash and signature came.
abbrev pub IsDistinct : List Pending → Type 0
IsDistinct [] = Unit
IsDistinct (q ∷ ps) = (any (λ p. same_message p q) ps ≡ false) × IsDistinct ps

IsDistinct-append :
    (p : Pending) (ps : List Pending)
    → first (same_message p) ps ≡ none
    → IsDistinct ps
    → IsDistinct (ps ++ (p ∷ []))
IsDistinct-append p [] n d = (refl, tt)
IsDistinct-append p (q ∷ ps) n d = elim (Bool-cases (same_message p q)) [
  | inl same ↦ absurd (cc (rw same at n))
  | inr other ↦ (
    rw (any-append (λ r. same_message r q) ps (p ∷ [])) (rw (d.0, other) refl),
    IsDistinct-append p ps (rw other at n) d.1,
  )
]

-- A status upsert to PENDING touches only a row that is REJECTED.
pending-Fits :
    (h j now : ℕ) (t : Tables)
    → Fits j (t.messages j) (t.forgotten j) (t.statuses j)
    → let u = upsert_message_status h MessageStatus.pending now is_rejected t in
      Fits j (u.messages j) (u.forgotten j) (u.statuses j)
unfolding upsert_message_status
pending-Fits h j now t c = ground arith

-- What the publisher keeps.
abbrev pub Keeps : Tables → Type 0
Keeps t = IsConsistent t × IsDistinct t.pending

reject_new-pending :
    (now h : ℕ) (e : Error) (tx : Option ℕ) (t : Tables)
    → (reject_new_pending_message now h e tx t).1.pending ≡ t.pending
unfolding reject_new_pending_message mark_pending_message_as_rejected upsert_message_status
reject_new-pending now h e tx t = ground arith

Keeps-reject_new :
    (now h : ℕ) (e : Error) (tx : Option ℕ) (t : Tables)
    → Keeps t
    → Keeps (reject_new_pending_message now h e tx t).1
unfolding reject_new_pending_message
Keeps-reject_new now h e tx t k = (
  ground (arith, k.0, mark_rejected-IsConsistent now h e tx t k.0),
  rw (reject_new-pending now h e tx t) (k.1),
)

module _ {E : Type 0} (env : PublisherEnv) (handlers : HandlerEnv E) where
  Keeps-reject_raw :
      (now : ℕ) (o : Option ℕ) (e : Error) (tx : Option ℕ) (t : Tables)
      → Keeps t
      → Keeps (reject_raw env handlers now o e tx t)
  Keeps-reject_raw now none e tx t k = k
  Keeps-reject_raw now (some h) e tx t k = Keeps-reject_new now h e tx t k

  Keeps-catch_invalid :
      (now : ℕ) (raw : RawMessage) (source : Source) (e : Error) (t u : Tables) (r : Option Pending)
      → catch_invalid env handlers now raw source e t ≡ ok (r, u)
      → Keeps t
      → Keeps u
  Keeps-catch_invalid now raw source e t u r q k = elim (Bool-cases (is_invalid_message e)) [
    | inr n ↦ absurd (cc (rw n at q))
    | inl y ↦
        (let run : ok (none, reject_raw env handlers now raw.item_hash e source.tx_hash t)
              ≡ ok (r, u) =
            rw y at q in
          subst Keeps (ap (λ x. x.1) (ok_inj run))
            (Keeps-reject_raw now raw.item_hash e source.tx_hash t k))
  ]

  Keeps-insert_new :
      (o : Option Pending) (p : Pending) (t : Tables)
      → first (same_message p) t.pending ≡ o
      → Keeps t
      → Keeps (insert_new env handlers o p t).1
  unfolding upsert_message_status
  Keeps-insert_new (some existing) p t f k = k
  Keeps-insert_new none p t f k = elim (Bool-cases (has_integrity env p)) [
    | inr bad ↦ rw bad k
    | inl good ↦ rw good (
      record { at = λ j. pending-Fits p.item_hash j p.reception_time t (k.0.at j) },
      IsDistinct-append p t.pending f k.1,
    )
  ]

  -- Adding a message of the network, where no exception escapes, leaves the tables of messages
  -- consistent if they were, and pending messages of which no two have the same sender, hash and
  -- signature if there were none such; an invalid message, one that is there already, and one that the
  -- constraints refuse, are among the cases.
  pub add_pending_message-Keeps :
      (id now : ℕ) (raw : RawMessage) (source : Source) (t u : Tables) (r : Option Pending)
      → add_pending_message env handlers id now raw source t ≡ ok (r, u)
      → IsConsistent t
      → IsDistinct t.pending
      → IsConsistent u × IsDistinct u.pending
  unfolding add_pending_message
  add_pending_message-Keeps id now raw source t u r q c d = go (parse_message env raw) q
    where
      loaded :
          (p : Result Pending) → after_load env handlers now raw source p t ≡ ok (r, u) → Keeps u
      loaded (raise e) q = Keeps-catch_invalid now raw source e t u r q (c, d)
      loaded (ok p) q =
          subst Keeps (ap (λ x. x.1) (ok_inj q))
            (Keeps-insert_new (first (same_message p) t.pending) p t refl (c, d))

      go :
          (p : Result Parsed) → after_parse env handlers id now raw source p t ≡ ok (r, u) → Keeps u
      go (raise e) q = Keeps-catch_invalid now raw source e t u r q (c, d)
      go (ok parsed) q =
          loaded (load_fetched_content env handlers (from_obj id now parsed source)) q
