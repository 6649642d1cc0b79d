-- ===== src/Handler/Process.antt =====
-- What `MessageHandler.process` does to the message tables, on every path.
use py_aleph.Prelude.{
  ℕ, ◌≡◌, refl, Bool, true, false, not, Option, none, some, List, [], ◌∷◌, arith, ◌==◌, any, keep,
}
use py_aleph.Status.{MessageOrigin, MessageStatus}
use py_aleph.Result.{Result, ok, invert}
use py_aleph.Node.{MessageType, Message, StatusRow, Forgotten, Pending, Tables}
use py_aleph.Node.Accessors.{
  is_pending, get_message_by_item_hash, get_forgotten_message, upsert_message, upsert_confirmation,
  upsert_message_status, delete_pending_message,
}
use py_aleph.Node.Consistent.{IsConsistent}
use py_aleph.Handler.{
  Session, HandlerEnv, Fetched, found, invalid_content, unavailable, from_pending_message,
  message_of, catch_unknown_hash, verify_signature, fetch_pending_message, fetch_related_content,
  ProcessingResult, processed_message, confirm_existing_message, confirm_existing_forgotten_message,
  insert_rows, insert_message, process_by, verify_and_fetch, process_new, process,
}

from_pending_hash :
    (p : Pending) (f : Fetched) {m : Message} → message_of p f ≡ ok m → m.item_hash ≡ p.item_hash
unfolding from_pending_message
from_pending_hash p (found raw) e = ground arith
from_pending_hash p invalid_content e = absurd (cc)
from_pending_hash p unavailable e = absurd (cc)

from_pending_sender :
    (p : Pending) (f : Fetched) {m : Message} → message_of p f ≡ ok m → m.sender ≡ p.sender
unfolding from_pending_message
from_pending_sender p (found raw) e = ground arith
from_pending_sender p invalid_content e = absurd (cc)
from_pending_sender p unavailable e = absurd (cc)

any-keep-not :
    (id : ℕ) (ps : List Pending) → any (λ q. q.id == id) (keep (λ q. not (q.id == id)) ps) ≡ false
any-keep-not id [] = refl
any-keep-not id (p ∷ ps) = ground (arith, any-keep-not id ps)

-- The confirmation that a pending message asks for.
abbrev pub is_confirmed : Option ℕ → (ℕ → Bool) → Bool
is_confirmed none c = true
is_confirmed (some tx) c = c tx

-- No status, or PENDING.
abbrev pub is_open : Option StatusRow → Bool
is_open none = true
is_open (some row) = is_pending row.status

abbrev pub status_of : Option StatusRow → Option MessageStatus
status_of none = none
status_of (some row) = some row.status

-- What is assumed of the content handlers: fetching leaves the message tables alone, and processing
-- keeps them consistent.
pub record KeepsTables {E : Type 0} (env : HandlerEnv E) : Type 0 where
  pub fetch_same :
      (type : MessageType) (m : Message) (s s' : Session E)
      → (env.content_handlers type).fetch_related_content m s ≡ ok s'
      → s'.tables ≡ s.tables
  pub process_consistent :
      (type : MessageType) (m : Message) (s s' : Session E)
      → (env.content_handlers type).process m s ≡ ok s'
      → IsConsistent s.tables
      → IsConsistent s'.tables

pub catch-ok {ℓ} : {A : Type ℓ} (r : Result A) {a : A} → catch_unknown_hash r ≡ ok a → r ≡ ok a
catch-ok r e = ground arith

module _ {E : Type 0} (env : HandlerEnv E) where
  -- The steps of `process_new` that end well, in their order.
  record Steps (p : Pending) (s : Session E) (m : Message) (done : Session E) : Type 0 where
    verified : verify_signature env p ≡ ok tt
    read : fetch_pending_message env p ≡ ok m
    fetched : Session E
    fetched_eq : fetch_related_content env m s ≡ ok fetched
    dependencies : (env.content_handlers m.type).check_dependencies m fetched ≡ ok tt
    permissions : (env.content_handlers m.type).check_permissions m fetched ≡ ok tt
    balance : (env.content_handlers m.type).check_balance m fetched ≡ ok tt
    inserted : Session E
    inserted_eq : insert_message env p m fetched ≡ ok inserted
    done_eq : (env.content_handlers m.type).process m inserted ≡ ok done

  process_new-Steps :
      (p : Pending) (s s' : Session E) (r : ProcessingResult)
      → process_new env p s ≡ ok (r, s')
      → (m : Message) × (r ≡ processed_message m p.origin false) × Steps p s m s'
  unfolding process_new verify_and_fetch
  process_new-Steps p s s' r e = invert (verify_and_fetch env p s) _ e λ f ef e1.
      invert (verify_signature env p) _ ef λ _ ev ef1.
        invert (fetch_pending_message env p) _ ef1 λ m em ef2.
          invert (fetch_related_content env m s) _ ef2 λ u eu ef3.
            invert ((env.content_handlers f.0.type).check_dependencies f.0 f.1) _ e1 λ _ ed e2.
              invert ((env.content_handlers f.0.type).check_permissions f.0 f.1) _ e2 λ _ ep e3.
                invert ((env.content_handlers f.0.type).check_balance f.0 f.1) _ e3 λ _ eb e4.
                  invert (insert_message env p f.0 f.1) _ e4 λ i ei e5.
                    invert ((env.content_handlers f.0.type).process f.0 i) _ e5 λ d edn e6. (
                      f.0,
                      cc e6,
                      record {
                        verified = ev;
                        read = cc (em, ef3);
                        fetched = f.1;
                        fetched_eq = cc (eu, em, ef3);
                        dependencies = ed;
                        permissions = ep;
                        balance = eb;
                        inserted = i;
                        inserted_eq = ei;
                        done_eq = cc (edn, e6);
                      },
                    )

  -- A message that `process` reports as new passed the signature check, where one was asked for, has
  -- the hash and the sender of the pending message, and was neither stored nor forgotten before.
  pub process-verified :
      (p : Pending) (s s' : Session E) (m : Message) (o : Option MessageOrigin)
      → process env p s ≡ ok (processed_message m o false, s')
      → (verify_signature env p ≡ ok tt)
        × (m.item_hash ≡ p.item_hash)
        × (m.sender ≡ p.sender)
        × (s.tables.messages p.item_hash ≡ none)
        × (s.tables.forgotten p.item_hash ≡ none)
  unfolding process get_message_by_item_hash get_forgotten_message
  process-verified p s s' m o e =
      go (s.tables.messages p.item_hash) (s.tables.forgotten p.item_hash) refl refl e
    where
      go :
          (mo : Option Message) (fo : Option Forgotten)
          → s.tables.messages p.item_hash ≡ mo
          → s.tables.forgotten p.item_hash ≡ fo
          → process_by env mo fo p s ≡ ok (processed_message m o false, s')
          → (verify_signature env p ≡ ok tt)
            × (m.item_hash ≡ p.item_hash)
            × (m.sender ≡ p.sender)
            × (s.tables.messages p.item_hash ≡ none)
            × (s.tables.forgotten p.item_hash ≡ none)
      go none none em ef h =
          let (n, eq, st) = process_new-Steps p s s' (processed_message m o false) h in
          let read : fetch_pending_message env p ≡ ok m = cc (st.read, eq) in
          (
            st.verified,
            from_pending_hash p (env.get_message_content p) read,
            from_pending_sender p (env.get_message_content p) read,
            em,
            ef,
          )
      go none (some f) em ef h =
          absurd (invert (confirm_existing_forgotten_message f p s.tables) _ h λ t et e1. cc e1)
      go (some x) fo em ef h =
          absurd (invert (confirm_existing_message x p s.tables) _ h λ t et e1. cc e1)

confirm-pending :
    (p : Pending) (m : Message) (t : Tables)
    → any (λ q. q.id == p.id) (insert_rows p m t).pending ≡ false
unfolding insert_rows upsert_message upsert_message_status delete_pending_message
    upsert_confirmation
confirm-pending p m t = ground (arith, any-keep-not p.id t.pending)

-- After a message that was not stored is inserted, it is stored as it is, the row of its pending
-- message is gone, and the confirmation that the pending message asks for, if any, is there.
pub insert_rows-rows :
    (p : Pending) (m : Message) (t : Tables)
    → t.messages m.item_hash ≡ none
    → let u = insert_rows p m t in
      (u.messages m.item_hash ≡ some m)
      × (any (λ q. q.id == p.id) u.pending ≡ false)
      × (is_confirmed p.tx_hash (u.confirmations m.item_hash) ≡ true)
unfolding insert_rows upsert_message upsert_message_status delete_pending_message
    upsert_confirmation
insert_rows-rows p m t e = (ground (arith, e), confirm-pending p m t, ground arith)

-- If the hash of a message had no status or the status PENDING, inserting it makes the status
-- PROCESSED.
pub insert_rows-status :
    (p : Pending) (m : Message) (t : Tables)
    → is_open (t.statuses m.item_hash) ≡ true
    → status_of ((insert_rows p m t).statuses m.item_hash) ≡ some MessageStatus.processed
unfolding insert_rows upsert_message upsert_message_status delete_pending_message
    upsert_confirmation
insert_rows-status p m t h = ground arith

-- A message whose hash has the status REJECTED, from an earlier pending message of the same hash,
-- is stored and keeps that status.
pub insert_rows-rejected :
    (p : Pending) (m : Message) (t : Tables) (row : StatusRow)
    → t.messages m.item_hash ≡ none
    → t.statuses m.item_hash ≡ some row
    → row.status ≡ MessageStatus.rejected
    → ((insert_rows p m t).messages m.item_hash ≡ some m)
      × ((insert_rows p m t).statuses m.item_hash ≡ some row)
unfolding insert_rows upsert_message upsert_message_status delete_pending_message
    upsert_confirmation
insert_rows-rejected p m t row e r h = ground arith
