-- ===== src/Node/Consistent.antt =====
-- How the tables for messages, forgotten messages and statuses fit together, and that the accessors
-- of db/accessors/messages.py keep this.
use py_aleph.Prelude.{ℕ, ◌≡◌, ◌≢◌, ◌⊎◌, true, false, Option, none, some, arith}
use py_aleph.Status.{MessageStatus, Error}
use py_aleph.Result.{ok, raise}
use py_aleph.Node.{Message, StatusRow, Forgotten, Pending, Tables}
use py_aleph.Node.Accessors.{
  is_pending, is_processed, is_forgotten, upsert_confirmation, upsert_message_status,
  delete_pending_message, forget_message, append_to_forgotten_by, mark_pending_message_as_rejected,
  reject_existing_pending_message, update_pending,
}

-- The rows of one hash. A message that is stored is not forgotten; a forgotten one has the status
-- FORGOTTEN and is not stored; with neither row the status says neither PROCESSED nor FORGOTTEN.
abbrev pub Fits : ℕ → Option Message → Option Forgotten → Option StatusRow → Type 0
Fits h (some m) none (some r) = (m.item_hash ≡ h) × (is_forgotten r.status ≡ false)
Fits h none (some f) (some r) = (f.item_hash ≡ h) × (is_forgotten r.status ≡ true)
Fits h none none (some r) = (is_processed r.status ≡ false) × (is_forgotten r.status ≡ false)
Fits h none none none = Unit
Fits h _ _ _ = ⊥

pub record IsConsistent (t : Tables) : Type 0 where
  pub at : (h : ℕ) → Fits h (t.messages h) (t.forgotten h) (t.statuses h)

-- Statements on other tables, or none of these rows, keep the invariant.
pub delete_pending_message-IsConsistent :
    (p : Pending) (t : Tables) → IsConsistent t → IsConsistent (delete_pending_message p t)
unfolding delete_pending_message
delete_pending_message-IsConsistent p t c = record { at = λ h. c.at h }

pub upsert_confirmation-IsConsistent :
    (h tx : ℕ) (t : Tables) → IsConsistent t → IsConsistent (upsert_confirmation h tx t)
unfolding upsert_confirmation
upsert_confirmation-IsConsistent h tx t c = record { at = λ j. c.at j }

pub update_pending-IsConsistent :
    (id : ℕ) (f : Pending → Pending) (t : Tables)
    → IsConsistent t
    → IsConsistent (update_pending id f t)
unfolding update_pending
update_pending-IsConsistent id f t c = record { at = λ h. c.at h }

-- A status upsert to PENDING or REJECTED touches no row whose status is final.
rejected-Fits :
    (h j now : ℕ) (t : Tables)
    → Fits j (t.messages j) (t.forgotten j) (t.statuses j)
    → let u = upsert_message_status h MessageStatus.rejected now is_pending t in
      Fits j (u.messages j) (u.forgotten j) (u.statuses j)
unfolding upsert_message_status
rejected-Fits h j now t c = ground arith

append-Fits :
    (h by j : ℕ) (t : Tables)
    → Fits j (t.messages j) (t.forgotten j) (t.statuses j)
    → let u = append_to_forgotten_by h by t in Fits j (u.messages j) (u.forgotten j) (u.statuses j)
unfolding append_to_forgotten_by
append-Fits h by j t c = ground arith

pub append_to_forgotten_by-IsConsistent :
    (h by : ℕ) (t : Tables) → IsConsistent t → IsConsistent (append_to_forgotten_by h by t)
append_to_forgotten_by-IsConsistent h by t c = record { at = λ j. append-Fits h by j t (c.at j) }

pub mark_rejected-IsConsistent :
    (now h : ℕ) (e : Error) (tx : Option ℕ) (t : Tables)
    → IsConsistent t
    → IsConsistent (mark_pending_message_as_rejected now h e tx t).1
unfolding mark_pending_message_as_rejected
mark_rejected-IsConsistent now h e tx t c = record { at = λ j. rejected-Fits h j now t (c.at j) }

-- Rejecting an existing pending message, for any error and whatever the status of its hash, leaves
-- consistent tables consistent.
pub reject_existing-IsConsistent :
    (now : ℕ) (p : Pending) (e : Error) (t : Tables)
    → IsConsistent t
    → IsConsistent (reject_existing_pending_message now p e t).1
unfolding reject_existing_pending_message
reject_existing-IsConsistent now p e t c =
    ground (arith, c.at, mark_rejected-IsConsistent now p.item_hash e p.tx_hash t c)

-- The hash has a row in one of the two tables.
abbrev pub IsKnown : ℕ → Tables → Type 0
IsKnown h t = (t.messages h ≢ none) ⊎ (t.forgotten h ≢ none)

forget-Fits :
    (h by j : ℕ) (t u : Tables)
    → Fits h (t.messages h) (t.forgotten h) (t.statuses h)
    → Fits j (t.messages j) (t.forgotten j) (t.statuses j)
    → IsKnown h t
    → forget_message h by t ≡ ok u
    → Fits j (u.messages j) (u.forgotten j) (u.statuses j)
unfolding forget_message
forget-Fits h by j t u d c k e = ground arith

-- Forgetting a hash that has a message or a forgotten row leaves consistent tables consistent, where
-- the accessor does not raise.
pub forget_message-IsConsistent :
    (h by : ℕ) (t u : Tables)
    → IsConsistent t
    → IsKnown h t
    → forget_message h by t ≡ ok u
    → IsConsistent u
forget_message-IsConsistent h by t u c k e = record {
  at = λ j. forget-Fits h by j t u (c.at h) (c.at j) k e;
}

-- A hash that is known stays known.
pub forget_message-IsKnown :
    (h by j : ℕ) (t u : Tables) → IsKnown j t → forget_message h by t ≡ ok u → IsKnown j u
unfolding forget_message
forget_message-IsKnown h by j t u k e = ground arith

-- In consistent tables the copy of `forget_message` breaks no primary key.
pub forget_message-total :
    (h by : ℕ) (e : Error) (t : Tables) → IsConsistent t → forget_message h by t ≡ raise e → ⊥
unfolding forget_message
forget_message-total h by e t c r = ground (arith, c.at h)
