-- ===== src/Forget/Permitted.antt =====
-- What the handler of FORGET messages (forget.py) lets a sender forget.
use py_aleph.Prelude.{
  ℕ, ◌≡◌, inl, inr, refl, Bool, true, false, not, ◌&&◌, Option, none, some, List, [], ◌∷◌, arith,
  ◌==◌, All, Bool-cases,
}
use py_aleph.Status.{MessageStatus, Error}
use py_aleph.Result.{Result, ok, raise, check_each, invert}
use py_aleph.Node.{ForgetContent, forget_content, Message, StatusRow}
use py_aleph.Node.Accessors.{get_message_status, get_message_by_item_hash}
use py_aleph.Permissions.{check_permissions}
use py_aleph.Handler.{Session}
use py_aleph.Forget.{
  ForgetEnv, is_forget, list_target_messages, check_stored, check_target, check_forget_permissions,
  forget_item_hash,
}

-- A target that the sender may forget: its hash has a status, and where that is PROCESSED, the
-- message is stored, is the sender's own, and is no FORGET.
abbrev pub may_forget_stored : ℕ → Option Message → Bool
may_forget_stored sender none = false
may_forget_stored sender (some target) = not (is_forget target.type) && target.sender == sender

abbrev pub may_forget : ℕ → Option StatusRow → Option Message → Bool
may_forget sender none m = false
may_forget sender (some row) m = elim row.status [
  | MessageStatus.forgotten ↦ true
  | MessageStatus.rejected ↦ true
  | MessageStatus.pending ↦ false
  | MessageStatus.processed ↦ may_forget_stored sender m
]

check_each-All {ℓ κ} :
    {A : Type ℓ} (P : A → Type κ) (f : A → Result (Unit {0}))
    → ((a : A) → f a ≡ ok tt → P a)
    → (xs : List A) → check_each f xs ≡ ok tt
    → All P xs
unfolding check_each
check_each-All P f k [] e = tt
check_each-All P f k (x ∷ xs) e = invert (f x) _ e λ _ ex er. (k x ex, check_each-All P f k xs er)

stored-allowed :
    (message : Message) (m : Option Message)
    → check_stored message m ≡ ok tt
    → may_forget_stored message.sender m ≡ true
stored-allowed message none e = absurd (cc)
stored-allowed message (some target) e = elim (Bool-cases (is_forget target.type)) [
  | inl y ↦ absurd (cc (rw y at e))
  | inr n ↦ rw n (elim (Bool-cases (target.sender == message.sender)) [
    | inl y ↦ y
    | inr d ↦ absurd (cc (rw d at (rw n at e)))
  ])
]

module _ {E : Type 0} (env : ForgetEnv E) where
  check_target-may_forget :
      (message : Message) (s : Session E) (h : ℕ)
      → check_target env message s h ≡ ok tt
      → may_forget message.sender (s.tables.statuses h) (s.tables.messages h) ≡ true
  unfolding check_target get_message_status get_message_by_item_hash
  check_target-may_forget message s h e =
      ground (arith, e, stored-allowed message (s.tables.messages h))

  -- A FORGET message passes the check of permissions only if its sender may forget each target, as
  -- `may_forget` says: the target has a status that is not PENDING, and where that is PROCESSED, it is
  -- stored, it is the sender's own, and it is no FORGET.
  pub check_forget_permissions-may_forget :
      (message : Message) (content : ForgetContent) (s : Session E)
      → message.content ≡ forget_content content
      → check_forget_permissions env message s ≡ ok tt
      → All
          (λ h. may_forget message.sender (s.tables.statuses h) (s.tables.messages h) ≡ true)
          (list_target_messages env s content)
  unfolding check_forget_permissions check_permissions check_target
  check_forget_permissions-may_forget message content s c e =
      check_each-All _ (check_target env message s) (check_target-may_forget message s)
        (list_target_messages env s content) (rw c at e)

  -- A target that is REJECTED passes the check of permissions, and then makes the processing fail
  -- as if the target were missing.
  pub forget_item_hash-rejected :
      (message : Message) (row : StatusRow) (by h : ℕ) (s : Session E)
      → s.tables.statuses h ≡ some row
      → row.status ≡ MessageStatus.rejected
      → (check_target env message s h ≡ ok tt)
        × (forget_item_hash env by h s ≡ raise Error.missing_forget_target)
  unfolding check_target forget_item_hash get_message_status get_message_by_item_hash
  forget_item_hash-rejected message row by h s e r = (rw (e, r) refl, rw (e, r) refl)
