-- ===== src/Forget.antt =====
-- src/aleph/handlers/content/forget.py: the handler of FORGET messages, over the other content
-- handlers and the tables that they own.
pub mod Permitted
pub mod Linked
pub mod Laws
pub mod Named
use py_aleph.Prelude.{
  ℕ, Bool, true, false, not, ◌&&◌, Option, none, some, List, [], ◌∷◌, ◌++◌, ◌==◌, if◌then◌else◌,
}
use py_aleph.Status.{MessageStatus, Error}
use py_aleph.Result.{Result, ok, raise, ◌>>=◌, ◌>>◌, raise_if, for_each, check_each}
use py_aleph.Node.{
  MessageType, ForgetContent, Content, aggregate_content, post_content, store_content,
  forget_content, vm_content, Message, StatusRow, Tables,
}
use py_aleph.Node.Accessors.{
  message_exists, get_message_status, get_message_by_item_hash, forget_message,
  append_to_forgotten_by,
}
use py_aleph.Permissions.{Authorization, check_permissions, is_empty}
use py_aleph.Handler.{Session, ContentHandler}

-- What the handler reads of the tables of other handlers, and those handlers.
pub record ForgetEnv (E : Type 0) : Type 0 where
  pub security : Session E → ℕ → Option (List Authorization)
  pub aggregate_exists : Session E → ℕ → ℕ → Bool
  pub element_hashes : Session E → ℕ → ℕ → List ℕ
  pub has_dependent_volumes : Session E → ℕ → Bool
  pub content_handlers : MessageType → ContentHandler E

-- `assert isinstance(content, ForgetContent)`.
abbrev pub forget_content_of : Content → Result ForgetContent
forget_content_of (forget_content c) = ok c
forget_content_of (aggregate_content c) = raise Error.other
forget_content_of (post_content c) = raise Error.other
forget_content_of (store_content c) = raise Error.other
forget_content_of (vm_content c) = raise Error.other

abbrev pub is_forget : MessageType → Bool
is_forget MessageType.forget = true
is_forget _ = false

-- The tests of `check_permissions` on a target that is PROCESSED.
abbrev pub check_stored : Message → Option Message → Result (Unit {0})
check_stored message none = raise Error.internal
check_stored message (some target) =
    if is_forget target.type
    then raise Error.cannot_forget_forget_message
    else raise_if (not (target.sender == message.sender)) Error.denied

module _ {E : Type 0} (env : ForgetEnv E) where
  abbrev check_hash : Session E → ℕ → Result (Unit {0})
  check_hash s h =
      if not (message_exists s.tables h)
      then raise Error.missing_forget_target
      else raise_if (env.has_dependent_volumes s h) Error.forget_forbidden

  abbrev check_aggregate : Session E → ℕ → ℕ → Result (Unit {0})
  check_aggregate s owner key =
      raise_if (not (env.aggregate_exists s key owner)) Error.missing_forget_target

  -- `check_dependencies`.
  unfoldable pub check_dependencies : Message → Session E → Result (Unit {0})
  check_dependencies message s = do
    content ← forget_content_of message.content
    raise_if (is_empty content.hashes && is_empty content.aggregates) Error.no_forget_target
    check_each (check_hash s) content.hashes
    check_each (check_aggregate s content.address) content.aggregates

  unfoldable pub aggregate_hashes : Session E → ℕ → List ℕ → List ℕ
  aggregate_hashes s owner [] = []
  aggregate_hashes s owner (key ∷ keys) =
      env.element_hashes s key owner ++ aggregate_hashes s owner keys

  -- `_list_target_messages`.
  unfoldable pub list_target_messages : Session E → ForgetContent → List ℕ
  list_target_messages s content =
      content.hashes ++ aggregate_hashes s content.address content.aggregates

  abbrev check_by_status : Message → Session E → ℕ → Option StatusRow → Result (Unit {0})
  check_by_status message s h none = raise Error.missing_forget_target
  check_by_status message s h (some row) = elim row.status [
    | MessageStatus.forgotten ↦ ok tt
    | MessageStatus.rejected ↦ ok tt
    | MessageStatus.processed ↦ check_stored message (get_message_by_item_hash s.tables h)
    | MessageStatus.pending ↦ raise Error.missing_forget_target
  ]

  -- The body of the loop of `check_permissions`.
  unfoldable pub check_target : Message → Session E → ℕ → Result (Unit {0})
  check_target message s h = check_by_status message s h (get_message_status s.tables h)

  -- `check_permissions`.
  unfoldable pub check_forget_permissions : Message → Session E → Result (Unit {0})
  check_forget_permissions message s = do
    check_permissions (env.security s) message
    content ← forget_content_of message.content
    check_each (check_target message s) (list_target_messages s content)

  -- One call of the accessor `forget_message`, on the session.
  abbrev pub forget_one : ℕ → ℕ → Session E → Result (Session E)
  forget_one by h s = forget_message h by s.tables >>= λ t. ok (record s { tables = t })

  -- `_forget_message`: the message, and then what its handler names besides.
  unfoldable pub forget_with_handler : Message → ℕ → Session E → Result (Session E)
  forget_with_handler message by s = do
    marked ← forget_one by message.item_hash s
    cleaned ← (env.content_handlers message.type).forget_message message marked
    for_each (forget_one by) cleaned.1 cleaned.0

  abbrev pub forget_stored : ℕ → Option Message → Session E → Result (Session E)
  forget_stored by none s = raise Error.missing_forget_target
  forget_stored by (some message) s =
      if is_forget message.type
      then raise Error.cannot_forget_forget_message
      else forget_with_handler message by s

  abbrev pub forget_by_status : ℕ → ℕ → Option StatusRow → Session E → Result (Session E)
  forget_by_status by h none s = raise Error.missing_forget_target
  forget_by_status by h (some row) s = elim row.status [
    | MessageStatus.forgotten ↦ ok (record s { tables = append_to_forgotten_by h by s.tables })
    | MessageStatus.rejected ↦ raise Error.missing_forget_target
    | MessageStatus.processed ↦ forget_stored by (get_message_by_item_hash s.tables h) s
    | MessageStatus.pending ↦ raise Error.missing_forget_target
  ]

  -- `_forget_item_hash`: a REJECTED target is logged as nothing to do, and then fails the test for
  -- PROCESSED.
  unfoldable pub forget_item_hash : ℕ → ℕ → Session E → Result (Session E)
  forget_item_hash by h s = forget_by_status by h (get_message_status s.tables h) s

  -- `_process_forget_message`.
  unfoldable pub process_forget_message : Message → Session E → Result (Session E)
  process_forget_message message s = do
    content ← forget_content_of message.content
    for_each (forget_item_hash message.item_hash) (list_target_messages s content) s

  -- `ForgetMessageHandler`: FORGET messages have no related content, cost nothing, and are not
  -- forgotten.
  abbrev pub forget_handler : ContentHandler E
  forget_handler = record {
    fetch_related_content = λ message s. ok s;
    check_dependencies = check_dependencies;
    check_permissions = check_forget_permissions;
    check_balance = λ message s. ok tt;
    process = process_forget_message;
    forget_message = λ message s. raise Error.cannot_forget_forget_message;
  }
