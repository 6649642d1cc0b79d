-- ===== src/Status.antt =====
-- src/aleph/types/message_status.py and message_processing_result.py: where a message comes from,
-- the states it goes through, the error codes, and the exceptions of the handlers as values.
use py_aleph.Prelude.{Bool, true, false}

pub data MessageOrigin : Type 0 where
  onchain p2p ipfs : MessageOrigin

pub data MessageStatus : Type 0 where
  pending processed rejected forgotten : MessageStatus

pub data MessageProcessingStatus : Type 0 where
  processed_new_message processed_confirmation failed_will_retry failed_rejected :
      MessageProcessingStatus

unfoldable pub to_message_status : MessageProcessingStatus → MessageStatus
to_message_status processed_confirmation = MessageStatus.processed
to_message_status processed_new_message = MessageStatus.processed
to_message_status failed_will_retry = MessageStatus.pending
to_message_status failed_rejected = MessageStatus.rejected

pub data ErrorCode : Type 0 where
  internal_error invalid_format invalid_signature permission_denied content_unavailable
        file_unavailable balance_insufficient post_amend_no_target post_amend_target_not_found
        post_amend_amend store_ref_not_found store_update_update vm_ref_not_found
        vm_volume_not_found vm_amend_not_allowed vm_update_update vm_volume_too_small
        forget_no_target forget_target_not_found forget_forget forget_not_allowed
        forgotten_duplicate :
      ErrorCode

-- The exceptions that end the processing of a message. Two are none of
-- message_status.py: `unknown_hash` is `UnknownHashError`, and `other` is any further exception, such
-- as an error of the database or a failed assertion.
pub data Error : Type 0 where
  internal invalid_message_format bad_signature denied message_content_unavailable
        file_not_available no_amend_target amend_target_not_found cannot_amend_amend
        no_forget_target missing_store_ref store_cannot_update_store_with_ref forget_forbidden
        missing_vm_ref missing_vm_volume vm_update_not_allowed vm_cannot_update_update
        volume_too_small missing_forget_target cannot_forget_forget_message insufficient_balance
        unknown_hash other :
      Error

-- `isinstance(exception, InvalidMessageException)`: the message is wrong and is rejected.
unfoldable pub is_invalid_message : Error → Bool
is_invalid_message internal = false
is_invalid_message message_content_unavailable = false
is_invalid_message file_not_available = false
is_invalid_message amend_target_not_found = false
is_invalid_message missing_store_ref = false
is_invalid_message missing_vm_ref = false
is_invalid_message missing_vm_volume = false
is_invalid_message missing_forget_target = false
is_invalid_message unknown_hash = false
is_invalid_message other = false
is_invalid_message _ = true

-- `isinstance(exception, FileNotFoundException)`.
unfoldable pub is_file_not_found : Error → Bool
is_file_not_found message_content_unavailable = true
is_file_not_found file_not_available = true
is_file_not_found _ = false

-- `isinstance(exception, RetryMessageException)`: the message is tried again.
unfoldable pub is_retry : Error → Bool
is_retry internal = true
is_retry message_content_unavailable = true
is_retry file_not_available = true
is_retry amend_target_not_found = true
is_retry missing_store_ref = true
is_retry missing_vm_ref = true
is_retry missing_vm_volume = true
is_retry missing_forget_target = true
is_retry _ = false

-- `getattr(exception, "error_code", ErrorCode.INTERNAL_ERROR)`.
unfoldable pub error_code : Error → ErrorCode
error_code internal = internal_error
error_code invalid_message_format = invalid_format
error_code bad_signature = invalid_signature
error_code denied = permission_denied
error_code message_content_unavailable = content_unavailable
error_code file_not_available = file_unavailable
error_code no_amend_target = post_amend_no_target
error_code amend_target_not_found = post_amend_target_not_found
error_code cannot_amend_amend = post_amend_amend
error_code no_forget_target = forget_no_target
error_code missing_store_ref = store_ref_not_found
error_code store_cannot_update_store_with_ref = store_update_update
error_code forget_forbidden = forget_not_allowed
error_code missing_vm_ref = vm_ref_not_found
error_code missing_vm_volume = vm_volume_not_found
error_code vm_update_not_allowed = vm_amend_not_allowed
error_code vm_cannot_update_update = vm_update_update
error_code volume_too_small = vm_volume_too_small
error_code missing_forget_target = forget_target_not_found
error_code cannot_forget_forget_message = forget_forget
error_code insufficient_balance = balance_insufficient
error_code unknown_hash = internal_error
error_code other = internal_error
