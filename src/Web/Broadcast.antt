-- ===== src/Web/Broadcast.antt =====
-- Publication of a message by the HTTP API: pub_on_p2p_topics, broadcast_and_process_message and the
-- status codes of src/aleph/web/controllers/utils.py, with pub_json and pub_message of
-- src/aleph/web/controllers/p2p.py.
use py_aleph.Prelude.{
  ℕ, ◌≤◌, ◌≡◌, refl, Bool, true, false, Option, none, some, List, [], ◌∷◌, ◌++◌, if◌then◌else◌,
  length, arith,
}
use py_aleph.Status.{MessageStatus, MessageProcessingStatus, to_message_status, Error}
use py_aleph.Result.{Result, ok, raise, ◌>>=◌}

-- `Protocol`, and the texts of a publication status.
pub data Protocol : Type 0 where
  p2p ipfs : Protocol

pub data StatusText : Type 0 where
  success warning error : StatusText

pub record PublicationStatus : Type 0 where
  pub status : StatusText
  pub failed : List Protocol

abbrev pub same_text : StatusText → StatusText → Bool
same_text success success = true
same_text warning warning = true
same_text error error = true
same_text _ _ = false

-- `from_failures`: the dictionary has no entry for more than two failures.
abbrev pub text_of : List Protocol → Result StatusText
text_of [] = ok success
text_of (p ∷ []) = ok warning
text_of (p ∷ q ∷ []) = ok error
text_of (p ∷ q ∷ r ∷ failed) = raise Error.other

unfoldable pub from_failures : List Protocol → Result PublicationStatus
from_failures failed = text_of failed >>= λ text. ok (record { status = text; failed = failed })

-- `pub_on_p2p_topics`: whether there is an IPFS service and its publication succeeds in time, and
-- whether that on the P2P network does.
abbrev pub failed_ipfs : Option Bool → List Protocol
failed_ipfs none = []
failed_ipfs (some succeeds) = if succeeds then [] else ipfs ∷ []

abbrev pub failed_p2p : Bool → List Protocol
failed_p2p succeeds = if succeeds then [] else p2p ∷ []

unfoldable pub pub_on_p2p_topics : Option Bool → Bool → List Protocol
pub_on_p2p_topics ipfs_succeeds p2p_succeeds = failed_ipfs ipfs_succeeds ++ failed_p2p p2p_succeeds

-- `processing_status_to_http_status` and `message_status_to_http_status`; a missing key raises.
unfoldable pub processing_status_to_http_status : MessageProcessingStatus → ℕ
processing_status_to_http_status MessageProcessingStatus.processed_new_message = 200
processing_status_to_http_status MessageProcessingStatus.processed_confirmation = 200
processing_status_to_http_status MessageProcessingStatus.failed_will_retry = 202
processing_status_to_http_status MessageProcessingStatus.failed_rejected = 422

unfoldable pub message_status_to_http_status : MessageStatus → Result ℕ
message_status_to_http_status MessageStatus.pending = ok 202
message_status_to_http_status MessageStatus.processed = ok 200
message_status_to_http_status MessageStatus.rejected = ok 422
message_status_to_http_status MessageStatus.forgotten = raise Error.other

pub record BroadcastStatus : Type 0 where
  pub publication_status : PublicationStatus
  pub message_status : Option MessageStatus

-- `==` of a model and a text: the model is compared as a dictionary, which no text is.
abbrev pub equals_text : PublicationStatus → StatusText → Bool
equals_text status text = false

-- `broadcast_status_to_http_status`, with its assertion.
abbrev pub asserted_status : Option MessageStatus → Result ℕ
asserted_status none = raise Error.other
asserted_status (some status) = message_status_to_http_status status

unfoldable pub broadcast_status_to_http_status : BroadcastStatus → Result ℕ
unfolding message_status_to_http_status
broadcast_status_to_http_status b =
    if equals_text b.publication_status error then ok 500 else asserted_status b.message_status

-- `broadcast_and_process_message`: in sync mode, `read` is the processing status of the event that
-- comes before the timeout, if one does.
abbrev pub status_read : Bool → Option MessageProcessingStatus → MessageStatus
status_read false read = MessageStatus.pending
status_read true none = MessageStatus.pending
status_read true (some status) = to_message_status status

unfoldable pub broadcast_and_process_message :
    Bool → Option Bool → Bool → Option MessageProcessingStatus → Result BroadcastStatus
unfolding from_failures pub_on_p2p_topics to_message_status
broadcast_and_process_message sync ipfs_succeeds p2p_succeeds read =
    from_failures (pub_on_p2p_topics ipfs_succeeds p2p_succeeds) >>= λ published.
    if same_text published.status error
    then ok (record { publication_status = published; message_status = none })
    else ok
        (record { publication_status = published; message_status = some (status_read sync read) })

-- `pub_message`, for a message that the schemas admit: the status code, with the body.
unfoldable pub pub_message :
    Bool → Option Bool → Bool → Option MessageProcessingStatus → Result (BroadcastStatus × ℕ)
unfolding broadcast_and_process_message broadcast_status_to_http_status
pub_message sync ipfs_succeeds p2p_succeeds read =
    broadcast_and_process_message sync ipfs_succeeds p2p_succeeds read >>= λ status.
    broadcast_status_to_http_status status >>= λ code. ok (status, code)

-- `pub_json`, for data that it admits.
unfoldable pub pub_json : Option Bool → Bool → Result (PublicationStatus × ℕ)
unfolding from_failures pub_on_p2p_topics
pub_json ipfs_succeeds p2p_succeeds =
    from_failures (pub_on_p2p_topics ipfs_succeeds p2p_succeeds) >>= λ published.
    ok (published, if equals_text published error then 500 else 200)

-- There is one failure at most for each network, so that every list of failures has a status.
from_failures_total :
    (i : Option Bool) (p : Bool)
    → (s : PublicationStatus) × (from_failures (pub_on_p2p_topics i p) ≡ ok s)
      × (s.failed ≡ pub_on_p2p_topics i p)
unfolding from_failures pub_on_p2p_topics
from_failures_total none true = (_, refl, refl)
from_failures_total none false = (_, refl, refl)
from_failures_total (some true) true = (_, refl, refl)
from_failures_total (some false) true = (_, refl, refl)
from_failures_total (some true) false = (_, refl, refl)
from_failures_total (some false) false = (_, refl, refl)

-- Publishing data responds with the code 200 whatever was published, also where every publication
-- failed; the body names the failures.
pub pub_json_code :
    (i : Option Bool) (p : Bool)
    → (s : PublicationStatus) × (pub_json i p ≡ ok (s, 200)) × (s.failed ≡ pub_on_p2p_topics i p)
unfolding pub_json
pub_json_code i p = let (s, e, f) = from_failures_total i p in (s, rw e refl, f)

-- At most one publication failed.
abbrev pub IsPublished : Option Bool → Bool → Type 0
IsPublished i p = length (pub_on_p2p_topics i p) ≤ 1

published_text :
    (i : Option Bool) (p : Bool)
    → IsPublished i p
    → (s : PublicationStatus) × (from_failures (pub_on_p2p_topics i p) ≡ ok s)
      × (same_text s.status error ≡ false)
unfolding from_failures pub_on_p2p_topics
published_text none true few = (_, refl, refl)
published_text none false few = (_, refl, refl)
published_text (some true) true few = (_, refl, refl)
published_text (some false) true few = (_, refl, refl)
published_text (some true) false few = (_, refl, refl)
published_text (some false) false few = absurd (omega arith)

-- The code that a caller is to get: that of the processing status of the event in sync mode.
abbrev pub code_of : Bool → Option MessageProcessingStatus → ℕ
code_of false read = 202
code_of true none = 202
code_of true (some status) = processing_status_to_http_status status

read-code :
    (sync : Bool) (read : Option MessageProcessingStatus)
    → message_status_to_http_status (status_read sync read) ≡ ok (code_of sync read)
unfolding message_status_to_http_status processing_status_to_http_status to_message_status
read-code false read = refl
read-code true none = refl
read-code true (some MessageProcessingStatus.processed_new_message) = refl
read-code true (some MessageProcessingStatus.processed_confirmation) = refl
read-code true (some MessageProcessingStatus.failed_will_retry) = refl
read-code true (some MessageProcessingStatus.failed_rejected) = refl

-- A publication with at most one failure: in sync mode, with an event in time, the code of the
-- response is that of the processing status of the event; in async mode and after a timeout it is 202.
pub pub_message-code_of :
    (sync : Bool) (i : Option Bool) (p : Bool) (read : Option MessageProcessingStatus)
    → IsPublished i p
    → (b : BroadcastStatus) × (pub_message sync i p read ≡ ok (b, code_of sync read))
unfolding pub_message broadcast_and_process_message broadcast_status_to_http_status
pub_message-code_of sync i p read few =
    let (s, e, t) = published_text i p few in
    (
      record { publication_status = s; message_status = some (status_read sync read) },
      rw e (rw t (rw (read-code sync read) refl)),
    )

-- Where there is an IPFS service and both publications failed, the response is no status code: the
-- assertion on the status of the message fails.
pub pub_message-raises :
    (sync : Bool) (read : Option MessageProcessingStatus)
    → pub_message sync (some false) false read ≡ raise Error.other
unfolding pub_message broadcast_and_process_message from_failures pub_on_p2p_topics
    broadcast_status_to_http_status
pub_message-raises sync read = refl
