-- ===== src/Store/Tables.antt =====
-- The tables of one state database, as far as the projections read or write them.
use muse_agent_social.Prelude.{ℕ, String, Bool, Option, List}
use muse_agent_social.Store.Events.{EventRow, PayloadRow, KeyAction}

-- The stable codes of `ProjectionError`, and the reason `sequence_fork`.
pub data Code : Type 0 where
  edit_target_not_message edit_not_sender edit_after_retract : Code
  retract_target_not_message retract_not_sender : Code
  reply_target_scope thread_scope_mismatch reaction_cap_exceeded : Code
  poll_bad_closes_at poll_response_target_not_poll poll_no_choice poll_duplicate_choice : Code
  poll_unknown_choice poll_multi_choice_single_select poll_closed : Code
  task_update_target_not_task task_not_authorized task_transition_terminal task_bad_status : Code
  human_response_target_not_request : Code
  delivery_cancel_target_not_scheduled delivery_cancel_not_sender : Code
  unknown_event_type payload_missing sequence_fork : Code

pub record ThreadRow : Type 0 where
  pub thread_id : String
  pub conversation_id : String

pub record ThreadState : Type 0 where
  pub thread_id : String
  pub conversation_id : String
  pub root_event_id : Option String
  pub message_count : ℕ
  pub last_event_at : Option String

pub data ReplyState : Type 0 where
  ok pending unavailable : ReplyState

pub record MessageRow : Type 0 where
  pub event_id : String
  pub relationship_id : String
  pub conversation_id : String
  pub thread_id : Option String
  pub sender : String
  pub sender_seq : ℕ
  pub created_at : String
  pub body : String
  pub format : String
  pub reply_to : Option String
  pub reply_state : ReplyState
  pub edited : Bool
  pub current_body : String
  pub retracted : Bool
  pub retraction_event_id : Option String
  pub retracted_at : Option String
  pub retraction_reason : Option String

pub record RevisionRow : Type 0 where
  pub event_id : String
  pub revision_no : ℕ
  pub body : String
  pub edited_at : String
  pub edit_event_id : Option String
  pub reason : Option String

-- `stored_path` stays NULL here: the receive path fills it.
pub record AttachmentRow : Type 0 where
  pub event_id : String
  pub relationship_id : String
  pub filename : String
  pub size : ℕ
  pub content_type : Option String
  pub sha256 : String
  pub received_at : String

pub record ReactionRow : Type 0 where
  pub target_event_id : String
  pub sender : String
  pub emoji : String
  pub active : Bool
  pub added_event_id : String
  pub added_at : String
  pub removed_event_id : Option String
  pub removed_at : Option String

pub data ReceiptKind : Type 0 where
  accepted seen : ReceiptKind

pub record ReceiptRow : Type 0 where
  pub target_event_id : String
  pub kind : ReceiptKind
  pub sender : String
  pub at : String
  pub receipt_event_id : String

-- `choices` holds the list that the column holds as canonical JSON.
pub record PollRow : Type 0 where
  pub poll_id : String
  pub relationship_id : String
  pub conversation_id : String
  pub thread_id : Option String
  pub sender : String
  pub created_at : String
  pub question : String
  pub choices : List String
  pub closes_at : String
  pub multi_select : Bool
  pub response_count : ℕ

pub record ResponseRow : Type 0 where
  pub poll_id : String
  pub sender : String
  pub choice_ids : List String
  pub human_confirmed : Bool
  pub approval_record_id : Option String
  pub response_event_id : String
  pub responded_at : String

pub record TaskRow : Type 0 where
  pub task_id : String
  pub relationship_id : String
  pub conversation_id : String
  pub thread_id : Option String
  pub sender : String
  pub created_at : String
  pub title : String
  pub owner_identity : String
  pub due_at : Option String
  pub status : String
  pub status_event_id : Option String
  pub status_updated_at : Option String
  pub note : Option String

-- Rows are never written with the state `expired`.
pub data RequestState : Type 0 where
  open_request responded : RequestState

pub data Attestation : Type 0 where
  local peer : Attestation

pub record RequestRow : Type 0 where
  pub request_id : String
  pub relationship_id : String
  pub conversation_id : String
  pub thread_id : Option String
  pub sender : String
  pub created_at : String
  pub prompt : String
  pub response_shape : String
  pub expires_at : String
  pub state : RequestState
  pub answer : Option String
  pub approved : Option Bool
  pub responded_at : Option String
  pub response_event_id : Option String
  pub approval_record_id : Option String
  pub attestation : Attestation

pub data DeliveryState : Type 0 where
  scheduled canceled : DeliveryState

pub record DeliveryRow : Type 0 where
  pub scheduled_event_id : String
  pub relationship_id : String
  pub sender : String
  pub created_at : String
  pub inner_event_id : String
  pub deliver_at : String
  pub late_by_seconds : Option ℕ
  pub state : DeliveryState
  pub canceled_at : Option String
  pub cancel_event_id : Option String

pub record KeyEventRow : Type 0 where
  pub event_id : String
  pub relationship_id : String
  pub sender : String
  pub created_at : String
  pub key_epoch : ℕ
  pub action : KeyAction

pub data RefKind : Type 0 where
  reply_ref edit_ref retract_ref reaction_add_ref reaction_remove_ref receipt_ref : RefKind
  poll_response_ref task_update_ref human_response_ref delivery_cancel_ref : RefKind

pub data RefState : Type 0 where
  waiting expired resolved : RefState

pub record PendingRef : Type 0 where
  pub event_id : String
  pub relationship_id : String
  pub target_event_id : String
  pub kind : RefKind
  pub created_at : String
  pub state : RefState

pub record QuarantineRow : Type 0 where
  pub relationship_id : String
  pub sender : String
  pub sender_seq : ℕ
  pub event_id : String
  pub reason : Code
  pub quarantined_at : String

pub record CursorRow : Type 0 where
  pub relationship_id : String
  pub sender : String
  pub max_seq : ℕ

pub record GapRow : Type 0 where
  pub relationship_id : String
  pub sender : String
  pub missing_seq : ℕ
  pub first_observed_at : String

-- The columns of `relationships` that the projections read.
pub record RelationshipRow : Type 0 where
  pub relationship_id : String
  pub peer_identity_id : String

pub data SubjectType : Type 0 where
  human_request_subject poll_subject : SubjectType

pub record ApprovalRow : Type 0 where
  pub approval_id : String
  pub relationship_id : String
  pub subject_type : SubjectType
  pub subject_id : String
  pub answer : String
  pub approved : Bool
  pub created_at : String
  pub expires_at : String
  pub consumed_at : Option String
  pub note : Option String

-- What the projections only read: the log, its staged payloads, and two local tables.
pub record Source : Type 0 where
  pub events : List EventRow
  pub event_payloads : List PayloadRow
  pub relationships : List RelationshipRow
  pub human_approvals : List ApprovalRow

-- `clock` is what `utcnow()` returns while an operation runs.
pub record Db : Type 0 where
  pub source : Source
  pub open source use *
  pub clock : String
  pub threads : List ThreadRow
  pub thread_state : List ThreadState
  pub messages : List MessageRow
  pub message_revisions : List RevisionRow
  pub attachments : List AttachmentRow
  pub reactions : List ReactionRow
  pub receipts : List ReceiptRow
  pub polls : List PollRow
  pub poll_responses : List ResponseRow
  pub tasks : List TaskRow
  pub human_requests : List RequestRow
  pub deliveries : List DeliveryRow
  pub security_key_events : List KeyEventRow
  pub pending_refs : List PendingRef
  pub quarantine : List QuarantineRow
  pub projection_cursors : List CursorRow
  pub sequence_gaps : List GapRow
