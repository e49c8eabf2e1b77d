-- ===== src/Store/Events.antt =====
-- The rows of the event log, and the validated payloads (store/migrations.py, the payload schemas).
-- A payload has passed `validate_payload` for its event type, so it is one constructor per schema.
use muse_agent_social.Prelude.{ℕ, String, Bool, Option, List}

pub data KeyAction : Type 0 where
  prepare ack confirm commit : KeyAction

-- `other` stands for every type that no rule names.
pub data EventType : Type 0 where
  message_created message_edited message_retracted : EventType
  reaction_added reaction_removed : EventType
  receipt_accepted receipt_seen : EventType
  poll_created poll_responded : EventType
  task_created task_updated : EventType
  human_requested human_responded : EventType
  delivery_scheduled delivery_canceled : EventType
  security_key : KeyAction → EventType
  relationship_ready migration_ready migration_commit identity_rotated : EventType
  other : String → EventType

abbrev pub type_name : EventType → String
type_name message_created = "message.created"
type_name message_edited = "message.edited"
type_name message_retracted = "message.retracted"
type_name reaction_added = "reaction.added"
type_name reaction_removed = "reaction.removed"
type_name receipt_accepted = "receipt.accepted"
type_name receipt_seen = "receipt.seen"
type_name poll_created = "poll.created"
type_name poll_responded = "poll.responded"
type_name task_created = "task.created"
type_name task_updated = "task.updated"
type_name human_requested = "human.requested"
type_name human_responded = "human.responded"
type_name delivery_scheduled = "delivery.scheduled"
type_name delivery_canceled = "delivery.canceled"
type_name (security_key prepare) = "security.key.prepare"
type_name (security_key ack) = "security.key.ack"
type_name (security_key confirm) = "security.key.confirm"
type_name (security_key commit) = "security.key.commit"
type_name relationship_ready = "relationship.ready"
type_name migration_ready = "migration.ready"
type_name migration_commit = "migration.commit"
type_name identity_rotated = "identity.rotated"
type_name (other name) = name

pub record Attachment : Type 0 where
  pub filename : String
  pub size : ℕ
  pub content_type : Option String
  pub sha256 : String

pub record MessageBody : Type 0 where
  pub body : String
  pub format : String
  pub attachment : Option Attachment

pub record Edit : Type 0 where
  pub target_event_id : String
  pub body : String
  pub reason : Option String

pub record Retraction : Type 0 where
  pub target_event_id : String
  pub reason : Option String

pub record Reaction : Type 0 where
  pub target_event_id : String
  pub emoji : String

-- `at` is `accepted_at` or `seen_at`.
pub record Receipt : Type 0 where
  pub target_event_id : String
  pub at : String

pub record PollBody : Type 0 where
  pub question : String
  pub choices : List String
  pub closes_at : String
  pub multi_select : Bool

-- `human_confirmed` is false where the payload leaves it out.
pub record PollAnswer : Type 0 where
  pub poll_id : String
  pub choice_ids : List String
  pub human_confirmed : Bool
  pub approval_record_id : Option String

pub record TaskBody : Type 0 where
  pub title : String
  pub owner_identity : String
  pub due_at : Option String

pub record TaskUpdate : Type 0 where
  pub task_id : String
  pub status : String
  pub note : Option String

pub record HumanRequest : Type 0 where
  pub prompt : String
  pub response_shape : String
  pub expires_at : String

pub record HumanAnswer : Type 0 where
  pub request_id : String
  pub answer : String
  pub approved : Bool
  pub approval_record_id : String

pub record Announcement : Type 0 where
  pub inner_event_id : String
  pub deliver_at : String
  pub late_by_seconds : Option ℕ

pub record Cancellation : Type 0 where
  pub scheduled_event_id : String

-- `opaque` is a payload whose fields no projection reads.
pub data Payload : Type 0 where
  message : MessageBody → Payload
  edit : Edit → Payload
  retraction : Retraction → Payload
  reaction : Reaction → Payload
  receipt : Receipt → Payload
  poll : PollBody → Payload
  poll_answer : PollAnswer → Payload
  task : TaskBody → Payload
  task_update : TaskUpdate → Payload
  human_request : HumanRequest → Payload
  human_answer : HumanAnswer → Payload
  announcement : Announcement → Payload
  cancellation : Cancellation → Payload
  opaque : Payload

-- A row of `events`; the sealed bytes and the replay nonce are left out.
pub record EventRow : Type 0 where
  pub event_id : String
  pub relationship_id : String
  pub conversation_id : String
  pub thread_id : Option String
  pub sender : String
  pub sender_seq : ℕ
  pub created_at : String
  pub key_epoch : ℕ
  pub event_type : EventType

-- A row of `event_payloads`.
pub record PayloadRow : Type 0 where
  pub event_id : String
  pub event_type : EventType
  pub payload : Payload
  pub reply_to : Option String
  pub received_at : Option String

-- The mapping that `_row_to_event` hands to the handlers: an `events` row joined to its payload.
pub record Event : Type 0 where
  pub row : EventRow
  pub open row use *
  pub payload : Payload
  pub reply_to : Option String
  pub received_at : Option String
