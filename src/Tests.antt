-- ===== src/Tests.antt =====
-- A small conversation of two senders, in which the theorems and the tests are run.
pub mod Clock
pub mod Applied
pub mod Logged
pub mod Local
pub mod Queue
pub mod Ceremony
pub mod Phrase
use muse_agent_social.Prelude.{ℕ, String, true, false, Option, none, some, List, [], ◌∷◌}
use muse_agent_social.Store.Events
use muse_agent_social.Store.Events.{Event, EventRow, PayloadRow, EventType, Payload}
use muse_agent_social.Store.Tables.{
  Db, Source, MessageRow, ok, RevisionRow, ReactionRow, PollRow, ResponseRow, TaskRow, DeliveryRow,
  scheduled, RequestRow, open_request, peer, local, ApprovalRow, human_request_subject, CursorRow,
  GapRow,
}

abbrev row : String → String → ℕ → EventType → EventRow
row event_id sender seq type = record {
  event_id = event_id;
  relationship_id = "rel";
  conversation_id = "conv";
  thread_id = none;
  sender = sender;
  sender_seq = seq;
  created_at = "2026-01-01T00:00:00Z";
  key_epoch = 1;
  event_type = type;
}

abbrev pub event : String → String → ℕ → EventType → Payload → Event
event event_id sender seq type payload = record {
  row = row event_id sender seq type;
  payload = payload;
  reply_to = none;
  received_at = some "2026-01-01T00:00:05Z";
}

abbrev staged_row : Event → PayloadRow
staged_row ev = record {
  event_id = ev.event_id;
  event_type = ev.event_type;
  payload = ev.payload;
  reply_to = ev.reply_to;
  received_at = ev.received_at;
}

abbrev pub hello : MessageRow
hello = record {
  event_id = "m1";
  relationship_id = "rel";
  conversation_id = "conv";
  thread_id = none;
  sender = "alice";
  sender_seq = 1;
  created_at = "2026-01-01T00:00:00Z";
  body = "hello";
  format = "plain";
  reply_to = none;
  reply_state = ok;
  edited = false;
  current_body = "hello";
  retracted = false;
  retraction_event_id = none;
  retracted_at = none;
  retraction_reason = none;
}

abbrev first_revision : RevisionRow
first_revision = record {
  event_id = "m1";
  revision_no = 0;
  body = "hello";
  edited_at = "2026-01-01T00:00:00Z";
  edit_event_id = none;
  reason = none;
}

abbrev reaction : String → ReactionRow
reaction emoji = record {
  target_event_id = "m1";
  sender = "bob";
  emoji = emoji;
  active = true;
  added_event_id = "x";
  added_at = "2026-01-01T00:00:01Z";
  removed_event_id = none;
  removed_at = none;
}

abbrev lunch : PollRow
lunch = record {
  poll_id = "p1";
  relationship_id = "rel";
  conversation_id = "conv";
  thread_id = none;
  sender = "alice";
  created_at = "2026-01-01T00:00:00Z";
  question = "lunch?";
  choices = "noon" ∷ "one" ∷ [];
  closes_at = "2026-01-02T00:00:00Z";
  multi_select = false;
  response_count = 1;
}

abbrev at_noon : ResponseRow
at_noon = record {
  poll_id = "p1";
  sender = "alice";
  choice_ids = "noon" ∷ [];
  human_confirmed = false;
  approval_record_id = none;
  response_event_id = "r1";
  responded_at = "2026-01-01T00:00:02Z";
}

abbrev task : String → String → TaskRow
task task_id status = record {
  task_id = task_id;
  relationship_id = "rel";
  conversation_id = "conv";
  thread_id = none;
  sender = "alice";
  created_at = "2026-01-01T00:00:00Z";
  title = "book a table";
  owner_identity = "bob";
  due_at = none;
  status = status;
  status_event_id = none;
  status_updated_at = none;
  note = none;
}

abbrev announced : DeliveryRow
announced = record {
  scheduled_event_id = "s1";
  relationship_id = "rel";
  sender = "alice";
  created_at = "2026-01-01T00:00:00Z";
  inner_event_id = "inner";
  deliver_at = "2026-01-03T00:00:00Z";
  late_by_seconds = none;
  state = scheduled;
  canceled_at = none;
  cancel_event_id = none;
}

abbrev pub asked : RequestRow
asked = record {
  request_id = "h1";
  relationship_id = "rel";
  conversation_id = "conv";
  thread_id = none;
  sender = "bob";
  created_at = "2026-01-01T00:00:00Z";
  prompt = "may I?";
  response_shape = "text";
  expires_at = "2026-01-02T00:00:00Z";
  state = open_request;
  answer = none;
  approved = none;
  responded_at = none;
  response_event_id = none;
  approval_record_id = none;
  attestation = peer;
}

abbrev pub approval : ApprovalRow
approval = record {
  approval_id = "a1";
  relationship_id = "rel";
  subject_type = human_request_subject;
  subject_id = "h1";
  answer = "yes";
  approved = true;
  created_at = "2026-01-01T00:00:00Z";
  expires_at = "2026-01-02T00:00:00Z";
  consumed_at = none;
  note = none;
}

abbrev pub greeting : Event
greeting =
    event "m1" "alice" 1 EventType.message_created
      (Payload.message (record { body = "hello"; format = "plain"; attachment = none }))

-- Alice has written five events; number 3 of hers is missing.
abbrev pub db : Db
db = record {
  source = record {
    events = greeting.row ∷ [];
    event_payloads = staged_row greeting ∷ [];
    relationships = record { relationship_id = "rel"; peer_identity_id = "bob" } ∷ [];
    human_approvals = approval ∷ [];
  };
  clock = "2026-01-01T00:01:00Z";
  threads = [];
  thread_state = [];
  messages = hello ∷ [];
  message_revisions = first_revision ∷ [];
  attachments = [];
  reactions = reaction "+1" ∷ reaction "heart" ∷ [];
  receipts = [];
  polls = lunch ∷ [];
  poll_responses = at_noon ∷ [];
  tasks = task "t1" "open" ∷ task "t2" "done" ∷ [];
  human_requests = asked ∷ [];
  deliveries = announced ∷ [];
  security_key_events = [];
  pending_refs = [];
  quarantine = [];
  projection_cursors = record { relationship_id = "rel"; sender = "alice"; max_seq = 5 } ∷ [];
  sequence_gaps =
      record {
        relationship_id = "rel";
        sender = "alice";
        missing_seq = 3;
        first_observed_at = "2026-01-01T00:00:03Z";
      }
      ∷ [];
}
