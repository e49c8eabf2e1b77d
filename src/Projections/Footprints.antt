-- ===== src/Projections/Footprints.antt =====
-- The tables that each handler and each bookkeeping step may write: the rest of the database is as
-- it was, whether the step returns or raises.
use muse_agent_social.Prelude.{ℕ, String, ◌≡◌, arith}
use muse_agent_social.Store.Events.{
  Event, KeyAction, Edit, Retraction, Reaction, Receipt, PollBody, PollAnswer, TaskBody, TaskUpdate,
  HumanRequest, HumanAnswer, Announcement, Cancellation,
}
use muse_agent_social.Store.Tables.{Db, Code, RefState, ReplyState, ReceiptKind}
use muse_agent_social.Projections.Quarantine.{quarantine_event}
use muse_agent_social.Projections.Sequence.{update_seq_state}
use muse_agent_social.Projections.Messages.{handle_message_edited, handle_message_retracted}
pub use muse_agent_social.Projections.Messages.Created.{message_created_footprint}
use muse_agent_social.Projections.Reactions.{
  handle_reaction_added, handle_reaction_removed, handle_receipt,
}
use muse_agent_social.Projections.Polls.{handle_poll_created, handle_poll_responded}
use muse_agent_social.Projections.Tasks.{handle_task_created, handle_task_updated}
use muse_agent_social.Projections.Requests.{handle_human_requested, handle_human_responded}
use muse_agent_social.Projections.Deliveries.{
  handle_delivery_scheduled, handle_delivery_canceled, handle_security_key,
}
use muse_agent_social.Projections.Apply.{mark_ref, set_reply_state}

pub message_edited_footprint :
    (ev : Event) (p : Edit) (db : Db)
    → let db' = (handle_message_edited ev p db).1 in
      db' ≡ record db {
        pending_refs = db'.pending_refs;
        messages = db'.messages;
        message_revisions = db'.message_revisions;
      }
unfolding handle_message_edited
message_edited_footprint ev p db = ground arith

pub message_retracted_footprint :
    (ev : Event) (p : Retraction) (db : Db)
    → let db' = (handle_message_retracted ev p db).1 in
      db' ≡ record db { pending_refs = db'.pending_refs; messages = db'.messages }
unfolding handle_message_retracted
message_retracted_footprint ev p db = ground arith

pub reaction_added_footprint :
    (ev : Event) (p : Reaction) (db : Db)
    → let db' = (handle_reaction_added ev p db).1 in
      db' ≡ record db { pending_refs = db'.pending_refs; reactions = db'.reactions }
unfolding handle_reaction_added
reaction_added_footprint ev p db = ground arith

pub reaction_removed_footprint :
    (ev : Event) (p : Reaction) (db : Db)
    → let db' = (handle_reaction_removed ev p db).1 in
      db' ≡ record db { pending_refs = db'.pending_refs; reactions = db'.reactions }
unfolding handle_reaction_removed
reaction_removed_footprint ev p db = ground arith

pub receipt_footprint :
    (ev : Event) (p : Receipt) (kind : ReceiptKind) (db : Db)
    → let db' = (handle_receipt ev p kind db).1 in
      db' ≡ record db { pending_refs = db'.pending_refs; receipts = db'.receipts }
unfolding handle_receipt
receipt_footprint ev p kind db = ground arith

pub poll_created_footprint :
    (ev : Event) (p : PollBody) (db : Db)
    → let db' = (handle_poll_created ev p db).1 in
      db' ≡ record db { threads = db'.threads; thread_state = db'.thread_state; polls = db'.polls }
unfolding handle_poll_created
poll_created_footprint ev p db = ground arith

pub poll_responded_footprint :
    (ev : Event) (p : PollAnswer) (now : String) (db : Db)
    → let db' = (handle_poll_responded ev p now db).1 in
      db' ≡ record db {
        pending_refs = db'.pending_refs;
        polls = db'.polls;
        poll_responses = db'.poll_responses;
      }
unfolding handle_poll_responded
poll_responded_footprint ev p now db = ground arith

pub task_created_footprint :
    (ev : Event) (p : TaskBody) (db : Db)
    → let db' = (handle_task_created ev p db).1 in
      db' ≡ record db { threads = db'.threads; thread_state = db'.thread_state; tasks = db'.tasks }
unfolding handle_task_created
task_created_footprint ev p db = ground arith

pub task_updated_footprint :
    (ev : Event) (p : TaskUpdate) (db : Db)
    → let db' = (handle_task_updated ev p db).1 in
      db' ≡ record db { pending_refs = db'.pending_refs; tasks = db'.tasks }
unfolding handle_task_updated
task_updated_footprint ev p db = ground arith

pub human_requested_footprint :
    (ev : Event) (p : HumanRequest) (db : Db)
    → let db' = (handle_human_requested ev p db).1 in
      db' ≡ record db {
        threads = db'.threads;
        thread_state = db'.thread_state;
        human_requests = db'.human_requests;
      }
unfolding handle_human_requested
human_requested_footprint ev p db = ground arith

pub human_responded_footprint :
    (ev : Event) (p : HumanAnswer) (db : Db)
    → let db' = (handle_human_responded ev p db).1 in
      db' ≡ record db { pending_refs = db'.pending_refs; human_requests = db'.human_requests }
unfolding handle_human_responded
human_responded_footprint ev p db = ground arith

pub delivery_scheduled_footprint :
    (ev : Event) (p : Announcement) (db : Db)
    → let db' = (handle_delivery_scheduled ev p db).1 in
      db' ≡ record db { deliveries = db'.deliveries }
unfolding handle_delivery_scheduled
delivery_scheduled_footprint ev p db = ground arith

pub delivery_canceled_footprint :
    (ev : Event) (p : Cancellation) (db : Db)
    → let db' = (handle_delivery_canceled ev p db).1 in
      db' ≡ record db { pending_refs = db'.pending_refs; deliveries = db'.deliveries }
unfolding handle_delivery_canceled
delivery_canceled_footprint ev p db = ground arith

pub security_key_footprint :
    (ev : Event) (action : KeyAction) (db : Db)
    → let db' = (handle_security_key ev action db).1 in
      db' ≡ record db { security_key_events = db'.security_key_events }
unfolding handle_security_key
security_key_footprint ev action db = ground arith

pub quarantine_footprint :
    (rel sender : String) (seq : ℕ) (id : String) (reason : Code) (db : Db)
    → let db' = (quarantine_event rel sender seq id reason db).1 in
      db' ≡ record db { quarantine = db'.quarantine }
unfolding quarantine_event
quarantine_footprint rel sender seq id reason db = ground arith

pub sequence_footprint :
    (rel sender : String) (seq : ℕ) (at : String) (db : Db)
    → let db' = (update_seq_state rel sender seq at db).1 in
      db'
      ≡ record db { projection_cursors = db'.projection_cursors; sequence_gaps = db'.sequence_gaps }
unfolding update_seq_state
sequence_footprint rel sender seq at db = ground arith

pub marks_footprint :
    (id : String) (state : RefState) (db : Db)
    → let db' = (mark_ref id state db).1 in db' ≡ record db { pending_refs = db'.pending_refs }
unfolding mark_ref
marks_footprint id state db = ground arith

pub replies_footprint :
    (id : String) (state : ReplyState) (db : Db)
    → let db' = (set_reply_state id state db).1 in db' ≡ record db { messages = db'.messages }
unfolding set_reply_state
replies_footprint id state db = ground arith
