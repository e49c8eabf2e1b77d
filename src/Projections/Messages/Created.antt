-- ===== src/Projections/Messages/Created.antt =====
-- What `_handle_message_created` may write, stage by stage.
use muse_agent_social.Prelude.{String, Option, ◌≡◌, refl, arith}
use muse_agent_social.Store.Events.{Event, MessageBody, Attachment}
use muse_agent_social.Store.Tables.{Db, RevisionRow}
use muse_agent_social.Store.Txn.{◌>>=◌}
use muse_agent_social.Store.Keeps.{Keeps, bind-Keeps, if-Keeps, reads-Keeps}
use muse_agent_social.Projections.Threads.{ensure_thread, bump_thread_message}
use muse_agent_social.Projections.Messages.{
  reply_state_of, insert_revision, record_attachment, insert_message, handle_message_created,
}

-- `db` is `start` but for the tables that the handler writes.
record Touched (start db : Db) : Type 0 where
  only : db ≡ record start {
    threads = db.threads;
    thread_state = db.thread_state;
    pending_refs = db.pending_refs;
    messages = db.messages;
    message_revisions = db.message_revisions;
    attachments = db.attachments;
  }

module _ (start : Db) where
  ensure-Touched : (ev : Event) → Keeps (Touched start) (ensure_thread ev)
  unfolding ensure_thread
  ensure-Touched ev = record { at = λ db h. record { only = ground arith } }

  bump-Touched :
      (id : Option String) (at : String) → Keeps (Touched start) (bump_thread_message id at)
  unfolding bump_thread_message
  bump-Touched id at = record { at = λ db h. record { only = ground arith } }

  reply-Touched :
      (ev : Event) (now : String) (to : Option String)
      → Keeps (Touched start) (reply_state_of ev now to)
  unfolding reply_state_of ◌>>=◌
  reply-Touched ev now to = record { at = λ db h. record { only = ground arith } }

  revision-Touched : (row : RevisionRow) → Keeps (Touched start) (insert_revision row)
  unfolding insert_revision ◌>>=◌
  revision-Touched row = record { at = λ db h. record { only = ground arith } }

  attachment-Touched :
      (ev : Event) (a : Option Attachment) (now : String)
      → Keeps (Touched start) (record_attachment ev a now)
  unfolding record_attachment ◌>>=◌
  attachment-Touched ev a now = record { at = λ db h. record { only = ground arith } }

  insert_message-Touched :
      (ev : Event) (p : MessageBody) (now : String)
      → Keeps (Touched start) (insert_message ev p now)
  unfolding insert_message
  insert_message-Touched ev p now = bind-Keeps (reply-Touched ev now _) λ r.
      bind-Keeps (record { at = λ db h. record { only = ground arith } })
        λ _. bind-Keeps (revision-Touched _) λ _.
          bind-Keeps (attachment-Touched ev p.attachment now)
            λ _. bind-Keeps (bump-Touched ev.thread_id ev.created_at) λ _. reads-Keeps

  created-Touched :
      (ev : Event) (p : MessageBody) (now : String)
      → Keeps (Touched start) (handle_message_created ev p now)
  unfolding handle_message_created
  created-Touched ev p now = bind-Keeps (ensure-Touched ev) λ _. bind-Keeps reads-Keeps λ projected.
      if-Keeps projected reads-Keeps (bind-Keeps (insert_message-Touched ev p now) λ _. reads-Keeps)

-- The tables that a created message may write.
pub message_created_footprint :
    (ev : Event) (p : MessageBody) (now : String) (db : Db)
    → let db' = (handle_message_created ev p now db).1 in
      db' ≡ record db {
        threads = db'.threads;
        thread_state = db'.thread_state;
        pending_refs = db'.pending_refs;
        messages = db'.messages;
        message_revisions = db'.message_revisions;
        attachments = db'.attachments;
      }
message_created_footprint ev p now db =
    ((created-Touched db ev p now).at db (record { only = refl })).only
