-- ===== src/Projections/Messages.antt =====
-- `_handle_message_created`, `_handle_message_edited`, `_handle_message_retracted`.
pub mod Created
pub mod Tombstones
use muse_agent_social.Prelude.{
  ℕ, ◌+◌, max, String, true, false, not, ◌&&◌, Option, none, some, List, [], ◌∷◌, ◌++◌, ◌==◌,
  nat_eq, same_text, present, if◌then◌else◌,
}
use muse_agent_social.Prelude.Table.{find, exists, insert, insert_or_ignore, update}
use muse_agent_social.Store.Events.{
  Event, EventRow, MessageBody, Attachment, Edit, Retraction, message_created,
}
use muse_agent_social.Store.Tables.{
  Db, MessageRow, RevisionRow, ReplyState, ok, pending, unavailable, edit_target_not_message,
  edit_not_sender, edit_after_retract, retract_target_not_message, retract_not_sender, reply_ref,
  edit_ref, retract_ref,
}
use muse_agent_social.Store.Txn.{
  Txn, ◌>>=◌, ◌>>◌, pure, throw, reject, gets, modify, value_error, type_error, integrity_error,
}
use muse_agent_social.Projections.Mutations.{
  Mutation, mutation, unchanged, inserted, updated, messages, message_revisions, attachments, text,
  flag, number,
}
use muse_agent_social.Projections.Targets.{
  target_event, target_status, check_reply_scope, pending_state, add_pending,
}
use muse_agent_social.Projections.Threads.{ensure_thread, bump_thread_message}

abbrev pub state_name : ReplyState → String
state_name ok = "ok"
state_name pending = "pending"
state_name unavailable = "unavailable"

unfoldable pub find_message : String → Db → Option MessageRow
find_message event_id db = find (λ m. m.event_id == event_id) db.messages

-- The reply state of a new message, with the pending reference that a missing target leaves.
unfoldable pub resolve_reply :
    Event → String → String → Option EventRow → Txn (ReplyState × List Mutation)
unfolding pending_state add_pending check_reply_scope
resolve_reply ev reply_to now none = elim (pending_state ev.created_at now) [
  | none ↦ throw value_error
  | some state ↦ do m ← add_pending ev reply_to reply_ref; pure (state, m ∷ [])
]
resolve_reply ev reply_to now (some target) = do check_reply_scope ev target; pure (ok, [])

unfoldable pub reply_state_of : Event → String → Option String → Txn (ReplyState × List Mutation)
unfolding resolve_reply target_event
reply_state_of ev now none = pure (ok, [])
reply_state_of ev now (some reply_to) = do
  target ← gets (target_event ev.relationship_id reply_to)
  resolve_reply ev reply_to now target

-- The primary key is (event_id, revision_no).
unfoldable pub insert_revision : RevisionRow → Txn (Unit {0})
insert_revision row = do
  clash ← gets (λ db.
      exists (λ r. r.event_id == row.event_id && nat_eq r.revision_no row.revision_no)
        db.message_revisions)
  if clash
      then throw integrity_error
      else modify (λ db. record db { message_revisions = insert row db.message_revisions })

unfoldable pub record_attachment : Event → Option Attachment → String → Txn (List Mutation)
record_attachment ev none now = pure []
record_attachment ev (some a) now = do
  modify (λ db. record db {
    attachments =
        insert_or_ignore (λ r. r.event_id == ev.event_id)
          (record {
            event_id = ev.event_id;
            relationship_id = ev.relationship_id;
            filename = a.filename;
            size = a.size;
            content_type = a.content_type;
            sha256 = a.sha256;
            received_at = now;
          })
          db.attachments;
  })
  pure (
      mutation inserted attachments (text ev.event_id ∷ []) (("filename", text a.filename) ∷ [])
      ∷ [])

abbrev pub new_message : Event → MessageBody → ReplyState → MessageRow
new_message ev p reply_state = record {
  event_id = ev.event_id;
  relationship_id = ev.relationship_id;
  conversation_id = ev.conversation_id;
  thread_id = ev.thread_id;
  sender = ev.sender;
  sender_seq = ev.sender_seq;
  created_at = ev.created_at;
  body = p.body;
  format = p.format;
  reply_to = ev.reply_to;
  reply_state = reply_state;
  edited = false;
  current_body = p.body;
  retracted = false;
  retraction_event_id = none;
  retracted_at = none;
  retraction_reason = none;
}

unfoldable pub insert_message : Event → MessageBody → String → Txn (List Mutation)
insert_message ev p now = do
  (reply_state, waiting) ← reply_state_of ev now (present ev.reply_to)
  modify (λ db. record db { messages = insert (new_message ev p reply_state) db.messages })
  insert_revision (record {
    event_id = ev.event_id;
    revision_no = 0;
    body = p.body;
    edited_at = ev.created_at;
    edit_event_id = none;
    reason = none;
  })
  attached ← record_attachment ev p.attachment now
  bump_thread_message ev.thread_id ev.created_at
  pure (
      waiting
      ++ (attached
          ++ mutation inserted messages (text ev.event_id ∷ [])
              (("reply_state", text (state_name reply_state)) ∷ [])
            ∷ []))

unfoldable pub handle_message_created : Event → MessageBody → String → Txn (List Mutation)
unfolding insert_message
handle_message_created ev p now = do
  started ← ensure_thread ev
  projected ← gets (λ db. exists (λ m. m.event_id == ev.event_id) db.messages)
  if projected
      then pure (started ++ unchanged messages ev.event_id "already_projected")
      else do rest ← insert_message ev p now; pure (started ++ rest)

-- MAX(revision_no), NULL where the message has no revision.
unfoldable pub max_revision : String → List RevisionRow → Option ℕ
max_revision event_id [] = none
max_revision event_id (r ∷ rs) =
    let later = max_revision event_id rs in
    if r.event_id == event_id
    then some (elim later [ none ↦ r.revision_no | some n ↦ max r.revision_no n ])
    else later

append_revision : Event → Edit → Option ℕ → Txn (List Mutation)
unfolding insert_revision
append_revision ev p none = throw type_error
append_revision ev p (some newest) = do
  insert_revision (record {
    event_id = p.target_event_id;
    revision_no = newest + 1;
    body = p.body;
    edited_at = ev.created_at;
    edit_event_id = some ev.event_id;
    reason = p.reason;
  })
  modify (λ db. record db {
    messages =
        update (λ m. m.event_id == p.target_event_id)
          (λ m. record m { edited = true; current_body = p.body }) db.messages;
  })
  pure (
      mutation inserted message_revisions (text p.target_event_id ∷ number (newest + 1) ∷ [])
        (("edit_event_id", text ev.event_id) ∷ [])
      ∷ [])

edit_original : Event → Edit → Option MessageRow → Txn (List Mutation)
unfolding target_status add_pending append_revision max_revision
edit_original ev p none = do
  target_status ev p.target_event_id message_created edit_target_not_message
  m ← add_pending ev p.target_event_id edit_ref
  pure (m ∷ [])
edit_original ev p (some original) =
    if not (original.sender == ev.sender)
    then reject edit_not_sender
    else if original.retracted
    then reject edit_after_retract
    else do
      newest ← gets (λ db. max_revision p.target_event_id db.message_revisions)
      append_revision ev p newest

unfoldable pub handle_message_edited : Event → Edit → Txn (List Mutation)
unfolding edit_original find_message ◌>>=◌
handle_message_edited ev p = do
  projected ← gets (λ db.
      exists (λ r. r.event_id == p.target_event_id && same_text r.edit_event_id (some ev.event_id))
        db.message_revisions)
  if projected
      then pure (unchanged message_revisions p.target_event_id "already_projected")
      else do original ← gets (find_message p.target_event_id); edit_original ev p original

retract_original : Event → Retraction → Option MessageRow → Txn (List Mutation)
unfolding target_status add_pending
retract_original ev p none = do
  target_status ev p.target_event_id message_created retract_target_not_message
  m ← add_pending ev p.target_event_id retract_ref
  pure (m ∷ [])
retract_original ev p (some original) =
    if not (original.sender == ev.sender)
    then reject retract_not_sender
    else if original.retracted
    then pure (unchanged messages p.target_event_id "already_retracted")
    else do
      modify (λ db. record db {
        messages =
            update (λ m. m.event_id == p.target_event_id)
              (λ m. record m {
                retracted = true;
                retraction_event_id = some ev.event_id;
                retracted_at = some ev.created_at;
                retraction_reason = p.reason;
              })
              db.messages;
      })
      pure (
          mutation updated messages (text p.target_event_id ∷ [])
            (("retracted", flag true) ∷ ("tombstone_event_id", text ev.event_id) ∷ [])
          ∷ [])

unfoldable pub handle_message_retracted : Event → Retraction → Txn (List Mutation)
unfolding retract_original find_message ◌>>=◌
handle_message_retracted ev p = do
  original ← gets (find_message p.target_event_id)
  retract_original ev p original
