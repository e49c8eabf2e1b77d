-- ===== src/Projections/Messages/Tombstones.antt =====
-- The rows of `messages` under `apply_event`: edits, retractions and reply states.
use muse_agent_social.Prelude.{
  String, true, some, List, ◌≡◌, inl, inr, ap, arith, Bool-cases, Option-cases, ◌==◌,
}
use muse_agent_social.Prelude.Growth.{Grows, Grows-refl, Grows-insert, Grows-update}
use muse_agent_social.Store.Events.{Event, MessageBody, Edit, Retraction}
use muse_agent_social.Store.Tables.{Db, MessageRow, ReplyState}
use muse_agent_social.Store.Txn.{Txn, ◌>>=◌}
use muse_agent_social.Store.Keeps.{Keeps, bind-Keeps, if-Keeps, reads-Keeps, view-Keeps}
use muse_agent_social.Projections.Apply.Lift.{IsKept, apply_event-Keeps}
use muse_agent_social.Projections.Footprints.{
  reaction_added_footprint, reaction_removed_footprint, receipt_footprint, poll_created_footprint,
  poll_responded_footprint, task_created_footprint, task_updated_footprint,
  human_requested_footprint, human_responded_footprint, delivery_scheduled_footprint,
  delivery_canceled_footprint, security_key_footprint, quarantine_footprint, sequence_footprint,
  marks_footprint,
}
use muse_agent_social.Projections.Apply.{apply_event, set_reply_state}
use muse_agent_social.Projections.Threads.{ensure_thread, bump_thread_message}
use muse_agent_social.Projections.Messages.{
  find_message, new_message, insert_message, reply_state_of, insert_revision, record_attachment,
  handle_message_created, handle_message_edited, handle_message_retracted,
}

-- How one message may change: what its sender signed stays, and a retracted message stays as it is
-- but for the state of its reply.
pub record MessageStep (x y : MessageRow) : Type 0 where
  pub event_id : y.event_id ≡ x.event_id
  pub relationship_id : y.relationship_id ≡ x.relationship_id
  pub conversation_id : y.conversation_id ≡ x.conversation_id
  pub thread_id : y.thread_id ≡ x.thread_id
  pub sender : y.sender ≡ x.sender
  pub sender_seq : y.sender_seq ≡ x.sender_seq
  pub created_at : y.created_at ≡ x.created_at
  pub body : y.body ≡ x.body
  pub format : y.format ≡ x.format
  pub reply_to : y.reply_to ≡ x.reply_to
  pub tombstone : x.retracted ≡ true → y ≡ record x { reply_state = y.reply_state }

pub MessageStep-refl : (x : MessageRow) → MessageStep x x
MessageStep-refl x = ground arith

MessageStep-trans : (x y z : MessageRow) → MessageStep x y → MessageStep y z → MessageStep x z
MessageStep-trans x y z a b = ground arith

abbrev Kept : List MessageRow → Db → Type 0
Kept start db = Grows MessageStep start db.messages

ensure_thread-messages : (ev : Event) (db : Db) → (ensure_thread ev db).1.messages ≡ db.messages
unfolding ensure_thread
ensure_thread-messages ev db = ground arith

module _ (start : List MessageRow) where
  set_reply_state-Kept :
      (id : String) (state : ReplyState) → Keeps (Kept start) (set_reply_state id state)
  unfolding set_reply_state
  set_reply_state-Kept id state = record {
    at = λ db h.
        Grows-update MessageStep MessageStep-trans _ _ start db.messages (λ y e. ground arith) h;
  }

  edited-Kept : (ev : Event) (p : Edit) → Keeps (Kept start) (handle_message_edited ev p)
  unfolding handle_message_edited find_message
  edited-Kept ev p = record {
    at = λ db h. elim (Option-cases (find_message p.target_event_id db)) [
      | inl e ↦ ground arith
      | inr (o, e) ↦ elim (Bool-cases o.retracted) [
        | inl gone ↦ ground arith
        | inr live ↦ ground (
          arith,
          Grows-update MessageStep MessageStep-trans (λ m. m.event_id == p.target_event_id)
              (λ m. record m { edited = true; current_body = p.body }) start db.messages
              (λ y e'. ground arith) h,
        )
      ]
    ];
  }

  retracted-Kept :
      (ev : Event) (p : Retraction) → Keeps (Kept start) (handle_message_retracted ev p)
  unfolding handle_message_retracted find_message
  retracted-Kept ev p = record {
    at = λ db h. elim (Option-cases (find_message p.target_event_id db)) [
      | inl e ↦ ground arith
      | inr (o, e) ↦ elim (Bool-cases o.retracted) [
        | inl gone ↦ ground arith
        | inr live ↦ ground (
          arith,
          Grows-update MessageStep MessageStep-trans (λ m. m.event_id == p.target_event_id)
              (λ m. record m {
                retracted = true;
                retraction_event_id = some ev.event_id;
                retracted_at = some ev.created_at;
                retraction_reason = p.reason;
              })
              start db.messages (λ y e'. ground arith) h,
        )
      ]
    ];
  }

  insert-Kept :
      (ev : Event) (p : MessageBody) (now : String) → Keeps (Kept start) (insert_message ev p now)
  unfolding insert_message ◌>>=◌ reply_state_of insert_revision record_attachment
      bump_thread_message
  insert-Kept ev p now = record {
    at = λ db h. ground (
      arith,
      Grows-insert MessageStep start db.messages (new_message ev p ReplyState.ok) h,
      Grows-insert MessageStep start db.messages (new_message ev p ReplyState.pending) h,
      Grows-insert MessageStep start db.messages (new_message ev p ReplyState.unavailable) h,
    );
  }

  created-Kept :
      (ev : Event) (p : MessageBody) (now : String)
      → Keeps (Kept start) (handle_message_created ev p now)
  unfolding handle_message_created
  created-Kept ev p now =
      bind-Keeps (view-Keeps (Grows MessageStep start) (λ db. ensure_thread-messages ev db)) λ _.
        bind-Keeps reads-Keeps λ projected.
          if-Keeps projected reads-Keeps (bind-Keeps (insert-Kept ev p now) λ _. reads-Keeps)

  same :
      {A : Type 0} {m : Txn A}
      → ((db : Db) → (m db).1.messages ≡ db.messages)
      → Keeps (Kept start) m
  same = view-Keeps (Grows MessageStep start)

messages-IsKept : (start : List MessageRow) → IsKept (Kept start)
messages-IsKept start = record {
  message_created = created-Kept start;
  message_edited = edited-Kept start;
  message_retracted = retracted-Kept start;
  reaction_added =
      λ ev p. same start (λ db. ap (λ d. d.messages) (reaction_added_footprint ev p db));
  reaction_removed =
      λ ev p. same start (λ db. ap (λ d. d.messages) (reaction_removed_footprint ev p db));
  receipt = λ ev p kind. same start (λ db. ap (λ d. d.messages) (receipt_footprint ev p kind db));
  poll_created = λ ev p. same start (λ db. ap (λ d. d.messages) (poll_created_footprint ev p db));
  poll_responded =
      λ ev p now. same start (λ db. ap (λ d. d.messages) (poll_responded_footprint ev p now db));
  task_created = λ ev p. same start (λ db. ap (λ d. d.messages) (task_created_footprint ev p db));
  task_updated = λ ev p. same start (λ db. ap (λ d. d.messages) (task_updated_footprint ev p db));
  human_requested =
      λ ev p. same start (λ db. ap (λ d. d.messages) (human_requested_footprint ev p db));
  human_responded =
      λ ev p. same start (λ db. ap (λ d. d.messages) (human_responded_footprint ev p db));
  delivery_scheduled =
      λ ev p. same start (λ db. ap (λ d. d.messages) (delivery_scheduled_footprint ev p db));
  delivery_canceled =
      λ ev p. same start (λ db. ap (λ d. d.messages) (delivery_canceled_footprint ev p db));
  security_key =
      λ ev action. same start (λ db. ap (λ d. d.messages) (security_key_footprint ev action db));
  quarantine = λ rel sender seq id reason.
      same start (λ db. ap (λ d. d.messages) (quarantine_footprint rel sender seq id reason db));
  sequence = λ rel sender seq at.
      same start (λ db. ap (λ d. d.messages) (sequence_footprint rel sender seq at db));
  marks = λ id state. same start (λ db. ap (λ d. d.messages) (marks_footprint id state db));
  replies = set_reply_state-Kept start;
}

-- Applying an event, whatever its outcome, loses no message and changes no field that its sender
-- signed: each message of the table is still there, in its place, with its identity, its original
-- body and its format, and one that is retracted keeps its tombstone and its current body for good.
pub apply_event-messages :
    (ev : Event) (db : Db) → Grows MessageStep db.messages (apply_event ev db).1.messages
apply_event-messages ev db =
    (apply_event-Keeps (messages-IsKept db.messages) ev).at db
      (Grows-refl MessageStep MessageStep-refl db.messages)
