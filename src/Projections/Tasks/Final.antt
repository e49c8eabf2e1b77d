-- ===== src/Projections/Tasks/Final.antt =====
-- The rows of `tasks` under `apply_event`.
use muse_agent_social.Prelude.{
  true, false, some, List, ◌≡◌, sym, ◌∙◌, inl, inr, ap, arith, ◌==◌, Bool-cases, Option-cases,
}
use muse_agent_social.Prelude.Growth.{Grows, Grows-refl, Grows-insert, Grows-update}
use muse_agent_social.Store.Events.{Event, TaskBody, TaskUpdate}
use muse_agent_social.Store.Tables.{Db, TaskRow}
use muse_agent_social.Store.Txn.{Txn}
use muse_agent_social.Store.Keeps.{Keeps, view-Keeps}
use muse_agent_social.Projections.Threads.{ensure_thread}
use muse_agent_social.Projections.Apply.{apply_event}
use muse_agent_social.Projections.Apply.Lift.{IsKept, apply_event-Keeps}
use muse_agent_social.Projections.Footprints.{
  message_created_footprint, message_edited_footprint, message_retracted_footprint,
  reaction_added_footprint, reaction_removed_footprint, receipt_footprint, poll_created_footprint,
  poll_responded_footprint, human_requested_footprint, human_responded_footprint,
  delivery_scheduled_footprint, delivery_canceled_footprint, security_key_footprint,
  quarantine_footprint, sequence_footprint, marks_footprint, replies_footprint,
}
use muse_agent_social.Projections.Tasks.{
  find_task, set_status, is_terminal, is_status, new_task, handle_task_created, handle_task_updated,
}

-- How one task may change: its author, title, owner and due date stay, its status stays one of the
-- five, and a task that is done or canceled does not change at all.
pub record TaskStep (x y : TaskRow) : Type 0 where
  pub task_id : y.task_id ≡ x.task_id
  pub relationship_id : y.relationship_id ≡ x.relationship_id
  pub conversation_id : y.conversation_id ≡ x.conversation_id
  pub thread_id : y.thread_id ≡ x.thread_id
  pub sender : y.sender ≡ x.sender
  pub created_at : y.created_at ≡ x.created_at
  pub title : y.title ≡ x.title
  pub owner_identity : y.owner_identity ≡ x.owner_identity
  pub due_at : y.due_at ≡ x.due_at
  pub known_status : is_status x.status ≡ true → is_status y.status ≡ true
  pub terminal : is_terminal x.status ≡ true → y ≡ x

TaskStep-refl : (x : TaskRow) → TaskStep x x
TaskStep-refl x = ground arith

TaskStep-trans : (x y z : TaskRow) → TaskStep x y → TaskStep y z → TaskStep x z
TaskStep-trans x y z a b = ground arith

abbrev Kept : List TaskRow → Db → Type 0
Kept start db = Grows TaskStep start db.tasks

ensure_thread-tasks : (ev : Event) (db : Db) → (ensure_thread ev db).1.tasks ≡ db.tasks
unfolding ensure_thread
ensure_thread-tasks ev db = ground arith

module _ (start : List TaskRow) where
  created-Kept : (ev : Event) (p : TaskBody) → Keeps (Kept start) (handle_task_created ev p)
  unfolding handle_task_created
  created-Kept ev p = record {
    at = λ db h. ground (arith, Grows-insert TaskStep start db.tasks (new_task ev p) h);
  }

  status-step :
      (ev : Event) (p : TaskUpdate) (o y : TaskRow)
      → is_terminal o.status ≡ false
      → is_status p.status ≡ true
      → some y ≡ some o
      → TaskStep y (record y {
        status = p.status;
        status_event_id = some ev.event_id;
        status_updated_at = some ev.created_at;
        note = p.note;
      })
  status-step ev p o y live good same = ground arith

  updated-Kept : (ev : Event) (p : TaskUpdate) → Keeps (Kept start) (handle_task_updated ev p)
  unfolding handle_task_updated find_task set_status
  updated-Kept ev p = record {
    at = λ db h. elim (Option-cases (find_task p.task_id db.tasks)) [
      | inl e ↦ ground arith
      | inr (o, e) ↦ elim (Bool-cases (is_terminal o.status)) [
        | inl gone ↦ ground arith
        | inr live ↦ elim (Bool-cases (is_status p.status)) [
          | inl good ↦ ground (
            arith,
            Grows-update TaskStep TaskStep-trans (λ t. t.task_id == p.task_id)
                (λ t. record t {
                  status = p.status;
                  status_event_id = some ev.event_id;
                  status_updated_at = some ev.created_at;
                  note = p.note;
                })
                start db.tasks (λ y e'. status-step ev p o y live good (sym e' ∙ e)) h,
          )
          | inr bad ↦ ground arith
        ]
      ]
    ];
  }

  same : {A : Type 0} {m : Txn A} → ((db : Db) → (m db).1.tasks ≡ db.tasks) → Keeps (Kept start) m
  same = view-Keeps (Grows TaskStep start)

tasks-IsKept : (start : List TaskRow) → IsKept (Kept start)
tasks-IsKept start = record {
  message_created =
      λ ev p now. same start (λ db. ap (λ d. d.tasks) (message_created_footprint ev p now db));
  message_edited = λ ev p. same start (λ db. ap (λ d. d.tasks) (message_edited_footprint ev p db));
  message_retracted =
      λ ev p. same start (λ db. ap (λ d. d.tasks) (message_retracted_footprint ev p db));
  reaction_added = λ ev p. same start (λ db. ap (λ d. d.tasks) (reaction_added_footprint ev p db));
  reaction_removed =
      λ ev p. same start (λ db. ap (λ d. d.tasks) (reaction_removed_footprint ev p db));
  receipt = λ ev p kind. same start (λ db. ap (λ d. d.tasks) (receipt_footprint ev p kind db));
  poll_created = λ ev p. same start (λ db. ap (λ d. d.tasks) (poll_created_footprint ev p db));
  poll_responded =
      λ ev p now. same start (λ db. ap (λ d. d.tasks) (poll_responded_footprint ev p now db));
  task_created = created-Kept start;
  task_updated = updated-Kept start;
  human_requested =
      λ ev p. same start (λ db. ap (λ d. d.tasks) (human_requested_footprint ev p db));
  human_responded =
      λ ev p. same start (λ db. ap (λ d. d.tasks) (human_responded_footprint ev p db));
  delivery_scheduled =
      λ ev p. same start (λ db. ap (λ d. d.tasks) (delivery_scheduled_footprint ev p db));
  delivery_canceled =
      λ ev p. same start (λ db. ap (λ d. d.tasks) (delivery_canceled_footprint ev p db));
  security_key =
      λ ev action. same start (λ db. ap (λ d. d.tasks) (security_key_footprint ev action db));
  quarantine = λ rel sender seq id reason.
      same start (λ db. ap (λ d. d.tasks) (quarantine_footprint rel sender seq id reason db));
  sequence = λ rel sender seq at.
      same start (λ db. ap (λ d. d.tasks) (sequence_footprint rel sender seq at db));
  marks = λ id state. same start (λ db. ap (λ d. d.tasks) (marks_footprint id state db));
  replies = λ id state. same start (λ db. ap (λ d. d.tasks) (replies_footprint id state db));
}

-- Applying an event, whatever its outcome, loses no task: each task is still there, in its place,
-- with its identity, title, owner and due date. A status among the five of the protocol is followed
-- by one of the five, and a task that is done or canceled does not change any more.
pub apply_event-tasks : (ev : Event) (db : Db) → Grows TaskStep db.tasks (apply_event ev db).1.tasks
apply_event-tasks ev db =
    (apply_event-Keeps (tasks-IsKept db.tasks) ev).at db
      (Grows-refl TaskStep TaskStep-refl db.tasks)
