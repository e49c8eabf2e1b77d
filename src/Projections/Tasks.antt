-- ===== src/Projections/Tasks.antt =====
-- `_handle_task_created` and `_handle_task_updated`.
pub mod Final
use muse_agent_social.Prelude.{
  String, Bool, not, ◌||◌, Option, none, some, List, [], ◌∷◌, ◌++◌, ◌==◌, if◌then◌else◌,
}
use muse_agent_social.Prelude.Table.{find, exists, insert, update}
use muse_agent_social.Store.Events.{Event, TaskBody, TaskUpdate, task_created}
use muse_agent_social.Store.Tables.{
  TaskRow, task_update_target_not_task, task_not_authorized, task_transition_terminal,
  task_bad_status, task_update_ref,
}
use muse_agent_social.Store.Txn.{Txn, ◌>>=◌, ◌>>◌, pure, reject, gets, modify}
use muse_agent_social.Projections.Mutations.{
  Mutation, mutation, unchanged, inserted, updated, tasks, text,
}
use muse_agent_social.Projections.Targets.{target_status, add_pending}
use muse_agent_social.Projections.Threads.{ensure_thread}

abbrev new_task : Event → TaskBody → TaskRow
new_task ev p = record {
  task_id = ev.event_id;
  relationship_id = ev.relationship_id;
  conversation_id = ev.conversation_id;
  thread_id = ev.thread_id;
  sender = ev.sender;
  created_at = ev.created_at;
  title = p.title;
  owner_identity = p.owner_identity;
  due_at = p.due_at;
  status = "open";
  status_event_id = none;
  status_updated_at = none;
  note = none;
}

unfoldable pub handle_task_created : Event → TaskBody → Txn (List Mutation)
unfolding ensure_thread ◌>>=◌
handle_task_created ev p = do
  started ← ensure_thread ev
  projected ← gets (λ db. exists (λ r. r.task_id == ev.event_id) db.tasks)
  if projected then pure (started ++ unchanged tasks ev.event_id "already_projected") else do
    modify (λ db. record db { tasks = insert (new_task ev p) db.tasks })
    pure (
        started
        ++ mutation inserted tasks (text ev.event_id ∷ []) (("status", text "open") ∷ []) ∷ [])

-- `_TASK_TERMINAL`
unfoldable pub is_terminal : String → Bool
is_terminal status = status == "done" || status == "canceled"

unfoldable pub is_status : String → Bool
is_status s = s == "open" || s == "in_progress" || s == "blocked" || s == "done" || s == "canceled"

unfoldable pub find_task : String → List TaskRow → Option TaskRow
find_task task_id = find (λ t. t.task_id == task_id)

unfoldable pub set_status : Event → TaskUpdate → List TaskRow → List TaskRow
set_status ev p =
    update (λ t. t.task_id == p.task_id)
      (λ t. record t {
        status = p.status;
        status_event_id = some ev.event_id;
        status_updated_at = some ev.created_at;
        note = p.note;
      })

update_task : Event → TaskUpdate → Option TaskRow → Txn (List Mutation)
unfolding target_status add_pending set_status is_terminal is_status
update_task ev p none = do
  target_status ev p.task_id task_created task_update_target_not_task
  m ← add_pending ev p.task_id task_update_ref
  pure (m ∷ [])
update_task ev p (some row) =
    if not (ev.sender == row.owner_identity || ev.sender == row.sender)
    then reject task_not_authorized
    else if is_terminal row.status
    then reject task_transition_terminal
    else if not (is_status p.status)
    then reject task_bad_status
    else do
      modify (λ db. record db { tasks = set_status ev p db.tasks })
      pure (mutation updated tasks (text p.task_id ∷ []) (("status", text p.status) ∷ []) ∷ [])

unfoldable pub handle_task_updated : Event → TaskUpdate → Txn (List Mutation)
unfolding update_task find_task ◌>>=◌
handle_task_updated ev p = do row ← gets (λ db. find_task p.task_id db.tasks); update_task ev p row
