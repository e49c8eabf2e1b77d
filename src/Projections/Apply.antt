-- ===== src/Projections/Apply.antt =====
-- `_dispatch`, `_resolve_pending`, `_apply_inner` and `apply_event`.
pub mod Lift
pub mod Forks
use muse_agent_social.Prelude.{
  String, Bool, true, false, ◌&&◌, Option, none, some, List, [], ◌∷◌, ◌++◌, ◌==◌, present,
  if◌then◌else◌,
}
use muse_agent_social.Prelude.Table.{find, select, update}
use muse_agent_social.Store.Events
use muse_agent_social.Store.Events.{Event, EventRow, PayloadRow, EventType, Payload}
use muse_agent_social.Store.Tables.{
  Db, MessageRow, PendingRef, RefKind, RefState, waiting, resolved, reply_ref, ReplyState, ok,
  unavailable, accepted, seen, unknown_event_type,
}
use muse_agent_social.Store.Txn.{
  Txn, ◌>>=◌, ◌>>◌, pure, throw, reject, gets, modify, catch, key_error,
}
use muse_agent_social.Projections.Mutations.{
  Mutation, mutation, updated, pending_refs, messages, text,
}
use muse_agent_social.Projections.Targets.{target_event, out_of_scope}
use muse_agent_social.Projections.Quarantine.{quarantine_event, check_fork}
use muse_agent_social.Projections.Sequence.{update_seq_state}
use muse_agent_social.Projections.Messages.{
  state_name, find_message, handle_message_created, handle_message_edited, handle_message_retracted,
}
use muse_agent_social.Projections.Reactions.{
  handle_reaction_added, handle_reaction_removed, handle_receipt,
}
use muse_agent_social.Projections.Polls.{handle_poll_created, handle_poll_responded}
use muse_agent_social.Projections.Tasks.{handle_task_created, handle_task_updated}
use muse_agent_social.Projections.Requests.{handle_human_requested, handle_human_responded}
use muse_agent_social.Projections.Deliveries.{
  handle_delivery_scheduled, handle_delivery_canceled, handle_security_key,
}

-- The handler that an event type has, with the shape that it reads: the payload of another shape
-- lacks the handler's keys.
dispatch_on : EventType → Payload → Event → String → Txn (List Mutation)
dispatch_on EventType.relationship_ready _ ev now = pure []
dispatch_on EventType.migration_ready _ ev now = pure []
dispatch_on EventType.migration_commit _ ev now = pure []
dispatch_on EventType.identity_rotated _ ev now = pure []
dispatch_on EventType.message_created (Payload.message p) ev now = handle_message_created ev p now
dispatch_on EventType.message_edited (Payload.edit p) ev now = handle_message_edited ev p
dispatch_on EventType.message_retracted (Payload.retraction p) ev now =
    handle_message_retracted ev p
dispatch_on EventType.reaction_added (Payload.reaction p) ev now = handle_reaction_added ev p
dispatch_on EventType.reaction_removed (Payload.reaction p) ev now = handle_reaction_removed ev p
dispatch_on EventType.receipt_accepted (Payload.receipt p) ev now = handle_receipt ev p accepted
dispatch_on EventType.receipt_seen (Payload.receipt p) ev now = handle_receipt ev p seen
dispatch_on EventType.poll_created (Payload.poll p) ev now = handle_poll_created ev p
dispatch_on EventType.poll_responded (Payload.poll_answer p) ev now = handle_poll_responded ev p now
dispatch_on EventType.task_created (Payload.task p) ev now = handle_task_created ev p
dispatch_on EventType.task_updated (Payload.task_update p) ev now = handle_task_updated ev p
dispatch_on EventType.human_requested (Payload.human_request p) ev now = handle_human_requested ev p
dispatch_on EventType.human_responded (Payload.human_answer p) ev now = handle_human_responded ev p
dispatch_on EventType.delivery_scheduled (Payload.announcement p) ev now =
    handle_delivery_scheduled ev p
dispatch_on EventType.delivery_canceled (Payload.cancellation p) ev now =
    handle_delivery_canceled ev p
dispatch_on (EventType.security_key action) _ ev now = handle_security_key ev action
dispatch_on (EventType.other _) _ ev now = reject unknown_event_type
dispatch_on _ _ ev now = throw key_error

unfoldable pub dispatch : Event → String → Txn (List Mutation)
unfolding dispatch_on
dispatch ev now = dispatch_on ev.event_type ev.payload ev now

-- `events e JOIN event_payloads p`, read through `_row_to_event`.
unfoldable pub staged : String → Db → Option PayloadRow
staged event_id db = find (λ p. p.event_id == event_id) db.event_payloads

abbrev pub join : EventRow → PayloadRow → Event
join row p = record {
  row = row;
  payload = p.payload;
  reply_to = p.reply_to;
  received_at = p.received_at;
}

unfoldable pub staged_event : String → Db → Option Event
unfolding staged
staged_event event_id db = elim (find (λ e. e.event_id == event_id) db.events) [
  | none ↦ none
  | some row ↦ elim (staged event_id db) [ none ↦ none | some p ↦ some (join row p) ]
]

abbrev pub is_waiting : RefState → Bool
is_waiting waiting = true
is_waiting _ = false

abbrev pub is_reply : RefKind → Bool
is_reply reply_ref = true
is_reply _ = false

unfoldable pub mark_ref : String → RefState → Txn (Unit {0})
mark_ref event_id state = modify (λ db. record db {
  pending_refs =
      update (λ r. r.event_id == event_id) (λ r. record r { state = state }) db.pending_refs;
})

-- The state of a waiting reply whose target is now `target`.
abbrev reply_outcome : Option EventRow → Option MessageRow → ReplyState
reply_outcome none msg = unavailable
reply_outcome (some target) none = unavailable
reply_outcome (some target) (some msg) =
    if out_of_scope target msg.conversation_id msg.thread_id then unavailable else ok

unfoldable pub set_reply_state : String → ReplyState → Txn (Unit {0})
set_reply_state event_id state = modify (λ db. record db {
  messages =
      update (λ m. m.event_id == event_id) (λ m. record m { reply_state = state }) db.messages;
})

resolve_reply : String → String → String → Txn (List Mutation)
unfolding target_event find_message set_reply_state
resolve_reply relationship_id target_event_id ref_id = do
  target ← gets (target_event relationship_id target_event_id)
  msg ← gets (find_message ref_id)
  set_reply_state ref_id (reply_outcome target msg)
  pure (
      mutation updated messages (text ref_id ∷ [])
        (("reply_state", text (state_name (reply_outcome target msg))) ∷ [])
      ∷ [])

-- Quarantines an event that its handler rejects, and goes on.
unfoldable pub dispatch_or_quarantine : Event → String → Txn (List Mutation)
dispatch_or_quarantine ev now = catch (dispatch ev now) λ code. do
  m ← quarantine_event ev.relationship_id ev.sender ev.sender_seq ev.event_id code
  pure (m ∷ [])

redispatch : Option Event → String → Txn (List Mutation)
unfolding dispatch_or_quarantine
redispatch none now = pure []
redispatch (some ev) now = dispatch_or_quarantine ev now

resolve_ref : String → String → String → PendingRef → Txn (List Mutation)
unfolding mark_ref resolve_reply redispatch staged_event
resolve_ref relationship_id target_event_id now ref = do
  mark_ref ref.event_id resolved
  rest ←
      if is_reply ref.kind
      then resolve_reply relationship_id target_event_id ref.event_id
      else do ev ← gets (staged_event ref.event_id); redispatch ev now
  pure (
      mutation updated pending_refs (text ref.event_id ∷ []) (("state", text "resolved") ∷ [])
      ∷ rest)

resolve_refs : String → String → String → List PendingRef → Txn (List Mutation)
unfolding resolve_ref
resolve_refs relationship_id target_event_id now [] = pure []
resolve_refs relationship_id target_event_id now (ref ∷ refs) = do
  ms ← resolve_ref relationship_id target_event_id now ref
  rest ← resolve_refs relationship_id target_event_id now refs
  pure (ms ++ rest)

abbrev pub waits_for : String → String → PendingRef → Bool
waits_for relationship_id target_event_id r =
    r.relationship_id == relationship_id
    && r.target_event_id == target_event_id
    && is_waiting r.state

-- The refs come in the order of insertion, as SQLite's scan of the index gives them.
unfoldable pub resolve_pending : String → String → String → Txn (List Mutation)
unfolding resolve_refs
resolve_pending relationship_id target_event_id now = do
  refs ← gets (λ db. select (waits_for relationship_id target_event_id) db.pending_refs)
  resolve_refs relationship_id target_event_id now refs

project : Event → String → Option Mutation → Txn (List Mutation)
project ev now (some fork) = pure (fork ∷ [])
project ev now none = do
  ms ← dispatch ev now
  woken ← resolve_pending ev.relationship_id ev.event_id now
  counted ← update_seq_state ev.relationship_id ev.sender ev.sender_seq now
  pure (ms ++ (woken ++ counted))

unfoldable pub apply_inner : Event → String → Txn (List Mutation)
unfolding project
apply_inner ev now = do fork ← check_fork ev; project ev now fork

abbrev staged_time : Option PayloadRow → Option String
staged_time none = none
staged_time (some p) = present p.received_at

-- The acceptance time: the event's own, else the staged one, else now.
unfoldable pub acceptance_time : Event → Db → String
unfolding staged
acceptance_time ev db = elim (present ev.received_at) [
  | some at ↦ at
  | none ↦ elim (staged_time (staged ev.event_id db)) [ some at ↦ at | none ↦ db.clock ]
]

unfoldable pub apply_event : Event → Txn (List Mutation)
unfolding acceptance_time
apply_event ev = do now ← gets (acceptance_time ev); apply_inner ev now
