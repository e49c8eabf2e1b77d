-- ===== src/Projections/Deliveries.antt =====
-- `_handle_delivery_scheduled`, `_handle_delivery_canceled` and `_handle_security_key`.
pub mod Final
pub mod Unique
use muse_agent_social.Prelude.{
  String, Bool, not, ◌&&◌, Option, none, some, List, [], ◌∷◌, ◌==◌, if◌then◌else◌,
}
use muse_agent_social.Prelude.Table.{find, exists, insert, update}
use muse_agent_social.Store.Events.{
  Event, Announcement, Cancellation, KeyAction, prepare, ack, confirm, commit, delivery_scheduled,
}
use muse_agent_social.Store.Tables.{
  DeliveryRow, DeliveryState, scheduled, canceled, delivery_cancel_target_not_scheduled,
  delivery_cancel_not_sender, delivery_cancel_ref,
}
use muse_agent_social.Store.Txn.{Txn, ◌>>=◌, ◌>>◌, pure, reject, gets, modify}
use muse_agent_social.Projections.Mutations.{
  Mutation, mutation, noop, unchanged, inserted, updated, deliveries, security_key_events, text,
}
use muse_agent_social.Projections.Targets.{target_status, add_pending}

-- The unique index (relationship_id, sender, inner_event_id).
abbrev pub announces : String → String → String → DeliveryRow → Bool
announces relationship_id sender inner_event_id d =
    d.relationship_id == relationship_id && d.sender == sender && d.inner_event_id == inner_event_id

abbrev new_delivery : Event → Announcement → DeliveryRow
new_delivery ev p = record {
  scheduled_event_id = ev.event_id;
  relationship_id = ev.relationship_id;
  sender = ev.sender;
  created_at = ev.created_at;
  inner_event_id = p.inner_event_id;
  deliver_at = p.deliver_at;
  late_by_seconds = p.late_by_seconds;
  state = scheduled;
  canceled_at = none;
  cancel_event_id = none;
}

schedule : Event → Announcement → Option DeliveryRow → Txn (List Mutation)
schedule ev p (some dup) = pure (
    mutation noop deliveries (text ev.event_id ∷ []) (
      ("reason", text "duplicate_announcement")
      ∷ ("existing_scheduled_event_id", text dup.scheduled_event_id)
      ∷ [])
    ∷ [])
schedule ev p none = do
  modify (λ db. record db { deliveries = insert (new_delivery ev p) db.deliveries })
  pure
      (mutation inserted deliveries (text ev.event_id ∷ []) (("state", text "scheduled") ∷ []) ∷ [])

unfoldable pub handle_delivery_scheduled : Event → Announcement → Txn (List Mutation)
unfolding schedule ◌>>=◌
handle_delivery_scheduled ev p = do
  projected ← gets (λ db. exists (λ d. d.scheduled_event_id == ev.event_id) db.deliveries)
  if projected then pure (unchanged deliveries ev.event_id "already_projected") else do
    dup ← gets (λ db. find (announces ev.relationship_id ev.sender p.inner_event_id) db.deliveries)
    schedule ev p dup

abbrev pub is_canceled : DeliveryState → Bool
is_canceled scheduled = Bool.false
is_canceled canceled = Bool.true

unfoldable pub find_delivery : String → List DeliveryRow → Option DeliveryRow
find_delivery scheduled_id = find (λ d. d.scheduled_event_id == scheduled_id)

cancel : Event → Cancellation → Option DeliveryRow → Txn (List Mutation)
unfolding target_status add_pending
cancel ev p none = do
  target_status ev p.scheduled_event_id delivery_scheduled delivery_cancel_target_not_scheduled
  m ← add_pending ev p.scheduled_event_id delivery_cancel_ref
  pure (m ∷ [])
cancel ev p (some row) =
    if not (ev.sender == row.sender)
    then reject delivery_cancel_not_sender
    else if is_canceled row.state
    then pure (unchanged deliveries p.scheduled_event_id "already_canceled")
    else do
      modify (λ db. record db {
        deliveries =
            update (λ d. d.scheduled_event_id == p.scheduled_event_id)
              (λ d. record d {
                state = canceled;
                canceled_at = some ev.created_at;
                cancel_event_id = some ev.event_id;
              })
              db.deliveries;
      })
      pure (
          mutation updated deliveries (text p.scheduled_event_id ∷ [])
            (("state", text "canceled") ∷ [])
          ∷ [])

unfoldable pub handle_delivery_canceled : Event → Cancellation → Txn (List Mutation)
unfolding cancel find_delivery ◌>>=◌
handle_delivery_canceled ev p = do
  row ← gets (λ db. find_delivery p.scheduled_event_id db.deliveries)
  cancel ev p row

abbrev action_name : KeyAction → String
action_name prepare = "prepare"
action_name ack = "ack"
action_name confirm = "confirm"
action_name commit = "commit"

unfoldable pub handle_security_key : Event → KeyAction → Txn (List Mutation)
unfolding ◌>>=◌
handle_security_key ev action = do
  projected ← gets (λ db. exists (λ r. r.event_id == ev.event_id) db.security_key_events)
  if projected then pure (unchanged security_key_events ev.event_id "already_projected") else do
    modify (λ db. record db {
      security_key_events =
          insert
            (record {
              event_id = ev.event_id;
              relationship_id = ev.relationship_id;
              sender = ev.sender;
              created_at = ev.created_at;
              key_epoch = ev.key_epoch;
              action = action;
            })
            db.security_key_events;
    })
    pure (
        mutation inserted security_key_events (text ev.event_id ∷ [])
          (("action", text (action_name action)) ∷ [])
        ∷ [])
