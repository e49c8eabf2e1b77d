-- ===== src/Projections/Deliveries/Final.antt =====
-- The rows of `deliveries` under `apply_event`.
use muse_agent_social.Prelude.{
  true, some, List, ◌≡◌, inl, inr, ap, arith, ◌==◌, Bool-cases, Option-cases,
}
use muse_agent_social.Prelude.Growth.{Grows, Grows-refl, Grows-insert, Grows-update}
use muse_agent_social.Store.Events.{Event, Announcement, Cancellation}
use muse_agent_social.Store.Tables.{Db, DeliveryRow, canceled}
use muse_agent_social.Store.Txn.{Txn}
use muse_agent_social.Store.Keeps.{Keeps, view-Keeps}
use muse_agent_social.Projections.Apply.{apply_event}
use muse_agent_social.Projections.Apply.Lift.{IsKept, apply_event-Keeps}
use muse_agent_social.Projections.Footprints.{
  message_created_footprint, message_edited_footprint, message_retracted_footprint,
  reaction_added_footprint, reaction_removed_footprint, receipt_footprint, poll_created_footprint,
  poll_responded_footprint, task_created_footprint, task_updated_footprint,
  human_requested_footprint, human_responded_footprint, security_key_footprint,
  quarantine_footprint, sequence_footprint, marks_footprint, replies_footprint,
}
use muse_agent_social.Projections.Deliveries.{
  find_delivery, is_canceled, new_delivery, handle_delivery_scheduled, handle_delivery_canceled,
}

-- How one delivery may change: what was announced stays, and a canceled delivery does not change.
pub record DeliveryStep (x y : DeliveryRow) : Type 0 where
  pub scheduled_event_id : y.scheduled_event_id ≡ x.scheduled_event_id
  pub relationship_id : y.relationship_id ≡ x.relationship_id
  pub sender : y.sender ≡ x.sender
  pub created_at : y.created_at ≡ x.created_at
  pub inner_event_id : y.inner_event_id ≡ x.inner_event_id
  pub deliver_at : y.deliver_at ≡ x.deliver_at
  pub late_by_seconds : y.late_by_seconds ≡ x.late_by_seconds
  pub final : is_canceled x.state ≡ true → y ≡ x

DeliveryStep-refl : (x : DeliveryRow) → DeliveryStep x x
DeliveryStep-refl x = ground arith

DeliveryStep-trans : (x y z : DeliveryRow) → DeliveryStep x y → DeliveryStep y z → DeliveryStep x z
DeliveryStep-trans x y z a b = ground arith

abbrev Kept : List DeliveryRow → Db → Type 0
Kept start db = Grows DeliveryStep start db.deliveries

module _ (start : List DeliveryRow) where
  scheduled-Kept :
      (ev : Event) (p : Announcement) → Keeps (Kept start) (handle_delivery_scheduled ev p)
  unfolding handle_delivery_scheduled
  scheduled-Kept ev p = record {
    at =
        λ db h. ground (arith, Grows-insert DeliveryStep start db.deliveries (new_delivery ev p) h);
  }

  canceled-Kept :
      (ev : Event) (p : Cancellation) → Keeps (Kept start) (handle_delivery_canceled ev p)
  unfolding handle_delivery_canceled find_delivery
  canceled-Kept ev p = record {
    at = λ db h. elim (Option-cases (find_delivery p.scheduled_event_id db.deliveries)) [
      | inl e ↦ ground arith
      | inr (o, e) ↦ elim (Bool-cases (is_canceled o.state)) [
        | inl gone ↦ ground arith
        | inr live ↦ ground (
          arith,
          Grows-update DeliveryStep DeliveryStep-trans
              (λ d. d.scheduled_event_id == p.scheduled_event_id)
              (λ d. record d {
                state = canceled;
                canceled_at = some ev.created_at;
                cancel_event_id = some ev.event_id;
              })
              start db.deliveries (λ y e'. ground arith) h,
        )
      ]
    ];
  }

  same :
      {A : Type 0} {m : Txn A}
      → ((db : Db) → (m db).1.deliveries ≡ db.deliveries)
      → Keeps (Kept start) m
  same = view-Keeps (Grows DeliveryStep start)

deliveries-IsKept : (start : List DeliveryRow) → IsKept (Kept start)
deliveries-IsKept start = record {
  message_created =
      λ ev p now. same start (λ db. ap (λ d. d.deliveries) (message_created_footprint ev p now db));
  message_edited =
      λ ev p. same start (λ db. ap (λ d. d.deliveries) (message_edited_footprint ev p db));
  message_retracted =
      λ ev p. same start (λ db. ap (λ d. d.deliveries) (message_retracted_footprint ev p db));
  reaction_added =
      λ ev p. same start (λ db. ap (λ d. d.deliveries) (reaction_added_footprint ev p db));
  reaction_removed =
      λ ev p. same start (λ db. ap (λ d. d.deliveries) (reaction_removed_footprint ev p db));
  receipt = λ ev p kind. same start (λ db. ap (λ d. d.deliveries) (receipt_footprint ev p kind db));
  poll_created = λ ev p. same start (λ db. ap (λ d. d.deliveries) (poll_created_footprint ev p db));
  poll_responded =
      λ ev p now. same start (λ db. ap (λ d. d.deliveries) (poll_responded_footprint ev p now db));
  task_created = λ ev p. same start (λ db. ap (λ d. d.deliveries) (task_created_footprint ev p db));
  task_updated = λ ev p. same start (λ db. ap (λ d. d.deliveries) (task_updated_footprint ev p db));
  human_requested =
      λ ev p. same start (λ db. ap (λ d. d.deliveries) (human_requested_footprint ev p db));
  human_responded =
      λ ev p. same start (λ db. ap (λ d. d.deliveries) (human_responded_footprint ev p db));
  delivery_scheduled = scheduled-Kept start;
  delivery_canceled = canceled-Kept start;
  security_key =
      λ ev action. same start (λ db. ap (λ d. d.deliveries) (security_key_footprint ev action db));
  quarantine = λ rel sender seq id reason.
      same start (λ db. ap (λ d. d.deliveries) (quarantine_footprint rel sender seq id reason db));
  sequence = λ rel sender seq at.
      same start (λ db. ap (λ d. d.deliveries) (sequence_footprint rel sender seq at db));
  marks = λ id state. same start (λ db. ap (λ d. d.deliveries) (marks_footprint id state db));
  replies = λ id state. same start (λ db. ap (λ d. d.deliveries) (replies_footprint id state db));
}

-- Applying an event, whatever its outcome, loses no scheduled delivery: each one is still there, in
-- its place, with what was announced, and a canceled one does not change any more.
pub apply_event-deliveries :
    (ev : Event) (db : Db) → Grows DeliveryStep db.deliveries (apply_event ev db).1.deliveries
apply_event-deliveries ev db =
    (apply_event-Keeps (deliveries-IsKept db.deliveries) ev).at db
      (Grows-refl DeliveryStep DeliveryStep-refl db.deliveries)
