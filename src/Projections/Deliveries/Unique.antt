-- ===== src/Projections/Deliveries/Unique.antt =====
-- The announcements of `_handle_delivery_scheduled` under one inner event.
use muse_agent_social.Prelude.{
  Bool, false, some, List, [], ◌∷◌, ◌≡◌, refl, ◌∙◌, inl, inr, ap, arith, ◌==◌, eq_iff, Bool-cases,
  Option-cases,
}
use muse_agent_social.Prelude.Table.{find, exists, insert, update}
use muse_agent_social.Prelude.TableLaws.{exists-insert, exists-update, not-exists_of_find}
use muse_agent_social.Store.Events.{Event, Announcement, Cancellation}
use muse_agent_social.Store.Tables.{Db, DeliveryRow, canceled}
use muse_agent_social.Store.Txn.{Txn}
use muse_agent_social.Store.Keeps.{Keeps, view-Keeps}
use muse_agent_social.Projections.Apply.{apply_event}
use muse_agent_social.Projections.Apply.Lift.{IsKept, apply_event-Keeps}
use muse_agent_social.Projections.Footprints.{
  message_created_footprint, message_edited_footprint, message_retracted_footprint,
  reaction_added_footprint, reaction_removed_footprint, receipt_footprint, poll_created_footprint,
  poll_responded_footprint, task_created_footprint, task_updated_footprint,
  human_requested_footprint, human_responded_footprint, security_key_footprint,
  quarantine_footprint, sequence_footprint, marks_footprint, replies_footprint,
}
use muse_agent_social.Projections.Deliveries.{
  announces, find_delivery, new_delivery, handle_delivery_scheduled, handle_delivery_canceled,
}

abbrev like : DeliveryRow → DeliveryRow → Bool
like d = announces d.relationship_id d.sender d.inner_event_id

-- No two rows share relationship, sender and inner event.
abbrev pub IsUnique : List DeliveryRow → Type 0
IsUnique [] = Unit
IsUnique (d ∷ ds) = (exists (like d) ds ≡ false) × IsUnique ds

IsUnique-insert :
    (d : DeliveryRow) (ds : List DeliveryRow)
    → exists (like d) ds ≡ false
    → IsUnique ds
    → IsUnique (insert d ds)
unfolding exists
IsUnique-insert d [] fresh u = (refl, tt)
IsUnique-insert d (x ∷ ds) fresh u = (
  ground (
    arith,
    exists-insert (like x) ds d,
    u.0,
    eq_iff d.relationship_id x.relationship_id,
    eq_iff x.relationship_id d.relationship_id,
    eq_iff d.sender x.sender,
    eq_iff x.sender d.sender,
    eq_iff d.inner_event_id x.inner_event_id,
    eq_iff x.inner_event_id d.inner_event_id,
  ),
  IsUnique-insert d ds (ground arith) u.1,
)

abbrev cancel_row : Event → DeliveryRow → DeliveryRow
cancel_row ev d = record d {
  state = canceled;
  canceled_at = some ev.created_at;
  cancel_event_id = some ev.event_id;
}

IsUnique-update :
    (q : DeliveryRow → Bool) (ev : Event) (ds : List DeliveryRow)
    → IsUnique ds
    → IsUnique (update q (cancel_row ev) ds)
unfolding update
IsUnique-update q ev [] u = tt
IsUnique-update q ev (d ∷ ds) u = elim (Bool-cases (q d)) [
  | inl e ↦ rw e u
  | inr e ↦
      rw e
        (exists-update (like d) q (cancel_row ev) (λ x. refl) ds ∙ u.0, IsUnique-update q ev ds u.1)
]

abbrev Unique : Db → Type 0
Unique db = IsUnique db.deliveries

scheduled-Unique : (ev : Event) (p : Announcement) → Keeps Unique (handle_delivery_scheduled ev p)
unfolding handle_delivery_scheduled
scheduled-Unique ev p = record {
  at = λ db h.
      elim (Option-cases
        (find (announces ev.relationship_id ev.sender p.inner_event_id) db.deliveries)) [
          | inl e ↦ ground (
            arith,
            IsUnique-insert (new_delivery ev p) db.deliveries
                (not-exists_of_find (like (new_delivery ev p)) db.deliveries e) h,
          )
          | inr (d, e) ↦ ground arith
        ];
}

canceled-Unique : (ev : Event) (p : Cancellation) → Keeps Unique (handle_delivery_canceled ev p)
unfolding handle_delivery_canceled find_delivery
canceled-Unique ev p = record {
  at = λ db h. ground (
    arith,
    IsUnique-update (λ d. d.scheduled_event_id == p.scheduled_event_id) ev db.deliveries h,
  );
}

same : {A : Type 0} {m : Txn A} → ((db : Db) → (m db).1.deliveries ≡ db.deliveries) → Keeps Unique m
same = view-Keeps IsUnique

announcements-IsKept : IsKept (Unique)
announcements-IsKept = record {
  message_created =
      λ ev p now. same (λ db. ap (λ d. d.deliveries) (message_created_footprint ev p now db));
  message_edited = λ ev p. same (λ db. ap (λ d. d.deliveries) (message_edited_footprint ev p db));
  message_retracted =
      λ ev p. same (λ db. ap (λ d. d.deliveries) (message_retracted_footprint ev p db));
  reaction_added = λ ev p. same (λ db. ap (λ d. d.deliveries) (reaction_added_footprint ev p db));
  reaction_removed =
      λ ev p. same (λ db. ap (λ d. d.deliveries) (reaction_removed_footprint ev p db));
  receipt = λ ev p kind. same (λ db. ap (λ d. d.deliveries) (receipt_footprint ev p kind db));
  poll_created = λ ev p. same (λ db. ap (λ d. d.deliveries) (poll_created_footprint ev p db));
  poll_responded =
      λ ev p now. same (λ db. ap (λ d. d.deliveries) (poll_responded_footprint ev p now db));
  task_created = λ ev p. same (λ db. ap (λ d. d.deliveries) (task_created_footprint ev p db));
  task_updated = λ ev p. same (λ db. ap (λ d. d.deliveries) (task_updated_footprint ev p db));
  human_requested = λ ev p. same (λ db. ap (λ d. d.deliveries) (human_requested_footprint ev p db));
  human_responded = λ ev p. same (λ db. ap (λ d. d.deliveries) (human_responded_footprint ev p db));
  delivery_scheduled = scheduled-Unique;
  delivery_canceled = canceled-Unique;
  security_key =
      λ ev action. same (λ db. ap (λ d. d.deliveries) (security_key_footprint ev action db));
  quarantine = λ rel sender seq id reason.
      same (λ db. ap (λ d. d.deliveries) (quarantine_footprint rel sender seq id reason db));
  sequence = λ rel sender seq at.
      same (λ db. ap (λ d. d.deliveries) (sequence_footprint rel sender seq at db));
  marks = λ id state. same (λ db. ap (λ d. d.deliveries) (marks_footprint id state db));
  replies = λ id state. same (λ db. ap (λ d. d.deliveries) (replies_footprint id state db));
}

-- Where no two deliveries share relationship, sender and inner event, none do after any event is
-- applied, whatever its outcome: a re-signed announcement makes no second delivery.
pub apply_event-IsUnique :
    (ev : Event) (db : Db) → IsUnique db.deliveries → IsUnique (apply_event ev db).1.deliveries
apply_event-IsUnique ev db = (apply_event-Keeps announcements-IsKept ev).at db
