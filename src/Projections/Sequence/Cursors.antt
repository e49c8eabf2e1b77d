-- ===== src/Projections/Sequence/Cursors.antt =====
-- The tables `projection_cursors` and `sequence_gaps` under `apply_event`.
use muse_agent_social.Prelude.{
  ℕ, ◌≤◌, ◌<◌, max, String, true, List, ◌≡◌, refl, inl, inr, ap, arith, eq_iff, fun_ext, Bool-cases,
  if◌then◌else◌,
}
use muse_agent_social.Prelude.Table.{exists, find}
use muse_agent_social.Prelude.TableLaws.{find-insert, find-update_other, find-none_of_exists}
use muse_agent_social.Store.Events.{Event}
use muse_agent_social.Store.Tables.{Db, CursorRow, GapRow}
use muse_agent_social.Store.Txn.{Txn}
use muse_agent_social.Store.Keeps.{Keeps, view-Keeps}
use muse_agent_social.Projections.Apply.{apply_event}
use muse_agent_social.Projections.Apply.Lift.{IsKept, apply_event-Keeps}
use muse_agent_social.Projections.Footprints.{
  message_created_footprint, message_edited_footprint, message_retracted_footprint,
  reaction_added_footprint, reaction_removed_footprint, receipt_footprint, poll_created_footprint,
  poll_responded_footprint, task_created_footprint, task_updated_footprint,
  human_requested_footprint, human_responded_footprint, delivery_scheduled_footprint,
  delivery_canceled_footprint, security_key_footprint, quarantine_footprint, marks_footprint,
  replies_footprint,
}
use muse_agent_social.Projections.Sequence.{
  of_sender, gap_at, high_water, cursor_of, update_seq_state,
}
use muse_agent_social.Projections.Sequence.Gaps.{
  same_sender, update_seq_state-cursor, update_seq_state-gaps,
}

module _ (rel sender : String) (seq : ℕ) (at : String) (db : Db) (r s : String) where
  -- The cursor of any sender after one event.
  cursor_after : high_water (cursor_of r s (update_seq_state rel sender seq at db).1) ≡ (
      if same_sender rel sender r s
      then max (high_water (cursor_of r s db)) seq
      else high_water (cursor_of r s db))
  unfolding update_seq_state cursor_of
  cursor_after = elim (Bool-cases (same_sender rel sender r s)) [
    | inl e ↦
        let same : of_sender rel sender ≡ of_sender r s =
          fun_ext λ c. ground (arith, eq_iff rel r, eq_iff sender s) in
        ground (
          arith,
          update_seq_state-cursor rel sender seq at db,
          ap (λ p. high_water (find p db.projection_cursors)) same,
          ap (λ p. high_water (find p (update_seq_state rel sender seq at db).1.projection_cursors))
              same,
        )
    | inr e ↦ ground (
      arith,
      find-insert (of_sender r s) db.projection_cursors
          (record { relationship_id = rel; sender = sender; max_seq = seq }),
      find-none_of_exists (of_sender r s) db.projection_cursors,
      find-update_other (of_sender rel sender) (of_sender r s) (λ c. record c { max_seq = seq })
          (λ x. refl)
          (λ c h. ground (
            arith,
            eq_iff c.relationship_id r,
            eq_iff c.sender s,
            eq_iff c.relationship_id rel,
            eq_iff c.sender sender,
            eq_iff rel r,
            eq_iff sender s,
          ))
          db.projection_cursors,
    )
  ]

-- The high-water mark of a sender.
abbrev pub mark : List CursorRow → String → String → ℕ
mark cursors r s = high_water (find (of_sender r s) cursors)

-- Every recorded gap lies below the cursor of its sender.
pub record IsBehind (cursors : List CursorRow) (gaps : List GapRow) : Type 0 where
  pub below : (r s : String) (k : ℕ) → exists (gap_at r s k) gaps ≡ true → k < mark cursors r s

-- No cursor is lower than it was.
pub record HasRisen (start cursors : List CursorRow) : Type 0 where
  pub at_least : (r s : String) → mark start r s ≤ mark cursors r s

abbrev Behind : Db → Type 0
Behind db = IsBehind db.projection_cursors db.sequence_gaps

abbrev Risen : List CursorRow → Db → Type 0
Risen start db = HasRisen start db.projection_cursors

sequence-Behind :
    (rel sender : String) (seq : ℕ) (at : String)
    → Keeps Behind (update_seq_state rel sender seq at)
unfolding cursor_of
sequence-Behind rel sender seq at = record {
  at = λ db h. record {
    below = λ r s k. ground (
      arith,
      update_seq_state-gaps rel sender seq at db r s k,
      cursor_after rel sender seq at db r s,
      h.below r s k,
    );
  };
}

sequence-Risen :
    (start : List CursorRow) (rel sender : String) (seq : ℕ) (at : String)
    → Keeps (Risen start) (update_seq_state rel sender seq at)
unfolding cursor_of
sequence-Risen start rel sender seq at = record {
  at = λ db h. record {
    at_least = λ r s. ground (arith, cursor_after rel sender seq at db r s, h.at_least r s);
  };
}

abbrev tables : Db → List CursorRow × List GapRow
tables db = (db.projection_cursors, db.sequence_gaps)

same : {A : Type 0} {m : Txn A} → ((db : Db) → tables (m db).1 ≡ tables db) → Keeps Behind m
same = view-Keeps {view = tables} (λ v. IsBehind v.0 v.1)

same_cursors :
    (start : List CursorRow) {A : Type 0} {m : Txn A}
    → ((db : Db) → (m db).1.projection_cursors ≡ db.projection_cursors)
    → Keeps (Risen start) m
same_cursors start = view-Keeps (HasRisen start)

gaps-IsKept : IsKept (Behind)
gaps-IsKept = record {
  message_created = λ ev p now. same (λ db. ap tables (message_created_footprint ev p now db));
  message_edited = λ ev p. same (λ db. ap tables (message_edited_footprint ev p db));
  message_retracted = λ ev p. same (λ db. ap tables (message_retracted_footprint ev p db));
  reaction_added = λ ev p. same (λ db. ap tables (reaction_added_footprint ev p db));
  reaction_removed = λ ev p. same (λ db. ap tables (reaction_removed_footprint ev p db));
  receipt = λ ev p kind. same (λ db. ap tables (receipt_footprint ev p kind db));
  poll_created = λ ev p. same (λ db. ap tables (poll_created_footprint ev p db));
  poll_responded = λ ev p now. same (λ db. ap tables (poll_responded_footprint ev p now db));
  task_created = λ ev p. same (λ db. ap tables (task_created_footprint ev p db));
  task_updated = λ ev p. same (λ db. ap tables (task_updated_footprint ev p db));
  human_requested = λ ev p. same (λ db. ap tables (human_requested_footprint ev p db));
  human_responded = λ ev p. same (λ db. ap tables (human_responded_footprint ev p db));
  delivery_scheduled = λ ev p. same (λ db. ap tables (delivery_scheduled_footprint ev p db));
  delivery_canceled = λ ev p. same (λ db. ap tables (delivery_canceled_footprint ev p db));
  security_key = λ ev action. same (λ db. ap tables (security_key_footprint ev action db));
  quarantine = λ rel sender seq id reason.
      same (λ db. ap tables (quarantine_footprint rel sender seq id reason db));
  sequence = sequence-Behind;
  marks = λ id state. same (λ db. ap tables (marks_footprint id state db));
  replies = λ id state. same (λ db. ap tables (replies_footprint id state db));
}

cursors-IsKept : (start : List CursorRow) → IsKept (Risen start)
cursors-IsKept start = record {
  message_created = λ ev p now.
      same_cursors start
        (λ db. ap (λ d. d.projection_cursors) (message_created_footprint ev p now db));
  message_edited = λ ev p.
      same_cursors start (λ db. ap (λ d. d.projection_cursors) (message_edited_footprint ev p db));
  message_retracted = λ ev p.
      same_cursors start
        (λ db. ap (λ d. d.projection_cursors) (message_retracted_footprint ev p db));
  reaction_added = λ ev p.
      same_cursors start (λ db. ap (λ d. d.projection_cursors) (reaction_added_footprint ev p db));
  reaction_removed = λ ev p.
      same_cursors start
        (λ db. ap (λ d. d.projection_cursors) (reaction_removed_footprint ev p db));
  receipt = λ ev p kind.
      same_cursors start (λ db. ap (λ d. d.projection_cursors) (receipt_footprint ev p kind db));
  poll_created = λ ev p.
      same_cursors start (λ db. ap (λ d. d.projection_cursors) (poll_created_footprint ev p db));
  poll_responded = λ ev p now.
      same_cursors start
        (λ db. ap (λ d. d.projection_cursors) (poll_responded_footprint ev p now db));
  task_created = λ ev p.
      same_cursors start (λ db. ap (λ d. d.projection_cursors) (task_created_footprint ev p db));
  task_updated = λ ev p.
      same_cursors start (λ db. ap (λ d. d.projection_cursors) (task_updated_footprint ev p db));
  human_requested = λ ev p.
      same_cursors start (λ db. ap (λ d. d.projection_cursors) (human_requested_footprint ev p db));
  human_responded = λ ev p.
      same_cursors start (λ db. ap (λ d. d.projection_cursors) (human_responded_footprint ev p db));
  delivery_scheduled = λ ev p.
      same_cursors start
        (λ db. ap (λ d. d.projection_cursors) (delivery_scheduled_footprint ev p db));
  delivery_canceled = λ ev p.
      same_cursors start
        (λ db. ap (λ d. d.projection_cursors) (delivery_canceled_footprint ev p db));
  security_key = λ ev action.
      same_cursors start
        (λ db. ap (λ d. d.projection_cursors) (security_key_footprint ev action db));
  quarantine = λ rel sender seq id reason.
      same_cursors start
        (λ db. ap (λ d. d.projection_cursors) (quarantine_footprint rel sender seq id reason db));
  sequence = sequence-Risen start;
  marks = λ id state.
      same_cursors start (λ db. ap (λ d. d.projection_cursors) (marks_footprint id state db));
  replies = λ id state.
      same_cursors start (λ db. ap (λ d. d.projection_cursors) (replies_footprint id state db));
}

-- Applying an event, whatever its outcome, lowers the high-water mark of no sender in any
-- relationship.
pub apply_event-HasRisen :
    (ev : Event) (db : Db) → HasRisen db.projection_cursors (apply_event ev db).1.projection_cursors
apply_event-HasRisen ev db =
    (apply_event-Keeps (cursors-IsKept db.projection_cursors) ev).at db
      (record { at_least = λ r s. omega arith })

-- Where every recorded gap lies below the high-water mark of its sender, every one does so after any
-- event is applied, whatever its outcome, although no mark is lower than it was.
pub apply_event-cursors :
    (ev : Event) (db : Db)
    → IsBehind db.projection_cursors db.sequence_gaps
    → let db' = (apply_event ev db).1 in
      IsBehind db'.projection_cursors db'.sequence_gaps
      × HasRisen db.projection_cursors db'.projection_cursors
apply_event-cursors ev db h =
    ((apply_event-Keeps gaps-IsKept ev).at db h, apply_event-HasRisen ev db)
