-- ===== src/Projections/Log.antt =====
-- The tables that the projections only read.
use muse_agent_social.Prelude.{String, ◌≡◌, refl, ◌∙◌, ap}
use muse_agent_social.Store.Events.{Event}
use muse_agent_social.Store.Tables.{Db, Source}
use muse_agent_social.Store.Txn.{Txn}
use muse_agent_social.Store.Keeps.{Keeps, view-Keeps}
use muse_agent_social.Projections.Apply.{apply_event}
use muse_agent_social.Projections.Apply.Lift.{IsKept, apply_event-Keeps}
use muse_agent_social.Projections.Rebuild.{wipe, rebuild_projections}
use muse_agent_social.Projections.Rebuild.Lift.{rebuild_projections-Keeps}
use muse_agent_social.Projections.Footprints.{
  message_created_footprint, message_edited_footprint, message_retracted_footprint,
  reaction_added_footprint, reaction_removed_footprint, receipt_footprint, poll_created_footprint,
  poll_responded_footprint, task_created_footprint, task_updated_footprint,
  human_requested_footprint, human_responded_footprint, delivery_scheduled_footprint,
  delivery_canceled_footprint, security_key_footprint, quarantine_footprint, sequence_footprint,
  marks_footprint, replies_footprint,
}

same :
    (s : Source) {A : Type 0} {m : Txn A}
    → ((db : Db) → (m db).1.source ≡ db.source)
    → Keeps (λ db. db.source ≡ s) m
same s = view-Keeps (λ v. v ≡ s)

source-IsKept : (s : Source) → IsKept (λ db. db.source ≡ s)
source-IsKept s = record {
  message_created =
      λ ev p now. same s (λ db. ap (λ d. d.source) (message_created_footprint ev p now db));
  message_edited = λ ev p. same s (λ db. ap (λ d. d.source) (message_edited_footprint ev p db));
  message_retracted =
      λ ev p. same s (λ db. ap (λ d. d.source) (message_retracted_footprint ev p db));
  reaction_added = λ ev p. same s (λ db. ap (λ d. d.source) (reaction_added_footprint ev p db));
  reaction_removed = λ ev p. same s (λ db. ap (λ d. d.source) (reaction_removed_footprint ev p db));
  receipt = λ ev p kind. same s (λ db. ap (λ d. d.source) (receipt_footprint ev p kind db));
  poll_created = λ ev p. same s (λ db. ap (λ d. d.source) (poll_created_footprint ev p db));
  poll_responded =
      λ ev p now. same s (λ db. ap (λ d. d.source) (poll_responded_footprint ev p now db));
  task_created = λ ev p. same s (λ db. ap (λ d. d.source) (task_created_footprint ev p db));
  task_updated = λ ev p. same s (λ db. ap (λ d. d.source) (task_updated_footprint ev p db));
  human_requested = λ ev p. same s (λ db. ap (λ d. d.source) (human_requested_footprint ev p db));
  human_responded = λ ev p. same s (λ db. ap (λ d. d.source) (human_responded_footprint ev p db));
  delivery_scheduled =
      λ ev p. same s (λ db. ap (λ d. d.source) (delivery_scheduled_footprint ev p db));
  delivery_canceled =
      λ ev p. same s (λ db. ap (λ d. d.source) (delivery_canceled_footprint ev p db));
  security_key =
      λ ev action. same s (λ db. ap (λ d. d.source) (security_key_footprint ev action db));
  quarantine = λ rel sender seq id reason.
      same s (λ db. ap (λ d. d.source) (quarantine_footprint rel sender seq id reason db));
  sequence = λ rel sender seq at.
      same s (λ db. ap (λ d. d.source) (sequence_footprint rel sender seq at db));
  marks = λ id state. same s (λ db. ap (λ d. d.source) (marks_footprint id state db));
  replies = λ id state. same s (λ db. ap (λ d. d.source) (replies_footprint id state db));
}

wipe-source : (rel : String) (db : Db) → (wipe rel db).source ≡ db.source
unfolding wipe
wipe-source rel db = refl

-- Applying an event, and rebuilding a relationship's projections, leave the log of accepted
-- events, the staged payloads, the relationships and the approvals as they were, whatever the
-- outcome.
pub projections-source :
    (ev : Event) (rel : String) (db : Db)
    → ((apply_event ev db).1.source ≡ db.source)
      × ((rebuild_projections rel db).1.source ≡ db.source)
projections-source ev rel db = (
  (apply_event-Keeps (source-IsKept db.source) ev).at db refl,
  (rebuild_projections-Keeps (source-IsKept db.source) rel (λ d h. wipe-source rel d ∙ h)).at db
      refl,
)
