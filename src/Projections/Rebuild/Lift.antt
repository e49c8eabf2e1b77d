-- ===== src/Projections/Rebuild/Lift.antt =====
-- Invariants of the handlers and the wipe, under `rebuild_projections`.
use muse_agent_social.Prelude.{String, not, List, [], ◌∷◌, nat_eq}
use muse_agent_social.Store.Events.{Event}
use muse_agent_social.Store.Tables.{Db}
use muse_agent_social.Store.Keeps.{
  Keeps, bind-Keeps, catch-Keeps, transaction-Keeps, if-Keeps, reads-Keeps,
}
use muse_agent_social.Projections.Apply.Lift.{IsKept, apply_inner-Keeps}
use muse_agent_social.Projections.Rebuild.{
  replay_one, replay, received_or, wipe, rebuild_body, rebuild_projections,
}

module _ {P : Db → Type 0} (k : IsKept P) where
  replay_one-Keeps : (ev : Event) (now : String) → Keeps P (replay_one ev now)
  unfolding replay_one
  replay_one-Keeps ev now =
      catch-Keeps
        (bind-Keeps (apply_inner-Keeps k ev (received_or ev.received_at now)) (λ _. reads-Keeps))
        λ code.
          bind-Keeps (k.quarantine ev.relationship_id ev.sender ev.sender_seq ev.event_id code)
            (λ _. reads-Keeps)

  replay-Keeps : (evs : List Event) (now : String) → Keeps P (replay evs now)
  unfolding replay
  replay-Keeps [] now = reads-Keeps
  replay-Keeps (ev ∷ evs) now = bind-Keeps (replay_one-Keeps ev now) (λ _. replay-Keeps evs now)

  pub rebuild_projections-Keeps :
      (rel : String) → ((db : Db) → P db → P (wipe rel db)) → Keeps P (rebuild_projections rel)
  unfolding rebuild_projections rebuild_body
  rebuild_projections-Keeps rel wiped = transaction-Keeps (
      bind-Keeps reads-Keeps λ now. bind-Keeps reads-Keeps λ n.
        if-Keeps (not (nat_eq n 0)) reads-Keeps (
          bind-Keeps (record { at = wiped })
            λ _. bind-Keeps reads-Keeps (λ evs. replay-Keeps evs now)))
