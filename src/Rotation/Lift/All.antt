-- ===== src/Rotation/Lift/All.antt =====
-- Every operation, and every run of operations.
use muse_agent_social.Prelude.{String, List, [], ◌∷◌}
use muse_agent_social.Prelude.ActionLaws.{Keeps, bind-Keeps, reads-Keeps}
use muse_agent_social.Rotation.Tables.{Keys, Act}
use muse_agent_social.Rotation.Operations.{
  Op, beginning, acked, wrap_decrypted, confirm_built, marked_confirmed, confirm_sent,
  commit_received, event_accepted, prepare_received, wrap_keys_read, sending, confirm_received,
  commit_built, marked_committed, data_event, resolving, sweeping, perform, run, ignored,
}
use muse_agent_social.Rotation.Lift.{IsKept}
use muse_agent_social.Rotation.Lift.Candidate.{
  begin_rotation-Keeps, on_ack-Keeps, note_decrypted_new_wrap-Keeps, build_confirm_payload-Keeps,
  mark_confirmed-Keeps, confirm_rotation-Keeps, on_commit-Keeps, note_accepted_event-Keeps,
}
use muse_agent_social.Rotation.Lift.Peer.{
  on_prepare-Keeps, dual_wrap_keys-Keeps, may_send-Keeps, on_confirm-Keeps,
  build_commit_payload-Keeps, mark_committed-Keeps,
}
use muse_agent_social.Rotation.Lift.Cleanup.{
  on_data_event_epoch-Keeps, resolve_quarantine-Keeps, sweep-Keeps,
}

module _ {P : Keys → Type 0} (k : IsKept P) (fingerprint : String → String) where
  ignored-Keeps : {A : Type 0} {m : Act A} → Keeps P m → Keeps P (ignored m)
  ignored-Keeps km = bind-Keeps km λ _. reads-Keeps

  pub perform-Keeps : (op : Op) → Keeps P (perform fingerprint op)
  unfolding perform
  perform-Keeps (beginning rid now id new_pub) =
      ignored-Keeps (begin_rotation-Keeps k fingerprint rid now id new_pub)
  perform-Keeps (acked rid ack now) = on_ack-Keeps k rid ack now
  perform-Keeps (wrap_decrypted rid epoch now) = note_decrypted_new_wrap-Keeps k rid epoch now
  perform-Keeps (confirm_built rid now) = ignored-Keeps (build_confirm_payload-Keeps k rid)
  perform-Keeps (marked_confirmed rid now) = mark_confirmed-Keeps k rid now
  perform-Keeps (confirm_sent rid now) = ignored-Keeps (confirm_rotation-Keeps k rid now)
  perform-Keeps (commit_received rid epoch now) = on_commit-Keeps k rid epoch now
  perform-Keeps (event_accepted rid) = note_accepted_event-Keeps k rid
  perform-Keeps (prepare_received rid p id now) =
      ignored-Keeps (on_prepare-Keeps k fingerprint rid p id now)
  perform-Keeps (wrap_keys_read rid) = ignored-Keeps (dual_wrap_keys-Keeps k rid)
  perform-Keeps (sending rid now) = may_send-Keeps k rid now
  perform-Keeps (confirm_received rid epoch now) = on_confirm-Keeps k rid epoch now
  perform-Keeps (commit_built rid now) = ignored-Keeps (build_commit_payload-Keeps k rid)
  perform-Keeps (marked_committed rid now) = mark_committed-Keeps k rid now
  perform-Keeps (data_event rid epoch now) = on_data_event_epoch-Keeps k rid epoch now
  perform-Keeps (resolving rid now index choice) =
      ignored-Keeps (resolve_quarantine-Keeps k fingerprint rid now index choice)
  perform-Keeps (sweeping now) = sweep-Keeps k now

  pub run-IsKept : (ops : List Op) (s : Keys) → P s → P (run fingerprint ops s)
  unfolding run
  run-IsKept [] s h = h
  run-IsKept (op ∷ ops) s h =
      run-IsKept ops (perform fingerprint op s).1 ((perform-Keeps op).at s h)
