-- ===== src/Rotation/Operations.antt =====
-- The operations of `RotationManager` as one type, and runs of them.
use muse_agent_social.Prelude.{ℕ, String, Option, List, [], ◌∷◌}
use muse_agent_social.Prelude.Action.{◌>>=◌, pure}
use muse_agent_social.Rotation.Tables.{Keys, Prepare, Ack, Act}
use muse_agent_social.Rotation.Rotating.{
  begin_rotation, note_decrypted_new_wrap, on_ack, build_confirm_payload, mark_confirmed,
  confirm_rotation, on_commit, note_accepted_event,
}
use muse_agent_social.Rotation.Gate.{on_data_event_epoch}
use muse_agent_social.Rotation.Acking.{
  on_prepare, dual_wrap_keys, may_send, on_confirm, build_commit_payload, mark_committed,
}
use muse_agent_social.Rotation.Conflicts.{resolve_quarantine}
use muse_agent_social.Rotation.Sweep.{sweep}

-- `beginning` carries the public half of the key pair that the call draws.
pub data Op : Type 0 where
  beginning : String → ℕ → Option String → String → Op
  acked : String → Ack → ℕ → Op
  wrap_decrypted : String → ℕ → ℕ → Op
  confirm_built marked_confirmed confirm_sent : String → ℕ → Op
  commit_received : String → ℕ → ℕ → Op
  event_accepted : String → Op
  prepare_received : String → Prepare → String → ℕ → Op
  wrap_keys_read : String → Op
  sending : String → ℕ → Op
  confirm_received : String → ℕ → ℕ → Op
  commit_built marked_committed : String → ℕ → Op
  data_event : String → ℕ → ℕ → Op
  resolving : String → ℕ → Option ℕ → String → Op
  sweeping : ℕ → Op

abbrev pub ignored : {A : Type 0} → Act A → Act (Unit {0})
ignored m = m >>= λ _. pure tt

module _ (fingerprint : String → String) where
  unfoldable pub perform : Op → Act (Unit {0})
  perform (beginning rid now id new_pub) = ignored (begin_rotation fingerprint rid now id new_pub)
  perform (acked rid ack now) = on_ack rid ack now
  perform (wrap_decrypted rid epoch now) = note_decrypted_new_wrap rid epoch now
  perform (confirm_built rid now) = ignored (build_confirm_payload rid)
  perform (marked_confirmed rid now) = mark_confirmed rid now
  perform (confirm_sent rid now) = ignored (confirm_rotation rid now)
  perform (commit_received rid epoch now) = on_commit rid epoch now
  perform (event_accepted rid) = note_accepted_event rid
  perform (prepare_received rid p id now) = ignored (on_prepare fingerprint rid p id now)
  perform (wrap_keys_read rid) = ignored (dual_wrap_keys rid)
  perform (sending rid now) = may_send rid now
  perform (confirm_received rid epoch now) = on_confirm rid epoch now
  perform (commit_built rid now) = ignored (build_commit_payload rid)
  perform (marked_committed rid now) = mark_committed rid now
  perform (data_event rid epoch now) = on_data_event_epoch rid epoch now
  perform (resolving rid now index choice) =
      ignored (resolve_quarantine fingerprint rid now index choice)
  perform (sweeping now) = sweep now

  -- One operation after the other, whatever each of them ends with.
  unfoldable pub run : List Op → Keys → Keys
  run [] s = s
  run (op ∷ ops) s = run ops (perform op s).1
