-- ===== src/Rotation/Lift/Candidate.antt =====
-- The operations of the rotating side.
use muse_agent_social.Prelude.{
  ℕ, ◌+◌, ◌*◌, ◌<◌, String, Bool, not, ◌||◌, Option, none, some, ◌≡◌, refl, arith, leb, ltb,
}
use muse_agent_social.Prelude.Action.{modify}
use muse_agent_social.Prelude.ActionLaws.{
  Keeps, bind-Keeps, transaction-Keeps, on_error-Keeps, if-Keeps, test-Keeps, split-Keeps,
  reads-Keeps,
}
use muse_agent_social.Prelude.Table.{exists}
use muse_agent_social.Rotation.Tables.{
  rotating, KeyFile, epoch_file, same_file, KeyRow, Ack, Keys, RotationRow, is_candidate,
  is_acknowledged, is_confirmed, is_committed, key_acknowledged, key_active, key_retired, seconds,
  micro,
}
use muse_agent_social.Rotation.Protocol.{
  as_candidate, acknowledging, confirming, committing_rotating, counting, same_role-eq,
  is_candidate-eq, is_acknowledged-eq, is_confirmed-eq, is_committed-eq,
}
use muse_agent_social.Rotation.Inventory.{delete_file, get_relationship}
use muse_agent_social.Rotation.Rotating.{
  store_file, reconcile_orphan_key_file, store_key_file, write_candidate, start_from,
  begin_rotation, note_decrypted_new_wrap, names_other, take_ack, apply_ack, on_ack,
  confirm_payload, build_confirm_payload, move_to_confirmed, mark_row, mark_confirmed,
  confirm_in_flight, confirm_rotation, take_commit, apply_commit, on_commit, count_event,
  note_accepted_event,
}
use muse_agent_social.Rotation.Lift.{
  IsKept, tables, advance-Keeps, clear_discarded-Keeps, set_own_state-Keeps, see_wrap-Keeps,
  consume-Keeps,
}

store_file-same : (file : KeyFile) (s : Keys) → tables (store_file file s).1 ≡ tables s
unfolding store_file
store_file-same file s = ground arith

reconcile-same :
    (rid : String) (epoch : ℕ) (s : Keys)
    → tables (reconcile_orphan_key_file rid epoch s).1 ≡ tables s
unfolding reconcile_orphan_key_file
reconcile-same rid epoch s = ground arith

module _ {P : Keys → Type 0} (k : IsKept P) where
  store_key_file-Keeps : (rid : String) (epoch : ℕ) → Keeps P (store_key_file rid epoch)
  unfolding store_key_file
  store_key_file-Keeps rid epoch =
      split-Keeps (λ s. exists (same_file (epoch_file rid epoch)) s.key_files)
        (bind-Keeps (k.other _ (reconcile-same rid epoch))
          λ _. k.other _ (store_file-same (epoch_file rid epoch)))
        (k.other _ (store_file-same (epoch_file rid epoch)))

  write_candidate-Keeps :
      (fingerprint : String → String) (rid : String) (now : ℕ) (id : Option String)
      (new_pub : String) (epoch : ℕ) (prior : KeyRow)
      → prior.epoch < epoch
      → Keeps P (write_candidate fingerprint rid now id new_pub epoch prior)
  unfolding write_candidate
  write_candidate-Keeps fingerprint rid now id new_pub epoch prior lt =
      bind-Keeps (k.key_inserted _) λ _.
        bind-Keeps (clear_discarded-Keeps k rid epoch rotating)
          λ _. k.row_inserted _ (as_candidate refl refl lt)

  start_from-Keeps :
      (fingerprint : String → String) (rid : String) (now : ℕ) (id : Option String)
      (new_pub : String) (current : ℕ) (prior : Option KeyRow)
      → Keeps P (start_from fingerprint rid now id new_pub current prior)
  unfolding start_from
  start_from-Keeps fingerprint rid now id new_pub current none = reads-Keeps
  start_from-Keeps fingerprint rid now id new_pub current (some prior) =
      test-Keeps (leb (current + 1) prior.epoch) (λ _. reads-Keeps)
        λ low. bind-Keeps (store_key_file-Keeps rid (current + 1)) λ _.
          bind-Keeps
            (on_error-Keeps
              (transaction-Keeps (
                write_candidate-Keeps fingerprint rid now id new_pub (current + 1) prior
                  (ground arith)))
              (k.other (modify (delete_file (epoch_file rid (current + 1)))) (λ s. refl)).at)
            λ _. reads-Keeps

  pub get_relationship-Keeps : (rid : String) → Keeps P (get_relationship rid)
  unfolding get_relationship
  get_relationship-Keeps rid = k.other _ λ s. ground arith

  pub begin_rotation-Keeps :
      (fingerprint : String → String) (rid : String) (now : ℕ) (id : Option String)
      (new_pub : String)
      → Keeps P (begin_rotation fingerprint rid now id new_pub)
  unfolding begin_rotation
  begin_rotation-Keeps fingerprint rid now id new_pub = bind-Keeps (get_relationship-Keeps rid) λ _.
      bind-Keeps reads-Keeps λ busy. bind-Keeps reads-Keeps λ prior.
        bind-Keeps reads-Keeps λ current.
          if-Keeps busy reads-Keeps (start_from-Keeps fingerprint rid now id new_pub current prior)

  pub note_decrypted_new_wrap-Keeps :
      (rid : String) (epoch now : ℕ) → Keeps P (note_decrypted_new_wrap rid epoch now)
  unfolding note_decrypted_new_wrap
  note_decrypted_new_wrap-Keeps rid epoch now = transaction-Keeps (
      bind-Keeps reads-Keeps λ seen.
        bind-Keeps (see_wrap-Keeps k rid epoch)
          λ _. if-Keeps seen reads-Keeps (k.other _ λ s. refl))

  take_ack-Keeps : (rid : String) (epoch now : ℕ) → Keeps P (take_ack rid epoch now)
  unfolding take_ack
  take_ack-Keeps rid epoch now = transaction-Keeps (
      bind-Keeps
        (advance-Keeps k _ _ λ r h.
          acknowledging (seconds now) (same_role-eq r.role rotating (ground arith))
            (is_candidate-eq r.phase (ground arith)) refl)
        λ moved. if-Keeps (not moved) reads-Keeps (
          bind-Keeps (set_own_state-Keeps k rid epoch key_acknowledged)
            λ _. consume-Keeps k rid epoch))

  apply_ack-Keeps :
      (rid : String) (ack : Ack) (now : ℕ) (row : Option RotationRow)
      → Keeps P (apply_ack rid ack now row)
  unfolding apply_ack
  apply_ack-Keeps rid ack now none = reads-Keeps
  apply_ack-Keeps rid ack now (some r) =
      if-Keeps (names_other r.prepare_event_id ack.prepare_event_id) reads-Keeps (
        if-Keeps (is_acknowledged r.phase) (transaction-Keeps (consume-Keeps k rid ack.epoch)) (
          if-Keeps (not (is_candidate r.phase)) reads-Keeps (
            if-Keeps (ltb (r.deadline * micro) now) reads-Keeps
              (take_ack-Keeps rid ack.epoch now))))

  pub on_ack-Keeps : (rid : String) (ack : Ack) (now : ℕ) → Keeps P (on_ack rid ack now)
  unfolding on_ack
  on_ack-Keeps rid ack now = bind-Keeps reads-Keeps λ row. apply_ack-Keeps rid ack now row

  confirm_payload-Keeps : (row : Option RotationRow) → Keeps P (confirm_payload row)
  unfolding confirm_payload
  confirm_payload-Keeps none = reads-Keeps
  confirm_payload-Keeps (some r) =
      if-Keeps (not (is_acknowledged r.phase || is_confirmed r.phase)) reads-Keeps
        (if-Keeps (not r.new_wrap_seen) reads-Keeps reads-Keeps)

  pub build_confirm_payload-Keeps : (rid : String) → Keeps P (build_confirm_payload rid)
  unfolding build_confirm_payload
  build_confirm_payload-Keeps rid = bind-Keeps reads-Keeps confirm_payload-Keeps

  move_to_confirmed-Keeps :
      (rid : String) (epoch now : ℕ) → Keeps P (move_to_confirmed rid epoch now)
  unfolding move_to_confirmed
  move_to_confirmed-Keeps rid epoch now =
      bind-Keeps
        (advance-Keeps k _ _
          λ r h. confirming (seconds now) (is_acknowledged-eq r.phase (ground arith)) refl)
        λ moved. if-Keeps moved reads-Keeps reads-Keeps

  mark_row-Keeps :
      (rid : String) (now : ℕ) (row : Option RotationRow) → Keeps P (mark_row rid now row)
  unfolding mark_row
  mark_row-Keeps rid now none = reads-Keeps
  mark_row-Keeps rid now (some r) = if-Keeps (is_confirmed r.phase) reads-Keeps (
      if-Keeps (not (is_acknowledged r.phase)) reads-Keeps
        (move_to_confirmed-Keeps rid r.epoch now))

  pub mark_confirmed-Keeps : (rid : String) (now : ℕ) → Keeps P (mark_confirmed rid now)
  unfolding mark_confirmed
  mark_confirmed-Keeps rid now =
      transaction-Keeps (bind-Keeps reads-Keeps λ row. mark_row-Keeps rid now row)

  confirm_in_flight-Keeps :
      (rid : String) (now : ℕ) (row : Option RotationRow) → Keeps P (confirm_in_flight rid now row)
  unfolding confirm_in_flight
  confirm_in_flight-Keeps rid now none = reads-Keeps
  confirm_in_flight-Keeps rid now (some r) = if-Keeps (is_confirmed r.phase) reads-Keeps (
      if-Keeps (not (is_acknowledged r.phase)) reads-Keeps (
        if-Keeps (not r.new_wrap_seen) reads-Keeps
          (bind-Keeps (move_to_confirmed-Keeps rid r.epoch now) λ _. reads-Keeps)))

  pub confirm_rotation-Keeps : (rid : String) (now : ℕ) → Keeps P (confirm_rotation rid now)
  unfolding confirm_rotation
  confirm_rotation-Keeps rid now =
      transaction-Keeps (bind-Keeps reads-Keeps λ row. confirm_in_flight-Keeps rid now row)

  take_commit-Keeps :
      (rid : String) (epoch prior_epoch now : ℕ) → Keeps P (take_commit rid epoch prior_epoch now)
  unfolding take_commit
  take_commit-Keeps rid epoch prior_epoch now = transaction-Keeps (
      bind-Keeps
        (advance-Keeps k _ _ λ r h.
          committing_rotating (seconds now) (same_role-eq r.role rotating (ground arith))
            (is_confirmed-eq r.phase (ground arith)) refl)
        λ moved. if-Keeps (not moved) reads-Keeps (
          bind-Keeps (set_own_state-Keeps k rid epoch key_active) λ _.
            bind-Keeps (set_own_state-Keeps k rid prior_epoch key_retired)
              λ _. k.other _ λ s. refl))

  apply_commit-Keeps :
      (rid : String) (epoch now : ℕ) (redelivered : Bool) (row : Option RotationRow)
      → Keeps P (apply_commit rid epoch now redelivered row)
  unfolding apply_commit
  apply_commit-Keeps rid epoch now redelivered none = if-Keeps redelivered reads-Keeps reads-Keeps
  apply_commit-Keeps rid epoch now redelivered (some r) =
      if-Keeps (is_committed r.phase) reads-Keeps (
        if-Keeps (not (is_confirmed r.phase)) reads-Keeps
          (take_commit-Keeps rid epoch r.prior_epoch now))

  pub on_commit-Keeps : (rid : String) (epoch now : ℕ) → Keeps P (on_commit rid epoch now)
  unfolding on_commit
  on_commit-Keeps rid epoch now =
      bind-Keeps reads-Keeps
        λ row. bind-Keeps reads-Keeps λ again. apply_commit-Keeps rid epoch now again row

  count_event-Keeps : (rid : String) (epoch : Option ℕ) → Keeps P (count_event rid epoch)
  unfolding count_event
  count_event-Keeps rid none = reads-Keeps
  count_event-Keeps rid (some epoch) = record {
    at = k.rows_updated _ _ λ r h.
        counting (same_role-eq r.role rotating (ground arith))
          (is_committed-eq r.phase (ground arith)) refl;
  }

  pub note_accepted_event-Keeps : (rid : String) → Keeps P (note_accepted_event rid)
  unfolding note_accepted_event
  note_accepted_event-Keeps rid = bind-Keeps reads-Keeps λ epoch. count_event-Keeps rid epoch
