-- ===== src/Rotation/Lift/Cleanup.antt =====
-- The gate, `resolve_quarantine` and `sweep`.
use muse_agent_social.Prelude.{
  ℕ, String, Bool, true, false, not, ◌&&◌, Option, none, some, List, [], ◌∷◌, ◌≡◌, refl, arith, leb,
  ◌==◌,
}
use muse_agent_social.Prelude.ActionLaws.{
  Keeps, bind-Keeps, transaction-Keeps, if-Keeps, reads-Keeps,
}
use muse_agent_social.Rotation.Tables.{
  rotating, KeyFile, QuarantineRow, Quarantined, prepared, epoch_only, Keys, RotationRow, Phase,
  is_live, is_candidate,
}
use muse_agent_social.Rotation.Protocol.{discarding, same_role-eq}
use muse_agent_social.Rotation.Gate.{record_unknown, on_data_event_epoch}
use muse_agent_social.Rotation.Conflicts.{
  discard_candidate, delete_path, drop_entry, process_theirs, choose_theirs, resolve_entry,
  resolve_quarantine, is_conflict,
}
use muse_agent_social.Rotation.Sweep.{
  ago, is_superseded, compact_peer_key_epochs, compact_tables, claim_row, claim_timed_out, report,
  retire_in_txn, retire_if, retire_all, retire_old_keys, sweep, is_due,
}
use muse_agent_social.Rotation.Lift.{IsKept, advance-Keeps}
use muse_agent_social.Rotation.Lift.Peer.{on_prepare-Keeps}

module _ {P : Keys → Type 0} (k : IsKept P) where
  record_unknown-Keeps : (rid : String) (epoch now : ℕ) → Keeps P (record_unknown rid epoch now)
  unfolding record_unknown
  record_unknown-Keeps rid epoch now = bind-Keeps (k.other _ λ s. refl) λ _.
      bind-Keeps reads-Keeps λ rejected.
        bind-Keeps (if-Keeps rejected (k.other _ λ s. refl) reads-Keeps)
          λ _. bind-Keeps (k.quarantined _ _ _ _ _) λ _. reads-Keeps

  pub on_data_event_epoch-Keeps :
      (rid : String) (epoch now : ℕ) → Keeps P (on_data_event_epoch rid epoch now)
  unfolding on_data_event_epoch
  on_data_event_epoch-Keeps rid epoch now = bind-Keeps reads-Keeps λ known.
      if-Keeps (leb epoch known) reads-Keeps (
        bind-Keeps (transaction-Keeps (record_unknown-Keeps rid epoch now))
          λ rejected. if-Keeps rejected reads-Keeps reads-Keeps)

  discard_candidate-Keeps :
      (may_discard : Phase → Bool)
      → ((p : Phase) → may_discard p ≡ true → is_live p ≡ true)
      → (rid : String) (epoch : ℕ) → Keeps P (discard_candidate may_discard rid epoch)
  unfolding discard_candidate
  discard_candidate-Keeps may_discard live rid epoch = bind-Keeps reads-Keeps λ file.
      bind-Keeps
        (advance-Keeps k _ _ λ r h.
          discarding (same_role-eq r.role rotating (ground arith)) (live r.phase (ground arith))
            refl)
        λ claimed.
          if-Keeps (not claimed) reads-Keeps (bind-Keeps (k.keys_deleted _) λ _. reads-Keeps)

  delete_path-Keeps : (file : Option KeyFile) → Keeps P (delete_path file)
  unfolding delete_path
  delete_path-Keeps none = reads-Keeps
  delete_path-Keeps (some file) = k.other _ λ s. refl

  drop_entry-Keeps : (id : ℕ) → Keeps P (drop_entry id)
  unfolding drop_entry
  drop_entry-Keeps id = record { at = k.quarantine_deleted _ }

  module _ (fingerprint : String → String) (rid : String) (now : ℕ) where
    process_theirs-Keeps :
        (payload : Quarantined) → Keeps P (process_theirs fingerprint rid now payload)
    unfolding process_theirs
    process_theirs-Keeps (prepared p id) = on_prepare-Keeps k fingerprint rid p id now
    process_theirs-Keeps (epoch_only epoch) = reads-Keeps

    choose_theirs-Keeps :
        (entry : QuarantineRow) → Keeps P (choose_theirs fingerprint rid now entry)
    unfolding choose_theirs
    choose_theirs-Keeps entry =
        bind-Keeps (transaction-Keeps (discard_candidate-Keeps is_live (λ p h. h) rid entry.epoch))
          λ claim. bind-Keeps (delete_path-Keeps claim.1) λ _.
            bind-Keeps (process_theirs-Keeps entry.payload)
              λ ack. bind-Keeps (transaction-Keeps (drop_entry-Keeps entry.id)) λ _. reads-Keeps

    resolve_entry-Keeps :
        (choice : String) (entry : Option QuarantineRow)
        → Keeps P (resolve_entry fingerprint rid now choice entry)
    unfolding resolve_entry
    resolve_entry-Keeps choice none = reads-Keeps
    resolve_entry-Keeps choice (some entry) =
        if-Keeps (not (choice == "mine") && not (choice == "theirs")) reads-Keeps (
          if-Keeps (not (is_conflict entry.reason)) reads-Keeps (
            if-Keeps (choice == "theirs") (choose_theirs-Keeps entry)
              (bind-Keeps (transaction-Keeps (drop_entry-Keeps entry.id)) λ _. reads-Keeps)))

    pub resolve_quarantine-Keeps :
        (index : Option ℕ) (choice : String)
        → Keeps P (resolve_quarantine fingerprint rid now index choice)
    unfolding resolve_quarantine
    resolve_quarantine-Keeps none choice = reads-Keeps
    resolve_quarantine-Keeps (some index) choice =
        bind-Keeps reads-Keeps λ entry. resolve_entry-Keeps choice entry

  ago-Keeps : (now span : ℕ) → Keeps P (ago now span)
  unfolding ago
  ago-Keeps now span = if-Keeps (leb span now) reads-Keeps reads-Keeps

  compact_peer_key_epochs-Keeps : Keeps P compact_peer_key_epochs
  unfolding compact_peer_key_epochs
  compact_peer_key_epochs-Keeps = bind-Keeps reads-Keeps λ all. k.keys_deleted _

  is_superseded-dead :
      (limit : ℕ) (all : List RotationRow) (r : RotationRow)
      → is_superseded limit all r ≡ true
      → is_live r.phase ≡ false
  unfolding is_superseded
  is_superseded-dead limit all r h = ground arith

  pub compact_tables-Keeps : (now : ℕ) → Keeps P (compact_tables now)
  unfolding compact_tables
  compact_tables-Keeps now = transaction-Keeps (
      bind-Keeps (ago-Keeps _ _) λ _.
        bind-Keeps (record { at = k.quarantine_deleted _ })
          λ _. bind-Keeps (ago-Keeps _ _) λ _. bind-Keeps (k.other _ λ s. refl) λ _.
            bind-Keeps (ago-Keeps _ _) λ limit. bind-Keeps reads-Keeps λ all.
              bind-Keeps (record { at = k.rows_deleted _ (is_superseded-dead limit all) })
                λ _.
                  bind-Keeps compact_peer_key_epochs-Keeps
                    λ _. bind-Keeps (ago-Keeps _ _) λ _. k.other _ λ s. refl)

  claim_row-Keeps : (row : Option RotationRow) → Keeps P (claim_row row)
  unfolding claim_row
  claim_row-Keeps none = reads-Keeps
  claim_row-Keeps (some r) =
      bind-Keeps
        (discard_candidate-Keeps is_candidate (λ p h. ground arith) r.relationship_id r.epoch)
        λ _. reads-Keeps

  claim_timed_out-Keeps : (now : ℕ) → Keeps P (claim_timed_out now)
  unfolding claim_timed_out
  claim_timed_out-Keeps now = transaction-Keeps (bind-Keeps reads-Keeps λ row. claim_row-Keeps row)

  report-Keeps : (claimed : Option (String × ℕ × Option KeyFile)) → Keeps P (report claimed)
  unfolding report
  report-Keeps none = reads-Keeps
  report-Keeps (some (rid, epoch, file)) = bind-Keeps (delete_path-Keeps file) λ _. reads-Keeps

  retire_in_txn-Keeps : (r : RotationRow) → Keeps P (retire_in_txn r)
  unfolding retire_in_txn
  retire_in_txn-Keeps r = bind-Keeps reads-Keeps λ new_key. bind-Keeps reads-Keeps λ old_file.
      if-Keeps (not new_key) reads-Keeps (
        bind-Keeps (k.keys_deleted _)
          λ _. bind-Keeps (record { at = k.rows_deleted _ (λ q h. ground arith) }) λ _. reads-Keeps)

  retire_if-Keeps : (due : Option Bool) (r : RotationRow) → Keeps P (retire_if due r)
  unfolding retire_if
  retire_if-Keeps none r = reads-Keeps
  retire_if-Keeps (some due) r =
      if-Keeps due
        (bind-Keeps (transaction-Keeps (retire_in_txn-Keeps r)) λ file. delete_path-Keeps file)
        reads-Keeps

  retire_all-Keeps : (now : ℕ) (rows : List RotationRow) → Keeps P (retire_all now rows)
  unfolding retire_all
  retire_all-Keeps now [] = reads-Keeps
  retire_all-Keeps now (r ∷ rs) =
      bind-Keeps (retire_if-Keeps (is_due now r) r) λ _. retire_all-Keeps now rs

  pub sweep-Keeps : (now : ℕ) → Keeps P (sweep now)
  unfolding sweep retire_old_keys
  sweep-Keeps now = bind-Keeps (compact_tables-Keeps now) λ _.
      bind-Keeps (claim_timed_out-Keeps now) λ claimed.
        bind-Keeps (report-Keeps claimed)
          λ _. bind-Keeps reads-Keeps λ rows. retire_all-Keeps now rows
