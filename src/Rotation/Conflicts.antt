-- ===== src/Rotation/Conflicts.antt =====
-- `_discard_candidate` and `resolve_quarantine`.
use muse_agent_social.Prelude.{
  ℕ, zero, suc, String, Bool, true, false, not, ◌&&◌, Option, none, some, List, [], ◌∷◌, ◌==◌,
  nat_eq, if◌then◌else◌,
}
use muse_agent_social.Prelude.Action.{◌>>=◌, ◌>>◌, pure, throw, gets, modify, transaction}
use muse_agent_social.Prelude.Table.{find, delete}
use muse_agent_social.Rotation.Tables.{
  rotating, discarded, RotationRow, KeyFile, Ack, QuarantineRow, Quarantined, prepared, epoch_only,
  Reason, conflicting_prepare, Keys, bad_quarantine_index, bad_choice, not_resolvable, type_error,
  Act, Phase, is_live, rotation_of, own_key_of,
}
use muse_agent_social.Rotation.Inventory.{refuse, delete_keys, delete_file, file_of}
use muse_agent_social.Rotation.Rotating.{advance}
use muse_agent_social.Rotation.Gate.{list_quarantine}
use muse_agent_social.Rotation.Acking.{on_prepare}

abbrev pub discard_row : RotationRow → RotationRow
discard_row r = record r { phase = discarded }

-- The file of the own key for the epoch.
unfoldable pub own_file : String → ℕ → Keys → Option KeyFile
own_file rid epoch s = elim (find (own_key_of rid epoch) s.key_epochs) [
  | none ↦ none
  | some k ↦ file_of k
]

-- `may_discard` is the predicate on the phase. The result is (claimed, key_path).
unfoldable pub discard_candidate : (Phase → Bool) → String → ℕ → Act (Bool × Option KeyFile)
unfolding own_file advance delete_keys
discard_candidate may_discard rid epoch = do
  file ← gets (own_file rid epoch)
  claimed ← advance (λ r. rotation_of rid epoch rotating r && may_discard r.phase) discard_row
  if not claimed
      then pure (false, none)
      else do delete_keys (own_key_of rid epoch); pure (true, file)

unfoldable pub delete_path : Option KeyFile → Act (Unit {0})
delete_path none = pure tt
delete_path (some file) = modify (delete_file file)

unfoldable pub drop_entry : ℕ → Act (Unit {0})
drop_entry id =
    modify
      (λ s. record s { rotation_quarantine = delete (λ q. nat_eq q.id id) s.rotation_quarantine })

unfoldable pub entry_at : ℕ → List QuarantineRow → Option QuarantineRow
entry_at n [] = none
entry_at zero (q ∷ qs) = some q
entry_at (suc n) (q ∷ qs) = entry_at n qs

abbrev pub is_conflict : Reason → Bool
is_conflict conflicting_prepare = true
is_conflict _ = false

module _ (fingerprint : String → String) (rid : String) (now : ℕ) where
  unfoldable pub process_theirs : Quarantined → Act Ack
  process_theirs (prepared p prepare_event_id) = on_prepare fingerprint rid p prepare_event_id now
  process_theirs (epoch_only _) = throw type_error

  unfoldable pub choose_theirs : QuarantineRow → Act (Option Ack)
  unfolding discard_candidate delete_path process_theirs drop_entry
  choose_theirs entry = do
    (claimed, file) ← transaction (discard_candidate is_live rid entry.epoch)
    delete_path file
    ack ← process_theirs entry.payload
    transaction (drop_entry entry.id)
    pure (some ack)

  unfoldable pub resolve_entry : String → Option QuarantineRow → Act (Option Ack)
  unfolding choose_theirs drop_entry
  resolve_entry choice none = refuse bad_quarantine_index
  resolve_entry choice (some entry) =
      if not (choice == "mine") && not (choice == "theirs")
      then refuse bad_choice
      else if not (is_conflict entry.reason)
      then refuse not_resolvable
      else if choice == "theirs"
      then choose_theirs entry
      else do transaction (drop_entry entry.id); pure none

  -- `none` is the index below 0.
  unfoldable pub resolve_quarantine : Option ℕ → String → Act (Option Ack)
  unfolding resolve_entry list_quarantine entry_at
  resolve_quarantine none choice = refuse bad_quarantine_index
  resolve_quarantine (some index) choice = do
    entry ← gets (λ s. entry_at index (list_quarantine rid s))
    resolve_entry choice entry
