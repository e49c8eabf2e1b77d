-- ===== src/Tests/Ceremony.antt =====
-- Key rotations on concrete tables.
use muse_agent_social.Prelude.{
  ℕ, String, true, false, none, some, List, [], ◌∷◌, ◌++◌, ◌+◌, ◌*◌, ◌≡◌, ◌⊎◌, refl, arith, All,
  length,
}
use muse_agent_social.Prelude.Table.{find, exists, select, count}
use muse_agent_social.Prelude.Action.{◌>>=◌, transaction, done, raised}
use muse_agent_social.Rotation.Tables.{
  rotating, candidate, acknowledged, committed, Ack, Relationship, Prepare, file_exists,
  RotationRow, epoch_file, own_key, key_active, KeyRow, Keys, rotation_error, future_epoch_rejected,
  micro,
}
use muse_agent_social.Rotation.Inventory.{
  rotation, max_own, own_epochs, delete_keys, relationship_of, peer_key_epochs,
}
use muse_agent_social.Rotation.Operations.{
  Op, beginning, acked, wrap_decrypted, confirm_sent, commit_received, data_event, sweeping, run,
}
use muse_agent_social.Rotation.Gate.{on_data_event_epoch}
use muse_agent_social.Rotation.Sweep.{
  sweep, compact_tables, ago, is_superseded, compact_peer_key_epochs, is_outdated_peer_key,
  claim_timed_out, first_timed_out, claim_row, report, retire_old_keys, retire_all, retire_if,
  retire_in_txn,
}
use muse_agent_social.Rotation.Retired.{sweep-newest}
use muse_agent_social.Rotation.Standing.{sweep-in_flight}
use muse_agent_social.Rotation.Conflicts.{own_file, delete_path}
use muse_agent_social.Rotation.Queued.{IsBounded, run-IsBounded}
use muse_agent_social.Rotation.WellFormed.{IsWellFormed, run-AreWellFormed}
use muse_agent_social.Rotation.Tombstones.{arrivals, on_data_event_epoch-rejected}
use muse_agent_social.Rotation.Ceremony.{after_wrap, after_confirm, ceremony-IsCommitted}
use muse_agent_social.Rotation.Stages.{IsCommitted}
use muse_agent_social.Rotation.Guards.{IsStored, IsTimely, on_prepare-done}
use muse_agent_social.Rotation.Begun.{without_files, begin_rotation-fails}
use muse_agent_social.Rotation.Acking.{ack_of, prior_of, on_prepare}
use muse_agent_social.Rotation.Rotating.{on_ack, confirm_rotation, on_commit, begin_rotation}

-- A key is its own fingerprint.
abbrev itself : String → String
itself key = key

abbrev own_row : ℕ → String → KeyRow
own_row epoch key = record {
  relationship_id = "r";
  epoch = epoch;
  public_key = key;
  private_key_ref = own_key (epoch_file "r" epoch);
  state = key_active;
}

-- After pairing: one own key of epoch 1, the peer's key beside it, and an event logged under it.
abbrev paired : Keys
paired = record {
  relationships =
      record { relationship_id = "r"; peer_agreement_key = some "P1"; key_epoch = 1 } ∷ [];
  key_epochs = own_row 1 "A1" ∷ [];
  key_rotations = [];
  rotation_quarantine = [];
  next_id = 1;
  first_seen = [];
  wrap_seen_pending = [];
  events = record { relationship_id = "r"; key_epoch = 1 } ∷ [];
  security_key_events = [];
  key_files = epoch_file "r" 1 ∷ [];
}

abbrev start : ℕ
start = 63800000000 * micro

abbrev ceremony : List Op
ceremony =
    beginning "r" start none "A2"
    ∷ acked "r" (record { epoch = 2; prepare_event_id = "p" }) (start + 60 * micro)
    ∷ wrap_decrypted "r" 2 (start + 70 * micro)
    ∷ confirm_sent "r" (start + 80 * micro)
    ∷ commit_received "r" 2 (start + 90 * micro)
    ∷ []

abbrev busy : List Op
busy =
    ceremony
    ++ data_event "r" 7 start ∷ data_event "r" 8 start ∷ sweeping (start + 200000 * micro) ∷ []

-- A hundred events after the commit, the sweep meets the key of epoch 1, which the log names.
abbrev renewed : RotationRow
renewed = record {
  relationship_id = "r";
  epoch = 2;
  role = rotating;
  phase = committed;
  prior_epoch = 1;
  prior_fingerprint = "A1";
  new_public_key = "A2";
  prepare_event_id = none;
  prepared_at = 63800000000;
  acknowledged_at = some 63800000060;
  confirmed_at = some 63800000080;
  committed_at = some 63800000090;
  deadline = 63800086400;
  new_wrap_seen = true;
  accepted_events_since_commit = 100;
}

abbrev after_hundred : Keys
after_hundred = record paired {
  key_epochs = own_row 1 "A1" ∷ own_row 2 "A2" ∷ [];
  key_rotations = renewed ∷ [];
}

-- No event was logged before the rotation, so that the old key can go.
abbrev unlogged : Keys
unlogged = record after_hundred { events = [] }

sweep-newest_example :
    max_own (own_epochs "r" (sweep (start + 200000 * micro) unlogged).1)
    ≡ max_own (own_epochs "r" unlogged)
unfolding exists
sweep-newest_example =
    sweep-newest "r" (start + 200000 * micro) unlogged ((omega arith, refl, refl), tt) refl

one_key_left : length (sweep (start + 200000 * micro) unlogged).1.key_epochs ≡ 1
unfolding sweep compact_tables ◌>>=◌ ago is_superseded compact_peer_key_epochs delete_keys
    is_outdated_peer_key claim_timed_out first_timed_out claim_row report retire_old_keys retire_all
    retire_if retire_in_txn delete_path own_file transaction exists select find count
one_key_left = refl

run-IsBounded_example : IsBounded (run itself busy paired)
unfolding count
run-IsBounded_example = run-IsBounded itself busy paired (λ rid. omega arith)

run-AreWellFormed_example : All IsWellFormed (run itself busy paired).key_rotations
run-AreWellFormed_example = run-AreWellFormed itself busy paired tt

-- A forged epoch that was first seen more than a day ago.
abbrev haunted : Keys
haunted = record paired {
  first_seen =
      record { relationship_id = "r"; epoch = 9; first_seen_at = 63700000000; rejected = false }
      ∷ [];
}

on_data_event_epoch-rejected_example :
    (on_data_event_epoch "r" 9 (start + micro) (
      arrivals
        (("r", 8, start) ∷ ("r", 9, start) ∷ [])
        (on_data_event_epoch "r" 9 start haunted).1)).0
    ≡ raised (rotation_error future_epoch_rejected)
unfolding on_data_event_epoch ◌>>=◌ select find transaction exists
on_data_event_epoch-rejected_example =
    on_data_event_epoch-rejected "r" 9 start haunted (("r", 8, start) ∷ ("r", 9, start) ∷ [])
      (start + micro) refl

-- A candidate in flight for epoch 2.
abbrev offered : RotationRow
offered = record renewed {
  phase = candidate;
  acknowledged_at = none;
  confirmed_at = none;
  committed_at = none;
  new_wrap_seen = false;
  accepted_events_since_commit = 0;
}

abbrev offering : Keys
offering = record after_hundred { key_rotations = offered ∷ [] }

-- Acknowledged, and past the deadline when the sweep runs.
abbrev slow : RotationRow
slow = record offered { phase = acknowledged; acknowledged_at = some 63800000060 }

sweep-in_flight_example :
    rotation "r" 2 rotating
      (sweep (start + 200000 * micro) (record after_hundred { key_rotations = slow ∷ [] })).1
    ≡ some slow
unfolding rotation find
sweep-in_flight_example =
    sweep-in_flight "r" 2 rotating slow (start + 200000 * micro)
      (record after_hundred { key_rotations = slow ∷ [] }) refl refl refl

abbrev answer : Ack
answer = record { epoch = 2; prepare_event_id = "p" }

abbrev one_relationship : Relationship
one_relationship = record { relationship_id = "r"; peer_agreement_key = some "P1"; key_epoch = 1 }

ceremony-IsCommitted_example :
    let end = on_commit "r" 2 (start + 90 * micro) (
      after_confirm "r" answer
        (start + 60 * micro)
        (start + 70 * micro)
        (start + 80 * micro)
        offering) in
    ((on_ack "r" answer (start + 60 * micro) offering).0 ≡ done tt)
    × ((confirm_rotation "r"
          (start + 80 * micro)
          (after_wrap "r" answer (start + 60 * micro) (start + 70 * micro) offering)).0
        ≡ done 2)
    × (end.0 ≡ done tt)
    × IsCommitted "r" 2 end.1
    × (on_commit "r" 2 (start + 95 * micro) end.1 ≡ (done tt, end.1))
unfolding find relationship_of
ceremony-IsCommitted_example =
    ceremony-IsCommitted "r" answer offered one_relationship (start + 60 * micro)
      (start + 70 * micro) (start + 80 * micro) (start + 90 * micro) (start + 95 * micro) offering
      (refl, refl) refl refl refl refl

abbrev proposal : Prepare
proposal = record { deadline = 63800086400; new_agreement_key = "P2"; prior_fingerprint = "P1" }

on_prepare-done_example :
    (prior : ℕ) × (prior_of itself "P1" (peer_key_epochs "r" paired) ≡ some prior)
    × (answer ≡ ack_of (prior + 1) "p")
    × (IsStored "r" (prior + 1) proposal paired
        ⊎ IsTimely "r" (prior + 1) prior proposal start paired)
unfolding on_prepare ◌>>=◌ find select exists transaction
on_prepare-done_example = on_prepare-done itself "r" proposal "p" start paired answer refl

-- The file of epoch 2 is there, and belongs to a rotation that is committed.
abbrev owned : Keys
owned = record paired {
  key_rotations = renewed ∷ [];
  key_files = epoch_file "r" 1 ∷ epoch_file "r" 2 ∷ [];
}

begin_rotation-fails_example :
    without_files (begin_rotation itself "r" start none "A3" owned).1 ≡ without_files owned
unfolding begin_rotation ◌>>=◌ find exists select
begin_rotation-fails_example =
    begin_rotation-fails itself "r" start none "A3" owned file_exists refl
