-- ===== src/Rotation/Sweep.antt =====
-- `sweep` with its compactions.
use muse_agent_social.Prelude.{
  ℕ, ◌+◌, ◌-◌, ◌*◌, String, Bool, true, false, not, ◌&&◌, ◌||◌, Option, none, some, List, [], ◌∷◌,
  ◌==◌, ltb, leb, if◌then◌else◌,
}
use muse_agent_social.Prelude.Action.{◌>>=◌, ◌>>◌, pure, throw, gets, modify, transaction}
use muse_agent_social.Prelude.Table.{exists, select, count, delete}
use muse_agent_social.Rotation.Tables.{
  rotating, RotationRow, KeyFile, KeyRow, Reason, unknown_future_epoch_rejected, no_ack_timeout,
  overflow_error, type_error, Act, micro, seconds, rotation_window, same_role, is_own, is_candidate,
  is_committed, rotation_of, own_key_of,
}
use muse_agent_social.Rotation.Inventory.{delete_keys}
use muse_agent_social.Rotation.Conflicts.{own_file, discard_candidate, delete_path}

abbrev pub day : ℕ
day = 24 * 3600 * micro

abbrev pub quarantine_rejected_retention : ℕ
quarantine_rejected_retention = 30 * day

abbrev pub committed_retention : ℕ
committed_retention = 30 * day

abbrev pub peer_key_epoch_retain_newest : ℕ
peer_key_epoch_retain_newest = 2

abbrev pub security_key_event_retention : ℕ
security_key_event_retention = 90 * day

abbrev pub old_key_retention : ℕ
old_key_retention = 24 * 3600 * micro

abbrev pub old_key_event_limit : ℕ
old_key_event_limit = 100

-- `_ts(now - span)`: an OverflowError before the year 1.
unfoldable pub ago : ℕ → ℕ → Act ℕ
ago now span = if leb span now then pure (seconds (now - span)) else throw overflow_error

abbrev pub is_rejected_reason : Reason → Bool
is_rejected_reason unknown_future_epoch_rejected = true
is_rejected_reason _ = false

-- Committed at `limit` or before; a row with no time is kept.
abbrev pub old_commit : ℕ → RotationRow → Bool
old_commit limit r =
    is_committed r.phase && elim r.committed_at [ none ↦ false | some at ↦ leb at limit ]

-- A committed row of the same relationship and role with a later epoch.
abbrev pub supersedes : RotationRow → RotationRow → Bool
supersedes r q =
    is_committed q.phase
    && q.relationship_id == r.relationship_id
    && same_role q.role r.role
    && ltb r.epoch q.epoch

-- The rows that `_compact_committed_rotations` deletes.
unfoldable pub is_superseded : ℕ → List RotationRow → RotationRow → Bool
is_superseded limit all r = old_commit limit r && exists (supersedes r) all

abbrev pub newer_peer : KeyRow → KeyRow → Bool
newer_peer k q = q.relationship_id == k.relationship_id && not (is_own q) && ltb k.epoch q.epoch

-- The peer keys below the two newest of their relationship. The source deletes them one
-- relationship after the other, in one transaction.
unfoldable pub is_outdated_peer_key : List KeyRow → KeyRow → Bool
is_outdated_peer_key all k =
    not (is_own k) && leb peer_key_epoch_retain_newest (count (newer_peer k) all)

unfoldable pub compact_peer_key_epochs : Act (Unit {0})
unfolding delete_keys is_outdated_peer_key
compact_peer_key_epochs = do all ← gets (λ s. s.key_epochs); delete_keys (is_outdated_peer_key all)

unfoldable pub compact_tables : ℕ → Act (Unit {0})
unfolding ago compact_peer_key_epochs
compact_tables now = transaction (do
  rejected_limit ← ago now quarantine_rejected_retention
  modify (λ s. record s {
    rotation_quarantine =
        delete (λ q. is_rejected_reason q.reason && leb q.received_at rejected_limit)
          s.rotation_quarantine;
  })
  pending_limit ← ago now rotation_window
  modify (λ s. record s {
    wrap_seen_pending = delete (λ w. leb w.seen_at pending_limit) s.wrap_seen_pending;
  })
  committed_limit ← ago now committed_retention
  all ← gets (λ s. s.key_rotations)
  modify
      (λ s. record s { key_rotations = delete (is_superseded committed_limit all) s.key_rotations })
  compact_peer_key_epochs
  ceremony_limit ← ago now security_key_event_retention
  modify (λ s. record s {
    security_key_events =
        delete (λ c. elim c.received_at [ none ↦ false | some at ↦ leb at ceremony_limit ])
          s.security_key_events;
  }))

abbrev pub timed_out : ℕ → RotationRow → Bool
timed_out now r = same_role r.role rotating && is_candidate r.phase && leb r.deadline (seconds now)

-- ORDER BY deadline LIMIT 1
unfoldable pub first_timed_out : ℕ → List RotationRow → Option RotationRow
first_timed_out now [] = none
first_timed_out now (r ∷ rs) =
    let later = first_timed_out now rs in
    if timed_out now r
    then elim later [
      | none ↦ some r
      | some q ↦ if ltb q.deadline r.deadline then some q else some r
    ]
    else later

unfoldable pub claim_row : Option RotationRow → Act (Option (String × ℕ × Option KeyFile))
unfolding discard_candidate
claim_row none = pure none
claim_row (some r) = do
  (claimed, file) ← discard_candidate is_candidate r.relationship_id r.epoch
  pure (if claimed then some (r.relationship_id, r.epoch, file) else none)

unfoldable pub claim_timed_out : ℕ → Act (Option (String × ℕ × Option KeyFile))
unfolding claim_row first_timed_out
claim_timed_out now =
    transaction (do row ← gets (λ s. first_timed_out now s.key_rotations); claim_row row)

unfoldable pub report : Option (String × ℕ × Option KeyFile) → Act (Unit {0})
unfolding delete_path
report none = pure tt
report (some (rid, epoch, file)) = do delete_path file; throw (no_ack_timeout rid epoch)

-- Old enough, or a hundred events since; `none` is the TypeError of a row with no time.
abbrev pub is_due : ℕ → RotationRow → Option Bool
is_due now r = elim r.committed_at [
  | none ↦ none
  | some at ↦ some (
      leb (at * micro + old_key_retention) now
      || leb old_key_event_limit r.accepted_events_since_commit)
]

-- The old key goes only where the new epoch's own key is there.
unfoldable pub retire_in_txn : RotationRow → Act (Option KeyFile)
unfolding own_file delete_keys
retire_in_txn r = do
  new_key ← gets (λ s. exists (own_key_of r.relationship_id r.epoch) s.key_epochs)
  old_file ← gets (own_file r.relationship_id r.prior_epoch)
  if not new_key then pure none else do
    delete_keys (own_key_of r.relationship_id r.prior_epoch)
    modify (λ s. record s {
      key_rotations =
          delete (λ q. rotation_of r.relationship_id r.epoch rotating q && is_committed q.phase)
            s.key_rotations;
    })
    pure old_file

unfoldable pub retire_if : Option Bool → RotationRow → Act (Unit {0})
unfolding retire_in_txn delete_path
retire_if none r = throw type_error
retire_if (some due) r =
    if due then (do file ← transaction (retire_in_txn r); delete_path file) else pure tt

unfoldable pub retire_all : ℕ → List RotationRow → Act (Unit {0})
unfolding retire_if
retire_all now [] = pure tt
retire_all now (r ∷ rs) = do retire_if (is_due now r) r; retire_all now rs

unfoldable pub retire_old_keys : ℕ → Act (Unit {0})
unfolding retire_all
retire_old_keys now = do
  rows ← gets (λ s. select (λ r. same_role r.role rotating && is_committed r.phase) s.key_rotations)
  retire_all now rows

unfoldable pub sweep : ℕ → Act (Unit {0})
unfolding compact_tables claim_timed_out report retire_old_keys
sweep now = do
  compact_tables now
  claimed ← claim_timed_out now
  report claimed
  retire_old_keys now
