-- ===== src/Rotation/WellFormed.antt =====
-- The well-formedness of the rows of `key_rotations`, under the operations of `RotationManager`.
use muse_agent_social.Prelude.{
  ℕ, ◌<◌, String, Bool, true, false, not, ◌&&◌, Option, none, some, List, [], ◌∷◌, ◌≡◌, refl, arith,
  All, Bool-cases, inl, inr,
}
use muse_agent_social.Prelude.ActionLaws.{view-Keeps}
use muse_agent_social.Prelude.Table.{exists, update}
use muse_agent_social.Prelude.TableLaws.{All-insert, All-select}
use muse_agent_social.Rotation.Tables.{
  Role, rotating, Phase, candidate, acknowledged, confirmed, committed, discarded, RotationRow,
  KeyRow, Keys, rotation_of, same_role,
}
use muse_agent_social.Rotation.Protocol.{
  Opening, as_candidate, as_acking, Advance, acknowledging, confirming, committing_rotating,
  committing_acking, discarding, seeing_wrap, counting,
}
use muse_agent_social.Rotation.Rotating.{insert_rotation}
use muse_agent_social.Rotation.Gate.{quarantine_in_txn}
use muse_agent_social.Rotation.Operations.{Op, run}
use muse_agent_social.Rotation.Lift.{IsKept, tables}
use muse_agent_social.Rotation.Inventory.{insert_key, delete_keys}
use muse_agent_social.Rotation.Lift.All.{run-IsKept}

abbrev pub is_set : Option ℕ → Bool
is_set none = false
is_set (some at) = true

-- Does a row of the phase carry its times: acknowledged_at, confirmed_at, committed_at?
abbrev pub stamped : Phase → Option ℕ → Option ℕ → Option ℕ → Bool
stamped candidate ack conf comm = true
stamped acknowledged ack conf comm = is_set ack
stamped confirmed ack conf comm = is_set ack && is_set conf
stamped committed ack conf comm = is_set ack && is_set conf && is_set comm
stamped discarded ack conf comm = true

-- An acking row is never a candidate and never discarded.
abbrev pub may_be : Role → Phase → Bool
may_be role candidate = same_role role rotating
may_be role acknowledged = true
may_be role confirmed = true
may_be role committed = true
may_be role discarded = same_role role rotating

abbrev pub IsWellFormed : RotationRow → Type 0
IsWellFormed r =
    (r.prior_epoch < r.epoch)
    × (stamped r.phase r.acknowledged_at r.confirmed_at r.committed_at ≡ true)
    × (may_be r.role r.phase ≡ true)

Opening-IsWellFormed : (r : RotationRow) → Opening r → IsWellFormed r
Opening-IsWellFormed r (as_candidate role phase lt) = (lt, rw phase refl, rw (phase, role) refl)
Opening-IsWellFormed r (as_acking at role phase ack lt) = (lt, rw (phase, ack) refl, rw phase refl)

Advance-IsWellFormed : (r q : RotationRow) → Advance r q → IsWellFormed r → IsWellFormed q
Advance-IsWellFormed r q (acknowledging at role phase e) h = rw e (h.0, refl, refl)
Advance-IsWellFormed r q (confirming at phase e) h =
    let t = rw phase at h.1 in rw e (h.0, ground (arith, t), refl)
Advance-IsWellFormed r q (committing_rotating at role phase e) h =
    let t = rw phase at h.1 in rw e (h.0, ground (arith, t), refl)
Advance-IsWellFormed r q (committing_acking at role phase e) h =
    let t = rw phase at h.1 in rw e (h.0, ground (arith, t), refl)
Advance-IsWellFormed r q (discarding role live e) h = rw e (h.0, refl, rw role refl)
Advance-IsWellFormed r q (seeing_wrap role live e) h = rw e h
Advance-IsWellFormed r q (counting role phase e) h = rw e h

update-AreWellFormed :
    (p : RotationRow → Bool) (f : RotationRow → RotationRow)
    → ((r : RotationRow) → p r ≡ true → Advance r (f r))
    → (rows : List RotationRow) → All IsWellFormed rows
    → All IsWellFormed (update p f rows)
unfolding update
update-AreWellFormed p f step [] h = tt
update-AreWellFormed p f step (r ∷ rs) h = elim (Bool-cases (p r)) [
  | inl e ↦ rw e (Advance-IsWellFormed r (f r) (step r e) h.0, h.1)
  | inr e ↦ rw e (h.0, update-AreWellFormed p f step rs h.1)
]

insert_rotation-AreWellFormed :
    (r : RotationRow)
    → Opening r
    → (s : Keys) → All IsWellFormed s.key_rotations
    → All IsWellFormed (insert_rotation r s).1.key_rotations
unfolding insert_rotation
insert_rotation-AreWellFormed r opening s h =
    elim (Bool-cases (exists (rotation_of r.relationship_id r.epoch r.role) s.key_rotations)) [
      | inl e ↦ rw e h
      | inr e ↦ rw e (All-insert IsWellFormed s.key_rotations r h (Opening-IsWellFormed r opening))
    ]

insert_key-same : (key : KeyRow) (s : Keys) → (insert_key key s).1.key_rotations ≡ s.key_rotations
unfolding insert_key
insert_key-same key s = ground arith

delete_keys-same :
    (p : KeyRow → Bool) (s : Keys) → (delete_keys p s).1.key_rotations ≡ s.key_rotations
unfolding delete_keys
delete_keys-same p s = ground arith

AreWellFormed-IsKept : IsKept (λ s. All IsWellFormed s.key_rotations)
unfolding quarantine_in_txn
AreWellFormed-IsKept = record {
  other = λ m same. view-Keeps {view = tables} (λ t. All IsWellFormed t.2) same;
  rows_updated = λ p f step s. update-AreWellFormed p f step s.key_rotations;
  rows_deleted = λ p dead s. All-select IsWellFormed (λ r. not (p r)) s.key_rotations;
  row_inserted = λ r o. record { at = insert_rotation-AreWellFormed r o };
  key_inserted =
      λ k. view-Keeps {view = λ s. s.key_rotations} (All IsWellFormed) (insert_key-same k);
  keys_deleted =
      λ p. view-Keeps {view = λ s. s.key_rotations} (All IsWellFormed) (delete_keys-same p);
  keys_updated = λ p f same s h. h;
  quarantined = λ rid epoch reason payload now. record { at = λ s h. h };
  quarantine_deleted = λ p s h. h;
}

-- Whatever operations run, every row of `key_rotations` stays well-formed: its epoch is later than
-- its prior epoch, it carries the time of each phase that it has passed, and an acking row is
-- neither a candidate nor discarded.
pub run-AreWellFormed :
    (fingerprint : String → String) (ops : List Op) (s : Keys)
    → All IsWellFormed s.key_rotations
    → All IsWellFormed (run fingerprint ops s).key_rotations
run-AreWellFormed fingerprint = run-IsKept AreWellFormed-IsKept fingerprint
