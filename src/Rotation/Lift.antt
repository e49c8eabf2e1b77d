-- ===== src/Rotation/Lift.antt =====
-- Invariants of the single statements, under every operation.
pub mod Candidate
pub mod Peer
pub mod Cleanup
pub mod All
use muse_agent_social.Prelude.{ℕ, String, Bool, true, false, ◌&&◌, List, ◌≡◌, refl, arith}
use muse_agent_social.Prelude.Action.{modify}
use muse_agent_social.Prelude.ActionLaws.{Keeps, bind-Keeps, if-Keeps, reads-Keeps}
use muse_agent_social.Prelude.Table.{delete, update}
use muse_agent_social.Rotation.Tables.{
  rotating, RotationRow, RotationFault, KeyState, KeyRow, LoggedEpoch, QuarantineRow, Quarantined,
  Reason, Keys, Act, Role, is_live, is_discarded, rotation_of, own_key_of,
}
use muse_agent_social.Rotation.Protocol.{Opening, Advance, seeing_wrap, same_role-eq}
use muse_agent_social.Rotation.Inventory.{insert_key, delete_keys}
use muse_agent_social.Rotation.Rotating.{
  insert_rotation, clear_discarded, set_own_state, live_rotating, see_wrap,
  consume_pending_wrap_seen, advance,
}
use muse_agent_social.Rotation.Gate.{quarantine_in_txn}

-- The tables that an invariant may speak of.
abbrev pub tables : Keys → List LoggedEpoch × List KeyRow × List RotationRow × List QuarantineRow
tables s = (s.events, s.key_epochs, s.key_rotations, s.rotation_quarantine)

abbrev pub SameKey : KeyRow → KeyRow → Type 0
SameKey k l =
    (l.relationship_id ≡ k.relationship_id)
    × (l.epoch ≡ k.epoch)
    × (l.private_key_ref ≡ k.private_key_ref)

pub record IsKept (P : Keys → Type 0) : Type 1 where
  pub other : {A : Type 0} (m : Act A) → ((s : Keys) → tables (m s).1 ≡ tables s) → Keeps P m
  pub rows_updated :
      (p : RotationRow → Bool) (f : RotationRow → RotationRow)
      → ((r : RotationRow) → p r ≡ true → Advance r (f r))
      → (s : Keys) → P s
      → P (record s { key_rotations = update p f s.key_rotations })
  pub rows_deleted :
      (p : RotationRow → Bool)
      → ((r : RotationRow) → p r ≡ true → is_live r.phase ≡ false)
      → (s : Keys) → P s
      → P (record s { key_rotations = delete p s.key_rotations })
  pub row_inserted : (r : RotationRow) → Opening r → Keeps P (insert_rotation r)
  pub key_inserted : (k : KeyRow) → Keeps P (insert_key k)
  pub keys_deleted : (p : KeyRow → Bool) → Keeps P (delete_keys p)
  pub keys_updated :
      (p : KeyRow → Bool) (f : KeyRow → KeyRow)
      → ((k : KeyRow) → SameKey k (f k))
      → (s : Keys) → P s
      → P (record s { key_epochs = update p f s.key_epochs })
  pub quarantined :
      (rid : String) (epoch : ℕ) (reason : Reason) (payload : Quarantined) (now : ℕ)
      → Keeps P (quarantine_in_txn rid epoch reason payload now)
  pub quarantine_deleted :
      (p : QuarantineRow → Bool) (s : Keys)
      → P s
      → P (record s { rotation_quarantine = delete p s.rotation_quarantine })

module _ {P : Keys → Type 0} (k : IsKept P) where
  pub advance-Keeps :
      (p : RotationRow → Bool) (f : RotationRow → RotationRow)
      → ((r : RotationRow) → p r ≡ true → Advance r (f r))
      → Keeps P (advance p f)
  unfolding advance
  advance-Keeps p f h = record { at = k.rows_updated p f h }

  pub clear_discarded-Keeps :
      (rid : String) (epoch : ℕ) (role : Role) → Keeps P (clear_discarded rid epoch role)
  unfolding clear_discarded
  clear_discarded-Keeps rid epoch role = record {
    at =
        k.rows_deleted (λ r. rotation_of rid epoch role r && is_discarded r.phase)
          (λ r h. ground arith);
  }

  pub set_own_state-Keeps :
      (rid : String) (epoch : ℕ) (state : KeyState) → Keeps P (set_own_state rid epoch state)
  unfolding set_own_state
  set_own_state-Keeps rid epoch state = record {
    at =
        k.keys_updated (own_key_of rid epoch) (λ r. record r { state = state })
          (λ r. (refl, refl, refl));
  }

  pub see_wrap-Keeps :
      (rid : String) (epoch : ℕ)
      → Keeps {E = RotationFault} P {A = Unit {0}} (
          modify (λ s. record s {
            key_rotations = update (live_rotating rid epoch) see_wrap s.key_rotations;
          }))
  see_wrap-Keeps rid epoch = record {
    at =
        k.rows_updated (live_rotating rid epoch) see_wrap
          (λ r h. seeing_wrap (same_role-eq r.role rotating (ground arith)) (ground arith) refl);
  }

  pub consume-Keeps : (rid : String) (epoch : ℕ) → Keeps P (consume_pending_wrap_seen rid epoch)
  unfolding consume_pending_wrap_seen
  consume-Keeps rid epoch = bind-Keeps reads-Keeps λ parked.
      bind-Keeps (k.other _ (λ s. refl)) λ _. if-Keeps parked (see_wrap-Keeps rid epoch) reads-Keeps
