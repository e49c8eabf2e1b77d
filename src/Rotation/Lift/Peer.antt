-- ===== src/Rotation/Lift/Peer.antt =====
-- The operations of the acking side.
use muse_agent_social.Prelude.{
  ℕ, ◌+◌, ◌*◌, ◌<◌, String, Bool, not, ◌||◌, Option, none, some, ◌≡◌, refl, arith, leb, ltb, nat_eq,
  ◌==◌,
}
use muse_agent_social.Prelude.ActionLaws.{
  Keeps, bind-Keeps, transaction-Keeps, if-Keeps, reads-Keeps,
}
use muse_agent_social.Rotation.Tables.{
  acking, KeyRow, Prepare, Keys, RotationRow, is_acknowledged, is_confirmed, seconds, micro,
}
use muse_agent_social.Rotation.Protocol.{
  as_acking, confirming, committing_acking, same_role-eq, is_acknowledged-eq, is_confirmed-eq,
}
use muse_agent_social.Rotation.Acking.{
  forget_unknown, record_acking_rotation, quarantine_prepare, redelivered_prepare, accept_prepare,
  fresh_prepare, prepare_from, prepare_after, on_prepare, wrap_pair, dual_wrap_from, dual_wrap_keys,
  may_send, take_confirm, apply_confirm, on_confirm, commit_payload, build_commit_payload,
  adopt_peer_key, commit_in_flight, mark_committed, collides,
}
use muse_agent_social.Rotation.Lift.{IsKept, advance-Keeps, clear_discarded-Keeps}
use muse_agent_social.Rotation.Lift.Candidate.{get_relationship-Keeps}

module _ {P : Keys → Type 0} (k : IsKept P) where
  forget_unknown-Keeps : (rid : String) (epoch : ℕ) → Keeps P (forget_unknown rid epoch)
  unfolding forget_unknown
  forget_unknown-Keeps rid epoch =
      bind-Keeps (record { at = k.quarantine_deleted _ }) λ _. k.other _ λ s. refl

  record_acking_rotation-Keeps :
      (rid : String) (new_epoch prior_epoch : ℕ) (p : Prepare) (id : String) (now : ℕ)
      → prior_epoch < new_epoch
      → Keeps P (record_acking_rotation rid new_epoch prior_epoch p id now)
  unfolding record_acking_rotation
  record_acking_rotation-Keeps rid new_epoch prior_epoch p id now lt =
      bind-Keeps (clear_discarded-Keeps k rid new_epoch acking) λ _. bind-Keeps reads-Keeps λ there.
        if-Keeps there reads-Keeps (
          bind-Keeps (k.row_inserted _ (as_acking (seconds now) refl refl refl lt))
            λ _. forget_unknown-Keeps rid new_epoch)

  quarantine_prepare-Keeps :
      (rid : String) (epoch : ℕ) (p : Prepare) (id : String) (now : ℕ)
      → Keeps P (quarantine_prepare rid epoch p id now)
  unfolding quarantine_prepare
  quarantine_prepare-Keeps rid epoch p id now =
      bind-Keeps (transaction-Keeps (k.quarantined _ _ _ _ _)) λ _. reads-Keeps

  redelivered_prepare-Keeps :
      (rid : String) (new_epoch prior_epoch : ℕ) (p : Prepare) (id : String) (now : ℕ)
      (key : KeyRow)
      → prior_epoch < new_epoch
      → Keeps P (redelivered_prepare rid new_epoch prior_epoch p id now key)
  unfolding redelivered_prepare
  redelivered_prepare-Keeps rid new_epoch prior_epoch p id now key lt =
      if-Keeps (not (key.public_key == p.new_agreement_key))
        (quarantine_prepare-Keeps rid new_epoch p id now)
        (bind-Keeps
          (transaction-Keeps (record_acking_rotation-Keeps rid new_epoch prior_epoch p id now lt))
          λ _. reads-Keeps)

  accept_prepare-Keeps :
      (rid : String) (new_epoch prior_epoch : ℕ) (p : Prepare) (id : String) (now : ℕ)
      → prior_epoch < new_epoch
      → Keeps P (accept_prepare rid new_epoch prior_epoch p id now)
  unfolding accept_prepare
  accept_prepare-Keeps rid new_epoch prior_epoch p id now lt =
      bind-Keeps
        (transaction-Keeps (
          bind-Keeps (k.key_inserted _)
            λ _. record_acking_rotation-Keeps rid new_epoch prior_epoch p id now lt))
        λ _. reads-Keeps

  fresh_prepare-Keeps :
      (rid : String) (new_epoch prior_epoch : ℕ) (p : Prepare) (id : String) (now : ℕ)
      → prior_epoch < new_epoch
      → Keeps P (fresh_prepare rid new_epoch prior_epoch p id now)
  unfolding fresh_prepare
  fresh_prepare-Keeps rid new_epoch prior_epoch p id now lt = bind-Keeps reads-Keeps λ newest.
      bind-Keeps reads-Keeps λ mine. bind-Keeps reads-Keeps λ row. bind-Keeps reads-Keeps λ current.
        bind-Keeps reads-Keeps λ busy. if-Keeps (not (nat_eq prior_epoch newest)) reads-Keeps (
          if-Keeps mine
            (if-Keeps (collides row) (quarantine_prepare-Keeps rid new_epoch p id now) reads-Keeps)
            (if-Keeps (leb new_epoch current) reads-Keeps (
              if-Keeps busy reads-Keeps (
                if-Keeps (ltb (p.deadline * micro) now) reads-Keeps
                  (accept_prepare-Keeps rid new_epoch prior_epoch p id now lt)))))

  prepare_from-Keeps :
      (rid : String) (p : Prepare) (id : String) (now prior : ℕ) (existing : Option KeyRow)
      → Keeps P (prepare_from rid p id now prior existing)
  unfolding prepare_from
  prepare_from-Keeps rid p id now prior (some key) =
      redelivered_prepare-Keeps rid (prior + 1) prior p id now key (omega arith)
  prepare_from-Keeps rid p id now prior none =
      fresh_prepare-Keeps rid (prior + 1) prior p id now (omega arith)

  prepare_after-Keeps :
      (rid : String) (p : Prepare) (id : String) (now : ℕ) (prior : Option ℕ)
      → Keeps P (prepare_after rid p id now prior)
  unfolding prepare_after
  prepare_after-Keeps rid p id now none = reads-Keeps
  prepare_after-Keeps rid p id now (some prior) =
      bind-Keeps reads-Keeps λ existing. prepare_from-Keeps rid p id now prior existing

  pub on_prepare-Keeps :
      (fingerprint : String → String) (rid : String) (p : Prepare) (id : String) (now : ℕ)
      → Keeps P (on_prepare fingerprint rid p id now)
  unfolding on_prepare
  on_prepare-Keeps fingerprint rid p id now =
      bind-Keeps (get_relationship-Keeps k rid)
        λ _. bind-Keeps reads-Keeps λ prior. prepare_after-Keeps rid p id now prior

  wrap_pair-same :
      (prior epoch : ℕ) (old new : Option String) (s : Keys)
      → (wrap_pair prior epoch old new s).1 ≡ s
  unfolding wrap_pair
  wrap_pair-same prior epoch (some o) (some n) s = refl
  wrap_pair-same prior epoch (some o) none s = refl
  wrap_pair-same prior epoch none (some n) s = refl
  wrap_pair-same prior epoch none none s = refl

  dual_wrap_from-Keeps :
      (rid : String) (row : Option RotationRow) → Keeps P (dual_wrap_from rid row)
  unfolding dual_wrap_from
  dual_wrap_from-Keeps rid none = reads-Keeps
  dual_wrap_from-Keeps rid (some r) =
      if-Keeps (not (is_acknowledged r.phase || is_confirmed r.phase)) reads-Keeps
        (bind-Keeps reads-Keeps λ keys. k.other _ λ s. rw (wrap_pair-same _ _ _ _ s) refl)

  pub dual_wrap_keys-Keeps : (rid : String) → Keeps P (dual_wrap_keys rid)
  unfolding dual_wrap_keys
  dual_wrap_keys-Keeps rid = bind-Keeps reads-Keeps λ row. dual_wrap_from-Keeps rid row

  pub may_send-Keeps : (rid : String) (now : ℕ) → Keeps P (may_send rid now)
  unfolding may_send
  may_send-Keeps rid now = k.other _ λ s. ground arith

  take_confirm-Keeps : (rid : String) (epoch now : ℕ) → Keeps P (take_confirm rid epoch now)
  unfolding take_confirm
  take_confirm-Keeps rid epoch now = transaction-Keeps (
      bind-Keeps
        (advance-Keeps k _ _
          λ r h. confirming (seconds now) (is_acknowledged-eq r.phase (ground arith)) refl)
        λ moved. if-Keeps moved reads-Keeps reads-Keeps)

  apply_confirm-Keeps :
      (rid : String) (epoch now : ℕ) (row : Option RotationRow)
      → Keeps P (apply_confirm rid epoch now row)
  unfolding apply_confirm
  apply_confirm-Keeps rid epoch now none = reads-Keeps
  apply_confirm-Keeps rid epoch now (some r) =
      if-Keeps (is_confirmed r.phase) reads-Keeps
        (if-Keeps (not (is_acknowledged r.phase)) reads-Keeps (take_confirm-Keeps rid epoch now))

  pub on_confirm-Keeps : (rid : String) (epoch now : ℕ) → Keeps P (on_confirm rid epoch now)
  unfolding on_confirm
  on_confirm-Keeps rid epoch now =
      bind-Keeps reads-Keeps λ row. apply_confirm-Keeps rid epoch now row

  commit_payload-Keeps :
      (row : Option RotationRow) (latest : Option ℕ) → Keeps P (commit_payload row latest)
  unfolding commit_payload
  commit_payload-Keeps row latest = k.other _ λ s. ground arith

  pub build_commit_payload-Keeps : (rid : String) → Keeps P (build_commit_payload rid)
  unfolding build_commit_payload
  build_commit_payload-Keeps rid =
      bind-Keeps reads-Keeps λ row. bind-Keeps reads-Keeps λ latest. commit_payload-Keeps row latest

  adopt_peer_key-Keeps :
      (rid : String) (epoch : ℕ) (key : String) → Keeps P (adopt_peer_key rid epoch key)
  unfolding adopt_peer_key
  adopt_peer_key-Keeps rid epoch key =
      bind-Keeps (record { at = k.keys_updated _ _ (λ r. (refl, refl, refl)) })
        λ _. k.other _ λ s. refl

  commit_in_flight-Keeps :
      (rid : String) (now : ℕ) (again : Bool) (row : Option RotationRow)
      → Keeps P (commit_in_flight rid now again row)
  unfolding commit_in_flight
  commit_in_flight-Keeps rid now again none = if-Keeps again reads-Keeps reads-Keeps
  commit_in_flight-Keeps rid now again (some r) =
      if-Keeps (not (is_confirmed r.phase)) reads-Keeps (
        bind-Keeps
          (advance-Keeps k _ _ λ x h.
            committing_acking (seconds now) (same_role-eq x.role acking (ground arith))
              (is_confirmed-eq x.phase (ground arith)) refl)
          λ moved. if-Keeps moved (adopt_peer_key-Keeps rid r.epoch r.new_public_key) reads-Keeps)

  pub mark_committed-Keeps : (rid : String) (now : ℕ) → Keeps P (mark_committed rid now)
  unfolding mark_committed
  mark_committed-Keeps rid now = transaction-Keeps (
      bind-Keeps reads-Keeps
        λ row. bind-Keeps reads-Keeps λ again. commit_in_flight-Keeps rid now again row)
