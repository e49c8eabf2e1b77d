-- ===== src/Rotation/Protocol.antt =====
-- The protocol of one rotation row: how a row may begin, and how it may go on.
use muse_agent_social.Prelude.{ℕ, ◌+◌, ◌<◌, true, some, ◌≡◌, refl, arith}
use muse_agent_social.Rotation.Tables.{
  Role, rotating, acking, Phase, candidate, acknowledged, confirmed, committed, discarded,
  RotationRow, same_role, is_live, is_candidate, is_acknowledged, is_confirmed, is_committed,
}

-- A new row: a candidate of the rotating side, or an acknowledged row of the acking side.
pub data Opening (r : RotationRow) : Type 0 where
  as_candidate : r.role ≡ rotating → r.phase ≡ candidate → r.prior_epoch < r.epoch → Opening r
  as_acking :
      (at : ℕ)
      → r.role ≡ acking
      → r.phase ≡ acknowledged
      → r.acknowledged_at ≡ some at
      → r.prior_epoch < r.epoch
      → Opening r

-- One step of a row.
pub data Advance (x y : RotationRow) : Type 0 where
  acknowledging :
      (at : ℕ)
      → x.role ≡ rotating
      → x.phase ≡ candidate
      → y ≡ record x { phase = acknowledged; acknowledged_at = some at }
      → Advance x y
  confirming :
      (at : ℕ)
      → x.phase ≡ acknowledged
      → y ≡ record x { phase = confirmed; confirmed_at = some at }
      → Advance x y
  committing_rotating :
      (at : ℕ)
      → x.role ≡ rotating
      → x.phase ≡ confirmed
      → y ≡ record x { phase = committed; committed_at = some at; accepted_events_since_commit = 0 }
      → Advance x y
  committing_acking :
      (at : ℕ)
      → x.role ≡ acking
      → x.phase ≡ confirmed
      → y ≡ record x { phase = committed; committed_at = some at }
      → Advance x y
  discarding :
      x.role ≡ rotating → is_live x.phase ≡ true → y ≡ record x { phase = discarded } → Advance x y
  seeing_wrap :
      x.role ≡ rotating
      → is_live x.phase ≡ true
      → y ≡ record x { new_wrap_seen = true }
      → Advance x y
  counting :
      x.role ≡ rotating
      → x.phase ≡ committed
      → y ≡ record x { accepted_events_since_commit = x.accepted_events_since_commit + 1 }
      → Advance x y

pub same_role-eq : (a b : Role) → same_role a b ≡ true → a ≡ b
same_role-eq rotating rotating h = refl
same_role-eq acking acking h = refl
same_role-eq rotating acking h = ground arith
same_role-eq acking rotating h = ground arith

pub is_candidate-eq : (p : Phase) → is_candidate p ≡ true → p ≡ candidate
is_candidate-eq p h = ground arith

pub is_acknowledged-eq : (p : Phase) → is_acknowledged p ≡ true → p ≡ acknowledged
is_acknowledged-eq p h = ground arith

pub is_confirmed-eq : (p : Phase) → is_confirmed p ≡ true → p ≡ confirmed
is_confirmed-eq p h = ground arith

pub is_committed-eq : (p : Phase) → is_committed p ≡ true → p ≡ committed
is_committed-eq p h = ground arith
