-- ===== src/Rotation/Tables.antt =====
-- The tables and the key files that `RotationManager` reads and writes. A stored time is a number of
-- whole seconds, as its canonical text names it; a time of the clock is a number of microseconds.
use muse_agent_social.Prelude.{
  ℕ, String, Bool, true, false, ◌&&◌, ◌*◌, ◌/◌, ◌==◌, nat_eq, Option, List,
}
use muse_agent_social.Prelude.Action.{Action}

pub data Role : Type 0 where
  rotating acking : Role

pub data Phase : Type 0 where
  candidate acknowledged confirmed committed discarded : Phase

pub record RotationRow : Type 0 where
  pub relationship_id : String
  pub epoch : ℕ
  pub role : Role
  pub phase : Phase
  pub prior_epoch : ℕ
  pub prior_fingerprint : String
  pub new_public_key : String
  pub prepare_event_id : Option String
  pub prepared_at : ℕ
  pub acknowledged_at : Option ℕ
  pub confirmed_at : Option ℕ
  pub committed_at : Option ℕ
  pub deadline : ℕ
  pub new_wrap_seen : Bool
  pub accepted_events_since_commit : ℕ

-- `{relationship_id}-e{epoch}.key` under the keys directory, or a path that pairing chose.
pub data KeyFile : Type 0 where
  epoch_file : String → ℕ → KeyFile
  pairing_file : String → KeyFile

-- `private_key_ref`: the word `peer`, or the path of an own key.
pub data KeyRef : Type 0 where
  peer_key : KeyRef
  own_key : KeyFile → KeyRef

pub data KeyState : Type 0 where
  key_candidate key_acknowledged key_confirmed key_active key_retired : KeyState

pub record KeyRow : Type 0 where
  pub relationship_id : String
  pub epoch : ℕ
  pub public_key : String
  pub private_key_ref : KeyRef
  pub state : KeyState

pub record Relationship : Type 0 where
  pub relationship_id : String
  pub peer_agreement_key : Option String
  pub key_epoch : ℕ

-- The payload of `security.key.prepare`; its deadline is canonical.
pub record Prepare : Type 0 where
  pub deadline : ℕ
  pub new_agreement_key : String
  pub prior_fingerprint : String

pub record Ack : Type 0 where
  pub epoch : ℕ
  pub prepare_event_id : String

pub data Reason : Type 0 where
  conflicting_prepare unknown_future_epoch unknown_future_epoch_rejected : Reason

-- `payload`: a quarantined prepare with its event id, or the epoch alone.
pub data Quarantined : Type 0 where
  prepared : Prepare → String → Quarantined
  epoch_only : ℕ → Quarantined

pub record QuarantineRow : Type 0 where
  pub id : ℕ
  pub relationship_id : String
  pub epoch : ℕ
  pub reason : Reason
  pub payload : Quarantined
  pub received_at : ℕ

pub record FirstSeen : Type 0 where
  pub relationship_id : String
  pub epoch : ℕ
  pub first_seen_at : ℕ
  pub rejected : Bool

pub record WrapSeen : Type 0 where
  pub relationship_id : String
  pub epoch : ℕ
  pub seen_at : ℕ

-- The columns of `events` that reference `key_epochs`.
pub record LoggedEpoch : Type 0 where
  pub relationship_id : String
  pub key_epoch : ℕ

-- A row of `security_key_events`, with the `received_at` of its payload where that is staged.
pub record CeremonyRow : Type 0 where
  pub event_id : String
  pub received_at : Option ℕ

-- `next_id` is the AUTOINCREMENT counter of `rotation_quarantine`.
pub record Keys : Type 0 where
  pub relationships : List Relationship
  pub key_epochs : List KeyRow
  pub key_rotations : List RotationRow
  pub rotation_quarantine : List QuarantineRow
  pub next_id : ℕ
  pub first_seen : List FirstSeen
  pub wrap_seen_pending : List WrapSeen
  pub events : List LoggedEpoch
  pub security_key_events : List CeremonyRow
  pub key_files : List KeyFile

-- The codes of `RotationError`.
pub data RotationCode : Type 0 where
  unknown_relationship rotation_in_flight no_own_key stale_prior : RotationCode
  nothing_to_confirm no_new_wrap_seen nothing_to_commit : RotationCode
  unknown_prior_fingerprint two_keys stale_prior_fingerprint stale_epoch prepare_expired :
      RotationCode
  no_acknowledged_rotation peer_key_missing send_paused_acknowledged : RotationCode
  future_epoch future_epoch_rejected : RotationCode
  bad_quarantine_index bad_choice not_resolvable : RotationCode

-- What an operation raises: `RotationError` and its subclasses, `FileExistsError`,
-- `sqlite3.IntegrityError`, an `OverflowError` of the clock, or a TypeError or KeyError.
pub data RotationFault : Type 0 where
  rotation_error : RotationCode → RotationFault
  confirm_rejected : RotationFault
  no_ack_timeout : String → ℕ → RotationFault
  file_exists integrity_error overflow_error type_error : RotationFault

abbrev pub Act : Type 0 → Type 0
Act = Action Keys RotationFault

abbrev pub micro : ℕ
micro = 1000000

-- `_ts`
abbrev pub seconds : ℕ → ℕ
seconds now = now / micro

-- ROTATION_WINDOW, in microseconds.
abbrev pub rotation_window : ℕ
rotation_window = 24 * 3600 * micro

abbrev pub same_role : Role → Role → Bool
same_role rotating rotating = true
same_role acking acking = true
same_role _ _ = false

abbrev pub same_file : KeyFile → KeyFile → Bool
same_file (epoch_file r n) (epoch_file s m) = r == s && nat_eq n m
same_file (pairing_file p) (pairing_file q) = p == q
same_file _ _ = false

abbrev pub is_own : KeyRow → Bool
is_own k = elim k.private_key_ref [ peer_key ↦ false | own_key _ ↦ true ]

-- `phase NOT IN ('committed', 'discarded')`
abbrev pub is_live : Phase → Bool
is_live committed = false
is_live discarded = false
is_live _ = true

abbrev pub is_candidate : Phase → Bool
is_candidate candidate = true
is_candidate _ = false

abbrev pub is_acknowledged : Phase → Bool
is_acknowledged acknowledged = true
is_acknowledged _ = false

abbrev pub is_confirmed : Phase → Bool
is_confirmed confirmed = true
is_confirmed _ = false

abbrev pub is_committed : Phase → Bool
is_committed committed = true
is_committed _ = false

abbrev pub is_discarded : Phase → Bool
is_discarded discarded = true
is_discarded _ = false

-- The primary key of `key_rotations`.
abbrev pub rotation_of : String → ℕ → Role → RotationRow → Bool
rotation_of rid epoch role r =
    r.relationship_id == rid && nat_eq r.epoch epoch && same_role r.role role

abbrev pub key_of : String → ℕ → KeyRow → Bool
key_of rid epoch k = k.relationship_id == rid && nat_eq k.epoch epoch

abbrev pub own_key_of : String → ℕ → KeyRow → Bool
own_key_of rid epoch k = key_of rid epoch k && is_own k
