-- ===== src/Rotation/Rotating.antt =====
-- The rotating side: `begin_rotation`, `on_ack`, `note_decrypted_new_wrap`, the confirm and `on_commit`.
use muse_agent_social.Prelude.{
  ℕ, ◌+◌, ◌*◌, String, Bool, true, false, not, ◌&&◌, ◌||◌, Option, none, some, ◌==◌, nat_eq, ltb,
  leb, if◌then◌else◌,
}
use muse_agent_social.Prelude.Action.{◌>>=◌, ◌>>◌, pure, throw, gets, modify, transaction, on_error}
use muse_agent_social.Prelude.Table.{exists, delete, insert, update, upsert}
use muse_agent_social.Rotation.Tables.{
  Role, rotating, candidate, acknowledged, confirmed, committed, RotationRow, KeyFile, epoch_file,
  own_key, KeyState, key_candidate, key_acknowledged, key_active, key_retired, KeyRow, Prepare, Ack,
  WrapSeen, Keys, rotation_in_flight, no_own_key, stale_prior, nothing_to_confirm, no_new_wrap_seen,
  confirm_rejected, file_exists, integrity_error, Act, micro, seconds, rotation_window, same_file,
  is_live, is_candidate, is_acknowledged, is_confirmed, is_committed, is_discarded, rotation_of,
  own_key_of,
}
use muse_agent_social.Rotation.Inventory.{
  refuse, relationship_of, own_epochs, newest, current_epoch, rotation, in_flight, in_flight_as,
  get_relationship, insert_key, delete_file,
}

-- INSERT INTO key_rotations
unfoldable pub insert_rotation : RotationRow → Act (Unit {0})
insert_rotation row s =
    if exists (rotation_of row.relationship_id row.epoch row.role) s.key_rotations
    then (throw integrity_error) s
    else modify (λ t. record t { key_rotations = insert row t.key_rotations }) s

-- DELETE FROM key_rotations … AND phase='discarded'
unfoldable pub clear_discarded : String → ℕ → Role → Act (Unit {0})
clear_discarded rid epoch role = modify (λ s. record s {
  key_rotations =
      delete (λ r. rotation_of rid epoch role r && is_discarded r.phase) s.key_rotations;
})

-- UPDATE key_epochs SET state=? … AND private_key_ref != 'peer'
unfoldable pub set_own_state : String → ℕ → KeyState → Act (Unit {0})
set_own_state rid epoch state = modify (λ s. record s {
  key_epochs = update (own_key_of rid epoch) (λ k. record k { state = state }) s.key_epochs;
})

-- `store_private_key` refuses to overwrite.
unfoldable pub store_file : KeyFile → Act (Unit {0})
store_file file s =
    if exists (same_file file) s.key_files
    then (throw file_exists) s
    else modify (λ t. record t { key_files = insert file t.key_files }) s

abbrev pub is_there : Option RotationRow → Bool
is_there none = false
is_there (some r) = not (is_discarded r.phase)

-- Live state owns the file, or it is an orphan of a crashed attempt.
unfoldable pub reconcile_orphan_key_file : String → ℕ → Act (Unit {0})
unfolding rotation
reconcile_orphan_key_file rid epoch s =
    if exists (own_key_of rid epoch) s.key_epochs || is_there (rotation rid epoch rotating s)
    then (throw file_exists) s
    else modify (delete_file (epoch_file rid epoch)) s

-- `except FileExistsError: reconcile, and store again`
unfoldable pub store_key_file : String → ℕ → Act (Unit {0})
unfolding store_file reconcile_orphan_key_file
store_key_file rid epoch s =
    if exists (same_file (epoch_file rid epoch)) s.key_files
    then (reconcile_orphan_key_file rid epoch >> store_file (epoch_file rid epoch)) s
    else store_file (epoch_file rid epoch) s

abbrev pub new_candidate :
    (String → String) → String → ℕ → Option String → String → ℕ → KeyRow → RotationRow
new_candidate fingerprint rid now prepare_event_id new_pub new_epoch prior = record {
  relationship_id = rid;
  epoch = new_epoch;
  role = rotating;
  phase = candidate;
  prior_epoch = prior.epoch;
  prior_fingerprint = fingerprint prior.public_key;
  new_public_key = new_pub;
  prepare_event_id = prepare_event_id;
  prepared_at = seconds now;
  acknowledged_at = none;
  confirmed_at = none;
  committed_at = none;
  deadline = seconds (now + rotation_window);
  new_wrap_seen = false;
  accepted_events_since_commit = 0;
}

module _ (fingerprint : String → String) where
  abbrev pub prepare_of : ℕ → String → KeyRow → Prepare
  prepare_of now new_pub prior = record {
    deadline = seconds (now + rotation_window);
    new_agreement_key = new_pub;
    prior_fingerprint = fingerprint prior.public_key;
  }

  unfoldable pub write_candidate : String → ℕ → Option String → String → ℕ → KeyRow → Act (Unit {0})
  unfolding insert_key clear_discarded insert_rotation
  write_candidate rid now prepare_event_id new_pub new_epoch prior = do
    insert_key (record {
      relationship_id = rid;
      epoch = new_epoch;
      public_key = new_pub;
      private_key_ref = own_key (epoch_file rid new_epoch);
      state = key_candidate;
    })
    clear_discarded rid new_epoch rotating
    insert_rotation (new_candidate fingerprint rid now prepare_event_id new_pub new_epoch prior)

  unfoldable pub start_from :
      String → ℕ → Option String → String → ℕ → Option KeyRow → Act (ℕ × Prepare)
  unfolding store_key_file write_candidate
  start_from rid now prepare_event_id new_pub current none = refuse no_own_key
  start_from rid now prepare_event_id new_pub current (some prior) =
      if leb (current + 1) prior.epoch then refuse stale_prior else do
        store_key_file rid (current + 1)
        on_error
            (transaction (write_candidate rid now prepare_event_id new_pub (current + 1) prior))
            (delete_file (epoch_file rid (current + 1)))
        pure (current + 1, prepare_of now new_pub prior)

  -- `new_pub` is the public half of the key pair that the call draws.
  unfoldable pub begin_rotation : String → ℕ → Option String → String → Act (ℕ × Prepare)
  unfolding get_relationship in_flight start_from own_epochs newest current_epoch
  begin_rotation rid now prepare_event_id new_pub = do
    _ ← get_relationship rid
    busy ← gets (in_flight rid)
    prior ← gets (λ s. newest (own_epochs rid s))
    current ← gets (current_epoch rid)
    if busy
        then refuse rotation_in_flight
        else start_from rid now prepare_event_id new_pub current prior

abbrev pub wrap_of : String → ℕ → WrapSeen → Bool
wrap_of rid epoch w = w.relationship_id == rid && nat_eq w.epoch epoch

abbrev pub live_rotating : String → ℕ → RotationRow → Bool
live_rotating rid epoch r = rotation_of rid epoch rotating r && is_live r.phase

abbrev pub see_wrap : RotationRow → RotationRow
see_wrap r = record r { new_wrap_seen = true }

unfoldable pub consume_pending_wrap_seen : String → ℕ → Act (Unit {0})
consume_pending_wrap_seen rid epoch = do
  parked ← gets (λ s. exists (wrap_of rid epoch) s.wrap_seen_pending)
  modify (λ s. record s { wrap_seen_pending = delete (wrap_of rid epoch) s.wrap_seen_pending })
  if parked
      then modify (λ s. record s {
        key_rotations = update (live_rotating rid epoch) see_wrap s.key_rotations;
      })
      else pure tt

unfoldable pub note_decrypted_new_wrap : String → ℕ → ℕ → Act (Unit {0})
note_decrypted_new_wrap rid epoch now = transaction (do
  seen ← gets (λ s. exists (live_rotating rid epoch) s.key_rotations)
  modify
      (λ s. record s { key_rotations = update (live_rotating rid epoch) see_wrap s.key_rotations })
  if seen
      then pure tt
      else modify (λ s. record s {
        wrap_seen_pending =
            upsert (wrap_of rid epoch) (λ w. record w { seen_at = seconds now })
              (record { relationship_id = rid; epoch = epoch; seen_at = seconds now })
              s.wrap_seen_pending;
      }))

-- A stored event id that the ack does not name.
abbrev pub names_other : Option String → String → Bool
names_other none id = false
names_other (some stored) id = not (stored == "") && not (stored == id)

abbrev pub acknowledge : ℕ → RotationRow → RotationRow
acknowledge now r = record r { phase = acknowledged; acknowledged_at = some (seconds now) }

-- UPDATE … WHERE … AND phase=? and its rowcount.
unfoldable pub advance : (RotationRow → Bool) → (RotationRow → RotationRow) → Act Bool
advance p f s =
    pure (exists p s.key_rotations) (record s { key_rotations = update p f s.key_rotations })

unfoldable pub take_ack : String → ℕ → ℕ → Act (Unit {0})
unfolding advance set_own_state consume_pending_wrap_seen
take_ack rid epoch now = transaction (do
  moved ← advance (λ r. rotation_of rid epoch rotating r && is_candidate r.phase) (acknowledge now)
  if not moved
      then throw confirm_rejected
      else do set_own_state rid epoch key_acknowledged; consume_pending_wrap_seen rid epoch)

unfoldable pub apply_ack : String → Ack → ℕ → Option RotationRow → Act (Unit {0})
unfolding take_ack consume_pending_wrap_seen
apply_ack rid ack now none = throw confirm_rejected
apply_ack rid ack now (some r) =
    if names_other r.prepare_event_id ack.prepare_event_id
    then throw confirm_rejected
    else if is_acknowledged r.phase
    then transaction (consume_pending_wrap_seen rid ack.epoch)
    else if not (is_candidate r.phase)
    then throw confirm_rejected
    else if ltb (r.deadline * micro) now
    then throw confirm_rejected
    else take_ack rid ack.epoch now

unfoldable pub on_ack : String → Ack → ℕ → Act (Unit {0})
unfolding apply_ack rotation
on_ack rid ack now = do row ← gets (rotation rid ack.epoch rotating); apply_ack rid ack now row

-- The epoch of the payload.
unfoldable pub confirm_payload : Option RotationRow → Act ℕ
confirm_payload none = refuse nothing_to_confirm
confirm_payload (some r) =
    if not (is_acknowledged r.phase || is_confirmed r.phase)
    then refuse nothing_to_confirm
    else if not r.new_wrap_seen
    then refuse no_new_wrap_seen
    else pure r.epoch

unfoldable pub build_confirm_payload : String → Act ℕ
unfolding confirm_payload in_flight_as
build_confirm_payload rid = do row ← gets (in_flight_as rid rotating); confirm_payload row

abbrev pub confirm_row : ℕ → RotationRow → RotationRow
confirm_row now r = record r { phase = confirmed; confirmed_at = some (seconds now) }

unfoldable pub move_to_confirmed : String → ℕ → ℕ → Act (Unit {0})
unfolding advance
move_to_confirmed rid epoch now = do
  moved ←
      advance (λ r. rotation_of rid epoch rotating r && is_acknowledged r.phase) (confirm_row now)
  if moved then pure tt else refuse nothing_to_confirm

unfoldable pub mark_row : String → ℕ → Option RotationRow → Act (Unit {0})
unfolding move_to_confirmed
mark_row rid now none = refuse nothing_to_confirm
mark_row rid now (some r) =
    if is_confirmed r.phase
    then pure tt
    else if not (is_acknowledged r.phase)
    then refuse nothing_to_confirm
    else move_to_confirmed rid r.epoch now

unfoldable pub mark_confirmed : String → ℕ → Act (Unit {0})
unfolding mark_row in_flight_as
mark_confirmed rid now =
    transaction (do row ← gets (in_flight_as rid rotating); mark_row rid now row)

unfoldable pub confirm_in_flight : String → ℕ → Option RotationRow → Act ℕ
unfolding move_to_confirmed
confirm_in_flight rid now none = refuse nothing_to_confirm
confirm_in_flight rid now (some r) =
    if is_confirmed r.phase
    then pure r.epoch
    else if not (is_acknowledged r.phase)
    then refuse nothing_to_confirm
    else if not r.new_wrap_seen
    then refuse no_new_wrap_seen
    else do move_to_confirmed rid r.epoch now; pure r.epoch

unfoldable pub confirm_rotation : String → ℕ → Act ℕ
unfolding confirm_in_flight in_flight_as
confirm_rotation rid now =
    transaction (do row ← gets (in_flight_as rid rotating); confirm_in_flight rid now row)

abbrev pub commit_row : ℕ → RotationRow → RotationRow
commit_row now r = record r {
  phase = committed;
  committed_at = some (seconds now);
  accepted_events_since_commit = 0;
}

abbrev pub at_epoch : String → ℕ → Keys → Bool
at_epoch rid epoch s = elim (relationship_of rid s) [
  | none ↦ false
  | some rel ↦ nat_eq rel.key_epoch epoch
]

-- No other writer stands between the read of the row and the UPDATE, so a row is always found.
unfoldable pub take_commit : String → ℕ → ℕ → ℕ → Act (Unit {0})
unfolding advance set_own_state
take_commit rid epoch prior_epoch now = transaction (do
  moved ← advance (λ r. rotation_of rid epoch rotating r && is_confirmed r.phase) (commit_row now)
  if not moved then throw confirm_rejected else do
    set_own_state rid epoch key_active
    set_own_state rid prior_epoch key_retired
    modify (λ s. record s {
      relationships =
          update (λ r. r.relationship_id == rid) (λ r. record r { key_epoch = epoch })
            s.relationships;
    }))

unfoldable pub apply_commit : String → ℕ → ℕ → Bool → Option RotationRow → Act (Unit {0})
unfolding take_commit
apply_commit rid epoch now redelivered none =
    if redelivered then pure tt else throw confirm_rejected
apply_commit rid epoch now redelivered (some r) =
    if is_committed r.phase
    then pure tt
    else if not (is_confirmed r.phase)
    then throw confirm_rejected
    else take_commit rid epoch r.prior_epoch now

unfoldable pub on_commit : String → ℕ → ℕ → Act (Unit {0})
unfolding apply_commit rotation relationship_of
on_commit rid epoch now = do
  row ← gets (rotation rid epoch rotating)
  redelivered ← gets (at_epoch rid epoch)
  apply_commit rid epoch now redelivered row

unfoldable pub count_event : String → Option ℕ → Act (Unit {0})
count_event rid none = pure tt
count_event rid (some epoch) = modify (λ s. record s {
  key_rotations =
      update (λ r. rotation_of rid epoch rotating r && is_committed r.phase)
        (λ r. record r { accepted_events_since_commit = r.accepted_events_since_commit + 1 })
        s.key_rotations;
})

unfoldable pub note_accepted_event : String → Act (Unit {0})
unfolding count_event relationship_of
note_accepted_event rid = do
  epoch ← gets (λ s. elim (relationship_of rid s) [ none ↦ none | some rel ↦ some rel.key_epoch ])
  count_event rid epoch
