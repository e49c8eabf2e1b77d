-- ===== src/Rotation/Acking.antt =====
-- The acking side: `on_prepare`, `dual_wrap_keys`, `may_send`, `on_confirm` and the commit.
use muse_agent_social.Prelude.{
  ℕ, ◌+◌, ◌*◌, String, Bool, true, false, not, ◌&&◌, ◌||◌, Option, none, some, List, [], ◌∷◌, ◌==◌,
  nat_eq, ltb, leb, max, if◌then◌else◌,
}
use muse_agent_social.Prelude.Action.{◌>>=◌, ◌>>◌, pure, throw, gets, modify, transaction}
use muse_agent_social.Prelude.Table.{find, exists, delete, update}
use muse_agent_social.Rotation.Tables.{
  acking, rotating, acknowledged, committed, RotationRow, peer_key, key_acknowledged, key_active,
  KeyRow, Prepare, Ack, Reason, conflicting_prepare, unknown_future_epoch, prepared,
  unknown_prior_fingerprint, two_keys, stale_prior_fingerprint, stale_epoch, rotation_in_flight,
  prepare_expired, no_acknowledged_rotation, peer_key_missing, send_paused_acknowledged,
  nothing_to_commit, confirm_rejected, Act, micro, seconds, is_own, is_live, is_acknowledged,
  is_confirmed, is_committed, rotation_of, key_of,
}
use muse_agent_social.Rotation.Inventory.{
  refuse, own_epochs, peer_key_epochs, max_epoch, current_epoch, rotation, in_flight, in_flight_as,
  get_relationship, insert_key,
}
use muse_agent_social.Rotation.Rotating.{insert_rotation, clear_discarded, advance, confirm_row}
use muse_agent_social.Rotation.Gate.{quarantine_in_txn}

abbrev pub is_peer_key : KeyRow → Bool
is_peer_key k = not (is_own k)

abbrev pub peer_key_of : String → ℕ → KeyRow → Bool
peer_key_of rid epoch k = key_of rid epoch k && is_peer_key k

abbrev pub new_acking : String → ℕ → ℕ → Prepare → String → ℕ → RotationRow
new_acking rid new_epoch prior_epoch p prepare_event_id now = record {
  relationship_id = rid;
  epoch = new_epoch;
  role = acking;
  phase = acknowledged;
  prior_epoch = prior_epoch;
  prior_fingerprint = p.prior_fingerprint;
  new_public_key = p.new_agreement_key;
  prepare_event_id = some prepare_event_id;
  prepared_at = seconds now;
  acknowledged_at = some (seconds now);
  confirmed_at = none;
  committed_at = none;
  deadline = p.deadline;
  new_wrap_seen = false;
  accepted_events_since_commit = 0;
}

abbrev pub is_unknown_future : Reason → Bool
is_unknown_future unknown_future_epoch = true
is_unknown_future _ = false

-- Queued data events of the epochs that are known now, with their first-seen records.
unfoldable pub forget_unknown : String → ℕ → Act (Unit {0})
forget_unknown rid epoch = do
  modify (λ s. record s {
    rotation_quarantine =
        delete (λ q. q.relationship_id == rid && is_unknown_future q.reason && leb q.epoch epoch)
          s.rotation_quarantine;
  })
  modify (λ s. record s {
    first_seen = delete (λ f. f.relationship_id == rid && leb f.epoch epoch) s.first_seen;
  })

-- After the DELETE a row of this key is live or committed.
unfoldable pub record_acking_rotation : String → ℕ → ℕ → Prepare → String → ℕ → Act (Unit {0})
unfolding clear_discarded rotation insert_rotation forget_unknown
record_acking_rotation rid new_epoch prior_epoch p prepare_event_id now = do
  clear_discarded rid new_epoch acking
  there ← gets (λ s. exists (rotation_of rid new_epoch acking) s.key_rotations)
  if there then pure tt else do
    insert_rotation (new_acking rid new_epoch prior_epoch p prepare_event_id now)
    forget_unknown rid new_epoch

abbrev pub ack_of : ℕ → String → Ack
ack_of epoch prepare_event_id = record { epoch = epoch; prepare_event_id = prepare_event_id }

-- My own row for the epoch is missing, or still in flight.
abbrev pub collides : Option RotationRow → Bool
collides none = true
collides (some r) = is_live r.phase

module _ (fingerprint : String → String) where
  -- The first epoch whose key has the fingerprint.
  unfoldable pub prior_of : String → List (ℕ × String) → Option ℕ
  prior_of print [] = none
  prior_of print ((epoch, key) ∷ rest) =
      if fingerprint key == print then some epoch else prior_of print rest

unfoldable pub quarantine_prepare : String → ℕ → Prepare → String → ℕ → Act Ack
unfolding quarantine_in_txn
quarantine_prepare rid epoch p prepare_event_id now = do
  transaction (quarantine_in_txn rid epoch conflicting_prepare (prepared p prepare_event_id) now)
  refuse two_keys

unfoldable pub redelivered_prepare : String → ℕ → ℕ → Prepare → String → ℕ → KeyRow → Act Ack
unfolding quarantine_prepare record_acking_rotation
redelivered_prepare rid new_epoch prior_epoch p prepare_event_id now key =
    if not (key.public_key == p.new_agreement_key)
    then quarantine_prepare rid new_epoch p prepare_event_id now
    else do
      transaction (record_acking_rotation rid new_epoch prior_epoch p prepare_event_id now)
      pure (ack_of new_epoch prepare_event_id)

unfoldable pub accept_prepare : String → ℕ → ℕ → Prepare → String → ℕ → Act Ack
unfolding insert_key record_acking_rotation
accept_prepare rid new_epoch prior_epoch p prepare_event_id now = do
  transaction (do
    insert_key (record {
      relationship_id = rid;
      epoch = new_epoch;
      public_key = p.new_agreement_key;
      private_key_ref = peer_key;
      state = key_acknowledged;
    })
    record_acking_rotation rid new_epoch prior_epoch p prepare_event_id now)
  pure (ack_of new_epoch prepare_event_id)

unfoldable pub fresh_prepare : String → ℕ → ℕ → Prepare → String → ℕ → Act Ack
unfolding peer_key_epochs max_epoch own_epochs rotation current_epoch in_flight quarantine_prepare
    accept_prepare
fresh_prepare rid new_epoch prior_epoch p prepare_event_id now = do
  newest ← gets (λ s. max_epoch (peer_key_epochs rid s))
  mine ← gets (λ s. exists (λ k. nat_eq k.epoch new_epoch) (own_epochs rid s))
  row ← gets (rotation rid new_epoch rotating)
  current ← gets (current_epoch rid)
  busy ← gets (in_flight rid)
  if not (nat_eq prior_epoch newest)
      then refuse stale_prior_fingerprint
      else if mine
      then (if collides row
          then quarantine_prepare rid new_epoch p prepare_event_id now
          else refuse stale_epoch)
      else if leb new_epoch current
      then refuse stale_epoch
      else if busy
      then refuse rotation_in_flight
      else if ltb (p.deadline * micro) now
      then refuse prepare_expired
      else accept_prepare rid new_epoch prior_epoch p prepare_event_id now

-- `existing` is the peer key that is stored for the new epoch.
unfoldable pub prepare_from : String → Prepare → String → ℕ → ℕ → Option KeyRow → Act Ack
unfolding redelivered_prepare fresh_prepare
prepare_from rid p prepare_event_id now prior (some key) =
    redelivered_prepare rid (prior + 1) prior p prepare_event_id now key
prepare_from rid p prepare_event_id now prior none =
    fresh_prepare rid (prior + 1) prior p prepare_event_id now

unfoldable pub prepare_after : String → Prepare → String → ℕ → Option ℕ → Act Ack
unfolding prepare_from
prepare_after rid p prepare_event_id now none = refuse unknown_prior_fingerprint
prepare_after rid p prepare_event_id now (some prior) = do
  existing ← gets (λ s. find (peer_key_of rid (prior + 1)) s.key_epochs)
  prepare_from rid p prepare_event_id now prior existing

unfoldable pub on_prepare : (String → String) → String → Prepare → String → ℕ → Act Ack
unfolding get_relationship prior_of peer_key_epochs prepare_after
on_prepare fingerprint rid p prepare_event_id now = do
  _ ← get_relationship rid
  prior ← gets (λ s. prior_of fingerprint p.prior_fingerprint (peer_key_epochs rid s))
  prepare_after rid p prepare_event_id now prior

unfoldable pub key_at : ℕ → List (ℕ × String) → Option String
key_at epoch [] = none
key_at epoch ((e, k) ∷ rest) = if nat_eq e epoch then some k else key_at epoch rest

unfoldable pub wrap_pair : ℕ → ℕ → Option String → Option String → Act (List (ℕ × String))
wrap_pair prior epoch (some old) (some new) = pure ((prior, old) ∷ (epoch, new) ∷ [])
wrap_pair prior epoch _ _ = refuse peer_key_missing

unfoldable pub dual_wrap_from : String → Option RotationRow → Act (List (ℕ × String))
unfolding peer_key_epochs key_at wrap_pair
dual_wrap_from rid none = refuse no_acknowledged_rotation
dual_wrap_from rid (some r) =
    if not (is_acknowledged r.phase || is_confirmed r.phase)
    then refuse no_acknowledged_rotation
    else do
      keys ← gets (peer_key_epochs rid)
      wrap_pair r.prior_epoch r.epoch (key_at r.prior_epoch keys) (key_at r.epoch keys)

unfoldable pub dual_wrap_keys : String → Act (List (ℕ × String))
unfolding in_flight_as dual_wrap_from
dual_wrap_keys rid = do row ← gets (in_flight_as rid acking); dual_wrap_from rid row

abbrev pub unconfirmed : String → RotationRow → Bool
unconfirmed rid r =
    r.relationship_id == rid
    && elim r.role [ acking ↦ true | rotating ↦ false ]
    && is_acknowledged r.phase

unfoldable pub may_send : String → ℕ → Act (Unit {0})
may_send rid now s = elim (find (unconfirmed rid) s.key_rotations) [
  | none ↦ pure tt s
  | some r ↦ if ltb (r.deadline * micro) now then refuse send_paused_acknowledged s else pure tt s
]

unfoldable pub take_confirm : String → ℕ → ℕ → Act (Unit {0})
unfolding advance
take_confirm rid epoch now = transaction (do
  moved ← advance (λ r. rotation_of rid epoch acking r && is_acknowledged r.phase) (confirm_row now)
  if moved then pure tt else throw confirm_rejected)

unfoldable pub apply_confirm : String → ℕ → ℕ → Option RotationRow → Act (Unit {0})
unfolding take_confirm
apply_confirm rid epoch now none = throw confirm_rejected
apply_confirm rid epoch now (some r) =
    if is_confirmed r.phase
    then pure tt
    else if not (is_acknowledged r.phase)
    then throw confirm_rejected
    else take_confirm rid epoch now

unfoldable pub on_confirm : String → ℕ → ℕ → Act (Unit {0})
unfolding apply_confirm rotation
on_confirm rid epoch now = do
  row ← gets (rotation rid epoch acking)
  apply_confirm rid epoch now row

abbrev pub committed_acking : String → RotationRow → Bool
committed_acking rid r =
    r.relationship_id == rid
    && elim r.role [ acking ↦ true | rotating ↦ false ]
    && is_committed r.phase

-- ORDER BY epoch DESC LIMIT 1
unfoldable pub latest_committed : String → List RotationRow → Option ℕ
latest_committed rid [] = none
latest_committed rid (r ∷ rs) =
    let later = latest_committed rid rs in
    if committed_acking rid r
    then some (elim later [ none ↦ r.epoch | some e ↦ max r.epoch e ])
    else later

unfoldable pub commit_payload : Option RotationRow → Option ℕ → Act ℕ
commit_payload (some r) latest =
    if is_confirmed r.phase
    then pure r.epoch
    else elim latest [ none ↦ refuse nothing_to_commit | some e ↦ pure e ]
commit_payload none latest = elim latest [ none ↦ refuse nothing_to_commit | some e ↦ pure e ]

unfoldable pub build_commit_payload : String → Act ℕ
unfolding commit_payload in_flight_as latest_committed
build_commit_payload rid = do
  row ← gets (in_flight_as rid acking)
  latest ← gets (λ s. latest_committed rid s.key_rotations)
  commit_payload row latest

-- The peer's key changes with the epoch.
unfoldable pub adopt_peer_key : String → ℕ → String → Act (Unit {0})
adopt_peer_key rid epoch key = do
  modify (λ s. record s {
    key_epochs = update (peer_key_of rid epoch) (λ k. record k { state = key_active }) s.key_epochs;
  })
  modify (λ s. record s {
    relationships =
        update (λ r. r.relationship_id == rid)
          (λ r. record r { key_epoch = epoch; peer_agreement_key = some key }) s.relationships;
  })

unfoldable pub commit_in_flight : String → ℕ → Bool → Option RotationRow → Act (Unit {0})
unfolding advance adopt_peer_key
commit_in_flight rid now again none = if again then pure tt else refuse nothing_to_commit
commit_in_flight rid now again (some r) =
    if not (is_confirmed r.phase) then refuse nothing_to_commit else do
      moved ←
          advance (λ x. rotation_of rid r.epoch acking x && is_confirmed x.phase)
            (λ x. record x { phase = committed; committed_at = some (seconds now) })
      if moved then adopt_peer_key rid r.epoch r.new_public_key else refuse nothing_to_commit

unfoldable pub mark_committed : String → ℕ → Act (Unit {0})
unfolding commit_in_flight in_flight_as
mark_committed rid now = transaction (do
  row ← gets (in_flight_as rid acking)
  again ← gets (λ s. exists (committed_acking rid) s.key_rotations)
  commit_in_flight rid now again row)
