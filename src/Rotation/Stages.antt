-- ===== src/Rotation/Stages.antt =====
-- The steps of the rotating side, one by one: `on_ack`, `note_decrypted_new_wrap`,
-- `confirm_rotation` and `on_commit`.
use muse_agent_social.Prelude.{
  ℕ, ◌*◌, String, Bool, true, false, ◌&&◌, some, List, ◌≡◌, refl, arith, Bool-cases, inl, inr, ltb,
  ◌==◌,
}
use muse_agent_social.Prelude.Action.{◌>>=◌, done, transaction}
use muse_agent_social.Prelude.Table.{find, exists, update}
use muse_agent_social.Prelude.TableLaws.{exists_of_find, find-accepts, find-update_self}
use muse_agent_social.Rotation.Tables.{
  Role, rotating, Phase, candidate, acknowledged, confirmed, committed, RotationRow, Relationship,
  Ack, Keys, is_live, is_candidate, is_acknowledged, is_confirmed, rotation_of, own_key_of,
  same_role, key_acknowledged, key_active, key_retired, micro,
}
use muse_agent_social.Rotation.Inventory.{rotation, in_flight_as, relationship_of}
use muse_agent_social.Rotation.Rotating.{
  advance, set_own_state, live_rotating, see_wrap, wrap_of, consume_pending_wrap_seen,
  note_decrypted_new_wrap, names_other, acknowledge, take_ack, apply_ack, on_ack, confirm_row,
  move_to_confirmed, confirm_in_flight, confirm_rotation, commit_row, take_commit, apply_commit,
  on_commit, at_epoch,
}
use muse_agent_social.Rotation.Found.{find-and, find-update_both}

abbrev of_role : String → Role → RotationRow → Bool
of_role rid role r = r.relationship_id == rid && same_role r.role role && is_live r.phase

-- The row of the epoch is the one that is in flight on the rotating side.
abbrev pub IsRotating : String → ℕ → RotationRow → List RotationRow → Type 0
IsRotating rid epoch r rows =
    (find (rotation_of rid epoch rotating) rows ≡ some r)
    × (find (of_role rid rotating) rows ≡ some r)

IsRotating-live :
    (rid : String) (epoch : ℕ) (r : RotationRow) (rows : List RotationRow)
    → IsRotating rid epoch r rows
    → is_live r.phase ≡ true
IsRotating-live rid epoch r rows h = ground (arith, find-accepts (of_role rid rotating) rows r h.1)

IsRotating-epoch :
    (rid : String) (epoch : ℕ) (r : RotationRow) (rows : List RotationRow)
    → IsRotating rid epoch r rows
    → r.epoch ≡ epoch
IsRotating-epoch rid epoch r rows h =
    ground (arith, find-accepts (rotation_of rid epoch rotating) rows r h.0)

-- A step of the row that keeps its key and leaves it in flight.
update-IsRotating :
    (rid : String) (epoch : ℕ) (g : RotationRow → Bool) (f : RotationRow → RotationRow)
    (r : RotationRow) (rows : List RotationRow)
    → ((x : RotationRow) → rotation_of rid epoch rotating (f x) ≡ rotation_of rid epoch rotating x)
    → of_role rid rotating (f r) ≡ true
    → g r ≡ true
    → IsRotating rid epoch r rows
    → IsRotating rid epoch (f r) (update (λ x. rotation_of rid epoch rotating x && g x) f rows)
update-IsRotating rid epoch g f r rows same live hg h =
    let key = rotation_of rid epoch rotating in
    let is = find-accepts key rows r h.0 in
    let both = find-and key g rows r h.0 hg in
    let hit : (key r && g r) ≡ true = ground (arith, is, hg) in
    (
      find-update_both (λ x. key x && g x) key f rows r both h.0 hit (rw (same r) is),
      find-update_both (λ x. key x && g x) (of_role rid rotating) f rows r both h.1 hit live,
    )

-- The row in flight is in the phase, and the relationships are these.
abbrev pub Stage : String → ℕ → Phase → Bool → List Relationship → Keys → Type 0
Stage rid epoch phase seen rels s =
    (q : RotationRow) × IsRotating rid epoch q s.key_rotations
    × (q.phase ≡ phase)
    × ((seen ≡ true) → q.new_wrap_seen ≡ true)
    × (s.relationships ≡ rels)

-- The rotation of the epoch is committed, and the relationship is at that epoch.
abbrev pub IsCommitted : String → ℕ → Keys → Type 0
IsCommitted rid epoch s =
    ((q : RotationRow) × (rotation rid epoch rotating s ≡ some q) × (q.phase ≡ committed))
    × (at_epoch rid epoch s ≡ true)

see_wrap-IsRotating :
    (rid : String) (epoch : ℕ) (r : RotationRow) (rows : List RotationRow)
    → IsRotating rid epoch r rows
    → IsRotating rid epoch (see_wrap r) (update (live_rotating rid epoch) see_wrap rows)
see_wrap-IsRotating rid epoch r rows h =
    update-IsRotating rid epoch (λ x. is_live x.phase) see_wrap r rows (λ x. refl)
      (find-accepts (of_role rid rotating) rows r h.1) (IsRotating-live rid epoch r rows h) h

consume-Stage :
    (rid : String) (epoch : ℕ) (phase : Phase) (rels : List Relationship) (s : Keys)
    → Stage rid epoch phase false rels s
    → ((consume_pending_wrap_seen rid epoch s).0 ≡ done tt)
      × Stage rid epoch phase false rels (consume_pending_wrap_seen rid epoch s).1
unfolding consume_pending_wrap_seen ◌>>=◌
consume-Stage rid epoch phase rels s (r, h, hp, hs, hr) =
    elim (Bool-cases (exists (wrap_of rid epoch) s.wrap_seen_pending)) [
      | inl e ↦ rw e (
        refl,
        (see_wrap r, see_wrap-IsRotating rid epoch r s.key_rotations h, hp, (λ _. refl), hr),
      )
      | inr e ↦ rw e (refl, (r, h, hp, hs, hr))
    ]

-- What is left of `take_ack` and of the other steps once the row is found.
advance-found :
    (rid : String) (epoch : ℕ) (g : RotationRow → Bool) (f : RotationRow → RotationRow)
    (r : RotationRow) (s : Keys)
    → IsRotating rid epoch r s.key_rotations
    → g r ≡ true
    → exists (λ x. rotation_of rid epoch rotating x && g x) s.key_rotations ≡ true
advance-found rid epoch g f r s h hg =
    exists_of_find (λ x. rotation_of rid epoch rotating x && g x) s.key_rotations r
      (find-and (rotation_of rid epoch rotating) g s.key_rotations r h.0 hg)

take_ack-Stage :
    (rid : String) (epoch now : ℕ) (r : RotationRow) (s : Keys)
    → IsRotating rid epoch r s.key_rotations
    → r.phase ≡ candidate
    → ((take_ack rid epoch now s).0 ≡ done tt)
      × Stage rid epoch acknowledged false s.relationships (take_ack rid epoch now s).1
unfolding take_ack ◌>>=◌ transaction advance set_own_state
take_ack-Stage rid epoch now r s h hp =
    let found =
      advance-found rid epoch (λ x. is_candidate x.phase) (acknowledge now) r s h (rw hp refl) in
    let moved : Keys = record s {
      key_rotations =
          update (λ x. rotation_of rid epoch rotating x && is_candidate x.phase) (acknowledge now)
            s.key_rotations;
    } in
    let next =
      consume-Stage rid epoch acknowledged s.relationships
        (set_own_state rid epoch key_acknowledged moved).1
        (
          acknowledge now r,
          update-IsRotating rid epoch (λ x. is_candidate x.phase) (acknowledge now) r
              s.key_rotations (λ x. refl)
              (ground (arith, find-accepts (of_role rid rotating) s.key_rotations r h.1))
              (rw hp refl) h,
          refl,
          (λ bad. ground (arith, bad)),
          refl,
        ) in
    rw (found, next.0) (refl, next.1)

pub on_ack-Stage :
    (rid : String) (ack : Ack) (now : ℕ) (r : RotationRow) (s : Keys)
    → IsRotating rid ack.epoch r s.key_rotations
    → r.phase ≡ candidate
    → names_other r.prepare_event_id ack.prepare_event_id ≡ false
    → ltb (r.deadline * micro) now ≡ false
    → ((on_ack rid ack now s).0 ≡ done tt)
      × Stage rid ack.epoch acknowledged false s.relationships (on_ack rid ack now s).1
unfolding on_ack ◌>>=◌ rotation apply_ack
on_ack-Stage rid ack now r s h hp same early =
    rw (h.0, same, hp, early) (take_ack-Stage rid ack.epoch now r s h hp)

pub note_decrypted-Stage :
    (rid : String) (epoch now : ℕ) (phase : Phase) (rels : List Relationship) (s : Keys)
    → Stage rid epoch phase false rels s
    → Stage rid epoch phase true rels (note_decrypted_new_wrap rid epoch now s).1
unfolding note_decrypted_new_wrap ◌>>=◌ transaction
note_decrypted-Stage rid epoch now phase rels s (r, h, hp, hs, hr) =
    let found =
      advance-found rid epoch (λ x. is_live x.phase) see_wrap r s h
        (IsRotating-live rid epoch r s.key_rotations h) in
    rw found (see_wrap r, see_wrap-IsRotating rid epoch r s.key_rotations h, hp, (λ _. refl), hr)

pub confirm_rotation-Stage :
    (rid : String) (epoch now : ℕ) (rels : List Relationship) (s : Keys)
    → Stage rid epoch acknowledged true rels s
    → ((confirm_rotation rid now s).0 ≡ done epoch)
      × Stage rid epoch confirmed true rels (confirm_rotation rid now s).1
unfolding confirm_rotation ◌>>=◌ transaction in_flight_as confirm_in_flight move_to_confirmed
    advance
confirm_rotation-Stage rid epoch now rels s (r, h, hp, hs, hr) =
    let found =
      advance-found rid epoch (λ x. is_acknowledged x.phase) (confirm_row now) r s h (rw hp refl) in
    let next =
      update-IsRotating rid epoch (λ x. is_acknowledged x.phase) (confirm_row now) r s.key_rotations
        (λ x. refl) (ground (arith, find-accepts (of_role rid rotating) s.key_rotations r h.1))
        (rw hp refl) h in
    rw (h.1, hp, hs refl, IsRotating-epoch rid epoch r s.key_rotations h, found)
      (refl, (confirm_row now r, next, refl, (λ _. hs refl), hr))

-- The state after `take_commit`.
abbrev committed_state : String → ℕ → ℕ → ℕ → Keys → Keys
committed_state rid epoch prior_epoch now s = record s {
  key_rotations =
      update (λ x. rotation_of rid epoch rotating x && is_confirmed x.phase) (commit_row now)
        s.key_rotations;
  key_epochs =
      update (own_key_of rid prior_epoch) (λ k. record k { state = key_retired })
        (update (own_key_of rid epoch) (λ k. record k { state = key_active }) s.key_epochs);
  relationships =
      update (λ r. r.relationship_id == rid) (λ r. record r { key_epoch = epoch }) s.relationships;
}

on_commit-result :
    (rid : String) (epoch now : ℕ) (r : RotationRow) (s : Keys)
    → IsRotating rid epoch r s.key_rotations
    → r.phase ≡ confirmed
    → on_commit rid epoch now s ≡ (done tt, committed_state rid epoch r.prior_epoch now s)
unfolding on_commit ◌>>=◌ rotation apply_commit take_commit transaction advance set_own_state
on_commit-result rid epoch now r s h hp =
    let found =
      advance-found rid epoch (λ x. is_confirmed x.phase) (commit_row now) r s h (rw hp refl) in
    rw (h.0, hp, found) refl

at_epoch-found :
    (rid : String) (epoch : ℕ) (t : Keys) (rel : Relationship)
    → find (λ r. r.relationship_id == rid) t.relationships ≡ some rel
    → rel.key_epoch ≡ epoch
    → at_epoch rid epoch t ≡ true
unfolding relationship_of
at_epoch-found rid epoch t rel h e = rw (at_epoch, h) (ground (arith, e))

pub on_commit-Stage :
    (rid : String) (epoch now : ℕ) (rels : List Relationship) (rel : Relationship) (s : Keys)
    → Stage rid epoch confirmed true rels s
    → find (λ x. x.relationship_id == rid) rels ≡ some rel
    → ((on_commit rid epoch now s).0 ≡ done tt)
      × IsCommitted rid epoch (on_commit rid epoch now s).1
unfolding rotation
on_commit-Stage rid epoch now rels rel s (r, h, hp, hs, hr) hrel =
    let key = rotation_of rid epoch rotating in
    let is = find-accepts key s.key_rotations r h.0 in
    let row =
      find-update_both (λ x. key x && is_confirmed x.phase) key (commit_row now) s.key_rotations r
        (find-and key (λ x. is_confirmed x.phase) s.key_rotations r h.0 (rw hp refl)) h.0
        (ground (arith, is, hp)) is in
    let renewed =
      find-update_self (λ x. x.relationship_id == rid) (λ x. record x { key_epoch = epoch })
        (λ x. refl) s.relationships rel (rw hr hrel) in
    rw (on_commit-result rid epoch now r s h hp) (
      refl,
      (
        (commit_row now r, row, refl),
        at_epoch-found rid epoch (committed_state rid epoch r.prior_epoch now s)
            (record rel { key_epoch = epoch }) renewed refl,
      ),
    )
