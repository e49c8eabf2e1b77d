-- ===== src/Rotation/Ceremony.antt =====
-- The whole ceremony of the rotating side, and its redelivered commit.
use muse_agent_social.Prelude.{ℕ, ◌*◌, String, false, some, ◌≡◌, refl, ltb}
use muse_agent_social.Prelude.Action.{◌>>=◌, done}
use muse_agent_social.Rotation.Tables.{
  candidate, acknowledged, RotationRow, Relationship, Ack, Keys, micro,
}
use muse_agent_social.Rotation.Inventory.{relationship_of}
use muse_agent_social.Rotation.Rotating.{
  note_decrypted_new_wrap, names_other, on_ack, confirm_rotation, apply_commit, on_commit,
}
use muse_agent_social.Rotation.Stages.{
  IsRotating, IsCommitted, on_ack-Stage, note_decrypted-Stage, confirm_rotation-Stage,
  on_commit-Stage,
}

on_commit-again :
    (rid : String) (epoch now : ℕ) (s : Keys)
    → IsCommitted rid epoch s
    → on_commit rid epoch now s ≡ (done tt, s)
unfolding on_commit ◌>>=◌ apply_commit
on_commit-again rid epoch now s ((q, hq, hp), _) = rw (hq, hp) refl

-- The four steps of the rotating side.
abbrev after_ack : String → Ack → ℕ → Keys → Keys
after_ack rid ack t s = (on_ack rid ack t s).1

abbrev pub after_wrap : String → Ack → ℕ → ℕ → Keys → Keys
after_wrap rid ack t u s = (note_decrypted_new_wrap rid ack.epoch u (after_ack rid ack t s)).1

abbrev pub after_confirm : String → Ack → ℕ → ℕ → ℕ → Keys → Keys
after_confirm rid ack t u v s = (confirm_rotation rid v (after_wrap rid ack t u s)).1

-- A candidate in flight, of a relationship that is there, completes: where the peer's ack names its
-- epoch and its prepare event and comes by the deadline, and then an envelope wrapped to the new
-- key is read, the rotation can be confirmed, and the commit puts the relationship at the new
-- epoch. No step raises, at whatever times the later ones come. A commit that is delivered again
-- changes nothing.
pub ceremony-IsCommitted :
    (rid : String) (ack : Ack) (r : RotationRow) (rel : Relationship) (t u v w again : ℕ) (s : Keys)
    → IsRotating rid ack.epoch r s.key_rotations
    → r.phase ≡ candidate
    → names_other r.prepare_event_id ack.prepare_event_id ≡ false
    → ltb (r.deadline * micro) t ≡ false
    → relationship_of rid s ≡ some rel
    → let end = on_commit rid ack.epoch w (after_confirm rid ack t u v s) in
      ((on_ack rid ack t s).0 ≡ done tt)
      × ((confirm_rotation rid v (after_wrap rid ack t u s)).0 ≡ done ack.epoch)
      × (end.0 ≡ done tt)
      × IsCommitted rid ack.epoch end.1
      × (on_commit rid ack.epoch again end.1 ≡ (done tt, end.1))
unfolding relationship_of
ceremony-IsCommitted rid ack r rel t u v w again s h hp same early hrel =
    let acked = on_ack-Stage rid ack t r s h hp same early in
    let seen =
      note_decrypted-Stage rid ack.epoch u acknowledged s.relationships (after_ack rid ack t s)
        acked.1 in
    let confirmed =
      confirm_rotation-Stage rid ack.epoch v s.relationships (after_wrap rid ack t u s) seen in
    let end =
      on_commit-Stage rid ack.epoch w s.relationships rel (after_confirm rid ack t u v s)
        confirmed.1 hrel in
    (
      acked.0,
      confirmed.0,
      end.0,
      end.1,
      on_commit-again rid ack.epoch again
          (on_commit rid ack.epoch w (after_confirm rid ack t u v s)).1 end.1,
    )
