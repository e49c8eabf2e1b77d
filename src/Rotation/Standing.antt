-- ===== src/Rotation/Standing.antt =====
-- What `sweep` leaves of a rotation that is in flight past its candidate phase.
use muse_agent_social.Prelude.{
  ℕ, String, Bool, true, false, not, ◌&&◌, Option, none, some, List, [], ◌∷◌, ◌≡◌, refl, arith,
  Bool-cases, inl, inr, leb,
}
use muse_agent_social.Prelude.ActionLaws.{
  Keeps, bind-Keeps, transaction-Keeps, if-Keeps, reads-Keeps, view-Keeps,
}
use muse_agent_social.Prelude.Table.{find, select, delete, update}
use muse_agent_social.Rotation.Tables.{
  Role, rotating, RotationRow, KeyRow, KeyFile, Keys, is_live, is_candidate, is_committed,
  rotation_of, own_key_of,
}
use muse_agent_social.Rotation.Inventory.{rotation, delete_keys}
use muse_agent_social.Rotation.Rotating.{advance}
use muse_agent_social.Rotation.Conflicts.{delete_path, discard_candidate, discard_row}
use muse_agent_social.Rotation.Sweep.{
  ago, is_superseded, compact_peer_key_epochs, compact_tables, claim_row, claim_timed_out, report,
  sweep, retire_in_txn, retire_if, retire_all, retire_old_keys, is_due,
}

module _ {A : Type 0} (p q : A → Bool) (r : A) where
  -- The row that a search finds, after a deletion and after an update that do not meet it.
  find-delete_apart :
      q r ≡ false → (xs : List A) → find p xs ≡ some r → find p (delete q xs) ≡ some r
  unfolding find select
  find-delete_apart apart [] h = ground (arith, h)
  find-delete_apart apart (x ∷ xs) h = elim (Bool-cases (p x)) [
    | inl e ↦ let same : x ≡ r = ground (arith, h, e) in rw (same, apart) (rw (rw same at e) refl)
    | inr e ↦ ground (arith, e, h, find-delete_apart apart xs)
  ]

  find-update_apart :
      (f : A → A)
      → ((x : A) → p (f x) ≡ p x)
      → q r ≡ false
      → (xs : List A) → find p xs ≡ some r
      → find p (update q f xs) ≡ some r
  unfolding find update
  find-update_apart f kept apart [] h = ground (arith, h)
  find-update_apart f kept apart (x ∷ xs) h = elim (Bool-cases (p x)) [
    | inl e ↦ let same : x ≡ r = ground (arith, h, e) in rw (same, apart) (rw (rw same at e) refl)
    | inr e ↦ ground (arith, e, h, kept x, find-update_apart f kept apart xs)
  ]

delete_keys-rotations :
    (p : KeyRow → Bool) (s : Keys) → (delete_keys p s).1.key_rotations ≡ s.key_rotations
unfolding delete_keys
delete_keys-rotations p s = ground arith

module _ (rid : String) (epoch : ℕ) (role : Role) (r : RotationRow) (live : is_live r.phase ≡ true)
    (past : is_candidate r.phase ≡ false) where
  -- The row of the relationship, epoch and role is `r`.
  Stands : Keys → Type 0
  Stands s = rotation rid epoch role s ≡ some r

  rows_deleted-Stands :
      (p : RotationRow → Bool)
      → p r ≡ false
      → (s : Keys) → Stands s
      → Stands (record s { key_rotations = delete p s.key_rotations })
  unfolding Stands rotation
  rows_deleted-Stands p apart s h =
      find-delete_apart (rotation_of rid epoch role) p r apart s.key_rotations h

  keys_deleted-Stands : (p : KeyRow → Bool) → Keeps Stands (delete_keys p)
  unfolding Stands rotation
  keys_deleted-Stands p =
      view-Keeps {view = λ s. s.key_rotations}
        (λ rows. find (rotation_of rid epoch role) rows ≡ some r) (delete_keys-rotations p)

  delete_path-Stands : (file : Option KeyFile) → Keeps Stands (delete_path file)
  unfolding delete_path Stands rotation
  delete_path-Stands none = reads-Keeps
  delete_path-Stands (some file) = record { at = λ s h. h }

  discarded-Stands :
      (id : String) (n : ℕ)
      → Keeps Stands
          (advance (λ q. rotation_of id n rotating q && is_candidate q.phase) discard_row)
  unfolding advance Stands rotation
  discarded-Stands id n = record {
    at = λ s h.
        find-update_apart (rotation_of rid epoch role)
          (λ q. rotation_of id n rotating q && is_candidate q.phase) r discard_row (λ x. refl)
          (ground (arith, past)) s.key_rotations h;
  }

  discard_candidate-Stands :
      (id : String) (n : ℕ) → Keeps Stands (discard_candidate is_candidate id n)
  unfolding discard_candidate
  discard_candidate-Stands id n = bind-Keeps reads-Keeps λ file.
      bind-Keeps (discarded-Stands id n) λ claimed.
        if-Keeps (not claimed) reads-Keeps
          (bind-Keeps (keys_deleted-Stands (own_key_of id n)) λ _. reads-Keeps)

  ago-Stands : (now span : ℕ) → Keeps Stands (ago now span)
  unfolding ago
  ago-Stands now span = if-Keeps (leb span now) reads-Keeps reads-Keeps

  peers-Stands : Keeps Stands compact_peer_key_epochs
  unfolding compact_peer_key_epochs
  peers-Stands = bind-Keeps reads-Keeps λ all. keys_deleted-Stands _

  superseded-apart : (limit : ℕ) (all : List RotationRow) → is_superseded limit all r ≡ false
  unfolding is_superseded
  superseded-apart limit all = ground (arith, live)

  compact_tables-Stands : (now : ℕ) → Keeps Stands (compact_tables now)
  unfolding compact_tables Stands rotation
  compact_tables-Stands now = transaction-Keeps (
      bind-Keeps (ago-Stands now _) λ _.
        bind-Keeps (record { at = λ s h. h })
          λ _. bind-Keeps (ago-Stands now _) λ _.
            bind-Keeps (record { at = λ s h. h })
              λ _. bind-Keeps (ago-Stands now _) λ limit. bind-Keeps reads-Keeps λ all.
                bind-Keeps
                  (record {
                    at = rows_deleted-Stands (is_superseded limit all) (superseded-apart limit all);
                  })
                  λ _.
                    bind-Keeps peers-Stands
                      λ _. bind-Keeps (ago-Stands now _) λ _. record { at = λ s h. h })

  claim_row-Stands : (row : Option RotationRow) → Keeps Stands (claim_row row)
  unfolding claim_row
  claim_row-Stands none = reads-Keeps
  claim_row-Stands (some q) =
      bind-Keeps (discard_candidate-Stands q.relationship_id q.epoch) λ _. reads-Keeps

  claim_timed_out-Stands : (now : ℕ) → Keeps Stands (claim_timed_out now)
  unfolding claim_timed_out
  claim_timed_out-Stands now =
      transaction-Keeps (bind-Keeps reads-Keeps λ row. claim_row-Stands row)

  report-Stands : (claimed : Option (String × ℕ × Option KeyFile)) → Keeps Stands (report claimed)
  unfolding report
  report-Stands none = reads-Keeps
  report-Stands (some (id, n, file)) = bind-Keeps (delete_path-Stands file) λ _. reads-Keeps

  retire_in_txn-Stands : (q : RotationRow) → Keeps Stands (retire_in_txn q)
  unfolding retire_in_txn
  retire_in_txn-Stands q = bind-Keeps reads-Keeps λ new_key. bind-Keeps reads-Keeps λ old_file.
      if-Keeps (not new_key) reads-Keeps (
        bind-Keeps (keys_deleted-Stands _) λ _.
          bind-Keeps
            (record {
              at =
                  rows_deleted-Stands
                    (λ x. rotation_of q.relationship_id q.epoch rotating x && is_committed x.phase)
                    (ground (arith, live));
            })
            λ _. reads-Keeps)

  retire_if-Stands : (due : Option Bool) (q : RotationRow) → Keeps Stands (retire_if due q)
  unfolding retire_if
  retire_if-Stands none q = reads-Keeps
  retire_if-Stands (some due) q =
      if-Keeps due
        (bind-Keeps (transaction-Keeps (retire_in_txn-Stands q)) λ file. delete_path-Stands file)
        reads-Keeps

  retire_all-Stands : (now : ℕ) (rows : List RotationRow) → Keeps Stands (retire_all now rows)
  unfolding retire_all
  retire_all-Stands now [] = reads-Keeps
  retire_all-Stands now (q ∷ qs) =
      bind-Keeps (retire_if-Stands (is_due now q) q) λ _. retire_all-Stands now qs

  sweep-Stands : (now : ℕ) → Keeps Stands (sweep now)
  unfolding sweep retire_old_keys
  sweep-Stands now = bind-Keeps (compact_tables-Stands now) λ _.
      bind-Keeps (claim_timed_out-Stands now) λ claimed.
        bind-Keeps (report-Stands claimed)
          λ _. bind-Keeps reads-Keeps λ rows. retire_all-Stands now rows

-- A rotation in flight that is no candidate any more, being acknowledged or confirmed, is left by a
-- sweep as it is, on either side, whatever its deadline and however the sweep ends.
pub sweep-in_flight :
    (rid : String) (epoch : ℕ) (role : Role) (r : RotationRow) (now : ℕ) (s : Keys)
    → is_live r.phase ≡ true
    → is_candidate r.phase ≡ false
    → rotation rid epoch role s ≡ some r
    → rotation rid epoch role (sweep now s).1 ≡ some r
unfolding Stands
sweep-in_flight rid epoch role r now s live past h =
    (sweep-Stands rid epoch role r live past now).at s h
