-- ===== src/Rotation/Begun.antt =====
-- What `begin_rotation` leaves behind, on success and on failure.
use muse_agent_social.Prelude.{
  ℕ, ◌+◌, String, Option, none, some, [], ◌≡◌, refl, arith, Bool-cases, inl, inr, Option-cases, leb,
  ◌∙◌,
}
use muse_agent_social.Prelude.Action.{
  ◌>>=◌, Result, done, raised, transaction, on_error, pure, continue, commit_or_rollback,
  cleaned_up,
}
use muse_agent_social.Rotation.Tables.{KeyRow, KeyFile, Keys, RotationFault, Act, epoch_file}
use muse_agent_social.Rotation.Inventory.{
  relationship_of, own_epochs, newest, current_epoch, in_flight, delete_file,
}
use muse_agent_social.Rotation.Rotating.{
  store_key_file, store_file, reconcile_orphan_key_file, start_from, begin_rotation,
}
use muse_agent_social.Rotation.Guards.{get_relationship-unknown, get_relationship-known}

-- Everything but the key files is as before.
abbrev pub without_files : Keys → Keys
without_files s = record s { key_files = [] }

-- An action that changes nothing but key files where it raises.
abbrev IsClean : {A : Type 0} → Act A → Type 0
IsClean m =
    (s : Keys) (e : RotationFault) → (m s).0 ≡ raised e → without_files (m s).1 ≡ without_files s

abbrev IsFilesOnly : {A : Type 0} → Act A → Type 0
IsFilesOnly m = (s : Keys) → without_files (m s).1 ≡ without_files s

module _ {A B : Type 0} where
  bind-IsClean :
      (m : Act A) (f : A → Act B) → IsFilesOnly m → ((a : A) → IsClean (f a)) → IsClean (m >>= f)
  unfolding ◌>>=◌
  bind-IsClean m f files clean s e h = by_result (m s).0 h
    where
      by_result :
          (r : Result RotationFault A)
          → (continue r f (m s).1).0 ≡ raised e
          → without_files (continue r f (m s).1).1 ≡ without_files s
      by_result (done a) h = clean a (m s).1 e h ∙ files s
      by_result (raised x) h = files s

guarded-IsClean :
    (m : Act (Unit {0})) (file : KeyFile) → IsClean (on_error (transaction m) (delete_file file))
unfolding on_error transaction
guarded-IsClean m file s e h = by_result (m s).0 h
  where
    by_result :
        (r : Result RotationFault (Unit {0}))
        → (cleaned_up
            (commit_or_rollback r s (m s).1).0
            (delete_file file)
            (commit_or_rollback r s (m s).1).1).0
          ≡ raised e
        → without_files
            (cleaned_up
              (commit_or_rollback r s (m s).1).0
              (delete_file file)
              (commit_or_rollback r s (m s).1).1).1
          ≡ without_files s
    by_result (done a) h = ground (arith, h)
    by_result (raised x) h = refl

then-IsClean : {A : Type 0} (m : Act (Unit {0})) (a : A) → IsClean m → IsClean (m >>= λ _. pure a)
unfolding ◌>>=◌
then-IsClean {A = A} m a clean s e h = by_result (m s).0 refl h
  where
    by_result :
        (r : Result RotationFault (Unit {0}))
        → (m s).0 ≡ r
        → (continue r (λ _. pure a) (m s).1).0 ≡ raised e
        → without_files (continue r (λ _. pure a) (m s).1).1 ≡ without_files s
    by_result (done x) same h = ground (arith, h)
    by_result (raised x) same h = clean s x same

store_key_file-IsFilesOnly : (rid : String) (epoch : ℕ) → IsFilesOnly (store_key_file rid epoch)
unfolding store_key_file reconcile_orphan_key_file store_file ◌>>=◌
store_key_file-IsFilesOnly rid epoch s = ground arith

start_from-IsClean :
    (fingerprint : String → String) (rid : String) (now : ℕ) (id : Option String) (new_pub : String)
    (current : ℕ) (prior : Option KeyRow)
    → IsClean (start_from fingerprint rid now id new_pub current prior)
unfolding start_from
start_from-IsClean fingerprint rid now id new_pub current none s e h = refl
start_from-IsClean fingerprint rid now id new_pub current (some prior) s e h =
    elim (Bool-cases (leb (current + 1) prior.epoch)) [
      | inl low ↦ rw low refl
      | inr low ↦ rw low (
          bind-IsClean (store_key_file rid (current + 1)) _
            (store_key_file-IsFilesOnly rid (current + 1))
            (λ _. then-IsClean _ _ (guarded-IsClean _ (epoch_file rid (current + 1)))) s e
            (rw low at h))
    ]

-- A call of `begin_rotation` that raises anything, at whatever point, has changed no table: only key
-- files may differ, since an orphan of a crashed attempt is removed and the new file is taken back.
pub begin_rotation-fails :
    (fingerprint : String → String) (rid : String) (now : ℕ) (id : Option String) (new_pub : String)
    (s : Keys) (e : RotationFault)
    → (begin_rotation fingerprint rid now id new_pub s).0 ≡ raised e
    → without_files (begin_rotation fingerprint rid now id new_pub s).1 ≡ without_files s
unfolding begin_rotation ◌>>=◌
begin_rotation-fails fingerprint rid now id new_pub s e h =
    elim (Option-cases (relationship_of rid s)) [
      | inl f ↦ rw (get_relationship-unknown rid s f) refl
      | inr (rel, f) ↦ elim (Bool-cases (in_flight rid s)) [
        | inl busy ↦ rw (get_relationship-known rid s rel f, busy) refl
        | inr idle ↦
            rw (get_relationship-known rid s rel f, idle)
              (start_from-IsClean fingerprint rid now id new_pub (current_epoch rid s)
                (newest (own_epochs rid s)) s e
                (rw (get_relationship-known rid s rel f, idle) at h))
      ]
    ]
