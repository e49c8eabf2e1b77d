-- ===== src/Rotation/Queued.antt =====
-- The bound on `rotation_quarantine`, under the operations of `RotationManager`.
use muse_agent_social.Prelude.{
  ℕ, ◌≤◌, min, String, Bool, List, [], ◌∷◌, ◌≡◌, arith, ◌==◌, Bool-cases, inl, inr, eq_iff, sym,
}
use muse_agent_social.Prelude.ActionLaws.{Keeps, view-Keeps}
use muse_agent_social.Prelude.Table.{count, insert}
use muse_agent_social.Prelude.TableLaws.{count-insert, count-delete}
use muse_agent_social.Rotation.Tables.{RotationRow, KeyRow, QuarantineRow, Keys, Act, seconds}
use muse_agent_social.Rotation.Inventory.{insert_key, delete_keys}
use muse_agent_social.Rotation.Rotating.{insert_rotation}
use muse_agent_social.Rotation.Gate.{
  keep_last, cap_quarantine, of_relationship, quarantine_in_txn, quarantine_cap,
}
use muse_agent_social.Rotation.Operations.{Op, run}
use muse_agent_social.Rotation.Lift.{IsKept, tables}
use muse_agent_social.Rotation.Lift.All.{run-IsKept}

module _ {A : Type 0} (p : A → Bool) where
  count-keep_last : (cap : ℕ) (xs : List A) → count p (keep_last cap p xs) ≡ min cap (count p xs)
  unfolding count keep_last
  count-keep_last cap [] = ground arith
  count-keep_last cap (x ∷ xs) = ground (arith, count-keep_last cap xs)

  count-keep_last_other :
      (q : A → Bool) (cap : ℕ) (xs : List A) → count p (keep_last cap q xs) ≤ count p xs
  unfolding count keep_last
  count-keep_last_other q cap [] = omega arith
  count-keep_last_other q cap (x ∷ xs) = ground (arith, count-keep_last_other q cap xs)

abbrev pub IsBounded : Keys → Type 0
IsBounded s = (rid : String) → count (of_relationship rid) s.rotation_quarantine ≤ quarantine_cap

cap_quarantine-IsBounded :
    (rows : List QuarantineRow) (q : QuarantineRow) (rid : String)
    → count (of_relationship rid) rows ≤ quarantine_cap
    → count (of_relationship rid) (cap_quarantine q.relationship_id (insert q rows))
      ≤ quarantine_cap
unfolding cap_quarantine
cap_quarantine-IsBounded rows q rid h = elim (Bool-cases (q.relationship_id == rid)) [
  | inl e ↦ rw (sym ((eq_iff q.relationship_id rid).0 e)) (
      omega
        (arith, count-keep_last (of_relationship q.relationship_id) quarantine_cap (insert q rows)))
  | inr e ↦ ground (
    arith,
    e,
    count-keep_last_other (of_relationship rid) (of_relationship q.relationship_id) quarantine_cap
        (insert q rows),
    count-insert (of_relationship rid) rows q,
  )
]

insert_key-queue :
    (k : KeyRow) (s : Keys) → (insert_key k s).1.rotation_quarantine ≡ s.rotation_quarantine
unfolding insert_key
insert_key-queue k s = ground arith

delete_keys-queue :
    (p : KeyRow → Bool) (s : Keys) → (delete_keys p s).1.rotation_quarantine ≡ s.rotation_quarantine
unfolding delete_keys
delete_keys-queue p s = ground arith

insert_rotation-queue :
    (r : RotationRow) (s : Keys)
    → (insert_rotation r s).1.rotation_quarantine ≡ s.rotation_quarantine
unfolding insert_rotation
insert_rotation-queue r s = ground arith

unchanged :
    {A : Type 0} {m : Act A}
    → ((s : Keys) → (m s).1.rotation_quarantine ≡ s.rotation_quarantine)
    → Keeps IsBounded m
unchanged =
    view-Keeps {view = λ s. s.rotation_quarantine}
      (λ rows. (rid : String) → count (of_relationship rid) rows ≤ quarantine_cap)

IsBounded-IsKept : IsKept IsBounded
unfolding quarantine_in_txn
IsBounded-IsKept = record {
  other = λ m same.
      view-Keeps {view = tables}
        (λ t. (rid : String) → count (of_relationship rid) t.3 ≤ quarantine_cap) same;
  rows_updated = λ p f step s h. h;
  rows_deleted = λ p dead s h. h;
  row_inserted = λ r o. unchanged (insert_rotation-queue r);
  key_inserted = λ k. unchanged (insert_key-queue k);
  keys_deleted = λ p. unchanged (delete_keys-queue p);
  keys_updated = λ p f same s h. h;
  quarantined = λ rid epoch reason payload now. record {
    at = λ s h other.
        cap_quarantine-IsBounded s.rotation_quarantine
          (record {
            id = s.next_id;
            relationship_id = rid;
            epoch = epoch;
            reason = reason;
            payload = payload;
            received_at = seconds now;
          })
          other (h other);
  };
  quarantine_deleted =
      λ p s h rid. omega (arith, h rid, count-delete (of_relationship rid) p s.rotation_quarantine);
}

-- Whatever operations run, the quarantine holds 50 rows of each relationship at most, where it did
-- at the start: a peer that sends data of unknown epochs or conflicting prepares cannot grow it.
pub run-IsBounded :
    (fingerprint : String → String) (ops : List Op) (s : Keys)
    → IsBounded s
    → IsBounded (run fingerprint ops s)
run-IsBounded fingerprint = run-IsKept IsBounded-IsKept fingerprint
