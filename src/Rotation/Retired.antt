-- ===== src/Rotation/Retired.antt =====
-- What the retirement of old keys leaves of the own keys.
use muse_agent_social.Prelude.{
  ℕ, ◌≤◌, ◌<◌, max, String, Bool, true, false, not, ◌&&◌, Option, none, some, List, [], ◌∷◌, ◌≡◌,
  refl, arith, All, ◌==◌, eq_iff, ◌∙◌, Bool-cases, inl, inr, leb,
}
use muse_agent_social.Prelude.Action.{◌>>=◌, transaction, done}
use muse_agent_social.Prelude.ActionLaws.{
  Keeps, bind-Keeps, transaction-Keeps, if-Keeps, reads-Keeps,
}
use muse_agent_social.Prelude.Table.{exists, select, delete}
use muse_agent_social.Prelude.TableLaws.{exists-delete, All-select}
use muse_agent_social.Rotation.Tables.{
  rotating, RotationRow, KeyRow, KeyFile, Keys, key_of, own_key_of, is_own, is_committed, same_role,
  rotation_of,
}
use muse_agent_social.Rotation.Inventory.{own_epochs, max_own, delete_keys}
use muse_agent_social.Rotation.Conflicts.{delete_path}
use muse_agent_social.Rotation.Sweep.{
  ago, is_superseded, compact_peer_key_epochs, compact_tables, claim_row, claim_timed_out, report,
  sweep, retire_in_txn, retire_if, retire_all, retire_old_keys, is_due, is_outdated_peer_key,
  timed_out, first_timed_out,
}
use muse_agent_social.Rotation.WellFormed.{IsWellFormed}

abbrev own_of : String → KeyRow → Bool
own_of rid k = k.relationship_id == rid && is_own k

-- A key of an epoch that a later own key exceeds does not count for the newest.
max_own-delete :
    (rid other : String) (prior : ℕ) (keys : List KeyRow)
    → max (max_own (select (own_of rid) (delete (own_key_of other prior) keys))) prior
      ≡ max (max_own (select (own_of rid) keys)) prior
unfolding select max_own
max_own-delete rid other prior [] = refl
max_own-delete rid other prior (k ∷ ks) = ground (arith, max_own-delete rid other prior ks)

max_own-exists :
    (rid : String) (epoch : ℕ) (keys : List KeyRow)
    → exists (own_key_of rid epoch) keys ≡ true
    → epoch ≤ max_own (select (own_of rid) keys)
unfolding select max_own exists
max_own-exists rid epoch [] h = ground (arith, h)
max_own-exists rid epoch (k ∷ ks) h = ground (arith, h, max_own-exists rid epoch ks)

max_own-apart :
    (rid other : String) (epoch : ℕ) (keys : List KeyRow)
    → (other == rid) ≡ false
    → max_own (select (own_of rid) (delete (own_key_of other epoch) keys))
      ≡ max_own (select (own_of rid) keys)
unfolding select max_own
max_own-apart rid other epoch [] h = refl
max_own-apart rid other epoch (k ∷ ks) h = ground (
  arith,
  h,
  max_own-apart rid other epoch ks,
  eq_iff k.relationship_id rid,
  eq_iff k.relationship_id other,
  eq_iff other rid,
)

max_own-peers :
    (rid : String) (all keys : List KeyRow)
    → max_own (select (own_of rid) (delete (is_outdated_peer_key all) keys))
      ≡ max_own (select (own_of rid) keys)
unfolding select max_own is_outdated_peer_key
max_own-peers rid all [] = refl
max_own-peers rid all (k ∷ ks) = ground (arith, max_own-peers rid all ks)

no_timeout :
    (now : ℕ) (rows : List RotationRow)
    → exists (timed_out now) rows ≡ false
    → first_timed_out now rows ≡ none
unfolding exists first_timed_out
no_timeout now [] h = refl
no_timeout now (r ∷ rs) h = ground (arith, h, no_timeout now rs)

exists-select :
    {A : Type 0} (p q : A → Bool) (xs : List A)
    → exists p xs ≡ false
    → exists p (select q xs) ≡ false
unfolding exists select
exists-select p q [] h = refl
exists-select p q (x ∷ xs) h = ground (arith, h, exists-select p q xs)

module _ (rid : String) (now n : ℕ) where
  -- The newest own key of the relationship is that of epoch `n`, the rotations are well-formed, and no
  -- candidate has timed out.
  Newest : Keys → Type 0
  Newest s =
      (max_own (own_epochs rid s) ≡ n)
      × All IsWellFormed s.key_rotations
      × (exists (timed_out now) s.key_rotations ≡ false)

  retired-newest :
      (r : RotationRow) (s : Keys)
      → r.prior_epoch < r.epoch
      → exists (own_key_of r.relationship_id r.epoch) s.key_epochs ≡ true
      → max_own
          (select (own_of rid) (delete (own_key_of r.relationship_id r.prior_epoch) s.key_epochs))
        ≡ max_own (select (own_of rid) s.key_epochs)
  retired-newest r s lt new = elim (Bool-cases (r.relationship_id == rid)) [
    | inr e ↦ max_own-apart rid r.relationship_id r.prior_epoch s.key_epochs e
    | inl e ↦
        let here : exists (own_key_of rid r.epoch) s.key_epochs ≡ true =
          rw ((eq_iff r.relationship_id rid).0 e) at new in
        let kept : exists (own_key_of rid r.epoch)
              (delete (own_key_of r.relationship_id r.prior_epoch) s.key_epochs)
            ≡ true =
          exists-delete (own_key_of r.relationship_id r.prior_epoch) (own_key_of rid r.epoch)
            s.key_epochs (λ k h. ground (arith, h, lt))
          ∙ here in
        omega (
          arith,
          lt,
          max_own-delete rid r.relationship_id r.prior_epoch s.key_epochs,
          max_own-exists rid r.epoch s.key_epochs here,
          max_own-exists rid r.epoch
              (delete (own_key_of r.relationship_id r.prior_epoch) s.key_epochs) kept,
        )
  ]

  retire_in_txn-Newest : (r : RotationRow) → IsWellFormed r → Keeps Newest (retire_in_txn r)
  unfolding retire_in_txn delete_keys ◌>>=◌ own_epochs Newest
  retire_in_txn-Newest r w = record {
    at = λ s h. elim (Bool-cases (exists (own_key_of r.relationship_id r.epoch) s.key_epochs)) [
      | inr e ↦ rw e h
      | inl e ↦
          elim (Bool-cases (
            exists
              (λ k.
                own_key_of r.relationship_id r.prior_epoch k
                && exists (λ x. key_of x.relationship_id x.key_epoch k) s.events)
              s.key_epochs)) [
                | inl f ↦ rw (e, f) h
                | inr f ↦
                    rw (e, f)
                      (
                        retired-newest r s w.0 e ∙ h.0,
                        All-select IsWellFormed
                            (λ q. not (
                              rotation_of r.relationship_id r.epoch rotating q
                              && is_committed q.phase))
                            s.key_rotations h.1,
                        exists-select (timed_out now)
                            (λ q. not (
                              rotation_of r.relationship_id r.epoch rotating q
                              && is_committed q.phase))
                            s.key_rotations h.2,
                      )
              ]
    ];
  }

  delete_path-Newest : (file : Option KeyFile) → Keeps Newest (delete_path file)
  unfolding delete_path own_epochs Newest
  delete_path-Newest none = reads-Keeps
  delete_path-Newest (some file) = record { at = λ s h. h }

  retire_if-Newest :
      (due : Option Bool) (r : RotationRow) → IsWellFormed r → Keeps Newest (retire_if due r)
  unfolding retire_if
  retire_if-Newest none r w = reads-Keeps
  retire_if-Newest (some due) r w =
      if-Keeps due
        (bind-Keeps (transaction-Keeps (retire_in_txn-Newest r w)) λ file. delete_path-Newest file)
        reads-Keeps

  retire_all-Newest :
      (rows : List RotationRow) → All IsWellFormed rows → Keeps Newest (retire_all now rows)
  unfolding retire_all
  retire_all-Newest [] w = reads-Keeps
  retire_all-Newest (r ∷ rs) w =
      bind-Keeps (retire_if-Newest (is_due now r) r w.0) λ _. retire_all-Newest rs w.1

  retire_old_keys-Newest : Keeps Newest (retire_old_keys now)
  unfolding retire_old_keys ◌>>=◌ Newest
  retire_old_keys-Newest = record {
    at = λ s h.
        (retire_all-Newest
            (select (λ r. same_role r.role rotating && is_committed r.phase) s.key_rotations)
            (All-select IsWellFormed (λ r. same_role r.role rotating && is_committed r.phase)
              s.key_rotations h.1)).at
          s h;
  }

  ago-Newest : (span : ℕ) → Keeps Newest (ago now span)
  unfolding ago
  ago-Newest span = if-Keeps (leb span now) reads-Keeps reads-Keeps

  compact_peer_key_epochs-Newest : Keeps Newest compact_peer_key_epochs
  unfolding compact_peer_key_epochs delete_keys ◌>>=◌ own_epochs Newest
  compact_peer_key_epochs-Newest = record {
    at = λ s h.
        elim (Bool-cases (
          exists
            (λ k.
              is_outdated_peer_key s.key_epochs k
              && exists (λ x. key_of x.relationship_id x.key_epoch k) s.events)
            s.key_epochs)) [
              | inl f ↦ rw f h
              | inr f ↦ rw f (max_own-peers rid s.key_epochs s.key_epochs ∙ h.0, h.1, h.2)
            ];
  }

  rotations_deleted-Newest :
      (p : RotationRow → Bool) (s : Keys)
      → Newest s
      → Newest (record s { key_rotations = delete p s.key_rotations })
  unfolding Newest own_epochs
  rotations_deleted-Newest p s h = (
    h.0,
    All-select IsWellFormed (λ r. not (p r)) s.key_rotations h.1,
    exists-select (timed_out now) (λ r. not (p r)) s.key_rotations h.2,
  )

  compact_tables-Newest : Keeps Newest (compact_tables now)
  unfolding compact_tables Newest own_epochs
  compact_tables-Newest = transaction-Keeps (
      bind-Keeps (ago-Newest _) λ _.
        bind-Keeps (record { at = λ s h. h })
          λ _. bind-Keeps (ago-Newest _) λ _.
            bind-Keeps (record { at = λ s h. h })
              λ _. bind-Keeps (ago-Newest _) λ limit. bind-Keeps reads-Keeps λ all.
                bind-Keeps (record { at = rotations_deleted-Newest (is_superseded limit all) })
                  λ _.
                    bind-Keeps compact_peer_key_epochs-Newest
                      λ _. bind-Keeps (ago-Newest _) λ _. record { at = λ s h. h })

  claim_timed_out-Newest : (s : Keys) → Newest s → claim_timed_out now s ≡ (done none, s)
  unfolding claim_timed_out claim_row Newest ◌>>=◌ transaction
  claim_timed_out-Newest s h = rw (no_timeout now s.key_rotations h.2) refl

  after_claim-Newest :
      Keeps Newest
        (claim_timed_out now >>= λ claimed. (report claimed >>= λ _. retire_old_keys now))
  unfolding ◌>>=◌ report
  after_claim-Newest = record {
    at = λ s h. rw (claim_timed_out-Newest s h) (retire_old_keys-Newest.at s h);
  }

  sweep-Newest : Keeps Newest (sweep now)
  unfolding sweep
  sweep-Newest = bind-Keeps compact_tables-Newest λ _. after_claim-Newest

-- A sweep that finds no timed-out candidate, where all rotations are well-formed, leaves the
-- greatest own epoch of every relationship as it was, whatever old keys it deletes and however it
-- ends.
pub sweep-newest :
    (rid : String) (now : ℕ) (s : Keys)
    → All IsWellFormed s.key_rotations
    → exists (timed_out now) s.key_rotations ≡ false
    → max_own (own_epochs rid (sweep now s).1) ≡ max_own (own_epochs rid s)
unfolding Newest
sweep-newest rid now s w quiet =
    ((sweep-Newest rid now (max_own (own_epochs rid s))).at s (refl, w, quiet)).0
