-- ===== src/Projections/Sequence/Gaps.antt =====
-- What one call of `_update_seq_state` does to the cursor and the gaps.
use muse_agent_social.Prelude.{
  ℕ, zero, suc, ◌+◌, ◌-◌, ◌≤◌, min, max, String, Bool, not, ◌&&◌, ◌||◌, List, ◌≡◌, refl, inl, inr,
  ap, arith, ◌==◌, eq_iff, eq_refl, Bool-cases, Option-cases, ltb, leb, nat_eq, length,
  length-append, fun_ext, [], ◌∷◌, if◌then◌else◌,
}
use muse_agent_social.Prelude.Table.{exists, select, delete}
use muse_agent_social.Prelude.TableLaws.{
  exists-insert, not-exists_of_find, find-update_self, find-insert, exists-delete,
  exists-delete_self,
}
use muse_agent_social.Store.Tables.{Db, GapRow}
use muse_agent_social.Projections.Sequence.{
  max_seq_gap, of_sender, gap_at, high_water, cursor_of, new_gap, mark_gap, record_gaps,
  update_seq_state,
}

abbrev pub same_sender : String → String → String → String → Bool
same_sender rel sender r s = rel == r && sender == s

-- Is `k` one of the `left` numbers from `missing` on?
abbrev pub in_range : ℕ → ℕ → ℕ → Bool
in_range missing left k = leb missing k && ltb k (missing + left)

module _ (rel sender at r s : String) where
  mark_gap-exists :
      (missing : ℕ) (gaps : List GapRow) (k : ℕ)
      → exists (gap_at r s k) (mark_gap rel sender missing at gaps)
        ≡ (exists (gap_at r s k) gaps || (same_sender rel sender r s && nat_eq missing k))
  unfolding mark_gap
  mark_gap-exists missing gaps k =
      elim (Bool-cases (same_sender rel sender r s && nat_eq missing k)) [
        | inl e ↦
            let same : gap_at rel sender missing ≡ gap_at r s k =
              fun_ext λ g. ground (arith, eq_iff rel r, eq_iff sender s) in
            ground (
              arith,
              exists-insert (gap_at r s k) gaps (new_gap rel sender missing at),
              ap (λ p. exists p gaps) same,
            )
        | inr e ↦ ground (arith, exists-insert (gap_at r s k) gaps (new_gap rel sender missing at))
      ]

  -- The loop records every number of its range for its sender, and no other.
  record_gaps-exists :
      (left missing : ℕ) (gaps : List GapRow) (k : ℕ)
      → exists (gap_at r s k) (record_gaps left missing rel sender at gaps).1
        ≡ (exists (gap_at r s k) gaps || (same_sender rel sender r s && in_range missing left k))
  unfolding record_gaps
  record_gaps-exists zero missing gaps k = ground arith
  record_gaps-exists (suc left) missing gaps k = ground (
    arith,
    record_gaps-exists left (missing + 1) (mark_gap rel sender missing at gaps) k,
    mark_gap-exists missing gaps k,
  )

fill_gap-exists :
    (rel sender r s : String) (seq : ℕ) (gaps : List GapRow) (k : ℕ)
    → exists (gap_at r s k) (delete (gap_at rel sender seq) gaps)
      ≡ (exists (gap_at r s k) gaps && not (same_sender rel sender r s && nat_eq seq k))
fill_gap-exists rel sender r s seq gaps k =
    elim (Bool-cases (same_sender rel sender r s && nat_eq seq k)) [
      | inl e ↦
          let same : gap_at rel sender seq ≡ gap_at r s k =
            fun_ext λ g. ground (arith, eq_iff rel r, eq_iff sender s) in
          ground (
            arith,
            exists-delete_self (gap_at rel sender seq) gaps,
            ap (λ p. exists p (delete (gap_at rel sender seq) gaps)) same,
          )
      | inr e ↦ ground (
        arith,
        exists-delete (gap_at rel sender seq) (gap_at r s k) gaps (λ g h. ground (
          arith,
          eq_iff g.relationship_id r,
          eq_iff g.sender s,
          eq_iff g.relationship_id rel,
          eq_iff g.sender sender,
          eq_iff rel r,
          eq_iff sender s,
        )),
      )
    ]

length-mark_gap :
    (rel sender : String) (missing : ℕ) (at : String) (gaps : List GapRow)
    → length (mark_gap rel sender missing at gaps) ≤ length gaps + 1
unfolding mark_gap
length-mark_gap rel sender missing at gaps =
    ground (arith, length-append gaps (new_gap rel sender missing at ∷ []))

length-record_gaps :
    (left missing : ℕ) (rel sender at : String) (gaps : List GapRow)
    → length (record_gaps left missing rel sender at gaps).1 ≤ length gaps + left
unfolding record_gaps
length-record_gaps zero missing rel sender at gaps = omega arith
length-record_gaps (suc left) missing rel sender at gaps = omega (
  arith,
  length-record_gaps left (missing + 1) rel sender at (mark_gap rel sender missing at gaps),
  length-mark_gap rel sender missing at gaps,
)

length-select-le : (q : GapRow → Bool) (gaps : List GapRow) → length (select q gaps) ≤ length gaps
unfolding select
length-select-le q [] = omega arith
length-select-le q (g ∷ gaps) = ground (arith, length-select-le q gaps)

module _ (rel sender : String) (seq : ℕ) (at : String) (db : Db) where
  abbrev after : Db
  after = (update_seq_state rel sender seq at db).1

  abbrev before : ℕ
  before = high_water (cursor_of rel sender db)

  -- One event records at most `MAX_SEQ_GAP` gap rows, whatever sequence number it claims.
  pub update_seq_state-bounded : length after.sequence_gaps ≤ length db.sequence_gaps + max_seq_gap
  unfolding update_seq_state
  update_seq_state-bounded = ground (
    arith,
    length-record_gaps (min (seq - before - 1) max_seq_gap) (before + 1) rel sender at
        db.sequence_gaps,
    length-select-le (λ g. not (gap_at rel sender seq g)) db.sequence_gaps,
  )

  -- The sender's cursor is the greater of what it was and the number of the event.
  pub update_seq_state-cursor : high_water (cursor_of rel sender after) ≡ max before seq
  unfolding update_seq_state cursor_of
  update_seq_state-cursor = elim (Option-cases (cursor_of rel sender db)) [
    | inl e ↦ ground (
      arith,
      find-insert (of_sender rel sender) db.projection_cursors
          (record { relationship_id = rel; sender = sender; max_seq = seq }),
      not-exists_of_find (of_sender rel sender) db.projection_cursors e,
      eq_refl rel,
      eq_refl sender,
    )
    | inr (row, e) ↦ ground (
      arith,
      find-update_self (of_sender rel sender) (λ c. record c { max_seq = seq }) (λ x. refl)
          db.projection_cursors row e,
    )
  ]

  -- The gap rows after the event, of any sender.
  pub update_seq_state-gaps :
      (r s : String) (k : ℕ)
      → exists (gap_at r s k) after.sequence_gaps ≡ (
          if ltb before seq
          then exists (gap_at r s k) db.sequence_gaps
            || (same_sender rel sender r s
                && in_range (before + 1) (min (seq - before - 1) max_seq_gap) k)
          else exists (gap_at r s k) db.sequence_gaps
            && not (same_sender rel sender r s && nat_eq seq k))
  unfolding update_seq_state
  update_seq_state-gaps r s k = ground (
    arith,
    record_gaps-exists rel sender at r s (min (seq - before - 1) max_seq_gap) (before + 1)
        db.sequence_gaps k,
    fill_gap-exists rel sender r s seq db.sequence_gaps k,
  )
