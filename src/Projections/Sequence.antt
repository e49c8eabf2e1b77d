-- ===== src/Projections/Sequence.antt =====
-- Per-sender high-water marks and gaps: `_update_seq_state`.
pub mod Gaps
pub mod Cursors
use muse_agent_social.Prelude.{
  ℕ, zero, suc, ◌+◌, ◌-◌, min, String, Bool, ◌&&◌, Option, none, some, List, [], ◌∷◌, ◌==◌, ltb,
  nat_eq, if◌then◌else◌,
}
use muse_agent_social.Prelude.Table.{find, exists, insert, insert_or_ignore, update, delete}
use muse_agent_social.Store.Tables.{Db, CursorRow, GapRow}
use muse_agent_social.Store.Txn.{Txn, ◌>>=◌, ◌>>◌, pure, gets, modify}
use muse_agent_social.Projections.Mutations.{
  Mutation, mutation, inserted, deleted, sequence_gaps, text, number,
}

-- policy/limits.py
abbrev pub max_seq_gap : ℕ
max_seq_gap = 100000

abbrev pub of_sender : String → String → CursorRow → Bool
of_sender relationship_id sender c = c.relationship_id == relationship_id && c.sender == sender

abbrev pub gap_at : String → String → ℕ → GapRow → Bool
gap_at relationship_id sender seq g =
    g.relationship_id == relationship_id && g.sender == sender && nat_eq g.missing_seq seq

-- `int(row["max_seq"]) if row else 0`
abbrev pub high_water : Option CursorRow → ℕ
high_water none = 0
high_water (some c) = c.max_seq

unfoldable pub cursor_of : String → String → Db → Option CursorRow
cursor_of relationship_id sender db = find (of_sender relationship_id sender) db.projection_cursors

abbrev pub new_gap : String → String → ℕ → String → GapRow
new_gap relationship_id sender missing observed_at = record {
  relationship_id = relationship_id;
  sender = sender;
  missing_seq = missing;
  first_observed_at = observed_at;
}

-- INSERT OR IGNORE INTO sequence_gaps
unfoldable pub mark_gap : String → String → ℕ → String → List GapRow → List GapRow
mark_gap relationship_id sender missing observed_at gaps =
    insert_or_ignore (gap_at relationship_id sender missing)
      (new_gap relationship_id sender missing observed_at) gaps

-- The loop over `range(missing, missing + left)`.
unfoldable pub record_gaps :
    ℕ → ℕ → String → String → String → List GapRow → List Mutation × List GapRow
unfolding mark_gap
record_gaps zero missing relationship_id sender observed_at gaps = ([], gaps)
record_gaps (suc left) missing relationship_id sender observed_at gaps =
    let known = exists (gap_at relationship_id sender missing) gaps in
    let (ms, gaps') =
      record_gaps left (missing + 1) relationship_id sender observed_at
        (mark_gap relationship_id sender missing observed_at gaps) in
    let m : Mutation =
      mutation inserted sequence_gaps (text sender ∷ number missing ∷ [])
        (("state", text "unresolved") ∷ []) in
    (if known then ms else m ∷ ms, gaps')

write_cursor : String → String → ℕ → Option CursorRow → Txn (Unit {0})
write_cursor relationship_id sender seq none = modify (λ db. record db {
  projection_cursors =
      insert (record { relationship_id = relationship_id; sender = sender; max_seq = seq })
        db.projection_cursors;
})
write_cursor relationship_id sender seq (some c) =
    if ltb c.max_seq seq
    then modify (λ db. record db {
      projection_cursors =
          update (of_sender relationship_id sender) (λ r. record r { max_seq = seq })
            db.projection_cursors;
    })
    else pure tt

mark_gaps : String → String → ℕ → String → ℕ → Txn (List Mutation)
unfolding record_gaps
mark_gaps relationship_id sender seq observed_at prev_max = do
  let recordable = min (seq - prev_max - 1) max_seq_gap
  found ← gets (λ db.
      record_gaps recordable (prev_max + 1) relationship_id sender observed_at db.sequence_gaps)
  modify (λ db. record db { sequence_gaps = found.1 })
  pure found.0

fill_gap : String → String → ℕ → Txn (List Mutation)
fill_gap relationship_id sender seq = do
  rowcount ← gets (λ db. exists (gap_at relationship_id sender seq) db.sequence_gaps)
  modify (λ db. record db {
    sequence_gaps = delete (gap_at relationship_id sender seq) db.sequence_gaps;
  })
  pure (
      if rowcount
      then mutation deleted sequence_gaps (text sender ∷ number seq ∷ [])
          (("state", text "resolved") ∷ [])
        ∷ []
      else [])

unfoldable pub update_seq_state : String → String → ℕ → String → Txn (List Mutation)
unfolding cursor_of write_cursor mark_gaps fill_gap ◌>>=◌
update_seq_state relationship_id sender seq observed_at = do
  row ← gets (cursor_of relationship_id sender)
  write_cursor relationship_id sender seq row
  if ltb (high_water row) seq
      then mark_gaps relationship_id sender seq observed_at (high_water row)
      else fill_gap relationship_id sender seq
