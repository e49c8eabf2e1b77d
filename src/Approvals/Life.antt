-- ===== src/Approvals/Life.antt =====
-- `consume_approval` on one record and on the others.
use muse_agent_social.Prelude.{
  String, Bool, true, false, ◌&&◌, some, List, [], ◌∷◌, ◌≡◌, refl, inl, inr, arith, ◌==◌, eq_iff,
  Bool-cases, Option-cases, ◌⊎◌,
}
use muse_agent_social.Prelude.Table.{find, exists, update}
use muse_agent_social.Prelude.TableLaws.{exists-insert}
use muse_agent_social.Store.Tables.{ApprovalRow}
use muse_agent_social.Approvals.{
  NewApproval, Created, created, refused, create_approval, expiry_for, subject, new_approval,
  Bindings, claims, consume_approval, consumed_row, get_approval, unconsumed,
}
use muse_agent_social.Approvals.Claimable.{
  has_id, IsKeyed, same_id, no_claim, IsClaimable, HasClaimable, test-IsClaimable, get-claimed,
  taken, update-unclaimed, untaken,
}

get-update :
    (id other now : String) (b : Bindings) (rs : List ApprovalRow)
    → ¬ (id ≡ other)
    → get_approval other (update (claims id now b) (consumed_row now) rs) ≡ get_approval other rs
unfolding get_approval update find claims
get-update id other now b [] ne = refl
get-update id other now b (r ∷ rs) ne =
    ground
      (arith, get-update id other now b rs ne, eq_iff r.approval_id id, eq_iff r.approval_id other)

-- An unconsumed record of the id.
abbrev is_open : String → ApprovalRow → Bool
is_open id r = r.approval_id == id && unconsumed r

no_open :
    (id : String) (rs : List ApprovalRow)
    → exists (has_id id) rs ≡ false
    → exists (is_open id) rs ≡ false
unfolding exists
no_open id [] h = refl
no_open id (r ∷ rs) h = ground (arith, no_open id rs)

-- A claim closes the only record of its id.
open-claimed :
    (id now : String) (b : Bindings) (rs : List ApprovalRow)
    → IsKeyed rs
    → exists (claims id now b) rs ≡ true
    → exists (is_open id) (update (claims id now b) (consumed_row now) rs) ≡ false
unfolding exists update claims
open-claimed id now b [] k h = ground (arith, h)
open-claimed id now b (r ∷ rs) k h = elim (Bool-cases (claims id now b r)) [
  | inl e ↦ ground (arith, no_open id rs (same_id id r rs (ground arith) k.0))
  | inr e ↦ ground (
    arith,
    open-claimed id now b rs k.1 (ground arith),
    no_claim id now b rs,
    eq_iff r.approval_id id,
  )
]

-- No claim opens a record.
open-update :
    (id other now : String) (b : Bindings) (rs : List ApprovalRow)
    → exists (is_open id) rs ≡ false
    → exists (is_open id) (update (claims other now b) (consumed_row now) rs) ≡ false
unfolding exists update
open-update id other now b [] h = h
open-update id other now b (r ∷ rs) h = ground (arith, open-update id other now b rs)

closed-unclaimed :
    (id now : String) (b : Bindings) (rs : List ApprovalRow)
    → exists (is_open id) rs ≡ false
    → exists (claims id now b) rs ≡ false
unfolding exists claims
closed-unclaimed id now b [] h = refl
closed-unclaimed id now b (r ∷ rs) h = ground (arith, closed-unclaimed id now b rs)

-- The two functions that write approvals; a creation carries the id that it draws.
pub data Call : Type 0 where
  consuming : String → String → Bindings → Call
  creating : String → NewApproval → Call

-- A creation that is refused writes nothing.
abbrev pub rows_of : List ApprovalRow → Created → List ApprovalRow
rows_of before (created id rows) = rows
rows_of before (refused fault) = before

abbrev pub calls : List Call → List ApprovalRow → List ApprovalRow
calls [] rows = rows
calls (consuming id now b ∷ later) rows = calls later (consume_approval id now b rows).1
calls (creating id a ∷ later) rows = calls later (rows_of rows (create_approval id a rows))

-- No creation draws the id again.
abbrev pub IsFresh : String → List Call → Type 0
IsFresh id [] = Unit
IsFresh id (consuming other now b ∷ later) = IsFresh id later
IsFresh id (creating other a ∷ later) = ((other == id) ≡ false) × IsFresh id later

open-created :
    (id other : String) (a : NewApproval) (rows : List ApprovalRow)
    → (other == id) ≡ false
    → exists (is_open id) rows ≡ false
    → exists (is_open id) (rows_of rows (create_approval other a rows)) ≡ false
unfolding create_approval
open-created id other a rows fresh h = elim (Option-cases (subject a.subject_type)) [
  | inl e ↦ rw (rows_of, e) h
  | inr (kind, e) ↦ elim (Option-cases (expiry_for a.created_at a.expires_at)) [
    | inl f ↦ rw (rows_of, e, f) h
    | inr (expires_at, f) ↦
        rw (rows_of, e, f)
          (rw (exists-insert (is_open id) rows (new_approval other kind expires_at a), h, fresh)
            refl)
  ]
]

open-calls :
    (id : String) (between : List Call) (rows : List ApprovalRow)
    → IsFresh id between
    → exists (is_open id) rows ≡ false
    → exists (is_open id) (calls between rows) ≡ false
unfolding consume_approval
open-calls id [] rows fresh h = h
open-calls id (consuming other now b ∷ later) rows fresh h =
    open-calls id later (consume_approval other now b rows).1 fresh
      (open-update id other now b rows h)
open-calls id (creating other a ∷ later) rows fresh h =
    open-calls id later (rows_of rows (create_approval other a rows)) fresh.1
      (open-created id other a rows fresh.0 h)

-- Where approval ids are unique, an approval that one call consumed is refused to every later call
-- of `consume_approval`, at any time and with any bindings, whatever calls of `consume_approval` and
-- `create_approval` came in between, as long as no creation draws the same id again. The scheduler's
-- restoring of an approval is not among these calls.
pub consume_approval-once :
    (id now later : String) (b b' : Bindings) (between : List Call) (rows : List ApprovalRow)
    → IsKeyed rows
    → IsFresh id between
    → (consume_approval id now b rows).0 ≡ true
    → (consume_approval id later b' (calls between (consume_approval id now b rows).1)).0 ≡ false
unfolding consume_approval
consume_approval-once id now later b b' between rows k fresh h =
    closed-unclaimed id later b' (calls between (consume_approval id now b rows).1) (
      open-calls id between (consume_approval id now b rows).1 fresh
        (open-claimed id now b rows k h))

-- Where approval ids are unique, a call goes one of two ways. The record with the id exists, is not
-- consumed, expires after the time of the call and has the value of each binding that is given: the
-- call consumes, and the record then carries the time of the call, with all else as it was. Or there
-- is no such record: the call is refused and changes nothing. Records with another id are as they
-- were either way.
pub consume_approval_lem :
    (id other now : String) (b : Bindings) (rows : List ApprovalRow)
    → IsKeyed rows
    → let (accepted, after) = consume_approval id now b rows in
      (((accepted ≡ true)
          × ((r : ApprovalRow) × (get_approval id rows ≡ some r)
              × IsClaimable now b r
              × (get_approval id after ≡ some (record r { consumed_at = some now }))))
        ⊎ ((accepted ≡ false) × ¬ (HasClaimable id now b rows) × (after ≡ rows)))
      × ((id ≡ other) ⊎ (get_approval other after ≡ get_approval other rows))
unfolding consume_approval
consume_approval_lem id other now b rows k = (
  elim (Bool-cases (exists (claims id now b) rows)) [
    | inl h ↦
        let (r, e, c) = taken id now b rows k h in
        inl (h, (r, e, test-IsClaimable now b r c, get-claimed id now b rows r k e c))
    | inr h ↦ inr (h, untaken id now b rows k h, update-unclaimed id now b rows h)
  ],
  elim (Bool-cases (id == other)) [
    | inl e ↦ inl ((eq_iff id other).0 e)
    | inr e ↦ inr (get-update id other now b rows (λ p. ground (arith, e, (eq_iff id other).1 p)))
  ],
)
