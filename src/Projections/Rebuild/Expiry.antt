-- ===== src/Projections/Rebuild/Expiry.antt =====
-- The references that `expire_pending_refs` marks.
use muse_agent_social.Prelude.{
  String, Bool, false, Option, some, List, [], ◌∷◌, ◌≡◌, refl, inl, inr, sym, subst, arith, ◌==◌,
  eq_iff, eq_refl, length, Bool-cases, if◌then◌else◌,
}
use muse_agent_social.Prelude.Table.{exists, select, count, update}
use muse_agent_social.Store.Tables.{Db, PendingRef, expired}
use muse_agent_social.Store.Txn.{done, ◌>>=◌}
use muse_agent_social.Projections.Targets.{pending_target_ttl_seconds}
use muse_agent_social.Time.{sub_seconds}
use muse_agent_social.Projections.Apply.{mark_ref, set_reply_state}
use muse_agent_social.Projections.Rebuild.{
  is_overdue, expire_ref, expire_refs, expire_before, expire_pending_refs, received_or,
}

abbrev waits_as : String → PendingRef → Bool
waits_as id r = r.event_id == id

-- `event_id` is the primary key of `pending_refs`.
abbrev pub IsKeyed : List PendingRef → Type 0
IsKeyed [] = Unit
IsKeyed (r ∷ rs) = (exists (waits_as r.event_id) rs ≡ false) × IsKeyed rs

abbrev as_expired : PendingRef → PendingRef
as_expired r = record r { state = expired }

-- What the table is after a list of references was expired.
marks : List PendingRef → List PendingRef → List PendingRef
marks [] xs = xs
marks (r ∷ rs) xs = marks rs (update (waits_as r.event_id) as_expired xs)

expire_ref-marks :
    (r : PendingRef) (db : Db)
    → ((expire_ref r db).0 ≡ done tt)
      × ((expire_ref r db).1.pending_refs ≡ update (waits_as r.event_id) as_expired db.pending_refs)
unfolding expire_ref mark_ref set_reply_state ◌>>=◌
expire_ref-marks r db = ground arith

expire_refs-marks :
    (rs : List PendingRef) (db : Db)
    → ((expire_refs rs db).0 ≡ done tt)
      × ((expire_refs rs db).1.pending_refs ≡ marks rs db.pending_refs)
unfolding expire_refs marks ◌>>=◌
expire_refs-marks [] db = (refl, refl)
expire_refs-marks (r ∷ rs) db =
    ground (arith, expire_ref-marks r db, expire_refs-marks rs (expire_ref r db).1)

marks-other :
    (sel : List PendingRef) (x : PendingRef) (xs : List PendingRef)
    → exists (waits_as x.event_id) sel ≡ false
    → marks sel (x ∷ xs) ≡ x ∷ marks sel xs
unfolding marks exists update
marks-other [] x xs h = refl
marks-other (r ∷ rs) x xs h = ground (
  arith,
  marks-other rs x (update (waits_as r.event_id) as_expired xs) (ground arith),
  eq_iff x.event_id r.event_id,
  eq_iff r.event_id x.event_id,
)

not_selected :
    (p q : PendingRef → Bool) (xs : List PendingRef)
    → exists q xs ≡ false
    → exists q (select p xs) ≡ false
unfolding exists select
not_selected p q [] h = refl
not_selected p q (x ∷ xs) h = ground (arith, not_selected p q xs (ground arith))

length-select : (p : PendingRef → Bool) (xs : List PendingRef) → length (select p xs) ≡ count p xs
unfolding select count
length-select p [] = refl
length-select p (x ∷ xs) = ground (arith, length-select p xs)

-- The table with every reference that the test picks expired.
unfoldable pub expire_where : (PendingRef → Bool) → List PendingRef → List PendingRef
expire_where p [] = []
expire_where p (x ∷ xs) = (if p x then as_expired x else x) ∷ expire_where p xs

marks-select :
    (p : PendingRef → Bool) (xs : List PendingRef)
    → IsKeyed xs
    → marks (select p xs) xs ≡ expire_where p xs
unfolding expire_where select marks update
marks-select p [] k = refl
marks-select p (x ∷ xs) k = elim (Bool-cases (p x)) [
  | inl e ↦ ground (
    arith,
    eq_refl x.event_id,
    marks-other (select p xs) (as_expired x) xs (not_selected p (waits_as x.event_id) xs k.0),
    marks-select p xs k.1,
  )
  | inr e ↦ ground (
    arith,
    marks-other (select p xs) x xs (not_selected p (waits_as x.event_id) xs k.0),
    marks-select p xs k.1,
  )
]

expired_before :
    (rel threshold : String) (db : Db)
    → IsKeyed db.pending_refs
    → let (r, db') = expire_before rel (some threshold) db in
      (r ≡ done (count (is_overdue rel threshold) db.pending_refs))
      × (db'.pending_refs ≡ expire_where (is_overdue rel threshold) db.pending_refs)
unfolding expire_before ◌>>=◌
expired_before rel threshold db k = ground (
  arith,
  expire_refs-marks (select (is_overdue rel threshold) db.pending_refs) db,
  marks-select (is_overdue rel threshold) db.pending_refs k,
  length-select (is_overdue rel threshold) db.pending_refs,
)

-- Where event ids are unique in the table and the threshold can be computed, expiry returns, with
-- the number of the waiting references of the relationship that are older than the time limit;
-- exactly these are expired after it, and every other reference is as it was.
pub expire_pending_refs-expires :
    (rel : String) (now : Option String) (db : Db) (threshold : String)
    → IsKeyed db.pending_refs
    → sub_seconds (received_or now db.clock) pending_target_ttl_seconds ≡ some threshold
    → let (r, db') = expire_pending_refs rel now db in
      (r ≡ done (count (is_overdue rel threshold) db.pending_refs))
      × (db'.pending_refs ≡ expire_where (is_overdue rel threshold) db.pending_refs)
unfolding expire_pending_refs ◌>>=◌
expire_pending_refs-expires rel now db threshold k h =
    subst
      (λ t.
        let (r, db') = expire_before rel t db in
        (r ≡ done (count (is_overdue rel threshold) db.pending_refs))
        × (db'.pending_refs ≡ expire_where (is_overdue rel threshold) db.pending_refs))
      (sym h) (expired_before rel threshold db k)
