-- ===== src/Projections/Apply/Forks.antt =====
-- Two events of one sender under one sequence number.
use muse_agent_social.Prelude.{
  Bool, true, not, ◌&&◌, none, some, List, [], ◌∷◌, ◌++◌, ◌≡◌, ◌⊎◌, refl, ◌==◌, nat_eq, arith,
  eq_refl, eq_iff, Bool-cases, Option-cases, inl, inr,
}
use muse_agent_social.Prelude.Table.{exists, find}
use muse_agent_social.Prelude.TableLaws.{exists-insert}
use muse_agent_social.Store.Events.{Event, EventRow}
use muse_agent_social.Store.Tables.{Db, QuarantineRow, sequence_fork}
use muse_agent_social.Store.Txn.{Txn, done, ◌>>=◌, pure}
use muse_agent_social.Projections.Mutations.{Mutation, mutation, quarantined, quarantine, text}
use muse_agent_social.Projections.Quarantine.{
  fork_clash, quarantine_clash, quarantine_event, check_fork,
}
use muse_agent_social.Projections.Sequence.{update_seq_state}
use muse_agent_social.Projections.Apply.{
  apply_event, apply_inner, project, dispatch, resolve_pending, acceptance_time,
}

abbrev pub of_event : Event → QuarantineRow → Bool
of_event ev q =
    q.relationship_id == ev.relationship_id
    && q.sender == ev.sender
    && nat_eq q.sender_seq ev.sender_seq
    && q.event_id == ev.event_id

abbrev quarantine_row : Event → Db → QuarantineRow
quarantine_row ev db = record {
  relationship_id = ev.relationship_id;
  sender = ev.sender;
  sender_seq = ev.sender_seq;
  event_id = ev.event_id;
  reason = sequence_fork;
  quarantined_at = db.clock;
}

-- Another event of the same sender in the same relationship under the same sequence number.
abbrev pub IsFork : Event → EventRow → Type 0
IsFork ev e =
    (e.relationship_id ≡ ev.relationship_id)
    × (e.sender ≡ ev.sender)
    × (e.sender_seq ≡ ev.sender_seq)
    × ¬ (e.event_id ≡ ev.event_id)

-- The log holds one.
abbrev pub HasFork : Event → List EventRow → Type 0
HasFork ev [] = ⊥
HasFork ev (e ∷ es) = IsFork ev e ⊎ HasFork ev es

abbrev clashes : Event → EventRow → Bool
clashes ev e =
    e.relationship_id == ev.relationship_id
    && e.sender == ev.sender
    && nat_eq e.sender_seq ev.sender_seq
    && not (e.event_id == ev.event_id)

IsFork-clashes : (ev : Event) (e : EventRow) → IsFork ev e → clashes ev e ≡ true
IsFork-clashes ev e h = ground (
  arith,
  (eq_iff e.relationship_id ev.relationship_id).1 h.0,
  (eq_iff e.sender ev.sender).1 h.1,
  h.2,
  h.3,
  eq_iff e.event_id ev.event_id,
)

clashes-IsFork : (ev : Event) (e : EventRow) → clashes ev e ≡ true → IsFork ev e
clashes-IsFork ev e h = (
  (eq_iff e.relationship_id ev.relationship_id).0 (ground (arith, h)),
  (eq_iff e.sender ev.sender).0 (ground (arith, h)),
  ground (arith, h),
  λ same. ground (arith, h, (eq_iff e.event_id ev.event_id).1 same),
)

fork_found :
    (ev : Event) (es : List EventRow)
    → HasFork ev es
    → (clash : EventRow) × (find (clashes ev) es ≡ some clash)
unfolding find
fork_found ev [] h = absurd h
fork_found ev (e ∷ es) (inl h) = (e, rw (IsFork-clashes ev e h) refl)
fork_found ev (e ∷ es) (inr h) = elim (Bool-cases (clashes ev e)) [
  | inl c ↦ (e, rw c refl)
  | inr c ↦ let (clash, f) = fork_found ev es h in (clash, rw (c, f) refl)
]

quarantined-fork :
    (ev : Event) (db : Db) (clash : EventRow)
    → fork_clash ev db ≡ some clash
    → let (r, db') = apply_event ev db in
      (r
        ≡ done (
            mutation quarantined quarantine
              (text ev.event_id ∷ [])
              (("reason", text "sequence_fork") ∷ [])
            ∷ []))
      × (db' ≡ record db { quarantine = db'.quarantine })
      × (exists (of_event ev) db'.quarantine ≡ true)
unfolding apply_event apply_inner project check_fork quarantine_clash quarantine_event ◌>>=◌
quarantined-fork ev db clash h = elim (Bool-cases (exists (of_event ev) db.quarantine)) [
  | inl e ↦ ground (arith, eq_refl ev.event_id)
  | inr e ↦ ground (
    arith,
    exists-insert (of_event ev) db.quarantine (quarantine_row ev db),
    eq_refl ev.relationship_id,
    eq_refl ev.sender,
    eq_refl ev.event_id,
  )
]

-- The steps of an event that is no fork: its handler, the references that waited for it, and the
-- sequence bookkeeping of its sender.
abbrev pub unforked : Event → Txn (List Mutation)
unforked ev db =
    (do
      ms ← dispatch ev (acceptance_time ev db)
      woken ← resolve_pending ev.relationship_id ev.event_id (acceptance_time ev db)
      counted ← update_seq_state ev.relationship_id ev.sender ev.sender_seq (acceptance_time ev db)
      pure (ms ++ (woken ++ counted)))
      db

projected : (ev : Event) (db : Db) → fork_clash ev db ≡ none → apply_event ev db ≡ unforked ev db
unfolding apply_event apply_inner project check_fork quarantine_clash ◌>>=◌
projected ev db h = rw h refl

no_fork_of_find :
    (ev : Event) (es : List EventRow) → find (clashes ev) es ≡ none → ¬ (HasFork ev es)
no_fork_of_find ev es h k = let (clash, f) = fork_found ev es k in ground (arith, h, f)

fork_of_find :
    (ev : Event) (es : List EventRow) (clash : EventRow)
    → find (clashes ev) es ≡ some clash
    → HasFork ev es
unfolding find
fork_of_find ev [] clash h = ground (arith, h)
fork_of_find ev (e ∷ es) clash h = elim (Bool-cases (clashes ev e)) [
  | inl c ↦ inl (clashes-IsFork ev e c)
  | inr c ↦ inr (fork_of_find ev es clash (rw c at h))
]

-- Applying an event goes one of two ways. The log holds another event of the same relationship and
-- sender under the same sequence number: one mutation is reported, the event's quarantine; the event
-- has a quarantine row after, and every table but the quarantine is as it was. Or the log holds
-- none: the event goes to its handler, to the references that waited for it, and to the sequence
-- bookkeeping of its sender.
pub apply_event-fork :
    (ev : Event) (db : Db)
    → let (r, db') = apply_event ev db in
      (HasFork ev db.events
        × (r
            ≡ done (
                mutation quarantined quarantine
                  (text ev.event_id ∷ [])
                  (("reason", text "sequence_fork") ∷ [])
                ∷ []))
        × (db' ≡ record db { quarantine = db'.quarantine })
        × (exists (of_event ev) db'.quarantine ≡ true))
      ⊎ (¬ (HasFork ev db.events) × (apply_event ev db ≡ unforked ev db))
unfolding fork_clash
apply_event-fork ev db = elim (Option-cases (find (clashes ev) db.events)) [
  | inl f ↦ inr (no_fork_of_find ev db.events f, projected ev db f)
  | inr (clash, f) ↦
      let (r, d, q) = quarantined-fork ev db clash f in
      inl (fork_of_find ev db.events clash f, r, d, q)
]
