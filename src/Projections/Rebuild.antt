-- ===== src/Projections/Rebuild.antt =====
-- `_iter_relationship_events`, `rebuild_projections` and `expire_pending_refs`.
pub mod Lift
pub mod Failures
pub mod Order
pub mod Expiry
use muse_agent_social.Prelude.{
  ℕ, String, Bool, true, false, not, ◌&&◌, ◌||◌, Option, none, some, List, [], ◌∷◌, ◌==◌, ltb,
  nat_eq, text_lt, present, length, if◌then◌else◌,
}
use muse_agent_social.Prelude.Table.{exists, select, count, delete}
use muse_agent_social.Time.{sub_seconds}
use muse_agent_social.Store.Events.{Event, EventRow}
use muse_agent_social.Store.Tables.{
  Db, PendingRef, RefKind, RefState, waiting, expired, reply_ref, unavailable, payload_missing,
}
use muse_agent_social.Store.Txn.{
  Txn, ◌>>=◌, ◌>>◌, pure, throw, reject, gets, modify, catch, transaction, value_error,
}
use muse_agent_social.Projections.Targets.{pending_target_ttl_seconds}
use muse_agent_social.Projections.Quarantine.{quarantine_event}
use muse_agent_social.Projections.Apply.{
  staged, is_waiting, is_reply, join, mark_ref, set_reply_state, apply_inner,
}

-- ORDER BY created_at, sender, sender_seq, event_id.
unfoldable pub before : Event → Event → Bool
before a b =
    text_lt a.created_at b.created_at
    || (a.created_at == b.created_at
        && (text_lt a.sender b.sender
            || (a.sender == b.sender
                && (ltb a.sender_seq b.sender_seq
                    || (nat_eq a.sender_seq b.sender_seq && text_lt a.event_id b.event_id)))))

unfoldable pub insert_in_order : Event → List Event → List Event
unfolding before
insert_in_order e [] = e ∷ []
insert_in_order e (x ∷ xs) =
    let rest = insert_in_order e xs in if before e x then e ∷ x ∷ xs else x ∷ rest

unfoldable pub sort_events : List Event → List Event
unfolding insert_in_order
sort_events [] = []
sort_events (e ∷ es) = insert_in_order e (sort_events es)

-- The rows of a relationship that have a staged payload.
unfoldable pub joined : String → Db → List EventRow → List Event
unfolding staged
joined relationship_id db [] = []
joined relationship_id db (row ∷ rows) =
    let rest = joined relationship_id db rows in
    if row.relationship_id == relationship_id
    then elim (staged row.event_id db) [ none ↦ rest | some p ↦ join row p ∷ rest ]
    else rest

unfoldable pub relationship_events : String → Db → List Event
unfolding joined sort_events
relationship_events relationship_id db = sort_events (joined relationship_id db db.events)

abbrev pub is_unstaged : String → Db → EventRow → Bool
is_unstaged relationship_id db row =
    row.relationship_id == relationship_id
    && elim (staged row.event_id db) [ none ↦ true | some _ ↦ false ]

-- Does the log of the relationship hold the event?
abbrev logged : String → Db → String → Bool
logged relationship_id db event_id =
    exists (λ e. e.relationship_id == relationship_id && e.event_id == event_id) db.events

-- Does an event of the relationship name the thread, which is registered?
abbrev names_thread : String → Db → String → Bool
names_thread relationship_id db thread_id =
    exists (λ t. t.thread_id == thread_id) db.threads
    && exists
        (λ e.
          e.relationship_id == relationship_id
          && elim e.thread_id [ none ↦ false | some t ↦ t == thread_id ])
        db.events

-- `_WIPES`, and the quarantine rows of logged events.
unfoldable pub wipe : String → Db → Db
wipe rel db = record db {
  messages = delete (λ r. r.relationship_id == rel) db.messages;
  message_revisions = delete (λ r. logged rel db r.event_id) db.message_revisions;
  reactions = delete (λ r. logged rel db r.added_event_id) db.reactions;
  receipts = delete (λ r. logged rel db r.receipt_event_id) db.receipts;
  polls = delete (λ r. r.relationship_id == rel) db.polls;
  poll_responses = delete (λ r. logged rel db r.response_event_id) db.poll_responses;
  tasks = delete (λ r. r.relationship_id == rel) db.tasks;
  human_requests = delete (λ r. r.relationship_id == rel) db.human_requests;
  deliveries = delete (λ r. r.relationship_id == rel) db.deliveries;
  security_key_events = delete (λ r. r.relationship_id == rel) db.security_key_events;
  thread_state = delete (λ r. names_thread rel db r.thread_id) db.thread_state;
  pending_refs = delete (λ r. r.relationship_id == rel) db.pending_refs;
  projection_cursors = delete (λ r. r.relationship_id == rel) db.projection_cursors;
  sequence_gaps = delete (λ r. r.relationship_id == rel) db.sequence_gaps;
  quarantine = delete (λ q. q.relationship_id == rel && logged rel db q.event_id) db.quarantine;
}

abbrev pub received_or : Option String → String → String
received_or received now = elim (present received) [ none ↦ now | some at ↦ at ]

replay_one : Event → String → Txn (Unit {0})
replay_one ev now =
    catch (do _ ← apply_inner ev (received_or ev.received_at now); pure tt)
      λ code. do
        _ ← quarantine_event ev.relationship_id ev.sender ev.sender_seq ev.event_id code
        pure tt

replay : List Event → String → Txn (Unit {0})
unfolding replay_one
replay [] now = pure tt
replay (ev ∷ evs) now = do replay_one ev now; replay evs now

rebuild_body : String → Txn (Unit {0})
unfolding replay wipe relationship_events
rebuild_body relationship_id = do
  now ← gets (λ db. db.clock)
  unstaged ← gets (λ db. count (is_unstaged relationship_id db) db.events)
  if not (nat_eq unstaged 0) then reject payload_missing else do
    modify (wipe relationship_id)
    evs ← gets (relationship_events relationship_id)
    replay evs now

unfoldable pub rebuild_projections : String → Txn (Unit {0})
unfolding rebuild_body transaction
rebuild_projections relationship_id = transaction (rebuild_body relationship_id)

abbrev pub is_overdue : String → String → PendingRef → Bool
is_overdue relationship_id threshold r =
    r.relationship_id == relationship_id && is_waiting r.state && text_lt r.created_at threshold

expire_ref : PendingRef → Txn (Unit {0})
unfolding mark_ref set_reply_state
expire_ref ref = do
  mark_ref ref.event_id expired
  if is_reply ref.kind then set_reply_state ref.event_id unavailable else pure tt

expire_refs : List PendingRef → Txn (Unit {0})
unfolding expire_ref
expire_refs [] = pure tt
expire_refs (ref ∷ refs) = do expire_ref ref; expire_refs refs

expire_before : String → Option String → Txn ℕ
unfolding expire_refs
expire_before relationship_id none = throw value_error
expire_before relationship_id (some threshold) = do
  refs ← gets (λ db. select (is_overdue relationship_id threshold) db.pending_refs)
  expire_refs refs
  pure (length refs)

-- `now` is the caller's time, or the clock's where it gives none.
unfoldable pub expire_pending_refs : String → Option String → Txn ℕ
unfolding expire_before ◌>>=◌
expire_pending_refs relationship_id now = do
  moment ← gets (λ db. received_or now db.clock)
  expire_before relationship_id (sub_seconds moment pending_target_ttl_seconds)
