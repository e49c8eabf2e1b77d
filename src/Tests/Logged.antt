-- ===== src/Tests/Logged.antt =====
-- The log, its sequence numbers, forks and rebuilds.
use muse_agent_social.Prelude.{
  Bool, ◌==◌, String, true, ◌&&◌, ◌||◌, not, some, [], ◌∷◌, ◌≡◌, ◌⊎◌, refl, arith, ◌+◌, ◌-◌, ◌≤◌,
  min, max, ltb, nat_eq, length, if◌then◌else◌,
}
use muse_agent_social.Prelude.Table.{exists, count, find, select, update}
use muse_agent_social.Store.Events.{Event, EventType, Payload}
use muse_agent_social.Store.Tables.{Db, payload_missing, PendingRef, task_update_ref, waiting}
use muse_agent_social.Store.Txn.{done, raised, rejected, ◌>>=◌}
use muse_agent_social.Projections.Mutations.{mutation, quarantined, quarantine, text}
use muse_agent_social.Projections.Apply.{apply_event, apply_inner, dispatch, resolve_pending}
use muse_agent_social.Projections.Apply.Forks.{of_event, HasFork, unforked, apply_event-fork}
use muse_agent_social.Projections.Quarantine.{check_fork, quarantine_clash}
use muse_agent_social.Projections.Sequence.{
  update_seq_state, gap_at, cursor_of, high_water, max_seq_gap,
}
use muse_agent_social.Projections.Sequence.Gaps.{
  update_seq_state-gaps, update_seq_state-cursor, update_seq_state-bounded, same_sender, in_range,
}
use muse_agent_social.Projections.Sequence.Cursors.{
  IsBehind, HasRisen, apply_event-HasRisen, apply_event-cursors,
}
use muse_agent_social.Projections.Rebuild.{rebuild_projections}
use muse_agent_social.Projections.Rebuild.{
  expire_pending_refs, is_overdue, relationship_events, joined,
}
use muse_agent_social.Projections.Rebuild.Expiry.{
  IsKeyed, expire_where, expire_pending_refs-expires,
}
use muse_agent_social.Projections.Rebuild.Order.{IsSorted, relationship_events-IsSorted}
use muse_agent_social.Projections.Targets.{pending_target_ttl_seconds}
use muse_agent_social.Time.{sub_seconds}
use muse_agent_social.Projections.Log.{projections-source}
use muse_agent_social.Tests.{event, db}

abbrev skipping : Event
skipping = event "m9" "alice" 9 EventType.relationship_ready Payload.opaque

abbrev forked : Event
forked = event "m1b" "alice" 1 EventType.relationship_ready Payload.opaque

-- A database that lost the payload of its one event.
abbrev lost : Db
lost = record db { source = record db.source { event_payloads = [] } }

abbrev counted : Db
counted = (update_seq_state "rel" "alice" 9 "2026-01-01T00:00:09Z" db).1

update_seq_state-gaps_example : exists (gap_at "rel" "alice" 7) counted.sequence_gaps ≡ (
    if ltb (high_water (cursor_of "rel" "alice" db)) 9
    then exists (gap_at "rel" "alice" 7) db.sequence_gaps
      || (same_sender "rel" "alice" "rel" "alice"
          && in_range
              (high_water (cursor_of "rel" "alice" db) + 1)
              (min (9 - high_water (cursor_of "rel" "alice" db) - 1) max_seq_gap)
              7)
    else exists (gap_at "rel" "alice" 7) db.sequence_gaps
      && not (same_sender "rel" "alice" "rel" "alice" && nat_eq 9 7))
update_seq_state-gaps_example =
    update_seq_state-gaps "rel" "alice" 9 "2026-01-01T00:00:09Z" db "rel" "alice" 7

update_seq_state-cursor_example :
    high_water (cursor_of "rel" "alice" counted) ≡ max (high_water (cursor_of "rel" "alice" db)) 9
update_seq_state-cursor_example = update_seq_state-cursor "rel" "alice" 9 "2026-01-01T00:00:09Z" db

update_seq_state-bounded_example :
    length counted.sequence_gaps ≤ length db.sequence_gaps + max_seq_gap
update_seq_state-bounded_example =
    update_seq_state-bounded "rel" "alice" 9 "2026-01-01T00:00:09Z" db

db-IsBehind : IsBehind db.projection_cursors db.sequence_gaps
unfolding exists find
db-IsBehind = record { below = λ r s k h. ground arith }

apply_event-cursors_example :
    IsBehind
      (apply_event skipping db).1.projection_cursors
      (apply_event skipping db).1.sequence_gaps
    × HasRisen db.projection_cursors (apply_event skipping db).1.projection_cursors
apply_event-cursors_example = apply_event-cursors skipping db db-IsBehind

apply_event-HasRisen_example :
    HasRisen db.projection_cursors (apply_event skipping db).1.projection_cursors
apply_event-HasRisen_example = apply_event-HasRisen skipping db

apply_event-fork_example :
    let (r, db') = apply_event forked db in
    (HasFork forked db.events
      × (r
          ≡ done (
              mutation quarantined quarantine
                (text "m1b" ∷ [])
                (("reason", text "sequence_fork") ∷ [])
              ∷ []))
      × (db' ≡ record db { quarantine = db'.quarantine })
      × (exists (of_event forked) db'.quarantine ≡ true))
    ⊎ (¬ (HasFork forked db.events) × (apply_event forked db ≡ unforked forked db))
apply_event-fork_example = apply_event-fork forked db

projections-source_example :
    ((apply_event skipping db).1.source ≡ db.source)
    × ((rebuild_projections "rel" db).1.source ≡ db.source)
projections-source_example = projections-source skipping "rel" db

refused : (rebuild_projections "rel" lost).0 ≡ raised (rejected payload_missing)
unfolding rebuild_projections ◌>>=◌ count find
refused = refl

four_gaps : length (apply_event skipping db).1.sequence_gaps ≡ 4
unfolding apply_event ◌>>=◌ apply_inner check_fork quarantine_clash find dispatch exists
    resolve_pending select update_seq_state update count
four_gaps = refl

-- A task update of a week ago that waits for its task, and one of today.
abbrev waits : String → String → PendingRef
waits id created_at = record {
  event_id = id;
  relationship_id = "rel";
  target_event_id = "t9";
  kind = task_update_ref;
  created_at = created_at;
  state = waiting;
}

abbrev late : Db
late = record db {
  pending_refs = waits "w1" "2026-01-01T00:00:00Z" ∷ waits "w2" "2026-01-20T00:00:00Z" ∷ [];
}

late-IsKeyed : IsKeyed late.pending_refs
unfolding exists
late-IsKeyed = (refl, (refl, tt))

a_week_before :
    sub_seconds "2026-01-20T00:00:00Z" pending_target_ttl_seconds ≡ some "2026-01-13T00:00:00Z"
unfolding sub_seconds
a_week_before = refl

expire_pending_refs-expires_example :
    ((expire_pending_refs "rel" (some "2026-01-20T00:00:00Z") late).0
      ≡ done (count (is_overdue "rel" "2026-01-13T00:00:00Z") late.pending_refs))
    × ((expire_pending_refs "rel" (some "2026-01-20T00:00:00Z") late).1.pending_refs
        ≡ expire_where (is_overdue "rel" "2026-01-13T00:00:00Z") late.pending_refs)
expire_pending_refs-expires_example =
    expire_pending_refs-expires "rel" (some "2026-01-20T00:00:00Z") late "2026-01-13T00:00:00Z"
      late-IsKeyed a_week_before

abbrev by_alice : Event → Bool
by_alice e = e.sender == "alice"

relationship_events-IsSorted_example :
    IsSorted (relationship_events "rel" db)
    × (count by_alice (relationship_events "rel" db) ≡ count by_alice (joined "rel" db db.events))
relationship_events-IsSorted_example = relationship_events-IsSorted "rel" db by_alice
