-- ===== src/Tests/Queue.antt =====
-- A queue of two events, one of them due.
use muse_agent_social.Prelude.{ℕ, String, none, some, List, [], ◌∷◌, ◌≡◌, refl}
use muse_agent_social.Prelude.Table.{select, find, update}
use muse_agent_social.Prelude.Growth.{Grows}
use muse_agent_social.Time.{parse_canonical_utc, add_seconds}
use muse_agent_social.Scheduler.{
  QueueRow, scheduled, canceled, Store, Release, enqueued, released_after, skipped_canceled, has_id,
  release_one_row, cancel, ok, effective_expires_at,
}
use muse_agent_social.Scheduler.Run.{run_due}
use muse_agent_social.Scheduler.Run.Steps.{run_due-Grows}
use muse_agent_social.Scheduler.Final.{
  RowStep, ReleasedInTime, release_one_row-Grows, release_one_row-in_time, cancel-release_one_row,
}

abbrev queued : String → String → QueueRow String
queued id deliver_at = record {
  scheduled_id = id;
  inner_event = "sealed";
  deliver_at = deliver_at;
  expires_at = none;
  state = scheduled;
  release_failures = 0;
  approval_id = none;
}

abbrev first : QueueRow String
first = queued "q1" "1970-01-01T00:00:00Z"

abbrev store : Store String (List String)
store = record {
  queue = first ∷ queued "q2" "1970-01-03T00:00:00Z" ∷ [];
  human_approvals = [];
  surface_queue = [];
  outgoing = [];
}

abbrev enqueue : String → String → ℕ → List String → Release (List String)
enqueue id bytes late out = enqueued (bytes ∷ out)

-- Ten seconds after the first is due.
abbrev now : ℕ
now = 62135596810

sent : (release_one_row enqueue now first store).0 ≡ some (released_after 10)
unfolding release_one_row find effective_expires_at add_seconds parse_canonical_utc
sent = refl

release_one_row-Grows_example :
    Grows RowStep store.queue (release_one_row enqueue now first store).1.queue
release_one_row-Grows_example = release_one_row-Grows enqueue now first store

release_one_row-in_time_example :
    ((current : QueueRow String) × (find (has_id "q1") store.queue ≡ some current)
      × (current.state ≡ scheduled))
    × ReleasedInTime first now 10
release_one_row-in_time_example = release_one_row-in_time enqueue now first store 10 sent

withdrawn : (cancel "q1" store).0 ≡ ok canceled
unfolding cancel find
withdrawn = refl

cancel-release_one_row_example :
    release_one_row enqueue now first (cancel "q1" store).1
    ≡ (some skipped_canceled, (cancel "q1" store).1)
cancel-release_one_row_example = cancel-release_one_row enqueue now first store withdrawn

run_due-Grows_example :
    Grows RowStep store.queue
      (run_due "1970-01-01T00:00:10Z" enqueue "1970-01-01T00:00:10Z" none store).1.queue
run_due-Grows_example =
    run_due-Grows "1970-01-01T00:00:10Z" enqueue "1970-01-01T00:00:10Z" none store

ran :
    (run_due "1970-01-01T00:00:10Z" enqueue "1970-01-01T00:00:10Z" none store).1.outgoing
    ≡ "sealed" ∷ []
unfolding run_due select release_one_row find update effective_expires_at add_seconds
    parse_canonical_utc
ran = refl
