-- ===== src/Scheduler/Run.antt =====
-- `run_due` and `_record_release_failure`.
pub mod Steps
use muse_agent_social.Prelude.{
  ℕ, ◌+◌, String, Bool, true, false, ◌&&◌, ◌||◌, Option, none, some, List, [], ◌∷◌, ◌++◌, ◌==◌, ltb,
  leb, nat_eq, text_lt, present, if◌then◌else◌,
}
use muse_agent_social.Prelude.Table.{find, select, update}
use muse_agent_social.Time.{parse_canonical_utc}
use muse_agent_social.Policy.Window.{future_tolerance_seconds}
use muse_agent_social.Scheduler.{
  QueueRow, dead, Store, Release, Gate, skipped_revoked, skipped_paused, Status, released_after,
  expired_row, not_due, skipped, skipped_canceled, gated, max_release_attempts, has_id,
  is_scheduled, move_to, restore_approval, release_one_row,
}

pub data RunFault : Type 0 where
  invalid_timestamp clock_skew_blocks_scheduled_send type_error : RunFault

pub record Summary : Type 0 where
  pub released : List String
  pub expired : List String
  pub late : List (String × ℕ)
  pub failed : List String
  pub dead_rows : List String
  pub canceled_rows : List String
  pub revoked_rows : List String
  pub paused_rows : List String

abbrev empty : Summary
empty = record {
  released = [];
  expired = [];
  late = [];
  failed = [];
  dead_rows = [];
  canceled_rows = [];
  revoked_rows = [];
  paused_rows = [];
}

pub data Run : Type 0 where
  done : Summary → Run
  raised : RunFault → Run

-- The bucket of a status.
abbrev note : String → Status → Summary → Summary
note id (released_after late) s = record s {
  released = s.released ++ id ∷ [];
  late = if ltb 0 late then s.late ++ (id, late) ∷ [] else s.late;
}
note id expired_row s = record s { expired = s.expired ++ id ∷ [] }
note id skipped_canceled s = record s { canceled_rows = s.canceled_rows ++ id ∷ [] }
note id (gated skipped_revoked) s = record s { revoked_rows = s.revoked_rows ++ id ∷ [] }
note id (gated skipped_paused) s = record s { paused_rows = s.paused_rows ++ id ∷ [] }
note id not_due s = s
note id skipped s = s

abbrev note_failure : String → ℕ → Summary → Summary
note_failure id failures s =
    if leb max_release_attempts failures
    then record s { dead_rows = s.dead_rows ++ id ∷ [] }
    else record s { failed = s.failed ++ id ∷ [] }

-- ORDER BY deliver_at, scheduled_id
abbrev before : {Bytes : Type 0} → QueueRow Bytes → QueueRow Bytes → Bool
before a b =
    text_lt a.deliver_at b.deliver_at
    || (a.deliver_at == b.deliver_at && text_lt a.scheduled_id b.scheduled_id)

insert_in_order : {Bytes : Type 0} → QueueRow Bytes → List (QueueRow Bytes) → List (QueueRow Bytes)
insert_in_order r [] = r ∷ []
insert_in_order r (x ∷ xs) =
    let rest = insert_in_order r xs in if before r x then r ∷ x ∷ xs else x ∷ rest

sort_rows : {Bytes : Type 0} → List (QueueRow Bytes) → List (QueueRow Bytes)
unfolding insert_in_order
sort_rows [] = []
sort_rows (r ∷ rs) = insert_in_order r (sort_rows rs)

abbrev is_due_row : {Bytes : Type 0} → QueueRow Bytes → Bool
is_due_row r = is_scheduled r.state && ltb r.release_failures max_release_attempts

unfoldable pub due_rows : {Bytes : Type 0} → List (QueueRow Bytes) → List (QueueRow Bytes)
unfolding sort_rows
due_rows queue = sort_rows (select is_due_row queue)

abbrev pub count_failure : {Bytes : Type 0} → QueueRow Bytes → QueueRow Bytes
count_failure r = record r { release_failures = r.release_failures + 1 }

-- `skew` is the absolute skew of the clock in whole seconds, where the caller gives one.
abbrev blocks : Option ℕ → Bool
blocks none = false
blocks (some skew) = leb future_tolerance_seconds skew

module _ {Bytes W : Type 0} (clock : String) where
  failures_of : String → Store Bytes W → Option (QueueRow Bytes) → Option ℕ × Store Bytes W
  unfolding move_to restore_approval
  failures_of id s none = (none, s)
  failures_of id s (some row) =
      let counted : Store Bytes W = record s { queue = update (has_id id) count_failure s.queue } in
      (
        some (row.release_failures + 1),
        if leb max_release_attempts (row.release_failures + 1)
            then restore_approval id (present row.approval_id) clock dead
                (record counted { queue = move_to dead id counted.queue })
            else counted,
      )

  -- `clock` is what utcnow() returns; `none` is the TypeError of a row that is not there.
  unfoldable pub record_release_failure : String → Store Bytes W → Option ℕ × Store Bytes W
  unfolding failures_of
  record_release_failure id s = failures_of id s (find (has_id id) s.queue)

  module _ (release_fn : String → Bytes → ℕ → W → Release W) (now : ℕ) where
    run_rows : List (QueueRow Bytes) → Summary → Store Bytes W → Run × Store Bytes W
    unfolding record_release_failure release_one_row
    run_rows [] summary s = (done summary, s)
    run_rows (row ∷ rows) summary s =
        let (status, s') = release_one_row release_fn now row s in
        elim status [
          | some st ↦ run_rows rows (note row.scheduled_id st summary) s'
          | none ↦
              let (failures, s'') = record_release_failure row.scheduled_id s' in
              elim failures [
                | none ↦ (raised type_error, s'')
                | some n ↦ run_rows rows (note_failure row.scheduled_id n summary) s''
              ]
        ]

  unfoldable pub run_due :
      (String → Bytes → ℕ → W → Release W) → String → Option ℕ → Store Bytes W → Run × Store Bytes W
  unfolding run_rows due_rows
  run_due release_fn now skew s = elim (parse_canonical_utc now) [
    | none ↦ (raised invalid_timestamp, s)
    | some moment ↦
        if blocks skew
        then (raised clock_skew_blocks_scheduled_send, s)
        else run_rows release_fn moment (due_rows s.queue) empty s
  ]
