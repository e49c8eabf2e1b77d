-- ===== src/Scheduler/Run/Steps.antt =====
-- The rows of `scheduler_queue` under `run_due`.
use muse_agent_social.Prelude.{
  ℕ, ◌+◌, String, true, Option, none, some, List, [], ◌∷◌, ◌≡◌, refl, sym, subst, arith, inl, inr,
  Option-cases, Bool-cases, leb, present,
}
use muse_agent_social.Prelude.Table.{find, update}
use muse_agent_social.Prelude.Growth.{Grows, Grows-refl, Grows-trans, Grows-update}
use muse_agent_social.Time.{parse_canonical_utc}
use muse_agent_social.Scheduler.{
  QueueRow, Store, Release, dead, has_id, is_scheduled, move_to, max_release_attempts,
  restore_approval, release_one_row,
}
use muse_agent_social.Scheduler.Final.{
  RowStep, RowStep-refl, RowStep-trans, move_to-Grows, restored-queue, release_one_row-Grows,
  release_one_row-failed,
}
use muse_agent_social.Scheduler.Run.{
  Summary, count_failure, failures_of, record_release_failure, note, note_failure, run_rows, blocks,
  due_rows, empty, run_due,
}

module _ {Bytes : Type 0} where
  count-Grows :
      (id : String) (xs : List (QueueRow Bytes))
      → ((r : QueueRow Bytes) → find (has_id id) xs ≡ some r → is_scheduled r.state ≡ true)
      → Grows RowStep xs (update (has_id id) count_failure xs)
  count-Grows id xs h =
      Grows-update RowStep RowStep-trans (has_id id) count_failure xs xs
        (λ y e. record {
          scheduled_id = refl;
          inner_event = refl;
          deliver_at = refl;
          expires_at = refl;
          final = λ f. ground (arith, h y e);
        })
        (Grows-refl RowStep RowStep-refl xs)

module _ {Bytes W : Type 0} (clock : String) (release_fn : String → Bytes → ℕ → W → Release W) where
  failures_of-Grows :
      (id : String) (s : Store Bytes W) (row : Option (QueueRow Bytes))
      → ((r : QueueRow Bytes) → find (has_id id) s.queue ≡ some r → is_scheduled r.state ≡ true)
      → Grows RowStep s.queue (failures_of clock id s row).1.queue
  unfolding failures_of restore_approval
  failures_of-Grows id s none h = Grows-refl RowStep RowStep-refl s.queue
  failures_of-Grows id s (some row) h =
      let counted : Store Bytes W = record s { queue = update (has_id id) count_failure s.queue } in
      elim (Bool-cases (leb max_release_attempts (row.release_failures + 1))) [
        | inl b ↦
            rw (failures_of, b)
              (subst (Grows RowStep s.queue)
                (sym (
                  restored-queue id (present row.approval_id) clock dead
                    (record counted { queue = move_to dead id counted.queue })))
                (Grows-trans RowStep RowStep-trans s.queue counted.queue
                  (move_to dead id counted.queue) (count-Grows id s.queue h)
                  (move_to-Grows dead id counted.queue)))
        | inr b ↦ rw (failures_of, b) (count-Grows id s.queue h)
      ]

  module _ (now : ℕ) where
    failed_row-Grows :
        (row : QueueRow Bytes) (s : Store Bytes W)
        → (release_one_row release_fn now row s).0 ≡ none
        → Grows RowStep s.queue
            (record_release_failure clock row.scheduled_id
              (release_one_row release_fn now row s).1).1.queue
    unfolding record_release_failure
    failed_row-Grows row s e =
        let f = release_one_row-failed release_fn now row s e in
        subst (λ t. Grows RowStep s.queue (record_release_failure clock row.scheduled_id t).1.queue)
          (sym f.0)
          (failures_of-Grows row.scheduled_id s (find (has_id row.scheduled_id) s.queue) f.1)

    run_rows-Grows :
        (rows : List (QueueRow Bytes)) (summary : Summary) (s : Store Bytes W)
        → Grows RowStep s.queue (run_rows clock release_fn now rows summary s).1.queue
    unfolding run_rows
    run_rows-Grows [] summary s = Grows-refl RowStep RowStep-refl s.queue
    run_rows-Grows (row ∷ rows) summary s =
        let step = release_one_row release_fn now row s in
        elim (Option-cases step.0) [
          | inr (st, e) ↦
              rw (run_rows, e)
                (Grows-trans RowStep RowStep-trans s.queue step.1.queue
                  (run_rows clock release_fn now rows (note row.scheduled_id st summary)
                    step.1).1.queue
                  (release_one_row-Grows release_fn now row s)
                  (run_rows-Grows rows (note row.scheduled_id st summary) step.1))
          | inl e ↦
              let counted = record_release_failure clock row.scheduled_id step.1 in
              elim (Option-cases counted.0) [
                | inl g ↦ rw (run_rows, e, g) (failed_row-Grows row s e)
                | inr (n, g) ↦
                    rw (run_rows, e, g)
                      (Grows-trans RowStep RowStep-trans s.queue counted.1.queue
                        (run_rows clock release_fn now rows
                          (note_failure row.scheduled_id n summary) counted.1).1.queue
                        (failed_row-Grows row s e)
                        (run_rows-Grows rows (note_failure row.scheduled_id n summary) counted.1))
              ]
        ]

  -- A run over the due rows, whatever `release_fn` does, loses no row of the queue and keeps the
  -- id, the bytes and the times of each; a row that was released, canceled, expired or dead before
  -- the run is unchanged.
  pub run_due-Grows :
      (now : String) (skew : Option ℕ) (s : Store Bytes W)
      → Grows RowStep s.queue (run_due clock release_fn now skew s).1.queue
  unfolding run_due
  run_due-Grows now skew s = elim (Option-cases (parse_canonical_utc now)) [
    | inl e ↦ rw (run_due, e) (Grows-refl RowStep RowStep-refl s.queue)
    | inr (moment, e) ↦ elim (Bool-cases (blocks skew)) [
      | inl b ↦ rw (run_due, e, b) (Grows-refl RowStep RowStep-refl s.queue)
      | inr b ↦ rw (run_due, e, b) (run_rows-Grows moment (due_rows s.queue) empty s)
    ]
  ]
