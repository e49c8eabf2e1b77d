-- ===== src/Scheduler.antt =====
-- The queue of scheduled events: scheduler.py. A row is claimed, released and counted as the source
-- does it; `W` is what `release_fn` writes, the outgoing queue of the same database.
pub mod Final
pub mod Run
use muse_agent_social.Prelude.{
  ℕ, ◌+◌, ◌-◌, ◌*◌, String, Bool, true, false, ◌&&◌, ◌||◌, Option, none, some, List, [], ◌∷◌, ◌==◌,
  ltb, leb, text_lt, present, if◌then◌else◌,
}
use muse_agent_social.Prelude.Table.{find, exists, select, insert_or_ignore, update}
use muse_agent_social.Time.{parse_canonical_utc, format_canonical_utc, add_seconds}
use muse_agent_social.Store.Tables.{ApprovalRow}

pub data QueueState : Type 0 where
  scheduled released canceled expired dead : QueueState

pub record QueueRow (Bytes : Type 0) : Type 0 where
  pub scheduled_id : String
  pub inner_event : Bytes
  pub deliver_at : String
  pub expires_at : Option String
  pub state : QueueState
  pub release_failures : ℕ
  pub approval_id : Option String

-- The notice that the operator sees; its text is made of these fields.
pub record Notice : Type 0 where
  pub scheduled_id : String
  pub terminal_state : QueueState
  pub approval_id : String
  pub approval_restored : Bool
  pub queued_at : String

pub record Store (Bytes W : Type 0) : Type 0 where
  pub queue : List (QueueRow Bytes)
  pub human_approvals : List ApprovalRow
  pub surface_queue : List Notice
  pub outgoing : W

-- What `release_fn` does: return, refuse at a gate, or raise anything else.
pub data Gate : Type 0 where
  skipped_revoked skipped_paused : Gate

pub data Release (W : Type 0) : Type 0 where
  enqueued : W → Release W
  refused : Gate → Release W
  failed : Release W

pub data Status : Type 0 where
  released_after : ℕ → Status
  expired_row not_due skipped skipped_canceled : Status
  gated : Gate → Status

abbrev pub late_window_seconds : ℕ
late_window_seconds = 24 * 3600

abbrev pub max_release_attempts : ℕ
max_release_attempts = 3

abbrev pub is_scheduled : QueueState → Bool
is_scheduled scheduled = true
is_scheduled _ = false

abbrev pub has_id : {Bytes : Type 0} → String → QueueRow Bytes → Bool
has_id scheduled_id r = r.scheduled_id == scheduled_id

-- UPDATE scheduler_queue SET state = ? WHERE scheduled_id = ? AND state = 'scheduled'
unfoldable pub move_to :
    {Bytes : Type 0} → QueueState → String → List (QueueRow Bytes) → List (QueueRow Bytes)
move_to state scheduled_id =
    update (λ r. has_id scheduled_id r && is_scheduled r.state) (λ r. record r { state = state })

pub data CancelFault : Type 0 where
  unknown_scheduled_id already_released invalid_transition : CancelFault

pub data Result (A : Type 0) : Type 0 where
  ok : A → Result A
  raised : CancelFault → Result A

-- `none` is an OverflowError.
unfoldable pub effective_expires_at : String → Option String → Option String
effective_expires_at deliver_at (some expires_at) = some expires_at
effective_expires_at deliver_at none = add_seconds deliver_at late_window_seconds

module _ {Bytes W : Type 0} where
  cancel_row : String → Store Bytes W → QueueState → Result QueueState × Store Bytes W
  unfolding move_to
  cancel_row scheduled_id s scheduled =
      (ok canceled, record s { queue = move_to canceled scheduled_id s.queue })
  cancel_row scheduled_id s canceled = (ok canceled, s)
  cancel_row scheduled_id s released = (raised already_released, s)
  cancel_row scheduled_id s _ = (raised invalid_transition, s)

  unfoldable pub cancel : String → Store Bytes W → Result QueueState × Store Bytes W
  unfolding cancel_row
  cancel scheduled_id s = elim (find (has_id scheduled_id) s.queue) [
    | none ↦ (raised unknown_scheduled_id, s)
    | some row ↦ cancel_row scheduled_id s row.state
  ]

  -- A consumed approval that has not expired is given back, and the operator is told.
  unfoldable pub restore_approval :
      String → Option String → String → QueueState → Store Bytes W → Store Bytes W
  restore_approval scheduled_id none now terminal_state s = s
  restore_approval scheduled_id (some approval_id) now terminal_state s =
      let spent : ApprovalRow → Bool = λ a.
        a.approval_id == approval_id
        && elim a.consumed_at [ none ↦ false | some _ ↦ true ]
        && text_lt now a.expires_at in
      record s {
        human_approvals = update spent (λ a. record a { consumed_at = none }) s.human_approvals;
        surface_queue =
            insert_or_ignore (λ n. n.scheduled_id == scheduled_id)
              (record {
                scheduled_id = scheduled_id;
                terminal_state = terminal_state;
                approval_id = approval_id;
                approval_restored = exists spent s.human_approvals;
                queued_at = now;
              })
              s.surface_queue;
      }

  module _ (release_fn : String → Bytes → ℕ → W → Release W) (now : ℕ) where
    -- The outcome of `release_fn`; `none` is an exception, which rolls the claim back.
    settle : ℕ → Store Bytes W → Store Bytes W → Release W → Option Status × Store Bytes W
    settle late before claimed (enqueued w) =
        (some (released_after late), record claimed { outgoing = w })
    settle late before claimed (refused gate) = (some (gated gate), before)
    settle late before claimed failed = (none, before)

    release : QueueRow Bytes → Store Bytes W → ℕ → Option Status × Store Bytes W
    unfolding move_to settle
    release row s due =
        settle (now - due) s (record s { queue = move_to released row.scheduled_id s.queue })
          (release_fn row.scheduled_id row.inner_event (now - due) s.outgoing)

    claim : QueueRow Bytes → Store Bytes W → QueueState → Option Status × Store Bytes W
    unfolding move_to restore_approval effective_expires_at release
    claim row s canceled = (some skipped_canceled, s)
    claim row s scheduled = elim (effective_expires_at row.deliver_at row.expires_at) [
      | none ↦ (none, s)
      | some effective ↦ elim (parse_canonical_utc effective) [
        | none ↦ (none, s)
        | some end ↦
            if leb end now
            then (
              some expired_row,
              restore_approval row.scheduled_id (present row.approval_id) (format_canonical_utc now)
                  expired (record s { queue = move_to expired row.scheduled_id s.queue }),
            )
            else elim (parse_canonical_utc row.deliver_at) [
              | none ↦ (none, s)
              | some due ↦ if ltb now due then (some not_due, s) else release row s due
            ]
      ]
    ]
    claim row s _ = (some skipped, s)

    -- `row` is the row as the scan of `run_due` read it; the state is read again.
    unfoldable pub release_one_row : QueueRow Bytes → Store Bytes W → Option Status × Store Bytes W
    unfolding claim
    release_one_row row s = elim (find (has_id row.scheduled_id) s.queue) [
      | none ↦ (some skipped, s)
      | some current ↦ claim row s current.state
    ]
