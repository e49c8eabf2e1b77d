-- ===== src/Scheduler/Final.antt =====
-- The rows of `scheduler_queue` under `_release_one_row` and `cancel`.
use muse_agent_social.Prelude.{
  ℕ, ◌-◌, ◌≤◌, ◌<◌, String, true, false, ◌&&◌, Option, none, some, List, [], ◌∷◌, ◌≡◌, ap, ◌∙◌,
  refl, subst, sym, arith, leb, ltb, present, inl, inr, Option-cases, Bool-cases,
}
use muse_agent_social.Prelude.Table.{find, update}
use muse_agent_social.Prelude.Growth.{Grows, Grows-refl}
use muse_agent_social.Time.{parse_canonical_utc, format_canonical_utc}
use muse_agent_social.Scheduler.{
  QueueRow, QueueState, scheduled, released, canceled, expired, dead, Store, Release, enqueued,
  refused, failed, released_after, skipped_canceled, has_id, is_scheduled, move_to, release_one_row,
  effective_expires_at, restore_approval, claim, release, settle, cancel, cancel_row, ok,
}

pub record RowStep {Bytes : Type 0} (x y : QueueRow Bytes) : Type 0 where
  pub scheduled_id : y.scheduled_id ≡ x.scheduled_id
  pub inner_event : y.inner_event ≡ x.inner_event
  pub deliver_at : y.deliver_at ≡ x.deliver_at
  pub expires_at : y.expires_at ≡ x.expires_at
  pub final : is_scheduled x.state ≡ false → y ≡ x

-- Due, and not yet expired; `late` is the time since the row was due.
abbrev pub ReleasedInTime : {Bytes : Type 0} → QueueRow Bytes → ℕ → ℕ → Type 0
ReleasedInTime row now late =
    (due : ℕ) × (end : ℕ) × (effective : String) × (parse_canonical_utc row.deliver_at ≡ some due)
    × (effective_expires_at row.deliver_at row.expires_at ≡ some effective)
    × (parse_canonical_utc effective ≡ some end)
    × (due ≤ now)
    × (now < end)
    × (late ≡ now - due)

module _ {Bytes : Type 0} where
  pub RowStep-trans : (x y z : QueueRow Bytes) → RowStep x y → RowStep y z → RowStep x z
  RowStep-trans x y z a b = record {
    scheduled_id = b.scheduled_id ∙ a.scheduled_id;
    inner_event = b.inner_event ∙ a.inner_event;
    deliver_at = b.deliver_at ∙ a.deliver_at;
    expires_at = b.expires_at ∙ a.expires_at;
    final = λ h. b.final (ap (λ r. is_scheduled r.state) (a.final h) ∙ h) ∙ a.final h;
  }

  pub RowStep-refl : (x : QueueRow Bytes) → RowStep x x
  RowStep-refl x = record {
    scheduled_id = refl;
    inner_event = refl;
    deliver_at = refl;
    expires_at = refl;
    final = λ h. refl;
  }

  RowStep-move :
      (state : QueueState) (x : QueueRow Bytes)
      → is_scheduled x.state ≡ true
      → RowStep x (record x { state = state })
  RowStep-move state x e = record {
    scheduled_id = refl;
    inner_event = refl;
    deliver_at = refl;
    expires_at = refl;
    final = λ h. ground arith;
  }

  pub move_to-Grows :
      (state : QueueState) (id : String) (xs : List (QueueRow Bytes))
      → Grows RowStep xs (move_to state id xs)
  unfolding move_to update
  move_to-Grows state id [] = tt
  move_to-Grows state id (x ∷ xs) = elim (Bool-cases (has_id id x && is_scheduled x.state)) [
    | inl e ↦ rw e (RowStep-move state x (ground arith), Grows-refl RowStep RowStep-refl xs)
    | inr e ↦ rw e (RowStep-refl x, move_to-Grows state id xs)
  ]

  -- What the move leaves under the id.
  find-move_to :
      (state : QueueState) (id : String) (xs : List (QueueRow Bytes)) (r : QueueRow Bytes)
      → find (has_id id) xs ≡ some r
      → is_scheduled r.state ≡ true
      → find (has_id id) (move_to state id xs) ≡ some (record r { state = state })
  unfolding move_to update find
  find-move_to state id [] r h e = ground arith
  find-move_to state id (x ∷ xs) r h e = elim (Bool-cases (has_id id x)) [
    | inl b ↦ ground arith
    | inr b ↦ ground (arith, find-move_to state id xs r (ground arith) e)
  ]

module _ {Bytes W : Type 0} where
  pub restored-queue :
      (id : String) (a : Option String) (at : String) (state : QueueState) (t : Store Bytes W)
      → (restore_approval id a at state t).queue ≡ t.queue
  unfolding restore_approval
  restored-queue id none at state t = refl
  restored-queue id (some a) at state t = refl

module _ {Bytes W : Type 0} (release_fn : String → Bytes → ℕ → W → Release W) (now : ℕ)
    (row : QueueRow Bytes) (s : Store Bytes W) where
  settle-Grows :
      (late : ℕ) (r : Release W)
      → Grows RowStep s.queue
          (settle release_fn now late s
            (record s { queue = move_to released row.scheduled_id s.queue })
            r).1.queue
  unfolding settle
  settle-Grows late (enqueued w) = move_to-Grows released row.scheduled_id s.queue
  settle-Grows late (refused g) = Grows-refl RowStep RowStep-refl s.queue
  settle-Grows late failed = Grows-refl RowStep RowStep-refl s.queue

  claim-Grows :
      (state : QueueState) → Grows RowStep s.queue (claim release_fn now row s state).1.queue
  unfolding claim release
  claim-Grows canceled = Grows-refl RowStep RowStep-refl s.queue
  claim-Grows released = Grows-refl RowStep RowStep-refl s.queue
  claim-Grows expired = Grows-refl RowStep RowStep-refl s.queue
  claim-Grows dead = Grows-refl RowStep RowStep-refl s.queue
  claim-Grows scheduled = elim (Option-cases (effective_expires_at row.deliver_at row.expires_at)) [
    | inl e ↦ rw (claim, e) (Grows-refl RowStep RowStep-refl s.queue)
    | inr (effective, e) ↦ elim (Option-cases (parse_canonical_utc effective)) [
      | inl e₂ ↦ rw (claim, e, e₂) (Grows-refl RowStep RowStep-refl s.queue)
      | inr (end, e₂) ↦ elim (Bool-cases (leb end now)) [
        | inl b ↦
            rw (claim, e, e₂, b)
              (subst (Grows RowStep s.queue)
                (sym (
                  restored-queue row.scheduled_id (present row.approval_id)
                    (format_canonical_utc now) expired
                    (record s { queue = move_to expired row.scheduled_id s.queue })))
                (move_to-Grows expired row.scheduled_id s.queue))
        | inr b ↦ elim (Option-cases (parse_canonical_utc row.deliver_at)) [
          | inl e₃ ↦ rw (claim, e, e₂, b, e₃) (Grows-refl RowStep RowStep-refl s.queue)
          | inr (due, e₃) ↦ elim (Bool-cases (ltb now due)) [
            | inl c ↦ rw (claim, e, e₂, b, e₃, c) (Grows-refl RowStep RowStep-refl s.queue)
            | inr c ↦
                rw (claim, e, e₂, b, e₃, c)
                  (settle-Grows (now - due)
                    (release_fn row.scheduled_id row.inner_event (now - due) s.outgoing))
          ]
        ]
      ]
    ]
  ]

  -- Processing one due row, whatever it ends with, loses no row of the queue and keeps the id, the
  -- bytes and the times of each; a row that is released, canceled, expired or dead is unchanged.
  pub release_one_row-Grows : Grows RowStep s.queue (release_one_row release_fn now row s).1.queue
  unfolding release_one_row
  release_one_row-Grows = elim (Option-cases (find (has_id row.scheduled_id) s.queue)) [
    | inl e ↦ rw (release_one_row, e) (Grows-refl RowStep RowStep-refl s.queue)
    | inr (current, e) ↦ rw (release_one_row, e) (claim-Grows current.state)
  ]

  settle-late :
      (late n : ℕ) (t : Store Bytes W) (r : Release W)
      → (settle release_fn now late s t r).0 ≡ some (released_after n)
      → n ≡ late
  unfolding settle
  settle-late late n t (enqueued w) h = ground arith
  settle-late late n t (refused g) h = ground arith
  settle-late late n t failed h = ground arith

  claim-in_time :
      (state : QueueState) (late : ℕ)
      → (claim release_fn now row s state).0 ≡ some (released_after late)
      → (state ≡ scheduled) × ReleasedInTime row now late
  unfolding claim release
  claim-in_time canceled late h = ground arith
  claim-in_time released late h = ground arith
  claim-in_time expired late h = ground arith
  claim-in_time dead late h = ground arith
  claim-in_time scheduled late h =
      elim (Option-cases (effective_expires_at row.deliver_at row.expires_at)) [
        | inl e ↦ ground arith
        | inr (effective, e) ↦ elim (Option-cases (parse_canonical_utc effective)) [
          | inl e₂ ↦ ground arith
          | inr (end, e₂) ↦ elim (Option-cases (parse_canonical_utc row.deliver_at)) [
            | inl e₃ ↦ ground arith
            | inr (due, e₃) ↦ (
              refl,
              (
                due,
                end,
                effective,
                e₃,
                e,
                e₂,
                ground arith,
                ground arith,
                ground (
                  arith,
                  settle-late (now - due) late
                      (record s { queue = move_to released row.scheduled_id s.queue })
                      (release_fn row.scheduled_id row.inner_event (now - due) s.outgoing),
                ),
              ),
            )
          ]
        ]
      ]

  settle-failed :
      (late : ℕ) (t : Store Bytes W) (r : Release W)
      → (settle release_fn now late s t r).0 ≡ none
      → (settle release_fn now late s t r).1 ≡ s
  unfolding settle
  settle-failed late t (enqueued w) h = ground arith
  settle-failed late t (refused g) h = ground arith
  settle-failed late t failed h = refl

  claim-failed :
      (state : QueueState)
      → (claim release_fn now row s state).0 ≡ none
      → (is_scheduled state ≡ true) × ((claim release_fn now row s state).1 ≡ s)
  unfolding claim release
  claim-failed canceled h = ground arith
  claim-failed released h = ground arith
  claim-failed expired h = ground arith
  claim-failed dead h = ground arith
  claim-failed scheduled h = (
    refl,
    elim (Option-cases (effective_expires_at row.deliver_at row.expires_at)) [
      | inl e ↦ ground arith
      | inr (effective, e) ↦ elim (Option-cases (parse_canonical_utc effective)) [
        | inl e₂ ↦ ground arith
        | inr (end, e₂) ↦ elim (Option-cases (parse_canonical_utc row.deliver_at)) [
          | inl e₃ ↦ ground arith
          | inr (due, e₃) ↦ ground (
            arith,
            settle-failed (now - due)
                (record s { queue = move_to released row.scheduled_id s.queue })
                (release_fn row.scheduled_id row.inner_event (now - due) s.outgoing),
          )
        ]
      ]
    ],
  )

  -- An exception leaves the store as it was, with the row scheduled.
  pub release_one_row-failed :
      (release_one_row release_fn now row s).0 ≡ none
      → ((release_one_row release_fn now row s).1 ≡ s)
        × ((current : QueueRow Bytes)
            → find (has_id row.scheduled_id) s.queue ≡ some current
            → is_scheduled current.state ≡ true)
  unfolding release_one_row
  release_one_row-failed h = elim (Option-cases (find (has_id row.scheduled_id) s.queue)) [
    | inl e ↦ ground arith
    | inr (r, e) ↦
        (ground (arith, claim-failed r.state), λ c f. ground (arith, claim-failed r.state))
  ]

  -- Where a row is released, the queue holds it as scheduled, its delivery time has come, its
  -- effective expiry has not, and the lateness that is reported is the time since the delivery time.
  pub release_one_row-in_time :
      (late : ℕ)
      → (release_one_row release_fn now row s).0 ≡ some (released_after late)
      → ((current : QueueRow Bytes) × (find (has_id row.scheduled_id) s.queue ≡ some current)
          × (current.state ≡ scheduled))
        × ReleasedInTime row now late
  unfolding release_one_row
  release_one_row-in_time late h = elim (Option-cases (find (has_id row.scheduled_id) s.queue)) [
    | inl e ↦ ground arith
    | inr (current, e) ↦
        let c = claim-in_time current.state late (ground arith) in ((current, e, c.0), c.1)
  ]

module _ {Bytes W : Type 0} (release_fn : String → Bytes → ℕ → W → Release W) (now : ℕ)
    (row : QueueRow Bytes) (s : Store Bytes W) where
  canceled_state :
      (state : QueueState) (current : QueueRow Bytes)
      → find (has_id row.scheduled_id) s.queue ≡ some current
      → current.state ≡ state
      → (cancel_row row.scheduled_id s state).0 ≡ ok canceled
      → (r : QueueRow Bytes) × (find
            (has_id row.scheduled_id)
            (cancel_row row.scheduled_id s state).1.queue
          ≡ some r)
        × (r.state ≡ canceled)
  unfolding cancel_row
  canceled_state scheduled current f e h = (
    record current { state = canceled },
    find-move_to canceled row.scheduled_id s.queue current f (ground arith),
    refl,
  )
  canceled_state canceled current f e h = (current, f, e)
  canceled_state released current f e h = ground arith
  canceled_state expired current f e h = ground arith
  canceled_state dead current f e h = ground arith

  -- After a cancellation that succeeded, processing the row releases nothing and changes nothing,
  -- also where the scan of the queue read it before the cancellation.
  pub cancel-release_one_row :
      (cancel row.scheduled_id s).0 ≡ ok canceled
      → release_one_row release_fn now row (cancel row.scheduled_id s).1
        ≡ (some skipped_canceled, (cancel row.scheduled_id s).1)
  unfolding cancel release_one_row claim
  cancel-release_one_row h = elim (Option-cases (find (has_id row.scheduled_id) s.queue)) [
    | inl e ↦ ground arith
    | inr (current, e) ↦
        let c = canceled_state current.state current e refl (ground arith) in
        ground (arith, c.1, c.2)
  ]
