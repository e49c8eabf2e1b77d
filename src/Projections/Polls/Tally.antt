-- ===== src/Projections/Polls/Tally.antt =====
-- The column `response_count` of `polls` under `apply_event`.
use muse_agent_social.Prelude.{
  String, Bool, true, false, List, [], ◌∷◌, ◌≡◌, refl, sym, ◌∙◌, inl, inr, ap, arith, ◌==◌, eq_iff,
  Bool-cases, Option-cases, All, All-map,
}
use muse_agent_social.Prelude.Table.{exists, count, insert, update}
use muse_agent_social.Prelude.TableLaws.{
  exists-insert, count-insert, exists_of_find, exists-update, count-update, All-insert, All-update,
}
use muse_agent_social.Store.Events.{Event, PollBody, PollAnswer}
use muse_agent_social.Store.Tables.{Db, PollRow, ResponseRow}
use muse_agent_social.Store.Txn.{Txn}
use muse_agent_social.Store.Keeps.{Keeps, view-Keeps}
use muse_agent_social.Projections.Threads.{ensure_thread}
use muse_agent_social.Projections.Apply.{apply_event}
use muse_agent_social.Projections.Apply.Lift.{IsKept, apply_event-Keeps}
use muse_agent_social.Projections.Footprints.{
  message_created_footprint, message_edited_footprint, message_retracted_footprint,
  reaction_added_footprint, reaction_removed_footprint, receipt_footprint, task_created_footprint,
  task_updated_footprint, human_requested_footprint, human_responded_footprint,
  delivery_scheduled_footprint, delivery_canceled_footprint, security_key_footprint,
  quarantine_footprint, sequence_footprint, marks_footprint, replies_footprint,
}
use muse_agent_social.Projections.Polls.{
  answers, response_key, new_response, write_response, recount, find_poll, new_poll,
  handle_poll_created, handle_poll_responded,
}

abbrev names : String → PollRow → Bool
names poll_id p = p.poll_id == poll_id

abbrev Distinct : List PollRow → Type 0
Distinct [] = Unit
Distinct (p ∷ ps) = (exists (names p.poll_id) ps ≡ false) × Distinct ps

abbrev HasPoll : List PollRow → ResponseRow → Type 0
HasPoll polls r = exists (names r.poll_id) polls ≡ true

abbrev IsCounted : List ResponseRow → PollRow → Type 0
IsCounted responses p = p.response_count ≡ count (answers p.poll_id) responses

-- Every response belongs to a poll, no poll is there twice, and every count is right.
pub record IsTallied (polls : List PollRow) (responses : List ResponseRow) : Type 0 where
  pub known : All (HasPoll polls) responses
  pub distinct : Distinct polls
  pub counted : All (IsCounted responses) polls

no_answers :
    (poll_id : String) (polls : List PollRow) (rs : List ResponseRow)
    → exists (names poll_id) polls ≡ false
    → All (HasPoll polls) rs
    → count (answers poll_id) rs ≡ 0
unfolding count
no_answers poll_id polls [] fresh h = refl
no_answers poll_id polls (r ∷ rs) fresh h = elim (Bool-cases (r.poll_id == poll_id)) [
  | inl e ↦ ground (arith, h.0, ap (λ s. exists (names s) polls) ((eq_iff r.poll_id poll_id).0 e))
  | inr e ↦ rw e (omega (arith, no_answers poll_id polls rs fresh h.1))
]

Distinct-insert :
    (p : PollRow) (ps : List PollRow)
    → exists (names p.poll_id) ps ≡ false
    → Distinct ps
    → Distinct (insert p ps)
unfolding exists
Distinct-insert p [] fresh d = (refl, tt)
Distinct-insert p (q ∷ ps) fresh d = (
  ground (
    arith,
    exists-insert (names q.poll_id) ps p,
    eq_iff p.poll_id q.poll_id,
    eq_iff q.poll_id p.poll_id,
    d.0,
  ),
  Distinct-insert p ps (ground arith) d.1,
)

Distinct-recount :
    (poll_id : String) (rs : List ResponseRow) (ps : List PollRow)
    → Distinct ps
    → Distinct (recount poll_id rs ps)
unfolding recount update
Distinct-recount poll_id rs [] d = tt
Distinct-recount poll_id rs (p ∷ ps) d = elim (Bool-cases (p.poll_id == poll_id)) [
  | inl e ↦ rw e d
  | inr e ↦
      rw e (
        exists-update (names p.poll_id) _ _ (λ x. refl) ps ∙ d.0,
        Distinct-recount poll_id rs ps d.1,
      )
]

-- A change of the responses to other polls only.
SameElsewhere : String → List ResponseRow → List ResponseRow → Type 0
SameElsewhere poll_id old new =
    (other : String)
    → (other == poll_id) ≡ false
    → count (answers other) new ≡ count (answers other) old

elsewhere :
    (poll_id : String) (old new : List ResponseRow) (ps : List PollRow)
    → SameElsewhere poll_id old new
    → exists (names poll_id) ps ≡ false
    → All (IsCounted old) ps
    → All (IsCounted new) ps
unfolding exists SameElsewhere
elsewhere poll_id old new [] s fresh h = tt
elsewhere poll_id old new (p ∷ ps) s fresh h =
    (h.0 ∙ sym (s p.poll_id (ground arith)), elsewhere poll_id old new ps s (ground arith) h.1)

recount-IsCounted :
    (poll_id : String) (old new : List ResponseRow) (ps : List PollRow)
    → SameElsewhere poll_id old new
    → Distinct ps
    → All (IsCounted old) ps
    → All (IsCounted new) (recount poll_id new ps)
unfolding recount update SameElsewhere
recount-IsCounted poll_id old new [] s d h = tt
recount-IsCounted poll_id old new (p ∷ ps) s d h = elim (Bool-cases (p.poll_id == poll_id)) [
  | inl e ↦
      let same : p.poll_id ≡ poll_id = (eq_iff p.poll_id poll_id).0 e in
      rw e (
        ap (λ t. count (answers t) new) (sym same),
        elsewhere poll_id old new ps s (ap (λ t. exists (names t) ps) (sym same) ∙ d.0) h.1,
      )
  | inr e ↦ rw e (h.0 ∙ sym (s p.poll_id e), recount-IsCounted poll_id old new ps s d.1 h.1)
]

write_response-elsewhere :
    (ev : Event) (p : PollAnswer) (now : String) (rs : List ResponseRow)
    → SameElsewhere p.poll_id rs (write_response ev p now rs)
unfolding SameElsewhere write_response
write_response-elsewhere ev p now rs other e =
    elim (Bool-cases (exists (response_key p.poll_id ev.sender) rs)) [
      | inl old ↦ rw old (count-update (answers other) _ _ (λ x. refl) rs)
      | inr new ↦ rw new (
          ground (
            arith,
            count-insert (answers other) rs (new_response ev p now),
            eq_iff p.poll_id other,
            eq_iff other p.poll_id,
          ))
    ]

HasPoll-insert :
    (p : PollRow) (ps : List PollRow) (r : ResponseRow) → HasPoll ps r → HasPoll (insert p ps) r
HasPoll-insert p ps r h = ground (arith, exists-insert (names r.poll_id) ps p)

HasPoll-recount :
    (poll_id : String) (rs : List ResponseRow) (ps : List PollRow) (r : ResponseRow)
    → HasPoll ps r
    → HasPoll (recount poll_id rs ps) r
unfolding recount
HasPoll-recount poll_id rs ps r h = exists-update (names r.poll_id) _ _ (λ x. refl) ps ∙ h

HasPoll-write_response :
    (ev : Event) (p : PollAnswer) (now : String) (ps : List PollRow) (rs : List ResponseRow)
    → exists (names p.poll_id) ps ≡ true
    → All (HasPoll ps) rs
    → All (HasPoll ps) (write_response ev p now rs)
unfolding write_response
HasPoll-write_response ev p now ps rs found h =
    elim (Bool-cases (exists (response_key p.poll_id ev.sender) rs)) [
      | inl old ↦ rw old (All-update (HasPoll ps) _ _ (λ x hx. hx) rs h)
      | inr new ↦ rw new (All-insert (HasPoll ps) rs (new_response ev p now) h found)
    ]

IsTallied-insert :
    (ev : Event) (p : PollBody) (ps : List PollRow) (rs : List ResponseRow)
    → exists (names ev.event_id) ps ≡ false
    → IsTallied ps rs
    → IsTallied (insert (new_poll ev p) ps) rs
IsTallied-insert ev p ps rs fresh t = record {
  known =
      All-map (HasPoll ps) (HasPoll (insert (new_poll ev p) ps)) (HasPoll-insert (new_poll ev p) ps)
        rs t.known;
  distinct = Distinct-insert (new_poll ev p) ps fresh t.distinct;
  counted =
      All-insert (IsCounted rs) ps (new_poll ev p) t.counted
        (sym (no_answers ev.event_id ps rs fresh t.known));
}

IsTallied-respond :
    (ev : Event) (p : PollAnswer) (now : String) (ps : List PollRow) (rs : List ResponseRow)
    → exists (names p.poll_id) ps ≡ true
    → IsTallied ps rs
    → IsTallied (recount p.poll_id (write_response ev p now rs) ps) (write_response ev p now rs)
IsTallied-respond ev p now ps rs found t =
    let new = write_response ev p now rs in
    record {
      known =
          All-map (HasPoll ps) (HasPoll (recount p.poll_id new ps))
            (HasPoll-recount p.poll_id new ps) new
            (HasPoll-write_response ev p now ps rs found t.known);
      distinct = Distinct-recount p.poll_id new ps t.distinct;
      counted =
          recount-IsCounted p.poll_id rs new ps (write_response-elsewhere ev p now rs) t.distinct
            t.counted;
    }

abbrev Tallied : Db → Type 0
Tallied db = IsTallied db.polls db.poll_responses

ensure_thread-tally :
    (ev : Event) (db : Db)
    → ((ensure_thread ev db).1.polls ≡ db.polls)
      × ((ensure_thread ev db).1.poll_responses ≡ db.poll_responses)
unfolding ensure_thread
ensure_thread-tally ev db = ground arith

created-Tallied : (ev : Event) (p : PollBody) → Keeps Tallied (handle_poll_created ev p)
unfolding handle_poll_created
created-Tallied ev p = record {
  at = λ db h. elim (Bool-cases (exists (names ev.event_id) db.polls)) [
    | inl old ↦ ground arith
    | inr fresh ↦ ground (arith, IsTallied-insert ev p db.polls db.poll_responses fresh h)
  ];
}

responded-Tallied :
    (ev : Event) (p : PollAnswer) (now : String) → Keeps Tallied (handle_poll_responded ev p now)
unfolding handle_poll_responded find_poll
responded-Tallied ev p now = record {
  at = λ db h. elim (Option-cases (find_poll p.poll_id db.polls)) [
    | inl e ↦ ground arith
    | inr (poll, e) ↦ ground (
      arith,
      IsTallied-respond ev p now db.polls db.poll_responses
          (exists_of_find (names p.poll_id) db.polls poll e) h,
    )
  ];
}

abbrev tables : Db → List PollRow × List ResponseRow
tables db = (db.polls, db.poll_responses)

same : {A : Type 0} {m : Txn A} → ((db : Db) → tables (m db).1 ≡ tables db) → Keeps Tallied m
same = view-Keeps {view = tables} (λ v. IsTallied v.0 v.1)

tally-IsKept : IsKept (Tallied)
tally-IsKept = record {
  message_created = λ ev p now. same (λ db. ap tables (message_created_footprint ev p now db));
  message_edited = λ ev p. same (λ db. ap tables (message_edited_footprint ev p db));
  message_retracted = λ ev p. same (λ db. ap tables (message_retracted_footprint ev p db));
  reaction_added = λ ev p. same (λ db. ap tables (reaction_added_footprint ev p db));
  reaction_removed = λ ev p. same (λ db. ap tables (reaction_removed_footprint ev p db));
  receipt = λ ev p kind. same (λ db. ap tables (receipt_footprint ev p kind db));
  poll_created = created-Tallied;
  poll_responded = responded-Tallied;
  task_created = λ ev p. same (λ db. ap tables (task_created_footprint ev p db));
  task_updated = λ ev p. same (λ db. ap tables (task_updated_footprint ev p db));
  human_requested = λ ev p. same (λ db. ap tables (human_requested_footprint ev p db));
  human_responded = λ ev p. same (λ db. ap tables (human_responded_footprint ev p db));
  delivery_scheduled = λ ev p. same (λ db. ap tables (delivery_scheduled_footprint ev p db));
  delivery_canceled = λ ev p. same (λ db. ap tables (delivery_canceled_footprint ev p db));
  security_key = λ ev action. same (λ db. ap tables (security_key_footprint ev action db));
  quarantine = λ rel sender seq id reason.
      same (λ db. ap tables (quarantine_footprint rel sender seq id reason db));
  sequence = λ rel sender seq at. same (λ db. ap tables (sequence_footprint rel sender seq at db));
  marks = λ id state. same (λ db. ap tables (marks_footprint id state db));
  replies = λ id state. same (λ db. ap tables (replies_footprint id state db));
}

-- Where every response belongs to a poll, no poll is there twice and every `response_count` is the
-- number of the responses to its poll, all of this holds again after any event is applied, whatever
-- its outcome.
pub apply_event-IsTallied :
    (ev : Event) (db : Db)
    → IsTallied db.polls db.poll_responses
    → IsTallied (apply_event ev db).1.polls (apply_event ev db).1.poll_responses
apply_event-IsTallied ev db = (apply_event-Keeps tally-IsKept ev).at db
