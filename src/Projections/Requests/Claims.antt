-- ===== src/Projections/Requests/Claims.antt =====
-- The column `attestation` of `human_requests`.
use muse_agent_social.Prelude.{
  true, some, List, ◌≡◌, inl, inr, ap, arith, ◌==◌, same_text, All, Option-cases,
}
use muse_agent_social.Prelude.Table.{exists}
use muse_agent_social.Prelude.TableLaws.{All-insert, All-update}
use muse_agent_social.Store.Events.{Event, HumanRequest, HumanAnswer}
use muse_agent_social.Store.Tables.{Db, RequestRow, ApprovalRow, local}
use muse_agent_social.Store.Txn.{Txn}
use muse_agent_social.Store.Keeps.{Keeps, view-Keeps}
use muse_agent_social.Projections.Threads.{ensure_thread}
use muse_agent_social.Projections.Apply.{apply_event}
use muse_agent_social.Projections.Apply.Lift.{IsKept, apply_event-Keeps}
use muse_agent_social.Projections.Footprints.{
  message_created_footprint, message_edited_footprint, message_retracted_footprint,
  reaction_added_footprint, reaction_removed_footprint, receipt_footprint, poll_created_footprint,
  poll_responded_footprint, task_created_footprint, task_updated_footprint,
  delivery_scheduled_footprint, delivery_canceled_footprint, security_key_footprint,
  quarantine_footprint, sequence_footprint, marks_footprint, replies_footprint,
}
use muse_agent_social.Projections.Requests.{
  human_response_attestation, find_request, new_request, answered, handle_human_requested,
  handle_human_responded,
}

-- `local` only with a row of `human_approvals` that carries the response's approval id.
abbrev pub IsVouched : List ApprovalRow → RequestRow → Type 0
IsVouched approvals r =
    r.attestation ≡ local
    → exists (λ a. same_text (some a.approval_id) r.approval_record_id) approvals ≡ true

abbrev pub AllVouched : List ApprovalRow → List RequestRow → Type 0
AllVouched approvals = All (IsVouched approvals)

abbrev Vouched : Db → Type 0
Vouched db = AllVouched db.human_approvals db.human_requests

attestation_local :
    (ev : Event) (p : HumanAnswer) (db : Db)
    → human_response_attestation ev p db ≡ local
    → exists (λ a. a.approval_id == p.approval_record_id) db.human_approvals ≡ true
unfolding human_response_attestation
attestation_local ev p db h = ground arith

ensure_thread-requests :
    (ev : Event) (db : Db)
    → ((ensure_thread ev db).1.human_requests ≡ db.human_requests)
      × ((ensure_thread ev db).1.source ≡ db.source)
unfolding ensure_thread
ensure_thread-requests ev db = ground arith

requested-Vouched : (ev : Event) (p : HumanRequest) → Keeps Vouched (handle_human_requested ev p)
unfolding handle_human_requested
requested-Vouched ev p = record {
  at = λ db h. ground (
    arith,
    All-insert (IsVouched db.human_approvals) db.human_requests (new_request ev p) h (λ e. cc),
  );
}

responded-Vouched : (ev : Event) (p : HumanAnswer) → Keeps Vouched (handle_human_responded ev p)
unfolding handle_human_responded find_request
responded-Vouched ev p = record {
  at = λ db h. elim (Option-cases (find_request p.request_id db.human_requests)) [
    | inl e ↦ ground arith
    | inr (r, e) ↦ ground (
      arith,
      All-update (IsVouched db.human_approvals) (λ r. r.request_id == p.request_id)
          (answered ev p (human_response_attestation ev p db))
          (λ x hx e. attestation_local ev p db e) db.human_requests h,
    )
  ];
}

abbrev tables : Db → List ApprovalRow × List RequestRow
tables db = (db.human_approvals, db.human_requests)

same : {A : Type 0} {m : Txn A} → ((db : Db) → tables (m db).1 ≡ tables db) → Keeps Vouched m
same = view-Keeps {view = tables} (λ v. AllVouched v.0 v.1)

requests-IsKept : IsKept (Vouched)
requests-IsKept = record {
  message_created = λ ev p now. same (λ db. ap tables (message_created_footprint ev p now db));
  message_edited = λ ev p. same (λ db. ap tables (message_edited_footprint ev p db));
  message_retracted = λ ev p. same (λ db. ap tables (message_retracted_footprint ev p db));
  reaction_added = λ ev p. same (λ db. ap tables (reaction_added_footprint ev p db));
  reaction_removed = λ ev p. same (λ db. ap tables (reaction_removed_footprint ev p db));
  receipt = λ ev p kind. same (λ db. ap tables (receipt_footprint ev p kind db));
  poll_created = λ ev p. same (λ db. ap tables (poll_created_footprint ev p db));
  poll_responded = λ ev p now. same (λ db. ap tables (poll_responded_footprint ev p now db));
  task_created = λ ev p. same (λ db. ap tables (task_created_footprint ev p db));
  task_updated = λ ev p. same (λ db. ap tables (task_updated_footprint ev p db));
  human_requested = requested-Vouched;
  human_responded = responded-Vouched;
  delivery_scheduled = λ ev p. same (λ db. ap tables (delivery_scheduled_footprint ev p db));
  delivery_canceled = λ ev p. same (λ db. ap tables (delivery_canceled_footprint ev p db));
  security_key = λ ev action. same (λ db. ap tables (security_key_footprint ev action db));
  quarantine = λ rel sender seq id reason.
      same (λ db. ap tables (quarantine_footprint rel sender seq id reason db));
  sequence = λ rel sender seq at. same (λ db. ap tables (sequence_footprint rel sender seq at db));
  marks = λ id state. same (λ db. ap tables (marks_footprint id state db));
  replies = λ id state. same (λ db. ap tables (replies_footprint id state db));
}

-- Where every response that is stored as locally verified names an approval record of the local
-- table, all do after any event is applied, whatever its outcome.
pub apply_event-AllVouched :
    (ev : Event) (db : Db)
    → AllVouched db.human_approvals db.human_requests
    → let db' = (apply_event ev db).1 in AllVouched db'.human_approvals db'.human_requests
apply_event-AllVouched ev db = (apply_event-Keeps requests-IsKept ev).at db
