-- ===== src/Tests/Applied.antt =====
-- Single events applied to the conversation.
use muse_agent_social.Prelude.{false, map, length, true, false, none, [], ◌∷◌, ◌≡◌, refl, arith}
use muse_agent_social.Prelude.Table.{exists, count}
use muse_agent_social.Prelude.Growth.{Grows}
use muse_agent_social.Store.Events.{Event, EventType, Payload, HumanAnswer}
use muse_agent_social.Store.Tables.{local, scheduled}
use muse_agent_social.Projections.Apply.{apply_event}
use muse_agent_social.Store.Txn.{◌>>=◌}
use muse_agent_social.Prelude.Table.{find, select, update}
use muse_agent_social.Projections.Apply.{apply_inner, dispatch, resolve_pending}
use muse_agent_social.Projections.Quarantine.{check_fork, quarantine_clash}
use muse_agent_social.Projections.Sequence.{update_seq_state}
use muse_agent_social.Projections.Messages.{handle_message_edited}
use muse_agent_social.Projections.Polls.{handle_poll_responded}
use muse_agent_social.Projections.Reactions.{handle_reaction_added}
use muse_agent_social.Projections.Tasks.{handle_task_updated}
use muse_agent_social.Projections.Deliveries.{handle_delivery_scheduled, handle_delivery_canceled}
use muse_agent_social.Projections.Requests.{handle_human_responded}
use muse_agent_social.Projections.Messages.Tombstones.{MessageStep, apply_event-messages}
use muse_agent_social.Projections.Polls.Tally.{IsTallied, apply_event-IsTallied}
use muse_agent_social.Projections.Reactions.Cap.{IsCapped, apply_event-IsCapped}
use muse_agent_social.Projections.Tasks.Final.{TaskStep, apply_event-tasks}
use muse_agent_social.Projections.Deliveries.Final.{DeliveryStep, apply_event-deliveries}
use muse_agent_social.Projections.Deliveries.Unique.{IsUnique, apply_event-IsUnique}
use muse_agent_social.Projections.Requests.Claims.{AllVouched, apply_event-AllVouched}
use muse_agent_social.Tests.{event, db}

abbrev edited : Event
edited =
    event "m2" "alice" 6 EventType.message_edited
      (Payload.edit (record { target_event_id = "m1"; body = "hi"; reason = none }))

abbrev answered : Event
answered = event "r2" "bob" 1 EventType.poll_responded (
    Payload.poll_answer (record {
      poll_id = "p1";
      choice_ids = "one" ∷ [];
      human_confirmed = false;
      approval_record_id = none;
    }))

abbrev reacted : Event
reacted =
    event "x2" "bob" 2 EventType.reaction_added
      (Payload.reaction (record { target_event_id = "m1"; emoji = "smile" }))

abbrev finished : Event
finished =
    event "u1" "bob" 3 EventType.task_updated
      (Payload.task_update (record { task_id = "t1"; status = "done"; note = none }))

abbrev withdrawn : Event
withdrawn =
    event "c1" "alice" 7 EventType.delivery_canceled
      (Payload.cancellation (record { scheduled_event_id = "s1" }))

abbrev again : Event
again = event "s2" "alice" 8 EventType.delivery_scheduled (
    Payload.announcement (record {
      inner_event_id = "inner";
      deliver_at = "2026-01-04T00:00:00Z";
      late_by_seconds = none;
    }))

abbrev yes : HumanAnswer
yes = record { request_id = "h1"; answer = "yes"; approved = true; approval_record_id = "a1" }

abbrev approved : Event
approved = event "h2" "alice" 9 EventType.human_responded (Payload.human_answer yes)

apply_event-messages_example : Grows MessageStep db.messages (apply_event edited db).1.messages
apply_event-messages_example = apply_event-messages edited db

db-IsTallied : IsTallied db.polls db.poll_responses
unfolding exists count
db-IsTallied = record { known = (refl, tt); distinct = (refl, tt); counted = (refl, tt) }

apply_event-IsTallied_example :
    IsTallied (apply_event answered db).1.polls (apply_event answered db).1.poll_responses
apply_event-IsTallied_example = apply_event-IsTallied answered db db-IsTallied

db-IsCapped : IsCapped db.reactions
unfolding count
db-IsCapped = record { at_most = λ target sender. ground arith }

apply_event-IsCapped_example : IsCapped (apply_event reacted db).1.reactions
apply_event-IsCapped_example = apply_event-IsCapped reacted db db-IsCapped

apply_event-tasks_example : Grows TaskStep db.tasks (apply_event finished db).1.tasks
apply_event-tasks_example = apply_event-tasks finished db

apply_event-deliveries_example :
    Grows DeliveryStep db.deliveries (apply_event withdrawn db).1.deliveries
apply_event-deliveries_example = apply_event-deliveries withdrawn db

db-IsUnique : IsUnique db.deliveries
unfolding exists
db-IsUnique = (refl, tt)

apply_event-IsUnique_example : IsUnique (apply_event again db).1.deliveries
apply_event-IsUnique_example = apply_event-IsUnique again db db-IsUnique

db-AllVouched : AllVouched db.human_approvals db.human_requests
db-AllVouched = (λ h. ground arith, tt)

apply_event-AllVouched_example :
    AllVouched
      (apply_event approved db).1.human_approvals
      (apply_event approved db).1.human_requests
apply_event-AllVouched_example = apply_event-AllVouched approved db db-AllVouched

-- The effects of the events.
edited_body : map (λ m. m.current_body) (apply_event edited db).1.messages ≡ "hi" ∷ []
unfolding apply_event ◌>>=◌ apply_inner check_fork quarantine_clash find dispatch exists
    resolve_pending select update_seq_state update count handle_message_edited
edited_body = refl

two_answers : map (λ p. p.response_count) (apply_event answered db).1.polls ≡ 2 ∷ []
unfolding apply_event ◌>>=◌ apply_inner check_fork quarantine_clash find dispatch exists
    resolve_pending select update_seq_state update count handle_poll_responded
two_answers = refl

three_reactions : length (apply_event reacted db).1.reactions ≡ 3
unfolding apply_event ◌>>=◌ apply_inner check_fork quarantine_clash find dispatch exists
    resolve_pending select update_seq_state update count handle_reaction_added
three_reactions = refl

done_twice : map (λ t. t.status) (apply_event finished db).1.tasks ≡ "done" ∷ "done" ∷ []
unfolding apply_event ◌>>=◌ apply_inner check_fork quarantine_clash find dispatch exists
    resolve_pending select update_seq_state update count handle_task_updated
done_twice = refl

one_delivery : map (λ d. d.state) (apply_event again db).1.deliveries ≡ scheduled ∷ []
unfolding apply_event ◌>>=◌ apply_inner check_fork quarantine_clash find dispatch exists
    resolve_pending select update_seq_state update count handle_delivery_scheduled
one_delivery = refl

verified : map (λ r. r.attestation) (apply_event approved db).1.human_requests ≡ local ∷ []
unfolding apply_event ◌>>=◌ apply_inner check_fork quarantine_clash find dispatch exists
    resolve_pending select update_seq_state update count handle_human_responded
verified = refl

numbered : map (λ c. c.max_seq) (apply_event withdrawn db).1.projection_cursors ≡ 7 ∷ []
unfolding apply_event ◌>>=◌ apply_inner check_fork quarantine_clash find dispatch exists
    resolve_pending select update_seq_state update count handle_delivery_canceled
numbered = refl
