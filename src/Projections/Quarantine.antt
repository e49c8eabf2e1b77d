-- ===== src/Projections/Quarantine.antt =====
-- `quarantine_event` and the fork check, `_check_fork`.
use muse_agent_social.Prelude.{ℕ, String, not, ◌&&◌, Option, none, some, [], ◌∷◌, ◌==◌, nat_eq}
use muse_agent_social.Prelude.Table.{find, insert_or_ignore}
use muse_agent_social.Store.Events.{Event, EventRow}
use muse_agent_social.Store.Tables.{
  Db, Code, sequence_fork, edit_target_not_message, edit_not_sender, edit_after_retract,
  retract_target_not_message, retract_not_sender, reply_target_scope, thread_scope_mismatch,
  reaction_cap_exceeded, poll_bad_closes_at, poll_response_target_not_poll, poll_no_choice,
  poll_duplicate_choice, poll_unknown_choice, poll_multi_choice_single_select, poll_closed,
  task_update_target_not_task, task_not_authorized, task_transition_terminal, task_bad_status,
  human_response_target_not_request, delivery_cancel_target_not_scheduled,
  delivery_cancel_not_sender, unknown_event_type, payload_missing,
}
use muse_agent_social.Store.Txn.{Txn, ◌>>=◌, ◌>>◌, pure, gets, modify}
use muse_agent_social.Projections.Mutations.{Mutation, mutation, quarantined, quarantine, text}

abbrev code_name : Code → String
code_name edit_target_not_message = "edit_target_not_message"
code_name edit_not_sender = "edit_not_sender"
code_name edit_after_retract = "edit_after_retract"
code_name retract_target_not_message = "retract_target_not_message"
code_name retract_not_sender = "retract_not_sender"
code_name reply_target_scope = "reply_target_scope"
code_name thread_scope_mismatch = "thread_scope_mismatch"
code_name reaction_cap_exceeded = "reaction_cap_exceeded"
code_name poll_bad_closes_at = "poll_bad_closes_at"
code_name poll_response_target_not_poll = "poll_response_target_not_poll"
code_name poll_no_choice = "poll_no_choice"
code_name poll_duplicate_choice = "poll_duplicate_choice"
code_name poll_unknown_choice = "poll_unknown_choice"
code_name poll_multi_choice_single_select = "poll_multi_choice_single_select"
code_name poll_closed = "poll_closed"
code_name task_update_target_not_task = "task_update_target_not_task"
code_name task_not_authorized = "task_not_authorized"
code_name task_transition_terminal = "task_transition_terminal"
code_name task_bad_status = "task_bad_status"
code_name human_response_target_not_request = "human_response_target_not_request"
code_name delivery_cancel_target_not_scheduled = "delivery_cancel_target_not_scheduled"
code_name delivery_cancel_not_sender = "delivery_cancel_not_sender"
code_name unknown_event_type = "unknown_event_type"
code_name payload_missing = "payload_missing"
code_name sequence_fork = "sequence_fork"

unfoldable pub quarantine_event : String → String → ℕ → String → Code → Txn Mutation
unfolding ◌>>=◌
quarantine_event relationship_id sender sender_seq event_id reason = do
  modify (λ db. record db {
    quarantine =
        insert_or_ignore
          (λ q.
            q.relationship_id == relationship_id
            && q.sender == sender
            && nat_eq q.sender_seq sender_seq
            && q.event_id == event_id)
          (record {
            relationship_id = relationship_id;
            sender = sender;
            sender_seq = sender_seq;
            event_id = event_id;
            reason = reason;
            quarantined_at = db.clock;
          })
          db.quarantine;
  })
  pure (
      mutation quarantined quarantine (text event_id ∷ [])
        (("reason", text (code_name reason)) ∷ []))

-- Another event of the log that holds the sender's sequence number.
unfoldable pub fork_clash : Event → Db → Option EventRow
fork_clash ev db =
    find
      (λ e.
        e.relationship_id == ev.relationship_id
        && e.sender == ev.sender
        && nat_eq e.sender_seq ev.sender_seq
        && not (e.event_id == ev.event_id))
      db.events

unfoldable pub quarantine_clash : Event → Option EventRow → Txn (Option Mutation)
quarantine_clash ev none = pure none
quarantine_clash ev (some clash) = do
  m ← quarantine_event ev.relationship_id ev.sender ev.sender_seq ev.event_id sequence_fork
  pure (some m)

unfoldable pub check_fork : Event → Txn (Option Mutation)
unfolding fork_clash
check_fork ev = do clash ← gets (fork_clash ev); quarantine_clash ev clash
