-- ===== src/Projections/Targets.antt =====
-- References to other events: `_target_event`, `_target_status`, `_check_reply_scope`,
-- `_pending_state`, `_add_pending`.
use muse_agent_social.Prelude.{
  ℕ, ◌+◌, ◌*◌, String, Bool, false, not, ◌&&◌, ◌||◌, Option, none, some, [], ◌∷◌, ◌==◌, leb,
  same_text, if◌then◌else◌,
}
use muse_agent_social.Prelude.Table.{find, insert_or_ignore}
use muse_agent_social.Time.{parse_canonical_utc}
use muse_agent_social.Store.Events.{Event, EventRow, EventType, type_name}
use muse_agent_social.Store.Tables.{
  Db, Code, ReplyState, pending, unavailable, RefKind, reply_ref, edit_ref, retract_ref,
  reaction_add_ref, reaction_remove_ref, receipt_ref, poll_response_ref, task_update_ref,
  human_response_ref, delivery_cancel_ref, waiting, reply_target_scope,
}
use muse_agent_social.Store.Txn.{Txn, ◌>>=◌, ◌>>◌, pure, reject, gets, modify}
use muse_agent_social.Projections.Mutations.{Mutation, mutation, pending_op, pending_refs, text}

unfoldable pub target_event : String → String → Db → Option EventRow
target_event relationship_id target_event_id db =
    find (λ e. e.relationship_id == relationship_id && e.event_id == target_event_id) db.events

-- Rejects an accepted target of another type; 'missing' and 'ok' are one result, since every
-- caller goes on alike.
abbrev wrong_type : Option EventRow → EventType → Bool
wrong_type none expected = false
wrong_type (some target) expected = not (type_name target.event_type == type_name expected)

unfoldable pub target_status : Event → String → EventType → Code → Txn (Unit {0})
unfolding target_event ◌>>=◌
target_status ev target_event_id expected_type err_code = do
  target ← gets (target_event ev.relationship_id target_event_id)
  if wrong_type target expected_type then reject err_code else pure tt

abbrev pub out_of_scope : EventRow → String → Option String → Bool
out_of_scope target conversation_id thread_id =
    not (target.conversation_id == conversation_id) || not (same_text target.thread_id thread_id)

unfoldable pub check_reply_scope : Event → EventRow → Txn (Unit {0})
check_reply_scope ev target =
    if out_of_scope target ev.conversation_id ev.thread_id
    then reject reply_target_scope
    else pure tt

abbrev pub pending_target_ttl_seconds : ℕ
pending_target_ttl_seconds = 7 * 24 * 60 * 60

-- `none` is the ValueError of `strptime`.
unfoldable pub pending_state : String → String → Option ReplyState
pending_state created_at now = elim (parse_canonical_utc created_at) [
  | none ↦ none
  | some created ↦ elim (parse_canonical_utc now) [
    | none ↦ none
    | some current ↦
        some (if leb (created + pending_target_ttl_seconds) current then unavailable else pending)
  ]
]

abbrev pub kind_name : RefKind → String
kind_name reply_ref = "reply"
kind_name edit_ref = "edit"
kind_name retract_ref = "retract"
kind_name reaction_add_ref = "reaction_add"
kind_name reaction_remove_ref = "reaction_remove"
kind_name receipt_ref = "receipt"
kind_name poll_response_ref = "poll_response"
kind_name task_update_ref = "task_update"
kind_name human_response_ref = "human_response"
kind_name delivery_cancel_ref = "delivery_cancel"

unfoldable pub add_pending : Event → String → RefKind → Txn Mutation
unfolding ◌>>=◌
add_pending ev target_event_id kind = do
  modify (λ db. record db {
    pending_refs =
        insert_or_ignore (λ r. r.event_id == ev.event_id)
          (record {
            event_id = ev.event_id;
            relationship_id = ev.relationship_id;
            target_event_id = target_event_id;
            kind = kind;
            created_at = ev.created_at;
            state = waiting;
          })
          db.pending_refs;
  })
  pure (
      mutation pending_op pending_refs (text ev.event_id ∷ [])
        (("target", text target_event_id) ∷ ("kind", text (kind_name kind)) ∷ []))
