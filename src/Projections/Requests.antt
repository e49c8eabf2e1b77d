-- ===== src/Projections/Requests.antt =====
-- `_handle_human_requested`, `_human_response_attestation`, `_handle_human_responded`.
pub mod Claims
use muse_agent_social.Prelude.{
  String, Bool, false, Option, none, some, List, [], ◌∷◌, ◌++◌, ◌==◌, if◌then◌else◌,
}
use muse_agent_social.Prelude.Table.{find, exists, insert, update}
use muse_agent_social.Store.Events.{Event, HumanRequest, HumanAnswer, human_requested}
use muse_agent_social.Store.Tables.{
  Db, RequestRow, RelationshipRow, Attestation, local, peer, open_request, responded,
  human_response_target_not_request, human_response_ref,
}
use muse_agent_social.Store.Txn.{Txn, ◌>>=◌, ◌>>◌, pure, gets, modify}
use muse_agent_social.Projections.Mutations.{
  Mutation, mutation, unchanged, inserted, updated, human_requests, text,
}
use muse_agent_social.Projections.Targets.{target_status, add_pending}
use muse_agent_social.Projections.Threads.{ensure_thread}

abbrev new_request : Event → HumanRequest → RequestRow
new_request ev p = record {
  request_id = ev.event_id;
  relationship_id = ev.relationship_id;
  conversation_id = ev.conversation_id;
  thread_id = ev.thread_id;
  sender = ev.sender;
  created_at = ev.created_at;
  prompt = p.prompt;
  response_shape = p.response_shape;
  expires_at = p.expires_at;
  state = open_request;
  answer = none;
  approved = none;
  responded_at = none;
  response_event_id = none;
  approval_record_id = none;
  attestation = peer;
}

unfoldable pub handle_human_requested : Event → HumanRequest → Txn (List Mutation)
unfolding ensure_thread ◌>>=◌
handle_human_requested ev p = do
  started ← ensure_thread ev
  projected ← gets (λ db. exists (λ r. r.request_id == ev.event_id) db.human_requests)
  if projected
      then pure (started ++ unchanged human_requests ev.event_id "already_projected")
      else do
        modify (λ db. record db { human_requests = insert (new_request ev p) db.human_requests })
        pure (
            started
            ++ mutation inserted human_requests (text ev.event_id ∷ [])
                (("state", text "open") ∷ [])
              ∷ [])

abbrev pub is_peer : Option RelationshipRow → String → Bool
is_peer none sender = false
is_peer (some rel) sender = sender == rel.peer_identity_id

unfoldable pub relationship_of : String → Db → Option RelationshipRow
relationship_of relationship_id db =
    find (λ r. r.relationship_id == relationship_id) db.relationships

unfoldable pub human_response_attestation : Event → HumanAnswer → Db → Attestation
unfolding relationship_of
human_response_attestation ev p db =
    if is_peer (relationship_of ev.relationship_id db) ev.sender
    then peer
    else if exists (λ a. a.approval_id == p.approval_record_id) db.human_approvals
    then local
    else peer

unfoldable pub find_request : String → List RequestRow → Option RequestRow
find_request request_id = find (λ r. r.request_id == request_id)

abbrev answered : Event → HumanAnswer → Attestation → RequestRow → RequestRow
answered ev p attestation r = record r {
  state = responded;
  answer = some p.answer;
  approved = some p.approved;
  responded_at = some ev.created_at;
  response_event_id = some ev.event_id;
  approval_record_id = some p.approval_record_id;
  attestation = attestation;
}

answer_request : Event → HumanAnswer → Option RequestRow → Txn (List Mutation)
unfolding target_status add_pending human_response_attestation
answer_request ev p none = do
  target_status ev p.request_id human_requested human_response_target_not_request
  m ← add_pending ev p.request_id human_response_ref
  pure (m ∷ [])
answer_request ev p (some _) = do
  modify (λ db. record db {
    human_requests =
        update (λ r. r.request_id == p.request_id)
          (answered ev p (human_response_attestation ev p db)) db.human_requests;
  })
  pure (
      mutation updated human_requests (text p.request_id ∷ []) (("state", text "responded") ∷ [])
      ∷ [])

unfoldable pub handle_human_responded : Event → HumanAnswer → Txn (List Mutation)
unfolding answer_request find_request ◌>>=◌
handle_human_responded ev p = do
  row ← gets (λ db. find_request p.request_id db.human_requests)
  answer_request ev p row
