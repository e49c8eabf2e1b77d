-- ===== src/Projections/Polls.antt =====
-- `_handle_poll_created` and `_handle_poll_responded`.
pub mod Tally
use muse_agent_social.Prelude.{
  String, Bool, false, not, ◌&&◌, ◌||◌, Option, none, some, List, [], ◌∷◌, ◌++◌, ◌==◌, nat_eq,
  text_le, length, if◌then◌else◌,
}
use muse_agent_social.Prelude.Table.{find, exists, count, insert, upsert, update}
use muse_agent_social.Store.Events.{Event, PollBody, PollAnswer, poll_created}
use muse_agent_social.Store.Tables.{
  PollRow, ResponseRow, Code, poll_bad_closes_at, poll_response_target_not_poll, poll_no_choice,
  poll_duplicate_choice, poll_unknown_choice, poll_multi_choice_single_select, poll_closed,
  poll_response_ref,
}
use muse_agent_social.Store.Txn.{Txn, ◌>>=◌, ◌>>◌, pure, reject, gets, modify}
use muse_agent_social.Projections.Mutations.{
  Mutation, mutation, unchanged, inserted, polls, poll_responses, text,
}
use muse_agent_social.Projections.Targets.{target_status, add_pending}
use muse_agent_social.Projections.Threads.{ensure_thread}

abbrev new_poll : Event → PollBody → PollRow
new_poll ev p = record {
  poll_id = ev.event_id;
  relationship_id = ev.relationship_id;
  conversation_id = ev.conversation_id;
  thread_id = ev.thread_id;
  sender = ev.sender;
  created_at = ev.created_at;
  question = p.question;
  choices = p.choices;
  closes_at = p.closes_at;
  multi_select = p.multi_select;
  response_count = 0;
}

unfoldable pub find_poll : String → List PollRow → Option PollRow
find_poll poll_id = find (λ p. p.poll_id == poll_id)

unfoldable pub handle_poll_created : Event → PollBody → Txn (List Mutation)
unfolding ensure_thread ◌>>=◌
handle_poll_created ev p = do
  started ← ensure_thread ev
  projected ← gets (λ db. exists (λ r. r.poll_id == ev.event_id) db.polls)
  if projected
      then pure (started ++ unchanged polls ev.event_id "already_projected")
      else if text_le p.closes_at ev.created_at
      then reject poll_bad_closes_at
      else do
        modify (λ db. record db { polls = insert (new_poll ev p) db.polls })
        pure (started ++ mutation inserted polls (text ev.event_id ∷ []) [] ∷ [])

-- `c in xs`
unfoldable pub contains : List String → String → Bool
contains [] c = false
contains (x ∷ xs) c = x == c || contains xs c

-- `len(set(xs)) != len(xs)`
unfoldable pub repeats : List String → Bool
unfolding contains
repeats [] = false
repeats (x ∷ xs) = contains xs x || repeats xs

-- Does the comprehension `[c for c in xs if c not in declared]` find one?
unfoldable pub undeclared : List String → List String → Bool
unfolding contains
undeclared declared [] = false
undeclared declared (c ∷ cs) = not (contains declared c) || undeclared declared cs

-- The checks of a response against its poll, in their order.
unfoldable pub response_fault : PollRow → List String → String → Option Code
unfolding repeats undeclared
response_fault poll choice_ids now =
    if nat_eq (length choice_ids) 0
    then some poll_no_choice
    else if repeats choice_ids
    then some poll_duplicate_choice
    else if undeclared poll.choices choice_ids
    then some poll_unknown_choice
    else if not poll.multi_select && not (nat_eq (length choice_ids) 1)
    then some poll_multi_choice_single_select
    else if text_le poll.closes_at now
    then some poll_closed
    else none

abbrev pub response_key : String → String → ResponseRow → Bool
response_key poll_id sender r = r.poll_id == poll_id && r.sender == sender

abbrev pub answers : String → ResponseRow → Bool
answers poll_id r = r.poll_id == poll_id

abbrev pub new_response : Event → PollAnswer → String → ResponseRow
new_response ev p now = record {
  poll_id = p.poll_id;
  sender = ev.sender;
  choice_ids = p.choice_ids;
  human_confirmed = p.human_confirmed;
  approval_record_id = p.approval_record_id;
  response_event_id = ev.event_id;
  responded_at = now;
}

unfoldable pub write_response : Event → PollAnswer → String → List ResponseRow → List ResponseRow
write_response ev p now =
    upsert (response_key p.poll_id ev.sender)
      (λ r. record r {
        choice_ids = p.choice_ids;
        human_confirmed = p.human_confirmed;
        approval_record_id = p.approval_record_id;
        response_event_id = ev.event_id;
        responded_at = now;
      })
      (new_response ev p now)

-- UPDATE polls SET response_count = (SELECT COUNT(*) …) WHERE poll_id = ?
unfoldable pub recount : String → List ResponseRow → List PollRow → List PollRow
recount poll_id rows =
    update (λ p. p.poll_id == poll_id)
      (λ p. record p { response_count = count (answers poll_id) rows })

respond : Event → PollAnswer → String → Option Code → Txn (List Mutation)
unfolding write_response recount
respond ev p now (some code) = reject code
respond ev p now none = do
  modify (λ db. record db { poll_responses = write_response ev p now db.poll_responses })
  modify (λ db. record db { polls = recount p.poll_id db.poll_responses db.polls })
  pure (mutation inserted poll_responses (text p.poll_id ∷ text ev.sender ∷ []) [] ∷ [])

answer_poll : Event → PollAnswer → String → Option PollRow → Txn (List Mutation)
unfolding target_status add_pending respond response_fault
answer_poll ev p now none = do
  target_status ev p.poll_id poll_created poll_response_target_not_poll
  m ← add_pending ev p.poll_id poll_response_ref
  pure (m ∷ [])
answer_poll ev p now (some poll) = respond ev p now (response_fault poll p.choice_ids now)

unfoldable pub handle_poll_responded : Event → PollAnswer → String → Txn (List Mutation)
unfolding answer_poll find_poll ◌>>=◌
handle_poll_responded ev p now = do
  poll ← gets (λ db. find_poll p.poll_id db.polls)
  answer_poll ev p now poll
