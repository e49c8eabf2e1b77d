-- ===== src/Projections/Threads.antt =====
-- The thread registry: `_ensure_thread` and `_bump_thread_message`. The foreign key of `threads`
-- holds, since the event's own row carries the same conversation.
use muse_agent_social.Prelude.{
  ◌+◌, String, Bool, true, false, not, ◌&&◌, Option, none, some, List, [], ◌∷◌, ◌==◌, text_lt,
  present, if◌then◌else◌,
}
use muse_agent_social.Prelude.Table.{find, exists, insert_or_ignore, update}
use muse_agent_social.Store.Events.{Event}
use muse_agent_social.Store.Tables.{ThreadRow, ThreadState, thread_scope_mismatch}
use muse_agent_social.Store.Txn.{Txn, ◌>>=◌, ◌>>◌, pure, reject, gets, modify}
use muse_agent_social.Projections.Mutations.{Mutation, mutation, updated, thread_state, text}

abbrev other_conversation : Option ThreadRow → String → Bool
other_conversation none conversation_id = false
other_conversation (some t) conversation_id = not (t.conversation_id == conversation_id)

abbrev has_no_root : String → ThreadState → Bool
has_no_root thread_id t =
    t.thread_id == thread_id && elim t.root_event_id [ none ↦ true | some _ ↦ false ]

register_thread : Event → String → Txn (Unit {0})
register_thread ev thread_id = do
  modify (λ db. record db {
    threads =
        insert_or_ignore (λ t. t.thread_id == thread_id)
          (record { thread_id = thread_id; conversation_id = ev.conversation_id }) db.threads;
  })
  modify (λ db. record db {
    thread_state =
        insert_or_ignore (λ t. t.thread_id == thread_id)
          (record {
            thread_id = thread_id;
            conversation_id = ev.conversation_id;
            root_event_id = none;
            message_count = 0;
            last_event_at = none;
          })
          db.thread_state;
  })

set_root : Event → String → Txn (List Mutation)
set_root ev thread_id = do
  rowcount ← gets (λ db. exists (has_no_root thread_id) db.thread_state)
  modify (λ db. record db {
    thread_state =
        update (has_no_root thread_id) (λ t. record t { root_event_id = some ev.event_id })
          db.thread_state;
  })
  pure (
      if rowcount
      then mutation updated thread_state (text thread_id ∷ [])
          (("root_event_id", text ev.event_id) ∷ [])
        ∷ []
      else [])

ensure_named_thread : Event → Option String → Txn (List Mutation)
unfolding register_thread set_root
ensure_named_thread ev none = pure []
ensure_named_thread ev (some thread_id) = do
  existing ← gets (λ db. find (λ t. t.thread_id == thread_id) db.threads)
  if other_conversation existing ev.conversation_id then reject thread_scope_mismatch else do
    register_thread ev thread_id
    if thread_id == ev.event_id then set_root ev thread_id else pure []

unfoldable pub ensure_thread : Event → Txn (List Mutation)
unfolding ensure_named_thread ◌>>=◌
ensure_thread ev = ensure_named_thread ev (present ev.thread_id)

later : Option String → String → String
later none created_at = created_at
later (some last) created_at = if text_lt last created_at then created_at else last

unfoldable pub bump_thread_message : Option String → String → Txn (Unit {0})
unfolding later
bump_thread_message thread_id created_at = elim (present thread_id) [
  | none ↦ pure tt
  | some id ↦ modify (λ db. record db {
    thread_state =
        update (λ t. t.thread_id == id)
          (λ t. record t {
            message_count = t.message_count + 1;
            last_event_at = some (later t.last_event_at created_at);
          })
          db.thread_state;
  })
]
