-- ===== src/Projections/Apply/Lift.antt =====
-- An invariant that every handler and every bookkeeping step keeps is kept by `apply_event`, also
-- where an event is rejected on the way.
use muse_agent_social.Prelude.{ℕ, String, Option, none, some, List, [], ◌∷◌}
use muse_agent_social.Store.Events.{
  Event, EventRow, EventType, Payload, KeyAction, MessageBody, Edit, Retraction, Reaction, Receipt,
  PollBody, PollAnswer, TaskBody, TaskUpdate, HumanRequest, HumanAnswer, Announcement, Cancellation,
}
use muse_agent_social.Store.Tables.{
  Db, Code, sequence_fork, RefState, ReplyState, ReceiptKind, PendingRef,
}
use muse_agent_social.Store.Keeps.{Keeps, bind-Keeps, catch-Keeps, if-Keeps, reads-Keeps}
use muse_agent_social.Projections.Mutations.{Mutation}
use muse_agent_social.Projections.Quarantine.{quarantine_event, quarantine_clash, check_fork}
use muse_agent_social.Projections.Sequence.{update_seq_state}
use muse_agent_social.Projections.Messages.{
  handle_message_created, handle_message_edited, handle_message_retracted,
}
use muse_agent_social.Projections.Reactions.{
  handle_reaction_added, handle_reaction_removed, handle_receipt,
}
use muse_agent_social.Projections.Polls.{handle_poll_created, handle_poll_responded}
use muse_agent_social.Projections.Tasks.{handle_task_created, handle_task_updated}
use muse_agent_social.Projections.Requests.{handle_human_requested, handle_human_responded}
use muse_agent_social.Projections.Apply.{
  mark_ref, set_reply_state, is_reply, reply_outcome, dispatch_on, dispatch, redispatch,
  dispatch_or_quarantine, resolve_reply, resolve_ref, resolve_refs, resolve_pending, project,
  apply_inner, apply_event,
}
use muse_agent_social.Projections.Deliveries.{
  handle_delivery_scheduled, handle_delivery_canceled, handle_security_key,
}

pub record IsKept (P : Db → Type 0) : Type 0 where
  pub message_created :
      (ev : Event) (p : MessageBody) (now : String) → Keeps P (handle_message_created ev p now)
  pub message_edited : (ev : Event) (p : Edit) → Keeps P (handle_message_edited ev p)
  pub message_retracted : (ev : Event) (p : Retraction) → Keeps P (handle_message_retracted ev p)
  pub reaction_added : (ev : Event) (p : Reaction) → Keeps P (handle_reaction_added ev p)
  pub reaction_removed : (ev : Event) (p : Reaction) → Keeps P (handle_reaction_removed ev p)
  pub receipt : (ev : Event) (p : Receipt) (kind : ReceiptKind) → Keeps P (handle_receipt ev p kind)
  pub poll_created : (ev : Event) (p : PollBody) → Keeps P (handle_poll_created ev p)
  pub poll_responded :
      (ev : Event) (p : PollAnswer) (now : String) → Keeps P (handle_poll_responded ev p now)
  pub task_created : (ev : Event) (p : TaskBody) → Keeps P (handle_task_created ev p)
  pub task_updated : (ev : Event) (p : TaskUpdate) → Keeps P (handle_task_updated ev p)
  pub human_requested : (ev : Event) (p : HumanRequest) → Keeps P (handle_human_requested ev p)
  pub human_responded : (ev : Event) (p : HumanAnswer) → Keeps P (handle_human_responded ev p)
  pub delivery_scheduled :
      (ev : Event) (p : Announcement) → Keeps P (handle_delivery_scheduled ev p)
  pub delivery_canceled : (ev : Event) (p : Cancellation) → Keeps P (handle_delivery_canceled ev p)
  pub security_key : (ev : Event) (action : KeyAction) → Keeps P (handle_security_key ev action)
  pub quarantine :
      (rel sender : String) (seq : ℕ) (id : String) (reason : Code)
      → Keeps P (quarantine_event rel sender seq id reason)
  pub sequence :
      (rel sender : String) (seq : ℕ) (at : String) → Keeps P (update_seq_state rel sender seq at)
  pub marks : (id : String) (state : RefState) → Keeps P (mark_ref id state)
  pub replies : (id : String) (state : ReplyState) → Keeps P (set_reply_state id state)

module _ {P : Db → Type 0} (k : IsKept P) where
  dispatch_on-Keeps :
      (t : EventType) (p : Payload) (ev : Event) (now : String) → Keeps P (dispatch_on t p ev now)
  unfolding dispatch_on
  dispatch_on-Keeps EventType.message_created (Payload.message p) ev now =
      k.message_created ev p now
  dispatch_on-Keeps EventType.message_edited (Payload.edit p) ev now = k.message_edited ev p
  dispatch_on-Keeps EventType.message_retracted (Payload.retraction p) ev now =
      k.message_retracted ev p
  dispatch_on-Keeps EventType.reaction_added (Payload.reaction p) ev now = k.reaction_added ev p
  dispatch_on-Keeps EventType.reaction_removed (Payload.reaction p) ev now = k.reaction_removed ev p
  dispatch_on-Keeps EventType.receipt_accepted (Payload.receipt p) ev now =
      k.receipt ev p ReceiptKind.accepted
  dispatch_on-Keeps EventType.receipt_seen (Payload.receipt p) ev now =
      k.receipt ev p ReceiptKind.seen
  dispatch_on-Keeps EventType.poll_created (Payload.poll p) ev now = k.poll_created ev p
  dispatch_on-Keeps EventType.poll_responded (Payload.poll_answer p) ev now =
      k.poll_responded ev p now
  dispatch_on-Keeps EventType.task_created (Payload.task p) ev now = k.task_created ev p
  dispatch_on-Keeps EventType.task_updated (Payload.task_update p) ev now = k.task_updated ev p
  dispatch_on-Keeps EventType.human_requested (Payload.human_request p) ev now =
      k.human_requested ev p
  dispatch_on-Keeps EventType.human_responded (Payload.human_answer p) ev now =
      k.human_responded ev p
  dispatch_on-Keeps EventType.delivery_scheduled (Payload.announcement p) ev now =
      k.delivery_scheduled ev p
  dispatch_on-Keeps EventType.delivery_canceled (Payload.cancellation p) ev now =
      k.delivery_canceled ev p
  dispatch_on-Keeps (EventType.security_key action) _ ev now = k.security_key ev action
  dispatch_on-Keeps _ _ ev now = reads-Keeps

  pub dispatch-Keeps : (ev : Event) (now : String) → Keeps P (dispatch ev now)
  unfolding dispatch
  dispatch-Keeps ev now = dispatch_on-Keeps ev.event_type ev.payload ev now

  pub dispatch_or_quarantine-Keeps :
      (ev : Event) (now : String) → Keeps P (dispatch_or_quarantine ev now)
  unfolding dispatch_or_quarantine
  dispatch_or_quarantine-Keeps ev now = catch-Keeps (dispatch-Keeps ev now) λ code.
      bind-Keeps (k.quarantine ev.relationship_id ev.sender ev.sender_seq ev.event_id code)
        (λ _. reads-Keeps)

  redispatch-Keeps : (ev : Option Event) (now : String) → Keeps P (redispatch ev now)
  unfolding redispatch
  redispatch-Keeps none now = reads-Keeps
  redispatch-Keeps (some ev) now = dispatch_or_quarantine-Keeps ev now

  resolve_reply-Keeps : (rel target ref : String) → Keeps P (resolve_reply rel target ref)
  unfolding resolve_reply
  resolve_reply-Keeps rel target ref = bind-Keeps reads-Keeps λ e.
      bind-Keeps reads-Keeps λ m. bind-Keeps (k.replies ref (reply_outcome e m)) (λ _. reads-Keeps)

  resolve_ref-Keeps :
      (rel target now : String) (ref : PendingRef) → Keeps P (resolve_ref rel target now ref)
  unfolding resolve_ref
  resolve_ref-Keeps rel target now ref = bind-Keeps (k.marks ref.event_id RefState.resolved) λ _.
      bind-Keeps
        (if-Keeps (is_reply ref.kind) (resolve_reply-Keeps rel target ref.event_id)
          (bind-Keeps reads-Keeps (λ ev. redispatch-Keeps ev now)))
        (λ _. reads-Keeps)

  resolve_refs-Keeps :
      (rel target now : String) (refs : List PendingRef)
      → Keeps P (resolve_refs rel target now refs)
  unfolding resolve_refs
  resolve_refs-Keeps rel target now [] = reads-Keeps
  resolve_refs-Keeps rel target now (ref ∷ refs) =
      bind-Keeps (resolve_ref-Keeps rel target now ref)
        λ _. bind-Keeps (resolve_refs-Keeps rel target now refs) (λ _. reads-Keeps)

  quarantine_clash-Keeps :
      (ev : Event) (clash : Option EventRow) → Keeps P (quarantine_clash ev clash)
  unfolding quarantine_clash
  quarantine_clash-Keeps ev none = reads-Keeps
  quarantine_clash-Keeps ev (some clash) =
      bind-Keeps (k.quarantine ev.relationship_id ev.sender ev.sender_seq ev.event_id sequence_fork)
        (λ _. reads-Keeps)

  check_fork-Keeps : (ev : Event) → Keeps P (check_fork ev)
  unfolding check_fork
  check_fork-Keeps ev = bind-Keeps reads-Keeps (quarantine_clash-Keeps ev)

  project-Keeps :
      (ev : Event) (now : String) (fork : Option Mutation) → Keeps P (project ev now fork)
  unfolding project resolve_pending
  project-Keeps ev now (some fork) = reads-Keeps
  project-Keeps ev now none = bind-Keeps (dispatch-Keeps ev now) λ _.
      bind-Keeps (bind-Keeps reads-Keeps (resolve_refs-Keeps ev.relationship_id ev.event_id now))
        λ _.
          bind-Keeps (k.sequence ev.relationship_id ev.sender ev.sender_seq now) (λ _. reads-Keeps)

  pub apply_inner-Keeps : (ev : Event) (now : String) → Keeps P (apply_inner ev now)
  unfolding apply_inner
  apply_inner-Keeps ev now = bind-Keeps (check_fork-Keeps ev) (project-Keeps ev now)

  pub apply_event-Keeps : (ev : Event) → Keeps P (apply_event ev)
  unfolding apply_event
  apply_event-Keeps ev = bind-Keeps reads-Keeps (apply_inner-Keeps ev)
