-- ===== src/Projections/Reactions/Cap.antt =====
-- The flood bound of `_handle_reaction_added`.
use muse_agent_social.Prelude.{
  ◌≤◌, String, Bool, true, false, some, List, ◌≡◌, inl, inr, ap, arith, ◌==◌, eq_iff, Option-cases,
  sym, suc, ap₂,
}
use muse_agent_social.Prelude.Table.{find, exists, count, update}
use muse_agent_social.Prelude.TableLaws.{
  count-insert, exists_of_find, not-exists_of_find, find-accepts, count-update_found,
}
use muse_agent_social.Store.Events.{Event, Reaction}
use muse_agent_social.Store.Tables.{Db, ReactionRow}
use muse_agent_social.Store.Txn.{Txn}
use muse_agent_social.Store.Keeps.{Keeps, view-Keeps}
use muse_agent_social.Projections.Apply.{apply_event}
use muse_agent_social.Projections.Apply.Lift.{IsKept, apply_event-Keeps}
use muse_agent_social.Projections.Footprints.{
  message_created_footprint, message_edited_footprint, message_retracted_footprint,
  receipt_footprint, poll_created_footprint, poll_responded_footprint, task_created_footprint,
  task_updated_footprint, human_requested_footprint, human_responded_footprint,
  delivery_scheduled_footprint, delivery_canceled_footprint, security_key_footprint,
  quarantine_footprint, sequence_footprint, marks_footprint, replies_footprint,
}
use muse_agent_social.Projections.Reactions.{
  max_active_reactions, reaction_key, active_of, activate, deactivate, new_reaction, write_reaction,
  handle_reaction_added, handle_reaction_removed,
}

-- No sender holds more active reactions on one target than the cap.
pub record IsCapped (reactions : List ReactionRow) : Type 0 where
  pub at_most :
      (target sender : String) → count (active_of target sender) reactions ≤ max_active_reactions

module _ (p : Reaction) (ev : Event) (rs : List ReactionRow) (target sender : String) where
  -- The counts that the sender's own target and another one ask for are the same, or apart.
  own_count :
      (p.target_event_id == target) ≡ true
      → (ev.sender == sender) ≡ true
      → count (active_of target sender) rs ≡ count (active_of p.target_event_id ev.sender) rs
  own_count e f = sym (
      ap₂ (λ t s. count (active_of t s) rs) ((eq_iff p.target_event_id target).0 e)
        ((eq_iff ev.sender sender).0 f))

  write_new :
      exists (reaction_key p.target_event_id ev.sender p.emoji) rs ≡ false
      → suc (count (active_of p.target_event_id ev.sender) rs) ≤ max_active_reactions
      → count (active_of target sender) rs ≤ max_active_reactions
      → count (active_of target sender) (write_reaction ev p rs) ≤ max_active_reactions
  unfolding write_reaction
  write_new fresh room h =
      ground (arith, count-insert (active_of target sender) rs (new_reaction ev p), own_count)

  write_old :
      (row : ReactionRow)
      → find (reaction_key p.target_event_id ev.sender p.emoji) rs ≡ some row
      → (row.active ≡ false
          → suc (count (active_of p.target_event_id ev.sender) rs) ≤ max_active_reactions)
      → count (active_of target sender) rs ≤ max_active_reactions
      → count (active_of target sender) (write_reaction ev p rs) ≤ max_active_reactions
  unfolding write_reaction
  write_old row found room h = ground (
    arith,
    exists_of_find (reaction_key p.target_event_id ev.sender p.emoji) rs row found,
    find-accepts (reaction_key p.target_event_id ev.sender p.emoji) rs row found,
    count-update_found (reaction_key p.target_event_id ev.sender p.emoji) (activate ev)
        (active_of target sender) rs row found,
    eq_iff row.target_event_id p.target_event_id,
    eq_iff row.sender ev.sender,
    own_count,
  )

  remove_old :
      (row : ReactionRow)
      → find (reaction_key p.target_event_id ev.sender p.emoji) rs ≡ some row
      → count (active_of target sender) rs ≤ max_active_reactions
      → count
          (active_of target sender)
          (update (reaction_key p.target_event_id ev.sender p.emoji) (deactivate ev) rs)
        ≤ max_active_reactions
  remove_old row found h = ground (
    arith,
    count-update_found (reaction_key p.target_event_id ev.sender p.emoji) (deactivate ev)
        (active_of target sender) rs row found,
  )

module _ (ev : Event) (p : Reaction) (db : Db) (h : IsCapped db.reactions)
    (target sender : String) where
  abbrev key : ReactionRow → Bool
  key = reaction_key p.target_event_id ev.sender p.emoji

  added_at_most :
      count (active_of target sender) (handle_reaction_added ev p db).1.reactions
      ≤ max_active_reactions
  unfolding handle_reaction_added
  added_at_most = elim (Option-cases (find key db.reactions)) [
    | inl e ↦ ground (
      arith,
      write_new p ev db.reactions target sender (not-exists_of_find key db.reactions e),
      h.at_most target sender,
    )
    | inr (row, e) ↦
        ground (arith, write_old p ev db.reactions target sender row e, h.at_most target sender)
  ]

  removed_at_most :
      count (active_of target sender) (handle_reaction_removed ev p db).1.reactions
      ≤ max_active_reactions
  unfolding handle_reaction_removed
  removed_at_most = elim (Option-cases (find key db.reactions)) [
    | inl e ↦ ground (arith, h.at_most target sender)
    | inr (row, e) ↦
        ground (arith, remove_old p ev db.reactions target sender row e, h.at_most target sender)
  ]

abbrev Capped : Db → Type 0
Capped db = IsCapped db.reactions

added-IsCapped : (ev : Event) (p : Reaction) → Keeps Capped (handle_reaction_added ev p)
added-IsCapped ev p = record { at = λ db h. record { at_most = added_at_most ev p db h } }

removed-IsCapped : (ev : Event) (p : Reaction) → Keeps Capped (handle_reaction_removed ev p)
removed-IsCapped ev p = record { at = λ db h. record { at_most = removed_at_most ev p db h } }

same : {A : Type 0} {m : Txn A} → ((db : Db) → (m db).1.reactions ≡ db.reactions) → Keeps Capped m
same = view-Keeps IsCapped

reactions-IsKept : IsKept (Capped)
reactions-IsKept = record {
  message_created =
      λ ev p now. same (λ db. ap (λ d. d.reactions) (message_created_footprint ev p now db));
  message_edited = λ ev p. same (λ db. ap (λ d. d.reactions) (message_edited_footprint ev p db));
  message_retracted =
      λ ev p. same (λ db. ap (λ d. d.reactions) (message_retracted_footprint ev p db));
  reaction_added = added-IsCapped;
  reaction_removed = removed-IsCapped;
  receipt = λ ev p kind. same (λ db. ap (λ d. d.reactions) (receipt_footprint ev p kind db));
  poll_created = λ ev p. same (λ db. ap (λ d. d.reactions) (poll_created_footprint ev p db));
  poll_responded =
      λ ev p now. same (λ db. ap (λ d. d.reactions) (poll_responded_footprint ev p now db));
  task_created = λ ev p. same (λ db. ap (λ d. d.reactions) (task_created_footprint ev p db));
  task_updated = λ ev p. same (λ db. ap (λ d. d.reactions) (task_updated_footprint ev p db));
  human_requested = λ ev p. same (λ db. ap (λ d. d.reactions) (human_requested_footprint ev p db));
  human_responded = λ ev p. same (λ db. ap (λ d. d.reactions) (human_responded_footprint ev p db));
  delivery_scheduled =
      λ ev p. same (λ db. ap (λ d. d.reactions) (delivery_scheduled_footprint ev p db));
  delivery_canceled =
      λ ev p. same (λ db. ap (λ d. d.reactions) (delivery_canceled_footprint ev p db));
  security_key =
      λ ev action. same (λ db. ap (λ d. d.reactions) (security_key_footprint ev action db));
  quarantine = λ rel sender seq id reason.
      same (λ db. ap (λ d. d.reactions) (quarantine_footprint rel sender seq id reason db));
  sequence = λ rel sender seq at.
      same (λ db. ap (λ d. d.reactions) (sequence_footprint rel sender seq at db));
  marks = λ id state. same (λ db. ap (λ d. d.reactions) (marks_footprint id state db));
  replies = λ id state. same (λ db. ap (λ d. d.reactions) (replies_footprint id state db));
}

-- Where no sender holds more than eight active reactions on one target, none does after any event
-- is applied, whatever its outcome.
pub apply_event-IsCapped :
    (ev : Event) (db : Db) → IsCapped db.reactions → IsCapped (apply_event ev db).1.reactions
apply_event-IsCapped ev db = (apply_event-Keeps reactions-IsKept ev).at db
