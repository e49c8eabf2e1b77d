-- ===== src/Projections/Reactions.antt =====
-- `_handle_reaction_added`, `_handle_reaction_removed` and `_handle_receipt`.
pub mod Cap
use muse_agent_social.Prelude.{
  ℕ, String, Bool, true, false, not, ◌&&◌, Option, none, some, List, [], ◌∷◌, ◌==◌, leb, same_text,
  if◌then◌else◌,
}
use muse_agent_social.Prelude.Table.{find, count, upsert, update}
use muse_agent_social.Store.Events.{Event, Reaction, Receipt}
use muse_agent_social.Store.Tables.{
  ReactionRow, ReceiptRow, ReceiptKind, accepted, seen, reaction_cap_exceeded, reaction_add_ref,
  reaction_remove_ref, receipt_ref,
}
use muse_agent_social.Store.Txn.{Txn, ◌>>=◌, ◌>>◌, pure, reject, gets, modify}
use muse_agent_social.Projections.Mutations.{
  Mutation, mutation, unchanged, inserted, updated, reactions, receipts, text, flag,
}
use muse_agent_social.Projections.Targets.{target_event, add_pending}

-- policy/limits.py
abbrev pub max_active_reactions : ℕ
max_active_reactions = 8

-- The primary key (target_event_id, sender, emoji).
abbrev pub reaction_key : String → String → String → ReactionRow → Bool
reaction_key target sender emoji r =
    r.target_event_id == target && r.sender == sender && r.emoji == emoji

abbrev pub active_of : String → String → ReactionRow → Bool
active_of target sender r = r.target_event_id == target && r.sender == sender && r.active

abbrev is_active : Option ReactionRow → Bool
is_active none = false
is_active (some r) = r.active

abbrev added_by : Option ReactionRow → String → Bool
added_by none event_id = false
added_by (some r) event_id = r.active && r.added_event_id == event_id

abbrev removed_by : Option ReactionRow → String → Bool
removed_by none event_id = false
removed_by (some r) event_id = same_text r.removed_event_id (some event_id)

abbrev pub activate : Event → ReactionRow → ReactionRow
activate ev r = record r {
  active = true;
  added_event_id = ev.event_id;
  added_at = ev.created_at;
  removed_event_id = none;
  removed_at = none;
}

abbrev pub deactivate : Event → ReactionRow → ReactionRow
deactivate ev r = record r {
  active = false;
  removed_event_id = some ev.event_id;
  removed_at = some ev.created_at;
}

abbrev pub new_reaction : Event → Reaction → ReactionRow
new_reaction ev p = record {
  target_event_id = p.target_event_id;
  sender = ev.sender;
  emoji = p.emoji;
  active = true;
  added_event_id = ev.event_id;
  added_at = ev.created_at;
  removed_event_id = none;
  removed_at = none;
}

unfoldable pub write_reaction : Event → Reaction → List ReactionRow → List ReactionRow
write_reaction ev p =
    upsert (reaction_key p.target_event_id ev.sender p.emoji) (activate ev) (new_reaction ev p)

add_reaction : Event → Reaction → Option ReactionRow → Txn (List Mutation)
unfolding write_reaction
add_reaction ev p row =
    if added_by row ev.event_id
    then pure (unchanged reactions p.target_event_id "already_projected")
    else do
      active_count ← gets (λ db. count (active_of p.target_event_id ev.sender) db.reactions)
      if not (is_active row) && leb max_active_reactions active_count
          then reject reaction_cap_exceeded
          else do
            modify (λ db. record db { reactions = write_reaction ev p db.reactions })
            pure (
                mutation inserted reactions
                  (text p.target_event_id ∷ text ev.sender ∷ text p.emoji ∷ [])
                  (("active", flag true) ∷ [])
                ∷ [])

unfoldable pub handle_reaction_added : Event → Reaction → Txn (List Mutation)
unfolding target_event add_pending add_reaction ◌>>=◌
handle_reaction_added ev p = do
  target ← gets (target_event ev.relationship_id p.target_event_id)
  elim target [
    | none ↦ do m ← add_pending ev p.target_event_id reaction_add_ref; pure (m ∷ [])
    | some _ ↦ do
      row ← gets (λ db. find (reaction_key p.target_event_id ev.sender p.emoji) db.reactions)
      add_reaction ev p row
  ]

remove_reaction : Event → Reaction → Option ReactionRow → Txn (List Mutation)
remove_reaction ev p row =
    if not (is_active row)
    then pure (unchanged reactions p.target_event_id "no_active_reaction")
    else if removed_by row ev.event_id
    then pure (unchanged reactions p.target_event_id "already_projected")
    else do
      modify (λ db. record db {
        reactions =
            update (reaction_key p.target_event_id ev.sender p.emoji) (deactivate ev) db.reactions;
      })
      pure (
          mutation updated reactions (text p.target_event_id ∷ text ev.sender ∷ text p.emoji ∷ [])
            (("active", flag false) ∷ [])
          ∷ [])

unfoldable pub handle_reaction_removed : Event → Reaction → Txn (List Mutation)
unfolding target_event add_pending remove_reaction ◌>>=◌
handle_reaction_removed ev p = do
  target ← gets (target_event ev.relationship_id p.target_event_id)
  elim target [
    | none ↦ do m ← add_pending ev p.target_event_id reaction_remove_ref; pure (m ∷ [])
    | some _ ↦ do
      row ← gets (λ db. find (reaction_key p.target_event_id ev.sender p.emoji) db.reactions)
      remove_reaction ev p row
  ]

abbrev pub kind_name : ReceiptKind → String
kind_name accepted = "accepted"
kind_name seen = "seen"

abbrev same_kind : ReceiptKind → ReceiptKind → Bool
same_kind accepted accepted = true
same_kind seen seen = true
same_kind _ _ = false

-- The primary key (target_event_id, kind, sender).
abbrev pub receipt_key : String → ReceiptKind → String → ReceiptRow → Bool
receipt_key target kind sender r =
    r.target_event_id == target && same_kind r.kind kind && r.sender == sender

abbrev written_by : Option ReceiptRow → String → Bool
written_by none event_id = false
written_by (some r) event_id = r.receipt_event_id == event_id

write_receipt : Event → Receipt → ReceiptKind → Option ReceiptRow → Txn (List Mutation)
write_receipt ev p kind row =
    if written_by row ev.event_id
    then pure (unchanged receipts p.target_event_id "already_projected")
    else do
      modify (λ db. record db {
        receipts =
            upsert (receipt_key p.target_event_id kind ev.sender)
              (λ r. record r { at = p.at; receipt_event_id = ev.event_id })
              (record {
                target_event_id = p.target_event_id;
                kind = kind;
                sender = ev.sender;
                at = p.at;
                receipt_event_id = ev.event_id;
              })
              db.receipts;
      })
      pure (
          mutation inserted receipts
            (text p.target_event_id ∷ text (kind_name kind) ∷ text ev.sender ∷ [])
            (("kind", text (kind_name kind)) ∷ [])
          ∷ [])

unfoldable pub handle_receipt : Event → Receipt → ReceiptKind → Txn (List Mutation)
unfolding target_event add_pending write_receipt ◌>>=◌
handle_receipt ev p kind = do
  target ← gets (target_event ev.relationship_id p.target_event_id)
  elim target [
    | none ↦ do m ← add_pending ev p.target_event_id receipt_ref; pure (m ∷ [])
    | some _ ↦ do
      row ← gets (λ db. find (receipt_key p.target_event_id kind ev.sender) db.receipts)
      write_receipt ev p kind row
  ]
