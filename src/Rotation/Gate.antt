-- ===== src/Rotation/Gate.antt =====
-- The epoch gate of data events, and the quarantine: `on_data_event_epoch`, `_cap_first_seen`,
-- `_cap_quarantine`, `_quarantine`, `list_quarantine`.
use muse_agent_social.Prelude.{
  ℕ, ◌+◌, ◌*◌, String, Bool, true, false, not, ◌&&◌, ◌||◌, Option, none, some, List, [], ◌∷◌, ◌==◌,
  nat_eq, ltb, leb, if◌then◌else◌,
}
use muse_agent_social.Prelude.Action.{◌>>=◌, ◌>>◌, pure, gets, modify, transaction}
use muse_agent_social.Prelude.Table.{find, select, count, insert, insert_or_ignore, update}
use muse_agent_social.Rotation.Tables.{
  FirstSeen, QuarantineRow, Reason, unknown_future_epoch, unknown_future_epoch_rejected,
  Quarantined, epoch_only, Keys, future_epoch, future_epoch_rejected, Act, micro, seconds,
  rotation_window,
}
use muse_agent_social.Rotation.Inventory.{refuse, current_epoch}

abbrev pub quarantine_cap : ℕ
quarantine_cap = 50

abbrev pub first_seen_cap : ℕ
first_seen_cap = 1000

-- Keeps the last `cap` of the rows that `p` picks, and every other row.
unfoldable pub keep_last {ℓ} : {A : Type ℓ} → ℕ → (A → Bool) → List A → List A
unfolding count
keep_last cap p [] = []
keep_last cap p (x ∷ xs) =
    let rest = keep_last cap p xs in if p x && leb cap (count p xs) then rest else x ∷ rest

abbrev pub of_relationship : String → QuarantineRow → Bool
of_relationship rid q = q.relationship_id == rid

-- The ids grow with each insert, so the newest rows are the last ones.
unfoldable pub cap_quarantine : String → List QuarantineRow → List QuarantineRow
unfolding keep_last
cap_quarantine rid = keep_last quarantine_cap (of_relationship rid)

unfoldable pub quarantine_in_txn : String → ℕ → Reason → Quarantined → ℕ → Act (Unit {0})
unfolding cap_quarantine
quarantine_in_txn rid epoch reason payload now = modify (λ s. record s {
  rotation_quarantine = cap_quarantine rid (
      insert
        (record {
          id = s.next_id;
          relationship_id = rid;
          epoch = epoch;
          reason = reason;
          payload = payload;
          received_at = seconds now;
        })
        s.rotation_quarantine);
  next_id = s.next_id + 1;
})

unfoldable pub list_quarantine : String → Keys → List QuarantineRow
list_quarantine rid s = select (of_relationship rid) s.rotation_quarantine

abbrev pub seen_of : String → ℕ → FirstSeen → Bool
seen_of rid epoch f = f.relationship_id == rid && nat_eq f.epoch epoch

abbrev pub is_pending : String → FirstSeen → Bool
is_pending rid f = f.relationship_id == rid && not f.rejected

-- ORDER BY first_seen_at DESC, epoch DESC
abbrev pub is_newer : FirstSeen → FirstSeen → Bool
is_newer a b =
    ltb b.first_seen_at a.first_seen_at
    || (nat_eq a.first_seen_at b.first_seen_at && ltb b.epoch a.epoch)

-- A row goes if it is pending and `cap` pending rows are newer.
unfoldable pub evict : ℕ → String → List FirstSeen → List FirstSeen → List FirstSeen
unfolding count
evict cap rid all [] = []
evict cap rid all (f ∷ fs) =
    let rest = evict cap rid all fs in
    if is_pending rid f && leb cap (count (λ g. is_pending rid g && is_newer g f) all)
    then rest
    else f ∷ rest

unfoldable pub cap_first_seen : String → List FirstSeen → List FirstSeen
unfolding evict
cap_first_seen rid all = evict first_seen_cap rid all all

abbrev pub new_seen : String → ℕ → ℕ → FirstSeen
new_seen rid epoch now = record {
  relationship_id = rid;
  epoch = epoch;
  first_seen_at = seconds now;
  rejected = false;
}

-- Is the epoch rejected, by its tombstone or by its age?
abbrev pub is_rejected : ℕ → Option FirstSeen → Bool
is_rejected now none = false
is_rejected now (some f) = f.rejected || ltb (f.first_seen_at * micro + rotation_window) now

unfoldable pub record_unknown : String → ℕ → ℕ → Act Bool
unfolding cap_first_seen quarantine_in_txn
record_unknown rid epoch now = do
  modify (λ s. record s {
    first_seen =
        cap_first_seen rid
          (insert_or_ignore (seen_of rid epoch) (new_seen rid epoch now) s.first_seen);
  })
  rejected ← gets (λ s. is_rejected now (find (seen_of rid epoch) s.first_seen))
  if rejected
      then modify (λ s. record s {
        first_seen = update (seen_of rid epoch) (λ f. record f { rejected = true }) s.first_seen;
      })
      else pure tt
  quarantine_in_txn rid epoch
      (if rejected then unknown_future_epoch_rejected else unknown_future_epoch) (epoch_only epoch)
      now
  pure rejected

-- The Python method returns "ok" or raises.
unfoldable pub on_data_event_epoch : String → ℕ → ℕ → Act (Unit {0})
unfolding record_unknown current_epoch
on_data_event_epoch rid key_epoch now = do
  known ← gets (current_epoch rid)
  if leb key_epoch known then pure tt else do
    rejected ← transaction (record_unknown rid key_epoch now)
    if rejected then refuse future_epoch_rejected else refuse future_epoch
