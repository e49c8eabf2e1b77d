-- ===== src/Rotation/Tombstones.antt =====
-- The tombstones of the epoch gate.
use muse_agent_social.Prelude.{
  ℕ, String, Bool, true, false, Option, none, some, List, [], ◌∷◌, ◌≡◌, refl, arith, Bool-cases,
  inl, inr, ◌∙◌, Option-cases, leb, if◌then◌else◌,
}
use muse_agent_social.Prelude.Action.{◌>>=◌, done, raised, transaction}
use muse_agent_social.Prelude.Table.{find, update, insert_or_ignore, insert}
use muse_agent_social.Rotation.Tables.{
  FirstSeen, Keys, rotation_error, future_epoch_rejected, future_epoch,
}
use muse_agent_social.Rotation.Inventory.{
  current_epoch, own_epochs, peer_key_epochs, relationship_of,
}
use muse_agent_social.Rotation.Gate.{
  evict, cap_first_seen, record_unknown, on_data_event_epoch, quarantine_in_txn, seen_of,
  is_rejected, new_seen, first_seen_cap,
}

-- Has the epoch a tombstone?
abbrev pub is_tombstone : Option FirstSeen → Bool
is_tombstone none = false
is_tombstone (some f) = f.rejected

unfoldable pub is_dead : String → ℕ → Keys → Bool
is_dead rid epoch s = is_tombstone (find (seen_of rid epoch) s.first_seen)

evict-tombstone :
    (cap : ℕ) (owner rid : String) (epoch : ℕ) (all rows : List FirstSeen)
    → is_tombstone (find (seen_of rid epoch) rows) ≡ true
    → is_tombstone (find (seen_of rid epoch) (evict cap owner all rows)) ≡ true
unfolding evict find
evict-tombstone cap owner rid epoch all [] h = h
evict-tombstone cap owner rid epoch all (f ∷ fs) h =
    ground (arith, evict-tombstone cap owner rid epoch all fs)

find-append :
    {A : Type 0} (k : A → Bool) (xs : List A) (y z : A)
    → find k xs ≡ some z
    → find k (insert y xs) ≡ some z
unfolding find
find-append k [] y z h = ground arith
find-append k (x ∷ xs) y z h = ground (arith, find-append k xs y z)

insert-tombstone :
    (rid : String) (epoch : ℕ) (p : FirstSeen → Bool) (f : FirstSeen) (rows : List FirstSeen)
    → is_tombstone (find (seen_of rid epoch) rows) ≡ true
    → is_tombstone (find (seen_of rid epoch) (insert_or_ignore p f rows)) ≡ true
insert-tombstone rid epoch p f rows h = elim (Option-cases (find (seen_of rid epoch) rows)) [
  | inl e ↦ ground (arith, e)
  | inr (g, e) ↦ ground (arith, e, find-append (seen_of rid epoch) rows f g e)
]

abbrev reject : FirstSeen → FirstSeen
reject f = record f { rejected = true }

update-tombstone :
    (rid : String) (epoch : ℕ) (p : FirstSeen → Bool) (rows : List FirstSeen)
    → is_tombstone (find (seen_of rid epoch) rows) ≡ true
    → is_tombstone (find (seen_of rid epoch) (update p reject rows)) ≡ true
unfolding find update
update-tombstone rid epoch p [] h = h
update-tombstone rid epoch p (f ∷ fs) h = ground (arith, update-tombstone rid epoch p fs)

update-tombstone_self :
    (rid : String) (epoch now : ℕ) (rows : List FirstSeen)
    → is_rejected now (find (seen_of rid epoch) rows) ≡ true
    → is_tombstone (find (seen_of rid epoch) (update (seen_of rid epoch) reject rows)) ≡ true
unfolding find update
update-tombstone_self rid epoch now [] h = ground arith
update-tombstone_self rid epoch now (f ∷ fs) h =
    ground (arith, update-tombstone_self rid epoch now fs)

-- What `record_unknown` reads after the insert and the cap.
abbrev seen_rows : String → ℕ → ℕ → Keys → List FirstSeen
seen_rows rid epoch now s =
    cap_first_seen rid (insert_or_ignore (seen_of rid epoch) (new_seen rid epoch now) s.first_seen)

record_unknown-result :
    (rid : String) (epoch now : ℕ) (s : Keys)
    → (record_unknown rid epoch now s).0
      ≡ done (is_rejected now (find (seen_of rid epoch) (seen_rows rid epoch now s)))
unfolding record_unknown ◌>>=◌ quarantine_in_txn
record_unknown-result rid epoch now s =
    elim (Bool-cases (is_rejected now (find (seen_of rid epoch) (seen_rows rid epoch now s)))) [
      | inl e ↦ rw e refl
      | inr e ↦ rw e refl
    ]

record_unknown-seen :
    (rid : String) (epoch now : ℕ) (s : Keys)
    → (record_unknown rid epoch now s).1.first_seen ≡ (
        if is_rejected now (find (seen_of rid epoch) (seen_rows rid epoch now s))
        then update (seen_of rid epoch) reject (seen_rows rid epoch now s)
        else seen_rows rid epoch now s)
unfolding record_unknown ◌>>=◌ quarantine_in_txn
record_unknown-seen rid epoch now s =
    elim (Bool-cases (is_rejected now (find (seen_of rid epoch) (seen_rows rid epoch now s)))) [
      | inl e ↦ rw e refl
      | inr e ↦ rw e refl
    ]

record_unknown-current :
    (rid other : String) (epoch now : ℕ) (s : Keys)
    → current_epoch other (record_unknown rid epoch now s).1 ≡ current_epoch other s
unfolding record_unknown ◌>>=◌ quarantine_in_txn current_epoch own_epochs peer_key_epochs
    relationship_of
record_unknown-current rid other epoch now s =
    elim (Bool-cases (is_rejected now (find (seen_of rid epoch) (seen_rows rid epoch now s)))) [
      | inl e ↦ rw e refl
      | inr e ↦ rw e refl
    ]

seen_rows-dead :
    (rid other : String) (epoch key_epoch now : ℕ) (s : Keys)
    → is_dead rid epoch s ≡ true
    → is_tombstone (find (seen_of rid epoch) (seen_rows other key_epoch now s)) ≡ true
unfolding is_dead cap_first_seen
seen_rows-dead rid other epoch key_epoch now s h =
    evict-tombstone first_seen_cap other rid epoch _ _ (
      insert-tombstone rid epoch (seen_of other key_epoch) (new_seen other key_epoch now)
        s.first_seen h)

record_unknown-dead :
    (rid other : String) (epoch key_epoch now : ℕ) (s : Keys)
    → is_dead rid epoch s ≡ true
    → is_dead rid epoch (record_unknown other key_epoch now s).1 ≡ true
unfolding is_dead
record_unknown-dead rid other epoch key_epoch now s h =
    let kept = seen_rows-dead rid other epoch key_epoch now s h in
    elim (Bool-cases
      (is_rejected now (find (seen_of other key_epoch) (seen_rows other key_epoch now s)))) [
        | inl e ↦
            rw (record_unknown-seen other key_epoch now s, e)
              (update-tombstone rid epoch (seen_of other key_epoch)
                (seen_rows other key_epoch now s) kept)
        | inr e ↦ rw (record_unknown-seen other key_epoch now s, e) kept
      ]

on_data_event_epoch-unknown :
    (rid : String) (epoch now : ℕ) (s : Keys)
    → leb epoch (current_epoch rid s) ≡ false
    → on_data_event_epoch rid epoch now s ≡ (
      raised (
          rotation_error (
            if is_rejected now (find (seen_of rid epoch) (seen_rows rid epoch now s))
            then future_epoch_rejected
            else future_epoch)),
      (record_unknown rid epoch now s).1,
    )
unfolding on_data_event_epoch ◌>>=◌ transaction
on_data_event_epoch-unknown rid epoch now s h =
    elim (Bool-cases (is_rejected now (find (seen_of rid epoch) (seen_rows rid epoch now s)))) [
      | inl e ↦ rw (h, record_unknown-result rid epoch now s, e) refl
      | inr e ↦ rw (h, record_unknown-result rid epoch now s, e) refl
    ]

on_data_event_epoch-known :
    (rid : String) (epoch now : ℕ) (s : Keys)
    → leb epoch (current_epoch rid s) ≡ true
    → on_data_event_epoch rid epoch now s ≡ (done tt, s)
unfolding on_data_event_epoch ◌>>=◌
on_data_event_epoch-known rid epoch now s h = rw h refl

data_event-dead :
    (rid other : String) (epoch key_epoch now : ℕ) (s : Keys)
    → is_dead rid epoch s ≡ true
    → is_dead rid epoch (on_data_event_epoch other key_epoch now s).1 ≡ true
data_event-dead rid other epoch key_epoch now s h =
    elim (Bool-cases (leb key_epoch (current_epoch other s))) [
      | inl e ↦ rw (on_data_event_epoch-known other key_epoch now s e) h
      | inr e ↦
          rw (on_data_event_epoch-unknown other key_epoch now s e)
            (record_unknown-dead rid other epoch key_epoch now s h)
    ]

data_event-current :
    (rid other : String) (key_epoch now : ℕ) (s : Keys)
    → current_epoch rid (on_data_event_epoch other key_epoch now s).1 ≡ current_epoch rid s
data_event-current rid other key_epoch now s =
    elim (Bool-cases (leb key_epoch (current_epoch other s))) [
      | inl e ↦ rw (on_data_event_epoch-known other key_epoch now s e) refl
      | inr e ↦
          rw (on_data_event_epoch-unknown other key_epoch now s e)
            (record_unknown-current other rid key_epoch now s)
    ]

-- Data events that arrive one after the other: relationship, epoch and time.
abbrev pub arrivals : List (String × ℕ × ℕ) → Keys → Keys
arrivals [] s = s
arrivals ((rid, epoch, now) ∷ later) s = arrivals later (on_data_event_epoch rid epoch now s).1

arrivals-dead :
    (rid : String) (epoch : ℕ) (later : List (String × ℕ × ℕ)) (s : Keys)
    → is_dead rid epoch s ≡ true
    → is_dead rid epoch (arrivals later s) ≡ true
      × current_epoch rid (arrivals later s) ≡ current_epoch rid s
arrivals-dead rid epoch [] s h = (h, refl)
arrivals-dead rid epoch ((other, key_epoch, now) ∷ later) s h =
    let rest =
      arrivals-dead rid epoch later (on_data_event_epoch other key_epoch now s).1
        (data_event-dead rid other epoch key_epoch now s h) in
    (rest.0, rest.1 ∙ data_event-current rid other key_epoch now s)

dead-rejected :
    (rid : String) (epoch now : ℕ) (s : Keys)
    → is_dead rid epoch s ≡ true
    → is_rejected now (find (seen_of rid epoch) (seen_rows rid epoch now s)) ≡ true
unfolding is_dead
dead-rejected rid epoch now s h =
    let kept = seen_rows-dead rid rid epoch epoch now s h in
    elim (Option-cases (find (seen_of rid epoch) (seen_rows rid epoch now s))) [
      | inl e ↦ ground (arith, e, kept)
      | inr (f, e) ↦ ground (arith, e, kept)
    ]

record_unknown-buried :
    (rid : String) (epoch now : ℕ) (s : Keys)
    → is_rejected now (find (seen_of rid epoch) (seen_rows rid epoch now s)) ≡ true
    → is_dead rid epoch (record_unknown rid epoch now s).1 ≡ true
unfolding is_dead
record_unknown-buried rid epoch now s b =
    rw (record_unknown-seen rid epoch now s, b)
      (update-tombstone_self rid epoch now (seen_rows rid epoch now s) b)

arrivals-rejected :
    (rid : String) (epoch : ℕ) (s : Keys) (between : List (String × ℕ × ℕ)) (later : ℕ)
    → leb epoch (current_epoch rid s) ≡ false
    → is_dead rid epoch s ≡ true
    → (on_data_event_epoch rid epoch later (arrivals between s)).0
      ≡ raised (rotation_error future_epoch_rejected)
arrivals-rejected rid epoch s between later unknown dead =
    let after = arrivals-dead rid epoch between s dead in
    rw
      (
        on_data_event_epoch-unknown rid epoch later (arrivals between s) (rw after.1 unknown),
        dead-rejected rid epoch later (arrivals between s) after.0,
      )
      refl

-- Once a data event of an unknown future epoch has been rejected for good, every later one of that
-- epoch is, at any time and whatever data events of any epochs and relationships came in between:
-- the tombstone is never evicted, and no data event raises the current epoch.
pub on_data_event_epoch-rejected :
    (rid : String) (epoch now : ℕ) (s : Keys) (between : List (String × ℕ × ℕ)) (later : ℕ)
    → (on_data_event_epoch rid epoch now s).0 ≡ raised (rotation_error future_epoch_rejected)
    → (on_data_event_epoch rid epoch later
        (arrivals between (on_data_event_epoch rid epoch now s).1)).0
      ≡ raised (rotation_error future_epoch_rejected)
on_data_event_epoch-rejected rid epoch now s between later h =
    elim (Bool-cases (leb epoch (current_epoch rid s))) [
      | inl e ↦ ground (arith, rw (on_data_event_epoch-known rid epoch now s e) at h)
      | inr e ↦
          elim (Bool-cases
            (is_rejected now (find (seen_of rid epoch) (seen_rows rid epoch now s)))) [
              | inl b ↦ rw (on_data_event_epoch-unknown rid epoch now s e) (
                  arrivals-rejected rid epoch (record_unknown rid epoch now s).1 between later
                    (rw (record_unknown-current rid rid epoch now s) e)
                    (record_unknown-buried rid epoch now s b))
              | inr b ↦ ground (arith, rw (on_data_event_epoch-unknown rid epoch now s e, b) at h)
            ]
    ]
