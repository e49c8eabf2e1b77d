-- ===== src/Rotation/Guards.antt =====
-- What `on_prepare` and `begin_rotation` check before they change a table.
use muse_agent_social.Prelude.{
  ℕ, ◌+◌, ◌*◌, ◌<◌, ◌≤◌, String, true, false, ◌⊎◌, none, some, ◌≡◌, refl, arith, Bool-cases, inl,
  inr, Option-cases, leb, ltb, ◌==◌, nat_eq,
}
use muse_agent_social.Prelude.Action.{◌>>=◌, Result, done, raised, transaction, pure, continue}
use muse_agent_social.Prelude.Table.{find, exists}
use muse_agent_social.Rotation.Tables.{
  rotating, KeyRow, Relationship, unknown_relationship, Prepare, Ack, Keys, rotation_error,
  two_keys, RotationFault, micro, Act,
}
use muse_agent_social.Rotation.Inventory.{
  relationship_of, own_epochs, peer_key_epochs, max_epoch, current_epoch, rotation, in_flight,
  get_relationship,
}
use muse_agent_social.Rotation.Gate.{quarantine_in_txn}
use muse_agent_social.Rotation.Acking.{
  quarantine_prepare, redelivered_prepare, accept_prepare, fresh_prepare, prepare_from,
  prepare_after, on_prepare, ack_of, collides, prior_of, peer_key_of,
}

-- An action that then returns a fixed value returns that one or raises.
then-done :
    {A B : Type 0} (m : Act A) (b c : B) (s : Keys) → ((m >>= λ _. pure b) s).0 ≡ done c → c ≡ b
unfolding ◌>>=◌
then-done {A = A} m b c s h = by_result (m s).0 h
  where
    by_result : (r : Result RotationFault A) → (continue r (λ _. pure b) (m s).1).0 ≡ done c → c ≡ b
    by_result (done a) h = ground (arith, h)
    by_result (raised e) h = ground (arith, h)

quarantine_prepare-raises :
    (rid : String) (epoch : ℕ) (p : Prepare) (id : String) (now : ℕ) (s : Keys)
    → (quarantine_prepare rid epoch p id now s).0 ≡ raised (rotation_error two_keys)
unfolding quarantine_prepare ◌>>=◌ transaction quarantine_in_txn
quarantine_prepare-raises rid epoch p id now s = refl

accept_prepare-ack :
    (rid : String) (new_epoch prior_epoch : ℕ) (p : Prepare) (id : String) (now : ℕ) (s : Keys)
    (ack : Ack)
    → (accept_prepare rid new_epoch prior_epoch p id now s).0 ≡ done ack
    → ack ≡ ack_of new_epoch id
unfolding accept_prepare
accept_prepare-ack rid new_epoch prior_epoch p id now s ack h =
    then-done _ (ack_of new_epoch id) ack s h

-- A new prepare is accepted only in these circumstances.
abbrev pub IsTimely : String → ℕ → ℕ → Prepare → ℕ → Keys → Type 0
IsTimely rid new_epoch prior_epoch p now s =
    (prior_epoch ≡ max_epoch (peer_key_epochs rid s))
    × (current_epoch rid s < new_epoch)
    × (in_flight rid s ≡ false)
    × (now ≤ p.deadline * micro)

fresh_prepare-done :
    (rid : String) (new_epoch prior_epoch : ℕ) (p : Prepare) (id : String) (now : ℕ) (s : Keys)
    (ack : Ack)
    → (fresh_prepare rid new_epoch prior_epoch p id now s).0 ≡ done ack
    → (ack ≡ ack_of new_epoch id) × IsTimely rid new_epoch prior_epoch p now s
unfolding fresh_prepare ◌>>=◌
fresh_prepare-done rid new_epoch prior_epoch p id now s ack h =
    elim (Bool-cases (nat_eq prior_epoch (max_epoch (peer_key_epochs rid s)))) [
      | inr e1 ↦ ground (arith, rw e1 at h)
      | inl e1 ↦ elim (Bool-cases (exists (λ k. nat_eq k.epoch new_epoch) (own_epochs rid s))) [
        | inl e2 ↦ elim (Bool-cases (collides (rotation rid new_epoch rotating s))) [
          | inl e3 ↦
              ground
                (arith, rw (e1, e2, e3, quarantine_prepare-raises rid new_epoch p id now s) at h)
          | inr e3 ↦ ground (arith, rw (e1, e2, e3) at h)
        ]
        | inr e2 ↦ elim (Bool-cases (leb new_epoch (current_epoch rid s))) [
          | inl e3 ↦ ground (arith, rw (e1, e2, e3) at h)
          | inr e3 ↦ elim (Bool-cases (in_flight rid s)) [
            | inl e4 ↦ ground (arith, rw (e1, e2, e3, e4) at h)
            | inr e4 ↦ elim (Bool-cases (ltb (p.deadline * micro) now)) [
              | inl e5 ↦ ground (arith, rw (e1, e2, e3, e4, e5) at h)
              | inr e5 ↦ (
                accept_prepare-ack rid new_epoch prior_epoch p id now s ack
                    (rw (e1, e2, e3, e4, e5) at h),
                (ground (arith, e1), ground (arith, e3), e4, ground (arith, e5)),
              )
            ]
          ]
        ]
      ]
    ]

redelivered_prepare-done :
    (rid : String) (new_epoch prior_epoch : ℕ) (p : Prepare) (id : String) (now : ℕ) (key : KeyRow)
    (s : Keys) (ack : Ack)
    → (redelivered_prepare rid new_epoch prior_epoch p id now key s).0 ≡ done ack
    → (ack ≡ ack_of new_epoch id) × (key.public_key == p.new_agreement_key ≡ true)
unfolding redelivered_prepare
redelivered_prepare-done rid new_epoch prior_epoch p id now key s ack h =
    elim (Bool-cases (key.public_key == p.new_agreement_key)) [
      | inl e ↦ (then-done _ (ack_of new_epoch id) ack s (rw e at h), e)
      | inr e ↦ ground (arith, rw (e, quarantine_prepare-raises rid new_epoch p id now s) at h)
    ]

-- The peer's key of the epoch is stored already, and is the one of the prepare.
abbrev pub IsStored : String → ℕ → Prepare → Keys → Type 0
IsStored rid epoch p s =
    (key : KeyRow) × (find (peer_key_of rid epoch) s.key_epochs ≡ some key)
    × (key.public_key == p.new_agreement_key ≡ true)

prepare_from-done :
    (rid : String) (p : Prepare) (id : String) (now prior : ℕ) (s : Keys) (ack : Ack)
    → (prepare_from rid p id now prior (find (peer_key_of rid (prior + 1)) s.key_epochs) s).0
      ≡ done ack
    → (ack ≡ ack_of (prior + 1) id)
      × (IsStored rid (prior + 1) p s ⊎ IsTimely rid (prior + 1) prior p now s)
unfolding prepare_from
prepare_from-done rid p id now prior s ack h =
    elim (Option-cases (find (peer_key_of rid (prior + 1)) s.key_epochs)) [
      | inl e ↦
          let new = fresh_prepare-done rid (prior + 1) prior p id now s ack (rw e at h) in
          (new.0, inr new.1)
      | inr (key, e) ↦
          let old = redelivered_prepare-done rid (prior + 1) prior p id now key s ack (rw e at h) in
          (old.0, inl (key, e, old.1))
    ]

pub get_relationship-unknown :
    (rid : String) (s : Keys)
    → relationship_of rid s ≡ none
    → get_relationship rid s ≡ (raised (rotation_error unknown_relationship), s)
unfolding get_relationship relationship_of
get_relationship-unknown rid s h = rw (get_relationship, h) refl

pub get_relationship-known :
    (rid : String) (s : Keys) (rel : Relationship)
    → relationship_of rid s ≡ some rel
    → get_relationship rid s ≡ (done rel, s)
unfolding get_relationship relationship_of
get_relationship-known rid s rel h = rw (get_relationship, h) refl

-- `on_prepare` acknowledges a prepare only where the prepare names the fingerprint of a peer key
-- that is held, and the ack then names the epoch after that key's and the prepare event. Either that
-- epoch's peer key is stored already and is the proposed one, or the named key is the newest of the
-- peer, the new epoch is later than every epoch in use, no rotation of either side is in flight,
-- and the prepare's deadline has not passed.
pub on_prepare-done :
    (fingerprint : String → String) (rid : String) (p : Prepare) (id : String) (now : ℕ) (s : Keys)
    (ack : Ack)
    → (on_prepare fingerprint rid p id now s).0 ≡ done ack
    → (prior : ℕ) × (prior_of fingerprint p.prior_fingerprint (peer_key_epochs rid s) ≡ some prior)
      × (ack ≡ ack_of (prior + 1) id)
      × (IsStored rid (prior + 1) p s ⊎ IsTimely rid (prior + 1) prior p now s)
unfolding on_prepare prepare_after ◌>>=◌
on_prepare-done fingerprint rid p id now s ack h = elim (Option-cases (relationship_of rid s)) [
  | inl e ↦ ground (arith, rw (get_relationship-unknown rid s e) at h)
  | inr (rel, e) ↦
      elim (Option-cases (prior_of fingerprint p.prior_fingerprint (peer_key_epochs rid s))) [
        | inl f ↦ ground (arith, rw (get_relationship-known rid s rel e, f) at h)
        | inr (prior, f) ↦
            let new =
              prepare_from-done rid p id now prior s ack
                (rw (get_relationship-known rid s rel e, f) at h) in
            (prior, f, new.0, new.1)
      ]
]
