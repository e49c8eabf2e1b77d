-- ===== src/Projections/Rebuild/Failures.antt =====
-- The refusal of `rebuild_projections`.
use muse_agent_social.Prelude.{String, List, [], ◌∷◌, ◌≡◌, ◌⊎◌}
use muse_agent_social.Store.Events.{EventRow, PayloadRow}
use muse_agent_social.Store.Txn.{Txn, Outcome, done, raised, rejected}

-- No payload row carries the id.
abbrev pub IsUnknown : String → List PayloadRow → Type 0
IsUnknown id [] = Unit
IsUnknown id (p ∷ ps) = ¬ (p.event_id ≡ id) × IsUnknown id ps

-- An event of the relationship's log has no staged payload.
abbrev pub HasUnstaged : String → List PayloadRow → List EventRow → Type 0
HasUnstaged rel payloads [] = ⊥
HasUnstaged rel payloads (e ∷ es) =
    ((e.relationship_id ≡ rel) × IsUnknown e.event_id payloads) ⊎ HasUnstaged rel payloads es

-- An exception that `except ProjectionError` does not catch.
abbrev IsUncaught : {A : Type 0} → Outcome A → Type 0
IsUncaught (done a) = Unit
IsUncaught (raised (rejected c)) = ⊥
IsUncaught (raised e) = Unit
