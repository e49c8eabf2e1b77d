-- ===== src/Projections.antt =====
-- store/projections.py: the conversation views, projected from the event log.
pub mod Mutations
pub mod Targets
pub mod Threads
pub mod Sequence
pub mod Quarantine
pub mod Messages
pub mod Reactions
pub mod Polls
pub mod Tasks
pub mod Requests
pub mod Deliveries
pub mod Apply
pub mod Rebuild
pub mod Footprints
pub mod Log
