-- ===== src/Rotation.antt =====
-- Relationship key rotation: `RotationManager` of crypto/rotation.py.
pub mod Tables
pub mod Inventory
pub mod Rotating
pub mod Gate
pub mod Acking
pub mod Conflicts
pub mod Sweep
pub mod Operations
pub mod Lift
pub mod Retired
pub mod Standing
pub mod Begun
pub mod Guards
pub mod Ceremony
pub mod Stages
pub mod Found
pub mod Tombstones
pub mod WellFormed
pub mod Queued
pub mod Protocol
