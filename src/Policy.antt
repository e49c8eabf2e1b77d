-- ===== src/Policy.antt =====
-- The receiver's delivery policy, policy/delivery.py, and the clock contract of policy/limits.py.
pub mod Expiry
pub mod Window
