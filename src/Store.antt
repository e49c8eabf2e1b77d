-- ===== src/Store.antt =====
-- The SQLite store behind the projections: the typed events, the tables, and the connection as a
-- state that a statement changes (store/projections.py, store/migrations.py, store/db.py).
pub mod Events
pub mod Tables
pub mod Txn
pub mod Keeps
