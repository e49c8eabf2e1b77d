-- ===== src/Lib.antt =====
-- Muse Agent Social: two agents exchange signed events over a relay, and each keeps a state
-- database of what it accepted. This library models the part that turns the log of accepted
-- events into the tables that the agent reads, with the approval records, the clock helpers, the
-- expiry decision and the rotation of agreement keys beside it.
--
-- Parts. The receive path validates an envelope and commits it to the log; then
-- src/muse_agent_social/store/projections.py applies it. One event goes through the fork check,
-- its handler, the references that waited for it, and the sequence bookkeeping of its sender; a
-- rebuild wipes the tables of a relationship and runs the same on its log. Approvals are written
-- by the human-facing command and read by the handler of human.responded. The delivery policy
-- decides later what is shown.
--
-- Files. Prelude: shared names, tests on numbers and texts, SQL tables as lists with the laws of
-- their statements. Time: the canonical times of src/muse_agent_social/policy/limits.py.
-- Store.Events and Store.Tables: the rows of the log, the payloads, and the tables of one
-- database. Store.Txn: statements that return or raise, `except ProjectionError` and
-- `transaction` of src/muse_agent_social/store/db.py. Store.Keeps: invariants of such statements.
-- Projections: store/projections.py, one file for each group of handlers (Threads, Messages,
-- Reactions, Polls, Tasks, Requests, Deliveries), with Mutations (`_mutation`), Targets
-- (`_target_event`, `_add_pending`), Quarantine (`quarantine_event`, `_check_fork`), Sequence
-- (`_update_seq_state`), Apply (`_dispatch`, `_resolve_pending`, `_apply_inner`, `apply_event`)
-- and Rebuild (`rebuild_projections`, `expire_pending_refs`). Footprints and Apply.Lift carry an
-- invariant of the handlers to `apply_event`, Rebuild.Lift to a rebuild. Approvals:
-- src/muse_agent_social/model/approvals.py. Scheduler: `cancel`, `_release_one_row` and `run_due`
-- of src/muse_agent_social/scheduler.py, with `release_fn` as a parameter that writes the
-- outgoing queue, of a type of the caller's; the clock skew is in whole seconds. Rotation:
-- `RotationManager` of src/muse_agent_social/crypto/rotation.py, over Prelude.Action: Tables (its
-- tables and the key files), Inventory (the queries), Rotating (`begin_rotation` to `on_commit`),
-- Acking (`on_prepare` to `mark_committed`), Gate (`on_data_event_epoch` and the quarantine),
-- Conflicts (`resolve_quarantine`), Sweep (`sweep`), Operations (all of them as one type, and
-- runs); Protocol is the state machine of one row, Stages and Ceremony the steps of the rotating
-- side in order, Lift carries an invariant of the statements to every operation. Words:
-- `verification_phrase` of src/muse_agent_social/crypto/words.py, with the parsing of an identity
-- and SHA-256 as parameters. Policy: `within_accept_window` and `apply_expiry` of
-- src/muse_agent_social/policy. Tests: examples, one for each result.
--
-- Choices. A table is the list of its rows in the order of insertion, and a query without an
-- order reads it so. An UPDATE by a primary key or a unique index changes the first row that it
-- finds. `clock` is what utcnow() returns during one operation. A payload has passed its schema,
-- so it is one constructor for each schema, and a handler that meets another shape raises
-- KeyError. JSON columns hold the list that their text encodes; the parts of a mutation's key are
-- a list. Moments are natural numbers of seconds from year 1, in the range of Python's datetime;
-- digits are ASCII and a year is written with four. In Rotation a stored time is a number of
-- seconds and a time of the clock a number of microseconds; the fingerprint of a key is a
-- parameter, the public half of a drawn key pair an argument, a payload has passed its schema,
-- deleting a key file succeeds, and the foreign key of events on key_epochs is modelled. Other
-- foreign keys, and the IntegrityErrors that a check before the insert excludes, are not
-- modelled: so a restored approval gets its row of surface_queue whatever the scheduled id is.
-- `dispatch` refuses every event type without a handler with one code, unknown_event_type. Every
-- loop runs over a list or a number that is known when it starts, so no fuel is used.
--
-- Not modelled: the encodings, the cryptography, the relay, the command line, `schedule` of the
-- scheduler, invites, the rotation of identity keys, retention, teardown and migration; the
-- schema scripts and the read-only views of the projections.
pub mod Prelude
pub mod Time
pub mod Store
pub mod Projections
pub mod Tests
pub mod Approvals
pub mod Policy
pub mod Scheduler
pub mod Rotation
pub mod Words
