-- ===== src/Scheduler.antt =====
-- scheduler.py: the restart-safe scheduler over the workflow journal.
pub mod Plan
pub mod Children
pub mod Reconcile
pub mod Launch
