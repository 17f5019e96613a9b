-- ===== src/Workflow.antt =====
-- workflow.py: snapshots, the event journal and its replay.
pub mod Ids
pub mod Types
pub mod Graph
pub mod Snapshot
pub mod Events
pub mod Replay
