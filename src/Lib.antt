-- ===== src/Lib.antt =====
-- Verification of agent-workflow, a tool that runs coding agents and keeps the evidence of what they
-- did. The files model the core that decides what may run and what counts as accepted: the strict
-- JSONL journals, the workflow graph and the replay of its journal, the scheduler that works on that
-- journal, the execution state of a run, the review of a sealed run, the message log of a run with
-- the cursors of its consumers, and chains of dependent tasks.
--
-- How the parts interact. A workflow is an immutable snapshot (a graph of task and approval nodes)
-- and a journal of events. The status of a workflow is never stored: it is the fold of the journal.
-- The scheduler reads a status, appends events through the journal, and reads a status again. A
-- finished run is sealed; reviews of it are a chain of receipt files, which approval nodes read. The
-- execution state of a run is the fold of its own journal until the run is sealed, and status.json is
-- a projection of it. Messages to and from a run stand in a third journal; each consumer keeps a
-- cursor into it, which moves behind the effects that it commits. A task chain reserves one task of a
-- plan at a time, on the revision that the integrations before it have reached.
--
-- Files, and the code that they model (paths from the repository's root):
--   Base: results for raised errors, lists, dictionaries in the order of insertion, sorted texts.
--   Journal: src/agent_workflow/journal.py. A file is the list of its records. A transaction
--     (`transact_jsonl`) is one step, since the source holds a lock from its read to its append.
--     The limits on bytes and records are those of the source; lengths are unbounded numbers, as
--     Python's are. `Journal/Append`: proofs.
--   Workflow/Ids: src/agent_workflow/util.py, `validate_id`.
--   Workflow/Types, Workflow/Graph, Workflow/Snapshot: src/agent_workflow/workflow.py,
--     `normalize_snapshot` with `_validate_node` and its cycle search. `Workflow/Graph/...` and
--     `Workflow/Snapshot/Acyclic`: proofs.
--   Workflow/Events: the writers `append_workflow_event`, `record_workflow_binding` and
--     `record_workflow_transition`. `Workflow/Events/Append`: proofs.
--   Workflow/Replay: `reconstruct_workflow_status`. A `Replay` is the variables of its loop,
--     `bind_node` and `move_node` are its two branches. `Workflow/Replay/...`: proofs.
--   Scheduler/Plan, Children, Reconcile, Launch: src/agent_workflow/scheduler.py. An action of the
--     scheduler is its result beside the journal with what was written before an error; so are the
--     passes of reconciliation, loops that write at each turn (`pass` of Base/Results). The child
--     modules of these are proofs.
--   Lifecycle/Receipts, Lifecycle/Operations: src/agent_workflow/lifecycle.py (`record`). The numbers of
--     receipts are unbounded, and a name takes six digits (`max_sequence`).
--   Lifecycle/Approval: src/agent_workflow/approval.py (`force_accept`, `lifecycle_disposition`,
--     `is_approved`). `Lifecycle/Operations/...` and `Lifecycle/Approval/...`: proofs.
--   Chains, Chains/Plans, Chains/State, Chains/Create, Chains/Operate, Chains/Launch:
--     src/agent_workflow/task_chains.py (`order_tasks`, `validate_plan`, `validate_execution_binding`,
--     `validate_prefix`, `_state`, `create`, `operate`, `validate_launch`). The storage of a chain is the
--     record `Storage`, one slot for each task. The child modules `Chains/Order`, `Chains/Plans/...`,
--     `Chains/State/Reaches`, `Chains/Create/Created`, `Chains/Operate/...` and `Chains/Launch/Accepted`:
--     proofs, with the states of a chain as the relation `Reaches`.
--   Messages: src/agent_workflow/messages.py. `Messages/Log` and `Messages/Replayed`: proofs.
--   Cursors, Cursors/Store: src/agent_workflow/consumer_cursors.py. An operation works on the cursor's
--     file and on a target of any type; `locked` turns errors into one, as the source does.
--     `Cursors/Store/...`: proofs.
--   Runs: src/agent_workflow/events.py, run_lifecycle.py and the projection of state.py.
--     `Runs/History`, `Runs/Projection`, `Runs/Guard` and `Runs/Authority`: proofs. `Runs/Reached`: the
--     runs that the operations make, one at a time, as the relation `Reached`, and a proof.
--   Examples: concrete workflows, journals and runs.
--
-- Fuel. The recursive cycle search has one unit more than there are nodes; a stack holds no node
-- twice, so it is never used up where the dependencies are known. The digits of a retry's number
-- have one unit more than the number. The loop of `order_tasks` has one unit for each task; each
-- turn takes one task out, so it is enough.
--
-- Parameters. The canonical digest, the JSON Schema validator and the length of an encoded event
-- are the record `Externals`; the directory of a child run is `Child`, and what else a launch meets
-- is `World`; the sealed evidence of a run is `Sealed`. The schemas, the digest and the receipt
-- hashes of a chain are `Checks`; its runs, worktrees, jobs, launches and integrations are `Host`;
-- the place, the repository and the pack of a new chain are `Site`, and what a launch reads again is
-- `LaunchSite`.
-- The target's effect and the hook of `process` are arguments.
--
-- Not modelled: file descriptors, locks, JSON and its schemas, hashing, the start of processes,
-- clocks, the thread pool of `launch_eligible` (its plans run in their order), the store of
-- comparative outcomes, the interleaving of two processes between a run's read of its state and its
-- append, and every part of the program that is not named above.
mod Base
pub mod Journal
pub mod Workflow
pub mod Scheduler
pub mod Lifecycle
pub mod Chains
pub mod Messages
pub mod Cursors
pub mod Runs
mod Examples
