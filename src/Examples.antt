-- ===== src/Examples.antt =====
-- A workflow of two tasks, its journals and statuses.
pub mod Chains
pub mod Launches
pub mod Messages
pub mod Cursors
pub mod Runs
pub mod Replays
pub mod Graphs
pub mod Journals
pub mod Scheduling
pub mod Running
pub mod Approvals
pub mod Retries
pub mod Receipts
use agent_workflow.Base.{ℕ, String, Bool, true, Option, none, some, List, [], ◌∷◌}
use agent_workflow.Workflow.Types.{
  NodeState, blocked, eligible, running, completed, task, Node, Snapshot, node_bound,
  node_transition, EventBody, Event, NodeStatus, Externals,
}
use agent_workflow.Workflow.Replay.{Replay}

abbrev pub bytes_of : Event → ℕ
bytes_of event = 300

abbrev pub externals : Externals
externals = record {
  canonical_sha256 = λ snapshot. "digest";
  snapshot_valid = λ snapshot. true;
  status_valid = λ status. true;
  event_valid = λ event. true;
  event_bytes = bytes_of;
}

abbrev pub task_node : (id run : String) → List String → Node
task_node id run dependencies = record {
  node_id = id;
  kind = task;
  dependencies = dependencies;
  agent_run_id = some run;
  prompt_path = some "prompt.md";
  evaluation_path = none;
  role = none;
  agent_class = none;
  executor = none;
  model = none;
  routing_bytes = none;
  input_bindings = [];
  approval_for = none;
}

abbrev pub two_tasks : List Node
two_tasks = task_node "build" "run-build" [] ∷ task_node "test" "run-test" ("build" ∷ []) ∷ []

abbrev pub snapshot : Snapshot
snapshot = record {
  workflow_id = "flow";
  pack_id = "pack";
  pack_manifest_sha256 = "manifest";
  nodes = two_tasks;
}

abbrev pub event : ℕ → String → EventBody → Event
event sequence node_id body = record {
  sequence = sequence;
  workflow_id = "flow";
  snapshot_sha256 = "digest";
  node_id = node_id;
  actor = "scheduler";
  reason = "recorded";
  body = body;
}

abbrev pub first_run : String → EventBody
first_run run = node_bound (record {
  agent_run_id = run;
  attempt = 1;
  retry_of_agent_run_id = none;
  bound_at = "2024-01-01T00:00:00Z";
  current = true;
})

abbrev pub build_done : List Event
build_done =
    event 1 "build" (first_run "run-build")
    ∷ event 2 "build" (node_transition eligible running none)
    ∷ event 3 "build" (node_transition running completed none)
    ∷ []

abbrev pub test_running : List Event
test_running =
    event 4 "test" (node_transition blocked eligible none)
    ∷ event 5 "test" (first_run "run-test")
    ∷ event 6 "test" (node_transition eligible running none)
    ∷ []

abbrev pub status_of :
    String → NodeState → Option String → Option ℕ → Option String → Option String → NodeStatus
status_of id state run attempt bound_at reason = record {
  node_id = id;
  kind = task;
  state = state;
  agent_run_id = run;
  attempt = attempt;
  retry_of_agent_run_id = none;
  bound_at = bound_at;
  terminal_reason = reason;
  approval_receipt_sha256 = none;
  input_binding_sha256 = none;
}

abbrev pub build_completed : NodeStatus
build_completed =
    status_of "build" completed (some "run-build") (some 1) (some "2024-01-01T00:00:00Z")
      (some "recorded")

abbrev pub test_status : NodeStatus
test_status = status_of "test" running (some "run-test") (some 1) (some "2024-01-01T00:00:00Z") none

abbrev pub half_way : Replay
half_way = record {
  nodes = ("build", build_completed) ∷ ("test", status_of "test" blocked none none none none) ∷ [];
  event_count = 3;
  seen_run_ids = "run-build" ∷ [];
}

abbrev pub at_work : Replay
at_work = record {
  nodes = ("build", build_completed) ∷ ("test", test_status) ∷ [];
  event_count = 6;
  seen_run_ids = "run-test" ∷ "run-build" ∷ [];
}
