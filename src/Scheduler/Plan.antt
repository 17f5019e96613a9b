-- ===== src/Scheduler/Plan.antt =====
-- scheduler.py: `calculate_eligibility` and `plan_launches`.
pub mod Capacity
use agent_workflow.Base.{
  ℕ, ◌-◌, String, Bool, true, false, ◌&&◌, Option, none, some, List, [], ◌∷◌, map, Dict, lookup,
  insert, length, filter, all, take, leb, ◌==◌, if◌then◌else◌, str_eq, Result, ok, err, ◌>>◌,
  require,
}
use agent_workflow.Base.Sort.{sorted}
use agent_workflow.Workflow.Types.{
  NodeState, eligible, running, completed, state_eq, Kind, task, approval, Node, Snapshot,
  NodeStatus, WorkflowStatus,
}

pub data PlanError : Type 0 where
  bad_parallelism : PlanError

-- `{node["node_id"]: node["state"] for node in status["nodes"]}`
unfoldable pub states_of : List NodeStatus → Dict NodeState
states_of nodes = map (λ s. (s.node_id, s.state)) nodes

-- `states.get(node_id) == state`
abbrev pub has_state : Option NodeState → NodeState → Bool
has_state none wanted = false
has_state (some s) wanted = state_eq s wanted

abbrev pub state_is : Dict NodeState → NodeState → String → Bool
state_is states wanted id = has_state (lookup id states) wanted

-- The node is eligible and all of its dependencies are completed.
unfoldable pub may_launch : Dict NodeState → Node → Bool
unfolding lookup
may_launch states node =
    state_is states eligible node.node_id && all (state_is states completed) node.dependencies

unfoldable pub calculate_eligibility : Snapshot → List NodeStatus → List String
unfolding may_launch states_of sorted
calculate_eligibility snapshot nodes =
    sorted (map (λ n. n.node_id) (filter (may_launch (states_of nodes)) snapshot.nodes))

unfoldable pub count_running : List NodeStatus → ℕ
count_running nodes = length (filter (λ s. state_eq s.state running) nodes)

abbrev pub is_task : Kind → Bool
is_task task = true
is_task approval = false

-- `node_map[node_id].get("kind", "task") == "task"`. The names of a snapshot's nodes are distinct.
unfoldable pub task_named : List Node → String → Bool
task_named [] id = false
task_named (n ∷ nodes) id =
    let later = task_named nodes id in if str_eq n.node_id id then is_task n.kind else later

unfoldable pub plan_launches : Snapshot → List NodeStatus → ℕ → Result PlanError (List String)
unfolding calculate_eligibility count_running task_named
plan_launches snapshot nodes max_parallelism = do
  require (leb 1 max_parallelism) bad_parallelism
  let capacity = max_parallelism - count_running nodes
  ok (
      if capacity == 0
      then []
      else take capacity
          (filter (task_named snapshot.nodes) (calculate_eligibility snapshot nodes)))
