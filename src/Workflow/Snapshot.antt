-- ===== src/Workflow/Snapshot.antt =====
-- workflow.py: `_validate_input_bindings`, `_validate_node`, `normalize_snapshot` and
-- `initial_status`. A value of the wrong JSON type, which the source rejects first, has no place in
-- the typed records, and fields that are only copied by `str(value)` are left out.
pub mod Acyclic
use agent_workflow.Base.{
  ℕ, zero, suc, String, Bool, true, false, not, ◌&&◌, ◌||◌, Option, none, some, List, [], ◌∷◌, map,
  Dict, lookup, insert, keys, length, leb, if◌then◌else◌, str_eq, elem, distinct, all, filter,
  Result, ok, err, ◌>>=◌, ◌>>◌, require, fold_result,
}
use agent_workflow.Base.Sort.{sorted, text_le}
use agent_workflow.Workflow.Ids.{validate_id}
use agent_workflow.Workflow.Graph
use agent_workflow.Workflow.Graph.{Search}
use agent_workflow.Workflow.Types.{
  Kind, task, approval, NodeState, blocked, eligible, InputBinding, Node, Snapshot, NodeStatus,
  WorkflowStatus, Externals, WorkflowError, aggregate_workflow_state, invalid_id,
  duplicate_dependency, prompt_required, empty_path, role_conflict, routing_too_large,
  too_many_bindings, bad_max_bytes, approval_not_dependency, pack_required, manifest_required,
  no_nodes, duplicate_node, duplicate_run, unknown_dependency, dependency_cycle, invalid_snapshot,
  out_of_fuel, invalid_status,
}

abbrev pub is_some {ℓ} : {A : Type ℓ} → Option A → Bool
is_some none = false
is_some (some _) = true

-- `str(node.get(name, ""))`
abbrev pub text_or_empty : Option String → String
text_or_empty none = ""
text_or_empty (some s) = s

abbrev pub is_empty : String → Bool
is_empty s = str_eq s ""

-- The loop of `_validate_input_bindings` over the declared bindings.
unfoldable pub check_bindings : Dict InputBinding → Result WorkflowError (Unit {0})
check_bindings [] = ok tt
check_bindings ((name, raw) ∷ rest) = do
  require (validate_id name) invalid_id
  require (validate_id raw.source_node_id) invalid_id
  require (leb 1 raw.max_bytes && leb raw.max_bytes 1048576) bad_max_bytes
  check_bindings rest

unfoldable pub validate_input_bindings : Dict InputBinding → Result WorkflowError (Unit {0})
unfolding check_bindings
validate_input_bindings bindings = do
  require (leb (length bindings) 64) too_many_bindings
  check_bindings bindings

unfoldable pub validate_task : Node → Result WorkflowError (Unit {0})
unfolding validate_input_bindings
validate_task node = do
  require (validate_id (text_or_empty node.agent_run_id)) invalid_id
  require (not (is_empty (text_or_empty node.prompt_path))) prompt_required
  require (elim node.evaluation_path [ none ↦ true | some path ↦ not (is_empty path) ]) empty_path
  require
      (not (
        is_some node.role
        && (is_some node.agent_class || is_some node.executor || is_some node.model)))
      role_conflict
  require (elim node.routing_bytes [ none ↦ true | some n ↦ leb n 16384 ]) routing_too_large
  validate_input_bindings node.input_bindings

unfoldable pub validate_approval : Node → Result WorkflowError (Unit {0})
validate_approval node = do
  require (validate_id (text_or_empty node.approval_for)) invalid_id
  require (elem (text_or_empty node.approval_for) node.dependencies) approval_not_dependency

unfoldable pub validate_kind : Kind → Node → Result WorkflowError (Unit {0})
unfolding validate_task validate_approval
validate_kind task node = validate_task node
validate_kind approval node = validate_approval node

unfoldable pub validate_node : Node → Result WorkflowError (Unit {0})
unfolding validate_kind
validate_node node = do
  require (validate_id node.node_id) invalid_id
  require (all validate_id node.dependencies) invalid_id
  require (distinct node.dependencies) duplicate_dependency
  validate_kind node.kind node

-- `seen` and `seen_agent_run_ids` of the loop over the nodes.
pub record Seen : Type 0 where
  pub nodes : List String
  pub runs : List String

abbrev pub see_run : Kind → String → Seen → Result WorkflowError Seen
see_run task run seen = do
  require (not (elem run seen.runs)) duplicate_run
  ok (record seen { runs = run ∷ seen.runs })
see_run approval run seen = ok seen

unfoldable pub see_node : Seen → Node → Result WorkflowError Seen
unfolding validate_node
see_node seen node = do
  validate_node node
  require (not (elem node.node_id seen.nodes)) duplicate_node
  see_run node.kind (text_or_empty node.agent_run_id)
      (record seen { nodes = node.node_id ∷ seen.nodes })

unfoldable pub graph_of : List Node → Dict (List String)
graph_of [] = []
graph_of (node ∷ nodes) = (node.node_id, node.dependencies) ∷ graph_of nodes

-- Whether every dependency is a node of the graph.
unfoldable pub known : List Node → List Node → Bool
known all_nodes [] = true
known all_nodes (node ∷ nodes) =
    all (λ d. elem d (map (λ n. n.node_id) all_nodes)) node.dependencies && known all_nodes nodes

-- The fuel is one more than the number of nodes: a stack holds no node twice.
unfoldable pub search_cycles : Dict (List String) → Search
search_cycles graph =
    Graph.visit_all (Graph.visit (suc (length graph)) graph []) [] (sorted (keys graph))

abbrev pub no_cycle : Search → Result WorkflowError (Unit {0})
no_cycle (Search.done visited) = ok tt
no_cycle (Search.cycle path) = err dependency_cycle
no_cycle Search.out_of_fuel = err out_of_fuel

abbrev pub insert_node : Node → List Node → List Node
insert_node n [] = n ∷ []
insert_node n (m ∷ ms) = if text_le n.node_id m.node_id then n ∷ m ∷ ms else m ∷ insert_node n ms

abbrev pub sort_nodes : List Node → List Node
sort_nodes [] = []
sort_nodes (n ∷ ns) =
    insert_node (record n { dependencies = sorted n.dependencies }) (sort_nodes ns)

unfoldable pub normalize_snapshot : Externals → Snapshot → Result WorkflowError Snapshot
unfolding see_node graph_of known search_cycles
normalize_snapshot ext snapshot = do
  require (validate_id snapshot.workflow_id) invalid_id
  require (not (is_empty snapshot.pack_id)) pack_required
  require (not (is_empty snapshot.pack_manifest_sha256)) manifest_required
  require (leb 1 (length snapshot.nodes)) no_nodes
  seen ← fold_result see_node (record { nodes = []; runs = [] }) snapshot.nodes
  require (known snapshot.nodes snapshot.nodes) unknown_dependency
  no_cycle (search_cycles (graph_of snapshot.nodes))
  let normalized = record snapshot { nodes = sort_nodes snapshot.nodes }
  require (ext.snapshot_valid normalized) invalid_snapshot
  ok normalized

-- `snapshot_sha256`
unfoldable pub snapshot_digest : Externals → Snapshot → Result WorkflowError String
snapshot_digest ext snapshot = do
  normalized ← normalize_snapshot ext snapshot
  ok (ext.canonical_sha256 normalized)

-- The state of a node before any event: the entry that `reconstruct_workflow_status` starts from.
unfoldable pub initial_node : Node → NodeStatus
initial_node node = record {
  node_id = node.node_id;
  kind = node.kind;
  state = elim node.dependencies [ [] ↦ eligible | _ ∷ _ ↦ blocked ];
  agent_run_id = none;
  attempt = none;
  retry_of_agent_run_id = none;
  bound_at = none;
  terminal_reason = none;
  approval_receipt_sha256 = none;
  input_binding_sha256 = none;
}

unfoldable pub initial_status : Externals → Snapshot → Result WorkflowError WorkflowStatus
unfolding initial_node
initial_status ext snapshot = do
  normalized ← normalize_snapshot ext snapshot
  digest ← snapshot_digest ext normalized
  let nodes = map initial_node normalized.nodes
  let status : WorkflowStatus = record {
    workflow_id = normalized.workflow_id;
    snapshot_sha256 = digest;
    event_count = 0;
    workflow_state = aggregate_workflow_state (map (λ n. n.state) nodes);
    nodes = nodes;
  }
  require (ext.status_valid status) invalid_status
  ok status
