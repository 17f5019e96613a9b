-- ===== src/Workflow/Replay.antt =====
-- workflow.py: `_binding_record`, `_transition_record`, `_transition_summary` and
-- `reconstruct_workflow_status`, the fold of the journal into the status of each node.
pub mod Changes
pub mod Steps
pub mod Dependencies
pub mod Runs
pub mod Final
pub mod Accept
pub mod Names
pub mod Kinds
use agent_workflow.Base.{
  ℕ, suc, ◌+◌, String, Bool, true, false, not, ◌&&◌, ◌||◌, Option, none, some, List, [], ◌∷◌, map,
  Dict, lookup, insert, keys, values, leb, ◌==◌, if◌then◌else◌, str_eq, opt_eq, elem, filter,
  Result, ok, err, ◌>>=◌, ◌>>◌, require, fold_result,
}
use agent_workflow.Workflow.Ids.{validate_id}
use agent_workflow.Workflow.Events.{read_workflow_events}
use agent_workflow.Workflow.Snapshot.{normalize_snapshot, snapshot_digest, initial_node}
use agent_workflow.Workflow.Types.{
  NodeState, blocked, eligible, running, completed, failed, recoverable, state_eq, allowed,
  is_terminal, Kind, task, approval, Node, Snapshot, Binding, Details, EventBody, node_bound,
  node_transition, Event, NodeStatus, WorkflowStatus, aggregate_workflow_state, Externals,
  WorkflowError, invalid_id, different_workflow, digest_mismatch, unknown_node, missing_key,
  bad_attempt, bound_at_required, reason_required, invalid_transition, binding_mismatch,
  not_current, cannot_bind, not_eligible, first_attempt, first_lineage, retry_state, retry_attempt,
  retry_lineage, run_reused, transition_mismatch, no_binding, unresolved_dependencies,
  no_newer_binding, invalid_status,
}

-- `d[key]` on a dictionary.
unfoldable pub get {ℓ} : {V : Type ℓ} → Dict V → String → WorkflowError → Result WorkflowError V
get m key e = elim (lookup key m) [ none ↦ err e | some v ↦ ok v ]

abbrev pub valid_option : Option String → Bool
valid_option none = true
valid_option (some s) = validate_id s

-- The fields are there and have their types by the event's schema. The result is the binding.
unfoldable pub binding_record : String → Binding → Result WorkflowError (Unit {0})
binding_record node_id b = do
  require (validate_id node_id) invalid_id
  require (validate_id b.agent_run_id) invalid_id
  require (valid_option b.retry_of_agent_run_id) invalid_id
  require (leb 1 b.attempt) bad_attempt
  require (not (str_eq b.bound_at "")) bound_at_required

unfoldable pub transition_record : NodeState → NodeState → String → Result WorkflowError (Unit {0})
transition_record previous_state next_state reason = do
  require (not (str_eq reason "")) reason_required
  require (allowed previous_state next_state) invalid_transition

-- `[dep for dep in dependencies if nodes[dep]["state"] != "completed"]`
unfoldable pub unresolved : Dict NodeStatus → List String → Result WorkflowError (List String)
unfolding get
unresolved nodes [] = ok []
unresolved nodes (dep ∷ deps) = do
  s ← get nodes dep missing_key
  rest ← unresolved nodes deps
  ok (if state_eq s.state completed then rest else dep ∷ rest)

abbrev pub is_none {ℓ} : {A : Type ℓ} → Option A → Bool
is_none none = true
is_none (some _) = false

abbrev pub is_task : Kind → Bool
is_task task = true
is_task approval = false

-- Whether the transition of a task wants a current binding.
unfoldable pub needs_binding : NodeState → NodeState → Bool
needs_binding previous_state next_state =
    state_eq next_state running
    || state_eq next_state completed
    || (state_eq next_state failed && not (state_eq previous_state blocked))

-- `isinstance(attempt, int) and attempt >= 2`
unfoldable pub retried : Option ℕ → Bool
retried none = false
retried (some attempt) = leb 2 attempt

abbrev pub is_nil {ℓ} : {A : Type ℓ} → List A → Bool
is_nil [] = true
is_nil (_ ∷ _) = false

-- The check of the dependencies, made only on the way from blocked to eligible.
unfoldable pub check_dependencies :
    Bool → Dict NodeStatus → List String → Result WorkflowError (Unit {0})
unfolding unresolved
check_dependencies false nodes dependencies = ok tt
check_dependencies true nodes dependencies = do
  open_dependencies ← unresolved nodes dependencies
  require (is_nil open_dependencies) unresolved_dependencies

abbrev pub terminal_reason_of : NodeState → String → Option String
terminal_reason_of next_state reason = if is_terminal next_state then some reason else none

unfoldable pub transition_summary :
    Dict NodeStatus
    → Dict (List String)
    → String
    → (previous_state next_state : NodeState) → (reason : String)
    → Result WorkflowError (Dict NodeStatus)
unfolding get needs_binding retried check_dependencies
transition_summary nodes dependencies node_id previous_state next_state reason = do
  current ← get nodes node_id unknown_node
  require (state_eq current.state previous_state) transition_mismatch
  require (allowed previous_state next_state) invalid_transition
  require
      (not (
        is_task current.kind
        && needs_binding previous_state next_state
        && is_none current.agent_run_id))
      no_binding
  deps ← get dependencies node_id missing_key
  check_dependencies (state_eq previous_state blocked && state_eq next_state eligible) nodes deps
  require
      (not (
        (state_eq previous_state failed || state_eq previous_state recoverable)
        && state_eq next_state eligible
        && not (retried current.attempt)))
      no_newer_binding
  ok (
      insert node_id
        (record current {
          state = next_state;
          terminal_reason = terminal_reason_of next_state reason;
        })
        nodes)

-- The digests of a transition's details, kept where they are texts.
abbrev pub or_old : Option String → Option String → Option String
or_old none old = old
or_old (some new) old = some new

unfoldable pub note_details : Option Details → NodeStatus → NodeStatus
note_details none s = s
note_details (some d) s = record s {
  approval_receipt_sha256 = or_old d.approval_receipt_sha256 s.approval_receipt_sha256;
  input_binding_sha256 = or_old d.input_binding_sha256 s.input_binding_sha256;
}

-- The rules for a first binding, and for a retry of the run `prior`.
unfoldable pub check_binding :
    NodeStatus → Option String → Binding → Result WorkflowError (Unit {0})
check_binding s none b = do
  require (state_eq s.state eligible) not_eligible
  require (b.attempt == 1) first_attempt
  require (is_none b.retry_of_agent_run_id) first_lineage
check_binding s (some prior) b = do
  require (state_eq s.state failed || state_eq s.state recoverable) retry_state
  require (elim s.attempt [ none ↦ false | some n ↦ b.attempt == n + 1 ]) retry_attempt
  require (opt_eq b.retry_of_agent_run_id (some prior)) retry_lineage

-- The variables of the loop.
pub record Replay : Type 0 where
  pub nodes : Dict NodeStatus
  pub event_count : ℕ
  pub seen_run_ids : List String

unfoldable pub bind_node : Replay → String → Binding → Result WorkflowError Replay
unfolding get binding_record check_binding
bind_node r node_id b = do
  s ← get r.nodes node_id unknown_node
  binding_record node_id b
  require b.current not_current
  require (not (state_eq s.state blocked || state_eq s.state running || state_eq s.state completed))
      cannot_bind
  check_binding s s.agent_run_id b
  require (not (elem b.agent_run_id r.seen_run_ids)) run_reused
  let bound : NodeStatus = record s {
    agent_run_id = some b.agent_run_id;
    attempt = some b.attempt;
    retry_of_agent_run_id = b.retry_of_agent_run_id;
    bound_at = some b.bound_at;
  }
  ok (record r {
    nodes = insert node_id bound r.nodes;
    seen_run_ids = b.agent_run_id ∷ r.seen_run_ids;
  })

unfoldable pub move_node :
    Dict (List String)
    → Replay
    → String
    → (previous_state next_state : NodeState) → (reason : String) → Option Details
    → Result WorkflowError Replay
unfolding transition_record transition_summary note_details
move_node dependencies r node_id previous_state next_state reason details = do
  transition_record previous_state next_state reason
  nodes ← transition_summary r.nodes dependencies node_id previous_state next_state reason
  s ← get nodes node_id unknown_node
  ok (record r { nodes = insert node_id (note_details details s) nodes })

unfoldable pub apply_body :
    Dict (List String) → Replay → Event → EventBody → Result WorkflowError Replay
unfolding bind_node move_node
apply_body dependencies r event (node_bound b) = bind_node r event.node_id b
apply_body dependencies r event (node_transition previous_state next_state details) =
    move_node dependencies r event.node_id previous_state next_state event.reason details

-- The body of the loop over the events.
unfoldable pub apply_event :
    (workflow_id digest : String)
    → Dict (List String)
    → Replay
    → Event
    → Result WorkflowError Replay
unfolding apply_body
apply_event workflow_id digest dependencies r event = do
  require (str_eq event.workflow_id workflow_id) different_workflow
  require (str_eq event.snapshot_sha256 digest) digest_mismatch
  apply_body dependencies (record r { event_count = r.event_count + 1 }) event event.body

unfoldable pub dependencies_of : List Node → Dict (List String)
dependencies_of nodes = map (λ n. (n.node_id, n.dependencies)) nodes

unfoldable pub start : List Node → Replay
unfolding initial_node
start nodes = record {
  nodes = map (λ n. (n.node_id, initial_node n)) nodes;
  event_count = 0;
  seen_run_ids = [];
}

unfoldable pub replay :
    (workflow_id digest : String) → List Node → List Event → Result WorkflowError Replay
unfolding start apply_event dependencies_of
replay workflow_id digest nodes events =
    fold_result (apply_event workflow_id digest (dependencies_of nodes)) (start nodes) events

-- The normalised nodes are sorted by identifier, and replay keeps their order, so the values of the
-- dictionary are `[nodes[node_id] for node_id in sorted(nodes)]`.
unfoldable pub reconstruct_workflow_status :
    Externals → Snapshot → List Event → Result WorkflowError WorkflowStatus
unfolding replay values read_workflow_events snapshot_digest
reconstruct_workflow_status ext snapshot file = do
  normalized ← normalize_snapshot ext snapshot
  digest ← snapshot_digest ext normalized
  events ← read_workflow_events ext file
  r ← replay normalized.workflow_id digest normalized.nodes events
  let status : WorkflowStatus = record {
    workflow_id = normalized.workflow_id;
    snapshot_sha256 = digest;
    event_count = r.event_count;
    workflow_state = aggregate_workflow_state (map (λ s. s.state) (values r.nodes));
    nodes = values r.nodes;
  }
  require (ext.status_valid status) invalid_status
  ok status
