-- ===== src/Workflow/Types.antt =====
-- workflow.py: the values of the module. A snapshot is the immutable graph of a workflow, an event
-- is a line of its journal, and a status is what the journal says of each node.
use agent_workflow.Base.{ℕ, String, Bool, true, false, Option, List, Dict, any, all, if◌then◌else◌}
use agent_workflow.Journal.{JournalError}

-- NODE_STATES
pub data NodeState : Type 0 where
  blocked eligible running completed failed recoverable : NodeState

-- `a == b` on states, which the source keeps as texts.
abbrev pub state_eq : NodeState → NodeState → Bool
state_eq blocked blocked = true
state_eq eligible eligible = true
state_eq running running = true
state_eq completed completed = true
state_eq failed failed = true
state_eq recoverable recoverable = true
state_eq _ _ = false

-- ALLOWED_TRANSITIONS, read as `next in ALLOWED_TRANSITIONS[previous]`.
abbrev pub allowed : NodeState → NodeState → Bool
allowed blocked eligible = true
allowed blocked failed = true
allowed eligible running = true
allowed eligible completed = true
allowed eligible failed = true
allowed eligible recoverable = true
allowed running completed = true
allowed running failed = true
allowed running recoverable = true
allowed failed blocked = true
allowed failed eligible = true
allowed recoverable eligible = true
allowed _ _ = false

-- TERMINAL_NODE_STATES
abbrev pub is_terminal : NodeState → Bool
is_terminal completed = true
is_terminal failed = true
is_terminal _ = false

pub data Kind : Type 0 where
  task approval : Kind

-- A declared input of a task: an entry of `input_bindings`.
pub record InputBinding : Type 0 where
  pub source_node_id : String
  pub pointer : String
  pub required : Bool
  pub max_bytes : ℕ

-- A node before and after `_validate_node`. The fields that only one kind has are optional.
pub record Node : Type 0 where
  pub node_id : String
  pub kind : Kind
  pub dependencies : List String
  pub agent_run_id : Option String
  pub prompt_path : Option String
  pub evaluation_path : Option String
  pub role : Option String
  pub agent_class : Option String
  pub executor : Option String
  pub model : Option String
  pub routing_bytes : Option ℕ
  pub input_bindings : Dict InputBinding
  pub approval_for : Option String

pub record Snapshot : Type 0 where
  pub workflow_id : String
  pub pack_id : String
  pub pack_manifest_sha256 : String
  pub nodes : List Node

-- The `binding` object of a `node-bound` event.
pub record Binding : Type 0 where
  pub agent_run_id : String
  pub attempt : ℕ
  pub retry_of_agent_run_id : Option String
  pub bound_at : String
  pub current : Bool

-- The two digests that replay reads from the `details` of a transition.
pub record Details : Type 0 where
  pub approval_receipt_sha256 : Option String
  pub input_binding_sha256 : Option String

-- The schema of an event allows these two kinds and demands their fields.
pub data EventBody : Type 0 where
  node_bound : Binding → EventBody
  node_transition : (previous_state next_state : NodeState) → Option Details → EventBody

pub record Event : Type 0 where
  pub sequence : ℕ
  pub workflow_id : String
  pub snapshot_sha256 : String
  pub node_id : String
  pub actor : String
  pub reason : String
  pub body : EventBody

pub record NodeStatus : Type 0 where
  pub node_id : String
  pub kind : Kind
  pub state : NodeState
  pub agent_run_id : Option String
  pub attempt : Option ℕ
  pub retry_of_agent_run_id : Option String
  pub bound_at : Option String
  pub terminal_reason : Option String
  pub approval_receipt_sha256 : Option String
  pub input_binding_sha256 : Option String

pub record WorkflowStatus : Type 0 where
  pub workflow_id : String
  pub snapshot_sha256 : String
  pub event_count : ℕ
  pub workflow_state : NodeState
  pub nodes : List NodeStatus

-- What the module raises. `missing_key` is Python's KeyError.
pub data WorkflowError : Type 0 where
  invalid_id duplicate_dependency prompt_required empty_path role_conflict : WorkflowError
  routing_too_large too_many_bindings bad_max_bytes approval_not_dependency : WorkflowError
  pack_required manifest_required no_nodes duplicate_node duplicate_run : WorkflowError
  unknown_dependency dependency_cycle invalid_snapshot out_of_fuel : WorkflowError
  different_workflow digest_mismatch unknown_node missing_key : WorkflowError
  bad_attempt bound_at_required reason_required invalid_transition : WorkflowError
  binding_mismatch not_current cannot_bind not_eligible first_attempt first_lineage : WorkflowError
  retry_state retry_attempt retry_lineage run_reused : WorkflowError
  transition_mismatch no_binding unresolved_dependencies no_newer_binding : WorkflowError
  invalid_status sequence_mismatch invalid_event : WorkflowError
  journal : JournalError → WorkflowError

-- `_aggregate_workflow_state`
unfoldable pub aggregate_workflow_state : List NodeState → NodeState
aggregate_workflow_state states =
    if any (state_eq failed) states
    then failed
    else if any (state_eq running) states
    then running
    else if any (state_eq recoverable) states
    then recoverable
    else if all (state_eq completed) states
    then completed
    else if any (state_eq eligible) states
    then eligible
    else blocked

-- What the module takes from elsewhere: the canonical JSON digest (hashlib) and the JSON Schema
-- validator (jsonschema) on the values that it builds or reads.
pub record Externals : Type 0 where
  pub canonical_sha256 : Snapshot → String
  pub snapshot_valid : Snapshot → Bool
  pub status_valid : WorkflowStatus → Bool
  pub event_valid : Event → Bool
  -- The bytes of an event's canonical JSON line.
  pub event_bytes : Event → ℕ
