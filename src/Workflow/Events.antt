-- ===== src/Workflow/Events.antt =====
-- workflow.py: `append_workflow_event`, `record_workflow_binding`, `record_workflow_transition` and
-- `read_workflow_events`. The journal file is the list of its events.
pub mod Append
use agent_workflow.Base.{
  ℕ, ◌+◌, String, Bool, true, Option, none, some, List, [], ◌∷◌, length, ◌==◌, Result, ok, err,
  ◌>>=◌, ◌>>◌, require,
}
use agent_workflow.Journal.{Domain, default_limits, read_jsonl, transact_jsonl}
use agent_workflow.Workflow.Ids.{validate_id}
use agent_workflow.Workflow.Types.{
  NodeState, Binding, Details, EventBody, node_bound, node_transition, Event, Externals,
  WorkflowError, invalid_id, invalid_event, sequence_mismatch, journal,
}

-- `_validate_workflow_event_record`
unfoldable pub validate_event : Externals → Event → ℕ → Result WorkflowError (Unit {0})
validate_event ext event line = do
  require (ext.event_valid event) invalid_event
  require (event.sequence == line) sequence_mismatch

abbrev pub events_domain : Externals → Domain WorkflowError Event
events_domain ext = record {
  bytes = ext.event_bytes;
  sequence = some (λ e. e.sequence);
  validator = validate_event ext;
  raised = journal;
}

unfoldable pub read_workflow_events : Externals → List Event → Result WorkflowError (List Event)
read_workflow_events ext file = read_jsonl (events_domain ext) default_limits file

-- `decide` numbers the event by its place in the journal.
unfoldable pub decide_event :
    Externals → Event → List Event → Result WorkflowError (Event × Option Event)
unfolding validate_event
decide_event ext event existing = do
  let numbered = record event { sequence = length existing + 1 }
  validate_event ext numbered (length existing + 1)
  ok (numbered, some numbered)

unfoldable pub append_workflow_event :
    Externals → Event → List Event → Result WorkflowError (Event × List Event)
unfolding decide_event
append_workflow_event ext event file =
    transact_jsonl (events_domain ext) default_limits (decide_event ext event) file

-- What every record of the scheduler's carries beside its body.
pub record Stamp : Type 0 where
  pub workflow_id : String
  pub snapshot_sha256 : String
  pub actor : String

abbrev pub event_of : Stamp → String → String → EventBody → Event
event_of stamp node_id reason body = record {
  sequence = 0;
  workflow_id = stamp.workflow_id;
  snapshot_sha256 = stamp.snapshot_sha256;
  node_id = node_id;
  actor = stamp.actor;
  reason = reason;
  body = body;
}

abbrev pub valid_retry : Option String → Bool
valid_retry none = true
valid_retry (some run) = validate_id run

unfoldable pub record_workflow_binding :
    Externals
    → Stamp
    → (node_id reason : String) → Binding
    → List Event
    → Result WorkflowError (List Event)
unfolding append_workflow_event
record_workflow_binding ext stamp node_id reason binding file = do
  require (validate_id stamp.workflow_id) invalid_id
  require (validate_id node_id) invalid_id
  require (validate_id binding.agent_run_id) invalid_id
  require (valid_retry binding.retry_of_agent_run_id) invalid_id
  (event, file') ←
      append_workflow_event ext (event_of stamp node_id reason (node_bound binding)) file
  ok file'

unfoldable pub record_workflow_transition :
    Externals
    → Stamp
    → (node_id reason : String) → (previous_state next_state : NodeState) → Option Details
    → List Event
    → Result WorkflowError (List Event)
unfolding append_workflow_event
record_workflow_transition ext stamp node_id reason previous_state next_state details file = do
  require (validate_id stamp.workflow_id) invalid_id
  require (validate_id node_id) invalid_id
  (event, file') ←
      append_workflow_event ext
        (event_of stamp node_id reason (node_transition previous_state next_state details)) file
  ok file'
