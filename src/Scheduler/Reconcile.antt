-- ===== src/Scheduler/Reconcile.antt =====
-- scheduler.py: `_reconcile_running`, `_reconcile_blocked` and `_reconcile_approvals`. Each reads a
-- status and appends transitions to the journal, one at a time: a pass is its result, ok or the first
-- error, and the journal with all that was appended before. The comparative outcomes of `_reconcile_running`
-- go to a store of their own and are not modelled.
pub mod Follows
pub mod Blocked
pub mod Steps
pub mod Running
pub mod Approvals
use text.Mathlib.Text.{starts_with}
use Prim.Native.String.{◌++◌ as append_text}
use agent_workflow.Base.{
  ℕ, String, Bool, true, false, not, ◌&&◌, Option, none, some, List, [], ◌∷◌, map, Dict, lookup,
  insert, filter, all, if◌then◌else◌, str_eq, Result, ok, err, ◌>>=◌, ◌>>◌, require, kept,
  then_kept, pass,
}
use agent_workflow.Base.Sort.{sorted}
use agent_workflow.Workflow.Types.{
  NodeState, blocked, eligible, running, completed, failed, recoverable, state_eq, Kind, task,
  approval, Node, Snapshot, Details, Event, NodeStatus, Externals, WorkflowError, missing_key,
}
use agent_workflow.Workflow.Events.{Stamp, record_workflow_transition}
use agent_workflow.Workflow.Replay.{get}
use agent_workflow.Scheduler.Plan.{states_of, state_is, calculate_eligibility}
use agent_workflow.Scheduler.Children.{
  Child, EvidenceError, child_run_exists, terminal_child_outcome,
}

-- What a scheduler call works on. `stamp` holds the snapshot's workflow ID and digest.
pub record Context : Type 0 where
  pub ext : Externals
  pub snapshot : Snapshot
  pub stamp : Stamp

pub data SchedulerError : Type 0 where
  workflow : WorkflowError → SchedulerError
  approval_running not_retryable not_eligible_node unknown_node approval_retry : SchedulerError
  inputs_failed launch_failed no_authoritative_child bad_limit : SchedulerError

abbrev pub lift {ℓ} : {A : Type ℓ} → Result WorkflowError A → Result SchedulerError A
lift (ok a) = ok a
lift (err e) = err (workflow e)

abbrev pub transition :
    Context
    → (node_id reason : String) → (p n : NodeState) → Option Details
    → List Event
    → Result SchedulerError (List Event)
transition c node_id reason p n details journal =
    lift (record_workflow_transition c.ext c.stamp node_id reason p n details journal)

-- `node_map[node_id]`
unfoldable pub node_named : List Node → String → Option Node
node_named [] id = none
node_named (n ∷ nodes) id = if str_eq n.node_id id then some n else node_named nodes id

unfoldable pub status_named : List NodeStatus → String → Option NodeStatus
status_named [] id = none
status_named (s ∷ nodes) id = if str_eq s.node_id id then some s else status_named nodes id

abbrev pub or_missing {ℓ} : {A : Type ℓ} → Option A → Result SchedulerError A
or_missing none = err (workflow missing_key)
or_missing (some a) = ok a

-- The details of a transition hold no digest that replay reads.
abbrev pub plain : Option Details
plain = some (record { approval_receipt_sha256 = none; input_binding_sha256 = none })

-- What `_reconcile_running` records for a child, with the reason.
unfoldable pub running_verdict :
    Result EvidenceError (Option NodeState) → Bool → Option (NodeState × String)
running_verdict (err e) exists = some (failed, "child terminal evidence failed verification")
running_verdict (ok (some n)) exists = some (n, "sealed child Agent Run")
running_verdict (ok none) true = none
running_verdict (ok none) false =
    some (recoverable, "running state has no authoritative child Agent Run; recovery required")

module _ (c : Context) (child : String → Child) where
  abbrev pub record_verdict :
      String → Option (NodeState × String) → List Event → Result SchedulerError (List Event)
  record_verdict id none journal = ok journal
  record_verdict id (some (n, reason)) journal = transition c id reason running n plain journal

  -- `_terminal_child_outcome` and, where the child is not sealed, `_child_run_exists`.
  abbrev pub reconcile_child :
      String → Option String → List Event → Result SchedulerError (List Event)
  reconcile_child id none journal =
      transition c id "running node has no authoritative child Agent Run binding" running
        recoverable none journal
  reconcile_child id (some run) journal =
      record_verdict id
        (running_verdict (terminal_child_outcome (child run) run)
          (child_run_exists (child run) run))
        journal

  abbrev pub require_task : Kind → Result SchedulerError (Unit {0})
  require_task task = ok tt
  require_task approval = err approval_running

  unfoldable pub reconcile_running_node :
      List Event → NodeStatus → Result SchedulerError (List Event)
  unfolding node_named running_verdict terminal_child_outcome child_run_exists
  reconcile_running_node journal current =
      if state_eq current.state running
      then (do
        node ← or_missing (node_named c.snapshot.nodes current.node_id)
        require_task node.kind
        reconcile_child current.node_id current.agent_run_id journal)
      else ok journal

  unfoldable pub reconcile_running :
      List NodeStatus → List Event → Result SchedulerError (Unit {0}) × List Event
  unfolding reconcile_running_node pass
  reconcile_running status journal =
      pass (λ j s. kept j (reconcile_running_node j s)) journal status

abbrev pub join : List String → String
join [] = ""
join (s ∷ []) = s
join (s ∷ t ∷ ss) = append_text s (append_text ", " (join (t ∷ ss)))

abbrev pub prerequisite_failed : String
prerequisite_failed = "workflow prerequisite failed: "

-- `str(terminal_reason or "").startswith("workflow prerequisite failed:")`
unfoldable pub dependency_failure : Option String → Bool
dependency_failure none = false
dependency_failure (some reason) = starts_with reason "workflow prerequisite failed:"

abbrev pub is_nil : List String → Bool
is_nil [] = true
is_nil (_ ∷ _) = false

-- The local `states` of `_reconcile_blocked`, and the journal.
pub record Gates : Type 0 where
  pub states : Dict NodeState
  pub journal : List Event

module _ (c : Context) where
  -- A transition that is also noted in `states`.
  unfoldable pub move :
      Gates
      → (node_id reason : String) → (p n : NodeState) → Option Details
      → Result SchedulerError Gates
  move g node_id reason p n details = do
    journal ← transition c node_id reason p n details g.journal
    ok (record { states = insert node_id n g.states; journal = journal })

  unfoldable pub failed_dependencies : Gates → Node → List String
  failed_dependencies g node = filter (state_is g.states failed) node.dependencies

  -- The first `if`: a dependency that failed was retried, so the gate is closed again.
  unfoldable pub reopen : NodeStatus → Node → Gates → Result SchedulerError Gates
  unfolding move failed_dependencies dependency_failure
  reopen current node g =
      if state_is g.states failed node.node_id
        && dependency_failure current.terminal_reason
        && is_nil (failed_dependencies g node)
      then move g node.node_id "workflow prerequisite retry reopened dependency gate" failed blocked
          none
      else ok g

  -- The rest of the loop's body: a blocked node fails with its dependencies, or becomes eligible.
  unfoldable pub settle : Node → Gates → Result SchedulerError Gates
  unfolding move failed_dependencies
  settle node g =
      if not (state_is g.states blocked node.node_id)
      then ok g
      else if not (is_nil (failed_dependencies g node))
      then move g node.node_id
          (append_text prerequisite_failed (join (sorted (failed_dependencies g node)))) blocked
          failed plain
      else if all (state_is g.states completed) node.dependencies
      then move g node.node_id "all workflow prerequisites completed" blocked eligible none
      else ok g

  unfoldable pub reopen_named : List NodeStatus → Node → Gates → Result SchedulerError Gates
  unfolding reopen status_named
  reopen_named status node g = do
    current ← or_missing (status_named status node.node_id)
    reopen current node g

  unfoldable pub reconcile_blocked_node :
      List NodeStatus → Gates → Node → Result SchedulerError (Unit {0}) × Gates
  unfolding reopen_named settle
  reconcile_blocked_node status g node =
      then_kept (kept g (reopen_named status node g)) λ g'. kept g' (settle node g')

  unfoldable pub reconcile_blocked :
      List NodeStatus → List Event → Result SchedulerError (Unit {0}) × List Event
  unfolding reconcile_blocked_node states_of pass
  reconcile_blocked status journal =
      let (result, g) =
        pass (reconcile_blocked_node status)
          (record { states = states_of status; journal = journal }) c.snapshot.nodes in
      (result, g.journal)

-- `lifecycle_disposition` of the subject's run: its action and the digest of its receipt.
pub record Disposition : Type 0 where
  pub action : String
  pub receipt_sha256 : String

module _ (c : Context) (disposition : String → Result EvidenceError (Option Disposition)) where
  abbrev approval_details : String → Option Details
  approval_details digest =
      some (record { approval_receipt_sha256 = some digest; input_binding_sha256 = none })

  -- Every action but `accepted` and `reviewed` fails the approval node.
  abbrev decide_approval :
      String
      → Result EvidenceError (Option Disposition)
      → List Event
      → Result SchedulerError (List Event)
  decide_approval id (err e) journal =
      transition c id "approval evidence failed verification" eligible failed plain journal
  decide_approval id (ok none) journal = ok journal
  decide_approval id (ok (some d)) journal =
      if str_eq d.action "reviewed"
      then ok journal
      else if str_eq d.action "accepted"
      then transition c id "canonical lifecycle receipt accepted" eligible completed
          (approval_details d.receipt_sha256) journal
      else transition c id "canonical lifecycle receipt rejected" eligible failed
          (approval_details d.receipt_sha256) journal

  abbrev approve_subject : String → Option String → List Event → Result SchedulerError (List Event)
  approve_subject id none journal =
      transition c id "approval subject has no authoritative child Agent Run binding" eligible
        failed plain journal
  approve_subject id (some run) journal = decide_approval id (disposition run) journal

  abbrev approve_node :
      Kind → Node → List NodeStatus → List Event → Result SchedulerError (List Event)
  approve_node task node status journal = ok journal
  approve_node approval node status journal = do
    subject_id ← or_missing node.approval_for
    subject ← or_missing (status_named status subject_id)
    approve_subject node.node_id subject.agent_run_id journal

  unfoldable pub reconcile_approval :
      List NodeStatus → List Event → String → Result SchedulerError (List Event)
  unfolding node_named status_named
  reconcile_approval status journal id = do
    node ← or_missing (node_named c.snapshot.nodes id)
    approve_node node.kind node status journal

  unfoldable pub reconcile_approvals :
      List NodeStatus → List Event → Result SchedulerError (Unit {0}) × List Event
  unfolding reconcile_approval calculate_eligibility pass
  reconcile_approvals status journal =
      pass (λ j id. kept j (reconcile_approval status j id)) journal
        (calculate_eligibility c.snapshot status)
