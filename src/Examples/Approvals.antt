-- ===== src/Examples/Approvals.antt =====
-- A gate waits for the approval of the first task.
use agent_workflow.Base.{
  String, ◌≡◌, refl, true, Option, none, some, List, [], ◌∷◌, ◌++◌, map, values, distinct, elem,
  str_eq, lookup, insert, Result, ok, fold_result,
}
use agent_workflow.Base.Sort.{sorted}
use agent_workflow.Journal.{transact_jsonl}
use agent_workflow.Workflow.Ids.{validate_id}
use agent_workflow.Workflow.Types.{blocked, eligible, approval, node_transition, Node, Event}
use agent_workflow.Workflow.Events.{record_workflow_transition}
use agent_workflow.Workflow.Replay.{Replay, replay}
use agent_workflow.Scheduler.Children.{EvidenceError}
use agent_workflow.Scheduler.Reconcile.{Context, Disposition, reconcile_approvals}
use agent_workflow.Scheduler.Reconcile.Approvals.{reconcile_approvals-replays}
use agent_workflow.Examples.{snapshot, task_node, event, build_done, build_completed, status_of}
use agent_workflow.Examples.Scheduling.{context}

abbrev gate : Node
gate = record (task_node "gate" "" ("build" ∷ [])) {
  kind = approval;
  agent_run_id = none;
  prompt_path = none;
  approval_for = some "build";
}

abbrev gated_nodes : List Node
gated_nodes = task_node "build" "run-build" [] ∷ gate ∷ []

abbrev gated : Context
gated = record context { snapshot = record snapshot { nodes = gated_nodes } }

abbrev gate_opened : List Event
gate_opened = build_done ++ event 4 "gate" (node_transition blocked eligible none) ∷ []

abbrev waiting : Replay
waiting = record {
  nodes =
      ("build", build_completed)
      ∷ ("gate", record (status_of "gate" eligible none none none none) { kind = approval })
      ∷ [];
  event_count = 4;
  seen_run_ids = "run-build" ∷ [];
}

waiting_replays : replay "flow" "digest" gated_nodes gate_opened ≡ ok waiting
unfolding replay fold_result str_eq lookup validate_id elem insert
waiting_replays = refl

abbrev accepting : String → Result EvidenceError (Option Disposition)
accepting run = ok (some (record { action = "accepted"; receipt_sha256 = "receipt" }))

gate_names : distinct (map (λ n. n.node_id) gated_nodes) ≡ true
unfolding distinct elem str_eq
gate_names = refl

abbrev approved : List Event
approved = (reconcile_approvals gated accepting (values waiting.nodes) gate_opened).1

gate_approves :
    reconcile_approvals gated accepting (values waiting.nodes) gate_opened ≡ (ok tt, approved)
unfolding reconcile_approvals values str_eq lookup record_workflow_transition validate_id
    transact_jsonl sorted
gate_approves = refl

reconcile_approvals-replays_example :
    (r' : Replay) × (replay "flow" "digest" gated_nodes approved ≡ ok r')
reconcile_approvals-replays_example =
    reconcile_approvals-replays gated accepting gate_opened waiting gate_names waiting_replays
