-- ===== src/Examples/Running.antt =====
-- The scheduler finds the sealed child of the first task.
use agent_workflow.Base.{
  String, ◌≡◌, refl, true, none, some, List, [], ◌∷◌, ◌++◌, values, elem, str_eq, lookup, insert,
  ok, err, fold_result,
}
use agent_workflow.Journal.{transact_jsonl}
use agent_workflow.Workflow.Ids.{validate_id}
use agent_workflow.Workflow.Types.{blocked, eligible, running, node_transition, Event, missing_key}
use agent_workflow.Workflow.Events.{record_workflow_transition}
use agent_workflow.Workflow.Replay.{Replay, replay}
use agent_workflow.Scheduler.Children.{Child}
use agent_workflow.Scheduler.Reconcile.{workflow, reconcile_running}
use agent_workflow.Scheduler.Reconcile.Running.{reconcile_running-replays}
use agent_workflow.Examples.{two_tasks, event, first_run, status_of}
use agent_workflow.Examples.Scheduling.{context, names_distinct}

abbrev sealed_child : String → Child
sealed_child run = record {
  is_directory = true;
  has_receipt = true;
  seal_run = some run;
  provenance_run = some run;
  evidence = some (record {
    status_run = run;
    status = "completed";
    completion_run = run;
    completion_result = "completed";
    validation_status = "valid";
  });
}

abbrev build_running : List Event
build_running =
    event 1 "build" (first_run "run-build")
    ∷ event 2 "build" (node_transition eligible running none)
    ∷ []

abbrev waiting : Replay
waiting = record {
  nodes =
      (
        "build",
        status_of "build" running (some "run-build") (some 1) (some "2024-01-01T00:00:00Z") none,
      )
      ∷ ("test", status_of "test" blocked none none none none)
      ∷ [];
  event_count = 2;
  seen_run_ids = "run-build" ∷ [];
}

waiting_replays : replay "flow" "digest" two_tasks build_running ≡ ok waiting
unfolding replay fold_result str_eq lookup validate_id elem insert
waiting_replays = refl

abbrev build_completes : List Event
build_completes = (reconcile_running context sealed_child (values waiting.nodes) build_running).1

build_reconciles :
    reconcile_running context sealed_child (values waiting.nodes) build_running
    ≡ (ok tt, build_completes)
unfolding reconcile_running values str_eq lookup record_workflow_transition validate_id
    transact_jsonl
build_reconciles = refl

reconcile_running-replays_example :
    (r' : Replay) × (replay "flow" "digest" two_tasks build_completes ≡ ok r')
reconcile_running-replays_example =
    reconcile_running-replays context sealed_child build_running waiting names_distinct
      waiting_replays

-- A node that the snapshot does not have raises, and what was written before it stays.
ghost_raises :
    reconcile_running context sealed_child
      (values waiting.nodes ++ status_of "ghost" running none none none none ∷ [])
      build_running
    ≡ (err (workflow missing_key), build_completes)
unfolding reconcile_running values str_eq lookup record_workflow_transition validate_id
    transact_jsonl
ghost_raises = refl
