-- ===== src/Examples/Retries.antt =====
-- The second task fails with the first, before it was ever bound, and is retried.
use agent_workflow.Base.{
  String, ◌≡◌, ◌≢◌, refl, ap, true, false, none, some, List, [], ◌∷◌, length, lookup, ok, str_eq,
  arith, insert, elem, fold_result,
}
use agent_workflow.Journal.{transact_jsonl}
use agent_workflow.Workflow.Ids.{validate_id}
use agent_workflow.Workflow.Types.{
  blocked, eligible, running, failed, node_transition, Node, Event, NodeStatus,
}
use agent_workflow.Workflow.Events.{record_workflow_binding, record_workflow_transition}
use agent_workflow.Workflow.Replay.{Replay, replay}
use agent_workflow.Scheduler.Children.{Child}
use agent_workflow.Scheduler.Launch.{World, bind_retry}
use agent_workflow.Scheduler.Launch.Retry.{bind_retry-unbound}
use agent_workflow.Examples.{two_tasks, task_node, event, first_run, status_of}
use agent_workflow.Examples.Scheduling.{context}

abbrev no_child : String → Child
no_child run = record {
  is_directory = false;
  has_receipt = false;
  seal_run = none;
  provenance_run = none;
  evidence = none;
}

abbrev world : World
world = record {
  child = no_child;
  child_after = no_child;
  inputs_resolve = λ run. true;
  input_sha256 = λ run. none;
  launch_raises = λ run. false;
  now = "2024-01-01T00:00:00Z";
}

abbrev both_failed : List Event
both_failed =
    event 1 "build" (first_run "run-build")
    ∷ event 2 "build" (node_transition eligible running none)
    ∷ event 3 "build" (node_transition running failed none)
    ∷ event 4 "test" (node_transition blocked failed none)
    ∷ []

abbrev test_failed : NodeStatus
test_failed = status_of "test" failed none none none (some "recorded")

abbrev stuck : Replay
stuck = record {
  nodes =
      (
        "build",
        status_of "build" failed (some "run-build") (some 1) (some "2024-01-01T00:00:00Z")
            (some "recorded"),
      )
      ∷ ("test", test_failed)
      ∷ [];
  event_count = 4;
  seen_run_ids = "run-build" ∷ [];
}

stuck_replays : replay "flow" "digest" two_tasks both_failed ≡ ok stuck
unfolding replay fold_result str_eq lookup validate_id elem insert
stuck_replays = refl

found_failed : lookup "test" stuck.nodes ≡ some test_failed
unfolding lookup str_eq
found_failed = refl

abbrev test_node : Node
test_node = task_node "test" "run-test" ("build" ∷ [])

abbrev retried_journal : List Event
retried_journal = (bind_retry context world test_node test_failed both_failed).1

-- The retry writes the binding and the transition.
retry_writes : length retried_journal ≡ 6
unfolding bind_retry record_workflow_binding record_workflow_transition transact_jsonl validate_id
    str_eq
retry_writes = refl

retry_changes : retried_journal ≢ both_failed
retry_changes e = let same = ap length e in omega (arith, same, retry_writes)

bind_retry-unbound_example : replay "flow" "digest" two_tasks retried_journal ≢ ok stuck
bind_retry-unbound_example =
    bind_retry-unbound context world test_node test_failed both_failed stuck stuck stuck_replays
      found_failed refl refl retry_changes
