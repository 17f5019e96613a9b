-- ===== src/Examples/Scheduling.antt =====
-- The scheduler after the first task is completed.
use agent_workflow.Base.{
  ◌+◌, ◌≤◌, String, ◌≡◌, refl, true, none, List, [], ◌∷◌, length, map, values, distinct, elem,
  str_eq, lookup, ok, arith,
}
use agent_workflow.Workflow.Types.{eligible, Event, NodeStatus}
use agent_workflow.Workflow.Events.{record_workflow_transition}
use agent_workflow.Workflow.Ids.{validate_id}
use agent_workflow.Journal.{transact_jsonl}
use agent_workflow.Workflow.Replay.{Replay, replay}
use agent_workflow.Scheduler.Plan.{count_running, plan_launches}
use agent_workflow.Scheduler.Plan.Capacity.{
  IsLaunchable, length-plan_launches, plan_launches-IsLaunchable,
}
use agent_workflow.Scheduler.Reconcile.{Context, reconcile_blocked}
use agent_workflow.Scheduler.Reconcile.Blocked.{reconcile_blocked-replays}
use agent_workflow.Examples.{
  externals, snapshot, two_tasks, build_done, half_way, build_completed, status_of,
}
use agent_workflow.Examples.Replays.{half_way_replays}

abbrev pub context : Context
context = record {
  ext = externals;
  snapshot = snapshot;
  stamp = record { workflow_id = "flow"; snapshot_sha256 = "digest"; actor = "scheduler" };
}

abbrev unblocked : List Event
unblocked = (reconcile_blocked context (values half_way.nodes) build_done).1

pub names_distinct : distinct (map (λ n. n.node_id) two_tasks) ≡ true
unfolding distinct elem str_eq
names_distinct = refl

build_unblocks : reconcile_blocked context (values half_way.nodes) build_done ≡ (ok tt, unblocked)
unfolding reconcile_blocked values str_eq lookup record_workflow_transition validate_id
    transact_jsonl
build_unblocks = refl

reconcile_blocked-replays_example :
    (r' : Replay) × (replay "flow" "digest" two_tasks unblocked ≡ ok r')
reconcile_blocked-replays_example =
    reconcile_blocked-replays context build_done half_way names_distinct half_way_replays

abbrev test_plan : List String
test_plan = "test" ∷ []

abbrev ready : List NodeStatus
ready = build_completed ∷ status_of "test" eligible none none none none ∷ []

ready_plan : plan_launches snapshot ready 2 ≡ ok test_plan
unfolding plan_launches str_eq
ready_plan = refl

none_running : count_running ready ≤ 2
unfolding count_running
none_running = omega arith

length-plan_launches_example : count_running ready + length test_plan ≤ 2
length-plan_launches_example =
    length-plan_launches snapshot ready 2 test_plan ready_plan none_running

test_planned : elem "test" test_plan ≡ true
unfolding elem str_eq
test_planned = refl

plan_launches-IsLaunchable_example : IsLaunchable snapshot ready "test"
plan_launches-IsLaunchable_example =
    plan_launches-IsLaunchable snapshot ready 2 test_plan "test" ready_plan test_planned
