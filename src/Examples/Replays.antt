-- ===== src/Examples/Replays.antt =====
-- A journal of the two tasks is replayed.
use agent_workflow.Base.{
  String, ◌≡◌, refl, some, [], ◌∷◌, ◌++◌, lookup, insert, All, elem, str_eq, ok, fold_result,
}
use agent_workflow.Workflow.Ids.{validate_id}
use agent_workflow.Workflow.Replay.{replay, apply_event, dependencies_of}
use agent_workflow.Workflow.Replay.Dependencies.{IsCompleted, replay-dependencies-IsCompleted}
use agent_workflow.Workflow.Replay.Runs.{replay-runs_distinct}
use agent_workflow.Workflow.Replay.Final.{IsFinal, apply_events-IsFinal}
use agent_workflow.Examples.{
  two_tasks, build_done, test_running, half_way, at_work, build_completed, test_status,
}

pub half_way_replays : replay "flow" "digest" two_tasks build_done ≡ ok half_way
unfolding replay fold_result str_eq lookup validate_id elem insert
half_way_replays = refl

at_work_replays : replay "flow" "digest" two_tasks (build_done ++ test_running) ≡ ok at_work
unfolding replay fold_result str_eq lookup validate_id elem insert
at_work_replays = refl

found_build : lookup "build" at_work.nodes ≡ some build_completed
unfolding lookup str_eq
found_build = refl

found_test : lookup "test" at_work.nodes ≡ some test_status
unfolding lookup str_eq
found_test = refl

depends_test : lookup "test" (dependencies_of two_tasks) ≡ some ("build" ∷ [])
unfolding lookup str_eq dependencies_of
depends_test = refl

replay-dependencies-IsCompleted_example : All (IsCompleted at_work.nodes) ("build" ∷ [])
replay-dependencies-IsCompleted_example =
    replay-dependencies-IsCompleted "flow" "digest" two_tasks (build_done ++ test_running) at_work
      "test" test_status ("build" ∷ []) at_work_replays found_test refl depends_test

replay-runs_distinct_example : ◌≡◌ {A = String} "test" "test"
replay-runs_distinct_example =
    replay-runs_distinct "flow" "digest" two_tasks (build_done ++ test_running) at_work "test"
      "test" "run-test" test_status test_status at_work_replays found_test found_test refl refl

build_IsFinal : IsFinal "build" (some "run-build") half_way
unfolding lookup str_eq
build_IsFinal = (build_completed, refl, refl, refl)

rest_replays :
    fold_result (apply_event "flow" "digest" (dependencies_of two_tasks)) half_way test_running
    ≡ ok at_work
unfolding apply_event dependencies_of fold_result str_eq lookup validate_id elem insert
rest_replays = refl

apply_events-IsFinal_example : IsFinal "build" (some "run-build") at_work
apply_events-IsFinal_example =
    apply_events-IsFinal "flow" "digest" (dependencies_of two_tasks) half_way at_work test_running
      "build" (some "run-build") build_IsFinal rest_replays
