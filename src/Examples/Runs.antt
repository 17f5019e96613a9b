-- ===== src/Examples/Runs.antt =====
-- A prepared run that starts, one that has failed, and a sealed one.
use agent_workflow.Journal.{read_jsonl, transact_jsonl}
use agent_workflow.Base.{
  ℕ, String, ◌≡◌, ◌⊎◌, refl, true, false, Option, none, some, [], ◌∷◌, str_eq, ok, err, elem,
  lookup, opt_eq,
}
use agent_workflow.Runs.{
  RunError, Event, Status, Run, Externals, allowed_transitions, execution_state, or_new,
  initialize_execution_path, authoritative_execution_status, transition_execution_path,
  synchronize_projection, validate_lifecycle_event,
}
use agent_workflow.Runs.History.{follows}
use agent_workflow.Runs.Reached.{created, initialized, transitioned, Reached-follows}
use agent_workflow.Runs.Authority.{
  after, result, transition_execution_path-execution_state, transition_execution_path-sealed,
  transition_execution_path-terminal,
}

abbrev ext : Externals
ext = record { bytes = λ e. 100; now = "now" }

abbrev lifecycle_event : ℕ → Option String → String → Event
lifecycle_event sequence prior new = record {
  schema = "agent-workflow/lifecycle-event/v1";
  sequence = sequence;
  timestamp = "now";
  dimension = "execution";
  prior = prior;
  new = some new;
  actor = "host";
  reason = "start";
  receipt_refs = [];
}

abbrev run_status : String → Status
run_status status = record {
  schema = "agent-workflow/agent-run-status/v1";
  status = status;
  updated_at = "now";
  generated_at = "now";
  source = "lifecycle";
  freshness = "snapshot";
  fields = [];
}

abbrev prepared : Run
prepared = record {
  events = some (lifecycle_event 1 none "prepared" ∷ []);
  projection = some (run_status "prepared");
  sealed = none;
}

abbrev running : Run
running = record {
  events =
      some (lifecycle_event 1 none "prepared" ∷ lifecycle_event 2 (some "prepared") "running" ∷ []);
  projection = some (run_status "running");
  sealed = none;
}

abbrev failed : Run
failed = record {
  events = some (lifecycle_event 1 none "failed" ∷ []);
  projection = some (run_status "prepared");
  sealed = none;
}

abbrev sealed_run : Run
sealed_run = record {
  events = some (lifecycle_event 1 none "failed" ∷ []);
  projection = some (run_status "prepared");
  sealed = some (some "failed");
}

starts :
    transition_execution_path ext prepared "running" "host" "start" [] "lifecycle" "snapshot" []
    ≡ (running, ok (run_status "running"))
unfolding transition_execution_path read_jsonl str_eq elem opt_eq transact_jsonl lookup
starts = refl

transition_execution_path-execution_state_example :
    (execution_state ext running.events ≡ ok (some "running"))
    × (authoritative_execution_status ext running ≡ ok "running")
    × (running.projection ≡ some (run_status "running"))
    × ((run_status "running").status ≡ "running")
transition_execution_path-execution_state_example =
    transition_execution_path-execution_state ext prepared "running" "host" "start" [] "lifecycle"
      "snapshot" [] running (run_status "running") refl starts

projects :
    transition_execution_path ext sealed_run "failed" "host" "start" [] "lifecycle" "snapshot" []
    ≡ (record sealed_run { projection = some (run_status "failed") }, ok (run_status "failed"))
unfolding transition_execution_path elem str_eq lookup
projects = refl

transition_execution_path-sealed_example :
    ((after ext sealed_run "running" "host" "start" [] "lifecycle" "snapshot" []).events
      ≡ sealed_run.events)
    × ((after ext sealed_run "running" "host" "start" [] "lifecycle" "snapshot" []).sealed
        ≡ sealed_run.sealed)
    × (((e : RunError) × (result ext sealed_run "running" "host" "start" [] "lifecycle" "snapshot"
              []
            ≡ err e))
        ⊎ ((answer : Status) × (result ext sealed_run "running" "host" "start" [] "lifecycle"
                "snapshot" []
              ≡ ok answer)
            × (authoritative_execution_status ext sealed_run ≡ ok "running")
            × (answer.status ≡ "running")))
transition_execution_path-sealed_example =
    transition_execution_path-sealed ext sealed_run "running" "host" "start" [] "lifecycle"
      "snapshot" [] refl

failed_state : execution_state ext failed.events ≡ ok (some "failed")
unfolding execution_state read_jsonl validate_lifecycle_event str_eq elem
failed_state = refl

failed_is_stuck : allowed_transitions (some "failed") ≡ []
unfolding allowed_transitions str_eq
failed_is_stuck = refl

not_running : str_eq "failed" "running" ≡ false
unfolding str_eq
not_running = refl

transition_execution_path-terminal_example :
    (e : RunError) × (transition_execution_path ext failed "running" "host" "start" [] "lifecycle"
        "snapshot" []
      ≡ (failed, err e))
transition_execution_path-terminal_example =
    transition_execution_path-terminal ext failed "running" "host" "start" [] "lifecycle" "snapshot"
      [] "failed" refl failed_state failed_is_stuck not_running

synchronizes :
    synchronize_projection ext sealed_run "lifecycle" "snapshot" []
    ≡ (record sealed_run { projection = some (run_status "failed") }, ok (run_status "failed"))
unfolding synchronize_projection elem str_eq lookup
synchronizes = refl

-- A run that is created, prepared and started.
abbrev fresh : Run
fresh = record { events = none; projection = none; sealed = none }

abbrev initial : Run
initial =
    (initialize_execution_path ext fresh (run_status "prepared") "host" "start" [] "lifecycle").0

abbrev started : Run
started =
    (transition_execution_path ext initial "running" "host" "start" [] "lifecycle" "snapshot" []).0

starts_running : or_new ext started.events ≡ or_new ext running.events
unfolding initialize_execution_path transition_execution_path read_jsonl str_eq elem opt_eq
    transact_jsonl lookup
starts_running = refl

Reached-follows_example : follows none (or_new ext started.events) ≡ true
Reached-follows_example = Reached-follows ext started (
    transitioned initial "running" "host" "start" [] "lifecycle" "snapshot" []
      (initialized fresh (run_status "prepared") "host" "start" [] "lifecycle" (created none)))
