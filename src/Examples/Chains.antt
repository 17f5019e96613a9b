-- ===== src/Examples/Chains.antt =====
-- A chain of two tasks: its order, a prepared task on the storage, and the inputs of an integration.
use agent_workflow.Lifecycle.Operations.{is_blank}
use agent_workflow.Workflow.Ids.{validate_id}
use agent_workflow.Base.Sort.{sorted}
use agent_workflow.Base.{
  Dict, ℕ, zero, suc, String, ◌≡◌, ◌≢◌, ◌↔◌, ◌⊎◌, refl, true, false, ◌&&◌, Option, none, some, List,
  [], ◌∷◌, ◌++◌, if◌then◌else◌, map, length, take, leb, elem, distinct, str_eq, ok, err, opt_eq,
  keys, lookup,
}
use agent_workflow.Chains.{out_of_fuel, already_reserved, Task, task_ids, known_tasks, order_tasks}
use agent_workflow.Chains.Order.{index}
use agent_workflow.Chains.Order.Decides.{IsRanked, order_tasks-IsRanked}
use agent_workflow.Chains.Order.Acyclic.{order_tasks_decides}
use agent_workflow.Chains.Plans.{
  Plan, Job, Input, Receipt, Binding, Checks, validate_prefix, input_eq, list_eq, option_eq,
  plan_eq, task_eq, validate_execution_binding, validate_plan,
}
use agent_workflow.Chains.Plans.Prefix.{IsLinear, IsBound, validate_prefix-IsLinear}
use agent_workflow.Chains.State.{Storage, Recovered, run_ids, recover}
use agent_workflow.Chains.State.Reaches.{Reaches, recover-Reaches}
use agent_workflow.Chains.Create.{Site, new_storage, create}
use agent_workflow.Chains.Create.Created.{create-recover}
use agent_workflow.Chains.Operate.{Host, prepare, binding_of, operate}
use agent_workflow.Chains.Operate.Prepared.{recover-prepare, operate-already_reserved}

abbrev tasks : List Task
tasks =
    record { task_id = "release"; predecessors = "build" ∷ []; job_sha256 = "j2" }
    ∷ record { task_id = "build"; predecessors = []; job_sha256 = "j1" }
    ∷ []

ordered_tasks : order_tasks tasks ≡ ok ("build" ∷ "release" ∷ [])
unfolding order_tasks distinct elem str_eq sorted
ordered_tasks = refl

order_tasks-IsRanked_example :
    IsRanked (λ s. index s ("build" ∷ "release" ∷ [])) tasks
    × (distinct ("build" ∷ "release" ∷ []) ≡ true)
    × ((s : String) → elem s ("build" ∷ "release" ∷ []) ≡ elem s (task_ids tasks))
order_tasks-IsRanked_example = order_tasks-IsRanked tasks ("build" ∷ "release" ∷ []) ordered_tasks

known_example : known_tasks tasks ≡ true
unfolding known_tasks elem str_eq
known_example = refl

unique_example : (leb 1 (length tasks) && distinct (task_ids tasks)) ≡ true
unfolding distinct elem str_eq
unique_example = refl

order_tasks_decides_example :
    (order_tasks tasks ≢ err out_of_fuel)
    × (((order : List String) × (order_tasks tasks ≡ ok order))
        ↔ ((r : String → ℕ) × IsRanked r tasks))
order_tasks_decides_example = order_tasks_decides tasks unique_example known_example

abbrev plan : Plan
plan = record {
  created_at = "now";
  repo = "/repo";
  pack = "/pack";
  planning_revision = "base";
  source_specification_sha256 = "spec";
  tasks = tasks;
  order = "build" ∷ "release" ∷ [];
  transition_commands = "[test]";
  final_commands = "[test, lint]";
  actor = "host";
  reason = "release";
  tier = "low";
  plan_sha256 = "plan";
}

abbrev pub checks : Checks
checks = record {
  plan_is_valid = λ p. true;
  binding_is_valid = λ b. true;
  digest = λ p. "plan";
  receipt_is_intact = λ r. true;
}

abbrev input_of : String → String → String → String → Input
input_of run task baseline head = record {
  run_id = run;
  seal_sha256 = "seal";
  binding_sha256 = "binding";
  completion_sha256 = "completion";
  task_id = task;
  baseline = baseline;
  head = head;
  changed_paths = [];
  scope = "{}";
  commit = "{}";
}

abbrev receipt : Receipt
receipt = record {
  schema = "agent-workflow/task-integration/v2";
  status = "success";
  decision = "accepted";
  purpose = some "transition";
  chain_plan = some plan;
  inputs = input_of "run-1" "build" "base" "one" ∷ [];
  head_revision = "one";
  request_run_ids = "run-1" ∷ [];
  receipt_sha256 = "receipt";
  rest = "{}";
}

abbrev first_binding : Binding
first_binding = record {
  plan = plan;
  task_id = "build";
  run_id = "run-1";
  worktree = "/task-0";
  execution_revision = "base";
  prior_integration = none;
}

abbrev pub second_binding : Binding
second_binding = record {
  plan = plan;
  task_id = "release";
  run_id = "run-2";
  worktree = "/task-1";
  execution_revision = "one";
  prior_integration = some receipt;
}

abbrev inputs : List Input
inputs = input_of "run-1" "build" "base" "one" ∷ input_of "run-2" "release" "one" "two" ∷ []

abbrev bindings : List Binding
bindings = first_binding ∷ second_binding ∷ []

prefix_is_valid : validate_prefix checks plan inputs bindings ≡ ok tt
unfolding validate_prefix str_eq order_tasks distinct elem sorted list_eq index plan_eq task_eq
    opt_eq option_eq input_eq
prefix_is_valid = refl

validate_prefix-IsLinear_example :
    IsLinear plan.planning_revision inputs
    × IsBound inputs bindings
    × (map (λ i. i.task_id) inputs ≡ take (length inputs) plan.order)
validate_prefix-IsLinear_example =
    validate_prefix-IsLinear checks plan inputs bindings tt prefix_is_valid

-- The first task is integrated, the second is not reserved.
abbrev storage : Storage
storage = record {
  plan = plan;
  reserved = λ i. elim i [ zero ↦ some first_binding | suc _ ↦ none ];
  attempt =
      λ i. elim i [ zero ↦ some (record { receipt = receipt; is_verified = true }) | suc _ ↦ none ];
  final = none;
  transition_commands = some "[test]";
  final_commands = none;
}

abbrev recovered : Recovered
recovered = record { reservations = first_binding ∷ []; prefix = receipt ∷ []; gap = true }

storage_recovers : recover checks storage ≡ ok (recovered, none)
unfolding recover str_eq order_tasks distinct elem sorted list_eq validate_execution_binding index
    plan_eq task_eq option_eq opt_eq
storage_recovers = refl

recover-Reaches_example :
    Reaches plan recovered.reservations recovered.prefix
    × (distinct (run_ids recovered.reservations) ≡ true)
    × ((◌≡◌ {A = Option Receipt} none none) ⊎ (length recovered.prefix ≡ length plan.order))
recover-Reaches_example = recover-Reaches checks storage recovered none storage_recovers

abbrev host : Host
host = record {
  has_run = λ id. str_eq id "run-1";
  is_accepted = λ id. str_eq id "run-1";
  is_idle = true;
  is_clean = true;
  worktree = λ i. "/task-1";
  has_worktree = λ i. false;
  job = λ task. some (record {
    schema = "agent-workflow/native-job/v2";
    job_id = "release";
    ticket_id = "release";
    task_refs = "release" ∷ [];
    job_sha256 = "j2";
    source_sha256 = "spec";
    source_revision = "base";
  });
  can_launch = λ b. false;
  integrate = λ purpose p runs. none;
}

next_binding : binding_of checks host storage recovered "run-2" ("worker" ∷ []) ≡ ok second_binding
unfolding binding_of validate_id str_eq validate_execution_binding order_tasks distinct elem sorted
    list_eq index opt_eq option_eq plan_eq task_eq
next_binding = refl

accepted_exists : (id : String) → host.is_accepted id ≡ true → host.has_run id ≡ true
accepted_exists id h = h

recover-prepare_example :
    (t : Recovered) × (recover checks
        (operate checks host storage (prepare "run-2" ("worker" ∷ []))).0
      ≡ ok (t, none))
    × (t.reservations ≡ recovered.reservations ++ second_binding ∷ [])
    × (t.prefix ≡ recovered.prefix)
recover-prepare_example =
    recover-prepare checks host accepted_exists storage recovered "run-2" ("worker" ∷ [])
      second_binding storage_recovers next_binding

operate-already_reserved_example :
    let prepared = (operate checks host storage (prepare "run-2" ("worker" ∷ []))).0 in
    operate checks host prepared (prepare "run-3" ("worker" ∷ []))
    ≡ (prepared, err already_reserved)
operate-already_reserved_example =
    operate-already_reserved checks host accepted_exists storage recovered "run-2" ("worker" ∷ [])
      second_binding storage_recovers next_binding host "run-3" ("worker" ∷ [])

abbrev pub job_of : String → Option Job
job_of task = some (record {
  schema = "agent-workflow/native-job/v2";
  job_id = task;
  ticket_id = task;
  task_refs = task ∷ [];
  job_sha256 = if str_eq task "build" then "j1" else "j2";
  source_sha256 = "spec";
  source_revision = "base";
})

abbrev site : Site
site = record {
  is_protected = false;
  is_idle = true;
  is_clean = true;
  repo = "/repo";
  pack = "/pack";
  planning_revision = "base";
  source_sha256 = "spec";
  pending = "build" ∷ "release" ∷ [];
  job = job_of;
  transition_commands = some "[test]";
  final_commands = some "[test, lint]";
  now = "now";
}

abbrev dependencies : Dict (List String)
dependencies = ("release", "build" ∷ []) ∷ ("build", []) ∷ []

abbrev created_plan : Plan
created_plan = record plan {
  tasks =
      record { task_id = "build"; predecessors = []; job_sha256 = "j1" }
      ∷ record { task_id = "release"; predecessors = "build" ∷ []; job_sha256 = "j2" }
      ∷ [];
}

creates :
    create checks site none dependencies "host" "release" "low"
    ≡ (some (new_storage created_plan), ok created_plan)
unfolding create new_storage order_tasks distinct elem sorted str_eq keys lookup list_eq is_blank
    validate_plan
creates = refl

create-recover_example :
    (◌≡◌ {A = Option Storage} none none)
    × (root : Storage) × (s : Recovered) × (some (new_storage created_plan) ≡ some root)
    × (root.plan ≡ created_plan)
    × (recover checks root ≡ ok (s, none))
    × (s.reservations ≡ [])
    × (s.prefix ≡ [])
create-recover_example =
    create-recover checks site none dependencies "host" "release" "low"
      (some (new_storage created_plan)) created_plan creates
