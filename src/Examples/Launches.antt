-- ===== src/Examples/Launches.antt =====
-- The launch of the second task of the chain, whose predecessor is reviewed and accepted.
use agent_workflow.Chains.Order.{index}
use agent_workflow.Base.Sort.{sorted}
use agent_workflow.Chains.{order_tasks}
use agent_workflow.Base.{
  ℕ, String, ◌≡◌, refl, true, false, Option, none, some, [], ◌∷◌, str_eq, ok, distinct, elem,
  opt_eq,
}
use agent_workflow.Lifecycle.Receipts.{ReviewAction, reviewed, accepted, Entry, lifecycle_receipts}
use agent_workflow.Chains.Plans.{
  Binding, list_eq, option_eq, plan_eq, task_eq, validate_execution_binding,
}
use agent_workflow.Chains.Launch.{JobBinding, LaunchSite, is_v3, validate_launch}
use agent_workflow.Chains.Launch.Accepted.{IsAuthorized, validate_launch-IsAuthorized}
use agent_workflow.Examples.Chains.{checks, second_binding, job_of}

abbrev entry_of : ℕ → ReviewAction → Option String → Entry
entry_of n action revision = record {
  sequence = n;
  named = action;
  is_regular = true;
  is_writable = false;
  receipt = record {
    agent_run_id = "run-1";
    action = action;
    actor = "host";
    reason = "checked";
    created_at = "now";
    final_receipt_sha256 = "seal";
    score_receipt_sha256 = none;
    revision = revision;
    reviewer_independent = true;
  };
}

abbrev job_binding : JobBinding
job_binding = record {
  schema = "agent-workflow/job-binding/v3";
  execution_binding_sha256 = "authority";
  job_source_path = "release";
  pack_root = "/pack";
  worktree = "/task-1";
}

abbrev launch_site : LaunchSite
launch_site = record {
  run_id = "run-2";
  job_binding = some (some job_binding);
  authority = some second_binding;
  authority_sha256 = "authority";
  job = λ path pack. job_of path;
  common_dir = λ path. "/repo/.git";
  is_idle = λ path. true;
  source_is_valid = λ job worktree revision. true;
  seal = λ run expected. some expected;
  receipts = λ run. entry_of 1 reviewed none ∷ entry_of 2 accepted (some "one") ∷ [];
}

binding_is_v3 : is_v3 job_binding ≡ true
unfolding str_eq
binding_is_v3 = refl

passes : validate_launch checks launch_site ≡ ok tt
unfolding validate_launch str_eq validate_execution_binding order_tasks distinct elem sorted list_eq
    index opt_eq option_eq plan_eq task_eq lifecycle_receipts
passes = refl

validate_launch-IsAuthorized_example :
    (b : Binding) × (some second_binding ≡ some b)
    × (launch_site.authority_sha256 ≡ job_binding.execution_binding_sha256)
    × IsAuthorized checks launch_site b
validate_launch-IsAuthorized_example =
    validate_launch-IsAuthorized checks launch_site job_binding tt refl binding_is_v3 passes
