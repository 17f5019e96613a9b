-- ===== src/Chains/Launch.antt =====
-- task_chains.py: `validate_launch`, the recheck of a run's authority when it starts.
pub mod Accepted
use agent_workflow.Base.{
  String, Bool, true, false, ◌&&◌, Option, none, some, List, [], ◌∷◌, if◌then◌else◌, str_eq, opt_eq,
  Result, ok, err, ◌>>=◌, ◌>>◌, require,
}
use agent_workflow.Lifecycle.Receipts.{
  reviewed, accepted, action_eq, Entry, LifecycleError, lifecycle_receipts,
}
use agent_workflow.Lifecycle.Approval.{last_two}
use agent_workflow.Chains.{
  ChainError, raised, launch_checksum_mismatch, repository_mismatch, no_longer_accepted,
}
use agent_workflow.Chains.Plans.{
  Plan, Input, Receipt, Binding, Job, Checks, validate_execution_binding,
}
use agent_workflow.Chains.Create.{read_or_raise}

-- job-binding.json, as far as the code reads it.
pub record JobBinding : Type 0 where
  pub schema : String
  pub execution_binding_sha256 : String
  pub job_source_path : String
  pub pack_root : String
  pub worktree : String

-- What `validate_launch` reads of the host. `job_binding` is `none` where there is no such file;
-- inside, and in the other options, `none` stands for a reading that raises. `seal` is the digest
-- that the verification of a run's seal returns, given the digest that is expected of it.
pub record LaunchSite : Type 0 where
  pub run_id : String
  pub job_binding : Option (Option JobBinding)
  pub authority : Option Binding
  pub authority_sha256 : String
  pub job : (path pack : String) → Option Job
  pub common_dir : String → String
  pub is_idle : String → Bool
  pub source_is_valid : Job → (worktree revision : String) → Bool
  pub seal : (run expected : String) → Option String
  pub receipts : String → List Entry

abbrev receipts_or_raise : Result LifecycleError (List Entry) → Result ChainError (List Entry)
receipts_or_raise (ok es) = ok es
receipts_or_raise (err e) = err raised

-- A review and then an acceptance of the revision.
unfoldable pub ends_accepted : Option (Option Entry × Entry) → String → Bool
ends_accepted none head = false
ends_accepted (some (none, e)) head = false
ends_accepted (some (some before, e)) head =
    action_eq e.receipt.action accepted
    && action_eq before.receipt.action reviewed
    && opt_eq e.receipt.revision (some head)

-- `prior["inputs"] if prior else []`
unfoldable pub inputs_of : Option Receipt → List Input
inputs_of none = []
inputs_of (some prior) = prior.inputs

-- The body of the loop over the inputs of the predecessor's integration.
unfoldable pub check_predecessor : LaunchSite → Input → Result ChainError (Unit {0})
unfolding ends_accepted
check_predecessor site item = do
  seal ← read_or_raise (site.seal item.run_id item.seal_sha256)
  receipts ←
      receipts_or_raise (lifecycle_receipts item.run_id (some seal) (site.receipts item.run_id))
  require (ends_accepted (last_two receipts none) item.head) no_longer_accepted

unfoldable pub check_predecessors : LaunchSite → List Input → Result ChainError (Unit {0})
unfolding check_predecessor
check_predecessors site [] = ok tt
check_predecessors site (item ∷ items) =
    check_predecessor site item >> check_predecessors site items

-- What is checked of a launch with a v3 job binding.
unfoldable pub check_launch : Checks → LaunchSite → JobBinding → Result ChainError (Unit {0})
unfolding check_predecessors inputs_of
check_launch c site binding = do
  authority ← read_or_raise site.authority
  require (str_eq site.authority_sha256 binding.execution_binding_sha256) launch_checksum_mismatch
  job ← read_or_raise (site.job binding.job_source_path binding.pack_root)
  validate_execution_binding c authority (some (job, (site.run_id, binding.worktree)))
  require (str_eq (site.common_dir binding.worktree) (site.common_dir authority.plan.repo))
      repository_mismatch
  require (site.is_idle binding.worktree) raised
  require (site.source_is_valid job binding.worktree authority.execution_revision) raised
  check_predecessors site (inputs_of authority.prior_integration)

abbrev pub is_v3 : JobBinding → Bool
is_v3 binding = str_eq binding.schema "agent-workflow/job-binding/v3"

unfoldable pub validate_launch : Checks → LaunchSite → Result ChainError (Unit {0})
unfolding check_launch
validate_launch c site = elim site.job_binding [
  | none ↦ ok tt
  | some none ↦ err raised
  | some (some binding) ↦ if is_v3 binding then check_launch c site binding else ok tt
]
