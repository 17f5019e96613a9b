-- ===== src/Chains.antt =====
-- task_chains.py: the data of a task chain and `order_tasks`, the Kahn ordering of its tasks.
pub mod Order
pub mod Plans
pub mod State
pub mod Operate
pub mod Create
pub mod Launch
use agent_workflow.Base.{
  ℕ, zero, suc, ◌≡◌, ◌++◌, ◌||◌, String, Bool, true, false, not, ◌&&◌, Option, none, some, List, [],
  ◌∷◌, map, length, filter, all, any, leb, elem, distinct, Dict, str_eq, if◌then◌else◌, Result, ok,
  err, ◌>>=◌, ◌>>◌, require,
}
use agent_workflow.Base.Sort.{sorted}

-- One constructor for each message of the file's WorkflowErrors. `out_of_fuel` is the model's own:
-- the end of the fuel of the ordering loop. `raised` is an error that the code called here raises.
pub data ChainError : Type 0 where
  not_unique : ChainError
  missing_predecessor : ChainError
  cyclic : ChainError
  out_of_fuel : ChainError
  raised : ChainError
  schema_invalid : ChainError
  plan_hash_mismatch : ChainError
  order_mismatch : ChainError
  task_absent : ChainError
  unexpected_predecessor : ChainError
  predecessor_missing : ChainError
  predecessor_hash_mismatch : ChainError
  no_accepted_prefix : ChainError
  wrong_baseline : ChainError
  job_mismatch : ChainError
  not_prefix : ChainError
  identity_mismatch : ChainError
  inputs_disagree : ChainError
  revision_mismatch : ChainError
  integration_unreserved : ChainError
  reservation_after_gap : ChainError
  reservation_mismatch : ChainError
  predecessor_unaccepted : ChainError
  evidence_mismatch : ChainError
  transition_invalid : ChainError
  duplicate_run : ChainError
  final_invalid : ChainError
  already_final : ChainError
  all_accepted : ChainError
  already_reserved : ChainError
  run_exists : ChainError
  worker_required : ChainError
  not_clean : ChainError
  worktree_exists : ChainError
  none_unintegrated : ChainError
  not_all_accepted : ChainError
  commands_changed : ChainError
  storage_protected : ChainError
  storage_exists : ChainError
  dependencies_invalid : ChainError
  predecessors_invalid : ChainError
  actor_required : ChainError
  launch_checksum_mismatch : ChainError
  repository_mismatch : ChainError
  no_longer_accepted : ChainError
  invalid_run_id : ChainError
  launch_failed : ChainError
  integration_rejected : ChainError

pub record Task : Type 0 where
  pub task_id : String
  pub predecessors : List String
  pub job_sha256 : String

-- `deps <= set(names)`
unfoldable pub subset : List String → List String → Bool
subset deps names = all (λ d. elem d names) deps

-- `{item["task_id"]: set(item["predecessors"]) for item in tasks}`
unfoldable pub pending_of : List Task → Dict (List String)
pending_of tasks = map (λ t. (t.task_id, t.predecessors)) tasks

abbrev pub task_ids : List Task → List String
task_ids tasks = map (λ t. t.task_id) tasks

-- The tasks that stand in the way of no predecessor, before sorting.
unfoldable pub ready : Dict (List String) → List String → List String
unfolding subset
ready [] order = []
ready ((task, deps) ∷ pending) order =
    if subset deps order then task ∷ ready pending order else ready pending order

-- `del pending[task]`
unfoldable pub remove : String → Dict (List String) → Dict (List String)
remove task [] = []
remove task ((t, deps) ∷ pending) =
    if str_eq t task then pending else (t, deps) ∷ remove task pending

-- The `while pending` loop of `order_tasks`.
unfoldable pub order_loop : ℕ → Dict (List String) → List String → Result ChainError (List String)
unfolding ready remove
order_loop fuel [] order = ok order
order_loop zero (p ∷ pending) order = err out_of_fuel
order_loop (suc fuel) (p ∷ pending) order = elim (sorted (ready (p ∷ pending) order)) [
  | [] ↦ err cyclic
  | task ∷ _ ↦ order_loop fuel (remove task (p ∷ pending)) (order ++ task ∷ [])
]

-- The tests of `order_tasks` before its loop.
unfoldable pub known_tasks : List Task → Bool
unfolding subset
known_tasks tasks =
    all (λ t. not (elem t.task_id t.predecessors) && subset t.predecessors (task_ids tasks)) tasks

unfoldable pub order_tasks : List Task → Result ChainError (List String)
unfolding order_loop known_tasks pending_of
order_tasks tasks = do
  require (leb 1 (length tasks) && distinct (task_ids tasks)) not_unique
  require (known_tasks tasks) missing_predecessor
  order_loop (length tasks) (pending_of tasks) []
