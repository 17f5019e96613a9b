-- ===== src/Chains/Create.antt =====
-- task_chains.py: `create`, which freezes a plan in a new chain storage.
pub mod Created
use agent_workflow.Base.{
  ℕ, String, Bool, true, false, not, ◌&&◌, Option, none, some, List, [], ◌∷◌, length, all, elem,
  distinct, leb, str_eq, Dict, keys, lookup, if◌then◌else◌, Result, ok, err, ◌>>=◌, ◌>>◌, require,
}
use agent_workflow.Base.Sort.{sorted}
use agent_workflow.Lifecycle.Operations.{is_blank}
use agent_workflow.Chains.{
  ChainError, raised, not_clean, storage_protected, storage_exists, dependencies_invalid,
  predecessors_invalid, job_mismatch, actor_required, Task, order_tasks,
}
use agent_workflow.Chains.Plans.{Plan, Job, Checks, texts_eq, validate_plan}
use agent_workflow.Chains.State.{Storage, is_some}

-- What `create` reads of the host: the place of the storage, the repository, the imported source
-- specification with its pending task ids, the job of a task with its source checks, and the two
-- command files. `none` stands for a reading that raises.
pub record Site : Type 0 where
  pub is_protected : Bool
  pub is_idle : Bool
  pub is_clean : Bool
  pub repo : String
  pub pack : String
  pub planning_revision : String
  pub source_sha256 : String
  pub pending : List String
  pub job : String → Option Job
  pub transition_commands : Option String
  pub final_commands : Option String
  pub now : String

abbrev pub read_or_raise {ℓ} : {A : Type ℓ} → Option A → Result ChainError A
read_or_raise none = err raised
read_or_raise (some x) = ok x

abbrev names_task : String → Job → Bool
names_task task job =
    str_eq job.job_id task && str_eq job.ticket_id task && texts_eq job.task_refs (task ∷ [])

-- The body of the loop over `sorted(deps.items())`.
unfoldable pub create_task : Site → String → List String → Result ChainError Task
create_task site task predecessors = do
  require (distinct predecessors) predecessors_invalid
  job ← read_or_raise (site.job task)
  require (names_task task job) job_mismatch
  ok (record { task_id = task; predecessors = sorted predecessors; job_sha256 = job.job_sha256 })

unfoldable pub create_tasks :
    Site → Dict (List String) → List String → Result ChainError (List Task)
unfolding create_task
create_tasks site dependencies [] = ok []
create_tasks site dependencies (task ∷ names) = do
  predecessors ← read_or_raise (lookup task dependencies)
  first ← create_task site task predecessors
  rest ← create_tasks site dependencies names
  ok (first ∷ rest)

-- The plan with its order, before its digest.
unfoldable pub draft_plan : Site → List Task → (actor reason tier : String) → Result ChainError Plan
draft_plan site tasks actor reason tier = do
  order ← order_tasks tasks
  transition ← read_or_raise site.transition_commands
  final ← read_or_raise site.final_commands
  require (not (is_blank actor) && not (is_blank reason)) actor_required
  ok (record {
    created_at = site.now;
    repo = site.repo;
    pack = site.pack;
    planning_revision = site.planning_revision;
    source_specification_sha256 = site.source_sha256;
    tasks = tasks;
    order = order;
    transition_commands = transition;
    final_commands = final;
    actor = actor;
    reason = reason;
    tier = tier;
    plan_sha256 = "";
  })

-- Every guard of `create`, up to the plan that it writes.
unfoldable pub plan_of :
    Checks
    → Site
    → Option Storage
    → Dict (List String)
    → (actor reason tier : String) → Result ChainError Plan
unfolding create_tasks draft_plan
plan_of c site existing dependencies actor reason tier = do
  require (not site.is_protected) storage_protected
  require (not (is_some existing)) storage_exists
  require site.is_idle raised
  require site.is_clean not_clean
  require (leb 1 (length dependencies) && all (λ task. elem task site.pending) (keys dependencies))
      dependencies_invalid
  tasks ← create_tasks site dependencies (sorted (keys dependencies))
  draft ← draft_plan site tasks actor reason tier
  let plan = record draft { plan_sha256 = c.digest draft }
  _ ← validate_plan c plan
  ok plan

unfoldable pub new_storage : Plan → Storage
new_storage plan = record {
  plan = plan;
  reserved = λ i. none;
  attempt = λ i. none;
  final = none;
  transition_commands = none;
  final_commands = none;
}

unfoldable pub create :
    Checks
    → Site
    → Option Storage
    → Dict (List String)
    → (actor reason tier : String) → Option Storage × Result ChainError Plan
unfolding plan_of new_storage
create c site existing dependencies actor reason tier =
    elim (plan_of c site existing dependencies actor reason tier) [
      | err e ↦ (existing, err e)
      | ok plan ↦ (some (new_storage plan), ok plan)
    ]
