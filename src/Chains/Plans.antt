-- ===== src/Chains/Plans.antt =====
-- task_chains.py: plans, execution bindings and integration receipts, with `validate_plan`,
-- `validate_execution_binding` and `validate_prefix`. JSON values that the code only compares whole
-- (command lists, a task's scope and commit) are their canonical texts.
pub mod Equal
pub mod Prefix
use agent_workflow.Base.{
  ℕ, zero, suc, ◌<◌, String, Bool, true, false, not, ◌&&◌, ◌||◌, Option, none, some, List, [], ◌∷◌,
  ◌++◌, map, length, take, all, elem, leb, ◌==◌, str_eq, opt_eq, if◌then◌else◌, Result, ok, err,
  ◌>>=◌, ◌>>◌, require,
}
use agent_workflow.Chains.{
  ChainError, Task, schema_invalid, plan_hash_mismatch, order_mismatch, task_absent,
  unexpected_predecessor, predecessor_missing, predecessor_hash_mismatch, no_accepted_prefix,
  wrong_baseline, job_mismatch, not_prefix, identity_mismatch, inputs_disagree, revision_mismatch,
  raised, order_tasks,
}
use agent_workflow.Chains.Order.{index}

pub record Plan : Type 0 where
  pub created_at : String
  pub repo : String
  pub pack : String
  pub planning_revision : String
  pub source_specification_sha256 : String
  pub tasks : List Task
  pub order : List String
  pub transition_commands : String
  pub final_commands : String
  pub actor : String
  pub reason : String
  pub tier : String
  pub plan_sha256 : String

-- One sealed accepted run among the inputs of an integration.
pub record Input : Type 0 where
  pub run_id : String
  pub seal_sha256 : String
  pub binding_sha256 : String
  pub completion_sha256 : String
  pub task_id : String
  pub baseline : String
  pub head : String
  pub changed_paths : List String
  pub scope : String
  pub commit : String

-- An integration receipt. `purpose` and `chain_plan` are absent in a receipt of the first schema;
-- `rest` is the canonical text of the members that no code here reads.
pub record Receipt : Type 0 where
  pub schema : String
  pub status : String
  pub decision : String
  pub purpose : Option String
  pub chain_plan : Option Plan
  pub inputs : List Input
  pub head_revision : String
  pub request_run_ids : List String
  pub receipt_sha256 : String
  pub rest : String

pub record Binding : Type 0 where
  pub plan : Plan
  pub task_id : String
  pub run_id : String
  pub worktree : String
  pub execution_revision : String
  pub prior_integration : Option Receipt

-- A native job, as far as its identity is compared.
pub record Job : Type 0 where
  pub schema : String
  pub job_id : String
  pub ticket_id : String
  pub task_refs : List String
  pub job_sha256 : String
  pub source_sha256 : String
  pub source_revision : String

-- The schema validation of contracts.py, the digest of a plan without its own hash, and
-- `_verify_receipt_hash` of task_integration.py.
pub record Checks : Type 0 where
  pub plan_is_valid : Plan → Bool
  pub binding_is_valid : Binding → Bool
  pub digest : Plan → String
  pub receipt_is_intact : Receipt → Bool

-- Python's `==` on lists, optional values and the records above.
unfoldable pub list_eq {ℓ} : {A : Type ℓ} → (A → A → Bool) → List A → List A → Bool
list_eq same [] [] = true
list_eq same (x ∷ xs) (y ∷ ys) = same x y && list_eq same xs ys
list_eq same _ _ = false

unfoldable pub option_eq {ℓ} : {A : Type ℓ} → (A → A → Bool) → Option A → Option A → Bool
option_eq same none none = true
option_eq same (some x) (some y) = same x y
option_eq same _ _ = false

abbrev pub texts_eq : List String → List String → Bool
texts_eq = list_eq str_eq

unfoldable pub task_eq : Task → Task → Bool
task_eq s t =
    str_eq s.task_id t.task_id
    && texts_eq s.predecessors t.predecessors
    && str_eq s.job_sha256 t.job_sha256

unfoldable pub plan_eq : Plan → Plan → Bool
plan_eq p q =
    str_eq p.created_at q.created_at
    && str_eq p.repo q.repo
    && str_eq p.pack q.pack
    && str_eq p.planning_revision q.planning_revision
    && str_eq p.source_specification_sha256 q.source_specification_sha256
    && list_eq task_eq p.tasks q.tasks
    && texts_eq p.order q.order
    && str_eq p.transition_commands q.transition_commands
    && str_eq p.final_commands q.final_commands
    && str_eq p.actor q.actor
    && str_eq p.reason q.reason
    && str_eq p.tier q.tier
    && str_eq p.plan_sha256 q.plan_sha256

unfoldable pub input_eq : Input → Input → Bool
input_eq i j =
    str_eq i.run_id j.run_id
    && str_eq i.seal_sha256 j.seal_sha256
    && str_eq i.binding_sha256 j.binding_sha256
    && str_eq i.completion_sha256 j.completion_sha256
    && str_eq i.task_id j.task_id
    && str_eq i.baseline j.baseline
    && str_eq i.head j.head
    && texts_eq i.changed_paths j.changed_paths
    && str_eq i.scope j.scope
    && str_eq i.commit j.commit

unfoldable pub receipt_eq : Receipt → Receipt → Bool
receipt_eq r s =
    str_eq r.schema s.schema
    && str_eq r.status s.status
    && str_eq r.decision s.decision
    && opt_eq r.purpose s.purpose
    && option_eq plan_eq r.chain_plan s.chain_plan
    && list_eq input_eq r.inputs s.inputs
    && str_eq r.head_revision s.head_revision
    && texts_eq r.request_run_ids s.request_run_ids
    && str_eq r.receipt_sha256 s.receipt_sha256
    && str_eq r.rest s.rest

abbrev is_none {ℓ} : {A : Type ℓ} → Option A → Bool
is_none none = true
is_none (some x) = false

-- What makes a receipt the accepted integration of the tasks before the one at `place`.
unfoldable pub is_accepted_prefix : Plan → List String → Receipt → Bool
is_accepted_prefix plan before prior =
    str_eq prior.schema "agent-workflow/task-integration/v2"
    && str_eq prior.status "success"
    && str_eq prior.decision "accepted"
    && opt_eq prior.purpose (some "transition")
    && option_eq plan_eq prior.chain_plan (some plan)
    && texts_eq (map (λ i. i.task_id) prior.inputs) before

-- The row of the plan for a task.
unfoldable pub row_sha256 : String → List Task → Option String
row_sha256 task [] = none
row_sha256 task (t ∷ tasks) =
    if str_eq t.task_id task then some t.job_sha256 else row_sha256 task tasks

unfoldable pub job_agrees : Binding → Job → String → String → Bool
unfolding row_sha256
job_agrees value job run_id workdir =
    str_eq job.schema "agent-workflow/native-job/v2"
    && str_eq job.job_id value.task_id
    && str_eq job.ticket_id value.task_id
    && texts_eq job.task_refs (value.task_id ∷ [])
    && opt_eq (some job.job_sha256) (row_sha256 value.task_id value.plan.tasks)
    && str_eq job.source_sha256 value.plan.source_specification_sha256
    && str_eq job.source_revision value.plan.planning_revision
    && str_eq value.run_id run_id
    && str_eq value.worktree workdir

unfoldable pub check_job : Binding → Option (Job × (String × String)) → Result ChainError (Unit {0})
unfolding job_agrees
check_job value none = ok tt
check_job value (some (job, (run_id, workdir))) =
    require (job_agrees value job run_id workdir) job_mismatch

-- The loop over `zip(prior["inputs"], inputs[:index], strict=True)`.
unfoldable pub same_inputs : List Input → List Input → Result ChainError (Unit {0})
same_inputs [] [] = ok tt
same_inputs (old ∷ olds) (new ∷ news) =
    require (input_eq old new) inputs_disagree >> same_inputs olds news
same_inputs _ _ = err raised

-- The comparison with the predecessor's integration, where there were inputs before.
unfoldable pub check_prior : List Input → String → Option Receipt → Result ChainError (Unit {0})
unfolding same_inputs
check_prior [] baseline prior = ok tt
check_prior (i ∷ before) baseline none = err raised
check_prior (i ∷ before) baseline (some prior) = do
  same_inputs prior.inputs (i ∷ before)
  require (str_eq prior.head_revision baseline) revision_mismatch

module _ (c : Checks) where
  unfoldable pub validate_plan : Plan → Result ChainError (List String)
  validate_plan plan = do
    require (c.plan_is_valid plan) schema_invalid
    require (str_eq plan.plan_sha256 (c.digest plan)) plan_hash_mismatch
    order ← order_tasks plan.tasks
    require (texts_eq order plan.order) order_mismatch
    ok order

  -- The revision that an execution must start from.
  unfoldable pub expected_revision :
      Plan → List String → ℕ → Option Receipt → Result ChainError String
  unfolding is_accepted_prefix
  expected_revision plan order zero prior = do
    require (is_none prior) unexpected_predecessor
    ok plan.planning_revision
  expected_revision plan order (suc place) none = err predecessor_missing
  expected_revision plan order (suc place) (some prior) = do
    require (c.receipt_is_intact prior) predecessor_hash_mismatch
    require (is_accepted_prefix plan (take (suc place) order) prior) no_accepted_prefix
    ok prior.head_revision

  unfoldable pub validate_execution_binding :
      Binding → Option (Job × (String × String)) → Result ChainError (Unit {0})
  unfolding validate_plan expected_revision check_job
  validate_execution_binding value job = do
    require (c.binding_is_valid value) schema_invalid
    order ← validate_plan value.plan
    require (elem value.task_id order) task_absent
    expected ←
        expected_revision value.plan order (index value.task_id order) value.prior_integration
    require (str_eq value.execution_revision expected) wrong_baseline
    check_job value job

  -- The loop of `validate_prefix`: `before` holds the inputs already passed.
  unfoldable pub check_inputs :
      Plan → List Input → String → List Input → List Binding → Result ChainError (Unit {0})
  unfolding validate_execution_binding check_prior
  check_inputs plan before baseline [] [] = ok tt
  check_inputs plan before baseline (item ∷ inputs) (authority ∷ bindings) = do
    validate_execution_binding authority none
    require
        (plan_eq authority.plan plan
          && str_eq authority.task_id item.task_id
          && str_eq authority.run_id item.run_id
          && str_eq authority.execution_revision baseline
          && str_eq item.baseline baseline)
        identity_mismatch
    check_prior before baseline authority.prior_integration
    check_inputs plan (before ++ item ∷ []) item.head inputs bindings
  check_inputs plan before baseline _ _ = err raised

  unfoldable pub validate_prefix : Plan → List Input → List Binding → Result ChainError (Unit {0})
  unfolding validate_plan check_inputs
  validate_prefix plan inputs bindings = do
    order ← validate_plan plan
    require
        (leb 1 (length inputs)
          && texts_eq (map (λ i. i.task_id) inputs) (take (length inputs) order))
        not_prefix
    check_inputs plan [] plan.planning_revision inputs bindings
