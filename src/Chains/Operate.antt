-- ===== src/Chains/Operate.antt =====
-- task_chains.py: `operate` on a chain's storage: status, prepare, advance and accept. What is
-- written before an error is raised stays written.
pub mod Slots
pub mod Recovers
pub mod Prepared
use agent_workflow.Base.{
  ℕ, zero, suc, ◌+◌, String, Bool, true, false, not, ◌&&◌, ◌||◌, Option, none, some, List, [], ◌∷◌,
  ◌++◌, length, last, all, leb, ◌==◌, str_eq, if◌then◌else◌, Result, ok, err, ◌>>=◌, ◌>>◌, require,
}
use agent_workflow.Workflow.Ids.{validate_id}
use agent_workflow.Chains.{
  ChainError, raised, already_final, all_accepted, already_reserved, run_exists, worker_required,
  not_clean, worktree_exists, none_unintegrated, not_all_accepted, commands_changed, invalid_run_id,
  launch_failed, integration_rejected,
}
use agent_workflow.Chains.Plans.{Plan, Receipt, Binding, Job, Checks, validate_execution_binding}
use agent_workflow.Chains.State.{Evidence, Storage, Recovered, run_ids, is_some, recover}

-- What `operate` asks of the host: the run directories, `_accepted_run`, the state of the
-- repository, the native jobs, the launch of a prepared run, and what `integrate` leaves in its
-- output directory (`none` where it raises before it creates one).
pub record Host : Type 0 where
  pub has_run : String → Bool
  pub is_accepted : String → Bool
  pub is_idle : Bool
  pub is_clean : Bool
  pub worktree : ℕ → String
  pub has_worktree : ℕ → Bool
  pub job : String → Option Job
  pub can_launch : Binding → Bool
  pub integrate : String → Plan → List String → Option Evidence

pub data Action : Type 0 where
  status : Action
  prepare : String → List String → Action
  advance : Action
  accept : Action

pub data Answer : Type 0 where
  reported : String → List String → List Binding → ℕ → Bool → String → Answer
  launched : Binding → Answer
  integrated : Receipt → Answer

-- The head of the accepted prefix, or the planning revision where nothing is accepted.
unfoldable pub revision_of : Plan → Option Receipt → String
revision_of plan none = plan.planning_revision
revision_of plan (some prior) = prior.head_revision

-- `order[place]`
abbrev pub task_at : ℕ → List String → Option String
task_at place [] = none
task_at zero (task ∷ tasks) = some task
task_at (suc place) (task ∷ tasks) = task_at place tasks

abbrev pub or_raise {ℓ} : {A : Type ℓ} → Option A → Result ChainError A
or_raise none = err raised
or_raise (some x) = ok x

abbrev has_worker : List String → Bool
has_worker worker = leb 1 (length worker)

-- `root / f"task-{index:04d}.json"` is written once.
unfoldable pub reserve : ℕ → Binding → Storage → Storage
reserve place binding root = record root {
  reserved = λ i. if i == place then some binding else root.reserved i;
}

unfoldable pub record_attempt : ℕ → Evidence → Storage → Storage
record_attempt place evidence root = record root {
  attempt = λ i. if i == place then some evidence else root.attempt i;
}

unfoldable pub answer_of : Evidence → Result ChainError Answer
answer_of evidence =
    if str_eq evidence.receipt.status "success"
    then ok (integrated evidence.receipt)
    else err integration_rejected

-- `_accepted_run` of every reserved run, and the command file, before an integration.
unfoldable pub check_commands :
    Host → Recovered → Option String → String → Result ChainError (Unit {0})
check_commands host s none commands =
    require (all (λ b. host.is_accepted b.run_id) s.reservations) raised
check_commands host s (some written) commands = do
  require (all (λ b. host.is_accepted b.run_id) s.reservations) raised
  require (str_eq written commands) commands_changed

-- The report of `status`.
unfoldable pub report : Storage → Recovered → Option Receipt → Answer
unfolding revision_of
report root s final =
    reported root.plan.plan_sha256 root.plan.order s.reservations (length s.prefix) (is_some final)
      (revision_of root.plan (last s.prefix))

-- The binding of the next task, based on what is accepted.
unfoldable pub binding_at : Host → Storage → Recovered → String → String → Binding
unfolding revision_of
binding_at host root s run_id task = record {
  plan = root.plan;
  task_id = task;
  run_id = run_id;
  worktree = host.worktree (length s.prefix);
  execution_revision = revision_of root.plan (last s.prefix);
  prior_integration = last s.prefix;
}

module _ (c : Checks) (host : Host) where
  -- The guards of `prepare`, up to the binding that it reserves.
  unfoldable pub binding_of : Storage → Recovered → String → List String → Result ChainError Binding
  unfolding binding_at
  binding_of root s run_id worker = do
    require (not (leb (length root.plan.order) (length s.prefix))) all_accepted
    require (length s.reservations == length s.prefix) already_reserved
    require (validate_id run_id) invalid_run_id
    require (not (host.has_run run_id)) run_exists
    require (has_worker worker) worker_required
    task ← or_raise (task_at (length s.prefix) root.plan.order)
    require host.is_idle raised
    require host.is_clean not_clean
    require (all (λ b. host.is_accepted b.run_id) s.reservations) raised
    require (not (host.has_worktree (length s.prefix))) worktree_exists
    let binding = binding_at host root s run_id task
    job ← or_raise (host.job task)
    validate_execution_binding c binding (some (job, (run_id, host.worktree (length s.prefix))))
    require (not (is_some (root.reserved (length s.prefix)))) raised
    ok binding

  -- The reservation is written before the worktree is added and the run is prepared.
  unfoldable pub prepare_run :
      Storage → Recovered → String → List String → Storage × Result ChainError Answer
  unfolding binding_of reserve
  prepare_run root s run_id worker = elim (binding_of root s run_id worker) [
    | err e ↦ (root, err e)
    | ok binding ↦ (
      reserve (length s.prefix) binding root,
      if host.can_launch binding then ok (launched binding) else err launch_failed,
    )
  ]

  unfoldable pub advance_chain : Storage → Recovered → Storage × Result ChainError Answer
  unfolding check_commands record_attempt answer_of
  advance_chain root s =
      elim (require (length s.reservations == suc (length s.prefix)) none_unintegrated
        >> check_commands host s root.transition_commands root.plan.transition_commands) [
          | err e ↦ (root, err e)
          | ok _ ↦
              let written = record root {
                transition_commands = some root.plan.transition_commands;
              } in
              elim (host.integrate "transition" root.plan (run_ids s.reservations)) [
                | none ↦ (written, err raised)
                | some evidence ↦
                    (record_attempt (length s.prefix) evidence written, answer_of evidence)
              ]
        ]

  unfoldable pub accept_chain : Storage → Recovered → Storage × Result ChainError Answer
  unfolding check_commands answer_of
  accept_chain root s =
      elim (require (length s.prefix == length root.plan.order) not_all_accepted
        >> check_commands host s root.final_commands root.plan.final_commands) [
          | err e ↦ (root, err e)
          | ok _ ↦
              let written = record root { final_commands = some root.plan.final_commands } in
              elim (host.integrate "final" root.plan (run_ids s.reservations)) [
                | none ↦ (written, err raised)
                | some evidence ↦ (record written { final = some evidence }, answer_of evidence)
              ]
        ]

  unfoldable pub operate_on :
      Storage → Recovered → Option Receipt → Action → Storage × Result ChainError Answer
  unfolding report prepare_run advance_chain accept_chain
  operate_on root s final status = (root, ok (report root s final))
  operate_on root s (some receipt) _ = (root, err already_final)
  operate_on root s none (prepare run_id worker) = prepare_run root s run_id worker
  operate_on root s none advance = advance_chain root s
  operate_on root s none accept = accept_chain root s

  unfoldable pub operate : Storage → Action → Storage × Result ChainError Answer
  unfolding operate_on
  operate root action = elim (recover c root) [
    | err e ↦ (root, err e)
    | ok (s, final) ↦ operate_on root s final action
  ]
