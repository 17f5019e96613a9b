-- ===== src/Chains/State.antt =====
-- task_chains.py: `_state`, which recovers a chain from its storage, and the host operations of
-- `operate`.
pub mod Reaches
use agent_workflow.Base.{
  ℕ, zero, suc, ◌+◌, ◌<◌, String, Bool, true, false, not, ◌&&◌, ◌||◌, Option, none, some, List, [],
  ◌∷◌, ◌++◌, map, length, last, all, distinct, leb, ◌==◌, str_eq, opt_eq, if◌then◌else◌, Result, ok,
  err, ◌>>=◌, ◌>>◌, require,
}
use agent_workflow.Chains.{
  ChainError, raised, integration_unreserved, reservation_after_gap, reservation_mismatch,
  predecessor_unaccepted, evidence_mismatch, transition_invalid, duplicate_run, final_invalid,
}
use agent_workflow.Chains.Plans.{
  Plan, Receipt, Binding, Checks, list_eq, option_eq, texts_eq, plan_eq, receipt_eq, validate_plan,
  validate_execution_binding,
}

-- An attempt's directory: its receipt, and whether `verify_integration` accepts what is archived.
pub record Evidence : Type 0 where
  pub receipt : Receipt
  pub is_verified : Bool

-- The storage of a chain: `task-NNNN.json`, `integration-NNNN`, `final` and the two command files.
pub record Storage : Type 0 where
  pub plan : Plan
  pub reserved : ℕ → Option Binding
  pub attempt : ℕ → Option Evidence
  pub final : Option Evidence
  pub transition_commands : Option String
  pub final_commands : Option String

abbrev pub verify_integration : Evidence → Result ChainError Receipt
verify_integration e = require e.is_verified raised >> ok e.receipt

-- What `_state` has recovered so far.
pub record Recovered : Type 0 where
  pub reservations : List Binding
  pub prefix : List Receipt
  pub gap : Bool

abbrev pub run_ids : List Binding → List String
run_ids reservations = map (λ b. b.run_id) reservations

abbrev pub is_some {ℓ} : {A : Type ℓ} → Option A → Bool
is_some none = false
is_some (some x) = true

-- A receipt of a passed transition over the runs reserved so far.
unfoldable pub is_transition : Plan → List Binding → Receipt → Bool
is_transition plan reservations receipt =
    str_eq receipt.status "success"
    && opt_eq receipt.purpose (some "transition")
    && option_eq plan_eq receipt.chain_plan (some plan)
    && texts_eq receipt.request_run_ids (run_ids reservations)

unfoldable pub is_final : Plan → List Binding → Receipt → Bool
is_final plan reservations receipt =
    str_eq receipt.status "success"
    && opt_eq receipt.purpose (some "final")
    && option_eq plan_eq receipt.chain_plan (some plan)
    && texts_eq receipt.request_run_ids (run_ids reservations)

-- The integration of a place that is reserved.
unfoldable pub recover_attempt : Plan → Recovered → Option Evidence → Result ChainError Recovered
unfolding is_transition
recover_attempt plan s none = ok s
recover_attempt plan s (some evidence) = do
  receipt ← verify_integration evidence
  require (is_transition plan s.reservations receipt) transition_invalid
  ok (record s { prefix = s.prefix ++ receipt ∷ [] })

unfoldable pub recover_final :
    Plan → List String → Recovered → Option Evidence → Result ChainError (Option Receipt)
unfolding is_final
recover_final plan order s none = ok none
recover_final plan order s (some evidence) = do
  receipt ← verify_integration evidence
  require (length s.prefix == length order && is_final plan s.reservations receipt) final_invalid
  ok (some receipt)

module _ (c : Checks) where
  -- One turn of the loop of `_state`.
  unfoldable pub recover_task :
      Plan → String → ℕ → Option Binding → Option Evidence → Recovered → Result ChainError Recovered
  unfolding recover_attempt
  recover_task plan task place none attempt s = do
    require (not (is_some attempt)) integration_unreserved
    ok (record s { gap = true })
  recover_task plan task place (some reservation) attempt s = do
    require (not s.gap) reservation_after_gap
    validate_execution_binding c reservation none
    require (plan_eq reservation.plan plan && str_eq reservation.task_id task) reservation_mismatch
    require (place == 0 || length s.prefix == place) predecessor_unaccepted
    require (option_eq receipt_eq reservation.prior_integration (last s.prefix)) evidence_mismatch
    recover_attempt plan (record s { reservations = s.reservations ++ reservation ∷ [] }) attempt

  unfoldable pub recover_tasks : Storage → ℕ → List String → Recovered → Result ChainError Recovered
  unfolding recover_task
  recover_tasks root place [] s = ok s
  recover_tasks root place (task ∷ tasks) s = do
    t ← recover_task root.plan task place (root.reserved place) (root.attempt place) s
    recover_tasks root (suc place) tasks t

  unfoldable pub recover : Storage → Result ChainError (Recovered × Option Receipt)
  unfolding validate_plan recover_tasks recover_final
  recover root = do
    order ← validate_plan c root.plan
    s ← recover_tasks root 0 order (record { reservations = []; prefix = []; gap = false })
    require (distinct (run_ids s.reservations)) duplicate_run
    final ← recover_final root.plan order s root.final
    ok (s, final)
