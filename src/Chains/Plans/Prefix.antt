-- ===== src/Chains/Plans/Prefix.antt =====
-- Proofs about `validate_prefix` of task_chains.py.
use agent_workflow.Base.{
  String, ◌≡◌, sym, ap, ◌∙◌, ◌&&◌, none, List, [], ◌∷◌, ◌++◌, map, length, take, leb, str_eq,
  str_eq_iff, ok, with_ok, with_require, arith,
}
use agent_workflow.Chains.{not_prefix, identity_mismatch}
use agent_workflow.Chains.Plans.{
  Plan, Input, Binding, Checks, texts_eq, plan_eq, validate_plan, validate_execution_binding,
  check_prior, check_inputs, validate_prefix,
}
use agent_workflow.Chains.State.Reaches.{texts_eq→eq, validate_plan-order}

-- Each input starts from the head of the one before it, the first from `baseline`.
abbrev pub IsLinear : String → List Input → Type 0
IsLinear baseline [] = Unit
IsLinear baseline (i ∷ inputs) = (i.baseline ≡ baseline) × IsLinear i.head inputs

-- Each input has the execution binding of its own task and run, based where the input is.
abbrev pub IsBound : List Input → List Binding → Type 0
IsBound [] [] = Unit
IsBound (i ∷ inputs) (b ∷ bindings) =
    (b.task_id ≡ i.task_id)
    × (b.run_id ≡ i.run_id)
    × (b.execution_revision ≡ i.baseline)
    × IsBound inputs bindings
IsBound _ _ = ⊥

check_inputs-IsLinear :
    (c : Checks) (plan : Plan) (before : List Input) (baseline : String) (inputs : List Input)
    (bindings : List Binding) (u : Unit {0})
    → check_inputs c plan before baseline inputs bindings ≡ ok u
    → IsLinear baseline inputs × IsBound inputs bindings
unfolding check_inputs
check_inputs-IsLinear c plan before baseline [] [] u h = (tt, tt)
check_inputs-IsLinear c plan before baseline [] (b ∷ bindings) u h = absurd (cc)
check_inputs-IsLinear c plan before baseline (i ∷ inputs) [] u h = absurd (cc)
check_inputs-IsLinear c plan before baseline (i ∷ inputs) (b ∷ bindings) u h =
    with_ok (validate_execution_binding c b none) _ h λ _ _ h₁.
      with_require
        (plan_eq b.plan plan
          && str_eq b.task_id i.task_id
          && str_eq b.run_id i.run_id
          && str_eq b.execution_revision baseline
          && str_eq i.baseline baseline)
        identity_mismatch _ h₁
        λ same h₂. with_ok (check_prior before baseline b.prior_integration) _ h₂ λ _ _ h₃.
          let (linear, bound) =
            check_inputs-IsLinear c plan (before ++ i ∷ []) i.head inputs bindings u h₃ in
          let started : i.baseline ≡ baseline = (str_eq_iff i.baseline baseline).0 (ground arith) in
          (
            (started, linear),
            (
              (str_eq_iff b.task_id i.task_id).0 (ground arith),
              (str_eq_iff b.run_id i.run_id).0 (ground arith),
              (str_eq_iff b.execution_revision baseline).0 (ground arith) ∙ sym started,
              bound,
            ),
          )

-- Inputs that `validate_prefix` accepts are the first tasks of the plan's order, one line of history:
-- the first starts from the planning revision, each later one from the head of the one before it, and
-- each has a binding of its own task and run that is based there.
pub validate_prefix-IsLinear :
    (c : Checks) (plan : Plan) (inputs : List Input) (bindings : List Binding) (u : Unit {0})
    → validate_prefix c plan inputs bindings ≡ ok u
    → IsLinear plan.planning_revision inputs
      × IsBound inputs bindings
      × (map (λ i. i.task_id) inputs ≡ take (length inputs) plan.order)
unfolding validate_prefix
validate_prefix-IsLinear c plan inputs bindings u h =
    with_ok (validate_plan c plan) _ h λ order valid h₁.
      with_require
        (leb 1 (length inputs)
          && texts_eq (map (λ i. i.task_id) inputs) (take (length inputs) order))
        not_prefix _ h₁
        λ first h₂.
          let (linear, bound) =
            check_inputs-IsLinear c plan [] plan.planning_revision inputs bindings u h₂ in
          (
            linear,
            bound,
            texts_eq→eq (map (λ i. i.task_id) inputs) (take (length inputs) order) (ground arith)
                ∙ ap (take (length inputs)) (validate_plan-order c plan order valid).0,
          )
