-- ===== src/Chains/Plans/Equal.antt =====
-- Proofs about Python's `==` on plans and receipts.
use agent_workflow.Base.{
  ◌≡◌, refl, Bool, true, Option, none, some, List, [], ◌∷◌, str_eq, str_eq_refl, opt_eq_refl,
}
use agent_workflow.Chains.{Task}
use agent_workflow.Chains.Plans.{
  Plan, Input, Receipt, list_eq, option_eq, task_eq, plan_eq, input_eq, receipt_eq,
}

pub list_eq_refl {ℓ} :
    {A : Type ℓ} (same : A → A → Bool)
    → ((x : A) → same x x ≡ true)
    → (xs : List A) → list_eq same xs xs ≡ true
unfolding list_eq
list_eq_refl same r [] = refl
list_eq_refl same r (x ∷ xs) = rw (r x, list_eq_refl same r xs) refl

pub option_eq_refl {ℓ} :
    {A : Type ℓ} (same : A → A → Bool)
    → ((x : A) → same x x ≡ true)
    → (o : Option A) → option_eq same o o ≡ true
unfolding option_eq
option_eq_refl same r none = refl
option_eq_refl same r (some x) = r x

task_eq_refl : (t : Task) → task_eq t t ≡ true
unfolding task_eq
task_eq_refl t = simp (str_eq_refl, list_eq_refl str_eq str_eq_refl t.predecessors) refl

pub plan_eq_refl : (p : Plan) → plan_eq p p ≡ true
unfolding plan_eq
plan_eq_refl p =
    simp
      (
        str_eq_refl,
        list_eq_refl task_eq task_eq_refl p.tasks,
        list_eq_refl str_eq str_eq_refl p.order,
      )
      refl

input_eq_refl : (i : Input) → input_eq i i ≡ true
unfolding input_eq
input_eq_refl i = simp (str_eq_refl, list_eq_refl str_eq str_eq_refl i.changed_paths) refl

pub receipt_eq_refl : (r : Receipt) → receipt_eq r r ≡ true
unfolding receipt_eq
receipt_eq_refl r =
    simp
      (
        str_eq_refl,
        opt_eq_refl r.purpose,
        option_eq_refl plan_eq plan_eq_refl r.chain_plan,
        list_eq_refl input_eq input_eq_refl r.inputs,
        list_eq_refl str_eq str_eq_refl r.request_run_ids,
      )
      refl
