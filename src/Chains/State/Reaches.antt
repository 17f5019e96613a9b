-- ===== src/Chains/State/Reaches.antt =====
-- The protocol of a task chain as a relation, and proofs about `_state` of task_chains.py.
use agent_workflow.Base.{
  ℕ, zero, suc, ◌+◌, ◌≤◌, String, ◌≡◌, ◌⊎◌, refl, sym, ap, ◌∙◌, subst, Bool, true, false, not, ◌&&◌,
  ◌||◌, Option, none, some, List, [], ◌∷◌, ◌++◌, length, length-append, take, elem, last, distinct,
  ◌==◌, str_eq, str_eq_iff, inl, inr, ok, ok-injective, with_ok, with_require, arith,
}
use agent_workflow.Chains.{
  schema_invalid, task_absent, plan_hash_mismatch, order_mismatch, order_tasks,
  predecessor_hash_mismatch, no_accepted_prefix, wrong_baseline, integration_unreserved,
  reservation_after_gap, reservation_mismatch, predecessor_unaccepted, evidence_mismatch,
  transition_invalid, duplicate_run, final_invalid,
}
use agent_workflow.Chains.Order.{index}
use agent_workflow.Chains.Plans.{
  Plan, Receipt, Binding, Job, Checks, list_eq, option_eq, texts_eq, plan_eq, receipt_eq,
  is_accepted_prefix, validate_plan, expected_revision, validate_execution_binding,
}
use agent_workflow.Chains.State.{
  Evidence, Storage, Recovered, run_ids, is_some, is_transition, is_final, verify_integration,
  recover_attempt, recover_task, recover_tasks, recover_final, recover,
}
use agent_workflow.Chains.Operate.{revision_of}

pub texts_eq→eq : (xs ys : List String) → texts_eq xs ys ≡ true → xs ≡ ys
unfolding list_eq
texts_eq→eq [] [] h = refl
texts_eq→eq (x ∷ xs) (y ∷ ys) h =
    let e : x ≡ y = (str_eq_iff x y).0 (ground arith) in
    let es : xs ≡ ys = texts_eq→eq xs ys (ground arith) in cc
texts_eq→eq [] (y ∷ ys) h = absurd (cc)
texts_eq→eq (x ∷ xs) [] h = absurd (cc)

-- A receipt that records the passed transition over the reserved runs.
abbrev pub IsPassed : List Binding → Receipt → Type 0
IsPassed bindings receipt =
    (receipt.status ≡ "success") × (receipt.request_run_ids ≡ run_ids bindings)

-- The states of a chain. A task is reserved only where all before it are accepted, and runs on the
-- revision that these have reached; only a reserved task is integrated.
pub data Reaches (plan : Plan) : List Binding → List Receipt → Type 0 where
  planned : Reaches plan [] []
  reserved :
      (bindings : List Binding) (receipts : List Receipt) (b : Binding)
      → Reaches plan bindings receipts
      → length bindings ≡ length receipts
      → b.execution_revision ≡ revision_of plan (last receipts)
      → Reaches plan (bindings ++ b ∷ []) receipts
  accepted :
      (bindings : List Binding) (receipts : List Receipt) (r : Receipt)
      → Reaches plan bindings receipts
      → length bindings ≡ suc (length receipts)
      → IsPassed bindings r
      → Reaches plan bindings (receipts ++ r ∷ [])

-- At most one reserved task is not integrated yet.
pub Reaches-length :
    (plan : Plan) (bindings : List Binding) (receipts : List Receipt)
    → Reaches plan bindings receipts
    → (length receipts ≤ length bindings) × (length bindings ≤ suc (length receipts))
Reaches-length plan bindings receipts planned = (omega arith, omega arith)
Reaches-length plan bindings receipts (reserved bs rs b before even _) =
    let (low, high) = Reaches-length plan bs rs before in
    (
      omega (arith, low, high, even, length-append bs (b ∷ [])),
      omega (arith, low, high, even, length-append bs (b ∷ [])),
    )
Reaches-length plan bindings receipts (accepted bs rs r before odd _) =
    (omega (arith, odd, length-append rs (r ∷ [])), omega (arith, odd, length-append rs (r ∷ [])))

expected_revision-revision_of :
    (c : Checks) (plan : Plan) (order : List String) (place : ℕ) (prior : Option Receipt)
    (revision : String)
    → expected_revision c plan order place prior ≡ ok revision
    → revision ≡ revision_of plan prior
unfolding expected_revision revision_of
expected_revision-revision_of c plan order zero none revision h = sym (ok-injective h)
expected_revision-revision_of c plan order zero (some r) revision h = absurd (cc)
expected_revision-revision_of c plan order (suc place) none revision h = absurd (cc)
expected_revision-revision_of c plan order (suc place) (some r) revision h =
    with_require (c.receipt_is_intact r) predecessor_hash_mismatch _ h λ _ h₁.
      with_require (is_accepted_prefix plan (take (suc place) order) r) no_accepted_prefix _ h₁
        λ _ h₂. sym (ok-injective h₂)

-- A valid execution binding starts from the revision of its predecessor's integration.
pub validate_execution_binding-revision_of :
    (c : Checks) (b : Binding) (job : Option (Job × (String × String))) {u : Unit {0}}
    → validate_execution_binding c b job ≡ ok u
    → b.execution_revision ≡ revision_of b.plan b.prior_integration
unfolding validate_execution_binding
validate_execution_binding-revision_of c b job h =
    with_require (c.binding_is_valid b) schema_invalid _ h λ _ h₁.
      with_ok (validate_plan c b.plan) _ h₁ λ order _ h₂.
        with_require (elem b.task_id order) task_absent _ h₂ λ _ h₃.
          with_ok (expected_revision c b.plan order (index b.task_id order) b.prior_integration) _
            h₃
            λ expected e h₄.
              with_require (str_eq b.execution_revision expected) wrong_baseline _ h₄ λ same _.
                (str_eq_iff b.execution_revision expected).0 same
                ∙ expected_revision-revision_of c b.plan order (index b.task_id order)
                    b.prior_integration expected e

-- Equal plans and equal receipts name the same revision.
option_eq-revision_of :
    (p q : Plan) (a b : Option Receipt)
    → plan_eq p q ≡ true
    → option_eq receipt_eq a b ≡ true
    → revision_of p a ≡ revision_of q b
unfolding plan_eq receipt_eq option_eq revision_of
option_eq-revision_of p q none none h k =
    (str_eq_iff p.planning_revision q.planning_revision).0 (ground arith)
option_eq-revision_of p q none (some s) h k = absurd (cc)
option_eq-revision_of p q (some r) none h k = absurd (cc)
option_eq-revision_of p q (some r) (some s) h k =
    (str_eq_iff r.head_revision s.head_revision).0 (ground arith)

is_transition-IsPassed :
    (plan : Plan) (bindings : List Binding) (r : Receipt)
    → is_transition plan bindings r ≡ true
    → IsPassed bindings r
unfolding is_transition
is_transition-IsPassed plan bindings r h = (
  (str_eq_iff r.status "success").0 (ground arith),
  texts_eq→eq r.request_run_ids (run_ids bindings) (ground arith),
)

-- What the loop knows before the task at `place`.
abbrev IsRecovered : Plan → ℕ → Recovered → Type 0
IsRecovered plan place s =
    Reaches plan s.reservations s.prefix × ((s.gap ≡ true) ⊎ (length s.reservations ≡ place))

recover_attempt-IsRecovered :
    (plan : Plan) (place : ℕ) (s t : Recovered) (attempt : Option Evidence)
    → Reaches plan s.reservations s.prefix
    → length s.reservations ≡ suc place
    → length s.prefix ≡ place
    → recover_attempt plan s attempt ≡ ok t
    → IsRecovered plan (suc place) t
unfolding recover_attempt
recover_attempt-IsRecovered plan place s t none reach count passed h =
    subst (IsRecovered plan (suc place)) (ok-injective h) (reach, inr count)
recover_attempt-IsRecovered plan place s t (some e) reach count passed h =
    with_ok (verify_integration e) _ h λ receipt _ h₁.
      with_require (is_transition plan s.reservations receipt) transition_invalid _ h₁ λ fits h₂.
        subst (IsRecovered plan (suc place)) (ok-injective h₂) (
          accepted s.reservations s.prefix receipt reach (omega (arith, count, passed))
              (is_transition-IsPassed plan s.reservations receipt fits),
          inr count,
        )

no_gap_count {ℓ} : {A : Type ℓ} (gap : Bool) → not gap ≡ true → (gap ≡ true) ⊎ A → A
no_gap_count true h here = absurd (cc)
no_gap_count false h (inl e) = absurd (cc)
no_gap_count false h (inr a) = a

place_passed :
    (place passed count : ℕ)
    → (place == 0 || passed == place) ≡ true
    → count ≡ place
    → passed ≤ count
    → passed ≡ place
place_passed place passed count h e low = ground arith

module _ (c : Checks) (plan : Plan) where
  recover_task-IsRecovered :
      (task : String) (place : ℕ) (reservation : Option Binding) (attempt : Option Evidence)
      (s t : Recovered)
      → IsRecovered plan place s
      → recover_task c plan task place reservation attempt s ≡ ok t
      → IsRecovered plan (suc place) t
  unfolding recover_task
  recover_task-IsRecovered task place none attempt s t (reach, _) h =
      with_require (not (is_some attempt)) integration_unreserved _ h
        λ _ h₁. subst (IsRecovered plan (suc place)) (ok-injective h₁) (reach, inl refl)
  recover_task-IsRecovered task place (some b) attempt s t (reach, here) h =
      with_require (not s.gap) reservation_after_gap _ h λ no_gap h₁.
        with_ok (validate_execution_binding c b none) _ h₁ λ _ valid h₂.
          with_require (plan_eq b.plan plan && str_eq b.task_id task) reservation_mismatch _ h₂
            λ same h₃.
              with_require (place == 0 || length s.prefix == place) predecessor_unaccepted _ h₃
                λ ordered h₄.
                  with_require (option_eq receipt_eq b.prior_integration (last s.prefix))
                    evidence_mismatch _ h₄
                    λ evidence h₅.
                      let count : length s.reservations ≡ place = no_gap_count s.gap no_gap here in
                      let low = (Reaches-length plan s.reservations s.prefix reach).0 in
                      let passed : length s.prefix ≡ place =
                        place_passed place (length s.prefix) (length s.reservations) ordered count
                          low in
                      recover_attempt-IsRecovered plan place
                        (record s { reservations = s.reservations ++ b ∷ [] }) t attempt
                        (reserved s.reservations s.prefix b reach (count ∙ sym passed) (
                          validate_execution_binding-revision_of c b none valid
                          ∙ option_eq-revision_of b.plan plan b.prior_integration (last s.prefix)
                              (ground arith) evidence))
                        (length-append s.reservations (b ∷ []) ∙ omega (arith, count)) passed h₅

recover_tasks-IsRecovered :
    (c : Checks) (root : Storage) (place : ℕ) (tasks : List String) (s t : Recovered)
    → IsRecovered root.plan place s
    → recover_tasks c root place tasks s ≡ ok t
    → IsRecovered root.plan (place + length tasks) t
unfolding recover_tasks
recover_tasks-IsRecovered c root place [] s t inv h =
    subst (IsRecovered root.plan (place + 0)) (ok-injective h)
      (subst (λ n. IsRecovered root.plan n s) (omega arith) inv)
recover_tasks-IsRecovered c root place (task ∷ tasks) s t inv h =
    with_ok (recover_task c root.plan task place (root.reserved place) (root.attempt place) s) _ h
      λ u first rest.
        subst (λ n. IsRecovered root.plan n t) (omega arith)
          (recover_tasks-IsRecovered c root (suc place) tasks u t
            (recover_task-IsRecovered c root.plan task place (root.reserved place)
              (root.attempt place) s u inv first)
            rest)

-- A plan that is valid is in the order that `order_tasks` gives.
pub validate_plan-order :
    (c : Checks) (plan : Plan) (order : List String)
    → validate_plan c plan ≡ ok order
    → (order ≡ plan.order) × (order_tasks plan.tasks ≡ ok order)
unfolding validate_plan
validate_plan-order c plan order h = with_require (c.plan_is_valid plan) schema_invalid _ h λ _ h₁.
    with_require (str_eq plan.plan_sha256 (c.digest plan)) plan_hash_mismatch _ h₁ λ _ h₂.
      with_ok (order_tasks plan.tasks) _ h₂ λ found ordered h₃.
        with_require (texts_eq found plan.order) order_mismatch _ h₃ λ same h₄.
          let e : found ≡ order = ok-injective h₄ in
          (sym e ∙ texts_eq→eq found plan.order same, ordered ∙ ap (λ z. ok z) e)

recover_final-none :
    (plan : Plan) (order : List String) (t : Recovered) (e : Option Evidence)
    (found : Option Receipt)
    → recover_final plan order t e ≡ ok found
    → (found ≡ none) ⊎ (length t.prefix ≡ length order)
unfolding recover_final
recover_final-none plan order t none found h = inl (sym (ok-injective h))
recover_final-none plan order t (some e) found h =
    with_ok (verify_integration e) _ h λ receipt _ h₁.
      with_require (length t.prefix == length order && is_final plan t.reservations receipt)
        final_invalid _ h₁ λ fits _. inr (ground arith)

-- A storage that `_state` accepts holds a state of the chain: reservations and accepted
-- integrations in turn, each execution based on the integration before it. No run is reserved
-- twice, and a final acceptance stands only where every task of the plan is accepted.
pub recover-Reaches :
    (c : Checks) (root : Storage) (s : Recovered) (final : Option Receipt)
    → recover c root ≡ ok (s, final)
    → Reaches root.plan s.reservations s.prefix
      × (distinct (run_ids s.reservations) ≡ true)
      × ((final ≡ none) ⊎ (length s.prefix ≡ length root.plan.order))
unfolding recover
recover-Reaches c root s final h = with_ok (validate_plan c root.plan) _ h λ order valid h₁.
    with_ok (recover_tasks c root 0 order (record { reservations = []; prefix = []; gap = false }))
      _ h₁
      λ t recovered h₂.
        with_require (distinct (run_ids t.reservations)) duplicate_run _ h₂ λ apart h₃.
          with_ok (recover_final root.plan order t root.final) _ h₃ λ found judged h₄.
            let pair : (t, found) ≡ (s, final) = ok-injective h₄ in
            let (reach, _) =
              recover_tasks-IsRecovered c root 0 order _ t (planned, inr refl) recovered in
            subst (IsSound root.plan) pair (
              reach,
              apart,
              subst (λ z. (found ≡ none) ⊎ (length t.prefix ≡ length z))
                  (validate_plan-order c root.plan order valid).0
                  (recover_final-none root.plan order t root.final found judged),
            )
  where
    IsSound : Plan → Recovered × Option Receipt → Type 0
    IsSound plan p =
        Reaches plan p.0.reservations p.0.prefix
        × (distinct (run_ids p.0.reservations) ≡ true)
        × ((p.1 ≡ none) ⊎ (length p.0.prefix ≡ length plan.order))
