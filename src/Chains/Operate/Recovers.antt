-- ===== src/Chains/Operate/Recovers.antt =====
-- Proofs about `_state` on a storage to which `prepare` has added a reservation.
use agent_workflow.Base.{
  ℕ, suc, String, ◌≡◌, ◌≢◌, refl, sym, ap, ◌∙◌, subst, true, false, not, ◌||◌, Option, none, some,
  List, [], ◌∷◌, ◌++◌, length, length-append, last, all, elem, leb, ◌==◌, str_eq, str_eq_refl,
  Bool-cases, Option-cases, inl, inr, ok, ok-injective, with_ok, with_require, arith,
}
use agent_workflow.Workflow.Ids.{validate_id}
use agent_workflow.Chains.{
  schema_invalid, task_absent, wrong_baseline, all_accepted, already_reserved, invalid_run_id,
  run_exists, worker_required, raised, not_clean, worktree_exists,
}
use agent_workflow.Chains.Order.{index}
use agent_workflow.Chains.Plans.{
  Plan, Binding, Job, Checks, receipt_eq, validate_plan, expected_revision, check_job,
  validate_execution_binding,
}
use agent_workflow.Chains.Plans.Equal.{plan_eq_refl, receipt_eq_refl, option_eq_refl}
use agent_workflow.Chains.State.{
  Evidence, Storage, Recovered, is_some, recover_attempt, recover_task, recover_tasks,
}
use agent_workflow.Chains.Operate.{
  Host, task_at, or_raise, has_worker, reserve, binding_at, binding_of,
}
use agent_workflow.Chains.Operate.Slots.{
  AgreesFrom, recover_task-none, recover_task-some, recover_tasks-Grows, recover_tasks-idle,
  recover_tasks-cons, recover_tasks-Comes,
}

-- A binding that is valid for a job is valid in itself.
validate_execution_binding-alone :
    (c : Checks) (b : Binding) (job : Option (Job × (String × String))) (u : Unit {0})
    → validate_execution_binding c b job ≡ ok u
    → validate_execution_binding c b none ≡ ok tt
unfolding validate_execution_binding check_job
validate_execution_binding-alone c b job u h =
    with_require (c.binding_is_valid b) schema_invalid _ h λ valid h₁.
      with_ok (validate_plan c b.plan) _ h₁ λ order planned h₂.
        with_require (elem b.task_id order) task_absent _ h₂ λ there h₃.
          with_ok (expected_revision c b.plan order (index b.task_id order) b.prior_integration) _
            h₃
            λ expected e h₄.
              with_require (str_eq b.execution_revision expected) wrong_baseline _ h₄
                λ same _. rw (valid, planned, there, e, same) refl

recover_task-reserve :
    (c : Checks) (plan : Plan) (task : String) (place : ℕ) (b : Binding) (attempt : Option Evidence)
    (s : Recovered)
    → s.gap ≡ false
    → validate_execution_binding c b none ≡ ok tt
    → b.plan ≡ plan
    → b.task_id ≡ task
    → length s.prefix ≡ place
    → b.prior_integration ≡ last s.prefix
    → recover_task c plan task place (some b) attempt s
      ≡ recover_attempt plan (record s { reservations = s.reservations ++ b ∷ [] }) attempt
unfolding recover_task
recover_task-reserve c plan task place b attempt s no_gap valid same same_task passed prior =
    let ordered : (place == 0 || length s.prefix == place) ≡ true = ground arith in
    rw
      (
        no_gap,
        valid,
        same,
        same_task,
        prior,
        plan_eq_refl plan,
        str_eq_refl task,
        ordered,
        option_eq_refl receipt_eq receipt_eq_refl (last s.prefix),
      )
      refl

-- Where the loop at `place` adds no reservation, the place is free, and so is all behind it.
abbrev Rests : Checks → Storage → ℕ → List String → Recovered → Recovered → Type 0
Rests c root place tasks u t =
    (root.attempt place ≡ none)
    × (t.reservations ≡ u.reservations)
    × (t.prefix ≡ u.prefix)
    × ((changed : Storage)
        → changed.plan ≡ root.plan
        → AgreesFrom (suc place) root changed
        → (s' : Recovered)
        → (t' : Recovered) × (recover_tasks c changed (suc place) tasks s' ≡ ok t')
          × (t'.reservations ≡ s'.reservations)
          × (t'.prefix ≡ s'.prefix))

recover_tasks-Rests :
    (c : Checks) (root : Storage) (place : ℕ) (task : String) (tasks : List String)
    (u t : Recovered)
    → recover_tasks c root place (task ∷ tasks) u ≡ ok t
    → length t.reservations ≡ length u.reservations
    → Rests c root place tasks u t
unfolding recover_tasks
recover_tasks-Rests c root place task tasks u t h same =
    with_ok (recover_task c root.plan task place (root.reserved place) (root.attempt place) u) _ h
      λ w first rest. elim (Option-cases (root.reserved place)) [
        | inl unreserved ↦
            let (no_attempt, e) =
              recover_task-none c root.plan task place (root.attempt place) u w
                (rw unreserved at first) in
            let count = same ∙ ap (λ z. length z.reservations) (sym e) in
            let (t', run, kept, kept') =
              recover_tasks-idle c root root refl (suc place) tasks w t rest count
                (λ i _. (refl, refl)) w in
            let e' : t' ≡ t = ok-injective (sym run ∙ rest) in
            (
              no_attempt,
              ap (λ z. z.reservations) (sym e') ∙ kept ∙ ap (λ z. z.reservations) e,
              ap (λ z. z.prefix) (sym e') ∙ kept' ∙ ap (λ z. z.prefix) e,
              λ changed plans agree s'.
                  recover_tasks-idle c root changed plans (suc place) tasks w t rest count agree s',
            )
        | inr (b, reserved) ↦
            let (kept, _, _, _, _) =
              recover_task-some c root.plan task place b (root.attempt place) u w
                (rw reserved at first) in
            let (more, _) = recover_tasks-Grows c root (suc place) tasks w t rest in
            absurd
              (omega (arith, more, ap length kept, length-append u.reservations (b ∷ []), same))
      ]

-- What the guards of `prepare` have tested, and the binding that they lead to.
abbrev pub IsBindingOf : Checks → Host → Storage → Recovered → String → Binding → Type 0
IsBindingOf c host root s run_id b =
    (task_at (length s.prefix) root.plan.order ≡ some b.task_id)
    × (length s.reservations ≡ length s.prefix)
    × (host.has_run run_id ≡ false)
    × (all (λ r. host.is_accepted r.run_id) s.reservations ≡ true)
    × (validate_execution_binding c b none ≡ ok tt)
    × (b.plan ≡ root.plan)
    × (b.run_id ≡ run_id)
    × (b.prior_integration ≡ last s.prefix)

or_raise-some {ℓ} : {A : Type ℓ} (o : Option A) (a : A) → or_raise o ≡ ok a → o ≡ some a
or_raise-some none a h = absurd (cc)
or_raise-some (some x) a h = ap (λ z. some z) (ok-injective h)

pub binding_of-IsBindingOf :
    (c : Checks) (host : Host) (root : Storage) (s : Recovered) (run_id : String)
    (worker : List String) (b : Binding)
    → binding_of c host root s run_id worker ≡ ok b
    → IsBindingOf c host root s run_id b
unfolding binding_of binding_at
binding_of-IsBindingOf c host root s run_id worker b h =
    with_require (not (leb (length root.plan.order) (length s.prefix))) all_accepted _ h λ _ h₁.
      with_require (length s.reservations == length s.prefix) already_reserved _ h₁ λ even h₂.
        with_require (validate_id run_id) invalid_run_id _ h₂ λ _ h₃.
          with_require (not (host.has_run run_id)) run_exists _ h₃ λ new h₄.
            with_require (has_worker worker) worker_required _ h₄ λ _ h₅.
              with_ok (or_raise (task_at (length s.prefix) root.plan.order)) _ h₅ λ task at h₆.
                with_require host.is_idle raised _ h₆ λ _ h₇.
                  with_require host.is_clean not_clean _ h₇ λ _ h₈.
                    with_require (all (λ r. host.is_accepted r.run_id) s.reservations) raised _ h₈
                      λ approved h₉.
                        with_require (not (host.has_worktree (length s.prefix))) worktree_exists _
                          h₉
                          λ _ h₁₀. with_ok (or_raise (host.job task)) _ h₁₀ λ job _ h₁₁.
                            with_ok
                              (validate_execution_binding c (binding_at host root s run_id task)
                                (some (job, (run_id, host.worktree (length s.prefix)))))
                              _ h₁₁
                              λ u valid h₁₂.
                                with_require (not (is_some (root.reserved (length s.prefix))))
                                  raised _ h₁₂
                                  λ _ h₁₃.
                                    subst (IsBindingOf c host root s run_id) (ok-injective h₁₃) (
                                      or_raise-some (task_at (length s.prefix) root.plan.order) task
                                          at,
                                      ground arith,
                                      ground arith,
                                      approved,
                                      validate_execution_binding-alone c
                                          (binding_at host root s run_id task) _ u valid,
                                      refl,
                                      refl,
                                      refl,
                                    )

reserve-other :
    (place : ℕ) (b : Binding) (root : Storage) (i : ℕ)
    → i ≢ place
    → ((reserve place b root).reserved i ≡ root.reserved i)
      × ((reserve place b root).attempt i ≡ root.attempt i)
unfolding reserve
reserve-other place b root i differs = elim (Bool-cases (i == place)) [
  | inl e ↦ absurd (differs (ground arith))
  | inr e ↦ rw e (refl, refl)
]

reserve-here :
    (place : ℕ) (b : Binding) (root : Storage) → (reserve place b root).reserved place ≡ some b
unfolding reserve
reserve-here place b root = let e : (place == place) ≡ true = ground arith in rw e refl

abbrev pub start : Recovered
start = record { reservations = []; prefix = []; gap = false }

-- The loop on the storage with the new reservation recovers what it recovered before, and the
-- reservation behind it.
pub recover_tasks-reserve :
    (c : Checks) (root : Storage) (order : List String) (s : Recovered) (b : Binding)
    → recover_tasks c root 0 order start ≡ ok s
    → task_at (length s.prefix) order ≡ some b.task_id
    → length s.reservations ≡ length s.prefix
    → validate_execution_binding c b none ≡ ok tt
    → b.plan ≡ root.plan
    → b.prior_integration ≡ last s.prefix
    → (t : Recovered) × (recover_tasks c (reserve (length s.prefix) b root) 0 order start ≡ ok t)
      × (t.reservations ≡ s.reservations ++ b ∷ [])
      × (t.prefix ≡ s.prefix)
unfolding recover_attempt reserve
recover_tasks-reserve c root order s b h at even valid plans prior =
    let place = length s.prefix in
    let changed = reserve place b root in
    let (u, tail, no_gap, count, ends, moves) =
      recover_tasks-Comes c root place 0 place order b.task_id start s h at (omega arith) refl refl
        (omega (arith, even)) in
    let (no_attempt, kept, kept', later) =
      recover_tasks-Rests c root place b.task_id tail u s ends (even ∙ sym count) in
    let u' : Recovered = record u { reservations = u.reservations ++ b ∷ [] } in
    let here : recover_task c changed.plan b.task_id place (changed.reserved place)
          (changed.attempt place) u
        ≡ ok u' =
      rw (reserve-here place b root) (
        rw no_attempt (
          recover_task-reserve c root.plan b.task_id place b none u no_gap valid plans refl
            (ap length (sym kept')) (prior ∙ ap last kept'))) in
    let (t, run, more, more') =
      later changed refl (λ i le. reserve-other place b root i (λ e. absurd (omega (arith, le, e))))
        u' in
    (
      t,
      moves changed refl (reserve-other place b root)
          ∙ recover_tasks-cons c changed place b.task_id tail u u' here
          ∙ run,
      more ∙ ap (λ z. z ++ b ∷ []) (sym kept),
      more' ∙ sym kept',
    )
