-- ===== src/Chains/Operate/Slots.antt =====
-- Proofs about the loop of `_state` on a storage of which one slot changes.
use agent_workflow.Base.{
  ℕ, zero, suc, ◌+◌, ◌≤◌, String, ◌≡◌, ◌≢◌, refl, sym, ap, ◌∙◌, subst, true, false, not, ◌&&◌, ◌||◌,
  Option, none, some, List, [], ◌∷◌, ◌++◌, length, length-append, last, ◌==◌, str_eq, Option-cases,
  some-injective, inl, inr, ok, ok-injective, with_ok, with_require, arith,
}
use agent_workflow.Chains.{
  reservation_after_gap, reservation_mismatch, predecessor_unaccepted, evidence_mismatch,
  transition_invalid,
}
use agent_workflow.Chains.Plans.{
  Plan, Binding, Checks, option_eq, plan_eq, receipt_eq, validate_execution_binding,
}
use agent_workflow.Chains.Operate.{task_at}
use agent_workflow.Chains.State.{
  Evidence, Storage, Recovered, is_transition, verify_integration, recover_attempt, recover_task,
  recover_tasks,
}

-- Nothing that was recovered is dropped.
abbrev Grows : Recovered → Recovered → Type 0
Grows s t = (length s.reservations ≤ length t.reservations) × (length s.prefix ≤ length t.prefix)

recover_attempt-Grows :
    (plan : Plan) (attempt : Option Evidence) (s t : Recovered)
    → recover_attempt plan s attempt ≡ ok t
    → (t.reservations ≡ s.reservations) × (t.gap ≡ s.gap) × Grows s t
unfolding recover_attempt
recover_attempt-Grows plan none s t h =
    subst (λ z. (z.reservations ≡ s.reservations) × (z.gap ≡ s.gap) × Grows s z) (ok-injective h)
      (refl, refl, (omega arith, omega arith))
recover_attempt-Grows plan (some e) s t h = with_ok (verify_integration e) _ h λ receipt _ h₁.
    with_require (is_transition plan s.reservations receipt) transition_invalid _ h₁ λ _ h₂.
      subst (λ z. (z.reservations ≡ s.reservations) × (z.gap ≡ s.gap) × Grows s z) (ok-injective h₂)
        (refl, refl, (omega arith, omega (arith, length-append s.prefix (receipt ∷ []))))

module _ (c : Checks) (plan : Plan) (task : String) (place : ℕ) where
  -- A reserved place adds its reservation.
  pub recover_task-some :
      (b : Binding) (attempt : Option Evidence) (s t : Recovered)
      → recover_task c plan task place (some b) attempt s ≡ ok t
      → (t.reservations ≡ s.reservations ++ b ∷ [])
        × (t.gap ≡ s.gap)
        × ((place == 0 || length s.prefix == place) ≡ true)
        × (length s.prefix ≤ length t.prefix)
        × (recover_attempt plan (record s { reservations = s.reservations ++ b ∷ [] }) attempt
            ≡ ok t)
  unfolding recover_task
  recover_task-some b attempt s t h =
      with_require (not s.gap) reservation_after_gap _ h λ no_gap h₁.
        with_ok (validate_execution_binding c b none) _ h₁ λ _ valid h₂.
          with_require (plan_eq b.plan plan && str_eq b.task_id task) reservation_mismatch _ h₂
            λ same h₃.
              with_require (place == 0 || length s.prefix == place) predecessor_unaccepted _ h₃
                λ ordered h₄.
                  with_require (option_eq receipt_eq b.prior_integration (last s.prefix))
                    evidence_mismatch _ h₄
                    λ evidence h₅.
                      let (kept, gap, (_, more)) =
                        recover_attempt-Grows plan attempt
                          (record s { reservations = s.reservations ++ b ∷ [] }) t h₅ in
                      (kept, gap, ordered, more, h₅)

  pub recover_task-no_gap :
      (b : Binding) (attempt : Option Evidence) (s t : Recovered)
      → recover_task c plan task place (some b) attempt s ≡ ok t
      → s.gap ≡ false
  unfolding recover_task
  recover_task-no_gap b attempt s t h =
      with_require (not s.gap) reservation_after_gap _ h λ no_gap _. ground arith

  -- A place without reservation has no integration, and only sets the gap.
  pub recover_task-none :
      (attempt : Option Evidence) (s t : Recovered)
      → recover_task c plan task place none attempt s ≡ ok t
      → (attempt ≡ none) × (t ≡ record s { gap = true })
  unfolding recover_task
  recover_task-none none s t h = (refl, sym (ok-injective h))
  recover_task-none (some e) s t h = absurd (cc)

  pub recover_task-Grows :
      (reservation : Option Binding) (attempt : Option Evidence) (s t : Recovered)
      → recover_task c plan task place reservation attempt s ≡ ok t
      → Grows s t
  recover_task-Grows none attempt s t h =
      subst (Grows s) (sym (recover_task-none attempt s t h).1) (omega arith, omega arith)
  recover_task-Grows (some b) attempt s t h =
      let (kept, _, _, more, _) = recover_task-some b attempt s t h in
      (omega (arith, ap length kept, length-append s.reservations (b ∷ [])), more)

pub recover_tasks-Grows :
    (c : Checks) (root : Storage) (place : ℕ) (tasks : List String) (s t : Recovered)
    → recover_tasks c root place tasks s ≡ ok t
    → Grows s t
unfolding recover_tasks
recover_tasks-Grows c root place [] s t h =
    subst (Grows s) (ok-injective h) (omega arith, omega arith)
recover_tasks-Grows c root place (task ∷ tasks) s t h =
    with_ok (recover_task c root.plan task place (root.reserved place) (root.attempt place) s) _ h
      λ u first rest.
        let (a, b) =
          recover_task-Grows c root.plan task place (root.reserved place) (root.attempt place) s u
            first in
        let (d, e) = recover_tasks-Grows c root (suc place) tasks u t rest in
        (omega (arith, a, d), omega (arith, b, e))

-- The two storages have the same slots from `place` on.
abbrev pub AgreesFrom : ℕ → Storage → Storage → Type 0
AgreesFrom place root changed =
    (i : ℕ)
    → place ≤ i
    → (changed.reserved i ≡ root.reserved i) × (changed.attempt i ≡ root.attempt i)

-- Where the rest of the loop recovers no reservation, it adds nothing to any state.
pub recover_tasks-idle :
    (c : Checks) (root changed : Storage)
    → changed.plan ≡ root.plan
    → (place : ℕ) (tasks : List String) (s t : Recovered)
    → recover_tasks c root place tasks s ≡ ok t
    → length t.reservations ≡ length s.reservations
    → AgreesFrom place root changed
    → (s' : Recovered)
    → (t' : Recovered) × (recover_tasks c changed place tasks s' ≡ ok t')
      × (t'.reservations ≡ s'.reservations)
      × (t'.prefix ≡ s'.prefix)
unfolding recover_tasks recover_task
recover_tasks-idle c root changed plans place [] s t h same agree s' = (s', refl, refl, refl)
recover_tasks-idle c root changed plans place (task ∷ tasks) s t h same agree s' =
    with_ok (recover_task c root.plan task place (root.reserved place) (root.attempt place) s) _ h
      λ u first rest. elim (Option-cases (root.reserved place)) [
        | inl unreserved ↦
            let (no_attempt, e) =
              recover_task-none c root.plan task place (root.attempt place) s u
                (rw unreserved at first) in
            let (t', run, kept, kept') =
              recover_tasks-idle c root changed plans (suc place) tasks u t rest
                (same ∙ ap (λ z. length z.reservations) (sym e))
                (λ i le. agree i (omega (arith, le))) (record s' { gap = true }) in
            rw ((agree place (omega arith)).0 ∙ unreserved)
              (rw ((agree place (omega arith)).1 ∙ no_attempt) (t', run, kept, kept'))
        | inr (b, reserved) ↦
            let (kept, _, _, _, _) =
              recover_task-some c root.plan task place b (root.attempt place) s u
                (rw reserved at first) in
            let (more, _) = recover_tasks-Grows c root (suc place) tasks u t rest in
            absurd
              (omega (arith, more, ap length kept, length-append s.reservations (b ∷ []), same))
      ]

-- Behind a gap nothing is recovered.
recover_tasks-gap :
    (c : Checks) (root : Storage) (place : ℕ) (tasks : List String) (s t : Recovered)
    → recover_tasks c root place tasks s ≡ ok t
    → s.gap ≡ true
    → length t.reservations ≡ length s.reservations
unfolding recover_tasks
recover_tasks-gap c root place [] s t h gap = ap (λ z. length z.reservations) (sym (ok-injective h))
recover_tasks-gap c root place (task ∷ tasks) s t h gap =
    with_ok (recover_task c root.plan task place (root.reserved place) (root.attempt place) s) _ h
      λ u first rest. elim (Option-cases (root.reserved place)) [
        | inl unreserved ↦
            let (_, e) =
              recover_task-none c root.plan task place (root.attempt place) s u
                (rw unreserved at first) in
            recover_tasks-gap c root (suc place) tasks u t rest (ap (λ z. z.gap) e)
            ∙ ap (λ z. length z.reservations) e
        | inr (b, reserved) ↦ absurd (
            let k =
              recover_task-no_gap c root.plan task place b (root.attempt place) s u
                (rw reserved at first) in
            cc)
      ]

abbrev pub ChangesAt : ℕ → Storage → Storage → Type 0
ChangesAt place root changed =
    (i : ℕ)
    → i ≢ place
    → (changed.reserved i ≡ root.reserved i) × (changed.attempt i ≡ root.attempt i)

-- The loop from `place` comes to the task at `goal` with a state that no change at `goal` affects.
abbrev pub Comes : Checks → Storage → ℕ → List String → Recovered → Recovered → ℕ → String → Type 0
Comes c root place tasks s t goal task =
    (u : Recovered) × (tail : List String) × (u.gap ≡ false)
    × (length u.reservations ≡ goal)
    × (recover_tasks c root goal (task ∷ tail) u ≡ ok t)
    × ((changed : Storage)
        → changed.plan ≡ root.plan
        → ChangesAt goal root changed
        → recover_tasks c changed place tasks s ≡ recover_tasks c changed goal (task ∷ tail) u)

pub recover_tasks-cons :
    (c : Checks) (root : Storage) (place : ℕ) (task : String) (tasks : List String)
    (s v : Recovered)
    → recover_task c root.plan task place (root.reserved place) (root.attempt place) s ≡ ok v
    → recover_tasks c root place (task ∷ tasks) s ≡ recover_tasks c root (suc place) tasks v
unfolding recover_tasks
recover_tasks-cons c root place task tasks s v first = rw first refl

pub recover_tasks-Comes :
    (c : Checks) (root : Storage) (steps place goal : ℕ) (tasks : List String) (task : String)
    (s t : Recovered)
    → recover_tasks c root place tasks s ≡ ok t
    → task_at steps tasks ≡ some task
    → goal ≡ place + steps
    → s.gap ≡ false
    → length s.reservations ≡ place
    → goal ≤ length t.reservations
    → Comes c root place tasks s t goal task
unfolding recover_tasks
recover_tasks-Comes c root steps place goal [] task s t h at e no_gap count reach = absurd (cc)
recover_tasks-Comes c root zero place goal (x ∷ tasks) task s t h at e no_gap count reach =
    let here : place ≡ goal = omega (arith, e) in
    let same : x ≡ task = some-injective x task at in
    subst (λ z. Comes c root place (x ∷ tasks) s t z task) here
      (subst (λ z. Comes c root place (x ∷ tasks) s t place z) same
        (s, tasks, no_gap, count, h, λ changed plans changes. refl))
recover_tasks-Comes c root (suc steps) place goal (x ∷ tasks) task s t h at e no_gap count reach =
    with_ok (recover_task c root.plan x place (root.reserved place) (root.attempt place) s) _ h
      λ v first rest. elim (Option-cases (root.reserved place)) [
        | inl unreserved ↦
            let (_, f) =
              recover_task-none c root.plan x place (root.attempt place) s v
                (rw unreserved at first) in
            let stays = recover_tasks-gap c root (suc place) tasks v t rest (ap (λ z. z.gap) f) in
            absurd (omega (arith, stays, ap (λ z. length z.reservations) f, reach, e, count))
        | inr (b, reserved) ↦
            let (kept, gap, _, _, _) =
              recover_task-some c root.plan x place b (root.attempt place) s v
                (rw reserved at first) in
            let (u, tail, no_gap', count', ends, moves) =
              recover_tasks-Comes c root steps (suc place) goal tasks task v t rest at
                (omega (arith, e)) (gap ∙ no_gap)
                (ap length kept ∙ length-append s.reservations (b ∷ []) ∙ omega (arith, count))
                reach in
            (
              u,
              tail,
              no_gap',
              count',
              ends,
              λ changed plans changes.
                  let differs : place ≢ goal = (λ z. absurd (omega (arith, z, e))) in
                  recover_tasks-cons c changed place x tasks s v
                    (rw (plans, (changes place differs).0, (changes place differs).1) first)
                  ∙ moves changed plans changes,
            )
      ]
