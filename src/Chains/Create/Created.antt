-- ===== src/Chains/Create/Created.antt =====
-- Proofs about `create` of task_chains.py, and what `_state` makes of its storage.
use agent_workflow.Base.{
  ℕ, suc, String, ◌≡◌, refl, sym, ap, subst, Bool, true, false, not, ◌&&◌, Option, none, some, List,
  [], ◌∷◌, length, all, elem, inl, inr, distinct, leb, Dict, keys, ok, Result-cases, ok-injective,
  with_ok, with_require,
}
use agent_workflow.Base.Sort.{sorted}
use agent_workflow.Chains.{
  raised, not_clean, storage_protected, storage_exists, dependencies_invalid,
}
use agent_workflow.Chains.Plans.{Plan, Checks, validate_plan}
use agent_workflow.Chains.State.{
  Storage, Recovered, is_some, recover_task, recover_tasks, recover_final, recover,
}
use agent_workflow.Chains.Create.{Site, create_tasks, draft_plan, plan_of, new_storage, create}

recover_tasks-new_storage :
    (c : Checks) (plan : Plan) (place : ℕ) (tasks : List String) (gap : Bool)
    → (gap' : Bool) × (recover_tasks c
          (new_storage plan)
          place
          tasks
          (record { reservations = []; prefix = []; gap = gap })
        ≡ ok (record { reservations = []; prefix = []; gap = gap' }))
unfolding recover_tasks recover_task new_storage
recover_tasks-new_storage c plan place [] gap = (gap, refl)
recover_tasks-new_storage c plan place (task ∷ tasks) gap =
    recover_tasks-new_storage c plan (suc place) tasks true

is_some-none : (o : Option Storage) → not (is_some o) ≡ true → o ≡ none
is_some-none none h = refl
is_some-none (some x) h = cc

plan_of-validate_plan :
    (c : Checks) (site : Site) (existing : Option Storage) (dependencies : Dict (List String))
    (actor reason tier : String) (plan : Plan)
    → plan_of c site existing dependencies actor reason tier ≡ ok plan
    → (existing ≡ none) × (order : List String) × (validate_plan c plan ≡ ok order)
unfolding plan_of
plan_of-validate_plan c site existing dependencies actor reason tier plan h =
    with_require (not site.is_protected) storage_protected _ h λ _ h₁.
      with_require (not (is_some existing)) storage_exists _ h₁ λ fresh h₂.
        with_require site.is_idle raised _ h₂ λ _ h₃.
          with_require site.is_clean not_clean _ h₃ λ _ h₄.
            with_require
              (leb 1 (length dependencies)
                && all (λ task. elem task site.pending) (keys dependencies))
              dependencies_invalid _ h₄
              λ _ h₅.
                with_ok (create_tasks site dependencies (sorted (keys dependencies))) _ h₅
                  λ tasks _ h₆. with_ok (draft_plan site tasks actor reason tier) _ h₆ λ draft _ h₇.
                    with_ok (validate_plan c (record draft { plan_sha256 = c.digest draft })) _ h₇
                      λ order valid h₈. (
                        is_some-none existing fresh,
                        order,
                        subst (λ z. validate_plan c z ≡ ok order) (ok-injective h₈) valid,
                      )

-- `create` returns a chain only where nothing was stored, and what it stores is recovered by `_state` as
-- the empty chain of that plan: nothing reserved, nothing accepted.
pub create-recover :
    (c : Checks) (site : Site) (existing : Option Storage) (dependencies : Dict (List String))
    (actor reason tier : String) (stored : Option Storage) (plan : Plan)
    → create c site existing dependencies actor reason tier ≡ (stored, ok plan)
    → (existing ≡ none)
      × (root : Storage) × (s : Recovered) × (stored ≡ some root)
      × (root.plan ≡ plan)
      × (recover c root ≡ ok (s, none))
      × (s.reservations ≡ [])
      × (s.prefix ≡ [])
unfolding create recover recover_final new_storage distinct
create-recover c site existing dependencies actor reason tier stored plan h =
    elim (Result-cases (plan_of c site existing dependencies actor reason tier)) [
      | inr (e, p) ↦ absurd (let k = ap (λ z. z.1) (rw (create, p) at h) in cc)
      | inl (found, p) ↦
          let pair = rw (create, p) at h in
          let same : found ≡ plan = ok-injective (ap (λ z. z.1) pair) in
          let (nothing, order, valid) =
            plan_of-validate_plan c site existing dependencies actor reason tier found p in
          let (gap, run) = recover_tasks-new_storage c found 0 order false in
          (
            nothing,
            new_storage found,
            record { reservations = []; prefix = []; gap = gap },
            sym (ap (λ z. z.0) pair),
            same,
            rw (recover, valid, run, recover_final) refl,
            refl,
            refl,
          )
    ]
