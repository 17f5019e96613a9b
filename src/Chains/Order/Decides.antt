-- ===== src/Chains/Order/Decides.antt =====
-- Proofs about the loop of `order_tasks` of task_chains.py.
use agent_workflow.Base.{
  ℕ, zero, suc, ◌<◌, ◌↔◌, ◌⊎◌, String, ◌≡◌, refl, sym, ap, ◌∙◌, subst, true, false, ◌&&◌, ◌||◌,
  List, [], ◌∷◌, ◌++◌, length, append_nil, append_assoc, leb, All, all→All, All-map, elem,
  elem_self, distinct, Dict, keys, str_eq_iff, str_eq_sym, str_cases, inl, inr, ok, err,
  ok-injective, with_require, arith,
}
use agent_workflow.Base.Sort.{sorted, elem-sorted}
use agent_workflow.Chains.{
  cyclic, Task, task_ids, subset, pending_of, ready, remove, order_loop, known_tasks, order_tasks,
  not_unique, missing_predecessor,
}
use agent_workflow.Chains.Order.{
  index, elem-append, index-append, index-append_new, elem-remove, remove-distinct, All-removed,
  ready-lookup,
}

pub List-cases {ℓ} :
    {A : Type ℓ} (xs : List A) → (xs ≡ []) ⊎ ((x : A) × (ys : List A) × (xs ≡ x ∷ ys))
List-cases [] = inl refl
List-cases (x ∷ xs) = inr (x, xs, refl)

distinct-append_new :
    (xs : List String) (x : String)
    → distinct xs ≡ true
    → elem x xs ≡ false
    → distinct (xs ++ x ∷ []) ≡ true
unfolding distinct elem
distinct-append_new [] x d h = refl
distinct-append_new (y ∷ xs) x d h =
    let later = distinct-append_new xs x (ground arith) (ground arith) in
    ground (arith, later, elem-append y xs (x ∷ []), str_eq_sym x y)

module _ (fuel : ℕ) (p : String × List String) (pending : Dict (List String))
    (order : List String) where
  pub order_loop-ready :
      (task : String) (tasks : List String)
      → sorted (ready (p ∷ pending) order) ≡ task ∷ tasks
      → order_loop (suc fuel) (p ∷ pending) order
        ≡ order_loop fuel (remove task (p ∷ pending)) (order ++ task ∷ [])
  unfolding order_loop
  order_loop-ready task tasks e = rw (order_loop, e) refl

  pub order_loop-stuck :
      sorted (ready (p ∷ pending) order) ≡ []
      → order_loop (suc fuel) (p ∷ pending) order ≡ err cyclic
  unfolding order_loop
  order_loop-stuck e = rw (order_loop, e) refl

pub first-ready :
    (task : String) (tasks names : List String)
    → sorted names ≡ task ∷ tasks
    → elem task names ≡ true
first-ready task tasks names e =
    sym (elem-sorted task names) ∙ ap (elem task) e ∙ elem_self task tasks

-- The predecessors of the entry stand before it.
abbrev IsBehind : List String → String × List String → Type 0
IsBehind order entry = All (λ d. index d order < index entry.0 order) entry.1

-- What the loop has ordered when it ends, begun at `order` with `pending` left.
abbrev Orders : Dict (List String) → List String → List String → Type 0
Orders pending order final =
    ((rest : List String) × (final ≡ order ++ rest))
    × All (IsBehind final) pending
    × (distinct final ≡ true)
    × ((s : String) → elem s final ≡ (elem s order || elem s (keys pending)))

-- An entry whose predecessors were ordered before it stands behind them for good.
ready-IsBehind :
    (task : String) (deps order rest final : List String)
    → final ≡ order ++ task ∷ rest
    → subset deps order ≡ true
    → elem task order ≡ false
    → IsBehind final (task, deps)
unfolding subset
ready-IsBehind task deps order rest final e known new =
    subst (λ z. IsBehind z (task, deps)) (sym e)
      (All-map (λ d. elem d order ≡ true) _
        (λ d there.
          let (same, below) = index-append d order (task ∷ rest) there in
          omega (arith, same, below, index-append_new task order rest new))
        deps (all→All (λ d. elem d order) deps known))

pub members-remove :
    (s task : String) (order : List String) (pending : Dict (List String))
    → elem task (keys pending) ≡ true
    → (elem s (order ++ task ∷ []) || elem s (keys (remove task pending)))
      ≡ (elem s order || elem s (keys pending))
unfolding elem
members-remove s task order pending pends = elim (str_cases s task) [
  | inl e ↦
      let pends' : elem s (keys pending) ≡ true =
        subst (λ z. elem z (keys pending) ≡ true) (sym e) pends in
      ground (arith, elem-append s order (task ∷ []), str_eq_iff s task, pends', e)
  | inr e ↦ ground (arith, elem-append s order (task ∷ []), elem-remove task s pending e, e)
]

-- What is still pending after a step is not ordered after it.
fresh-remove :
    (s task : String) (order : List String) (pending : Dict (List String))
    → (elem s (keys pending) ≡ true → elem s order ≡ false)
    → elem task (keys (remove task pending)) ≡ false
    → elem s (keys (remove task pending)) ≡ true
    → elem s (order ++ task ∷ []) ≡ false
unfolding elem
fresh-remove s task order pending fresh gone m = elim (str_cases s task) [
  | inl e ↦ absurd (let m' = subst (λ z. elem z (keys (remove task pending)) ≡ true) e m in cc)
  | inr e ↦
      let old = fresh (sym (elem-remove task s pending e) ∙ m) in
      ground (arith, elem-append s order (task ∷ []), e, old)
]

order_loop-Orders :
    (fuel : ℕ) (pending : Dict (List String)) (order final : List String)
    → order_loop fuel pending order ≡ ok final
    → distinct (keys pending) ≡ true
    → distinct order ≡ true
    → ((s : String) → elem s (keys pending) ≡ true → elem s order ≡ false)
    → Orders pending order final
unfolding order_loop keys elem
order_loop-Orders fuel [] order final h apart d fresh =
    let same : order ≡ final = ok-injective h in
    subst (Orders [] order) same (([], sym (append_nil order)), tt, d, λ s. ground arith)
order_loop-Orders zero (p ∷ pending) order final h apart d fresh = absurd (cc)
order_loop-Orders (suc fuel) (p ∷ pending) order final h apart d fresh =
    elim (List-cases (sorted (ready (p ∷ pending) order))) [
      | inl none_ready ↦
          absurd (let k = sym (order_loop-stuck fuel p pending order none_ready) ∙ h in cc)
      | inr found ↦
          let (task, tasks, e) = found in
          let (deps, entry, known, pends) =
            ready-lookup task (p ∷ pending) order apart
              (first-ready task tasks (ready (p ∷ pending) order) e) in
          let (apart', gone) = remove-distinct task (p ∷ pending) apart in
          let new : elem task order ≡ false = fresh task pends in
          let (grown, behind, d', members) =
            order_loop-Orders fuel (remove task (p ∷ pending)) (order ++ task ∷ []) final
              (sym (order_loop-ready fuel p pending order task tasks e) ∙ h) apart'
              (distinct-append_new order task d new)
              (λ s. fresh-remove s task order (p ∷ pending) (fresh s) gone) in
          let whole : final ≡ order ++ task ∷ grown.0 = grown.1 ∙ append_assoc order task grown.0 in
          (
            (task ∷ grown.0, whole),
            All-removed task (IsBehind final) (p ∷ pending) deps entry
                (ready-IsBehind task deps order grown.0 final whole known new) behind,
            d',
            λ s. members s ∙ members-remove s task order (p ∷ pending) pends,
          )
    ]

-- The ids of the tasks are the keys of the pending entries.
pub keys-pending_of : (tasks : List Task) → keys (pending_of tasks) ≡ task_ids tasks
unfolding keys pending_of
keys-pending_of [] = refl
keys-pending_of (t ∷ tasks) = ap (λ z. t.task_id ∷ z) (keys-pending_of tasks)

pub length-pending_of : (tasks : List Task) → length (pending_of tasks) ≡ length tasks
unfolding pending_of
length-pending_of [] = refl
length-pending_of (t ∷ tasks) = ap suc (length-pending_of tasks)

-- Each task has a rank above those of its predecessors.
abbrev pub IsRanked : (String → ℕ) → List Task → Type 0
IsRanked r tasks = All (λ t. All (λ d. r d < r t.task_id) t.predecessors) tasks

pub All-pending_of {κ} :
    (P : String × List String → Type κ) (tasks : List Task)
    → All P (pending_of tasks) ↔ All (λ t. P (t.task_id, t.predecessors)) tasks
unfolding pending_of
All-pending_of P [] = (λ h. tt, λ h. tt)
All-pending_of P (t ∷ tasks) =
    let (there, back) = All-pending_of P tasks in (λ h. (h.0, there h.1), λ h. (h.0, back h.1))

-- An order that `order_tasks` returns has each task exactly once, and each task stands in it behind
-- all of its predecessors.
pub order_tasks-IsRanked :
    (tasks : List Task) (order : List String)
    → order_tasks tasks ≡ ok order
    → IsRanked (λ s. index s order) tasks
      × (distinct order ≡ true)
      × ((s : String) → elem s order ≡ elem s (task_ids tasks))
unfolding order_tasks distinct elem
order_tasks-IsRanked tasks order h =
    with_require (leb 1 (length tasks) && distinct (task_ids tasks)) not_unique _ h λ unique h₁.
      with_require (known_tasks tasks) missing_predecessor _ h₁ λ _ h₂.
        let apart = ap distinct (keys-pending_of tasks) ∙ ground arith in
        let (_, behind, apart', members) =
          order_loop-Orders (length tasks) (pending_of tasks) [] order h₂ apart refl
            (λ s m. refl) in
        (
          (All-pending_of (IsBehind order) tasks).0 behind,
          apart',
          λ s. members s ∙ ap (elem s) (keys-pending_of tasks),
        )
