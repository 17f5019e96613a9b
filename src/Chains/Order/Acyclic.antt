-- ===== src/Chains/Order/Acyclic.antt =====
-- Proofs about `order_tasks` of task_chains.py: its fuel and the ranks of the tasks.
use agent_workflow.Base.{
  ℕ, zero, suc, ◌<◌, ◌≤◌, ◌↔◌, String, ◌≡◌, ◌≢◌, refl, sym, ap, ◌∙◌, true, false, ◌&&◌, ◌||◌, some,
  List, [], ◌∷◌, ◌++◌, length, leb, All, all→All, All-map, All-elem, elem, elem_self, distinct,
  Dict, keys, lookup, str_eq_refl, Bool-cases, inl, inr, ok, err, arith,
}
use agent_workflow.Base.Sort.{sorted, elem-sorted}
use agent_workflow.Chains.{
  out_of_fuel, Task, task_ids, subset, pending_of, ready, remove, order_loop, known_tasks,
  order_tasks,
}
use agent_workflow.Chains.Order.{
  index, remove-distinct, length-remove, All-remove, ready-lookup, lookup-ready, keys-lookup,
  All-lookup,
}
use agent_workflow.Chains.Order.Decides.{
  List-cases, order_loop-ready, order_loop-stuck, first-ready, IsRanked, members-remove,
  keys-pending_of, length-pending_of, All-pending_of, order_tasks-IsRanked,
}

-- Where some predecessor is not ordered yet, there is a first such.
subset-missing :
    (deps order : List String)
    → subset deps order ≡ false
    → (d : String) × (elem d deps ≡ true) × (elem d order ≡ false)
unfolding subset elem
subset-missing [] order h = absurd (cc)
subset-missing (d ∷ deps) order h = elim (Bool-cases (elem d order)) [
  | inl e ↦
      let (x, there, absent) = subset-missing deps order (ground arith) in
      (x, ground (arith, there), absent)
  | inr e ↦ (d, elem_self d deps, e)
]

-- Every predecessor is ordered or pending.
abbrev IsClosed : List String → Dict (List String) → Type 0
IsClosed order pending =
    All (λ e. All (λ d. (elem d order || elem d (keys pending)) ≡ true) e.1) pending

abbrev IsDecreasing : (String → ℕ) → Dict (List String) → Type 0
IsDecreasing r pending = All (λ e. All (λ d. r d < r e.0) e.1) pending

-- From a pending task, a walk to unordered predecessors of ever smaller rank ends at a ready task.
find_ready :
    (r : String → ℕ) (pending : Dict (List String)) (order : List String)
    → IsClosed order pending
    → IsDecreasing r pending
    → (n : ℕ) (task : String) (deps : List String) → lookup task pending ≡ some deps
    → r task < n
    → (s : String) × (elem s (ready pending order) ≡ true)
find_ready r pending order closed lower zero task deps found below = absurd (omega arith)
find_ready r pending order closed lower (suc n) task deps found below =
    elim (Bool-cases (subset deps order)) [
      | inl e ↦ (task, lookup-ready task pending order deps found e)
      | inr e ↦
          let (d, there, absent) = subset-missing deps order e in
          let here : (elem d order || elem d (keys pending)) ≡ true =
            All-elem (λ d. (elem d order || elem d (keys pending)) ≡ true) deps d
              (All-lookup (λ e. All (λ d. (elem d order || elem d (keys pending)) ≡ true) e.1)
                pending task deps closed found)
              there in
          let smaller : r d < r task =
            All-elem (λ d. r d < r task) deps d
              (All-lookup (λ e. All (λ d. r d < r e.0) e.1) pending task deps lower found) there in
          let (deps', found') = keys-lookup d pending (ground (arith, here, absent)) in
          find_ready r pending order closed lower n d deps' found' (omega (arith, smaller))
    ]

IsClosed-remove :
    (task : String) (order : List String) (pending : Dict (List String))
    → elem task (keys pending) ≡ true
    → IsClosed order pending
    → IsClosed (order ++ task ∷ []) (remove task pending)
IsClosed-remove task order pending pends closed = All-remove task _ pending (
    All-map _ _ (λ e h. All-map _ _ (λ d k. members-remove d task order pending pends ∙ k) e.1 h)
      pending closed)

ready-some : (s : String) (names : List String) → elem s names ≡ true → sorted names ≢ []
unfolding elem
ready-some s names h = λ e. absurd (let k = sym (ap (elem s) e) ∙ elem-sorted s names ∙ h in cc)

known-IsClosed : (tasks : List Task) → known_tasks tasks ≡ true → IsClosed [] (pending_of tasks)
unfolding known_tasks elem subset
known-IsClosed tasks h =
    (All-pending_of (λ e. All (λ d. elem d (keys (pending_of tasks)) ≡ true) e.1) tasks).1 (
      All-map _ _
        (λ t k.
          All-map _ _ (λ d known_d. ap (elem d) (keys-pending_of tasks) ∙ known_d) t.predecessors
            (all→All (λ d. elem d (task_ids tasks)) t.predecessors (ground arith)))
        tasks (all→All _ tasks h))

module _ (r : String → ℕ) where
  order_loop-total :
      (fuel : ℕ) (pending : Dict (List String)) (order : List String)
      → length pending ≤ fuel
      → distinct (keys pending) ≡ true
      → IsClosed order pending
      → IsDecreasing r pending
      → (final : List String) × (order_loop fuel pending order ≡ ok final)
  unfolding order_loop keys lookup
  order_loop-total fuel [] order enough apart closed lower = (order, refl)
  order_loop-total zero (p ∷ pending) order enough apart closed lower = absurd (omega arith)
  order_loop-total (suc fuel) (p ∷ pending) order enough apart closed lower =
      elim (List-cases (sorted (ready (p ∷ pending) order))) [
        | inl none_ready ↦
            let (s, is_ready) =
              find_ready r (p ∷ pending) order closed lower (suc (r p.0)) p.0 p.1
                (rw (str_eq_refl p.0) refl) (omega arith) in
            absurd (ready-some s (ready (p ∷ pending) order) is_ready none_ready)
        | inr found ↦
            let (task, tasks, e) = found in
            let (_, _, _, pends) =
              ready-lookup task (p ∷ pending) order apart
                (first-ready task tasks (ready (p ∷ pending) order) e) in
            let (final, ends) =
              order_loop-total fuel (remove task (p ∷ pending)) (order ++ task ∷ [])
                (omega (arith, length-remove task (p ∷ pending) pends))
                (remove-distinct task (p ∷ pending) apart).0
                (IsClosed-remove task order (p ∷ pending) pends closed)
                (All-remove task _ (p ∷ pending) lower) in
            (final, order_loop-ready fuel p pending order task tasks e ∙ ends)
      ]

order_loop-HasFuel :
    (fuel : ℕ) (pending : Dict (List String)) (order : List String)
    → length pending ≤ fuel
    → distinct (keys pending) ≡ true
    → order_loop fuel pending order ≢ err out_of_fuel
unfolding order_loop
order_loop-HasFuel fuel [] order enough apart = λ e. cc
order_loop-HasFuel zero (p ∷ pending) order enough apart = absurd (omega arith)
order_loop-HasFuel (suc fuel) (p ∷ pending) order enough apart = λ ends.
    elim (List-cases (sorted (ready (p ∷ pending) order))) [
      | inl none_ready ↦
          absurd (let k = sym (order_loop-stuck fuel p pending order none_ready) ∙ ends in cc)
      | inr found ↦
          let (task, tasks, e) = found in
          let (_, _, _, pends) =
            ready-lookup task (p ∷ pending) order apart
              (first-ready task tasks (ready (p ∷ pending) order) e) in
          order_loop-HasFuel fuel (remove task (p ∷ pending)) (order ++ task ∷ [])
            (omega (arith, length-remove task (p ∷ pending) pends))
            (remove-distinct task (p ∷ pending) apart).0
            (sym (order_loop-ready fuel p pending order task tasks e) ∙ ends)
    ]

-- Where the task ids are unique and every predecessor is another task of the plan, the loop of
-- `order_tasks` does not run out of fuel, and `order_tasks` gives an order exactly if the tasks can
-- be ranked above their predecessors, that is, exactly if there is no cycle.
pub order_tasks_decides :
    (tasks : List Task)
    → (leb 1 (length tasks) && distinct (task_ids tasks)) ≡ true
    → known_tasks tasks ≡ true
    → (order_tasks tasks ≢ err out_of_fuel)
      × (((order : List String) × (order_tasks tasks ≡ ok order))
          ↔ ((r : String → ℕ) × IsRanked r tasks))
unfolding order_tasks elem known_tasks
order_tasks_decides tasks unique all_known =
    let apart : distinct (keys (pending_of tasks)) ≡ true =
      ap distinct (keys-pending_of tasks) ∙ ground arith in
    let enough : length (pending_of tasks) ≤ length tasks =
      omega (arith, length-pending_of tasks) in
    (
      rw (unique, all_known) (order_loop-HasFuel (length tasks) (pending_of tasks) [] enough apart),
      (
        λ found. (λ s. index s found.0, (order_tasks-IsRanked tasks found.0 found.1).0),
        λ ranks.
            rw (unique, all_known)
              (order_loop-total ranks.0 (length tasks) (pending_of tasks) [] enough apart
                (known-IsClosed tasks all_known) ((All-pending_of _ tasks).1 ranks.1)),
      ),
    )
