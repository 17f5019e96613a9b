-- ===== src/Scheduler/Plan/Capacity.antt =====
-- Proofs about `plan_launches` of scheduler.py.
use agent_workflow.Base.{
  ℕ, zero, suc, ◌+◌, ◌-◌, ◌≤◌, String, ◌≡◌, sym, ap, refl, subst, ◌++◌, ◌&&◌, all, ◌∙◌, Bool, true,
  false, ◌||◌, List, [], ◌∷◌, map, Dict, length, filter, take, leb, ◌==◌, if◌then◌else◌, str_eq,
  str_eq_iff, elem, length-take, ok, with_require, ok-injective, Bool-cases, inl, inr, arith,
}
use agent_workflow.Base.Sort.{sorted, elem-sorted}
use agent_workflow.Workflow.Types.{NodeState, eligible, completed, Node, Snapshot, NodeStatus}
use agent_workflow.Scheduler.Plan.{
  bad_parallelism, states_of, state_is, may_launch, calculate_eligibility, count_running,
  task_named, plan_launches,
}

-- The planned nodes and the running ones together keep to the limit, if the running ones do.
pub length-plan_launches :
    (snapshot : Snapshot) (nodes : List NodeStatus) (max_parallelism : ℕ) (plan : List String)
    → plan_launches snapshot nodes max_parallelism ≡ ok plan
    → count_running nodes ≤ max_parallelism
    → count_running nodes + length plan ≤ max_parallelism
unfolding plan_launches
length-plan_launches snapshot nodes max_parallelism plan h fits =
    with_require (leb 1 max_parallelism) bad_parallelism _ h λ _ e.
      let capacity = max_parallelism - count_running nodes in
      let named = filter (task_named snapshot.nodes) (calculate_eligibility snapshot nodes) in
      let is_plan : (if capacity == 0 then [] else take capacity named) ≡ plan = ok-injective e in
      let bound : length plan ≤ capacity = rw (← is_plan) (short capacity named) in omega arith
  where
    short : (n : ℕ) (xs : List String) → length (if n == 0 then [] else take n xs) ≤ n
    short n xs = ground (arith, length-take n xs)

-- What a planned name stands for: a node of the snapshot that is eligible, with its dependencies
-- completed; what the snapshot names so is a task.
abbrev pub IsLaunchable : Snapshot → List NodeStatus → String → Type 0
IsLaunchable snapshot nodes id =
    (task_named snapshot.nodes id ≡ true)
    × (node : Node) × (before : List Node) × (after : List Node) × (snapshot.nodes
        ≡ before ++ node ∷ after)
    × (node.node_id ≡ id)
    × (state_is (states_of nodes) eligible id ≡ true)
    × (all (state_is (states_of nodes) completed) node.dependencies ≡ true)

drop_head : {a b : Bool} → a ≡ false → (a || b) ≡ true → b ≡ true
drop_head e h = ground arith

pub eligible-node :
    (states : Dict NodeState) (nodes : List Node) (id : String)
    → elem id (map (λ n. n.node_id) (filter (may_launch states) nodes)) ≡ true
    → (node : Node) × (before : List Node) × (after : List Node) × (nodes ≡ before ++ node ∷ after)
      × (node.node_id ≡ id)
      × (may_launch states node ≡ true)
unfolding elem
eligible-node states [] id h = absurd (cc)
eligible-node states (n ∷ nodes) id h = elim (Bool-cases (may_launch states n)) [
  | inl ready ↦ elim (Bool-cases (str_eq id n.node_id)) [
    | inl e ↦ (n, [], nodes, refl, sym ((str_eq_iff id n.node_id).0 e), ready)
    | inr e ↦ behind (eligible-node states nodes id (drop_head e (rw ready at h)))
  ]
  | inr waiting ↦ behind (eligible-node states nodes id (rw waiting at h))
]
  where
    behind :
        ((node : Node) × (before : List Node) × (after : List Node) × (nodes
            ≡ before ++ node ∷ after)
          × (node.node_id ≡ id)
          × (may_launch states node ≡ true))
        → (node : Node) × (before : List Node) × (after : List Node) × (n ∷ nodes
            ≡ before ++ node ∷ after)
          × (node.node_id ≡ id)
          × (may_launch states node ≡ true)
    behind (node, before, after, is, named, ready) =
        (node, n ∷ before, after, ap (λ z. n ∷ z) is, named, ready)

elem-filter :
    (p : String → Bool) (xs : List String) (s : String)
    → elem s (filter p xs) ≡ true
    → (p s ≡ true) × (elem s xs ≡ true)
unfolding elem
elem-filter p [] s h = absurd (cc)
elem-filter p (x ∷ xs) s h = elim (Bool-cases (p x)) [
  | inl keep ↦ elim (Bool-cases (str_eq s x)) [
    | inl e ↦ (subst (λ z. p z ≡ true) (sym ((str_eq_iff s x).0 e)) keep, rw e)
    | inr e ↦ widen e (elem-filter p xs s (drop_head e (rw keep at h)))
  ]
  | inr drop ↦ let (kept, there) = elem-filter p xs s (rw drop at h) in (kept, ground arith)
]
  where
    widen :
        str_eq s x ≡ false
        → (p s ≡ true) × (elem s xs ≡ true)
        → (p s ≡ true) × (elem s (x ∷ xs) ≡ true)
    widen e (kept, there) = (kept, ground arith)

elem-take : (n : ℕ) (xs : List String) (s : String) → elem s (take n xs) ≡ true → elem s xs ≡ true
unfolding elem
elem-take zero xs s h = absurd (cc)
elem-take (suc n) [] s h = h
elem-take (suc n) (x ∷ xs) s h = ground (arith, elem-take n xs s)

-- Every planned id names a task of the snapshot, and it is the id of a node of the snapshot that is
-- eligible in the status and whose dependencies are all completed there.
pub plan_launches-IsLaunchable :
    (snapshot : Snapshot) (nodes : List NodeStatus) (max_parallelism : ℕ) (plan : List String)
    (id : String)
    → plan_launches snapshot nodes max_parallelism ≡ ok plan
    → elem id plan ≡ true
    → IsLaunchable snapshot nodes id
unfolding plan_launches calculate_eligibility may_launch elem
plan_launches-IsLaunchable snapshot nodes max_parallelism plan id h planned =
    with_require (leb 1 max_parallelism) bad_parallelism _ h λ _ e.
      let capacity = max_parallelism - count_running nodes in
      let ids = map (λ n. n.node_id) (filter (may_launch (states_of nodes)) snapshot.nodes) in
      let named = filter (task_named snapshot.nodes) (sorted ids) in
      let there =
        in_named capacity named (subst (λ z. elem id z ≡ true) (sym (ok-injective e)) planned) in
      let (is_task_id, sorted_id) = elem-filter (task_named snapshot.nodes) (sorted ids) id there in
      let (node, before, after, is, named_id, ready) =
        eligible-node (states_of nodes) snapshot.nodes id (sym (elem-sorted id ids) ∙ sorted_id) in
      let (at_eligible, done) =
        parts (state_is (states_of nodes) eligible node.node_id)
          (all (state_is (states_of nodes) completed) node.dependencies) ready in
      (
        is_task_id,
        node,
        before,
        after,
        is,
        named_id,
        subst (λ z. state_is (states_of nodes) eligible z ≡ true) named_id at_eligible,
        done,
      )
  where
    parts : (a b : Bool) → (a && b) ≡ true → (a ≡ true) × (b ≡ true)
    parts true b e = (refl, e)
    parts false b e = cc

    nothing : elem id [] ≡ true → ⊥
    nothing k = absurd (cc)

    in_named :
        (n : ℕ) (xs : List String)
        → elem id (if n == 0 then [] else take n xs) ≡ true
        → elem id xs ≡ true
    in_named n xs k = elim (Bool-cases (n == 0)) [
      | inl e ↦ absurd (nothing (rw e at k))
      | inr e ↦ elem-take n xs id (rw e at k)
    ]
