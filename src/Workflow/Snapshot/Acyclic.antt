-- ===== src/Workflow/Snapshot/Acyclic.antt =====
-- Proofs about the dependency graph of `normalize_snapshot` of workflow.py.
use agent_workflow.Base.{
  ℕ, suc, ◌≤◌, ◌<◌, String, ◌≡◌, ◌≢◌, refl, ◌∙◌, sym, ap, subst, Bool, true, false, not, List, [],
  ◌∷◌, map, lookup, keys, length, leb, if◌then◌else◌, str_eq, str_eq_iff, Bool-cases, inl, inr, ◌↔◌,
  elem, all→All, All, All-map, All-elem, All-of_elem, ok, with_ok, with_require, fold_result, arith,
}
use agent_workflow.Base.Sort.{sorted, elem-sorted}
use agent_workflow.Workflow.Types.{
  Node, Snapshot, Externals, invalid_id, pack_required, manifest_required, no_nodes,
  unknown_dependency,
}
use agent_workflow.Workflow.Ids.{validate_id}
use agent_workflow.Workflow.Graph.{Search, dependencies_of, visit}
use agent_workflow.Workflow.Graph.Order.{visit-IsSound, visit_all_sound}
use agent_workflow.Workflow.Graph.Safe.{visit_all-safe}
use agent_workflow.Workflow.Graph.Rank.{rank, IsRanked, ordered-IsRanked, NoCycle, visit-acyclic}
use agent_workflow.Workflow.Graph.Fuel.{HasFuel, room, visit-HasFuel}
use agent_workflow.Workflow.Snapshot.{
  graph_of, known, search_cycles, no_cycle, is_empty, see_node, normalize_snapshot,
}

abbrev node_ids : List Node → List String
node_ids nodes = map (λ n. n.node_id) nodes

keys-graph_of : (nodes : List Node) → keys (graph_of nodes) ≡ node_ids nodes
unfolding keys graph_of
keys-graph_of [] = refl
keys-graph_of (n ∷ nodes) = ap (λ t. n.node_id ∷ t) (keys-graph_of nodes)

length-graph_of : (nodes : List Node) → length (graph_of nodes) ≡ length nodes
unfolding graph_of
length-graph_of [] = refl
length-graph_of (n ∷ nodes) = ap suc (length-graph_of nodes)

room-nil : (names : List String) → room names [] ≤ length names
unfolding room elem
room-nil [] = omega arith
room-nil (n ∷ names) = ground (arith, room-nil names)

length-node_ids : (nodes : List Node) → length (node_ids nodes) ≡ length nodes
length-node_ids [] = refl
length-node_ids (n ∷ nodes) = ap suc (length-node_ids nodes)

-- A name that is no node has no dependencies in the graph.
dependencies_of-absent :
    (nodes : List Node) (x : String)
    → elem x (node_ids nodes) ≡ false
    → dependencies_of (graph_of nodes) x ≡ []
unfolding dependencies_of graph_of lookup elem
dependencies_of-absent [] x h = refl
dependencies_of-absent (n ∷ nodes) x h =
    ground (arith, str_eq_iff n.node_id x, str_eq_iff x n.node_id, dependencies_of-absent nodes x)

dependencies_of-cons :
    (n : Node) (nodes : List Node) (x : String)
    → dependencies_of (graph_of (n ∷ nodes)) x
      ≡ (if str_eq n.node_id x then n.dependencies else dependencies_of (graph_of nodes) x)
unfolding dependencies_of graph_of lookup
dependencies_of-cons n nodes x = ground arith

-- Every dependency of a known graph is a node.
closed-known :
    (all_nodes nodes : List Node)
    → known all_nodes nodes ≡ true
    → (x : String)
    → All (λ d. elem d (node_ids all_nodes) ≡ true) (dependencies_of (graph_of nodes) x)
unfolding known dependencies_of graph_of lookup
closed-known all_nodes [] h x = tt
closed-known all_nodes (n ∷ nodes) h x = elim (Bool-cases (str_eq n.node_id x)) [
  | inl here ↦
      subst (All IsNode) (sym (dependencies_of-cons n nodes x ∙ ap pick here))
        (all→All (λ d. elem d (node_ids all_nodes)) n.dependencies (ground arith))
  | inr there ↦
      subst (All IsNode) (sym (dependencies_of-cons n nodes x ∙ ap pick there))
        (closed-known all_nodes nodes (ground arith) x)
]
  where
    IsNode : String → Type 0
    IsNode d = elem d (node_ids all_nodes) ≡ true

    pick : Bool → List String
    pick b = if b then n.dependencies else dependencies_of (graph_of nodes) x

-- What the cycle search finds decides whether the names have ranks, and it never runs out of fuel.
module _ (nodes : List Node) (all_known : known nodes nodes ≡ true) where
  sorted-keys-known : All (λ d. elem d (node_ids nodes) ≡ true) (sorted (keys (graph_of nodes)))
  sorted-keys-known = All-of_elem _ _ λ s m.
      sym (ap (elem s) (keys-graph_of nodes)) ∙ sym (elem-sorted s (keys (graph_of nodes))) ∙ m

  search_cycles-HasFuel : search_cycles (graph_of nodes) ≢ Search.out_of_fuel
  unfolding search_cycles
  search_cycles-HasFuel =
      let enough : room (node_ids nodes) [] < suc (length (graph_of nodes)) =
        omega (arith, room-nil (node_ids nodes), length-node_ids nodes, length-graph_of nodes) in
      visit_all-safe HasFuel (λ u e. cc) (visit (suc (length (graph_of nodes))) (graph_of nodes) [])
        (sorted (keys (graph_of nodes)))
        (All-map (λ d. elem d (node_ids nodes) ≡ true) _
          (λ d known_d.
            visit-HasFuel (graph_of nodes) (node_ids nodes) (closed-known nodes nodes all_known)
              (suc (length (graph_of nodes))) [] d enough known_d)
          (sorted (keys (graph_of nodes))) sorted-keys-known)
        []

  ranked-done :
      (r : String → ℕ)
      → ((x : String) → IsRanked (graph_of nodes) r x)
      → (v : List String) × (search_cycles (graph_of nodes) ≡ Search.done v)
  unfolding search_cycles
  ranked-done r ranked = is_done (search_cycles (graph_of nodes)) search_cycles-HasFuel (
      visit_all-safe NoCycle (λ u path e. cc)
        (visit (suc (length (graph_of nodes))) (graph_of nodes) []) (sorted (keys (graph_of nodes)))
        (All-map (λ d. elem d (node_ids nodes) ≡ true) _
          (λ d _. visit-acyclic (graph_of nodes) r ranked (suc (length (graph_of nodes))) [] d tt)
          (sorted (keys (graph_of nodes))) sorted-keys-known)
        [])
    where
      is_done : (s : Search) → HasFuel s → NoCycle s → (v : List String) × (s ≡ Search.done v)
      is_done (Search.done v) f c = (v, refl)
      is_done (Search.cycle path) f c = absurd (c path refl)
      is_done Search.out_of_fuel f c = absurd (f refl)

done-IsRanked :
    (nodes : List Node) (v : List String)
    → search_cycles (graph_of nodes) ≡ Search.done v
    → (r : String → ℕ) × ((x : String) → IsRanked (graph_of nodes) r x)
unfolding search_cycles
done-IsRanked nodes v h =
    let graph = graph_of nodes in
    let fuel = suc (length graph) in
    let sound =
      visit_all_sound graph (visit fuel graph []) (visit-IsSound graph fuel []) [] v
        (sorted (keys graph)) h tt in
    (
      λ s. rank s v,
      λ x. elim (Bool-cases (elem x (node_ids nodes))) [
        | inl node ↦ ordered-IsRanked graph v x sound.1.0 (
            All-elem (λ d. elem d v ≡ true) (sorted (keys graph)) x sound.0
              (elem-sorted x (keys graph) ∙ ap (elem x) (keys-graph_of nodes) ∙ node))
        | inr absent ↦
            subst (All (λ d. rank d v < rank x v)) (sym (dependencies_of-absent nodes x absent)) tt
      ],
    )

-- Where every dependency is a node, the cycle search comes to an end, and it reports a cycle
-- exactly when the nodes cannot be ranked above their dependencies.
pub search_cycles_decides :
    (nodes : List Node)
    → known nodes nodes ≡ true
    → (search_cycles (graph_of nodes) ≢ Search.out_of_fuel)
      × (((v : List String) × (search_cycles (graph_of nodes) ≡ Search.done v))
          ↔ ((r : String → ℕ) × ((x : String) → IsRanked (graph_of nodes) r x)))
search_cycles_decides nodes all_known = (
  search_cycles-HasFuel nodes all_known,
  (
    λ found. done-IsRanked nodes found.0 found.1,
    λ ranks. ranked-done nodes all_known ranks.0 ranks.1,
  ),
)

-- A snapshot that is accepted has no cycle: its nodes have ranks above their dependencies.
pub normalize_snapshot-IsRanked :
    (ext : Externals) (snapshot normalized : Snapshot)
    → normalize_snapshot ext snapshot ≡ ok normalized
    → (r : String → ℕ) × ((x : String) → IsRanked (graph_of snapshot.nodes) r x)
unfolding normalize_snapshot
normalize_snapshot-IsRanked ext snapshot normalized h =
    with_require (validate_id snapshot.workflow_id) invalid_id _ h λ _ h₁.
      with_require (not (is_empty snapshot.pack_id)) pack_required _ h₁ λ _ h₂.
        with_require (not (is_empty snapshot.pack_manifest_sha256)) manifest_required _ h₂ λ _ h₃.
          with_require (leb 1 (length snapshot.nodes)) no_nodes _ h₃ λ _ h₄.
            with_ok (fold_result see_node (record { nodes = []; runs = [] }) snapshot.nodes) _ h₄
              λ _ _ h₅.
                with_require (known snapshot.nodes snapshot.nodes) unknown_dependency _ h₅ λ _ h₆.
                  with_ok (no_cycle (search_cycles (graph_of snapshot.nodes))) _ h₆ λ u searched _.
                    let (v, found) =
                      no_cycle_done (search_cycles (graph_of snapshot.nodes)) u searched in
                    done-IsRanked snapshot.nodes v found
  where
    no_cycle_done :
        (s : Search) (u : Unit {0}) → no_cycle s ≡ ok u → (v : List String) × (s ≡ Search.done v)
    no_cycle_done (Search.done v) u e = (v, refl)
    no_cycle_done (Search.cycle path) u e = absurd (cc)
    no_cycle_done Search.out_of_fuel u e = absurd (cc)
