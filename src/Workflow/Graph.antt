-- ===== src/Workflow/Graph.antt =====
-- workflow.py: the cycle search of `normalize_snapshot`. The source keeps one set `visiting` and one
-- list `stack` with the same members. Here both are `stack`, innermost node first.
pub mod Order
pub mod Safe
pub mod Rank
pub mod Fuel
use agent_workflow.Base.{
  ℕ, zero, suc, String, Bool, Option, none, some, List, [], ◌∷◌, ◌++◌, Dict, lookup, if◌then◌else◌,
  str_eq, elem,
}

-- `visit` returns the cycle, or extends `visited`.
pub data Search : Type 0 where
  done : (visited : List String) → Search
  cycle : List String → Search
  out_of_fuel : Search

-- `stack[start:]` for the first occurrence of the node: the stack up to it, outermost first.
unfoldable pub cycle_path : String → List String → List String
cycle_path id [] = []
cycle_path id (s ∷ stack) = (if str_eq s id then [] else cycle_path id stack) ++ s ∷ []

-- `if cycle: return cycle` after a nested call.
abbrev pub and_then : Search → (List String → Search) → Search
and_then (done visited) k = k visited
and_then (cycle path) k = cycle path
and_then out_of_fuel k = out_of_fuel

-- The loop over the dependencies, for the search of one node.
unfoldable pub visit_all : (List String → String → Search) → List String → List String → Search
visit_all visit visited [] = done visited
visit_all visit visited (dependency ∷ rest) =
    and_then (visit visited dependency) (λ visited'. visit_all visit visited' rest)

-- The search result after the loop over the dependencies: `visited.add(node_id)`.
abbrev pub finish : String → Search → Search
finish id found = and_then found (λ visited. done (id ∷ visited))

unfoldable pub dependencies_of : Dict (List String) → String → List String
unfolding lookup
dependencies_of graph id = elim (lookup id graph) [ none ↦ [] | some ds ↦ ds ]

unfoldable pub visit : ℕ → Dict (List String) → List String → List String → String → Search
unfolding visit_all dependencies_of cycle_path
visit zero graph stack visited id = out_of_fuel
visit (suc fuel) graph stack visited id =
    let deeper =
      finish id (visit_all (visit fuel graph (id ∷ stack)) visited (dependencies_of graph id)) in
    if elem id stack
    then cycle (cycle_path id stack ++ id ∷ [])
    else if elem id visited
    then done visited
    else deeper
