-- ===== src/Examples/Graphs.antt =====
-- The graph of the two tasks has no cycle.
use agent_workflow.Base.{
  ℕ, String, ◌≡◌, ◌≢◌, ◌↔◌, refl, true, List, ok, elem, str_eq, distinct, fold_result, keys,
}
use agent_workflow.Workflow.Ids.{validate_id}
use agent_workflow.Base.Sort.{sorted}
use agent_workflow.Workflow.Graph.{Search, visit_all, visit}
use agent_workflow.Workflow.Graph.Rank.{IsRanked}
use agent_workflow.Workflow.Snapshot.{normalize_snapshot, search_cycles, graph_of, known}
use agent_workflow.Workflow.Snapshot.Acyclic.{search_cycles_decides, normalize_snapshot-IsRanked}
use agent_workflow.Examples.{externals, two_tasks, snapshot}

two_tasks-known : known two_tasks two_tasks ≡ true
unfolding known elem str_eq
two_tasks-known = refl

search_cycles_decides_example :
    (search_cycles (graph_of two_tasks) ≢ Search.out_of_fuel)
    × (((v : List String) × (search_cycles (graph_of two_tasks) ≡ Search.done v))
        ↔ ((r : String → ℕ) × ((x : String) → IsRanked (graph_of two_tasks) r x)))
search_cycles_decides_example = search_cycles_decides two_tasks two_tasks-known

snapshot_normalizes : normalize_snapshot externals snapshot ≡ ok snapshot
unfolding normalize_snapshot validate_id str_eq fold_result distinct elem visit_all sorted keys
    visit
snapshot_normalizes = refl

normalize_snapshot-IsRanked_example :
    (r : String → ℕ) × ((x : String) → IsRanked (graph_of snapshot.nodes) r x)
normalize_snapshot-IsRanked_example =
    normalize_snapshot-IsRanked externals snapshot snapshot snapshot_normalizes
