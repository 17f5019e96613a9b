-- ===== src/Workflow/Replay/Kinds.antt =====
-- Proofs about the kinds of the nodes in `reconstruct_workflow_status`.
use agent_workflow.Base.{
  some-injective, String, ◌≡◌, ◌∙◌, sym, ap, some, List, [], ◌∷◌, map, Dict, lookup, str_eq, ok,
  fold_result-inv, Bool-cases, inl, inr,
}
use agent_workflow.Workflow.Types.{Kind, Node, Event, NodeStatus}
use agent_workflow.Workflow.Snapshot.{initial_node}
use agent_workflow.Workflow.Replay.{Replay, apply_event, start, dependencies_of, replay}
use agent_workflow.Workflow.Replay.Changes.{Changed, Applied, moved, bound}
use agent_workflow.Workflow.Replay.Steps.{apply_event-Applied}
use agent_workflow.Workflow.Replay.Runs.{Changed-lookup}

unfoldable pub kinds_of : List Node → Dict Kind
kinds_of nodes = map (λ n. (n.node_id, n.kind)) nodes

start-kinds :
    (nodes : List Node) (j : String) (s : NodeStatus)
    → lookup j (start nodes).nodes ≡ some s
    → lookup j (kinds_of nodes) ≡ some s.kind
unfolding start kinds_of lookup initial_node
start-kinds [] j s h = absurd (cc)
start-kinds (n ∷ nodes) j s h = elim (Bool-cases (str_eq n.node_id j)) [
  | inl e ↦ rw e (ap (λ x. some x.kind) (some-injective (initial_node n) s (rw e at h)))
  | inr e ↦ rw e (start-kinds nodes j s (rw e at h))
]

module _ (workflow_id digest : String) (nodes : List Node) where
  Changed-kinds :
      (r r' : Replay) (id : String) (s s' : NodeStatus)
      → Changed r r' id s s'
      → s'.kind ≡ s.kind
      → ((j : String) (t : NodeStatus)
          → lookup j r.nodes ≡ some t
          → lookup j (kinds_of nodes) ≡ some t.kind)
      → (j : String) (t : NodeStatus) → lookup j r'.nodes ≡ some t
      → lookup j (kinds_of nodes) ≡ some t.kind
  Changed-kinds r r' id s s' c same_kind old j t found = elim (Changed-lookup c j t found) [
    | inl (same, t_is) ↦
        ap (λ x. lookup x (kinds_of nodes)) (sym same)
        ∙ old id s c.found
        ∙ ap some (sym same_kind ∙ ap (λ x. x.kind) (sym t_is))
    | inr before ↦ old j t before
  ]

  pub replay-kinds :
      (events : List Event) (r : Replay) (j : String) (s : NodeStatus)
      → replay workflow_id digest nodes events ≡ ok r
      → lookup j r.nodes ≡ some s
      → lookup j (kinds_of nodes) ≡ some s.kind
  unfolding replay
  replay-kinds events r j s h found =
      fold_result-inv (apply_event workflow_id digest (dependencies_of nodes))
        (λ x.
          (k : String) (t : NodeStatus)
          → lookup k x.nodes ≡ some t
          → lookup k (kinds_of nodes) ≡ some t.kind)
        (λ x e y old step.
          by_step x y e.node_id
            (apply_event-Applied workflow_id digest (dependencies_of nodes) x y e step) old)
        (start nodes) events r (start-kinds nodes) h j s found
    where
      by_step :
          (x y : Replay) (id : String)
          → Applied (dependencies_of nodes) x y id
          → ((k : String) (t : NodeStatus)
              → lookup k x.nodes ≡ some t
              → lookup k (kinds_of nodes) ≡ some t.kind)
          → (k : String) (t : NodeStatus) → lookup k y.nodes ≡ some t
          → lookup k (kinds_of nodes) ≡ some t.kind
      by_step x y id (moved s s' p n c m) old = Changed-kinds x y id s s' c m.same_kind old
      by_step x y id (bound s s' b c m) old = Changed-kinds x y id s s' c m.same_kind old
