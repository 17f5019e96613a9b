-- ===== src/Workflow/Replay/Runs.antt =====
-- Proofs about the Agent Run bindings in `reconstruct_workflow_status`.
use agent_workflow.Base.{
  some-injective, String, ◌≡◌, refl, ◌∙◌, sym, ap, subst, Bool, true, false, not, ◌&&◌, ◌||◌, some,
  List, ◌∷◌, Dict, lookup, str_eq_iff, str_cases, ◌⊎◌, inl, inr, elem, ok, fold_result-inv, arith,
  elem_self,
}
use agent_workflow.Workflow.Types.{
  NodeState, running, completed, state_eq, Node, Binding, Event, NodeStatus,
}
use agent_workflow.Workflow.Snapshot.{initial_node}
use agent_workflow.Workflow.Replay.{
  is_none, is_task, needs_binding, Replay, apply_event, start, dependencies_of, replay,
}
use agent_workflow.Workflow.Replay.Changes.{Changed, Moved, Bound, Applied, moved, bound}
use agent_workflow.Workflow.Replay.Steps.{apply_event-Applied}
use agent_workflow.Workflow.Replay.Dependencies.{start-lookup}

-- A task in these states, or a failed one that was not blocked, has a current run.
abbrev pub is_backed : NodeStatus → Bool
is_backed s = not (
    is_task s.kind
    && (state_eq s.state running || state_eq s.state completed)
    && is_none s.agent_run_id)

pub record HasRuns (r : Replay) : Type 0 where
  pub backed : (j : String) (s : NodeStatus) → lookup j r.nodes ≡ some s → is_backed s ≡ true
  pub seen :
      (j run : String) (s : NodeStatus)
      → lookup j r.nodes ≡ some s
      → s.agent_run_id ≡ some run
      → elem run r.seen_run_ids ≡ true
  pub unique :
      (j k run : String) (s t : NodeStatus)
      → lookup j r.nodes ≡ some s
      → lookup k r.nodes ≡ some t
      → s.agent_run_id ≡ some run
      → t.agent_run_id ≡ some run
      → j ≡ k

-- A node after the change is the node that changed, or was there before.
module _ {r r' : Replay} {id : String} {s s' : NodeStatus} (c : Changed r r' id s s') where
  pub Changed-lookup :
      (j : String) (t : NodeStatus)
      → lookup j r'.nodes ≡ some t
      → ((id ≡ j) × (t ≡ s')) ⊎ (lookup j r.nodes ≡ some t)
  Changed-lookup j t e = elim (str_cases id j) [
    | inl same ↦
        inl (same, some-injective t s' (sym e ∙ rw (c.nodes j) (rw ((str_eq_iff id j).1 same))))
    | inr other ↦ inr (sym (rw (c.nodes j) (rw other)) ∙ e)
  ]

moved-is_backed :
    (s s' : NodeStatus) (p n : NodeState)
    → s.state ≡ p
    → s'.state ≡ n
    → s'.kind ≡ s.kind
    → s'.agent_run_id ≡ s.agent_run_id
    → (is_task s.kind && needs_binding p n && is_none s.agent_run_id) ≡ false
    → is_backed s' ≡ true
unfolding needs_binding
moved-is_backed s s' p n a b k x h = rw (b, k, x) (ground arith)

elem-cons_old : (s t : String) (ts : List String) → elem s ts ≡ true → elem s (t ∷ ts) ≡ true
unfolding elem
elem-cons_old s t ts h = ground arith

module _ (r r' : Replay) (id : String) (g : HasRuns r) where
  Moved-HasRuns :
      {dependencies : Dict (List String)} (s s' : NodeStatus) (p n : NodeState)
      → Changed r r' id s s'
      → Moved dependencies r r' id s s' p n
      → HasRuns r'
  Moved-HasRuns s s' p n c m = record {
    backed = λ j t e. elim (Changed-lookup c j t e) [
      | inl (same, t_is) ↦
          subst (λ x. is_backed x ≡ true) (sym t_is)
            (moved-is_backed s s' p n m.before m.after m.same_kind m.same_run m.has_binding)
      | inr old ↦ g.backed j t old
    ];
    seen = λ j run t e bound_to.
        rw m.same_seen
          (let (u, found, same) = before j t e in g.seen j run u found (same ∙ bound_to));
    unique = λ j k run t u e f t_bound u_bound.
        let (t₀, t_found, t_same) = before j t e in
        let (u₀, u_found, u_same) = before k u f in
        g.unique j k run t₀ u₀ t_found u_found (t_same ∙ t_bound) (u_same ∙ u_bound);
  }
    where
      before :
          (j : String) (t : NodeStatus)
          → lookup j r'.nodes ≡ some t
          → (u : NodeStatus) × (lookup j r.nodes ≡ some u) × (u.agent_run_id ≡ t.agent_run_id)
      before j t e = elim (Changed-lookup c j t e) [
        | inl (same, t_is) ↦ (
          s,
          subst (λ k. lookup k r.nodes ≡ some s) same c.found,
          sym (ap (λ x. x.agent_run_id) t_is ∙ m.same_run),
        )
        | inr old ↦ (t, old, refl)
      ]

  Bound-HasRuns :
      (s s' : NodeStatus) (b : Binding) → Changed r r' id s s' → Bound r r' s s' b → HasRuns r'
  Bound-HasRuns s s' b c m = record {
    backed = λ j t e. elim (Changed-lookup c j t e) [
      | inl (same, t_is) ↦ subst (λ x. is_backed x ≡ true) (sym t_is) (rw m.new_run (ground arith))
      | inr old ↦ g.backed j t old
    ];
    seen = λ j run t e bound_to. rw m.more_seen (elim (Changed-lookup c j t e) [
      | inl (same, t_is) ↦
          subst (λ x. elem x (b.agent_run_id ∷ r.seen_run_ids) ≡ true) (new_run t run t_is bound_to)
            (elem_self b.agent_run_id r.seen_run_ids)
      | inr old ↦ elem-cons_old run b.agent_run_id r.seen_run_ids (g.seen j run t old bound_to)
    ]);
    unique = λ j k run t u e f t_bound u_bound. elim (Changed-lookup c j t e) [
      | inl (j_id, t_is) ↦ elim (Changed-lookup c k u f) [
        | inl (k_id, u_is) ↦ sym j_id ∙ k_id
        | inr old ↦ absurd (stale run k u (new_run t run t_is t_bound) old u_bound)
      ]
      | inr t_old ↦ elim (Changed-lookup c k u f) [
        | inl (k_id, u_is) ↦ absurd (stale run j t (new_run u run u_is u_bound) t_old t_bound)
        | inr u_old ↦ g.unique j k run t u t_old u_old t_bound u_bound
      ]
    ];
  }
    where
      new_run :
          (t : NodeStatus) (run : String)
          → t ≡ s'
          → t.agent_run_id ≡ some run
          → b.agent_run_id ≡ run
      new_run t run t_is h =
          some-injective b.agent_run_id run
            (sym m.new_run ∙ sym (ap (λ x. x.agent_run_id) t_is) ∙ h)

      stale :
          (run k : String) (u : NodeStatus)
          → b.agent_run_id ≡ run
          → lookup k r.nodes ≡ some u
          → u.agent_run_id ≡ some run
          → ⊥
      stale run k u e old h =
          let there = g.seen k run u old h in
          let absent = subst (λ x. elem x r.seen_run_ids ≡ false) e m.fresh in cc

start-HasRuns : (nodes : List Node) → HasRuns (start nodes)
unfolding initial_node
start-HasRuns nodes = record {
  backed = λ j s h.
      let (n, same, _) = start-lookup nodes j s h in
      subst (λ x. is_backed x ≡ true) (sym same) (ground arith);
  seen = λ j run s h e.
      let (n, same, _) = start-lookup nodes j s h in
      absurd (unbound n run (sym (ap (λ x. x.agent_run_id) same) ∙ e));
  unique = λ j k run s t h _ e _.
      let (n, same, _) = start-lookup nodes j s h in
      absurd (unbound n run (sym (ap (λ x. x.agent_run_id) same) ∙ e));
}
  where
    unbound : (n : Node) (run : String) → (initial_node n).agent_run_id ≡ some run → ⊥
    unbound n run e = cc

Applied-HasRuns :
    (dependencies : Dict (List String)) (r r' : Replay) (id : String)
    → Applied dependencies r r' id
    → HasRuns r
    → HasRuns r'
Applied-HasRuns dependencies r r' id (moved s s' p n c m) g = Moved-HasRuns r r' id g s s' p n c m
Applied-HasRuns dependencies r r' id (bound s s' b c m) g = Bound-HasRuns r r' id g s s' b c m

-- Whatever journal replays, no Agent Run is the current run of two nodes, every current run is
-- among those that replay has seen, and a task that is running or completed has a current run.
pub replay-HasRuns :
    (workflow_id digest : String) (nodes : List Node) (events : List Event) (r : Replay)
    → replay workflow_id digest nodes events ≡ ok r
    → HasRuns r
unfolding replay
replay-HasRuns workflow_id digest nodes events r h =
    let dependencies = dependencies_of nodes in
    fold_result-inv (apply_event workflow_id digest dependencies) HasRuns
      (λ s x t runs step.
        Applied-HasRuns dependencies s t x.node_id
          (apply_event-Applied workflow_id digest dependencies s t x step) runs)
      (start nodes) events r (start-HasRuns nodes) h

-- Whatever journal replays, no Agent Run is the current run of two nodes.
pub replay-runs_distinct :
    (workflow_id digest : String) (nodes : List Node) (events : List Event) (r : Replay)
    (j k run : String) (s t : NodeStatus)
    → replay workflow_id digest nodes events ≡ ok r
    → lookup j r.nodes ≡ some s
    → lookup k r.nodes ≡ some t
    → s.agent_run_id ≡ some run
    → t.agent_run_id ≡ some run
    → j ≡ k
replay-runs_distinct workflow_id digest nodes events r j k run s t h found other runs also =
    (replay-HasRuns workflow_id digest nodes events r h).unique j k run s t found other runs also
