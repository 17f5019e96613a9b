-- ===== src/Workflow/Replay/Final.antt =====
-- Proofs about completed nodes in `reconstruct_workflow_status`.
use agent_workflow.Base.{
  some-injective, String, ◌≡◌, ◌∙◌, sym, ap, true, Option, some, List, Dict, lookup, str_cases, inl,
  inr, fold_result, fold_result-inv, ok, arith,
}
use agent_workflow.Workflow.Types.{NodeState, completed, allowed, Event, NodeStatus, Binding}
use agent_workflow.Workflow.Replay.{Replay, apply_event, check_binding}
use agent_workflow.Workflow.Replay.Changes.{Applied, moved, bound}
use agent_workflow.Workflow.Replay.Steps.{apply_event-Applied}

-- The node `j` is completed by the run `run`, or with none.
abbrev pub IsFinal : String → Option String → Replay → Type 0
IsFinal j run r =
    (s : NodeStatus) × (lookup j r.nodes ≡ some s) × (s.state ≡ completed) × (s.agent_run_id ≡ run)

not-allowed : (p n : NodeState) → p ≡ completed → allowed p n ≡ true → ⊥
not-allowed p n e h = ground arith

not-bindable :
    (s : NodeStatus) (b : Binding)
    → s.state ≡ completed
    → check_binding s s.agent_run_id b ≡ ok tt
    → ⊥
unfolding check_binding
not-bindable s b e h = ground arith

-- A change is never made at a completed node.
Applied-other :
    (dependencies : Dict (List String)) (r r' : Replay) (id j : String) (s : NodeStatus)
    → Applied dependencies r r' id
    → lookup j r.nodes ≡ some s
    → s.state ≡ completed
    → lookup j r'.nodes ≡ some s
Applied-other dependencies r r' id j s (moved u u' p n c m) found done = elim (str_cases id j) [
  | inl same ↦
      let u_is : s ≡ u =
        some-injective s u (sym found ∙ ap (λ k. lookup k r.nodes) (sym same) ∙ c.found) in
      absurd (not-allowed p n (sym m.before ∙ ap (λ x. x.state) (sym u_is) ∙ done) m.arrow)
  | inr other ↦ rw (c.nodes j) (rw other found)
]
Applied-other dependencies r r' id j s (bound u u' b c m) found done = elim (str_cases id j) [
  | inl same ↦
      let u_is : s ≡ u =
        some-injective s u (sym found ∙ ap (λ k. lookup k r.nodes) (sym same) ∙ c.found) in
      absurd (not-bindable u b (ap (λ x. x.state) (sym u_is) ∙ done) m.checked)
  | inr other ↦ rw (c.nodes j) (rw other found)
]

-- Events that replay after a node was completed leave it completed, with the same run.
pub apply_events-IsFinal :
    (workflow_id digest : String) (dependencies : Dict (List String)) (r r' : Replay)
    (events : List Event) (j : String) (run : Option String)
    → IsFinal j run r
    → fold_result (apply_event workflow_id digest dependencies) r events ≡ ok r'
    → IsFinal j run r'
apply_events-IsFinal workflow_id digest dependencies r r' events j run final h =
    fold_result-inv (apply_event workflow_id digest dependencies) (IsFinal j run)
      (λ s x t was step. (
        was.0,
        Applied-other dependencies s t x.node_id j was.0
            (apply_event-Applied workflow_id digest dependencies s t x step) was.1 was.2,
        was.2,
        was.3,
      ))
      r events r' final h
