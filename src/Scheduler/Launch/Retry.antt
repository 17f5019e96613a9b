-- ===== src/Scheduler/Launch/Retry.antt =====
-- Proofs about `_bind` of scheduler.py for the retry of a node that was never bound.
use agent_workflow.Base.{
  some-injective, ℕ, ◌+◌, String, ◌≡◌, ◌≢◌, refl, ◌∙◌, sym, ap, subst, true, not, ◌||◌, Option,
  none, some, List, [], ◌∷◌, ◌++◌, str_eq, ok, err, with_ok, with_require, Bool-cases, inl, inr,
  arith, with_fold_step, ◌⊎◌, Result-cases, lookup,
}
use agent_workflow.Workflow.Types.{
  NodeState, eligible, failed, recoverable, state_eq, Node, Binding, node_bound, Event, NodeStatus,
  unknown_node, invalid_id, not_current, cannot_bind, not_eligible, different_workflow,
  digest_mismatch, blocked, running, completed,
}
use mathlib.Core.List.{append_assoc}
use agent_workflow.Workflow.Ids.{validate_id}
use agent_workflow.Scheduler.Reconcile.{Context, SchedulerError, workflow}
use agent_workflow.Scheduler.Launch.{
  World, LaunchPlan, run_id, text_of, str_of, next_attempt, bind_run, bind_retry, write,
}
use agent_workflow.Workflow.Events.{event_of, record_workflow_binding, record_workflow_transition}
use agent_workflow.Workflow.Events.Append.{
  numbered, record_workflow_binding-reads, record_workflow_transition-reads,
}
use agent_workflow.Workflow.Replay.Changes.{get-eq-ok}
use agent_workflow.Workflow.Replay.{
  get, check_binding, binding_record, Replay, bind_node, apply_body, apply_event, start,
  dependencies_of, replay,
}

first_test :
    (b : Binding) {u : Unit {0}} (t : NodeStatus)
    → check_binding t none b ≡ ok u
    → state_eq t.state eligible ≡ true
unfolding check_binding
first_test b t h = with_require (state_eq t.state eligible) not_eligible _ h λ e _. e

not_both : (x : NodeState) → x ≡ failed → state_eq x eligible ≡ true → ⊥
not_both x e k = ground arith

-- A failed node with no run cannot be bound, whatever the binding says.
bind_node_unbound :
    (r r' : Replay) (id : String) (b : Binding) (s : NodeStatus)
    → lookup id r.nodes ≡ some s
    → s.state ≡ failed
    → s.agent_run_id ≡ none
    → bind_node r id b ≢ ok r'
unfolding bind_node
bind_node_unbound r r' id b s found at_failed unbound h =
    with_ok (get r.nodes id unknown_node) _ h λ t got h₁.
      with_ok (binding_record id b) _ h₁ λ _ _ h₂. with_require b.current not_current _ h₂ λ _ h₃.
        with_require
          (not (state_eq t.state blocked || state_eq t.state running || state_eq t.state completed))
          cannot_bind _ h₃
          λ _ h₄. with_ok (check_binding t t.agent_run_id b) _ h₄ λ u checked _.
            let same : t ≡ s =
              some-injective t s (sym (get-eq-ok r.nodes id unknown_node got) ∙ found) in
            refused t (ap (λ x. x.state) same ∙ at_failed) (
              subst (λ run. check_binding t run b ≡ ok u) (ap (λ x. x.agent_run_id) same ∙ unbound)
                checked)
  where
    refused : {u : Unit {0}} (t : NodeStatus) → t.state ≡ failed → check_binding t none b ≡ ok u → ⊥
    refused t e k = not_both t.state e (first_test b t k)

-- No journal with such a binding replays, whatever stands behind it.
replay_unbound :
    (workflow_id digest : String) (nodes : List Node) (journal more : List Event) (event : Event)
    (b : Binding) (r r' : Replay) (s : NodeStatus)
    → replay workflow_id digest nodes journal ≡ ok r
    → lookup event.node_id r.nodes ≡ some s
    → s.state ≡ failed
    → s.agent_run_id ≡ none
    → event.body ≡ node_bound b
    → replay workflow_id digest nodes (journal ++ event ∷ more) ≢ ok r'
unfolding replay apply_event apply_body
replay_unbound workflow_id digest nodes journal more event b r r' s h found at_failed unbound is k =
    with_fold_step (apply_event workflow_id digest (dependencies_of nodes)) (start nodes) journal
      event more h k
      λ v step.
        with_require (str_eq event.workflow_id workflow_id) different_workflow _ step λ _ step₁.
          with_require (str_eq event.snapshot_sha256 digest) digest_mismatch _ step₁ λ _ step₂.
            bind_node_unbound (record r { event_count = r.event_count + 1 }) v event.node_id b s
              found at_failed unbound
              (subst
                (λ body.
                  apply_body (dependencies_of nodes) (record r { event_count = r.event_count + 1 })
                    event body
                  ≡ ok v)
                is step₂)

-- What a call leaves: the journal as it was, or with a binding of the node behind it.
data Leaves (id : String) (journal : List Event) (journal' : List Event) : Type 0 where
  same : journal' ≡ journal → Leaves id journal journal'
  more :
      (event : Event) (rest : List Event) (b : Binding)
      → event.node_id ≡ id
      → event.body ≡ node_bound b
      → journal' ≡ journal ++ event ∷ rest
      → Leaves id journal journal'

append_nil_cons : (xs : List Event) (x y : Event) → (xs ++ x ∷ []) ++ y ∷ [] ≡ xs ++ x ∷ y ∷ []
append_nil_cons xs x y = append_assoc xs (x ∷ []) (y ∷ [])

module _ (c : Context) (w : World) where
  -- A call of `_bind` for one attempt writes nothing and raises, or writes the binding.
  bind_run-cases :
      (node : Node) (attempt : ℕ) (retry_of : Option String) (journal : List Event)
      → ((e : SchedulerError) × (bind_run c w node attempt retry_of journal ≡ (err e, journal)))
        ⊎ ((plan : LaunchPlan) × (event : Event) × (b : Binding) × (event.node_id ≡ node.node_id)
            × (event.body ≡ node_bound b)
            × (bind_run c w node attempt retry_of journal ≡ (ok plan, journal ++ event ∷ [])))
  unfolding bind_run
  bind_run-cases node attempt retry_of journal =
      let run = run_id (text_of node.agent_run_id) attempt in
      let b : Binding = record {
        agent_run_id = run;
        attempt = attempt;
        retry_of_agent_run_id = retry_of;
        bound_at = w.now;
        current = true;
      } in
      let reason : String = "scheduler launch binding" in
      elim (Bool-cases (validate_id run)) [
        | inr bad ↦ inl (workflow invalid_id, rw bad)
        | inl good ↦
            elim (Result-cases
              (record_workflow_binding c.ext c.stamp node.node_id reason b journal)) [
                | inr (e, failed_write) ↦ inl (workflow e, rw good (rw (failed_write, write)))
                | inl (journal', written) ↦
                    let parts =
                      record_workflow_binding-reads c.ext c.stamp node.node_id reason b journal
                        journal' written in
                    inr (
                      record {
                        node_id = node.node_id;
                        agent_run_id = run;
                        attempt = attempt;
                        retry_of_agent_run_id = retry_of;
                      },
                      numbered (event_of c.stamp node.node_id reason (node_bound b)) journal,
                      b,
                      refl,
                      refl,
                      rw good (rw (written, write) (rw parts.4)),
                    )
              ]
      ]

  bind_retry-Leaves :
      (node : Node) (current : NodeStatus) (journal : List Event)
      → current.state ≡ failed
      → Leaves node.node_id journal (bind_retry c w node current journal).1
  unfolding bind_retry
  bind_retry-Leaves node current journal at_failed =
      let may_retry : (state_eq current.state failed || state_eq current.state recoverable) ≡ true =
        ground arith in
      let retry_of = some (str_of current.agent_run_id) in
      rw may_retry (elim (bind_run-cases node (next_attempt current.attempt) retry_of journal) [
        | inl (e, raised) ↦ rw raised (same refl)
        | inr (plan, event, b, named, bound_to, wrote) ↦
            let journal₁ = journal ++ event ∷ [] in
            let reason : String = "retry binding is eligible" in
            rw wrote
              (elim (Result-cases (
                record_workflow_transition c.ext c.stamp node.node_id reason current.state eligible
                  none journal₁)) [
                    | inr (e, failed_write) ↦
                        rw (failed_write, write) (more event [] b named bound_to refl)
                    | inl (journal₂, written) ↦
                        let parts =
                          record_workflow_transition-reads c.ext c.stamp node.node_id reason
                            current.state eligible none journal₁ journal₂ written in
                        rw (written, write)
                          (more event (_ ∷ []) b named bound_to
                            (parts.1 ∙ append_nil_cons journal event _))
                  ])
      ])

-- A failed task that was never bound (its prerequisite failed before it could run) cannot be
-- retried: the call changes nothing, or it leaves a journal that no longer replays.
pub bind_retry-unbound :
    (c : Context) (w : World) (node : Node) (s : NodeStatus) (journal : List Event) (r r' : Replay)
    → replay c.stamp.workflow_id c.stamp.snapshot_sha256 c.snapshot.nodes journal ≡ ok r
    → lookup node.node_id r.nodes ≡ some s
    → s.state ≡ failed
    → s.agent_run_id ≡ none
    → (bind_retry c w node s journal).1 ≢ journal
    → replay c.stamp.workflow_id c.stamp.snapshot_sha256 c.snapshot.nodes
        (bind_retry c w node s journal).1
      ≢ ok r'
bind_retry-unbound c w node s journal r r' h found at_failed unbound changed k =
    go (bind_retry c w node s journal).1 (bind_retry-Leaves c w node s journal at_failed) changed k
  where
    go :
        (journal' : List Event)
        → Leaves node.node_id journal journal'
        → journal' ≢ journal
        → replay c.stamp.workflow_id c.stamp.snapshot_sha256 c.snapshot.nodes journal' ≡ ok r'
        → ⊥
    go journal' (same e) changed k = changed e
    go journal' (more event rest b named is e) changed k =
        replay_unbound c.stamp.workflow_id c.stamp.snapshot_sha256 c.snapshot.nodes journal rest
          event b r r' s h (ap (λ id. lookup id r.nodes) named ∙ found) at_failed unbound is
          (ap (replay c.stamp.workflow_id c.stamp.snapshot_sha256 c.snapshot.nodes) (sym e) ∙ k)
