-- ===== src/Workflow/Replay/Changes.antt =====
-- Proofs about the effect of a step in the loop of `reconstruct_workflow_status`.
use agent_workflow.Base.{
  String, ◌≡◌, refl, sym, ap, Bool, true, false, not, ◌&&◌, ◌||◌, some, List, ◌∷◌, Dict, lookup,
  insert, lookup-insert, if◌then◌else◌, str_eq, elem, ok, with_ok, with_require, ok-injective,
  arith,
}
use agent_workflow.Workflow.Types.{
  NodeState, blocked, eligible, running, completed, failed, recoverable, state_eq, allowed, Binding,
  NodeStatus, WorkflowError, unknown_node, not_current, cannot_bind, run_reused,
}
use agent_workflow.Workflow.Replay.{
  get, is_none, is_task, needs_binding, retried, check_dependencies, check_binding, Replay,
  bind_node, binding_record,
}

pub get-eq-ok {ℓ} :
    {V : Type ℓ} (m : Dict V) (k : String) (e : WorkflowError) {v : V}
    → get m k e ≡ ok v
    → lookup k m ≡ some v
unfolding get
get-eq-ok m k e h = ground arith

-- `r'` differs from `r` at the node `id` alone, which was `s` and is `s'`.
pub record Changed (r r' : Replay) (id : String) (s s' : NodeStatus) : Type 0 where
  pub found : lookup id r.nodes ≡ some s
  pub nodes : (j : String) → lookup j r'.nodes ≡ (if str_eq id j then some s' else lookup j r.nodes)
  pub exact : r'.nodes ≡ insert id s' r.nodes
  pub same_id : s'.node_id ≡ s.node_id

-- A transition from `p` to `n`.
pub record Moved (dependencies : Dict (List String)) (r r' : Replay) (id : String)
    (s s' : NodeStatus) (p n : NodeState) : Type 0 where
  pub before : s.state ≡ p
  pub arrow : allowed p n ≡ true
  pub after : s'.state ≡ n
  pub same_kind : s'.kind ≡ s.kind
  pub same_run : s'.agent_run_id ≡ s.agent_run_id
  pub same_attempt : s'.attempt ≡ s.attempt
  pub same_lineage : s'.retry_of_agent_run_id ≡ s.retry_of_agent_run_id
  pub has_binding : (is_task s.kind && needs_binding p n && is_none s.agent_run_id) ≡ false
  pub depends : List String
  pub depends_found : lookup id dependencies ≡ some depends
  pub depends_done :
      check_dependencies (state_eq p blocked && state_eq n eligible) r.nodes depends ≡ ok tt
  pub has_retry :
      ((state_eq p failed || state_eq p recoverable)
        && state_eq n eligible
        && not (retried s.attempt))
      ≡ false
  pub same_seen : r'.seen_run_ids ≡ r.seen_run_ids

-- A new binding `b`.
pub record Bound (r r' : Replay) (s s' : NodeStatus) (b : Binding) : Type 0 where
  pub checked : check_binding s s.agent_run_id b ≡ ok tt
  pub fresh : elem b.agent_run_id r.seen_run_ids ≡ false
  pub same_state : s'.state ≡ s.state
  pub same_kind : s'.kind ≡ s.kind
  pub new_run : s'.agent_run_id ≡ some b.agent_run_id
  pub new_attempt : s'.attempt ≡ some b.attempt
  pub new_lineage : s'.retry_of_agent_run_id ≡ b.retry_of_agent_run_id
  pub more_seen : r'.seen_run_ids ≡ b.agent_run_id ∷ r.seen_run_ids

pub data Applied (dependencies : Dict (List String)) (r r' : Replay) (id : String) : Type 0 where
  moved :
      (s s' : NodeStatus) (p n : NodeState)
      → Changed r r' id s s'
      → Moved dependencies r r' id s s' p n
      → Applied dependencies r r' id
  bound :
      (s s' : NodeStatus) (b : Binding)
      → Changed r r' id s s'
      → Bound r r' s s' b
      → Applied dependencies r r' id

pub not-eq-true : (b : Bool) → not b ≡ true → b ≡ false
not-eq-true b h = ground arith

pub bind_node-Applied :
    (dependencies : Dict (List String)) (r r' : Replay) (id : String) (b : Binding)
    → bind_node r id b ≡ ok r'
    → Applied dependencies r r' id
unfolding bind_node
bind_node-Applied dependencies r r' id b h = with_ok (get r.nodes id unknown_node) _ h λ s got h₁.
    with_ok (binding_record id b) _ h₁ λ u recorded h₂.
      with_require b.current not_current _ h₂ λ current h₃.
        with_require
          (not (state_eq s.state blocked || state_eq s.state running || state_eq s.state completed))
          cannot_bind _ h₃
          λ bindable h₄. with_ok (check_binding s s.agent_run_id b) _ h₄ λ v checked h₅.
            with_require (not (elem b.agent_run_id r.seen_run_ids)) run_reused _ h₅ λ unused e.
              let after : NodeStatus = record s {
                agent_run_id = some b.agent_run_id;
                attempt = some b.attempt;
                retry_of_agent_run_id = b.retry_of_agent_run_id;
                bound_at = some b.bound_at;
              } in
              let e_nodes : r'.nodes ≡ insert id after r.nodes =
                sym (ap (λ x. x.nodes) (ok-injective e)) in
              bound s after b
                (record {
                  found = get-eq-ok r.nodes id unknown_node got;
                  nodes = λ j. rw e_nodes (lookup-insert id j after r.nodes);
                  exact = e_nodes;
                  same_id = refl;
                })
                (record {
                  checked = checked;
                  fresh = not-eq-true _ unused;
                  same_state = refl;
                  same_kind = refl;
                  new_run = refl;
                  new_attempt = refl;
                  new_lineage = refl;
                  more_seen = sym (ap (λ x. x.seen_run_ids) (ok-injective e));
                })
