-- ===== src/Workflow/Replay/Steps.antt =====
-- Proofs about the two kinds of step in the loop of `reconstruct_workflow_status`.
use agent_workflow.Base.{
  some-injective, ℕ, ◌+◌, String, ◌≡◌, refl, ◌∙◌, sym, ap, true, false, not, ◌&&◌, ◌||◌, Option,
  none, some, List, Dict, lookup, insert, lookup-insert, insert-insert, if◌then◌else◌, str_eq,
  str_eq_refl, ok, with_ok, with_require, ok-injective, arith,
}
use agent_workflow.Workflow.Types.{
  NodeState, blocked, eligible, failed, recoverable, state_eq, allowed, Details, EventBody,
  node_bound, node_transition, Event, NodeStatus, missing_key, unknown_node, transition_mismatch,
  invalid_transition, no_binding, no_newer_binding, different_workflow, digest_mismatch,
}
use agent_workflow.Workflow.Replay.{
  get, is_none, is_task, needs_binding, retried, check_dependencies, transition_summary,
  note_details, Replay, move_node, apply_body, apply_event, transition_record, terminal_reason_of,
}
use agent_workflow.Workflow.Replay.Changes.{
  Applied, bind_node-Applied, bound, get-eq-ok, moved, not-eq-true,
}

-- Two writes at one key are the last of them.
lookup-insert_twice :
    (id j : String) (u v : NodeStatus) (m : Dict NodeStatus)
    → lookup j (insert id v (insert id u m)) ≡ (if str_eq id j then some v else lookup j m)
lookup-insert_twice id j u v m =
    ground (arith, lookup-insert id j v (insert id u m), lookup-insert id j u m)

record Summarised (nodes nodes' : Dict NodeStatus) (dependencies : Dict (List String))
    (id reason : String) (p n : NodeState) : Type 0 where
  s : NodeStatus
  found : lookup id nodes ≡ some s
  before : state_eq s.state p ≡ true
  arrow : allowed p n ≡ true
  has_binding : (is_task s.kind && needs_binding p n && is_none s.agent_run_id) ≡ false
  depends : List String
  depends_found : lookup id dependencies ≡ some depends
  depends_done :
      check_dependencies (state_eq p blocked && state_eq n eligible) nodes depends ≡ ok tt
  has_retry :
      ((state_eq p failed || state_eq p recoverable)
        && state_eq n eligible
        && not (retried s.attempt))
      ≡ false
  result :
      nodes'
      ≡ insert id (record s { state = n; terminal_reason = terminal_reason_of n reason }) nodes

transition_summary-Summarised :
    (nodes nodes' : Dict NodeStatus) (dependencies : Dict (List String)) (id reason : String)
    (p n : NodeState)
    → transition_summary nodes dependencies id p n reason ≡ ok nodes'
    → Summarised nodes nodes' dependencies id reason p n
unfolding transition_summary
transition_summary-Summarised nodes nodes' dependencies id reason p n h =
    with_ok (get nodes id unknown_node) _ h λ s got h₁.
      with_require _ transition_mismatch _ h₁ λ before h₂.
        with_require _ invalid_transition _ h₂ λ arrow h₃.
          with_require _ no_binding _ h₃ λ has_binding h₄.
            with_ok (get dependencies id missing_key) _ h₄ λ depends found h₅.
              with_ok (check_dependencies _ nodes depends) _ h₅ λ u done h₆.
                with_require _ no_newer_binding _ h₆ λ has_retry e. record {
                  s = s;
                  found = get-eq-ok nodes id unknown_node got;
                  before = before;
                  arrow = arrow;
                  has_binding = not-eq-true _ has_binding;
                  depends = depends;
                  depends_found = get-eq-ok dependencies id missing_key found;
                  depends_done = done;
                  has_retry = not-eq-true _ has_retry;
                  result = sym (ok-injective e);
                }

note_details-same :
    (d : Option Details) (s : NodeStatus)
    → ((note_details d s).state ≡ s.state)
      × ((note_details d s).kind ≡ s.kind)
      × ((note_details d s).agent_run_id ≡ s.agent_run_id)
      × ((note_details d s).attempt ≡ s.attempt)
      × ((note_details d s).retry_of_agent_run_id ≡ s.retry_of_agent_run_id)
unfolding note_details
note_details-same none s = (refl, refl, refl, refl, refl)
note_details-same (some d) s = (refl, refl, refl, refl, refl)

note_details-same_id :
    (d : Option Details) (s : NodeStatus) → (note_details d s).node_id ≡ s.node_id
unfolding note_details
note_details-same_id none s = refl
note_details-same_id (some d) s = refl

pub state_eq→eq : (a b : NodeState) → state_eq a b ≡ true → a ≡ b
state_eq→eq a b h = ground arith

move_node-Applied :
    (dependencies : Dict (List String)) (r r' : Replay) (id : String) (p n : NodeState)
    (reason : String) (details : Option Details)
    → move_node dependencies r id p n reason details ≡ ok r'
    → Applied dependencies r r' id
unfolding move_node
move_node-Applied dependencies r r' id p n reason details h =
    with_ok (transition_record p n reason) _ h λ u recorded h₁.
      with_ok (transition_summary r.nodes dependencies id p n reason) _ h₁ λ nodes' summary h₂.
        with_ok (get nodes' id unknown_node) _ h₂ λ t got e.
          let sum =
            transition_summary-Summarised r.nodes nodes' dependencies id reason p n summary in
          let mid : NodeStatus = record (sum.s) {
            state = n;
            terminal_reason = terminal_reason_of n reason;
          } in
          let same_t : t ≡ mid = moved_to nodes' t mid got sum.result in
          let final = note_details details t in
          let e_nodes : r'.nodes ≡ insert id final nodes' =
            sym (ap (λ x. x.nodes) (ok-injective e)) in
          let (f_state, f_kind, f_run, f_attempt, f_lineage) = note_details-same details t in
          moved sum.s final p n
            (record {
              found = sum.found;
              nodes = λ j. rw (e_nodes, sum.result) (lookup-insert_twice id j mid final r.nodes);
              exact =
                  e_nodes ∙ ap (insert id final) sum.result ∙ insert-insert id mid final r.nodes;
              same_id = note_details-same_id details t ∙ ap (λ x. x.node_id) same_t;
            })
            (record {
              before = state_eq→eq sum.s.state p sum.before;
              arrow = sum.arrow;
              after = f_state ∙ ap (λ x. x.state) same_t;
              same_kind = f_kind ∙ ap (λ x. x.kind) same_t;
              same_run = f_run ∙ ap (λ x. x.agent_run_id) same_t;
              same_attempt = f_attempt ∙ ap (λ x. x.attempt) same_t;
              same_lineage = f_lineage ∙ ap (λ x. x.retry_of_agent_run_id) same_t;
              has_binding = sum.has_binding;
              depends = sum.depends;
              depends_found = sum.depends_found;
              depends_done = sum.depends_done;
              has_retry = sum.has_retry;
              same_seen = sym (ap (λ x. x.seen_run_ids) (ok-injective e));
            })
  where
    moved_to :
        (nodes' : Dict NodeStatus) (t mid : NodeStatus)
        → get nodes' id unknown_node ≡ ok t
        → nodes' ≡ insert id mid r.nodes
        → t ≡ mid
    moved_to nodes' t mid got e =
        let there = get-eq-ok nodes' id unknown_node got in
        let mid_there : lookup id (insert id mid r.nodes) ≡ some mid =
          simp (lookup-insert, str_eq_refl) in
        some-injective t mid (sym there ∙ ap (lookup id) e ∙ mid_there)

apply_body-Applied :
    (dependencies : Dict (List String)) (r r' : Replay) (event : Event) (body : EventBody)
    → apply_body dependencies r event body ≡ ok r'
    → Applied dependencies r r' event.node_id
unfolding apply_body
apply_body-Applied dependencies r r' event (node_bound b) h =
    bind_node-Applied dependencies r r' event.node_id b h
apply_body-Applied dependencies r r' event (node_transition p n details) h =
    move_node-Applied dependencies r r' event.node_id p n event.reason details h

-- The event counter is no part of what `Applied` states.
uncount :
    {dependencies : Dict (List String)} {r' : Replay} {id : String} (r : Replay) (n : ℕ)
    → Applied dependencies (record r { event_count = n }) r' id
    → Applied dependencies r r' id
uncount r n (moved s s' p q c m) =
    moved s s' p q
      (record { found = c.found; nodes = c.nodes; exact = c.exact; same_id = c.same_id })
      (record {
        before = m.before;
        arrow = m.arrow;
        after = m.after;
        same_kind = m.same_kind;
        same_run = m.same_run;
        same_attempt = m.same_attempt;
        same_lineage = m.same_lineage;
        has_binding = m.has_binding;
        depends = m.depends;
        depends_found = m.depends_found;
        depends_done = m.depends_done;
        has_retry = m.has_retry;
        same_seen = m.same_seen;
      })
uncount r n (bound s s' b c d) =
    bound s s' b (record { found = c.found; nodes = c.nodes; exact = c.exact; same_id = c.same_id })
      (record {
        checked = d.checked;
        fresh = d.fresh;
        same_state = d.same_state;
        same_kind = d.same_kind;
        new_run = d.new_run;
        new_attempt = d.new_attempt;
        new_lineage = d.new_lineage;
        more_seen = d.more_seen;
      })

pub apply_event-Applied :
    (workflow_id digest : String) (dependencies : Dict (List String)) (r r' : Replay)
    (event : Event)
    → apply_event workflow_id digest dependencies r event ≡ ok r'
    → Applied dependencies r r' event.node_id
unfolding apply_event
apply_event-Applied workflow_id digest dependencies r r' event h =
    with_require (str_eq event.workflow_id workflow_id) different_workflow _ h λ same h₁.
      with_require (str_eq event.snapshot_sha256 digest) digest_mismatch _ h₁ λ digest_same h₂.
        uncount r (r.event_count + 1) (apply_body-Applied dependencies _ r' event event.body h₂)
