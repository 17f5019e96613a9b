-- ===== src/Workflow/Replay/Dependencies.antt =====
-- Proofs about the dependency gate of `reconstruct_workflow_status`.
use agent_workflow.Base.{
  some-injective, ℕ, String, ◌≡◌, ◌∙◌, sym, ap, subst, Bool, true, false, not, ◌&&◌, ◌||◌, some,
  List, [], ◌∷◌, Dict, lookup, if◌then◌else◌, str_eq, str_eq_iff, Bool-cases, str_cases, All,
  All-map, ◌⊎◌, inl, inr, ok, with_ok, require-true, ok-injective, fold_result-inv, arith,
}
use agent_workflow.Workflow.Types.{
  NodeState, Binding, blocked, eligible, completed, failed, recoverable, state_eq, allowed, Node,
  Event, NodeStatus, missing_key, unresolved_dependencies,
}
use agent_workflow.Workflow.Snapshot.{initial_node}
use agent_workflow.Workflow.Replay.{
  get, is_none, is_nil, retried, unresolved, check_dependencies, check_binding, Replay, apply_event,
  start, dependencies_of, replay,
}
use agent_workflow.Workflow.Replay.Changes.{get-eq-ok, Changed, Applied, moved, bound}
use agent_workflow.Workflow.Replay.Steps.{state_eq→eq, apply_event-Applied}

-- The node `d` is completed.
abbrev pub IsCompleted : Dict NodeStatus → String → Type 0
IsCompleted nodes d = (t : NodeStatus) × (lookup d nodes ≡ some t) × (t.state ≡ completed)

-- The node has passed its dependency gate: it is past `blocked`, or it was once bound to a run.
abbrev pub is_released : NodeStatus → Bool
is_released s =
    not (state_eq s.state blocked || state_eq s.state failed) || not (is_none s.agent_run_id)

-- A run has an attempt number, and a node with no run has none.
abbrev pub has_attempts : NodeStatus → Bool
has_attempts s = if is_none s.agent_run_id then is_none s.attempt else not (is_none s.attempt)

-- What holds of the nodes after any replay.
pub record IsGated (dependencies : Dict (List String)) (r : Replay) : Type 0 where
  pub attempts : (j : String) (s : NodeStatus) → lookup j r.nodes ≡ some s → has_attempts s ≡ true
  pub gate :
      (j : String) (s : NodeStatus) (ds : List String)
      → lookup j r.nodes ≡ some s
      → is_released s ≡ true
      → lookup j dependencies ≡ some ds
      → All (IsCompleted r.nodes) ds

unresolved-nil :
    (nodes : Dict NodeStatus) (ds open_ds : List String)
    → unresolved nodes ds ≡ ok open_ds
    → is_nil open_ds ≡ true
    → All (IsCompleted nodes) ds
unfolding unresolved
unresolved-nil nodes [] open_ds h e = tt
unresolved-nil nodes (d ∷ ds) open_ds h e = with_ok (get nodes d missing_key) _ h λ s got h₁.
    with_ok (unresolved nodes ds) _ h₁ λ rest more h₂.
      let result = ok-injective h₂ in
      let parts : (state_eq s.state completed ≡ true) × (is_nil rest ≡ true) =
        nil_parts s rest open_ds result e in
      (
        (s, get-eq-ok nodes d missing_key got, state_eq→eq s.state completed parts.0),
        unresolved-nil nodes ds rest more parts.1,
      )
  where
    nil_parts :
        (s : NodeStatus) (rest open_ds : List String)
        → (if state_eq s.state completed then rest else d ∷ rest) ≡ open_ds
        → is_nil open_ds ≡ true
        → (state_eq s.state completed ≡ true) × (is_nil rest ≡ true)
    nil_parts s rest open_ds r e = ground arith

check_dependencies-IsCompleted :
    (nodes : Dict NodeStatus) (ds : List String)
    → check_dependencies true nodes ds ≡ ok tt
    → All (IsCompleted nodes) ds
unfolding check_dependencies
check_dependencies-IsCompleted nodes ds h = with_ok (unresolved nodes ds) _ h λ open_ds found h₁.
    unresolved-nil nodes ds open_ds found (require-true (is_nil open_ds) unresolved_dependencies h₁)

-- No transition leaves `completed`, and a binding keeps the state.
completed-Changed :
    (r r' : Replay) (id : String) (s s' : NodeStatus)
    → Changed r r' id s s'
    → (s.state ≡ completed → s'.state ≡ completed)
    → (d : String) → IsCompleted r.nodes d
    → IsCompleted r'.nodes d
completed-Changed r r' id s s' c keeps d (t, found, done) = elim (str_cases id d) [
  | inl e ↦
      let same : s ≡ t = some-injective s t (sym c.found ∙ ap (λ k. lookup k r.nodes) e ∙ found) in
      (s', rw (c.nodes d) (rw ((str_eq_iff id d).1 e)), keeps (ap (λ x. x.state) same ∙ done))
  | inr ne ↦ (t, rw (c.nodes d) (rw ne found), done)
]

moved-keeps_completed :
    (p n : NodeState) (a b : NodeState)
    → a ≡ p
    → allowed p n ≡ true
    → b ≡ n
    → a ≡ completed
    → b ≡ completed
moved-keeps_completed p n a b x y z c = ground arith

moved-has_attempts :
    (s s' : NodeStatus)
    → s'.agent_run_id ≡ s.agent_run_id
    → s'.attempt ≡ s.attempt
    → has_attempts s ≡ true
    → has_attempts s' ≡ true
moved-has_attempts s s' x y h = rw (x, y) h

bound-has_attempts :
    (s' : NodeStatus) (run : String) (n : ℕ)
    → s'.agent_run_id ≡ some run
    → s'.attempt ≡ some n
    → has_attempts s' ≡ true
bound-has_attempts s' run n x y = rw (x, y)

-- A node that a transition releases was released before, or passed the gate just now.
moved-released :
    (s s' : NodeStatus) (p n : NodeState)
    → s.state ≡ p
    → s'.state ≡ n
    → allowed p n ≡ true
    → s'.agent_run_id ≡ s.agent_run_id
    → has_attempts s ≡ true
    → ((state_eq p failed || state_eq p recoverable)
        && state_eq n eligible
        && not (retried s.attempt))
      ≡ false
    → is_released s' ≡ true
    → (is_released s ≡ true) ⊎ ((state_eq p blocked && state_eq n eligible) ≡ true)
unfolding retried
moved-released s s' p n x y a z h t e = ground arith

bound-released :
    (s : NodeStatus) (b : Binding) → check_binding s s.agent_run_id b ≡ ok tt → is_released s ≡ true
unfolding check_binding
bound-released s b h = ground arith

-- The gate after a change of one node, from its part before and at the node that changed.
gate-Changed :
    (dependencies : Dict (List String)) (r r' : Replay) (id : String) (s s' : NodeStatus)
    → Changed r r' id s s'
    → (s.state ≡ completed → s'.state ≡ completed)
    → IsGated dependencies r
    → has_attempts s' ≡ true
    → ((ds : List String)
        → is_released s' ≡ true
        → lookup id dependencies ≡ some ds
        → All (IsCompleted r.nodes) ds)
    → IsGated dependencies r'
gate-Changed dependencies r r' id s s' c keeps g attempts released = record {
  attempts = λ j t e. elim (str_cases id j) [
    | inl same ↦ subst (λ x. has_attempts x ≡ true) (at_id j t same e) attempts
    | inr other ↦ g.attempts j t (elsewhere j t other e)
  ];
  gate = λ j t ds e open_t found.
      All-map (IsCompleted r.nodes) (IsCompleted r'.nodes) (completed-Changed r r' id s s' c keeps)
        ds
        (elim (str_cases id j) [
          | inl same ↦
              released ds (subst (λ x. is_released x ≡ true) (sym (at_id j t same e)) open_t)
                (subst (λ k. lookup k dependencies ≡ some ds) (sym same) found)
          | inr other ↦ g.gate j t ds (elsewhere j t other e) open_t found
        ]);
}
  where
    at_id : (j : String) (t : NodeStatus) → id ≡ j → lookup j r'.nodes ≡ some t → s' ≡ t
    at_id j t same e =
        some-injective s' t (sym (rw (c.nodes j) (rw ((str_eq_iff id j).1 same))) ∙ e)

    elsewhere :
        (j : String) (t : NodeStatus)
        → str_eq id j ≡ false
        → lookup j r'.nodes ≡ some t
        → lookup j r.nodes ≡ some t
    elsewhere j t other e = sym (rw (c.nodes j) (rw other)) ∙ e

Applied-IsGated :
    (dependencies : Dict (List String)) (r r' : Replay) (id : String)
    → Applied dependencies r r' id
    → IsGated dependencies r
    → IsGated dependencies r'
Applied-IsGated dependencies r r' id (moved s s' p n c m) g =
    let had = g.attempts id s c.found in
    gate-Changed dependencies r r' id s s' c
      (moved-keeps_completed p n s.state s'.state m.before m.arrow m.after) g
      (moved-has_attempts s s' m.same_run m.same_attempt had)
      λ ds open_s' found.
        elim (moved-released s s' p n m.before m.after m.arrow m.same_run had m.has_retry open_s') [
          | inl open_s ↦ g.gate id s ds c.found open_s found
          | inr gated ↦
              subst (All (IsCompleted r.nodes))
                (some-injective m.depends ds (sym m.depends_found ∙ found))
                (check_dependencies-IsCompleted r.nodes m.depends (rw gated at m.depends_done))
        ]
Applied-IsGated dependencies r r' id (bound s s' b c m) g =
    gate-Changed dependencies r r' id s s' c (λ e. m.same_state ∙ e) g
      (bound-has_attempts s' b.agent_run_id b.attempt m.new_run m.new_attempt)
      λ ds open_s' found. g.gate id s ds c.found (bound-released s b m.checked) found

-- Every node that replay starts from is the initial status of a node of the snapshot.
pub start-lookup :
    (nodes : List Node) (j : String) (s : NodeStatus)
    → lookup j (start nodes).nodes ≡ some s
    → (n : Node) × (s ≡ initial_node n) × (lookup j (dependencies_of nodes) ≡ some n.dependencies)
unfolding start dependencies_of lookup
start-lookup [] j s h = absurd (cc)
start-lookup (n ∷ nodes) j s h = elim (Bool-cases (str_eq n.node_id j)) [
  | inl e ↦ (n, sym (some-injective (initial_node n) s (rw e at h)), rw e)
  | inr e ↦ let (m, same, found) = start-lookup nodes j s (rw e at h) in (m, same, rw e found)
]

initial_node-released :
    (n : Node)
    → (has_attempts (initial_node n) ≡ true)
      × (is_released (initial_node n) ≡ true → n.dependencies ≡ [])
unfolding initial_node
initial_node-released n = ground arith

start-IsGated : (nodes : List Node) → IsGated (dependencies_of nodes) (start nodes)
start-IsGated nodes = record {
  attempts = λ j s h.
      let (n, same, _) = start-lookup nodes j s h in
      subst (λ x. has_attempts x ≡ true) (sym same) (initial_node-released n).0;
  gate = λ j s ds h open_s found.
      let (n, same, depends) = start-lookup nodes j s h in
      let none_left : n.dependencies ≡ [] =
        (initial_node-released n).1 (subst (λ x. is_released x ≡ true) same open_s) in
      let empty : ds ≡ [] = some-injective ds n.dependencies (sym found ∙ depends) ∙ none_left in
      subst (All (IsCompleted (start nodes).nodes)) (sym empty) tt;
}

pub replay-IsGated :
    (workflow_id digest : String) (nodes : List Node) (events : List Event) (r : Replay)
    → replay workflow_id digest nodes events ≡ ok r
    → IsGated (dependencies_of nodes) r
unfolding replay
replay-IsGated workflow_id digest nodes events r h =
    let dependencies = dependencies_of nodes in
    fold_result-inv (apply_event workflow_id digest dependencies) (IsGated dependencies)
      (λ s x t gated step.
        Applied-IsGated dependencies s t x.node_id
          (apply_event-Applied workflow_id digest dependencies s t x step) gated)
      (start nodes) events r (start-IsGated nodes) h

-- Whatever journal replays, a node that is eligible, running, completed or recoverable, or that was
-- ever bound to an Agent Run, has only completed dependencies.
pub replay-dependencies-IsCompleted :
    (workflow_id digest : String) (nodes : List Node) (events : List Event) (r : Replay)
    (j : String) (s : NodeStatus) (ds : List String)
    → replay workflow_id digest nodes events ≡ ok r
    → lookup j r.nodes ≡ some s
    → is_released s ≡ true
    → lookup j (dependencies_of nodes) ≡ some ds
    → All (IsCompleted r.nodes) ds
replay-dependencies-IsCompleted workflow_id digest nodes events r j s ds h found released depends =
    (replay-IsGated workflow_id digest nodes events r h).gate j s ds found released depends
