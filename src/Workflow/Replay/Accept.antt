-- ===== src/Workflow/Replay/Accept.antt =====
-- Proofs about when `reconstruct_workflow_status` takes one more event.
use agent_workflow.Base.{
  some-injective, ℕ, ◌+◌, String, ◌≡◌, refl, ◌∙◌, sym, ap, subst, true, false, not, ◌&&◌, ◌||◌,
  Option, none, some, List, [], ◌∷◌, ◌++◌, Dict, lookup, insert, lookup-insert, insert-insert,
  fold_result-append, str_eq, str_eq_iff, str_eq_refl, All, All-insert, ok, fold_result-inv,
  Bool-cases, inl, inr, arith,
}
use agent_workflow.Workflow.Types.{
  NodeState, blocked, eligible, failed, recoverable, state_eq, allowed, Details, node_transition,
  Node, Event, NodeStatus, WorkflowError, missing_key, unknown_node,
}
use agent_workflow.Workflow.Snapshot.{initial_node}
use agent_workflow.Workflow.Replay.{
  get, is_none, is_task, needs_binding, retried, check_dependencies, note_details,
  terminal_reason_of, Replay, move_node, apply_body, apply_event, start, dependencies_of, replay,
}
use agent_workflow.Workflow.Replay.Changes.{Changed, Applied, moved, bound}
use agent_workflow.Workflow.Replay.Steps.{apply_event-Applied}

-- The tests that replay makes of a transition, at the node `s`.
pub record IsMove (dependencies : Dict (List String)) (r : Replay) (id : String) (p n : NodeState)
    (s : NodeStatus) : Type 0 where
  pub found : lookup id r.nodes ≡ some s
  pub before : s.state ≡ p
  pub arrow : allowed p n ≡ true
  pub has_binding : (is_task s.kind && needs_binding p n && is_none s.agent_run_id) ≡ false
  pub depends : List String
  pub depends_found : lookup id dependencies ≡ some depends
  pub depends_done :
      check_dependencies (state_eq p blocked && state_eq n eligible) r.nodes depends ≡ ok tt
  pub has_retry :
      ((state_eq p failed || state_eq p recoverable)
        && state_eq n eligible
        && not (retried s.attempt))
      ≡ false

state_eq_refl : (p : NodeState) → state_eq p p ≡ true
state_eq_refl p = ground arith

pub get-some {ℓ} :
    {V : Type ℓ} (m : Dict V) (k : String) (e : WorkflowError) (v : V)
    → lookup k m ≡ some v
    → get m k e ≡ ok v
unfolding get
get-some m k e v h = ground arith

module _ (dependencies : Dict (List String)) (r : Replay) (id reason : String) (p n : NodeState)
    (details : Option Details) (s : NodeStatus) (m : IsMove dependencies r id p n s)
    (named : str_eq reason "" ≡ false) where
  abbrev mid : NodeStatus
  mid = record s { state = n; terminal_reason = terminal_reason_of n reason }

  abbrev pub after_move : Replay
  after_move = record r { nodes = insert id (note_details details mid) (insert id mid r.nodes) }

  pub move_node_ok : move_node dependencies r id p n reason details ≡ ok after_move
  unfolding move_node
  move_node_ok =
      let before : state_eq s.state p ≡ true = rw m.before (state_eq_refl p) in
      let there : lookup id (insert id mid r.nodes) ≡ some mid =
        simp (lookup-insert, str_eq_refl) in
      rw (named, m.arrow)
        (rw (get-some r.nodes id unknown_node s m.found) (
          rw (before, m.has_binding)
            (rw (get-some dependencies id missing_key m.depends m.depends_found) (
              rw (m.depends_done, m.has_retry)
                (rw (get-some (insert id mid r.nodes) id unknown_node mid there))))))

IsMove-recount :
    (dependencies : Dict (List String)) (r : Replay) (id : String) (p n : NodeState)
    (s : NodeStatus) (count : ℕ)
    → IsMove dependencies r id p n s
    → IsMove dependencies (record r { event_count = count }) id p n s
IsMove-recount dependencies r id p n s count m = record {
  found = m.found;
  before = m.before;
  arrow = m.arrow;
  has_binding = m.has_binding;
  depends = m.depends;
  depends_found = m.depends_found;
  depends_done = m.depends_done;
  has_retry = m.has_retry;
}

apply_body_moved :
    (dependencies : Dict (List String)) (r r' : Replay) (event : Event) (p n : NodeState)
    (details : Option Details)
    → event.body ≡ node_transition p n details
    → move_node dependencies r event.node_id p n event.reason details ≡ ok r'
    → apply_body dependencies r event event.body ≡ ok r'
unfolding apply_body
apply_body_moved dependencies r r' event p n details b h =
    subst (λ body. apply_body dependencies r event body ≡ ok r') (sym b) h

apply_event_body :
    (workflow_id digest : String) (dependencies : Dict (List String)) (r : Replay) (event : Event)
    → event.workflow_id ≡ workflow_id
    → event.snapshot_sha256 ≡ digest
    → apply_event workflow_id digest dependencies r event
      ≡ apply_body dependencies (record r { event_count = r.event_count + 1 }) event event.body
unfolding apply_event
apply_event_body workflow_id digest dependencies r event w d =
    rw (
      (str_eq_iff event.workflow_id workflow_id).1 w,
      (str_eq_iff event.snapshot_sha256 digest).1 d,
    )

note_details-kept :
    (d : Option Details) (s : NodeStatus)
    → ((note_details d s).state ≡ s.state) × ((note_details d s).node_id ≡ s.node_id)
unfolding note_details
note_details-kept none s = (refl, refl)
note_details-kept (some d) s = (refl, refl)

-- What the transition makes of the loop's variables.
pub record IsTaken (r r' : Replay) (id : String) (n : NodeState) (s : NodeStatus) : Type 0 where
  pub after : NodeStatus
  pub exact : r'.nodes ≡ insert id after r.nodes
  pub state : after.state ≡ n
  pub same_id : after.node_id ≡ s.node_id

-- The transition is taken where the event is of this workflow and snapshot.
pub apply_event_ok :
    (workflow_id digest : String) (dependencies : Dict (List String)) (r : Replay) (event : Event)
    (p n : NodeState) (details : Option Details) (s : NodeStatus)
    → event.workflow_id ≡ workflow_id
    → event.snapshot_sha256 ≡ digest
    → event.body ≡ node_transition p n details
    → str_eq event.reason "" ≡ false
    → IsMove dependencies r event.node_id p n s
    → (r' : Replay) × (apply_event workflow_id digest dependencies r event ≡ ok r')
      × IsTaken r r' event.node_id n s
apply_event_ok workflow_id digest dependencies r event p n details s w d b named m =
    let counted = record r { event_count = r.event_count + 1 } in
    let m' = IsMove-recount dependencies r event.node_id p n s (r.event_count + 1) m in
    let r' = after_move dependencies counted event.node_id event.reason p n details s m' named in
    let t =
      note_details details
        (mid dependencies counted event.node_id event.reason p n details s m' named) in
    (
      r',
      apply_event_body workflow_id digest dependencies r event w d
          ∙ apply_body_moved dependencies counted r' event p n details b
              (move_node_ok dependencies counted event.node_id event.reason p n details s m' named),
      record {
        after = t;
        exact = insert-insert event.node_id _ t r.nodes;
        state = (note_details-kept details _).0;
        same_id = (note_details-kept details _).1;
      },
    )

-- Replay goes on from where it stands.
pub replay-append :
    (workflow_id digest : String) (nodes : List Node) (events : List Event) (event : Event)
    (r r' : Replay)
    → replay workflow_id digest nodes events ≡ ok r
    → apply_event workflow_id digest (dependencies_of nodes) r event ≡ ok r'
    → replay workflow_id digest nodes (events ++ event ∷ []) ≡ ok r'
unfolding replay
replay-append workflow_id digest nodes events event r r' h k =
    fold_result-append (apply_event workflow_id digest (dependencies_of nodes)) (start nodes) events
      event r r' h k

-- Each entry of the replayed nodes stands under its own name.
start-keyed : (nodes : List Node) → All (λ e. e.1.node_id ≡ e.0) (start nodes).nodes
unfolding start initial_node
start-keyed [] = tt
start-keyed (n ∷ nodes) = (refl, start-keyed nodes)

lookup-keyed :
    (m : Dict NodeStatus) (j : String) (s : NodeStatus)
    → All (λ e. e.1.node_id ≡ e.0) m
    → lookup j m ≡ some s
    → s.node_id ≡ j
unfolding lookup
lookup-keyed [] j s h found = absurd (cc)
lookup-keyed ((k, t) ∷ m) j s h found = elim (Bool-cases (str_eq k j)) [
  | inl e ↦
      let same : t ≡ s = some-injective t s (rw e at found) in
      ap (λ x. x.node_id) (sym same) ∙ h.0 ∙ (str_eq_iff k j).0 e
  | inr e ↦ lookup-keyed m j s h.1 (rw e at found)
]

Changed-keyed :
    (r r' : Replay) (id : String) (s s' : NodeStatus)
    → Changed r r' id s s'
    → All (λ e. e.1.node_id ≡ e.0) r.nodes
    → All (λ e. e.1.node_id ≡ e.0) r'.nodes
Changed-keyed r r' id s s' c h = rw c.exact (
    All-insert (λ (e : String × NodeStatus). e.1.node_id ≡ e.0) id s' r.nodes
      (c.same_id ∙ lookup-keyed r.nodes id s h c.found) h)

pub replay-keyed :
    (workflow_id digest : String) (nodes : List Node) (events : List Event) (r : Replay)
    → replay workflow_id digest nodes events ≡ ok r
    → All (λ e. e.1.node_id ≡ e.0) r.nodes
unfolding replay
replay-keyed workflow_id digest nodes events r h =
    let dependencies = dependencies_of nodes in
    fold_result-inv (apply_event workflow_id digest dependencies)
      (λ x. All (λ e. e.1.node_id ≡ e.0) x.nodes)
      (λ s x t keyed step.
        by_step dependencies s t x.node_id
          (apply_event-Applied workflow_id digest dependencies s t x step) keyed)
      (start nodes) events r (start-keyed nodes) h
  where
    by_step :
        (dependencies : Dict (List String)) (r r' : Replay) (id : String)
        → Applied dependencies r r' id
        → All (λ e. e.1.node_id ≡ e.0) r.nodes
        → All (λ e. e.1.node_id ≡ e.0) r'.nodes
    by_step dependencies r r' id (moved s s' p n c m) = Changed-keyed r r' id s s' c
    by_step dependencies r r' id (bound s s' b c m) = Changed-keyed r r' id s s' c
