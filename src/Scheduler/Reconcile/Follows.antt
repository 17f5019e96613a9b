-- ===== src/Scheduler/Reconcile/Follows.antt =====
-- Proofs about the journal and the local `states` of `_reconcile_blocked`, against replay.
use Prim.Native.String.{◌++◌ as append_text}
use text.Mathlib.TextLemmas.{append-eq-nil_iff}
use agent_workflow.Base.{
  String, ◌≡◌, refl, ◌∙◌, sym, ap, subst, true, false, Option, none, some, List, [], ◌∷◌, Dict,
  lookup, insert, lookup-insert, str_eq, str_eq_iff, all, Result, ok, err, with_ok, ok-injective,
  Bool-cases, str_cases, inl, inr, arith,
}
use agent_workflow.Workflow.Types.{
  NodeState, blocked, eligible, failed, completed, Details, node_transition, Node, Event,
  NodeStatus, WorkflowError, missing_key,
}
use agent_workflow.Workflow.Events.{event_of}
use agent_workflow.Workflow.Events.Append.{numbered, record_workflow_transition-reads}
use agent_workflow.Workflow.Replay.{
  get, needs_binding, unresolved, check_dependencies, Replay, dependencies_of, replay,
}
use agent_workflow.Workflow.Replay.Accept.{IsMove, IsTaken, get-some, apply_event_ok, replay-append}
use agent_workflow.Scheduler.Plan.{has_state, state_is}
use agent_workflow.Scheduler.Reconcile.{
  Context, SchedulerError, lift, transition, Gates, move, prerequisite_failed,
}

abbrev pub state_of : Option NodeStatus → Option NodeState
state_of none = none
state_of (some s) = some s.state

abbrev pub state_at : Dict NodeStatus → String → Option NodeState
state_at nodes j = state_of (lookup j nodes)

-- The journal replays, and the local `states` are the states that it gives.
pub record Follows (c : Context) (g : Gates) (r : Replay) : Type 0 where
  pub replayed :
      replay c.stamp.workflow_id c.stamp.snapshot_sha256 c.snapshot.nodes g.journal ≡ ok r
  pub agrees : (j : String) → lookup j g.states ≡ state_at r.nodes j

pub lift-ok {ℓ} : {A : Type ℓ} (m : Result WorkflowError A) {a : A} → lift m ≡ ok a → m ≡ ok a
lift-ok (ok a) h = cc
lift-ok (err e) h = absurd (cc)

pub has_state-some : (o : Option NodeState) (n : NodeState) → has_state o n ≡ true → o ≡ some n
has_state-some none n h = absurd (cc)
has_state-some (some s) n h = ground arith

pub found_at :
    (o : Option NodeStatus) (n : NodeState)
    → state_of o ≡ some n
    → (s : NodeStatus) × (o ≡ some s) × (s.state ≡ n)
found_at none n h = absurd (cc)
found_at (some s) n h = (s, refl, cc)

-- One transition at one key, in the replayed nodes and in the local states.
pub agree-insert :
    (states : Dict NodeState) (r r' : Replay) (id : String) (n : NodeState) (s : NodeStatus)
    → ((j : String) → lookup j states ≡ state_at r.nodes j)
    → IsTaken r r' id n s
    → (j : String) → lookup j (insert id n states) ≡ state_at r'.nodes j
agree-insert states r r' id n s agrees is j = elim (str_cases id j) [
  | inl e ↦
      let b : str_eq id j ≡ true = (str_eq_iff id j).1 e in
      let after : lookup j r'.nodes ≡ some is.after =
        ap (lookup j) is.exact ∙ rw (lookup-insert id j is.after r.nodes) (rw b) in
      rw (lookup-insert id j n states) (rw b (sym (ap state_of after ∙ ap some is.state)))
  | inr b ↦
      let after : lookup j r'.nodes ≡ lookup j r.nodes =
        ap (lookup j) is.exact ∙ rw (lookup-insert id j is.after r.nodes) (rw b) in
      rw (lookup-insert id j n states) (rw b (agrees j ∙ sym (ap state_of after)))
]

pub named_reason : (rest : String) → str_eq (append_text prerequisite_failed rest) "" ≡ false
unfolding str_eq
named_reason rest = elim (Bool-cases (str_eq (append_text prerequisite_failed rest) "")) [
  | inl e ↦
      let empty : prerequisite_failed ≡ "" =
        ((append-eq-nil_iff {p = prerequisite_failed} {q = rest}).0 ((str_eq_iff _ _).0 e)).0 in
      absurd (not_empty (ap (λ t. str_eq t "") empty))
  | inr e ↦ e
]
  where
    not_empty : false ≡ true → ⊥
    not_empty e = cc

module _ (c : Context) where
  pub Follows-state :
      (g : Gates) (r : Replay) (id : String) (n : NodeState)
      → Follows c g r
      → state_is g.states n id ≡ true
      → (s : NodeStatus) × (lookup id r.nodes ≡ some s) × (s.state ≡ n)
  Follows-state g r id n f h =
      found_at (lookup id r.nodes) n (sym (f.agrees id) ∙ has_state-some (lookup id g.states) n h)

  -- A transition that is written, and whose tests hold, replays.
  pub transition-IsTaken :
      (journal journal' : List Event) (r : Replay) (id reason : String) (p n : NodeState)
      (details : Option Details) (s : NodeStatus)
      → replay c.stamp.workflow_id c.stamp.snapshot_sha256 c.snapshot.nodes journal ≡ ok r
      → transition c id reason p n details journal ≡ ok journal'
      → str_eq reason "" ≡ false
      → IsMove (dependencies_of c.snapshot.nodes) r id p n s
      → (r' : Replay) × (replay c.stamp.workflow_id c.stamp.snapshot_sha256 c.snapshot.nodes
            journal'
          ≡ ok r')
        × IsTaken r r' id n s
  transition-IsTaken journal journal' r id reason p n details s replayed written named m =
      let event = numbered (event_of c.stamp id reason (node_transition p n details)) journal in
      let longer =
        (record_workflow_transition-reads c.ext c.stamp id reason p n details journal journal'
          (lift-ok _ written)).1 in
      let (r', taken, is) =
        apply_event_ok c.stamp.workflow_id c.stamp.snapshot_sha256
          (dependencies_of c.snapshot.nodes) r event p n details s refl refl refl named m in
      (
        r',
        ap (replay c.stamp.workflow_id c.stamp.snapshot_sha256 c.snapshot.nodes) longer
            ∙ replay-append c.stamp.workflow_id c.stamp.snapshot_sha256 c.snapshot.nodes journal
                event r r' replayed taken,
        is,
      )

  -- It keeps the journal and the local `states` in step.
  pub move-Follows :
      (g g' : Gates) (r : Replay) (id reason : String) (p n : NodeState) (details : Option Details)
      (s : NodeStatus)
      → Follows c g r
      → move c g id reason p n details ≡ ok g'
      → str_eq reason "" ≡ false
      → IsMove (dependencies_of c.snapshot.nodes) r id p n s
      → (r' : Replay) × Follows c g' r'
  unfolding move
  move-Follows g g' r id reason p n details s f h named m =
      with_ok (transition c id reason p n details g.journal) _ h λ journal written e.
        let (r', replayed, is) =
          transition-IsTaken g.journal journal r id reason p n details s f.replayed written named
            m in
        let result = ok-injective e in
        (
          r',
          record {
            replayed =
                ap (replay c.stamp.workflow_id c.stamp.snapshot_sha256 c.snapshot.nodes)
                  (sym (ap (λ x. x.journal) result))
                ∙ replayed;
            agrees = λ j.
                ap (lookup j) (sym (ap (λ x. x.states) result))
                ∙ agree-insert g.states r r' id n s f.agrees is j;
          },
        )

  pub unchanged :
      (g g' : Gates) (r : Replay)
      → Follows c g r
      → ◌≡◌ {A = Result SchedulerError Gates} (ok g) (ok g')
      → (r' : Replay) × Follows c g' r'
  unchanged g g' r f h = (r, subst (λ x. Follows c x r) (ok-injective h) f)

  -- The tests of the three transitions.
  pub reopen-IsMove :
      (r : Replay) (node : Node) (s : NodeStatus)
      → lookup node.node_id (dependencies_of c.snapshot.nodes) ≡ some node.dependencies
      → lookup node.node_id r.nodes ≡ some s
      → s.state ≡ failed
      → IsMove (dependencies_of c.snapshot.nodes) r node.node_id failed blocked s
  unfolding check_dependencies needs_binding
  reopen-IsMove r node s d found at_failed = record {
    found = found;
    before = at_failed;
    arrow = refl;
    has_binding = ground arith;
    depends = node.dependencies;
    depends_found = d;
    depends_done = refl;
    has_retry = refl;
  }

  pub fail-IsMove :
      (r : Replay) (node : Node) (s : NodeStatus)
      → lookup node.node_id (dependencies_of c.snapshot.nodes) ≡ some node.dependencies
      → lookup node.node_id r.nodes ≡ some s
      → s.state ≡ blocked
      → IsMove (dependencies_of c.snapshot.nodes) r node.node_id blocked failed s
  unfolding check_dependencies needs_binding
  fail-IsMove r node s d found at_blocked = record {
    found = found;
    before = at_blocked;
    arrow = refl;
    has_binding = ground arith;
    depends = node.dependencies;
    depends_found = d;
    depends_done = refl;
    has_retry = refl;
  }

  pub unresolved-completed :
      (g : Gates) (r : Replay) (ds : List String)
      → Follows c g r
      → all (state_is g.states completed) ds ≡ true
      → unresolved r.nodes ds ≡ ok []
  unfolding unresolved get
  unresolved-completed g r [] f h = refl
  unresolved-completed g r (d ∷ ds) f h =
      let (s, found, done) = Follows-state g r d completed f (ground arith) in
      let rest = unresolved-completed g r ds f (ground arith) in
      rw (get-some r.nodes d missing_key s found) (rw rest (rw done))

  pub release-IsMove :
      (g : Gates) (r : Replay) (node : Node) (s : NodeStatus)
      → Follows c g r
      → lookup node.node_id (dependencies_of c.snapshot.nodes) ≡ some node.dependencies
      → lookup node.node_id r.nodes ≡ some s
      → s.state ≡ blocked
      → all (state_is g.states completed) node.dependencies ≡ true
      → IsMove (dependencies_of c.snapshot.nodes) r node.node_id blocked eligible s
  unfolding check_dependencies needs_binding
  release-IsMove g r node s f d found at_blocked done = record {
    found = found;
    before = at_blocked;
    arrow = refl;
    has_binding = ground arith;
    depends = node.dependencies;
    depends_found = d;
    depends_done = rw (unresolved-completed g r node.dependencies f done);
    has_retry = refl;
  }
