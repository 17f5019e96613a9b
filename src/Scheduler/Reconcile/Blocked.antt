-- ===== src/Scheduler/Reconcile/Blocked.antt =====
-- Proofs about `_reconcile_blocked` of scheduler.py.
use agent_workflow.Base.{
  String, ◌≡◌, refl, true, false, ◌&&◌, none, some, List, [], ◌∷◌, map, Dict, lookup, values,
  str_eq, str_eq_iff, str_eq_refl, all, All, ok, with_ok, kept, then_kept-holds, kept-holds,
  pass-inv, Bool-cases, inl, inr, elem, distinct, arith,
}
use agent_workflow.Base.Sort.{sorted}
use agent_workflow.Workflow.Types.{blocked, eligible, failed, completed, Node, Event, NodeStatus}
use agent_workflow.Workflow.Replay.{Replay, dependencies_of, replay}
use agent_workflow.Workflow.Replay.Accept.{replay-keyed}
use agent_workflow.Scheduler.Plan.{state_is, states_of}
use agent_workflow.Scheduler.Reconcile.{
  Context, Gates, failed_dependencies, reopen, reopen_named, settle, reconcile_blocked_node,
  reconcile_blocked, or_missing, status_named, dependency_failure, is_nil, plain, join,
}
use agent_workflow.Scheduler.Reconcile.Follows.{
  Follows, Follows-state, fail-IsMove, move-Follows, named_reason, release-IsMove, reopen-IsMove,
  state_at, unchanged,
}

module _ (c : Context) where
  reopen-Follows :
      (status : NodeStatus) (node : Node) (g g' : Gates) (r : Replay)
      → lookup node.node_id (dependencies_of c.snapshot.nodes) ≡ some node.dependencies
      → Follows c g r
      → reopen c status node g ≡ ok g'
      → (r' : Replay) × Follows c g' r'
  unfolding reopen str_eq
  reopen-Follows status node g g' r d f h =
      elim (Bool-cases (
        state_is g.states failed node.node_id
        && dependency_failure status.terminal_reason
        && is_nil (failed_dependencies c g node))) [
          | inl closed ↦
              let (s, found, at_failed) =
                Follows-state c g r node.node_id failed f (ground arith) in
              move-Follows c g g' r node.node_id _ failed blocked none s f (rw closed at h) refl
                (reopen-IsMove c r node s d found at_failed)
          | inr open_still ↦ unchanged c g g' r f (rw open_still at h)
        ]

  settle-Follows :
      (node : Node) (g g' : Gates) (r : Replay)
      → lookup node.node_id (dependencies_of c.snapshot.nodes) ≡ some node.dependencies
      → Follows c g r
      → settle c node g ≡ ok g'
      → (r' : Replay) × Follows c g' r'
  unfolding settle str_eq
  settle-Follows node g g' r d f h = elim (Bool-cases (state_is g.states blocked node.node_id)) [
    | inr other ↦ unchanged c g g' r f (rw other at h)
    | inl at_blocked ↦
        let (s, found, is_blocked) = Follows-state c g r node.node_id blocked f at_blocked in
        let h₁ = rw at_blocked at h in
        elim (Bool-cases (is_nil (failed_dependencies c g node))) [
          | inr some_failed ↦
              move-Follows c g g' r node.node_id _ blocked failed plain s f (rw some_failed at h₁)
                (named_reason (join (sorted (failed_dependencies c g node))))
                (fail-IsMove c r node s d found is_blocked)
          | inl none_failed ↦
              let h₂ = rw none_failed at h₁ in
              elim (Bool-cases (all (state_is g.states completed) node.dependencies)) [
                | inl done ↦
                    move-Follows c g g' r node.node_id _ blocked eligible none s f (rw done at h₂)
                      refl (release-IsMove c g r node s f d found is_blocked done)
                | inr waiting ↦ unchanged c g g' r f (rw waiting at h₂)
              ]
        ]
  ]

  reopen_named-Follows :
      (status : List NodeStatus) (node : Node) (g g' : Gates) (r : Replay)
      → lookup node.node_id (dependencies_of c.snapshot.nodes) ≡ some node.dependencies
      → Follows c g r
      → reopen_named c status node g ≡ ok g'
      → (r' : Replay) × Follows c g' r'
  unfolding reopen_named
  reopen_named-Follows status node g g' r d f h =
      with_ok (or_missing (status_named status node.node_id)) _ h
        λ current _ h₁. reopen-Follows current node g g' r d f h₁

  abbrev IsFollowed : Gates → Type 0
  IsFollowed g = (r : Replay) × Follows c g r

  reconcile_blocked_node-Follows :
      (status : List NodeStatus) (g : Gates) (node : Node)
      → lookup node.node_id (dependencies_of c.snapshot.nodes) ≡ some node.dependencies
      → IsFollowed g
      → IsFollowed (reconcile_blocked_node c status g node).1
  unfolding reconcile_blocked_node
  reconcile_blocked_node-Follows status g node d (r, f) =
      then_kept-holds IsFollowed g (reopen_named c status node g) (λ g'. kept g' (settle c node g'))
        (r, f)
        λ g₁ reopened.
          let (r₁, f₁) = reopen_named-Follows status node g g₁ r d f reopened in
          kept-holds IsFollowed g₁ (settle c node g₁) (r₁, f₁)
            λ g₂ settled. settle-Follows node g₁ g₂ r₁ d f₁ settled

-- The dependencies that replay looks up are those of the node, where the names are distinct.
dependencies_of-elem :
    (nodes : List Node) (id : String) (ds : List String)
    → lookup id (dependencies_of nodes) ≡ some ds
    → elem id (map (λ n. n.node_id) nodes) ≡ true
unfolding dependencies_of lookup elem
dependencies_of-elem [] id ds h = absurd (cc)
dependencies_of-elem (n ∷ nodes) id ds h = elim (Bool-cases (str_eq n.node_id id)) [
  | inl e ↦ ground (arith, str_eq_iff n.node_id id, str_eq_iff id n.node_id)
  | inr e ↦ ground (arith, dependencies_of-elem nodes id ds (rw e at h))
]

other_names :
    (id : String) (nodes : List Node)
    → elem id (map (λ n. n.node_id) nodes) ≡ false
    → All (λ n. str_eq id n.node_id ≡ false) nodes
unfolding elem
other_names id [] h = tt
other_names id (n ∷ nodes) h = (ground arith, other_names id nodes (ground arith))

All-pair {ℓ} :
    {A : Type ℓ} (P Q R : A → Type 0)
    → ((a : A) → P a → Q a → R a)
    → (xs : List A) → All P xs
    → All Q xs
    → All R xs
All-pair P Q R f [] p q = tt
All-pair P Q R f (x ∷ xs) p q = (f x p.0 q.0, All-pair P Q R f xs p.1 q.1)

distinct-dependencies :
    (nodes : List Node)
    → distinct (map (λ n. n.node_id) nodes) ≡ true
    → All (λ n. lookup n.node_id (dependencies_of nodes) ≡ some n.dependencies) nodes
unfolding dependencies_of lookup distinct
distinct-dependencies [] h = tt
distinct-dependencies (n ∷ nodes) h = (
  rw (str_eq_refl n.node_id),
  All-pair (λ m. str_eq n.node_id m.node_id ≡ false)
      (λ m. lookup m.node_id (dependencies_of nodes) ≡ some m.dependencies)
      (λ m. lookup m.node_id (dependencies_of (n ∷ nodes)) ≡ some m.dependencies)
      (λ m other found. rw other found) nodes (other_names n.node_id nodes (ground arith))
      (distinct-dependencies nodes (ground arith)),
)

pub states_of-values :
    (m : Dict NodeStatus) (j : String)
    → All (λ e. e.1.node_id ≡ e.0) m
    → lookup j (states_of (values m)) ≡ state_at m j
unfolding states_of values lookup
states_of-values [] j h = refl
states_of-values ((k, s) ∷ m) j h = elim (Bool-cases (str_eq k j)) [
  | inl e ↦ rw (h.0, e)
  | inr e ↦ rw (h.0, e) (states_of-values m j h.1)
]

-- Whatever `_reconcile_blocked` has written when it returns or raises, after a status that a journal
-- of a snapshot with distinct node ids gave, replays: the scheduler does not make its own journal
-- unreadable there.
pub reconcile_blocked-replays :
    (c : Context) (journal : List Event) (r : Replay)
    → distinct (map (λ n. n.node_id) c.snapshot.nodes) ≡ true
    → replay c.stamp.workflow_id c.stamp.snapshot_sha256 c.snapshot.nodes journal ≡ ok r
    → (r' : Replay) × (replay c.stamp.workflow_id c.stamp.snapshot_sha256 c.snapshot.nodes
          (reconcile_blocked c (values r.nodes) journal).1
        ≡ ok r')
unfolding reconcile_blocked
reconcile_blocked-replays c journal r names replayed =
    let begin : Gates = record { states = states_of (values r.nodes); journal = journal } in
    let keyed =
      replay-keyed c.stamp.workflow_id c.stamp.snapshot_sha256 c.snapshot.nodes journal r
        replayed in
    let (r', f) =
      pass-inv (reconcile_blocked_node c (values r.nodes)) (IsFollowed c)
        (λ n. lookup n.node_id (dependencies_of c.snapshot.nodes) ≡ some n.dependencies)
        (reconcile_blocked_node-Follows c (values r.nodes)) begin c.snapshot.nodes
        (distinct-dependencies c.snapshot.nodes names)
        (r, record { replayed = replayed; agrees = λ j. states_of-values r.nodes j keyed }) in
    (r', f.replayed)
