-- ===== src/Scheduler/Reconcile/Steps.antt =====
-- Proofs about one transition of a pass of the scheduler, against replay.
use agent_workflow.Base.{
  String, ◌≡◌, refl, ◌∙◌, ap, subst, false, Option, none, some, List, [], ◌∷◌, lookup,
  lookup-insert, str_eq, Result, ok, ok-injective, Bool-cases, str_eq_iff, sym, inl, inr,
}
use agent_workflow.Workflow.Types.{NodeState, Details, Event, NodeStatus, Node}
use agent_workflow.Workflow.Replay.{Replay, dependencies_of, replay}
use agent_workflow.Workflow.Replay.Accept.{IsMove}
use agent_workflow.Scheduler.Reconcile.{Context, SchedulerError, transition, node_named, or_missing}
use agent_workflow.Workflow.Replay.Kinds.{kinds_of}
use agent_workflow.Scheduler.Reconcile.Follows.{transition-IsTaken}

-- The dependencies of a node that the scheduler finds are found by replay.
pub node_named-dependencies :
    (nodes : List Node) (id : String) (node : Node)
    → node_named nodes id ≡ some node
    → lookup id (dependencies_of nodes) ≡ some node.dependencies
unfolding node_named dependencies_of lookup
node_named-dependencies [] id node h = absurd (cc)
node_named-dependencies (n ∷ nodes) id node h = elim (Bool-cases (str_eq n.node_id id)) [
  | inl e ↦ rw e (cc (rw e at h))
  | inr e ↦ rw e (node_named-dependencies nodes id node (rw e at h))
]

pub node_named-kind :
    (nodes : List Node) (id : String) (node : Node)
    → node_named nodes id ≡ some node
    → lookup id (kinds_of nodes) ≡ some node.kind
unfolding node_named kinds_of lookup
node_named-kind [] id node h = absurd (cc)
node_named-kind (n ∷ nodes) id node h = elim (Bool-cases (str_eq n.node_id id)) [
  | inl e ↦ rw e (cc (rw e at h))
  | inr e ↦ rw e (node_named-kind nodes id node (rw e at h))
]

pub node_named-id :
    (nodes : List Node) (id : String) (node : Node)
    → node_named nodes id ≡ some node
    → node.node_id ≡ id
unfolding node_named
node_named-id [] id node h = absurd (cc)
node_named-id (n ∷ nodes) id node h = elim (Bool-cases (str_eq n.node_id id)) [
  | inl e ↦
      let same : n ≡ node = cc (rw e at h) in
      ap (λ x. x.node_id) (sym same) ∙ (str_eq_iff n.node_id id).0 e
  | inr e ↦ node_named-id nodes id node (rw e at h)
]

pub or_missing-some {ℓ} : {A : Type ℓ} (o : Option A) (a : A) → or_missing o ≡ ok a → o ≡ some a
or_missing-some none a e = absurd (cc)
or_missing-some (some b) a e = cc

-- What a step leaves: a journal that replays, in which the other nodes are as they were.
pub record Steps (c : Context) (r : Replay) (id : String) (journal' : List Event) : Type 0 where
  pub after : Replay
  pub replayed :
      replay c.stamp.workflow_id c.stamp.snapshot_sha256 c.snapshot.nodes journal' ≡ ok after
  pub others : (j : String) → str_eq id j ≡ false → lookup j after.nodes ≡ lookup j r.nodes

module _ (c : Context) where
  pub stays :
      (r : Replay) (id : String) (journal journal' : List Event)
      → replay c.stamp.workflow_id c.stamp.snapshot_sha256 c.snapshot.nodes journal ≡ ok r
      → ◌≡◌ {A = Result SchedulerError (List Event)} (ok journal) (ok journal')
      → Steps c r id journal'
  stays r id journal journal' replayed h = record {
    after = r;
    replayed =
        subst (λ x. replay c.stamp.workflow_id c.stamp.snapshot_sha256 c.snapshot.nodes x ≡ ok r)
          (ok-injective h) replayed;
    others = λ j _. refl;
  }

  pub moves :
      (r : Replay) (id reason : String) (p n : NodeState) (details : Option Details)
      (s : NodeStatus) (journal journal' : List Event)
      → replay c.stamp.workflow_id c.stamp.snapshot_sha256 c.snapshot.nodes journal ≡ ok r
      → transition c id reason p n details journal ≡ ok journal'
      → str_eq reason "" ≡ false
      → IsMove (dependencies_of c.snapshot.nodes) r id p n s
      → Steps c r id journal'
  moves r id reason p n details s journal journal' replayed written named m =
      let (r', again, is) =
        transition-IsTaken c journal journal' r id reason p n details s replayed written named m in
      record {
        after = r';
        replayed = again;
        others =
            λ j other. ap (lookup j) is.exact ∙ rw (lookup-insert id j is.after r.nodes) (rw other);
      }
