-- ===== src/Scheduler/Reconcile/Running.antt =====
-- Proofs about `_reconcile_running` of scheduler.py.
use agent_workflow.Base.{
  String, ◌≡◌, refl, ◌∙◌, Bool, true, false, not, ◌&&◌, ◌||◌, Option, none, some, List, [], ◌∷◌,
  map, lookup, values, distinct, elem, All, str_eq, Result, ok, err, with_ok, with_require, kept,
  then_kept-holds, pass, Bool-cases, inl, inr, arith,
}
use agent_workflow.Workflow.Types.{
  NodeState, running, recoverable, state_eq, allowed, Node, Event, NodeStatus,
}
use agent_workflow.Workflow.Replay.{
  is_none, needs_binding, check_dependencies, Replay, dependencies_of, replay,
}
use agent_workflow.Workflow.Replay.Accept.{IsMove, replay-keyed}
use agent_workflow.Workflow.Replay.Names.{values-found, replay-distinct}
use agent_workflow.Scheduler.Children.{
  Evidence, Child, EvidenceError, another_run, child_run_exists, judge, check_evidence, check_seal,
  terminal_child_outcome,
}
use agent_workflow.Scheduler.Reconcile.{
  Context, node_named, or_missing, plain, running_verdict, record_verdict, reconcile_child,
  require_task, reconcile_running_node, reconcile_running,
}
use agent_workflow.Scheduler.Reconcile.Steps.{
  Steps, stays, moves, node_named-dependencies, or_missing-some,
}

-- What the evidence of a child can say: the two states that a running node may take.
judge-allowed : (e : Evidence) → allowed running (judge e) ≡ true
unfolding judge
judge-allowed e = ground arith

check_evidence-allowed :
    (run : String) (evidence : Option Evidence) (n : NodeState)
    → check_evidence run evidence ≡ ok (some n)
    → allowed running n ≡ true
check_evidence-allowed run none n h = absurd (cc)
check_evidence-allowed run (some e) n h =
    with_require (str_eq e.status_run run && str_eq e.completion_run run) another_run _ h
      λ _ k. let same : judge e ≡ n = cc in rw same at (judge-allowed e)

check_seal-allowed :
    (run : String) (seal : Option String) (evidence : Option Evidence) (n : NodeState)
    → check_seal run seal evidence ≡ ok (some n)
    → allowed running n ≡ true
check_seal-allowed run none evidence n h = absurd (cc)
check_seal-allowed run (some sealed) evidence n h =
    with_require (str_eq sealed run) another_run _ h λ _ k. check_evidence-allowed run evidence n k

terminal_child_outcome-allowed :
    (child : Child) (run : String) (n : NodeState)
    → terminal_child_outcome child run ≡ ok (some n)
    → allowed running n ≡ true
unfolding terminal_child_outcome
terminal_child_outcome-allowed child run n h = elim (Bool-cases child.has_receipt) [
  | inl e ↦ check_seal-allowed run child.seal_run child.evidence n (rw e at h)
  | inr e ↦ absurd (cc (rw e at h))
]

-- A verdict is a state that a running node may take, with a reason.
abbrev fits : Option (NodeState × String) → Bool
fits none = true
fits (some (n, reason)) = allowed running n && not (str_eq reason "")

running_verdict-fits :
    (outcome : Result EvidenceError (Option NodeState)) (exists : Bool)
    → ((m : NodeState) → outcome ≡ ok (some m) → allowed running m ≡ true)
    → fits (running_verdict outcome exists) ≡ true
unfolding running_verdict str_eq
running_verdict-fits (err e) exists f = refl
running_verdict-fits (ok (some m)) exists f = rw (f m refl)
running_verdict-fits (ok none) true f = refl
running_verdict-fits (ok none) false f = refl

running-IsMove :
    (nodes : List Node) (r : Replay) (node : Node) (s : NodeStatus) (n : NodeState)
    → node_named nodes s.node_id ≡ some node
    → lookup s.node_id r.nodes ≡ some s
    → s.state ≡ running
    → allowed running n ≡ true
    → (state_eq n recoverable || not (is_none s.agent_run_id)) ≡ true
    → IsMove (dependencies_of nodes) r s.node_id running n s
unfolding check_dependencies needs_binding
running-IsMove nodes r node s n named found at_running arrow backed = record {
  found = found;
  before = at_running;
  arrow = arrow;
  has_binding = ground arith;
  depends = node.dependencies;
  depends_found = node_named-dependencies nodes s.node_id node named;
  depends_done = refl;
  has_retry = refl;
}

module _ (c : Context) (child : String → Child) where
  abbrev IsReplayable : List Event → Type 0
  IsReplayable journal =
      (r : Replay) × (replay c.stamp.workflow_id c.stamp.snapshot_sha256 c.snapshot.nodes journal
        ≡ ok r)

  record_verdict-Steps :
      (v : Option (NodeState × String)) (r : Replay) (node : Node) (s : NodeStatus) (run : String)
      (journal journal' : List Event)
      → fits v ≡ true
      → replay c.stamp.workflow_id c.stamp.snapshot_sha256 c.snapshot.nodes journal ≡ ok r
      → node_named c.snapshot.nodes s.node_id ≡ some node
      → lookup s.node_id r.nodes ≡ some s
      → s.state ≡ running
      → s.agent_run_id ≡ some run
      → record_verdict c child s.node_id v journal ≡ ok journal'
      → Steps c r s.node_id journal'
  record_verdict-Steps none r node s run journal journal' f replayed named found at_running bound
        h =
      stays c r s.node_id journal journal' replayed h
  record_verdict-Steps (some (n, reason)) r node s run journal journal' f replayed named found
        at_running bound h =
      moves c r s.node_id reason running n plain s journal journal' replayed h (ground arith) (
        running-IsMove c.snapshot.nodes r node s n named found at_running (ground arith)
          (rw bound (ground arith)))

  reconcile_child-Steps :
      (run : Option String) (r : Replay) (node : Node) (s : NodeStatus)
      (journal journal' : List Event)
      → replay c.stamp.workflow_id c.stamp.snapshot_sha256 c.snapshot.nodes journal ≡ ok r
      → node_named c.snapshot.nodes s.node_id ≡ some node
      → lookup s.node_id r.nodes ≡ some s
      → s.state ≡ running
      → s.agent_run_id ≡ run
      → reconcile_child c child s.node_id run journal ≡ ok journal'
      → Steps c r s.node_id journal'
  unfolding str_eq
  reconcile_child-Steps none r node s journal journal' replayed named found at_running bound h =
      moves c r s.node_id "running node has no authoritative child Agent Run binding" running
        recoverable none s journal journal' replayed h refl
        (running-IsMove c.snapshot.nodes r node s recoverable named found at_running refl refl)
  reconcile_child-Steps (some run) r node s journal journal' replayed named found at_running bound
        h =
      let outcome = terminal_child_outcome (child run) run in
      let exists = child_run_exists (child run) run in
      record_verdict-Steps (running_verdict outcome exists) r node s run journal journal'
        (running_verdict-fits outcome exists
          (λ m. terminal_child_outcome-allowed (child run) run m))
        replayed named found at_running bound h

  reconcile_running_node-Steps :
      (r : Replay) (s : NodeStatus) (journal journal' : List Event)
      → replay c.stamp.workflow_id c.stamp.snapshot_sha256 c.snapshot.nodes journal ≡ ok r
      → lookup s.node_id r.nodes ≡ some s
      → reconcile_running_node c child journal s ≡ ok journal'
      → Steps c r s.node_id journal'
  unfolding reconcile_running_node
  reconcile_running_node-Steps r s journal journal' replayed found h =
      elim (Bool-cases (state_eq s.state running)) [
        | inr other ↦ stays c r s.node_id journal journal' replayed (rw other at h)
        | inl at_running ↦
            with_ok (or_missing (node_named c.snapshot.nodes s.node_id)) _ (rw at_running at h)
              λ node named h₁. with_ok (require_task c child node.kind) _ h₁ λ _ _ h₂.
                reconcile_child-Steps s.agent_run_id r node s journal journal' replayed
                  (or_missing-some (node_named c.snapshot.nodes s.node_id) node named) found
                  (ground arith) refl h₂
      ]

  -- The nodes of the status that are still to come are found as they are.
  keep_found :
      (id : String) (r r' : Replay) (status : List NodeStatus)
      → ((j : String) → str_eq id j ≡ false → lookup j r'.nodes ≡ lookup j r.nodes)
      → elem id (map (λ s. s.node_id) status) ≡ false
      → All (λ s. lookup s.node_id r.nodes ≡ some s) status
      → All (λ s. lookup s.node_id r'.nodes ≡ some s) status
  unfolding elem
  keep_found id r r' [] others absent found = tt
  keep_found id r r' (s ∷ status) others absent found = (
    others s.node_id (ground arith) ∙ found.0,
    keep_found id r r' status others (ground arith) found.1,
  )

  pass-replays :
      (status : List NodeStatus) (r : Replay) (journal : List Event)
      → distinct (map (λ s. s.node_id) status) ≡ true
      → All (λ s. lookup s.node_id r.nodes ≡ some s) status
      → replay c.stamp.workflow_id c.stamp.snapshot_sha256 c.snapshot.nodes journal ≡ ok r
      → IsReplayable (pass (λ j s. kept j (reconcile_running_node c child j s)) journal status).1
  unfolding pass distinct
  pass-replays [] r journal names found replayed = (r, replayed)
  pass-replays (s ∷ status) r journal names found replayed =
      then_kept-holds IsReplayable journal (reconcile_running_node c child journal s)
        (λ j. pass (λ j s. kept j (reconcile_running_node c child j s)) j status) (r, replayed)
        λ journal₁ first.
          let t = reconcile_running_node-Steps r s journal journal₁ replayed found.0 first in
          let others = map (λ (x : NodeStatus). x.node_id) status in
          let parts = both (elem s.node_id others) (distinct others) names in
          pass-replays status t.after journal₁ parts.1
            (keep_found s.node_id r t.after status t.others parts.0 found.1) t.replayed
    where
      both : (a b : Bool) → (not a && b) ≡ true → (a ≡ false) × (b ≡ true)
      both true b e = cc
      both false b e = (refl, e)

-- Whatever `_reconcile_running` has written when it returns or raises, after a status that a journal
-- of a snapshot with distinct node ids gave and whatever the directories of the children hold, replays.
pub reconcile_running-replays :
    (c : Context) (child : String → Child) (journal : List Event) (r : Replay)
    → distinct (map (λ n. n.node_id) c.snapshot.nodes) ≡ true
    → replay c.stamp.workflow_id c.stamp.snapshot_sha256 c.snapshot.nodes journal ≡ ok r
    → (r' : Replay) × (replay c.stamp.workflow_id c.stamp.snapshot_sha256 c.snapshot.nodes
          (reconcile_running c child (values r.nodes) journal).1
        ≡ ok r')
unfolding reconcile_running
reconcile_running-replays c child journal r names replayed =
    let workflow_id = c.stamp.workflow_id in
    let digest = c.stamp.snapshot_sha256 in
    let keyed = replay-keyed workflow_id digest c.snapshot.nodes journal r replayed in
    let apart =
      replay-distinct workflow_id digest c.snapshot.nodes journal r replayed keyed names in
    pass-replays c child (values r.nodes) r journal apart (values-found r.nodes keyed apart)
      replayed
