-- ===== src/Scheduler/Reconcile/Approvals.antt =====
-- Proofs about `_reconcile_approvals` of scheduler.py.
use agent_workflow.Base.{
  some-injective, String, ◌≡◌, refl, ◌∙◌, sym, subst, Bool, true, false, not, ◌&&◌, ◌||◌, Option,
  none, some, List, [], ◌∷◌, map, filter, lookup, values, distinct, elem, All, All-of_elem, str_eq,
  Result, ok, err, with_ok, kept, then_kept-holds, pass, Bool-cases, inl, inr, arith,
}
use agent_workflow.Base.Sort.{elem-sorted, distinct-sorted}
use agent_workflow.Workflow.Types.{
  NodeState, eligible, completed, failed, state_eq, Kind, task, approval, Node, Snapshot, Event,
  NodeStatus,
}
use agent_workflow.Workflow.Replay.{check_dependencies, Replay, dependencies_of, replay}
use agent_workflow.Workflow.Replay.Accept.{IsMove, replay-keyed}
use agent_workflow.Workflow.Replay.Kinds.{kinds_of, replay-kinds}
use agent_workflow.Scheduler.Plan.{state_is, states_of, may_launch, calculate_eligibility}
use agent_workflow.Scheduler.Plan.Capacity.{eligible-node}
use agent_workflow.Scheduler.Children.{EvidenceError}
use agent_workflow.Scheduler.Reconcile.{
  Context, node_named, status_named, or_missing, plain, Disposition, decide_approval,
  approve_subject, approve_node, reconcile_approval, reconcile_approvals,
}
use agent_workflow.Scheduler.Reconcile.Follows.{has_state-some, found_at}
use agent_workflow.Scheduler.Reconcile.Blocked.{states_of-values}
use agent_workflow.Scheduler.Reconcile.Steps.{
  Steps, stays, moves, node_named-dependencies, node_named-kind, node_named-id, or_missing-some,
}

-- An eligible node, whose kind is the snapshot's.
record Awaits (nodes : List Node) (r : Replay) (id : String) : Type 0 where
  s : NodeStatus
  found : lookup id r.nodes ≡ some s
  at_eligible : s.state ≡ eligible
  kind : lookup id (kinds_of nodes) ≡ some s.kind

approval-IsMove :
    (nodes : List Node) (r : Replay) (id : String) (node : Node) (n : NodeState)
    (a : Awaits nodes r id)
    → node_named nodes id ≡ some node
    → node.kind ≡ approval
    → (state_eq n completed || state_eq n failed) ≡ true
    → IsMove (dependencies_of nodes) r id eligible n a.s
unfolding check_dependencies
approval-IsMove nodes r id node n a named of_approval decided =
    let kind : a.s.kind ≡ approval =
      some-injective a.s.kind node.kind (sym a.kind ∙ node_named-kind nodes id node named)
      ∙ of_approval in
    record {
      found = a.found;
      before = a.at_eligible;
      arrow = ground arith;
      has_binding = rw kind refl;
      depends = node.dependencies;
      depends_found = node_named-dependencies nodes id node named;
      depends_done = refl;
      has_retry = ground arith;
    }

module _ (c : Context) (disposition : String → Result EvidenceError (Option Disposition)) where
  abbrev IsReplay : List Event → Replay → Type 0
  IsReplay journal r =
      replay c.stamp.workflow_id c.stamp.snapshot_sha256 c.snapshot.nodes journal ≡ ok r

  abbrev IsReplayable : List Event → Type 0
  IsReplayable journal = (r : Replay) × IsReplay journal r

  decide_approval-Steps :
      (found : Result EvidenceError (Option Disposition)) (r : Replay) (id : String) (node : Node)
      (a : Awaits c.snapshot.nodes r id) (journal journal' : List Event)
      → IsReplay journal r
      → node_named c.snapshot.nodes id ≡ some node
      → node.kind ≡ approval
      → decide_approval c disposition id found journal ≡ ok journal'
      → Steps c r id journal'
  unfolding str_eq
  decide_approval-Steps (err e) r id node a journal journal' replayed named kind h =
      moves c r id "approval evidence failed verification" eligible failed plain a.s journal
        journal' replayed h refl
        (approval-IsMove c.snapshot.nodes r id node failed a named kind refl)
  decide_approval-Steps (ok none) r id node a journal journal' replayed named kind h =
      stays c r id journal journal' replayed h
  decide_approval-Steps (ok (some d)) r id node a journal journal' replayed named kind h =
      elim (Bool-cases (str_eq d.action "reviewed")) [
        | inl e ↦ stays c r id journal journal' replayed (rw e at h)
        | inr e ↦
            let h₁ = rw e at h in
            elim (Bool-cases (str_eq d.action "accepted")) [
              | inl taken ↦
                  moves c r id "canonical lifecycle receipt accepted" eligible completed _ a.s
                    journal journal' replayed (rw taken at h₁) refl
                    (approval-IsMove c.snapshot.nodes r id node completed a named kind refl)
              | inr refused ↦
                  moves c r id "canonical lifecycle receipt rejected" eligible failed _ a.s journal
                    journal' replayed (rw refused at h₁) refl
                    (approval-IsMove c.snapshot.nodes r id node failed a named kind refl)
            ]
      ]

  approve_subject-Steps :
      (run : Option String) (r : Replay) (id : String) (node : Node)
      (a : Awaits c.snapshot.nodes r id) (journal journal' : List Event)
      → IsReplay journal r
      → node_named c.snapshot.nodes id ≡ some node
      → node.kind ≡ approval
      → approve_subject c disposition id run journal ≡ ok journal'
      → Steps c r id journal'
  unfolding str_eq
  approve_subject-Steps none r id node a journal journal' replayed named kind h =
      moves c r id "approval subject has no authoritative child Agent Run binding" eligible failed
        plain a.s journal journal' replayed h refl
        (approval-IsMove c.snapshot.nodes r id node failed a named kind refl)
  approve_subject-Steps (some run) r id node a journal journal' replayed named kind h =
      decide_approval-Steps (disposition run) r id node a journal journal' replayed named kind h

  approve_node-Steps :
      (kind : Kind) (status : List NodeStatus) (r : Replay) (id : String) (node : Node)
      (a : Awaits c.snapshot.nodes r id) (journal journal' : List Event)
      → IsReplay journal r
      → node_named c.snapshot.nodes id ≡ some node
      → node.kind ≡ kind
      → approve_node c disposition kind node status journal ≡ ok journal'
      → Steps c r id journal'
  approve_node-Steps task status r id node a journal journal' replayed named is h =
      stays c r id journal journal' replayed h
  approve_node-Steps approval status r id node a journal journal' replayed named is h =
      with_ok (or_missing node.approval_for) _ h λ subject_id _ h₁.
        with_ok (or_missing (status_named status subject_id)) _ h₁ λ subject _ h₂.
          approve_subject-Steps subject.agent_run_id r id node a journal journal' replayed named is
            (rw (node_named-id c.snapshot.nodes id node named) at h₂)

  reconcile_approval-Steps :
      (status : List NodeStatus) (r : Replay) (id : String) (a : Awaits c.snapshot.nodes r id)
      (journal journal' : List Event)
      → IsReplay journal r
      → reconcile_approval c disposition status journal id ≡ ok journal'
      → Steps c r id journal'
  unfolding reconcile_approval
  reconcile_approval-Steps status r id a journal journal' replayed h =
      with_ok (or_missing (node_named c.snapshot.nodes id)) _ h λ node named h₁.
        approve_node-Steps node.kind status r id node a journal journal' replayed
          (or_missing-some (node_named c.snapshot.nodes id) node named) refl h₁

  keep_awaiting :
      (id : String) (r r' : Replay) (ids : List String)
      → ((j : String) → str_eq id j ≡ false → lookup j r'.nodes ≡ lookup j r.nodes)
      → elem id ids ≡ false
      → All (Awaits c.snapshot.nodes r) ids
      → All (Awaits c.snapshot.nodes r') ids
  unfolding elem
  keep_awaiting id r r' [] others absent found = tt
  keep_awaiting id r r' (j ∷ ids) others absent found =
      let a = found.0 in
      (
        record {
          s = a.s;
          found = others j (ground arith) ∙ a.found;
          at_eligible = a.at_eligible;
          kind = a.kind;
        },
        keep_awaiting id r r' ids others (ground arith) found.1,
      )

  pass-replays :
      (status : List NodeStatus) (ids : List String) (r : Replay) (journal : List Event)
      → distinct ids ≡ true
      → All (Awaits c.snapshot.nodes r) ids
      → IsReplay journal r
      → IsReplayable
          (pass (λ j id. kept j (reconcile_approval c disposition status j id)) journal ids).1
  unfolding pass distinct
  pass-replays status [] r journal names found replayed = (r, replayed)
  pass-replays status (id ∷ ids) r journal names found replayed =
      then_kept-holds IsReplayable journal (reconcile_approval c disposition status journal id)
        (λ j. pass (λ j id. kept j (reconcile_approval c disposition status j id)) j ids)
        (r, replayed)
        λ journal₁ first.
          let t = reconcile_approval-Steps status r id found.0 journal journal₁ replayed first in
          let parts = both (elem id ids) (distinct ids) names in
          pass-replays status ids t.after journal₁ parts.1
            (keep_awaiting id r t.after ids t.others parts.0 found.1) t.replayed
    where
      both : (a b : Bool) → (not a && b) ≡ true → (a ≡ false) × (b ≡ true)
      both true b e = cc
      both false b e = (refl, e)

-- The names of some of the nodes are among the names of all, and as distinct.
elem-filter_names :
    (p : Node → Bool) (nodes : List Node) (id : String)
    → elem id (map (λ n. n.node_id) nodes) ≡ false
    → elem id (map (λ n. n.node_id) (filter p nodes)) ≡ false
unfolding elem
elem-filter_names p [] id h = refl
elem-filter_names p (n ∷ nodes) id h = ground (arith, elem-filter_names p nodes id)

distinct-filter_names :
    (p : Node → Bool) (nodes : List Node)
    → distinct (map (λ n. n.node_id) nodes) ≡ true
    → distinct (map (λ n. n.node_id) (filter p nodes)) ≡ true
unfolding distinct
distinct-filter_names p [] h = refl
distinct-filter_names p (n ∷ nodes) h =
    ground (arith, elem-filter_names p nodes n.node_id, distinct-filter_names p nodes)

calculate_eligibility-distinct :
    (snapshot : Snapshot) (status : List NodeStatus)
    → distinct (map (λ n. n.node_id) snapshot.nodes) ≡ true
    → distinct (calculate_eligibility snapshot status) ≡ true
unfolding calculate_eligibility
calculate_eligibility-distinct snapshot status names =
    distinct-sorted (map (λ n. n.node_id) (filter (may_launch (states_of status)) snapshot.nodes))
      (distinct-filter_names (may_launch (states_of status)) snapshot.nodes names)

-- A name that may be launched is that of an eligible node.
calculate_eligibility-state :
    (snapshot : Snapshot) (status : List NodeStatus) (id : String)
    → elem id (calculate_eligibility snapshot status) ≡ true
    → state_is (states_of status) eligible id ≡ true
unfolding calculate_eligibility may_launch
calculate_eligibility-state snapshot status id h =
    let ids = map (λ n. n.node_id) (filter (may_launch (states_of status)) snapshot.nodes) in
    let (node, _, _, _, named, ready) =
      eligible-node (states_of status) snapshot.nodes id (sym (elem-sorted id ids) ∙ h) in
    subst (λ x. state_is (states_of status) eligible x ≡ true) named
      (first_part (state_is (states_of status) eligible node.node_id) _ ready)
  where
    first_part : (a b : Bool) → (a && b) ≡ true → a ≡ true
    first_part true b e = refl
    first_part false b e = cc

-- Whatever `_reconcile_approvals` has written when it returns or raises, after a status that a journal
-- of a snapshot with distinct node ids gave and whatever the dispositions of the subjects are, replays.
pub reconcile_approvals-replays :
    (c : Context) (disposition : String → Result EvidenceError (Option Disposition))
    (journal : List Event) (r : Replay)
    → distinct (map (λ n. n.node_id) c.snapshot.nodes) ≡ true
    → replay c.stamp.workflow_id c.stamp.snapshot_sha256 c.snapshot.nodes journal ≡ ok r
    → (r' : Replay) × (replay c.stamp.workflow_id c.stamp.snapshot_sha256 c.snapshot.nodes
          (reconcile_approvals c disposition (values r.nodes) journal).1
        ≡ ok r')
unfolding reconcile_approvals
reconcile_approvals-replays c disposition journal r names replayed =
    let workflow_id = c.stamp.workflow_id in
    let digest = c.stamp.snapshot_sha256 in
    let nodes = c.snapshot.nodes in
    let keyed = replay-keyed workflow_id digest nodes journal r replayed in
    let ids = calculate_eligibility c.snapshot (values r.nodes) in
    let awaits : All (Awaits nodes r) ids = All-of_elem (Awaits nodes r) ids λ id listed.
      let state =
        has_state-some _ eligible
          (calculate_eligibility-state c.snapshot (values r.nodes) id listed) in
      let (s, found, at_eligible) =
        found_at (lookup id r.nodes) eligible (sym (states_of-values r.nodes id keyed) ∙ state) in
      record {
        s = s;
        found = found;
        at_eligible = at_eligible;
        kind = replay-kinds workflow_id digest nodes journal r id s replayed found;
      } in
    pass-replays c disposition (values r.nodes) ids r journal
      (calculate_eligibility-distinct c.snapshot (values r.nodes) names) awaits replayed
