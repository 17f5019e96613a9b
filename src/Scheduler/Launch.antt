-- ===== src/Scheduler/Launch.antt =====
-- scheduler.py: `_run_id`, `_bind`, `_execute`, `launch_eligible` and `retry`. A method that raises
-- keeps what it has written, so an action returns the journal beside its result. The plans of one
-- call are executed in their order: the source submits them to a thread pool, waits for all of
-- them, and raises the first exception in that order.
pub mod Retry
use Prim.Native.String.{◌++◌ as append_text}
use agent_workflow.Base.{
  ℕ, zero, suc, ◌+◌, String, Bool, true, false, not, ◌&&◌, ◌||◌, Option, none, some, List, [], ◌∷◌,
  ltb, ◌==◌, if◌then◌else◌, str_eq, Result, ok, err,
}
use Prim.Native.Nat.{◌/◌, ◌%◌}
use agent_workflow.Workflow.Ids.{validate_id}
use agent_workflow.Workflow.Types.{
  NodeState, eligible, running, failed, recoverable, state_eq, Kind, task, approval, Node, Snapshot,
  Binding, Details, Event, NodeStatus, WorkflowStatus, WorkflowError, invalid_id,
}
use agent_workflow.Workflow.Events.{record_workflow_binding}
use agent_workflow.Workflow.Replay.{reconstruct_workflow_status}
use agent_workflow.Scheduler.Plan.{PlanError, plan_launches}
use agent_workflow.Scheduler.Children.{Child, EvidenceError, child_run_exists}
use agent_workflow.Scheduler.Reconcile.{
  Context, SchedulerError, workflow, not_retryable, not_eligible_node, unknown_node, approval_retry,
  inputs_failed, launch_failed, no_authoritative_child, bad_limit, lift, transition, node_named,
  status_named, or_missing, reconcile_running, reconcile_blocked, reconcile_approvals, Disposition,
}

abbrev pub Action {ℓ} : Type ℓ → Type ℓ
Action A = List Event → Result SchedulerError A × List Event

module _ {ℓ κ} {A : Type ℓ} {B : Type κ} where
  abbrev pub continue : Result SchedulerError A → (A → Action B) → Action B
  continue (ok a) f = f a
  continue (err e) f = λ journal. (err e, journal)

  infixl 5 ◌>>=◌
  abbrev pub ◌>>=◌ : Action A → (A → Action B) → Action B
  m >>= f = λ journal. let (result, after) = m journal in continue result f after

infixl 5 ◌>>◌
abbrev pub ◌>>◌ {ℓ} : {B : Type ℓ} → Action (Unit {0}) → Action B → Action B
m >> k = m >>= λ _. k

module _ {ℓ} {A : Type ℓ} where
  abbrev pub pure : A → Action A
  pure a journal = (ok a, journal)

  abbrev pub raise : SchedulerError → Action A
  raise e journal = (err e, journal)

  -- A value that is computed with no write.
  abbrev pub from : Result SchedulerError A → Action A
  from m journal = (m, journal)

-- An append to the journal, or the journal as it was and the error.
abbrev pub wrote :
    List Event → Result SchedulerError (List Event) → Result SchedulerError (Unit {0}) × List Event
wrote journal (ok journal') = (ok tt, journal')
wrote journal (err e) = (err e, journal)

abbrev pub write : (List Event → Result SchedulerError (List Event)) → Action (Unit {0})
write f journal = wrote journal (f journal)

abbrev pub digit : ℕ → String
digit n =
    if n == 0
    then "0"
    else if n == 1
    then "1"
    else if n == 2
    then "2"
    else if n == 3
    then "3"
    else if n == 4
    then "4"
    else if n == 5
    then "5"
    else if n == 6
    then "6"
    else if n == 7
    then "7"
    else if n == 8
    then "8"
    else "9"

-- `str(n)`. One digit is written for each unit of fuel, and n + 1 units are enough.
unfoldable pub show : ℕ → ℕ → String → String
show zero n digits = digits
show (suc fuel) n digits =
    let more = append_text (digit (n % 10)) digits in
    let rest = show fuel (n / 10) more in if ltb n 10 then more else rest

-- `_run_id`, before `validate_id`.
unfoldable pub run_id : String → ℕ → String
unfolding show
run_id base attempt =
    if attempt == 1
    then base
    else append_text base (append_text "-retry-" (show (suc attempt) attempt ""))

pub record LaunchPlan : Type 0 where
  pub node_id : String
  pub agent_run_id : String
  pub attempt : ℕ
  pub retry_of_agent_run_id : Option String

-- What the launch of a run meets: the child before and after, whether its inputs resolve and to
-- which digest, whether the launch function raises, and the time stamp of a binding.
pub record World : Type 0 where
  pub child : String → Child
  pub child_after : String → Child
  pub inputs_resolve : String → Bool
  pub input_sha256 : String → Option String
  pub launch_raises : String → Bool
  pub now : String

-- `int(current["attempt"] or 0) + 1`
abbrev pub next_attempt : Option ℕ → ℕ
next_attempt none = 1
next_attempt (some n) = n + 1

-- `str(current["agent_run_id"])`: Python writes `None` for no run.
abbrev pub str_of : Option String → String
str_of none = "None"
str_of (some run) = run

abbrev pub text_of : Option String → String
text_of none = ""
text_of (some s) = s

module _ (c : Context) (w : World) where
  abbrev pub status : Action WorkflowStatus
  status journal = (lift (reconstruct_workflow_status c.ext c.snapshot journal), journal)

  -- The binding that `_bind` writes, for an attempt with or without a run to retry.
  unfoldable pub bind_run : Node → ℕ → Option String → Action LaunchPlan
  unfolding run_id
  bind_run node attempt retry_of = do
    let run = run_id (text_of node.agent_run_id) attempt
    from (if validate_id run then ok tt else err (workflow invalid_id))
    write (λ journal. lift (
        record_workflow_binding c.ext c.stamp node.node_id "scheduler launch binding"
          (record {
            agent_run_id = run;
            attempt = attempt;
            retry_of_agent_run_id = retry_of;
            bound_at = w.now;
            current = true;
          })
          journal))
    pure (record {
      node_id = node.node_id;
      agent_run_id = run;
      attempt = attempt;
      retry_of_agent_run_id = retry_of;
    })

  -- `retry=True`: a new attempt of the current run, and the node is eligible again.
  unfoldable pub bind_retry : Node → NodeStatus → Action LaunchPlan
  unfolding bind_run
  bind_retry node current = do
    from (
        if state_eq current.state failed || state_eq current.state recoverable
        then ok tt
        else err not_retryable)
    plan ← bind_run node (next_attempt current.attempt) (some (str_of current.agent_run_id))
    write (transition c node.node_id "retry binding is eligible" current.state eligible none)
    pure plan

  -- `retry=False`: a binding that a crash left behind is used again.
  abbrev bind_fresh : Node → NodeStatus → Option String → Action LaunchPlan
  bind_fresh node current (some run) =
      if state_eq current.state eligible
      then pure (record {
        node_id = node.node_id;
        agent_run_id = run;
        attempt = elim current.attempt [ none ↦ 0 | some n ↦ n ];
        retry_of_agent_run_id = current.retry_of_agent_run_id;
      })
      else raise not_eligible_node
  bind_fresh node current none =
      if state_eq current.state eligible then bind_run node 1 none else raise not_eligible_node

  unfoldable pub bind : Node → Bool → Action LaunchPlan
  unfolding bind_retry status_named
  bind node retry = do
    s ← status
    current ← from (or_missing (status_named s.nodes node.node_id))
    if retry then bind_retry node current else bind_fresh node current current.agent_run_id

  -- `_execute` after its first look at the status.
  unfoldable pub execute_run : LaunchPlan → String → Action (Unit {0})
  unfolding child_run_exists
  execute_run plan run =
      if not (w.inputs_resolve run)
      then write (transition c plan.node_id "workflow input binding failed" eligible failed none)
        >> raise inputs_failed
      else if child_run_exists (w.child run) run
      then pure tt
      else if w.launch_raises run
      then write (
          transition c plan.node_id "launch failed; recovery state required" eligible
            (if child_run_exists (w.child_after run) run then recoverable else failed) none)
        >> raise launch_failed
      else if not (child_run_exists (w.child_after run) run)
      then write (
          transition c plan.node_id
            "launch outcome is not durably authoritative; manual recovery required" eligible
            recoverable none)
        >> raise no_authoritative_child
      else write (
          transition c plan.node_id "authoritative child Agent Run exists" eligible running (
            some (record {
              approval_receipt_sha256 = none;
              input_binding_sha256 = w.input_sha256 run;
            })))

  unfoldable pub execute : Node → LaunchPlan → Action (Unit {0})
  unfolding execute_run
  execute node plan = do s ← status; execute_run plan plan.agent_run_id

  -- `[self._bind(...) for node_id in node_ids]`
  unfoldable pub bind_all : List String → Action (List (Node × LaunchPlan))
  unfolding bind node_named
  bind_all [] = pure []
  bind_all (id ∷ ids) = do
    node ← from (or_missing (node_named c.snapshot.nodes id))
    plan ← bind node false
    rest ← bind_all ids
    pure ((node, plan) ∷ rest)

  abbrev first_error :
      Result SchedulerError (Unit {0})
      → Result SchedulerError (Unit {0})
      → Result SchedulerError (Unit {0})
  first_error (err e) r = err e
  first_error (ok u) r = r

  -- Every plan is executed, also after one that raised.
  unfoldable pub execute_all : List (Node × LaunchPlan) → Action (Unit {0})
  unfolding execute
  execute_all [] = pure tt
  execute_all ((node, plan) ∷ plans) = λ journal.
      let (first, journal') = execute node plan journal in
      let (rest, journal'') = execute_all plans journal' in (first_error first rest, journal'')

  abbrev planned : Result PlanError (List String) → Result SchedulerError (List String)
  planned (ok ids) = ok ids
  planned (err e) = err bad_limit

  unfoldable pub launch_eligible :
      ℕ → (String → Result EvidenceError (Option Disposition)) → Action (List (Node × LaunchPlan))
  unfolding bind_all execute_all reconcile_running reconcile_blocked reconcile_approvals
      plan_launches
  launch_eligible max_parallelism disposition = do
    s ← status
    reconcile_running c w.child s.nodes
    s₁ ← status
    reconcile_blocked c s₁.nodes
    s₂ ← status
    reconcile_approvals c disposition s₂.nodes
    s₃ ← status
    reconcile_blocked c s₃.nodes
    s₄ ← status
    ids ← from (planned (plan_launches c.snapshot s₄.nodes max_parallelism))
    plans ← bind_all ids
    execute_all plans
    pure plans

  abbrev retry_kind : Kind → Node → Action (Unit {0})
  retry_kind approval node = raise approval_retry
  retry_kind task node = do plan ← bind node true; execute node plan

  abbrev retry_found : Option Node → Action (Unit {0})
  retry_found none = raise unknown_node
  retry_found (some node) = retry_kind node.kind node

  unfoldable pub retry : String → Action (Unit {0})
  unfolding bind execute node_named
  retry id = do
    from (if validate_id id then ok tt else err (workflow invalid_id))
    retry_found (node_named c.snapshot.nodes id)
