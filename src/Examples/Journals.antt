-- ===== src/Examples/Journals.antt =====
-- The first event of the second task is appended to the journal of the first.
use agent_workflow.Base.{◌≡◌, refl, ◌⊎◌, none, List, [], ◌∷◌, ◌++◌, ok, some}
use agent_workflow.Journal.{default_limits, read_jsonl, transact_jsonl}
use agent_workflow.Journal.Append.{read_jsonl-transact_jsonl}
use agent_workflow.Workflow.Types.{blocked, eligible, node_transition, Event}
use agent_workflow.Workflow.Events.{
  events_domain, decide_event, append_workflow_event, read_workflow_events,
}
use agent_workflow.Workflow.Events.Append.{
  numbered, decide_event-valid, append_workflow_event-reads,
}
use agent_workflow.Examples.{externals, event, build_done}

abbrev released : Event
released = event 0 "test" (node_transition blocked eligible none)

abbrev longer : List Event
longer = build_done ++ numbered released build_done ∷ []

released_appends :
    append_workflow_event externals released build_done ≡ ok (numbered released build_done, longer)
unfolding append_workflow_event transact_jsonl
released_appends = refl

released_transacts :
    transact_jsonl
      (events_domain externals)
      default_limits
      (decide_event externals released)
      build_done
    ≡ ok (numbered released build_done, longer)
unfolding transact_jsonl decide_event
released_transacts = refl

append_workflow_event-reads_example :
    (read_workflow_events externals longer ≡ ok longer)
    × (longer ≡ build_done ++ numbered released build_done ∷ [])
    × (numbered released build_done ≡ numbered released build_done)
append_workflow_event-reads_example =
    append_workflow_event-reads externals released build_done longer (numbered released build_done)
      released_appends

read_jsonl-transact_jsonl_example :
    (read_jsonl (events_domain externals) default_limits longer ≡ ok longer)
    × (((decide_event externals released build_done ≡ ok (numbered released build_done, none))
          × (longer ≡ build_done))
        ⊎ ((r : Event) × (decide_event externals released build_done
              ≡ ok (numbered released build_done, some r))
            × (longer ≡ build_done ++ r ∷ [])))
read_jsonl-transact_jsonl_example =
    read_jsonl-transact_jsonl (events_domain externals) default_limits
      (decide_event externals released) build_done longer (numbered released build_done)
      (decide_event-valid externals released) released_transacts
