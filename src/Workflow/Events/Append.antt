-- ===== src/Workflow/Events/Append.antt =====
-- Proofs about `append_workflow_event` of workflow.py.
use agent_workflow.Base.{
  ◌+◌, String, ◌≡◌, sym, ◌∙◌, true, Option, some, List, [], ◌∷◌, ◌++◌, length, ok, with_ok,
  with_require, ok-injective, arith,
}
use agent_workflow.Journal.{default_limits, in_sequence}
use agent_workflow.Journal.Written.{transact_jsonl-written}
use agent_workflow.Workflow.Ids.{validate_id}
use agent_workflow.Workflow.Types.{
  NodeState, Details, node_transition, node_bound, Binding, Event, Externals, invalid_id,
}
use agent_workflow.Workflow.Events.{
  validate_event, events_domain, read_workflow_events, decide_event, append_workflow_event, Stamp,
  event_of, valid_retry, record_workflow_transition, record_workflow_binding,
}

-- The event with its place in the journal.
abbrev pub numbered : Event → List Event → Event
numbered event file = record event { sequence = length file + 1 }

module _ (ext : Externals) where
  decide_event-parts :
      (event : Event) (file : List Event) (decision : Event × Option Event)
      → decide_event ext event file ≡ ok decision
      → decision ≡ (numbered event file, some (numbered event file))
  unfolding decide_event
  decide_event-parts event file decision h =
      with_ok (validate_event ext (numbered event file) (length file + 1)) _ h
        λ u valid e. sym (ok-injective e)

  pub decide_event-valid :
      (event : Event) (existing : List Event) (v r : Event)
      → decide_event ext event existing ≡ ok (v, some r)
      → (validate_event ext r (length existing + 1) ≡ ok tt)
        × (in_sequence (some (λ (e : Event). e.sequence)) r (length existing + 1) ≡ true)
  unfolding decide_event
  decide_event-valid event existing v r h =
      with_ok (validate_event ext (numbered event existing) (length existing + 1)) _ h λ u valid e.
        let same : numbered event existing ≡ r = cc in
        (rw (← same) valid, rw (← same) (ground arith))

  -- A successful append leaves a readable journal with the numbered event behind the old ones.
  pub append_workflow_event-reads :
      (event : Event) (file file' : List Event) (value : Event)
      → append_workflow_event ext event file ≡ ok (value, file')
      → (read_workflow_events ext file' ≡ ok file')
        × (file' ≡ file ++ numbered event file ∷ [])
        × (value ≡ numbered event file)
  unfolding append_workflow_event read_workflow_events
  append_workflow_event-reads event file file' value h =
      let (reads, longer, is, _) =
        transact_jsonl-written (events_domain ext) default_limits (decide_event ext event)
          (numbered event) (decide_event-parts event) (decide_event-valid event) file file' value
          h in
      (reads, longer, is)

  -- The same for the two records that the scheduler writes.
  pub record_workflow_transition-reads :
      (stamp : Stamp) (node_id reason : String) (p n : NodeState) (details : Option Details)
      (file file' : List Event)
      → record_workflow_transition ext stamp node_id reason p n details file ≡ ok file'
      → (read_workflow_events ext file' ≡ ok file')
        × (file'
            ≡ file
              ++ numbered (event_of stamp node_id reason (node_transition p n details)) file ∷ [])
  unfolding record_workflow_transition
  record_workflow_transition-reads stamp node_id reason p n details file file' h =
      let event = event_of stamp node_id reason (node_transition p n details) in
      with_require (validate_id stamp.workflow_id) invalid_id _ h λ _ h₁.
        with_require (validate_id node_id) invalid_id _ h₁ λ _ h₂.
          with_ok (append_workflow_event ext event file) _ h₂ λ result appended e.
            let parts = append_workflow_event-reads event file result.1 result.0 appended in
            let same : result.1 ≡ file' = ok-injective e in
            (rw (← same) parts.0, sym same ∙ parts.1)

  pub record_workflow_binding-reads :
      (stamp : Stamp) (node_id reason : String) (b : Binding) (file file' : List Event)
      → record_workflow_binding ext stamp node_id reason b file ≡ ok file'
      → (validate_id node_id ≡ true)
        × (validate_id b.agent_run_id ≡ true)
        × (valid_retry b.retry_of_agent_run_id ≡ true)
        × (read_workflow_events ext file' ≡ ok file')
        × (file' ≡ file ++ numbered (event_of stamp node_id reason (node_bound b)) file ∷ [])
  unfolding record_workflow_binding
  record_workflow_binding-reads stamp node_id reason b file file' h =
      let event = event_of stamp node_id reason (node_bound b) in
      with_require (validate_id stamp.workflow_id) invalid_id _ h λ _ h₁.
        with_require (validate_id node_id) invalid_id _ h₁ λ id_valid h₂.
          with_require (validate_id b.agent_run_id) invalid_id _ h₂ λ run_valid h₃.
            with_require (valid_retry b.retry_of_agent_run_id) invalid_id _ h₃ λ retry_valid h₄.
              with_ok (append_workflow_event ext event file) _ h₄ λ result appended e.
                let parts = append_workflow_event-reads event file result.1 result.0 appended in
                let same : result.1 ≡ file' = ok-injective e in
                (id_valid, run_valid, retry_valid, rw (← same) parts.0, sym same ∙ parts.1)
