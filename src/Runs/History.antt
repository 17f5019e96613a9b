-- ===== src/Runs/History.antt =====
-- Proofs about the lifecycle journal of events.py and the transitions of run_lifecycle.py.
use agent_workflow.Base.{
  ◌+◌, String, ◌≡◌, ◌⊎◌, refl, sym, ap, ◌∙◌, subst, Bool, true, false, not, ◌&&◌, ◌||◌, Option,
  none, some, List, [], ◌∷◌, ◌++◌, length, elem, str_eq, opt_eq, opt_eq→eq, Bool-cases, inl, inr,
  if◌then◌else◌, ok, ok-injective, with_ok, with_require, require-true, arith,
}
use agent_workflow.Journal.{default_limits, read_jsonl, in_sequence}
use agent_workflow.Journal.Append.{read_jsonl-parts}
use agent_workflow.Journal.Written.{transact_jsonl-written}
use agent_workflow.Runs.{
  invalid_state, invalid_status, invalid_transition, not_initialized, Event, Run, Externals,
  execution_statuses, allowed_transitions, validate_transition, validate_lifecycle_event,
  lifecycle_domain, decide_event, append_lifecycle_event, state_from, check_status, execution_state,
  execution_event, or_new, record_transition, advance_state,
}

-- An execution event moves from the state `state` along an allowed transition; events of other
-- dimensions are free.
abbrev pub moves : Option String → Option String → Bool
moves state none = false
moves state (some new) = elem new execution_statuses && elem new (allowed_transitions state)

abbrev pub is_move : Option String → Event → Bool
is_move state e =
    not (str_eq e.dimension "execution") || (opt_eq e.prior state && moves state e.new)

abbrev pub next_state : Option String → Event → Option String
next_state state e = if str_eq e.dimension "execution" then e.new else state

abbrev pub follows : Option String → List Event → Bool
follows state [] = true
follows state (e ∷ events) = is_move state e && follows (next_state state e) events

module _ (ext : Externals) where
  pub state_from-append :
      (state : Option String) (events : List Event) (e : Event)
      → state_from ext "execution" state (events ++ e ∷ [])
        ≡ next_state (state_from ext "execution" state events) e
  unfolding state_from
  state_from-append state [] e = refl
  state_from-append state (x ∷ events) e = state_from-append (next_state state x) events e

  pub follows-append :
      (state : Option String) (events : List Event) (e : Event)
      → follows state (events ++ e ∷ [])
        ≡ (follows state events && is_move (state_from ext "execution" state events) e)
  unfolding state_from
  follows-append state [] e = ground arith
  follows-append state (x ∷ events) e =
      let later = follows-append (next_state state x) events e in ground (arith, later)

  abbrev pub numbered : Event → List Event → Event
  numbered event file = record event { sequence = length file + 1 }

  decide_event-numbered :
      (event : Event) (file : List Event) (decision : Event × Option Event)
      → decide_event ext event file ≡ ok decision
      → decision ≡ (numbered event file, some (numbered event file))
  unfolding decide_event
  decide_event-numbered event file decision h =
      with_ok (validate_lifecycle_event (numbered event file) (length file + 1)) _ h
        λ _ _ e. sym (ok-injective e)

  decide_event-valid :
      (event : Event) (file : List Event) (v r : Event)
      → decide_event ext event file ≡ ok (v, some r)
      → (validate_lifecycle_event r (length file + 1) ≡ ok tt)
        × (in_sequence (some (λ (e : Event). e.sequence)) r (length file + 1) ≡ true)
  unfolding decide_event
  decide_event-valid event file v r h =
      with_ok (validate_lifecycle_event (numbered event file) (length file + 1)) _ h λ _ valid e.
        let same : numbered event file ≡ r = cc in (rw (← same) valid, rw (← same) (ground arith))

  -- An appended event stands behind the events that were there, and the journal is read back.
  pub append_lifecycle_event-written :
      (event answer : Event) (file file' : List Event)
      → append_lifecycle_event ext event file ≡ ok (answer, file')
      → (file' ≡ file ++ numbered event file ∷ [])
        × (read_jsonl (lifecycle_domain ext) default_limits file' ≡ ok file')
  unfolding append_lifecycle_event
  append_lifecycle_event-written event answer file file' appended =
      let (reads, longer, _, _) =
        transact_jsonl-written (lifecycle_domain ext) default_limits (decide_event ext event)
          (numbered event) (decide_event-numbered event) (decide_event-valid event) file file'
          answer appended in
      (longer, reads)

  pub record_transition-written :
      (run run' : Run) (prior : Option String) (new actor reason : String) (refs : List String)
      → record_transition ext run prior new actor reason refs ≡ ok run'
      → let event =
          numbered (execution_event ext prior new actor reason refs) (or_new ext run.events) in
        (run' ≡ record run { events = some (or_new ext run.events ++ event ∷ []) })
        × (read_jsonl (lifecycle_domain ext) default_limits (or_new ext run.events ++ event ∷ [])
            ≡ ok (or_new ext run.events ++ event ∷ []))
  unfolding record_transition
  record_transition-written run run' prior new actor reason refs h =
      let file = or_new ext run.events in
      let event = execution_event ext prior new actor reason refs in
      with_ok (append_lifecycle_event ext event file) _ h λ result appended e.
        let (longer, reads) =
          append_lifecycle_event-written event result.0 file result.1 appended in
        (
          sym (ok-injective e) ∙ ap (λ z. record run { events = some z }) longer,
          subst (λ z. read_jsonl (lifecycle_domain ext) default_limits z ≡ ok z) longer reads,
        )

  check_status-same : (s r : Option String) → check_status ext s ≡ ok r → s ≡ r
  check_status-same none r h = ok-injective h
  check_status-same (some s) r h =
      with_require (elem s execution_statuses) invalid_state _ h λ _ e. ok-injective e

  pub execution_state-state_from :
      (events : Option (List Event)) (state : Option String)
      → execution_state ext events ≡ ok state
      → state_from ext "execution" none (or_new ext events) ≡ state
  unfolding execution_state state_from
  execution_state-state_from none state h = ok-injective h
  execution_state-state_from (some file) state h =
      with_ok (read_jsonl (lifecycle_domain ext) default_limits file) _ h λ events readable e.
        let (_, _, same) =
          read_jsonl-parts (lifecycle_domain ext) default_limits file events readable in
        ap (state_from ext "execution" none) (sym same)
        ∙ check_status-same (state_from ext "execution" none events) state e

  -- What a step of the state machine does to the run.
  abbrev pub Advances : Run → Run → String → String → String → List String → Type 0
  Advances run run' new actor reason refs =
      (prior : Option String) × (execution_state ext run.events ≡ ok prior)
      × (elem new execution_statuses ≡ true)
      × (((run' ≡ run) × (prior ≡ some new))
          ⊎ ((elem new (allowed_transitions prior) ≡ true)
              × (record_transition ext run prior new actor reason refs ≡ ok run')))

  pub advance_state-Advances :
      (run run' : Run) (new actor reason : String) (refs : List String)
      → advance_state ext run new actor reason refs ≡ ok run'
      → Advances run run' new actor reason refs
  unfolding advance_state validate_transition
  advance_state-Advances run run' new actor reason refs h =
      with_ok (execution_state ext run.events) _ h λ prior was h₁.
        with_require (not (opt_eq prior none)) not_initialized _ h₁ λ _ h₂.
          with_ok (validate_transition prior new) _ h₂ λ _ valid h₃.
            with_require (elem new execution_statuses) invalid_status _ valid λ known may.
              let may' =
                require-true (opt_eq (some new) prior || elem new (allowed_transitions prior))
                  invalid_transition may in
              elim (Bool-cases (opt_eq (some new) prior)) [
                | inl e ↦ (
                  prior,
                  was,
                  known,
                  inl (sym (ok-injective (rw e at h₃)), sym (opt_eq→eq (some new) prior e)),
                )
                | inr e ↦ (prior, was, known, inr (ground (arith, may', e), rw e at h₃))
              ]
