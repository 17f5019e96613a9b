-- ===== src/Runs/Reached.antt =====
-- The runs that the operations of run_lifecycle.py and events.py make, one operation at a time.
use agent_workflow.Base.{
  String, ◌≡◌, refl, ap, ◌∙◌, true, false, ◌||◌, Option, none, some, List, elem, str_eq, opt_eq,
  opt_eq→eq, Dict, ok, ◌>>◌, Result-cases, Bool-cases, with_ok, with_require, require-true, inl,
  inr,
}
use agent_workflow.Runs.{
  Event, Status, Run, Externals, is_current, execution_statuses, allowed_transitions,
  execution_state, or_new, append_lifecycle_event, record_transition, check_initial,
  initialize_execution_path, transition_execution_path, synchronize_projection, validate_transition,
  wrong_schema, already_initialized, invalid_status, invalid_transition,
}
use agent_workflow.Runs.History.{follows, numbered, follows-append, append_lifecycle_event-written}
use agent_workflow.Runs.Projection.{synchronize_projection-events}
use agent_workflow.Runs.Guard.{record_transition-follows}
use agent_workflow.Runs.Authority.{transition_execution_path-follows}

-- A new directory has no journal. Whatever the operations answer, what they leave is reached. An
-- event of another dimension, such as a review's, goes into the same journal; a seal is a file beside
-- it.
pub data Reached (ext : Externals) : Run → Type 0 where
  created :
      (projection : Option Status)
      → Reached ext (record { events = none; projection = projection; sealed = none })
  initialized :
      (run : Run) (data_ : Status) (actor reason : String) (refs : List String) (source : String)
      → Reached ext run
      → Reached ext (initialize_execution_path ext run data_ actor reason refs source).0
  transitioned :
      (run : Run) (new actor reason : String) (refs : List String) (source freshness : String)
      (updates : Dict String)
      → Reached ext run
      → Reached ext
          (transition_execution_path ext run new actor reason refs source freshness updates).0
  synchronized :
      (run : Run) (source freshness : String) (updates : Dict String)
      → Reached ext run
      → Reached ext (synchronize_projection ext run source freshness updates).0
  noted :
      (run : Run) (event answer : Event) (file : List Event)
      → Reached ext run
      → str_eq event.dimension "execution" ≡ false
      → append_lifecycle_event ext event (or_new ext run.events) ≡ ok (answer, file)
      → Reached ext (record run { events = some file })
  sealed :
      (run : Run) (seal : Option String)
      → Reached ext run
      → Reached ext (record run { sealed = some seal })

module _ (ext : Externals) where
  abbrev IsMoving : Run → Type 0
  IsMoving run = follows none (or_new ext run.events) ≡ true

  -- What `initialize_execution_path` has checked before it writes.
  check_initial-allowed :
      (run : Run) (data_ : Status) (u : Unit {0})
      → check_initial ext run data_ ≡ ok u
      → (execution_state ext run.events ≡ ok none)
        × (elem data_.status execution_statuses ≡ true)
        × (elem data_.status (allowed_transitions none) ≡ true)
  unfolding check_initial validate_transition opt_eq
  check_initial-allowed run data_ u h = with_require (is_current data_) wrong_schema _ h λ _ h₁.
      with_ok (execution_state ext run.events) _ h₁ λ current was h₂.
        with_require (opt_eq current none) already_initialized _ h₂ λ fresh h₃.
          with_require (elem data_.status execution_statuses) invalid_status _ h₃ λ known h₄.
            let may =
              require-true
                (opt_eq (some data_.status) none || elem data_.status (allowed_transitions none))
                invalid_transition h₄ in
            (was ∙ ap (λ z. ok z) (opt_eq→eq current none fresh), known, may)

  initialize_execution_path-follows :
      (run : Run) (data_ : Status) (actor reason : String) (refs : List String) (source : String)
      → IsMoving run
      → IsMoving (initialize_execution_path ext run data_ actor reason refs source).0
  unfolding initialize_execution_path
  initialize_execution_path-follows run data_ actor reason refs source good =
      elim (Result-cases (
        check_initial ext run data_
        >> record_transition ext run none data_.status actor reason refs)) [
          | inr (e, h) ↦ rw (initialize_execution_path, h) good
          | inl (run', h) ↦
              let moved : IsMoving run' =
                with_ok (check_initial ext run data_) _ h λ u checked recorded.
                  let (was, known, may) = check_initial-allowed run data_ u checked in
                  record_transition-follows ext run run' none data_.status actor reason refs
                    recorded was known may good in
              elim (Bool-cases (is_current data_)) [
                | inl e ↦ rw (initialize_execution_path, h) (rw e moved)
                | inr e ↦ rw (initialize_execution_path, h) (rw e moved)
              ]
        ]

-- In the lifecycle journal of every run that the operations make of a new directory, one at a time and
-- whether they succeed or raise (initialisation, transitions, synchronisations, events of another
-- dimension, sealing), the execution events move along allowed transitions: the first from no state,
-- each later one from the state that the events before it have reached.
pub Reached-follows :
    (ext : Externals) (run : Run) → Reached ext run → follows none (or_new ext run.events) ≡ true
Reached-follows ext _ (created projection) = refl
Reached-follows ext _ (initialized run data_ actor reason refs source before) =
    initialize_execution_path-follows ext run data_ actor reason refs source
      (Reached-follows ext run before)
Reached-follows ext _ (transitioned run new actor reason refs source freshness updates before) =
    transition_execution_path-follows ext run new actor reason refs source freshness updates
      (Reached-follows ext run before)
Reached-follows ext _ (synchronized run source freshness updates before) =
    ap (λ z. follows none (or_new ext z))
      (synchronize_projection-events ext run source freshness updates)
    ∙ Reached-follows ext run before
Reached-follows ext _ (noted run event answer file before other appended) =
    let old = or_new ext run.events in
    let (longer, _) = append_lifecycle_event-written ext event answer old file appended in
    ap (follows none) longer
    ∙ follows-append ext none old (numbered ext event old)
    ∙ rw (Reached-follows ext run before, other) refl
Reached-follows ext _ (sealed run seal before) = Reached-follows ext run before
