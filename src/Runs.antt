-- ===== src/Runs.antt =====
-- events.py and run_lifecycle.py: the lifecycle journal of an Agent Run, the transitions of its
-- execution state, and the projection status.json with state.py's `_update_projection_path_unchecked`.
-- JSON values in events are texts or null. What is written before an error is raised stays written.
pub mod History
pub mod Projection
pub mod Guard
pub mod Authority
pub mod Reached
use agent_workflow.Base.{
  ℕ, ◌+◌, String, Bool, true, false, not, ◌&&◌, ◌||◌, Option, none, some, List, [], ◌∷◌, ◌++◌,
  length, elem, ◌==◌, str_eq, opt_eq, if◌then◌else◌, Dict, lookup, insert, Result, ok, err, ◌>>=◌,
  ◌>>◌, require,
}
use agent_workflow.Journal.{JournalError, Domain, default_limits, read_jsonl, transact_jsonl}

pub data RunError : Type 0 where
  invalid_event sequence_mismatch invalid_state invalid_status invalid_transition : RunError
  wrong_schema already_initialized not_initialized sealed_immutable seal_invalid : RunError
  sealed_status_invalid unknown_projection projection_invalid : RunError
  journal : JournalError → RunError

pub record Event : Type 0 where
  pub schema : String
  pub sequence : ℕ
  pub timestamp : String
  pub dimension : String
  pub prior : Option String
  pub new : Option String
  pub actor : String
  pub reason : String
  pub receipt_refs : List String

-- status.json: the fields that the code here reads or stamps, and the others by name.
pub record Status : Type 0 where
  pub schema : String
  pub status : String
  pub updated_at : String
  pub generated_at : String
  pub source : String
  pub freshness : String
  pub fields : Dict String

-- A run's directory. `events` is `none` where there is no journal; `sealed` is `none` where there is
-- no final receipt, and otherwise the status of the sealed final-status.json, or `none` where the
-- verification of the seal raises.
pub record Run : Type 0 where
  pub events : Option (List Event)
  pub projection : Option Status
  pub sealed : Option (Option String)

-- The length of an event's JSON line, and the clock.
pub record Externals : Type 0 where
  pub bytes : Event → ℕ
  pub now : String

-- `_current`: the schema test of a status.
unfoldable pub is_current : Status → Bool
is_current data_ = str_eq data_.schema "agent-workflow/agent-run-status/v1"

-- EXECUTION_STATUSES
abbrev pub execution_statuses : List String
execution_statuses =
    "prepared" ∷ "running" ∷ "interruption_requested" ∷ "completed" ∷ "failed" ∷ "interrupted"
    ∷ "terminated" ∷ "retired" ∷ []

-- `_ALLOWED_TRANSITIONS`; "retired" has no entry there, which allows nothing either.
unfoldable pub allowed_transitions : Option String → List String
allowed_transitions none = "prepared" ∷ "failed" ∷ []
allowed_transitions (some prior) =
    if str_eq prior "prepared"
    then "running" ∷ "interruption_requested" ∷ "terminated" ∷ "retired" ∷ "failed" ∷ []
    else if str_eq prior "running"
    then "interruption_requested" ∷ "completed" ∷ "failed" ∷ "interrupted" ∷ "terminated" ∷ []
    else if str_eq prior "interruption_requested"
    then "completed" ∷ "failed" ∷ "interrupted" ∷ "terminated" ∷ []
    else []

unfoldable pub validate_transition : Option String → String → Result RunError (Unit {0})
unfolding allowed_transitions
validate_transition prior new = do
  require (elem new execution_statuses) invalid_status
  require (opt_eq (some new) prior || elem new (allowed_transitions prior)) invalid_transition

abbrev lifecycle_schema : String
lifecycle_schema = "agent-workflow/lifecycle-event/v1"

unfoldable pub validate_lifecycle_event : Event → ℕ → Result RunError (Unit {0})
validate_lifecycle_event event expected_sequence = do
  require (str_eq event.schema lifecycle_schema) invalid_event
  require (event.sequence == expected_sequence) sequence_mismatch

module _ (ext : Externals) where
  abbrev pub lifecycle_domain : Domain RunError Event
  lifecycle_domain = record {
    bytes = ext.bytes;
    sequence = some (λ e. e.sequence);
    validator = validate_lifecycle_event;
    raised = journal;
  }

  unfoldable pub decide_event : Event → List Event → Result RunError (Event × Option Event)
  unfolding validate_lifecycle_event
  decide_event event existing = do
    let numbered = record event { sequence = length existing + 1 }
    validate_lifecycle_event numbered (length existing + 1)
    ok (numbered, some numbered)

  unfoldable pub append_lifecycle_event : Event → List Event → Result RunError (Event × List Event)
  unfolding decide_event
  append_lifecycle_event event file =
      transact_jsonl lifecycle_domain default_limits (decide_event event) file

  -- `reconstruct_lifecycle`: the last value of a dimension.
  unfoldable pub state_from : String → Option String → List Event → Option String
  state_from dimension found [] = found
  state_from dimension found (e ∷ events) =
      state_from dimension (if str_eq e.dimension dimension then e.new else found) events

  abbrev pub check_status : Option String → Result RunError (Option String)
  check_status none = ok none
  check_status (some s) = require (elem s execution_statuses) invalid_state >> ok (some s)

  unfoldable pub execution_state : Option (List Event) → Result RunError (Option String)
  unfolding state_from
  execution_state none = ok none
  execution_state (some file) = do
    events ← read_jsonl lifecycle_domain default_limits file
    check_status (state_from "execution" none events)

  -- `_update_projection_path_unchecked` with a new execution status.
  abbrev pub insert_all : Dict String → Dict String → Dict String
  insert_all [] fields = fields
  insert_all ((k, v) ∷ updates) fields = insert_all updates (insert k v fields)

  -- `changes.get("updated_at") or utc_now()`
  abbrev or_now : Option String → String
  or_now none = ext.now
  or_now (some t) = if str_eq t "" then ext.now else t

  unfoldable pub stamp : Status → String → String → String → Dict String → Status
  stamp data_ status source freshness updates = record data_ {
    status = status;
    updated_at = or_now (lookup "updated_at" updates);
    generated_at = ext.now;
    source = source;
    freshness = freshness;
    fields = insert_all updates data_.fields;
  }

  unfoldable pub update_projection :
      Run → String → String → String → Dict String → Run × Result RunError Status
  unfolding stamp is_current
  update_projection run status source freshness updates = elim run.projection [
    | none ↦ (run, err unknown_projection)
    | some projected ↦
        if is_current projected
        then (
          record run { projection = some (stamp projected status source freshness updates) },
          ok (stamp projected status source freshness updates),
        )
        else (run, err projection_invalid)
  ]

  abbrev pub execution_event : Option String → String → String → String → List String → Event
  execution_event prior new actor reason receipt_refs = record {
    schema = lifecycle_schema;
    sequence = 0;
    timestamp = ext.now;
    dimension = "execution";
    prior = prior;
    new = some new;
    actor = actor;
    reason = reason;
    receipt_refs = receipt_refs;
  }

  abbrev pub or_new : Option (List Event) → List Event
  or_new none = []
  or_new (some file) = file

  -- The journal behind a run's transition to another state.
  unfoldable pub record_transition :
      Run → Option String → String → String → String → List String → Result RunError Run
  unfolding append_lifecycle_event
  record_transition run prior new actor reason receipt_refs = do
    (event, file) ←
        append_lifecycle_event (execution_event prior new actor reason receipt_refs)
          (or_new run.events)
    ok (record run { events = some file })

  unfoldable pub check_initial : Run → Status → Result RunError (Unit {0})
  unfolding execution_state validate_transition is_current
  check_initial run data_ = do
    require (is_current data_) wrong_schema
    current ← execution_state run.events
    require (opt_eq current none) already_initialized
    validate_transition none data_.status

  unfoldable pub initialize_execution_path :
      Run → Status → String → String → List String → String → Run × Result RunError Status
  unfolding check_initial record_transition is_current
  initialize_execution_path run data_ actor reason receipt_refs source =
      elim (check_initial run data_
        >> record_transition run none data_.status actor reason receipt_refs) [
          | err e ↦ (run, err e)
          | ok run' ↦
              let current : Status = record data_ {
                generated_at = ext.now;
                source = source;
                freshness = "snapshot";
              } in
              if is_current data_
              then (record run' { projection = some current }, ok current)
              else (run', err projection_invalid)
        ]

  unfoldable pub authoritative_execution_status : Run → Result RunError String
  unfolding execution_state
  authoritative_execution_status run = elim run.sealed [
    | some none ↦ err seal_invalid
    | some (some status) ↦
        require (elem status execution_statuses) sealed_status_invalid >> ok status
    | none ↦ do
      current ← execution_state run.events
      elim current [ none ↦ err not_initialized | some status ↦ ok status ]
  ]

  -- The run with the event of a transition, where there is one to record.
  unfoldable pub advance_state : Run → String → String → String → List String → Result RunError Run
  unfolding execution_state validate_transition record_transition
  advance_state run new actor reason receipt_refs = do
    prior ← execution_state run.events
    require (not (opt_eq prior none)) not_initialized
    validate_transition prior new
    (if opt_eq (some new) prior
        then ok run
        else record_transition run prior new actor reason receipt_refs)

  abbrev pub is_sealed : Run → Bool
  is_sealed run = elim run.sealed [ none ↦ false | some _ ↦ true ]

  unfoldable pub transition_execution_path :
      Run
      → (new_status actor reason : String) → List String
      → (source freshness : String) → Dict String
      → Run × Result RunError Status
  unfolding authoritative_execution_status update_projection advance_state
  transition_execution_path run new_status actor reason receipt_refs source freshness updates =
      elim (if is_sealed run
        then (authoritative_execution_status run >>= λ sealed.
            require (str_eq new_status sealed) sealed_immutable >> ok run)
        else advance_state run new_status actor reason receipt_refs) [
          | err e ↦ (run, err e)
          | ok run' ↦ update_projection run' new_status source freshness updates
        ]

  abbrev pub is_empty : Dict String → Bool
  is_empty [] = true
  is_empty (x ∷ xs) = false

  unfoldable pub projected_status : Run → Result RunError Status
  unfolding is_current
  projected_status run = elim run.projection [
    | none ↦ err unknown_projection
    | some projected ↦ require (is_current projected) projection_invalid >> ok projected
  ]

  unfoldable pub refresh :
      Run → String → Status → String → String → Dict String → Run × Result RunError Status
  unfolding update_projection
  refresh run current projected source freshness updates =
      if str_eq projected.status current && is_empty updates
      then (run, ok projected)
      else update_projection run current source freshness updates

  unfoldable pub synchronize_projection :
      Run → (source freshness : String) → Dict String → Run × Result RunError Status
  unfolding authoritative_execution_status projected_status refresh
  synchronize_projection run source freshness updates = elim (authoritative_execution_status run) [
    | err e ↦ (run, err e)
    | ok current ↦ elim (projected_status run) [
      | err e ↦ (run, err e)
      | ok projected ↦ refresh run current projected source freshness updates
    ]
  ]
