-- ===== src/Runs/Guard.antt =====
-- Proofs about the guard of `transition_execution_path` and its step on an open run.
use agent_workflow.Base.{
  String, ◌≡◌, ◌⊎◌, refl, sym, ap, ◌∙◌, subst, true, false, Option, none, some, List, [], ◌∷◌, ◌++◌,
  elem, str_eq, str_eq_iff, str_eq_refl, opt_eq_refl, Bool-cases, Option-cases, inl, inr,
  if◌then◌else◌, Dict, Result, ok, err, ◌>>=◌, ◌>>◌, ok-injective, with_ok, with_require, require,
}
use agent_workflow.Runs.{
  RunError, sealed_immutable, Run, Externals, execution_statuses, allowed_transitions, state_from,
  execution_state, execution_event, or_new, record_transition, advance_state, update_projection,
  is_sealed, authoritative_execution_status, transition_execution_path,
}
use agent_workflow.Runs.History.{
  is_move, follows, state_from-append, follows-append, numbered, record_transition-written,
  execution_state-state_from, advance_state-Advances,
}

module _ (ext : Externals) where
  -- The guard of a transition: the run to project from, or an error.
  abbrev pub guarded : Run → String → String → String → List String → Result RunError Run
  guarded run new actor reason refs =
      if is_sealed ext run
      then (authoritative_execution_status ext run >>= λ sealed.
          require (str_eq new sealed) sealed_immutable >> ok run)
      else advance_state ext run new actor reason refs

  module _ (run : Run) (new actor reason : String) (refs : List String) (source freshness : String)
      (updates : Dict String) where
    pub transition-err :
        (e : RunError)
        → guarded run new actor reason refs ≡ err e
        → transition_execution_path ext run new actor reason refs source freshness updates
          ≡ (run, err e)
    unfolding transition_execution_path
    transition-err e h = rw (transition_execution_path, h) refl

    pub transition-ok :
        (run' : Run)
        → guarded run new actor reason refs ≡ ok run'
        → transition_execution_path ext run new actor reason refs source freshness updates
          ≡ update_projection ext run' new source freshness updates
    unfolding transition_execution_path
    transition-ok run' h = rw (transition_execution_path, h) refl

  pub record_transition-state :
      (run run' : Run) (prior : Option String) (new actor reason : String) (refs : List String)
      → record_transition ext run prior new actor reason refs ≡ ok run'
      → elem new execution_statuses ≡ true
      → (execution_state ext run'.events ≡ ok (some new)) × (run'.sealed ≡ run.sealed)
  unfolding execution_state
  record_transition-state run run' prior new actor reason refs h known =
      let file = or_new ext run.events in
      let event = numbered ext (execution_event ext prior new actor reason refs) file in
      let (is, reads) = record_transition-written ext run run' prior new actor reason refs h in
      let now : state_from ext "execution" none (file ++ event ∷ []) ≡ some new =
        state_from-append ext none file event ∙ rw (str_eq_refl "execution") refl in
      subst (λ z. (execution_state ext z.events ≡ ok (some new)) × (z.sealed ≡ run.sealed)) (sym is)
        (rw (reads, now) (rw known refl), refl)

  pub record_transition-follows :
      (run run' : Run) (prior : Option String) (new actor reason : String) (refs : List String)
      → record_transition ext run prior new actor reason refs ≡ ok run'
      → execution_state ext run.events ≡ ok prior
      → elem new execution_statuses ≡ true
      → elem new (allowed_transitions prior) ≡ true
      → follows none (or_new ext run.events) ≡ true
      → follows none (or_new ext run'.events) ≡ true
  record_transition-follows run run' prior new actor reason refs h was known may good =
      let file = or_new ext run.events in
      let event = numbered ext (execution_event ext prior new actor reason refs) file in
      let (is, _) = record_transition-written ext run run' prior new actor reason refs h in
      let state = execution_state-state_from ext run.events prior was in
      let step : is_move (state_from ext "execution" none file) event ≡ true =
        rw (str_eq_refl "execution") (rw state (rw (opt_eq_refl prior, known, may) refl)) in
      subst (λ z. follows none (or_new ext z.events) ≡ true) (sym is)
        (follows-append ext none file event ∙ rw (good, step) refl)

  pub unsealed : (run : Run) → is_sealed ext run ≡ false → run.sealed ≡ none
  unsealed run h = elim (Option-cases run.sealed) [
    | inl e ↦ e
    | inr (x, e) ↦ absurd (
        let k =
          sym (ap (λ (o : Option (Option String)). elim o [ none ↦ false | some _ ↦ true ]) e)
          ∙ h in
        cc)
  ]

  module _ (run : Run) (new actor reason : String) (refs : List String) where
    -- A step of a run that is not sealed, whatever becomes of the projection.
    abbrev pub Steps : Run → Type 0
    Steps run' = (execution_state ext run'.events ≡ ok (some new)) × (run'.sealed ≡ run.sealed)

    pub advance_state-Steps :
        (run' : Run) → advance_state ext run new actor reason refs ≡ ok run' → Steps run'
    advance_state-Steps run' h =
        let (prior, was, known, moved) =
          advance_state-Advances ext run run' new actor reason refs h in
        elim moved [
          | inl (stays, e) ↦ subst Steps (sym stays) (was ∙ ap (λ z. ok z) e, refl)
          | inr (may, recorded) ↦
              record_transition-state run run' prior new actor reason refs recorded known
        ]

    advance_state-follows :
        (run' : Run)
        → advance_state ext run new actor reason refs ≡ ok run'
        → follows none (or_new ext run.events) ≡ true
        → follows none (or_new ext run'.events) ≡ true
    advance_state-follows run' h good =
        let (prior, was, known, moved) =
          advance_state-Advances ext run run' new actor reason refs h in
        elim moved [
          | inl (stays, e) ↦ subst (λ z. follows none (or_new ext z.events) ≡ true) (sym stays) good
          | inr (may, recorded) ↦
              record_transition-follows run run' prior new actor reason refs recorded was known may
                good
        ]

    -- A guard that passes has left a sealed run as it is, for its sealed status, or made a step.
    pub guarded-cases :
        (run' : Run)
        → guarded run new actor reason refs ≡ ok run'
        → ((is_sealed ext run ≡ true)
            × (run' ≡ run)
            × (authoritative_execution_status ext run ≡ ok new))
          ⊎ ((is_sealed ext run ≡ false) × (advance_state ext run new actor reason refs ≡ ok run'))
    guarded-cases run' h = elim (Bool-cases (is_sealed ext run)) [
      | inl e ↦ with_ok (authoritative_execution_status ext run) _ (rw e at h) λ sealed is h₁.
          with_require (str_eq new sealed) sealed_immutable _ h₁ λ same h₂.
            inl
              (e, sym (ok-injective h₂), is ∙ ap (λ z. ok z) (sym ((str_eq_iff new sealed).0 same)))
      | inr e ↦ inr (e, rw e at h)
    ]

    pub guarded-follows :
        (run' : Run)
        → guarded run new actor reason refs ≡ ok run'
        → follows none (or_new ext run.events) ≡ true
        → follows none (or_new ext run'.events) ≡ true
    guarded-follows run' h good = elim (guarded-cases run' h) [
      | inl (_, stays, _) ↦ subst (λ z. follows none (or_new ext z.events) ≡ true) (sym stays) good
      | inr (_, stepped) ↦ advance_state-follows run' stepped good
    ]
