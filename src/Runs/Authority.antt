-- ===== src/Runs/Authority.antt =====
-- Proofs about `transition_execution_path` of run_lifecycle.py.
use agent_workflow.Base.{
  String, ◌≡◌, refl, sym, ap, ◌∙◌, ◌⊎◌, Result, subst, true, false, none, some, List, [], elem,
  str_eq, str_eq_iff, some-injective, inl, inr, Dict, ok, err, Result-cases, ok-injective,
}
use agent_workflow.Runs.{
  RunError, Status, Run, Externals, allowed_transitions, execution_state, or_new, is_sealed,
  authoritative_execution_status, transition_execution_path, update_projection,
}
use agent_workflow.Runs.History.{follows, advance_state-Advances}
use agent_workflow.Runs.Projection.{
  update_projection-events, update_projection-sealed, update_projection-written,
}
use agent_workflow.Runs.Guard.{
  guarded, transition-err, transition-ok, unsealed, advance_state-Steps, guarded-cases,
  guarded-follows,
}

module _ (ext : Externals) where
  module _ (run : Run) (new actor reason : String) (refs : List String) (source freshness : String)
      (updates : Dict String) where
    abbrev pub after : Run
    after = (transition_execution_path ext run new actor reason refs source freshness updates).0

    -- A transition, whether it succeeds, is refused, or fails after its event is written, keeps this
    -- of the journal: its execution events move along allowed transitions, each from the state that
    -- the events before it have reached.
    pub transition_execution_path-follows :
        follows none (or_new ext run.events) ≡ true → follows none (or_new ext after.events) ≡ true
    transition_execution_path-follows good =
        elim (Result-cases (guarded ext run new actor reason refs)) [
          | inr (e, h) ↦
              subst (λ z. follows none (or_new ext z.0.events) ≡ true)
                (sym (transition-err ext run new actor reason refs source freshness updates e h))
                good
          | inl (run', h) ↦
              subst (λ z. follows none (or_new ext z) ≡ true)
                (sym (
                  ap (λ z. z.0.events)
                    (transition-ok ext run new actor reason refs source freshness updates run' h)
                  ∙ update_projection-events ext run' new source freshness updates))
                (guarded-follows ext run new actor reason refs run' h good)
        ]

    -- A transition of a run without a final receipt that succeeds is read back: the journal's state
    -- and the status in the projection are the new one.
    pub transition_execution_path-execution_state :
        (run' : Run) (answer : Status)
        → is_sealed ext run ≡ false
        → transition_execution_path ext run new actor reason refs source freshness updates
          ≡ (run', ok answer)
        → (execution_state ext run'.events ≡ ok (some new))
          × (authoritative_execution_status ext run' ≡ ok new)
          × (run'.projection ≡ some answer)
          × (answer.status ≡ new)
    unfolding authoritative_execution_status
    transition_execution_path-execution_state run' answer open_run h =
        elim (Result-cases (guarded ext run new actor reason refs)) [
          | inr (e, g) ↦ absurd (
              let k =
                ap (λ z. z.1)
                  (sym (transition-err ext run new actor reason refs source freshness updates e g)
                    ∙ h) in
              cc)
          | inl (mid, g) ↦ elim (guarded-cases ext run new actor reason refs mid g) [
            | inl (e, _, _) ↦ absurd (cc)
            | inr (_, stepped) ↦
                let (state, seal) = advance_state-Steps ext run new actor reason refs mid stepped in
                let (shown, is, events, sealed) =
                  update_projection-written ext mid run' new source freshness updates answer (
                    sym (transition-ok ext run new actor reason refs source freshness updates mid g)
                    ∙ h) in
                let state' = ap (execution_state ext) events ∙ state in
                let still_open : run'.sealed ≡ none = sealed ∙ seal ∙ unsealed ext run open_run in
                (
                  state',
                  rw (authoritative_execution_status, still_open) (rw state' refl),
                  shown,
                  is,
                )
          ]
        ]

    abbrev pub result : Result RunError Status
    result = (transition_execution_path ext run new actor reason refs source freshness updates).1

    -- A transition of a run with a final receipt, whether it succeeds or raises, leaves the journal
    -- and the seal, and it succeeds only for the status that is sealed, which it answers.
    pub transition_execution_path-sealed :
        is_sealed ext run ≡ true
        → (after.events ≡ run.events)
          × (after.sealed ≡ run.sealed)
          × (((e : RunError) × (result ≡ err e))
              ⊎ ((answer : Status) × (result ≡ ok answer)
                  × (authoritative_execution_status ext run ≡ ok new)
                  × (answer.status ≡ new)))
    transition_execution_path-sealed sealed =
        elim (Result-cases (guarded ext run new actor reason refs)) [
          | inr (e, g) ↦
              let refused =
                transition-err ext run new actor reason refs source freshness updates e g in
              (
                ap (λ z. z.0.events) refused,
                ap (λ z. z.0.sealed) refused,
                inl (e, ap (λ z. z.1) refused),
              )
          | inl (mid, g) ↦ elim (guarded-cases ext run new actor reason refs mid g) [
            | inr (e, _) ↦ absurd (cc)
            | inl (_, stays, authority) ↦
                let projects =
                  transition-ok ext run new actor reason refs source freshness updates mid g in
                (
                  ap (λ z. z.0.events) projects
                      ∙ update_projection-events ext mid new source freshness updates
                      ∙ ap (λ z. z.events) stays,
                  ap (λ z. z.0.sealed) projects
                      ∙ update_projection-sealed ext mid new source freshness updates
                      ∙ ap (λ z. z.sealed) stays,
                  elim (Result-cases (update_projection ext mid new source freshness updates).1) [
                    | inr (e, failed) ↦ inl (e, ap (λ z. z.1) projects ∙ failed)
                    | inl (answer, answered) ↦
                        let (_, is, _, _) =
                          update_projection-written ext mid
                            (update_projection ext mid new source freshness updates).0 new source
                            freshness updates answer (pair_of answered) in
                        inr (answer, ap (λ z. z.1) projects ∙ answered, authority, is)
                  ],
                )
          ]
        ]
      where
        pair_of : {A B : Type 0} {p : A × B} {b : B} → p.1 ≡ b → p ≡ (p.0, b)
        pair_of {p = p} e = ap (λ z. (p.0, z)) e

    -- From a state that no transition leaves, an open run goes nowhere: every transition to another
    -- status is refused, and nothing is written.
    pub transition_execution_path-terminal :
        (state : String)
        → is_sealed ext run ≡ false
        → execution_state ext run.events ≡ ok (some state)
        → allowed_transitions (some state) ≡ []
        → str_eq state new ≡ false
        → (e : RunError) × (transition_execution_path ext run new actor reason refs source freshness
              updates
            ≡ (run, err e))
    unfolding elem
    transition_execution_path-terminal state open_run was stuck other =
        elim (Result-cases (guarded ext run new actor reason refs)) [
          | inr (e, g) ↦
              (e, transition-err ext run new actor reason refs source freshness updates e g)
          | inl (mid, g) ↦ elim (guarded-cases ext run new actor reason refs mid g) [
            | inl (e, _, _) ↦ absurd (cc)
            | inr (_, stepped) ↦
                let (prior, was', _, moved) =
                  advance_state-Advances ext run mid new actor reason refs stepped in
                let same : some state ≡ prior = ok-injective (sym was ∙ was') in
                elim moved [
                  | inl (_, e) ↦ absurd (
                      let k : state ≡ new = some-injective state new (same ∙ e) in
                      let k' = (str_eq_iff state new).1 k in cc)
                  | inr (may, _) ↦ absurd (
                      let k =
                        sym (ap (elem new) (ap allowed_transitions (sym same) ∙ stuck)) ∙ may in
                      cc)
                ]
          ]
        ]
