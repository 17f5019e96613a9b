-- ===== src/Runs/Projection.antt =====
-- Proofs about `_update_projection_path_unchecked` and `synchronize_projection`.
use agent_workflow.Base.{
  String, ◌≡◌, refl, sym, ap, ◌∙◌, ◌&&◌, some, str_eq, str_eq_iff, Bool-cases, Option-cases, inl,
  inr, Dict, ok, Result-cases, ok-injective, with_require, arith,
}
use agent_workflow.Runs.{
  projection_invalid, Status, Run, Externals, is_current, stamp, update_projection,
  authoritative_execution_status, is_empty, projected_status, refresh, synchronize_projection,
}

module _ (ext : Externals) where
  pub update_projection-events :
      (run : Run) (status source freshness : String) (updates : Dict String)
      → (update_projection ext run status source freshness updates).0.events ≡ run.events
  unfolding update_projection
  update_projection-events run status source freshness updates =
      elim (Option-cases run.projection) [
        | inl e ↦ rw (update_projection, e) refl
        | inr (p, e) ↦ elim (Bool-cases (is_current p)) [
          | inl f ↦ rw (update_projection, e) (rw f refl)
          | inr f ↦ rw (update_projection, e) (rw f refl)
        ]
      ]

  pub update_projection-sealed :
      (run : Run) (status source freshness : String) (updates : Dict String)
      → (update_projection ext run status source freshness updates).0.sealed ≡ run.sealed
  unfolding update_projection
  update_projection-sealed run status source freshness updates =
      elim (Option-cases run.projection) [
        | inl e ↦ rw (update_projection, e) refl
        | inr (p, e) ↦ elim (Bool-cases (is_current p)) [
          | inl f ↦ rw (update_projection, e) (rw f refl)
          | inr f ↦ rw (update_projection, e) (rw f refl)
        ]
      ]

  -- An answer of `update_projection` is what it wrote, with the status it was given.
  pub update_projection-written :
      (run run' : Run) (status source freshness : String) (updates : Dict String) (answer : Status)
      → update_projection ext run status source freshness updates ≡ (run', ok answer)
      → (run'.projection ≡ some answer)
        × (answer.status ≡ status)
        × (run'.events ≡ run.events)
        × (run'.sealed ≡ run.sealed)
  unfolding update_projection stamp
  update_projection-written run run' status source freshness updates answer h =
      elim (Option-cases run.projection) [
        | inl e ↦ absurd (let k = ap (λ z. z.1) (rw (update_projection, e) at h) in cc)
        | inr (p, e) ↦ elim (Bool-cases (is_current p)) [
          | inl f ↦
              let pair = rw f at (rw (update_projection, e) at h) in
              let a = ok-injective (ap (λ z. z.1) pair) in
              (
                ap (λ z. z.0.projection) (sym pair) ∙ ap (λ z. some z) a,
                ap (λ z. z.status) (sym a),
                ap (λ z. z.0.events) (sym pair),
                ap (λ z. z.0.sealed) (sym pair),
              )
          | inr f ↦ absurd (let k = ap (λ z. z.1) (rw f at (rw (update_projection, e) at h)) in cc)
        ]
      ]

  projected_status-some :
      (run : Run) (projected : Status)
      → projected_status ext run ≡ ok projected
      → run.projection ≡ some projected
  unfolding projected_status
  projected_status-some run projected h = elim (Option-cases run.projection) [
    | inl e ↦ absurd (let k = rw (projected_status, e) at h in cc)
    | inr (p, e) ↦
        with_require (is_current p) projection_invalid _ (rw (projected_status, e) at h)
          λ _ h₁. e ∙ ap (λ z. some z) (ok-injective h₁)
  ]

  refresh-written :
      (run run' : Run) (current : String) (projected : Status) (source freshness : String)
      (updates : Dict String) (answer : Status)
      → run.projection ≡ some projected
      → refresh ext run current projected source freshness updates ≡ (run', ok answer)
      → (current ≡ answer.status)
        × (run'.projection ≡ some answer)
        × (run'.events ≡ run.events)
        × (run'.sealed ≡ run.sealed)
  unfolding refresh
  refresh-written run run' current projected source freshness updates answer shown h =
      elim (Bool-cases (str_eq projected.status current && is_empty ext updates)) [
        | inl e ↦
            let pair = rw e at h in
            let same : projected ≡ answer = ok-injective (ap (λ z. z.1) pair) in
            let is : projected.status ≡ current =
              (str_eq_iff projected.status current).0 (ground arith) in
            (
              sym is ∙ ap (λ z. z.status) same,
              ap (λ z. z.0.projection) (sym pair) ∙ shown ∙ ap (λ z. some z) same,
              ap (λ z. z.0.events) (sym pair),
              ap (λ z. z.0.sealed) (sym pair),
            )
        | inr e ↦
            let (shows, is, events, seal) =
              update_projection-written run run' current source freshness updates answer
                (rw e at h) in
            (sym is, shows, events, seal)
      ]

  refresh-events :
      (run : Run) (current : String) (projected : Status) (source freshness : String)
      (updates : Dict String)
      → (refresh ext run current projected source freshness updates).0.events ≡ run.events
  unfolding refresh
  refresh-events run current projected source freshness updates =
      elim (Bool-cases (str_eq projected.status current && is_empty ext updates)) [
        | inl e ↦ rw e refl
        | inr e ↦ rw e (update_projection-events run current source freshness updates)
      ]

  synchronize_projection-refresh :
      (run : Run) (current : String) (projected : Status) (source freshness : String)
      (updates : Dict String)
      → authoritative_execution_status ext run ≡ ok current
      → projected_status ext run ≡ ok projected
      → synchronize_projection ext run source freshness updates
        ≡ refresh ext run current projected source freshness updates
  unfolding synchronize_projection
  synchronize_projection-refresh run current projected source freshness updates a p =
      rw (synchronize_projection, a) (rw p refl)

  pub synchronize_projection-events :
      (run : Run) (source freshness : String) (updates : Dict String)
      → (synchronize_projection ext run source freshness updates).0.events ≡ run.events
  unfolding synchronize_projection refresh
  synchronize_projection-events run source freshness updates =
      elim (Result-cases (authoritative_execution_status ext run)) [
        | inr (e, a) ↦ rw (synchronize_projection, a) refl
        | inl (current, a) ↦ elim (Result-cases (projected_status ext run)) [
          | inr (e, p) ↦ rw (synchronize_projection, a) (rw p refl)
          | inl (projected, p) ↦
              ap (λ z. z.0.events)
                (synchronize_projection-refresh run current projected source freshness updates a p)
              ∙ refresh-events run current projected source freshness updates
        ]
      ]

  -- A projection that is synchronised shows the authoritative status, and the journal and the seal
  -- are as they were.
  synchronize_projection-authoritative :
      (run run' : Run) (source freshness : String) (updates : Dict String) (answer : Status)
      → synchronize_projection ext run source freshness updates ≡ (run', ok answer)
      → (authoritative_execution_status ext run ≡ ok answer.status)
        × (run'.projection ≡ some answer)
        × (run'.events ≡ run.events)
        × (run'.sealed ≡ run.sealed)
  unfolding synchronize_projection
  synchronize_projection-authoritative run run' source freshness updates answer h =
      elim (Result-cases (authoritative_execution_status ext run)) [
        | inr (e, a) ↦ absurd (let k = ap (λ z. z.1) (rw (synchronize_projection, a) at h) in cc)
        | inl (current, a) ↦ elim (Result-cases (projected_status ext run)) [
          | inr (e, p) ↦
              absurd (let k = ap (λ z. z.1) (rw p at (rw (synchronize_projection, a) at h)) in cc)
          | inl (projected, p) ↦
              let (is, shows, events, seal) =
                refresh-written run run' current projected source freshness updates answer
                  (projected_status-some run projected p)
                  (rw p at (rw (synchronize_projection, a) at h)) in
              (a ∙ ap (λ z. ok z) is, shows, events, seal)
        ]
      ]
