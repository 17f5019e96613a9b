-- ===== src/Cursors/Store/Crash.antt =====
-- Proofs about `process` of consumer_cursors.py when it stops between its two commits.
use agent_workflow.Base.{
  String, ◌≡◌, refl, sym, ap, ◌∙◌, subst, none, some, inl, inr, Result, ok, err, Result-cases,
}
use agent_workflow.Messages.{Message}
use agent_workflow.Cursors.{
  CursorError, crashed, Binding, Returned, Receipt, Externals, File, check_message, receipt_from,
}
use agent_workflow.Cursors.Store.{
  locked, decide_on, receipt_of, settle, advance, process_locked, process,
}
use agent_workflow.Cursors.Store.Once.{
  advance-err, process-invalid, process-valid, process_locked-err, process_locked-some,
  process_locked-none,
}

-- The crash: it strikes once the target has committed.
unfoldable pub crash : Receipt → Result CursorError (Unit {0})
crash receipt = err crashed

locked-err {ℓ} : {A : Type ℓ} (e : CursorError) (a : A) → locked (err e) ≡ ok a → ⊥
unfolding locked
locked-err crashed a h = cc
locked-err _ a h = cc

pub locked-ok {ℓ} : {A : Type ℓ} (r : Result CursorError A) (a : A) → locked r ≡ ok a → r ≡ ok a
unfolding locked
locked-ok (ok x) a h = h
locked-ok (err x) a h = absurd (locked-err x a h)

module _ (ext : Externals) (binding : Binding) where
  module _ {T : Type 0} (commit_effect : T → Message → T × Result CursorError Returned) where
    receipt_of-crash :
        (returned : Result CursorError Returned) (m : Message)
        → (x : CursorError) × (receipt_of ext binding commit_effect crash returned m ≡ err x)
    unfolding receipt_of crash
    receipt_of-crash (err x) m = (x, refl)
    receipt_of-crash (ok value) m = elim (Result-cases (receipt_from ext value m)) [
      | inl (r, e) ↦ rw e (crashed, refl)
      | inr (x, e) ↦ rw e (x, refl)
    ]

    advance-again :
        (hook : Receipt → Result CursorError (Unit {0})) (file : File) (target target' : T)
        (m : Message) (disposition : String)
        → commit_effect target' m ≡ commit_effect target m
        → advance ext binding commit_effect hook file target' m disposition
          ≡ advance ext binding commit_effect hook file target m disposition
    unfolding advance
    advance-again hook file target target' m disposition e =
        ap (settle ext binding commit_effect hook file m disposition) e

    -- Where committing an effect again changes nothing, a `process` that crashes between the target's
    -- commit and its own, and then a second one of the same record, leave and answer what one
    -- `process` without the crash does.
    pub process-crash :
        ((target : T) (m : Message)
          → commit_effect (commit_effect target m).0 m ≡ commit_effect target m)
        → (hook : Receipt → Result CursorError (Unit {0})) (file : File) (target : T) (m : Message)
          (disposition : String)
        → let left = (process ext binding commit_effect crash file target m disposition).0 in
          process ext binding commit_effect hook left.0 left.1 m disposition
          ≡ process ext binding commit_effect hook file target m disposition
    process-crash idempotent hook file target m disposition =
        elim (Result-cases (check_message ext m none)) [
          | inr (x, e) ↦ same (
              ap (λ z. z.0)
                (process-invalid ext binding commit_effect crash file target m disposition x e))
          | inl (u, e) ↦
              let run =
                ap (λ z. z.0)
                  (process-valid ext binding commit_effect crash file target m disposition e) in
              elim (Result-cases (decide_on ext binding file m)) [
                | inr (x, f) ↦ same (
                    run
                    ∙ ap (λ z. z.0)
                        (process_locked-err ext binding commit_effect crash file target m
                          disposition x f))
                | inl (some outcome, f) ↦ same (
                    run
                    ∙ ap (λ z. z.0)
                        (process_locked-some ext binding commit_effect crash file target m
                          disposition outcome f))
                | inl (none, f) ↦
                    let (x, failed) = receipt_of-crash (commit_effect target m).1 m in
                    let left =
                      run
                      ∙ ap (λ z. z.0)
                          (process_locked-none ext binding commit_effect crash file target m
                            disposition f)
                      ∙ ap (λ z. z.0)
                          (advance-err ext binding commit_effect crash file target m disposition x
                            failed) in
                    let target' = (commit_effect target m).0 in
                    let again : process_locked ext binding commit_effect hook file target' m
                          disposition
                        ≡ process_locked ext binding commit_effect hook file target m disposition =
                      process_locked-none ext binding commit_effect hook file target' m disposition
                        f
                      ∙ advance-again hook file target target' m disposition (idempotent target m)
                      ∙ sym (
                          process_locked-none ext binding commit_effect hook file target m
                            disposition f) in
                    subst
                      (λ z.
                        process ext binding commit_effect hook z.0 z.1 m disposition
                        ≡ process ext binding commit_effect hook file target m disposition)
                      (sym left)
                      (process-valid ext binding commit_effect hook file target' m disposition e
                        ∙ ap (λ z. (z.0, locked z.1)) again
                        ∙ sym (
                            process-valid ext binding commit_effect hook file target m disposition
                              e))
              ]
        ]
      where
        same :
            (process ext binding commit_effect crash file target m disposition).0 ≡ (file, target)
            → process ext binding commit_effect hook
                (process ext binding commit_effect crash file target m disposition).0.0
                (process ext binding commit_effect crash file target m disposition).0.1
                m
                disposition
              ≡ process ext binding commit_effect hook file target m disposition
        same e = ap (λ z. process ext binding commit_effect hook z.0 z.1 m disposition) e
