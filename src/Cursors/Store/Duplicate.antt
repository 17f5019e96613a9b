-- ===== src/Cursors/Store/Duplicate.antt =====
-- Proofs about `process` of consumer_cursors.py on a record that it has advanced over.
use agent_workflow.Base.{
  ◌+◌, String, ◌≡◌, refl, sym, ap, ◌∙◌, subst, Bool, true, false, Option, none, some, ◌==◌, leb,
  str_eq_refl, opt_eq, Bool-cases, inl, inr, Result, ok, ok-injective, Result-cases, with_ok,
  with_require,
}
use agent_workflow.Messages.{Message}
use agent_workflow.Cursors.{
  CursorError, not_next, Binding, Cursor, Evidence, Returned, Receipt, Externals, File, written,
  check_message, build_disposition_evidence, validate_cursor,
}
use agent_workflow.Cursors.Store.{
  committed_at, read_unlocked, or_empty, locked, Outcome, duplicate, already_committed, advanced,
  next_cursor, decide, decide_on, outcome_of, process_locked, process,
}
use agent_workflow.Cursors.Store.Once.{
  replace-cases, received, advance-err, advance-ok, process-invalid, process-valid,
  process_locked-err, process_locked-some, process_locked-none,
}
use agent_workflow.Cursors.Store.Crash.{locked-ok}

abbrev is_advanced : Outcome → Bool
is_advanced (advanced c r e) = true
is_advanced _ = false

abbrev cursor_of : Outcome → Cursor
cursor_of (duplicate c) = c
cursor_of (already_committed c) = c
cursor_of (advanced c r e) = c

module _ (ext : Externals) (binding : Binding) where
  -- A decision from the cursor alone is never an advance.
  decide-idle :
      (current : Cursor) (m : Message) (outcome : Outcome)
      → decide ext binding current m ≡ ok (some outcome)
      → is_advanced outcome ≡ false
  unfolding decide
  decide-idle current m outcome h =
      elim (Bool-cases (opt_eq current.last_message_id (some m.message_id))) [
        | inl e ↦ elim (Bool-cases (opt_eq current.last_digest (some (ext.digest m)))) [
          | inl f ↦
              let k : duplicate current ≡ outcome =
                cc_some (duplicate current) outcome (ok-injective (rw (e, f) at h)) in
              ap is_advanced (sym k)
          | inr f ↦ absurd (let k = rw (e, f) at h in cc)
        ]
        | inr e ↦ elim (Bool-cases (leb m.sequence current.last_sequence)) [
          | inl f ↦
              let k : already_committed current ≡ outcome =
                cc_some (already_committed current) outcome (ok-injective (rw (e, f) at h)) in
              ap is_advanced (sym k)
          | inr f ↦
              with_require (m.sequence == current.last_sequence + 1) not_next _ (rw (e, f) at h)
                λ next k. absurd (let l = ok-injective k in cc)
        ]
      ]
    where
      cc_some : (a b : Outcome) → ◌≡◌ {A = Option Outcome} (some a) (some b) → a ≡ b
      cc_some a b h = cc

  decide-duplicate :
      (m : Message) (disposition : String)
      → decide ext binding (next_cursor ext binding m disposition) m
        ≡ ok (some (duplicate (next_cursor ext binding m disposition)))
  unfolding decide next_cursor committed_at opt_eq
  decide-duplicate m disposition = simp str_eq_refl refl

  decide_on-idle :
      (file : File) (m : Message) (outcome : Outcome)
      → decide_on ext binding file m ≡ ok (some outcome)
      → is_advanced outcome ≡ false
  unfolding decide_on
  decide_on-idle file m outcome h =
      with_ok (read_unlocked ext binding file) _ h
        λ current _ decided. decide-idle (or_empty ext binding current) m outcome decided

  -- The next cursor that was written is read back, and its record is a duplicate.
  pub decide_on-written :
      (m : Message) (disposition : String)
      → validate_cursor ext (next_cursor ext binding m disposition) binding ≡ ok tt
      → decide_on ext binding (written (next_cursor ext binding m disposition)) m
        ≡ ok (some (duplicate (next_cursor ext binding m disposition)))
  unfolding decide_on read_unlocked or_empty
  decide_on-written m disposition valid = rw valid (decide-duplicate m disposition)

  module _ {T : Type 0} (commit_effect commit_again : T → Message → T × Result CursorError Returned)
      (hook hook_again : Receipt → Result CursorError (Unit {0})) where
    outcome_of-cursor :
        (m : Message) (disposition : String) (r receipt : Receipt) (next cursor : Cursor)
        (evidence : Evidence)
        → outcome_of ext binding commit_effect hook m disposition r (ok next)
          ≡ ok (advanced cursor receipt evidence)
        → cursor ≡ next
    unfolding outcome_of
    outcome_of-cursor m disposition r receipt next cursor evidence h =
        with_ok (build_disposition_evidence ext binding m disposition r) _ h
          λ built _ e. sym (ap cursor_of (ok-injective e))

    -- An advance writes the record's cursor, which the binding accepts.
    process_locked-advanced :
        (file : File) (target : T) (m : Message) (disposition : String) (cursor : Cursor)
        (receipt : Receipt) (evidence : Evidence)
        → let run = process_locked ext binding commit_effect hook file target m disposition in
          run.1 ≡ ok (advanced cursor receipt evidence)
          → (run.0.0 ≡ written (next_cursor ext binding m disposition))
            × (cursor ≡ next_cursor ext binding m disposition)
            × (validate_cursor ext (next_cursor ext binding m disposition) binding ≡ ok tt)
    unfolding outcome_of
    process_locked-advanced file target m disposition cursor receipt evidence said =
        elim (Result-cases (decide_on ext binding file m)) [
          | inr (x, f) ↦ absurd (
              let k =
                ap (λ z. z.1)
                  (sym (
                    process_locked-err ext binding commit_effect hook file target m disposition x
                      f))
                ∙ said in
              cc)
          | inl (some outcome, f) ↦ absurd (
              let k =
                ap (λ z. z.1)
                  (sym (
                    process_locked-some ext binding commit_effect hook file target m disposition
                      outcome f))
                ∙ said in
              let same : outcome ≡ advanced cursor receipt evidence = ok-injective k in
              let no = sym (ap is_advanced same) ∙ decide_on-idle file m outcome f in cc)
          | inl (none, f) ↦
              let goes =
                process_locked-none ext binding commit_effect hook file target m disposition f in
              elim (Result-cases
                (received ext binding commit_effect hook file target m disposition)) [
                  | inr (x, g) ↦ absurd (
                      let k =
                        ap (λ z. z.1)
                          (sym (
                            goes
                            ∙ advance-err ext binding commit_effect hook file target m disposition x
                                g))
                        ∙ said in
                      cc)
                  | inl (r, g) ↦
                      let whole =
                        goes
                        ∙ advance-ok ext binding commit_effect hook file target m disposition r g in
                      let answered = ap (λ z. z.1) (sym whole) ∙ said in
                      elim (replace-cases ext binding file
                        (next_cursor ext binding m disposition)) [
                          | inl (x, w) ↦ absurd (
                              let k =
                                ap
                                  (λ z.
                                    outcome_of ext binding commit_effect hook m disposition r z.1)
                                  (sym w)
                                ∙ answered in
                              cc)
                          | inr (valid, w) ↦
                              let k =
                                ap
                                  (λ z.
                                    outcome_of ext binding commit_effect hook m disposition r z.1)
                                  (sym w)
                                ∙ answered in
                              (
                                ap (λ z. z.0.0) whole ∙ ap (λ z. z.0) w,
                                outcome_of-cursor m disposition r receipt
                                    (next_cursor ext binding m disposition) cursor evidence k,
                                valid,
                              )
                        ]
                ]
        ]

    -- A record that `process` has advanced over is answered as a duplicate when it is processed
    -- again, by whatever effect and hook: the target is not asked, and nothing changes.
    pub process-duplicate :
        (file : File) (target : T) (m : Message) (disposition again : String) (state : File × T)
        (cursor : Cursor) (receipt : Receipt) (evidence : Evidence)
        → process ext binding commit_effect hook file target m disposition
          ≡ (state, ok (advanced cursor receipt evidence))
        → process ext binding commit_again hook_again state.0 state.1 m again
          ≡ (state, ok (duplicate cursor))
    unfolding locked
    process-duplicate file target m disposition again state cursor receipt evidence h =
        elim (Result-cases (check_message ext m none)) [
          | inr (x, e) ↦ absurd (
              let k =
                ap (λ z. z.1)
                  (sym
                      (process-invalid ext binding commit_effect hook file target m disposition x e)
                    ∙ h) in
              cc)
          | inl (u, e) ↦
              let run =
                sym (process-valid ext binding commit_effect hook file target m disposition e)
                ∙ h in
              let said = locked-ok _ _ (ap (λ z. z.1) run) in
              let (at, is, kept) =
                process_locked-advanced file target m disposition cursor receipt evidence said in
              let left : state.0 ≡ written (next_cursor ext binding m disposition) =
                sym (ap (λ z. z.0.0) run) ∙ at in
              subst
                (λ z.
                  process ext binding commit_again hook_again z state.1 m again
                  ≡ ((z, state.1), ok (duplicate cursor)))
                (sym left)
                (process-valid ext binding commit_again hook_again
                    (written (next_cursor ext binding m disposition)) state.1 m again e
                  ∙ ap (λ z. (z.0, locked z.1))
                      (process_locked-some ext binding commit_again hook_again
                        (written (next_cursor ext binding m disposition)) state.1 m again
                        (duplicate (next_cursor ext binding m disposition))
                        (decide_on-written m disposition kept))
                  ∙ ap
                      (λ z. (
                        (written (next_cursor ext binding m disposition), state.1),
                        ok (duplicate z),
                      ))
                      (sym is))
        ]
