-- ===== src/Cursors/Store/Once.antt =====
-- Proofs about what `process` of consumer_cursors.py does to the cursor's file.
use agent_workflow.Base.{
  ◌+◌, String, ◌≡◌, ◌⊎◌, refl, ap, ◌∙◌, Option, none, some, ◌==◌, leb, opt_eq, Bool-cases, inl, inr,
  Result, ok, err, ok-injective, Result-cases, with_ok, with_require, arith,
}
use agent_workflow.Messages.{Message}
use agent_workflow.Cursors.{
  CursorError, not_next, Binding, Cursor, Returned, Receipt, Externals, File, written,
  check_message, validate_cursor,
}
use agent_workflow.Cursors.Store.{
  read_unlocked, or_empty, replace, locked, Outcome, next_cursor, decide, decide_on, receipt_of,
  outcome_of, settle, advance, process_locked, process,
}

module _ (ext : Externals) (binding : Binding) where
  -- What a decision to go on says of the cursor that was read.
  abbrev pub IsNext : File → Message → Type 0
  IsNext file m =
      (current : Option Cursor) × (read_unlocked ext binding file ≡ ok current)
      × (m.sequence ≡ (or_empty ext binding current).last_sequence + 1)

  decide-next :
      (current : Cursor) (m : Message)
      → decide ext binding current m ≡ ok none
      → m.sequence ≡ current.last_sequence + 1
  unfolding decide
  decide-next current m h = elim (Bool-cases (opt_eq current.last_message_id (some m.message_id))) [
    | inl e ↦ elim (Bool-cases (opt_eq current.last_digest (some (ext.digest m)))) [
      | inl f ↦ absurd (let k = ok-injective (rw (e, f) at h) in cc)
      | inr f ↦ absurd (let k = rw (e, f) at h in cc)
    ]
    | inr e ↦ elim (Bool-cases (leb m.sequence current.last_sequence)) [
      | inl f ↦ absurd (let k = ok-injective (rw (e, f) at h) in cc)
      | inr f ↦
          with_require (m.sequence == current.last_sequence + 1) not_next _ (rw (e, f) at h)
            λ next _. ground arith
    ]
  ]

  decide_on-IsNext :
      (file : File) (m : Message) → decide_on ext binding file m ≡ ok none → IsNext file m
  unfolding decide_on
  decide_on-IsNext file m h = with_ok (read_unlocked ext binding file) _ h λ current reads decided.
      (current, reads, decide-next (or_empty ext binding current) m decided)

  pub replace-ok :
      (file : File) (value : Cursor)
      → validate_cursor ext value binding ≡ ok tt
      → replace ext binding file value ≡ (written value, ok value)
  unfolding replace
  replace-ok file value e = rw (replace, e) refl

  -- The file after `replace`, and its answer.
  pub replace-cases :
      (file : File) (value : Cursor)
      → ((e : CursorError) × (replace ext binding file value ≡ (file, err e)))
        ⊎ ((validate_cursor ext value binding ≡ ok tt)
            × (replace ext binding file value ≡ (written value, ok value)))
  unfolding replace
  replace-cases file value = elim (Result-cases (validate_cursor ext value binding)) [
    | inl (u, e) ↦ inr (e, replace-ok file value e)
    | inr (x, e) ↦ inl (x, rw (replace, e) refl)
  ]

  module _ {T : Type 0} (commit_effect : T → Message → T × Result CursorError Returned)
      (hook : Receipt → Result CursorError (Unit {0})) (file : File) (target : T) (m : Message)
      (disposition : String) where
    abbrev pub received : Result CursorError Receipt
    received = receipt_of ext binding commit_effect hook (commit_effect target m).1 m

    pub advance-err :
        (x : CursorError)
        → received ≡ err x
        → advance ext binding commit_effect hook file target m disposition
          ≡ ((file, (commit_effect target m).0), err x)
    unfolding advance settle
    advance-err x e = rw (settle, e) refl

    pub advance-ok :
        (receipt : Receipt)
        → received ≡ ok receipt
        → advance ext binding commit_effect hook file target m disposition ≡ (
          (
            (replace ext binding file (next_cursor ext binding m disposition)).0,
            (commit_effect target m).0,
          ),
          outcome_of ext binding commit_effect hook m disposition receipt
              (replace ext binding file (next_cursor ext binding m disposition)).1,
        )
    unfolding advance settle
    advance-ok receipt e = rw (settle, e) refl

    pub process-invalid :
        (x : CursorError)
        → check_message ext m none ≡ err x
        → process ext binding commit_effect hook file target m disposition ≡ ((file, target), err x)
    unfolding process
    process-invalid x e = rw (process, e) refl

    -- `process` on a valid message is its locked part.
    pub process-valid :
        {u : Unit {0}}
        → check_message ext m none ≡ ok u
        → let run = process_locked ext binding commit_effect hook file target m disposition in
          process ext binding commit_effect hook file target m disposition ≡ (run.0, locked run.1)
    unfolding process
    process-valid e = rw (process, e) refl

    pub process_locked-err :
        (x : CursorError)
        → decide_on ext binding file m ≡ err x
        → process_locked ext binding commit_effect hook file target m disposition
          ≡ ((file, target), err x)
    unfolding process_locked
    process_locked-err x e = rw (process_locked, e) refl

    pub process_locked-some :
        (outcome : Outcome)
        → decide_on ext binding file m ≡ ok (some outcome)
        → process_locked ext binding commit_effect hook file target m disposition
          ≡ ((file, target), ok outcome)
    unfolding process_locked
    process_locked-some outcome e = rw (process_locked, e) refl

    pub process_locked-none :
        decide_on ext binding file m ≡ ok none
        → process_locked ext binding commit_effect hook file target m disposition
          ≡ advance ext binding commit_effect hook file target m disposition
    unfolding process_locked
    process_locked-none e = rw (process_locked, e) refl

    -- The cursor's file after `advance`.
    advance-file :
        ((advance ext binding commit_effect hook file target m disposition).0.0 ≡ file)
        ⊎ ((advance ext binding commit_effect hook file target m disposition).0.0
            ≡ written (next_cursor ext binding m disposition))
    advance-file = elim (Result-cases received) [
      | inr (x, e) ↦ inl (ap (λ z. z.0.0) (advance-err x e))
      | inl (receipt, e) ↦ elim (replace-cases file (next_cursor ext binding m disposition)) [
        | inl (x, f) ↦ inl (ap (λ z. z.0.0) (advance-ok receipt e) ∙ ap (λ z. z.0) f)
        | inr (_, f) ↦ inr (ap (λ z. z.0.0) (advance-ok receipt e) ∙ ap (λ z. z.0) f)
      ]
    ]

    -- Whatever the target and the hook do, `process` leaves the cursor's file as it was, or with the
    -- cursor of its record, which is then the next one behind the cursor that was there.
    pub process-IsNext :
        ((process ext binding commit_effect hook file target m disposition).0.0 ≡ file)
        ⊎ (IsNext file m
            × ((process ext binding commit_effect hook file target m disposition).0.0
                ≡ written (next_cursor ext binding m disposition)))
    process-IsNext = elim (Result-cases (check_message ext m none)) [
      | inr (x, e) ↦ inl (ap (λ z. z.0.0) (process-invalid x e))
      | inl (u, e) ↦
          let run = ap (λ z. z.0.0) (process-valid e) in
          elim (Result-cases (decide_on ext binding file m)) [
            | inr (x, f) ↦ inl (run ∙ ap (λ z. z.0.0) (process_locked-err x f))
            | inl (some outcome, f) ↦ inl (run ∙ ap (λ z. z.0.0) (process_locked-some outcome f))
            | inl (none, f) ↦
                let run' = run ∙ ap (λ z. z.0.0) (process_locked-none f) in
                elim advance-file [
                  | inl g ↦ inl (run' ∙ g)
                  | inr g ↦ inr (decide_on-IsNext file m f, run' ∙ g)
                ]
          ]
    ]
