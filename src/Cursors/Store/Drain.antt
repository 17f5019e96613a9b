-- ===== src/Cursors/Store/Drain.antt =====
-- Proofs about `process` of consumer_cursors.py over a whole journal.
use agent_workflow.Base.{
  ℕ, suc, ◌+◌, String, ◌≡◌, ◌⊎◌, refl, sym, ap, ◌∙◌, subst, true, false, Option, none, some, List,
  [], ◌∷◌, length, ◌==◌, leb, str_eq, str_eq_iff, str_eq_refl, opt_eq, Bool-cases, inl, inr, Dict,
  lookup, insert, lookup-insert, Result, ok, Result-cases, with_ok, with_require, arith,
}
use agent_workflow.Messages.{
  Message, validate_message, unsupported_schema, sequence_invalid, sequence_mismatch,
}
use agent_workflow.Cursors.{
  CursorError, too_many_records, Binding, Cursor, Returned, Receipt, Externals, File, absent,
  written, check_message, check_new, validate_from, validate_source_records, empty_cursor,
  validate_cursor,
}
use agent_workflow.Cursors.Store.{
  committed_at, read_unlocked, or_empty, next_cursor, decide, decide_on, process,
}
use agent_workflow.Cursors.Store.Once.{
  received, replace-ok, advance-ok, process-valid, process_locked-none,
}
use agent_workflow.Cursors.Store.Rebuild.{is_some, check_message-sequence}

check_new-none :
    (prior : Option String) (digest : String) {u : Unit {0}}
    → check_new prior digest ≡ ok u
    → prior ≡ none
unfolding check_new
check_new-none none digest h = refl
check_new-none (some prior) digest h = elim (Bool-cases (str_eq prior digest)) [
  | inl e ↦ absurd (let k = rw e at h in cc)
  | inr e ↦ absurd (let k = rw e at h in cc)
]

module _ (ext : Externals) (binding : Binding) where
  check_message-alone :
      (m : Message) (n : ℕ) {u : Unit {0}}
      → check_message ext m (some n) ≡ ok u
      → check_message ext m none ≡ ok tt
  unfolding check_message validate_message
  check_message-alone m n h = elim (Result-cases (validate_message ext.messages m (some n))) [
    | inr (x, e) ↦ absurd (let k = rw (check_message, e) at h in cc)
    | inl (u, e) ↦
        with_require (str_eq m.schema "agent-workflow/agent-run-message/v1") unsupported_schema _ e
          λ a h₁. with_require (leb 1 m.sequence) sequence_invalid _ h₁ λ b h₂.
            with_require (m.sequence == n) sequence_mismatch _ h₂ λ _ h₃.
              let whole : validate_message ext.messages m none ≡ ok u = rw (a, b) h₃ in
              rw (check_message, whole) refl
  ]

  -- What is known of the cursor once `place` records are committed.
  abbrev Stands : File → ℕ → Dict String → Type 0
  Stands file place seen =
      (current : Option Cursor) × (read_unlocked ext binding file ≡ ok current)
      × ((or_empty ext binding current).last_sequence ≡ place)
      × (((or_empty ext binding current).last_message_id ≡ none)
          ⊎ ((id : String) × ((or_empty ext binding current).last_message_id ≡ some id)
              × (is_some (lookup id seen) ≡ true)))

  decide-goes :
      (current : Cursor) (m : Message) (place : ℕ) (seen : Dict String)
      → current.last_sequence ≡ place
      → m.sequence ≡ suc place
      → lookup m.message_id seen ≡ none
      → (current.last_message_id ≡ none)
        ⊎ ((id : String) × (current.last_message_id ≡ some id) × (is_some (lookup id seen) ≡ true))
      → decide ext binding current m ≡ ok none
  unfolding decide opt_eq
  decide-goes current m place seen count next new last =
      let later : leb m.sequence current.last_sequence ≡ false = ground arith in
      let step : (m.sequence == current.last_sequence + 1) ≡ true = ground arith in
      elim last [
        | inl e ↦ rw (e, later, step) refl
        | inr (id, e, old) ↦ elim (Bool-cases (str_eq id m.message_id)) [
          | inl f ↦ absurd (
              let same : id ≡ m.message_id = (str_eq_iff id m.message_id).0 f in
              let k = sym (ap (λ z. is_some (lookup z seen)) same) ∙ old in
              let k' = sym (ap is_some new) ∙ k in cc)
          | inr f ↦ rw (e, f, later, step) refl
        ]
      ]

  validate_from-head :
      (place : ℕ) (seen : Dict String) (m : Message) (records : List Message)
      → validate_from ext (suc place) seen (m ∷ records) ≡ ok tt
      → (check_message ext m (some (suc place)) ≡ ok tt)
        × (lookup m.message_id seen ≡ none)
        × (validate_from ext (suc (suc place)) (insert m.message_id (ext.digest m) seen) records
            ≡ ok tt)
  unfolding validate_from
  validate_from-head place seen m records h =
      with_ok (check_message ext m (some (suc place))) _ h λ _ checked h₁.
        with_ok (check_new (lookup m.message_id seen) (ext.digest m)) _ h₁ λ _ fresh h₂.
          (checked, check_new-none (lookup m.message_id seen) (ext.digest m) fresh, h₂)

  written-Stands :
      (m : Message) (disposition : String) (place : ℕ) (seen : Dict String)
      → validate_cursor ext (next_cursor ext binding m disposition) binding ≡ ok tt
      → m.sequence ≡ suc place
      → Stands
          (written (next_cursor ext binding m disposition))
          (suc place)
          (insert m.message_id (ext.digest m) seen)
  unfolding read_unlocked or_empty next_cursor committed_at
  written-Stands m disposition place seen fits next = rw fits (
    some (next_cursor ext binding m disposition),
    refl,
    next,
    inr (
      m.message_id,
      refl,
      ap is_some (lookup-insert m.message_id m.message_id (ext.digest m) seen)
          ∙ rw (str_eq_refl m.message_id) refl,
    ),
  )

  -- One record further.
  process-Stands :
      {T : Type 0} (commit_effect : T → Message → T × Result CursorError Returned)
      (hook : Receipt → Result CursorError (Unit {0})) (file : File) (target : T) (m : Message)
      (disposition : String) (place : ℕ) (seen : Dict String) (receipt : Receipt)
      → received ext binding commit_effect hook file target m disposition ≡ ok receipt
      → validate_cursor ext (next_cursor ext binding m disposition) binding ≡ ok tt
      → Stands file place seen
      → check_message ext m (some (suc place)) ≡ ok tt
      → lookup m.message_id seen ≡ none
      → Stands
          (process ext binding commit_effect hook file target m disposition).0.0
          (suc place)
          (insert m.message_id (ext.digest m) seen)
  unfolding decide_on
  process-Stands commit_effect hook file target m disposition place seen receipt got fits stands
        checked new =
      let (current, reads, count, last) = stands in
      let next = check_message-sequence ext m (suc place) checked in
      let goes : decide_on ext binding file m ≡ ok none =
        rw reads (decide-goes (or_empty ext binding current) m place seen count next new last) in
      let run =
        process-valid ext binding commit_effect hook file target m disposition
          (check_message-alone m (suc place) checked) in
      let advances =
        process_locked-none ext binding commit_effect hook file target m disposition goes
        ∙ advance-ok ext binding commit_effect hook file target m disposition receipt got in
      let left : (process ext binding commit_effect hook file target m disposition).0.0
          ≡ written (next_cursor ext binding m disposition) =
        ap (λ z. z.0.0) run
        ∙ ap (λ z. z.0.0) advances
        ∙ ap (λ z. z.0)
            (replace-ok ext binding file (next_cursor ext binding m disposition) fits) in
      subst (λ z. Stands z (suc place) (insert m.message_id (ext.digest m) seen)) (sym left)
        (written-Stands m disposition place seen fits next)

-- A loop that processes the records in order, all with one disposition.
abbrev pub drain :
    Externals
    → Binding
    → {T : Type 0} → (T → Message → T × Result CursorError Returned)
    → (Receipt → Result CursorError (Unit {0}))
    → String
    → File
    → T
    → List Message
    → File × T
drain ext binding commit_effect hook disposition file target [] = (file, target)
drain ext binding commit_effect hook disposition file target (m ∷ records) =
    let (file', target') = (process ext binding commit_effect hook file target m disposition).0 in
    drain ext binding commit_effect hook disposition file' target' records

module _ (ext : Externals) (binding : Binding) {T : Type 0}
    (commit_effect : T → Message → T × Result CursorError Returned)
    (hook : Receipt → Result CursorError (Unit {0})) (disposition : String)
    (commits : (file : File) (target : T) (m : Message)
      → (receipt : Receipt) × (received ext binding commit_effect hook file target m disposition
          ≡ ok receipt))
    (fits : (m : Message)
      → validate_cursor ext (next_cursor ext binding m disposition) binding ≡ ok tt) where
  drain-Stands :
      (file : File) (target : T) (place : ℕ) (seen : Dict String) (records : List Message)
      → Stands ext binding file place seen
      → validate_from ext (suc place) seen records ≡ ok tt
      → (current : Option Cursor) × (read_unlocked ext binding
            (drain ext binding commit_effect hook disposition file target records).0
          ≡ ok current)
        × ((or_empty ext binding current).last_sequence ≡ place + length records)
  drain-Stands file target place seen [] (current, reads, count, _) valid =
      (current, reads, omega (arith, count))
  drain-Stands file target place seen (m ∷ records) stands valid =
      let (checked, new, rest) = validate_from-head ext binding place seen m records valid in
      let (receipt, got) = commits file target m in
      let state = (process ext binding commit_effect hook file target m disposition).0 in
      let stands' =
        process-Stands ext binding commit_effect hook file target m disposition place seen receipt
          got (fits m) stands checked new in
      let (current, reads, count) =
        drain-Stands state.0 state.1 (suc place) (insert m.message_id (ext.digest m) seen) records
          stands' rest in
      (current, reads, omega (arith, count))

  -- Where every effect commits and the cursors fit the binding, processing the records of a valid
  -- source journal in order, from no cursor, ends with the cursor at the last record.
  pub drain-reaches :
      (target : T) (source : List Message)
      → validate_source_records ext source ≡ ok tt
      → (current : Option Cursor) × (read_unlocked ext binding
            (drain ext binding commit_effect hook disposition absent target source).0
          ≡ ok current)
        × ((or_empty ext binding current).last_sequence ≡ length source)
  unfolding validate_source_records read_unlocked or_empty empty_cursor
  drain-reaches target source h =
      with_require (leb (length source) 100000) too_many_records _ h λ _ valid.
        let (current, reads, count) =
          drain-Stands absent target 0 [] source (none, refl, refl, inl refl) valid in
        (current, reads, omega (arith, count))
