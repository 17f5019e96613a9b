-- ===== src/Cursors/Store.antt =====
-- consumer_cursors.py: `reconstruct_cursor` and the operations of `CursorStore`.
pub mod Once
pub mod Crash
pub mod Duplicate
pub mod Rebuild
pub mod Drain
use agent_workflow.Base.{
  ℕ, zero, suc, ◌+◌, String, Bool, true, false, not, ◌&&◌, ◌||◌, Option, none, some, List, [], ◌∷◌,
  length, leb, ◌==◌, str_eq, opt_eq, if◌then◌else◌, Dict, lookup, insert, Result, ok, err, ◌>>=◌,
  ◌>>◌, require,
}
use agent_workflow.Messages.{Message}
use agent_workflow.Cursors.{
  CursorError, id_reused, unknown_disposition, evidence_reused, too_much_evidence, evidence_digest,
  evidence_sequence, cursor_corrupt, compare_failed, not_next, rebuilt_invalid, cannot_lock,
  crashed, Binding, Cursor, Evidence, Returned, Receipt, Externals, File, absent, garbage, written,
  is_disposition, check_message, validate_source_records, receipt_from, build_disposition_evidence,
  empty_cursor, validate_cursor, validate_disposition_evidence,
}

module _ (ext : Externals) (binding : Binding) where
  -- The evidence by source id; of two with one id and the same digest the later counts.
  unfoldable pub index_evidence : Dict Evidence → List Evidence → Result CursorError (Dict Evidence)
  index_evidence by_id [] = ok by_id
  index_evidence by_id (e ∷ evidence) = do
    validate_disposition_evidence ext e binding
    elim (lookup e.source_message_id by_id) [
      | none ↦ ok tt
      | some prior ↦
          require (str_eq prior.source_message_digest e.source_message_digest) evidence_reused
    ]
    index_evidence (insert e.source_message_id e by_id) evidence

  unfoldable pub committed_at : Cursor → Message → String → String → Cursor
  committed_at cursor m disposition updated_at = record cursor {
    last_sequence = m.sequence;
    last_message_id = some m.message_id;
    last_digest = some (ext.digest m);
    disposition = disposition;
    updated_at = updated_at;
  }

  -- The loop of `reconstruct_cursor`, which stops at the first record without evidence.
  unfoldable pub rebuild : Dict Evidence → Cursor → List Message → Result CursorError Cursor
  unfolding committed_at
  rebuild by_id cursor [] = ok cursor
  rebuild by_id cursor (m ∷ records) = elim (lookup m.message_id by_id) [
    | none ↦ ok cursor
    | some e ↦ do
      require (str_eq e.source_message_digest (ext.digest m)) evidence_digest
      require (e.source_sequence == m.sequence) evidence_sequence
      rebuild by_id (committed_at cursor m e.disposition e.updated_at) records
  ]

  unfoldable pub reconstruct_cursor : List Message → List Evidence → Result CursorError Cursor
  unfolding index_evidence rebuild
  reconstruct_cursor source evidence = do
    validate_source_records ext source
    require (leb (length evidence) 100000) too_much_evidence
    by_id ← index_evidence [] evidence
    rebuilt ← rebuild by_id (empty_cursor ext binding) source
    require (ext.cursor_is_valid rebuilt) rebuilt_invalid
    ok rebuilt

  unfoldable pub read_unlocked : File → Result CursorError (Option Cursor)
  read_unlocked absent = ok none
  read_unlocked garbage = err cursor_corrupt
  read_unlocked (written cursor) = validate_cursor ext cursor binding >> ok (some cursor)

  -- `cursor.read() or _empty_cursor(self.binding)`
  unfoldable pub or_empty : Option Cursor → Cursor
  or_empty none = empty_cursor ext binding
  or_empty (some cursor) = cursor

  -- `_LockedCursor.replace`: the file and the answer.
  unfoldable pub replace : File → Cursor → File × Result CursorError Cursor
  replace file value = elim (validate_cursor ext value binding) [
    | err e ↦ (file, err e)
    | ok _ ↦ (written value, ok value)
  ]

-- `locked()` turns every WorkflowError of its body into one of its own.
unfoldable pub locked {ℓ} : {A : Type ℓ} → Result CursorError A → Result CursorError A
locked (ok value) = ok value
locked (err crashed) = err crashed
locked (err _) = err cannot_lock

pub data Outcome : Type 0 where
  duplicate : Cursor → Outcome
  already_committed : Cursor → Outcome
  advanced : Cursor → Receipt → Evidence → Outcome

module _ (ext : Externals) (binding : Binding) where
  unfoldable pub next_cursor : Message → String → Cursor
  unfolding committed_at
  next_cursor m disposition =
      committed_at ext binding (empty_cursor ext binding) m disposition ext.now

  abbrev returned_of : Receipt → Returned
  returned_of receipt = record {
    committed = true;
    receipt_id = receipt.receipt_id;
    source_message_id = some receipt.source_message_id;
    source_message_digest = some receipt.source_message_digest;
    effect_digest = receipt.effect_digest;
  }

  -- The guards of `compare_and_update` under the lock.
  unfoldable pub compare : File → ℕ → Message → Receipt → Result CursorError (Unit {0})
  unfolding read_unlocked or_empty
  compare file expected_sequence m receipt = do
    current ← read_unlocked ext binding file
    require ((or_empty ext binding current).last_sequence == expected_sequence) compare_failed
    require (m.sequence == expected_sequence + 1) not_next
    _ ← receipt_from ext (returned_of receipt) m
    ok tt

  unfoldable pub compare_and_update :
      File → ℕ → Message → String → Receipt → File × Result CursorError Cursor
  unfolding compare replace next_cursor locked
  compare_and_update file expected_sequence m disposition receipt =
      elim (check_message ext m none >> require (is_disposition disposition) unknown_disposition) [
        | err e ↦ (file, err e)
        | ok _ ↦ elim (compare file expected_sequence m receipt) [
          | err e ↦ (file, locked (err e))
          | ok _ ↦
              let (file', answer) = replace ext binding file (next_cursor m disposition) in
              (file', locked answer)
        ]
      ]

  -- What `process` decides from the cursor: an answer, or to go on.
  unfoldable pub decide : Cursor → Message → Result CursorError (Option Outcome)
  decide current m =
      if opt_eq current.last_message_id (some m.message_id)
      then (if opt_eq current.last_digest (some (ext.digest m))
          then ok (some (duplicate current))
          else err id_reused)
      else if leb m.sequence current.last_sequence
      then ok (some (already_committed current))
      else require (m.sequence == current.last_sequence + 1) not_next >> ok none

  unfoldable pub decide_on : File → Message → Result CursorError (Option Outcome)
  unfolding read_unlocked or_empty decide
  decide_on file m = do
    current ← read_unlocked ext binding file
    decide (or_empty ext binding current) m

  -- The target: its state, the effect that it commits, and the hook between its commit and the
  -- cursor's. Either may raise, and what the target has committed by then stays committed.
  module _ {T : Type 0} (commit_effect : T → Message → T × Result CursorError Returned)
      (after_target_commit : Receipt → Result CursorError (Unit {0})) where
    unfoldable pub receipt_of : Result CursorError Returned → Message → Result CursorError Receipt
    receipt_of returned m = do
      value ← returned
      receipt ← receipt_from ext value m
      after_target_commit receipt
      ok receipt

    unfoldable pub outcome_of :
        Message → String → Receipt → Result CursorError Cursor → Result CursorError Outcome
    outcome_of m disposition receipt answer = do
      cursor ← answer
      evidence ← build_disposition_evidence ext binding m disposition receipt
      ok (advanced cursor receipt evidence)

    -- From what the effect has left and returned to the cursor's own commit.
    unfoldable pub settle :
        File
        → Message
        → String
        → T × Result CursorError Returned
        → (File × T) × Result CursorError Outcome
    unfolding receipt_of outcome_of replace next_cursor
    settle file m disposition (target, returned) = elim (receipt_of returned m) [
      | err e ↦ ((file, target), err e)
      | ok receipt ↦
          let (file', answer) = replace ext binding file (next_cursor m disposition) in
          ((file', target), outcome_of m disposition receipt answer)
    ]

    unfoldable pub advance : File → T → Message → String → (File × T) × Result CursorError Outcome
    unfolding settle
    advance file target m disposition = settle file m disposition (commit_effect target m)

    unfoldable pub process_locked :
        File → T → Message → String → (File × T) × Result CursorError Outcome
    unfolding decide_on advance
    process_locked file target m disposition = elim (decide_on file m) [
      | err e ↦ ((file, target), err e)
      | ok (some outcome) ↦ ((file, target), ok outcome)
      | ok none ↦ advance file target m disposition
    ]

    unfoldable pub process : File → T → Message → String → (File × T) × Result CursorError Outcome
    unfolding process_locked locked
    process file target m disposition = elim (check_message ext m none) [
      | err e ↦ ((file, target), err e)
      | ok _ ↦
          let (state, answer) = process_locked file target m disposition in (state, locked answer)
    ]

  -- A corrupt cursor counts as none; one of another consumer is an error.
  unfoldable pub read_or_none : File → Result CursorError (Option Cursor)
  unfolding read_unlocked
  read_or_none file = elim (read_unlocked ext binding file) [
    | ok current ↦ ok current
    | err cursor_corrupt ↦ ok none
    | err e ↦ err e
  ]

  abbrev pub is_stale : Option Cursor → Cursor → Bool
  is_stale none rebuilt = true
  is_stale (some current) rebuilt =
      not (current.last_sequence == rebuilt.last_sequence)
      || not (opt_eq current.last_message_id rebuilt.last_message_id)
      || not (opt_eq current.last_digest rebuilt.last_digest)
      || not (str_eq current.disposition rebuilt.disposition)

  unfoldable pub refresh : File → Option Cursor → Cursor → File × Result CursorError Cursor
  unfolding replace
  refresh file current rebuilt =
      if is_stale current rebuilt
      then replace ext binding file rebuilt
      else (file, ok (or_empty ext binding current))

  unfoldable pub read_or_reconstruct :
      File → List Message → List Evidence → File × Result CursorError Cursor
  unfolding reconstruct_cursor read_or_none refresh locked
  read_or_reconstruct file source evidence = elim (reconstruct_cursor ext binding source evidence) [
    | err e ↦ (file, err e)
    | ok rebuilt ↦ elim (read_or_none file) [
      | err e ↦ (file, locked (err e))
      | ok current ↦ let (file', answer) = refresh file current rebuilt in (file', locked answer)
    ]
  ]
