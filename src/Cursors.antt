-- ===== src/Cursors.antt =====
-- consumer_cursors.py: the cursor of one consumer over a source journal, its rebuilding from
-- evidence and the operations of `CursorStore`. The lock is held over a whole operation, so each is
-- one step on the cursor's file and the target. Paths, links and the binding's sources are not
-- modelled.
pub mod Store
use agent_workflow.Base.{
  ℕ, zero, suc, ◌+◌, String, Bool, true, false, not, ◌&&◌, ◌||◌, Option, none, some, List, [], ◌∷◌,
  ◌++◌, length, elem, leb, ◌==◌, str_eq, opt_eq, if◌then◌else◌, Dict, lookup, insert, Result, ok,
  err, ◌>>=◌, ◌>>◌, require,
}
use agent_workflow.Messages as Log
use agent_workflow.Messages.{Message, MessageError, validate_message}

pub data CursorError : Type 0 where
  too_many_records : CursorError
  message_invalid : MessageError → CursorError
  id_reused : CursorError
  duplicate_id : CursorError
  unknown_disposition : CursorError
  receipt_unbound : CursorError
  evidence_invalid : CursorError
  evidence_identity : CursorError
  evidence_reused : CursorError
  too_much_evidence : CursorError
  evidence_digest : CursorError
  evidence_sequence : CursorError
  cursor_corrupt : CursorError
  cursor_identity : CursorError
  compare_failed : CursorError
  not_next : CursorError
  not_committed : CursorError
  receipt_token : CursorError
  receipt_source : CursorError
  receipt_digest : CursorError
  rebuilt_invalid : CursorError
  cannot_lock : CursorError
  -- An exception that is no WorkflowError, as a crash of the process between two writes.
  crashed : CursorError

pub record Binding : Type 0 where
  pub consumer_id : String
  pub identity_digest : String
  pub source_journal_id : String

pub record Cursor : Type 0 where
  pub consumer_id : String
  pub consumer_identity_digest : String
  pub source_journal_id : String
  pub last_sequence : ℕ
  pub last_message_id : Option String
  pub last_digest : Option String
  pub disposition : String
  pub updated_at : String

pub record Evidence : Type 0 where
  pub consumer_id : String
  pub consumer_identity_digest : String
  pub source_journal_id : String
  pub source_sequence : ℕ
  pub source_message_id : String
  pub source_message_digest : String
  pub disposition : String
  pub target_receipt_id : String
  pub updated_at : String

-- What a target effect returns, and the receipt that is read from it.
pub record Returned : Type 0 where
  pub committed : Bool
  pub receipt_id : String
  pub source_message_id : Option String
  pub source_message_digest : Option String
  pub effect_digest : Option String

pub record Receipt : Type 0 where
  pub receipt_id : String
  pub source_message_id : String
  pub source_message_digest : String
  pub effect_digest : Option String

-- The message rules' externals, the digest of a message, the schemas of contracts.py, the test of
-- `_safe_token` and the clock.
pub record Externals : Type 0 where
  pub messages : Log.Externals
  pub digest : Message → String
  pub cursor_is_valid : Cursor → Bool
  pub evidence_is_valid : Evidence → Bool
  pub is_token : String → Bool
  pub now : String

-- The cursor's file: absent, no JSON, or a JSON value.
pub data File : Type 0 where
  absent : File
  garbage : File
  written : Cursor → File

-- DISPOSITIONS
abbrev pub is_disposition : String → Bool
is_disposition s =
    str_eq s "applied"
    || str_eq s "rejected"
    || str_eq s "ignored"
    || str_eq s "deferred"
    || str_eq s "security_error"

-- An id that was seen before, with the digest it had, is refused either way.
unfoldable pub check_new : Option String → String → Result CursorError (Unit {0})
check_new none digest = ok tt
check_new (some prior) digest = if str_eq prior digest then err duplicate_id else err id_reused

module _ (ext : Externals) where
  unfoldable pub check_message : Message → Option ℕ → Result CursorError (Unit {0})
  check_message m expected = elim (validate_message ext.messages m expected) [
    | ok _ ↦ ok tt
    | err e ↦ err (message_invalid e)
  ]

  -- The loop of `validate_source_records`; `by_id` holds the digests of the ids so far.
  unfoldable pub validate_from : ℕ → Dict String → List Message → Result CursorError (Unit {0})
  unfolding check_message check_new
  validate_from expected by_id [] = ok tt
  validate_from expected by_id (m ∷ records) = do
    check_message m (some expected)
    check_new (lookup m.message_id by_id) (ext.digest m)
    validate_from (suc expected) (insert m.message_id (ext.digest m) by_id) records

  unfoldable pub validate_source_records : List Message → Result CursorError (Unit {0})
  unfolding validate_from
  validate_source_records records = do
    require (leb (length records) 100000) too_many_records
    validate_from 1 [] records

  -- `DurableEffectReceipt.from_value`
  abbrev token_or_none : Option String → Bool
  token_or_none none = true
  token_or_none (some s) = ext.is_token s

  unfoldable pub receipt_from : Returned → Message → Result CursorError Receipt
  receipt_from value m = do
    require value.committed not_committed
    require (ext.is_token value.receipt_id) receipt_token
    require (opt_eq value.source_message_id (some m.message_id)) receipt_source
    require (opt_eq value.source_message_digest (some (ext.digest m))) receipt_digest
    require (token_or_none value.effect_digest) receipt_token
    ok (record {
      receipt_id = value.receipt_id;
      source_message_id = m.message_id;
      source_message_digest = ext.digest m;
      effect_digest = value.effect_digest;
    })

  unfoldable pub build_disposition_evidence :
      Binding → Message → String → Receipt → Result CursorError Evidence
  unfolding check_message
  build_disposition_evidence binding m disposition receipt = do
    check_message m none
    require (is_disposition disposition) unknown_disposition
    require
        (str_eq receipt.source_message_id m.message_id
          && str_eq receipt.source_message_digest (ext.digest m))
        receipt_unbound
    let evidence : Evidence = record {
      consumer_id = binding.consumer_id;
      consumer_identity_digest = binding.identity_digest;
      source_journal_id = binding.source_journal_id;
      source_sequence = m.sequence;
      source_message_id = m.message_id;
      source_message_digest = ext.digest m;
      disposition = disposition;
      target_receipt_id = receipt.receipt_id;
      updated_at = ext.now;
    }
    require (ext.evidence_is_valid evidence) evidence_invalid
    ok evidence

  unfoldable pub empty_cursor : Binding → Cursor
  empty_cursor binding = record {
    consumer_id = binding.consumer_id;
    consumer_identity_digest = binding.identity_digest;
    source_journal_id = binding.source_journal_id;
    last_sequence = 0;
    last_message_id = none;
    last_digest = none;
    disposition = "deferred";
    updated_at = ext.now;
  }

  unfoldable pub validate_cursor : Cursor → Binding → Result CursorError (Unit {0})
  validate_cursor value binding = do
    require (ext.cursor_is_valid value) cursor_corrupt
    require
        (str_eq value.consumer_id binding.consumer_id
          && str_eq value.consumer_identity_digest binding.identity_digest
          && str_eq value.source_journal_id binding.source_journal_id)
        cursor_identity

  unfoldable pub validate_disposition_evidence : Evidence → Binding → Result CursorError (Unit {0})
  validate_disposition_evidence value binding = do
    require (ext.evidence_is_valid value) evidence_invalid
    require
        (str_eq value.consumer_id binding.consumer_id
          && str_eq value.consumer_identity_digest binding.identity_digest
          && str_eq value.source_journal_id binding.source_journal_id)
        evidence_identity
