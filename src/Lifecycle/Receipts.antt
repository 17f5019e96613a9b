-- ===== src/Lifecycle/Receipts.antt =====
-- lifecycle.py: `lifecycle_receipts`, the chain of receipts in the `receipts` directory of a run. A
-- directory is the list of its entries in the order of their numbers, which is the order of the names
-- while the numbers have six digits; a name with seven digits raises wherever it stands. Opening and
-- decoding a file are not modelled.
use agent_workflow.Base.{
  ℕ, suc, String, Bool, true, false, not, Option, none, some, List, [], ◌∷◌, ◌==◌, leb, str_eq,
  Result, ok, ◌>>◌, require,
}

-- LIFECYCLE_ACTIONS
pub data ReviewAction : Type 0 where
  reviewed accepted rejected : ReviewAction

abbrev pub action_eq : ReviewAction → ReviewAction → Bool
action_eq reviewed reviewed = true
action_eq accepted accepted = true
action_eq rejected rejected = true
action_eq _ _ = false

pub record Receipt : Type 0 where
  pub agent_run_id : String
  pub action : ReviewAction
  pub actor : String
  pub reason : String
  pub created_at : String
  pub final_receipt_sha256 : String
  pub score_receipt_sha256 : Option String
  pub revision : Option String
  pub reviewer_independent : Bool

-- A file `{sequence:06d}-{named}.json`, with more digits for a number from 1000000 on.
pub record Entry : Type 0 where
  pub sequence : ℕ
  pub named : ReviewAction
  pub is_regular : Bool
  pub is_writable : Bool
  pub receipt : Receipt

pub data LifecycleError : Type 0 where
  sequence_mismatch not_regular not_read_only action_mismatch another_run : LifecycleError
  digest_mismatch blank_actor not_sealed not_completed score_required task_result_invalid :
      LifecycleError
  already_terminal review_required already_reviewed not_after score_failed score_changed :
      LifecycleError
  independent_review_required result_not_completed collection_invalid policy_failed : LifecycleError
  tier_required independent_actor_required revision_required revision_mismatch : LifecycleError
  no_prior_review no_receipt not_accepted already_overridden acknowledgement_required :
      LifecycleError
  not_terminal unexpected_artifact : LifecycleError

-- `expected_final_receipt_sha256 is None or ... ==`
abbrev pub digest_ok : Option String → String → Bool
digest_ok none digest = true
digest_ok (some expected) digest = str_eq digest expected

-- `_RECEIPT_NAME` matches names of six digits.
abbrev pub max_sequence : ℕ
max_sequence = 999999

-- The body of the loop of `lifecycle_receipts`.
unfoldable pub check_entry :
    (run : String) (expected : Option String) → ℕ → Entry → Result LifecycleError (Unit {0})
check_entry run expected sequence e = do
  require (leb e.sequence max_sequence) unexpected_artifact
  require (e.sequence == sequence) sequence_mismatch
  require e.is_regular not_regular
  require (not e.is_writable) not_read_only
  require (action_eq e.receipt.action e.named) action_mismatch
  require (str_eq e.receipt.agent_run_id run) another_run
  require (digest_ok expected e.receipt.final_receipt_sha256) digest_mismatch

unfoldable pub check_entries :
    (run : String) (expected : Option String) → ℕ → List Entry → Result LifecycleError (Unit {0})
unfolding check_entry
check_entries run expected sequence [] = ok tt
check_entries run expected sequence (e ∷ es) =
    check_entry run expected sequence e >> check_entries run expected (suc sequence) es

unfoldable pub lifecycle_receipts :
    (run : String) (expected : Option String) → List Entry → Result LifecycleError (List Entry)
unfolding check_entries
lifecycle_receipts run expected entries = do check_entries run expected 1 entries; ok entries
