-- ===== src/Lifecycle/Approval.antt =====
-- approval.py: `force_accept`, `lifecycle_disposition` and `is_approved`, with the terminal statuses of
-- state.py.
pub mod Recorded
pub mod Forced
use agent_workflow.Base.{
  ℕ, ◌+◌, String, Bool, true, false, not, ◌&&◌, ◌||◌, Option, none, some, List, [], ◌∷◌, ◌++◌,
  length, last, leb, ◌==◌, if◌then◌else◌, str_eq, opt_eq, all, any, Result, ok, err, ◌>>=◌, ◌>>◌,
  require,
}
use agent_workflow.Lifecycle.Receipts.{
  ReviewAction, reviewed, accepted, rejected, action_eq, Receipt, Entry, LifecycleError,
  blank_actor, not_sealed, not_completed, score_required, task_result_invalid, already_terminal,
  review_required, already_reviewed, not_after, score_failed, score_changed,
  independent_review_required, result_not_completed, collection_invalid, policy_failed,
  tier_required, independent_actor_required, revision_required, revision_mismatch, no_prior_review,
  no_receipt, not_accepted, another_run, already_overridden, acknowledgement_required, not_terminal,
  digest_mismatch, lifecycle_receipts,
}
use agent_workflow.Lifecycle.Operations.{
  Override, Run, is_blank, or_raise, action_of, acceptance_revision,
}

-- The last two entries of a chain, the last one first.
abbrev pub last_two : List Entry → Option Entry → Option (Option Entry × Entry)
last_two [] before = none
last_two (e ∷ []) before = some (before, e)
last_two (e ∷ f ∷ es) before = last_two (f ∷ es) (some e)

pub data Disposition : Type 0 where
  force_accepted : Override → (revision : String) → Disposition
  decided : Receipt → (revision : String) → Disposition

-- What is asked of an acceptance: its revision, and the review just before it.
unfoldable pub check_accepted : Receipt → Option Entry → String → Result LifecycleError (Unit {0})
check_accepted receipt before revision = do
  require (opt_eq receipt.revision (some revision)) revision_mismatch
  review ← or_raise before no_prior_review
  require (action_eq review.receipt.action reviewed) no_prior_review
  require (opt_eq review.receipt.score_receipt_sha256 receipt.score_receipt_sha256) score_changed

abbrev pub judge :
    Option (Option Entry × Entry) → String → Result LifecycleError (Option Disposition)
judge none revision = ok none
judge (some (before, e)) revision = do
  (if action_eq e.receipt.action accepted then check_accepted e.receipt before revision else ok tt)
  ok (some (decided e.receipt revision))

abbrev pub judge_override :
    Option Override
    → String
    → String
    → Result LifecycleError (Option Disposition)
    → Result LifecycleError (Option Disposition)
judge_override none digest revision rest = rest
judge_override (some o) digest revision rest = do
  require (str_eq o.final_receipt_sha256 digest) digest_mismatch
  ok (some (force_accepted o revision))

unfoldable pub lifecycle_disposition : Run → Result LifecycleError (Option Disposition)
unfolding check_accepted acceptance_revision
lifecycle_disposition run = do
  s ← or_raise run.seal not_sealed
  require (str_eq s.receipt_run run.agent_run_id) another_run
  revision ← acceptance_revision s.head_revision
  judge_override run.override s.receipt_sha256 revision (do
    chain ← lifecycle_receipts run.agent_run_id (some s.receipt_sha256) run.receipts
    judge (last_two chain none) revision)

abbrev pub approves : Option Disposition → Bool
approves none = false
approves (some (force_accepted o revision)) = true
approves (some (decided receipt revision)) = action_eq receipt.action accepted

-- An error is no approval.
unfoldable pub is_approved : Run → Bool
unfolding lifecycle_disposition
is_approved run = elim (lifecycle_disposition run) [ ok d ↦ approves d | err e ↦ false ]

-- TERMINAL_STATUSES
abbrev pub is_terminal_status : String → Bool
is_terminal_status s =
    str_eq s "completed"
    || str_eq s "failed"
    || str_eq s "interrupted"
    || str_eq s "terminated"
    || str_eq s "retired"

abbrev pub no_override : Option Override → Bool
no_override none = true
no_override (some _) = false

abbrev pub accepted_already : Option ReviewAction → Bool
accepted_already (some accepted) = true
accepted_already _ = false

-- `force_accept`. Its event in the journal has an action of its own and is left out of
-- `review_events`.
unfoldable pub force_accept :
    Run → (actor reason acknowledgement : String) → Result LifecycleError Run
unfolding is_blank
force_accept run actor reason acknowledgement = do
  require (not (is_blank actor || is_blank reason)) blank_actor
  require (str_eq acknowledgement "FORCE-ACCEPT") acknowledgement_required
  require (no_override run.override) already_overridden
  s ← or_raise run.seal not_sealed
  require (str_eq s.receipt_run run.agent_run_id) another_run
  require (str_eq s.status_run run.agent_run_id) another_run
  require (is_terminal_status s.status) not_terminal
  chain ← lifecycle_receipts run.agent_run_id (some s.receipt_sha256) run.receipts
  require (not (accepted_already (action_of (last chain)))) already_terminal
  ok (record run {
    override = some (record { final_receipt_sha256 = s.receipt_sha256 });
    disposition = some "force-accepted";
  })
