-- ===== src/Examples/Receipts.antt =====
-- A sealed run of tier high: it is reviewed, and accepted by another than its executor.
use agent_workflow.Base.{
  last, length, ◌<◌, arith, ℕ, String, ◌≡◌, ◌≢◌, refl, true, false, Option, none, some, List, [],
  ◌∷◌, opt_eq, str_eq, ok,
}
use agent_workflow.Lifecycle.Receipts.{
  ReviewAction, reviewed, accepted, rejected, Receipt, Entry, max_sequence, lifecycle_receipts,
}
use agent_workflow.Lifecycle.Approval.{
  decided, lifecycle_disposition, is_approved, force_accept, is_terminal_status, no_override,
  accepted_already,
}
use agent_workflow.Lifecycle.Approval.Forced.{force_accept-is_approved}
use agent_workflow.Lifecycle.Operations.{
  Sealed, Run, is_high, record_action, acceptance_revision, action_of,
}
use agent_workflow.Lifecycle.Approval.Recorded.{record_action-is_approved}
use agent_workflow.Lifecycle.Operations.Independent.{record_action-IsIndependent}
use agent_workflow.Lifecycle.Operations.Chain.{record_action-reads, record_action-accepted}

abbrev sealed : Sealed
sealed = record {
  receipt_sha256 = "seal";
  receipt_run = "run-build";
  status_run = "run-build";
  status = "completed";
  executor = some "builder";
  tier = some "high";
  policy_result = none;
  evaluation_required = false;
  score = none;
  completion_result = "completed";
  head_revision = some "abc";
  validation_status = "valid";
  task_result_required = false;
  task_result_status = "";
  independent_review_required = true;
}

abbrev receipt_by : ReviewAction → String → Option String → Receipt
receipt_by action actor revision = record {
  agent_run_id = "run-build";
  action = action;
  actor = actor;
  reason = "looks right";
  created_at = "now";
  final_receipt_sha256 = "seal";
  score_receipt_sha256 = none;
  revision = revision;
  reviewer_independent = true;
}

abbrev entry_of : ℕ → Receipt → Entry
entry_of sequence receipt = record {
  sequence = sequence;
  named = receipt.action;
  is_regular = true;
  is_writable = false;
  receipt = receipt;
}

abbrev review : Entry
review = entry_of 1 (receipt_by reviewed "reviewer" none)

abbrev acceptance : Entry
acceptance = entry_of 2 (receipt_by accepted "owner" (some "abc"))

abbrev run_with : List Entry → Run
run_with entries = record {
  agent_run_id = "run-build";
  seal = some sealed;
  receipts = entries;
  override = none;
  review_events = (none, reviewed) ∷ [];
  disposition = some "reviewed";
  accepted_revision = none;
}

abbrev run_after : Run
run_after = record (run_with (review ∷ acceptance ∷ [])) {
  review_events = (none, reviewed) ∷ (some reviewed, accepted) ∷ [];
  disposition = some "accepted";
  accepted_revision = some "abc";
}

owner_accepts :
    record_action (run_with (review ∷ [])) accepted "owner" "looks right" "now" ≡ ok run_after
unfolding record_action str_eq lifecycle_receipts opt_eq
owner_accepts = refl

is_high_tier : is_high sealed.tier ≡ true
unfolding str_eq
is_high_tier = refl

has_room : length (review ∷ []) < max_sequence
has_room = omega arith

record_action-reads_example :
    (lifecycle_receipts "run-build" (some "seal") (review ∷ acceptance ∷ [])
      ≡ ok (review ∷ acceptance ∷ []))
    × ((e : Entry) × (review ∷ acceptance ∷ [] ≡ review ∷ e ∷ [])
        × (e.receipt.action ≡ accepted)
        × (e.receipt.actor ≡ "owner"))
record_action-reads_example =
    record_action-reads (run_with (review ∷ [])) accepted "owner" "looks right" "now" sealed
      run_after refl has_room owner_accepts

abbrev sealed_run : Run
sealed_run = record (run_with []) { review_events = []; disposition = none }

reviewer_reviews :
    record_action sealed_run reviewed "reviewer" "looks right" "now" ≡ ok (run_with (review ∷ []))
unfolding record_action str_eq lifecycle_receipts opt_eq
reviewer_reviews = refl

record_action-IsIndependent_example :
    (opt_eq (some "reviewer") sealed.executor ≡ false)
    × (opt_eq (some "owner") sealed.executor ≡ false)
    × (str_eq sealed.completion_result "completed" ≡ true)
    × (str_eq sealed.validation_status "valid" ≡ true)
record_action-IsIndependent_example =
    record_action-IsIndependent sealed_run "reviewer" "looks right" "now" (run_with (review ∷ []))
      "owner" "looks right" "now" run_after sealed refl is_high_tier reviewer_reviews owner_accepts

record_action-accepted_example :
    record_action run_after rejected "owner" "second thoughts" "later" ≢ ok run_after
record_action-accepted_example =
    record_action-accepted run_after rejected "owner" "second thoughts" "later" sealed acceptance
      run_after refl refl refl

same_run : str_eq sealed.receipt_run "run-build" ≡ true
unfolding str_eq
same_run = refl

record_action-is_approved_example :
    (is_approved run_after ≡ true)
    × ((receipt : Receipt) × (revision : String) × (lifecycle_disposition run_after
          ≡ ok (some (decided receipt revision)))
        × (receipt.action ≡ accepted)
        × (receipt.actor ≡ "owner"))
record_action-is_approved_example =
    record_action-is_approved (run_with (review ∷ [])) "owner" "looks right" "now" sealed review
      run_after refl refl same_run refl has_room owner_accepts

-- The same run, sealed as failed, is forced.
abbrev failed_seal : Sealed
failed_seal = record sealed { status = "failed"; completion_result = "failed" }

abbrev failed_run : Run
failed_run = record (run_with []) {
  seal = some failed_seal;
  review_events = [];
  disposition = none;
}

abbrev forced_run : Run
forced_run = record failed_run {
  override = some (record { final_receipt_sha256 = "seal" });
  disposition = some "force-accepted";
}

owner_forces : force_accept failed_run "owner" "needed" "FORCE-ACCEPT" ≡ ok forced_run
unfolding force_accept str_eq lifecycle_receipts
owner_forces = refl

has_head : acceptance_revision failed_seal.head_revision ≡ ok "abc"
unfolding acceptance_revision str_eq
has_head = refl

force_accept-is_approved_example :
    (is_approved forced_run ≡ true)
    × (is_terminal_status failed_seal.status ≡ true)
    × (no_override failed_run.override ≡ true)
    × (accepted_already (action_of (last failed_run.receipts)) ≡ false)
    × (forced_run.receipts ≡ failed_run.receipts)
force_accept-is_approved_example =
    force_accept-is_approved failed_run "owner" "needed" "FORCE-ACCEPT" failed_seal "abc" forced_run
      refl has_head owner_forces
