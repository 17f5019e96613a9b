-- ===== src/Lifecycle/Operations.antt =====
-- lifecycle.py: `record` with its policy and gates. The action is one of the three by its type, so
-- `_operation` never raises.
pub mod Chain
pub mod Independent
use Prim.Native.Char.{code}
use agent_workflow.Base.{
  ℕ, ◌+◌, String, Bool, true, false, not, ◌&&◌, ◌||◌, Option, none, some, List, [], ◌∷◌, ◌++◌,
  length, last, leb, ◌==◌, if◌then◌else◌, str_eq, opt_eq, all, any, Result, ok, err, ◌>>=◌, ◌>>◌,
  require,
}
use agent_workflow.Lifecycle.Receipts.{
  ReviewAction, reviewed, accepted, rejected, action_eq, Receipt, Entry, LifecycleError,
  blank_actor, not_sealed, not_completed, score_required, task_result_invalid, already_terminal,
  review_required, already_reviewed, not_after, score_failed, score_changed,
  independent_review_required, result_not_completed, collection_invalid, policy_failed,
  tier_required, independent_actor_required, revision_required, revision_mismatch, no_prior_review,
  no_receipt, not_accepted, another_run, already_overridden, acknowledgement_required, not_terminal,
  digest_mismatch, lifecycle_receipts,
}

-- The sealed evidence of a run: what `verify_seal_details` and `read_sealed_contract` return. `score`
-- is the verdict and the digest of the validated score set.
pub record Sealed : Type 0 where
  pub receipt_sha256 : String
  pub receipt_run : String
  pub status_run : String
  pub status : String
  pub executor : Option String
  pub tier : Option String
  pub policy_result : Option String
  pub evaluation_required : Bool
  pub score : Option (String × String)
  pub completion_result : String
  pub head_revision : Option String
  pub validation_status : String
  pub task_result_required : Bool
  pub task_result_status : String
  pub independent_review_required : Bool

-- A force-accept receipt, as far as the code reads it back.
pub record Override : Type 0 where
  pub final_receipt_sha256 : String

-- A run's directory and the disposition in its status projection. `seal` is `none` where the
-- verification of the seal raises.
pub record Run : Type 0 where
  pub agent_run_id : String
  pub seal : Option Sealed
  pub receipts : List Entry
  pub override : Option Override
  pub review_events : List (Option ReviewAction × ReviewAction)
  pub disposition : Option String
  pub accepted_revision : Option String

abbrev codes : String → List ℕ
codes String.[] = []
codes (String.◌∷◌ c s) = code c ∷ codes s

-- What `str.strip` takes for white space.
abbrev is_space : ℕ → Bool
is_space c =
    (leb 9 c && leb c 13)
    || (leb 28 c && leb c 32)
    || c == 133
    || c == 160
    || c == 5760
    || (leb 8192 c && leb c 8202)
    || c == 8232
    || c == 8233
    || c == 8239
    || c == 8287
    || c == 12288

-- `not text.strip()`
unfoldable pub is_blank : String → Bool
is_blank s = all is_space (codes s)

-- `spec.allowed_prior` of _LIFECYCLE_OPERATIONS.
unfoldable pub allowed_prior : ReviewAction → Option ReviewAction → Bool
allowed_prior reviewed none = true
allowed_prior reviewed (some rejected) = true
allowed_prior accepted (some reviewed) = true
allowed_prior rejected none = true
allowed_prior rejected (some reviewed) = true
allowed_prior rejected (some rejected) = true
allowed_prior _ _ = false

-- The errors of `_require_allowed_prior`, in the order of its tests.
abbrev prior_error : ReviewAction → Option ReviewAction → LifecycleError
prior_error action (some accepted) = already_terminal
prior_error accepted prior = review_required
prior_error reviewed (some reviewed) = already_reviewed
prior_error action prior = not_after

unfoldable pub require_allowed_prior :
    ReviewAction → Option ReviewAction → Result LifecycleError (Unit {0})
unfolding allowed_prior
require_allowed_prior action prior = require (allowed_prior action prior) (prior_error action prior)

abbrev pub text_is : Option String → String → Bool
text_is none wanted = false
text_is (some s) wanted = str_eq s wanted

abbrev pub is_high : Option String → Bool
is_high tier = text_is tier "high" || text_is tier "critical"

abbrev pub is_tier : Option String → Bool
is_tier tier = text_is tier "low" || text_is tier "medium" || is_high tier

abbrev pub score_passes : Option (String × String) → Bool
score_passes none = true
score_passes (some (verdict, digest)) = str_eq verdict "pass"

abbrev pub score_hash : Option (String × String) → Option String
score_hash none = none
score_hash (some (verdict, digest)) = some digest

-- `_check_acceptance_gates`, for the receipt of the prior review.
unfoldable pub check_acceptance_gates : Sealed → Receipt → Bool → Result LifecycleError (Unit {0})
check_acceptance_gates s review independent = do
  require (score_passes s.score) score_failed
  require (opt_eq review.score_receipt_sha256 (score_hash s.score)) score_changed
  require (not (s.independent_review_required && not review.reviewer_independent))
      independent_review_required
  require (not (is_high s.tier && not review.reviewer_independent)) independent_review_required
  require (str_eq s.completion_result "completed") result_not_completed
  require (str_eq s.validation_status "valid") collection_invalid
  require (not (text_is s.policy_result "failed")) policy_failed
  require (is_tier s.tier) tier_required
  require (not (is_high s.tier && not independent)) independent_actor_required

-- `_acceptance_revision`
unfoldable pub acceptance_revision : Option String → Result LifecycleError String
acceptance_revision none = err revision_required
acceptance_revision (some revision) = do
  require (not (str_eq revision "")) revision_required
  ok revision

abbrev pub action_of : Option Entry → Option ReviewAction
action_of none = none
action_of (some e) = some e.receipt.action

abbrev pub or_raise {ℓ} : {A : Type ℓ} → Option A → LifecycleError → Result LifecycleError A
or_raise none e = err e
or_raise (some a) e = ok a

-- The gates and the revision of an acceptance; another action has no revision.
unfoldable pub effective_revision :
    ReviewAction → Sealed → Option Entry → Bool → Result LifecycleError (Option String)
unfolding check_acceptance_gates acceptance_revision
effective_revision accepted s prior independent = do
  entry ← or_raise prior review_required
  check_acceptance_gates s entry.receipt independent
  revision ← acceptance_revision s.head_revision
  ok (some revision)
effective_revision _ s prior independent = ok none

-- The checks of the sealed evidence before the chain is read.
unfoldable pub check_evidence : String → Sealed → Result LifecycleError (Unit {0})
check_evidence run s = do
  require (str_eq s.status_run run) another_run
  require (str_eq s.status "completed") not_completed
  require (elim s.score [ none ↦ not s.evaluation_required | some _ ↦ true ]) score_required
  require (not (s.task_result_required && not (str_eq s.task_result_status "valid")))
      task_result_invalid

abbrev action_name : ReviewAction → String
action_name reviewed = "reviewed"
action_name accepted = "accepted"
action_name rejected = "rejected"

-- `_append_receipt`: a new read-only file under the next number.
unfoldable pub append_receipt : Run → Receipt → Result LifecycleError (List Entry)
append_receipt run receipt = do
  chain ← lifecycle_receipts run.agent_run_id none run.receipts
  ok (
      run.receipts
      ++ record {
        sequence = length chain + 1;
        named = receipt.action;
        is_regular = true;
        is_writable = false;
        receipt = receipt;
      }
        ∷ [])

abbrev pub receipt_of :
    Run → ReviewAction → (actor reason now : String) → Sealed → Option String → Receipt
receipt_of run action actor reason now s revision = record {
  agent_run_id = run.agent_run_id;
  action = action;
  actor = actor;
  reason = reason;
  created_at = now;
  final_receipt_sha256 = s.receipt_sha256;
  score_receipt_sha256 = score_hash s.score;
  revision = revision;
  reviewer_independent = not (opt_eq (some actor) s.executor);
}

-- `accepted_revision` is written by an acceptance alone.
abbrev projected_revision : ReviewAction → Option String → Option String → Option String
projected_revision accepted revision old = revision
projected_revision _ revision old = old

-- `record`. The event journal and the status projection, written after the receipt, are taken to
-- accept what they are given, so the state changes only if nothing raises.
unfoldable pub record_action :
    Run → ReviewAction → (actor reason now : String) → Result LifecycleError Run
unfolding is_blank check_evidence require_allowed_prior effective_revision append_receipt
record_action run action actor reason now = do
  require (not (is_blank actor || is_blank reason)) blank_actor
  s ← or_raise run.seal not_sealed
  check_evidence run.agent_run_id s
  chain ← lifecycle_receipts run.agent_run_id (some s.receipt_sha256) run.receipts
  let prior = action_of (last chain)
  require_allowed_prior action prior
  let independent = not (opt_eq (some actor) s.executor)
  revision ← effective_revision action s (last chain) independent
  receipts ← append_receipt run (receipt_of run action actor reason now s revision)
  ok (record run {
    receipts = receipts;
    review_events = run.review_events ++ (prior, action) ∷ [];
    disposition = some (action_name action);
    accepted_revision = projected_revision action revision run.accepted_revision;
  })
