-- ===== src/Lifecycle/Approval/Recorded.antt =====
-- Proofs about `record` of lifecycle.py and `is_approved` of approval.py.
use agent_workflow.Base.{
  String, ◌≡◌, refl, sym, ◌∙◌, Bool, true, not, Option, none, some, List, [], ◌∷◌, ◌++◌, last,
  length, ◌<◌, str_eq, opt_eq, opt_eq_refl, opt_eq→eq, ok, with_ok, with_require, ok-injective,
}
use agent_workflow.Lifecycle.Receipts.{
  reviewed, accepted, Receipt, Entry, score_failed, score_changed, max_sequence, lifecycle_receipts,
}
use agent_workflow.Lifecycle.Approval.{
  last_two, Disposition, decided, check_accepted, judge, lifecycle_disposition, is_approved,
}
use agent_workflow.Lifecycle.Operations.{
  Sealed, Run, score_passes, score_hash, check_acceptance_gates, acceptance_revision,
  effective_revision, receipt_of, record_action,
}
use agent_workflow.Lifecycle.Operations.Chain.{
  record_action-parts, record_action-reads, after_review, entry_for,
}

-- The entry before the last one of a longer chain is the last one of the chain.
last_two-append :
    (es : List Entry) (before : Option Entry) (review e : Entry)
    → last es ≡ some review
    → last_two (es ++ e ∷ []) before ≡ some (some review, e)
last_two-append [] before review e h = cc
last_two-append (x ∷ []) before review e h = cc
last_two-append (x ∷ y ∷ es) before review e h = last_two-append (y ∷ es) (some x) review e h

-- The gates compare the score of the review with the score of the run.
check_acceptance_gates-score :
    (s : Sealed) (review : Receipt) (independent : Bool) {u : Unit {0}}
    → check_acceptance_gates s review independent ≡ ok u
    → review.score_receipt_sha256 ≡ score_hash s.score
unfolding check_acceptance_gates
check_acceptance_gates-score s review independent h =
    with_require (score_passes s.score) score_failed _ h λ _ h₁.
      with_require (opt_eq review.score_receipt_sha256 (score_hash s.score)) score_changed _ h₁
        λ same _. opt_eq→eq review.score_receipt_sha256 (score_hash s.score) same

-- What an acceptance takes from its evidence.
record Evidence (s : Sealed) (review : Entry) (revision : Option String) : Type 0 where
  head : String
  is_head : acceptance_revision s.head_revision ≡ ok head
  is_revision : revision ≡ some head
  same_score : review.receipt.score_receipt_sha256 ≡ score_hash s.score

effective_revision-parts :
    (s : Sealed) (review : Entry) (independent : Bool) (revision : Option String)
    → effective_revision accepted s (some review) independent ≡ ok revision
    → Evidence s review revision
unfolding effective_revision
effective_revision-parts s review independent revision h =
    with_ok (check_acceptance_gates s review.receipt independent) _ h λ u passed h₁.
      with_ok (acceptance_revision s.head_revision) _ h₁ λ head is_head e. record {
        head = head;
        is_head = is_head;
        is_revision = sym (ok-injective e);
        same_score = check_acceptance_gates-score s review.receipt independent passed;
      }

judge_accepted :
    (review e : Entry) (revision : String)
    → e.receipt.action ≡ accepted
    → review.receipt.action ≡ reviewed
    → e.receipt.revision ≡ some revision
    → review.receipt.score_receipt_sha256 ≡ e.receipt.score_receipt_sha256
    → judge (some (some review, e)) revision ≡ ok (some (decided e.receipt revision))
unfolding check_accepted
judge_accepted review e revision is_accepted is_reviewed same_revision same_score = rw is_accepted (
    rw same_revision (
      rw (opt_eq_refl (some revision))
        (rw is_reviewed (rw same_score (rw (opt_eq_refl e.receipt.score_receipt_sha256) refl)))))

lifecycle_disposition_lem :
    (run : Run) (s : Sealed) (revision : String) (found : Option Disposition)
    → run.seal ≡ some s
    → run.override ≡ none
    → str_eq s.receipt_run run.agent_run_id ≡ true
    → acceptance_revision s.head_revision ≡ ok revision
    → lifecycle_receipts run.agent_run_id (some s.receipt_sha256) run.receipts ≡ ok run.receipts
    → judge (last_two run.receipts none) revision ≡ ok found
    → lifecycle_disposition run ≡ ok found
unfolding lifecycle_disposition
lifecycle_disposition_lem run s revision found sealed no_override same_run head reads judged =
    rw sealed (rw same_run (rw head (rw no_override (rw reads judged))))

-- An acceptance that is recorded behind fewer than 999999 receipts, for a run with no override whose
-- seal names the run, approves the run: `lifecycle_disposition` finds a receipt of the acceptance by that actor, and
-- `is_approved` holds.
pub record_action-is_approved :
    (run : Run) (actor reason now : String) (s : Sealed) (review : Entry) (run' : Run)
    → run.seal ≡ some s
    → run.override ≡ none
    → str_eq s.receipt_run run.agent_run_id ≡ true
    → last run.receipts ≡ some review
    → length run.receipts < max_sequence
    → record_action run accepted actor reason now ≡ ok run'
    → (is_approved run' ≡ true)
      × ((receipt : Receipt) × (revision : String) × (lifecycle_disposition run'
            ≡ ok (some (decided receipt revision)))
          × (receipt.action ≡ accepted)
          × (receipt.actor ≡ actor))
unfolding is_approved
record_action-is_approved run actor reason now s review run' sealed no_override same_run latest room
      h =
    let p = record_action-parts run accepted actor reason now s run' sealed h in
    let independent = not (opt_eq (some actor) s.executor) in
    let e = effective_revision-parts s review independent p.revision (rw latest at p.gates) in
    let receipt = receipt_of run accepted actor reason now s p.revision in
    let entry = entry_for run.receipts receipt in
    let (reads, _) = record_action-reads run accepted actor reason now s run' sealed room h in
    let two : last_two run'.receipts none ≡ some (some review, entry) =
      rw p.receipts (last_two-append run.receipts none review entry latest) in
    let judged : judge (last_two run'.receipts none) e.head ≡ ok (some (decided receipt e.head)) =
      rw two (
        judge_accepted review entry e.head refl (after_review review (rw latest at p.prior_allowed))
          e.is_revision e.same_score) in
    let found : lifecycle_disposition run' ≡ ok (some (decided receipt e.head)) =
      lifecycle_disposition_lem run' s e.head (some (decided receipt e.head)) p.same_seal
        (p.same_override ∙ no_override) (rw p.same_run same_run) e.is_head reads judged in
    (rw (is_approved, found) refl, (receipt, e.head, found, refl, refl))
