-- ===== src/Lifecycle/Operations/Independent.antt =====
-- Proofs about the gates of an acceptance in `record` of lifecycle.py.
use agent_workflow.Base.{
  String, ◌≡◌, refl, ap, ◌∙◌, Bool, true, false, not, ◌&&◌, some, List, [], ◌∷◌, ◌++◌, last, str_eq,
  opt_eq, ok, with_ok, with_require, require-true,
}
use agent_workflow.Lifecycle.Receipts.{
  reviewed, accepted, Receipt, Entry, score_failed, score_changed, independent_review_required,
  result_not_completed, collection_invalid, policy_failed, tier_required,
  independent_actor_required,
}
use agent_workflow.Lifecycle.Operations.{
  Sealed, Run, effective_revision, receipt_of, record_action, is_high, is_tier, text_is,
  score_passes, score_hash, check_acceptance_gates,
}
use agent_workflow.Lifecycle.Operations.Chain.{entry_for, record_action-parts}

-- The gates of an acceptance that ask for independence.
check_acceptance_gates-independent :
    (s : Sealed) (review : Receipt) (independent : Bool) {u : Unit {0}}
    → is_high s.tier ≡ true
    → check_acceptance_gates s review independent ≡ ok u
    → (review.reviewer_independent ≡ true)
      × (independent ≡ true)
      × (str_eq s.completion_result "completed" ≡ true)
      × (str_eq s.validation_status "valid" ≡ true)
unfolding check_acceptance_gates
check_acceptance_gates-independent s review independent high h =
    with_require (score_passes s.score) score_failed _ h λ _ h₁.
      with_require (opt_eq review.score_receipt_sha256 (score_hash s.score)) score_changed _ h₁
        λ _ h₂.
          with_require (not (s.independent_review_required && not review.reviewer_independent))
            independent_review_required _ h₂
            λ _ h₃.
              with_require (not (is_high s.tier && not review.reviewer_independent))
                independent_review_required _ h₃
                λ by_other h₄.
                  with_require (str_eq s.completion_result "completed") result_not_completed _ h₄
                    λ result h₅.
                      with_require (str_eq s.validation_status "valid") collection_invalid _ h₅
                        λ valid h₆.
                          with_require (not (text_is s.policy_result "failed")) policy_failed _ h₆
                            λ _ h₇. with_require (is_tier s.tier) tier_required _ h₇ λ _ h₈.
                              let last_gate =
                                require-true (not (is_high s.tier && not independent))
                                  independent_actor_required h₈ in
                              (
                                implied (is_high s.tier) review.reviewer_independent high by_other,
                                implied (is_high s.tier) independent high last_gate,
                                result,
                                valid,
                              )
  where
    implied : (a b : Bool) → a ≡ true → not (a && not b) ≡ true → b ≡ true
    implied true true h k = refl
    implied true false h k = cc
    implied false b h k = cc

last-append : (es : List Entry) (e : Entry) → last (es ++ e ∷ []) ≡ some e
last-append [] e = refl
last-append (x ∷ []) e = refl
last-append (x ∷ y ∷ es) e = last-append (y ∷ es) e

-- What the gates of an acceptance ask of a run of tier high or critical.
record_action-gates :
    (run : Run) (actor reason now : String) (s : Sealed) (e : Entry) (run' : Run)
    → run.seal ≡ some s
    → is_high s.tier ≡ true
    → last run.receipts ≡ some e
    → record_action run accepted actor reason now ≡ ok run'
    → (e.receipt.reviewer_independent ≡ true)
      × (not (opt_eq (some actor) s.executor) ≡ true)
      × (str_eq s.completion_result "completed" ≡ true)
      × (str_eq s.validation_status "valid" ≡ true)
unfolding effective_revision
record_action-gates run actor reason now s e run' sealed high latest h =
    let p = record_action-parts run accepted actor reason now s run' sealed h in
    let independent = not (opt_eq (some actor) s.executor) in
    let gates : effective_revision accepted s (some e) independent ≡ ok p.revision =
      rw latest at p.gates in
    with_ok (check_acceptance_gates s e.receipt independent) _ gates
      λ u passed _. check_acceptance_gates-independent s e.receipt independent high passed

-- For a run of tier high or critical, where a review and then an acceptance are recorded: neither the
-- reviewer nor the accepting actor is the run's executor, the result says completed and the collection
-- was valid.
pub record_action-IsIndependent :
    (run : Run) (reviewer reason now : String) (reviewed_run : Run) (actor reason' now' : String)
    (accepted_run : Run) (s : Sealed)
    → run.seal ≡ some s
    → is_high s.tier ≡ true
    → record_action run reviewed reviewer reason now ≡ ok reviewed_run
    → record_action reviewed_run accepted actor reason' now' ≡ ok accepted_run
    → (opt_eq (some reviewer) s.executor ≡ false)
      × (opt_eq (some actor) s.executor ≡ false)
      × (str_eq s.completion_result "completed" ≡ true)
      × (str_eq s.validation_status "valid" ≡ true)
record_action-IsIndependent run reviewer reason now reviewed_run actor reason' now' accepted_run s
      sealed high review accept =
    let p = record_action-parts run reviewed reviewer reason now s reviewed_run sealed review in
    let entry = entry_for run.receipts (receipt_of run reviewed reviewer reason now s p.revision) in
    let latest : last reviewed_run.receipts ≡ some entry =
      ap last p.receipts ∙ last-append run.receipts entry in
    let (by_other, independent, result, valid) =
      record_action-gates reviewed_run actor reason' now' s entry accepted_run p.same_seal high
        latest accept in
    (
      flip (opt_eq (some reviewer) s.executor) by_other,
      flip (opt_eq (some actor) s.executor) independent,
      result,
      valid,
    )
  where
    flip : (b : Bool) → not b ≡ true → b ≡ false
    flip true h = cc
    flip false h = refl
