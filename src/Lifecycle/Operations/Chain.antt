-- ===== src/Lifecycle/Operations/Chain.antt =====
-- Proofs about `record` of lifecycle.py and the chain of receipts.
use agent_workflow.Base.{
  ℕ, suc, ◌+◌, String, ◌≡◌, ◌≢◌, refl, sym, ap, ◌∙◌, true, false, not, ◌||◌, Option, none, some,
  List, [], ◌∷◌, ◌++◌, length, last, leb, ◌<◌, ◌==◌, str_eq_refl, opt_eq, ok, with_ok, with_require,
  ok-injective, arith,
}
use agent_workflow.Lifecycle.Receipts.{
  ReviewAction, reviewed, accepted, rejected, action_eq, Receipt, Entry, blank_actor, check_entry,
  check_entries, max_sequence, lifecycle_receipts,
}
use agent_workflow.Lifecycle.Operations.{
  Sealed, Run, is_blank, require_allowed_prior, prior_error, check_evidence, effective_revision,
  append_receipt, receipt_of, record_action, action_of, allowed_prior,
}

action_eq_refl : (a : ReviewAction) → action_eq a a ≡ true
action_eq_refl reviewed = refl
action_eq_refl accepted = refl
action_eq_refl rejected = refl

check_entries-append :
    (run : String) (expected : Option String) (n : ℕ) (es : List Entry) (e : Entry)
    → check_entries run expected n es ≡ ok tt
    → check_entry run expected (n + length es) e ≡ ok tt
    → check_entries run expected n (es ++ e ∷ []) ≡ ok tt
unfolding check_entries
check_entries-append run expected n [] e h k =
    let place : n + 0 ≡ n = omega arith in rw (rw place at k)
check_entries-append run expected n (x ∷ es) e h k =
    with_ok (check_entry run expected n x) _ h λ u first rest.
      let place : n + suc (length es) ≡ suc n + length es = omega arith in
      rw first (check_entries-append run expected (suc n) es e rest (rw place at k))

pub lifecycle_receipts-parts :
    (run : String) (expected : Option String) (es chain : List Entry)
    → lifecycle_receipts run expected es ≡ ok chain
    → (check_entries run expected 1 es ≡ ok tt) × (chain ≡ es)
unfolding lifecycle_receipts
lifecycle_receipts-parts run expected es chain h =
    with_ok (check_entries run expected 1 es) _ h λ u checked e. (checked, sym (ok-injective e))

-- The entry that `append_receipt` writes.
abbrev pub entry_for : List Entry → Receipt → Entry
entry_for es receipt = record {
  sequence = length es + 1;
  named = receipt.action;
  is_regular = true;
  is_writable = false;
  receipt = receipt;
}

append_receipt-parts :
    (run : Run) (receipt : Receipt) (es : List Entry)
    → append_receipt run receipt ≡ ok es
    → es ≡ run.receipts ++ entry_for run.receipts receipt ∷ []
unfolding append_receipt
append_receipt-parts run receipt es h =
    with_ok (lifecycle_receipts run.agent_run_id none run.receipts) _ h λ chain checked e.
      let same = (lifecycle_receipts-parts run.agent_run_id none run.receipts chain checked).1 in
      sym (ok-injective e) ∙ ap (λ x. run.receipts ++ entry_for x receipt ∷ []) same

entry_for-checks :
    (run digest : String) (es : List Entry) (r : Receipt)
    → r.agent_run_id ≡ run
    → r.final_receipt_sha256 ≡ digest
    → length es < max_sequence
    → check_entry run (some digest) (1 + length es) (entry_for es r) ≡ ok tt
unfolding check_entry
entry_for-checks run digest es r same_run same_digest room =
    let named : leb (length es + 1) max_sequence ≡ true = ground arith in
    let place : (length es + 1 == 1 + length es) ≡ true = ground arith in
    rw (
      named,
      place,
      action_eq_refl r.action,
      same_run,
      str_eq_refl run,
      same_digest,
      str_eq_refl digest,
    )

-- The parts of a successful `record`.
pub record Recorded (run : Run) (action : ReviewAction) (actor reason now : String) (s : Sealed)
    (run' : Run) : Type 0 where
  pub checked : check_entries run.agent_run_id (some s.receipt_sha256) 1 run.receipts ≡ ok tt
  pub prior_allowed : allowed_prior action (action_of (last run.receipts)) ≡ true
  pub revision : Option String
  pub gates :
      effective_revision action s (last run.receipts) (not (opt_eq (some actor) s.executor))
      ≡ ok revision
  pub same_run : run'.agent_run_id ≡ run.agent_run_id
  pub same_seal : run'.seal ≡ some s
  pub same_override : run'.override ≡ run.override
  pub receipts :
      run'.receipts
      ≡ run.receipts
        ++ entry_for run.receipts (receipt_of run action actor reason now s revision) ∷ []

pub record_action-parts :
    (run : Run) (action : ReviewAction) (actor reason now : String) (s : Sealed) (run' : Run)
    → run.seal ≡ some s
    → record_action run action actor reason now ≡ ok run'
    → Recorded run action actor reason now s run'
unfolding record_action require_allowed_prior
record_action-parts run action actor reason now s run' sealed h =
    with_require (not (is_blank actor || is_blank reason)) blank_actor _ h λ _ h₁.
      with_ok (check_evidence run.agent_run_id s) _ (rw sealed at h₁) λ _ _ h₃.
        with_ok (lifecycle_receipts run.agent_run_id (some s.receipt_sha256) run.receipts) _ h₃
          λ chain read h₄.
            let parts =
              lifecycle_receipts-parts run.agent_run_id (some s.receipt_sha256) run.receipts chain
                read in
            with_require (allowed_prior action (action_of (last run.receipts)))
              (prior_error action (action_of (last run.receipts))) _ (rw parts.1 at h₄)
              λ may h₅.
                with_ok
                  (effective_revision action s (last run.receipts)
                    (not (opt_eq (some actor) s.executor)))
                  _ h₅
                  λ revision gates h₆.
                    with_ok (append_receipt run (receipt_of run action actor reason now s revision))
                      _ h₆
                      λ es appended e.
                        let result = ok-injective e in
                        record {
                          checked = parts.0;
                          prior_allowed = may;
                          revision = revision;
                          gates = gates;
                          same_run = sym (ap (λ r. r.agent_run_id) result);
                          same_seal = sym (ap (λ r. r.seal) result);
                          same_override = sym (ap (λ r. r.override) result);
                          receipts =
                              sym (ap (λ r. r.receipts) result)
                              ∙ append_receipt-parts run
                                  (receipt_of run action actor reason now s revision) es appended;
                        }

lifecycle_receipts-intro :
    (run : String) (expected : Option String) (es : List Entry)
    → check_entries run expected 1 es ≡ ok tt
    → lifecycle_receipts run expected es ≡ ok es
unfolding lifecycle_receipts
lifecycle_receipts-intro run expected es h = rw h

-- An action that is recorded behind fewer than 999999 receipts leaves a chain of receipts that reads
-- back whole against the same seal: the old receipts, and one new receipt of that action by that
-- actor behind them.
pub record_action-reads :
    (run : Run) (action : ReviewAction) (actor reason now : String) (s : Sealed) (run' : Run)
    → run.seal ≡ some s
    → length run.receipts < max_sequence
    → record_action run action actor reason now ≡ ok run'
    → (lifecycle_receipts run'.agent_run_id (some s.receipt_sha256) run'.receipts
        ≡ ok run'.receipts)
      × ((e : Entry) × (run'.receipts ≡ run.receipts ++ e ∷ [])
          × (e.receipt.action ≡ action)
          × (e.receipt.actor ≡ actor))
record_action-reads run action actor reason now s run' sealed room h =
    let p = record_action-parts run action actor reason now s run' sealed h in
    let receipt = receipt_of run action actor reason now s p.revision in
    let entry = entry_for run.receipts receipt in
    let entry_ok =
      entry_for-checks run.agent_run_id s.receipt_sha256 run.receipts receipt refl refl room in
    let all_ok =
      check_entries-append run.agent_run_id (some s.receipt_sha256) 1 run.receipts entry p.checked
        entry_ok in
    let reads = lifecycle_receipts-intro run.agent_run_id (some s.receipt_sha256) _ all_ok in
    (rw p.same_run (rw p.receipts reads), (entry, p.receipts, refl, refl))

pub after_review :
    (e : Entry) → allowed_prior accepted (action_of (some e)) ≡ true → e.receipt.action ≡ reviewed
unfolding allowed_prior
after_review e h = of e.receipt.action h
  where
    of : (a : ReviewAction) → allowed_prior accepted (some a) ≡ true → a ≡ reviewed
    of reviewed h = refl
    of accepted h = cc
    of rejected h = cc

-- After an acceptance no action is recorded any more.
pub record_action-accepted :
    (run : Run) (action : ReviewAction) (actor reason now : String) (s : Sealed) (e : Entry)
    (run' : Run)
    → run.seal ≡ some s
    → last run.receipts ≡ some e
    → e.receipt.action ≡ accepted
    → record_action run action actor reason now ≢ ok run'
unfolding allowed_prior
record_action-accepted run action actor reason now s e run' sealed latest is h =
    let p = record_action-parts run action actor reason now s run' sealed h in
    let allowed_now : allowed_prior action (some e.receipt.action) ≡ true =
      rw latest at p.prior_allowed in
    never action (rw is at allowed_now)
  where
    never : (a : ReviewAction) → allowed_prior a (some accepted) ≡ true → ⊥
    never reviewed h = cc
    never accepted h = cc
    never rejected h = cc
