-- ===== src/Lifecycle/Approval/Forced.antt =====
-- Proofs about `force_accept` and `is_approved` of approval.py.
use agent_workflow.Base.{
  String, ◌≡◌, refl, sym, ap, Bool, true, false, not, ◌||◌, some, last, str_eq, str_eq_refl, ok,
  with_ok, with_require, ok-injective,
}
use agent_workflow.Lifecycle.Receipts.{
  blank_actor, acknowledgement_required, already_overridden, another_run, not_terminal,
  already_terminal, lifecycle_receipts,
}
use agent_workflow.Lifecycle.Operations.{
  Sealed, Override, Run, is_blank, action_of, acceptance_revision,
}
use agent_workflow.Lifecycle.Operations.Chain.{lifecycle_receipts-parts}
use agent_workflow.Lifecycle.Approval.{
  force_accepted, lifecycle_disposition, is_approved, is_terminal_status, no_override,
  accepted_already, force_accept,
}

abbrev override_of : Sealed → Override
override_of s = record { final_receipt_sha256 = s.receipt_sha256 }

-- The run after an override of its seal `s`.
abbrev overridden : Run → Sealed → Run
overridden run s = record run {
  seal = some s;
  override = some (override_of s);
  disposition = some "force-accepted";
}

overridden-lifecycle_disposition :
    (run : Run) (s : Sealed) (revision : String)
    → str_eq s.receipt_run run.agent_run_id ≡ true
    → acceptance_revision s.head_revision ≡ ok revision
    → lifecycle_disposition (overridden run s) ≡ ok (some (force_accepted (override_of s) revision))
unfolding lifecycle_disposition
overridden-lifecycle_disposition run s revision same_run head =
    rw same_run (rw head (rw (str_eq_refl s.receipt_sha256) refl))

overridden-is_approved :
    (run : Run) (s : Sealed) (revision : String)
    → str_eq s.receipt_run run.agent_run_id ≡ true
    → acceptance_revision s.head_revision ≡ ok revision
    → is_approved (overridden run s) ≡ true
unfolding is_approved
overridden-is_approved run s revision same_run head =
    rw (is_approved, overridden-lifecycle_disposition run s revision same_run head) refl

-- A forced acceptance of a run whose completion has a head revision approves the run. It is only
-- taken of a run in a terminal status, with no override, whose last receipt is no acceptance, and
-- it leaves the receipts as they were.
pub force_accept-is_approved :
    (run : Run) (actor reason acknowledgement : String) (s : Sealed) (revision : String)
    (run' : Run)
    → run.seal ≡ some s
    → acceptance_revision s.head_revision ≡ ok revision
    → force_accept run actor reason acknowledgement ≡ ok run'
    → (is_approved run' ≡ true)
      × (is_terminal_status s.status ≡ true)
      × (no_override run.override ≡ true)
      × (accepted_already (action_of (last run.receipts)) ≡ false)
      × (run'.receipts ≡ run.receipts)
unfolding force_accept
force_accept-is_approved run actor reason acknowledgement s revision run' sealed head h =
    with_require (not (is_blank actor || is_blank reason)) blank_actor _ h λ _ h₁.
      with_require (str_eq acknowledgement "FORCE-ACCEPT") acknowledgement_required _ h₁ λ _ h₂.
        with_require (no_override run.override) already_overridden _ h₂ λ fresh h₃.
          with_require (str_eq s.receipt_run run.agent_run_id) another_run _ (rw sealed at h₃)
            λ same_run h₄.
              with_require (str_eq s.status_run run.agent_run_id) another_run _ h₄ λ _ h₅.
                with_require (is_terminal_status s.status) not_terminal _ h₅ λ terminal h₆.
                  with_ok (lifecycle_receipts run.agent_run_id (some s.receipt_sha256) run.receipts)
                    _ h₆
                    λ chain read h₇.
                      let whole =
                        (lifecycle_receipts-parts run.agent_run_id (some s.receipt_sha256)
                          run.receipts chain read).1 in
                      with_require (not (accepted_already (action_of (last run.receipts))))
                        already_terminal _ (rw whole at h₇)
                        λ open_still e.
                          let result = ok-injective e in
                          (
                            rw (← result) (overridden-is_approved run s revision same_run head),
                            terminal,
                            fresh,
                            flip (accepted_already (action_of (last run.receipts))) open_still,
                            sym (ap (λ r. r.receipts) result),
                          )
  where
    flip : (b : Bool) → not b ≡ true → b ≡ false
    flip true k = cc
    flip false k = refl
