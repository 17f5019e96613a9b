-- ===== src/Scheduler/Children.antt =====
-- scheduler.py: `_child_run_exists` and `_terminal_child_outcome`, over what the directory of an
-- Agent Run shows. Reading and verifying the sealed files is not modelled: a field is `none` where
-- the read or the verification raises.
use agent_workflow.Base.{
  String, Bool, ◌&&◌, Option, none, some, if◌then◌else◌, str_eq, opt_eq, Result, ok, err, ◌>>◌,
  require,
}
use agent_workflow.Workflow.Types.{NodeState, completed, failed}

-- The sealed status, completion and collection contracts of a verified receipt.
pub record Evidence : Type 0 where
  pub status_run : String
  pub status : String
  pub completion_run : String
  pub completion_result : String
  pub validation_status : String

pub record Child : Type 0 where
  pub is_directory : Bool
  pub has_receipt : Bool
  pub seal_run : Option String
  pub provenance_run : Option String
  pub evidence : Option Evidence

-- `_child_run_exists`: a verified receipt decides, and without one the provenance does.
unfoldable pub child_run_exists : Child → String → Bool
child_run_exists c run = c.is_directory && elim (if c.has_receipt then c.seal_run else none) [
  | some sealed ↦ str_eq sealed run
  | none ↦ opt_eq c.provenance_run (some run)
]

pub data EvidenceError : Type 0 where
  unverified another_run : EvidenceError

-- The first part of the result of `_terminal_child_outcome`; `none` while the child is not sealed.
unfoldable pub judge : Evidence → NodeState
judge e =
    if str_eq e.status "completed"
      && str_eq e.completion_result "completed"
      && str_eq e.validation_status "valid"
    then completed
    else failed

abbrev pub check_evidence : String → Option Evidence → Result EvidenceError (Option NodeState)
check_evidence run none = err unverified
check_evidence run (some e) = do
  require (str_eq e.status_run run && str_eq e.completion_run run) another_run
  ok (some (judge e))

abbrev pub check_seal :
    String → Option String → Option Evidence → Result EvidenceError (Option NodeState)
check_seal run none evidence = err unverified
check_seal run (some sealed) evidence = do
  require (str_eq sealed run) another_run
  check_evidence run evidence

unfoldable pub terminal_child_outcome : Child → String → Result EvidenceError (Option NodeState)
unfolding judge
terminal_child_outcome c run =
    if c.has_receipt then check_seal run c.seal_run c.evidence else ok none
