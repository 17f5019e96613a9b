-- ===== src/Examples/Cursors.antt =====
-- A consumer whose target keeps the ids of the effects that it has committed.
use agent_workflow.Workflow.Ids.{validate_id}
use agent_workflow.Base.{
  ℕ, String, ◌≡◌, ◌⊎◌, refl, true, Option, none, some, List, [], ◌∷◌, length, elem, elem_self,
  str_eq, str_eq_refl, opt_eq, if◌then◌else◌, Bool-cases, inl, inr, Result, ok, insert, lookup,
}
use agent_workflow.Messages as Log
use agent_workflow.Messages.{Message}
use agent_workflow.Cursors.{
  CursorError, Binding, Cursor, Evidence, Returned, Receipt, Externals, File, absent, written,
  receipt_from, validate_source_records, validate_cursor, build_disposition_evidence, check_message,
  empty_cursor, validate_disposition_evidence,
}
use agent_workflow.Cursors.Store.{
  read_unlocked, or_empty, duplicate, advanced, next_cursor, receipt_of, process,
  reconstruct_cursor,
}
use agent_workflow.Cursors.Store.Once.{IsNext, received, process-IsNext}
use agent_workflow.Cursors.Store.Crash.{crash, process-crash}
use agent_workflow.Cursors.Store.Duplicate.{process-duplicate}
use agent_workflow.Cursors.Store.Rebuild.{covered, last_id_from, reconstruct_cursor-covered}
use agent_workflow.Cursors.Store.Drain.{drain, drain-reaches}

abbrev ext : Externals
ext = record {
  messages = record { is_uuid = λ s. true; bytes = λ m. 100 };
  digest = λ m. m.content;
  cursor_is_valid = λ c. true;
  evidence_is_valid = λ e. true;
  is_token = λ s. true;
  now = "now";
}

abbrev binding : Binding
binding = record { consumer_id = "c"; identity_digest = "d"; source_journal_id = "j" }

abbrev message_of : ℕ → String → Message
message_of sequence id = record {
  schema = "agent-workflow/agent-run-message/v1";
  sequence = sequence;
  message_id = id;
  agent_run_id = "run-1";
  timestamp = "now";
  direction = "parent_to_child";
  kind = "steer";
  actor = "host";
  content = id;
  correlation_id = none;
}

abbrev source : List Message
source = message_of 1 "m1" ∷ message_of 2 "m2" ∷ []

-- An effect is committed under its message's id, once.
abbrev commit : List String → Message → List String × Result CursorError Returned
commit target m = (
  if elem m.message_id target then target else m.message_id ∷ target,
  ok (record {
    committed = true;
    receipt_id = "r";
    source_message_id = some m.message_id;
    source_message_digest = some m.content;
    effect_digest = none;
  }),
)

abbrev no_hook : Receipt → Result CursorError (Unit {0})
no_hook receipt = ok tt

commit-idempotent :
    (target : List String) (m : Message) → commit (commit target m).0 m ≡ commit target m
commit-idempotent target m = elim (Bool-cases (elem m.message_id target)) [
  | inl e ↦ rw e (rw e refl)
  | inr e ↦ rw e (rw (elem_self m.message_id target) refl)
]

abbrev first : Message
first = message_of 1 "m1"

abbrev state : File × List String
state = (written (next_cursor ext binding first "applied"), "m1" ∷ [])

abbrev receipt : Receipt
receipt = record {
  receipt_id = "r";
  source_message_id = "m1";
  source_message_digest = "m1";
  effect_digest = none;
}

abbrev evidence_of : ℕ → String → Evidence
evidence_of sequence id = record {
  consumer_id = "c";
  consumer_identity_digest = "d";
  source_journal_id = "j";
  source_sequence = sequence;
  source_message_id = id;
  source_message_digest = id;
  disposition = "applied";
  target_receipt_id = "r";
  updated_at = "now";
}

processes :
    process ext binding commit no_hook absent [] first "applied"
    ≡ (state, ok (advanced (next_cursor ext binding first "applied") receipt (evidence_of 1 "m1")))
unfolding process check_message Log.validate_message str_eq validate_id opt_eq empty_cursor
    receipt_from validate_cursor elem build_disposition_evidence
processes = refl

process-IsNext_example :
    ((process ext binding commit no_hook absent [] first "applied").0.0 ≡ absent)
    ⊎ (IsNext ext binding absent first
        × ((process ext binding commit no_hook absent [] first "applied").0.0
            ≡ written (next_cursor ext binding first "applied")))
process-IsNext_example = process-IsNext ext binding commit no_hook absent [] first "applied"

process-crash_example :
    let left = (process ext binding commit crash absent [] first "applied").0 in
    process ext binding commit no_hook left.0 left.1 first "applied"
    ≡ process ext binding commit no_hook absent [] first "applied"
process-crash_example =
    process-crash ext binding commit commit-idempotent no_hook absent [] first "applied"

process-duplicate_example :
    process ext binding commit crash state.0 state.1 first "rejected"
    ≡ (state, ok (duplicate (next_cursor ext binding first "applied")))
process-duplicate_example =
    process-duplicate ext binding commit commit no_hook crash absent [] first "applied" "rejected"
      state (next_cursor ext binding first "applied") receipt (evidence_of 1 "m1") processes

rebuilds :
    reconstruct_cursor ext binding source (evidence_of 1 "m1" ∷ [])
    ≡ ok (next_cursor ext binding first "applied")
unfolding reconstruct_cursor validate_source_records Log.validate_message str_eq validate_id lookup
    insert validate_disposition_evidence next_cursor
rebuilds = refl

reconstruct_cursor-covered_example :
    ((next_cursor ext binding first "applied").last_sequence
      ≡ length (covered (evidence_of 1 "m1" ∷ []) source))
    × ((next_cursor ext binding first "applied").last_message_id
        ≡ last_id_from none (covered (evidence_of 1 "m1" ∷ []) source))
reconstruct_cursor-covered_example =
    reconstruct_cursor-covered ext binding source (evidence_of 1 "m1" ∷ [])
      (next_cursor ext binding first "applied") rebuilds

commits :
    (file : File) (target : List String) (m : Message)
    → (r : Receipt) × (received ext binding commit no_hook file target m "applied" ≡ ok r)
unfolding receipt_of receipt_from opt_eq
commits file target m = simp str_eq_refl (
  record {
    receipt_id = "r";
    source_message_id = m.message_id;
    source_message_digest = m.content;
    effect_digest = none;
  },
  refl,
)

fits : (m : Message) → validate_cursor ext (next_cursor ext binding m "applied") binding ≡ ok tt
unfolding validate_cursor next_cursor str_eq empty_cursor
fits m = refl

source_is_valid : validate_source_records ext source ≡ ok tt
unfolding validate_source_records Log.validate_message str_eq validate_id lookup insert
source_is_valid = refl

drain-reaches_example :
    (current : Option Cursor) × (read_unlocked ext binding
        (drain ext binding commit no_hook "applied" absent [] source).0
      ≡ ok current)
    × ((or_empty ext binding current).last_sequence ≡ length source)
drain-reaches_example =
    drain-reaches ext binding commit no_hook "applied" commits fits [] source source_is_valid
