-- ===== src/Messages.antt =====
-- messages.py: the records of a run's message log, their validation, `append_message` and
-- `replay_messages`. That the fields of a record are exactly the known ones, with their JSON types,
-- is in its type; the message log's path and links are not modelled.
pub mod Log
pub mod Replayed
use Prim.Native.Char.{code}
use agent_workflow.Base.{
  ℕ, zero, suc, ◌+◌, String, Bool, true, false, not, ◌&&◌, ◌||◌, Option, none, some, List, [], ◌∷◌,
  ◌++◌, length, filter, any, leb, ltb, ◌==◌, str_eq, opt_eq, if◌then◌else◌, Result, ok, err, ◌>>=◌,
  ◌>>◌, require,
}
use agent_workflow.Journal.{JournalError, Domain, default_limits, read_jsonl, transact_jsonl}
use agent_workflow.Workflow.Ids.{validate_id}

-- One constructor for each message of the file's WorkflowErrors.
pub data MessageError : Type 0 where
  unsupported_schema sequence_invalid sequence_mismatch uuid_invalid run_invalid actor_invalid :
      MessageError
  timestamp_empty direction_invalid kind_invalid direction_mismatch content_empty : MessageError
  content_too_long correlation_required correlation_refused : MessageError
  mixed_runs duplicate_id steer_missing already_acknowledged : MessageError
  other_run append_duplicate append_steer_missing append_acknowledged : MessageError
  journal : JournalError → MessageError

pub record Message : Type 0 where
  pub schema : String
  pub sequence : ℕ
  pub message_id : String
  pub agent_run_id : String
  pub timestamp : String
  pub direction : String
  pub kind : String
  pub actor : String
  pub content : String
  pub correlation_id : Option String

-- The `uuid` module's test for a canonical UUID, and the length of a record's JSON line.
pub record Externals : Type 0 where
  pub is_uuid : String → Bool
  pub bytes : Message → ℕ

abbrev pub text_length : String → ℕ
text_length String.[] = 0
text_length (String.◌∷◌ c s) = suc (text_length s)

-- _DIRECTIONS, _KINDS and _KIND_DIRECTIONS
abbrev pub is_direction : String → Bool
is_direction s = str_eq s "parent_to_child" || str_eq s "child_to_parent"

abbrev pub is_kind : String → Bool
is_kind s =
    str_eq s "steer"
    || str_eq s "progress"
    || str_eq s "ack"
    || str_eq s "error"
    || str_eq s "task_complete"

abbrev pub kind_direction : String → String
kind_direction kind = if str_eq kind "steer" then "parent_to_child" else "child_to_parent"

abbrev pub is_none {ℓ} : {A : Type ℓ} → Option A → Bool
is_none none = true
is_none (some x) = false

abbrev pub uuid_or_none : Externals → Option String → Bool
uuid_or_none ext none = true
uuid_or_none ext (some s) = ext.is_uuid s

abbrev pub expects : Option ℕ → ℕ → Bool
expects none sequence = true
expects (some n) sequence = sequence == n

unfoldable pub validate_message : Externals → Message → Option ℕ → Result MessageError (Unit {0})
validate_message ext m expected_sequence = do
  require (str_eq m.schema "agent-workflow/agent-run-message/v1") unsupported_schema
  require (leb 1 m.sequence) sequence_invalid
  require (expects expected_sequence m.sequence) sequence_mismatch
  require (ext.is_uuid m.message_id) uuid_invalid
  require (validate_id m.agent_run_id) run_invalid
  require (validate_id m.actor) actor_invalid
  require (not (str_eq m.timestamp "")) timestamp_empty
  require (is_direction m.direction) direction_invalid
  require (is_kind m.kind) kind_invalid
  require (str_eq m.direction (kind_direction m.kind)) direction_mismatch
  require (not (str_eq m.content "")) content_empty
  require (leb (text_length m.content) 16384) content_too_long
  require (uuid_or_none ext m.correlation_id) uuid_invalid
  require (not (str_eq m.kind "ack" && is_none m.correlation_id)) correlation_required
  require (str_eq m.kind "ack" || str_eq m.kind "error" || is_none m.correlation_id)
      correlation_refused

-- `prior and message["agent_run_id"] != prior[0]["agent_run_id"]`, negated.
unfoldable pub same_run : List Message → Message → Bool
same_run [] m = true
same_run (first ∷ prior) m = str_eq m.agent_run_id first.agent_run_id

unfoldable pub has_id : List Message → Message → Bool
has_id prior m = any (λ item. str_eq item.message_id m.message_id) prior

-- The kind of the first message with the id.
unfoldable pub kind_of : Option String → List Message → Option String
kind_of id [] = none
kind_of id (m ∷ ms) = if opt_eq (some m.message_id) id then some m.kind else kind_of id ms

unfoldable pub is_ack_of : Option String → Message → Bool
is_ack_of id m = str_eq m.kind "ack" && opt_eq m.correlation_id id

-- The rules of an acknowledgement, with the errors of its two callers.
unfoldable pub check_ack :
    MessageError → MessageError → List Message → Message → Result MessageError (Unit {0})
unfolding kind_of is_ack_of
check_ack missing twice prior m = elim (str_eq m.kind "ack") [
  | false ↦ ok tt
  | true ↦ do
    require (opt_eq (kind_of m.correlation_id prior) (some "steer")) missing
    require (not (any (is_ack_of m.correlation_id) prior)) twice
]

-- The body of the loop of `_validate_message_log`.
unfoldable pub check_logged : List Message → Message → Result MessageError (Unit {0})
unfolding same_run has_id check_ack
check_logged prior m = do
  require (same_run prior m) mixed_runs
  require (not (has_id prior m)) duplicate_id
  check_ack steer_missing already_acknowledged prior m

unfoldable pub check_log : List Message → List Message → Result MessageError (Unit {0})
unfolding check_logged
check_log prior [] = ok tt
check_log prior (m ∷ messages) = check_logged prior m >> check_log (prior ++ m ∷ []) messages

unfoldable pub validate_message_log : List Message → Result MessageError (Unit {0})
unfolding check_log
validate_message_log messages = check_log [] messages

unfoldable pub validate_append_semantics : List Message → Message → Result MessageError (Unit {0})
unfolding same_run has_id check_ack
validate_append_semantics existing m = do
  require (same_run existing m) other_run
  require (not (has_id existing m)) append_duplicate
  check_ack append_steer_missing append_acknowledged existing m

abbrev pub messages_domain : Externals → Domain MessageError Message
messages_domain ext = record {
  bytes = ext.bytes;
  sequence = some (λ m. m.sequence);
  validator = λ m line. validate_message ext m (some line);
  raised = journal;
}

-- `any(item["agent_run_id"] != agent_run_id for item in existing)`, negated.
unfoldable pub all_of_run : String → List Message → Bool
all_of_run run [] = true
all_of_run run (m ∷ ms) = str_eq m.agent_run_id run && all_of_run run ms

-- `decide`: the message gets its place in the log.
unfoldable pub decide_message :
    Externals → Message → List Message → Result MessageError (Message × Option Message)
unfolding validate_message validate_message_log validate_append_semantics all_of_run
decide_message ext m existing = do
  validate_message_log existing
  require (all_of_run m.agent_run_id existing) other_run
  let numbered = record m { sequence = length existing + 1 }
  validate_message ext numbered (some (length existing + 1))
  validate_append_semantics existing numbered
  ok (numbered, some numbered)

unfoldable pub append_message :
    Externals → Message → List Message → Result MessageError (Message × List Message)
unfolding decide_message
append_message ext m file =
    transact_jsonl (messages_domain ext) default_limits (decide_message ext m) file

unfoldable pub replay_messages : Externals → ℕ → List Message → Result MessageError (List Message)
unfolding validate_message_log
replay_messages ext after_sequence file = do
  messages ← read_jsonl (messages_domain ext) default_limits file
  validate_message_log messages
  ok (filter (λ m. ltb after_sequence m.sequence) messages)
