-- ===== src/Examples/Messages.antt =====
-- A message log with a steer request and its acknowledgement.
use agent_workflow.Workflow.Ids.{validate_id}
use agent_workflow.Journal.{read_jsonl, transact_jsonl}
use agent_workflow.Base.{
  ℕ, ◌≤◌, ◌↔◌, String, ◌≡◌, refl, true, Option, none, some, List, [], ◌∷◌, ◌++◌, length, drop,
  str_eq, opt_eq, ok,
}
use agent_workflow.Messages.{
  Message, Externals, validate_message_log, validate_append_semantics, append_message,
  replay_messages, validate_message,
}
use agent_workflow.Messages.Log.{acks, validate_message_log-append, validate_message_log-acks}
use agent_workflow.Messages.Replayed.{
  numbered, replay_messages-drop, append_message-replay_messages,
}

abbrev ext : Externals
ext = record { is_uuid = λ s. true; bytes = λ m. 100 }

abbrev message_of : ℕ → String → String → String → String → Option String → Message
message_of sequence id direction kind content correlation = record {
  schema = "agent-workflow/agent-run-message/v1";
  sequence = sequence;
  message_id = id;
  agent_run_id = "run-1";
  timestamp = "now";
  direction = direction;
  kind = kind;
  actor = "host";
  content = content;
  correlation_id = correlation;
}

abbrev steer : Message
steer = message_of 1 "m1" "parent_to_child" "steer" "stop" none

abbrev ack : Message
ack = message_of 2 "m2" "child_to_parent" "ack" "ok" (some "m1")

abbrev log : List Message
log = steer ∷ ack ∷ []

log_is_valid : validate_message_log log ≡ ok tt
unfolding validate_message_log str_eq opt_eq
log_is_valid = refl

validate_message_log-append_example : (validate_message_log (steer ∷ ack ∷ []) ≡ ok tt) ↔ (
    (validate_message_log (steer ∷ []) ≡ ok tt)
    × (validate_append_semantics (steer ∷ []) ack ≡ ok tt))
validate_message_log-append_example = validate_message_log-append (steer ∷ []) ack

validate_message_log-acks_example : acks (some "m1") log ≤ 1
validate_message_log-acks_example = validate_message_log-acks (some "m1") log log_is_valid

replays : replay_messages ext 1 log ≡ ok (ack ∷ [])
unfolding replay_messages read_jsonl validate_message str_eq validate_id opt_eq
replays = refl

replay_messages-drop_example : ack ∷ [] ≡ drop 1 log
replay_messages-drop_example = replay_messages-drop ext 1 log (ack ∷ []) replays

appends : append_message ext ack (steer ∷ []) ≡ ok (ack, log)
unfolding append_message transact_jsonl str_eq validate_id opt_eq
appends = refl

append_message-replay_messages_example :
    (ack ≡ numbered ext ack (steer ∷ []))
    × (log ≡ (steer ∷ []) ++ ack ∷ [])
    × (replay_messages ext (length (steer ∷ [])) log ≡ ok (ack ∷ []))
append_message-replay_messages_example =
    append_message-replay_messages ext ack ack (steer ∷ []) log appends
