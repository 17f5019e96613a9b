-- ===== src/Messages/Replayed.antt =====
-- Proofs about `replay_messages` and `append_message` of messages.py.
use agent_workflow.Base.{
  ℕ, zero, suc, ◌+◌, ◌-◌, ◌≡◌, refl, sym, ap, ◌∙◌, Bool, true, Option, some, List, [], ◌∷◌, ◌++◌,
  length, drop, drop-length, filter, ltb, leb, ◌==◌, Bool-cases, inl, inr, ok, ok-injective,
  with_ok, with_require, arith,
}
use agent_workflow.Journal.{
  default_limits, decode_record, decode_jsonl, read_jsonl, record_too_large, sequence_mismatch,
  in_sequence,
}
use agent_workflow.Journal.Append.{read_jsonl-parts}
use agent_workflow.Journal.Written.{transact_jsonl-written}
use agent_workflow.Messages.{
  journal, other_run, Message, Externals, validate_message, validate_message_log,
  validate_append_semantics, all_of_run, messages_domain, decide_message, append_message,
  replay_messages,
}
use agent_workflow.Messages.Log.{validate_message_log-append}

abbrev is_after : ℕ → Message → Bool
is_after n m = ltb n m.sequence

module _ (ext : Externals) where
  decode_record-sequence :
      (m : Message) (line : ℕ) {u : Unit {0}}
      → decode_record (messages_domain ext) default_limits m line ≡ ok u
      → m.sequence ≡ line
  unfolding decode_record
  decode_record-sequence m line h =
      with_require (leb (ext.bytes m - 1) 131072) (journal record_too_large) _ h λ _ h₁.
        with_require (m.sequence == line) (journal sequence_mismatch) _ h₁ λ same _. ground arith

  -- A decoded journal counts its lines, so the messages after a number are those behind its place.
  decode_jsonl-drop :
      (place n : ℕ) (messages : List Message)
      → decode_jsonl (messages_domain ext) default_limits (suc place) messages ≡ ok tt
      → filter (is_after n) messages ≡ drop (n - place) messages
  unfolding decode_jsonl
  decode_jsonl-drop place n [] h = drop_nil (n - place)
    where
      drop_nil : (k : ℕ) → ◌≡◌ {A = List Message} [] (drop k [])
      drop_nil zero = refl
      drop_nil (suc k) = refl
  decode_jsonl-drop place n (m ∷ messages) h =
      with_ok (decode_record (messages_domain ext) default_limits m (suc place)) _ h λ _ first rest.
        let here : m.sequence ≡ suc place = decode_record-sequence m (suc place) first in
        let later = decode_jsonl-drop (suc place) n messages rest in
        elim (Bool-cases (ltb n m.sequence)) [
          | inl e ↦
              let start : n - place ≡ 0 = ground arith in
              let start' : n - suc place ≡ 0 = omega (arith, start) in
              rw e (rw start (ap (λ z. m ∷ z) (later ∙ ap (λ k. drop k messages) start')))
          | inr e ↦
              let step : n - place ≡ suc (n - suc place) = ground arith in rw e (rw step later)
        ]

  -- What a replay returns of a log: all behind the given number, and nothing else.
  pub replay_messages-drop :
      (after : ℕ) (file seen : List Message)
      → replay_messages ext after file ≡ ok seen
      → seen ≡ drop after file
  unfolding replay_messages
  replay_messages-drop after file seen h =
      with_ok (read_jsonl (messages_domain ext) default_limits file) _ h λ messages readable h₁.
        with_ok (validate_message_log messages) _ h₁ λ _ _ e.
          let (_, decoded, same) =
            read_jsonl-parts (messages_domain ext) default_limits file messages readable in
          sym (ok-injective e)
          ∙ ap (filter (is_after after)) same
          ∙ decode_jsonl-drop 0 after file decoded
          ∙ ap (λ k. drop k file) (omega arith)

  abbrev pub numbered : Message → List Message → Message
  numbered m file = record m { sequence = length file + 1 }

  decide_message-numbered :
      (m : Message) (existing : List Message) (decision : Message × Option Message)
      → decide_message ext m existing ≡ ok decision
      → decision ≡ (numbered m existing, some (numbered m existing))
  unfolding decide_message
  decide_message-numbered m existing decision h =
      with_ok (validate_message_log existing) _ h λ _ _ h₁.
        with_require (all_of_run m.agent_run_id existing) other_run _ h₁ λ _ h₂.
          with_ok (validate_message ext (numbered m existing) (some (length existing + 1))) _ h₂
            λ _ _ h₃.
              with_ok (validate_append_semantics existing (numbered m existing)) _ h₃
                λ _ _ e. sym (ok-injective e)

  decide_message-valid :
      (m : Message) (existing : List Message) (v r : Message)
      → decide_message ext m existing ≡ ok (v, some r)
      → (validate_message ext r (some (length existing + 1)) ≡ ok tt)
        × (in_sequence (some (λ (x : Message). x.sequence)) r (length existing + 1) ≡ true)
  unfolding decide_message
  decide_message-valid m existing v r h = with_ok (validate_message_log existing) _ h λ _ _ h₁.
      with_require (all_of_run m.agent_run_id existing) other_run _ h₁ λ _ h₂.
        with_ok (validate_message ext (numbered m existing) (some (length existing + 1))) _ h₂
          λ _ valid h₃.
            with_ok (validate_append_semantics existing (numbered m existing)) _ h₃ λ _ _ e.
              let same : numbered m existing ≡ r = cc in
              (rw (← same) valid, rw (← same) (ground arith))

  decide_message-log :
      (m : Message) (existing : List Message) {decision : Message × Option Message}
      → decide_message ext m existing ≡ ok decision
      → validate_message_log (existing ++ numbered m existing ∷ []) ≡ ok tt
  unfolding decide_message
  decide_message-log m existing h = with_ok (validate_message_log existing) _ h λ _ valid h₁.
      with_require (all_of_run m.agent_run_id existing) other_run _ h₁ λ _ h₂.
        with_ok (validate_message ext (numbered m existing) (some (length existing + 1))) _ h₂
          λ _ _ h₃.
            with_ok (validate_append_semantics existing (numbered m existing)) _ h₃ λ _ fits _.
              (validate_message_log-append existing (numbered m existing)).1 (valid, fits)

  -- A message that is appended gets the next number, stands behind the old ones, and a replay from
  -- the old end returns it alone, whatever was read before: the log stays valid as a whole.
  pub append_message-replay_messages :
      (m value : Message) (file file' : List Message)
      → append_message ext m file ≡ ok (value, file')
      → (value ≡ numbered m file)
        × (file' ≡ file ++ value ∷ [])
        × (replay_messages ext (length file) file' ≡ ok (value ∷ []))
  unfolding append_message replay_messages
  append_message-replay_messages m value file file' h =
      let d = messages_domain ext in
      let (reads, longer, is, decided) =
        transact_jsonl-written d default_limits (decide_message ext m) (numbered m)
          (decide_message-numbered m) (decide_message-valid m) file file' value h in
      let valid : validate_message_log file' ≡ ok tt =
        ap validate_message_log longer ∙ decide_message-log m file decided in
      let (_, decoded, _) = read_jsonl-parts d default_limits file' file' reads in
      let suffix : filter (is_after (length file)) file' ≡ value ∷ [] =
        decode_jsonl-drop 0 (length file) file' decoded
        ∙ ap (λ k. drop k file') (omega arith)
        ∙ ap (drop (length file)) longer
        ∙ drop-length file (numbered m file ∷ [])
        ∙ ap (λ z. z ∷ []) (sym is) in
      (is, longer ∙ ap (λ z. file ++ z ∷ []) (sym is), rw (reads, valid, suffix) refl)
