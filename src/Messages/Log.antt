-- ===== src/Messages/Log.antt =====
-- Proofs about the rules of the message log and of an append in messages.py.
use agent_workflow.Base.{
  ℕ, ◌+◌, ◌≤◌, String, ◌≡◌, ◌↔◌, refl, sym, ap, ◌∙◌, subst, true, false, not, Option, some, List,
  [], ◌∷◌, ◌++◌, length, append_nil, append_assoc, filter, any, str_eq, opt_eq, opt_eq→eq,
  Bool-cases, inl, inr, if◌then◌else◌, Result, ok, err, ◌>>◌, require-true, with_ok, with_require,
  arith,
}
use agent_workflow.Messages.{
  MessageError, mixed_runs, duplicate_id, steer_missing, already_acknowledged, other_run,
  append_duplicate, append_steer_missing, append_acknowledged, Message, same_run, has_id, kind_of,
  is_ack_of, check_ack, check_logged, check_log, validate_message_log, validate_append_semantics,
}

-- What an acknowledgement refers to, and that it is the first to do so.
abbrev IsAcknowledgement : List Message → Message → Type 0
IsAcknowledgement prior m =
    (opt_eq (kind_of m.correlation_id prior) (some "steer") ≡ true)
    × (any (is_ack_of m.correlation_id) prior ≡ false)

check_ack-IsAcknowledgement :
    (missing twice : MessageError) (prior : List Message) (m : Message) {u : Unit {0}}
    → check_ack missing twice prior m ≡ ok u
    → str_eq m.kind "ack" ≡ true
    → IsAcknowledgement prior m
unfolding check_ack
check_ack-IsAcknowledgement missing twice prior m h is_ack =
    with_require (opt_eq (kind_of m.correlation_id prior) (some "steer")) missing _
      (rw (check_ack, is_ack) at h)
      λ there h₁.
        let first = require-true (not (any (is_ack_of m.correlation_id) prior)) twice h₁ in
        (there, ground arith)

-- The rules do not depend on the errors that they raise.
check_ack-other :
    (missing twice missing' twice' : MessageError) (prior : List Message) (m : Message)
    {u : Unit {0}}
    → check_ack missing twice prior m ≡ ok u
    → check_ack missing' twice' prior m ≡ ok tt
unfolding check_ack
check_ack-other missing twice missing' twice' prior m h = elim (Bool-cases (str_eq m.kind "ack")) [
  | inl e ↦
      let (there, first) = check_ack-IsAcknowledgement missing twice prior m h e in
      rw (check_ack, e) (rw (there, first) refl)
  | inr e ↦ rw (check_ack, e) refl
]

check_logged-append :
    (prior : List Message) (m : Message)
    → (check_logged prior m ≡ ok tt) ↔ (validate_append_semantics prior m ≡ ok tt)
unfolding check_logged validate_append_semantics
check_logged-append prior m = (
  λ h. with_require (same_run prior m) mixed_runs _ h λ a h₁.
      with_require (not (has_id prior m)) duplicate_id _ h₁ λ b h₂.
        rw (a, b)
          (check_ack-other steer_missing already_acknowledged append_steer_missing
            append_acknowledged prior m h₂),
  λ h. with_require (same_run prior m) other_run _ h λ a h₁.
      with_require (not (has_id prior m)) append_duplicate _ h₁ λ b h₂.
        rw (a, b)
          (check_ack-other append_steer_missing append_acknowledged steer_missing
            already_acknowledged prior m h₂),
)

then_unit : (r : Result MessageError (Unit {0})) → (r >> ok tt) ≡ r
then_unit (ok u) = refl
then_unit (err e) = refl

then_assoc : (r s t : Result MessageError (Unit {0})) → (r >> (s >> t)) ≡ ((r >> s) >> t)
then_assoc (ok u) s t = refl
then_assoc (err e) s t = refl

-- The loop over a log that is one message longer.
check_log-append :
    (prior xs : List Message) (m : Message)
    → check_log prior (xs ++ m ∷ []) ≡ (check_log prior xs >> check_logged (prior ++ xs) m)
unfolding check_log
check_log-append prior [] m = rw (append_nil prior) (then_unit (check_logged prior m))
check_log-append prior (x ∷ xs) m =
    ap (λ r. check_logged prior x >> r)
      (check_log-append (prior ++ x ∷ []) xs m
        ∙ ap (λ z. check_log (prior ++ x ∷ []) xs >> check_logged z m) (append_assoc prior x xs))
    ∙ then_assoc (check_logged prior x) (check_log (prior ++ x ∷ []) xs)
        (check_logged (prior ++ x ∷ xs) m)

-- A log with one more message is valid exactly if the log is valid and the rules of an append accept
-- the message behind it.
pub validate_message_log-append :
    (messages : List Message) (m : Message)
    → (validate_message_log (messages ++ m ∷ []) ≡ ok tt)
      ↔ ((validate_message_log messages ≡ ok tt) × (validate_append_semantics messages m ≡ ok tt))
unfolding validate_message_log
validate_message_log-append messages m = (
  λ h.
      with_ok (check_log [] messages) _ (sym (check_log-append [] messages m) ∙ h)
        λ _ valid accepted. (valid, (check_logged-append messages m).0 accepted),
  λ h. check_log-append [] messages m ∙ rw h.0 ((check_logged-append messages m).1 h.1),
)

check_ack-fresh :
    (missing twice : MessageError) (prior : List Message) (m : Message) (id : Option String)
    → check_ack missing twice prior m ≡ ok tt
    → is_ack_of id m ≡ true
    → any (is_ack_of id) prior ≡ false
unfolding is_ack_of
check_ack-fresh missing twice prior m id h acks =
    let same : m.correlation_id ≡ id = opt_eq→eq m.correlation_id id (ground arith) in
    subst (λ z. any (is_ack_of z) prior ≡ false) same
      (check_ack-IsAcknowledgement missing twice prior m h (ground arith)).1

-- The acknowledgements of one id in a log.
abbrev pub acks : Option String → List Message → ℕ
acks id messages = length (filter (is_ack_of id) messages)

acks-none :
    (id : Option String) (messages : List Message)
    → any (is_ack_of id) messages ≡ false
    → acks id messages ≡ 0
acks-none id [] h = refl
acks-none id (m ∷ messages) h = ground (arith, acks-none id messages)

acks-append :
    (id : Option String) (messages : List Message) (m : Message)
    → acks id (messages ++ m ∷ []) ≡ acks id messages + (if is_ack_of id m then 1 else 0)
acks-append id [] m = ground arith
acks-append id (x ∷ messages) m = ground (arith, acks-append id messages m)

check_log-acks :
    (id : Option String) (prior messages : List Message)
    → check_log prior messages ≡ ok tt
    → acks id prior ≤ 1
    → acks id (prior ++ messages) ≤ 1
unfolding check_log check_logged
check_log-acks id prior [] h few = rw (append_nil prior) few
check_log-acks id prior (m ∷ messages) h few = with_ok (check_logged prior m) _ h λ _ logged rest.
    with_require (same_run prior m) mixed_runs _ logged λ _ h₁.
      with_require (not (has_id prior m)) duplicate_id _ h₁ λ _ h₂.
        let few' : acks id (prior ++ m ∷ []) ≤ 1 = elim (Bool-cases (is_ack_of id m)) [
          | inl e ↦
              let fresh =
                acks-none id prior
                  (check_ack-fresh steer_missing already_acknowledged prior m id h₂ e) in
              rw (acks-append id prior m) (rw e (omega (arith, fresh)))
          | inr e ↦ rw (acks-append id prior m) (rw e (omega (arith, few)))
        ] in
        subst (λ z. acks id z ≤ 1) (append_assoc prior m messages)
          (check_log-acks id (prior ++ m ∷ []) messages rest few')

check_log-at :
    (before prior : List Message) (m : Message) (rest : List Message)
    → check_log before (prior ++ m ∷ rest) ≡ ok tt
    → check_logged (before ++ prior) m ≡ ok tt
unfolding check_log
check_log-at before [] m rest h =
    with_ok (check_logged before m) _ h λ _ first _. rw (append_nil before) first
check_log-at before (x ∷ prior) m rest h = with_ok (check_logged before x) _ h λ _ _ h₁.
    subst (λ z. check_logged z m ≡ ok tt) (append_assoc before x prior)
      (check_log-at (before ++ x ∷ []) prior m rest h₁)

-- In a valid log no id is acknowledged twice, whatever the id.
pub validate_message_log-acks :
    (id : Option String) (messages : List Message)
    → validate_message_log messages ≡ ok tt
    → acks id messages ≤ 1
unfolding validate_message_log
validate_message_log-acks id messages h = check_log-acks id [] messages h (omega arith)

-- In a valid log every acknowledgement stands behind the steer request that it refers to.
validate_message_log-IsAcknowledgement :
    (prior : List Message) (m : Message) (rest : List Message)
    → validate_message_log (prior ++ m ∷ rest) ≡ ok tt
    → str_eq m.kind "ack" ≡ true
    → IsAcknowledgement prior m
unfolding validate_message_log check_logged
validate_message_log-IsAcknowledgement prior m rest h is_ack =
    with_require (same_run prior m) mixed_runs _ (check_log-at [] prior m rest h) λ _ h₁.
      with_require (not (has_id prior m)) duplicate_id _ h₁
        λ _ h₂. check_ack-IsAcknowledgement steer_missing already_acknowledged prior m h₂ is_ack
