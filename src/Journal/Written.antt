-- ===== src/Journal/Written.antt =====
-- Proofs about transactions of journal.py whose decision is always to append.
use agent_workflow.Base.{
  ◌+◌, ◌≡◌, sym, ap, ◌∙◌, subst, true, Option, some, List, [], ◌∷◌, ◌++◌, length, Result, ok,
  with_ok, ok-injective,
}
use agent_workflow.Journal.{Domain, Limits, read_jsonl, append_record, transact_jsonl, in_sequence}
use agent_workflow.Journal.Append.{read_jsonl-parts, append_record-parts, read_jsonl-transact_jsonl}

-- The transaction wrote the record that it chose behind the old ones, and the file reads back.
pub transact_jsonl-written :
    {E R : Type 0} (d : Domain E R) (limits : Limits)
    (transaction : List R → Result E (R × Option R)) (chosen : List R → R)
    → ((existing : List R) (decision : R × Option R)
        → transaction existing ≡ ok decision
        → decision ≡ (chosen existing, some (chosen existing)))
    → ((existing : List R) (v r : R)
        → transaction existing ≡ ok (v, some r)
        → (d.validator r (length existing + 1) ≡ ok tt)
          × (in_sequence d.sequence r (length existing + 1) ≡ true))
    → (file file' : List R) (value : R)
    → transact_jsonl d limits transaction file ≡ ok (value, file')
    → (read_jsonl d limits file' ≡ ok file')
      × (file' ≡ file ++ chosen file ∷ [])
      × (value ≡ chosen file)
      × (transaction file ≡ ok (chosen file, some (chosen file)))
unfolding transact_jsonl
transact_jsonl-written d limits transaction chosen chooses valid file file' value h =
    let (reads, _) = read_jsonl-transact_jsonl d limits transaction file file' value valid h in
    with_ok (read_jsonl d limits file) _ h λ existing readable h₁.
      with_ok (transaction existing) _ h₁ λ decision decided h₂.
        let same : existing ≡ file = (read_jsonl-parts d limits file existing readable).2 in
        let is : decision ≡ (chosen file, some (chosen file)) =
          chooses existing decision decided ∙ ap (λ x. (chosen x, some (chosen x))) same in
        with_ok (append_record d limits file (chosen file)) _ (rw is at h₂) λ written appended e.
          let parts = append_record-parts d limits file written (chosen file) appended in
          let pair = ok-injective e in
          (
            reads,
            sym (ap (λ x. x.1) pair) ∙ parts.3,
            sym (ap (λ x. x.0) pair),
            subst (λ x. transaction x ≡ ok (chosen file, some (chosen file))) same
                (decided ∙ ap (λ x. ok x) is),
          )
