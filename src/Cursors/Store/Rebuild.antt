-- ===== src/Cursors/Store/Rebuild.antt =====
-- Proofs about `reconstruct_cursor` of consumer_cursors.py.
use agent_workflow.Base.{
  ℕ, suc, ◌+◌, String, ◌≡◌, refl, sym, ap, ◌∙◌, Bool, true, false, ◌||◌, Option, none, some, List,
  [], ◌∷◌, length, any, ◌==◌, leb, str_eq, Bool-cases, Option-cases, inl, inr, if◌then◌else◌, Dict,
  lookup, insert, lookup-insert, ok, Result-cases, ok-injective, with_ok, with_require, arith,
}
use agent_workflow.Messages.{
  Message, validate_message, unsupported_schema, sequence_invalid, sequence_mismatch,
}
use agent_workflow.Cursors.{
  too_many_records, too_much_evidence, evidence_digest, evidence_sequence, rebuilt_invalid, Binding,
  Cursor, Evidence, Externals, check_message, check_new, validate_from, validate_source_records,
  empty_cursor, validate_disposition_evidence,
}
use agent_workflow.Cursors.Store.{index_evidence, committed_at, rebuild, reconstruct_cursor}

abbrev pub is_some {ℓ} : {A : Type ℓ} → Option A → Bool
is_some none = false
is_some (some x) = true

-- Some evidence names the record.
abbrev pub has_evidence : List Evidence → Message → Bool
has_evidence evidence m = any (λ e. str_eq e.source_message_id m.message_id) evidence

-- The records before the first one without evidence.
abbrev pub covered : List Evidence → List Message → List Message
covered evidence [] = []
covered evidence (m ∷ records) =
    if has_evidence evidence m then m ∷ covered evidence records else []

abbrev pub last_id_from : Option String → List Message → Option String
last_id_from id [] = id
last_id_from id (m ∷ records) = last_id_from (some m.message_id) records

is_some-insert :
    (k id : String) (x : Evidence) (by_id : Dict Evidence)
    → is_some (lookup id (insert k x by_id)) ≡ (str_eq k id || is_some (lookup id by_id))
is_some-insert k id x by_id =
    ap is_some (lookup-insert k id x by_id)
    ∙ elim (Bool-cases (str_eq k id)) [ inl e ↦ rw e refl | inr e ↦ rw e refl ]

module _ (ext : Externals) where
  pub check_message-sequence :
      (m : Message) (n : ℕ) {u : Unit {0}} → check_message ext m (some n) ≡ ok u → m.sequence ≡ n
  unfolding check_message validate_message
  check_message-sequence m n h = elim (Result-cases (validate_message ext.messages m (some n))) [
    | inr (x, e) ↦ absurd (let k = rw (check_message, e) at h in cc)
    | inl (u, e) ↦
        with_require (str_eq m.schema "agent-workflow/agent-run-message/v1") unsupported_schema _ e
          λ _ h₁.
            with_require (leb 1 m.sequence) sequence_invalid _ h₁
              λ _ h₂. with_require (m.sequence == n) sequence_mismatch _ h₂ λ same _. ground arith
  ]

  module _ (binding : Binding) where
    -- The index has an entry for exactly the ids that some evidence names.
    index_evidence-has :
        (id : String) (evidence : List Evidence) (by_id by_id' : Dict Evidence)
        → index_evidence ext binding by_id evidence ≡ ok by_id'
        → is_some (lookup id by_id')
          ≡ (is_some (lookup id by_id) || any (λ e. str_eq e.source_message_id id) evidence)
    unfolding index_evidence
    index_evidence-has id [] by_id by_id' h =
        let e : by_id ≡ by_id' = ok-injective h in rw (← e) (ground arith)
    index_evidence-has id (x ∷ evidence) by_id by_id' h =
        with_ok (validate_disposition_evidence ext x binding) _ h λ _ _ h₁. with_ok _ _ h₁ λ _ _ h₂.
          let later =
            index_evidence-has id evidence (insert x.source_message_id x by_id) by_id' h₂ in
          later ∙ ground (arith, is_some-insert x.source_message_id id x by_id)

    rebuild-covered :
        (evidence : List Evidence) (by_id : Dict Evidence)
        → ((id : String)
            → is_some (lookup id by_id) ≡ any (λ e. str_eq e.source_message_id id) evidence)
        → (place : ℕ) (seen : Dict String) (records : List Message) (cursor rebuilt : Cursor)
        → validate_from ext (suc place) seen records ≡ ok tt
        → cursor.last_sequence ≡ place
        → rebuild ext binding by_id cursor records ≡ ok rebuilt
        → (rebuilt.last_sequence ≡ place + length (covered evidence records))
          × (rebuilt.last_message_id
              ≡ last_id_from cursor.last_message_id (covered evidence records))
    unfolding rebuild validate_from committed_at
    rebuild-covered evidence by_id has place seen [] cursor rebuilt valid count h =
        let e : cursor ≡ rebuilt = ok-injective h in rw (← e) (omega (arith, count), refl)
    rebuild-covered evidence by_id has place seen (m ∷ records) cursor rebuilt valid count h =
        with_ok (check_message ext m (some (suc place))) _ valid λ _ checked v₁.
          with_ok (check_new (lookup m.message_id seen) (ext.digest m)) _ v₁ λ _ _ valid'.
            let here = check_message-sequence m (suc place) checked in
            elim (Option-cases (lookup m.message_id by_id)) [
              | inl e ↦
                  let k : has_evidence evidence m ≡ false = sym (has m.message_id) ∙ ap is_some e in
                  let stops : cursor ≡ rebuilt = ok-injective (rw (rebuild, e) at h) in
                  rw k (rw (← stops) (omega (arith, count), refl))
              | inr (x, e) ↦
                  let k : has_evidence evidence m ≡ true = sym (has m.message_id) ∙ ap is_some e in
                  with_require (str_eq x.source_message_digest (ext.digest m)) evidence_digest _
                    (rw (rebuild, e) at h)
                    λ _ h₁.
                      with_require (x.source_sequence == m.sequence) evidence_sequence _ h₁ λ _ h₂.
                        let (counted, named) =
                          rebuild-covered evidence by_id has (suc place)
                            (insert m.message_id (ext.digest m) seen) records
                            (committed_at ext binding cursor m x.disposition x.updated_at) rebuilt
                            valid' here h₂ in
                        rw k (omega (arith, counted), named)
            ]

    -- A cursor that is rebuilt stands at the last record of the longest run, from the first record
    -- on, of records that some evidence names: nothing behind a gap counts, and nothing before it is
    -- left out.
    pub reconstruct_cursor-covered :
        (source : List Message) (evidence : List Evidence) (rebuilt : Cursor)
        → reconstruct_cursor ext binding source evidence ≡ ok rebuilt
        → (rebuilt.last_sequence ≡ length (covered evidence source))
          × (rebuilt.last_message_id ≡ last_id_from none (covered evidence source))
    unfolding reconstruct_cursor validate_source_records empty_cursor lookup
    reconstruct_cursor-covered source evidence rebuilt h =
        with_ok (validate_source_records ext source) _ h λ _ validated h₁.
          with_require (leb (length source) 100000) too_many_records _ validated λ _ valid.
            with_require (leb (length evidence) 100000) too_much_evidence _ h₁ λ _ h₂.
              with_ok (index_evidence ext binding [] evidence) _ h₂ λ by_id indexed h₃.
                with_ok (rebuild ext binding by_id (empty_cursor ext binding) source) _ h₃
                  λ found built h₄.
                    with_require (ext.cursor_is_valid found) rebuilt_invalid _ h₄ λ _ e.
                      let (counted, named) =
                        rebuild-covered evidence by_id
                          (λ id. index_evidence-has id evidence [] by_id indexed) 0 [] source
                          (empty_cursor ext binding) found valid refl built in
                      rw (← ok-injective e) (omega (arith, counted), named)
