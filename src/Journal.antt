-- ===== src/Journal.antt =====
-- journal.py: reading and transacting a strict JSONL journal. A file is the list of its records.
-- `bytes` gives the length of a record's canonical line with its newline. The decoding of UTF-8 and
-- JSON, file descriptors, links and advisory locks are not modelled: a transaction holds the lock
-- from its read to its append, so it is one step.
pub mod Append
pub mod Written
use agent_workflow.Base.{
  ℕ, zero, suc, ◌+◌, ◌-◌, Bool, true, Option, none, some, List, [], ◌∷◌, ◌++◌, length, leb, ltb,
  ◌==◌, if◌then◌else◌, not, Result, ok, err, ◌>>=◌, ◌>>◌, require,
}

pub data JournalError : Type 0 where
  file_too_large record_too_large sequence_mismatch too_many_records : JournalError
  capacity_record capacity_bytes capacity_records : JournalError

pub record Limits : Type 0 where
  pub max_bytes : ℕ
  pub max_record_bytes : ℕ
  pub max_records : Option ℕ

-- DEFAULT_MAX_JOURNAL_BYTES and DEFAULT_MAX_RECORD_BYTES
abbrev pub default_limits : Limits
default_limits = record { max_bytes = 33554432; max_record_bytes = 131072; max_records = none }

-- `max_records is not None and n > max_records`, negated.
abbrev pub within : Option ℕ → ℕ → Bool
within none n = true
within (some most) n = leb n most

-- What a domain module hands to the journal: `sequence_field`, `validator` and its errors.
pub record Domain (E R : Type 0) : Type 0 where
  pub bytes : R → ℕ
  pub sequence : Option (R → ℕ)
  pub validator : R → ℕ → Result E (Unit {0})
  pub raised : JournalError → E

abbrev pub in_sequence {ℓ} : {R : Type ℓ} → Option (R → ℕ) → R → ℕ → Bool
in_sequence none r line = true
in_sequence (some sequence) r line = sequence r == line

module _ {E R : Type 0} (d : Domain E R) (limits : Limits) where
  unfoldable pub file_bytes : List R → ℕ
  file_bytes [] = 0
  file_bytes (r ∷ rs) = d.bytes r + file_bytes rs

  -- The body of the loop of `decode_jsonl`, at a one-based line number.
  unfoldable pub decode_record : R → ℕ → Result E (Unit {0})
  decode_record r line = do
    require (leb (d.bytes r - 1) limits.max_record_bytes) (d.raised record_too_large)
    require (in_sequence d.sequence r line) (d.raised sequence_mismatch)
    d.validator r line
    require (within limits.max_records line) (d.raised too_many_records)

  unfoldable pub decode_jsonl : ℕ → List R → Result E (Unit {0})
  unfolding decode_record
  decode_jsonl line [] = ok tt
  decode_jsonl line (r ∷ rs) = decode_record r line >> decode_jsonl (suc line) rs

  unfoldable pub read_jsonl : List R → Result E (List R)
  unfolding file_bytes decode_jsonl
  read_jsonl file = do
    require (leb (file_bytes file) limits.max_bytes) (d.raised file_too_large)
    decode_jsonl 1 file
    ok file

  -- The three capacity checks before an append.
  unfoldable pub append_record : List R → R → Result E (List R)
  unfolding file_bytes
  append_record file r = do
    require (leb (d.bytes r) limits.max_record_bytes) (d.raised capacity_record)
    require (leb (file_bytes file + d.bytes r) limits.max_bytes) (d.raised capacity_bytes)
    require (within limits.max_records (length file + 1)) (d.raised capacity_records)
    ok (file ++ r ∷ [])

  abbrev pub write_decision : {V : Type 0} → List R → V × Option R → Result E (V × List R)
  write_decision file (value, none) = ok (value, file)
  write_decision file (value, some r) = do file' ← append_record file r; ok (value, file')

  -- The value of the transaction and the file after it. An error leaves the file as it was.
  unfoldable pub transact_jsonl :
      {V : Type 0} → (List R → Result E (V × Option R)) → List R → Result E (V × List R)
  unfolding read_jsonl append_record
  transact_jsonl transaction file = do
    existing ← read_jsonl file
    decision ← transaction existing
    write_decision file decision

  unfoldable pub append_jsonl : R → List R → Result E (Unit {0} × List R)
  unfolding transact_jsonl
  append_jsonl r file =
      transact_jsonl (λ existing. d.validator r (length existing + 1) >> ok (tt, some r)) file
