-- ===== src/Journal/Append.antt =====
-- Proofs about `transact_jsonl` of journal.py.
use agent_workflow.Base.{
  ℕ, suc, ◌+◌, ◌-◌, ◌≡◌, refl, true, Option, none, some, List, [], ◌∷◌, ◌++◌, length, leb, Result,
  ok, >>=-eq-ok, require-eq-ok, arith, ◌⊎◌, inl, inr,
}
use agent_workflow.Journal.{
  Limits, Domain, within, in_sequence, file_bytes, decode_record, decode_jsonl, read_jsonl,
  append_record, write_decision, transact_jsonl,
}

module _ {E R : Type 0} (d : Domain E R) (limits : Limits) where
  file_bytes-append :
      (xs : List R) (r : R)
      → file_bytes d limits (xs ++ r ∷ []) ≡ file_bytes d limits xs + d.bytes r
  unfolding file_bytes
  file_bytes-append [] r = omega arith
  file_bytes-append (x ∷ xs) r = omega (arith, file_bytes-append xs r)

  decode_jsonl-append :
      (line : ℕ) (xs : List R) (r : R)
      → decode_jsonl d limits line xs ≡ ok tt
      → decode_record d limits r (line + length xs) ≡ ok tt
      → decode_jsonl d limits line (xs ++ r ∷ []) ≡ ok tt
  unfolding decode_jsonl
  decode_jsonl-append line [] r h k = let e : line + 0 ≡ line = omega arith in rw (rw e at k)
  decode_jsonl-append line (x ∷ xs) r h k =
      let (u, first, rest) = >>=-eq-ok (decode_record d limits x line) _ h in
      let e : line + suc (length xs) ≡ suc line + length xs = omega arith in
      rw first (decode_jsonl-append (suc line) xs r rest (rw e at k))

  pub read_jsonl-parts :
      (file seen : List R)
      → read_jsonl d limits file ≡ ok seen
      → (leb (file_bytes d limits file) limits.max_bytes ≡ true)
        × (decode_jsonl d limits 1 file ≡ ok tt)
        × (seen ≡ file)
  unfolding read_jsonl
  read_jsonl-parts file seen h =
      let (fits, rest) = require-eq-ok _ _ _ h in
      let (u, decoded, e) = >>=-eq-ok (decode_jsonl d limits 1 file) _ rest in (fits, decoded, cc)

  pub append_record-parts :
      (file file' : List R) (r : R)
      → append_record d limits file r ≡ ok file'
      → (leb (d.bytes r) limits.max_record_bytes ≡ true)
        × (leb (file_bytes d limits file + d.bytes r) limits.max_bytes ≡ true)
        × (within limits.max_records (length file + 1) ≡ true)
        × (file' ≡ file ++ r ∷ [])
  unfolding append_record
  append_record-parts file file' r h =
      let (a, h₁) = require-eq-ok _ _ _ h in
      let (b, h₂) = require-eq-ok _ _ _ h₁ in let (c, e) = require-eq-ok _ _ _ h₂ in (a, b, c, cc)

  decode_record_ok :
      (r : R) (line : ℕ)
      → leb (d.bytes r) limits.max_record_bytes ≡ true
      → in_sequence d.sequence r line ≡ true
      → d.validator r line ≡ ok tt
      → within limits.max_records line ≡ true
      → decode_record d limits r line ≡ ok tt
  unfolding decode_record
  decode_record_ok r line fits sequence valid room =
      let small : leb (d.bytes r - 1) limits.max_record_bytes ≡ true = ground arith in
      rw (small, sequence, valid, room)

  -- A readable file with one more record that passes its checks and the capacity is readable.
  read_jsonl-append :
      (file file' : List R) (r : R)
      → read_jsonl d limits file ≡ ok file
      → d.validator r (length file + 1) ≡ ok tt
      → in_sequence d.sequence r (length file + 1) ≡ true
      → append_record d limits file r ≡ ok file'
      → (read_jsonl d limits file' ≡ ok file') × (file' ≡ file ++ r ∷ [])
  unfolding read_jsonl
  read_jsonl-append file file' r h v s a =
      let (small, fits, room, e) = append_record-parts file file' r a in
      let (u, decoded, w) = read_jsonl-parts file file h in
      let line : length file + 1 ≡ 1 + length file = omega arith in
      let last : decode_record d limits r (1 + length file) ≡ ok tt =
        rw line at (decode_record_ok r (length file + 1) small s v room) in
      let all_lines = decode_jsonl-append 1 file r decoded last in
      rw e (rw (file_bytes-append file r) (rw (fits, all_lines) (refl, refl)))

  -- A transaction that succeeds, where every decision with a record holds a valid next one, leaves a
  -- file that is read back whole. Its value is that of the decision on the old file; where the decision
  -- has no record it is the old file, and otherwise the old file with exactly that record behind it.
  pub read_jsonl-transact_jsonl :
      {V : Type 0} (transaction : List R → Result E (V × Option R)) (file file' : List R)
      (value : V)
      → ((existing : List R) (v : V) (r : R)
          → transaction existing ≡ ok (v, some r)
          → (d.validator r (length existing + 1) ≡ ok tt)
            × (in_sequence d.sequence r (length existing + 1) ≡ true))
      → transact_jsonl d limits transaction file ≡ ok (value, file')
      → (read_jsonl d limits file' ≡ ok file')
        × (((transaction file ≡ ok (value, none)) × (file' ≡ file))
            ⊎ ((r : R) × (transaction file ≡ ok (value, some r)) × (file' ≡ file ++ r ∷ [])))
  unfolding transact_jsonl
  read_jsonl-transact_jsonl {V} transaction file file' value valid h =
      let (existing, readable, h₁) = >>=-eq-ok (read_jsonl d limits file) _ h in
      let (a, b, same) = read_jsonl-parts file existing readable in
      let (decision, decided, h₂) = >>=-eq-ok (transaction existing) _ h₁ in
      finish decision (rw same at readable) (rw same at decided) h₂
    where
      finish :
          (decision : V × Option R)
          → read_jsonl d limits file ≡ ok file
          → transaction file ≡ ok decision
          → write_decision d limits file decision ≡ ok (value, file')
          → (read_jsonl d limits file' ≡ ok file')
            × (((transaction file ≡ ok (value, none)) × (file' ≡ file))
                ⊎ ((r : R) × (transaction file ≡ ok (value, some r)) × (file' ≡ file ++ r ∷ [])))
      finish (v, none) readable decided h =
          let same : file' ≡ file = cc in
          let is : v ≡ value = cc in (rw same readable, inl (rw is at decided, same))
      finish (v, some r) readable decided h =
          let (ok_record, next) = valid file v r decided in
          let (written, appended, e) = >>=-eq-ok (append_record d limits file r) _ h in
          let same : file' ≡ written = cc in
          let is : v ≡ value = cc in
          let (again, longer) =
            read_jsonl-append file file' r readable ok_record next (rw (← same) at appended) in
          (again, inr (r, rw is at decided, longer))
