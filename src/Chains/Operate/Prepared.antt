-- ===== src/Chains/Operate/Prepared.antt =====
-- Proofs about `prepare` in `operate` of task_chains.py, and what `_state` makes of its storage.
use agent_workflow.Base.{
  suc, String, ◌≡◌, refl, sym, ap, ◌∙◌, subst, true, false, not, ◌&&◌, ◌||◌, Option, none, some,
  List, [], ◌∷◌, ◌++◌, length, length-append, all, elem, distinct, leb, ◌==◌, str_eq, str_cases,
  inl, inr, ok, err, ok-injective, with_ok, with_require, arith,
}
use agent_workflow.Chains.{final_invalid, duplicate_run, all_accepted, already_reserved}
use agent_workflow.Chains.Plans.{Plan, Receipt, Binding, Checks, validate_plan}
use agent_workflow.Chains.State.{
  Evidence, Storage, Recovered, is_final, verify_integration, run_ids, recover_tasks, recover_final,
  recover,
}
use agent_workflow.Chains.State.Reaches.{validate_plan-order}
use agent_workflow.Chains.Operate.{
  Host, Action, prepare, task_at, reserve, binding_of, prepare_run, operate_on, operate,
}
use agent_workflow.Chains.Operate.Recovers.{start, binding_of-IsBindingOf, recover_tasks-reserve}

elem-run_ids :
    (s : String) (b : Binding) (bindings : List Binding)
    → elem s (run_ids (bindings ++ b ∷ [])) ≡ (elem s (run_ids bindings) || str_eq s b.run_id)
unfolding elem
elem-run_ids s b [] = ground arith
elem-run_ids s b (r ∷ bindings) = ground (arith, elem-run_ids s b bindings)

-- A run that is not there yet is not reserved.
fresh_run :
    (host : Host) (run_id : String) (bindings : List Binding)
    → ((id : String) → host.is_accepted id ≡ true → host.has_run id ≡ true)
    → host.has_run run_id ≡ false
    → all (λ r. host.is_accepted r.run_id) bindings ≡ true
    → distinct (run_ids bindings) ≡ true
    → (b : Binding) → b.run_id ≡ run_id
    → distinct (run_ids (bindings ++ b ∷ [])) ≡ true
unfolding distinct elem
fresh_run host run_id [] there new approved apart b e = refl
fresh_run host run_id (r ∷ bindings) there new approved apart b e =
    let later = fresh_run host run_id bindings there new (ground arith) (ground arith) b e in
    let differs : str_eq r.run_id b.run_id ≡ false = elim (str_cases r.run_id b.run_id) [
      | inl same ↦ absurd (
          let has = there r.run_id (ground arith) in
          let has' : host.has_run run_id ≡ true =
            subst (λ z. host.has_run z ≡ true) (same ∙ e) has in
          cc)
      | inr other ↦ other
    ] in
    ground (arith, later, elem-run_ids r.run_id b bindings, differs)

-- The steps of `_state`.
recover-parts {ℓ} :
    {C : Type ℓ} (c : Checks) (root : Storage) (s : Recovered) (final : Option Receipt)
    → recover c root ≡ ok (s, final)
    → ((order : List String)
        → validate_plan c root.plan ≡ ok order
        → recover_tasks c root 0 order start ≡ ok s
        → distinct (run_ids s.reservations) ≡ true
        → recover_final root.plan order s root.final ≡ ok final
        → C)
    → C
unfolding recover
recover-parts c root s final h k = with_ok (validate_plan c root.plan) _ h λ order valid h₁.
    with_ok (recover_tasks c root 0 order start) _ h₁ λ t recovered h₂.
      with_require (distinct (run_ids t.reservations)) duplicate_run _ h₂ λ apart h₃.
        with_ok (recover_final root.plan order t root.final) _ h₃ λ found judged h₄.
          let pair : (t, found) ≡ (s, final) = ok-injective h₄ in
          let e : t ≡ s = ap (λ z. z.0) pair in
          k order valid (recovered ∙ ap (λ z. ok z) e)
            (subst (λ z. distinct (run_ids z.reservations) ≡ true) e apart)
            (subst (λ z. recover_final root.plan order z root.final ≡ ok final) e
              (judged ∙ ap (λ z. ok z.1) pair))

operate-recovered :
    (c : Checks) (host : Host) (root : Storage) (s : Recovered) (final : Option Receipt)
    (action : Action)
    → recover c root ≡ ok (s, final)
    → operate c host root action ≡ operate_on c host root s final action
unfolding operate operate_on
operate-recovered c host root s final action e = rw (operate, e) refl

operate-prepare :
    (c : Checks) (host : Host) (root : Storage) (s : Recovered) (run_id : String)
    (worker : List String) (b : Binding)
    → recover c root ≡ ok (s, none)
    → binding_of c host root s run_id worker ≡ ok b
    → (operate c host root (prepare run_id worker)).0 ≡ reserve (length s.prefix) b root
unfolding operate_on
operate-prepare c host root s run_id worker b recovered bound =
    rw (operate-recovered c host root s none (prepare run_id worker) recovered)
      (rw (prepare_run, bound) refl)

-- A pending reservation stops `prepare` before anything else is asked.
binding_of-already_reserved :
    (c : Checks) (host : Host) (root : Storage) (s : Recovered) (run_id : String)
    (worker : List String)
    → leb (length root.plan.order) (length s.prefix) ≡ false
    → length s.reservations ≡ suc (length s.prefix)
    → binding_of c host root s run_id worker ≡ err already_reserved
unfolding binding_of
binding_of-already_reserved c host root s run_id worker room odd =
    let uneven : (length s.reservations == length s.prefix) ≡ false = ground arith in
    rw (room, uneven) refl

binding_of-room :
    (c : Checks) (host : Host) (root : Storage) (s : Recovered) (run_id : String)
    (worker : List String) (b : Binding)
    → binding_of c host root s run_id worker ≡ ok b
    → leb (length root.plan.order) (length s.prefix) ≡ false
unfolding binding_of
binding_of-room c host root s run_id worker b h =
    with_require (not (leb (length root.plan.order) (length s.prefix))) all_accepted _ h
      λ room _. ground arith

recover_final-open :
    (plan : Plan) (order : List String) (s : Recovered) (e : Option Evidence)
    → recover_final plan order s e ≡ ok none
    → e ≡ none
unfolding recover_final
recover_final-open plan order s none h = refl
recover_final-open plan order s (some e) h = with_ok (verify_integration e) _ h λ receipt _ h₁.
    with_require (length s.prefix == length order && is_final plan s.reservations receipt)
      final_invalid _ h₁ λ _ h₂. absurd (let k = ok-injective h₂ in cc)

module _ (c : Checks) (host : Host)
    (accepted_exists : (id : String) → host.is_accepted id ≡ true → host.has_run id ≡ true)
    (root : Storage) (s : Recovered) (run_id : String) (worker : List String) (b : Binding)
    (recovered : recover c root ≡ ok (s, none))
    (bound : binding_of c host root s run_id worker ≡ ok b) where
  -- Where `_state` recovers a chain that is not finally accepted and the guards of `prepare` pass, the
  -- storage that `prepare` leaves, whether or not the launch succeeds, is recovered again: with the
  -- new binding behind the reservations, and the accepted integrations as they were. The host's
  -- accepted runs have directories.
  pub recover-prepare :
      (t : Recovered) × (recover c (operate c host root (prepare run_id worker)).0 ≡ ok (t, none))
      × (t.reservations ≡ s.reservations ++ b ∷ [])
      × (t.prefix ≡ s.prefix)
  unfolding recover recover_final reserve
  recover-prepare = recover-parts c root s none recovered λ order valid looped apart judged.
      let (at, even, new, approved, alone, plans, named, prior) =
        binding_of-IsBindingOf c host root s run_id worker b bound in
      let same = (validate_plan-order c root.plan order valid).0 in
      let (t, run, kept, kept') =
        recover_tasks-reserve c root order s b looped
          (subst (λ z. task_at (length s.prefix) z ≡ some b.task_id) (sym same) at) even alone plans
          prior in
      let apart' : distinct (run_ids t.reservations) ≡ true =
        ap (λ z. distinct (run_ids z)) kept
        ∙ fresh_run host run_id s.reservations accepted_exists new approved apart b named in
      let unfinished = recover_final-open root.plan order s root.final judged in
      (
        t,
        rw (operate-prepare c host root s run_id worker b recovered bound)
            (rw (valid, run, apart', unfinished) refl),
        kept,
        kept',
      )

  -- After `prepare` has reserved a task, another `prepare`, of whatever run on whatever host, changes
  -- nothing and is refused: the task is not executed twice.
  pub operate-already_reserved :
      (later : Host) (next_run : String) (next_worker : List String)
      → let prepared = (operate c host root (prepare run_id worker)).0 in
        operate c later prepared (prepare next_run next_worker) ≡ (prepared, err already_reserved)
  unfolding operate_on reserve
  operate-already_reserved later next_run next_worker =
      let (t, run, kept, kept') = recover-prepare in
      let (_, even, _, _, _, _, _, _) =
        binding_of-IsBindingOf c host root s run_id worker b bound in
      let prepared = (operate c host root (prepare run_id worker)).0 in
      let plans : prepared.plan ≡ root.plan =
        ap (λ z. z.plan) (operate-prepare c host root s run_id worker b recovered bound) in
      let room : leb (length prepared.plan.order) (length t.prefix) ≡ false =
        rw (plans, kept') (binding_of-room c host root s run_id worker b bound) in
      let odd : length t.reservations ≡ suc (length t.prefix) =
        omega
          (arith, ap length kept, ap length kept', even, length-append s.reservations (b ∷ [])) in
      operate-recovered c later prepared t none (prepare next_run next_worker) run
      ∙ rw
          (
            prepare_run,
            binding_of-already_reserved c later prepared t next_run next_worker room odd,
          )
          refl
