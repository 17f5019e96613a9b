-- ===== src/Chains/Launch/Accepted.antt =====
-- Proofs about `validate_launch` of task_chains.py.
use agent_workflow.Base.{
  ℕ, zero, suc, String, ◌≡◌, refl, ap, ◌∙◌, subst, true, Option, none, some, List, [], ◌∷◌, ◌++◌,
  All, map, take, elem, str_eq, str_eq_iff, opt_eq→eq, Result, ok, err, with_ok, with_require,
  require-true, ok-injective, arith,
}
use agent_workflow.Lifecycle.Receipts.{
  ReviewAction, reviewed, accepted, rejected, action_eq, Entry, LifecycleError, lifecycle_receipts,
}
use agent_workflow.Lifecycle.Operations.Chain.{lifecycle_receipts-parts}
use agent_workflow.Lifecycle.Approval.{last_two}
use agent_workflow.Chains.{
  raised, launch_checksum_mismatch, repository_mismatch, no_longer_accepted, schema_invalid,
  task_absent, predecessor_hash_mismatch, no_accepted_prefix,
}
use agent_workflow.Chains.Order.{index}
use agent_workflow.Chains.Plans.{
  Plan, Input, Receipt, Binding, Job, Checks, is_accepted_prefix, validate_plan, expected_revision,
  validate_execution_binding,
}
use agent_workflow.Chains.State.Reaches.{texts_eq→eq, validate_execution_binding-revision_of}
use agent_workflow.Chains.Operate.{revision_of}
use agent_workflow.Chains.Create.{read_or_raise}
use agent_workflow.Chains.Launch.{
  JobBinding, LaunchSite, receipts_or_raise, ends_accepted, inputs_of, check_predecessor,
  check_predecessors, check_launch, is_v3, validate_launch,
}

-- The chain of a run ends with a review and an acceptance of the revision.
abbrev pub IsReviewed : List Entry → String → Type 0
IsReviewed entries head =
    (earlier : List Entry) × (review : Entry) × (acceptance : Entry) × (entries
      ≡ earlier ++ review ∷ acceptance ∷ [])
    × (review.receipt.action ≡ reviewed)
    × (acceptance.receipt.action ≡ accepted)
    × (acceptance.receipt.revision ≡ some head)

-- The run of an input is sealed, its receipts are a chain for that seal, and it is accepted.
abbrev pub IsAccepted : LaunchSite → Input → Type 0
IsAccepted site item =
    (seal : String) × (site.seal item.run_id item.seal_sha256 ≡ some seal)
    × (lifecycle_receipts item.run_id (some seal) (site.receipts item.run_id)
        ≡ ok (site.receipts item.run_id))
    × IsReviewed (site.receipts item.run_id) item.head

action_eq→eq : (a b : ReviewAction) → action_eq a b ≡ true → a ≡ b
action_eq→eq reviewed reviewed h = refl
action_eq→eq accepted accepted h = refl
action_eq→eq rejected rejected h = refl
action_eq→eq reviewed accepted h = absurd (cc)
action_eq→eq reviewed rejected h = absurd (cc)
action_eq→eq accepted reviewed h = absurd (cc)
action_eq→eq accepted rejected h = absurd (cc)
action_eq→eq rejected reviewed h = absurd (cc)
action_eq→eq rejected accepted h = absurd (cc)

last_two-ends_accepted :
    (e f : Entry) (es : List Entry) (before : Option Entry) (head : String)
    → ends_accepted (last_two (e ∷ f ∷ es) before) head ≡ true
    → IsReviewed (e ∷ f ∷ es) head
unfolding ends_accepted
last_two-ends_accepted e f [] before head h = (
  [],
  e,
  f,
  refl,
  action_eq→eq e.receipt.action reviewed (ground arith),
  action_eq→eq f.receipt.action accepted (ground arith),
  opt_eq→eq f.receipt.revision (some head) (ground arith),
)
last_two-ends_accepted e f (g ∷ es) before head h =
    let (earlier, review, acceptance, is, was, now, at_head) =
      last_two-ends_accepted f g es (some e) head h in
    (e ∷ earlier, review, acceptance, ap (λ z. e ∷ z) is, was, now, at_head)

ends_accepted-IsReviewed :
    (es : List Entry) (head : String)
    → ends_accepted (last_two es none) head ≡ true
    → IsReviewed es head
unfolding ends_accepted
ends_accepted-IsReviewed [] head h = absurd (cc)
ends_accepted-IsReviewed (e ∷ []) head h = absurd (cc)
ends_accepted-IsReviewed (e ∷ f ∷ es) head h = last_two-ends_accepted e f es none head h

read_or_raise-ok : {A : Type 0} (o : Option A) (x : A) → read_or_raise o ≡ ok x → o ≡ some x
read_or_raise-ok none x h = absurd (cc)
read_or_raise-ok (some y) x h = ap (λ z. some z) (ok-injective h)

receipts_or_raise-ok :
    (m : Result LifecycleError (List Entry)) (es : List Entry)
    → receipts_or_raise m ≡ ok es
    → m ≡ ok es
receipts_or_raise-ok (ok fs) es h = ap (λ z. ok z) (ok-injective h)
receipts_or_raise-ok (err e) es h = absurd (cc)

check_predecessor-IsAccepted :
    (site : LaunchSite) (item : Input) (u : Unit {0})
    → check_predecessor site item ≡ ok u
    → IsAccepted site item
unfolding check_predecessor
check_predecessor-IsAccepted site item u h =
    with_ok (read_or_raise (site.seal item.run_id item.seal_sha256)) _ h λ seal sealed h₁.
      with_ok
        (receipts_or_raise (lifecycle_receipts item.run_id (some seal) (site.receipts item.run_id)))
        _ h₁
        λ entries chain h₂.
          let ends =
            require-true (ends_accepted (last_two entries none) item.head) no_longer_accepted h₂ in
          let read = receipts_or_raise-ok _ entries chain in
          let same : entries ≡ site.receipts item.run_id =
            (lifecycle_receipts-parts item.run_id (some seal) (site.receipts item.run_id) entries
              read).1 in
          (
            seal,
            read_or_raise-ok _ seal sealed,
            read ∙ ap (λ z. ok z) same,
            subst (λ z. IsReviewed z item.head) same
                (ends_accepted-IsReviewed entries item.head ends),
          )

check_predecessors-IsAccepted :
    (site : LaunchSite) (items : List Input) (u : Unit {0})
    → check_predecessors site items ≡ ok u
    → All (IsAccepted site) items
unfolding check_predecessors
check_predecessors-IsAccepted site [] u h = tt
check_predecessors-IsAccepted site (item ∷ items) u h =
    with_ok (check_predecessor site item) _ h λ v first rest. (
      check_predecessor-IsAccepted site item v first,
      check_predecessors-IsAccepted site items u rest,
    )

expected_revision-inputs_of :
    (c : Checks) (plan : Plan) (order : List String) (place : ℕ) (prior : Option Receipt)
    (revision : String)
    → expected_revision c plan order place prior ≡ ok revision
    → map (λ i. i.task_id) (inputs_of prior) ≡ take place order
unfolding expected_revision inputs_of is_accepted_prefix
expected_revision-inputs_of c plan order zero none revision h = refl
expected_revision-inputs_of c plan order zero (some r) revision h = absurd (cc)
expected_revision-inputs_of c plan order (suc place) none revision h = absurd (cc)
expected_revision-inputs_of c plan order (suc place) (some r) revision h =
    with_require (c.receipt_is_intact r) predecessor_hash_mismatch _ h λ _ h₁.
      with_require (is_accepted_prefix plan (take (suc place) order) r) no_accepted_prefix _ h₁
        λ is _. texts_eq→eq (map (λ i. i.task_id) r.inputs) (take (suc place) order) (ground arith)

validate_execution_binding-inputs_of :
    (c : Checks) (b : Binding) (job : Option (Job × (String × String))) (u : Unit {0})
    → validate_execution_binding c b job ≡ ok u
    → (order : List String) × (validate_plan c b.plan ≡ ok order)
      × (map (λ i. i.task_id) (inputs_of b.prior_integration) ≡ take (index b.task_id order) order)
unfolding validate_execution_binding
validate_execution_binding-inputs_of c b job u h =
    with_require (c.binding_is_valid b) schema_invalid _ h λ _ h₁.
      with_ok (validate_plan c b.plan) _ h₁ λ order valid h₂.
        with_require (elem b.task_id order) task_absent _ h₂ λ _ h₃.
          with_ok (expected_revision c b.plan order (index b.task_id order) b.prior_integration) _
            h₃
            λ expected e _. (
              order,
              valid,
              expected_revision-inputs_of c b.plan order (index b.task_id order) b.prior_integration
                  expected e,
            )

-- What a launch stands on: it starts from the revision of
-- the integration before it, the inputs of which are all the tasks that stand before the launch's own
-- in the plan's order, each run of them sealed, reviewed and accepted.
abbrev pub IsAuthorized : Checks → LaunchSite → Binding → Type 0
IsAuthorized c site b =
    (b.execution_revision ≡ revision_of b.plan b.prior_integration)
    × ((order : List String) × (validate_plan c b.plan ≡ ok order)
        × (map (λ i. i.task_id) (inputs_of b.prior_integration)
            ≡ take (index b.task_id order) order))
    × All (IsAccepted site) (inputs_of b.prior_integration)

-- A launch with a v3 job binding passes only where its authority can be read, has the
-- checksum of the job binding, and starts from the revision of its predecessor's integration; the inputs of that integration are all the tasks before
-- its own in the plan's order, and each of their runs is sealed, and its receipts are a chain for that
-- seal that ends with a review and an acceptance of the input's head.
pub validate_launch-IsAuthorized :
    (c : Checks) (site : LaunchSite) (binding : JobBinding) (u : Unit {0})
    → site.job_binding ≡ some (some binding)
    → is_v3 binding ≡ true
    → validate_launch c site ≡ ok u
    → (b : Binding) × (site.authority ≡ some b)
      × (site.authority_sha256 ≡ binding.execution_binding_sha256)
      × IsAuthorized c site b
unfolding validate_launch check_launch
validate_launch-IsAuthorized c site binding u there v3 h =
    with_ok (read_or_raise site.authority) _ (rw v3 at (rw (validate_launch, there) at h))
      λ b read h₁.
        with_require (str_eq site.authority_sha256 binding.execution_binding_sha256)
          launch_checksum_mismatch _ h₁
          λ same h₂.
            with_ok (read_or_raise (site.job binding.job_source_path binding.pack_root)) _ h₂
              λ job _ h₃.
                with_ok
                  (validate_execution_binding c b (some (job, (site.run_id, binding.worktree)))) _
                  h₃
                  λ v valid h₄.
                    with_require
                      (str_eq (site.common_dir binding.worktree) (site.common_dir b.plan.repo))
                      repository_mismatch _ h₄
                      λ _ h₅. with_require (site.is_idle binding.worktree) raised _ h₅ λ _ h₆.
                        with_require
                          (site.source_is_valid job binding.worktree b.execution_revision) raised _
                          h₆
                          λ _ h₇. (
                            b,
                            read_or_raise-ok site.authority b read,
                            (str_eq_iff site.authority_sha256 binding.execution_binding_sha256).0
                                same,
                            (
                              validate_execution_binding-revision_of c b _ valid,
                              validate_execution_binding-inputs_of c b _ v valid,
                              check_predecessors-IsAccepted site (inputs_of b.prior_integration) u
                                  h₇,
                            ),
                          )
