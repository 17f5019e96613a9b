-- ===== src/Chains/Order.antt =====
-- The parts of the loop of `order_tasks`: places in the order, ready tasks and pending entries.
pub mod Decides
pub mod Acyclic
use agent_workflow.Base.{
  ℕ, zero, suc, ◌+◌, ◌<◌, ◌≤◌, String, ◌≡◌, ◌≢◌, refl, sym, ap, ◌∙◌, subst, Bool, true, false, not,
  ◌&&◌, ◌||◌, Option, none, some, List, [], ◌∷◌, ◌++◌, map, length, All, all, all→All, All-map,
  elem, elem_self, distinct, Dict, keys, lookup, if◌then◌else◌, str_eq, str_eq_iff, str_eq_refl,
  str_eq_sym, str_cases, some-injective, Bool-cases, inl, inr, Result, ok, err, arith,
}
use agent_workflow.Base.Sort.{sorted, elem-sorted}
use agent_workflow.Chains.{
  ChainError, cyclic, Task, task_ids, subset, pending_of, ready, remove, order_loop,
}

-- `xs.index(x)` where `x` is in `xs`, and the length of `xs` where it is not.
unfoldable pub index : String → List String → ℕ
index x [] = 0
index x (y ∷ ys) = if str_eq x y then 0 else suc (index x ys)

pub elem-append : (s : String) (xs ys : List String) → elem s (xs ++ ys) ≡ (elem s xs || elem s ys)
unfolding elem
elem-append s [] ys = refl
elem-append s (x ∷ xs) ys = ground (arith, elem-append s xs ys)

pub index-append :
    (x : String) (xs ys : List String)
    → elem x xs ≡ true
    → (index x (xs ++ ys) ≡ index x xs) × (index x xs < length xs)
unfolding index elem
index-append x [] ys h = absurd (cc)
index-append x (y ∷ xs) ys h = elim (Bool-cases (str_eq x y)) [
  | inl e ↦ rw e (refl, omega arith)
  | inr e ↦
      let (same, below) = index-append x xs ys (ground arith) in
      rw e (ap suc same, omega (arith, below))
]

pub index-append_new :
    (x : String) (xs ys : List String) → elem x xs ≡ false → index x (xs ++ x ∷ ys) ≡ length xs
unfolding index elem
index-append_new x [] ys h = rw (str_eq_refl x) refl
index-append_new x (y ∷ xs) ys h =
    let e : str_eq x y ≡ false = ground arith in
    rw e (ap suc (index-append_new x xs ys (ground arith)))

-- The entry that `del pending[task]` takes out, and what stays.
module _ (task : String) where
  pub elem-remove :
      (s : String) (pending : Dict (List String))
      → str_eq s task ≡ false
      → elem s (keys (remove task pending)) ≡ elem s (keys pending)
  unfolding elem keys remove
  elem-remove s [] h = refl
  elem-remove s ((t, deps) ∷ pending) h =
      ground (arith, str_eq_iff s t, str_eq_iff t task, str_eq_iff s task, elem-remove s pending h)

  pub elem-remove_old :
      (s : String) (pending : Dict (List String))
      → elem s (keys pending) ≡ false
      → elem s (keys (remove task pending)) ≡ false
  unfolding elem keys remove
  elem-remove_old s [] h = refl
  elem-remove_old s ((t, deps) ∷ pending) h = ground (arith, elem-remove_old s pending)

  pub remove-distinct :
      (pending : Dict (List String))
      → distinct (keys pending) ≡ true
      → (distinct (keys (remove task pending)) ≡ true)
        × (elem task (keys (remove task pending)) ≡ false)
  unfolding distinct elem keys remove
  remove-distinct [] h = (refl, refl)
  remove-distinct ((t, deps) ∷ pending) h = elim (str_cases t task) [
    | inl e ↦
        rw (subst (λ z. str_eq z task ≡ true) (sym e) (str_eq_refl task))
          (ground arith, subst (λ z. elem z (keys pending) ≡ false) e (ground arith))
    | inr e ↦
        let (apart, gone) = remove-distinct pending (ground arith) in
        rw e (
          ground (arith, apart, elem-remove_old t pending),
          ground (arith, gone, str_eq_sym t task),
        )
  ]

  pub length-remove :
      (pending : Dict (List String))
      → elem task (keys pending) ≡ true
      → suc (length (remove task pending)) ≡ length pending
  unfolding elem keys remove
  length-remove [] h = absurd (cc)
  length-remove ((t, deps) ∷ pending) h = ground (arith, str_eq_sym t task, length-remove pending)

  pub All-remove {κ} :
      (P : String × List String → Type κ) (pending : Dict (List String))
      → All P pending
      → All P (remove task pending)
  unfolding remove
  All-remove P [] h = tt
  All-remove P ((t, deps) ∷ pending) h = elim (Bool-cases (str_eq t task)) [
    | inl e ↦ rw e h.1
    | inr e ↦ rw e (h.0, All-remove P pending h.1)
  ]

  pub All-removed {κ} :
      (P : String × List String → Type κ) (pending : Dict (List String)) (deps : List String)
      → lookup task pending ≡ some deps
      → P (task, deps)
      → All P (remove task pending)
      → All P pending
  unfolding remove lookup
  All-removed P [] deps found p h = absurd (cc)
  All-removed P ((t, ds) ∷ pending) deps found p h = elim (str_cases t task) [
    | inl e ↦
        let same = subst (λ z. str_eq z task ≡ true) (sym e) (str_eq_refl task) in
        (
          subst (λ z. P (z, ds)) (sym e)
              (subst (λ z. P (task, z)) (sym (some-injective ds deps (rw same at found))) p),
          rw same at h,
        )
    | inr e ↦
        let h' : P (t, ds) × All P (remove task pending) = rw e at h in
        (h'.0, All-removed P pending deps (rw e at found) p h'.1)
  ]

ready-keys :
    (s : String) (pending : Dict (List String)) (order : List String)
    → elem s (ready pending order) ≡ true
    → elem s (keys pending) ≡ true
unfolding ready elem keys
ready-keys s [] order h = h
ready-keys s ((t, deps) ∷ pending) order h = ground (arith, ready-keys s pending order)

-- A ready task is pending, and all of its predecessors are ordered.
pub ready-lookup :
    (task : String) (pending : Dict (List String)) (order : List String)
    → distinct (keys pending) ≡ true
    → elem task (ready pending order) ≡ true
    → (deps : List String) × (lookup task pending ≡ some deps)
      × (subset deps order ≡ true)
      × (elem task (keys pending) ≡ true)
unfolding ready elem keys lookup distinct
ready-lookup task [] order d h = absurd (cc)
ready-lookup task ((t, deps) ∷ pending) order d h = elim (str_cases t task) [
  | inl e ↦
      let same = subst (λ z. str_eq z task ≡ true) (sym e) (str_eq_refl task) in
      let fresh : elem task (keys pending) ≡ false =
        subst (λ z. elem z (keys pending) ≡ false) e (ground arith) in
      rw same (
        deps,
        refl,
        ground (arith, ready-keys task pending order),
        ground (arith, same, str_eq_sym t task),
      )
  | inr e ↦
      let (ds, found, known, pends) =
        ready-lookup task pending order (ground arith) (ground (arith, str_eq_sym t task)) in
      rw e (ds, found, known, ground (arith, pends))
]

pub lookup-ready :
    (task : String) (pending : Dict (List String)) (order deps : List String)
    → lookup task pending ≡ some deps
    → subset deps order ≡ true
    → elem task (ready pending order) ≡ true
unfolding ready elem lookup
lookup-ready task [] order deps found known = absurd (cc)
lookup-ready task ((t, ds) ∷ pending) order deps found known = elim (Bool-cases (str_eq t task)) [
  | inl e ↦
      let same : ds ≡ deps = some-injective ds deps (rw e at found) in
      let known' : subset ds order ≡ true = subst (λ z. subset z order ≡ true) (sym same) known in
      ground (arith, e, known', str_eq_sym t task)
  | inr e ↦
      let later = lookup-ready task pending order deps (rw e at found) known in
      ground (arith, later)
]

pub keys-lookup :
    (s : String) (pending : Dict (List String))
    → elem s (keys pending) ≡ true
    → (deps : List String) × (lookup s pending ≡ some deps)
unfolding elem keys lookup
keys-lookup s [] h = absurd (cc)
keys-lookup s ((t, deps) ∷ pending) h = elim (Bool-cases (str_eq t s)) [
  | inl e ↦ rw e (deps, refl)
  | inr e ↦ rw e (keys-lookup s pending (ground (arith, str_eq_sym t s)))
]

pub All-lookup {κ} :
    (P : String × List String → Type κ) (pending : Dict (List String)) (s : String)
    (deps : List String)
    → All P pending
    → lookup s pending ≡ some deps
    → P (s, deps)
unfolding lookup
All-lookup P [] s deps h found = absurd (cc)
All-lookup P ((t, ds) ∷ pending) s deps h found = elim (str_cases t s) [
  | inl e ↦
      let same : ds ≡ deps =
        some-injective ds deps
          (rw (subst (λ z. str_eq z s ≡ true) (sym e) (str_eq_refl s)) at found) in
      subst (λ z. P (z, deps)) e (subst (λ z. P (t, z)) same h.0)
  | inr e ↦ All-lookup P pending s deps h.1 (rw e at found)
]
