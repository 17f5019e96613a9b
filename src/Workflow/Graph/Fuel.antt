-- ===== src/Workflow/Graph/Fuel.antt =====
-- Proofs about the fuel of the cycle search of workflow.py.
use agent_workflow.Base.{
  ℕ, zero, suc, ◌≤◌, ◌<◌, String, ◌≡◌, ◌≢◌, sym, subst, true, false, not, List, [], ◌∷◌, Dict,
  length, filter, str_eq, str_eq_iff, str_cases, Bool-cases, inl, inr, elem, All, All-map, arith,
}
use agent_workflow.Workflow.Graph.{Search, done, out_of_fuel, dependencies_of, visit}
use agent_workflow.Workflow.Graph.Safe.{and_then-safe, visit_all-safe, if_safe}

abbrev pub HasFuel : Search → Type 0
HasFuel s = s ≢ out_of_fuel

-- The number of names that a stack does not hold.
unfoldable pub room : List String → List String → ℕ
room names stack = length (filter (λ n. not (elem n stack)) names)

room-le : (names stack : List String) (id : String) → room names (id ∷ stack) ≤ room names stack
unfolding room elem
room-le [] stack id = omega arith
room-le (n ∷ names) stack id = ground (arith, room-le names stack id)

-- A name that the stack does not hold takes room when it is pushed.
room-lt :
    (names stack : List String) (id : String)
    → elem id names ≡ true
    → elem id stack ≡ false
    → room names (id ∷ stack) < room names stack
unfolding room elem
room-lt [] stack id there off = absurd (cc)
room-lt (n ∷ names) stack id there off = elim (str_cases id n) [
  | inl e ↦
      let off_n : elem n stack ≡ false = subst (λ z. elem z stack ≡ false) e off in
      let on_n : str_eq n id ≡ true = (str_eq_iff n id).1 (sym e) in
      ground (arith, room-le names stack id)
  | inr e ↦ ground (arith, room-lt names stack id (ground arith) off)
]

module _ (graph : Dict (List String)) (names : List String)
    (closed : (x : String) → All (λ d. elem d names ≡ true) (dependencies_of graph x)) where
  -- With more fuel than the stack has room left, the search does not run out.
  pub visit-HasFuel :
      (fuel : ℕ) (stack : List String) (id : String)
      → room names stack < fuel
      → elem id names ≡ true
      → (v : List String) → HasFuel (visit fuel graph stack v id)
  unfolding visit
  visit-HasFuel zero stack id enough there v = absurd (omega arith)
  visit-HasFuel (suc fuel) stack id enough there v = elim (Bool-cases (elem id stack)) [
    | inl on_stack ↦ rw on_stack (λ e. cc)
    | inr off_stack ↦
        let smaller = room-lt names stack id there off_stack in
        let deeper =
          All-map (λ d. elem d names ≡ true)
            (λ d. (u : List String) → HasFuel (visit fuel graph (id ∷ stack) u d))
            (λ d known. visit-HasFuel fuel (id ∷ stack) d (omega arith) known)
            (dependencies_of graph id) (closed id) in
        rw off_stack (
          if_safe HasFuel (elem id v) (λ e. cc)
            (and_then-safe HasFuel (λ u e. cc) _
              (visit_all-safe HasFuel (λ u e. cc) (visit fuel graph (id ∷ stack))
                (dependencies_of graph id) deeper v)
              (λ u. done (id ∷ u)) (λ u e. cc)))
  ]
