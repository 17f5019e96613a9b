-- ===== src/Workflow/Graph/Rank.antt =====
-- Ranks and dependency orders, with proofs about the cycle search of workflow.py.
use agent_workflow.Base.{
  ℕ, zero, suc, ◌≤◌, ◌<◌, String, ◌≡◌, ◌≢◌, refl, sym, subst, true, false, List, [], ◌∷◌, Dict,
  length, if◌then◌else◌, str_eq_iff, str_cases, Bool-cases, inl, inr, elem, All, All-map, arith,
}
use agent_workflow.Workflow.Graph.{Search, done, cycle, dependencies_of, visit}
use agent_workflow.Workflow.Graph.Order.{IsOrdered}
use agent_workflow.Workflow.Graph.Safe.{and_then-safe, visit_all-safe, if_safe}

abbrev pub NoCycle : Search → Type 0
NoCycle s = (path : List String) → s ≢ cycle path

-- The number of names behind the last occurrence of `x`, and one more.
unfoldable pub rank : String → List String → ℕ
rank x [] = 0
rank x (y ∷ ys) = let behind = rank x ys in if elem x ys then behind else suc (length ys)

rank-le_length : (x : String) (ys : List String) → rank x ys ≤ length ys
unfolding rank
rank-le_length x [] = omega arith
rank-le_length x (y ∷ ys) = ground (arith, rank-le_length x ys)

-- Each dependency of each ordered name has a smaller rank.
abbrev pub IsRanked : Dict (List String) → (String → ℕ) → String → Type 0
IsRanked graph r x = All (λ d. r d < r x) (dependencies_of graph x)

module _ (graph : Dict (List String)) where
  ordered-dependencies :
      (order : List String) (x : String)
      → IsOrdered graph order
      → elem x order ≡ true
      → All (λ d. elem d order ≡ true) (dependencies_of graph x)
  unfolding elem
  ordered-dependencies [] x o h = absurd (cc)
  ordered-dependencies (y ∷ ys) x o h = elim (str_cases x y) [
    | inl e ↦
        All-map (λ d. elem d ys ≡ true) (λ d. elem d (y ∷ ys) ≡ true) (λ d k. ground arith)
          (dependencies_of graph x)
          (subst (λ z. All (λ d. elem d ys ≡ true) (dependencies_of graph z)) (sym e) o.0)
    | inr e ↦
        All-map (λ d. elem d ys ≡ true) (λ d. elem d (y ∷ ys) ≡ true) (λ d k. ground arith)
          (dependencies_of graph x) (ordered-dependencies ys x o.1 (ground arith))
  ]

  pub ordered-IsRanked :
      (order : List String) (x : String)
      → IsOrdered graph order
      → elem x order ≡ true
      → IsRanked graph (λ s. rank s order) x
  unfolding rank elem
  ordered-IsRanked [] x o h = absurd (cc)
  ordered-IsRanked (y ∷ ys) x o h = elim (Bool-cases (elem x ys)) [
    | inl later ↦
        All-both (dependencies_of graph x) (ordered-dependencies ys x o.1 later)
          (ordered-IsRanked ys x o.1 later) λ d there below. rw (there, later) below
    | inr not_later ↦
        let e : x ≡ y = (str_eq_iff x y).0 (ground arith) in
        All-map (λ d. elem d ys ≡ true) (λ d. rank d (y ∷ ys) < rank x (y ∷ ys))
          (λ d there. rw (there, not_later) (omega (arith, rank-le_length d ys)))
          (dependencies_of graph x)
          (subst (λ z. All (λ d. elem d ys ≡ true) (dependencies_of graph z)) (sym e) o.0)
  ]
    where
      All-both :
          {P Q R : String → Type 0} (ds : List String)
          → All P ds
          → All Q ds
          → ((d : String) → P d → Q d → R d)
          → All R ds
      All-both [] p q f = tt
      All-both (d ∷ ds) p q f = (f d p.0 q.0, All-both ds p.1 q.1 f)

  -- With ranks there is no way from a stack of higher names back into it.
  abbrev IsAbove : (String → ℕ) → String → List String → Type 0
  IsAbove r id stack = All (λ s. r id < r s) stack

  above-fresh :
      (r : String → ℕ) (id : String) (stack : List String)
      → IsAbove r id stack
      → elem id stack ≡ false
  unfolding elem
  above-fresh r id [] h = refl
  above-fresh r id (s ∷ stack) h = elim (str_cases id s) [
    | inl e ↦ absurd (let k = subst (λ z. r id < r z) (sym e) h.0 in omega arith)
    | inr e ↦ ground (arith, above-fresh r id stack h.1)
  ]

  -- A search over ranked names, started under a stack of higher ones, meets no cycle.
  pub visit-acyclic :
      (r : String → ℕ)
      → ((x : String) → IsRanked graph r x)
      → (fuel : ℕ) (stack : List String) (id : String) → IsAbove r id stack
      → (v : List String) → NoCycle (visit fuel graph stack v id)
  unfolding visit
  visit-acyclic r ranked zero stack id above v = λ path e. cc
  visit-acyclic r ranked (suc fuel) stack id above v =
      let below =
        All-map (λ d. r d < r id)
          (λ d. (u : List String) → NoCycle (visit fuel graph (id ∷ stack) u d))
          (λ d lower. visit-acyclic r ranked fuel (id ∷ stack) d (
            lower,
            All-map (λ s. r id < r s) (λ s. r d < r s) (λ s higher. omega arith) stack above,
          ))
          (dependencies_of graph id) (ranked id) in
      rw (above-fresh r id stack above) (
        if_safe NoCycle (elem id v) (λ path e. cc)
          (and_then-safe NoCycle (λ u path e. cc) _
            (visit_all-safe NoCycle (λ u path e. cc) (visit fuel graph (id ∷ stack))
              (dependencies_of graph id) below v)
            (λ u. done (id ∷ u)) (λ u path e. cc)))
