-- ===== src/Workflow/Graph/Order.antt =====
-- Proofs about the finishing order of the cycle search of workflow.py.
use agent_workflow.Base.{
  ℕ, zero, suc, String, ◌≡◌, refl, subst, true, List, [], ◌∷◌, Dict, Bool-cases, inl, inr, elem,
  elem_self, All, arith,
}
use agent_workflow.Workflow.Graph.{
  Search, done, cycle, out_of_fuel, and_then, visit_all, dependencies_of, visit,
}

module _ (graph : Dict (List String)) where
  -- Every name stands before the names that it depends on.
  abbrev pub IsOrdered : List String → Type 0
  IsOrdered [] = Unit
  IsOrdered (x ∷ xs) = All (λ d. elem d xs ≡ true) (dependencies_of graph x) × IsOrdered xs

abbrev pub Includes : List String → List String → Type 0
Includes v v' = (s : String) → elem s v ≡ true → elem s v' ≡ true

done-injective : (a b : List String) → done a ≡ done b → a ≡ b
done-injective a b e = cc

not_done : {path v : List String} → cycle path ≡ done v → ⊥
not_done e = cc

with_done {ℓ} :
    {C : Type ℓ} (s : Search) (k : List String → Search) {v' : List String}
    → and_then s k ≡ done v'
    → ((u : List String) → s ≡ done u → k u ≡ done v' → C)
    → C
with_done (done u) k h c = c u refl h
with_done (cycle path) k h c = absurd (cc)
with_done out_of_fuel k h c = absurd (cc)

elem-cons_old : (s t : String) (ts : List String) → elem s ts ≡ true → elem s (t ∷ ts) ≡ true
unfolding elem
elem-cons_old s t ts h = ground arith

flat {ℓ κ μ} : {A : Type ℓ} {B : Type κ} {C : Type μ} → A × (B × C) → A × B × C
flat p = (p.0, p.1.0, p.1.1)

module _ (graph : Dict (List String)) where
  -- What a search that is done has done.
  abbrev pub Extends : List String → List String → Type 0
  Extends v v' = IsOrdered graph v' × Includes v v'

  abbrev pub IsSound : (List String → String → Search) → Type 0
  IsSound f =
      (v v' : List String) (id : String)
      → f v id ≡ done v'
      → IsOrdered graph v
      → (elem id v' ≡ true) × Extends v v'

  pub visit_all_sound :
      (f : List String → String → Search)
      → IsSound f
      → (v v' ds : List String) → visit_all f v ds ≡ done v'
      → IsOrdered graph v
      → All (λ d. elem d v' ≡ true) ds × Extends v v'
  unfolding visit_all
  visit_all_sound f sound v v' [] h o =
      let same : v ≡ v' = done-injective v v' h in
      (tt, (subst (IsOrdered graph) same o, λ s e. subst (λ x. elem s x ≡ true) same e))
  visit_all_sound f sound v v' (d ∷ ds) h o =
      with_done (f v d) (λ u. visit_all f u ds) h
        λ u first rest.
          let (has_d, ordered, more) = flat (sound v u d first o) in
          let (has_ds, ordered', more') = flat (visit_all_sound f sound u v' ds rest ordered) in
          ((more' d has_d, has_ds), (ordered', λ s e. more' s (more s e)))

  -- A search that is done visited its node, and all before it in dependency order.
  pub visit-IsSound : (fuel : ℕ) (stack : List String) → IsSound (visit fuel graph stack)
  unfolding visit
  visit-IsSound zero stack v v' id h o = absurd (cc)
  visit-IsSound (suc fuel) stack v v' id h o = elim (Bool-cases (elem id stack)) [
    | inl on_stack ↦ absurd (not_done (rw on_stack at h))
    | inr off_stack ↦ elim (Bool-cases (elem id v)) [
      | inl old ↦
          let same : v ≡ v' = done-injective v v' (rw (off_stack, old) at h) in
          (
            subst (λ x. elem id x ≡ true) same old,
            (subst (IsOrdered graph) same o, λ s e. subst (λ x. elem s x ≡ true) same e),
          )
      | inr new ↦
          with_done (visit_all (visit fuel graph (id ∷ stack)) v (dependencies_of graph id))
            (λ u. done (id ∷ u)) (rw (off_stack, new) at h)
            λ u all_done e.
              let same : id ∷ u ≡ v' = done-injective (id ∷ u) v' e in
              let (has_ds, ordered, more) = flat (
                visit_all_sound (visit fuel graph (id ∷ stack)) (visit-IsSound fuel (id ∷ stack)) v
                  u (dependencies_of graph id) all_done o) in
              (
                subst (λ x. elem id x ≡ true) same (elem_self id u),
                (
                  subst (IsOrdered graph) same (has_ds, ordered),
                  λ s k. subst (λ x. elem s x ≡ true) same (elem-cons_old s id u (more s k)),
                ),
              )
    ]
  ]
