-- ===== src/Workflow/Graph/Safe.antt =====
-- Proofs about the loops of the cycle search of workflow.py.
use agent_workflow.Base.{String, Bool, true, false, List, [], ◌∷◌, All, if◌then◌else◌}
use agent_workflow.Workflow.Graph.{Search, done, cycle, out_of_fuel, and_then, visit_all}

module _ (P : Search → Type 0) where
  pub if_safe : (b : Bool) {s t : Search} → P s → P t → P (if b then s else t)
  if_safe true p q = p
  if_safe false p q = q

module _ (P : Search → Type 0) (finished : (u : List String) → P (done u)) where
  pub and_then-safe :
      (s : Search)
      → P s
      → (k : List String → Search) → ((u : List String) → P (k u))
      → P (and_then s k)
  and_then-safe (done u) p k q = q u
  and_then-safe (cycle path) p k q = p
  and_then-safe out_of_fuel p k q = p

  pub visit_all-safe :
      (f : List String → String → Search) (ds : List String)
      → All (λ d. (v : List String) → P (f v d)) ds
      → (v : List String) → P (visit_all f v ds)
  unfolding visit_all
  visit_all-safe f [] safe v = finished v
  visit_all-safe f (d ∷ ds) safe v =
      and_then-safe (f v d) (safe.0 v) (λ u. visit_all f u ds) (visit_all-safe f ds safe.1)
