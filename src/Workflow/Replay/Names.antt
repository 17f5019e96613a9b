-- ===== src/Workflow/Replay/Names.antt =====
-- Proofs about the names of the nodes in `reconstruct_workflow_status`.
use agent_workflow.Base.{
  String, ◌≡◌, refl, ◌∙◌, sym, ap, Bool, true, false, not, ◌&&◌, some, List, [], ◌∷◌, map, Dict,
  lookup, insert, keys, values, distinct, elem, All, str_eq, str_eq_iff, str_eq_refl, ok,
  fold_result-inv, Bool-cases, inl, inr, arith,
}
use agent_workflow.Workflow.Types.{Node, Event, NodeStatus}
use agent_workflow.Workflow.Replay.{Replay, apply_event, start, dependencies_of, replay}
use agent_workflow.Workflow.Replay.Changes.{Changed, Applied, moved, bound}
use agent_workflow.Workflow.Replay.Steps.{apply_event-Applied}

-- A write at a key that is there keeps the keys.
keys-insert {ℓ} :
    {V : Type ℓ} (k : String) (u v : V) (m : Dict V)
    → lookup k m ≡ some u
    → keys (insert k v m) ≡ keys m
unfolding lookup insert keys
keys-insert k u v [] h = absurd (cc)
keys-insert k u v ((j, w) ∷ m) h = elim (Bool-cases (str_eq j k)) [
  | inl e ↦ rw e (ap (λ x. x ∷ map (λ p. p.0) m) (sym ((str_eq_iff j k).0 e)))
  | inr e ↦ rw e (ap (λ x. j ∷ x) (keys-insert k u v m (rw e at h)))
]

start-keys : (nodes : List Node) → keys (start nodes).nodes ≡ map (λ n. n.node_id) nodes
unfolding start keys
start-keys [] = refl
start-keys (n ∷ nodes) = ap (λ x. n.node_id ∷ x) (start-keys nodes)

pub replay-keys :
    (workflow_id digest : String) (nodes : List Node) (events : List Event) (r : Replay)
    → replay workflow_id digest nodes events ≡ ok r
    → keys r.nodes ≡ map (λ n. n.node_id) nodes
unfolding replay
replay-keys workflow_id digest nodes events r h =
    let dependencies = dependencies_of nodes in
    fold_result-inv (apply_event workflow_id digest dependencies)
      (λ x. keys x.nodes ≡ map (λ n. n.node_id) nodes)
      (λ s x t same step.
        by_step s t x.node_id (apply_event-Applied workflow_id digest dependencies s t x step)
        ∙ same)
      (start nodes) events r (start-keys nodes) h
  where
    changed :
        (r r' : Replay) (id : String) (s s' : NodeStatus)
        → Changed r r' id s s'
        → keys r'.nodes ≡ keys r.nodes
    changed r r' id s s' c = ap keys c.exact ∙ keys-insert id s s' r.nodes c.found

    by_step :
        (r r' : Replay) (id : String)
        → Applied (dependencies_of nodes) r r' id
        → keys r'.nodes ≡ keys r.nodes
    by_step r r' id (moved s s' p n c m) = changed r r' id s s' c
    by_step r r' id (bound s s' b c m) = changed r r' id s s' c

-- Under distinct keys, each value that bears its key is found under its name.
later_found :
    (k : String) (t : NodeStatus) (m : Dict NodeStatus) (ss : List NodeStatus)
    → elem k (map (λ s. s.node_id) ss) ≡ false
    → All (λ s. lookup s.node_id m ≡ some s) ss
    → All (λ s. lookup s.node_id ((k, t) ∷ m) ≡ some s) ss
unfolding elem lookup
later_found k t m [] h found = tt
later_found k t m (s ∷ ss) h found =
    let other : str_eq k s.node_id ≡ false = ground arith in
    (rw other found.0, later_found k t m ss (ground arith) found.1)

named_values :
    (m : Dict NodeStatus)
    → All (λ e. e.1.node_id ≡ e.0) m
    → map (λ s. s.node_id) (values m) ≡ keys m
unfolding values keys
named_values [] h = refl
named_values ((k, s) ∷ m) h = rw h.0 (ap (λ x. k ∷ x) (named_values m h.1))

pub values-found :
    (m : Dict NodeStatus)
    → All (λ e. e.1.node_id ≡ e.0) m
    → distinct (map (λ s. s.node_id) (values m)) ≡ true
    → All (λ s. lookup s.node_id m ≡ some s) (values m)
unfolding values distinct lookup
values-found [] keyed h = tt
values-found ((k, s) ∷ m) keyed h =
    let first : str_eq k s.node_id ≡ true = rw keyed.0 (str_eq_refl k) in
    let names = map (λ x. x.node_id) (values m) in
    let parts = both (elem s.node_id names) (distinct names) h in
    (
      rw first refl,
      later_found k s m (values m) (rw keyed.0 at parts.0) (values-found m keyed.1 parts.1),
    )
  where
    both : (a b : Bool) → (not a && b) ≡ true → (a ≡ false) × (b ≡ true)
    both true b h = cc
    both false b h = (refl, h)

pub replay-distinct :
    (workflow_id digest : String) (nodes : List Node) (events : List Event) (r : Replay)
    → replay workflow_id digest nodes events ≡ ok r
    → All (λ e. e.1.node_id ≡ e.0) r.nodes
    → distinct (map (λ n. n.node_id) nodes) ≡ true
    → distinct (map (λ s. s.node_id) (values r.nodes)) ≡ true
replay-distinct workflow_id digest nodes events r h keyed names =
    ap distinct (named_values r.nodes keyed ∙ replay-keys workflow_id digest nodes events r h)
    ∙ names
