-- ===== src/Graph/Spec.antt =====
-- What `topoSort` promises: edges and walks between job indices, and what its failures mean.
use cicada.Base.{
  ℕ, String, List, none, some, ◌≡◌, ◌<◌, true, contains, distinct, position, lookup, length,
  string_eq, nat_eq,
}
use cicada.Model.{Error, cycle_detected, unknown_dep}
use cicada.Graph.{JobGraph, deps_of}

module _ (g : JobGraph) where
  -- Job `i` names job `j` in its DependsOn.
  abbrev pub Edge : ℕ → ℕ → Type 0
  Edge i j = (dep : String) × (contains (deps_of g i) dep ≡ true) × (lookup g.index dep ≡ some j)

  -- A chain of at least one dependency.
  pub data Walk (i : ℕ) : ℕ → Type 0 where
    one : {j : ℕ} → Edge i j → Walk i j
    more : {j k : ℕ} → Walk i j → Edge j k → Walk i k

  -- Every dependency of the listed jobs is known and stands before its job.
  pub record IsTopological (order : List ℕ) : Type 0 where
    pub unique : distinct order ≡ true
    pub resolved :
        (i : ℕ) (dep : String)
        → contains order i ≡ true
        → contains (deps_of g i) dep ≡ true
        → (j : ℕ) × (lookup g.index dep ≡ some j)
    pub before :
        (i j : ℕ)
        → contains order i ≡ true
        → Edge i j
        → (contains order j ≡ true) × (position order j < position order i)

  -- The errors of the search, with what each says of the graph.
  abbrev pub Fault : Error → Type 0
  Fault cycle_detected = (v : ℕ) × Walk v v
  Fault unknown_dep =
      (i : ℕ) × (dep : String) × (contains (deps_of g i) dep ≡ true) × (lookup g.index dep ≡ none)
  Fault _ = ⊥

  -- The index holds positions of the slice.
  abbrev pub InRange : Type 0
  InRange = (dep : String) (j : ℕ) → lookup g.index dep ≡ some j → j < length g.jobs
