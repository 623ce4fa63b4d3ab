-- ===== src/Runner/Dag.antt =====
-- `buildDAG` and `detectCycles` of internal/runner/runner.go: the checks of the runner's own graph.
pub mod Build
pub mod Ranked
pub mod Unseen
pub mod Total
pub mod Accepts
mod Tests
use cicada.Base.{
  ℕ, zero, suc, String, List, [], ◌∷◌, Option, none, some, Bool, true, false, if◌then◌else◌, length,
  lookup, insert, contains, map, string_eq,
}
use cicada.Model.{
  Error, Result, ok, err, ◌>>=◌, guard, duplicate_job, unknown_dep, cycle_detected, fuel_exhausted,
}
use cicada.Graph.{Mark, unvisited, visiting, visited}
use cicada.Runner.Graph.{RunJob}

-- `map[string]*dagNode`, with what the checks read of a node.
abbrev pub Nodes : Type 0
Nodes = List (String × List String)

pub add_nodes : List RunJob → Nodes → Result Nodes
add_nodes [] nodes = ok nodes
add_nodes (j ∷ jobs) nodes = elim (lookup nodes j.name) as (λ _. Result Nodes) [
  | some _ ↦ err duplicate_job
  | none ↦ add_nodes jobs (insert nodes j.name j.depends_on)
]

pub check_deps : Nodes → List String → Option Error
check_deps nodes [] = none
check_deps nodes (dep ∷ deps) = elim (lookup nodes dep) as (λ _. Option Error) [
  | none ↦ some unknown_dep
  | some _ ↦ check_deps nodes deps
]

pub check_known : Nodes → List RunJob → Option Error
unfolding check_deps
check_known nodes [] = none
check_known nodes (j ∷ jobs) = elim (check_deps nodes j.depends_on) as (λ _. Option Error) [
  | some e ↦ some e
  | none ↦ check_known nodes jobs
]

-- A missing entry is `unvisited`.
abbrev pub Marks : Type 0
Marks = List (String × Mark)

abbrev pub mark_at : Marks → String → Mark
mark_at s name = elim (lookup s name) as (λ _. Mark) [ none ↦ unvisited | some m ↦ m ]

-- `nodes[name].job.DependsOn`; the checks before leave no name without a node.
abbrev pub node_deps : Nodes → String → List String
node_deps nodes name = elim (lookup nodes name) as (λ _. List String) [
  | none ↦ []
  | some deps ↦ deps
]

-- `for _, name := range names { if err := visit(name); err != nil { return err } }`
pub visit_all : (String → Marks → Result Marks) → List String → Marks → Result Marks
visit_all visit [] s = ok s
visit_all visit (n ∷ names) s = visit n s >>= λ s'. visit_all visit names s'

-- The fuel bounds the depth of the search.
unfoldable pub visit_node : Nodes → ℕ → String → Marks → Result Marks
unfolding visit_all
visit_node nodes zero name s = err fuel_exhausted
visit_node nodes (suc fuel) name s = elim (mark_at s name) as (λ _. Result Marks) [
  | visited ↦ ok s
  | visiting ↦ err cycle_detected
  | unvisited ↦
      visit_all (visit_node nodes fuel) (node_deps nodes name) (insert s name visiting) >>= λ s'.
      ok (insert s' name visited)
]

abbrev pub node_names : Nodes → List String
node_names = map (λ (n, _). n)

unfoldable pub detect_cycles : Nodes → Result Marks
unfolding visit_node visit_all
detect_cycles nodes = visit_all (visit_node nodes (suc (length nodes))) (node_names nodes) []

unfoldable pub build_dag : List RunJob → Result Nodes
unfolding add_nodes check_known detect_cycles
build_dag jobs = add_nodes jobs [] >>= λ nodes.
    guard (check_known nodes jobs) (detect_cycles nodes >>= λ _. ok nodes)
