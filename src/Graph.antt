-- ===== src/Graph.antt =====
-- pkg/pipeline/validate.go: `jobGraph`, `resolveDep` and `topoSort`, a depth-first search with three
-- states. Indices come from `index`, so they are in range; `visit` recurs on fuel, one more than the
-- number of jobs, and each nested call follows a job that turned from unvisited to visiting.
pub mod Spec
pub mod Marks
pub mod Deps
pub mod Visit
pub mod Sort
mod Tests
use cicada.Base.{
  ℕ, zero, suc, String, List, [], ◌∷◌, ◌++◌, Option, none, some, length, get_elem?, get_or, set,
  replicate, lookup, string_eq,
}
use cicada.Model.{Job, Error, cycle_detected, unknown_dep, fuel_exhausted, Result, ok, err, ◌>>=◌}

pub data Mark : Type 0 where
  unvisited visiting visited : Mark

pub record JobGraph : Type 0 where
  pub jobs : List Job
  pub index : List (String × ℕ)

-- The variables that the closure `visit` shares.
pub record Dfs : Type 0 where
  pub state : List Mark
  pub order : List ℕ

abbrev pub mark_of : Dfs → ℕ → Mark
mark_of s i = get_or s.state i unvisited

-- `jobs[i].DependsOn`
abbrev pub job_deps : List Job → ℕ → List String
job_deps jobs i = elim (get_elem? jobs i) [ none ↦ [] | some j ↦ j.depends_on ]

abbrev pub deps_of : JobGraph → ℕ → List String
deps_of g i = job_deps g.jobs i

module _ (g : JobGraph) where
  pub resolve_dep : String → Result ℕ
  resolve_dep dep = elim (lookup g.index dep) [ none ↦ err unknown_dep | some j ↦ ok j ]

  -- The loop over the dependencies of one job.
  pub visit_deps : (ℕ → Dfs → Result Dfs) → List String → Dfs → Result Dfs
  unfolding resolve_dep
  visit_deps rec [] s = ok s
  visit_deps rec (dep ∷ deps) s = do j ← resolve_dep dep; s' ← rec j s; visit_deps rec deps s'

  abbrev pub enter : Dfs → ℕ → Dfs
  enter s i = record s { state = set s.state i visiting }

  abbrev pub leave : Dfs → ℕ → Dfs
  leave s i = record { state = set s.state i visited; order = s.order ++ i ∷ [] }

  pub visit : ℕ → ℕ → Dfs → Result Dfs
  unfolding visit_deps
  visit zero i s = err fuel_exhausted
  visit (suc fuel) i s = elim (mark_of s i) [
    | visited ↦ ok s
    | visiting ↦ err cycle_detected
    | unvisited ↦ visit_deps (visit fuel) (deps_of g i) (enter s i) >>= λ s'. ok (leave s' i)
  ]

  -- The loop `for i := range g.jobs`, with `rounds` jobs left from index `i` on.
  pub visit_from : ℕ → ℕ → ℕ → Dfs → Result Dfs
  unfolding visit
  visit_from fuel zero i s = ok s
  visit_from fuel (suc rounds) i s = visit fuel i s >>= λ s'. visit_from fuel rounds (suc i) s'

  abbrev pub blank : Dfs
  blank = record { state = replicate (length g.jobs) unvisited; order = [] }

  unfoldable pub topo_sort : Result (List ℕ)
  unfolding visit_from
  topo_sort = let n = length g.jobs in visit_from (suc n) n 0 blank >>= λ s. ok s.order
