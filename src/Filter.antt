-- ===== src/Filter.antt =====
-- pkg/pipeline/filter.go: `FilterJobs` and what it is made of. A set of names is a list; `none` is the
-- nil set, the universe. Go visits the window in an unspecified order; the theorems determine the
-- result as a set.
pub mod Reach
pub mod Target
pub mod Trim
pub mod Edges
pub mod Selected
pub mod Closed
mod Tests
use cicada.Base.{
  ℕ, zero, suc, String, List, [], ◌∷◌, ◌++◌, Option, none, some, Bool, ltb, if◌then◌else◌, not,
  ◌&&◌, is_empty, contains, keep, length, insert, map, ◌==◌, string_eq,
}
use cicada.Model.{
  Job, Step, FilterOpts, Error, Result, ok, err, ◌>>=◌, guard, ◌then_check◌, orphaned_step,
  unknown_start_at, unknown_stop_after, unknown_start_at_step, unknown_stop_after_step,
  empty_filter_result,
}
use Reach.{Adjacency, targets, entries, bfs_reachable, add_all}
use Target.{FilterTarget, parse_filter_target}
use Trim.{job_has_step, strip_step, apply_step_trimming}

pub record JobAdj : Type 0 where
  pub dependents : Adjacency
  pub dependencies : Adjacency

-- `jobByName`: the last job of a name stays in the map.
unfoldable pub job_by_name : List Job → String → Option Job
job_by_name [] name = none
job_by_name (j ∷ jobs) name = elim (job_by_name jobs name) [
  | some k ↦ some k
  | none ↦ if name == j.name then some j else none
]

-- `for _, dep := range deps { dependents[dep] = append(dependents[dep], name) }`
pub add_dependents : String → List String → Adjacency → Adjacency
add_dependents name [] m = m
add_dependents name (dep ∷ deps) m =
    add_dependents name deps (insert m dep (targets m dep ++ name ∷ []))

pub build_adj : List Job → JobAdj → JobAdj
unfolding add_dependents
build_adj [] adj = adj
build_adj (j ∷ jobs) adj = build_adj jobs record {
  dependents = add_dependents j.name j.depends_on adj.dependents;
  dependencies = insert adj.dependencies j.name j.depends_on;
}

pub validate_target : FilterTarget → List Job → Error → Error → Option Error
unfolding job_by_name job_has_step
validate_target t jobs err_job err_step =
    if is_empty t.job
    then if is_empty t.step then none else some orphaned_step
    else elim (job_by_name jobs t.job) [
      | none ↦ some err_job
      | some j ↦
          if not (is_empty t.step) && not (job_has_step j t.step) then some err_step else none
    ]

abbrev pub no_adj : JobAdj
no_adj = record { dependents = []; dependencies = [] }

pub build_job_adj : List Job → FilterTarget → FilterTarget → Result JobAdj
unfolding build_adj validate_target
build_job_adj jobs start_at stop_after =
    guard
      (validate_target start_at jobs unknown_start_at unknown_start_at_step
        then_check validate_target stop_after jobs unknown_stop_after unknown_stop_after_step)
      (ok (build_adj jobs no_adj))

-- `if t.Job != "" { set = bfsReachable(t.Job, adj) }`
pub reach_set : FilterTarget → Adjacency → Result (Option (List String))
unfolding bfs_reachable
reach_set t adj =
    if is_empty t.job then ok none else bfs_reachable t.job adj >>= λ set. ok (some set)

pub intersect_sets : Option (List String) → Option (List String) → Option (List String)
intersect_sets none b = b
intersect_sets (some a) none = some a
intersect_sets (some a) (some b) =
    if ltb (length b) (length a) then some (keep (contains a) b) else some (keep (contains b) a)

-- `len(set) == 0`
abbrev pub no_names : Option (List String) → Bool
no_names none = Bool.true
no_names (some a) = is_empty a

abbrev pub members : Option (List String) → List String
members none = []
members (some a) = a

-- A job outside the window keeps nothing that leaves the container.
abbrev pub strip_job : Job → Job
strip_job j = record j { exports = []; publish = none; steps = map strip_step j.steps }

abbrev pub select_job : List String → Job → Job
select_job window j = if contains window j.name then j else strip_job j

pub select_jobs : (window full : List String) → List Job → List Job
select_jobs window full jobs = map (select_job window) (keep (λ j. contains full j.name) jobs)

-- From the execution window on.
pub filter_window :
    List Job → FilterTarget → FilterTarget → Adjacency → Option (List String) → Result (List Job)
unfolding select_jobs
filter_window jobs start_at stop_after deps window =
    if no_names window
    then err empty_filter_result
    else add_all (suc (length (entries deps))) deps (members window) (members window) >>= λ full.
        apply_step_trimming start_at stop_after (select_jobs (members window) full jobs)

-- From the adjacency maps on.
pub filter_by_adj : List Job → FilterTarget → FilterTarget → JobAdj → Result (List Job)
unfolding reach_set intersect_sets filter_window
filter_by_adj jobs start_at stop_after adj = reach_set start_at adj.dependents >>= λ forward.
    reach_set stop_after adj.dependencies >>= λ backward.
    filter_window jobs start_at stop_after adj.dependencies (intersect_sets forward backward)

unfoldable pub filter_jobs : List Job → FilterOpts → Result (List Job)
unfolding filter_by_adj build_job_adj parse_filter_target apply_step_trimming add_all
filter_jobs jobs opts =
    let start_at = parse_filter_target opts.start_at in
    let stop_after = parse_filter_target opts.stop_after in
    if is_empty opts.start_at && is_empty opts.stop_after
    then ok jobs
    else build_job_adj jobs start_at stop_after >>= filter_by_adj jobs start_at stop_after
