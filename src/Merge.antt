-- ===== src/Merge.antt =====
-- pkg/pipeline/merge.go: job groups are merged in document order, and aliases of included files are
-- replaced by the jobs that end them.
pub mod Groups
pub mod Aliases
pub mod Terminals
mod Tests
use cicada.Base.{
  String, List, [], ◌∷◌, ◌++◌, Option, none, some, Bool, true, false, if◌then◌else◌, not, ◌&&◌,
  ◌||◌, is_empty, contains, keep, any, lookup, insert, map, ◌==◌, string_eq,
}
use cicada.Model.{
  Job, JobGroup, ConflictStrategy, conflict_error, conflict_skip, Error, Result, ok, err, ◌>>=◌,
  duplicate_job, alias_collision,
}

-- `seen` maps the name of each merged job to its origin.
pub record Merged : Type 0 where
  pub merged : List Job
  pub seen : List (String × String)

abbrev pub add_job : Merged → Job → String → Merged
add_job m j origin = record { merged = m.merged ++ j ∷ []; seen = insert m.seen j.name origin }

-- The inner loop, over the jobs of one group.
pub merge_group : ConflictStrategy → String → List Job → Merged → Result Merged
merge_group strategy origin [] m = ok m
merge_group strategy origin (j ∷ jobs) m = elim (lookup m.seen j.name) [
  | none ↦ merge_group strategy origin jobs (add_job m j origin)
  | some _ ↦ elim strategy [
    | conflict_skip ↦ merge_group strategy origin jobs m
    | conflict_error ↦ err duplicate_job
  ]
]

pub merge_groups : List JobGroup → Merged → Result Merged
unfolding merge_group
merge_groups [] m = ok m
merge_groups (g ∷ groups) m = merge_group g.on_conflict g.origin g.jobs m >>= merge_groups groups

unfoldable pub merge_jobs : List JobGroup → Result (List Job)
unfolding merge_groups
merge_jobs groups = merge_groups groups (record { merged = []; seen = [] }) >>= λ m. ok m.merged

-- The set `depended` of `TerminalJobs`.
abbrev pub depended : List Job → List String
depended [] = []
depended (j ∷ jobs) = j.depends_on ++ depended jobs

abbrev pub job_names : List Job → List String
job_names = map (λ j. j.name)

unfoldable pub terminal_jobs : List Job → List String
terminal_jobs jobs = keep (λ n. not (contains (depended jobs) n)) (job_names jobs)

abbrev pub Aliases : Type 0
Aliases = List (String × List String)

-- The targets of one dependency.
pub alias_targets : Aliases → String → List String
alias_targets aliases dep = elim (lookup aliases dep) [
  | none ↦ dep ∷ []
  | some ts ↦ if is_empty ts then dep ∷ [] else ts
]

-- The innermost loop of `expandDeps`; the set `seen` holds what `deduped` lists.
pub add_targets : List String → List String → List String
add_targets [] deduped = deduped
add_targets (t ∷ ts) deduped =
    add_targets ts (if contains deduped t then deduped else deduped ++ t ∷ [])

pub expand_deps_from : Aliases → List String → List String → List String
unfolding add_targets alias_targets
expand_deps_from aliases [] deduped = deduped
expand_deps_from aliases (dep ∷ deps) deduped =
    expand_deps_from aliases deps (add_targets (alias_targets aliases dep) deduped)

unfoldable pub expand_deps : List String → Aliases → List String
unfolding expand_deps_from
expand_deps deps aliases = expand_deps_from aliases deps []

-- An alias that is a job's name is tolerated if it stands for exactly itself.
pub is_itself : String → List String → Bool
is_itself alias (t ∷ []) = t == alias
is_itself alias _ = false

pub collides : List String → Aliases → Bool
unfolding is_itself
collides names [] = false
collides names ((alias, ts) ∷ aliases) =
    contains names alias && not (is_itself alias ts) || collides names aliases

abbrev pub expand_job : Aliases → Job → Job
expand_job aliases j =
    if is_empty j.depends_on then j else record j { depends_on = expand_deps j.depends_on aliases }

unfoldable pub expand_aliases : List Job → Aliases → Result (List Job)
unfolding collides expand_deps
expand_aliases jobs aliases =
    if is_empty aliases
    then ok jobs
    else if collides (job_names jobs) aliases
    then err alias_collision
    else ok (map (expand_job aliases) jobs)
