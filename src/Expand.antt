-- ===== src/Expand.antt =====
-- pkg/pipeline/expand.go: matrices are replaced by one job for each combination of their values.
pub mod Matrices
pub mod Naming
pub mod Known
pub mod Correlated
pub mod Variants
pub mod Flat
pub mod Closed
mod Tests
use cicada.Base.{
  ℕ, ◌+◌, String, str, List, [], ◌∷◌, ◌++◌, Option, none, some, Bool, true, false, if◌then◌else◌,
  not, ◌||◌, is_empty, contains, any, lookup, insert, map, string_eq,
}
use cicada.Model.{
  Job, Step, Matrix, Dimension, Cache, Artifact, Pipeline, Error, Result, ok, err, guard, ◌>>=◌,
  duplicate_dim,
}
use cicada.Params.{Vars, substitute_job_vars}
use cicada.Expand.Matrices.{validate_matrix, combinations}
use cicada.Expand.Naming.{expanded_name, copy_all}

abbrev pub dim_names : Matrix → List String
dim_names m = map (λ (d : Dimension). d.name) m.dimensions

abbrev pub has_common : List String → List String → Bool
has_common dims names = any (λ n. contains dims n) names

abbrev pub job_dims : Job → List String
job_dims j = elim j.matrix as (λ _. List String) [ none ↦ [] | some m ↦ dim_names m ]

abbrev pub check_dim_collisions : Matrix → List Job → Option Error
check_dim_collisions m jobs =
    if any (λ j. has_common (dim_names m) (job_dims j)) jobs then some duplicate_dim else none

-- A nil map is `none`. New values win.
abbrev pub merge_matrix_values : Option Vars → Option Vars → Option Vars
merge_matrix_values none none = none
merge_matrix_values none (some combo) = some (copy_all [] combo)
merge_matrix_values (some existing) none = some (copy_all [] existing)
merge_matrix_values (some existing) (some combo) = some (copy_all (copy_all [] existing) combo)

unfoldable pub replicate_job : Job → Vars → Job
unfolding substitute_job_vars
replicate_job j combo = substitute_job_vars j combo (str "matrix.")

abbrev pub matrix_cache_id : String → String → String
matrix_cache_id id job_name = id ++ (str "--" ++ job_name)

abbrev pub namespace_caches : String → List Cache → List Cache
namespace_caches job_name = map (λ (c : Cache). record c { id = matrix_cache_id c.id job_name })

abbrev pub correlate_deps : List String → Vars → List String
correlate_deps deps combo = map (λ dep. expanded_name dep combo) deps

abbrev pub correlate_artifacts : List Artifact → Vars → List Artifact
correlate_artifacts artifacts combo =
    map
      (λ (a : Artifact).
        if is_empty a.from then a else record a { from = expanded_name a.from combo })
      artifacts

abbrev pub correlate_step : Vars → String → Step → Step
correlate_step combo name s = record s {
  artifacts = correlate_artifacts s.artifacts combo;
  caches = namespace_caches name s.caches;
}

-- The body of the two loops of `expandPipeline`.
unfoldable pub correlated_job : Vars → Job → Job
unfolding replicate_job
correlated_job combo j =
    let name = expanded_name j.name combo in
    let r = replicate_job j combo in
    record r {
      name = name;
      matrix_values = some combo;
      depends_on = correlate_deps j.depends_on combo;
      artifacts = correlate_artifacts r.artifacts combo;
      caches = namespace_caches name r.caches;
      steps = map (correlate_step combo name) r.steps;
    }

pub correlated_jobs : List Job → List Vars → List Job
unfolding correlated_job
correlated_jobs jobs [] = []
correlated_jobs jobs (combo ∷ combos) =
    map (correlated_job combo) jobs ++ correlated_jobs jobs combos

pub expand_matrix : Pipeline → Matrix → Result Pipeline
unfolding correlated_jobs validate_matrix combinations
expand_matrix p m = guard (validate_matrix (some m)) (
    guard (check_dim_collisions m p.jobs) (
      combinations m >>= λ combos.
      ok (record p { matrix = none; jobs = correlated_jobs p.jobs combos })))

unfoldable pub expand_pipeline : Pipeline → Result Pipeline
unfolding expand_matrix
expand_pipeline p = elim p.matrix [ none ↦ ok p | some m ↦ expand_matrix p m ]

-- `expansionMap` and `expanded`.
pub record Expansion : Type 0 where
  pub variants : List (String × List String)
  pub expanded : List Job

abbrev pub namespace_step : String → Step → Step
namespace_step name s = record s { caches = namespace_caches name s.caches }

unfoldable pub variant_job : Job → Vars → Job
unfolding replicate_job
variant_job j combo =
    let name = expanded_name j.name combo in
    let r = replicate_job j combo in
    record r {
      name = name;
      matrix = none;
      matrix_values = merge_matrix_values j.matrix_values (some combo);
      caches = namespace_caches name r.caches;
      steps = map (namespace_step name) r.steps;
    }

abbrev pub add_variants : Expansion → String → List Job → Expansion
add_variants x name js = record {
  variants = insert x.variants name (map (λ (v : Job). v.name) js);
  expanded = x.expanded ++ js;
}

-- The variants of one job.
pub job_variants : Job → Result (List Job)
unfolding replicate_job variant_job validate_matrix combinations
job_variants j = elim j.matrix [
  | none ↦ ok (record (replicate_job j []) { matrix_values = j.matrix_values } ∷ [])
  | some m ↦
      guard (validate_matrix (some m))
        (combinations m >>= λ combos. ok (map (variant_job j) combos))
]

pub expand_each : List Job → Expansion → Result Expansion
unfolding job_variants
expand_each [] x = ok x
expand_each (j ∷ jobs) x = job_variants j >>= λ js. expand_each jobs (add_variants x j.name js)

pub rewrite_deps : List String → List (String × List String) → List String
rewrite_deps [] variants = []
rewrite_deps (dep ∷ deps) variants =
    elim (lookup variants dep) as (λ _. List String) [ none ↦ dep ∷ [] | some vs ↦ vs ]
    ++ rewrite_deps deps variants

-- The only variant of a job, if it has one.
abbrev pub sole_variant : Option (List String) → String → String
sole_variant (some (v ∷ [])) from = v
sole_variant _ from = from

abbrev pub rewrite_artifacts : List (String × List String) → List Artifact → List Artifact
rewrite_artifacts variants = map (λ (a : Artifact).
    if is_empty a.from then a else record a { from = sole_variant (lookup variants a.from) a.from })

unfoldable pub rewrite_job : List (String × List String) → Job → Job
unfolding rewrite_deps
rewrite_job variants j = record j {
  depends_on = rewrite_deps j.depends_on variants;
  artifacts = rewrite_artifacts variants j.artifacts;
  steps =
      map (λ (s : Step). record s { artifacts = rewrite_artifacts variants s.artifacts }) j.steps;
}

abbrev pub has_matrix : Job → Bool
has_matrix j = elim j.matrix as (λ _. Bool) [ none ↦ false | some _ ↦ true ]

unfoldable pub expand_jobs : Pipeline → Result Pipeline
unfolding expand_each rewrite_job
expand_jobs p =
    if not (any has_matrix p.jobs)
    then ok p
    else expand_each p.jobs (record { variants = []; expanded = [] }) >>= λ x.
        ok (record p { jobs = map (rewrite_job x.variants) x.expanded })

abbrev pub has_pipeline_matrix : Pipeline → Bool
has_pipeline_matrix p = elim p.matrix as (λ _. Bool) [ none ↦ false | some _ ↦ true ]

unfoldable pub expand : Pipeline → Result Pipeline
unfolding expand_pipeline expand_jobs
expand p =
    if not (has_pipeline_matrix p || any has_matrix p.jobs)
    then ok p
    else expand_pipeline p >>= expand_jobs
