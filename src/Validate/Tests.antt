-- ===== src/Validate/Tests.antt =====
-- Small pipelines, and what validation makes of them.
use cicada.Base.{String, str, List, [], ◌∷◌, none, some, Option, Bool, true, false, ◌≡◌, refl}
use cicada.Base.{◌↔◌, distinct, all, not, is_empty, contains, ◌++◌, string_eq}
use cicada.Validate.Order.{IsRunnable, validate_sound}
use cicada.Validate.Unique.{keys, targets, placed, validate_env_vars_iff, validate_artifacts_sound}
use cicada.Validate.SecretTargets.{
  well_targeted, env_targets, mount_targets, validate_secret_refs_sound,
}
use cicada.Validate.Secrets.{Used, validate_secret_refs}
use cicada.Validate.Checks.{validate_env_vars, validate_artifacts}
use cicada.Model
use cicada.Model.{Pipeline, ok, err}
use cicada.Model.Samples.{job, env_var}
use cicada.Validate.{validate}
use cicada.Graph.{topo_sort}
use cicada.Validate.Checks.{
  check_env_vars, check_exports, check_artifacts, validate_publish, validate_timeout,
  validate_retry, validate_shell, check_self_deps,
}
use cicada.Validate.Secrets.{check_secret_decls, validate_refs, check_inheritance}
use cicada.Validate.Names.{valid_name, posix_identifier}

-- Accepts every expression as a static one.
abbrev pub accept_all : String → Option Bool
accept_all e = some false

abbrev pub pipeline : List Model.Job → Pipeline
pipeline jobs = record {
  name = str "ci";
  jobs = jobs;
  env = [];
  secrets = [];
  matrix = none;
  defaults = none;
  topo_order = none;
}

abbrev pub chain : List Model.Job
chain =
    job (str "deploy") (str "test" ∷ str "build" ∷ [])
    ∷ job (str "build") []
    ∷ job (str "test") (str "build" ∷ [])
    ∷ []

abbrev pub sorted_chain : Pipeline
sorted_chain = record (pipeline chain) { topo_order = some (1 ∷ 2 ∷ 0 ∷ []) }

-- What a run of `validate` unfolds.
program : Unit {0}
unfolding validate check_env_vars check_secret_decls check_exports check_artifacts validate_publish
    validate_timeout validate_retry validate_shell validate_refs check_inheritance check_self_deps
    topo_sort
program = tt

pub validate-chain : validate accept_all (pipeline chain) ≡ ok (sorted_chain, 1 ∷ 2 ∷ 0 ∷ [])
unfolding program
validate-chain = refl

cyclic :
    validate accept_all
      (pipeline (job (str "a") (str "b" ∷ []) ∷ job (str "b") (str "a" ∷ []) ∷ []))
    ≡ err Model.cycle_detected
unfolding program
cyclic = refl

dangling :
    validate accept_all (pipeline (job (str "a") (str "z" ∷ []) ∷ [])) ≡ err Model.unknown_dep
unfolding program
dangling = refl

bad_name : validate accept_all (pipeline (job (str "a b") [] ∷ [])) ≡ err Model.invalid_name
unfolding program
bad_name = refl

matrix_name : valid_name (str "build[os=linux,platform=linux/amd64]") ≡ true
unfolding valid_name
matrix_name = refl

open_name : valid_name (str "build[os=]") ≡ false
unfolding valid_name
open_name = refl

validate_sound_example :
    IsRunnable chain (1 ∷ 2 ∷ 0 ∷ []) × (sorted_chain.topo_order ≡ some (1 ∷ 2 ∷ 0 ∷ []))
validate_sound_example =
    validate_sound accept_all (pipeline chain) sorted_chain (1 ∷ 2 ∷ 0 ∷ []) validate-chain

abbrev envs : List Model.EnvVar
envs = env_var (str "A") (str "1") ∷ env_var (str "B") (str "2") ∷ []

validate_env_vars_iff_example :
    (validate_env_vars envs ≡ none)
    ↔ ((distinct (keys envs) ≡ true) × (all (λ e. not (is_empty e.key)) envs ≡ true))
validate_env_vars_iff_example = validate_env_vars_iff envs

abbrev artifacts : List Model.Artifact
artifacts = record { from = str "build"; source = str "/out/app"; target = str "/in/app" } ∷ []

artifacts_accepted : validate_artifacts artifacts (str "build" ∷ []) ≡ none
unfolding check_artifacts
artifacts_accepted = refl

validate_artifacts_sound_example :
    (distinct (targets artifacts) ≡ true) × (all (placed (str "build" ∷ [])) artifacts ≡ true)
validate_artifacts_sound_example =
    validate_artifacts_sound artifacts (str "build" ∷ []) artifacts_accepted

abbrev job_refs : List Model.SecretRef
job_refs = record { name = str "token"; env = str "TOKEN"; mount = [] } ∷ []

abbrev step_refs : List Model.SecretRef
step_refs = record { name = str "key"; env = []; mount = str "/run/key" } ∷ []

abbrev declared : List String
declared = str "token" ∷ str "key" ∷ []

abbrev after_job : Used
after_job = record { envs = str "TOKEN" ∷ []; mounts = [] }

refs_accepted :
    (validate_secret_refs job_refs declared ≡ ok after_job)
    × (validate_refs declared [] step_refs after_job
        ≡ ok (record { envs = str "TOKEN" ∷ []; mounts = str "/run/key" ∷ [] }))
unfolding validate_refs posix_identifier
refs_accepted = (refl, refl)

validate_secret_refs_sound_example :
    (all (λ r. contains declared r.name) job_refs ≡ true)
    × (all (λ r. contains declared r.name) step_refs ≡ true)
    × (all well_targeted job_refs ≡ true)
    × (all well_targeted step_refs ≡ true)
    × (distinct (env_targets job_refs ++ env_targets step_refs) ≡ true)
    × (distinct (mount_targets job_refs ++ mount_targets step_refs) ≡ true)
validate_secret_refs_sound_example =
    validate_secret_refs_sound declared job_refs step_refs after_job
      (record { envs = str "TOKEN" ∷ []; mounts = str "/run/key" ∷ [] }) refs_accepted.0
      refs_accepted.1
