-- ===== src/Validate.antt =====
-- pkg/pipeline/validate.go: `Validate`, `validateJob` and `validateStep`. The compiler of CEL
-- expressions is a third-party package: `check_expr` says whether an expression is accepted, and if
-- so whether it refers to output(). A successful run returns the pipeline with what it writes: the
-- `When` fields and the order; after an error the caller has no pipeline to go on with.
pub mod Names
pub mod Checks
pub mod Secrets
pub mod Tests
pub mod Index
pub mod Order
pub mod Kept
pub mod Passed
pub mod Unique
pub mod Sources
pub mod SecretTargets
use cicada.Base.{
  ℕ, suc, String, List, [], ◌∷◌, Bool, Option, none, some, not, if◌then◌else◌, is_empty, is_blank,
  any, lookup, insert, contains, string_eq,
}
use cicada.Model
use cicada.Model.{Error, Result, ok, err, ◌>>=◌, guard, ◌then_check◌, When, Job, Step, Pipeline}
use cicada.Graph.{JobGraph, topo_sort}
use Names.{valid_name}
use Checks.{
  fail_if, validate_env_vars, validate_exports, validate_artifacts, validate_publish,
  validate_retry, validate_timeout, validate_shell, check_self_deps,
}
use Secrets.{
  Used, validate_secret_decls, validate_refs, validate_secret_refs, validate_secret_inheritance,
  secret_decl_set,
}

abbrev pub Index : Type 0
Index = List (String × ℕ)

pub name_checks : Job → Index → Option Error
unfolding valid_name
name_checks j index = fail_if (is_empty j.name) Model.empty_job_name (
    fail_if (not (valid_name j.name)) Model.invalid_name
      (elim (lookup index j.name) [ none ↦ none | some _ ↦ some Model.duplicate_job ]))

pub job_checks : Job → Option Error
job_checks j = fail_if (is_empty j.image) Model.missing_image (
    fail_if (is_empty j.steps) Model.empty_job (
      validate_env_vars j.env
      then_check validate_exports j.exports
      then_check validate_artifacts j.artifacts j.depends_on
      then_check validate_publish j.publish
      then_check validate_timeout j.timeout
      then_check validate_retry j.retry
      then_check validate_shell j.shell))

pub step_checks : Step → List String → Option Error
unfolding valid_name
step_checks s seen = fail_if (is_empty s.name) Model.empty_step_name (
    fail_if (not (valid_name s.name)) Model.invalid_name (
      fail_if (contains seen s.name) Model.duplicate_step (
        fail_if (is_empty s.run) Model.missing_run
          (fail_if (any is_blank s.run) Model.empty_run_command none))))

pub step_field_checks : Step → Option Error
step_field_checks s =
    validate_timeout s.timeout
    then_check validate_shell s.shell
    then_check validate_env_vars s.env
    then_check validate_retry s.retry
    then_check validate_exports s.exports

pub pipeline_checks : Pipeline → Option Error
pipeline_checks p =
    fail_if (is_empty p.jobs) Model.empty_pipeline
      (validate_env_vars p.env then_check validate_secret_decls p.secrets)

-- From the self-dependency check on: the graph is made of the jobs and of the filled index.
pub order_jobs : Pipeline → List Job × Index → Result (Pipeline × List ℕ)
order_jobs p (jobs, index) = guard (check_self_deps jobs) (
    topo_sort (record { jobs = jobs; index = index }) >>= λ order.
    ok (record p { jobs = jobs; topo_order = some order }, order))

module _ (check_expr : String → Option Bool) where
  -- `When.Validate`: the flag and the cached tree are set anew.
  pub validate_when : Option When → Result (Option When)
  validate_when none = ok none
  validate_when (some w) = elim (check_expr w.expression) [
    | none ↦ err Model.invalid_condition
    | some d ↦
        ok (some (record { expression = w.expression; deferred = d; parsed = some w.expression }))
  ]

  abbrev pub reject_deferred : Option When → Option Error
  reject_deferred none = none
  reject_deferred (some w) = fail_if w.deferred Model.deferred_step_when none

  pub validate_step : Step → List String → Result Step
  unfolding step_checks validate_when step_field_checks
  validate_step s seen = guard (step_checks s seen) (
      validate_when s.when >>= λ w.
      guard (reject_deferred w then_check step_field_checks s) (ok (record s { when = w })))

  -- The loop over the steps of job `j`.
  pub validate_steps : Job → List String → Used → List String → List Step → Result (List Step)
  unfolding validate_step
  validate_steps j declared used seen [] = ok []
  validate_steps j declared used seen (s ∷ steps) = do
    s' ← validate_step s seen
    guard (validate_artifacts s.artifacts j.depends_on) (
        validate_refs declared [] s.secrets used >>= λ _.
        guard (validate_secret_inheritance j.secrets s.secrets)
          (validate_steps j declared used (s.name ∷ seen) steps >>= λ rest. ok (s' ∷ rest)))

  pub validate_job : ℕ → Job → Index → List String → Result (Job × Index)
  unfolding name_checks job_checks validate_steps
  validate_job idx j index declared = guard (name_checks j index) (
      guard (job_checks j) (
        validate_secret_refs j.secrets declared >>= λ used. validate_when j.when >>= λ w.
        validate_steps j declared used [] j.steps >>= λ steps.
        ok (record j { when = w; steps = steps }, insert index j.name idx)))

  pub validate_jobs : ℕ → List Job → Index → List String → Result (List Job × Index)
  unfolding validate_job
  validate_jobs idx [] index declared = ok ([], index)
  validate_jobs idx (j ∷ jobs) index declared =
      validate_job idx j index declared >>= λ (j', index').
      validate_jobs (suc idx) jobs index' declared >>= λ (jobs', index''). ok (j' ∷ jobs', index'')

  unfoldable pub validate : Pipeline → Result (Pipeline × List ℕ)
  unfolding validate_jobs pipeline_checks order_jobs
  validate p =
      guard (pipeline_checks p)
        (validate_jobs 0 p.jobs [] (secret_decl_set p.secrets) >>= order_jobs p)
