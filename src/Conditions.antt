-- ===== src/Conditions.antt =====
-- pkg/pipeline/when.go: jobs and steps whose static conditions are false are left out.
pub mod Kept
pub mod Cleaned
pub mod Closed
mod Tests
use cicada.Base.{
  String, List, [], ◌∷◌, ◌++◌, Option, none, some, Bool, true, false, if◌then◌else◌, not, is_empty,
  contains, keep, lookup, insert, map, string_eq,
}
use cicada.Model.{
  Job, Step, When, EnvVar, Artifact, Pipeline, ConditionResult, Result, ok, err, ◌>>=◌,
  job_condition, step_condition,
}
use cicada.Merge.{job_names}
use cicada.Params.{Vars}
use cicada.Defaults.{merge_env, build_env_scope}

abbrev pub SkippedSteps : Type 0
SkippedSteps = List (String × List String)

abbrev pub keep_artifacts : List String → List Artifact → List Artifact
keep_artifacts skipped = keep (λ a. not (contains skipped a.from))

abbrev pub clean_step : List String → Step → Step
clean_step skipped s = record s { artifacts = keep_artifacts skipped s.artifacts }

unfoldable pub clean_job_refs : List String → Job → Job
clean_job_refs skipped j = record j {
  depends_on = keep (λ n. not (contains skipped n)) j.depends_on;
  artifacts = keep_artifacts skipped j.artifacts;
  steps = map (clean_step skipped) j.steps;
}

-- `skippedSteps[name] = append(skippedSteps[name], steps...)`
abbrev pub add_skipped : SkippedSteps → String → List String → SkippedSteps
add_skipped m name [] = m
add_skipped m name (s ∷ steps) = elim (lookup m name) as (λ _. SkippedSteps) [
  | none ↦ insert m name (s ∷ steps)
  | some old ↦ insert m name (old ++ s ∷ steps)
]

abbrev pub empty_jobs : List Job → List String
empty_jobs jobs = job_names (keep (λ j. is_empty j.steps) jobs)

-- Phase 3, with the names skipped so far.
pub drop_empty : List Job → List String → List Job × List String
unfolding clean_job_refs
drop_empty jobs skipped =
    let empty = empty_jobs jobs in
    if is_empty empty then (jobs, skipped) else (
      map (clean_job_refs empty) (keep (λ j. not (contains empty j.name)) jobs),
      skipped ++ empty,
    )

-- The CEL evaluator of a static context: an expression, its cached tree, an environment and matrix
-- values; `none` is an error. The branch, the tag and the process environment are fixed.
module _ (eval_cel : String → Option String → Vars → Option Vars → Option Bool) where
  pub evaluate : When → Vars → Option Vars → Option Bool
  evaluate w scope matrix = if w.deferred then none else eval_cel w.expression w.parsed scope matrix

  -- Whether a job or a step stays; a deferred condition is for the runner.
  pub decide : Option When → Vars → Option Vars → Option Bool
  unfolding evaluate
  decide none scope matrix = some true
  decide (some w) scope matrix = if w.deferred then some true else evaluate w scope matrix

  -- Phase 1: the jobs kept and the names skipped.
  pub keep_jobs : List EnvVar → List Job → Result (List Job × List String)
  unfolding decide
  keep_jobs env [] = ok ([], [])
  keep_jobs env (j ∷ jobs) = elim (decide j.when (build_env_scope env j.env) j.matrix_values) [
    | none ↦ err job_condition
    | some stays ↦ keep_jobs env jobs >>= λ (kept, skipped).
        ok (if stays then (j ∷ kept, skipped) else (kept, j.name ∷ skipped))
  ]

  -- Phase 2, for the steps of one job.
  pub keep_steps : List EnvVar → Job → List Step → Result (List Step × List String)
  unfolding decide
  keep_steps env j [] = ok ([], [])
  keep_steps env j (s ∷ steps) =
      elim (decide s.when (build_env_scope env (merge_env j.env s.env)) j.matrix_values) [
        | none ↦ err step_condition
        | some stays ↦ keep_steps env j steps >>= λ (kept, skipped).
            ok (if stays then (s ∷ kept, skipped) else (kept, s.name ∷ skipped))
      ]

  pub trim_each : List EnvVar → List Job → SkippedSteps → Result (List Job × SkippedSteps)
  unfolding keep_steps
  trim_each env [] m = ok ([], m)
  trim_each env (j ∷ jobs) m = keep_steps env j j.steps >>= λ (steps, skipped).
      trim_each env jobs (add_skipped m j.name skipped) >>= λ (rest, m').
      ok (record j { steps = steps } ∷ rest, m')

  -- From phase 3 on.
  pub condition_result : Pipeline → List String → List Job × SkippedSteps → Result ConditionResult
  unfolding drop_empty
  condition_result p skipped (jobs, skipped_steps) =
      let last = drop_empty jobs skipped in
      ok (record {
        pipeline = record p { jobs = last.0; topo_order = none };
        skipped = last.1;
        skipped_steps = skipped_steps;
      })

  -- From the cleaning of references on.
  pub trim_kept : Pipeline → List Job × List String → Result ConditionResult
  unfolding trim_each condition_result clean_job_refs
  trim_kept p (kept, skipped) =
      trim_each p.env (map (clean_job_refs skipped) kept) [] >>= condition_result p skipped

  unfoldable pub evaluate_conditions : Pipeline → Result ConditionResult
  unfolding keep_jobs trim_kept
  evaluate_conditions p = keep_jobs p.env p.jobs >>= trim_kept p
