-- ===== src/Filter/Trim.antt =====
-- pkg/pipeline/filter.go: the step window of a `job:step` target.
pub mod Quiet
use cicada.Base.{
  ℕ, zero, suc, String, List, [], ◌∷◌, Option, none, some, Bool, ◌==◌, string_eq, ltb,
  if◌then◌else◌, is_empty, any, not, ◌&&◌,
}
use mathlib.Core.Option
use cicada.Model.{Job, Step, Result, ok, err, ◌>>=◌, empty_step_window}
use cicada.Filter.Target.{FilterTarget}

unfoldable pub job_has_step : Job → String → Bool
job_has_step j step = any (λ s. s.name == step) j.steps

-- `stepIndex`, with `none` for -1
pub step_index : List Step → String → Option ℕ
step_index [] name = none
step_index (s ∷ steps) name =
    let rest : Option ℕ = Option.map suc (step_index steps name) in
    if s.name == name then some 0 else rest

pub record StepTrimOpts : Type 0 where
  pub start_idx : Option ℕ
  pub stop_idx : Option ℕ

pub resolve_step_trim : String → List Step → FilterTarget → FilterTarget → StepTrimOpts
unfolding step_index
resolve_step_trim name steps start_at stop_after = record {
  start_idx =
      if not (is_empty start_at.step) && name == start_at.job
      then step_index steps start_at.step
      else none;
  stop_idx =
      if not (is_empty stop_after.step) && name == stop_after.job
      then step_index steps stop_after.step
      else none;
}

abbrev pub strip_step : Step → Step
strip_step s = record s { exports = [] }

-- `stripStepExports(steps[:n])`
pub strip_before : ℕ → List Step → List Step
strip_before zero steps = steps
strip_before (suc n) [] = []
strip_before (suc n) (s ∷ steps) = strip_step s ∷ strip_before n steps

-- `steps[:n+1]`
pub take_through : ℕ → List Step → List Step
take_through n [] = []
take_through zero (s ∷ steps) = s ∷ []
take_through (suc n) (s ∷ steps) = s ∷ take_through n steps

-- The body of the loop of `applyStepTrimming`, by the two indices.
pub trim_steps : StepTrimOpts → List Step → Result (List Step)
unfolding strip_before take_through
trim_steps t steps = elim t.start_idx [
  | none ↦ elim t.stop_idx [ none ↦ ok steps | some stop ↦ ok (take_through stop steps) ]
  | some start ↦ elim t.stop_idx [
    | none ↦ ok (strip_before start steps)
    | some stop ↦
        if ltb stop start
        then err empty_step_window
        else ok (strip_before start (take_through stop steps))
  ]
]

pub trim_jobs : FilterTarget → FilterTarget → List Job → Result (List Job)
unfolding resolve_step_trim trim_steps
trim_jobs start_at stop_after [] = ok []
trim_jobs start_at stop_after (j ∷ jobs) =
    trim_steps (resolve_step_trim j.name j.steps start_at stop_after) j.steps >>= λ steps.
    trim_jobs start_at stop_after jobs >>= λ rest. ok (record j { steps = steps } ∷ rest)

unfoldable pub apply_step_trimming : FilterTarget → FilterTarget → List Job → Result (List Job)
unfolding trim_jobs
apply_step_trimming start_at stop_after jobs =
    if is_empty start_at.step && is_empty stop_after.step
    then ok jobs
    else trim_jobs start_at stop_after jobs
