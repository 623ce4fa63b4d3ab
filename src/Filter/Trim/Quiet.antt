-- ===== src/Filter/Trim/Quiet.antt =====
-- Trimming steps adds no output to a job.
use cicada.Base.{
  ℕ, zero, suc, ◌≡◌, refl, ap, ◌⊎◌, String, List, [], ◌∷◌, Option, none, some, Bool, true, false,
  ◌&&◌, string_eq, arith, is_empty, All,
}
use cicada.Model.{Job, Step, ok, bind-ok}
use cicada.Validate.Index.{names}
use cicada.Filter.Target.{FilterTarget}
use cicada.Filter.Trim.{
  StepTrimOpts, strip_before, take_through, trim_steps, resolve_step_trim, trim_jobs,
}

-- Nothing leaves the container of the job.
abbrev pub quiet_steps : List Step → Bool
quiet_steps [] = true
quiet_steps (s ∷ steps) = is_empty s.exports && quiet_steps steps

abbrev pub is_none {ℓ} : {A : Type ℓ} → Option A → Bool
is_none none = true
is_none (some _) = false

abbrev pub quiet : Job → Bool
quiet j = is_empty j.exports && is_none j.publish && quiet_steps j.steps

quiet_steps-strip_before :
    (n : ℕ) (steps : List Step)
    → quiet_steps steps ≡ true
    → quiet_steps (strip_before n steps) ≡ true
unfolding strip_before
quiet_steps-strip_before zero steps h = h
quiet_steps-strip_before (suc n) [] h = h
quiet_steps-strip_before (suc n) (s ∷ steps) h = ground (arith, h, quiet_steps-strip_before n steps)

quiet_steps-take_through :
    (n : ℕ) (steps : List Step)
    → quiet_steps steps ≡ true
    → quiet_steps (take_through n steps) ≡ true
unfolding take_through
quiet_steps-take_through n [] h = h
quiet_steps-take_through zero (s ∷ steps) h = ground (arith, h)
quiet_steps-take_through (suc n) (s ∷ steps) h = ground (arith, h, quiet_steps-take_through n steps)

quiet_steps-trim_steps :
    (t : StepTrimOpts) (steps : List Step) {out : List Step}
    → trim_steps t steps ≡ ok out
    → quiet_steps steps ≡ true
    → quiet_steps out ≡ true
unfolding trim_steps
quiet_steps-trim_steps t steps h q =
    grind (arith, quiet_steps-strip_before, quiet_steps-take_through)

-- Trimming keeps the names, and a job that is in the window or quiet stays so.
pub trim_jobs-keeps :
    (P : String → Type 0) (start_at stop_after : FilterTarget) (jobs : List Job) {out : List Job}
    → trim_jobs start_at stop_after jobs ≡ ok out
    → (names out ≡ names jobs)
      × (All (λ j. P j.name ⊎ (quiet j ≡ true)) jobs → All (λ j. P j.name ⊎ (quiet j ≡ true)) out)
unfolding trim_jobs
trim_jobs-keeps P start_at stop_after [] {out} h =
    let same : [] ≡ out = cc in rw (← same) (refl, λ a. a)
trim_jobs-keeps P start_at stop_after (j ∷ jobs) {out} h =
    let opts = resolve_step_trim j.name j.steps start_at stop_after in
    let (steps, trimmed, h₁) = bind-ok (trim_steps opts j.steps) _ h in
    let (rest, h₂, h₃) = bind-ok (trim_jobs start_at stop_after jobs) _ h₁ in
    let same : (record j { steps = steps } ∷ rest) ≡ out = cc in
    let (named, kept) = trim_jobs-keeps P start_at stop_after jobs h₂ in
    rw (← same) (
      ap (λ ns. j.name ∷ ns) named,
      λ (a, r). (ground (arith, a, quiet_steps-trim_steps opts j.steps trimmed), kept r),
    )
