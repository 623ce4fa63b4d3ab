-- ===== src/Validate/Sources.antt =====
-- In a validated pipeline artifacts come from dependencies.
use cicada.Base.{
  ℕ, suc, ◌≡◌, refl, ◌∙◌, ap, String, List, [], ◌∷◌, Option, none, some, Bool, true, ◌&&◌, all,
  contains, string_eq, arith,
}
use cicada.Model.{Job, Step, Artifact, Pipeline, ok, ◌>>=◌, bind-ok, guard-eq-ok}
use cicada.Graph.{topo_sort}
use cicada.Validate.{
  Index, name_checks, job_checks, validate_when, validate_step, validate_steps, validate_job,
  validate_jobs, validate, pipeline_checks, order_jobs,
}
use cicada.Validate.Checks.{check_self_deps, validate_artifacts}
use cicada.Validate.Secrets.{
  Used, validate_secret_refs, validate_refs, validate_secret_inheritance, secret_decl_set,
}
use cicada.Validate.Unique.{placed, validate_artifacts_sound}

-- The artifacts come from these jobs.
abbrev pub sources_in : List String → List Artifact → Bool
sources_in names = all (λ a. contains names a.from)

-- The artifacts of a job and of its steps come from its dependencies.
abbrev pub declared : Job → Bool
declared j =
    sources_in j.depends_on j.artifacts
    && all (λ (s : Step). sources_in j.depends_on s.artifacts) j.steps

placed-sources_in :
    (names : List String) (artifacts : List Artifact)
    → all (placed names) artifacts ≡ true
    → sources_in names artifacts ≡ true
placed-sources_in names [] h = refl
placed-sources_in names (a ∷ artifacts) h = ground (arith, h, placed-sources_in names artifacts)

accepted-sources_in :
    (artifacts : List Artifact) (names : List String)
    → validate_artifacts artifacts names ≡ none
    → sources_in names artifacts ≡ true
accepted-sources_in artifacts names h =
    let (_, all_placed) = validate_artifacts_sound artifacts names h in
    placed-sources_in names artifacts all_placed

module _ (check_expr : String → Option Bool) where
  validate_step-artifacts :
      (s : Step) (seen : List String) {s' : Step}
      → validate_step check_expr s seen ≡ ok s'
      → s'.artifacts ≡ s.artifacts
  unfolding validate_step
  validate_step-artifacts s seen h = ground arith

  validate_steps-declared :
      (j : Job) (secrets : List String) (used : Used) (seen : List String) (steps : List Step)
      {steps' : List Step}
      → validate_steps check_expr j secrets used seen steps ≡ ok steps'
      → all (λ (s : Step). sources_in j.depends_on s.artifacts) steps' ≡ true
  unfolding validate_steps
  validate_steps-declared j secrets used seen [] {steps'} h =
      let same : [] ≡ steps' = cc in rw (← same) refl
  validate_steps-declared j secrets used seen (s ∷ steps) {steps'} h =
      let (s', e, h₁) = bind-ok (validate_step check_expr s seen) _ h in
      let (artifacts, h₂) = guard-eq-ok (validate_artifacts s.artifacts j.depends_on) _ h₁ in
      let (_, _, h₃) = bind-ok (validate_refs secrets [] s.secrets used) _ h₂ in
      let (_, h₄) = guard-eq-ok (validate_secret_inheritance j.secrets s.secrets) _ h₃ in
      let (rest, e₅, h₅) =
        bind-ok (validate_steps check_expr j secrets used (s.name ∷ seen) steps)
          (λ rest. ok (s' ∷ rest)) h₄ in
      let same : (s' ∷ rest) ≡ steps' = cc in
      let here : sources_in j.depends_on s'.artifacts ≡ true =
        ap (sources_in j.depends_on) (validate_step-artifacts s seen e)
        ∙ accepted-sources_in s.artifacts j.depends_on artifacts in
      rw (← same)
        (ground (arith, here, validate_steps-declared j secrets used (s.name ∷ seen) steps e₅))

  validate_job-declared :
      (idx : ℕ) (j : Job) (index : Index) (secrets : List String) {j' : Job} {index' : Index}
      → validate_job check_expr idx j index secrets ≡ ok (j', index')
      → declared j' ≡ true
  unfolding validate_job job_checks
  validate_job-declared idx j index secrets {j'} h =
      let (_, h₁) = guard-eq-ok (name_checks j index) _ h in
      let (checked, h₂) = guard-eq-ok (job_checks j) _ h₁ in
      let (used, _, h₃) = bind-ok (validate_secret_refs j.secrets secrets) _ h₂ in
      let (w, _, h₄) = bind-ok (validate_when check_expr j.when) _ h₃ in
      let (steps', e, h₅) = bind-ok (validate_steps check_expr j secrets used [] j.steps) _ h₄ in
      let same : record j { when = w; steps = steps' } ≡ j' = cc in
      let artifacts : validate_artifacts j.artifacts j.depends_on ≡ none =
        ground (arith, checked) in
      rw (← same) (
        ground (
          arith,
          accepted-sources_in j.artifacts j.depends_on artifacts,
          validate_steps-declared j secrets used [] j.steps e,
        ))

  validate_jobs-declared :
      (idx : ℕ) (jobs : List Job) (index : Index) (secrets : List String) {jobs' : List Job}
      {index' : Index}
      → validate_jobs check_expr idx jobs index secrets ≡ ok (jobs', index')
      → all declared jobs' ≡ true
  unfolding validate_jobs
  validate_jobs-declared idx [] index secrets {jobs'} h =
      let same : [] ≡ jobs' = cc in rw (← same) refl
  validate_jobs-declared idx (j ∷ jobs) index secrets {jobs'} h =
      let ((j', index₁), e₁, h₁) = bind-ok (validate_job check_expr idx j index secrets) _ h in
      let ((rest, index₂), e₂, h₂) =
        bind-ok (validate_jobs check_expr (suc idx) jobs index₁ secrets) _ h₁ in
      let same : (j' ∷ rest) ≡ jobs' = cc in
      rw (← same) (
        ground (
          arith,
          validate_job-declared idx j index secrets e₁,
          validate_jobs-declared (suc idx) jobs index₁ secrets e₂,
        ))

  pub validate-declared :
      (p : Pipeline) {q : Pipeline} {order : List ℕ}
      → validate check_expr p ≡ ok (q, order)
      → all declared q.jobs ≡ true
  unfolding validate order_jobs
  validate-declared p {q} h =
      let secrets = secret_decl_set p.secrets in
      let checked = validate_jobs check_expr 0 p.jobs [] secrets in
      let (_, h₁) = guard-eq-ok (pipeline_checks p) (checked >>= order_jobs p) h in
      let ((jobs', index), accepted, h₂) = bind-ok checked (order_jobs p) h₁ in
      let (_, h₃) = guard-eq-ok (check_self_deps jobs') _ h₂ in
      let (order', _, h₄) = bind-ok (topo_sort (record { jobs = jobs'; index = index })) _ h₃ in
      let same : record p { jobs = jobs'; topo_order = some order' } ≡ q = cc in
      rw (← same) (validate_jobs-declared 0 p.jobs [] secrets accepted)
