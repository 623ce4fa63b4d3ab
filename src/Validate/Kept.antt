-- ===== src/Validate/Kept.antt =====
-- Validation changes neither names, dependencies nor matrices, so that what it promises holds of the pipeline that it returns.
use cicada.Base.{
  ℕ, zero, suc, ◌≡◌, refl, sym, ◌∙◌, ap, String, List, [], ◌∷◌, Bool, Option, some, length, any,
  get_elem?, arith, length-map,
}
use cicada.Model.{Job, Pipeline, ok, ◌>>=◌, bind-ok, guard-eq-ok}
use cicada.Expand.{has_matrix, has_pipeline_matrix}
use cicada.Graph.{job_deps, topo_sort}
use cicada.Validate.{Index, validate, validate_job, validate_jobs, pipeline_checks, order_jobs}
use cicada.Validate.Checks.{check_self_deps}
use cicada.Validate.Secrets.{secret_decl_set}
use cicada.Validate.Index.{names, name_of, validate_jobs-accepted}
use cicada.Validate.Order.{IsRunnable, validate_sound}

name_of-names : (jobs : List Job) (k : ℕ) → name_of jobs k ≡ get_elem? (names jobs) k
name_of-names [] k = refl
name_of-names (j ∷ jobs) zero = refl
name_of-names (j ∷ jobs) (suc k) = name_of-names jobs k

-- Only the names and the dependencies of the jobs matter.
IsRunnable-same :
    (jobs jobs' : List Job) (order : List ℕ)
    → names jobs' ≡ names jobs
    → ((i : ℕ) → job_deps jobs' i ≡ job_deps jobs i)
    → IsRunnable jobs order
    → IsRunnable jobs' order
IsRunnable-same jobs jobs' order same_names same_deps r =
    let same_length : length jobs' ≡ length jobs =
      sym (length-map (λ (j : Job). j.name) jobs')
      ∙ ap length same_names
      ∙ length-map (λ (j : Job). j.name) jobs in
    record {
      unique_names = rw same_names r.unique_names;
      unique_order = r.unique_order;
      complete = λ i. rw same_length (r.complete i);
      before = λ i dep lt named.
          let (k, found, earlier) =
            r.before i dep (rw (← same_length) lt) (rw (← same_deps i) named) in
          (
            k,
            name_of-names jobs' k
                ∙ ap (λ t. get_elem? t k) same_names
                ∙ sym (name_of-names jobs k)
                ∙ found,
            earlier,
          );
    }

module _ (check_expr : String → Option Bool) where
  validate_job-matrix :
      (idx : ℕ) (j : Job) (index : Index) (declared : List String) {j' : Job} {index' : Index}
      → validate_job check_expr idx j index declared ≡ ok (j', index')
      → has_matrix j' ≡ has_matrix j
  unfolding validate_job
  validate_job-matrix idx j index declared h = ground arith

  validate_jobs-matrix :
      (idx : ℕ) (jobs : List Job) (index : Index) (declared : List String) {jobs' : List Job}
      {index' : Index}
      → validate_jobs check_expr idx jobs index declared ≡ ok (jobs', index')
      → any has_matrix jobs' ≡ any has_matrix jobs
  unfolding validate_jobs
  validate_jobs-matrix idx [] index declared {jobs'} h =
      let same : [] ≡ jobs' = cc in rw (← same) refl
  validate_jobs-matrix idx (j ∷ jobs) index declared {jobs'} h =
      let ((j', index₁), e₁, h₁) = bind-ok (validate_job check_expr idx j index declared) _ h in
      let ((rest, index₂), e₂, h₂) =
        bind-ok (validate_jobs check_expr (suc idx) jobs index₁ declared) _ h₁ in
      let same : (j' ∷ rest) ≡ jobs' = cc in
      rw (← same) ground (
        arith,
        validate_job-matrix idx j index declared e₁,
        validate_jobs-matrix (suc idx) jobs index₁ declared e₂,
      )

  pub validate-kept :
      (p : Pipeline) {q : Pipeline} {order : List ℕ}
      → validate check_expr p ≡ ok (q, order)
      → IsRunnable q.jobs order
        × (q.topo_order ≡ some order)
        × (has_pipeline_matrix q ≡ has_pipeline_matrix p)
        × (any has_matrix q.jobs ≡ any has_matrix p.jobs)
  unfolding validate order_jobs
  validate-kept p {q} {order} h =
      let declared = secret_decl_set p.secrets in
      let checked = validate_jobs check_expr 0 p.jobs [] declared in
      let (_, h₁) = guard-eq-ok (pipeline_checks p) (checked >>= order_jobs p) h in
      let ((jobs', index), accepted, h₂) = bind-ok checked (order_jobs p) h₁ in
      let sort = topo_sort (record { jobs = jobs'; index = index }) in
      let (_, h₃) = guard-eq-ok (check_self_deps jobs') _ h₂ in
      let (order', _, h₄) = bind-ok sort _ h₃ in
      let same : record p { jobs = jobs'; topo_order = some order' } ≡ q = cc in
      let kept = validate_jobs-accepted check_expr 0 p.jobs [] declared accepted in
      let (runnable, stored) = validate_sound check_expr p q order h in
      (
        rw (← same) (IsRunnable-same p.jobs jobs' order kept.same_names kept.same_deps runnable),
        stored,
        rw (← same) refl,
        rw (← same) (validate_jobs-matrix 0 p.jobs [] declared accepted),
      )
