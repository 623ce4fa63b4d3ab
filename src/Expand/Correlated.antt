-- ===== src/Expand/Correlated.antt =====
-- The first phase of `Expand` renames jobs and dependencies alike.
use cicada.Base.{
  ◌≡◌, refl, ◌∙◌, ap, String, List, [], ◌∷◌, none, some, true, contains, map, string_eq, arith,
  Option-cases, inl, inr,
}
use cicada.Model.{Job, Matrix, Pipeline, ok, guard, ◌>>=◌, bind-ok, guard-eq-ok}
use cicada.Merge.{job_names}
use cicada.Params.{Vars}
use cicada.Expand.Naming.{expanded_name}
use cicada.Expand.Matrices.{validate_matrix, combinations}
use cicada.Expand.{
  correlate_deps, correlated_job, correlated_jobs, expand_matrix, check_dim_collisions,
  expand_pipeline,
}
use cicada.Expand.Known.{all_in, known_in, deps_known, deps_known-append}

-- Phase 1: jobs and dependencies are renamed alike.
module _ (combo : Vars) where
  abbrev rename : String → String
  rename n = expanded_name n combo

  contains-rename :
      (ns : List String) (n : String)
      → contains ns n ≡ true
      → contains (map rename ns) (rename n) ≡ true
  contains-rename [] n h = cc
  contains-rename (m ∷ ns) n h = ground (
    arith,
    h,
    contains-rename ns n,
    string_eq.eqb_iff n m,
    string_eq.eqb_iff (rename n) (rename m),
    ap rename,
  )

  all_in-correlate :
      (known deps : List String)
      → all_in known deps ≡ true
      → all_in (map rename known) (correlate_deps deps combo) ≡ true
  all_in-correlate known [] h = refl
  all_in-correlate known (d ∷ deps) h =
      ground (arith, h, contains-rename known d, all_in-correlate known deps)

  known_in-correlated :
      (known : List String) (jobs : List Job)
      → known_in known jobs ≡ true
      → known_in (map rename known) (map (correlated_job combo) jobs) ≡ true
  unfolding correlated_job
  known_in-correlated known [] h = refl
  known_in-correlated known (j ∷ jobs) h =
      ground (arith, h, all_in-correlate known j.depends_on, known_in-correlated known jobs)

  names-correlated :
      (jobs : List Job) → job_names (map (correlated_job combo) jobs) ≡ map rename (job_names jobs)
  unfolding correlated_job
  names-correlated [] = refl
  names-correlated (j ∷ jobs) = ap (λ t. rename j.name ∷ t) (names-correlated jobs)

deps_known-correlated_jobs :
    (jobs : List Job) (combos : List Vars)
    → deps_known jobs ≡ true
    → deps_known (correlated_jobs jobs combos) ≡ true
unfolding correlated_jobs
deps_known-correlated_jobs jobs [] h = refl
deps_known-correlated_jobs jobs (combo ∷ combos) h =
    let here = map (correlated_job combo) jobs in
    deps_known-append here (correlated_jobs jobs combos)
      (ap (λ t. known_in t here) (names-correlated combo jobs)
        ∙ known_in-correlated combo (job_names jobs) jobs h)
      (deps_known-correlated_jobs jobs combos h)

expand_matrix_lem :
    (p : Pipeline) (m : Matrix) {q : Pipeline}
    → expand_matrix p m ≡ ok q
    → (q.matrix ≡ none) × (deps_known p.jobs ≡ true → deps_known q.jobs ≡ true)
unfolding expand_matrix
expand_matrix_lem p m {q} h =
    let out = λ (combos : List Vars).
      ok (record p { matrix = none; jobs = correlated_jobs p.jobs combos }) in
    let (_, h₁) =
      guard-eq-ok (validate_matrix (some m))
        (guard (check_dim_collisions m p.jobs) (combinations m >>= out)) h in
    let (_, h₂) = guard-eq-ok (check_dim_collisions m p.jobs) (combinations m >>= out) h₁ in
    let (combos, _, done) = bind-ok (combinations m) out h₂ in
    let same : record p { matrix = none; jobs = correlated_jobs p.jobs combos } ≡ q = cc in
    rw (← same) (refl, deps_known-correlated_jobs p.jobs combos)

pub expand_pipeline_lem :
    (p : Pipeline) {q : Pipeline}
    → expand_pipeline p ≡ ok q
    → (q.matrix ≡ none) × (deps_known p.jobs ≡ true → deps_known q.jobs ≡ true)
unfolding expand_pipeline
expand_pipeline_lem p {q} h = elim (Option-cases p.matrix) [
  | inl no_matrix ↦
      let same : p ≡ q = ground (arith, no_matrix, h) in rw (← same) (no_matrix, λ k. k)
  | inr (m, matrix) ↦ expand_matrix_lem p m {q = q} (ground (arith, matrix, h))
]
