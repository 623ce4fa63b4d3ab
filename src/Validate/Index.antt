-- ===== src/Validate/Index.antt =====
-- The index that `validateJob` fills: each known name leads to the position of the job of that name.
use cicada.Base.{
  ℕ, zero, suc, ◌+◌, ◌≡◌, refl, sym, ◌⊎◌, inl, inr, Bool, true, String, List, [], ◌∷◌, Option, none,
  some, contains, distinct, lookup, insert, string_eq, arith, map, lookup-insert, if◌then◌else◌,
  ◌==◌, eqb-cases, ap,
}
use cicada.Model.{Job, ok, bind-ok}
use cicada.Graph.{job_deps}
use cicada.Validate.{Index, name_checks, validate_job, validate_jobs}

abbrev pub names : List Job → List String
names = map (λ j. j.name)

-- `jobs[i].Name`
abbrev pub name_of : List Job → ℕ → Option String
name_of [] i = none
name_of (j ∷ jobs) zero = some j.name
name_of (j ∷ jobs) (suc i) = name_of jobs i

module _ (check_expr : String → Option Bool) where
  -- What a successful `validateJob` says of the index and keeps of the job.
  record JobAccepted (idx : ℕ) (j : Job) (index : Index) (j' : Job) (index' : Index) : Type 0 where
    fresh : lookup index j.name ≡ none
    written : index' ≡ insert index j.name idx
    same_name : j'.name ≡ j.name
    same_deps : j'.depends_on ≡ j.depends_on

  validate_job-accepted :
      (idx : ℕ) (j : Job) (index : Index) (declared : List String) {j' : Job} {index' : Index}
      → validate_job check_expr idx j index declared ≡ ok (j', index')
      → JobAccepted idx j index j' index'
  unfolding validate_job name_checks
  validate_job-accepted idx j index declared h = ground arith

  pub record JobsAccepted (idx : ℕ) (jobs : List Job) (index : Index) (jobs' : List Job)
      (index' : Index) : Type 0 where
    pub same_names : names jobs' ≡ names jobs
    pub same_deps : (i : ℕ) → job_deps jobs' i ≡ job_deps jobs i
    pub fresh : (n : String) → contains (names jobs) n ≡ true → lookup index n ≡ none
    pub unique : distinct (names jobs) ≡ true
    pub found :
        (n : String) (j : ℕ)
        → lookup index' n ≡ some j
        → (lookup index n ≡ some j) ⊎ ((k : ℕ) × (j ≡ idx + k) × (name_of jobs k ≡ some n))

  extend :
      (idx : ℕ) (j j' : Job) (jobs jobs' : List Job) (index index₁ index' : Index)
      → JobAccepted idx j index j' index₁
      → JobsAccepted (suc idx) jobs index₁ jobs' index'
      → JobsAccepted idx (j ∷ jobs) index (j' ∷ jobs') index'
  extend idx j j' jobs jobs' index index₁ index' a r = record {
    same_names = cc;
    same_deps = λ i. same i;
    fresh = λ n h. ground (arith, h, r.fresh n, lookup₁ n, a.fresh, string_eq.eqb_iff n j.name);
    unique =
        ground (arith, r.unique, r.fresh j.name, lookup₁ j.name, string_eq.eqb_iff j.name j.name);
    found = λ n k h. elim (r.found n k h) [
      | inr (m, e, named) ↦ inr (suc m, omega arith, named)
      | inl old ↦ elim (eqb-cases n j.name) [
        | inl same ↦ inr (0, first n k old same, ap some (sym same))
        | inr other ↦ inl (ground (arith, old, other, lookup₁ n))
      ]
    ];
  }
    where
      lookup₁ : (n : String) → lookup index₁ n ≡ (if n == j.name then some idx else lookup index n)
      lookup₁ n = rw a.written (lookup-insert index j.name n idx)

      first : (n : String) (k : ℕ) → lookup index₁ n ≡ some k → n ≡ j.name → k ≡ idx + 0
      first n k old same = ground (arith, old, same, lookup₁ n, string_eq.eqb_iff n j.name)

      same : (i : ℕ) → job_deps (j' ∷ jobs') i ≡ job_deps (j ∷ jobs) i
      same zero = a.same_deps
      same (suc i) = r.same_deps i

  pub validate_jobs-accepted :
      (idx : ℕ) (jobs : List Job) (index : Index) (declared : List String) {jobs' : List Job}
      {index' : Index}
      → validate_jobs check_expr idx jobs index declared ≡ ok (jobs', index')
      → JobsAccepted idx jobs index jobs' index'
  unfolding validate_jobs
  validate_jobs-accepted idx [] index declared {jobs'} {index'} h =
      let jobs_nil : [] ≡ jobs' = cc in
      let index_same : index ≡ index' = cc in
      rw (← jobs_nil, ← index_same)
        record {
          same_names = refl;
          same_deps = λ i. refl;
          fresh = λ n m. cc;
          unique = refl;
          found = λ n k m. inl m;
        }
  validate_jobs-accepted idx (j ∷ jobs) index declared {jobs'} {index'} h =
      let ((j', index₁), e₁, h₁) = bind-ok (validate_job check_expr idx j index declared) _ h in
      let ((rest, index₂), e₂, h₂) =
        bind-ok (validate_jobs check_expr (suc idx) jobs index₁ declared) _ h₁ in
      let jobs_cons : (j' ∷ rest) ≡ jobs' = cc in
      let index_same : index₂ ≡ index' = cc in
      rw (← jobs_cons, ← index_same)
        (extend idx j j' jobs rest index index₁ index₂
          (validate_job-accepted idx j index declared e₁)
          (validate_jobs-accepted (suc idx) jobs index₁ declared e₂))
