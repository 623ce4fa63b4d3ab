-- ===== src/Validate/Order.antt =====
-- What a validated pipeline guarantees to the code that runs it.
use cicada.Base.{
  ℕ, zero, suc, ◌≡◌, sym, ◌∙◌, ap, ◌<◌, inl, inr, Bool, true, String, List, [], ◌∷◌, Option, some,
  length, contains, distinct, position, lookup, string_eq, nat_eq, arith, ltb, length-map,
}
use cicada.Model.{Job, Pipeline, ok, ◌>>=◌, bind-ok, guard-eq-ok}
use cicada.Graph.{JobGraph, job_deps, topo_sort}
use cicada.Graph.Spec.{InRange}
use cicada.Graph.Sort.{topo_sort_sound}
use cicada.Validate.{Index, validate, pipeline_checks, order_jobs, validate_jobs}
use cicada.Validate.Secrets.{secret_decl_set}
use cicada.Validate.Index.{names, name_of, JobsAccepted, validate_jobs-accepted}

-- Names are unique, the order lists each job's index once, and every dependency of a job is the name
-- of a job that stands before it.
pub record IsRunnable (jobs : List Job) (order : List ℕ) : Type 0 where
  pub unique_names : distinct (names jobs) ≡ true
  pub unique_order : distinct order ≡ true
  pub complete : (i : ℕ) → contains order i ≡ ltb i (length jobs)
  pub before :
      (i : ℕ) (dep : String)
      → i < length jobs
      → contains (job_deps jobs i) dep ≡ true
      → (k : ℕ) × (name_of jobs k ≡ some dep) × (position order k < position order i)

name_of-lt : (jobs : List Job) (k : ℕ) {n : String} → name_of jobs k ≡ some n → k < length jobs
name_of-lt [] k h = cc
name_of-lt (j ∷ jobs) zero h = omega arith
name_of-lt (j ∷ jobs) (suc k) h = omega (arith, name_of-lt jobs k h)

module _ (check_expr : String → Option Bool) (jobs : List Job) (declared : List String)
    (jobs' : List Job) (index : Index)
    (accepted : validate_jobs check_expr 0 jobs [] declared ≡ ok (jobs', index)) where
  facts : JobsAccepted check_expr 0 jobs [] jobs' index
  facts = validate_jobs-accepted check_expr 0 jobs [] declared accepted

  same_length : length jobs' ≡ length jobs
  same_length =
      sym (length-map (λ (j : Job). j.name) jobs')
      ∙ ap length facts.same_names
      ∙ length-map (λ (j : Job). j.name) jobs

  lookup-name_of : (dep : String) (k : ℕ) → lookup index dep ≡ some k → name_of jobs k ≡ some dep
  lookup-name_of dep k h = elim (facts.found dep k h) [
    | inl impossible ↦ cc
    | inr (m, e, named) ↦ rw (let same : k ≡ m = omega arith in same) named
  ]

  in_range : InRange (record { jobs = jobs'; index = index })
  in_range dep k h = omega (arith, name_of-lt jobs k (lookup-name_of dep k h), same_length)

  runnable :
      (order : List ℕ)
      → topo_sort (record { jobs = jobs'; index = index }) ≡ ok order
      → IsRunnable jobs order
  runnable order e =
      let g : JobGraph = record { jobs = jobs'; index = index } in
      let (t, all) = topo_sort_sound g in_range order e in
      record {
        unique_names = facts.unique;
        unique_order = t.unique;
        complete = λ i. rw (← same_length) (all i);
        before = λ i dep lt named.
            let named' : contains (job_deps jobs' i) dep ≡ true = rw (facts.same_deps i) named in
            let listed : contains order i ≡ true = all i ∙ ground (arith, lt, same_length) in
            let (k, found) = t.resolved i dep listed named' in
            let (_, earlier) = t.before i k listed (dep, named', found) in
            (k, lookup-name_of dep k found, earlier);
      }

order_jobs-eq-ok :
    (p : Pipeline) (jobs : List Job) (index : Index) {q : Pipeline} {order : List ℕ}
    → order_jobs p (jobs, index) ≡ ok (q, order)
    → (topo_sort (record { jobs = jobs; index = index }) ≡ ok order) × (q.topo_order ≡ some order)
unfolding order_jobs
order_jobs-eq-ok p jobs index h = ground arith

-- A pipeline that validates has unique job names, every dependency names one of its jobs, and the
-- order returned, which is also stored in the pipeline, lists each job once and behind all of its
-- dependencies.
pub validate_sound :
    (check_expr : String → Option Bool) (p q : Pipeline) (order : List ℕ)
    → validate check_expr p ≡ ok (q, order)
    → IsRunnable p.jobs order × (q.topo_order ≡ some order)
unfolding validate
validate_sound check_expr p q order h =
    let declared = secret_decl_set p.secrets in
    let checked = validate_jobs check_expr 0 p.jobs [] declared in
    let (_, h₁) = guard-eq-ok (pipeline_checks p) (checked >>= order_jobs p) h in
    let ((jobs', index), accepted, h₂) = bind-ok checked (order_jobs p) h₁ in
    let (sorted, stored) = order_jobs-eq-ok p jobs' index h₂ in
    (runnable check_expr p.jobs declared jobs' index accepted order sorted, stored)
