-- ===== src/Expand/Flat.antt =====
-- `Expand` leaves no matrix, whatever the dependencies of the jobs are.
use cicada.Base.{◌≡◌, refl, ◌∙◌, List, [], ◌∷◌, false, ◌||◌, any, map, arith, Bool-cases, inl, inr}
use cicada.Model.{Job, Pipeline, ok, ◌>>=◌, bind-ok}
use cicada.Expand.{
  Expansion, add_variants, job_variants, expand_each, expand_pipeline, expand_jobs, rewrite_job,
  has_matrix, has_pipeline_matrix, expand,
}
use cicada.Expand.Correlated.{expand_pipeline_lem}
use cicada.Expand.Variants.{any-append, job_variants_lem, rewritten}

expand_each_flat :
    (jobs : List Job) (x : Expansion) {x' : Expansion}
    → any has_matrix x.expanded ≡ false
    → expand_each jobs x ≡ ok x'
    → any has_matrix x'.expanded ≡ false
unfolding expand_each
expand_each_flat [] x {x'} f h = let same : x ≡ x' = cc in rw (← same) f
expand_each_flat (j ∷ jobs) x f h =
    let (js, e, h') =
      bind-ok (job_variants j) (λ js. expand_each jobs (add_variants x j.name js)) h in
    expand_each_flat jobs (add_variants x j.name js)
      (any-append has_matrix x.expanded js ∙ ground (arith, f, (job_variants_lem [] j e).1)) h'

expand_jobs_flat :
    (p : Pipeline) {q : Pipeline}
    → expand_jobs p ≡ ok q
    → (q.matrix ≡ p.matrix) × (any has_matrix q.jobs ≡ false)
unfolding expand_jobs
expand_jobs_flat p {q} h = elim (Bool-cases (any has_matrix p.jobs)) [
  | inr flat ↦ let same : p ≡ q = ground (arith, flat, h) in rw (← same) (refl, flat)
  | inl some_matrix ↦
      let start : Expansion = record { variants = []; expanded = [] } in
      let out =
        λ (x : Expansion). ok (record p { jobs = map (rewrite_job x.variants) x.expanded }) in
      let bound : (expand_each p.jobs start >>= out) ≡ ok q = ground (arith, some_matrix, h) in
      let (x, done, e) = bind-ok (expand_each p.jobs start) out bound in
      let (_, kept) = rewritten x.variants x.expanded in
      let same : record p { jobs = map (rewrite_job x.variants) x.expanded } ≡ q = cc in
      rw (← same) (refl, kept ∙ expand_each_flat p.jobs start refl done)
]

pub expand_flat :
    (p : Pipeline) {q : Pipeline}
    → expand p ≡ ok q
    → (has_pipeline_matrix q ≡ false) × (any has_matrix q.jobs ≡ false)
unfolding expand
expand_flat p {q} h = elim (Bool-cases (has_pipeline_matrix p || any has_matrix p.jobs)) [
  | inr flat ↦
      let same : p ≡ q = ground (arith, flat, h) in
      rw (← same) (ground (arith, flat), ground (arith, flat))
  | inl some_matrix ↦
      let bound : (expand_pipeline p >>= expand_jobs) ≡ ok q = ground (arith, some_matrix, h) in
      let (p', first, second) = bind-ok (expand_pipeline p) expand_jobs bound in
      let (no_matrix, _) = expand_pipeline_lem p first in
      let (same, flat) = expand_jobs_flat p' second in (rw (same ∙ no_matrix) refl, flat)
]
