-- ===== src/Expand/Closed.antt =====
-- `Expand` leaves no matrix, and no dependency without a job.
use cicada.Base.{
  ◌≡◌, refl, ◌∙◌, ap, [], true, false, ◌||◌, any, map, string_eq, arith, Bool-cases, inl, inr,
}
use cicada.Model.{Pipeline, ok, ◌>>=◌, bind-ok}
use cicada.Merge.{job_names}
use cicada.Expand.{
  expand_pipeline, Expansion, expand_each, rewrite_job, has_matrix, expand_jobs,
  has_pipeline_matrix, expand,
}
use cicada.Expand.Known.{known_in, deps_known}
use cicada.Expand.Correlated.{expand_pipeline_lem}
use cicada.Expand.Variants.{Inv-all, rewritten, known_in-rewrite}

expand_jobs_lem :
    (p : Pipeline) {q : Pipeline}
    → deps_known p.jobs ≡ true
    → expand_jobs p ≡ ok q
    → (q.matrix ≡ p.matrix) × (any has_matrix q.jobs ≡ false) × (deps_known q.jobs ≡ true)
unfolding expand_jobs
expand_jobs_lem p {q} k h = elim (Bool-cases (any has_matrix p.jobs)) [
  | inr flat ↦ let same : p ≡ q = ground (arith, flat, h) in rw (← same) (refl, flat, k)
  | inl some_matrix ↦
      let out =
        λ (x : Expansion). ok (record p { jobs = map (rewrite_job x.variants) x.expanded }) in
      let each = expand_each p.jobs (record { variants = []; expanded = [] }) in
      let bound : (each >>= out) ≡ ok q = ground (arith, some_matrix, h) in
      let (x, done, e) = bind-ok each out bound in
      let inv = Inv-all p.jobs k done in
      let (names, flat) = rewritten x.variants x.expanded in
      let same : record p { jobs = map (rewrite_job x.variants) x.expanded } ≡ q = cc in
      rw (← same) (
        refl,
        flat ∙ inv.flat,
        ap (λ t. known_in t (map (rewrite_job x.variants) x.expanded)) names
            ∙ known_in-rewrite (job_names p.jobs) x inv x.expanded inv.deps,
      )
]

-- Where every dependency names a job, a successful expansion has no matrix left, neither of the pipeline
-- nor of a job, and every dependency still names a job.
pub expand_closed :
    (p q : Pipeline)
    → deps_known p.jobs ≡ true
    → expand p ≡ ok q
    → (has_pipeline_matrix q ≡ false) × (any has_matrix q.jobs ≡ false) × (deps_known q.jobs ≡ true)
unfolding expand
expand_closed p q k h = elim (Bool-cases (has_pipeline_matrix p || any has_matrix p.jobs)) [
  | inr flat ↦
      let same : p ≡ q = ground (arith, flat, h) in
      rw (← same) (ground (arith, flat), ground (arith, flat), k)
  | inl some_matrix ↦
      let bound : (expand_pipeline p >>= expand_jobs) ≡ ok q = ground (arith, some_matrix, h) in
      let (p', first, second) = bind-ok (expand_pipeline p) expand_jobs bound in
      let (no_matrix, known) = expand_pipeline_lem p first in
      let (same, flat, known') = expand_jobs_lem p' (known k) second in
      (rw (same ∙ no_matrix) refl, flat, known')
]
