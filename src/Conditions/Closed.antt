-- ===== src/Conditions/Closed.antt =====
-- `EvaluateConditions` leaves no reference to a skipped job.
use cicada.Base.{
  ◌≡◌, refl, sym, ◌∙◌, ap, String, List, [], ◌∷◌, Option, none, Bool, true, ◌||◌, all, contains,
  map, string_eq, arith,
}
use cicada.Model.{Job, Step, EnvVar, Pipeline, ConditionResult, Result, ok, ◌>>=◌, bind-ok}
use cicada.Merge.{job_names}
use cicada.Params.{Vars}
use cicada.Conditions.{
  SkippedSteps, add_skipped, clean_job_refs, drop_empty, keep_jobs, keep_steps, trim_each,
  condition_result, trim_kept, evaluate_conditions,
}
use cicada.Conditions.Kept.{Split, keep_jobs-Split, keep_steps-all}
use cicada.Conditions.Cleaned.{
  from_deps, is_linked, linked, has_steps, linked-clean, names-clean, drop_empty-Final,
}

abbrev with_steps : Job → List Step → List Job × SkippedSteps → Result (List Job × SkippedSteps)
with_steps j kept (rest, m) = ok (record j { steps = kept } ∷ rest, m)

module _ (eval_cel : String → Option String → Vars → Option Vars → Option Bool) where
  -- Phase 2 keeps the names and the links of the jobs.
  trim_each_lem :
      (env : List EnvVar) (jobs : List Job) (m : SkippedSteps) (known : List String)
      {out : List Job × SkippedSteps}
      → trim_each eval_cel env jobs m ≡ ok out
      → (job_names out.0 ≡ job_names jobs)
        × (all (is_linked known) jobs ≡ true → all (is_linked known) out.0 ≡ true)
  unfolding trim_each
  trim_each_lem env [] m known {out} h =
      let same : Path (List Job × SkippedSteps) ([], m) out = cc in rw (← same) (refl, λ k. k)
  trim_each_lem env (j ∷ jobs) m known {out} h =
      let rest =
        λ (o : List Step × List String). trim_each eval_cel env jobs (add_skipped m j.name o.1) in
      let (o, one, h₁) =
        bind-ok (keep_steps eval_cel env j j.steps)
          (λ (o : List Step × List String). rest o >>= with_steps j o.0) h in
      let (o', two, h₂) = bind-ok (rest o) (with_steps j o.0) h₁ in
      let (names, links) = trim_each_lem env jobs (add_skipped m j.name o.1) known two in
      let same : Path (List Job × SkippedSteps) (record j { steps = o.0 } ∷ o'.0, o'.1) out = cc in
      rw (← same) (
        ap (λ t. j.name ∷ t) names,
        λ k. ground (
          arith,
          k,
          links,
          keep_steps-all eval_cel env j j.steps (λ s. from_deps j.depends_on s.artifacts) one,
        ),
      )

  abbrev pub Conditioned : Pipeline → ConditionResult → Type 0
  Conditioned p r =
      (linked r.pipeline.jobs ≡ true)
      × (all has_steps r.pipeline.jobs ≡ true)
      × ((n : String)
          → contains (job_names p.jobs) n
            ≡ (contains (job_names r.pipeline.jobs) n || contains r.skipped n))

  linked-trimmed :
      (N : List String) (kept jobs : List Job) (skipped : List String)
      → ((n : String) → contains N n ≡ (contains (job_names kept) n || contains skipped n))
      → all (is_linked N) kept ≡ true
      → job_names jobs ≡ job_names (map (clean_job_refs skipped) kept)
      → (all (is_linked (job_names kept)) (map (clean_job_refs skipped) kept) ≡ true
          → all (is_linked (job_names kept)) jobs ≡ true)
      → (job_names jobs ≡ job_names kept) × (linked jobs ≡ true)
  linked-trimmed N kept jobs skipped covers h same links =
      let names = same ∙ names-clean skipped kept in
      (
        names,
        ap (λ ns. all (is_linked ns) jobs) names
            ∙ links (linked-clean skipped N (job_names kept) kept (λ n m. sym (covers n) ∙ m) h),
      )

  trim_kept_lem :
      (p : Pipeline) (o : List Job × List String) {r : ConditionResult}
      → linked p.jobs ≡ true
      → Split p.jobs o
      → trim_kept eval_cel p o ≡ ok r
      → Conditioned p r
  unfolding trim_kept condition_result
  trim_kept_lem p (kept, skipped) {r} h split e =
      let cleaned = map (clean_job_refs skipped) kept in
      let ((jobs, steps), trimmed, done) =
        bind-ok (trim_each eval_cel p.env cleaned []) (condition_result eval_cel p skipped) e in
      let (same, links) = trim_each_lem p.env cleaned [] (job_names kept) trimmed in
      let (names, linked_jobs) =
        linked-trimmed (job_names p.jobs) kept jobs skipped split.covers
          (split.among (is_linked (job_names p.jobs)) h) same links in
      let final = drop_empty-Final jobs skipped in
      let last = drop_empty jobs skipped in
      let same' : Path ConditionResult
          (record {
            pipeline = record p { jobs = last.0; topo_order = none };
            skipped = last.1;
            skipped_steps = steps;
          })
          r =
        cc in
      rw (← same') (
        final.linked_left linked_jobs,
        final.filled,
        λ n.
            split.covers n
            ∙ ap (λ ns. contains ns n || contains skipped n) (sym names)
            ∙ final.covers n,
      )

  -- Where the dependencies of every job name jobs and every artifact of a job or of a step comes from a
  -- dependency of the job, this still holds once the conditions are evaluated. Every job left has a step, and
  -- each name of a given job is that of a job left or is listed as skipped.
  pub evaluate_conditions_closed :
      (p : Pipeline) (r : ConditionResult)
      → linked p.jobs ≡ true
      → evaluate_conditions eval_cel p ≡ ok r
      → (linked r.pipeline.jobs ≡ true)
        × (all has_steps r.pipeline.jobs ≡ true)
        × ((n : String)
            → contains (job_names p.jobs) n
              ≡ (contains (job_names r.pipeline.jobs) n || contains r.skipped n))
  unfolding evaluate_conditions
  evaluate_conditions_closed p r h e =
      let (o, kept, rest) = bind-ok (keep_jobs eval_cel p.env p.jobs) (trim_kept eval_cel p) e in
      trim_kept_lem p o h (keep_jobs-Split eval_cel p.env p.jobs kept) rest
