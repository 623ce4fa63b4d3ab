-- ===== src/Conditions/Kept.antt =====
-- What the first two phases of `EvaluateConditions` keep.
use cicada.Base.{
  ◌≡◌, refl, String, List, [], ◌∷◌, Option, Bool, true, false, if◌then◌else◌, ◌||◌, all, contains,
  string_eq, arith, Option-cases, Bool-cases, inl, inr,
}
use cicada.Model.{Job, Step, EnvVar, Result, ok, ◌>>=◌, bind-ok}
use cicada.Merge.{job_names}
use cicada.Params.{Vars}
use cicada.Defaults.{build_env_scope, merge_env}
use cicada.Conditions.{decide, keep_jobs, keep_steps}

-- The kept jobs are among the given ones, and each name is kept or skipped.
pub record Split (jobs : List Job) (out : List Job × List String) : Type 0 where
  pub among : (p : Job → Bool) → all p jobs ≡ true → all p out.0 ≡ true
  pub covers :
      (n : String)
      → contains (job_names jobs) n ≡ (contains (job_names out.0) n || contains out.1 n)

abbrev put : Job → Bool → List Job × List String → List Job × List String
put j stays (kept, skipped) = if stays then (j ∷ kept, skipped) else (kept, j.name ∷ skipped)

Split-put :
    (j : Job) (stays : Bool) (jobs : List Job) (out : List Job × List String)
    → Split jobs out
    → Split (j ∷ jobs) (put j stays out)
Split-put j true jobs (kept, skipped) s = record {
  among = λ p h. ground (arith, h, s.among p);
  covers = λ n. ground (arith, s.covers n);
}
Split-put j false jobs (kept, skipped) s = record {
  among = λ p h. s.among p (ground (arith, h));
  covers = λ n. ground (arith, s.covers n);
}

abbrev put_step : Step → Bool → List Step × List String → Result (List Step × List String)
put_step s stays (kept, skipped) =
    ok (if stays then (s ∷ kept, skipped) else (kept, s.name ∷ skipped))

module _ (eval_cel : String → Option String → Vars → Option Vars → Option Bool) where
  pub keep_jobs-Split :
      (env : List EnvVar) (jobs : List Job) {out : List Job × List String}
      → keep_jobs eval_cel env jobs ≡ ok out
      → Split jobs out
  unfolding keep_jobs
  keep_jobs-Split env [] {out} h =
      let same : Path (List Job × List String) ([], []) out = cc in
      rw (← same) record { among = λ p k. k; covers = λ n. refl }
  keep_jobs-Split env (j ∷ jobs) {out} h =
      elim (Option-cases (decide eval_cel j.when (build_env_scope env j.env) j.matrix_values)) [
        | inl failed ↦ absurd (ground (arith, failed, h))
        | inr (stays, decided) ↦
            let next = λ (o : List Job × List String). ok (put j stays o) in
            let bound : (keep_jobs eval_cel env jobs >>= next) ≡ ok out =
              ground (arith, decided, h) in
            let (o, rest, e) = bind-ok (keep_jobs eval_cel env jobs) next bound in
            let same : put j stays o ≡ out = cc in
            rw (← same) (Split-put j stays jobs o (keep_jobs-Split env jobs rest))
      ]

  pub keep_steps-all :
      (env : List EnvVar) (j : Job) (steps : List Step) (p : Step → Bool)
      {out : List Step × List String}
      → keep_steps eval_cel env j steps ≡ ok out
      → all p steps ≡ true
      → all p out.0 ≡ true
  unfolding keep_steps
  keep_steps-all env j [] p {out} h k =
      let same : Path (List Step × List String) ([], []) out = cc in rw (← same) refl
  keep_steps-all env j (s ∷ steps) p {out} h k =
      elim (Option-cases
        (decide eval_cel s.when (build_env_scope env (merge_env j.env s.env)) j.matrix_values)) [
          | inl failed ↦ absurd (ground (arith, failed, h))
          | inr (stays, decided) ↦
              let next = put_step s stays in
              let bound : (keep_steps eval_cel env j steps >>= next) ≡ ok out =
                ground (arith, decided, h) in
              let (o, rest, e) = bind-ok (keep_steps eval_cel env j steps) next bound in
              let kept = keep_steps-all env j steps p rest (ground (arith, k)) in
              elim (Bool-cases stays) [
                | inl stay ↦
                    let same : Path (List Step × List String) (s ∷ o.0, o.1) out =
                      ground (arith, stay, e) in
                    rw (← same) (ground (arith, k, kept))
                | inr drop ↦
                    let same : Path (List Step × List String) (o.0, s.name ∷ o.1) out =
                      ground (arith, drop, e) in
                    rw (← same) kept
              ]
        ]
