-- ===== src/Builder/Added.antt =====
-- What `appendJob` adds to the states and to the result.
use cicada.Base.{
  ◌≡◌, refl, sym, ◌∙◌, ap, ℕ, String, str, List, [], ◌∷◌, ◌++◌, Option-cases, inl, inr, get_elem?,
  some, insert, string_eq, arith,
}
use cicada.Model.{Job, Export, ok, bind-ok}
use cicada.Builder.Llb.{Llb}
use cicada.Builder.Steps.{States}
use cicada.Builder.Jobs.{JobOpts, JobResult, build_job, collect_exports}
use cicada.Builder.Build.{
  BuildResult, build_export_def, add_exports, append_job, add_job_result, add_image_export,
}

module _ (L : Llb) where
  -- A result without its exports.
  abbrev bare : BuildResult L → BuildResult L
  bare r = record r { exports = [] }

  add_exports-bare :
      (name : String) (st : L.State) (exports : List Export) (r : BuildResult L)
      {r' : BuildResult L}
      → add_exports L name st exports r ≡ ok r'
      → bare r' ≡ bare r
  unfolding add_exports
  add_exports-bare name st [] r {r'} h = let same : r ≡ r' = cc in ap bare (sym same)
  add_exports-bare name st (e ∷ exports) r h =
      let (def, _, h₁) = bind-ok (build_export_def L st e.path) _ h in
      add_exports-bare name st exports _ h₁

  -- The job's own result, its state, its name and its definition.
  pub record Added (jo : JobOpts L) (j : Job) (states : States L) (result : BuildResult L)
      (states' : States L) (result' : BuildResult L) : Type 0 where
    pub job : JobResult L
    pub built : build_job L j states jo ≡ ok job
    pub stored : states' ≡ insert states j.name job.state
    pub named : result'.job_names ≡ result.job_names ++ j.name ∷ []
    pub defined : result'.definitions ≡ result.definitions ++ job.def ∷ []

  pub append_job-Added :
      (jo : JobOpts L) (j : Job) (states : States L) (result : BuildResult L) {states' : States L}
      {result' : BuildResult L}
      → append_job L jo j (states, result) ≡ ok (states', result')
      → Added jo j states result states' result'
  unfolding append_job
  append_job-Added jo j states result {states'} {result'} h =
      let (jr, built, h₁) = bind-ok (build_job L j states jo) _ h in
      let (def, _, h₂) = bind-ok (build_export_def L jr.state (str "/cicada/output")) _ h₁ in
      let added = add_job_result L j.name jr result in
      let with_output : BuildResult L = record added {
        output_defs = insert added.output_defs j.name def;
      } in
      let (exported, e, h₃) =
        bind-ok (add_exports L j.name jr.state (collect_exports j) with_output) _ h₂ in
      let same_states : insert states j.name jr.state ≡ states' = cc in
      let same_result : add_image_export L j jr exported ≡ result' = cc in
      let rest = add_exports-bare j.name jr.state (collect_exports j) with_output e in
      record {
        job = jr;
        built = built;
        stored = sym same_states;
        named =
            ap (λ (t : BuildResult L). t.job_names) (sym same_result)
            ∙ image_names j jr exported
            ∙ ap (λ (t : BuildResult L). t.job_names) rest
            ∙ added_names j jr result;
        defined =
            ap (λ (t : BuildResult L). t.definitions) (sym same_result)
            ∙ image_definitions j jr exported
            ∙ ap (λ (t : BuildResult L). t.definitions) rest
            ∙ added_definitions j jr result;
      }
    where
      image_names :
          (j : Job) (jr : JobResult L) (r : BuildResult L)
          → (add_image_export L j jr r).job_names ≡ r.job_names
      image_names j jr r = ground (arith, Option-cases j.publish)

      image_definitions :
          (j : Job) (jr : JobResult L) (r : BuildResult L)
          → (add_image_export L j jr r).definitions ≡ r.definitions
      image_definitions j jr r = ground (arith, Option-cases j.publish)

      added_names :
          (j : Job) (jr : JobResult L) (r : BuildResult L)
          → (add_job_result L j.name jr r).job_names ≡ r.job_names ++ j.name ∷ []
      added_names j jr r = elim (Option-cases jr.step_defs) [
        | inl absent ↦ rw absent refl
        | inr (defs, given) ↦ rw given refl
      ]

      added_definitions :
          (j : Job) (jr : JobResult L) (r : BuildResult L)
          → (add_job_result L j.name jr r).definitions ≡ r.definitions ++ jr.def ∷ []
      added_definitions j jr r = elim (Option-cases jr.step_defs) [
        | inl absent ↦ rw absent refl
        | inr (defs, given) ↦ rw given refl
      ]

  -- The definitions of the jobs at the given positions, one for each in order: each job is built with the states of
  -- those before it.
  pub data Built (jo : JobOpts L) (jobs : List Job)
      : List ℕ → States L → List L.Definition → Type 0 where
    nothing_built : Built jo jobs [] [] []
    job_built :
        {done : List ℕ} {states : States L} {defs : List L.Definition} (idx : ℕ) (j : Job)
        (job : JobResult L)
        → Built jo jobs done states defs
        → get_elem? jobs idx ≡ some j
        → build_job L j states jo ≡ ok job
        → Built jo jobs (done ++ idx ∷ []) (insert states j.name job.state) (defs ++ job.def ∷ [])
