-- ===== src/Builder/Build.antt =====
-- `Build`, `appendJob` and `buildExportDef` of internal/builder/builder.go: the definitions of all jobs, in topological order.
use cicada.Base.{
  ℕ, ℤ, String, str, List, [], ◌∷◌, ◌++◌, Option, none, some, Bool, if◌then◌else◌, ◌||◌, ◌==◌,
  length, get_elem?, insert, string_eq, nat_eq,
}
use cicada.Model.{
  Job, Export, EnvVar, Publish, SecretDecl, Pipeline, Result, ok, err, ◌>>=◌, builder_error,
  invalid_export_path,
}
use cicada.Validate.{validate}
use cicada.Builder.Llb.{Llb}
use cicada.Builder.Steps.{CmdInfo, States}
use cicada.Builder.Jobs.{
  collect_exports, valid_order, ends_in_slash, JobOpts, StepDef, JobResult, build_job,
  marshal_state,
}

module _ (L : Llb) where
  pub record BuildOpts : Type 0 where
    pub no_cache : Bool
    pub no_cache_filter : List String
    pub exclude_patterns : List String
    -- llb.WithMetaResolver(opts.MetaResolver), if there is one
    pub meta_resolver : Option L.ImageOption
    pub expose_deps : Bool

  pub record LocalExport : Type 0 where
    pub definition : L.Definition
    pub job_name : String
    pub local : String
    pub dir : Bool

  pub record ImageExport : Type 0 where
    pub definition : L.Definition
    pub job_name : String
    pub publish : Publish
    pub platform : String

  pub record BuildResult : Type 0 where
    pub definitions : List L.Definition
    pub job_names : List String
    pub exports : List LocalExport
    pub image_exports : List ImageExport
    pub output_defs : List (String × L.Definition)
    pub step_timeouts : List (String × List (String × ℤ))
    pub cmd_infos : List (String × List (String × CmdInfo))
    pub secret_decls : List SecretDecl
    pub step_defs : List (String × List (StepDef L))
    pub base_states : List (String × L.State)

  unfoldable pub build_export_def : L.State → String → Result L.Definition
  unfolding marshal_state
  build_export_def exec_state container_path =
      let cleaned = L.path_clean container_path in
      if cleaned == str "." || cleaned == str "/"
      then err (builder_error invalid_export_path)
      else let (src, dest) : String × String =
          if ends_in_slash container_path
          then (cleaned ++ str "/.", str "/cicada/export/")
          else (cleaned, str "/cicada/export/" ++ L.path_base cleaned) in
        marshal_state L (
          L.get_mount
            (L.run exec_state (
              L.run_args (str "cp" ∷ str "-a" ∷ src ∷ dest ∷ [])
              ∷ L.add_mount (str "/cicada/export") L.scratch []
              ∷ L.custom_name (str "export:" ++ cleaned)
              ∷ []))
            (str "/cicada/export"))

  unfoldable pub add_exports : String → L.State → List Export → BuildResult → Result BuildResult
  unfolding build_export_def
  add_exports name st [] result = ok result
  add_exports name st (e ∷ exports) result = build_export_def st e.path >>= λ def.
      add_exports name st exports (record result {
        exports =
            result.exports
            ++ record {
              definition = def;
              job_name = name;
              local = e.local;
              dir = ends_in_slash e.path;
            }
              ∷ [];
      })

  -- `if jr.stepDefs != nil { ... }`
  abbrev pub add_step_defs : String → JobResult L → BuildResult → BuildResult
  add_step_defs name jr result = elim jr.step_defs as (λ _. BuildResult) [
    | none ↦ result
    | some defs ↦ record result {
      step_defs = insert result.step_defs name defs;
      base_states = elim jr.base_state as (λ _. List (String × L.State)) [
        | none ↦ result.base_states
        | some st ↦ insert result.base_states name st
      ];
    }
  ]

  abbrev pub add_image_export : Job → JobResult L → BuildResult → BuildResult
  add_image_export j jr result = elim j.publish as (λ _. BuildResult) [
    | none ↦ result
    | some p ↦ record result {
      image_exports =
          result.image_exports
          ++ record { definition = jr.def; job_name = j.name; publish = p; platform = j.platform }
            ∷ [];
    }
  ]

  abbrev pub add_job_result : String → JobResult L → BuildResult → BuildResult
  add_job_result name jr result = add_step_defs name jr (record result {
    definitions = result.definitions ++ jr.def ∷ [];
    job_names = result.job_names ++ name ∷ [];
    step_timeouts = insert result.step_timeouts name jr.step_timeouts;
    cmd_infos = insert result.cmd_infos name jr.cmd_infos;
  })

  unfoldable pub append_job :
      JobOpts L → Job → States L × BuildResult → Result (States L × BuildResult)
  unfolding build_job build_export_def collect_exports add_exports
  append_job jo j (states, result) = build_job L j states jo >>= λ jr.
      build_export_def jr.state (str "/cicada/output") >>= λ output_def.
      let added = add_job_result j.name jr result in
      add_exports j.name jr.state (collect_exports j)
        (record added { output_defs = insert added.output_defs j.name output_def })
      >>= λ exported. ok (insert states j.name jr.state, add_image_export j jr exported)

  -- The loop over the order. An index beyond the jobs, at which the code would panic, is passed over; no order that
  -- `validOrder` or `Validate` lets through has one.
  unfoldable pub append_jobs :
      JobOpts L → List Job → List ℕ → States L × BuildResult → Result (States L × BuildResult)
  unfolding append_job
  append_jobs jo jobs [] acc = ok acc
  append_jobs jo jobs (idx ∷ order) acc =
      elim (get_elem? jobs idx) as (λ _. Result (States L × BuildResult)) [
        | none ↦ append_jobs jo jobs order acc
        | some j ↦ append_job jo j acc >>= append_jobs jo jobs order
      ]

  abbrev pub job_opts : BuildOpts → List EnvVar → JobOpts L
  job_opts opts env = record {
    img_opts =
        elim opts.meta_resolver as (λ _. List L.ImageOption) [ none ↦ [] | some o ↦ o ∷ [] ]
        ++ (if opts.no_cache then L.ignore_cache_image ∷ [] else []);
    run_opts = if opts.no_cache then L.ignore_cache_run ∷ [] else [];
    exclude_patterns = opts.exclude_patterns;
    pipeline_env = env;
    expose_deps = opts.expose_deps;
    global_no_cache = opts.no_cache;
    no_cache_filter = opts.no_cache_filter;
  }

  abbrev pub empty_result : List SecretDecl → BuildResult
  empty_result decls = record {
    definitions = [];
    job_names = [];
    exports = [];
    image_exports = [];
    output_defs = [];
    step_timeouts = [];
    cmd_infos = [];
    secret_decls = decls;
    step_defs = [];
    base_states = [];
  }

  -- The cached order, if it is one, or that of a new validation, with the pipeline as it is then.
  abbrev pub cached_order : Pipeline → List ℕ
  cached_order p = elim p.topo_order as (λ _. List ℕ) [ none ↦ [] | some order ↦ order ]

  unfoldable pub ordered : (String → Option Bool) → Pipeline → Result (Pipeline × List ℕ)
  unfolding valid_order validate
  ordered check_expr p =
      if valid_order (cached_order p) (length p.jobs)
      then ok (p, cached_order p)
      else validate check_expr p

  unfoldable pub build : (String → Option Bool) → Pipeline → BuildOpts → Result BuildResult
  unfolding ordered append_jobs
  build check_expr p opts = ordered check_expr p >>= λ (p', order).
      append_jobs (job_opts opts p'.env) p'.jobs order ([], empty_result p'.secrets)
      >>= λ (_, result). ok result
