-- ===== src/Builder/Jobs.antt =====
-- `Build`, `appendJob` and `buildJob` of internal/builder/builder.go.
use cicada.Base.{
  ℕ, ℤ, String, str, List, [], ◌∷◌, ◌++◌, Option, none, some, Bool, true, false, if◌then◌else◌, not,
  ◌||◌, ◌==◌, ltb, is_empty, any, contains, length, lookup, insert, string_eq, nat_eq,
}
use cicada.Model.{
  Job, Step, Export, EnvVar, Retry, Result, ok, err, ◌>>=◌, builder_error, missing_dep_state,
  bad_platform, marshaling_failed,
}
use cicada.Builder.Llb.{Llb}
use cicada.Builder.Steps.{
  CmdInfo, States, StepSharedCtx, StepBuildResult, copy_artifacts, add_envs, build_mount_run_opts,
  build_step_ops,
}

unfoldable pub collect_exports : Job → List Export
collect_exports j = j.exports ++ step_exports j.steps
  where
    step_exports : List Step → List Export
    step_exports [] = []
    step_exports (s ∷ steps) = s.exports ++ step_exports steps

-- The indices are not negative here; `seen` holds those that are marked.
unfoldable pub check_order : ℕ → List ℕ → List ℕ → Bool
check_order n seen [] = true
check_order n seen (idx ∷ order) =
    let rest = check_order n (idx ∷ seen) order in
    if not (ltb idx n) || contains seen idx then false else rest

unfoldable pub valid_order : List ℕ → ℕ → Bool
unfolding check_order
valid_order order n = if not (length order == n) then false else check_order n [] order

unfoldable pub job_needs_step_control : Job → Bool
job_needs_step_control j =
    any
      (λ (s : Step).
        (elim s.retry as (λ _. Bool) [ none ↦ false | some _ ↦ true ]) || s.allow_failure)
      j.steps

-- strings.HasSuffix(s, "/")
abbrev pub ends_in_slash : String → Bool
ends_in_slash [] = false
ends_in_slash (c ∷ s) = let rest = ends_in_slash s in if is_empty s then c == b'/' else rest

abbrev pub dep_preamble : String
dep_preamble =
    str
      "for __f in /cicada/deps/*/output; do [ -f \"$__f\" ] && { set -a; . \"$__f\"; set +a; }; done"
    ++ 10 ∷ []

module _ (L : Llb) where
  pub record JobOpts : Type 0 where
    pub img_opts : List L.ImageOption
    pub run_opts : List L.RunOption
    pub exclude_patterns : List String
    pub pipeline_env : List EnvVar
    pub expose_deps : Bool
    pub global_no_cache : Bool
    pub no_cache_filter : List String

  pub record StepDef : Type 0 where
    pub name : String
    pub retry : Option Retry
    pub allow_failure : Bool
    pub timeouts : List (String × ℤ)
    pub cmd_infos : List (String × CmdInfo)
    pub build : L.State → ℕ → Result L.State

  pub record JobResult : Type 0 where
    pub def : L.Definition
    pub state : L.State
    pub step_timeouts : List (String × ℤ)
    pub cmd_infos : List (String × CmdInfo)
    pub step_defs : Option (List StepDef)
    pub base_state : Option L.State

  abbrev pub is_no_cached : JobOpts → Job → Bool
  is_no_cached opts j = opts.global_no_cache || (contains opts.no_cache_filter j.name || j.no_cache)

  unfoldable pub job_cache_opts : Job → JobOpts → List L.ImageOption × List L.RunOption
  job_cache_opts j opts =
      if opts.global_no_cache
      then (opts.img_opts, opts.run_opts)
      else if contains opts.no_cache_filter j.name || j.no_cache
      then (opts.img_opts ++ L.ignore_cache_image ∷ [], opts.run_opts ++ L.ignore_cache_run ∷ [])
      else (opts.img_opts, opts.run_opts)

  unfoldable pub platform_opts : String → List L.ImageOption → Result (List L.ImageOption)
  platform_opts platform opts =
      if is_empty platform
      then ok opts
      else (elim (L.parse_platform platform) as (λ _. Result (List L.ImageOption)) [
        | none ↦ err (builder_error bad_platform)
        | some o ↦ ok (opts ++ o ∷ [])
      ])

  -- The image with the environment, the folder of the outputs, and the variable that leads to it.
  unfoldable pub image_state : JobOpts → Job → List L.ImageOption → L.State
  image_state opts j img_opts =
      let st = L.image j.image img_opts in
      let placed = if is_empty j.workdir then st else L.set_dir st j.workdir in
      let env = add_envs L j.env (add_envs L opts.pipeline_env placed) in
      L.add_env (L.make_file (L.make_dir env (str "/cicada") 493) (str "/cicada/output") 420)
        (str "CICADA_OUTPUT") (str "/cicada/output")

  unfoldable pub dep_mount_opts : List String → States L → Bool → Result (List L.RunOption)
  dep_mount_opts [] dep_states expose_deps = ok []
  dep_mount_opts (dep ∷ deps) dep_states expose_deps =
      elim (lookup dep_states dep) as (λ _. Result (List L.RunOption)) [
        | none ↦ err (builder_error missing_dep_state)
        | some st ↦ dep_mount_opts deps dep_states expose_deps >>= λ opts. ok (
            L.add_mount (str "/cicada/deps/" ++ dep) st
                (L.source_path (str "/cicada") ∷ L.read_only ∷ [])
              ∷ (if expose_deps
                  then L.add_mount (str "/deps/" ++ dep) st (L.read_only ∷ []) ∷ []
                  else [])
            ++ opts)
      ]

  unfoldable pub shared_ctx :
      JobOpts → Job → States L → List L.RunOption → List L.RunOption → StepSharedCtx L
  unfolding build_mount_run_opts
  shared_ctx opts j dep_states dep_mounts run_opts =
      let local_opts =
        L.shared_key_hint (str "context")
        ∷ (if is_empty opts.exclude_patterns
            then []
            else L.exclude_patterns opts.exclude_patterns ∷ []) in
      record {
        job_name = j.name;
        preamble = if is_empty j.depends_on then [] else dep_preamble;
        dep_states = dep_states;
        dep_mounts = dep_mounts;
        job_mount_opts = build_mount_run_opts L j.mounts j.caches local_opts;
        base_run_opts = run_opts;
        job_shell = j.shell;
        local_opts = local_opts;
        job_no_cached = is_no_cached opts j;
        job_secrets = j.secrets;
      }

  -- What a step is when it runs on its own, with its retries.
  unfoldable pub step_def : StepSharedCtx L → Step → StepBuildResult L → StepDef
  unfolding build_step_ops
  step_def shared s r = record {
    name = s.name;
    retry = s.retry;
    allow_failure = s.allow_failure;
    timeouts = r.timeouts;
    cmd_infos = r.cmd_infos;
    build =
        λ base retry_attempt. build_step_ops L base s retry_attempt shared >>= λ r'. ok r'.state;
  }

  -- maps.Copy(dst, src)
  abbrev pub copy_map {ℓ} : {V : Type ℓ} → List (String × V) → List (String × V) → List (String × V)
  copy_map dst [] = dst
  copy_map dst ((k, v) ∷ src) = copy_map (insert dst k v) src

  -- The steps on top of each other: the last state, the merged maps, and one definition per step.
  unfoldable pub chain_steps :
      StepSharedCtx L
      → List Step
      → StepBuildResult L
      → List StepDef
      → Result (StepBuildResult L × List StepDef)
  unfolding build_step_ops step_def
  chain_steps shared [] r defs = ok (r, defs)
  chain_steps shared (s ∷ steps) r defs = build_step_ops L r.state s 0 shared >>= λ r'.
      chain_steps shared steps
        (record {
          state = r'.state;
          timeouts = copy_map r.timeouts r'.timeouts;
          cmd_infos = copy_map r.cmd_infos r'.cmd_infos;
        })
        (defs ++ step_def shared s r' ∷ [])

  unfoldable pub marshal_state : L.State → Result L.Definition
  marshal_state st = elim (L.marshal st) as (λ _. Result L.Definition) [
    | none ↦ err (builder_error marshaling_failed)
    | some def ↦ ok def
  ]

  -- The steps of a job on its base state.
  unfoldable pub finish_job : Job → StepSharedCtx L → L.State → Result JobResult
  unfolding chain_steps marshal_state job_needs_step_control
  finish_job j shared base =
      chain_steps shared j.steps (record { state = base; timeouts = []; cmd_infos = [] }) []
      >>= λ (r, defs). marshal_state r.state >>= λ def. ok (record {
        def = def;
        state = r.state;
        step_timeouts = r.timeouts;
        cmd_infos = r.cmd_infos;
        step_defs = if job_needs_step_control j then some defs else none;
        base_state = if job_needs_step_control j then some base else none;
      })

  unfoldable pub build_job : Job → States L → JobOpts → Result JobResult
  unfolding job_cache_opts platform_opts image_state copy_artifacts dep_mount_opts shared_ctx
      finish_job
  build_job j dep_states opts =
      let (img_opts, run_opts) = job_cache_opts j opts in
      platform_opts j.platform img_opts >>= λ img_opts'.
      copy_artifacts L dep_states j.artifacts (image_state opts j img_opts') >>= λ base.
      dep_mount_opts j.depends_on dep_states opts.expose_deps >>= λ dep_mounts.
      finish_job j (shared_ctx opts j dep_states dep_mounts run_opts) base
