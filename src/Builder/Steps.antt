-- ===== src/Builder/Steps.antt =====
-- `buildStepOps` of internal/builder/builder.go and what it calls: one step on top of a state.
use cicada.Base.{
  ℕ, ℤ, is_positive, String, str, List, [], ◌∷◌, ◌++◌, Option, none, some, Bool, if◌then◌else◌, not,
  ◌&&◌, ltb, is_empty, is_blank, lookup, insert, map, string_eq,
}
use cicada.Model.{
  Step, Artifact, EnvVar, Mount, Cache, SecretRef, Result, ok, err, ◌>>=◌, missing_run,
  empty_run_command, builder_error, missing_dep_state,
}
use cicada.Builder.Llb.{Llb}
use cicada.Builder.Quote.{single_quote, resolve_shell, itoa, space_join}

-- progressmodel.CmdInfo
pub record CmdInfo : Type 0 where
  pub user_cmd : String
  pub full_cmd : String

module _ (L : Llb) where
  -- `map[string]llb.State`
  abbrev pub States : Type 0
  States = List (String × L.State)

  pub record StepSharedCtx : Type 0 where
    pub job_name : String
    pub preamble : String
    pub dep_states : States
    pub dep_mounts : List L.RunOption
    pub job_mount_opts : List L.RunOption
    pub base_run_opts : List L.RunOption
    pub job_shell : Option (List String)
    pub local_opts : List L.LocalOption
    pub job_no_cached : Bool
    pub job_secrets : List SecretRef

  -- Maps that are nil and maps that are empty are read alike.
  pub record StepBuildResult : Type 0 where
    pub state : L.State
    pub timeouts : List (String × ℤ)
    pub cmd_infos : List (String × CmdInfo)

  -- The artifacts of a job or of a step, from the states of its dependencies.
  unfoldable pub copy_artifacts : States → List Artifact → L.State → Result L.State
  copy_artifacts dep_states [] st = ok st
  copy_artifacts dep_states (a ∷ artifacts) st =
      elim (lookup dep_states a.from) as (λ _. Result L.State) [
        | none ↦ err (builder_error missing_dep_state)
        | some dep ↦ copy_artifacts dep_states artifacts (L.copy st dep a.source a.target)
      ]

  abbrev pub add_envs : List EnvVar → L.State → L.State
  add_envs [] st = st
  add_envs (e ∷ env) st = add_envs env (L.add_env st e.key e.value)

  abbrev pub mount_option : List L.LocalOption → Mount → L.RunOption
  mount_option local_opts m =
      L.add_mount m.target (L.local_dir (str "context") local_opts)
        (L.source_path m.source ∷ (if m.read_only then L.read_only ∷ [] else []))

  unfoldable pub build_mount_run_opts :
      List Mount → List Cache → List L.LocalOption → List L.RunOption
  build_mount_run_opts mounts caches local_opts =
      map (mount_option local_opts) mounts
      ++ map (λ (c : Cache). L.add_mount c.target L.scratch (L.persistent_cache_dir c.id ∷ []))
          caches

  unfoldable pub secret_ref_to_run_opt : SecretRef → L.RunOption
  secret_ref_to_run_opt ref =
      if not (is_empty ref.env)
      then L.secret_env ref.name ref.env
      else L.secret_mount ref.mount ref.name

  unfoldable pub build_secret_run_opts : List SecretRef → List SecretRef → List L.RunOption
  unfolding secret_ref_to_run_opt
  build_secret_run_opts job_secrets step_secrets =
      map secret_ref_to_run_opt job_secrets ++ map secret_ref_to_run_opt step_secrets

  -- The command that the shell gets: behind the preamble, and with the number of the attempt.
  unfoldable pub shell_command : String → ℕ → String → String
  shell_command preamble retry_attempt cmd =
      preamble
      ++ (if ltb 0 retry_attempt
          then str "CICADA_RETRY_ATTEMPT=" ++ itoa retry_attempt ++ str " " ++ cmd
          else cmd)

  unfoldable pub command_args : List String → ℤ → String → List String
  unfolding single_quote
  command_args shell timeout shell_cmd =
      if is_positive timeout
      then shell
        ++ (str "timeout -s KILL "
            ++ L.format_seconds timeout
            ++ str " "
            ++ space_join (map single_quote shell)
            ++ str " "
            ++ single_quote shell_cmd
            ++ str "; exit $?")
          ∷ []
      else shell ++ shell_cmd ∷ []

  -- The options of a run that a step's commands share.
  abbrev pub shared_run_opts : StepSharedCtx → Step → List L.RunOption
  shared_run_opts shared step =
      shared.dep_mounts
      ++ shared.job_mount_opts
      ++ build_mount_run_opts step.mounts step.caches shared.local_opts
      ++ build_secret_run_opts shared.job_secrets step.secrets
      ++ (if step.no_cache && not shared.job_no_cached then L.ignore_cache_run ∷ [] else [])

  -- One command.
  unfoldable pub run_command : StepSharedCtx → Step → ℕ → String → StepBuildResult → StepBuildResult
  unfolding shell_command command_args resolve_shell
  run_command shared step retry_attempt cmd r =
      let full = shell_command shared.preamble retry_attempt cmd in
      let vertex = shared.job_name ++ str "/" ++ step.name ++ str "/" ++ cmd in
      record {
        state = L.root (
            L.run r.state (
              shared.base_run_opts
              ++ L.run_args
                  (command_args (resolve_shell shared.job_shell step.shell) step.timeout full)
                ∷ L.custom_name vertex
                ∷ shared_run_opts shared step));
        timeouts =
            if is_positive step.timeout then insert r.timeouts vertex step.timeout else r.timeouts;
        cmd_infos = insert r.cmd_infos vertex (record { user_cmd = cmd; full_cmd = full });
      }

  unfoldable pub run_commands :
      StepSharedCtx → Step → ℕ → List String → StepBuildResult → Result StepBuildResult
  unfolding run_command
  run_commands shared step retry_attempt [] r = ok r
  run_commands shared step retry_attempt (cmd ∷ cmds) r =
      let rest =
        run_commands shared step retry_attempt cmds (run_command shared step retry_attempt cmd r) in
      if is_blank cmd then err empty_run_command else rest

  unfoldable pub build_step_ops : L.State → Step → ℕ → StepSharedCtx → Result StepBuildResult
  unfolding copy_artifacts run_commands
  build_step_ops base step retry_attempt shared =
      copy_artifacts shared.dep_states step.artifacts base >>= λ st.
      let placed = if is_empty step.workdir then st else L.set_dir st step.workdir in
      if is_empty step.run
      then err missing_run
      else run_commands shared step retry_attempt step.run
          (record { state = add_envs step.env placed; timeouts = []; cmd_infos = [] })
