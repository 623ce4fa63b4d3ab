-- ===== src/Builder/Complete.antt =====
-- A validated pipeline builds in its order, and never lacks the state of a dependency.
use cicada.Base.{
  ℕ, ◌≡◌, refl, String, str, List, [], ◌∷◌, some, Bool, true, false, ◌||◌, ◌==◌, all, contains,
  lookup, string_eq, nat_eq, arith, Bool-cases, Option-cases, inl, inr, eqb_refl, is_empty,
}
use cicada.Model.{
  Job, Step, Artifact, Export, Error, Result, ok, err, ◌>>=◌, builder_error, missing_dep_state,
}
use cicada.Validate.Index.{names}
use cicada.Validate.Sources.{sources_in, declared}
use cicada.Builder.Llb.{Llb}
use cicada.Builder.Steps.{
  States, StepSharedCtx, StepBuildResult, copy_artifacts, run_command, run_commands, build_step_ops,
}
use cicada.Builder.Jobs.{
  JobOpts, StepDef, job_cache_opts, platform_opts, image_state, dep_mount_opts, shared_ctx,
  chain_steps, marshal_state, finish_job, build_job, collect_exports,
}
use cicada.Builder.Build.{BuildResult, build_export_def, add_exports, append_job}

-- Whether a result is the error about a missing state.
abbrev pub is_missing : Error → Bool
is_missing (builder_error missing_dep_state) = true
is_missing _ = false

abbrev pub misses {ℓ} : {A : Type ℓ} → Result A → Bool
misses (ok a) = false
misses (err e) = is_missing e

pub misses-bind {ℓ κ} :
    {A : Type ℓ} {B : Type κ} (m : Result A) (f : A → Result B)
    → misses m ≡ false
    → ((a : A) → m ≡ ok a → misses (f a) ≡ false)
    → misses (m >>= f) ≡ false
misses-bind (ok a) f h k = k a refl
misses-bind (err e) f h k = h

module _ (L : Llb) where
  -- The states of these names are there.
  abbrev pub Holds : States L → List String → Type 0
  Holds states names =
      (n : String) → contains names n ≡ true → (st : L.State) × (lookup states n ≡ some st)

  copy_artifacts-finds :
      (states : States L) (names : List String) (artifacts : List Artifact) (st : L.State)
      → Holds states names
      → sources_in names artifacts ≡ true
      → misses (copy_artifacts L states artifacts st) ≡ false
  unfolding copy_artifacts
  copy_artifacts-finds states names [] st holds h = refl
  copy_artifacts-finds states names (a ∷ artifacts) st holds h =
      let (dep, found) = holds a.from (ground (arith, h)) in
      let rest =
        copy_artifacts-finds states names artifacts (L.copy st dep a.source a.target) holds
          (ground (arith, h)) in
      ground (arith, found, rest)

  dep_mount_opts-finds :
      (states : States L) (deps : List String) (expose : Bool)
      → Holds states deps
      → misses (dep_mount_opts L deps states expose) ≡ false
  unfolding dep_mount_opts
  dep_mount_opts-finds states [] expose holds = refl
  dep_mount_opts-finds states (d ∷ deps) expose holds =
      let (st, found) = holds d (ground (arith, eqb_refl d)) in
      let rest = dep_mount_opts-finds states deps expose (λ n m. holds n (ground (arith, m))) in
      ground (arith, found, rest)

  run_commands-finds :
      (shared : StepSharedCtx L) (s : Step) (attempt : ℕ) (cmds : List String)
      (r : StepBuildResult L)
      → misses (run_commands L shared s attempt cmds r) ≡ false
  unfolding run_commands
  run_commands-finds shared s attempt [] r = refl
  run_commands-finds shared s attempt (cmd ∷ cmds) r =
      ground
        (arith, run_commands-finds shared s attempt cmds (run_command L shared s attempt cmd r))

  build_step_ops-finds :
      (shared : StepSharedCtx L) (names : List String) (base : L.State) (s : Step) (attempt : ℕ)
      → Holds shared.dep_states names
      → sources_in names s.artifacts ≡ true
      → misses (build_step_ops L base s attempt shared) ≡ false
  unfolding build_step_ops
  build_step_ops-finds shared names base s attempt holds h =
      misses-bind (copy_artifacts L shared.dep_states s.artifacts base) _
        (copy_artifacts-finds shared.dep_states names s.artifacts base holds h)
        (λ st e. elim (Bool-cases (is_empty s.run)) [
          | inl none_given ↦ rw none_given refl
          | inr given ↦ rw given (run_commands-finds shared s attempt s.run _)
        ])

  chain_steps-finds :
      (shared : StepSharedCtx L) (names : List String) (steps : List Step) (r : StepBuildResult L)
      (defs : List (StepDef L))
      → Holds shared.dep_states names
      → all (λ (s : Step). sources_in names s.artifacts) steps ≡ true
      → misses (chain_steps L shared steps r defs) ≡ false
  unfolding chain_steps
  chain_steps-finds shared names [] r defs holds h = refl
  chain_steps-finds shared names (s ∷ steps) r defs holds h =
      misses-bind (build_step_ops L r.state s 0 shared) _
        (build_step_ops-finds shared names r.state s 0 holds (ground (arith, h)))
        (λ r' e. chain_steps-finds shared names steps _ _ holds (ground (arith, h)))

  marshal_state-finds : (st : L.State) → misses (marshal_state L st) ≡ false
  unfolding marshal_state
  marshal_state-finds st = ground (arith, Option-cases (L.marshal st))

  build_job-finds :
      (j : Job) (states : States L) (opts : JobOpts L)
      → Holds states j.depends_on
      → declared j ≡ true
      → misses (build_job L j states opts) ≡ false
  unfolding build_job platform_opts finish_job shared_ctx
  build_job-finds j states opts holds h =
      misses-bind (platform_opts L j.platform ((job_cache_opts L j opts).0)) _
        (ground (arith, Option-cases (L.parse_platform j.platform)))
        (λ imgs e.
          misses-bind (copy_artifacts L states j.artifacts (image_state L opts j imgs)) _
            (copy_artifacts-finds states j.depends_on j.artifacts _ holds (ground (arith, h)))
            (λ base e₁.
              misses-bind (dep_mount_opts L j.depends_on states opts.expose_deps) _
                (dep_mount_opts-finds states j.depends_on opts.expose_deps holds)
                (λ mounts e₂.
                  let shared = shared_ctx L opts j states mounts ((job_cache_opts L j opts).1) in
                  misses-bind (chain_steps L shared j.steps _ []) _
                    (chain_steps-finds shared j.depends_on j.steps _ [] holds (ground (arith, h)))
                    (λ (r, defs) e₃.
                      misses-bind (marshal_state L r.state) _ (marshal_state-finds r.state)
                        (λ def e₄. refl)))))

  build_export_def-finds :
      (st : L.State) (path : String) → misses (build_export_def L st path) ≡ false
  unfolding build_export_def
  build_export_def-finds st path =
      elim (Bool-cases (L.path_clean path == str "." || L.path_clean path == str "/")) [
        | inl bad ↦ rw bad refl
        | inr good ↦ rw good (marshal_state-finds _)
      ]

  add_exports-finds :
      (name : String) (st : L.State) (exports : List Export) (r : BuildResult L)
      → misses (add_exports L name st exports r) ≡ false
  unfolding add_exports
  add_exports-finds name st [] r = refl
  add_exports-finds name st (e ∷ exports) r =
      misses-bind (build_export_def L st e.path) _ (build_export_def-finds st e.path)
        (λ def _. add_exports-finds name st exports _)

  pub append_job-finds :
      (jo : JobOpts L) (j : Job) (states : States L) (result : BuildResult L)
      → Holds states j.depends_on
      → declared j ≡ true
      → misses (append_job L jo j (states, result)) ≡ false
  unfolding append_job
  append_job-finds jo j states result holds h =
      misses-bind (build_job L j states jo) _ (build_job-finds j states jo holds h) (λ jr _.
        misses-bind (build_export_def L jr.state (str "/cicada/output")) _
          (build_export_def-finds jr.state (str "/cicada/output"))
          (λ def _.
            misses-bind (add_exports L j.name jr.state (collect_exports j) _) _
              (add_exports-finds j.name jr.state (collect_exports j) _) (λ r _. refl)))
  -- What a job adds: its state and its name.
