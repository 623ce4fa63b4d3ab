-- ===== src/Defaults.antt =====
-- pkg/pipeline/pipeline.go: defaults, environment scopes and the images of a pipeline, and
-- `collectUnique` of slicefn.go.
pub mod Env
pub mod Images
mod Tests
use cicada.Base.{
  String, List, [], ◌∷◌, ◌++◌, Option, none, some, Bool, if◌then◌else◌, not, is_empty, contains,
  keep, lookup, insert, map, ◌==◌, string_eq,
}
use cicada.Model.{Job, EnvVar, Defaults, Pipeline}

abbrev pub env_keys : List EnvVar → List String
env_keys = map (λ e. e.key)

unfoldable pub merge_env : List EnvVar → List EnvVar → List EnvVar
merge_env base override = keep (λ e. not (contains (env_keys override) e.key)) base ++ override

-- `for _, e := range merged { m[e.Key] = e.Value }`
pub fill_env : List EnvVar → List (String × String) → List (String × String)
fill_env [] m = m
fill_env (e ∷ envs) m = fill_env envs (insert m e.key e.value)

unfoldable pub build_env_scope : List EnvVar → List EnvVar → List (String × String)
unfolding fill_env merge_env
build_env_scope pipeline_env job_env = fill_env (merge_env pipeline_env job_env) []

abbrev pub default_text : String → String → String
default_text own default = if is_empty own then default else own

abbrev pub default_shell : Option (List String) → List String → Option (List String)
default_shell (some s) default = some s
default_shell none default = if is_empty default then none else some default

unfoldable pub apply_job : Defaults → Job → Job
unfolding merge_env
apply_job d j = record j {
  image = default_text j.image d.image;
  workdir = default_text j.workdir d.workdir;
  mounts = d.mounts ++ j.mounts;
  env = if is_empty d.env then j.env else merge_env d.env j.env;
  shell = default_shell j.shell d.shell;
}

unfoldable pub apply_defaults : List Job → Option Defaults → List Job
unfolding apply_job
apply_defaults jobs none = jobs
apply_defaults jobs (some d) = map (apply_job d) jobs

-- `collectUnique` at strings: the zero value is the empty string.
pub collect_unique {ℓ} : {T : Type ℓ} → (T → String) → List String → List T → List String
collect_unique fn out [] = out
collect_unique fn out (v ∷ vs) =
    collect_unique fn
      (if is_empty (fn v) then out else if contains out (fn v) then out else out ++ fn v ∷ []) vs

unfoldable pub collect_images : Pipeline → List String
unfolding collect_unique
collect_images p = collect_unique (λ (j : Job). j.image) [] p.jobs
