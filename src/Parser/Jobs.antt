-- ===== src/Parser/Jobs.antt =====
-- pkg/parser/job.go and defaults.go: jobs, steps, bare steps and defaults, field by field.
use cicada.Base.{
  pos, String, [], ◌∷◌, ◌++◌, Option, none, some, Bool, true, false, if◌then◌else◌, not, is_empty,
}
use cicada.Model.{
  Job, Step, Defaults, Result, ok, err, ◌>>=◌, missing_field, duplicate_field, unknown_node,
  negative_timeout, conditional_error, deferred_in_step,
}
use cicada.Parser.Outside.{Outside}
use cicada.Parser.Helpers.{
  NodeType, nt_step, nt_matrix, nt_mount, nt_cache, nt_image, nt_run, nt_workdir, nt_depends_on,
  nt_platform, nt_env, nt_export, nt_artifact, nt_no_cache, nt_publish, nt_when, nt_retry,
  nt_timeout, nt_shell, nt_secret, nt_allow_failure, node_type, refuse, each, set_once,
  set_once_ptr, require_string_arg, at_most,
}
use cicada.Parser.Elements.{
  parse_matrix, parse_env_node, parse_export_node, parse_artifact_node, parse_publish_node,
  parse_when_node, parse_duration_arg, parse_retry_node, parse_shell_node, parse_secret_ref_node,
  parse_mount_node, parse_cache_node,
}

-- Go's zero values, but for the name.
abbrev pub new_job : String → Job
new_job name = record {
  name = name;
  image = [];
  workdir = [];
  platform = [];
  depends_on = [];
  mounts = [];
  caches = [];
  env = [];
  exports = [];
  artifacts = [];
  secrets = [];
  steps = [];
  when = none;
  matrix = none;
  matrix_values = none;
  no_cache = false;
  publish = none;
  timeout = pos 0;
  retry = none;
  shell = none;
}

abbrev pub new_step : String → Step
new_step name = record {
  name = name;
  run = [];
  env = [];
  workdir = [];
  mounts = [];
  caches = [];
  secrets = [];
  exports = [];
  artifacts = [];
  when = none;
  no_cache = false;
  timeout = pos 0;
  shell = none;
  retry = none;
  allow_failure = false;
}

-- A flag that is given once.
abbrev pub set_flag : Bool → Result Bool
set_flag true = refuse duplicate_field
set_flag false = ok true

abbrev pub is_set {ℓ} : {A : Type ℓ} → Option A → Bool
is_set none = false
is_set (some _) = true

module _ (o : Outside) where
  -- A step and whether its timeout was seen.
  pub step_field : NodeType → Step × Bool → o.Node → Result (Step × Bool)
  unfolding require_string_arg parse_env_node set_once set_once_ptr parse_mount_node
      parse_cache_node parse_export_node parse_artifact_node parse_when_node parse_duration_arg
      parse_shell_node parse_secret_ref_node parse_retry_node
  step_field nt_run (s, seen) node =
      require_string_arg o node >>= λ v. ok (record s { run = s.run ++ v ∷ [] }, seen)
  step_field nt_env (s, seen) node =
      parse_env_node o node >>= λ e. ok (record s { env = s.env ++ e ∷ [] }, seen)
  step_field nt_workdir (s, seen) node = require_string_arg o node >>= λ v.
      set_once s.workdir v >>= λ w. ok (record s { workdir = w }, seen)
  step_field nt_mount (s, seen) node =
      parse_mount_node o node >>= λ m. ok (record s { mounts = s.mounts ++ m ∷ [] }, seen)
  step_field nt_cache (s, seen) node =
      parse_cache_node o node >>= λ c. ok (record s { caches = s.caches ++ c ∷ [] }, seen)
  step_field nt_export (s, seen) node =
      parse_export_node o node >>= λ e. ok (record s { exports = s.exports ++ e ∷ [] }, seen)
  step_field nt_artifact (s, seen) node =
      parse_artifact_node o node >>= λ a. ok (record s { artifacts = s.artifacts ++ a ∷ [] }, seen)
  step_field nt_when (s, seen) node = parse_when_node o node >>= λ w.
      if w.deferred
      then err (conditional_error deferred_in_step)
      else set_once_ptr s.when w >>= λ w'. ok (record s { when = w' }, seen)
  step_field nt_timeout (s, seen) node =
      if seen
      then refuse duplicate_field
      else parse_duration_arg o negative_timeout node >>= λ d. ok (record s { timeout = d }, true)
  step_field nt_shell (s, seen) node =
      if is_set s.shell
      then refuse duplicate_field
      else parse_shell_node o node >>= λ sh. ok (record s { shell = some sh }, seen)
  step_field nt_secret (s, seen) node =
      parse_secret_ref_node o node >>= λ r. ok (record s { secrets = s.secrets ++ r ∷ [] }, seen)
  step_field nt_no_cache (s, seen) node =
      at_most o 0 node (set_flag s.no_cache >>= λ b. ok (record s { no_cache = b }, seen))
  step_field nt_allow_failure (s, seen) node =
      at_most o 0 node (set_flag s.allow_failure >>= λ b. ok (record s { allow_failure = b }, seen))
  step_field nt_retry (s, seen) node = parse_retry_node o node >>= λ r.
      set_once_ptr s.retry r >>= λ r'. ok (record s { retry = r' }, seen)
  step_field _ (s, seen) node = refuse unknown_node

  unfoldable pub apply_job_step_field : Step × Bool → o.Node → Result (Step × Bool)
  unfolding step_field node_type
  apply_job_step_field s node = step_field (node_type (o.name node)) s node

  -- The name of a job or a step; of the two errors that the code wraps, the first.
  pub required_name : o.Node → Result String
  unfolding require_string_arg
  required_name node = elim (require_string_arg o node) as (λ _. Result String) [
    | ok v ↦ ok v
    | err _ ↦ refuse missing_field
  ]

  unfoldable pub parse_job_step : o.Node → Result Step
  unfolding required_name each apply_job_step_field
  parse_job_step node = required_name node >>= λ name.
      each apply_job_step_field (new_step name, false) (o.children node) >>= λ (s, _). ok s

  pub job_field : NodeType → Job × Bool → o.Node → Result (Job × Bool)
  unfolding require_string_arg parse_env_node set_once set_once_ptr parse_mount_node
      parse_cache_node parse_export_node parse_artifact_node parse_when_node parse_duration_arg
      parse_shell_node parse_secret_ref_node parse_retry_node parse_matrix parse_publish_node
      parse_job_step
  job_field nt_image (j, seen) node = require_string_arg o node >>= λ v.
      set_once j.image v >>= λ w. ok (record j { image = w }, seen)
  job_field nt_workdir (j, seen) node = require_string_arg o node >>= λ v.
      set_once j.workdir v >>= λ w. ok (record j { workdir = w }, seen)
  job_field nt_platform (j, seen) node = require_string_arg o node >>= λ v.
      set_once j.platform v >>= λ w. ok (record j { platform = w }, seen)
  job_field nt_depends_on (j, seen) node =
      require_string_arg o node >>= λ v. ok (record j { depends_on = j.depends_on ++ v ∷ [] }, seen)
  job_field nt_mount (j, seen) node =
      parse_mount_node o node >>= λ m. ok (record j { mounts = j.mounts ++ m ∷ [] }, seen)
  job_field nt_cache (j, seen) node =
      parse_cache_node o node >>= λ c. ok (record j { caches = j.caches ++ c ∷ [] }, seen)
  job_field nt_env (j, seen) node =
      parse_env_node o node >>= λ e. ok (record j { env = j.env ++ e ∷ [] }, seen)
  job_field nt_export (j, seen) node =
      parse_export_node o node >>= λ e. ok (record j { exports = j.exports ++ e ∷ [] }, seen)
  job_field nt_artifact (j, seen) node =
      parse_artifact_node o node >>= λ a. ok (record j { artifacts = j.artifacts ++ a ∷ [] }, seen)
  job_field nt_matrix (j, seen) node = parse_matrix o node >>= λ m.
      set_once_ptr j.matrix m >>= λ m'. ok (record j { matrix = m' }, seen)
  job_field nt_no_cache (j, seen) node =
      at_most o 0 node (set_flag j.no_cache >>= λ b. ok (record j { no_cache = b }, seen))
  job_field nt_publish (j, seen) node = parse_publish_node o node >>= λ p.
      set_once_ptr j.publish p >>= λ p'. ok (record j { publish = p' }, seen)
  job_field nt_when (j, seen) node = parse_when_node o node >>= λ w.
      set_once_ptr j.when w >>= λ w'. ok (record j { when = w' }, seen)
  job_field nt_timeout (j, seen) node =
      if seen
      then refuse duplicate_field
      else parse_duration_arg o negative_timeout node >>= λ d. ok (record j { timeout = d }, true)
  job_field nt_retry (j, seen) node = parse_retry_node o node >>= λ r.
      set_once_ptr j.retry r >>= λ r'. ok (record j { retry = r' }, seen)
  job_field nt_shell (j, seen) node =
      if is_set j.shell
      then refuse duplicate_field
      else parse_shell_node o node >>= λ sh. ok (record j { shell = some sh }, seen)
  job_field nt_secret (j, seen) node =
      parse_secret_ref_node o node >>= λ r. ok (record j { secrets = j.secrets ++ r ∷ [] }, seen)
  job_field nt_step (j, seen) node =
      parse_job_step node >>= λ s. ok (record j { steps = j.steps ++ s ∷ [] }, seen)
  job_field _ (j, seen) node = refuse unknown_node

  unfoldable pub apply_job_field : Job × Bool → o.Node → Result (Job × Bool)
  unfolding job_field node_type
  apply_job_field j node = job_field (node_type (o.name node)) j node

  unfoldable pub parse_job : o.Node → Result Job
  unfolding required_name each apply_job_field
  parse_job node = required_name node >>= λ name.
      each apply_job_field (new_job name, false) (o.children node) >>= λ (j, _). ok j

  -- The fields of a bare step that go to its inner step; all others go to the job.
  pub bare_field : NodeType → (Job × Bool) × Step → o.Node → Result ((Job × Bool) × Step)
  unfolding require_string_arg set_once_ptr parse_retry_node apply_job_field
  bare_field nt_run (j, s) node =
      require_string_arg o node >>= λ v. ok (j, record s { run = s.run ++ v ∷ [] })
  bare_field nt_allow_failure (j, s) node =
      at_most o 0 node (set_flag s.allow_failure >>= λ b. ok (j, record s { allow_failure = b }))
  bare_field nt_retry (j, s) node = parse_retry_node o node >>= λ r.
      set_once_ptr s.retry r >>= λ r'. ok (j, record s { retry = r' })
  bare_field nt_step (j, s) node = refuse unknown_node
  bare_field _ (j, s) node = apply_job_field j node >>= λ j'. ok (j', s)

  abbrev pub apply_bare_field : (Job × Bool) × Step → o.Node → Result ((Job × Bool) × Step)
  apply_bare_field s node = bare_field (node_type (o.name node)) s node

  unfoldable pub parse_bare_step : o.Node → Result Job
  unfolding required_name each bare_field node_type
  parse_bare_step node = required_name node >>= λ name.
      each apply_bare_field ((new_job name, false), new_step name) (o.children node)
      >>= λ ((j, _), s). ok (record j { steps = s ∷ [] })

  abbrev pub no_defaults : Defaults
  no_defaults = record { image = []; workdir = []; mounts = []; env = []; shell = [] }

  pub defaults_field : NodeType → Defaults → o.Node → Result Defaults
  unfolding require_string_arg set_once parse_mount_node parse_env_node parse_shell_node
  defaults_field nt_image d node =
      require_string_arg o node >>= λ v. set_once d.image v >>= λ w. ok (record d { image = w })
  defaults_field nt_workdir d node =
      require_string_arg o node >>= λ v. set_once d.workdir v >>= λ w. ok (record d { workdir = w })
  defaults_field nt_mount d node =
      parse_mount_node o node >>= λ m. ok (record d { mounts = d.mounts ++ m ∷ [] })
  defaults_field nt_env d node =
      parse_env_node o node >>= λ e. ok (record d { env = d.env ++ e ∷ [] })
  defaults_field nt_shell d node =
      if not (is_empty d.shell)
      then refuse duplicate_field
      else parse_shell_node o node >>= λ sh. ok (record d { shell = sh })
  defaults_field _ d node = refuse unknown_node

  unfoldable pub parse_defaults : o.Node → Result Defaults
  unfolding each defaults_field node_type
  parse_defaults node = at_most o 0 node (
      each (λ d child. defaults_field (node_type (o.name child)) d child) no_defaults
        (o.children node))
