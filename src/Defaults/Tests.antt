-- ===== src/Defaults/Tests.antt =====
-- Defaults on a small job.
use cicada.Base.{
  ◌≡◌, refl, String, str, [], ◌∷◌, none, true, distinct, contains, not, is_empty, ◌&&◌, map,
  string_eq,
}
use cicada.Model.{Job, Defaults, Pipeline}
use cicada.Model.Samples.{job, env_var}
use cicada.Validate.Checks.{check_env_vars, validate_env_vars}
use cicada.Defaults.{apply_job, collect_images}
use cicada.Defaults.Env.{last_value, or_else, apply_job_env}
use cicada.Defaults.Images.{collect_images_exact}

abbrev pub defaults : Defaults
defaults = record {
  image = str "golang";
  workdir = str "/src";
  mounts = [];
  env = env_var (str "CI") (str "1") ∷ env_var (str "GOOS") (str "linux") ∷ [];
  shell = [];
}

abbrev pub own : Job
own = record (job (str "build") []) { env = env_var (str "GOOS") (str "js") ∷ [] }

apply_job_test : apply_job defaults own ≡ record own {
  workdir = str "/src";
  env = env_var (str "CI") (str "1") ∷ env_var (str "GOOS") (str "js") ∷ [];
}
unfolding apply_job
apply_job_test = refl

defaults-valid : validate_env_vars defaults.env ≡ none
unfolding check_env_vars
defaults-valid = refl

own-valid : validate_env_vars own.env ≡ none
unfolding check_env_vars
own-valid = refl

apply_job_env_example :
    (validate_env_vars (apply_job defaults own).env ≡ none)
    × ((k : String)
        → last_value (apply_job defaults own).env k
          ≡ or_else (last_value own.env k) (last_value defaults.env k))
apply_job_env_example = apply_job_env defaults own defaults-valid own-valid

abbrev pub pipeline : Pipeline
pipeline = record {
  name = str "ci";
  jobs = own ∷ job (str "test") [] ∷ [];
  env = [];
  secrets = [];
  matrix = none;
  defaults = none;
  topo_order = none;
}

collect_images_exact_example :
    (distinct (collect_images pipeline) ≡ true)
    × ((n : String)
        → contains (collect_images pipeline) n
          ≡ (not (is_empty n) && contains (map (λ j. j.image) pipeline.jobs) n))
collect_images_exact_example = collect_images_exact pipeline
