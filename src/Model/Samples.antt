-- ===== src/Model/Samples.antt =====
-- Values to build tests and instances from.
use cicada.Base.{String, str, false, pos, List, [], ◌∷◌, none}
use cicada.Model.Types.{Job, Step, EnvVar}

abbrev pub step : String → Step
step name = record {
  name = name;
  run = str "make" ∷ [];
  env = [];
  workdir = [];
  mounts = [];
  caches = [];
  secrets = [];
  exports = [];
  artifacts = [];
  when = none;
  no_cache = false;
  timeout = pos 0;
  shell = none;
  retry = none;
  allow_failure = false;
}

abbrev pub job : String → List String → Job
job name deps = record {
  name = name;
  image = str "alpine";
  workdir = [];
  platform = [];
  depends_on = deps;
  mounts = [];
  caches = [];
  env = [];
  exports = [];
  artifacts = [];
  secrets = [];
  steps = step (str "run") ∷ [];
  when = none;
  matrix = none;
  matrix_values = none;
  no_cache = false;
  publish = none;
  timeout = pos 0;
  retry = none;
  shell = none;
}

abbrev pub env_var : String → String → EnvVar
env_var key value = record { key = key; value = value }
