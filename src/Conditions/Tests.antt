-- ===== src/Conditions/Tests.antt =====
-- Conditions on a small pipeline, with the expression "no" false and every other one true.
use cicada.Base.{
  ◌≡◌, refl, String, str, List, [], ◌∷◌, Option, none, some, Bool, true, false, ◌||◌, not, all,
  contains, string_eq, ◌==◌,
}
use cicada.Model.{Job, When, Pipeline, ConditionResult, ok, err, job_condition}
use cicada.Model.Samples.{job}
use cicada.Merge.{job_names}
use cicada.Params.{Vars}
use cicada.Conditions.{evaluate_conditions}
use cicada.Conditions.Cleaned.{linked, has_steps}
use cicada.Conditions.Closed.{evaluate_conditions_closed}

abbrev pub eval_cel : String → Option String → Vars → Option Vars → Option Bool
eval_cel expression parsed scope matrix = some (not (expression == str "no"))

abbrev pub when_text : String → Option When
when_text t = some (record { expression = t; deferred = false; parsed = none })

abbrev pub pipeline : List Job → Pipeline
pipeline jobs = record {
  name = str "ci";
  jobs = jobs;
  env = [];
  secrets = [];
  matrix = none;
  defaults = none;
  topo_order = none;
}

abbrev pub from_build : Job
from_build = record (job (str "test") (str "build" ∷ [])) {
  artifacts = record { from = str "build"; source = str "/out"; target = str "/in" } ∷ [];
}

abbrev pub given : Pipeline
given = pipeline (record (job (str "build") []) { when = when_text (str "no") } ∷ from_build ∷ [])

-- "test" loses its dependency on "build" and the artifact that came from it.
abbrev pub wanted : ConditionResult
wanted = record {
  pipeline = pipeline (job (str "test") [] ∷ []);
  skipped = str "build" ∷ [];
  skipped_steps = [];
}

skip_test : evaluate_conditions eval_cel given ≡ ok wanted
unfolding evaluate_conditions
skip_test = refl

error_test :
    evaluate_conditions
      (λ e t s m. none)
      (pipeline (record (job (str "build") []) { when = when_text (str "?") } ∷ []))
    ≡ err job_condition
unfolding evaluate_conditions
error_test = refl

evaluate_conditions_closed_example :
    (linked wanted.pipeline.jobs ≡ true)
    × (all has_steps wanted.pipeline.jobs ≡ true)
    × ((n : String)
        → contains (job_names given.jobs) n
          ≡ (contains (job_names wanted.pipeline.jobs) n || contains wanted.skipped n))
evaluate_conditions_closed_example = evaluate_conditions_closed eval_cel given wanted refl skip_test
