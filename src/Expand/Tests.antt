-- ===== src/Expand/Tests.antt =====
-- Expansions of a small pipeline.
use cicada.Base.{
  ◌≡◌, refl, String, str, List, [], ◌∷◌, none, some, true, false, any, all, All, contains,
  string_eq,
}
use cicada.Model.{Job, Matrix, Pipeline, ok, empty_dimension, duplicate_dim}
use cicada.Model.Samples.{job}
use cicada.Expand.{expand, has_pipeline_matrix, has_matrix, check_dim_collisions}
use cicada.Expand.Naming.{expanded_name}
use cicada.Expand.Known.{deps_known}
use cicada.Expand.Closed.{expand_closed}
use cicada.Expand.Matrices.{Combo, validate_matrix}
use cicada.Expand.Matrices.Product.{Counted}
use cicada.Expand.Matrices.Choices.{Assigns, picks, combinations_exact}

abbrev pub systems : Matrix
systems = record {
  dimensions =
      record { name = str "os"; values = str "linux" ∷ str "mac" ∷ [] }
      ∷ record { name = str "arch"; values = str "arm" ∷ [] }
      ∷ [];
}

abbrev pub pipeline : List Job → Pipeline
pipeline jobs = record {
  name = str "ci";
  jobs = jobs;
  env = [];
  secrets = [];
  matrix = none;
  defaults = none;
  topo_order = none;
}

abbrev pub given : Pipeline
given = pipeline (
    record (job (str "build") []) { matrix = some systems }
    ∷ job (str "test") (str "build" ∷ [])
    ∷ [])

abbrev pub variant : String → String → Job
variant name os = record (job name []) {
  matrix_values = some ((str "os", os) ∷ (str "arch", str "arm") ∷ []);
}

abbrev pub wanted : Pipeline
wanted = pipeline (
    variant (str "build[arch=arm,os=linux]") (str "linux")
    ∷ variant (str "build[arch=arm,os=mac]") (str "mac")
    ∷ job (str "test") (str "build[arch=arm,os=linux]" ∷ str "build[arch=arm,os=mac]" ∷ [])
    ∷ [])

expand_test : expand given ≡ ok wanted
unfolding expand expanded_name
expand_test = refl

-- A second expansion merges its pairs into the bracket.
expanded_name_test :
    expanded_name (str "build[os=linux,]") ((str "arch", str "arm") ∷ [])
    ≡ str "build[arch=arm,os=linux]"
unfolding expanded_name
expanded_name_test = refl

empty_dimension_test :
    validate_matrix (some (record { dimensions = record { name = str "os"; values = [] } ∷ [] }))
    ≡ some empty_dimension
unfolding validate_matrix
empty_dimension_test = refl

collision_test :
    check_dim_collisions systems (record (job (str "build") []) { matrix = some systems } ∷ [])
    ≡ some duplicate_dim
collision_test = refl

expand_closed_example :
    (has_pipeline_matrix wanted ≡ false)
    × (any has_matrix wanted.jobs ≡ false)
    × (deps_known wanted.jobs ≡ true)
expand_closed_example = expand_closed given wanted refl expand_test

systems-valid : validate_matrix (some systems) ≡ none
unfolding validate_matrix
systems-valid = refl

combinations_exact_example :
    (combos : List Combo) × Counted systems combos
    × All (Assigns systems.dimensions) combos
    × ((pick : String → String)
        → all (λ d. contains d.values (pick d.name)) systems.dimensions ≡ true
        → any (λ c. all (picks pick c) systems.dimensions) combos ≡ true)
combinations_exact_example = combinations_exact systems systems-valid
