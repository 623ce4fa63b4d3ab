-- ===== src/Runner/Dag/Tests.antt =====
-- The graph of two jobs, and jobs that the runner refuses.
use cicada.Base.{◌≡◌, ◌↔◌, refl, str, String, List, [], ◌∷◌, false, arith}
use cicada.Model.{ok, err, cycle_detected, duplicate_job, unknown_dep}
use cicada.Runner.Graph.{RunJob, dependencies, start, at_start}
use cicada.Runner.Graph.Progress.{CanMove}
use cicada.Runner.Dag.{build_dag}
use cicada.Runner.Dag.Accepts.{
  IsDag, build_dag_iff, build_dag-run_progress, Refusal, build_dag-Refusal,
}

abbrev job : String → List String → RunJob
job name deps = record { name = name; depends_on = deps; conditional = false }

abbrev two : List RunJob
two = job (str "test") (str "build" ∷ []) ∷ job (str "build") [] ∷ []

abbrev loop : List RunJob
loop = job (str "a") (str "b" ∷ []) ∷ job (str "b") (str "a" ∷ []) ∷ []

two_accepted : build_dag two ≡ ok (dependencies two)
unfolding build_dag
two_accepted = refl

loop_refused : build_dag loop ≡ err cycle_detected
unfolding build_dag
loop_refused = refl

twin_refused : build_dag (job (str "a") [] ∷ job (str "a") [] ∷ []) ≡ err duplicate_job
unfolding build_dag
twin_refused = refl

orphan_refused : build_dag (job (str "a") (str "z" ∷ []) ∷ []) ≡ err unknown_dep
unfolding build_dag
orphan_refused = refl

build_dag_iff_example :
    (build_dag two ≡ ok (dependencies two)) ↔ ((dependencies two ≡ dependencies two) × IsDag two)
build_dag_iff_example = build_dag_iff two (dependencies two)

build_dag-run_progress_example : CanMove two 1 (start two)
build_dag-run_progress_example =
    build_dag-run_progress two (dependencies two) 1 (start two) two_accepted at_start (omega arith)
      refl

build_dag-Refusal_example : Refusal loop cycle_detected
build_dag-Refusal_example = build_dag-Refusal loop cycle_detected loop_refused
