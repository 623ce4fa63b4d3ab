-- ===== src/Filter/Tests.antt =====
-- Filters on a small pipeline.
use cicada.Base.{str, List, [], ◌∷◌, ◌≡◌, refl}
use cicada.Model.{Job, ok, err, unknown_start_at}
use cicada.Model.Samples.{job}
use cicada.Base.{String, contains, true, keep, Bool, All, ◌↔◌, ◌⊎◌, string_eq}
use cicada.Validate.Index.{names}
use cicada.Filter.{filter_jobs, strip_job, job_by_name}
use cicada.Filter.Closed.{filter_jobs_closed, filter_jobs_exact}
use cicada.Filter.Edges.{IsInside, Chain, is_dependency}
use cicada.Filter.Trim.Quiet.{quiet}
use cicada.Filter.Reach.Breadth.{Reach, bfs_reachable_exact}
use cicada.Filter.Reach.{Adjacency, bfs_reachable}
use cicada.Filter.Target.{parse_filter_target, parse_filter_target-join}

abbrev pub jobs : List Job
jobs =
    job (str "build") []
    ∷ job (str "test") (str "build" ∷ [])
    ∷ job (str "docs") []
    ∷ job (str "deploy") (str "test" ∷ [])
    ∷ []

start_at_test :
    filter_jobs jobs (record { start_at = str "test"; stop_after = [] })
    ≡ ok (
        strip_job (job (str "build") [])
        ∷ job (str "test") (str "build" ∷ [])
        ∷ job (str "deploy") (str "test" ∷ [])
        ∷ [])
unfolding filter_jobs
start_at_test = refl

stop_after_test :
    filter_jobs jobs (record { start_at = []; stop_after = str "test:run" })
    ≡ ok (job (str "build") [] ∷ job (str "test") (str "build" ∷ []) ∷ [])
unfolding filter_jobs
stop_after_test = refl

unknown :
    filter_jobs jobs (record { start_at = str "lint"; stop_after = [] }) ≡ err unknown_start_at
unfolding filter_jobs
unknown = refl

parse_filter_target-join_example :
    (parse_filter_target (str "build[p=a:b]") ≡ record { job = str "build[p=a:b]"; step = [] })
    × (parse_filter_target (str "build[p=a:b]:compile")
        ≡ record { job = str "build[p=a:b]"; step = str "compile" })
parse_filter_target-join_example =
    parse_filter_target-join (str "build[p=a:b]") (str "compile") refl refl

-- The filter of `start_at_test` kept "test", and so its dependency "build".
filter_jobs_closed_example :
    contains
      (names (
        strip_job (job (str "build") [])
        ∷ job (str "test") (str "build" ∷ [])
        ∷ job (str "deploy") (str "test" ∷ [])
        ∷ []))
      (str "build")
    ≡ true
unfolding job_by_name
filter_jobs_closed_example =
    filter_jobs_closed jobs (record { start_at = str "test"; stop_after = [] })
      (strip_job (job (str "build") [])
        ∷ job (str "test") (str "build" ∷ [])
        ∷ job (str "deploy") (str "test" ∷ [])
        ∷ [])
      refl start_at_test (str "test") (str "build") (job (str "test") (str "build" ∷ [])) refl refl
      refl refl

filter_jobs_exact_example :
    let out = job (str "build") [] ∷ job (str "test") (str "build" ∷ []) ∷ [] in
    let stop_after = parse_filter_target (str "test:run") in
    ((p : String → Bool) × (names out ≡ keep p (names jobs)))
    × ((x : String)
        → (contains (names out) x ≡ true) ↔ (
            (contains (names jobs) x ≡ true)
            × ((w : String) × IsInside jobs (parse_filter_target []) stop_after w
                × Chain (is_dependency jobs) w x)))
    × All (λ j. IsInside jobs (parse_filter_target []) stop_after j.name ⊎ (quiet j ≡ true)) out
filter_jobs_exact_example =
    filter_jobs_exact jobs (record { start_at = []; stop_after = str "test:run" })
      (job (str "build") [] ∷ job (str "test") (str "build" ∷ []) ∷ []) refl stop_after_test

abbrev ring : Adjacency
ring = (str "a", str "b" ∷ []) ∷ (str "b", str "a" ∷ []) ∷ []

bfs_reachable_exact_example :
    (visited : List String) × (bfs_reachable (str "a") ring ≡ ok visited)
    × ((v : String) → (contains visited v ≡ true) ↔ Reach ring (str "a") v)
bfs_reachable_exact_example = bfs_reachable_exact ring (str "a")
