-- ===== src/Cache/Tests.antt =====
-- A vertex that is streamed twice, one that has not ended, and one without a digest.
use cicada.Base.{
  ℕ, ◌-◌, ◌≡◌, refl, str, String, List, [], ◌∷◌, Option, none, some, Bool, true, false,
}
use cicada.Cache.{Duration, Vertex, new_collector, report}
use cicada.Cache.Observed.{observed, observe_all}
use cicada.Cache.Tally.{IsTally, report-IsTally}

abbrev since : ℕ → ℕ → Duration
since end start = end - start

abbrev vertex : String → Option ℕ → Bool → Vertex ℕ since
vertex digest completed cached = record {
  digest = digest;
  name = str "run";
  started = some 3;
  completed = completed;
  cached = cached;
}

abbrev events : List (String × Option (List (Vertex ℕ since)))
events =
    (str "build", some (vertex (str "a") none false ∷ vertex (str "b") (some 7) true ∷ []))
    ∷ (str "test", none)
    ∷ (
      str "build",
      some (
          vertex (str "a") (some 5) false
          ∷ vertex (str "b") (some 7) true
          ∷ vertex [] (some 9) true
          ∷ []),
    )
    ∷ []

report_test :
    report (observe_all ℕ since events new_collector)
    ≡ record { job_name = str "build"; total_ops = 2; cached_ops = 1; duration = 6 } ∷ []
unfolding report observe_all
report_test = refl

report-IsTally_example :
    IsTally (observed ℕ since events) (report (observe_all ℕ since events new_collector))
report-IsTally_example = report-IsTally ℕ since events
