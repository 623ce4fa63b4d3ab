-- ===== src/Runner/Tests.antt =====
-- Retries, and runs of two jobs.
use cicada.Base.{
  ◌≡◌, refl, ℕ, ◌*◌, ◌≤◌, pos, str, List, [], ◌∷◌, true, false, arith, All, lookup, string_eq,
  String, Option, zero, suc, some, none, ◌+◌, ◌<◌, if◌then◌else◌, contains, ◌==◌, Bool-cases, inl,
  inr, ap, sym, ◌∙◌,
}
use cicada.Model.{Retry, backoff_exponential}
use cicada.Runner.Delay.{max_delay, retry_delay}
use cicada.Runner.Delay.Capped.{at_most_max, factor, retry_delay-capped}
use cicada.Runner.Graph.{
  RunJob, waiting, acquiring, running, succeeded, failed, State, is_succeeded, start,
  condition_holds, acquire, solve_ok, dep_succeeded, Step, Reachable, dependencies, at_start,
  then_step, filter_successful,
}
use cicada.Runner.Graph.Ordered.{IsOrdered, run-IsOrdered}
use cicada.Runner.Attempts.{retry_job}
use cicada.Runner.Attempts.Last.{Retried, retry_job-Retried}
use cicada.Runner.Graph.Nodes.{run_names}
use cicada.Runner.Graph.Progress.{CanMove, run_progress}
use cicada.Runner.Graph.Ends.{steps, all_moves_left, run_bounded}
use cicada.Runner.Graph.Exports.{Exported, filter_successful_sound}

abbrev pub exponential : ℕ → Retry
exponential delay = record { attempts = pos 100; delay = pos delay; backoff = backoff_exponential }

doubled_test : retry_delay (exponential 5) 3 ≡ pos 40
unfolding retry_delay
doubled_test = refl

capped_test : retry_delay (exponential 1000000000) 40 ≡ pos max_delay
unfolding retry_delay
capped_test = refl

-- Without a delay the 65th attempt waits for the greatest duration.
no_delay_test :
    (retry_delay (exponential 0) 62 ≡ pos 0) × (retry_delay (exponential 0) 63 ≡ pos max_delay)
unfolding retry_delay
no_delay_test = (refl, refl)

retry_delay-capped_example :
    retry_delay (exponential 5) 3 ≡ pos (at_most_max (5 * factor backoff_exponential 3))
retry_delay-capped_example = retry_delay-capped (exponential 5) 5 3 refl (omega arith) (omega arith)

abbrev pub jobs : List RunJob
jobs =
    record { name = str "build"; depends_on = []; conditional = false }
    ∷ record { name = str "test"; depends_on = str "build" ∷ []; conditional = false }
    ∷ []

abbrev pub built : State
built = (str "build", succeeded) ∷ (str "test", waiting []) ∷ []

build_waits :
    Step jobs 1
      (start jobs)
      ((str "build", acquiring) ∷ (str "test", waiting (str "build" ∷ [])) ∷ [])
build_waits = record {
  node = str "build";
  cancelled = false;
  conditional = false;
  before = waiting [];
  after = acquiring;
  at = refl;
  condition = refl;
  move = condition_holds;
  moved = refl;
}

build_starts :
    Step jobs 1
      ((str "build", acquiring) ∷ (str "test", waiting (str "build" ∷ [])) ∷ [])
      ((str "build", running) ∷ (str "test", waiting (str "build" ∷ [])) ∷ [])
build_starts = record {
  node = str "build";
  cancelled = false;
  conditional = false;
  before = acquiring;
  after = running;
  at = refl;
  condition = refl;
  move = acquire (omega arith);
  moved = refl;
}

build_ends :
    Step jobs 1
      ((str "build", running) ∷ (str "test", waiting (str "build" ∷ [])) ∷ [])
      ((str "build", succeeded) ∷ (str "test", waiting (str "build" ∷ [])) ∷ [])
build_ends = record {
  node = str "build";
  cancelled = false;
  conditional = false;
  before = running;
  after = succeeded;
  at = refl;
  condition = refl;
  move = solve_ok;
  moved = refl;
}

test_wakes :
    Step jobs 1 ((str "build", succeeded) ∷ (str "test", waiting (str "build" ∷ [])) ∷ []) built
test_wakes = record {
  node = str "test";
  cancelled = false;
  conditional = false;
  before = waiting (str "build" ∷ []);
  after = waiting [];
  at = refl;
  condition = refl;
  move = dep_succeeded (str "build") [] refl;
  moved = refl;
}

run_to_built : Reachable jobs 1 built
run_to_built =
    then_step (then_step (then_step (then_step at_start build_waits) build_starts) build_ends)
      test_wakes

-- Two independent jobs at a limit of one: the second waits at the semaphore while the first solves.
abbrev pair : List RunJob
pair =
    record { name = str "lint"; depends_on = []; conditional = false }
    ∷ record { name = str "docs"; depends_on = []; conditional = false }
    ∷ []

abbrev contended : State
contended = (str "lint", running) ∷ (str "docs", acquiring) ∷ []

lint_waits : Step pair 1 (start pair) ((str "lint", acquiring) ∷ (str "docs", waiting []) ∷ [])
lint_waits = record {
  node = str "lint";
  cancelled = false;
  conditional = false;
  before = waiting [];
  after = acquiring;
  at = refl;
  condition = refl;
  move = condition_holds;
  moved = refl;
}

docs_waits :
    Step pair 1
      ((str "lint", acquiring) ∷ (str "docs", waiting []) ∷ [])
      ((str "lint", acquiring) ∷ (str "docs", acquiring) ∷ [])
docs_waits = record {
  node = str "docs";
  cancelled = false;
  conditional = false;
  before = waiting [];
  after = acquiring;
  at = refl;
  condition = refl;
  move = condition_holds;
  moved = refl;
}

lint_starts : Step pair 1 ((str "lint", acquiring) ∷ (str "docs", acquiring) ∷ []) contended
lint_starts = record {
  node = str "lint";
  cancelled = false;
  conditional = false;
  before = acquiring;
  after = running;
  at = refl;
  condition = refl;
  move = acquire (omega arith);
  moved = refl;
}

run-IsOrdered_example : IsOrdered pair 1 contended
run-IsOrdered_example =
    run-IsOrdered pair 1 contended
      (then_step (then_step (then_step at_start lint_waits) docs_waits) lint_starts)

build_succeeded : is_succeeded (lookup built (str "build")) ≡ true
build_succeeded =
    (run-IsOrdered jobs 1 built run_to_built).deps_succeeded (str "test") (str "build")
      (str "build" ∷ []) (waiting []) refl refl refl refl

abbrev pub over : State
over = (str "build", failed) ∷ (str "test", succeeded) ∷ []

filter_test :
    filter_successful (str "build" ∷ str "test" ∷ str "other" ∷ []) over (λ n. n)
    ≡ str "test" ∷ str "other" ∷ []
unfolding filter_successful
filter_test = refl

filter_successful_sound_example :
    All
      (λ i. Exported over i)
      (filter_successful (str "build" ∷ str "test" ∷ str "other" ∷ []) over (λ n. n))
filter_successful_sound_example =
    filter_successful_sound (str "build" ∷ str "test" ∷ str "other" ∷ []) over (λ n. n) refl

abbrev pub rank : String → ℕ
rank n = if n == str "build" then 0 else 1

jobs-ranked :
    (n : String) (deps : List String) (d : String)
    → lookup (dependencies jobs) n ≡ some deps
    → contains deps d ≡ true
    → (rank d < rank n) × (contains (run_names jobs) d ≡ true)
jobs-ranked n deps d h m = elim (Bool-cases (n == str "build")) [
  | inl first ↦
      let both : some [] ≡ some deps = sym (rw first refl) ∙ h in
      let nothing : [] ≡ deps = cc in absurd (ground (arith, ap (λ ds. contains ds d) nothing, m))
  | inr second ↦ elim (Bool-cases (n == str "test")) [
    | inl last ↦
        let both : some (str "build" ∷ []) ≡ some deps = sym (rw (second, last) refl) ∙ h in
        let only : str "build" ∷ [] ≡ deps = cc in
        let named : d == str "build" ≡ true = ground (arith, ap (λ ds. contains ds d) only, m) in
        (rw (named, second) (omega arith), rw named refl)
    | inr other ↦
        let none_found : none ≡ some deps = sym (rw (second, other) refl) ∙ h in
        absurd (cc none_found)
  ]
]

run_progress_example : CanMove jobs 1 built
run_progress_example =
    run_progress jobs 1 rank built run_to_built (omega arith) jobs-ranked refl refl

run_bounded_example : steps run_to_built + all_moves_left built ≤ 7
run_bounded_example = run_bounded jobs 1 built run_to_built

-- Two failures, then a success.
abbrev pub third_time : ℕ → Option ℕ
third_time zero = some 1
third_time (suc zero) = some 1
third_time (suc (suc i)) = none

third_time_test : retry_job third_time (λ i. none) (λ i. none) (some (exponential 5)) ≡ (none, 2)
unfolding retry_job retry_delay
third_time_test = refl

-- The greatest number of retries makes no attempt, and so no error.
overflow_test :
    retry_job {E = ℕ}
      (λ i. some 1)
      (λ i. none)
      (λ i. none)
      (some (record { attempts = pos max_delay; delay = pos 0; backoff = backoff_exponential }))
    ≡ (none, 0)
unfolding retry_job
overflow_test = refl

retry_job-Retried_example :
    Retried third_time
      (λ i. none)
      (λ i. none)
      0
      101
      (retry_job third_time (λ i. none) (λ i. none) (some (exponential 5)))
retry_job-Retried_example =
    retry_job-Retried third_time (λ i. none) (λ i. none) (exponential 5) 100 refl (omega arith)
