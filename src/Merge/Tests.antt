-- ===== src/Merge/Tests.antt =====
-- Merges and aliases on small pipelines.
use cicada.Base.{
  zero, suc, ◌<◌, length, position, some, nat_eq, sym, ap, arith, ◌≡◌, ◌≢◌, refl, String, str, List,
  [], ◌∷◌, ℕ, true, distinct, contains, string_eq,
}
use cicada.Model.{
  Job, JobGroup, conflict_error, conflict_skip, ok, err, duplicate_job, alias_collision,
}
use cicada.Model.Samples.{job}
use cicada.Graph.{job_deps}
use cicada.Validate.Index.{name_of}
use cicada.Validate.Order.{IsRunnable}
use cicada.Merge.{merge_jobs, job_names, terminal_jobs, expand_aliases, expand_deps}
use cicada.Merge.Groups.{firsts, all_jobs, merge_jobs-firsts}
use cicada.Merge.Aliases.{all_targets, expand_deps_targets}
use cicada.Merge.Terminals.{terminal_jobs-ne-nil}

abbrev pub groups : List JobGroup
groups =
    record {
      jobs = job (str "build") [] ∷ job (str "test") (str "build" ∷ []) ∷ [];
      origin = str "ci.kdl";
      on_conflict = conflict_error;
    }
    ∷ record {
      jobs = job (str "test") [] ∷ job (str "lint") [] ∷ [];
      origin = str "lint.kdl";
      on_conflict = conflict_skip;
    }
    ∷ []

abbrev pub merged : List Job
merged = job (str "build") [] ∷ job (str "test") (str "build" ∷ []) ∷ job (str "lint") [] ∷ []

merge_jobs_test : merge_jobs groups ≡ ok merged
unfolding merge_jobs
merge_jobs_test = refl

conflict_test :
    merge_jobs (
      record {
        jobs = job (str "build") [] ∷ job (str "build") [] ∷ [];
        origin = str "ci.kdl";
        on_conflict = conflict_error;
      }
      ∷ [])
    ≡ err duplicate_job
unfolding merge_jobs
conflict_test = refl

terminal_test : terminal_jobs merged ≡ str "test" ∷ str "lint" ∷ []
unfolding terminal_jobs
terminal_test = refl

collision_test : expand_aliases merged ((str "build", str "lint" ∷ []) ∷ []) ≡ err alias_collision
unfolding expand_aliases
collision_test = refl

merge_jobs-firsts_example :
    (distinct (job_names merged) ≡ true) × (merged ≡ firsts [] (all_jobs groups))
merge_jobs-firsts_example = merge_jobs-firsts groups merged merge_jobs_test

expand_deps_targets_example :
    (distinct
        (expand_deps (str "inc" ∷ str "lint" ∷ []) ((str "inc", str "lint" ∷ str "test" ∷ []) ∷ []))
      ≡ true)
    × ((n : String)
        → contains
            (expand_deps
              (str "inc" ∷ str "lint" ∷ [])
              ((str "inc", str "lint" ∷ str "test" ∷ []) ∷ []))
            n
          ≡ contains
              (all_targets
                ((str "inc", str "lint" ∷ str "test" ∷ []) ∷ [])
                (str "inc" ∷ str "lint" ∷ []))
              n)
expand_deps_targets_example =
    expand_deps_targets ((str "inc", str "lint" ∷ str "test" ∷ []) ∷ [])
      (str "inc" ∷ str "lint" ∷ [])

abbrev pub line : List Job
line = job (str "build") [] ∷ job (str "test") (str "build" ∷ []) ∷ []

line_before :
    (i : ℕ) (dep : String)
    → i < length line
    → contains (job_deps line i) dep ≡ true
    → (k : ℕ) × (name_of line k ≡ some dep) × (position (0 ∷ 1 ∷ []) k < position (0 ∷ 1 ∷ []) i)
line_before zero dep lt h = cc
line_before (suc zero) dep lt h =
    let same : dep ≡ str "build" = ground (arith, h, string_eq.eqb_iff dep (str "build")) in
    (0, ap some (sym same), omega arith)
line_before (suc (suc i)) dep lt h = absurd (omega arith)

line-IsRunnable : IsRunnable line (0 ∷ 1 ∷ [])
line-IsRunnable = record {
  unique_names = refl;
  unique_order = refl;
  complete = λ i. ground (arith, nat_eq.eqb_iff i 0, nat_eq.eqb_iff i 1);
  before = line_before;
}

terminal_jobs-ne-nil_example : terminal_jobs line ≢ []
terminal_jobs-ne-nil_example = terminal_jobs-ne-nil line (0 ∷ 1 ∷ []) line-IsRunnable (λ e. cc)
