-- ===== src/Defaults/Env.antt =====
-- Job values win over pipeline values and defaults, and no key occurs twice.
use cicada.Base.{
  ◌≡◌, ◌≢◌, refl, ◌∙◌, String, List, [], ◌∷◌, ◌++◌, Option, none, some, Bool, true, false, not,
  ◌&&◌, if◌then◌else◌, is_empty, contains, distinct, keep, lookup, insert, string_eq, arith, ◌==◌,
  all-append, all-keep, disjoint_of, lookup-insert, distinct-append, List-cases, inl, inr,
}
use mathlib.Core.List.{map-append}
use cicada.Model.{Job, EnvVar, Defaults}
use cicada.Validate.Checks.{validate_env_vars}
use cicada.Validate.Unique.{validate_env_vars_iff}
use cicada.Defaults.{env_keys, merge_env, fill_env, build_env_scope, apply_job}

-- The value that the last entry of a key gives it.
abbrev pub last_value : List EnvVar → String → Option String
last_value [] k = none
last_value (e ∷ envs) k = elim (last_value envs k) [
  | some v ↦ some v
  | none ↦ if k == e.key then some e.value else none
]

abbrev pub or_else {ℓ} : {A : Type ℓ} → Option A → Option A → Option A
or_else (some a) o = some a
or_else none o = o

lookup-fill_env :
    (envs : List EnvVar) (m : List (String × String)) (k : String)
    → lookup (fill_env envs m) k ≡ or_else (last_value envs k) (lookup m k)
unfolding fill_env
lookup-fill_env [] m k = refl
lookup-fill_env (e ∷ envs) m k =
    ground (arith, lookup-fill_env envs (insert m e.key e.value) k, lookup-insert m e.key k e.value)

last_value-append :
    (xs ys : List EnvVar) (k : String)
    → last_value (xs ++ ys) k ≡ or_else (last_value ys k) (last_value xs k)
last_value-append [] ys k = ground arith
last_value-append (x ∷ xs) ys k = ground (arith, last_value-append xs ys k)

last_value-none :
    (envs : List EnvVar) (k : String) → contains (env_keys envs) k ≡ true → last_value envs k ≢ none
last_value-none [] k h = cc
last_value-none (e ∷ envs) k h = ground (arith, h, last_value-none envs k)

last_value-keep :
    (p : String → Bool) (envs : List EnvVar) (k : String)
    → last_value (keep (λ e. p e.key) envs) k ≡ (if p k then last_value envs k else none)
last_value-keep p [] k = ground arith
last_value-keep p (e ∷ envs) k = ground (arith, last_value-keep p envs k, string_eq.eqb_iff k e.key)

-- In the scope of a job a key has the job's last value for it, and otherwise the pipeline's.
pub lookup-build_env_scope :
    (pipeline_env job_env : List EnvVar) (k : String)
    → lookup (build_env_scope pipeline_env job_env) k
      ≡ or_else (last_value job_env k) (last_value pipeline_env k)
unfolding build_env_scope merge_env
lookup-build_env_scope pipeline_env job_env k =
    let base = keep (λ (e : EnvVar). not (contains (env_keys job_env) e.key)) pipeline_env in
    ground (
      arith,
      lookup-fill_env (base ++ job_env) [] k,
      last_value-append base job_env k,
      last_value-keep (λ n. not (contains (env_keys job_env) n)) pipeline_env k,
      last_value-none job_env k,
    )

contains-keep_keys :
    (p : String → Bool) (envs : List EnvVar) (k : String)
    → contains (env_keys (keep (λ e. p e.key) envs)) k ≡ (p k && contains (env_keys envs) k)
contains-keep_keys p [] k = ground arith
contains-keep_keys p (e ∷ envs) k =
    ground (arith, contains-keep_keys p envs k, string_eq.eqb_iff k e.key)

distinct-keep_keys :
    (p : String → Bool) (envs : List EnvVar)
    → distinct (env_keys envs) ≡ true
    → distinct (env_keys (keep (λ e. p e.key) envs)) ≡ true
distinct-keep_keys p [] h = h
distinct-keep_keys p (e ∷ envs) h =
    ground (arith, h, distinct-keep_keys p envs, contains-keep_keys p envs e.key)

merge_env_unique :
    (base override : List EnvVar)
    → distinct (env_keys base) ≡ true
    → distinct (env_keys override) ≡ true
    → distinct (env_keys (merge_env base override)) ≡ true
unfolding merge_env
merge_env_unique base override h k =
    let p = λ (n : String). not (contains (env_keys override) n) in
    let kept = keep (λ (e : EnvVar). p e.key) base in
    rw (map-append (λ (e : EnvVar). e.key) kept override) (
      ground (
        arith,
        k,
        distinct-append (env_keys kept) (env_keys override),
        distinct-keep_keys p base h,
        disjoint_of (env_keys kept) (env_keys override)
            (λ n m. contains-keep_keys p base n ∙ ground (arith, m)),
      ))

-- Environment variables that pass validation are still accepted after the merge.
merge_env-valid :
    (base override : List EnvVar)
    → validate_env_vars base ≡ none
    → validate_env_vars override ≡ none
    → validate_env_vars (merge_env base override) ≡ none
unfolding merge_env
merge_env-valid base override h k =
    let filled = λ (e : EnvVar). not (is_empty e.key) in
    let p = λ (e : EnvVar). not (contains (env_keys override) e.key) in
    let (unique, full) = (validate_env_vars_iff base).0 h in
    let (unique', full') = (validate_env_vars_iff override).0 k in
    (validate_env_vars_iff (merge_env base override)).1 (
      merge_env_unique base override unique unique',
      all-append filled (keep p base) override ∙ ground (arith, full', all-keep filled p base full),
    )

last_value-merge_env :
    (base override : List EnvVar) (k : String)
    → last_value (merge_env base override) k ≡ or_else (last_value override k) (last_value base k)
unfolding merge_env
last_value-merge_env base override k =
    let kept = keep (λ (e : EnvVar). not (contains (env_keys override) e.key)) base in
    ground (
      arith,
      last_value-append kept override k,
      last_value-keep (λ n. not (contains (env_keys override) n)) base k,
      last_value-none override k,
    )

-- Where the environment of the defaults and that of a job pass validation, so does that of the job with
-- the defaults applied, and each key keeps the job's value, or else has the default's.
pub apply_job_env :
    (d : Defaults) (j : Job)
    → validate_env_vars d.env ≡ none
    → validate_env_vars j.env ≡ none
    → (validate_env_vars (apply_job d j).env ≡ none)
      × ((k : String)
          → last_value (apply_job d j).env k ≡ or_else (last_value j.env k) (last_value d.env k))
unfolding apply_job
apply_job_env d j h h' = elim (List-cases d.env) [
  | inl empty ↦ rw empty (h', λ k. ground arith)
  | inr (e, rest, some_env) ↦
      let used : is_empty d.env ≡ false = rw some_env in
      rw used (merge_env-valid d.env j.env h h', λ k. last_value-merge_env d.env j.env k)
]
