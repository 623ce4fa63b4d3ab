-- ===== src/Validate/Unique.antt =====
-- What the loops over env vars, exports, artifacts and secrets establish: uniqueness, and that what
-- they refer to is there.
use cicada.Base.{
  ◌≡◌, ◌↔◌, Bool, true, not, ◌&&◌, String, List, [], ◌∷◌, none, is_empty, has_prefix, all_slashes,
  all, contains, distinct, disjoint, disjoint-cons, disjoint-nil, string_eq, arith, map, str,
}
use cicada.Model.{EnvVar, Artifact}
use cicada.Validate.Checks.{check_env_vars, validate_env_vars, check_artifacts, validate_artifacts}

abbrev pub keys : List EnvVar → List String
keys = map (λ e. e.key)

check_env_vars_iff :
    (seen : List String) (envs : List EnvVar)
    → (check_env_vars seen envs ≡ none) ↔ (
        (disjoint seen (keys envs) && distinct (keys envs) && all (λ e. not (is_empty e.key)) envs)
        ≡ true)
unfolding check_env_vars
check_env_vars_iff seen [] = ground arith
check_env_vars_iff seen (e ∷ envs) =
    ground (arith, check_env_vars_iff (e.key ∷ seen) envs, disjoint-cons e.key seen (keys envs))

-- Env vars are accepted exactly when no key is empty and no key occurs twice.
pub validate_env_vars_iff :
    (envs : List EnvVar)
    → (validate_env_vars envs ≡ none)
      ↔ ((distinct (keys envs) ≡ true) × (all (λ e. not (is_empty e.key)) envs ≡ true))
validate_env_vars_iff envs = ground (arith, check_env_vars_iff [] envs, disjoint-nil (keys envs))

abbrev pub targets : List Artifact → List String
targets = map (λ a. a.target)

-- An artifact comes from a dependency and lands at an absolute path below the root.
abbrev pub placed : List String → Artifact → Bool
placed deps a = contains deps a.from && has_prefix a.target (str "/") && not (all_slashes a.target)

check_artifacts_sound :
    (deps seen : List String) (artifacts : List Artifact)
    → check_artifacts deps seen artifacts ≡ none
    → (disjoint seen (targets artifacts) ≡ true)
      × (distinct (targets artifacts) ≡ true)
      × (all (placed deps) artifacts ≡ true)
unfolding check_artifacts
check_artifacts_sound deps seen [] h = ground arith
check_artifacts_sound deps seen (a ∷ artifacts) h = ground (
  arith,
  check_artifacts_sound deps (a.target ∷ seen) artifacts,
  disjoint-cons a.target seen (targets artifacts),
)

-- Accepted artifacts come from declared dependencies, go to absolute paths other than the root, and
-- no two go to one path.
pub validate_artifacts_sound :
    (artifacts : List Artifact) (deps : List String)
    → validate_artifacts artifacts deps ≡ none
    → (distinct (targets artifacts) ≡ true) × (all (placed deps) artifacts ≡ true)
validate_artifacts_sound artifacts deps h =
    let (_, unique, good) = check_artifacts_sound deps [] artifacts h in (unique, good)
