-- ===== src/Validate/Checks.antt =====
-- pkg/pipeline/validate.go: the checks of single fields, each a Go function that returns an error.
-- A loop carries the set `seen` that the code fills.
use cicada.Base.{
  String, List, [], ◌∷◌, Bool, Option, none, some, ℤ, is_negative, is_positive, not, if◌then◌else◌,
  is_empty, has_prefix, is_blank, all_slashes, contains, string_eq, str,
}
use cicada.Model

abbrev pub fail_if : Bool → Model.Error → Option Model.Error → Option Model.Error
fail_if b e next = if b then some e else next

unfoldable pub check_env_vars : List String → List Model.EnvVar → Option Model.Error
check_env_vars seen [] = none
check_env_vars seen (e ∷ envs) =
    let rest = check_env_vars (e.key ∷ seen) envs in
    fail_if (is_empty e.key) Model.empty_env_key
      (fail_if (contains seen e.key) Model.duplicate_env_key rest)

abbrev pub validate_env_vars : List Model.EnvVar → Option Model.Error
validate_env_vars = check_env_vars []

unfoldable pub check_exports : List String → List Model.Export → Option Model.Error
check_exports seen [] = none
check_exports seen (e ∷ exports) =
    let rest = check_exports (e.path ∷ seen) exports in
    fail_if (is_empty e.path) Model.empty_export_path (
      fail_if (not (has_prefix e.path (str "/"))) Model.relative_export (
        fail_if (all_slashes e.path) Model.root_export (
          fail_if (is_empty e.local) Model.empty_export_local
            (fail_if (contains seen e.path) Model.duplicate_export rest))))

abbrev pub validate_exports : List Model.Export → Option Model.Error
validate_exports = check_exports []

unfoldable pub check_artifacts :
    List String → List String → List Model.Artifact → Option Model.Error
check_artifacts deps seen [] = none
check_artifacts deps seen (a ∷ artifacts) =
    let rest = check_artifacts deps (a.target ∷ seen) artifacts in
    fail_if (is_empty a.from) Model.empty_artifact_from (
      fail_if (is_empty a.source) Model.empty_artifact_source (
        fail_if (not (has_prefix a.source (str "/"))) Model.relative_artifact_source (
          fail_if (is_empty a.target) Model.empty_artifact_target (
            fail_if (not (contains deps a.from)) Model.artifact_no_dep (
              fail_if (not (has_prefix a.target (str "/"))) Model.relative_artifact (
                fail_if (all_slashes a.target) Model.root_artifact
                  (fail_if (contains seen a.target) Model.duplicate_artifact rest)))))))

abbrev pub validate_artifacts : List Model.Artifact → List String → Option Model.Error
validate_artifacts artifacts deps = check_artifacts deps [] artifacts

unfoldable pub validate_publish : Option Model.Publish → Option Model.Error
validate_publish none = none
validate_publish (some p) = fail_if (is_blank p.image) Model.empty_publish_image none

unfoldable pub valid_backoff : Model.BackoffStrategy → Bool
valid_backoff (Model.other_backoff _) = Bool.false
valid_backoff _ = Bool.true

unfoldable pub validate_retry : Option Model.Retry → Option Model.Error
unfolding valid_backoff
validate_retry none = none
validate_retry (some r) = fail_if (not (is_positive r.attempts)) Model.invalid_retry_attempts (
    fail_if (is_negative r.delay) Model.negative_delay
      (fail_if (not (valid_backoff r.backoff)) Model.invalid_backoff none))

unfoldable pub validate_timeout : ℤ → Option Model.Error
validate_timeout d = fail_if (is_negative d) Model.negative_timeout none

unfoldable pub validate_shell : Option (List String) → Option Model.Error
validate_shell none = none
validate_shell (some s) = fail_if (is_empty s) Model.empty_shell none

unfoldable pub check_self_deps : List Model.Job → Option Model.Error
check_self_deps [] = none
check_self_deps (j ∷ jobs) =
    let rest = check_self_deps jobs in
    fail_if (contains j.depends_on j.name) Model.self_dependency rest
