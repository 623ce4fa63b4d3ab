-- ===== src/Validate/Secrets.antt =====
-- pkg/pipeline/secret.go: secret declarations and references.
use cicada.Base.{
  String, List, [], ◌∷◌, Bool, true, false, Option, none, some, not, ◌&&◌, if◌then◌else◌, is_empty,
  has_prefix, is_blank, contains, string_eq, str, map,
}
use cicada.Model
use cicada.Model.{Error, Result, ok, err, ◌>>=◌, guard, ◌then_check◌, SecretDecl, SecretRef}
use cicada.Validate.Names.{posix_identifier}
use cicada.Validate.Checks.{fail_if}

-- `cmp.Or(d.Var, d.Name)`
abbrev pub env_name : SecretDecl → String
env_name d = if is_empty d.var then d.name else d.var

abbrev is_host_env : Model.SecretSource → Bool
is_host_env Model.host_env = true
is_host_env _ = false

abbrev is_file : Model.SecretSource → Bool
is_file Model.file = true
is_file _ = false

abbrev is_cmd : Model.SecretSource → Bool
is_cmd Model.cmd_source = true
is_cmd _ = false

-- The switch on the source.
unfoldable pub check_source : SecretDecl → Model.SecretSource → Option Error
check_source d Model.host_env =
    fail_if (not (posix_identifier (env_name d))) Model.invalid_secret_host_env_name none
check_source d Model.file = fail_if (is_blank d.path) Model.missing_secret_path none
check_source d Model.cmd_source = fail_if (is_blank d.cmd) Model.missing_secret_cmd none
check_source d (Model.other_source _) = some Model.invalid_secret_source

unfoldable pub validate_stray_fields : SecretDecl → Option Error
validate_stray_fields d =
    fail_if (not (is_empty d.var) && not (is_host_env d.source)) Model.secret_var_with_non_host_env
      (fail_if (not (is_empty d.path) && not (is_file d.source)) Model.secret_path_with_non_file (
        fail_if (not (is_empty d.cmd) && not (is_cmd d.source)) Model.secret_cmd_with_non_cmd none))

unfoldable pub check_secret_decls : List String → List SecretDecl → Option Error
unfolding check_source validate_stray_fields
check_secret_decls seen [] = none
check_secret_decls seen (d ∷ decls) =
    let rest = check_secret_decls (d.name ∷ seen) decls in
    fail_if (is_empty d.name) Model.empty_secret_name (
      fail_if (contains seen d.name) Model.duplicate_secret
        (check_source d d.source then_check validate_stray_fields d then_check rest))

abbrev pub validate_secret_decls : List SecretDecl → Option Error
validate_secret_decls = check_secret_decls []

-- The sets of env names and mount paths in use, which `validateRefTarget` fills.
pub record Used : Type 0 where
  pub envs : List String
  pub mounts : List String

-- The switch of `validateRefTarget`.
unfoldable pub check_target : SecretRef → Option Error
check_target r = fail_if (is_empty r.env && is_empty r.mount) Model.secret_ref_no_target (
    fail_if (not (is_empty r.env) && not (is_empty r.mount)) Model.secret_ref_both_target (
      fail_if (not (is_empty r.env) && not (posix_identifier r.env)) Model.invalid_secret_env_name (
        fail_if (not (is_empty r.mount) && not (has_prefix r.mount (str "/")))
          Model.relative_secret_mount none)))

unfoldable pub validate_ref_target : SecretRef → Used → Result Used
unfolding check_target
validate_ref_target r used = guard (check_target r) (
    if not (is_empty r.env)
    then if contains used.envs r.env
      then err Model.duplicate_secret_env_name
      else ok (record used { envs = r.env ∷ used.envs })
    else if contains used.mounts r.mount
    then err Model.duplicate_secret_mount
    else ok (record used { mounts = r.mount ∷ used.mounts }))

-- `validateSecretRefsWithUsed`: the loop, with the sets of the parent scope.
unfoldable pub validate_refs : (declared seen : List String) → List SecretRef → Used → Result Used
unfolding validate_ref_target
validate_refs declared seen [] used = ok used
validate_refs declared seen (r ∷ refs) used =
    guard
      (fail_if (is_empty r.name) Model.empty_secret_name (
        fail_if (not (contains declared r.name)) Model.unknown_secret
          (fail_if (contains seen r.name) Model.duplicate_secret_ref none)))
      (validate_ref_target r used >>= validate_refs declared (r.name ∷ seen) refs)

abbrev pub nothing_used : Used
nothing_used = record { envs = []; mounts = [] }

abbrev pub validate_secret_refs : List SecretRef → List String → Result Used
validate_secret_refs refs declared = validate_refs declared [] refs nothing_used

unfoldable pub check_inheritance : List String → List SecretRef → Option Error
check_inheritance job_set [] = none
check_inheritance job_set (r ∷ refs) =
    let rest = check_inheritance job_set refs in
    fail_if (contains job_set r.name) Model.secret_override rest

abbrev pub validate_secret_inheritance : List SecretRef → List SecretRef → Option Error
validate_secret_inheritance job_refs step_refs =
    check_inheritance (map (λ r. r.name) job_refs) step_refs

abbrev pub secret_decl_set : List SecretDecl → List String
secret_decl_set decls = map (λ d. d.name) decls
