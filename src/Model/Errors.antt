-- ===== src/Model/Errors.antt =====
-- pkg/pipeline/pipelinemodel/errors.go: the sentinel errors, and Go's two ways to return them.
use mathlib.Core.Path.{◌≡◌, refl}
use mathlib.Core.Option.{Option, none, some}

-- pkg/parser/parser.go
pub data ParserError : Type 0 where
  unknown_node missing_field duplicate_field extra_args type_mismatch unknown_prop : ParserError
  unexpected_children ambiguous_file empty_include nil_resolver : ParserError

-- pkg/parser/resolver.go
pub data ResolverError : Type 0 where
  nil_stdin nil_inner : ResolverError

-- internal/builder/builder.go: `errMissingDepState`, and the errors of the libraries and of an export path.
pub data BuilderError : Type 0 where
  missing_dep_state bad_platform marshaling_failed invalid_export_path : BuilderError

-- pkg/conditional/when.go: an expression that CEL refuses or that is no test, and `output()` in a step.
pub data ConditionalError : Type 0 where
  invalid_when deferred_in_step : ConditionalError

-- Errors of the KDL library, of a resolver and of `time.ParseDuration`.
pub data OutsideError : Type 0 where
  bad_syntax not_resolved bad_duration : OutsideError

-- The sentinels, without the scope that `fmt.Errorf` puts in front of them. `fuel_exhausted` is
-- the model's own: a recursion on fuel that ends too early.
pub data Error : Type 0 where
  empty_pipeline empty_job_name duplicate_job empty_step_name duplicate_step : Error
  invalid_name missing_image missing_run empty_run_command empty_job self_dependency : Error
  unknown_dep cycle_detected empty_matrix empty_dimension invalid_dim_name duplicate_dim : Error
  matrix_too_large invalid_condition deferred_step_when circular_include include_depth : Error
  missing_param unknown_param duplicate_param duplicate_alias alias_collision : Error
  invalid_conflict pipeline_no_params invalid_retry_attempts invalid_backoff : Error
  negative_delay negative_timeout empty_shell empty_env_key empty_export_path : Error
  duplicate_export artifact_no_dep duplicate_env_key duplicate_artifact relative_export : Error
  relative_artifact relative_artifact_source empty_artifact_from empty_artifact_source : Error
  empty_artifact_target root_export root_artifact empty_export_local empty_publish_image : Error
  empty_secret_name duplicate_secret duplicate_secret_ref invalid_secret_source : Error
  missing_secret_path missing_secret_cmd unknown_secret secret_ref_no_target : Error
  secret_ref_both_target relative_secret_mount secret_override secret_resolution : Error
  secret_var_with_non_host_env invalid_secret_env_name secret_path_with_non_file : Error
  secret_cmd_with_non_cmd duplicate_secret_env_name duplicate_secret_mount : Error
  invalid_secret_host_env_name unknown_start_at unknown_stop_after unknown_start_at_step : Error
  unknown_stop_after_step empty_step_window empty_filter_result orphaned_step : Error
  job_condition step_condition fuel_exhausted : Error
  parser_error : ParserError → Error
  conditional_error : ConditionalError → Error
  resolver_error : ResolverError → Error
  outside_error : OutsideError → Error
  builder_error : BuilderError → Error

-- The result `(T, error)`.
pub data Result {ℓ} (A : Type ℓ) : Type ℓ where
  ok : A → Result A
  err : Error → Result A

-- A function that returns only an `error`: `none` is nil. The first failing check returns.
infixr 30 ◌then_check◌
abbrev pub ◌then_check◌ : Option Error → Option Error → Option Error
none then_check next = next
some e then_check next = some e

-- `x, err := m; if err != nil { return nil, err }`, and then `next` with `x`.
infixl 5 ◌>>=◌
abbrev pub ◌>>=◌ {ℓ κ} : {T : Type ℓ} {U : Type κ} → Result T → (T → Result U) → Result U
err failure >>= next = err failure
ok x >>= next = next x

-- `if err := check; err != nil { return nil, err }`
abbrev pub guard {ℓ} : {A : Type ℓ} → Option Error → Result A → Result A
guard none r = r
guard (some e) r = err e

-- Both calls of a chain succeeded.
abbrev pub BothOk {ℓ κ} : {T : Type ℓ} {U : Type κ} → Result T → (T → Result U) → U → Type (ℓ ⊔ κ)
BothOk {T} m next y = (x : T) × (m ≡ ok x) × (next x ≡ ok y)

pub bind-ok {ℓ κ} :
    {T : Type ℓ} {U : Type κ} (m : Result T) (next : T → Result U) {y : U}
    → (m >>= next) ≡ ok y
    → BothOk m next y
bind-ok (err failure) next h = cc
bind-ok (ok x) next h = (x, refl, h)

pub guard-eq-ok {ℓ} :
    {A : Type ℓ} (c : Option Error) (r : Result A) {b : A}
    → guard c r ≡ ok b
    → (c ≡ none) × (r ≡ ok b)
guard-eq-ok none r h = (refl, h)
guard-eq-ok (some e) r h = cc
