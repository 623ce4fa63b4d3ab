-- ===== src/Params.antt =====
-- pkg/pipeline/params.go, and `substituteVars` of expand.go: parameters of fragments, and placeholders
-- in the text fields of a job.
pub mod Resolve
pub mod Replace
pub mod Fields
mod Tests
use cicada.Base.{
  ℕ, zero, suc, ◌-◌, String, str, List, [], ◌∷◌, ◌++◌, Option, none, some, Bool, if◌then◌else◌, not,
  is_empty, contains, has_prefix, length, lookup, insert, map, string_eq,
}
use mathlib.Core.Option
use cicada.Model.{
  Job, Step, When, Matrix, Dimension, Mount, Cache, EnvVar, Export, Artifact, Publish, SecretRef,
  SecretDecl, ParamDef, Error, Result, ok, err, guard, duplicate_param, missing_param,
  unknown_param,
}
use cicada.Validate.Checks.{fail_if}

abbrev pub Vars : Type 0
Vars = List (String × String)

-- The loop over the definitions, with the names seen.
pub check_defs : List ParamDef → List String → Vars → Option Error
check_defs [] known provided = none
check_defs (d ∷ defs) known provided =
    let rest = check_defs defs (d.name ∷ known) provided in
    let missing = elim (lookup provided d.name) as (λ _. Bool) [
      | none ↦ d.required
      | some _ ↦ Bool.false
    ] in
    fail_if (contains known d.name) duplicate_param (fail_if missing missing_param rest)

abbrev pub def_names : List ParamDef → List String
def_names = map (λ d. d.name)

-- The loop over what is provided.
pub check_provided : List String → Vars → Option Error
check_provided known [] = none
check_provided known ((k, v) ∷ provided) =
    let rest = check_provided known provided in fail_if (not (contains known k)) unknown_param rest

unfoldable pub validate_params : List ParamDef → Vars → Option Error
unfolding check_defs check_provided
validate_params defs provided = elim (check_defs defs [] provided) [
  | some e ↦ some e
  | none ↦ check_provided (def_names defs) provided
]

pub fill_params : List ParamDef → Vars → Vars → Vars
fill_params [] provided resolved = resolved
fill_params (d ∷ defs) provided resolved =
    let value = elim (lookup provided d.name) as (λ _. String) [ some v ↦ v | none ↦ d.default ] in
    fill_params defs provided (insert resolved d.name value)

unfoldable pub resolve_params : List ParamDef → Vars → Result Vars
unfolding validate_params fill_params
resolve_params defs provided =
    guard (validate_params defs provided) (ok (fill_params defs provided []))

-- `strings.Replacer`: at each position the first pair that matches, and no text is read twice.
abbrev pub find_pair : Vars → String → Option (String × String)
find_pair [] s = none
find_pair ((key, value) ∷ pairs) s =
    let rest = find_pair pairs s in if has_prefix s key then some (key, value) else rest

-- `skip` bytes of a match are still to be passed over.
pub replace : Vars → ℕ → String → String
replace pairs skip [] = []
replace pairs (suc skip) (c ∷ s) = replace pairs skip s
replace pairs zero (c ∷ s) = elim (find_pair pairs (c ∷ s)) [
  | none ↦ c ∷ replace pairs zero s
  | some (key, value) ↦ value ++ replace pairs (length key - 1) s
]

abbrev pub placeholder : String → String → String
placeholder prefix key = str "${" ++ (prefix ++ (key ++ str "}"))

unfoldable pub substitute_vars : String → Vars → String → String
unfolding replace
substitute_vars s combo prefix =
    if is_empty combo then s else replace (map (λ (k, v). (placeholder prefix k, v)) combo) 0 s

-- The helpers for one field type each, over a substitution `sub`.
module _ (sub : String → String) where
  abbrev pub sub_mount : Mount → Mount
  sub_mount m = record m { source = sub m.source; target = sub m.target }

  abbrev pub sub_cache : Cache → Cache
  sub_cache c = record c { id = sub c.id; target = sub c.target }

  abbrev pub sub_env : EnvVar → EnvVar
  sub_env e = record e { value = sub e.value }

  abbrev pub sub_export : Export → Export
  sub_export e = record e { path = sub e.path; local = sub e.local }

  abbrev pub sub_artifact : Artifact → Artifact
  sub_artifact a = record a { source = sub a.source; target = sub a.target }

  abbrev pub sub_secret_ref : SecretRef → SecretRef
  sub_secret_ref r = record r { env = sub r.env; mount = sub r.mount }

  abbrev pub sub_secret_decl : SecretDecl → SecretDecl
  sub_secret_decl d = record d { var = sub d.var; path = sub d.path; cmd = sub d.cmd }

  abbrev pub sub_dimension : Dimension → Dimension
  sub_dimension d = record d { values = map sub d.values }

  abbrev pub sub_matrix : Matrix → Matrix
  sub_matrix m = record m { dimensions = map sub_dimension m.dimensions }

  -- The new expression has no cached tree (`InvalidateAST`).
  abbrev pub sub_when : When → When
  sub_when w = record w { expression = sub w.expression; parsed = none }

  abbrev pub sub_publish : Publish → Publish
  sub_publish p = record p { image = sub p.image }

  unfoldable pub substitute_step : Step → Step
  substitute_step s = record s {
    run = map sub s.run;
    workdir = sub s.workdir;
    mounts = map sub_mount s.mounts;
    caches = map sub_cache s.caches;
    env = map sub_env s.env;
    secrets = map sub_secret_ref s.secrets;
    exports = map sub_export s.exports;
    artifacts = map sub_artifact s.artifacts;
    when = Option.map sub_when s.when;
  }

  unfoldable pub substitute_job : Job → Job
  unfolding substitute_step
  substitute_job j = record j {
    image = sub j.image;
    workdir = sub j.workdir;
    platform = sub j.platform;
    matrix = Option.map sub_matrix j.matrix;
    mounts = map sub_mount j.mounts;
    caches = map sub_cache j.caches;
    env = map sub_env j.env;
    exports = map sub_export j.exports;
    artifacts = map sub_artifact j.artifacts;
    publish = Option.map sub_publish j.publish;
    secrets = map sub_secret_ref j.secrets;
    when = Option.map sub_when j.when;
    steps = map substitute_step j.steps;
  }

unfoldable pub substitute_job_vars : Job → Vars → String → Job
unfolding substitute_job substitute_vars
substitute_job_vars j combo prefix = substitute_job (λ v. substitute_vars v combo prefix) j

unfoldable pub substitute_params : List Job → Vars → List Job
unfolding substitute_job_vars
substitute_params jobs params =
    if is_empty params then jobs else map (λ j. substitute_job_vars j params (str "param.")) jobs

unfoldable pub substitute_secret_decl_params : List SecretDecl → Vars → List SecretDecl
unfolding substitute_vars
substitute_secret_decl_params decls params =
    if is_empty params
    then decls
    else map (sub_secret_decl (λ v. substitute_vars v params (str "param."))) decls
