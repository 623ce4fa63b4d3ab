-- ===== src/Params/Tests.antt =====
-- Parameters and placeholders on small texts.
use cicada.Base.{
  ◌≡◌, refl, String, str, List, [], ◌∷◌, ◌++◌, some, true, false, distinct, all, lookup, string_eq,
}
use cicada.Model.{Job, ParamDef, ok, err, missing_param, unknown_param}
use cicada.Model.Samples.{job}
use cicada.Params.{Vars, def_names, resolve_params, substitute_vars, placeholder}
use cicada.Params.Resolve.{param_value, is_provided, resolve_params_exact}
use cicada.Params.Replace.{substitute_vars_once}

abbrev pub defs : List ParamDef
defs =
    record { name = str "go"; default = []; required = true }
    ∷ record { name = str "os"; default = str "linux"; required = false }
    ∷ []

abbrev pub provided : Vars
provided = (str "go", str "1.25") ∷ []

abbrev pub resolved : Vars
resolved = (str "go", str "1.25") ∷ (str "os", str "linux") ∷ []

resolve_params_test : resolve_params defs provided ≡ ok resolved
unfolding resolve_params
resolve_params_test = refl

missing_test : resolve_params defs [] ≡ err missing_param
unfolding resolve_params
missing_test = refl

unknown_test : resolve_params defs ((str "arch", str "arm") ∷ provided) ≡ err unknown_param
unfolding resolve_params
unknown_test = refl

-- A value that looks like a placeholder is not replaced again.
single_pass_test :
    substitute_vars (str "a-${matrix.x}-${y}") ((str "x", str "${matrix.x}") ∷ []) (str "matrix.")
    ≡ str "a-${matrix.x}-${y}"
unfolding substitute_vars
single_pass_test = refl

resolve_params_exact_example :
    (distinct (def_names defs) ≡ true)
    × (all (is_provided provided) defs ≡ true)
    × ((k : String) → lookup resolved k ≡ param_value defs provided k)
resolve_params_exact_example = resolve_params_exact defs provided resolved resolve_params_test

substitute_vars_once_example :
    substitute_vars
      (str "golang:" ++ (placeholder (str "param.") (str "go") ++ str "-alpine"))
      resolved
      (str "param.")
    ≡ str "golang:" ++ (str "1.25" ++ substitute_vars (str "-alpine") resolved (str "param."))
substitute_vars_once_example =
    substitute_vars_once resolved (str "param.") (str "golang:") (str "go") (str "1.25")
      (str "-alpine") refl refl refl refl

abbrev pub conditional : Job
conditional = record (job (str "build") []) {
  when =
      some (record { expression = str "tag == '${param.go}'"; deferred = false; parsed = some [] });
}
