-- ===== src/Params/Resolve.antt =====
-- `ResolveParams` gives each declared parameter its value, and no other.
use cicada.Base.{
  ◌≡◌, refl, String, List, [], ◌∷◌, Option, none, some, Bool, true, false, not, if◌then◌else◌,
  contains, distinct, disjoint, disjoint-cons, lookup, insert, string_eq, arith, ◌==◌,
  lookup-insert, all,
}
use cicada.Model.{ParamDef, ok, guard-eq-ok}
use cicada.Params.{Vars, check_defs, def_names, validate_params, fill_params, resolve_params}

-- What the definitions say of a name: the provided value, or else the default.
abbrev pub param_value : List ParamDef → Vars → String → Option String
param_value [] provided k = none
param_value (d ∷ defs) provided k =
    let rest = param_value defs provided k in
    if k == d.name
    then some (elim (lookup provided d.name) as (λ _. String) [ some v ↦ v | none ↦ d.default ])
    else rest

-- A required parameter is provided.
abbrev pub is_provided : Vars → ParamDef → Bool
is_provided provided d = elim (lookup provided d.name) [ none ↦ not d.required | some _ ↦ true ]

check_defs_sound :
    (defs : List ParamDef) (known : List String) (provided : Vars)
    → check_defs defs known provided ≡ none
    → (disjoint known (def_names defs) ≡ true)
      × (distinct (def_names defs) ≡ true)
      × (all (is_provided provided) defs ≡ true)
unfolding check_defs
check_defs_sound [] known provided h = ground arith
check_defs_sound (d ∷ defs) known provided h = ground (
  arith,
  h,
  check_defs_sound defs (d.name ∷ known) provided,
  disjoint-cons d.name known (def_names defs),
)

param_value-none :
    (defs : List ParamDef) (provided : Vars) (k : String)
    → contains (def_names defs) k ≡ false
    → param_value defs provided k ≡ none
param_value-none [] provided k h = refl
param_value-none (d ∷ defs) provided k h = ground (arith, h, param_value-none defs provided k)

lookup-fill_params :
    (defs : List ParamDef) (provided resolved : Vars) (k : String)
    → distinct (def_names defs) ≡ true
    → lookup (fill_params defs provided resolved) k
      ≡ elim (param_value defs provided k) as (λ _. Option String) [
        | some v ↦ some v
        | none ↦ lookup resolved k
      ]
unfolding fill_params
lookup-fill_params [] provided resolved k h = refl
lookup-fill_params (d ∷ defs) provided resolved k h =
    let value = elim (lookup provided d.name) as (λ _. String) [ some v ↦ v | none ↦ d.default ] in
    ground (
      arith,
      h,
      lookup-fill_params defs provided (insert resolved d.name value) k,
      lookup-insert resolved d.name k value,
      param_value-none defs provided k,
      string_eq.eqb_iff k d.name,
    )

-- Resolved parameters: no parameter is declared twice, every required one is provided, and the result
-- gives each declared name the provided value or else its default, and no value to any other name.
pub resolve_params_exact :
    (defs : List ParamDef) (provided resolved : Vars)
    → resolve_params defs provided ≡ ok resolved
    → (distinct (def_names defs) ≡ true)
      × (all (is_provided provided) defs ≡ true)
      × ((k : String) → lookup resolved k ≡ param_value defs provided k)
unfolding resolve_params validate_params
resolve_params_exact defs provided resolved h =
    let filled = fill_params defs provided [] in
    let (valid, same) = guard-eq-ok (validate_params defs provided) (ok filled) h in
    let declared : check_defs defs [] provided ≡ none = ground (arith, valid) in
    let (_, unique, given) = check_defs_sound defs [] provided declared in
    (unique, given, λ k. ground (arith, same, lookup-fill_params defs provided [] k unique))
