-- ===== src/Params/Fields.antt =====
-- A substitution leaves a job's place in the graph alone, and drops every parsed condition.
use cicada.Base.{String, List, [], ◌∷◌, Option, none, some, Bool, true, false, map}
use mathlib.Core.Option
use cicada.Model.{Step, When}

-- No tree that was parsed from an older text.
abbrev pub is_stale : Option When → Bool
is_stale none = false
is_stale (some w) = elim w.parsed as (λ _. Bool) [ none ↦ false | some _ ↦ true ]

abbrev pub step_names : List Step → List String
step_names = map (λ s. s.name)

abbrev pub has_fresh_steps : List Step → Bool
has_fresh_steps [] = true
has_fresh_steps (s ∷ steps) = elim (is_stale s.when) as (λ _. Bool) [
  | true ↦ false
  | false ↦ has_fresh_steps steps
]
