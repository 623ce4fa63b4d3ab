-- ===== src/Merge/Aliases.antt =====
-- `expandDeps` lists each target of each dependency once.
use cicada.Base.{
  ◌≡◌, refl, String, List, [], ◌∷◌, ◌++◌, true, ◌||◌, if◌then◌else◌, contains, distinct, string_eq,
  arith, contains-append, distinct-concat,
}
use cicada.Merge.{Aliases, alias_targets, add_targets, expand_deps_from, expand_deps}

-- All the targets, in the order of the dependencies.
abbrev pub all_targets : Aliases → List String → List String
all_targets aliases [] = []
all_targets aliases (dep ∷ deps) = alias_targets aliases dep ++ all_targets aliases deps

contains-add_targets :
    (ts deduped : List String) (n : String)
    → contains (add_targets ts deduped) n ≡ (contains deduped n || contains ts n)
unfolding add_targets
contains-add_targets [] deduped n = ground arith
contains-add_targets (t ∷ ts) deduped n = ground (
  arith,
  contains-add_targets ts (if contains deduped t then deduped else deduped ++ t ∷ []) n,
  contains-append deduped (t ∷ []) n,
  string_eq.eqb_iff n t,
)

distinct-add_targets :
    (ts deduped : List String) → distinct deduped ≡ true → distinct (add_targets ts deduped) ≡ true
unfolding add_targets
distinct-add_targets [] deduped h = h
distinct-add_targets (t ∷ ts) deduped h =
    distinct-add_targets ts (if contains deduped t then deduped else deduped ++ t ∷ [])
      (ground (arith, h, distinct-concat deduped t h))

expand_deps_from_lem :
    (aliases : Aliases) (deps deduped : List String)
    → distinct deduped ≡ true
    → (distinct (expand_deps_from aliases deps deduped) ≡ true)
      × ((n : String)
          → contains (expand_deps_from aliases deps deduped) n
            ≡ (contains deduped n || contains (all_targets aliases deps) n))
unfolding expand_deps_from
expand_deps_from_lem aliases [] deduped h = (h, λ n. ground arith)
expand_deps_from_lem aliases (dep ∷ deps) deduped h =
    let ts = alias_targets aliases dep in
    let (unique, members) =
      expand_deps_from_lem aliases deps (add_targets ts deduped)
        (distinct-add_targets ts deduped h) in
    (
      unique,
      λ n. ground (
        arith,
        members n,
        contains-add_targets ts deduped n,
        contains-append ts (all_targets aliases deps) n,
      ),
    )

-- The expanded dependencies are distinct, and are exactly the targets of the given ones: those of an
-- alias that has any, and otherwise the dependency itself.
pub expand_deps_targets :
    (aliases : Aliases) (deps : List String)
    → (distinct (expand_deps deps aliases) ≡ true)
      × ((n : String)
          → contains (expand_deps deps aliases) n ≡ contains (all_targets aliases deps) n)
unfolding expand_deps
expand_deps_targets aliases deps = expand_deps_from_lem aliases deps [] refl
