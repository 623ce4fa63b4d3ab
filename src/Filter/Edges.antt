-- ===== src/Filter/Edges.antt =====
-- The adjacency maps of `buildJobAdj` against the dependencies that the jobs list.
use cicada.Base.{
  ◌≡◌, refl, sym, ◌∙◌, ap, ◌↔◌, ◌⊎◌, is_empty, String, List, [], ◌∷◌, ◌++◌, Option, some, none,
  Bool, true, false, ◌&&◌, ◌||◌, ◌==◌, any, contains, contains-append, lookup, insert,
  lookup-insert, string_eq, arith, Bool-cases, inl, inr,
}
use cicada.Model.{Job}
use cicada.Filter.Target.{FilterTarget}
use cicada.Filter.Reach.{Adjacency, targets}
use cicada.Filter.Reach.Breadth.{Reach, here, next}
use cicada.Filter.{JobAdj, job_by_name, add_dependents, build_adj, no_adj}

-- Some job called `x` lists `dep`.
abbrev pub is_dependent : List Job → String → String → Bool
is_dependent jobs dep x = any (λ j. x == j.name && contains j.depends_on dep) jobs

-- The last job called `x` lists `dep`.
abbrev pub is_dependency : List Job → String → String → Bool
is_dependency jobs x dep = elim (job_by_name jobs x) as (λ _. Bool) [
  | none ↦ false
  | some j ↦ contains j.depends_on dep
]

-- The chains of a relation.
pub data Chain (edge : String → String → Bool) (start : String) : String → Type 0 where
  chain_start : Chain edge start start
  chain_next : {u v : String} → Chain edge start u → edge u v ≡ true → Chain edge start v

Chain-Reach :
    (adj : Adjacency) (edge : String → String → Bool) (start : String)
    → ((u v : String) → contains (targets adj u) v ≡ edge u v)
    → {x : String} → Reach adj start x
    → Chain edge start x
Chain-Reach adj edge start same here = chain_start
Chain-Reach adj edge start same (next {u} {v} r e) =
    chain_next (Chain-Reach adj edge start same r) (sym (same u v) ∙ e)

Reach-Chain :
    (adj : Adjacency) (edge : String → String → Bool) (start : String)
    → ((u v : String) → contains (targets adj u) v ≡ edge u v)
    → {x : String} → Chain edge start x
    → Reach adj start x
Reach-Chain adj edge start same chain_start = here
Reach-Chain adj edge start same (chain_next {u} {v} r e) =
    next (Reach-Chain adj edge start same r) (same u v ∙ e)

-- A walk along a map is a chain of the relation that the map stands for.
pub Reach-iff :
    (adj : Adjacency) (edge : String → String → Bool) (start x : String)
    → ((u v : String) → contains (targets adj u) v ≡ edge u v)
    → Reach adj start x ↔ Chain edge start x
Reach-iff adj edge start x same = (Chain-Reach adj edge start same, Reach-Chain adj edge start same)

contains-targets_insert :
    (m : Adjacency) (dep name d x : String)
    → contains (targets (insert m dep (targets m dep ++ name ∷ [])) d) x
      ≡ (contains (targets m d) x || ((d == dep) && (x == name)))
contains-targets_insert m dep name d x = elim (Bool-cases (d == dep)) [
  | inr other ↦ ground (arith, other, lookup-insert m dep d (targets m dep ++ name ∷ []))
  | inl this ↦
      let same : dep ≡ d = sym ((string_eq.eqb_iff d dep).0 this) in
      let found : targets (insert m dep (targets m dep ++ name ∷ [])) d
          ≡ targets m dep ++ name ∷ [] =
        ground (arith, this, lookup-insert m dep d (targets m dep ++ name ∷ [])) in
      ap (λ l. contains l x) found
      ∙ contains-append (targets m dep) (name ∷ []) x
      ∙ ap (λ t. contains (targets m t) x || contains (name ∷ []) x) same
      ∙ ground (arith, this)
]

contains-add_dependents :
    (name : String) (deps : List String) (m : Adjacency) (d x : String)
    → contains (targets (add_dependents name deps m) d) x
      ≡ (contains (targets m d) x || ((x == name) && contains deps d))
unfolding add_dependents
contains-add_dependents name [] m d x = ground arith
contains-add_dependents name (dep ∷ deps) m d x =
    contains-add_dependents name deps (insert m dep (targets m dep ++ name ∷ [])) d x
    ∙ ground (arith, contains-targets_insert m dep name d x)

dependents-build_adj :
    (jobs : List Job) (adj : JobAdj) (d x : String)
    → contains (targets (build_adj jobs adj).dependents d) x
      ≡ (contains (targets adj.dependents d) x || is_dependent jobs d x)
unfolding build_adj
dependents-build_adj [] adj d x = ground arith
dependents-build_adj (j ∷ jobs) adj d x =
    dependents-build_adj jobs (build_adj (j ∷ []) adj) d x
    ∙ ground (arith, contains-add_dependents j.name j.depends_on adj.dependents d x)

-- `adj.dependencies[x]` is the DependsOn of the last job called `x`.
pub dependencies-build_adj :
    (jobs : List Job) (adj : JobAdj) (x : String)
    → lookup (build_adj jobs adj).dependencies x
      ≡ elim (job_by_name jobs x) as (λ _. Option (List String)) [
        | some j ↦ some j.depends_on
        | none ↦ lookup adj.dependencies x
      ]
unfolding build_adj job_by_name
dependencies-build_adj [] adj x = refl
dependencies-build_adj (j ∷ jobs) adj x = ground (
  arith,
  dependencies-build_adj jobs (build_adj (j ∷ []) adj) x,
  lookup-insert adj.dependencies j.name x j.depends_on,
)

pub contains-dependents :
    (jobs : List Job) (d x : String)
    → contains (targets (build_adj jobs no_adj).dependents d) x ≡ is_dependent jobs d x
contains-dependents jobs d x = dependents-build_adj jobs no_adj d x

pub contains-dependencies :
    (jobs : List Job) (x d : String)
    → contains (targets (build_adj jobs no_adj).dependencies x) d ≡ is_dependency jobs x d
contains-dependencies jobs x d = ground (arith, dependencies-build_adj jobs no_adj x)

-- The names that a target leads to; a target without a job leaves all names in.
abbrev pub Leads : (String → String → Bool) → FilterTarget → String → Type 0
Leads edge t x = (is_empty t.job ≡ true) ⊎ Chain edge t.job x

-- What the start leads to along dependents, and the stop along dependencies.
abbrev pub IsInside : List Job → FilterTarget → FilterTarget → String → Type 0
IsInside jobs start_at stop_after x =
    Leads (is_dependent jobs) start_at x × Leads (is_dependency jobs) stop_after x
