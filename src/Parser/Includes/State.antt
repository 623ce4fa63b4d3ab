-- ===== src/Parser/Includes/State.antt =====
-- pkg/parser/include.go: the state of a resolution, and the job groups of a file.
use cicada.Base.{
  ℕ, String, List, [], ◌∷◌, ◌++◌, none, some, if◌then◌else◌, not, ◌==◌, is_empty, length, leb,
  contains, keep, lookup, insert, string_eq,
}
use cicada.Model.{
  Job, Fragment, conflict_error, JobGroup, Result, ok, err, circular_include, include_depth,
  duplicate_alias,
}
use cicada.Merge.{merge_jobs, Aliases}
use cicada.Parser.Includes.Directives.{IncludeDirective}

abbrev pub max_include_depth : ℕ
max_include_depth = 64

pub record IncludeState : Type 0 where
  pub ancestors : List String
  pub ancestor_set : List String
  pub cache : List (String × Fragment)
  pub aliases : Aliases

abbrev pub new_include_state : IncludeState
new_include_state = record { ancestors = []; ancestor_set = []; cache = []; aliases = [] }

unfoldable pub push : String → IncludeState → Result IncludeState
push path s =
    if contains s.ancestor_set path
    then err circular_include
    else if leb max_include_depth (length s.ancestors)
    then err include_depth
    else ok
        (record s { ancestors = s.ancestors ++ path ∷ []; ancestor_set = path ∷ s.ancestor_set })

-- The elements but the last, and the last one.
abbrev pub but_last : List String → List String
but_last [] = []
but_last (x ∷ xs) = let rest = but_last xs in if is_empty xs then [] else x ∷ rest

abbrev pub last_of : List String → String
last_of [] = []
last_of (x ∷ xs) = let rest = last_of xs in if is_empty xs then x else rest

-- The code calls it only behind a `push`; on an empty stack it would panic.
unfoldable pub pop : IncludeState → IncludeState
pop s =
    let last = last_of s.ancestors in
    record s {
      ancestors = but_last s.ancestors;
      ancestor_set = keep (λ p. not (p == last)) s.ancestor_set;
    }

unfoldable pub register_alias : String → List String → IncludeState → Result IncludeState
register_alias alias terminals s = elim (lookup s.aliases alias) as (λ _. Result IncludeState) [
  | some _ ↦ err duplicate_alias
  | none ↦ ok (record s { aliases = insert s.aliases alias terminals })
]

-- Stores a resolved file in the cache.
abbrev pub remember : String → Fragment → IncludeState → IncludeState
remember key frag s = record s { cache = insert s.cache key frag }

pub record GroupCollector : Type 0 where
  pub inline : List Job
  pub groups : List JobGroup
  pub origin : String

abbrev pub new_group_collector : String → GroupCollector
new_group_collector origin = record { inline = []; groups = []; origin = origin }

abbrev pub collect_job : Job → GroupCollector → GroupCollector
collect_job j gc = record gc { inline = gc.inline ++ j ∷ [] }

unfoldable pub flush : GroupCollector → GroupCollector
flush gc = if is_empty gc.inline then gc else record gc {
  inline = [];
  groups =
      gc.groups
      ++ record { jobs = gc.inline; origin = gc.origin; on_conflict = conflict_error } ∷ [];
}

unfoldable pub add_include : List Job → IncludeDirective → GroupCollector → GroupCollector
unfolding flush
add_include jobs inc gc =
    let flushed = flush gc in
    record flushed {
      groups =
          flushed.groups
          ++ record { jobs = jobs; origin = inc.source; on_conflict = inc.on_conflict } ∷ [];
    }

unfoldable pub merge_collected : GroupCollector → Result (List Job)
unfolding flush merge_jobs
merge_collected gc = merge_jobs (flush gc).groups
