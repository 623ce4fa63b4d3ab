-- ===== src/Filter/Reach.antt =====
-- pkg/pipeline/filter.go: the two graph searches, over maps from a job name to job names. Both take
-- fuel: `bfsReachable` one step for each name it queues, `addTransitiveDeps` one level for each name
-- it adds, and both add a name at most once for each entry of the map.
pub mod Breadth
pub mod Closure
use cicada.Base.{
  ℕ, zero, suc, String, List, [], ◌∷◌, ◌++◌, Option, none, some, Bool, if◌then◌else◌, length,
  contains, lookup, string_eq,
}
use cicada.Model.{Result, ok, err, ◌>>=◌, fuel_exhausted}

abbrev pub Adjacency : Type 0
Adjacency = List (String × List String)

-- `adj[name]`, nil for a missing key
abbrev pub targets : Adjacency → String → List String
targets adj name = elim (lookup adj name) [ none ↦ [] | some l ↦ l ]

-- All the values of the map.
abbrev pub entries : Adjacency → List String
entries [] = []
entries ((_, l) ∷ adj) = l ++ entries adj

pub record Bfs : Type 0 where
  pub visited : List String
  pub queue : List String

-- The body of the inner loop.
abbrev pub offer : Bfs → String → Bfs
offer s next =
    if contains s.visited next
    then s
    else record { visited = next ∷ s.visited; queue = s.queue ++ next ∷ [] }

pub offer_all : List String → Bfs → Bfs
offer_all [] s = s
offer_all (next ∷ rest) s = offer_all rest (offer s next)

-- One round, after `cur` left the head of the queue.
pub expand : Adjacency → List String → String → List String → Bfs
unfolding offer_all
expand adj visited cur rest =
    offer_all (targets adj cur) (record { visited = visited; queue = rest })

pub bfs_loop : Adjacency → ℕ → Bfs → Result (List String)
unfolding expand
bfs_loop adj zero s = elim s.queue [ [] ↦ ok s.visited | _ ∷ _ ↦ err fuel_exhausted ]
bfs_loop adj (suc fuel) s = elim s.queue [
  | [] ↦ ok s.visited
  | cur ∷ rest ↦ bfs_loop adj fuel (expand adj s.visited cur rest)
]

unfoldable pub bfs_reachable : String → Adjacency → Result (List String)
unfolding bfs_loop
bfs_reachable start adj =
    bfs_loop adj (suc (length (entries adj))) (record { visited = start ∷ []; queue = start ∷ [] })

-- The loop over the dependencies of one name.
pub add_each :
    (String → List String → Result (List String)) → List String → List String → Result (List String)
add_each rec [] visited = ok visited
add_each rec (dep ∷ deps) visited =
    (if contains visited dep then ok visited else rec dep (dep ∷ visited)) >>= add_each rec deps

unfoldable pub add_transitive_deps : ℕ → Adjacency → String → List String → Result (List String)
unfolding add_each
add_transitive_deps zero deps name visited = err fuel_exhausted
add_transitive_deps (suc fuel) deps name visited =
    add_each (add_transitive_deps fuel deps) (targets deps name) visited

-- The loop of `FilterJobs` over the execution window.
unfoldable pub add_all : ℕ → Adjacency → List String → List String → Result (List String)
unfolding add_transitive_deps
add_all fuel deps [] visited = ok visited
add_all fuel deps (name ∷ window) visited =
    add_transitive_deps fuel deps name visited >>= add_all fuel deps window
