-- ===== src/Runner/Graph.antt =====
-- `Run` and `runNode` of internal/runner: the goroutines of a job graph as steps of a state.
pub mod Moves
pub mod Ordered
pub mod Exports
pub mod Nodes
pub mod Progress
pub mod Ends
use cicada.Base.{
  ℕ, ◌+◌, ◌<◌, ◌≡◌, String, List, [], ◌∷◌, Option, none, some, Bool, true, false, ◌&&◌, not,
  if◌then◌else◌, contains, lookup, insert, keep, map, string_eq,
}

-- What the run needs of a job. `conditional`: it has a deferred condition and there is a context for it.
pub record RunJob : Type 0 where
  pub name : String
  pub depends_on : List String
  pub conditional : Bool

-- Where the goroutine of a node stands: waiting for the dependencies left, at the semaphore, solving, or
-- returned, with `done` closed.
pub data Phase : Type 0 where
  waiting : List String → Phase
  acquiring running succeeded failed skipped : Phase

abbrev pub State : Type 0
State = List (String × Phase)

abbrev pub is_running : Phase → Bool
is_running running = true
is_running _ = false

abbrev pub is_succeeded : Option Phase → Bool
is_succeeded (some succeeded) = true
is_succeeded _ = false

-- The slots of the semaphore that are taken.
abbrev pub taken : State → ℕ
taken [] = 0
taken ((n, ph) ∷ s) = (if is_running ph then 1 else 0) + taken s

abbrev pub start : List RunJob → State
start jobs = map (λ (j : RunJob). (j.name, waiting j.depends_on)) jobs

abbrev pub dependencies : List RunJob → List (String × List String)
dependencies jobs = map (λ (j : RunJob). (j.name, j.depends_on)) jobs

abbrev pub conditions : List RunJob → List (String × Bool)
conditions jobs = map (λ (j : RunJob). (j.name, j.conditional)) jobs

-- What one node can do next. A cancelled context may be noticed wherever the node waits; a running node
-- ends with the result of `retryJob` and of the extraction of outputs.
pub data Move (limit : ℕ) (cancelled conditional : Bool) (s : State) : Phase → Phase → Type 0 where
  dep_succeeded :
      (dep : String) (deps : List String)
      → lookup s dep ≡ some succeeded
      → Move limit cancelled conditional s (waiting (dep ∷ deps)) (waiting deps)
  dep_failed :
      (dep : String) (deps : List String)
      → lookup s dep ≡ some failed
      → Move limit cancelled conditional s (waiting (dep ∷ deps)) failed
  dep_skipped :
      (dep : String) (deps : List String)
      → lookup s dep ≡ some skipped
      → Move limit cancelled conditional s (waiting (dep ∷ deps)) skipped
  cancel_wait :
      (dep : String) (deps : List String)
      → cancelled ≡ true
      → Move limit cancelled conditional s (waiting (dep ∷ deps)) failed
  condition_holds : Move limit cancelled conditional s (waiting []) acquiring
  condition_fails : conditional ≡ true → Move limit cancelled conditional s (waiting []) skipped
  condition_error : conditional ≡ true → Move limit cancelled conditional s (waiting []) failed
  acquire : taken s < limit → Move limit cancelled conditional s acquiring running
  cancel_acquire : cancelled ≡ true → Move limit cancelled conditional s acquiring failed
  solve_ok : Move limit cancelled conditional s running succeeded
  solve_err : Move limit cancelled conditional s running failed

-- One node moves.
pub record Step (jobs : List RunJob) (limit : ℕ) (s s' : State) : Type 0 where
  pub node : String
  pub cancelled : Bool
  pub conditional : Bool
  pub before : Phase
  pub after : Phase
  pub at : lookup s node ≡ some before
  pub condition : lookup (conditions jobs) node ≡ some conditional
  pub move : Move limit cancelled conditional s before after
  pub moved : insert s node after ≡ s'

pub data Reachable (jobs : List RunJob) (limit : ℕ) : State → Type 0 where
  at_start : Reachable jobs limit (start jobs)
  then_step :
      {s s' : State} → Reachable jobs limit s → Step jobs limit s s' → Reachable jobs limit s'

-- `filterSuccessful`: items of jobs outside the graph pass.
pub passes : Option Phase → Bool
passes none = true
passes (some failed) = false
passes (some skipped) = false
passes (some _) = true

unfoldable pub filter_successful {ℓ} : {T : Type ℓ} → List T → State → (T → String) → List T
unfolding passes
filter_successful items s job_name = keep (λ i. passes (lookup s (job_name i))) items
