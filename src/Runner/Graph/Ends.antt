-- ===== src/Runner/Graph/Ends.antt =====
-- A run ends: no order of the moves goes on for ever.
use cicada.Base.{
  ◌≡◌, refl, ap, inl, inr, ℕ, suc, ◌+◌, ◌≤◌, ◌<◌, String, List, [], ◌∷◌, some, Bool, length, lookup,
  insert, string_eq, arith, ◌==◌, Bool-cases,
}
use cicada.Runner.Graph.{
  RunJob, Phase, waiting, acquiring, running, State, start, Move, dep_succeeded, dep_failed,
  dep_skipped, cancel_wait, condition_holds, condition_fails, condition_error, acquire,
  cancel_acquire, solve_ok, solve_err, Reachable, at_start, then_step,
}

-- The moves that a node has before it, at most.
abbrev pub moves_left : Phase → ℕ
moves_left (waiting deps) = length deps + 3
moves_left acquiring = 2
moves_left running = 1
moves_left _ = 0

abbrev pub all_moves_left : State → ℕ
all_moves_left [] = 0
all_moves_left ((n, ph) ∷ s) = moves_left ph + all_moves_left s

-- Each job has three moves and one for each dependency.
abbrev pub bound : List RunJob → ℕ
bound [] = 0
bound (j ∷ jobs) = length j.depends_on + 3 + bound jobs

abbrev pub steps : {jobs : List RunJob} {limit : ℕ} {s : State} → Reachable jobs limit s → ℕ
steps at_start = 0
steps (then_step r t) = suc (steps r)

Move-fewer :
    {limit : ℕ} {cancelled conditional : Bool} {s : State} {before after : Phase}
    → Move limit cancelled conditional s before after
    → moves_left after < moves_left before
Move-fewer (dep_succeeded dep deps h) = omega arith
Move-fewer (dep_failed dep deps h) = omega arith
Move-fewer (dep_skipped dep deps h) = omega arith
Move-fewer (cancel_wait dep deps h) = omega arith
Move-fewer condition_holds = omega arith
Move-fewer (condition_fails h) = omega arith
Move-fewer (condition_error h) = omega arith
Move-fewer (acquire h) = omega arith
Move-fewer (cancel_acquire h) = omega arith
Move-fewer solve_ok = omega arith
Move-fewer solve_err = omega arith

all_moves_left-insert :
    (s : State) (n : String) (before after : Phase)
    → lookup s n ≡ some before
    → all_moves_left (insert s n after) + moves_left before ≡ all_moves_left s + moves_left after
all_moves_left-insert [] n before after h = cc
all_moves_left-insert ((m, ph) ∷ s) n before after h = elim (Bool-cases (n == m)) [
  | inl this ↦ let same : ph ≡ before = ground (arith, this, h) in rw (this, same) (omega arith)
  | inr other ↦
      rw other (omega (arith, all_moves_left-insert s n before after (ground (arith, other, h))))
]

all_moves_left-start : (jobs : List RunJob) → all_moves_left (start jobs) ≡ bound jobs
all_moves_left-start [] = refl
all_moves_left-start (j ∷ jobs) = omega (arith, all_moves_left-start jobs)

-- In every run, whatever the order of the moves, the steps taken and the moves left are together at most
-- three for each job and one for each dependency.
pub run_bounded :
    (jobs : List RunJob) (limit : ℕ) (s : State) (r : Reachable jobs limit s)
    → steps r + all_moves_left s ≤ bound jobs
run_bounded jobs limit s at_start = omega (arith, all_moves_left-start jobs)
run_bounded jobs limit s (then_step {s = s₀} r t) = omega (
  arith,
  run_bounded jobs limit s₀ r,
  all_moves_left-insert s₀ t.node t.before t.after t.at,
  ap all_moves_left t.moved,
  Move-fewer t.move,
)
