-- ===== src/Runner/Graph/Progress.antt =====
-- A run of a graph without cycles does not get stuck, whatever the limit.
use cicada.Base.{
  ◌≡◌, refl, sym, ◌∙◌, ap, inl, inr, ℕ, zero, suc, ◌≤◌, ◌<◌, String, List, [], ◌∷◌, some, Bool,
  true, false, contains, distinct, lookup, insert, string_eq, arith, ◌==◌, Bool-cases, ltb, ltb→lt,
  eqb_refl,
}
use cicada.Runner.Graph.{
  RunJob, Phase, waiting, acquiring, running, succeeded, failed, skipped, State, taken, start,
  dependencies, conditions, Move, dep_succeeded, dep_failed, dep_skipped, cancel_wait,
  condition_holds, condition_fails, condition_error, acquire, cancel_acquire, solve_ok, solve_err,
  Step, Reachable, at_start, then_step,
}
use cicada.Runner.Graph.Exports.{has_returned, is_over}
use cicada.Runner.Graph.Ordered.{found, lookup-start}
use cicada.Runner.Graph.Nodes.{
  run_names, keys, lookup-keys, contains-keys, keys-insert, keys-start, keys-dependencies,
  keys-conditions, unreturned, taken-running,
}

abbrev Waits : List RunJob → State → Type 0
Waits jobs s =
    (n : String) (deps left : List String) (d : String)
    → lookup (dependencies jobs) n ≡ some deps
    → lookup s n ≡ some (waiting left)
    → contains left d ≡ true
    → contains deps d ≡ true

Move-waiting :
    {limit : ℕ} {cancelled conditional : Bool} {s : State} {before after : Phase}
    → Move limit cancelled conditional s before after
    → (left : List String) → after ≡ waiting left
    → (dep : String) × (before ≡ waiting (dep ∷ left))
Move-waiting (dep_succeeded dep deps h) left e =
    let same : deps ≡ left = cc in (dep, ap (λ l. waiting (dep ∷ l)) same)
Move-waiting (dep_failed dep deps h) left e = cc
Move-waiting (dep_skipped dep deps h) left e = cc
Move-waiting (cancel_wait dep deps h) left e = cc
Move-waiting condition_holds left e = cc
Move-waiting (condition_fails h) left e = cc
Move-waiting (condition_error h) left e = cc
Move-waiting (acquire h) left e = cc
Move-waiting (cancel_acquire h) left e = cc
Move-waiting solve_ok left e = cc
Move-waiting solve_err left e = cc

-- The nodes of a state are the jobs, and each waits for some of its dependencies.
record Live (jobs : List RunJob) (s : State) : Type 0 where
  same_keys : keys s ≡ run_names jobs
  waits : Waits jobs s

Live-start : (jobs : List RunJob) → Live jobs (start jobs)
Live-start jobs = record {
  same_keys = keys-start jobs;
  waits = λ n deps left d h at m.
      let both : some (waiting deps) ≡ some (waiting left) =
        sym (lookup-start jobs n deps h) ∙ at in
      let same : deps ≡ left = cc in ap (λ l. contains l d) same ∙ m;
}

module _ {jobs : List RunJob} {limit : ℕ} {s s' : State} (t : Step jobs limit s s')
    (live : Live jobs s) where
  Waits-step : Waits jobs s'
  Waits-step n deps left d h at m = elim (Bool-cases (n == t.node)) [
    | inl this ↦
        let both : some t.after ≡ some (waiting left) = sym (found t n ∙ rw this refl) ∙ at in
        let now : t.after ≡ waiting left = cc in
        let (dep, was) = Move-waiting t.move left now in
        let old : lookup s n ≡ some (waiting (dep ∷ left)) =
          ap (lookup s) ((string_eq.eqb_iff n t.node).0 this) ∙ t.at ∙ ap some was in
        live.waits n deps (dep ∷ left) d h old (ground (arith, m))
    | inr other ↦
        let old : lookup s n ≡ some (waiting left) = ground (arith, other, at, found t n) in
        live.waits n deps left d h old m
  ]

  Live-step : Live jobs s'
  Live-step = record {
    same_keys = ap keys (sym t.moved) ∙ keys-insert s t.node t.after t.at ∙ live.same_keys;
    waits = Waits-step;
  }

Reachable-Live : (jobs : List RunJob) (limit : ℕ) {s : State} → Reachable jobs limit s → Live jobs s
Reachable-Live jobs limit at_start = Live-start jobs
Reachable-Live jobs limit (then_step r t) = Live-step t (Reachable-Live jobs limit r)

-- Some node can move without a cancelled context.
abbrev pub CanMove : List RunJob → ℕ → State → Type 0
CanMove jobs limit s = (s' : State) × (t : Step jobs limit s s') × (t.cancelled ≡ false)

-- Dependencies are jobs of lower rank, so that there is no cycle.
abbrev pub IsRanked : List RunJob → (String → ℕ) → Type 0
IsRanked jobs rank =
    (n : String) (deps : List String) (d : String)
    → lookup (dependencies jobs) n ≡ some deps
    → contains deps d ≡ true
    → (rank d < rank n) × (contains (run_names jobs) d ≡ true)

module _ (jobs : List RunJob) (limit : ℕ) (rank : String → ℕ) (s : State) (some_slot : 1 ≤ limit)
    (ranked : IsRanked jobs rank) (unique : distinct (run_names jobs) ≡ true)
    (live : Live jobs s) where
  node_moves :
      (n : String) (before after : Phase)
      → lookup s n ≡ some before
      → ((c : Bool) → Move limit false c s before after)
      → CanMove jobs limit s
  node_moves n before after at move =
      let named = ap (λ ns. contains ns n) (sym live.same_keys) ∙ contains-keys s n at in
      let (c, condition) =
        lookup-keys (conditions jobs) n (ap (λ ns. contains ns n) (keys-conditions jobs) ∙ named) in
      (
        insert s n after,
        record {
          node = n;
          cancelled = false;
          conditional = c;
          before = before;
          after = after;
          at = at;
          condition = condition;
          move = move c;
          moved = refl;
        },
        refl,
      )

  some_solve_ends : 1 ≤ taken s → CanMove jobs limit s
  some_solve_ends le =
      let (n, at) = taken-running s (ap distinct live.same_keys ∙ unique) le in
      node_moves n running succeeded at (λ c. solve_ok)

  -- A node at the semaphore gets a slot, or another one ends.
  at_semaphore : (n : String) → lookup s n ≡ some acquiring → CanMove jobs limit s
  at_semaphore n at = elim (Bool-cases (ltb (taken s) limit)) [
    | inl free ↦ node_moves n acquiring running at (λ c. acquire (ltb→lt (taken s) limit free))
    | inr full ↦ some_solve_ends (ground (arith, full, some_slot))
  ]

  -- A node that waits for `dep` hears of it, unless `dep` can move itself.
  at_dep :
      (n dep : String) (left : List String) (ph : Phase)
      → lookup s n ≡ some (waiting (dep ∷ left))
      → lookup s dep ≡ some ph
      → (has_returned ph ≡ false → CanMove jobs limit s)
      → CanMove jobs limit s
  at_dep n dep left succeeded at e other =
      node_moves n (waiting (dep ∷ left)) (waiting left) at (λ c. dep_succeeded dep left e)
  at_dep n dep left failed at e other =
      node_moves n (waiting (dep ∷ left)) failed at (λ c. dep_failed dep left e)
  at_dep n dep left skipped at e other =
      node_moves n (waiting (dep ∷ left)) skipped at (λ c. dep_skipped dep left e)
  at_dep n dep left acquiring at e other = other refl
  at_dep n dep left running at e other = other refl
  at_dep n dep left (waiting deps) at e other = other refl

  dep_below :
      (n dep : String) (left : List String)
      → lookup s n ≡ some (waiting (dep ∷ left))
      → (rank dep < rank n) × ((ph : Phase) × (lookup s dep ≡ some ph))
  dep_below n dep left at =
      let named = ap (λ ns. contains ns n) (sym live.same_keys) ∙ contains-keys s n at in
      let (deps, h) =
        lookup-keys (dependencies jobs) n
          (ap (λ ns. contains ns n) (keys-dependencies jobs) ∙ named) in
      let listed = live.waits n deps (dep ∷ left) dep h at (ground (arith, eqb_refl dep)) in
      let (lower, known) = ranked n deps dep h listed in
      (lower, lookup-keys s dep (ap (λ ns. contains ns dep) live.same_keys ∙ known))

  advance :
      (fuel : ℕ) (n : String) (ph : Phase)
      → rank n < fuel
      → lookup s n ≡ some ph
      → has_returned ph ≡ false
      → CanMove jobs limit s
  advance zero n ph lt at h = absurd (omega arith)
  advance (suc fuel) n running lt at h = node_moves n running succeeded at (λ c. solve_ok)
  advance (suc fuel) n acquiring lt at h = at_semaphore n at
  advance (suc fuel) n succeeded lt at h = cc
  advance (suc fuel) n failed lt at h = cc
  advance (suc fuel) n skipped lt at h = cc
  advance (suc fuel) n (waiting []) lt at h =
      node_moves n (waiting []) acquiring at (λ c. condition_holds)
  advance (suc fuel) n (waiting (dep ∷ left)) lt at h =
      let (lower, (ph, e)) = dep_below n dep left at in
      at_dep n dep left ph at e (λ live'. advance fuel dep ph (omega (arith, lower, lt)) e live')

-- A run of distinct jobs without a cycle among known dependencies does not get stuck: while some job has
-- not returned, and the limit allows at least one job, some node can move without a cancelled context.
pub run_progress :
    (jobs : List RunJob) (limit : ℕ) (rank : String → ℕ) (s : State)
    → Reachable jobs limit s
    → 1 ≤ limit
    → IsRanked jobs rank
    → distinct (run_names jobs) ≡ true
    → is_over s ≡ false
    → CanMove jobs limit s
run_progress jobs limit rank s r some_slot ranked unique unfinished =
    let live = Reachable-Live jobs limit r in
    let (n, ph, at, busy) = unreturned s (ap distinct live.same_keys ∙ unique) unfinished in
    advance jobs limit rank s some_slot ranked unique live (suc (rank n)) n ph (omega arith) at busy
