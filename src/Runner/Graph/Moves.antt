-- ===== src/Runner/Graph/Moves.antt =====
-- What every move keeps: success is final, and a dependency is passed over only when it succeeded.
use cicada.Base.{
  ◌≡◌, refl, ◌⊎◌, inl, inr, ℕ, ◌+◌, ◌<◌, String, List, [], ◌∷◌, Option, none, some, Bool, true,
  false, if◌then◌else◌, ◌||◌, contains, lookup, insert, string_eq, arith, ◌==◌, Bool-cases,
}
use cicada.Runner.Graph.{
  Phase, waiting, acquiring, running, succeeded, failed, skipped, State, is_running, is_succeeded,
  taken, Move, dep_succeeded, dep_failed, dep_skipped, cancel_wait, condition_holds,
  condition_fails, condition_error, acquire, cancel_acquire, solve_ok, solve_err,
}

-- The dependencies that a live node has not seen succeed yet.
abbrev pub left_of : Phase → Option (List String)
left_of (waiting left) = some left
left_of acquiring = some []
left_of running = some []
left_of succeeded = some []
left_of failed = none
left_of skipped = none

abbrev pub is_settled : State → List String → String → Bool
is_settled s left d = contains left d || is_succeeded (lookup s d)

pub taken-insert :
    (s : State) (n : String) (before after : Phase)
    → lookup s n ≡ some before
    → taken (insert s n after) + (if is_running before then 1 else 0)
      ≡ taken s + (if is_running after then 1 else 0)
taken-insert [] n before after h = cc
taken-insert ((m, ph) ∷ s) n before after h = elim (Bool-cases (n == m)) [
  | inl this ↦ let same : ph ≡ before = ground (arith, this, h) in rw (this, same) (omega arith)
  | inr other ↦ rw other (omega (arith, taken-insert s n before after (ground (arith, other, h))))
]

module _ (limit : ℕ) (cancelled conditional : Bool) (s : State) where
  pub Move-unfinished :
      {before after : Phase}
      → Move limit cancelled conditional s before after
      → is_succeeded (some before) ≡ false
  Move-unfinished (dep_succeeded dep deps h) = refl
  Move-unfinished (dep_failed dep deps h) = refl
  Move-unfinished (dep_skipped dep deps h) = refl
  Move-unfinished (cancel_wait dep deps h) = refl
  Move-unfinished condition_holds = refl
  Move-unfinished (condition_fails h) = refl
  Move-unfinished (condition_error h) = refl
  Move-unfinished (acquire h) = refl
  Move-unfinished (cancel_acquire h) = refl
  Move-unfinished solve_ok = refl
  Move-unfinished solve_err = refl

  -- The new phase takes a slot only if one is free.
  pub Move-slot :
      {before after : Phase}
      → Move limit cancelled conditional s before after
      → (is_running after ≡ false) ⊎ (taken s < limit)
  Move-slot (dep_succeeded dep deps h) = inl refl
  Move-slot (dep_failed dep deps h) = inl refl
  Move-slot (dep_skipped dep deps h) = inl refl
  Move-slot (cancel_wait dep deps h) = inl refl
  Move-slot condition_holds = inl refl
  Move-slot (condition_fails h) = inl refl
  Move-slot (condition_error h) = inl refl
  Move-slot (acquire h) = inr h
  Move-slot (cancel_acquire h) = inl refl
  Move-slot solve_ok = inl refl
  Move-slot solve_err = inl refl

  abbrev pub Passes : Phase → List String → Type 0
  Passes before left =
      (left' : List String) × (left_of before ≡ some left')
      × ((d : String) → contains left' d ≡ true → is_settled s left d ≡ true)

  pub Move-left :
      {before after : Phase}
      → Move limit cancelled conditional s before after
      → (left : List String) → left_of after ≡ some left
      → Passes before left
  Move-left (dep_succeeded dep deps h) left e =
      (dep ∷ deps, refl, λ d m. ground (arith, e, h, m, string_eq.eqb_iff d dep))
  Move-left (dep_failed dep deps h) left e = cc
  Move-left (dep_skipped dep deps h) left e = cc
  Move-left (cancel_wait dep deps h) left e = cc
  Move-left condition_holds left e = ([], refl, λ d m. cc)
  Move-left (condition_fails h) left e = cc
  Move-left (condition_error h) left e = cc
  Move-left (acquire h) left e = ([], refl, λ d m. cc)
  Move-left (cancel_acquire h) left e = cc
  Move-left solve_ok left e = ([], refl, λ d m. cc)
  Move-left solve_err left e = cc
