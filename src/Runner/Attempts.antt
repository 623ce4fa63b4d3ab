-- ===== src/Runner/Attempts.antt =====
-- `retryJob` of internal/runner/node.go, over what each attempt and each wait end with.
pub mod Last
use cicada.Base.{
  ℕ, zero, suc, ◌+◌, ◌%◌, ◌^◌, ltb, ℤ, pos, negsuc, Option, none, some, Bool, if◌then◌else◌,
  is_positive, ◌==◌, nat_eq,
}
use cicada.Model.{Retry}
use cicada.Runner.Delay.{retry_delay}

-- math.MaxInt
abbrev pub max_int : ℕ
max_int = 9223372036854775807

-- `1 + r.Attempts` in 64 bits, as the number of rounds: the greatest `int` wraps to a negative number, of which
-- `range` makes no round.
abbrev pub max_attempts : ℤ → ℕ
max_attempts (pos n) = let m = (n + 1) % 2 ^ 64 in if ltb m (2 ^ 63) then m else 0
max_attempts (negsuc _) = 0

-- `solve i`: the error of attempt `i`; `cancelled i`: the cause, if the context is cancelled after it;
-- `interrupted i`: the cause, if the context ends during the delay after it.
module _ {E : Type 0} (solve cancelled interrupted : ℕ → Option E) where
  -- After a failure of attempt `attempt`, with `left` rounds to come and `rest` their outcome.
  pub after_failure : Retry → ℕ → ℕ → E → Option E × ℕ → Option E × ℕ
  after_failure r left attempt e rest =
      if left == 0 then (some e, attempt) else elim (cancelled attempt) as (λ _. Option E × ℕ) [
        | some cause ↦ (some cause, attempt)
        | none ↦
            if is_positive (retry_delay r attempt)
            then elim (interrupted attempt) as (λ _. Option E × ℕ) [
              | some cause ↦ (some cause, attempt)
              | none ↦ rest
            ]
            else rest
      ]

  -- The error, and the number of the last attempt made.
  pub retry_from : Retry → ℕ → ℕ → Option E × ℕ
  unfolding after_failure
  retry_from r zero attempt = (none, attempt)
  retry_from r (suc left) attempt =
      let rest = retry_from r left (suc attempt) in
      elim (solve attempt) as (λ _. Option E × ℕ) [
        | none ↦ (none, attempt)
        | some e ↦ after_failure r left attempt e rest
      ]

  unfoldable pub retry_job : Option Retry → Option E × ℕ
  unfolding retry_from
  retry_job none = (solve 0, 0)
  retry_job (some r) = retry_from r (max_attempts r.attempts) 0
