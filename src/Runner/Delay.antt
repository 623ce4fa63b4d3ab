-- ===== src/Runner/Delay.antt =====
-- `retryDelay` and `checkedMul` of internal/runner/node.go.
pub mod Capped
use cicada.Base.{
  ℕ, zero, suc, ◌+◌, ◌-◌, ◌*◌, ◌/◌, ◌%◌, ◌^◌, ℤ, pos, negsuc, Bool, true, false, if◌then◌else◌, ltb,
  leb, ◌==◌, nat_eq, ◌||◌, is_positive, is_negative, not,
}
use cicada.Model.{Retry, BackoffStrategy, backoff_linear, backoff_exponential}

-- math.MaxInt64
abbrev pub max_delay : ℕ
max_delay = 9223372036854775807

-- The int64 of a product of two non-negative factors.
pub wrap_int64 : ℕ → ℤ
wrap_int64 m =
    let r = m % 18446744073709551616 in
    if ltb r 9223372036854775808 then pos r else negsuc (18446744073709551615 - r)

-- `if int64(d) > math.MaxInt64/n { return _maxDelay }`, and the product.
pub product_or_max : ℕ → ℕ → ℤ
unfolding wrap_int64
product_or_max d n = if ltb (max_delay / n) d then pos max_delay else wrap_int64 (d * n)

pub checked_mul : ℤ → ℤ → ℤ
unfolding product_or_max
checked_mul d (negsuc n) = pos 0
checked_mul (negsuc d) (pos n) = if n == 0 then pos 0 else negsuc d
checked_mul (pos d) (pos n) =
    if n == 0 then pos 0 else if d == 0 || n == 1 then pos d else product_or_max d n

-- `retryJob` counts its attempts below an `int`, so that `attempt + 1` does not wrap.
unfoldable pub retry_delay : Retry → ℕ → ℤ
unfolding checked_mul
retry_delay r attempt = elim r.backoff [
  | backoff_linear ↦ checked_mul r.delay (pos (attempt + 1))
  | backoff_exponential ↦
      if leb 63 attempt then pos max_delay else checked_mul r.delay (pos (2 ^ attempt))
  | _ ↦ r.delay
]
