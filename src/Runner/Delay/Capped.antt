-- ===== src/Runner/Delay/Capped.antt =====
-- A retry delay is the wanted one, or the greatest that the type holds.
use cicada.Base.{
  ◌≡◌, refl, sym, ◌∙◌, ap, ℕ, ◌+◌, ◌*◌, ◌/◌, ◌%◌, ◌^◌, ◌≤◌, ◌<◌, ℤ, pos, false, if◌then◌else◌, ltb,
  leb, ◌==◌, nat_eq, arith, ltb→lt, lt→ltb, Bool-cases, inl, inr,
}
use native.Mathlib.Nat.{
  le-div_iff_mul-le, mul-le-mul, mod-eq_of_lt, div-lt_iff_lt-mul, pow-le-pow_right,
}
use cicada.Model.{
  Retry, BackoffStrategy, unset, backoff_none, backoff_linear, backoff_exponential, other_backoff,
}
use cicada.Runner.Delay.{max_delay, wrap_int64, product_or_max, checked_mul, retry_delay}

abbrev pub at_most_max : ℕ → ℕ
at_most_max m = if ltb max_delay m then max_delay else m

-- The factor of the delay before the attempt that follows attempt number `attempt`.
abbrev pub factor : BackoffStrategy → ℕ → ℕ
factor backoff_linear attempt = attempt + 1
factor backoff_exponential attempt = 2 ^ attempt
factor _ attempt = 1

wrap-small : (m : ℕ) → m ≤ max_delay → wrap_int64 m ≡ pos m
unfolding wrap_int64
wrap-small m le =
    let same : m % 18446744073709551616 ≡ m = mod-eq_of_lt (omega arith) in
    rw (same, lt→ltb m 9223372036854775808 (omega arith)) refl

above : (m : ℕ) → max_delay < m → at_most_max m ≡ max_delay
above m h = rw (lt→ltb max_delay m h) refl

below : (m : ℕ) → m ≤ max_delay → at_most_max m ≡ m
below m h = elim (Bool-cases (ltb max_delay m)) [
  | inl big ↦ absurd (omega (arith, h, ltb→lt max_delay m big))
  | inr small ↦ rw small refl
]

not-lt : (m n : ℕ) → ltb m n ≡ false → n ≤ m
not-lt m n h = ground arith

product-capped : (d n : ℕ) → 1 ≤ n → product_or_max d n ≡ pos (at_most_max (d * n))
unfolding product_or_max
product-capped d n one = elim (Bool-cases (ltb (max_delay / n) d)) [
  | inl big ↦
      rw big
        (ap pos (sym (above (d * n) ((div-lt_iff_lt-mul one).0 (ltb→lt (max_delay / n) d big)))))
  | inr small ↦
      let le : d * n ≤ max_delay = (le-div_iff_mul-le one).0 (not-lt (max_delay / n) d small) in
      rw small (wrap-small (d * n) le ∙ ap pos (sym (below (d * n) le)))
]

checked_mul-capped :
    (d n : ℕ)
    → 1 ≤ d
    → d ≤ max_delay
    → 1 ≤ n
    → checked_mul (pos d) (pos n) ≡ pos (at_most_max (d * n))
unfolding checked_mul
checked_mul-capped d n some_delay le one = elim (Bool-cases (n == 1)) [
  | inl single ↦
      let same : n ≡ 1 = ground (arith, single) in
      let product : d * n ≡ d = rw same (omega arith) in
      ground (arith, single, same, some_delay, ap at_most_max product, below d le)
  | inr several ↦ ground (arith, several, one, some_delay, product-capped d n one)
]

huge : (d attempt : ℕ) → 1 ≤ d → 63 ≤ attempt → max_delay < d * 2 ^ attempt
huge d attempt some_delay late =
    let power : 2 ^ 63 ≤ 2 ^ attempt = pow-le-pow_right (omega arith) late in
    let product : 1 * 2 ^ 63 ≤ d * 2 ^ attempt = mul-le-mul some_delay power in
    omega (arith, product)

power-pos : (n : ℕ) → 1 ≤ 2 ^ n
power-pos n = pow-le-pow_right {n = 2} (omega arith) {i = 0} {j = n} (omega arith)

unscaled : (d : ℕ) → d ≤ max_delay → pos d ≡ pos (at_most_max (d * 1))
unscaled d le =
    let product : d * 1 ≡ d = omega arith in ap pos (sym (ap at_most_max product ∙ below d le))

exponential :
    (d attempt : ℕ)
    → 1 ≤ d
    → d ≤ max_delay
    → (if leb 63 attempt then pos max_delay else checked_mul (pos d) (pos (2 ^ attempt)))
      ≡ pos (at_most_max (d * 2 ^ attempt))
exponential d attempt some_delay le = elim (Bool-cases (leb 63 attempt)) [
  | inl late ↦
      let late' : 63 ≤ attempt = ground (arith, late) in
      rw late (ap pos (sym (above (d * 2 ^ attempt) (huge d attempt some_delay late'))))
  | inr early ↦ rw early (checked_mul-capped d (2 ^ attempt) some_delay le (power-pos attempt))
]

-- A positive delay grows with the attempts by the strategy's factor, and stops at the greatest duration;
-- no product wraps around.
pub retry_delay-capped :
    (r : Retry) (d attempt : ℕ)
    → r.delay ≡ pos d
    → 1 ≤ d
    → d ≤ max_delay
    → retry_delay r attempt ≡ pos (at_most_max (d * factor r.backoff attempt))
unfolding retry_delay
retry_delay-capped r d attempt e some_delay le = rw e (by_strategy r.backoff)
  where
    by_strategy :
        (b : BackoffStrategy)
        → elim b as (λ _. ℤ) [
          | backoff_linear ↦ checked_mul (pos d) (pos (attempt + 1))
          | backoff_exponential ↦
              if leb 63 attempt then pos max_delay else checked_mul (pos d) (pos (2 ^ attempt))
          | _ ↦ pos d
        ]
          ≡ pos (at_most_max (d * factor b attempt))
    by_strategy backoff_linear = checked_mul-capped d (attempt + 1) some_delay le (omega arith)
    by_strategy backoff_exponential = exponential d attempt some_delay le
    by_strategy unset = unscaled d le
    by_strategy backoff_none = unscaled d le
    by_strategy (other_backoff s) = unscaled d le
