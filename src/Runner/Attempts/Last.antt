-- ===== src/Runner/Attempts/Last.antt =====
-- The outcome of the retries is that of the last attempt, unless the context ends.
use cicada.Base.{
  ◌%◌, ◌^◌, lt→ltb, ◌≡◌, ◌≢◌, ◌↔◌, refl, sym, ◌∙◌, ap, subst, inl, inr, ℕ, zero, suc, ◌+◌, ◌≤◌, ◌<◌,
  pos, Option, none, some, false, is_positive, ◌==◌, nat_eq, arith, Bool-cases, Option-cases,
}
use cicada.Model.{Retry}
use cicada.Runner.Delay.{retry_delay}
use native.Mathlib.Nat.{mod-eq_of_lt}
use cicada.Runner.Attempts.{max_int, max_attempts, after_failure, retry_from, retry_job}

module _ {E : Type 0} (solve cancelled interrupted : ℕ → Option E) where
  -- Attempts `first` to the last one, at most `rounds` of them.
  pub record Retried (first rounds : ℕ) (out : Option E × ℕ) : Type 0 where
    pub from_first : first ≤ out.1
    pub within : out.1 < first + rounds
    pub failed_before : (i : ℕ) → first ≤ i → i < out.1 → solve i ≢ none
    pub outcome : (out.0 ≡ none) ↔ (solve out.1 ≡ none)

  stop_ok : (first left : ℕ) → solve first ≡ none → Retried first (suc left) (none, first)
  stop_ok first left h = record {
    from_first = omega arith;
    within = omega arith;
    failed_before = λ i ge lt. absurd (omega (arith, ge, lt));
    outcome = (λ _. h, λ _. refl);
  }

  stop_err :
      (first left : ℕ) (e cause : E)
      → solve first ≡ some e
      → Retried first (suc left) (some cause, first)
  stop_err first left e cause h = record {
    from_first = omega arith;
    within = omega arith;
    failed_before = λ i ge lt. absurd (omega (arith, ge, lt));
    outcome = (λ k. cc, λ k. cc);
  }

  go_on :
      (first left : ℕ) (e : E) (out : Option E × ℕ)
      → solve first ≡ some e
      → Retried (suc first) left out
      → Retried first (suc left) out
  go_on first left e out h rest = record {
    from_first = omega (arith, rest.from_first);
    within = omega (arith, rest.within);
    failed_before = λ i ge lt k. elim (Bool-cases (i == first)) [
      | inl this ↦
          let same : i ≡ first = (nat_eq.eqb_iff i first).0 this in
          let failed : some e ≡ none = sym h ∙ ap solve (sym same) ∙ k in absurd (cc failed)
      | inr other ↦ rest.failed_before i (ground (arith, ge, other)) lt k
    ];
    outcome = rest.outcome;
  }

  after_failure-Retried :
      (r : Retry) (left first : ℕ) (e : E) (rest : Option E × ℕ)
      → solve first ≡ some e
      → ((left == 0) ≡ false → Retried (suc first) left rest)
      → Retried first (suc left) (after_failure solve cancelled interrupted r left first e rest)
  unfolding after_failure
  after_failure-Retried r left first e rest h next = elim (Bool-cases (left == 0)) [
    | inl last ↦ rw last (stop_err first left e e h)
    | inr more ↦ elim (Option-cases (cancelled first)) [
      | inr (cause, gone) ↦ rw (more, gone) (stop_err first left e cause h)
      | inl on ↦ elim (Bool-cases (is_positive (retry_delay r first))) [
        | inr at_once ↦ rw (more, on, at_once) (go_on first left e rest h (next more))
        | inl delayed ↦ elim (Option-cases (interrupted first)) [
          | inr (cause, woken) ↦ rw (more, on, delayed, woken) (stop_err first left e cause h)
          | inl slept ↦ rw (more, on, delayed, slept) (go_on first left e rest h (next more))
        ]
      ]
    ]
  ]

  round :
      (r : Retry) (left first : ℕ)
      → ((left == 0) ≡ false
          → Retried (suc first) left (retry_from solve cancelled interrupted r left (suc first)))
      → Retried first (suc left) (retry_from solve cancelled interrupted r (suc left) first)
  unfolding retry_from
  round r left first next = elim (Option-cases (solve first)) [
    | inl success ↦ rw (retry_from, success) (stop_ok first left success)
    | inr (e, failure) ↦
        rw (retry_from, failure)
          (after_failure-Retried r left first e
            (retry_from solve cancelled interrupted r left (suc first)) failure next)
  ]

  retry_from-Retried :
      (r : Retry) (left first : ℕ)
      → Retried first (suc left) (retry_from solve cancelled interrupted r (suc left) first)
  retry_from-Retried r zero first = round r zero first (λ more. cc)
  retry_from-Retried r (suc left) first =
      round r (suc left) first (λ more. retry_from-Retried r left (suc first))

max_attempts-suc : (n : ℕ) → n < max_int → max_attempts (pos n) ≡ suc n
max_attempts-suc n small =
    let same : (n + 1) % 2 ^ 64 ≡ n + 1 = mod-eq_of_lt (omega arith) in
    rw (same, lt→ltb (n + 1) (2 ^ 63) (omega arith)) (omega arith)

-- With `n` retries, which validation requires to be positive, and fewer than the greatest `int`, at most 1 + n
-- attempts are made, all but the last one failed, and the outcome is a success exactly when the last attempt
-- succeeded, whether or not the context ends.
pub retry_job-Retried :
    {E : Type 0} (solve cancelled interrupted : ℕ → Option E) (r : Retry) (n : ℕ)
    → r.attempts ≡ pos n
    → n < max_int
    → Retried solve cancelled interrupted 0 (suc n) (retry_job solve cancelled interrupted (some r))
unfolding retry_job
retry_job-Retried solve cancelled interrupted r n h small =
    subst
      (λ rounds.
        Retried solve cancelled interrupted 0 (suc n)
          (retry_from solve cancelled interrupted r rounds 0))
      (sym (ap max_attempts h ∙ max_attempts-suc n small))
      (retry_from-Retried solve cancelled interrupted r n 0)
