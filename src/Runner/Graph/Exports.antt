-- ===== src/Runner/Graph/Exports.antt =====
-- After a run, only what succeeded is exported and published.
use cicada.Base.{
  ◌≡◌, refl, sym, ◌∙◌, ap, ◌⊎◌, inl, inr, String, List, [], ◌∷◌, none, some, Bool, true, false, all,
  All, lookup, string_eq, arith, Bool-cases, Option-cases,
}
use cicada.Runner.Graph.{
  Phase, waiting, acquiring, running, succeeded, failed, skipped, State, is_succeeded, passes,
  filter_successful,
}

-- The goroutine has closed its channel.
abbrev pub has_returned : Phase → Bool
has_returned succeeded = true
has_returned failed = true
has_returned skipped = true
has_returned _ = false

abbrev pub is_over : State → Bool
is_over = all (λ (n, ph). has_returned ph)

returned :
    (s : State) (n : String) (ph : Phase)
    → is_over s ≡ true
    → lookup s n ≡ some ph
    → has_returned ph ≡ true
returned [] n ph h at = cc
returned ((m, p) ∷ s) n ph h at = ground (arith, h, at, returned s n ph)

passed :
    (ph : Phase) → has_returned ph ≡ true → passes (some ph) ≡ true → is_succeeded (some ph) ≡ true
unfolding passes
passed succeeded r h = refl
passed failed r h = cc
passed skipped r h = cc
passed acquiring r h = cc
passed running r h = cc
passed (waiting deps) r h = cc

abbrev pub Exported : State → String → Type 0
Exported s n = (lookup s n ≡ none) ⊎ (is_succeeded (lookup s n) ≡ true)

passed_lookup :
    (s : State) (n : String) → is_over s ≡ true → passes (lookup s n) ≡ true → Exported s n
passed_lookup s n over h = elim (Option-cases (lookup s n)) [
  | inl absent ↦ inl absent
  | inr (ph, at) ↦
      inr (ap is_succeeded at ∙ passed ph (returned s n ph over at) (ap passes (sym at) ∙ h))
]

-- Once every job has returned, each item that is exported or published belongs to a job that succeeded, or
-- to none of the run.
pub filter_successful_sound :
    {T : Type 0} (items : List T) (s : State) (job_name : T → String)
    → is_over s ≡ true
    → All (λ i. Exported s (job_name i)) (filter_successful items s job_name)
unfolding filter_successful
filter_successful_sound [] s job_name over = tt
filter_successful_sound (i ∷ items) s job_name over =
    elim (Bool-cases (passes (lookup s (job_name i)))) [
      | inl kept ↦
          rw kept
            (passed_lookup s (job_name i) over kept, filter_successful_sound items s job_name over)
      | inr dropped ↦ rw dropped (filter_successful_sound items s job_name over)
    ]
