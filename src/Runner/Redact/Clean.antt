-- ===== src/Runner/Redact/Clean.antt =====
-- No secret is left in a redacted text.
use cicada.Base.{
  ℕ, zero, suc, ◌-◌, ◌≡◌, refl, sym, ◌∙◌, ap, String, List, [], ◌∷◌, ◌++◌, Bool, true, false, not,
  ◌||◌, ◌&&◌, ◌==◌, is_empty, has_prefix, length, keep, map, all, contains, contains-keep,
  string_eq, nat_eq, arith, Bool-cases, inl, inr,
}
use cicada.Runner.Redact.{
  redact_mask, replace_from, replace_all, redact_string, insert_value, sort_values,
  sorted_secret_values, SolveStatus, redact_error, redact_status,
}

-- The text holds the value somewhere.
abbrev pub occurs : String → String → Bool
occurs v [] = is_empty v
occurs v (c ∷ s) = has_prefix (c ∷ s) v || occurs v s

abbrev pub star_free : String → Bool
star_free = all (λ c. not (c == b'*'))

-- A value that redaction can hide: neither empty nor made of the mask's character.
abbrev pub hideable : String → Bool
hideable v = not (is_empty v) && star_free v

-- A start of the new text without a star was a start of the old.
has_prefix-replace_from :
    (old w s : String)
    → star_free w ≡ true
    → has_prefix (replace_from old redact_mask 0 s) w ≡ true
    → has_prefix s w ≡ true
unfolding replace_from
has_prefix-replace_from old [] s f h = ground arith
has_prefix-replace_from old (x ∷ w) [] f h = h
has_prefix-replace_from old (x ∷ w) (c ∷ s) f h = elim (Bool-cases (has_prefix (c ∷ s) old)) [
  | inl matched ↦ absurd (ground (arith, matched, f, h))
  | inr other ↦
      let at : has_prefix (c ∷ replace_from old redact_mask 0 s) (x ∷ w) ≡ true =
        ground (arith, other, h) in
      ground (arith, at, has_prefix-replace_from old w s (ground (arith, f)))
]

has_prefix-nil : (s : String) → has_prefix s [] ≡ true
has_prefix-nil [] = refl
has_prefix-nil (c ∷ s) = refl

-- The mask starts no occurrence.
occurs-mask : (v s : String) → hideable v ≡ true → occurs v (redact_mask ++ s) ≡ occurs v s
occurs-mask [] s h = cc
occurs-mask (x ∷ v) s h = ground (arith, h)

-- A replacement makes no occurrence of a value that was not there.
occurs-replace_from :
    (old v : String) (skip : ℕ) (s : String)
    → hideable v ≡ true
    → occurs v s ≡ false
    → occurs v (replace_from old redact_mask skip s) ≡ false
unfolding replace_from
occurs-replace_from old v skip [] h absent = absent
occurs-replace_from old v (suc skip) (c ∷ s) h absent =
    occurs-replace_from old v skip s h (ground (arith, absent))
occurs-replace_from old v zero (c ∷ s) h absent =
    let absent' : occurs v s ≡ false = ground (arith, absent) in
    elim (Bool-cases (has_prefix (c ∷ s) old)) [
      | inl matched ↦ rw (matched) (
          occurs-mask v (replace_from old redact_mask (length old - 1) s) h
          ∙ occurs-replace_from old v (length old - 1) s h absent')
      | inr other ↦
          let here = has_prefix-replace_from old v (c ∷ s) (ground (arith, h)) in
          ground (arith, other, here, absent, occurs-replace_from old v 0 s h absent')
    ]

-- A value that is replaced is gone.
occurs-replace_all :
    (v : String) (skip : ℕ) (s : String)
    → hideable v ≡ true
    → occurs v (replace_from v redact_mask skip s) ≡ false
unfolding replace_from
occurs-replace_all [] skip s h = cc
occurs-replace_all (x ∷ v) skip [] h = refl
occurs-replace_all (x ∷ v) (suc skip) (c ∷ s) h = occurs-replace_all (x ∷ v) skip s h
occurs-replace_all (x ∷ v) zero (c ∷ s) h = elim (Bool-cases (has_prefix (c ∷ s) (x ∷ v))) [
  | inl matched ↦ rw (matched) (
      occurs-mask (x ∷ v) (replace_from (x ∷ v) redact_mask (length (x ∷ v) - 1) s) h
      ∙ occurs-replace_all (x ∷ v) (length (x ∷ v) - 1) s h)
  | inr other ↦
      let here = has_prefix-replace_from (x ∷ v) (x ∷ v) (c ∷ s) (ground (arith, h)) in
      ground (arith, other, here, occurs-replace_all (x ∷ v) 0 s h)
]

redact_string_absent :
    (vs : List String) (s v : String)
    → hideable v ≡ true
    → occurs v s ≡ false
    → occurs v (redact_string s vs) ≡ false
unfolding redact_string
redact_string_absent [] s v h absent = absent
redact_string_absent (w ∷ vs) s v h absent =
    redact_string_absent vs (replace_all s w redact_mask) v h (occurs-replace_from w v 0 s h absent)

redact_string_clean :
    (vs : List String) (s v : String)
    → contains vs v ≡ true
    → hideable v ≡ true
    → occurs v (redact_string s vs) ≡ false
unfolding redact_string
redact_string_clean [] s v m h = cc
redact_string_clean (w ∷ vs) s v m h = elim (Bool-cases (v == w)) [
  | inl this ↦ redact_string_absent vs (replace_all s w redact_mask) v h (
      ap (λ t. occurs v (replace_all s t redact_mask)) (sym ((string_eq.eqb_iff v w).0 this))
      ∙ occurs-replace_all v 0 s h)
  | inr other ↦ redact_string_clean vs (replace_all s w redact_mask) v (ground (arith, other, m)) h
]

contains-insert_value :
    (v : String) (vs : List String) (n : String)
    → contains (insert_value v vs) n ≡ (n == v || contains vs n)
unfolding insert_value
contains-insert_value v [] n = refl
contains-insert_value v (w ∷ vs) n = ground (arith, contains-insert_value v vs n)

contains-sort_values : (vs : List String) (n : String) → contains (sort_values vs) n ≡ contains vs n
unfolding sort_values
contains-sort_values [] n = refl
contains-sort_values (v ∷ vs) n =
    contains-insert_value v (sort_values vs) n ∙ ground (arith, contains-sort_values vs n)

abbrev pub secret_values : List (String × String) → List String
secret_values = map (λ (_, v). v)

sorted_secret_values_all :
    (secrets : List (String × String)) (v : String)
    → contains (secret_values secrets) v ≡ true
    → hideable v ≡ true
    → contains (sorted_secret_values secrets) v ≡ true
unfolding sorted_secret_values
sorted_secret_values_all secrets v m h =
    contains-sort_values (keep (λ v. not (is_empty v)) (secret_values secrets)) v
    ∙ contains-keep (λ v. not (is_empty v)) (secret_values secrets) v
    ∙ ground (arith, m, h)

-- No text of a status holds the value.
abbrev pub clean_texts : String → List String → Bool
clean_texts v = all (λ t. not (occurs v t))

pub record IsClean (v : String) (status : SolveStatus) : Type 0 where
  pub logs : clean_texts v status.logs ≡ true
  pub errors : clean_texts v status.errors ≡ true
  pub warnings : all (λ w. not (occurs v w.short) && clean_texts v w.detail) status.warnings ≡ true

all-map {ℓ κ} :
    {A : Type ℓ} {B : Type κ} (p : B → Bool) (f : A → B) (xs : List A)
    → ((a : A) → p (f a) ≡ true)
    → all p (map f xs) ≡ true
all-map p f [] h = refl
all-map p f (x ∷ xs) h = ground (arith, h x, all-map p f xs h)

-- After redaction no log, error or warning of a status holds the value of a secret, wherever it stood and whatever the
-- other secrets are, provided that the value is not empty and has no star, of which the mask is made.
pub redact_status-IsClean :
    (status : SolveStatus) (secrets : List (String × String)) (v : String)
    → contains (secret_values secrets) v ≡ true
    → hideable v ≡ true
    → IsClean v (redact_status status secrets)
unfolding redact_status
redact_status-IsClean status [] v m h = cc
redact_status-IsClean status (sec ∷ secrets) v m h =
    let sorted = sorted_secret_values (sec ∷ secrets) in
    let hidden : (t : String) → not (occurs v (redact_string t sorted)) ≡ true = λ t.
      ap not (redact_string_clean sorted t v (sorted_secret_values_all (sec ∷ secrets) v m h) h) in
    record {
      logs = all-map (λ t. not (occurs v t)) (λ t. redact_string t sorted) status.logs hidden;
      errors =
          all-map (λ t. not (occurs v t)) (redact_error sorted) status.errors
            (λ t. elim (Bool-cases (is_empty t)) [
              | inl nothing ↦ no_error t nothing
              | inr some_text ↦ rw some_text (hidden t)
            ]);
      warnings =
          all-map (λ w. not (occurs v w.short) && clean_texts v w.detail) _ status.warnings
            (λ w. ground (
              arith,
              hidden w.short,
              all-map (λ t. not (occurs v t)) (λ t. redact_string t sorted) w.detail hidden,
            ));
    }
  where
    no_error :
        (t : String)
        → is_empty t ≡ true
        → not (occurs v (redact_error (sorted_secret_values (sec ∷ secrets)) t)) ≡ true
    no_error [] nothing = ground (arith, h)
    no_error (c ∷ t) nothing = cc
