-- ===== src/Expand/Matrices/Product.antt =====
-- A validated matrix has between 1 and 10,000 combinations, all that its dimensions allow.
use cicada.Base.{
  ◌≡◌, refl, ◌∙◌, ℕ, ◌*◌, ◌/◌, ◌≤◌, String, List, [], ◌∷◌, none, true, false, ltb, is_empty,
  contains, distinct, disjoint, disjoint-cons, length, insert, map, string_eq, arith, length-append,
  length-map, ltb→lt, Bool-cases, inl, inr,
}
use native.Mathlib.Nat.{le-div_iff_mul-le, mul-le-mul}
use cicada.Model.{Matrix, Dimension, ok}
use cicada.Validate.Names.{valid_dim_name}
use cicada.Expand.Matrices.{
  Combo, max_matrix_combinations, max_int, check_dimensions, count_total, extend, product_from,
  combinations,
}

-- The number of combinations.
abbrev pub size : List Dimension → ℕ
size [] = 1
size (d ∷ dims) = length d.values * size dims

abbrev pub dimension_names : List Dimension → List String
dimension_names = map (λ (d : Dimension). d.name)

-- The length of what the loops build.
length-extend :
    (name : String) (values : List String) (combos : List Combo)
    → length (extend name values combos) ≡ length combos * length values
unfolding extend
length-extend name values [] = omega arith
length-extend name values (combo ∷ combos) = omega (
  arith,
  length-append (map (λ v. insert combo name v) values) (extend name values combos),
  length-map (λ v. insert combo name v) values,
  length-extend name values combos,
)

pub length-product_from :
    (dims : List Dimension) (combos : List Combo)
    → length (product_from dims combos) ≡ length combos * size dims
unfolding product_from
length-product_from [] combos = omega arith
length-product_from (d ∷ dims) combos =
    length-product_from dims (extend d.name d.values combos)
    ∙ rw (length-extend d.name d.values combos) (omega arith)

-- What validation says of the dimensions behind `total`.
pub record Sized (dims : List Dimension) (seen : List String) (total : ℕ) : Type 0 where
  pub new : disjoint seen (dimension_names dims) ≡ true
  pub unique : distinct (dimension_names dims) ≡ true
  pub filled : 1 ≤ size dims
  pub bounded : total * size dims ≤ max_matrix_combinations
  pub counted : count_total dims total ≡ none

-- Below the cap the guard against overflow lets pass.
fits : (total n : ℕ) → 1 ≤ n → total * n ≤ max_matrix_combinations → ltb (max_int / n) total ≡ false
fits total n one le = elim (Bool-cases (ltb (max_int / n) total)) [
  | inl big ↦ absurd (
      let below : total ≤ max_int / n = (le-div_iff_mul-le one).1 (omega arith) in
      omega (arith, ltb→lt (max_int / n) total big))
  | inr small ↦ small
]

abbrev Accepted : Dimension → List Dimension → List String → ℕ → Type 0
Accepted d dims seen total =
    (valid_dim_name d.name ≡ true)
    × (contains seen d.name ≡ false)
    × (1 ≤ length d.values)
    × (total * length d.values ≤ max_matrix_combinations)
    × (check_dimensions dims (d.name ∷ seen) (total * length d.values) ≡ none)

nonempty : {A : Type 0} (xs : List A) → is_empty xs ≡ false → 1 ≤ length xs
nonempty [] h = cc
nonempty (x ∷ xs) h = omega arith

not-lt : (m n : ℕ) → ltb m n ≡ false → n ≤ m
not-lt m n h = ground arith

check_dimensions-cons :
    (d : Dimension) (dims : List Dimension) (seen : List String) (total : ℕ)
    → check_dimensions (d ∷ dims) seen total ≡ none
    → Accepted d dims seen total
unfolding check_dimensions
check_dimensions-cons d dims seen total h = (
  ground (arith, h),
  ground (arith, h),
  nonempty d.values (ground (arith, h)),
  not-lt max_matrix_combinations (total * length d.values) (ground (arith, h)),
  ground (arith, h),
)

pub check_dimensions_sound :
    (dims : List Dimension) (seen : List String) (total : ℕ)
    → total ≤ max_matrix_combinations
    → check_dimensions dims seen total ≡ none
    → Sized dims seen total
unfolding count_total
check_dimensions_sound [] seen total le h = record {
  new = refl;
  unique = refl;
  filled = omega arith;
  bounded = omega arith;
  counted = refl;
}
check_dimensions_sound (d ∷ dims) seen total le h =
    let n = length d.values in
    let (_, fresh, one, le', rest) = check_dimensions-cons d dims seen total h in
    let s = check_dimensions_sound dims (d.name ∷ seen) (total * n) le' rest in
    record {
      new = ground (arith, fresh, s.new, disjoint-cons d.name seen (dimension_names dims));
      unique = ground (arith, s.unique, s.new, disjoint-cons d.name seen (dimension_names dims));
      filled = mul-le-mul one s.filled;
      bounded = omega (arith, s.bounded);
      counted = ground (arith, fits total n one le', s.counted);
    }

abbrev pub Counted : Matrix → List Combo → Type 0
Counted m combos =
    (combinations m ≡ ok combos)
    × (length combos ≡ size m.dimensions)
    × (1 ≤ length combos)
    × (length combos ≤ max_matrix_combinations)
