-- ===== src/Expand/Matrices.antt =====
-- `ValidateMatrix` of pkg/pipeline/expand.go, and `Combinations` of pkg/pipeline/pipelinemodel/types.go.
pub mod Product
pub mod Extend
pub mod Choices
use cicada.Base.{
  ℕ, ◌*◌, ◌/◌, ◌-◌, ◌^◌, String, List, [], ◌∷◌, ◌++◌, Option, none, some, Bool, if◌then◌else◌, not,
  ◌&&◌, ltb, is_empty, contains, length, insert, map, string_eq,
}
use cicada.Model.{
  Matrix, Dimension, Error, Result, ok, guard, empty_matrix, invalid_dim_name, duplicate_dim,
  empty_dimension, matrix_too_large,
}
use cicada.Validate.Names.{valid_dim_name}
use cicada.Validate.Checks.{fail_if}

abbrev pub max_matrix_combinations : ℕ
max_matrix_combinations = 10000

-- math.MaxInt of a 64-bit platform
abbrev pub max_int : ℕ
max_int = 9223372036854775807

-- The loop of `ValidateMatrix`. Before each product `total` is at most 10,000, and a slice that fits in
-- a 48-bit address space has less than 2^44 values, so that the product of the code does not wrap.
pub check_dimensions : List Dimension → List String → ℕ → Option Error
unfolding valid_dim_name
check_dimensions [] seen total = none
check_dimensions (d ∷ dims) seen total =
    let total' = total * length d.values in
    let rest = check_dimensions dims (d.name ∷ seen) total' in
    fail_if (not (valid_dim_name d.name)) invalid_dim_name (
      fail_if (contains seen d.name) duplicate_dim (
        fail_if (is_empty d.values) empty_dimension
          (fail_if (ltb max_matrix_combinations total') matrix_too_large rest)))

unfoldable pub validate_matrix : Option Matrix → Option Error
unfolding check_dimensions
validate_matrix none = some empty_matrix
validate_matrix (some m) =
    fail_if (is_empty m.dimensions) empty_matrix (check_dimensions m.dimensions [] 1)

-- The first loop of `Combinations`, the guard against overflow.
pub count_total : List Dimension → ℕ → Option Error
count_total [] total = none
count_total (d ∷ dims) total =
    let n = length d.values in
    let rest = count_total dims (total * n) in
    if ltb 0 n && ltb (max_int / n) total then some matrix_too_large else rest

abbrev pub Combo : Type 0
Combo = List (String × String)

-- The two inner loops: every combination with every value of one dimension.
pub extend : String → List String → List Combo → List Combo
extend name values [] = []
extend name values (combo ∷ combos) =
    map (λ v. insert combo name v) values ++ extend name values combos

pub product_from : List Dimension → List Combo → List Combo
unfolding extend
product_from [] combos = combos
product_from (d ∷ dims) combos = product_from dims (extend d.name d.values combos)

unfoldable pub combinations : Matrix → Result (List Combo)
unfolding count_total product_from
combinations m =
    if is_empty m.dimensions
    then ok []
    else guard (count_total m.dimensions 1) (ok (product_from m.dimensions ([] ∷ [])))
