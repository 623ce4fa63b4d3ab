-- ===== src/Expand/Matrices/Extend.antt =====
-- Properties of all combinations, or of some, carry over to those with one more dimension.
use cicada.Base.{
  ◌≡◌, refl, String, List, [], ◌∷◌, ◌++◌, Bool, true, ◌||◌, any, All, contains, insert, map,
  string_eq, arith,
}
use cicada.Expand.Matrices.{Combo, extend}

All-append {ℓ κ} :
    {A : Type ℓ} (P : A → Type κ) (xs ys : List A) → All P xs → All P ys → All P (xs ++ ys)
All-append P [] ys h h' = h'
All-append P (x ∷ xs) ys h h' = (h.0, All-append P xs ys h.1 h')

-- The combinations with the values of one more dimension.
module _ (P Q : Combo → Type 0) (name : String) where
  values-All :
      (c : Combo) (all_values values : List String)
      → ((v : String) → contains all_values v ≡ true → Q (insert c name v))
      → ((v : String) → contains values v ≡ true → contains all_values v ≡ true)
      → All Q (map (λ v. insert c name v) values)
  values-All c all_values [] q sub = tt
  values-All c all_values (v ∷ values) q sub = (
    q v (sub v (ground (arith, string_eq.eqb_iff v v))),
    values-All c all_values values q (λ w m. sub w (ground (arith, m))),
  )

  pub extend-All :
      (values : List String) (combos : List Combo)
      → ((c : Combo) (v : String) → P c → contains values v ≡ true → Q (insert c name v))
      → All P combos
      → All Q (extend name values combos)
  unfolding extend
  extend-All values [] q h = tt
  extend-All values (c ∷ combos) q h =
      All-append Q (map (λ v. insert c name v) values) (extend name values combos)
        (values-All c values values (λ v m. q c v h.0 m) (λ v m. m))
        (extend-All values combos q h.1)

-- Some combination extends to the wanted one.
module _ (P Q : Combo → Bool) (name wanted : String)
    (extends : (c : Combo) → P c ≡ true → Q (insert c name wanted) ≡ true) where
  values-any :
      (c : Combo) (values : List String)
      → P c ≡ true
      → contains values wanted ≡ true
      → any Q (map (λ v. insert c name v) values) ≡ true
  values-any c [] p m = cc
  values-any c (v ∷ values) p m =
      ground (arith, p, m, extends c, values-any c values, string_eq.eqb_iff wanted v)

  any-append : (xs ys : List Combo) → any Q (xs ++ ys) ≡ (any Q xs || any Q ys)
  any-append [] ys = refl
  any-append (x ∷ xs) ys = ground (arith, any-append xs ys)

  pub extend-any :
      (values : List String) (combos : List Combo)
      → contains values wanted ≡ true
      → any P combos ≡ true
      → any Q (extend name values combos) ≡ true
  unfolding extend
  extend-any values [] m h = cc
  extend-any values (c ∷ combos) m h = ground (
    arith,
    h,
    values-any c values,
    extend-any values combos m,
    any-append (map (λ v. insert c name v) values) (extend name values combos),
  )
