-- ===== src/Builder/Orders.antt =====
-- `validOrder` accepts the order of a validated pipeline.
use cicada.Base.{
  ℕ, zero, suc, ◌≡◌, refl, sym, ◌∙◌, ap, List, [], ◌∷◌, Bool, true, false, not, ◌==◌, contains,
  contains-keep, distinct, length, keep, ltb, lt→ltb, nat_eq, arith, Bool-cases, inl, inr, eqb_refl,
}
use cicada.Builder.Jobs.{check_order, valid_order}

keep_all : (xs : List ℕ) (x : ℕ) → contains xs x ≡ false → keep (λ y. not (y == x)) xs ≡ xs
keep_all [] x h = refl
keep_all (y ∷ xs) x h = ground (arith, h, keep_all xs x, nat_eq.eqb_iff x y, nat_eq.eqb_iff y x)

length-keep_others :
    (xs : List ℕ) (x : ℕ)
    → distinct xs ≡ true
    → contains xs x ≡ true
    → length xs ≡ suc (length (keep (λ y. not (y == x)) xs))
length-keep_others [] x d m = cc
length-keep_others (y ∷ xs) x d m = elim (Bool-cases (y == x)) [
  | inl this ↦
      let same : y ≡ x = (nat_eq.eqb_iff y x).0 this in
      let absent : contains xs x ≡ false = ap (contains xs) (sym same) ∙ ground (arith, d) in
      rw this (ap (λ l. suc (length l)) (sym (keep_all xs x absent)))
  | inr other ↦
      let later : contains xs x ≡ true =
        ground (arith, m, other, nat_eq.eqb_iff x y, nat_eq.eqb_iff y x) in
      rw other (ap suc (length-keep_others xs x (ground (arith, d)) later))
]

distinct-keep : (p : ℕ → Bool) (xs : List ℕ) → distinct xs ≡ true → distinct (keep p xs) ≡ true
distinct-keep p [] d = refl
distinct-keep p (x ∷ xs) d = ground (arith, d, distinct-keep p xs, contains-keep p xs x)

-- A list of exactly the numbers below `n`, each once, has `n` elements.
length_complete :
    (n : ℕ) (xs : List ℕ) → distinct xs ≡ true → ((i : ℕ) → contains xs i ≡ ltb i n) → length xs ≡ n
length_complete zero [] d all = refl
length_complete zero (x ∷ xs) d all = absurd (
    let none_there : contains (x ∷ xs) x ≡ ltb x 0 = all x in
    ground (arith, none_there, eqb_refl x))
length_complete (suc n) xs d all =
    let there : contains xs n ≡ true = all n ∙ lt→ltb n (suc n) (omega arith) in
    let rest : (i : ℕ) → contains (keep (λ y. not (y == n)) xs) i ≡ ltb i n =
      λ i. contains-keep (λ y. not (y == n)) xs i ∙ ground (arith, all i) in
    length-keep_others xs n d there
    ∙ ap suc (length_complete n (keep (λ y. not (y == n)) xs) (distinct-keep _ xs d) rest)

check_order-ok :
    (n : ℕ) (seen xs : List ℕ)
    → distinct xs ≡ true
    → ((i : ℕ) → contains xs i ≡ true → (ltb i n ≡ true) × (contains seen i ≡ false))
    → check_order n seen xs ≡ true
unfolding check_order
check_order-ok n seen [] d h = refl
check_order-ok n seen (x ∷ xs) d h =
    let (low, fresh) = h x (ground (arith, eqb_refl x)) in
    let rest = check_order-ok n (x ∷ seen) xs (ground (arith, d)) (λ i m.
      let (low', fresh') = h i (ground (arith, m)) in
      (
        low',
        elim (Bool-cases (i == x)) [
          | inl this ↦
              let twice : contains xs x ≡ true =
                ap (contains xs) (sym ((nat_eq.eqb_iff i x).0 this)) ∙ m in
              absurd (ground (arith, twice, d))
          | inr other ↦ ground (arith, other, fresh')
        ],
      )) in
    ground (arith, low, fresh, rest)

pub valid_order_complete :
    (n : ℕ) (order : List ℕ)
    → distinct order ≡ true
    → ((i : ℕ) → contains order i ≡ ltb i n)
    → valid_order order n ≡ true
unfolding valid_order
valid_order_complete n order d all =
    let size = length_complete n order d all in
    ground (
      arith,
      nat_eq.eqb_iff (length order) n,
      size,
      check_order-ok n [] order d (λ i m. (sym (all i) ∙ m, refl)),
    )
