-- ===== src/Visualize/Grouping.antt =====
-- How the positions are put into their layers.
use cicada.Base.{
  distinct, distinct-concat, ◌⊎◌, ℕ, suc, ◌+◌, ◌-◌, ◌<◌, ◌≡◌, refl, sym, ◌∙◌, ap, List, [], ◌∷◌,
  ◌++◌, Bool, true, false, if◌then◌else◌, ◌&&◌, ◌||◌, ◌==◌, all, contains, contains-append, length,
  get_or, get_or-set, length-set, set, ltb, leb, string_eq, nat_eq, arith, Bool-cases, inl, inr,
}
use cicada.Visualize.{max_of, group_from}

pub all_below : (ds : List ℕ) (m : ℕ) → max_of ds < m → all (λ d. ltb d m) ds ≡ true
all_below [] m h = refl
all_below (d ∷ ds) m h =
    let less : d < m = ground arith in
    let rest : max_of ds < m = ground arith in ground (arith, less, all_below ds m rest)

-- What a position gets into.
pub contains-group_from :
    (i : ℕ) (ds : List ℕ) (g : List (List ℕ)) (d j : ℕ)
    → all (λ x. ltb x (length g)) ds ≡ true
    → contains (get_or (group_from i ds g) d []) j ≡ (
        contains (get_or g d []) j
        || (leb i j && (ltb j (i + length ds) && (get_or ds (j - i) 0 == d))))
unfolding group_from
contains-group_from i [] g d j h = ground arith
contains-group_from i (x ∷ ds) g d j h =
    let lt : x < length g = ground (arith, h) in
    let g' = set g x (get_or g x [] ++ i ∷ []) in
    let size : length g' ≡ length g = length-set g x (get_or g x [] ++ i ∷ []) in
    let below : all (λ y. ltb y (length g')) ds ≡ true =
      ap (λ n. all (λ y. ltb y n) ds) size ∙ ground (arith, h) in
    let here : contains (get_or g' d []) j
        ≡ (contains (get_or g d []) j || ((x == d) && (j == i))) =
      ap (λ l. contains l j) (get_or-set g x d (get_or g x [] ++ i ∷ []) [] lt) ∙ added g x d i j in
    contains-group_from (suc i) ds g' d j below
    ∙ ap
        (λ b. b || (leb (suc i) j && (ltb j (suc i + length ds) && (get_or ds (j - suc i) 0 == d))))
        here
    ∙ positions i x ds d j (contains (get_or g d []) j)
  where
    added :
        (g : List (List ℕ)) (x d i j : ℕ)
        → contains (if x == d then get_or g x [] ++ i ∷ [] else get_or g d []) j
          ≡ (contains (get_or g d []) j || ((x == d) && (j == i)))
    added g x d i j = elim (Bool-cases (x == d)) [
      | inr other ↦ ground (arith, other)
      | inl this ↦
          let same : x ≡ d = (nat_eq.eqb_iff x d).0 this in
          rw this (
            contains-append (get_or g x []) (i ∷ []) j
            ∙ ap (λ t. contains (get_or g t []) j || contains (i ∷ []) j) same
            ∙ ground arith)
    ]

    positions :
        (i x : ℕ) (ds : List ℕ) (d j : ℕ) (b : Bool)
        → ((b || ((x == d) && (j == i)))
            || (leb (suc i) j && (ltb j (suc i + length ds) && (get_or ds (j - suc i) 0 == d))))
          ≡ (b || (leb i j && (ltb j (i + suc (length ds)) && (get_or (x ∷ ds) (j - i) 0 == d))))
    positions i x ds d j b = elim (Bool-cases (j == i)) [
      | inl this ↦
          let same : j ≡ i = (nat_eq.eqb_iff j i).0 this in
          let first : get_or (x ∷ ds) (j - i) 0 ≡ x =
            ap (λ t. get_or (x ∷ ds) t 0) (let none_left : j - i ≡ 0 = omega arith in none_left) in
          let past : leb (suc i) j ≡ false = ground (arith, same) in
          let from : leb i j ≡ true = ground (arith, same) in
          let to : ltb j (i + suc (length ds)) ≡ true = ground (arith, same) in
          rw (this, first, past, from, to) (ground arith)
      | inr other ↦ elim (Bool-cases (leb (suc i) j)) [
        | inl later ↦
            let next : get_or (x ∷ ds) (j - i) 0 ≡ get_or ds (j - suc i) 0 =
              ap (λ t. get_or (x ∷ ds) t 0)
                (let one_more : j - i ≡ suc (j - suc i) = ground (arith, later) in one_more) in
            let from : leb i j ≡ true = ground (arith, later) in
            let to : ltb j (i + suc (length ds)) ≡ ltb j (suc i + length ds) = ground arith in
            rw (other, next, from, to, later) (ground arith)
        | inr earlier ↦
            let before : leb i j ≡ false = ground (arith, earlier, other) in
            rw (other, before, earlier) (ground arith)
      ]
    ]

-- A position is put where it was not yet.
pub distinct-group_from :
    (i : ℕ) (ds : List ℕ) (g : List (List ℕ))
    → all (λ x. ltb x (length g)) ds ≡ true
    → ((d : ℕ) → distinct (get_or g d []) ≡ true)
    → ((d j : ℕ) → contains (get_or g d []) j ≡ true → j < i)
    → (d : ℕ) → distinct (get_or (group_from i ds g) d []) ≡ true
unfolding group_from
distinct-group_from i [] g h once earlier d = once d
distinct-group_from i (x ∷ ds) g h once earlier d =
    distinct-group_from (suc i) ds g'
      (ap (λ n. all (λ y. ltb y n) ds) (length-set g x (get_or g x [] ++ i ∷ []))
        ∙ ground (arith, h))
      (λ e. ap distinct (at e) ∙ still e (Bool-cases (x == e)))
      (λ e j m. later e j (sym (ap (λ l. contains l j) (at e)) ∙ m) (Bool-cases (x == e))) d
  where
    g' : List (List ℕ)
    g' = set g x (get_or g x [] ++ i ∷ [])

    at : (e : ℕ) → get_or g' e [] ≡ (if x == e then get_or g x [] ++ i ∷ [] else get_or g e [])
    at e = get_or-set g x e (get_or g x [] ++ i ∷ []) [] (ground (arith, h))

    fresh : contains (get_or g x []) i ≡ false
    fresh = elim (Bool-cases (contains (get_or g x []) i)) [
      | inl m ↦ absurd (omega (arith, earlier x i m))
      | inr free ↦ free
    ]

    still :
        (e : ℕ)
        → ((x == e) ≡ true) ⊎ ((x == e) ≡ false)
        → distinct (if x == e then get_or g x [] ++ i ∷ [] else get_or g e []) ≡ true
    still e (inl this) = rw this (distinct-concat (get_or g x []) i (once x) fresh)
    still e (inr other) = rw other (once e)

    later :
        (e j : ℕ)
        → contains (if x == e then get_or g x [] ++ i ∷ [] else get_or g e []) j ≡ true
        → ((x == e) ≡ true) ⊎ ((x == e) ≡ false)
        → j < suc i
    later e j m (inl this) =
        let found : (contains (get_or g x []) j || contains (i ∷ []) j) ≡ true =
          sym (contains-append (get_or g x []) (i ∷ []) j) ∙ (rw this at m) in
        elim (Bool-cases (contains (get_or g x []) j)) [
          | inl old ↦ omega (arith, earlier x j old)
          | inr new ↦ ground (arith, found, new)
        ]
    later e j m (inr other) = omega (arith, earlier e j (rw other at m))
