-- ===== src/Base/Lists.antt =====
-- Lists under native indices, sets and maps as lists.
use Prim.Native.Nat.{ℕ, zero, suc, ◌+◌, ◌≤◌, ◌<◌}
use mathlib.Core.Path.{◌≡◌, refl, ap}
use mathlib.Core.Logic.{◌⊎◌, inl, inr}
use mathlib.Core.Bool.{Bool, true, false, not, ◌&&◌, ◌||◌}
use mathlib.Core.Option.{Option, none, some}
use mathlib.Core.List.{List, [], ◌∷◌, ◌++◌, map}
use native.Mathlib.Omega.{arith}
use cicada.Base.Tests.{EqTest, ◌==◌, nat_eq, if◌then◌else◌, eqb_refl}

module _ {ℓ} {A : Type ℓ} where
  abbrev pub length : List A → ℕ
  length [] = 0
  length (_ ∷ xs) = suc (length xs)

  abbrev pub get_elem? : List A → ℕ → Option A
  get_elem? [] i = none
  get_elem? (x ∷ xs) zero = some x
  get_elem? (x ∷ xs) (suc i) = get_elem? xs i

  abbrev pub get_or : List A → ℕ → A → A
  get_or [] i d = d
  get_or (x ∷ xs) zero d = x
  get_or (x ∷ xs) (suc i) d = get_or xs i d

  abbrev pub set : List A → ℕ → A → List A
  set [] i v = []
  set (x ∷ xs) zero v = v ∷ xs
  set (x ∷ xs) (suc i) v = x ∷ set xs i v

  -- The elements that pass a test.
  abbrev pub keep : (A → Bool) → List A → List A
  keep p [] = []
  keep p (x ∷ xs) = let rest = keep p xs in if p x then x ∷ rest else rest

  abbrev pub any : (A → Bool) → List A → Bool
  any p [] = false
  any p (x ∷ xs) = p x || any p xs

  abbrev pub all : (A → Bool) → List A → Bool
  all p [] = true
  all p (x ∷ xs) = p x && all p xs

  -- A property of every element.
  abbrev pub All {κ} : (A → Type κ) → List A → Type κ
  All P [] = Unit
  All P (x ∷ xs) = P x × All P xs

  abbrev pub replicate : ℕ → A → List A
  replicate zero a = []
  replicate (suc n) a = a ∷ replicate n a

  pub all-append : (p : A → Bool) (xs ys : List A) → all p (xs ++ ys) ≡ (all p xs && all p ys)
  all-append p [] ys = refl
  all-append p (x ∷ xs) ys = ground (arith, all-append p xs ys)

  pub all-keep : (p q : A → Bool) (xs : List A) → all p xs ≡ true → all p (keep q xs) ≡ true
  all-keep p q [] h = h
  all-keep p q (x ∷ xs) h = ground (arith, h, all-keep p q xs)

  pub length-append : (xs ys : List A) → length (xs ++ ys) ≡ length xs + length ys
  length-append [] ys = omega arith
  length-append (x ∷ xs) ys = omega (arith, length-append xs ys)

  pub length-set : (xs : List A) (i : ℕ) (v : A) → length (set xs i v) ≡ length xs
  length-set [] i v = refl
  length-set (x ∷ xs) zero v = refl
  length-set (x ∷ xs) (suc i) v = ap suc (length-set xs i v)

  pub length-replicate : (n : ℕ) (a : A) → length (replicate n a) ≡ n
  length-replicate zero a = refl
  length-replicate (suc n) a = ap suc (length-replicate n a)

  pub get_elem?-lt : (xs : List A) (i : ℕ) {x : A} → get_elem? xs i ≡ some x → i < length xs
  get_elem?-lt [] i h = cc
  get_elem?-lt (y ∷ xs) zero h = omega arith
  get_elem?-lt (y ∷ xs) (suc i) h = omega (arith, get_elem?-lt xs i h)

  pub get_or_beyond : (xs : List A) (i : ℕ) (d : A) → length xs ≤ i → get_or xs i d ≡ d
  get_or_beyond [] i d h = refl
  get_or_beyond (x ∷ xs) zero d h = absurd (omega arith)
  get_or_beyond (x ∷ xs) (suc i) d h = get_or_beyond xs i d (omega arith)

  pub get_or-set :
      (xs : List A) (i j : ℕ) (v d : A)
      → i < length xs
      → get_or (set xs i v) j d ≡ (if i == j then v else get_or xs j d)
  get_or-set [] i j v d h = absurd (omega arith)
  get_or-set (x ∷ xs) zero zero v d h = refl
  get_or-set (x ∷ xs) zero (suc j) v d h = ground arith
  get_or-set (x ∷ xs) (suc i) zero v d h = ground arith
  get_or-set (x ∷ xs) (suc i) (suc j) v d h = ground (arith, get_or-set xs i j v d)

  pub List-cases : (xs : List A) → (xs ≡ []) ⊎ ((x : A) × (rest : List A) × (xs ≡ x ∷ rest))
  List-cases [] = inl refl
  List-cases (x ∷ xs) = inr (x, xs, refl)

pub length-map {ℓ κ} :
    {A : Type ℓ} {B : Type κ} (f : A → B) (xs : List A) → length (map f xs) ≡ length xs
length-map f [] = refl
length-map f (x ∷ xs) = ap suc (length-map f xs)

-- A set (`map[K]struct{}`) is the list of its keys.
module _ {ℓ} {A : Type ℓ} ⦃e : EqTest A⦄ where
  abbrev pub contains : List A → A → Bool
  contains [] a = false
  contains (x ∷ xs) a = a == x || contains xs a

  abbrev pub distinct : List A → Bool
  distinct [] = true
  distinct (x ∷ xs) = not (contains xs x) && distinct xs

  -- No element of the second list is in the first.
  abbrev pub disjoint : List A → List A → Bool
  disjoint seen [] = true
  disjoint seen (x ∷ xs) = not (contains seen x) && disjoint seen xs

  -- The position of the first occurrence, the length if there is none.
  abbrev pub position : List A → A → ℕ
  position [] a = 0
  position (x ∷ xs) a = let rest = position xs a in if a == x then 0 else suc rest

  pub contains-cons_self : (a : A) (xs : List A) → contains (a ∷ xs) a ≡ true
  contains-cons_self a xs = rw (eqb_refl a)

  pub contains-cons_of : (a x : A) (xs : List A) → contains xs a ≡ true → contains (x ∷ xs) a ≡ true
  contains-cons_of a x xs h = ground (arith, h)

  pub contains-append :
      (xs ys : List A) (a : A) → contains (xs ++ ys) a ≡ (contains xs a || contains ys a)
  contains-append [] ys a = refl
  contains-append (x ∷ xs) ys a = ground (arith, contains-append xs ys a)

  pub contains-keep :
      (p : A → Bool) (xs : List A) (a : A) → contains (keep p xs) a ≡ (p a && contains xs a)
  contains-keep p [] a = ground arith
  contains-keep p (x ∷ xs) a = ground (arith, contains-keep p xs a, e.eqb_iff a x)

  pub disjoint-cons :
      (a : A) (seen xs : List A)
      → disjoint (a ∷ seen) xs ≡ (not (contains xs a) && disjoint seen xs)
  disjoint-cons a seen [] = refl
  disjoint-cons a seen (x ∷ xs) =
      ground (arith, disjoint-cons a seen xs, e.eqb_iff a x, e.eqb_iff x a)

  pub disjoint-nil : (xs : List A) → disjoint [] xs ≡ true
  disjoint-nil [] = refl
  disjoint-nil (x ∷ xs) = disjoint-nil xs

  pub disjoint_of :
      (seen xs : List A)
      → ((a : A) → contains xs a ≡ true → contains seen a ≡ false)
      → disjoint seen xs ≡ true
  disjoint_of seen [] h = refl
  disjoint_of seen (x ∷ xs) h = ground (
    arith,
    h x (contains-cons_self x xs),
    disjoint_of seen xs (λ a m. h a (contains-cons_of a x xs m)),
  )

  pub disjoint-congr :
      (seen seen' xs : List A)
      → ((a : A) → contains seen a ≡ contains seen' a)
      → disjoint seen xs ≡ disjoint seen' xs
  disjoint-congr seen seen' [] h = refl
  disjoint-congr seen seen' (x ∷ xs) h = ground (arith, h x, disjoint-congr seen seen' xs h)

  pub distinct-append :
      (xs ys : List A) → distinct (xs ++ ys) ≡ (distinct xs && distinct ys && disjoint xs ys)
  distinct-append [] ys = ground (arith, disjoint-nil ys)
  distinct-append (x ∷ xs) ys =
      ground (arith, distinct-append xs ys, contains-append xs ys x, disjoint-cons x xs ys)

  pub distinct-concat :
      (xs : List A) (a : A)
      → distinct xs ≡ true
      → contains xs a ≡ false
      → distinct (xs ++ a ∷ []) ≡ true
  distinct-concat [] a d h = refl
  distinct-concat (x ∷ xs) a d h =
      ground
        (arith, distinct-concat xs a, contains-append xs (a ∷ []) x, e.eqb_iff a x, e.eqb_iff x a)

  pub position-append :
      (xs ys : List A) (a : A) → contains xs a ≡ true → position (xs ++ ys) a ≡ position xs a
  position-append [] ys a h = absurd (ground arith)
  position-append (x ∷ xs) ys a h = ground (arith, position-append xs ys a)

  pub position-concat :
      (xs : List A) (a : A) → contains xs a ≡ false → position (xs ++ a ∷ []) a ≡ length xs
  position-concat [] a h = rw (eqb_refl a)
  position-concat (x ∷ xs) a h = ground (arith, position-concat xs a)

  pub position-lt : (xs : List A) (a : A) → contains xs a ≡ true → position xs a < length xs
  position-lt [] a h = absurd (ground arith)
  position-lt (x ∷ xs) a h = ground (arith, position-lt xs a)

-- A map is an association list.
module _ {ℓ κ} {K : Type ℓ} {V : Type κ} ⦃e : EqTest K⦄ where
  abbrev pub lookup : List (K × V) → K → Option V
  lookup [] k = none
  lookup ((j, v) ∷ m) k = if k == j then some v else lookup m k

  abbrev pub insert : List (K × V) → K → V → List (K × V)
  insert [] k v = (k, v) ∷ []
  insert ((j, w) ∷ m) k v = let rest = insert m k v in if k == j then (k, v) ∷ m else (j, w) ∷ rest

  pub lookup-insert :
      (m : List (K × V)) (k j : K) (v : V)
      → lookup (insert m k v) j ≡ (if j == k then some v else lookup m j)
  lookup-insert [] k j v = refl
  lookup-insert ((i, w) ∷ m) k j v =
      ground (arith, lookup-insert m k j v, e.eqb_iff k i, e.eqb_iff j i, e.eqb_iff j k)
