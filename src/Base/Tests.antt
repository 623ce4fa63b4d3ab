-- ===== src/Base/Tests.antt =====
-- Boolean tests, the conditional, and equality as an interface.
use Prim.Native.Nat.{ℕ, ◌<◌, compare, Ordering}
use mathlib.Core.Path.{◌≡◌, refl}
use mathlib.Core.Logic.{◌↔◌, ◌⊎◌, inl, inr}
use mathlib.Core.Bool.{Bool, true, false, ◌&&◌}
use mathlib.Core.Option.{Option, none, some}
use mathlib.Core.List.{List, [], ◌∷◌}
use native.Mathlib.Omega.{arith}

abbrev pub ltb : ℕ → ℕ → Bool
ltb a b = elim (compare a b) [ Ordering.lt ↦ true | _ ↦ false ]

abbrev pub leb : ℕ → ℕ → Bool
leb a b = elim (compare a b) [ Ordering.gt ↦ false | _ ↦ true ]

abbrev pub nat_eqb : ℕ → ℕ → Bool
nat_eqb a b = elim (compare a b) [ Ordering.eq ↦ true | _ ↦ false ]

infix 1 if◌then◌else◌
abbrev pub if◌then◌else◌ {ℓ} : {A : Type ℓ} → Bool → A → A → A
if true then x else y = x
if false then x else y = y

pub lt→ltb : (a b : ℕ) → a < b → ltb a b ≡ true
lt→ltb a b h = ground arith

pub ltb→lt : (a b : ℕ) → ltb a b ≡ true → a < b
ltb→lt a b h = ground arith

pub Bool-cases : (b : Bool) → (b ≡ true) ⊎ (b ≡ false)
Bool-cases true = inl refl
Bool-cases false = inr refl

pub Option-cases {ℓ} : {A : Type ℓ} (o : Option A) → (o ≡ none) ⊎ ((a : A) × (o ≡ some a))
Option-cases none = inl refl
Option-cases (some a) = inr (a, refl)

-- A type whose values Go compares by `==`.
pub record EqTest {ℓ} (A : Type ℓ) : Type ℓ where
  pub eqb : (left right : A) → Bool
  pub eqb_iff : (left right : A) → (eqb left right ≡ true) ↔ (left ≡ right)

infix 50 ◌==◌
abbrev pub ◌==◌ {ℓ} : {A : Type ℓ} ⦃test : EqTest A⦄ → A → A → Bool
◌==◌ ⦃test⦄ left right = test.eqb left right

pub nat_eqb_iff : (a b : ℕ) → (nat_eqb a b ≡ true) ↔ (a ≡ b)
nat_eqb_iff a b = ground arith

instance abbrev pub nat_eq : EqTest ℕ
nat_eq = record { eqb = nat_eqb; eqb_iff = nat_eqb_iff }

-- A Go string is its bytes.
abbrev pub str_eqb : List ℕ → List ℕ → Bool
str_eqb [] [] = true
str_eqb (a ∷ x) (b ∷ y) = nat_eqb a b && str_eqb x y
str_eqb _ _ = false

pub str_eqb_iff : (x y : List ℕ) → (str_eqb x y ≡ true) ↔ (x ≡ y)
str_eqb_iff [] [] = ground arith
str_eqb_iff [] (b ∷ y) = ground arith
str_eqb_iff (a ∷ x) [] = ground arith
str_eqb_iff (a ∷ x) (b ∷ y) = ground (arith, str_eqb_iff x y)

instance abbrev pub string_eq : EqTest (List ℕ)
string_eq = record { eqb = str_eqb; eqb_iff = str_eqb_iff }

pub eqb_refl {ℓ} : {A : Type ℓ} ⦃e : EqTest A⦄ (a : A) → (a == a) ≡ true
eqb_refl ⦃e⦄ a = (e.eqb_iff a a).1 refl

pub eqb-cases {ℓ} : {A : Type ℓ} ⦃e : EqTest A⦄ (a b : A) → (a ≡ b) ⊎ ((a == b) ≡ false)
eqb-cases ⦃e⦄ a b = ground (arith, e.eqb_iff a b)
