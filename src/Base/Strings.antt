-- ===== src/Base/Strings.antt =====
-- Go strings as byte sequences, and the functions of package strings that the program calls.
use Prim.Native.Nat.{ℕ}
use Prim.Native.Char.{code}
use Prim.Native.String.{String as Literal}
use mathlib.Core.Bool.{Bool, true, false, ◌&&◌, ◌||◌}
use mathlib.Core.List.{List, [], ◌∷◌}
use cicada.Base.Tests.{nat_eqb}

abbrev pub String : Type 0
String = List ℕ

-- The bytes of an ASCII literal.
abbrev pub str : Literal → String
str Literal.[] = []
str (Literal.◌∷◌ c s) = code c ∷ str s

-- `s == ""`
abbrev pub is_empty {ℓ} : {A : Type ℓ} → List A → Bool
is_empty [] = true
is_empty (_ ∷ _) = false

-- strings.HasPrefix
abbrev pub has_prefix : String → String → Bool
has_prefix s [] = true
has_prefix [] (p ∷ ps) = false
has_prefix (c ∷ s) (p ∷ ps) = nat_eqb c p && has_prefix s ps

-- The ASCII part of unicode.IsSpace.
abbrev pub is_space : ℕ → Bool
is_space c =
    nat_eqb c b' ' || nat_eqb c 9 || nat_eqb c 10 || nat_eqb c 11 || nat_eqb c 12 || nat_eqb c 13

-- `strings.TrimRight(s, "/") == ""`
abbrev pub all_slashes : String → Bool
all_slashes [] = true
all_slashes (c ∷ s) = nat_eqb c b'/' && all_slashes s
