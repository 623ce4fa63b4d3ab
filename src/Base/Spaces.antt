-- ===== src/Base/Spaces.antt =====
-- strings.TrimSpace, over the UTF-8 bytes of the characters that unicode.IsSpace knows.
use Prim.Native.Nat.{ℕ, zero, suc}
use mathlib.Core.Bool.{Bool}
use mathlib.Core.List.{List, [], ◌∷◌}
use cicada.Base.Tests.{if◌then◌else◌}
use cicada.Base.Lists.{any}
use cicada.Base.Strings.{String, has_prefix, is_empty, is_space}

-- U+0085 and U+00A0
abbrev two_bytes : List String
two_bytes = (0xc2 ∷ 0x85 ∷ []) ∷ (0xc2 ∷ 0xa0 ∷ []) ∷ []

-- U+1680, U+2000 to U+200A, U+2028, U+2029, U+202F, U+205F and U+3000
abbrev three_bytes : List String
three_bytes =
    (0xe1 ∷ 0x9a ∷ 0x80 ∷ [])
    ∷ (0xe2 ∷ 0x80 ∷ 0x80 ∷ [])
    ∷ (0xe2 ∷ 0x80 ∷ 0x81 ∷ [])
    ∷ (0xe2 ∷ 0x80 ∷ 0x82 ∷ [])
    ∷ (0xe2 ∷ 0x80 ∷ 0x83 ∷ [])
    ∷ (0xe2 ∷ 0x80 ∷ 0x84 ∷ [])
    ∷ (0xe2 ∷ 0x80 ∷ 0x85 ∷ [])
    ∷ (0xe2 ∷ 0x80 ∷ 0x86 ∷ [])
    ∷ (0xe2 ∷ 0x80 ∷ 0x87 ∷ [])
    ∷ (0xe2 ∷ 0x80 ∷ 0x88 ∷ [])
    ∷ (0xe2 ∷ 0x80 ∷ 0x89 ∷ [])
    ∷ (0xe2 ∷ 0x80 ∷ 0x8a ∷ [])
    ∷ (0xe2 ∷ 0x80 ∷ 0xa8 ∷ [])
    ∷ (0xe2 ∷ 0x80 ∷ 0xa9 ∷ [])
    ∷ (0xe2 ∷ 0x80 ∷ 0xaf ∷ [])
    ∷ (0xe2 ∷ 0x81 ∷ 0x9f ∷ [])
    ∷ (0xe3 ∷ 0x80 ∷ 0x80 ∷ [])
    ∷ []

-- The bytes of the space that a text starts with, 0 if it starts with none.
abbrev space_width : String → ℕ
space_width [] = 0
space_width (c ∷ s) =
    if is_space c
    then 1
    else if any (has_prefix (c ∷ s)) two_bytes
    then 2
    else if any (has_prefix (c ∷ s)) three_bytes
    then 3
    else 0

-- The text from its first character on that is no space; `skipped` bytes of a space are still to be passed.
abbrev trim_left_after : (skipped : ℕ) → String → String
trim_left_after k [] = []
trim_left_after (suc k) (c ∷ s) = trim_left_after k s
trim_left_after zero (c ∷ s) = elim (space_width (c ∷ s)) as (λ _. String) [
  | zero ↦ c ∷ s
  | suc k ↦ trim_left_after k s
]

-- `strings.TrimSpace(s) == ""`
abbrev pub is_blank : String → Bool
is_blank s = is_empty (trim_left_after 0 s)

-- From the first position on where only spaces follow, a text is dropped.
abbrev trim_right : String → String
trim_right [] = []
trim_right (c ∷ s) = let rest = trim_right s in if is_blank (c ∷ s) then [] else c ∷ rest

-- strings.TrimSpace
abbrev pub trim_space : String → String
trim_space s = trim_right (trim_left_after 0 s)
