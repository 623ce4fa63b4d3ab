-- ===== src/Expand/Naming.antt =====
-- `expandedName` of pkg/pipeline/expand.go: a base name and its sorted `key=value` pairs in brackets.
use cicada.Base.{
  ℕ, String, List, [], ◌∷◌, ◌++◌, Option, none, some, Bool, true, false, if◌then◌else◌, ◌&&◌, ◌||◌,
  ltb, nat_eqb, insert, string_eq, nat_eq,
}

abbrev pub Pairs : Type 0
Pairs = List (String × String)

-- maps.Copy(dst, src)
abbrev pub copy_all : Pairs → Pairs → Pairs
copy_all dst [] = dst
copy_all dst ((k, v) ∷ src) = copy_all (insert dst k v) src

-- The text before the first byte `c` and behind it, if there is one.
abbrev pub cut : ℕ → String → Option (String × String)
cut c [] = none
cut c (d ∷ s) =
    let later = elim (cut c s) as (λ _. Option (String × String)) [
      | none ↦ none
      | some (pre, post) ↦ some (d ∷ pre, post)
    ] in
    if nat_eqb d c then some ([], s) else later

-- The text before the last byte `c`, if there is one.
abbrev pub before_last : ℕ → String → Option String
before_last c [] = none
before_last c (d ∷ s) = elim (before_last c s) as (λ _. Option String) [
  | some pre ↦ some (d ∷ pre)
  | none ↦ if nat_eqb d c then some [] else none
]

-- strings.Split at one byte: never an empty list.
abbrev pub first_part : ℕ → List String → List String
first_part d [] = (d ∷ []) ∷ []
first_part d (part ∷ parts) = (d ∷ part) ∷ parts

abbrev pub split : ℕ → String → List String
split c [] = [] ∷ []
split c (d ∷ s) = let rest = split c s in if nat_eqb d c then [] ∷ rest else first_part d rest

-- The loop over the parts of a suffix; a part without '=' is passed over.
abbrev pub parse_pairs : List String → Pairs → Pairs
parse_pairs [] existing = existing
parse_pairs (kv ∷ kvs) existing = elim (cut b'=' kv) as (λ _. Pairs) [
  | none ↦ parse_pairs kvs existing
  | some (k, v) ↦ parse_pairs kvs (insert existing k v)
]

-- The base name and the pairs of an existing bracket suffix.
abbrev pub parse_suffix : String → String × Pairs
parse_suffix base = elim (cut b'[' base) as (λ _. String × Pairs) [
  | none ↦ (base, [])
  | some (name, rest) ↦ elim (before_last b']' rest) as (λ _. String × Pairs) [
    | none ↦ (base, [])
    | some suffix ↦ (name, parse_pairs (split b',' suffix) [])
  ]
]

-- Go's order of strings.
abbrev pub before : String → String → Bool
before s [] = false
before [] (d ∷ t) = true
before (c ∷ s) (d ∷ t) = ltb c d || nat_eqb c d && before s t

abbrev pub insert_sorted : String × String → Pairs → Pairs
insert_sorted p [] = p ∷ []
insert_sorted p (q ∷ qs) =
    let rest = insert_sorted p qs in if before q.0 p.0 then q ∷ rest else p ∷ q ∷ qs

-- The pairs in the order of their keys.
abbrev pub sort_pairs : Pairs → Pairs
sort_pairs [] = []
sort_pairs (p ∷ ps) = insert_sorted p (sort_pairs ps)

abbrev pub pair_text : String × String → String
pair_text p = p.0 ++ (b'=' ∷ p.1)

abbrev pub pairs_text : Pairs → String
pairs_text [] = []
pairs_text (p ∷ []) = pair_text p
pairs_text (p ∷ q ∷ ps) = pair_text p ++ (b',' ∷ pairs_text (q ∷ ps))

unfoldable pub expanded_name : String → Pairs → String
expanded_name base combo =
    let parsed = parse_suffix base in
    parsed.0 ++ (b'[' ∷ (pairs_text (sort_pairs (copy_all parsed.1 combo)) ++ (b']' ∷ [])))
