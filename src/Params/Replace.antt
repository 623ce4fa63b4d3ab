-- ===== src/Params/Replace.antt =====
-- `substituteVars` replaces a placeholder by its value, and does not read the value again.
use cicada.Base.{
  ◌≡◌, refl, sym, ◌∙◌, ap, ℕ, zero, ◌-◌, String, str, [], ◌∷◌, ◌++◌, none, some, Bool, true, false,
  not, contains, has_prefix, length, lookup, map, all, string_eq, nat_eq, arith, ◌==◌,
}
use mathlib.Core.List.{append_assoc}
use cicada.Params.{Vars, find_pair, replace, placeholder, substitute_vars}

-- No closing brace, as in every name that validation accepts.
abbrev pub is_closed : String → Bool
is_closed k = not (contains k b'}')

has_prefix-append : (p s t : String) → has_prefix (p ++ s) (p ++ t) ≡ has_prefix s t
has_prefix-append [] s t = refl
has_prefix-append (c ∷ p) s t = ground (arith, has_prefix-append p s t)

has_prefix-brace :
    (k j rest : String)
    → is_closed k ≡ true
    → is_closed j ≡ true
    → has_prefix (k ++ (b'}' ∷ rest)) (j ++ (b'}' ∷ [])) ≡ (k == j)
has_prefix-brace [] [] rest h h' = refl
has_prefix-brace [] (d ∷ j) rest h h' = ground (arith, h')
has_prefix-brace (c ∷ k) [] rest h h' = ground (arith, h)
has_prefix-brace (c ∷ k) (d ∷ j) rest h h' = ground (arith, h, h', has_prefix-brace k j rest)

replace-skip :
    (pairs : Vars) (key s : String) (n : ℕ)
    → n ≡ length key
    → replace pairs n (key ++ s) ≡ replace pairs zero s
unfolding replace
replace-skip pairs [] s n h = rw h
replace-skip pairs (c ∷ key) s n h = rw h (replace-skip pairs key s (length key) refl)

replace-pair :
    (pairs : Vars) (c : ℕ) (s key value : String)
    → find_pair pairs (c ∷ s) ≡ some (key, value)
    → replace pairs zero (c ∷ s) ≡ value ++ replace pairs (length key - 1) s
unfolding replace
replace-pair pairs c s key value h = ground (arith, h)

module _ (prefix : String) where
  abbrev pairs_of : Vars → Vars
  pairs_of combo = map (λ (k, v). (placeholder prefix k, v)) combo

  -- A placeholder whose name and the rest of the text follow.
  abbrev opened : String → String
  opened s = str "${" ++ (prefix ++ s)

  has_prefix-placeholder :
      (k j rest : String)
      → is_closed k ≡ true
      → is_closed j ≡ true
      → has_prefix (opened (k ++ (b'}' ∷ rest))) (placeholder prefix j) ≡ (k == j)
  has_prefix-placeholder k j rest h h' =
      has_prefix-append prefix (k ++ (b'}' ∷ rest)) (j ++ (b'}' ∷ []))
      ∙ has_prefix-brace k j rest h h'

  find_pair_lem :
      (combo : Vars) (k value rest : String)
      → all (λ (j, _). is_closed j) combo ≡ true
      → is_closed k ≡ true
      → lookup combo k ≡ some value
      → find_pair (pairs_of combo) (opened (k ++ (b'}' ∷ rest)))
        ≡ some (placeholder prefix k, value)
  find_pair_lem [] k value rest h h' l = cc
  find_pair_lem ((j, w) ∷ combo) k value rest h h' l = ground (
    arith,
    h,
    l,
    string_eq.eqb_iff k j,
    has_prefix-placeholder k j rest h',
    find_pair_lem combo k value rest,
  )

  find_pair-other :
      (combo : Vars) (c : ℕ) (s : String)
      → (c == b'$') ≡ false
      → find_pair (pairs_of combo) (c ∷ s) ≡ none
  find_pair-other [] c s h = refl
  find_pair-other ((j, w) ∷ combo) c s h = ground (arith, h, find_pair-other combo c s)

  replace-plain :
      (combo : Vars) (pre s : String)
      → contains pre b'$' ≡ false
      → replace (pairs_of combo) zero (pre ++ s) ≡ pre ++ replace (pairs_of combo) zero s
  unfolding replace
  replace-plain combo [] s h = refl
  replace-plain combo (c ∷ pre) s h = ground (
    arith,
    h,
    find_pair-other combo c (pre ++ s),
    nat_eq.eqb_iff c b'$',
    nat_eq.eqb_iff b'$' c,
    replace-plain combo pre s,
  )

  replace-placeholder :
      (combo : Vars) (k value rest : String)
      → all (λ (j, _). is_closed j) combo ≡ true
      → is_closed k ≡ true
      → lookup combo k ≡ some value
      → replace (pairs_of combo) zero (opened (k ++ (b'}' ∷ rest)))
        ≡ value ++ replace (pairs_of combo) zero rest
  replace-placeholder combo k value rest h h' l =
      let inner = prefix ++ (k ++ str "}") in
      let found = find_pair_lem combo k value rest h h' l in
      replace-pair (pairs_of combo) b'$' (b'{' ∷ (prefix ++ (k ++ (b'}' ∷ rest))))
        (placeholder prefix k) value found
      ∙ ap (λ t. value ++ replace (pairs_of combo) (length (placeholder prefix k) - 1) (b'{' ∷ t))
          (sym (
            append_assoc prefix (k ++ str "}") rest
            ∙ ap (λ t. prefix ++ t) (append_assoc k (str "}") rest)))
      ∙ ap (λ t. value ++ t)
          (replace-skip (pairs_of combo) (b'{' ∷ inner) rest (length (placeholder prefix k) - 1)
            (omega arith))

-- Text without a dollar sign is copied, and the placeholder of a key that has a value becomes that
-- value; only the text behind it is read on, so that a placeholder inside the value stays. No key has a
-- closing brace.
pub substitute_vars_once :
    (combo : Vars) (prefix pre k value rest : String)
    → all (λ (j, _). is_closed j) combo ≡ true
    → is_closed k ≡ true
    → lookup combo k ≡ some value
    → contains pre b'$' ≡ false
    → substitute_vars (pre ++ (placeholder prefix k ++ rest)) combo prefix
      ≡ pre ++ (value ++ substitute_vars rest combo prefix)
unfolding substitute_vars
substitute_vars_once [] prefix pre k value rest h h' l d = cc
substitute_vars_once (x ∷ combo) prefix pre k value rest h h' l d =
    replace-plain prefix (x ∷ combo) pre (placeholder prefix k ++ rest) d
    ∙ ap (λ t. pre ++ t)
        (ap (λ t. replace (pairs_of prefix (x ∷ combo)) zero (str "${" ++ t))
            (append_assoc prefix (k ++ str "}") rest
              ∙ ap (λ t. prefix ++ t) (append_assoc k (str "}") rest))
          ∙ replace-placeholder prefix (x ∷ combo) k value rest h h' l)
