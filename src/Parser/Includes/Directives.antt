-- ===== src/Parser/Includes/Directives.antt =====
-- pkg/parser/include.go: include and param nodes, and the key of the cache.
use cicada.Base.{
  trim_space, ℕ, ◌+◌, ◌-◌, ◌/◌, ◌%◌, String, str, List, [], ◌∷◌, ◌++◌, Option, none, some, Bool,
  if◌then◌else◌, not, ◌&&◌, ◌||◌, ◌==◌, is_empty, ltb, leb, contains, lookup, map, string_eq,
  nat_eq,
}
use cicada.Model.{
  ParamDef, ConflictStrategy, conflict_error, conflict_skip, Error, Result, ok, err, ◌>>=◌,
  unknown_prop, duplicate_field, duplicate_param, invalid_conflict,
}
use cicada.Params.{Vars}
use cicada.Expand.Naming.{sort_pairs}
use cicada.Parser.Outside.{Outside}
use cicada.Parser.Helpers.{refuse, each, prop, string_prop, require_string_arg}
use cicada.Parser.Elements.{only_props, has_prop}

pub record IncludeDirective : Type 0 where
  pub source : String
  pub alias : String
  pub on_conflict : ConflictStrategy
  pub params : Vars

-- strings.ToLower, for ASCII text
abbrev pub lower : ℕ → ℕ
lower c = if leb b'A' c && leb c b'Z' then c + 32 else c

unfoldable pub parse_conflict_strategy : String → Result ConflictStrategy
parse_conflict_strategy s =
    let t = map lower (trim_space s) in
    if is_empty t || t == str "error"
    then ok conflict_error
    else if t == str "skip"
    then ok conflict_skip
    else err invalid_conflict

-- url.QueryEscape and the rest of url.Values.Encode, over bytes
abbrev pub hex : ℕ → ℕ
hex n = if ltb n 10 then b'0' + n else b'A' + (n - 10)

abbrev pub is_plain : ℕ → Bool
is_plain c =
    leb b'a' c && leb c b'z'
    || leb b'A' c && leb c b'Z'
    || leb b'0' c && leb c b'9'
    || c == b'-'
    || c == b'_'
    || c == b'.'
    || c == b'~'

abbrev pub escape_byte : ℕ → String
escape_byte c =
    if is_plain c
    then c ∷ []
    else if c == b' '
    then b'+' ∷ []
    else b'%' ∷ hex (c / 16) ∷ hex (c % 16) ∷ []

abbrev pub query_escape : String → String
query_escape [] = []
query_escape (c ∷ s) = escape_byte c ++ query_escape s

abbrev pub encode_pairs : Vars → String
encode_pairs [] = []
encode_pairs ((k, v) ∷ ps) =
    let rest = encode_pairs ps in
    query_escape k ++ b'=' ∷ (query_escape v ++ (if is_empty ps then [] else b'&' ∷ rest))

unfoldable pub cache_key : String → Vars → String
cache_key path params =
    if is_empty params then path else path ++ b'?' ∷ encode_pairs (sort_pairs params)

unfoldable pub check_duplicate_param : List ParamDef → String → Option Error
check_duplicate_param defs name =
    if contains (map (λ d. d.name) defs) name then some duplicate_param else none

module _ (o : Outside) where
  -- The parameters that an include passes, as child nodes.
  pub include_param : Vars → o.Node → Result Vars
  unfolding require_string_arg
  include_param params child = elim (lookup params (o.name child)) as (λ _. Result Vars) [
    | some _ ↦ refuse duplicate_field
    | none ↦ require_string_arg o child >>= λ v. ok (params ++ (o.name child, v) ∷ [])
  ]

  unfoldable pub parse_include_node : o.Node → Result IncludeDirective
  unfolding require_string_arg prop parse_conflict_strategy each include_param
  parse_include_node node = require_string_arg o node >>= λ source.
      string_prop o node (str "as") >>= λ alias.
      string_prop o node (str "on-conflict") >>= λ conflict_str.
      parse_conflict_strategy conflict_str >>= λ conflict.
      if not (only_props o (str "as" ∷ str "on-conflict" ∷ []) node)
      then refuse unknown_prop
      else each include_param [] (o.children node) >>= λ params.
          ok (record { source = source; alias = alias; on_conflict = conflict; params = params })

  unfoldable pub parse_param_node : o.Node → Result ParamDef
  unfolding require_string_arg prop
  parse_param_node node = require_string_arg o node >>= λ name.
      string_prop o node (str "default") >>= λ def.
      let given = has_prop o node (str "default") in
      ok (record { name = name; default = def; required = not given })
