-- ===== src/Parser/Helpers.antt =====
-- pkg/parser/helpers.go and nodes.go: typed values of a node, and fields that are set once.
use cicada.Base.{
  ℕ, String, str, List, [], ◌∷◌, Option, none, some, Bool, false, if◌then◌else◌, ◌||◌, is_empty,
  length, get_elem?, lookup, ltb, ◌==◌, string_eq,
}
use cicada.Model.{
  Result, ok, err, ◌>>=◌, parser_error, ParserError, missing_field, duplicate_field, extra_args,
  type_mismatch,
}
use cicada.Parser.Outside.{Outside}

abbrev pub refuse {ℓ} : {A : Type ℓ} → ParserError → Result A
refuse e = err (parser_error e)

-- `for _, child := range nodes { if err := step(child); err != nil { return err } }`
unfoldable pub each {ℓ κ} : {S : Type ℓ} {N : Type κ} → (S → N → Result S) → S → List N → Result S
each step s [] = ok s
each step s (n ∷ nodes) = step s n >>= λ s'. each step s' nodes

-- The cases of a switch over the type of a node.
pub data NodeType : Type 0 where
  nt_job nt_step nt_defaults nt_matrix nt_mount nt_cache nt_image nt_run nt_workdir nt_depends_on :
      NodeType
  nt_platform nt_include nt_fragment nt_param nt_env nt_export nt_artifact nt_no_cache nt_publish :
      NodeType
  nt_when nt_retry nt_timeout nt_shell nt_secret nt_allow_failure nt_other : NodeType

abbrev pub node_types : List (String × NodeType)
node_types =
    (str "job", nt_job)
    ∷ (str "step", nt_step)
    ∷ (str "defaults", nt_defaults)
    ∷ (str "matrix", nt_matrix)
    ∷ (str "mount", nt_mount)
    ∷ (str "cache", nt_cache)
    ∷ (str "image", nt_image)
    ∷ (str "run", nt_run)
    ∷ (str "workdir", nt_workdir)
    ∷ (str "depends-on", nt_depends_on)
    ∷ (str "platform", nt_platform)
    ∷ (str "include", nt_include)
    ∷ (str "fragment", nt_fragment)
    ∷ (str "param", nt_param)
    ∷ (str "env", nt_env)
    ∷ (str "export", nt_export)
    ∷ (str "artifact", nt_artifact)
    ∷ (str "no-cache", nt_no_cache)
    ∷ (str "publish", nt_publish)
    ∷ (str "when", nt_when)
    ∷ (str "retry", nt_retry)
    ∷ (str "timeout", nt_timeout)
    ∷ (str "shell", nt_shell)
    ∷ (str "secret", nt_secret)
    ∷ (str "allow-failure", nt_allow_failure)
    ∷ []

unfoldable pub node_type : String → NodeType
node_type name = elim (lookup node_types name) [ none ↦ nt_other | some t ↦ t ]

-- A field of which the zero value means that it is not set.
unfoldable pub set_once : String → String → Result String
set_once dst value = if is_empty dst then ok value else refuse duplicate_field

-- The same for a pointer.
unfoldable pub set_once_ptr {ℓ} : {A : Type ℓ} → Option A → A → Result (Option A)
set_once_ptr none value = ok (some value)
set_once_ptr (some _) value = refuse duplicate_field

-- `<string>` and `<stdin>` are no paths.
abbrev pub synthetic_filename : String
synthetic_filename = str "<string>"

abbrev pub stdin_filename : String
stdin_filename = str "<stdin>"

-- strings.TrimSuffix(s, ".kdl")
abbrev pub trim_kdl : String → String
trim_kdl [] = []
trim_kdl (c ∷ s) = let rest = trim_kdl s in if (c ∷ s) == str ".kdl" then [] else c ∷ rest

module _ (o : Outside) where
  pub coerce_value : {T : Type 0} → (o.Value → Option T) → o.Value → Result T
  coerce_value read v = elim (read v) [ none ↦ refuse type_mismatch | some t ↦ ok t ]

  unfoldable pub arg : {T : Type 0} → (o.Value → Option T) → o.Node → ℕ → Result T
  unfolding coerce_value
  arg read node idx = elim (get_elem? (o.arguments node) idx) [
    | none ↦ refuse missing_field
    | some v ↦ coerce_value read v
  ]

  -- The zero value if the property is absent.
  unfoldable pub prop : {T : Type 0} → (o.Value → Option T) → T → o.Node → String → Result T
  unfolding coerce_value
  prop read zero_value node key = elim (lookup (o.properties node) key) [
    | none ↦ ok zero_value
    | some v ↦ coerce_value read v
  ]

  unfoldable pub require_string_arg : o.Node → Result String
  unfolding arg
  require_string_arg node = arg o.string_of node 0

  abbrev pub string_prop : o.Node → String → Result String
  string_prop = prop o.string_of []

  abbrev pub bool_prop : o.Node → String → Result Bool
  bool_prop = prop o.bool_of false

  unfoldable pub string_args2 : o.Node → Result (String × String)
  unfolding arg
  string_args2 node =
      let n = length (o.arguments node) in
      if ltb n 2
      then refuse missing_field
      else if ltb 2 n
      then refuse extra_args
      else arg o.string_of node 0 >>= λ first.
          arg o.string_of node 1 >>= λ second. ok (first, second)

  -- `if len(node.Arguments()) > n { return ErrExtraArgs }`, and then `next`.
  abbrev pub at_most {ℓ} : {A : Type ℓ} → ℕ → o.Node → Result A → Result A
  at_most n node next = if ltb n (length (o.arguments node)) then refuse extra_args else next

  unfoldable pub dir_of : String → String
  dir_of filename =
      if filename == synthetic_filename || filename == stdin_filename
      then str "."
      else o.dir filename

  unfoldable pub name_from_filename : String → String
  name_from_filename filename =
      if filename == synthetic_filename
      then []
      else if filename == stdin_filename
      then str "stdin"
      else trim_kdl (o.base filename)
