-- ===== src/Parser/Elements.antt =====
-- pkg/parser/elements.go and `NewWhen` of pkg/conditional/when.go: the nodes that describe one element.
use cicada.Base.{
  trim_space, ℕ, zero, suc, ◌+◌, ℤ, pos, is_negative, is_positive, String, str, List, [], ◌∷◌, ◌++◌,
  none, some, Bool, true, false, if◌then◌else◌, not, is_empty, length, contains, lookup, keep, map,
  ◌==◌, string_eq,
}
use cicada.Model.{
  EnvVar, Export, Artifact, Publish, When, Retry, BackoffStrategy, unset, backoff_none,
  backoff_linear, backoff_exponential, other_backoff, SecretDecl, SecretSource, host_env, file,
  cmd_source, other_source, SecretRef, Matrix, Dimension, Mount, Cache, Error, Result, ok, err,
  ◌>>=◌, guard, missing_field, unknown_prop, unknown_node, duplicate_field, unexpected_children,
  conditional_error, invalid_when, outside_error, bad_duration, invalid_retry_attempts,
  invalid_backoff, negative_delay, empty_shell,
}
use cicada.Expand.Matrices.{validate_matrix}
use cicada.Parser.Outside.{Outside}
use cicada.Parser.Helpers.{
  refuse, each, arg, prop, string_prop, bool_prop, require_string_arg, string_args2, at_most,
}

-- The named values of `BackoffStrategy` and of `SecretSource`.
abbrev pub backoff_of : String → BackoffStrategy
backoff_of s =
    if is_empty s
    then unset
    else if s == str "none"
    then backoff_none
    else if s == str "linear"
    then backoff_linear
    else if s == str "exponential"
    then backoff_exponential
    else other_backoff s

abbrev pub source_of : String → SecretSource
source_of s =
    if s == str "hostEnv"
    then host_env
    else if s == str "file"
    then file
    else if s == str "cmd"
    then cmd_source
    else other_source s

abbrev pub is_unset : SecretSource → Bool
is_unset (other_source s) = is_empty s
is_unset _ = false

module _ (o : Outside) where
  -- The arguments from number `idx` on, `rounds` of them.
  pub string_args_from : ℕ → ℕ → o.Node → Result (List String)
  unfolding arg
  string_args_from zero idx node = ok []
  string_args_from (suc rounds) idx node = arg o o.string_of node idx >>= λ v.
      string_args_from rounds (idx + 1) node >>= λ vs. ok (v ∷ vs)

  pub parse_dimension : o.Node → Result Dimension
  unfolding string_args_from
  parse_dimension node = string_args_from (length (o.arguments node)) 0 node >>= λ values.
      ok (record { name = o.name node; values = values })

  pub parse_dimensions : List Dimension → o.Node → Result (List Dimension)
  unfolding parse_dimension
  parse_dimensions dims node = parse_dimension node >>= λ d. ok (dims ++ d ∷ [])

  unfoldable pub parse_matrix : o.Node → Result Matrix
  unfolding parse_dimensions each validate_matrix
  parse_matrix node = each parse_dimensions [] (o.children node) >>= λ dims.
      guard (validate_matrix (some (record { dimensions = dims })))
        (ok (record { dimensions = dims }))

  unfoldable pub parse_env_node : o.Node → Result EnvVar
  unfolding string_args2
  parse_env_node node = string_args2 o node >>= λ (k, v). ok (record { key = k; value = v })

  -- A property that must be there and not be empty.
  pub required_prop : o.Node → String → Result String
  unfolding prop
  required_prop node key =
      string_prop o node key >>= λ v. if is_empty v then refuse missing_field else ok v

  unfoldable pub parse_export_node : o.Node → Result Export
  unfolding require_string_arg required_prop
  parse_export_node node = at_most o 1 node (
      require_string_arg o node >>= λ path.
      required_prop node (str "local") >>= λ local. ok (record { path = path; local = local }))

  unfoldable pub parse_artifact_node : o.Node → Result Artifact
  unfolding require_string_arg required_prop
  parse_artifact_node node = at_most o 1 node (
      require_string_arg o node >>= λ from. required_prop node (str "source") >>= λ source.
      required_prop node (str "target") >>= λ target.
      ok (record { from = from; source = source; target = target }))

  abbrev pub has_prop : o.Node → String → Bool
  has_prop node key = elim (lookup (o.properties node) key) as (λ _. Bool) [
    | none ↦ false
    | some _ ↦ true
  ]

  unfoldable pub parse_publish_node : o.Node → Result Publish
  unfolding require_string_arg prop
  parse_publish_node node = at_most o 1 node (
      require_string_arg o node >>= λ image. bool_prop o node (str "push") >>= λ push.
      bool_prop o node (str "insecure") >>= λ insecure. ok (record {
        image = image;
        push = if has_prop node (str "push") then push else true;
        insecure = insecure;
      }))

  unfoldable pub new_when : String → Result When
  new_when expr = elim (o.check_expr expr) [
    | none ↦ err (conditional_error invalid_when)
    | some deferred ↦ ok (record { expression = expr; deferred = deferred; parsed = some expr })
  ]

  unfoldable pub parse_when_node : o.Node → Result When
  unfolding require_string_arg new_when
  parse_when_node node = at_most o 1 node (
      require_string_arg o node >>= λ expr.
      if is_empty (trim_space expr) then refuse missing_field else new_when (trim_space expr))

  -- A string argument read as a duration that is not negative.
  unfoldable pub parse_duration_arg : Error → o.Node → Result ℤ
  unfolding require_string_arg
  parse_duration_arg negative node = require_string_arg o node >>= λ v.
      elim (o.parse_duration v) as (λ _. Result ℤ) [
        | none ↦ err (outside_error bad_duration)
        | some d ↦ if is_negative d then err negative else ok d
      ]

  pub check_backoff : BackoffStrategy → Result BackoffStrategy
  check_backoff unset = err invalid_backoff
  check_backoff (other_backoff s) = err invalid_backoff
  check_backoff b = ok b

  -- The switch over the fields of a retry block.
  pub retry_field : Retry → o.Node → Result Retry
  unfolding arg require_string_arg parse_duration_arg check_backoff
  retry_field r child =
      if o.name child == str "attempts"
      then at_most o 1 child (
          arg o o.int_of child 0 >>= λ v.
          if not (is_positive v)
          then err invalid_retry_attempts
          else ok (record r { attempts = v }))
      else if o.name child == str "delay"
      then at_most o 1 child
          (parse_duration_arg negative_delay child >>= λ d. ok (record r { delay = d }))
      else if o.name child == str "backoff"
      then at_most o 1 child (
          require_string_arg o child >>= λ v.
          check_backoff (backoff_of v) >>= λ b. ok (record r { backoff = b }))
      else refuse unknown_node

  -- One round of a loop that refuses a second field of one name.
  abbrev pub unseen {ℓ} :
      {S : Type ℓ} → (S → o.Node → Result S) → S × List String → o.Node → Result (S × List String)
  unseen field (s, seen) child =
      if contains seen (o.name child)
      then refuse duplicate_field
      else field s child >>= λ s'. ok (s', o.name child ∷ seen)

  abbrev pub new_retry : Retry
  new_retry = record { attempts = pos 1; delay = pos 0; backoff = backoff_none }

  unfoldable pub parse_retry_node : o.Node → Result Retry
  unfolding each retry_field
  parse_retry_node node =
      at_most o 0 node
        (each (unseen retry_field) (new_retry, []) (o.children node) >>= λ (r, _). ok r)

  unfoldable pub parse_shell_node : o.Node → Result (List String)
  unfolding string_args_from
  parse_shell_node node =
      if is_empty (o.arguments node)
      then err empty_shell
      else string_args_from (length (o.arguments node)) 0 node

  abbrev pub no_props {ℓ} : {A : Type ℓ} → o.Node → Result A → Result A
  no_props node next = if is_empty (o.properties node) then next else refuse unknown_prop

  -- The value of one field of a secret declaration.
  abbrev pub secret_value : o.Node → Result String
  secret_value child = at_most o 1 child (no_props child (require_string_arg o child))

  pub secret_field : SecretDecl → o.Node → Result SecretDecl
  unfolding require_string_arg
  secret_field d child =
      if o.name child == str "source"
      then (secret_value child >>= λ v. ok (record d { source = source_of v }))
      else if o.name child == str "var"
      then (secret_value child >>= λ v. ok (record d { var = v }))
      else if o.name child == str "path"
      then (secret_value child >>= λ v. ok (record d { path = v }))
      else if o.name child == str "cmd"
      then (secret_value child >>= λ v. ok (record d { cmd = v }))
      else refuse unknown_node

  abbrev pub new_secret : String → SecretDecl
  new_secret name = record { name = name; source = other_source []; var = []; path = []; cmd = [] }

  unfoldable pub parse_secret_decl_node : o.Node → Result SecretDecl
  unfolding require_string_arg secret_field each
  parse_secret_decl_node node = require_string_arg o node >>= λ name. at_most o 1 node (
      no_props node (
        each (unseen secret_field) (new_secret name, []) (o.children node) >>= λ (d, _).
        if is_unset d.source then refuse missing_field else ok d))

  abbrev pub only_props : List String → o.Node → Bool
  only_props known node =
      is_empty (keep (λ k. not (contains known k)) (map (λ (k, _). k) (o.properties node)))

  unfoldable pub parse_secret_ref_node : o.Node → Result SecretRef
  unfolding require_string_arg prop
  parse_secret_ref_node node = require_string_arg o node >>= λ name. at_most o 1 node (
      if not (is_empty (o.children node))
      then refuse unexpected_children
      else string_prop o node (str "env") >>= λ env. string_prop o node (str "mount") >>= λ mount.
          if not (only_props (str "env" ∷ str "mount" ∷ []) node)
          then refuse unknown_prop
          else ok (record { name = name; env = env; mount = mount }))

  unfoldable pub parse_mount_node : o.Node → Result Mount
  unfolding string_args2 prop
  parse_mount_node node = string_args2 o node >>= λ (source, target).
      bool_prop o node (str "readonly") >>= λ read_only.
      ok (record { source = source; target = target; read_only = read_only })

  unfoldable pub parse_cache_node : o.Node → Result Cache
  unfolding string_args2
  parse_cache_node node =
      string_args2 o node >>= λ (id, target). ok (record { id = id; target = target })
