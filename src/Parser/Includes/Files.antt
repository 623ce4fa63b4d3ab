-- ===== src/Parser/Includes/Files.antt =====
-- pkg/parser/include.go: fragments, the files that an include opens, and the resolution of an include.
use cicada.Base.{
  ℕ, zero, suc, String, List, [], ◌∷◌, ◌++◌, Option, none, some, Bool, true, false, if◌then◌else◌,
  not, is_empty, lookup, string_eq,
}
use cicada.Model.{
  Job, Fragment, Result, ok, err, ◌>>=◌, guard, unknown_node, ambiguous_file, empty_include,
  fuel_exhausted, pipeline_no_params, outside_error, bad_syntax,
}
use cicada.Merge.{terminal_jobs}
use cicada.Params.{Vars, resolve_params, substitute_params}
use cicada.Parser.Outside.{Outside}
use cicada.Parser.Helpers.{
  NodeType, nt_job, nt_step, nt_defaults, nt_matrix, nt_env, nt_secret, nt_include, nt_fragment,
  nt_param, node_type, refuse, each, require_string_arg, dir_of, name_from_filename,
}
use cicada.Parser.Jobs.{parse_job, parse_bare_step}
use cicada.Parser.Includes.Directives.{
  IncludeDirective, parse_include_node, parse_param_node, check_duplicate_param, cache_key,
}
use cicada.Parser.Includes.State.{
  IncludeState, push, pop, register_alias, remember, GroupCollector, new_group_collector,
  collect_job, add_include, merge_collected,
}

-- Opens a source relative to a folder: its content and its absolute path.
abbrev pub Resolver : Outside → Type 0
Resolver o = String → String → Result (o.Content × String)

-- What `resolveInclude` returns: the jobs, the directive with its alias filled in, and the state.
abbrev pub Resolved : Type 0
Resolved = (List Job × IncludeDirective) × IncludeState

-- A resolution from within a file; the recursion hands itself down.
abbrev pub Resolution : Type 0
Resolution = IncludeDirective → String → IncludeState → Result Resolved

-- A name and the jobs of a file.
abbrev pub Included : Type 0
Included = (String × List Job) × IncludeState

-- Registers the alias, which defaults to the name, and hands the jobs on; then the deferred `pop`.
unfoldable pub named_include : IncludeDirective → Included → Result Resolved
unfolding register_alias terminal_jobs pop
named_include inc ((name, jobs), s) =
    let alias = if is_empty inc.alias then name else inc.alias in
    register_alias alias (terminal_jobs jobs) s >>= λ s'.
    ok ((jobs, record inc { alias = alias }), pop s')

module _ (o : Outside) where
  unfoldable pub resolve_child_include :
      Resolution → o.Node → String → IncludeState → Result Resolved
  unfolding parse_include_node
  resolve_child_include rec child filename s =
      parse_include_node o child >>= λ inc. rec inc filename s

  -- An include among other nodes: its jobs are a group of their own.
  unfoldable pub include_jobs :
      Resolution
      → String
      → GroupCollector × IncludeState
      → o.Node
      → Result (GroupCollector × IncludeState)
  unfolding resolve_child_include add_include
  include_jobs rec filename (gc, s) child =
      resolve_child_include rec child filename s >>= λ ((jobs, inc), s').
      ok (add_include jobs inc gc, s')

  -- The children of a fragment: its parameters, the collected jobs, and the state.
  unfoldable pub fragment_child :
      NodeType
      → Resolution
      → String
      → Fragment × (GroupCollector × IncludeState)
      → o.Node
      → Result (Fragment × (GroupCollector × IncludeState))
  unfolding parse_param_node check_duplicate_param parse_bare_step parse_job include_jobs
  fragment_child nt_param rec filename (frag, (gc, s)) node = parse_param_node o node >>= λ pd.
      guard (check_duplicate_param frag.params pd.name)
        (ok (record frag { params = frag.params ++ pd ∷ [] }, (gc, s)))
  fragment_child nt_step rec filename (frag, (gc, s)) node =
      parse_bare_step o node >>= λ j. ok (frag, (collect_job j gc, s))
  fragment_child nt_job rec filename (frag, (gc, s)) node =
      parse_job o node >>= λ j. ok (frag, (collect_job j gc, s))
  fragment_child nt_include rec filename (frag, (gc, s)) node =
      include_jobs rec filename (gc, s) node >>= λ (gc', s'). ok (frag, (gc', s'))
  fragment_child _ rec filename (frag, (gc, s)) node = refuse unknown_node

  unfoldable pub parse_fragment_node :
      Resolution → o.Node → String → IncludeState → Result (Fragment × IncludeState)
  unfolding require_string_arg each fragment_child node_type merge_collected
  parse_fragment_node rec node filename s = require_string_arg o node >>= λ name.
      each (λ acc child. fragment_child (node_type (o.name child)) rec filename acc child)
        (record { name = name; params = []; jobs = [] }, (new_group_collector filename, s))
        (o.children node)
      >>= λ (frag, (gc, s')).
          merge_collected gc >>= λ merged. ok (record frag { jobs = merged }, s')

  unfoldable pub include_fragment :
      Resolution → o.Node → String → Vars → IncludeState → Result Included
  unfolding parse_fragment_node resolve_params substitute_params
  include_fragment rec node path params s = parse_fragment_node rec node path s >>= λ (frag, s').
      resolve_params frag.params params >>= λ resolved.
      let jobs = substitute_params frag.jobs resolved in
      ok ((frag.name, jobs), remember (cache_key path params) (record frag { jobs = jobs }) s')

  -- The root nodes of an included pipeline; its matrix, environment, defaults and secrets are ignored.
  unfoldable pub included_node :
      NodeType
      → Resolution
      → String
      → GroupCollector × IncludeState
      → o.Node
      → Result (GroupCollector × IncludeState)
  unfolding parse_bare_step parse_job include_jobs
  included_node nt_step rec path (gc, s) node =
      parse_bare_step o node >>= λ j. ok (collect_job j gc, s)
  included_node nt_job rec path (gc, s) node = parse_job o node >>= λ j. ok (collect_job j gc, s)
  included_node nt_matrix rec path (gc, s) node = ok (gc, s)
  included_node nt_env rec path (gc, s) node = ok (gc, s)
  included_node nt_defaults rec path (gc, s) node = ok (gc, s)
  included_node nt_secret rec path (gc, s) node = ok (gc, s)
  included_node nt_include rec path (gc, s) node = include_jobs rec path (gc, s) node
  included_node _ rec path (gc, s) node = refuse unknown_node

  unfoldable pub include_pipeline_file :
      Resolution → List o.Node → String → Vars → IncludeState → Result Included
  unfolding name_from_filename each included_node node_type merge_collected
  include_pipeline_file rec nodes path params s =
      let name = name_from_filename o path in
      if not (is_empty params)
      then err pipeline_no_params
      else each (λ acc node. included_node (node_type (o.name node)) rec path acc node)
          (new_group_collector path, s) nodes
        >>= λ (gc, s'). merge_collected gc >>= λ jobs. ok (
          (name, jobs),
          remember (cache_key path params) (record { name = name; params = []; jobs = jobs }) s',
        )

  -- The fragment node seen so far, and whether a node of a pipeline was.
  pub file_node : NodeType → Option o.Node × Bool → o.Node → Result (Option o.Node × Bool)
  file_node nt_fragment (none, is_pipeline) node = ok (some node, is_pipeline)
  file_node nt_fragment (some _, is_pipeline) node = refuse ambiguous_file
  file_node nt_job (frag, _) node = ok (frag, true)
  file_node nt_step (frag, _) node = ok (frag, true)
  file_node nt_defaults (frag, _) node = ok (frag, true)
  file_node nt_matrix (frag, _) node = ok (frag, true)
  file_node nt_env (frag, _) node = ok (frag, true)
  file_node nt_secret (frag, _) node = ok (frag, true)
  file_node nt_include (frag, _) node = ok (frag, true)
  file_node _ (frag, is_pipeline) node = refuse unknown_node

  -- The four cases of a file.
  unfoldable pub include_file :
      Option o.Node × Bool
      → Resolution
      → List o.Node
      → String
      → Vars
      → IncludeState
      → Result Included
  unfolding include_fragment include_pipeline_file
  include_file (some node, true) rec nodes path params s = refuse ambiguous_file
  include_file (some node, false) rec nodes path params s = include_fragment rec node path params s
  include_file (none, true) rec nodes path params s = include_pipeline_file rec nodes path params s
  include_file (none, false) rec nodes path params s = refuse empty_include

  -- A file that the KDL library reads.
  unfoldable pub parse_document : o.Content → Result (List o.Node)
  parse_document content = elim (o.parse_kdl content) as (λ _. Result (List o.Node)) [
    | none ↦ err (outside_error bad_syntax)
    | some nodes ↦ ok nodes
  ]

  unfoldable pub parse_included_file :
      Resolution → o.Content → String → Vars → IncludeState → Result Included
  unfolding parse_document each file_node node_type include_file
  parse_included_file rec content path params s = parse_document content >>= λ nodes.
      each (λ acc node. file_node (node_type (o.name node)) acc node) (none, false) nodes
      >>= λ kind. include_file kind rec nodes path params s

  -- Behind the `push`: a cached file, or a file that is read.
  unfoldable pub include_content :
      Resolution → o.Content → String → Vars → IncludeState → Result Included
  unfolding cache_key parse_included_file
  include_content rec content path params s =
      elim (lookup s.cache (cache_key path params)) as (λ _. Result Included) [
        | some cached ↦ ok ((cached.name, cached.jobs), s)
        | none ↦ parse_included_file rec content path params s
      ]

  unfoldable pub resolve_with : Resolver o → Resolution → Resolution
  unfolding dir_of push include_content named_include
  resolve_with resolver rec inc from_file s =
      resolver inc.source (dir_of o from_file) >>= λ (content, path).
      push path s >>= λ s'. include_content rec content path inc.params s' >>= named_include inc

  -- The fuel bounds the depth of nested includes.
  unfoldable pub resolve_include : Resolver o → ℕ → Resolution
  unfolding resolve_with
  resolve_include resolver zero inc from_file s = err fuel_exhausted
  resolve_include resolver (suc fuel) inc from_file s =
      resolve_with resolver (resolve_include resolver fuel) inc from_file s
