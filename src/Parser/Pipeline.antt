-- ===== src/Parser/Pipeline.antt =====
-- pkg/parser/parser.go and `StdinResolver` of resolver.go: a whole pipeline, from its text to the validated result.
pub mod Total
pub mod Sound
use cicada.Base.{
  ℕ, String, str, List, [], ◌∷◌, ◌++◌, Option, none, some, Bool, if◌then◌else◌, ◌==◌, string_eq,
}
use cicada.Model.{
  Job, Matrix, Defaults, EnvVar, SecretDecl, Pipeline, Result, ok, err, ◌>>=◌, unknown_node,
  duplicate_field, nil_resolver, resolver_error, nil_stdin, nil_inner,
}
use cicada.Merge.{Aliases, expand_aliases}
use cicada.Defaults.{apply_defaults}
use cicada.Expand.{expand}
use cicada.Validate.{validate}
use cicada.Parser.Outside.{Outside}
use cicada.Parser.Helpers.{
  NodeType, nt_job, nt_step, nt_defaults, nt_matrix, nt_env, nt_secret, nt_include, node_type,
  refuse, each, set_once_ptr, synthetic_filename, stdin_filename, name_from_filename,
}
use cicada.Parser.Elements.{parse_matrix, parse_env_node, parse_secret_decl_node}
use cicada.Parser.Jobs.{parse_job, parse_bare_step, parse_defaults}
use cicada.Parser.Includes.State.{
  IncludeState, new_include_state, GroupCollector, new_group_collector, collect_job,
  merge_collected,
}
use cicada.Parser.Includes.Files.{
  Resolver, Resolution, include_jobs, parse_document, resolve_include,
}

pub record PipelineAcc : Type 0 where
  pub matrix : Option Matrix
  pub defaults : Option Defaults
  pub env : List EnvVar
  pub secrets : List SecretDecl

abbrev pub empty_acc : PipelineAcc
empty_acc = record { matrix = none; defaults = none; env = []; secrets = [] }

-- What `parse` changes node by node.
abbrev pub Parsed : Type 0
Parsed = PipelineAcc × (GroupCollector × IncludeState)

-- One level more than `push` admits.
abbrev pub include_fuel : ℕ
include_fuel = 65

-- `finalizePipelineInput`, less the file name that goes into the messages.
pub record FinalizePipelineInput : Type 0 where
  pub name : String
  pub jobs : List Job
  pub env : List EnvVar
  pub secrets : List SecretDecl
  pub matrix : Option Matrix
  pub defaults : Option Defaults
  pub aliases : Aliases

abbrev pub assemble : FinalizePipelineInput → List Job → Pipeline
assemble input jobs = record {
  name = input.name;
  jobs = apply_defaults jobs input.defaults;
  env = input.env;
  secrets = input.secrets;
  matrix = input.matrix;
  defaults = input.defaults;
  topo_order = none;
}

-- `if _, err := pipeline.Validate(&pl); err != nil { return err }; return pl`
abbrev pub validated : (String → Option Bool) → Pipeline → Result Pipeline
validated check_expr pl = validate check_expr pl >>= λ (pl', _). ok pl'

unfoldable pub finalize_pipeline : (String → Option Bool) → FinalizePipelineInput → Result Pipeline
unfolding expand_aliases apply_defaults expand validate
finalize_pipeline check_expr input = expand_aliases input.jobs input.aliases >>= λ jobs.
    expand (assemble input jobs) >>= validated check_expr

module _ (o : Outside) where
  unfoldable pub parse_pipeline_child :
      NodeType → Resolution → String → Parsed → o.Node → Result Parsed
  unfolding parse_bare_step parse_job parse_defaults parse_matrix set_once_ptr parse_env_node
      parse_secret_decl_node include_jobs
  parse_pipeline_child nt_step rec filename (acc, (gc, s)) node =
      parse_bare_step o node >>= λ j. ok (acc, (collect_job j gc, s))
  parse_pipeline_child nt_job rec filename (acc, (gc, s)) node =
      parse_job o node >>= λ j. ok (acc, (collect_job j gc, s))
  parse_pipeline_child nt_defaults rec filename (acc, (gc, s)) node =
      elim acc.defaults as (λ _. Result Parsed) [
        | some _ ↦ refuse duplicate_field
        | none ↦ parse_defaults o node >>= λ d. ok (record acc { defaults = some d }, (gc, s))
      ]
  parse_pipeline_child nt_matrix rec filename (acc, (gc, s)) node = parse_matrix o node >>= λ m.
      set_once_ptr acc.matrix m >>= λ m'. ok (record acc { matrix = m' }, (gc, s))
  parse_pipeline_child nt_env rec filename (acc, (gc, s)) node =
      parse_env_node o node >>= λ ev. ok (record acc { env = acc.env ++ ev ∷ [] }, (gc, s))
  parse_pipeline_child nt_secret rec filename (acc, (gc, s)) node =
      parse_secret_decl_node o node >>= λ sd.
      ok (record acc { secrets = acc.secrets ++ sd ∷ [] }, (gc, s))
  parse_pipeline_child nt_include rec filename (acc, (gc, s)) node =
      include_jobs o rec filename (gc, s) node >>= λ (gc', s'). ok (acc, (gc', s'))
  parse_pipeline_child _ rec filename (acc, (gc, s)) node = refuse unknown_node

  abbrev pub parsed_input : String → PipelineAcc → IncludeState → List Job → FinalizePipelineInput
  parsed_input filename acc s merged = record {
    name = name_from_filename o filename;
    jobs = merged;
    env = acc.env;
    secrets = acc.secrets;
    matrix = acc.matrix;
    defaults = acc.defaults;
    aliases = s.aliases;
  }

  -- What the nodes of a document add up to.
  unfoldable pub finish_parse : String → Parsed → Result Pipeline
  unfolding merge_collected name_from_filename finalize_pipeline
  finish_parse filename (acc, (gc, s)) = merge_collected gc >>= λ merged.
      finalize_pipeline o.check_expr (parsed_input filename acc s merged)

  -- The nodes of a document under a resolution of includes.
  unfoldable pub parse_nodes : Resolution → String → List o.Node → Result Pipeline
  unfolding each parse_pipeline_child node_type finish_parse
  parse_nodes rec filename nodes =
      each (λ acc child. parse_pipeline_child (node_type (o.name child)) rec filename acc child)
        (empty_acc, (new_group_collector filename, new_include_state)) nodes
      >>= finish_parse filename

  -- The resolver of the parser may be nil.
  unfoldable pub parse : Option (Resolver o) → o.Content → String → Result Pipeline
  unfolding parse_document parse_nodes resolve_include
  parse none content filename = refuse nil_resolver
  parse (some resolver) content filename =
      parse_document o content >>= parse_nodes (resolve_include o resolver include_fuel) filename

  unfoldable pub parse_string : Option (Resolver o) → o.Content → Result Pipeline
  unfolding parse
  parse_string resolver content = parse resolver content synthetic_filename

  unfoldable pub parse_file : Option (Resolver o) → String → Result Pipeline
  unfolding parse
  parse_file none path = refuse nil_resolver
  parse_file (some resolver) path =
      resolver path [] >>= λ (content, resolved). parse (some resolver) content resolved

  pub record StdinResolver : Type 0 where
    pub stdin : Option o.Content
    pub inner : Option (Resolver o)

  unfoldable pub stdin_resolve : StdinResolver → Resolver o
  stdin_resolve r source base_path =
      if source == str "-"
      then (elim r.stdin as (λ _. Result (o.Content × String)) [
        | none ↦ err (resolver_error nil_stdin)
        | some content ↦ ok (content, stdin_filename)
      ])
      else (elim r.inner as (λ _. Result (o.Content × String)) [
        | none ↦ err (resolver_error nil_inner)
        | some resolver ↦ resolver source base_path
      ])
