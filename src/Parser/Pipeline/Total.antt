-- ===== src/Parser/Pipeline/Total.antt =====
-- No document makes the parser recurse without end: nested includes stop at the bound on their depth.
use cicada.Base.{
  ℕ, ◌+◌, ◌≡◌, refl, ◌∙◌, ap, String, List, [], ◌∷◌, ◌++◌, some, length, arith, Option-cases, inl,
  inr,
}
use cicada.Model.{ok, ◌>>=◌, bind-ok}
use cicada.Parser.Outside.{Outside}
use cicada.Parser.Helpers.{
  NodeType, nt_job, nt_step, nt_include, nt_defaults, nt_matrix, nt_env, nt_secret, node_type,
  set_once_ptr,
}
use cicada.Parser.Elements.{parse_matrix, parse_env_node, parse_secret_decl_node}
use cicada.Parser.Jobs.{parse_job, parse_bare_step, parse_defaults}
use cicada.Parser.Includes.State.{
  IncludeState, new_include_state, GroupCollector, new_group_collector, collect_job,
}
use cicada.Parser.Includes.Files.{Resolver, Resolution, include_jobs, resolve_include}
use cicada.Parser.Includes.Balance.{Extends, Balanced, include_jobs-Extends, kept}
use cicada.Parser.Includes.Stack.{resolve_include-Balanced}
use cicada.Parser.Includes.Depth.{
  bind-first, each-congr, AgreeAt, include_jobs-agree, nested, resolve_include-agree,
}
use cicada.Parser.Pipeline.{
  Parsed, PipelineAcc, empty_acc, parse_pipeline_child, parse_nodes, finish_parse, include_fuel,
}

module _ (o : Outside) (rec : Resolution) where
  abbrev state : Parsed → IncludeState
  state (_, (_, s)) = s

  parse_pipeline_child-Extends :
      (nt : NodeType) (balanced : Balanced rec) (filename : String) (acc : PipelineAcc)
      (gc : GroupCollector) (s : IncludeState) (node : o.Node) {r : Parsed}
      → parse_pipeline_child o nt rec filename (acc, (gc, s)) node ≡ ok r
      → Extends s (r.1.1)
  unfolding parse_pipeline_child
  parse_pipeline_child-Extends nt_step balanced filename acc gc s node {r} h =
      kept state s (parse_bare_step o node) (λ j. (acc, (collect_job j gc, s))) (λ j. refl) h
  parse_pipeline_child-Extends nt_job balanced filename acc gc s node {r} h =
      kept state s (parse_job o node) (λ j. (acc, (collect_job j gc, s))) (λ j. refl) h
  parse_pipeline_child-Extends nt_defaults balanced filename acc gc s node {r} h =
      elim (Option-cases acc.defaults) [
        | inr (_, given) ↦ absurd (ground (arith, given, h))
        | inl absent ↦
            let first : (parse_defaults o node >>= λ d.
            ok (record acc { defaults = some d }, (gc, s)))
                ≡ ok r =
              ground (arith, absent, h) in
            kept state s (parse_defaults o node) (λ d. (record acc { defaults = some d }, (gc, s)))
              (λ d. refl) first
      ]
  parse_pipeline_child-Extends nt_matrix balanced filename acc gc s node {r} h =
      let (m, _, h₁) = bind-ok (parse_matrix o node) _ h in
      kept state s (set_once_ptr acc.matrix m) (λ m'. (record acc { matrix = m' }, (gc, s)))
        (λ m'. refl) h₁
  parse_pipeline_child-Extends nt_env balanced filename acc gc s node {r} h =
      kept state s (parse_env_node o node) (λ e. (record acc { env = acc.env ++ e ∷ [] }, (gc, s)))
        (λ e. refl) h
  parse_pipeline_child-Extends nt_secret balanced filename acc gc s node {r} h =
      kept state s (parse_secret_decl_node o node)
        (λ d. (record acc { secrets = acc.secrets ++ d ∷ [] }, (gc, s))) (λ d. refl) h
  parse_pipeline_child-Extends nt_include balanced filename acc gc s node {r} h =
      let ((gc', s'), e, h₁) =
        bind-ok (include_jobs o rec filename (gc, s) node) (λ (gc', s'). ok (acc, (gc', s'))) h in
      let same : (acc, (gc', s')) ≡ r = cc in
      rw (← same) (include_jobs-Extends o rec balanced filename gc s node e)
  parse_pipeline_child-Extends _ balanced filename acc gc s node {r} h = cc

  parse_pipeline_child-agree :
      (nt : NodeType) (balanced : Balanced rec) (rec' : Resolution) (n : ℕ)
      (agree : AgreeAt n rec rec') (filename : String) (acc : PipelineAcc) (gc : GroupCollector)
      (s : IncludeState) (node : o.Node)
      → length s.ancestors ≡ n
      → parse_pipeline_child o nt rec filename (acc, (gc, s)) node
        ≡ parse_pipeline_child o nt rec' filename (acc, (gc, s)) node
  unfolding parse_pipeline_child
  parse_pipeline_child-agree nt_include balanced rec' n agree filename acc gc s node h =
      bind-first _ (include_jobs-agree o rec rec' balanced n agree filename gc s node h)
  parse_pipeline_child-agree _ balanced rec' n agree filename acc gc s node h = refl

-- Whatever stands where the fuel ends, and however much more of it there is, a document is parsed to the same result:
-- the recursion through its includes never gets there.
pub parse_nodes_total :
    (o : Outside) (resolver : Resolver o) (bottom : Resolution) (more : ℕ) (filename : String)
    (nodes : List o.Node)
    → parse_nodes o (resolve_include o resolver include_fuel) filename nodes
      ≡ parse_nodes o (nested o resolver bottom (include_fuel + more)) filename nodes
unfolding parse_nodes
parse_nodes_total o resolver bottom more filename nodes =
    let rec = resolve_include o resolver include_fuel in
    let rec' = nested o resolver bottom (include_fuel + more) in
    let balanced = resolve_include-Balanced o resolver include_fuel in
    let agree : AgreeAt 0 rec rec' =
      resolve_include-agree o resolver bottom include_fuel (include_fuel + more) 0 (omega arith)
        (omega arith) (omega arith) in
    bind-first (finish_parse o filename) (
      each-congr (λ (p : Parsed). length (p.1.1).ancestors ≡ 0)
        (λ acc child. parse_pipeline_child o (node_type (o.name child)) rec filename acc child)
        (λ acc child. parse_pipeline_child o (node_type (o.name child)) rec' filename acc child)
        (λ (acc, (gc, s)) child p' none_open e.
          ap length
            (parse_pipeline_child-Extends o rec (node_type (o.name child)) balanced filename acc gc
              s child e).ancestors
          ∙ none_open)
        (λ (acc, (gc, s)) child none_open.
          parse_pipeline_child-agree o rec (node_type (o.name child)) balanced rec' 0 agree filename
            acc gc s child none_open)
        (empty_acc, (new_group_collector filename, new_include_state)) nodes refl)
