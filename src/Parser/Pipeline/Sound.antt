-- ===== src/Parser/Pipeline/Sound.antt =====
-- What a pipeline that the parser returns guarantees to the code that runs it.
use cicada.Base.{ℕ, ◌≡◌, String, List, Option, none, some, true, false, any, all, ◌∙◌, Bool}
use cicada.Model.{Pipeline, ok, ◌>>=◌, bind-ok}
use cicada.Merge.{expand_aliases}
use cicada.Expand.{has_matrix, has_pipeline_matrix, expand}
use cicada.Expand.Flat.{expand_flat}
use cicada.Validate.{validate}
use cicada.Validate.Order.{IsRunnable}
use cicada.Validate.Kept.{validate-kept}
use cicada.Validate.Sources.{declared, validate-declared}
use cicada.Parser.Outside.{Outside}
use cicada.Parser.Helpers.{each, node_type}
use cicada.Parser.Includes.State.{new_include_state, new_group_collector, merge_collected}
use cicada.Parser.Includes.Files.{Resolver, parse_document, resolve_include}
use cicada.Parser.Pipeline.{
  FinalizePipelineInput, assemble, validated, parsed_input, parse_pipeline_child, empty_acc,
  finalize_pipeline, finish_parse, parse_nodes, parse, include_fuel,
}

-- Unique names, a stored order behind which every dependency is met, no matrix left, and artifacts from dependencies.
pub record IsReady (pl : Pipeline) : Type 0 where
  pub order : List ℕ
  pub stored : pl.topo_order ≡ some order
  pub runnable : IsRunnable pl.jobs order
  pub no_matrix : has_pipeline_matrix pl ≡ false
  pub flat : any has_matrix pl.jobs ≡ false
  pub sources : all declared pl.jobs ≡ true

finalize_pipeline-IsReady :
    (check_expr : String → Option Bool) (input : FinalizePipelineInput) {pl : Pipeline}
    → finalize_pipeline check_expr input ≡ ok pl
    → IsReady pl
unfolding finalize_pipeline
finalize_pipeline-IsReady check_expr input {pl} h =
    let (jobs, _, h₁) =
      bind-ok (expand_aliases input.jobs input.aliases)
        (λ jobs. expand (assemble input jobs) >>= validated check_expr) h in
    let (q, expanded, h₂) = bind-ok (expand (assemble input jobs)) (validated check_expr) h₁ in
    let ((q', order), accepted, h₃) = bind-ok (validate check_expr q) (λ (pl', _). ok pl') h₂ in
    let same : q' ≡ pl = cc in
    let (no_matrix, flat) = expand_flat (assemble input jobs) expanded in
    let (runnable, stored, kept, kept_jobs) = validate-kept check_expr q accepted in
    rw (← same) record {
      order = order;
      stored = stored;
      runnable = runnable;
      no_matrix = kept ∙ no_matrix;
      flat = kept_jobs ∙ flat;
      sources = validate-declared check_expr q accepted;
    }

module _ (o : Outside) where
  -- A pipeline that the parser returns is ready to run: job names are unique, no matrix is left, neither of the
  -- pipeline nor of a job, the stored order lists each job once and behind all of its dependencies, and the artifacts of
  -- jobs and steps come from the dependencies of their job.
  pub parse-IsReady :
      (resolver : Option (Resolver o)) (content : o.Content) (filename : String) (pl : Pipeline)
      → parse o resolver content filename ≡ ok pl
      → IsReady pl
  unfolding parse parse_nodes finish_parse
  parse-IsReady none content filename pl h = cc
  parse-IsReady (some resolver) content filename pl h =
      let rec = resolve_include o resolver include_fuel in
      let (nodes, _, h₁) = bind-ok (parse_document o content) (parse_nodes o rec filename) h in
      let ((acc, (gc, s)), _, h₂) =
        bind-ok
          (each
            (λ acc child. parse_pipeline_child o (node_type (o.name child)) rec filename acc child)
            (empty_acc, (new_group_collector filename, new_include_state)) nodes)
          (finish_parse o filename) h₁ in
      let (merged, _, h₃) =
        bind-ok (merge_collected gc)
          (λ merged. finalize_pipeline o.check_expr (parsed_input o filename acc s merged)) h₂ in
      finalize_pipeline-IsReady o.check_expr (parsed_input o filename acc s merged) h₃
