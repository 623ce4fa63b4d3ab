-- ===== src/Builder/Parsed.antt =====
-- From the text of a pipeline to its build definitions.
use cicada.Base.{ℕ, ◌≡◌, String, List, Option, some, Bool, false, map}
use cicada.Model.{Pipeline, ok}
use cicada.Validate.Index.{name_of}
use cicada.Parser.Outside.{Outside}
use cicada.Parser.Includes.Files.{Resolver}
use cicada.Parser.Pipeline.{parse}
use cicada.Parser.Pipeline.Sound.{parse-IsReady}
use cicada.Builder.Llb.{Llb}
use cicada.Builder.Build.{BuildOpts, BuildResult, build, job_opts}
use cicada.Builder.Steps.{States}
use cicada.Builder.Added.{Built}
use cicada.Builder.Complete.{misses}
use cicada.Builder.Ordered.{build_ordered}

-- No job lacks the state of a dependency. A successful build has one name and one definition per job, in this order,
-- and each definition is what building the job gives.
pub record IsBuildable (L : Llb) (check_expr : String → Option Bool) (p : Pipeline)
    (opts : BuildOpts L) (order : List ℕ) : Type 0 where
  pub complete : misses (build L check_expr p opts) ≡ false
  pub in_order :
      (result : BuildResult L)
      → build L check_expr p opts ≡ ok result
      → map (λ n. some n) result.job_names ≡ map (name_of p.jobs) order
  pub defined :
      (result : BuildResult L)
      → build L check_expr p opts ≡ ok result
      → (states : States L) × Built L (job_opts L opts p.env) p.jobs order states result.definitions

-- The build of a pipeline that the parser returns never fails for lack of the state of a dependency, be it mounted or the
-- source of an artifact. When the build succeeds it has one name and one definition per job, in the order that the parser
-- stored; each definition is what `buildJob` gives for the job with the states of the jobs before it.
pub parse-IsBuildable :
    (o : Outside) (L : Llb) (resolver : Option (Resolver o)) (content : o.Content)
    (filename : String) (p : Pipeline) (opts : BuildOpts L)
    → parse o resolver content filename ≡ ok p
    → (order : List ℕ) × (p.topo_order ≡ some order) × IsBuildable L o.check_expr p opts order
parse-IsBuildable o L resolver content filename p opts h =
    let ready = parse-IsReady o resolver content filename p h in
    let (complete, results) =
      build_ordered L o.check_expr p opts ready.order ready.stored ready.runnable ready.sources in
    (
      ready.order,
      ready.stored,
      record {
        complete = complete;
        in_order = λ result e. (results result e).0;
        defined = λ result e. (results result e).1;
      },
    )
