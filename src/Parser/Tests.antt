-- ===== src/Parser/Tests.antt =====
-- A document and an included fragment, as trees.
use cicada.Base.{
  trim_space, ◌++◌, ◌+◌, pos, String, str, List, [], ◌∷◌, none, some, false, ◌≡◌, refl,
  if◌then◌else◌, ◌==◌, string_eq,
}
use cicada.Model.{
  Job, Step, Pipeline, ok, err, outside_error, not_resolved, circular_include, conflict_error,
}
use cicada.Merge.{terminal_jobs}
use cicada.Parser.Outside.{Outside}
use cicada.Parser.Jobs.{new_job, new_step}
use cicada.Parser.Includes.Directives.{IncludeDirective}
use cicada.Parser.Includes.State.{IncludeState, new_include_state}
use cicada.Parser.Includes.Files.{Resolver, resolve_include}
use cicada.Parser.Includes.Stack.{Named, resolve_include-Named}
use cicada.Parser.Includes.Depth.{nested}
use cicada.Parser.Pipeline.{parse, parse_nodes, include_fuel}
use cicada.Parser.Pipeline.Sound.{IsReady, parse-IsReady}
use cicada.Parser.Pipeline.Total.{parse_nodes_total}
use cicada.Validate.Checks.{
  check_env_vars, check_exports, check_artifacts, validate_publish, validate_timeout,
  validate_retry, validate_shell, check_self_deps,
}
use cicada.Validate.Secrets.{check_secret_decls, validate_refs, check_inheritance}
use cicada.Graph.{topo_sort}

mutual
  pub data Tree : Type 0 where
    tree : String → List String → List (String × String) → Forest → Tree

  pub data Forest : Type 0 where
    leaf : Forest
    grow : Tree → Forest → Forest

abbrev listed : Forest → List Tree
listed leaf = []
listed (grow t f) = t ∷ listed f

abbrev label : Tree → String
label (tree n _ _ _) = n

abbrev values : Tree → List String
values (tree _ vs _ _) = vs

abbrev props : Tree → List (String × String)
props (tree _ _ ps _) = ps

abbrev below : Tree → List Tree
below (tree _ _ _ f) = listed f

-- All values are strings, every expression is a static test, and every duration is zero.
abbrev pub trees : Outside
trees = record {
  Node = Tree;
  Value = String;
  name = label;
  arguments = values;
  properties = props;
  children = below;
  string_of = λ s. some s;
  int_of = λ s. none;
  bool_of = λ s. none;
  Content = List Tree;
  parse_kdl = λ c. some c;
  parse_duration = λ s. some (pos 0);
  check_expr = λ s. some false;
  dir = λ s. [];
  base = λ s. s;
}

abbrev plain : String → String → Tree
plain n v = tree n (v ∷ []) [] leaf

abbrev job_tree : String → Forest → Tree
job_tree name fields = tree (str "job") (name ∷ []) [] (
    grow (plain (str "image") (str "alpine")) (
      grow (tree (str "step") (str "run" ∷ []) [] (grow (plain (str "run") (str "make")) leaf))
        fields))

-- `lib` is a fragment of one job, `self` includes itself.
abbrev library : List Tree
library = tree (str "fragment") (str "lib" ∷ []) [] (grow (job_tree (str "compile") leaf) leaf) ∷ []

abbrev self_including : List Tree
self_including = plain (str "include") (str "self") ∷ []

abbrev pub files : Resolver trees
files source folder =
    if source == str "lib"
    then ok (library, str "lib")
    else if source == str "self"
    then ok (self_including, str "self")
    else err (outside_error not_resolved)

-- The second job depends on the fragment.
abbrev pub document : List Tree
document =
    plain (str "include") (str "lib")
    ∷ job_tree (str "pack") (grow (plain (str "depends-on") (str "lib")) leaf)
    ∷ []

abbrev run_step : Step
run_step = record (new_step (str "run")) { run = str "make" ∷ [] }

abbrev built : String → List String → Job
built name deps = record (new_job name) {
  image = str "alpine";
  depends_on = deps;
  steps = run_step ∷ [];
}

abbrev pub result : Pipeline
result = record {
  name = str "ci";
  jobs = built (str "compile") [] ∷ built (str "pack") (str "compile" ∷ []) ∷ [];
  env = [];
  secrets = [];
  matrix = none;
  defaults = none;
  topo_order = some (0 ∷ 1 ∷ []);
}

pub parse-document : parse trees (some files) document (str "ci.kdl") ≡ ok result
unfolding parse check_env_vars check_secret_decls check_exports check_artifacts validate_publish
    validate_timeout validate_retry validate_shell validate_refs check_inheritance check_self_deps
    topo_sort
parse-document = refl

parse-IsReady_example : IsReady result
parse-IsReady_example =
    parse-IsReady trees (some files) document (str "ci.kdl") result parse-document

cyclic : parse trees (some files) self_including (str "ci.kdl") ≡ err circular_include
unfolding parse
cyclic = refl

-- What the fragment leaves behind.
abbrev include_lib : IncludeDirective
include_lib = record { source = str "lib"; alias = []; on_conflict = conflict_error; params = [] }

abbrev after_lib : IncludeState
after_lib = record {
  ancestors = [];
  ancestor_set = [];
  cache =
      (str "lib", record { name = str "lib"; params = []; jobs = built (str "compile") [] ∷ [] })
      ∷ [];
  aliases = (str "lib", str "compile" ∷ []) ∷ [];
}

resolve_lib :
    resolve_include trees files 2 include_lib (str "ci.kdl") new_include_state
    ≡ ok ((built (str "compile") [] ∷ [], record include_lib { alias = str "lib" }), after_lib)
unfolding resolve_include
resolve_lib = refl

resolve_include-Named_example : Named new_include_state after_lib (str "lib") (str "compile" ∷ [])
unfolding terminal_jobs
resolve_include-Named_example =
    resolve_include-Named trees files 2 include_lib (str "ci.kdl") new_include_state after_lib
      (built (str "compile") [] ∷ []) (record include_lib { alias = str "lib" }) resolve_lib

parse_nodes_total_example :
    parse_nodes trees (resolve_include trees files include_fuel) (str "ci.kdl") document
    ≡ parse_nodes trees
        (nested trees files (λ inc file s. err circular_include) (include_fuel + 3))
        (str "ci.kdl")
        document
parse_nodes_total_example =
    parse_nodes_total trees files (λ inc file s. err circular_include) 3 (str "ci.kdl") document

-- A no-break space and an em space in front, a line separator behind, and a space inside.
trim_test :
    trim_space (0xc2 ∷ 0xa0 ∷ 0xe2 ∷ 0x80 ∷ 0x83 ∷ str "a b" ++ 0xe2 ∷ 0x80 ∷ 0xa8 ∷ []) ≡ str "a b"
trim_test = refl
