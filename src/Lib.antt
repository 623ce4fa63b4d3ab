-- ===== src/Lib.antt =====
-- Verification of cicada, a runner of CI pipelines over BuildKit.
--
-- A pipeline file becomes a `Pipeline`: included fragments are merged, parameters and matrices are
-- expanded, conditions are evaluated, jobs are validated, sorted and filtered, and a runner executes
-- them as a graph. The modules follow the Go packages:
--
--   Base: strings as bytes, lists, sets and maps as lists, signed integers.
--   Model: pkg/pipeline/pipelinemodel (types.go, errors.go) and `When` of pkg/conditional/when.go.
--   Graph: `jobGraph`, `resolveDep` and `topoSort` of pkg/pipeline/validate.go.
--   Validate: `Validate` and its checks (validate.go, secret.go) and the name patterns (pipeline.go).
--   Filter: `FilterJobs` and its graph searches (filter.go).
--   Merge: `MergeJobs`, `TerminalJobs` and `ExpandAliases` (merge.go).
--   Defaults: `ApplyDefaults`, `BuildEnvScope` and `CollectImages` (pipeline.go, slicefn.go).
--   Params: parameters and placeholders (params.go, `substituteVars` of expand.go).
--   Conditions: `EvaluateConditions` (pkg/pipeline/when.go) and `Evaluate` of pkg/conditional/when.go.
--   Expand: matrices (expand.go, `Combinations` of pipelinemodel/types.go).
--   Parser: pkg/parser, from the nodes of a document to the validated pipeline; Helpers has helpers.go and
--     nodes.go, Elements and Jobs have elements.go, job.go and defaults.go, Includes has include.go, and
--     Pipeline has parser.go and resolver.go.
--   Builder: internal/builder; Quote has the quoting of words, Steps, Jobs and Build the definitions, and Llb
--     the calls of BuildKit's LLB library, which are a parameter.
--   Runner: `retryDelay`, `checkedMul` and `retryJob` (internal/runner/node.go), `runNode`, `Run` and
--     `filterSuccessful` (node.go, runner.go) as a step relation on the phases of the nodes, `buildDAG` and
--     `detectCycles` (runner.go), the redaction of secrets (redact.go), and `groupPublishes` (export.go).
--   Visualize: the graph of a pipeline and its layers (internal/visualize/graph.go).
--   Cache: the collector of cache statistics and its report (internal/cache/stats.go).
--
-- A Go function keeps its name in snake_case. `(T, error)` is `Result T`, a lone `error` is `Option
-- Error`, and an error is its sentinel, without the text that `fmt.Errorf` wraps around it. A slice is
-- a list, a set is the list of its keys, a map is an association list, and a pointer that may be nil is
-- an `Option`. `Clone` has no counterpart, since values are not shared here. Strings are bytes.
--
-- Recursions that Go bounds by its data take fuel: `visit` one more than the number of jobs,
-- `visit_node` likewise,
-- `bfs_loop` and `add_transitive_deps` one more than the number of map entries. The theorems about them
-- show that the fuel does not run out. Where Go ranges over a map, in no fixed order, the list order is
-- one of the possible orders.
--
-- The runner's goroutines are interleaved in every order: a move of one node is a step, and a cancelled
-- context may be noticed at any wait. A solve, with its retries and timeouts, ends in one of two ways.
--
-- The KDL library, the resolver that opens files, `time.ParseDuration`, the path functions and the CEL compiler
-- are the record `Outside` and the resolver of Parser; the CEL evaluator is a parameter of `evaluate_conditions`.
-- `resolve_include` has fuel for 65 nested includes, one more than the code admits.
--
-- Not modelled: the solves of BuildKit, the daemon, the file system, the commands and the terminal displays, which
-- consist of calls into other programs and libraries.
pub mod Base
pub mod Model
pub mod Graph
pub mod Validate
pub mod Filter
pub mod Merge
pub mod Defaults
pub mod Params
pub mod Expand
pub mod Conditions
pub mod Parser
pub mod Runner
pub mod Visualize
pub mod Builder
pub mod Cache
