-- ===== src/Visualize.antt =====
-- internal/visualize/graph.go: the graph that the renderers draw.
pub mod Raise
pub mod Depths
pub mod Grouping
pub mod Layers
mod Tests
use cicada.Base.{
  ℕ, zero, suc, ◌+◌, String, str, List, [], ◌∷◌, ◌++◌, Option, none, some, Bool, true, false,
  if◌then◌else◌, not, ◌||◌, is_empty, any, get_or, set, replicate, length, lookup, insert, map, leb,
  string_eq,
}
use cicada.Model.{Job, Step, Pipeline, Artifact, Dimension}
use cicada.Graph.{job_deps}

pub data EdgeKind : Type 0 where
  depends_edge artifact_edge : EdgeKind

pub record Edge : Type 0 where
  pub from : String
  pub to : String
  pub label : String
  pub kind : EdgeKind

pub record StepInfo : Type 0 where
  pub name : String
  pub when : String
  pub has_secrets : Bool
  pub allow_failure : Bool

pub record Node : Type 0 where
  pub id : String
  pub steps : List StepInfo
  pub when : String
  pub matrix : List String
  pub image : String
  pub has_secrets : Bool
  pub publish : String

pub record Graph : Type 0 where
  pub title : String
  pub nodes : List Node
  pub edges : List Edge
  pub layers : List (List ℕ)

-- strings.Join(values, ",")
abbrev pub comma_join : List String → String
comma_join [] = []
comma_join (v ∷ vs) = let rest = comma_join vs in if is_empty vs then v else v ++ str "," ++ rest

unfoldable pub build_step : Step → StepInfo
build_step s = record {
  name = s.name;
  when = elim s.when as (λ _. String) [ none ↦ [] | some w ↦ w.expression ];
  has_secrets = not (is_empty s.secrets);
  allow_failure = s.allow_failure;
}

unfoldable pub build_node : Job → Node
unfolding build_step
build_node j = record {
  id = j.name;
  steps = map build_step j.steps;
  when = elim j.when as (λ _. String) [ none ↦ [] | some w ↦ w.expression ];
  matrix = elim j.matrix as (λ _. List String) [
    | none ↦ []
    | some m ↦ map (λ (d : Dimension). d.name ++ str "=" ++ comma_join d.values) m.dimensions
  ];
  image = j.image;
  has_secrets = not (is_empty j.secrets) || any (λ (s : Step). not (is_empty s.secrets)) j.steps;
  publish = elim j.publish as (λ _. String) [ none ↦ [] | some p ↦ p.image ];
}

unfoldable pub build_nodes : List Job → List Node
unfolding build_node
build_nodes jobs = map build_node jobs

-- The edges into one job, and into all.
abbrev pub job_edges : Job → List Edge
job_edges j =
    map (λ dep. record { from = dep; to = j.name; label = []; kind = depends_edge }) j.depends_on
    ++ map
        (λ (a : Artifact). record {
          from = a.from;
          to = j.name;
          label = a.source ++ str " -> " ++ a.target;
          kind = artifact_edge;
        })
        j.artifacts

pub build_edges : List Job → List Edge
build_edges [] = []
build_edges (j ∷ jobs) = job_edges j ++ build_edges jobs

-- `nameToIdx`; a later job of the same name wins.
pub name_index : ℕ → List Job → List (String × ℕ) → List (String × ℕ)
name_index i [] index = index
name_index i (j ∷ jobs) index = name_index (suc i) jobs (insert index j.name i)

abbrev pub max : ℕ → ℕ → ℕ
max a b = if leb a b then b else a

-- `depths[idx] = max(depths[idx], depths[di]+1)` for each dependency that has an index.
pub raise_depth : List (String × ℕ) → ℕ → List String → List ℕ → List ℕ
raise_depth index idx [] depths = depths
raise_depth index idx (dep ∷ deps) depths = elim (lookup index dep) as (λ _. List ℕ) [
  | none ↦ raise_depth index idx deps depths
  | some di ↦
      raise_depth index idx deps
        (set depths idx (max (get_or depths idx 0) (get_or depths di 0 + 1)))
]

-- The loop over the topological order. An index beyond the jobs, at which the code would panic, has no dependencies.
pub compute_depths : List Job → List (String × ℕ) → List ℕ → List ℕ → List ℕ
unfolding raise_depth
compute_depths jobs index [] depths = depths
compute_depths jobs index (idx ∷ order) depths =
    compute_depths jobs index order (raise_depth index idx (job_deps jobs idx) depths)

-- slices.Max, of a list that is not empty
abbrev pub max_of : List ℕ → ℕ
max_of [] = 0
max_of (d ∷ ds) = max d (max_of ds)

-- `grouped[d] = append(grouped[d], i)` for each depth `d` with its position `i`.
pub group_from : ℕ → List ℕ → List (List ℕ) → List (List ℕ)
group_from i [] grouped = grouped
group_from i (d ∷ ds) grouped =
    group_from (suc i) ds (set grouped d (get_or grouped d [] ++ i ∷ []))

abbrev pub range_from : ℕ → ℕ → List ℕ
range_from i zero = []
range_from i (suc n) = i ∷ range_from (suc i) n

-- A missing order and an empty one are the same slice length.
abbrev pub order_of : Option (List ℕ) → List ℕ
order_of none = []
order_of (some order) = order

unfoldable pub build_layers : List Job → List ℕ → List (String × ℕ) → List (List ℕ)
unfolding compute_depths group_from
build_layers jobs order index =
    if is_empty jobs
    then []
    else if is_empty order
    then range_from 0 (length jobs) ∷ []
    else let depths = compute_depths jobs index order (replicate (length jobs) 0) in
      group_from 0 depths (replicate (max_of depths + 1) [])

unfoldable pub build_graph : Pipeline → Graph
unfolding build_nodes build_edges name_index build_layers
build_graph p = record {
  title = p.name;
  nodes = build_nodes p.jobs;
  edges = build_edges p.jobs;
  layers = build_layers p.jobs (order_of p.topo_order) (name_index 0 p.jobs []);
}
