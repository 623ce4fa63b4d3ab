-- ===== src/Cache.antt =====
-- internal/cache/stats.go: how many operations of each job came from the cache.
pub mod Counted
pub mod Observed
pub mod Tally
mod Tests
use cicada.Base.{
  ℕ, ◌+◌, ◌%◌, ◌^◌, String, List, [], ◌∷◌, ◌++◌, Option, none, some, Bool, true, false,
  if◌then◌else◌, is_empty, contains, length, keep, lookup, insert, map, string_eq,
}

-- The 64 bits of a duration, as its sum is computed.
abbrev pub Duration : Type 0
Duration = ℕ

pub record VertexStat : Type 0 where
  pub name : String
  pub cached : Bool
  pub duration : Duration

pub record JobReport : Type 0 where
  pub job_name : String
  pub total_ops : ℕ
  pub cached_ops : ℕ
  pub duration : Duration

pub record Collector : Type 0 where
  pub order : List String
  pub stats : List (String × List VertexStat)
  pub seen : List (String × List String)

abbrev pub new_collector : Collector
new_collector = record { order = []; stats = []; seen = [] }

-- What a map of slices or sets has for a key; a missing entry is empty.
abbrev pub entries {ℓ} : {V : Type ℓ} → List (String × List V) → String → List V
entries {V} m k = elim (lookup m k) as (λ _. List V) [ none ↦ [] | some vs ↦ vs ]

-- `time.Time`, and its `Sub`.
module _ (Time : Type 0) (since : Time → Time → Duration) where
  -- A vertex of BuildKit's status.
  pub record Vertex : Type 0 where
    pub digest : String
    pub name : String
    pub started : Option Time
    pub completed : Option Time
    pub cached : Bool

  -- The times of a vertex that has both.
  abbrev pub times : Vertex → Option (Time × Time)
  times v = elim v.started as (λ _. Option (Time × Time)) [
    | none ↦ none
    | some s ↦ elim v.completed as (λ _. Option (Time × Time)) [
      | none ↦ none
      | some e ↦ some (s, e)
    ]
  ]

  abbrev pub record_vertex : String → Vertex → Time × Time → Collector → Collector
  record_vertex job v (start, end) c =
      let stat : VertexStat = record {
        name = v.name;
        cached = v.cached;
        duration = since end start;
      } in
      record {
        order = if is_empty (entries c.stats job) then c.order ++ job ∷ [] else c.order;
        stats = insert c.stats job (entries c.stats job ++ stat ∷ []);
        seen = insert c.seen job (v.digest ∷ entries c.seen job);
      }

  -- A vertex that is nil is one without times.
  unfoldable pub observe_vertex : String → Vertex → Collector → Collector
  observe_vertex job v c = elim (times v) as (λ _. Collector) [
    | none ↦ c
    | some t ↦
        let recorded = record_vertex job v t c in
        if is_empty v.digest
        then c
        else if contains (entries c.seen job) v.digest
        then c
        else recorded
  ]

  unfoldable pub observe_vertices : String → List Vertex → Collector → Collector
  unfolding observe_vertex
  observe_vertices job [] c = c
  observe_vertices job (v ∷ vs) c = observe_vertices job vs (observe_vertex job v c)

  -- `if c.seen[jobName] == nil { c.seen[jobName] = make(map[string]struct{}) }`
  abbrev pub with_seen : String → Collector → Collector
  with_seen job c = elim (lookup c.seen job) as (λ _. Collector) [
    | none ↦ record c { seen = insert c.seen job [] }
    | some _ ↦ c
  ]

  -- The status may be nil.
  unfoldable pub observe : String → Option (List Vertex) → Collector → Collector
  unfolding observe_vertices
  observe job none c = c
  observe job (some vs) c = observe_vertices job vs (with_seen job c)

abbrev pub total_duration : List VertexStat → Duration
total_duration [] = 0
total_duration (s ∷ stats) = (s.duration + total_duration stats) % 2 ^ 64

unfoldable pub job_report : Collector → String → JobReport
job_report c job =
    let stats = entries c.stats job in
    record {
      job_name = job;
      total_ops = length stats;
      cached_ops = length (keep (λ (s : VertexStat). s.cached) stats);
      duration = total_duration stats;
    }

unfoldable pub report : Collector → List JobReport
unfolding job_report
report c = map (job_report c) c.order

-- The two counts that `HitRate` divides.
abbrev pub sum_ops : (JobReport → ℕ) → List JobReport → ℕ
sum_ops count [] = 0
sum_ops count (r ∷ reports) = count r + sum_ops count reports
