-- ===== src/Cache/Tally.antt =====
-- What a report says of the events that were observed.
use cicada.Base.{
  ◌≤◌, ◌≡◌, refl, ◌∙◌, ap, String, List, [], ◌∷◌, Option, Bool, true, not, is_empty, All, contains,
  contains-cons_self, distinct, length, keep, map, string_eq, arith,
}
use cicada.Cache.{
  Duration, VertexStat, Collector, JobReport, new_collector, entries, Vertex, job_report, report,
  sum_ops,
}
use cicada.Cache.Counted.{Counted}
use cicada.Cache.Observed.{observed, observe_all, observe_all-Counted, observe_all-seen}

is_empty-same :
    (xs ys : List String)
    → ((d : String) → contains xs d ≡ contains ys d)
    → is_empty xs ≡ is_empty ys
is_empty-same [] [] same = refl
is_empty-same [] (y ∷ ys) same = ground (arith, same y, contains-cons_self y ys)
is_empty-same (x ∷ xs) [] same = ground (arith, same x, contains-cons_self x xs)
is_empty-same (x ∷ xs) (y ∷ ys) same = refl

is_empty-length {ℓ κ} :
    {A : Type ℓ} {B : Type κ} (xs : List A) (ys : List B)
    → length xs ≡ length ys
    → is_empty xs ≡ is_empty ys
is_empty-length [] [] e = refl
is_empty-length [] (y ∷ ys) e = ground (arith, e)
is_empty-length (x ∷ xs) [] e = ground (arith, e)
is_empty-length (x ∷ xs) (y ∷ ys) e = refl

All-map {ℓ κ μ} :
    {A : Type ℓ} {B : Type κ} (P : B → Type μ) (f : A → B) (xs : List A)
    → ((x : A) → P (f x))
    → All P (map f xs)
All-map P f [] h = tt
All-map P f (x ∷ xs) h = (h x, All-map P f xs h)

length-keep_le {ℓ} : {A : Type ℓ} (p : A → Bool) (xs : List A) → length (keep p xs) ≤ length xs
length-keep_le p [] = omega arith
length-keep_le p (x ∷ xs) = ground (arith, length-keep_le p xs)

job_names :
    (c : Collector) (js : List String)
    → map (λ (r : JobReport). r.job_name) (map (job_report c) js) ≡ js
unfolding job_report
job_names c [] = refl
job_names c (j ∷ js) = ap (λ l. j ∷ l) (job_names c js)

-- A job's entry: its operations are the distinct digests that were given, and those cached are among them.
pub record IsCount (given : String → List String) (r : JobReport) : Type 0 where
  pub digests : List String
  pub once : distinct digests ≡ true
  pub same : (d : String) → contains digests d ≡ contains (given r.job_name) d
  pub total : r.total_ops ≡ length digests
  pub hits : r.cached_ops ≤ r.total_ops

-- One entry for each job that has such a digest.
pub record IsTally (given : String → List String) (reports : List JobReport) : Type 0 where
  pub jobs : distinct (map (λ (r : JobReport). r.job_name) reports) ≡ true
  pub listed :
      (j : String)
      → contains (map (λ (r : JobReport). r.job_name) reports) j ≡ not (is_empty (given j))
  pub counts : All (IsCount given) reports
  pub rate : sum_ops (λ r. r.cached_ops) reports ≤ sum_ops (λ r. r.total_ops) reports

module _ (Time : Type 0) (since : Time → Time → Duration)
    (events : List (String × Option (List (Vertex Time since)))) where
  abbrev final : Collector
  final = observe_all Time since events new_collector

  seen-same :
      (j d : String) → contains (entries final.seen j) d ≡ contains (observed Time since events j) d
  seen-same j d = observe_all-seen Time since events j d new_collector

  final-Counted : Counted final
  final-Counted =
      observe_all-Counted Time since events new_collector
        record { jobs = refl; listed = λ j. refl; sizes = λ j. refl; digests = λ j. refl }

  job_report-IsCount : (j : String) → IsCount (observed Time since events) (job_report final j)
  unfolding job_report
  job_report-IsCount j = record {
    digests = entries final.seen j;
    once = final-Counted.digests j;
    same = seen-same j;
    total = final-Counted.sizes j;
    hits = length-keep_le (λ (s : VertexStat). s.cached) (entries final.stats j);
  }

  total_rate :
      (js : List String)
      → sum_ops (λ r. r.cached_ops) (map (job_report final) js)
        ≤ sum_ops (λ r. r.total_ops) (map (job_report final) js)
  total_rate [] = omega arith
  total_rate (j ∷ js) = ground (arith, (job_report-IsCount j).hits, total_rate js)

  -- The report after any events has exactly one entry for each job of which a vertex with a digest has started and
  -- completed. An entry's operations are as many as the distinct digests of such vertices, however often each was
  -- streamed, and its cached ones are no more; nor are there more cached ones overall.
  pub report-IsTally : IsTally (observed Time since events) (report final)
  unfolding report
  report-IsTally = record {
    jobs = ap distinct (job_names final final.order) ∙ final-Counted.jobs;
    listed = λ j.
        ap (λ l. contains l j) (job_names final final.order)
        ∙ final-Counted.listed j
        ∙ ap not (
            is_empty-length (entries final.stats j) (entries final.seen j) (final-Counted.sizes j)
            ∙ is_empty-same (entries final.seen j) (observed Time since events j) (seen-same j));
    counts =
        All-map (IsCount (observed Time since events)) (job_report final) final.order
          job_report-IsCount;
    rate = total_rate final.order;
  }
