-- ===== src/Cache/Counted.antt =====
-- Every vertex is counted once.
use cicada.Base.{
  ◌≡◌, refl, sym, ◌∙◌, ap, String, List, [], ◌∷◌, ◌++◌, Option, none, some, true, false,
  if◌then◌else◌, not, ◌==◌, is_empty, contains, contains-append, distinct, distinct-concat, length,
  length-append, lookup, insert, lookup-insert, string_eq, arith, Option-cases, Bool-cases, inl,
  inr, eqb_refl,
}
use cicada.Cache.{
  Duration, VertexStat, Collector, entries, Vertex, times, record_vertex, observe_vertex,
  observe_vertices, with_seen, observe,
}

pub entries-insert {ℓ} :
    {V : Type ℓ} (m : List (String × List V)) (k j : String) (vs : List V)
    → entries (insert m k vs) j ≡ (if j == k then vs else entries m j)
entries-insert m k j vs = ground (arith, lookup-insert m k j vs)

not_empty-concat {ℓ} : {A : Type ℓ} (xs : List A) (x : A) → is_empty (xs ++ x ∷ []) ≡ false
not_empty-concat [] x = refl
not_empty-concat (y ∷ xs) x = refl

-- One statistic per digest; the order lists the jobs that have any.
pub record Counted (c : Collector) : Type 0 where
  pub jobs : distinct c.order ≡ true
  pub listed : (j : String) → contains c.order j ≡ not (is_empty (entries c.stats j))
  pub sizes : (j : String) → length (entries c.stats j) ≡ length (entries c.seen j)
  pub digests : (j : String) → distinct (entries c.seen j) ≡ true

module _ (Time : Type 0) (since : Time → Time → Duration) where
  record_vertex-Counted :
      (job : String) (v : Vertex Time since) (t : Time × Time) (c : Collector)
      → contains (entries c.seen job) v.digest ≡ false
      → Counted c
      → Counted (record_vertex Time since job v t c)
  record_vertex-Counted job v (start, end) c fresh i = record {
    jobs = elim (Bool-cases (is_empty (entries c.stats job))) [
      | inl first ↦
          let absent : contains c.order job ≡ false = i.listed job ∙ ap not first in
          rw first (distinct-concat c.order job i.jobs absent)
      | inr later ↦ rw later i.jobs
    ];
    listed = λ j. elim (Bool-cases (j == job)) [
      | inl this ↦
          let same : job ≡ j = sym ((string_eq.eqb_iff j job).0 this) in
          let filled : entries (insert c.stats job (entries c.stats job ++ stat ∷ [])) j
              ≡ entries c.stats job ++ stat ∷ [] =
            entries-insert c.stats job j (entries c.stats job ++ stat ∷ []) ∙ rw this refl in
          let after : not
                (is_empty (entries (insert c.stats job (entries c.stats job ++ stat ∷ [])) j))
              ≡ true =
            ap (λ l. not (is_empty l)) filled
            ∙ ap not (not_empty-concat (entries c.stats job) stat) in
          ap (contains (if is_empty (entries c.stats job) then c.order ++ job ∷ [] else c.order))
            (sym same)
          ∙ named
          ∙ sym after
      | inr other ↦
          let kept : entries (insert c.stats job (entries c.stats job ++ stat ∷ [])) j
              ≡ entries c.stats j =
            entries-insert c.stats job j (entries c.stats job ++ stat ∷ []) ∙ rw other refl in
          same_order j other ∙ i.listed j ∙ sym (ap (λ l. not (is_empty l)) kept)
    ];
    sizes = λ j. ap length (stats_at j) ∙ same_size j ∙ sym (ap length (seen_at j));
    digests = λ j. ap distinct (seen_at j) ∙ new_digest j;
  }
    where
      stat : VertexStat
      stat = record { name = v.name; cached = v.cached; duration = since end start }

      named :
          contains (if is_empty (entries c.stats job) then c.order ++ job ∷ [] else c.order) job
          ≡ true
      named = elim (Bool-cases (is_empty (entries c.stats job))) [
        | inl first ↦
            rw first (contains-append c.order (job ∷ []) job ∙ ground (arith, eqb_refl job))
        | inr later ↦ rw later (i.listed job ∙ ap not later)
      ]

      same_order :
          (j : String)
          → (j == job) ≡ false
          → contains (if is_empty (entries c.stats job) then c.order ++ job ∷ [] else c.order) j
            ≡ contains c.order j
      same_order j other = elim (Bool-cases (is_empty (entries c.stats job))) [
        | inl first ↦ rw first (contains-append c.order (job ∷ []) j ∙ ground (arith, other))
        | inr later ↦ rw later refl
      ]

      stats_at :
          (j : String)
          → entries (insert c.stats job (entries c.stats job ++ stat ∷ [])) j
            ≡ (if j == job then entries c.stats job ++ stat ∷ [] else entries c.stats j)
      stats_at j = entries-insert c.stats job j (entries c.stats job ++ stat ∷ [])

      seen_at :
          (j : String)
          → entries (insert c.seen job (v.digest ∷ entries c.seen job)) j
            ≡ (if j == job then v.digest ∷ entries c.seen job else entries c.seen j)
      seen_at j = entries-insert c.seen job j (v.digest ∷ entries c.seen job)

      one_more : length (entries c.stats job ++ stat ∷ []) ≡ length (v.digest ∷ entries c.seen job)
      one_more = length-append (entries c.stats job) (stat ∷ []) ∙ omega (arith, i.sizes job)

      same_size :
          (j : String)
          → length (if j == job then entries c.stats job ++ stat ∷ [] else entries c.stats j)
            ≡ length (if j == job then v.digest ∷ entries c.seen job else entries c.seen j)
      same_size j = elim (Bool-cases (j == job)) [
        | inl this ↦ rw this one_more
        | inr other ↦ rw other (i.sizes j)
      ]

      new_digest :
          (j : String)
          → distinct (if j == job then v.digest ∷ entries c.seen job else entries c.seen j) ≡ true
      new_digest j = elim (Bool-cases (j == job)) [
        | inl this ↦ rw this (ground (arith, fresh, i.digests job))
        | inr other ↦ rw other (i.digests j)
      ]

  pub observe_vertex-skipped :
      (job : String) (v : Vertex Time since) (c : Collector)
      → times Time since v ≡ none
      → observe_vertex Time since job v c ≡ c
  unfolding observe_vertex
  observe_vertex-skipped job v c absent = rw (observe_vertex, absent) refl

  pub observe_vertex-recorded :
      (job : String) (v : Vertex Time since) (t : Time × Time) (c : Collector)
      → times Time since v ≡ some t
      → observe_vertex Time since job v c ≡ (
          if is_empty v.digest
          then c
          else if contains (entries c.seen job) v.digest
          then c
          else record_vertex Time since job v t c)
  unfolding observe_vertex
  observe_vertex-recorded job v t c given = rw (observe_vertex, given) refl

  observe_vertex-Counted :
      (job : String) (v : Vertex Time since) (c : Collector)
      → Counted c
      → Counted (observe_vertex Time since job v c)
  observe_vertex-Counted job v c i =
      elim (Option-cases (times Time since v))
        as (λ _. Counted (observe_vertex Time since job v c)) [
          | inl absent ↦ rw (observe_vertex-skipped job v c absent) i
          | inr (t, given) ↦ rw (observe_vertex-recorded job v t c given) (new t)
        ]
    where
      new :
          (t : Time × Time)
          → Counted (
              if is_empty v.digest
              then c
              else if contains (entries c.seen job) v.digest
              then c
              else record_vertex Time since job v t c)
      new t = elim (Bool-cases (is_empty v.digest)) [
        | inl nameless ↦ rw nameless i
        | inr named ↦ elim (Bool-cases (contains (entries c.seen job) v.digest)) [
          | inl again ↦ rw (named, again) i
          | inr fresh ↦ rw (named, fresh) (record_vertex-Counted job v t c fresh i)
        ]
      ]

  observe_vertices-Counted :
      (job : String) (vs : List (Vertex Time since)) (c : Collector)
      → Counted c
      → Counted (observe_vertices Time since job vs c)
  unfolding observe_vertices
  observe_vertices-Counted job [] c i = i
  observe_vertices-Counted job (v ∷ vs) c i =
      observe_vertices-Counted job vs (observe_vertex Time since job v c)
        (observe_vertex-Counted job v c i)

  with_seen-kept :
      (job : String) (c : Collector) (ds : List String)
      → lookup c.seen job ≡ some ds
      → with_seen Time since job c ≡ c
  with_seen-kept job c ds given = rw (with_seen, given) refl

  with_seen-set :
      (job : String) (c : Collector)
      → lookup c.seen job ≡ none
      → with_seen Time since job c ≡ record c { seen = insert c.seen job [] }
  with_seen-set job c absent = rw (with_seen, absent) refl

  pub entries-with_seen :
      (job j : String) (c : Collector)
      → entries (with_seen Time since job c).seen j ≡ entries c.seen j
  entries-with_seen job j c =
      elim (Option-cases (lookup c.seen job))
        as (λ _. entries (with_seen Time since job c).seen j ≡ entries c.seen j) [
          | inr (ds, given) ↦
              ap (λ (c' : Collector). entries c'.seen j) (with_seen-kept job c ds given)
          | inl absent ↦
              ap (λ (c' : Collector). entries c'.seen j) (with_seen-set job c absent) ∙ unset absent
        ]
    where
      unset : lookup c.seen job ≡ none → entries (insert c.seen job []) j ≡ entries c.seen j
      unset absent = elim (Bool-cases (j == job)) [
        | inr other ↦ entries-insert c.seen job j [] ∙ rw other refl
        | inl this ↦
            let same : job ≡ j = sym ((string_eq.eqb_iff j job).0 this) in
            entries-insert c.seen job j []
            ∙ rw this (sym (ap (entries c.seen) (sym same) ∙ rw (entries, absent) refl))
      ]

  with_seen-order : (job : String) (c : Collector) → (with_seen Time since job c).order ≡ c.order
  with_seen-order job c =
      elim (Option-cases (lookup c.seen job))
        as (λ _. (with_seen Time since job c).order ≡ c.order) [
          | inr (ds, given) ↦ ap (λ (c' : Collector). c'.order) (with_seen-kept job c ds given)
          | inl absent ↦ ap (λ (c' : Collector). c'.order) (with_seen-set job c absent)
        ]

  with_seen-stats : (job : String) (c : Collector) → (with_seen Time since job c).stats ≡ c.stats
  with_seen-stats job c =
      elim (Option-cases (lookup c.seen job))
        as (λ _. (with_seen Time since job c).stats ≡ c.stats) [
          | inr (ds, given) ↦ ap (λ (c' : Collector). c'.stats) (with_seen-kept job c ds given)
          | inl absent ↦ ap (λ (c' : Collector). c'.stats) (with_seen-set job c absent)
        ]

  with_seen-Counted :
      (job : String) (c : Collector) → Counted c → Counted (with_seen Time since job c)
  with_seen-Counted job c i = record {
    jobs = ap distinct (with_seen-order job c) ∙ i.jobs;
    listed = λ j.
        ap (λ l. contains l j) (with_seen-order job c)
        ∙ i.listed j
        ∙ sym (ap (λ m. not (is_empty (entries m j))) (with_seen-stats job c));
    sizes = λ j.
        ap (λ m. length (entries m j)) (with_seen-stats job c)
        ∙ i.sizes j
        ∙ sym (ap length (entries-with_seen job j c));
    digests = λ j. ap distinct (entries-with_seen job j c) ∙ i.digests j;
  }

  pub observe-Counted :
      (job : String) (status : Option (List (Vertex Time since))) (c : Collector)
      → Counted c
      → Counted (observe Time since job status c)
  unfolding observe
  observe-Counted job none c i = i
  observe-Counted job (some vs) c i =
      observe_vertices-Counted job vs (with_seen Time since job c) (with_seen-Counted job c i)
