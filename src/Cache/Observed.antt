-- ===== src/Cache/Observed.antt =====
-- Which digests a collector has seen.
use cicada.Base.{
  ◌≡◌, refl, ◌∙◌, ap, String, List, [], ◌∷◌, ◌++◌, Option, none, some, true, if◌then◌else◌, ◌&&◌,
  ◌||◌, ◌==◌, is_empty, contains, contains-append, string_eq, arith, Option-cases, Bool-cases, inl,
  inr,
}
use cicada.Cache.{
  Duration, Collector, entries, Vertex, times, record_vertex, observe_vertex, observe_vertices,
  with_seen, observe,
}
use cicada.Cache.Counted.{
  Counted, entries-insert, observe_vertex-skipped, observe_vertex-recorded, observe-Counted,
  entries-with_seen,
}

module _ (Time : Type 0) (since : Time → Time → Duration) where
  -- The digest of a vertex that has ended and has one.
  unfoldable pub ended : Vertex Time since → List String
  ended v = elim (times Time since v) as (λ _. List String) [
    | none ↦ []
    | some _ ↦ if is_empty v.digest then [] else v.digest ∷ []
  ]

  unfoldable pub all_ended : List (Vertex Time since) → List String
  unfolding ended
  all_ended [] = []
  all_ended (v ∷ vs) = ended v ++ all_ended vs

  -- The digests that a run's events give for a job.
  unfoldable pub observed : List (String × Option (List (Vertex Time since))) → String → List String
  unfolding all_ended
  observed [] j = []
  observed ((job, none) ∷ events) j = observed events j
  observed ((job, some vs) ∷ events) j =
      let rest = observed events j in if j == job then all_ended vs ++ rest else rest

  -- The collector after a run's events.
  unfoldable pub observe_all :
      List (String × Option (List (Vertex Time since))) → Collector → Collector
  unfolding observe
  observe_all [] c = c
  observe_all ((job, status) ∷ events) c = observe_all events (observe Time since job status c)

  pub observe_all-Counted :
      (events : List (String × Option (List (Vertex Time since)))) (c : Collector)
      → Counted c
      → Counted (observe_all events c)
  unfolding observe_all
  observe_all-Counted [] c i = i
  observe_all-Counted ((job, status) ∷ events) c i =
      observe_all-Counted events (observe Time since job status c)
        (observe-Counted Time since job status c i)

  ended-skipped : (v : Vertex Time since) → times Time since v ≡ none → ended v ≡ []
  unfolding ended
  ended-skipped v absent = rw (ended, absent) refl

  ended-recorded :
      (v : Vertex Time since) (t : Time × Time)
      → times Time since v ≡ some t
      → ended v ≡ (if is_empty v.digest then [] else v.digest ∷ [])
  unfolding ended
  ended-recorded v t given = rw (ended, given) refl

  observe_vertex-seen :
      (job j d : String) (v : Vertex Time since) (c : Collector)
      → contains (entries (observe_vertex Time since job v c).seen j) d
        ≡ (contains (entries c.seen j) d || ((j == job) && contains (ended v) d))
  unfolding ended
  observe_vertex-seen job j d v c = elim (Option-cases (times Time since v)) as (λ _. Goal) [
    | inl absent ↦
        ap (λ (c' : Collector). contains (entries c'.seen j) d)
          (observe_vertex-skipped Time since job v c absent)
        ∙ skipped absent
    | inr (t, given) ↦
        ap (λ (c' : Collector). contains (entries c'.seen j) d)
          (observe_vertex-recorded Time since job v t c given)
        ∙ recorded t given
  ]
    where
      Goal : Type 0
      Goal =
          contains (entries (observe_vertex Time since job v c).seen j) d
          ≡ (contains (entries c.seen j) d || ((j == job) && contains (ended v) d))

      skipped :
          times Time since v ≡ none
          → contains (entries c.seen j) d
            ≡ (contains (entries c.seen j) d || ((j == job) && contains (ended v) d))
      skipped absent = ground (arith, ap (λ l. contains l d) (ended-skipped v absent))

      is_known :
          contains (entries c.seen job) v.digest ≡ true
          → (j == job) ≡ true
          → (d == v.digest) ≡ true
          → contains (entries c.seen j) d ≡ true
      is_known again this that =
          ap (λ k. contains (entries c.seen k) d) ((string_eq.eqb_iff j job).0 this)
          ∙ ap (contains (entries c.seen job)) ((string_eq.eqb_iff d v.digest).0 that)
          ∙ again

      added :
          contains (if j == job then v.digest ∷ entries c.seen job else entries c.seen j) d
          ≡ (contains (entries c.seen j) d || ((j == job) && (d == v.digest)))
      added = elim (Bool-cases (j == job)) [
        | inl this ↦ rw this (
            ground
              (arith, ap (λ k. contains (entries c.seen k) d) ((string_eq.eqb_iff j job).0 this)))
        | inr other ↦ rw other (ground (arith))
      ]

      recorded :
          (t : Time × Time)
          → times Time since v ≡ some t
          → contains
              (entries
                (if is_empty v.digest
                  then c
                  else if contains (entries c.seen job) v.digest
                  then c
                  else record_vertex Time since job v t c).seen
                j)
              d
            ≡ (contains (entries c.seen j) d || ((j == job) && contains (ended v) d))
      recorded t given = elim (Bool-cases (is_empty v.digest)) [
        | inl nameless ↦
            rw nameless
              (ground (arith, ap (λ l. contains l d) (ended-recorded v t given), nameless))
        | inr named ↦ elim (Bool-cases (contains (entries c.seen job) v.digest)) [
          | inl again ↦
              rw (named, again)
                (ground
                  (arith, ap (λ l. contains l d) (ended-recorded v t given), named, is_known again))
          | inr fresh ↦
              rw (named, fresh)
                (ap (λ l. contains l d)
                    (entries-insert c.seen job j (v.digest ∷ entries c.seen job))
                  ∙ added
                  ∙ ground (arith, ap (λ l. contains l d) (ended-recorded v t given), named))
        ]
      ]

  observe_vertices-seen :
      (job j d : String) (vs : List (Vertex Time since)) (c : Collector)
      → contains (entries (observe_vertices Time since job vs c).seen j) d
        ≡ (contains (entries c.seen j) d || ((j == job) && contains (all_ended vs) d))
  unfolding observe_vertices all_ended
  observe_vertices-seen job j d [] c = ground (arith)
  observe_vertices-seen job j d (v ∷ vs) c =
      observe_vertices-seen job j d vs (observe_vertex Time since job v c)
      ∙ ground (arith, observe_vertex-seen job j d v c, contains-append (ended v) (all_ended vs) d)

  pub observe_all-seen :
      (events : List (String × Option (List (Vertex Time since)))) (j d : String) (c : Collector)
      → contains (entries (observe_all events c).seen j) d
        ≡ (contains (entries c.seen j) d || contains (observed events j) d)
  unfolding observe_all observe observed
  observe_all-seen [] j d c = ground (arith)
  observe_all-seen ((job, none) ∷ events) j d c = observe_all-seen events j d c
  observe_all-seen ((job, some vs) ∷ events) j d c =
      observe_all-seen events j d (observe Time since job (some vs) c)
      ∙ ground (
        arith,
        observe_vertices-seen job j d vs (with_seen Time since job c),
        ap (λ l. contains l d) (entries-with_seen Time since job j c),
        contains-append (all_ended vs) (observed events j) d,
      )
