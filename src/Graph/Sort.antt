-- ===== src/Graph/Sort.antt =====
-- `topoSort` as a whole: what an order, a cycle and a missing job mean, and that it always ends.
use cicada.Base.{
  ℕ, zero, suc, ◌+◌, ◌≡◌, refl, ◌∙◌, ◌<◌, ◌↔◌, ◌≢◌, true, false, String, List, length, contains,
  position, lookup, string_eq, nat_eq, arith, length-replicate, ltb, subst, none, get_or_beyond,
  ◌⊎◌, inl, inr, get_elem?, get_elem?-lt, Option-cases,
}
use cicada.Model.{Result, ok, err, cycle_detected, unknown_dep, ◌>>=◌}
use cicada.Graph.{JobGraph, Dfs, unvisited, mark_of, deps_of, visit, visit_from, blank, topo_sort}
use cicada.Graph.Marks.{is_visited, is_visiting, unseen, unseen-replicate, get_or-replicate}
use cicada.Graph.Spec.{Walk, one, more, IsTopological, Fault, InRange}
use cicada.Graph.Deps.{Inv, Outcome}
use cicada.Graph.Visit.{visit-Outcome}

module _ (g : JobGraph) where
  -- Between two rounds of the loop: no job is being visited, and those below `i` are visited.
  record Between (i : ℕ) (s : Dfs) : Type 0 where
    inv : Inv g s
    idle : (v : ℕ) → is_visiting (mark_of s v) ≡ false
    done : (v : ℕ) → v < i → is_visited (mark_of s v) ≡ true
    enough : unseen s.state < suc (length g.jobs)

  abbrev Sorted : Result Dfs → Type 0
  Sorted (ok s) = Between (length g.jobs) s
  Sorted (err e) = Fault g e

  Between-blank : Between 0 (blank g)
  Between-blank =
      let n = length g.jobs in
      record {
        inv = record {
          size = length-replicate n unvisited;
          listed = λ v. rw get_or-replicate;
          sorted = record { unique = refl; resolved = λ i dep h. cc; before = λ i j h. cc };
        };
        idle = λ v. rw get_or-replicate;
        done = λ v h. absurd (omega arith);
        enough = omega (arith, unseen-replicate n);
      }

  visit_from-Sorted :
      InRange g
      → (rounds i : ℕ) (s : Dfs) → i + rounds ≡ length g.jobs
      → Between i s
      → Sorted (visit_from g (suc (length g.jobs)) rounds i s)
  unfolding visit_from
  visit_from-Sorted inRange zero i s total b = subst (λ k. Between k s) (omega arith) b
  visit_from-Sorted inRange (suc rounds) i s total b =
      next (visit g (suc (length g.jobs)) i s)
        (visit-Outcome g inRange (suc (length g.jobs)) i s record {
          inv = b.inv;
          range = omega arith;
          path = λ v h. cc (b.idle v);
          enough = b.enough;
        })
        (λ t bt. visit_from-Sorted inRange rounds (suc i) t (omega arith) bt)
    where
      next :
          (r : Result Dfs)
          → Outcome g i s r
          → ((t : Dfs)
              → Between (suc i) t
              → Sorted (visit_from g (suc (length g.jobs)) rounds (suc i) t))
          → Sorted (r >>= λ t. visit_from g (suc (length g.jobs)) rounds (suc i) t)
      next (err e) fault k = fault
      next (ok t) (inv, ext, now) k = k t record {
        inv = inv;
        idle = λ v. ext.pending v ∙ b.idle v;
        done = λ v h. ground (arith, h, now, b.done v, ext.kept v);
        enough = omega (arith, ext.shrinks, b.enough);
      }

  abbrev Promise : Result (List ℕ) → Type 0
  Promise (ok order) = IsTopological g order × ((v : ℕ) → contains order v ≡ ltb v (length g.jobs))
  Promise (err e) = Fault g e

  complete :
      (s : Dfs) → Between (length g.jobs) s → (v : ℕ) → contains s.order v ≡ ltb v (length g.jobs)
  complete s b v =
      b.inv.listed v ∙ ground (arith, b.done v, b.inv.size, get_or_beyond s.state v unvisited)

  pub topo_sort-Promise : InRange g → Promise (topo_sort g)
  unfolding topo_sort
  topo_sort-Promise inRange =
      finish (visit_from g (suc (length g.jobs)) (length g.jobs) 0 (blank g))
        (visit_from-Sorted inRange (length g.jobs) 0 (blank g) (omega arith) Between-blank)
    where
      finish : (r : Result Dfs) → Sorted r → Promise (r >>= λ s. ok s.order)
      finish (err e) fault = fault
      finish (ok s) b = (b.inv.sorted, complete s b)

  -- A job that names another has an index in the slice.
  deps_of-lt : (i : ℕ) (dep : String) → contains (deps_of g i) dep ≡ true → i < length g.jobs
  deps_of-lt i dep h = elim (Option-cases (get_elem? g.jobs i)) [
    | inl missing ↦ cc
    | inr (j, found) ↦ get_elem?-lt g.jobs i found
  ]

  -- On success the order holds each index of the slice exactly once, every dependency of every job
  -- is a job of the pipeline, and it stands before the job that names it.
  pub topo_sort_sound :
      InRange g
      → (order : List ℕ) → topo_sort g ≡ ok order
      → IsTopological g order × ((v : ℕ) → contains order v ≡ ltb v (length g.jobs))
  topo_sort_sound inRange order e = subst Promise e (topo_sort-Promise inRange)

  -- The search ends with an order, with a cycle or with an unknown dependency: the fuel suffices.
  pub topo_sort_total :
      InRange g
      → ((order : List ℕ) × (topo_sort g ≡ ok order))
        ⊎ (topo_sort g ≡ err cycle_detected)
        ⊎ (topo_sort g ≡ err unknown_dep)
  topo_sort_total inRange = go (topo_sort g) (topo_sort-Promise inRange)
    where
      go :
          (r : Result (List ℕ))
          → Promise r
          → ((order : List ℕ) × (r ≡ ok order)) ⊎ (r ≡ err cycle_detected) ⊎ (r ≡ err unknown_dep)
      go (ok order) p = inl (order, refl)
      go (err cycle_detected) p = inr (inl refl)
      go (err unknown_dep) p = inr (inr refl)
      go (err _) p = absurd p

  -- On success every chain of dependencies leads strictly backwards in the order.
  Walk-lt :
      (order : List ℕ)
      → IsTopological g order × ((v : ℕ) → contains order v ≡ ltb v (length g.jobs))
      → (v w : ℕ) → Walk g v w
      → (contains order w ≡ true) × (position order w < position order v)
  Walk-lt order (t, all) v w (one (dep, named, found)) =
      t.before v w (all v ∙ ground (arith, deps_of-lt v dep named)) (dep, named, found)
  Walk-lt order (t, all) v w (more {j} p e) =
      let (m, lt) = Walk-lt order (t, all) v j p in
      let (m', lt') = t.before j w m e in (m', omega arith)

  -- Where every dependency is known, the search reports a cycle exactly when some job depends on
  -- itself through a chain of dependencies.
  pub topo_sort_cycle :
      InRange g
      → ((i : ℕ) (dep : String) → contains (deps_of g i) dep ≡ true → lookup g.index dep ≢ none)
      → (topo_sort g ≡ err cycle_detected) ↔ ((v : ℕ) × Walk g v v)
  topo_sort_cycle inRange known = (
    λ e. subst Promise e (topo_sort-Promise inRange),
    λ (v, w). elim (topo_sort_total inRange) [
      | inl (order, e) ↦
          absurd
            (let (_, lt) = Walk-lt order (topo_sort_sound inRange order e) v v w in omega arith)
      | inr (inl e) ↦ e
      | inr (inr e) ↦
          let (i, dep, named, missing) = subst Promise e (topo_sort-Promise inRange) in
          absurd (known i dep named missing)
    ],
  )
