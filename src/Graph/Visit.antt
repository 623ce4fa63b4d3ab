-- ===== src/Graph/Visit.antt =====
-- `visit` keeps its promise, by induction on the fuel.
use cicada.Base.{
  ℕ, zero, suc, ◌≡◌, sym, ◌∙◌, ◌<◌, inl, inr, true, false, String, [], ◌∷◌, ◌++◌, some, length,
  contains, position, lookup, string_eq, nat_eq, arith, length-set, get_or-set, contains-append,
  distinct-concat, position-append, position-concat, position-lt, subst, ap, ◌==◌, nat_eqb_iff,
  eqb-cases, if◌then◌else◌,
}
use cicada.Model.{Result, ok, err, ◌>>=◌}
use cicada.Graph.{
  JobGraph, Dfs, unvisited, visiting, visited, mark_of, deps_of, visit_deps, visit, enter, leave,
}
use cicada.Graph.Marks.{is_visited, is_visiting, weight, unseen-set, Mark-cases}
use cicada.Graph.Spec.{Edge, Walk, one, more, IsTopological}
use cicada.Graph.Deps.{
  Inv, Extends, Extends-refl, Pre, Outcome, Settled, DepsOutcome, visit_deps-Outcome,
}

module _ (g : JobGraph) where
  mark_of-enter :
      (s : Dfs) (i v : ℕ)
      → i < length s.state
      → mark_of (enter g s i) v ≡ (if i == v then visiting else mark_of s v)
  mark_of-enter s i v h = get_or-set s.state i v visiting unvisited h

  enter-Inv :
      (s : Dfs) (i : ℕ)
      → Inv g s
      → i < length g.jobs
      → mark_of s i ≡ unvisited
      → Inv g (enter g s i)
  enter-Inv s i inv range free = record {
    size = length-set s.state i visiting ∙ inv.size;
    listed = λ v. ground (arith, inv.listed v, inv.size, mark_of-enter s i v, nat_eqb_iff i v);
    sorted = inv.sorted;
  }

  enter-path :
      (fuel i : ℕ) (s : Dfs)
      → Pre g (suc fuel) i s
      → mark_of s i ≡ unvisited
      → (v j : ℕ) → is_visiting (mark_of (enter g s i) v) ≡ true
      → Edge g i j
      → Walk g v j
  enter-path fuel i s pre free v j h e = elim (eqb-cases i v) [
    | inl same ↦ subst (λ w. Walk g w j) same (one e)
    | inr other ↦
        more (pre.path v (ground (arith, h, mark_of-enter s i v, pre.range, pre.inv.size))) e
  ]

  -- Leaving job `i`: it is appended to the order, behind its dependencies.
  leave-sorted :
      (s : Dfs) (i : ℕ)
      → Inv g s
      → is_visited (mark_of s i) ≡ false
      → Settled g (deps_of g i) s
      → IsTopological g (s.order ++ i ∷ [])
  leave-sorted s i inv free settled = record {
    unique = distinct-concat s.order i inv.sorted.unique new;
    resolved = λ k dep hk hd. elim (eqb-cases k i) [
      | inl same ↦
          let (j, found, _) =
            settled dep (subst (λ w. contains (deps_of g w) dep ≡ true) same hd) in
          (j, found)
      | inr other ↦ inv.sorted.resolved k dep (old k hk other) hd
    ];
    before = λ k j hk e. elim (eqb-cases k i) [
      | inl same ↦ last j (subst (λ w. Edge g w j) same e) same
      | inr other ↦
          let (m, p) = inv.sorted.before k j (old k hk other) e in
          (
            ground (arith, m, contains-append s.order (i ∷ []) j),
            ground (
              arith,
              p,
              position-append s.order (i ∷ []) j m,
              position-append s.order (i ∷ []) k (old k hk other),
            ),
          )
    ];
  }
    where
      new : contains s.order i ≡ false
      new = inv.listed i ∙ free

      old :
          (k : ℕ)
          → contains (s.order ++ i ∷ []) k ≡ true
          → (k == i) ≡ false
          → contains s.order k ≡ true
      old k h other = ground (arith, h, other, contains-append s.order (i ∷ []) k)

      last :
          (j : ℕ) {k : ℕ}
          → Edge g i j
          → k ≡ i
          → (contains (s.order ++ i ∷ []) j ≡ true)
            × (position (s.order ++ i ∷ []) j < position (s.order ++ i ∷ []) k)
      last j {k} (dep, named, found) same =
          let (j', found', done) = settled dep named in
          let known : contains s.order j ≡ true =
            inv.listed j ∙ ground (arith, found, found', done) in
          (
            ground (arith, known, contains-append s.order (i ∷ []) j),
            rw (same, position-concat s.order i new, position-append s.order (i ∷ []) j known)
                (position-lt s.order j known),
          )

  leave-Inv :
      (s : Dfs) (i : ℕ)
      → Inv g s
      → i < length g.jobs
      → is_visited (mark_of s i) ≡ false
      → Settled g (deps_of g i) s
      → Inv g (leave g s i)
  leave-Inv s i inv range free settled = record {
    size = length-set s.state i visited ∙ inv.size;
    listed = λ v. ground (
      arith,
      inv.listed v,
      inv.size,
      get_or-set s.state i v visited unvisited,
      contains-append s.order (i ∷ []) v,
      nat_eqb_iff i v,
      nat_eqb_iff v i,
    );
    sorted = leave-sorted s i inv free settled;
  }

  -- From before entering job `i` to after leaving it.
  Extends-leave :
      (s t : Dfs) (i : ℕ)
      → i < length s.state
      → length t.state ≡ length s.state
      → mark_of s i ≡ unvisited
      → Extends g (enter g s i) t
      → Extends g s (leave g t i)
  Extends-leave s t i range size free ext = record {
    kept = λ v h. ground (
      arith,
      mark_of-enter s i v range,
      get_or-set t.state i v visited unvisited,
      nat_eqb_iff i v,
      size,
      range,
      free,
      h,
      ext.kept v,
    );
    pending = λ v. ground (
      arith,
      mark_of-enter s i v range,
      get_or-set t.state i v visited unvisited,
      nat_eqb_iff i v,
      size,
      range,
      free,
      ext.pending v,
    );
    shrinks = ground (
      arith,
      ext.shrinks,
      unseen-set s.state i visiting,
      unseen-set t.state i visited,
      mark_of-enter s i i range,
      ext.pending i,
      size,
      range,
      free,
    );
  }

  conclude :
      (fuel i : ℕ) (s : Dfs)
      → Pre g (suc fuel) i s
      → mark_of s i ≡ unvisited
      → (r : Result Dfs) → DepsOutcome g (deps_of g i) (enter g s i) r
      → Outcome g i s (r >>= λ t. ok (leave g t i))
  conclude fuel i s pre free (err e) fault = fault
  conclude fuel i s pre free (ok t) (inv, ext, settled) =
      let size : length t.state ≡ length s.state = inv.size ∙ sym pre.inv.size in
      let range : i < length s.state = omega (arith, pre.range, pre.inv.size) in
      let open_i : is_visited (mark_of t i) ≡ false =
        ground (arith, ext.pending i, mark_of-enter s i i range, nat_eqb_iff i i) in
      (
        leave-Inv t i inv pre.range open_i settled,
        Extends-leave s t i range size free ext,
        ground (arith, get_or-set t.state i i visited unvisited, nat_eqb_iff i i, range, size),
      )

  pub visit-Outcome :
      ((dep : String) (j : ℕ) → lookup g.index dep ≡ some j → j < length g.jobs)
      → (fuel i : ℕ) (s : Dfs) → Pre g fuel i s
      → Outcome g i s (visit g fuel i s)
  unfolding visit
  visit-Outcome inRange zero i s pre = absurd (omega (arith, pre.enough))
  visit-Outcome inRange (suc fuel) i s pre = elim (Mark-cases (mark_of s i)) [
    | inl done ↦ rw (done, visit) (pre.inv, Extends-refl g s, rw done)
    | inr (inl pending) ↦ rw (pending, visit) (i, pre.path i (rw pending))
    | inr (inr free) ↦
        let range : i < length s.state = omega (arith, pre.range, pre.inv.size) in
        rw (free, visit)
          (conclude fuel i s pre free (visit_deps g (visit g fuel) (deps_of g i) (enter g s i)) (
            visit_deps-Outcome g inRange fuel (visit g fuel) (visit-Outcome inRange fuel) i
              (deps_of g i) (enter g s i)
              record {
                inv = enter-Inv s i pre.inv pre.range free;
                named = λ dep h. h;
                path = enter-path fuel i s pre free;
                enough =
                    omega (arith, unseen-set s.state i visiting range, ap weight free, pre.enough);
              }))
  ]
