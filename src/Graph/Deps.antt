-- ===== src/Graph/Deps.antt =====
-- One call of `visit`, and the loop over a job's dependencies, by what they promise each other.
use cicada.Base.{
  ℕ, ◌≡◌, refl, ◌∙◌, ◌≤◌, ◌<◌, inl, inr, true, String, List, [], ◌∷◌, some, length, contains,
  lookup, string_eq, nat_eq, arith, Option-cases, contains-cons_self, eqb-cases,
}
use cicada.Model.{Result, ok, err, ◌>>=◌}
use cicada.Graph.{JobGraph, Dfs, mark_of, deps_of, resolve_dep, visit_deps}
use cicada.Graph.Marks.{is_visited, is_visiting, unseen}
use cicada.Graph.Spec.{Edge, Walk, IsTopological, Fault}

module _ (g : JobGraph) where
  pub record Inv (s : Dfs) : Type 0 where
    pub size : length s.state ≡ length g.jobs
    pub listed : (v : ℕ) → contains s.order v ≡ is_visited (mark_of s v)
    pub sorted : IsTopological g s.order

  -- A call only turns unvisited jobs into visited ones.
  pub record Extends (s t : Dfs) : Type 0 where
    pub kept : (v : ℕ) → is_visited (mark_of s v) ≡ true → is_visited (mark_of t v) ≡ true
    pub pending : (v : ℕ) → is_visiting (mark_of t v) ≡ is_visiting (mark_of s v)
    pub shrinks : unseen t.state ≤ unseen s.state

  pub Extends-refl : (s : Dfs) → Extends s s
  Extends-refl s = record { kept = λ v h. h; pending = λ v. refl; shrinks = omega arith }

  pub Extends-trans : {s t u : Dfs} → Extends s t → Extends t u → Extends s u
  Extends-trans a b = record {
    kept = λ v h. b.kept v (a.kept v h);
    pending = λ v. b.pending v ∙ a.pending v;
    shrinks = omega (arith, a.shrinks, b.shrinks);
  }

  -- What a call of `visit` may assume: the jobs being visited lead to `i`.
  pub record Pre (fuel i : ℕ) (s : Dfs) : Type 0 where
    pub inv : Inv s
    pub range : i < length g.jobs
    pub path : (v : ℕ) → is_visiting (mark_of s v) ≡ true → Walk g v i
    pub enough : unseen s.state < fuel

  abbrev pub Outcome : ℕ → Dfs → Result Dfs → Type 0
  Outcome i s (ok t) = Inv t × Extends s t × (is_visited (mark_of t i) ≡ true)
  Outcome i s (err e) = Fault g e

  -- Every listed dependency is resolved and visited.
  abbrev pub Settled : List String → Dfs → Type 0
  Settled deps t =
      (dep : String)
      → contains deps dep ≡ true
      → (j : ℕ) × (lookup g.index dep ≡ some j) × (is_visited (mark_of t j) ≡ true)

  abbrev pub DepsOutcome : List String → Dfs → Result Dfs → Type 0
  DepsOutcome deps s (ok t) = Inv t × Extends s t × Settled deps t
  DepsOutcome deps s (err e) = Fault g e

  Settled-cons :
      (dep : String) (deps : List String) (j : ℕ) (t u : Dfs)
      → lookup g.index dep ≡ some j
      → is_visited (mark_of t j) ≡ true
      → Extends t u
      → Settled deps u
      → Settled (dep ∷ deps) u
  Settled-cons dep deps j t u found done ext rest d h = elim (eqb-cases d dep) [
    | inl same ↦ (j, rw same found, ext.kept j done)
    | inr other ↦ rest d (ground (arith, other))
  ]

  module _ (inRange : (dep : String) (j : ℕ) → lookup g.index dep ≡ some j → j < length g.jobs)
      (fuel : ℕ) (rec : ℕ → Dfs → Result Dfs)
      (call : (j : ℕ) (s : Dfs) → Pre fuel j s → Outcome j s (rec j s)) (i : ℕ) where
    -- What the loop may assume of the jobs being visited.
    pub record Ready (deps : List String) (s : Dfs) : Type 0 where
      pub inv : Inv s
      pub named : (dep : String) → contains deps dep ≡ true → contains (deps_of g i) dep ≡ true
      pub path : (v j : ℕ) → is_visiting (mark_of s v) ≡ true → Edge g i j → Walk g v j
      pub enough : unseen s.state < fuel

    Ready-next :
        (dep : String) (deps : List String) (s t : Dfs)
        → Ready (dep ∷ deps) s
        → Inv t
        → Extends s t
        → Ready deps t
    Ready-next dep deps s t r inv ext = record {
      inv = inv;
      named = λ d h. r.named d (ground (arith, h));
      path = λ v j h e. r.path v j (rw (ext.pending v) at h) e;
      enough = omega (arith, ext.shrinks, r.enough);
    }

    after_call :
        (dep : String) (deps : List String) (s : Dfs) (j : ℕ) (r : Result Dfs)
        → lookup g.index dep ≡ some j
        → Outcome j s r
        → ((t : Dfs) → Inv t → Extends s t → DepsOutcome deps t (visit_deps g rec deps t))
        → DepsOutcome (dep ∷ deps) s (r >>= visit_deps g rec deps)
    after_call dep deps s j (err e) found fault next = fault
    after_call dep deps s j (ok t) found (inv, ext, done) next =
        conclude (visit_deps g rec deps t) (next t inv ext)
      where
        conclude : (r : Result Dfs) → DepsOutcome deps t r → DepsOutcome (dep ∷ deps) s r
        conclude (err e) fault = fault
        conclude (ok u) (inv', ext', rest) =
            (inv', Extends-trans ext ext', Settled-cons dep deps j t u found done ext' rest)

    pub visit_deps-Outcome :
        (deps : List String) (s : Dfs) → Ready deps s → DepsOutcome deps s (visit_deps g rec deps s)
    unfolding visit_deps
    visit_deps-Outcome [] s r = (r.inv, Extends-refl s, λ dep h. cc)
    visit_deps-Outcome (dep ∷ deps) s r = elim (Option-cases (lookup g.index dep)) [
      | inl unknown ↦
          rw (unknown, resolve_dep) (i, dep, r.named dep (contains-cons_self dep deps), unknown)
      | inr (j, found) ↦
          rw (found, resolve_dep)
            (after_call dep deps s j (rec j s) found
              (call j s record {
                inv = r.inv;
                range = inRange dep j found;
                path = λ v h. r.path v j h (dep, r.named dep (contains-cons_self dep deps), found);
                enough = r.enough;
              })
              (λ t inv ext. visit_deps-Outcome deps t (Ready-next dep deps s t r inv ext)))
    ]
