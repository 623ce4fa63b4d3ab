-- ===== src/Filter/Reach/Closure.antt =====
-- `addTransitiveDeps`, run from each name of a set, closes the set under dependencies.
use cicada.Base.{
  ℕ, zero, suc, ◌≤◌, ◌<◌, ◌≡◌, refl, sym, ◌⊎◌, inl, inr, String, List, [], ◌∷◌, true, false,
  contains, string_eq, arith, contains-cons_self, contains-cons_of, Bool-cases, eqb-cases, subst,
}
use cicada.Model.{Result, ok, err, ◌>>=◌}
use cicada.Filter.Reach.{Adjacency, targets, entries, add_each, add_transitive_deps, add_all}
use cicada.Filter.Reach.Breadth.{
  Reach, here, next, fresh, fresh-cons_le, fresh-cons_lt, contains-entries,
}

module _ (adj : Adjacency) where
  -- From `visited` to `after`: nothing is lost, and what is new has all its dependencies there.
  pub record Grows (visited after : List String) : Type 0 where
    pub kept : (x : String) → contains visited x ≡ true → contains after x ≡ true
    pub closed :
        (x y : String)
        → contains after x ≡ true
        → contains visited x ≡ false
        → contains (targets adj x) y ≡ true
        → contains after y ≡ true
    pub shrinks : fresh after (entries adj) ≤ fresh visited (entries adj)

  Grows-refl : (visited : List String) → Grows visited visited
  Grows-refl visited = record { kept = λ x h. h; closed = λ x y h new e. cc; shrinks = omega arith }

  Grows-trans : {a b c : List String} → Grows a b → Grows b c → Grows a c
  Grows-trans {a} {b} {c} g k = record {
    kept = λ x h. k.kept x (g.kept x h);
    closed = λ x y h new e. elim (Bool-cases (contains b x)) [
      | inl early ↦ k.kept y (g.closed x y early new e)
      | inr late ↦ k.closed x y h late e
    ];
    shrinks = omega (arith, g.shrinks, k.shrinks);
  }

  Reach-front :
      {name dep x : String}
      → contains (targets adj name) dep ≡ true
      → Reach adj dep x
      → Reach adj name x
  Reach-front e here = next here e
  Reach-front e (next r d) = next (Reach-front e r) d

  -- From `visited` to `after`, on behalf of `name`: the listed dependencies are there, and what is new
  -- lies below `name`.
  pub record Adds (name : String) (deps visited after : List String) : Type 0 where
    pub grows : Grows visited after
    pub listed : (y : String) → contains deps y ≡ true → contains after y ≡ true
    pub below :
        (x : String) → contains after x ≡ true → (contains visited x ≡ true) ⊎ Reach adj name x

  abbrev pub Added : String → List String → List String → Result (List String) → Type 0
  Added name deps visited (ok after) = Adds name deps visited after
  Added name deps visited (err e) = ⊥

  -- A dependency that is in the set already.
  Adds-known :
      (name dep : String) (deps visited after : List String)
      → contains visited dep ≡ true
      → Adds name deps visited after
      → Adds name (dep ∷ deps) visited after
  Adds-known name dep deps visited after h a = record {
    grows = a.grows;
    listed = λ y m. ground (arith, m, h, a.listed y, a.grows.kept y, string_eq.eqb_iff y dep);
    below = a.below;
  }

  -- What a call adds for a new dependency, seen from before the call.
  Grows-new :
      (dep : String) (visited after : List String)
      → Adds dep (targets adj dep) (dep ∷ visited) after
      → Grows visited after
  Grows-new dep visited after a = record {
    kept = λ x h. a.grows.kept x (ground (arith, h));
    closed = λ x y h new e. elim (eqb-cases x dep) [
      | inl same ↦ a.listed y (subst (λ w. contains (targets adj w) y ≡ true) same e)
      | inr other ↦ a.grows.closed x y h (ground (arith, new, other)) e
    ];
    shrinks = omega (arith, a.grows.shrinks, fresh-cons_le visited (entries adj) dep);
  }

  Adds-new :
      (name dep : String) (deps visited middle after : List String)
      → contains (targets adj name) dep ≡ true
      → Adds dep (targets adj dep) (dep ∷ visited) middle
      → Adds name deps middle after
      → Adds name (dep ∷ deps) visited after
  Adds-new name dep deps visited middle after edge a b =
      let dep_in : contains after dep ≡ true =
        b.grows.kept dep (a.grows.kept dep (contains-cons_self dep visited)) in
      record {
        grows = Grows-trans (Grows-new dep visited middle a) b.grows;
        listed = λ y m. ground (arith, m, dep_in, b.listed y, string_eq.eqb_iff y dep);
        below = λ x h. elim (b.below x h) [
          | inr r ↦ inr r
          | inl m ↦ elim (a.below x m) [
            | inr r ↦ inr (Reach-front edge r)
            | inl old ↦ elim (eqb-cases x dep) [
              | inl same ↦ inr (subst (Reach adj name) (sym same) (next here edge))
              | inr other ↦ inl (ground (arith, old, other))
            ]
          ]
        ];
      }

  -- A loop goes on only after a success, and none of its calls fails.
  bind-Added :
      {deps₁ visited₁ : List String} {name₁ : String} (r : Result (List String))
      (f : List String → Result (List String)) (name : String) (deps visited : List String)
      → Added name₁ deps₁ visited₁ r
      → ((m : List String) → Adds name₁ deps₁ visited₁ m → Added name deps visited (f m))
      → Added name deps visited (r >>= f)
  bind-Added (ok m) f name deps visited a k = k m a
  bind-Added (err e) f name deps visited a k = absurd a

  map-Added :
      (r : Result (List String)) (name name' : String) (deps deps' visited visited' : List String)
      → Added name deps visited r
      → ((after : List String) → Adds name deps visited after → Adds name' deps' visited' after)
      → Added name' deps' visited' r
  map-Added (ok after) name name' deps deps' visited visited' a k = k after a
  map-Added (err e) name name' deps deps' visited visited' a k = absurd a

  add_each-Added :
      (fuel : ℕ) (rec : String → List String → Result (List String)) (name : String)
      → ((dep : String) (visited : List String)
          → fresh visited (entries adj) < fuel
          → Added dep (targets adj dep) visited (rec dep visited))
      → (deps visited : List String)
      → ((y : String) → contains deps y ≡ true → contains (targets adj name) y ≡ true)
      → fresh visited (entries adj) ≤ fuel
      → Added name deps visited (add_each rec deps visited)
  unfolding add_each
  add_each-Added fuel rec name call [] visited sub enough = record {
    grows = Grows-refl visited;
    listed = λ y h. cc;
    below = λ x h. inl h;
  }
  add_each-Added fuel rec name call (dep ∷ deps) visited sub enough =
      let edge = sub dep (contains-cons_self dep deps) in
      let sub' =
        λ (y : String) (h : contains deps y ≡ true). sub y (contains-cons_of y dep deps h) in
      elim (Bool-cases (contains visited dep)) [
        | inl known ↦ rw known (
            map-Added (add_each rec deps visited) name name deps (dep ∷ deps) visited visited
              (add_each-Added fuel rec name call deps visited sub' enough)
              (λ after a. Adds-known name dep deps visited after known a))
        | inr new ↦
            let less =
              fresh-cons_lt visited (entries adj) dep (contains-entries adj name dep edge) new in
            rw new (
              bind-Added (rec dep (dep ∷ visited)) (add_each rec deps) name (dep ∷ deps) visited
                (call dep (dep ∷ visited) (omega arith))
                (λ m a.
                  map-Added (add_each rec deps m) name name deps (dep ∷ deps) m visited
                    (add_each-Added fuel rec name call deps m sub' (omega (arith, a.grows.shrinks)))
                    (λ after b. Adds-new name dep deps visited m after edge a b)))
      ]

  pub add_transitive_deps-Added :
      (fuel : ℕ) (name : String) (visited : List String)
      → fresh visited (entries adj) < fuel
      → Added name (targets adj name) visited (add_transitive_deps fuel adj name visited)
  unfolding add_transitive_deps
  add_transitive_deps-Added zero name visited enough = absurd (omega arith)
  add_transitive_deps-Added (suc fuel) name visited enough =
      add_each-Added fuel (add_transitive_deps fuel adj) name (add_transitive_deps-Added fuel)
        (targets adj name) visited (λ y h. h) (omega arith)

  -- The window `window` is worked off; `visited` holds it from the start.
  pub record Closes (window visited after : List String) : Type 0 where
    pub grows : Grows visited after
    pub worked :
        (x y : String)
        → contains window x ≡ true
        → contains (targets adj x) y ≡ true
        → contains after y ≡ true
    pub below :
        (x : String)
        → contains after x ≡ true
        → (contains visited x ≡ true) ⊎ ((w : String) × (contains window w ≡ true) × Reach adj w x)

  pub add_all-Closes :
      (fuel : ℕ) (window visited : List String)
      → fresh visited (entries adj) < fuel
      → (after : List String) × (add_all fuel adj window visited ≡ ok after)
        × Closes window visited after
  unfolding add_all
  add_all-Closes fuel [] visited enough = (
    visited,
    refl,
    record { grows = Grows-refl visited; worked = λ x y h. cc; below = λ x h. inl h },
  )
  add_all-Closes fuel (name ∷ window) visited enough =
      go (add_transitive_deps fuel adj name visited)
        (add_transitive_deps-Added fuel name visited enough)
        (λ m a. add_all-Closes fuel window m (omega (arith, a.grows.shrinks)))
    where
      go :
          (r : Result (List String))
          → Added name (targets adj name) visited r
          → ((m : List String)
              → Adds name (targets adj name) visited m
              → (after : List String) × (add_all fuel adj window m ≡ ok after)
                × Closes window m after)
          → (after : List String) × ((r >>= add_all fuel adj window) ≡ ok after)
            × Closes (name ∷ window) visited after
      go (err e) a k = absurd a
      go (ok m) a k =
          let (after, ends, c) = k m a in
          (
            after,
            ends,
            record {
              grows = Grows-trans a.grows c.grows;
              worked = λ x y h e. elim (eqb-cases x name) [
                | inl same ↦
                    c.grows.kept y
                      (a.listed y (subst (λ w. contains (targets adj w) y ≡ true) same e))
                | inr other ↦ c.worked x y (ground (arith, h, other)) e
              ];
              below = λ x h. elim (c.below x h) [
                | inr (w, m', r) ↦ inr (w, contains-cons_of w name window m', r)
                | inl m' ↦ elim (a.below x m') [
                  | inl old ↦ inl old
                  | inr r ↦ inr (name, contains-cons_self name window, r)
                ]
              ];
            },
          )
