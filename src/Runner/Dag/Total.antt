-- ===== src/Runner/Dag/Total.antt =====
-- The fuel of the search is enough: it ends with marks or with a cycle, and without a cycle if the nodes are ranked.
use cicada.Base.{
  ℕ, zero, suc, ◌<◌, ◌≡◌, ◌⊎◌, refl, sym, ◌∙◌, ap, subst, String, List, [], ◌∷◌, true, ◌==◌,
  contains, insert, length, length-map, string_eq, arith, Bool-cases, inl, inr, eqb_refl,
}
use cicada.Model.{Result, ok, err, cycle_detected}
use cicada.Graph.{visiting, visited}
use cicada.Graph.Marks.{is_visiting, Mark-cases}
use cicada.Runner.Dag.{
  Nodes, Marks, mark_at, node_deps, node_names, visit_all, visit_node, detect_cycles,
}
use cicada.Runner.Dag.Ranked.{open_at, mark_at-insert, After, After-refl, After-trans, After-leave}
use cicada.Runner.Dag.Unseen.{unseen, unseen-After, unseen-enter, unseen-length}

-- A visit that ends without an error.
abbrev pub Ends : Marks → Result Marks → Type 0
Ends s r = (s' : Marks) × (r ≡ ok s') × After s s'

module _ (nodes : Nodes) (rank : String → ℕ)
    (ranked : (n d : String)
      → contains (node_deps nodes n) d ≡ true
      → (rank d < rank n) × (contains (node_names nodes) d ≡ true)) where
  -- The open nodes lie above this name.
  abbrev Above : Marks → String → Type 0
  Above s name = (n : String) → open_at s n ≡ true → rank name < rank n

  abbrev Total : ℕ → (String → Marks → Result Marks) → Type 0
  Total fuel visit =
      (name : String) (s : Marks)
      → contains (node_names nodes) name ≡ true
      → unseen (node_names nodes) s < fuel
      → Above s name
      → Ends s (visit name s)

  visit_all-Ends :
      (fuel : ℕ) (visit : String → Marks → Result Marks)
      → Total fuel visit
      → (names : List String) (s : Marks) → unseen (node_names nodes) s < fuel
      → ((n : String)
          → contains names n ≡ true
          → (contains (node_names nodes) n ≡ true) × Above s n)
      → Ends s (visit_all visit names s)
  unfolding visit_all
  visit_all-Ends fuel visit total [] s lt each = (s, refl, After-refl s)
  visit_all-Ends fuel visit total (n ∷ names) s lt each =
      let (known, above) = each n (rw (eqb_refl n) refl) in
      let (s₁, e, a) = total n s known lt above in
      let less : unseen (node_names nodes) s₁ < fuel =
        omega (arith, unseen-After (node_names nodes) a) in
      let (s₂, e₂, a₂) = visit_all-Ends fuel visit total names s₁ less (λ k m.
        let (known', above') = each k (ground (arith, m)) in
        (known', λ j o. above' j (sym (a.same_open j) ∙ o))) in
      (s₂, rw (e) e₂, After-trans a a₂)

  visit_node-Ends : (fuel : ℕ) → Total fuel (visit_node nodes fuel)
  unfolding visit_node
  visit_node-Ends zero name s known lt above = absurd (omega arith)
  visit_node-Ends (suc fuel) name s known lt above = elim (Mark-cases (mark_at s name)) [
    | inl seen ↦ (s, ground (arith, seen), After-refl s)
    | inr (inl under_way) ↦
        absurd
          (let low : rank name < rank name = above name (ap is_visiting under_way) in omega arith)
    | inr (inr fresh) ↦
        let s₁ = insert s name visiting in
        let less : unseen (node_names nodes) s₁ < fuel =
          omega (arith, unseen-enter (node_names nodes) s name known fresh) in
        let (s₂, e, a) =
          visit_all-Ends fuel (visit_node nodes fuel) (visit_node-Ends fuel) (node_deps nodes name)
            s₁ less
            (λ d m.
              let (lower, there) = ranked name d m in
              (
                there,
                λ n o. elim (Bool-cases (n == name)) [
                  | inl this ↦
                      subst (λ k. rank d < rank k) (sym ((string_eq.eqb_iff n name).0 this)) lower
                  | inr other ↦
                      let before : open_at s n ≡ true =
                        ground (arith, other, o, mark_at-insert s name n visiting) in
                      omega (arith, above n before, lower)
                ],
              )) in
        (insert s₂ name visited, ground (arith, fresh, e), After-leave s s₂ name fresh a)
  ]

  pub detect_cycles-Ends : (s : Marks) × (detect_cycles nodes ≡ ok s)
  unfolding detect_cycles
  detect_cycles-Ends =
      let enough : unseen (node_names nodes) [] < suc (length nodes) = omega (
        arith,
        unseen-length (node_names nodes) [],
        length-map (λ ((n, _) : String × List String). n) nodes,
      ) in
      let (s, e, _) =
        visit_all-Ends (suc (length nodes)) (visit_node nodes (suc (length nodes)))
          (visit_node-Ends (suc (length nodes))) (node_names nodes) [] enough
          (λ n m. (m, λ k o. cc)) in
      (s, e)

module _ (nodes : Nodes)
    (known : (n d : String)
      → contains (node_deps nodes n) d ≡ true
      → contains (node_names nodes) d ≡ true) where
  abbrev Stops : Marks → Result Marks → Type 0
  Stops s r = (r ≡ err cycle_detected) ⊎ Ends s r

  abbrev Stopping : ℕ → (String → Marks → Result Marks) → Type 0
  Stopping fuel visit =
      (name : String) (s : Marks)
      → contains (node_names nodes) name ≡ true
      → unseen (node_names nodes) s < fuel
      → Stops s (visit name s)

  visit_all-Stops :
      (fuel : ℕ) (visit : String → Marks → Result Marks)
      → Stopping fuel visit
      → (names : List String) (s : Marks) → unseen (node_names nodes) s < fuel
      → ((n : String) → contains names n ≡ true → contains (node_names nodes) n ≡ true)
      → Stops s (visit_all visit names s)
  unfolding visit_all
  visit_all-Stops fuel visit stops [] s lt each = inr (s, refl, After-refl s)
  visit_all-Stops fuel visit stops (n ∷ names) s lt each =
      elim (stops n s (each n (rw (eqb_refl n) refl)) lt) [
        | inl cycle ↦ inl (rw cycle refl)
        | inr (s₁, e, a) ↦
            let less : unseen (node_names nodes) s₁ < fuel =
              omega (arith, unseen-After (node_names nodes) a) in
            elim (visit_all-Stops fuel visit stops names s₁ less
              (λ k m. each k (ground (arith, m)))) [
                | inl cycle ↦ inl (rw e cycle)
                | inr (s₂, e₂, a₂) ↦ inr (s₂, rw e e₂, After-trans a a₂)
              ]
      ]

  visit_node-Stops : (fuel : ℕ) → Stopping fuel (visit_node nodes fuel)
  unfolding visit_node
  visit_node-Stops zero name s listed lt = absurd (omega arith)
  visit_node-Stops (suc fuel) name s listed lt = elim (Mark-cases (mark_at s name)) [
    | inl seen ↦ inr (s, ground (arith, seen), After-refl s)
    | inr (inl under_way) ↦ inl (ground (arith, under_way))
    | inr (inr fresh) ↦
        let s₁ = insert s name visiting in
        let less : unseen (node_names nodes) s₁ < fuel =
          omega (arith, unseen-enter (node_names nodes) s name listed fresh) in
        elim (visit_all-Stops fuel (visit_node nodes fuel) (visit_node-Stops fuel)
          (node_deps nodes name) s₁ less (λ d m. known name d m)) [
            | inl cycle ↦ inl (ground (arith, fresh, cycle))
            | inr (s₂, e, a) ↦
                inr
                  (insert s₂ name visited, ground (arith, fresh, e), After-leave s s₂ name fresh a)
          ]
  ]

  pub detect_cycles-Stops :
      (detect_cycles nodes ≡ err cycle_detected) ⊎ ((s : Marks) × (detect_cycles nodes ≡ ok s))
  unfolding detect_cycles
  detect_cycles-Stops =
      let enough : unseen (node_names nodes) [] < suc (length nodes) = omega (
        arith,
        unseen-length (node_names nodes) [],
        length-map (λ ((n, _) : String × List String). n) nodes,
      ) in
      elim (visit_all-Stops (suc (length nodes)) (visit_node nodes (suc (length nodes)))
        (visit_node-Stops (suc (length nodes))) (node_names nodes) [] enough (λ n m. m)) [
          | inl cycle ↦ inl cycle
          | inr (s, e, _) ↦ inr (s, e)
        ]
