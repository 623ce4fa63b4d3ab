-- ===== src/Runner/Dag/Ranked.antt =====
-- A search that ends without an error ranks the nodes: dependencies have lower ranks.
use cicada.Base.{
  ℕ, zero, suc, ◌<◌, ◌≡◌, refl, sym, ◌∙◌, ap, subst, String, List, [], ◌∷◌, Bool, true, false,
  if◌then◌else◌, ◌==◌, contains, insert, lookup-insert, string_eq, arith, Bool-cases, inl, inr,
  eqb_refl, length,
}
use cicada.Model.{Result, ok, ◌>>=◌, bind-ok}
use cicada.Graph.{Mark, unvisited, visiting, visited}
use cicada.Graph.Marks.{is_visited, is_visiting, Mark-cases}
use cicada.Runner.Dag.{
  Nodes, Marks, mark_at, node_deps, node_names, visit_all, visit_node, detect_cycles,
}

abbrev pub done_at : Marks → String → Bool
done_at s n = is_visited (mark_at s n)

abbrev pub open_at : Marks → String → Bool
open_at s n = is_visiting (mark_at s n)

pub mark_at-insert :
    (s : Marks) (n k : String) (m : Mark)
    → mark_at (insert s n m) k ≡ (if k == n then m else mark_at s k)
mark_at-insert s n k m = ground (arith, lookup-insert s n k m)

-- What a visit does to the marks: finished nodes stay so, and the open ones are the same again.
pub record After (s s' : Marks) : Type 0 where
  pub kept : (n : String) → done_at s n ≡ true → done_at s' n ≡ true
  pub same_open : (n : String) → open_at s' n ≡ open_at s n

pub After-refl : (s : Marks) → After s s
After-refl s = record { kept = λ n h. h; same_open = λ n. refl }

pub After-trans : {s s' s'' : Marks} → After s s' → After s' s'' → After s s''
After-trans one two = record {
  kept = λ n h. two.kept n (one.kept n h);
  same_open = λ n. two.same_open n ∙ one.same_open n;
}

-- Leaving a node whose visit began in `s`.
pub After-leave :
    (s s' : Marks) (name : String)
    → mark_at s name ≡ unvisited
    → After (insert s name visiting) s'
    → After s (insert s' name visited)
After-leave s s' name fresh a = record {
  kept = λ n h. elim (Bool-cases (n == name)) [
    | inl this ↦ ground (arith, this, mark_at-insert s' name n visited)
    | inr other ↦
        let before : done_at (insert s name visiting) n ≡ true =
          ground (arith, other, h, mark_at-insert s name n visiting) in
        ground (arith, other, mark_at-insert s' name n visited, a.kept n before)
  ];
  same_open = λ n. elim (Bool-cases (n == name)) [
    | inl this ↦
        let same : mark_at s n ≡ unvisited =
          ap (mark_at s) ((string_eq.eqb_iff n name).0 this) ∙ fresh in
        ground (arith, this, same, mark_at-insert s' name n visited)
    | inr other ↦ ground (
      arith,
      other,
      mark_at-insert s' name n visited,
      mark_at-insert s name n visiting,
      a.same_open n,
    )
  ];
}

-- Finished nodes have finished dependencies, of lower rank.
pub record Ranks (nodes : Nodes) (s : Marks) : Type 0 where
  pub rank : String → ℕ
  pub bound : ℕ
  pub below : (n : String) → done_at s n ≡ true → rank n < bound
  pub closed :
      (n d : String)
      → done_at s n ≡ true
      → contains (node_deps nodes n) d ≡ true
      → (done_at s d ≡ true) × (rank d < rank n)

module _ (nodes : Nodes) where
  Ranks-enter :
      (s : Marks) (name : String)
      → mark_at s name ≡ unvisited
      → Ranks nodes s
      → Ranks nodes (insert s name visiting)
  Ranks-enter s name fresh r = record {
    rank = r.rank;
    bound = r.bound;
    below = λ n h. r.below n (was n h);
    closed = λ n d h m.
        let (finished, lower) = r.closed n d (was n h) m in
        (
          elim (Bool-cases (d == name)) [
            | inl this ↦
                let same : mark_at s d ≡ unvisited =
                  ap (mark_at s) ((string_eq.eqb_iff d name).0 this) ∙ fresh in
                absurd (ground (arith, same, finished))
            | inr other ↦ ground (arith, other, finished, mark_at-insert s name d visiting)
          ],
          lower,
        );
  }
    where
      was : (n : String) → done_at (insert s name visiting) n ≡ true → done_at s n ≡ true
      was n h = ground (arith, h, mark_at-insert s name n visiting)

  Ranks-leave :
      (s : Marks) (name : String)
      → open_at s name ≡ true
      → ((d : String) → contains (node_deps nodes name) d ≡ true → done_at s d ≡ true)
      → Ranks nodes s
      → Ranks nodes (insert s name visited)
  Ranks-leave s name opened deps r = record {
    rank = rank';
    bound = suc r.bound;
    below = λ n h. elim (Bool-cases (n == name)) [
      | inl this ↦ rw this (omega arith)
      | inr other ↦ rw other (omega (arith, r.below n (was n other h)))
    ];
    closed = λ n d h m. elim (Bool-cases (n == name)) [
      | inl this ↦
          let finished = deps d (
            ap (λ k. contains (node_deps nodes k) d) (sym ((string_eq.eqb_iff n name).0 this))
            ∙ m) in
          (still d finished, rw (this, other_than d finished) (r.below d finished))
      | inr other ↦
          let (finished, lower) = r.closed n d (was n other h) m in
          (still d finished, rw (other, other_than d finished) lower)
    ];
  }
    where
      rank' : String → ℕ
      rank' n = if n == name then r.bound else r.rank n

      was :
          (n : String)
          → (n == name) ≡ false
          → done_at (insert s name visited) n ≡ true
          → done_at s n ≡ true
      was n other h = ground (arith, h, other, mark_at-insert s name n visited)

      still : (n : String) → done_at s n ≡ true → done_at (insert s name visited) n ≡ true
      still n h = ground (arith, h, mark_at-insert s name n visited)

      other_than : (n : String) → done_at s n ≡ true → (n == name) ≡ false
      other_than n h = elim (Bool-cases (n == name)) [
        | inr other ↦ other
        | inl this ↦
            let same : open_at s n ≡ true =
              ap (open_at s) ((string_eq.eqb_iff n name).0 this) ∙ opened in
            absurd (ground (arith, Mark-cases (mark_at s n), same, h))
      ]

  -- A visit of some nodes that ended well.
  pub record Visited (names : List String) (s s' : Marks) : Type 0 where
    pub after : After s s'
    pub finished : (n : String) → contains names n ≡ true → done_at s' n ≡ true
    pub ranks : Ranks nodes s'

  abbrev Sound : (String → Marks → Result Marks) → Type 0
  Sound visit =
      (n : String) (s s' : Marks) → Ranks nodes s → visit n s ≡ ok s' → Visited (n ∷ []) s s'

  pub visit_all-Visited :
      (visit : String → Marks → Result Marks)
      → Sound visit
      → (names : List String) (s : Marks) {s' : Marks} → Ranks nodes s
      → visit_all visit names s ≡ ok s'
      → Visited names s s'
  unfolding visit_all
  visit_all-Visited visit sound [] s {s'} r h =
      let same : s ≡ s' = cc in
      subst (Visited [] s) same (record { after = After-refl s; finished = λ n m. cc; ranks = r })
  visit_all-Visited visit sound (n ∷ names) s r h =
      let (s₁, e, h₁) = bind-ok (visit n s) (λ s'. visit_all visit names s') h in
      let one = sound n s s₁ r e in
      let rest = visit_all-Visited visit sound names s₁ one.ranks h₁ in
      record {
        after = After-trans one.after rest.after;
        finished = λ k m. elim (Bool-cases (k == n)) [
          | inl this ↦ rest.after.kept k (one.finished k (rw this refl))
          | inr other ↦ rest.finished k (ground (arith, other, m))
        ];
        ranks = rest.ranks;
      }

  pub visit_node-Visited : (fuel : ℕ) → Sound (visit_node nodes fuel)
  unfolding visit_node
  visit_node-Visited zero name s s' r h = cc
  visit_node-Visited (suc fuel) name s s' r h = elim (Mark-cases (mark_at s name)) [
    | inl seen ↦
        let same : s ≡ s' = ground (arith, seen, h) in
        subst (Visited (name ∷ []) s) same (record {
          after = After-refl s;
          finished = λ n m.
              ap (done_at s) ((string_eq.eqb_iff n name).0 (ground (arith, m)))
              ∙ ap is_visited seen;
          ranks = r;
        })
    | inr (inl under_way) ↦ absurd (ground (arith, under_way, h))
    | inr (inr fresh) ↦
        let s₁ = insert s name visiting in
        let loop = visit_all (visit_node nodes fuel) (node_deps nodes name) s₁ in
        let bound : (loop >>= λ s'. ok (insert s' name visited)) ≡ ok s' =
          ground (arith, fresh, h) in
        let (s₂, e, h₁) = bind-ok loop (λ s'. ok (insert s' name visited)) bound in
        let v =
          visit_all-Visited (visit_node nodes fuel) (visit_node-Visited fuel) (node_deps nodes name)
            s₁ (Ranks-enter s name fresh r) e in
        let opened : open_at s₂ name ≡ true =
          v.after.same_open name
          ∙ ap is_visiting (mark_at-insert s name name visiting)
          ∙ rw (eqb_refl name) refl in
        let same : insert s₂ name visited ≡ s' = cc in
        subst (Visited (name ∷ []) s) same (record {
          after = After-leave s s₂ name fresh v.after;
          finished = λ n m. ap is_visited (mark_at-insert s₂ name n visited) ∙ ground (arith, m);
          ranks = Ranks-leave s₂ name opened v.finished v.ranks;
        })
  ]

  -- After the whole search every node is finished, with a rank above its dependencies.
  pub detect_cycles-Visited :
      {s : Marks} → detect_cycles nodes ≡ ok s → Visited (node_names nodes) [] s
  unfolding detect_cycles
  detect_cycles-Visited h =
      visit_all-Visited (visit_node nodes (suc (length nodes)))
        (visit_node-Visited (suc (length nodes))) (node_names nodes) []
        (record { rank = λ n. 0; bound = 0; below = λ n e. cc; closed = λ n d e m. cc }) h
