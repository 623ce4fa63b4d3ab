-- ===== src/Runner/Dag/Unseen.antt =====
-- The search of `detectCycles` visits each node once: how many are left.
use cicada.Base.{
  ℕ, ◌+◌, ◌<◌, ◌≤◌, ◌≡◌, refl, sym, ◌∙◌, ap, String, List, [], ◌∷◌, true, ◌==◌, contains, insert,
  length, string_eq, arith, Bool-cases, inl, inr, eqb_refl,
}
use cicada.Graph.{unvisited, visiting}
use cicada.Graph.Marks.{Mark-cases, weight}
use cicada.Runner.Dag.{Marks, mark_at}
use cicada.Runner.Dag.Ranked.{mark_at-insert, After}

-- How many of these names are still unvisited.
abbrev pub unseen : List String → Marks → ℕ
unseen [] s = 0
unseen (n ∷ names) s = weight (mark_at s n) + unseen names s

pub unseen-After :
    (names : List String) {s s' : Marks} → After s s' → unseen names s' ≤ unseen names s
unseen-After [] a = omega arith
unseen-After (n ∷ names) {s} {s'} a =
    let smaller : weight (mark_at s' n) ≤ weight (mark_at s n) =
      ground
        (arith, a.kept n, a.same_open n, Mark-cases (mark_at s n), Mark-cases (mark_at s' n)) in
    omega (arith, smaller, unseen-After names a)

unseen-enter_le :
    (names : List String) (s : Marks) (name : String)
    → unseen names (insert s name visiting) ≤ unseen names s
unseen-enter_le [] s name = omega arith
unseen-enter_le (n ∷ names) s name =
    let smaller : weight (mark_at (insert s name visiting) n) ≤ weight (mark_at s n) =
      ground (arith, mark_at-insert s name n visiting) in
    omega (arith, smaller, unseen-enter_le names s name)

pub unseen-enter :
    (names : List String) (s : Marks) (name : String)
    → contains names name ≡ true
    → mark_at s name ≡ unvisited
    → unseen names (insert s name visiting) < unseen names s
unseen-enter [] s name h fresh = cc
unseen-enter (n ∷ names) s name h fresh = elim (Bool-cases (name == n)) [
  | inl this ↦
      let same : n ≡ name = sym ((string_eq.eqb_iff name n).0 this) in
      let now : weight (mark_at (insert s name visiting) n) ≡ 0 =
        ap weight (mark_at-insert s name n visiting) ∙ rw (same, eqb_refl name) refl in
      let was : weight (mark_at s n) ≡ 1 = ap (λ k. weight (mark_at s k)) same ∙ ap weight fresh in
      omega (arith, now, was, unseen-enter_le names s name)
  | inr other ↦
      let smaller : weight (mark_at (insert s name visiting) n) ≤ weight (mark_at s n) =
        ground (arith, mark_at-insert s name n visiting) in
      omega (arith, smaller, unseen-enter names s name (ground (arith, other, h)) fresh)
]

pub unseen-length : (names : List String) (s : Marks) → unseen names s ≤ length names
unseen-length [] s = omega arith
unseen-length (n ∷ names) s =
    let small : weight (mark_at s n) ≤ 1 = ground (arith, Mark-cases (mark_at s n)) in
    omega (arith, small, unseen-length names s)
