-- ===== src/Runner/Graph/Ordered.antt =====
-- A job runs only once its dependencies have succeeded, and within the limit.
use cicada.Base.{
  ◌≡◌, refl, sym, ◌∙◌, ap, inl, inr, ℕ, ◌≤◌, String, List, [], ◌∷◌, some, true, false,
  if◌then◌else◌, contains, lookup, insert, lookup-insert, string_eq, arith, ◌==◌, Bool-cases,
}
use cicada.Runner.Graph.{
  RunJob, Phase, waiting, State, is_running, is_succeeded, taken, start, dependencies, Step,
  Reachable, at_start, then_step,
}
use cicada.Runner.Graph.Moves.{
  left_of, is_settled, taken-insert, Move-unfinished, Move-slot, Move-left,
}

-- Every dependency of a live node is still to be waited for, or has succeeded.
record Inv (jobs : List RunJob) (limit : ℕ) (s : State) : Type 0 where
  settled :
      (n : String) (deps : List String) (ph : Phase) (left : List String)
      → lookup (dependencies jobs) n ≡ some deps
      → lookup s n ≡ some ph
      → left_of ph ≡ some left
      → (d : String) → contains deps d ≡ true
      → is_settled s left d ≡ true
  slots : taken s ≤ limit

pub lookup-start :
    (jobs : List RunJob) (n : String) (deps : List String)
    → lookup (dependencies jobs) n ≡ some deps
    → lookup (start jobs) n ≡ some (waiting deps)
lookup-start [] n deps h = cc
lookup-start (j ∷ jobs) n deps h = ground (arith, h, lookup-start jobs n deps)

taken-start : (jobs : List RunJob) → taken (start jobs) ≡ 0
taken-start [] = refl
taken-start (j ∷ jobs) = omega (arith, taken-start jobs)

Inv-start : (jobs : List RunJob) (limit : ℕ) → Inv jobs limit (start jobs)
Inv-start jobs limit = record {
  settled = λ n deps ph left h at e d m.
      let same : waiting deps ≡ ph = ground (arith, at, lookup-start jobs n deps h) in
      let all_left : some deps ≡ some left = ap left_of same ∙ e in ground (arith, all_left, m);
  slots = omega (arith, taken-start jobs);
}

abbrev pub slot : Phase → ℕ
slot ph = if is_running ph then 1 else 0

pub slot_none : (ph : Phase) → is_running ph ≡ false → slot ph ≡ 0
slot_none ph h = rw h refl

slot_one : (ph : Phase) → slot ph ≤ 1
slot_one ph = ground arith

module _ {jobs : List RunJob} {limit : ℕ} {s s' : State} (t : Step jobs limit s s') where
  pub found : (d : String) → lookup s' d ≡ (if d == t.node then some t.after else lookup s d)
  found d = ap (λ m. lookup m d) (sym t.moved) ∙ lookup-insert s t.node d t.after

  -- A success is final.
  still_succeeded :
      (d : String) → is_succeeded (lookup s d) ≡ true → is_succeeded (lookup s' d) ≡ true
  still_succeeded d h = elim (Bool-cases (d == t.node)) [
    | inl this ↦
        let same : d ≡ t.node = (string_eq.eqb_iff d t.node).0 this in
        let was : is_succeeded (some t.before) ≡ true =
          ap is_succeeded (sym t.at ∙ ap (lookup s) (sym same)) ∙ h in
        let was_not : is_succeeded (some t.before) ≡ false =
          Move-unfinished limit t.cancelled t.conditional s t.move in
        absurd (ground (arith, was, was_not))
    | inr other ↦ ap is_succeeded (found d) ∙ rw other h
  ]

  still_settled :
      (left : List String) (d : String) → is_settled s left d ≡ true → is_settled s' left d ≡ true
  still_settled left d h = ground (arith, h, still_succeeded d)

  slots_step : taken s ≤ limit → taken s' ≤ limit
  slots_step le =
      let count = taken-insert s t.node t.before t.after t.at in
      let new : taken (insert s t.node t.after) ≡ taken s' = ap taken t.moved in
      elim (Move-slot limit t.cancelled t.conditional s t.move) [
        | inl slotless ↦ omega (arith, count, new, slot_none t.after slotless, le)
        | inr free ↦ omega (arith, count, new, slot_one t.after, free)
      ]

  mover :
      Inv jobs limit s
      → (n : String) (deps : List String) (ph : Phase) (left : List String) → n ≡ t.node
      → lookup (dependencies jobs) n ≡ some deps
      → lookup s' n ≡ some ph
      → left_of ph ≡ some left
      → (d : String) → contains deps d ≡ true
      → is_settled s' left d ≡ true
  mover inv n deps ph left this h at e d m =
      let hit : (n == t.node) ≡ true = (string_eq.eqb_iff n t.node).1 this in
      let both : some t.after ≡ some ph = sym (found n ∙ rw hit refl) ∙ at in
      let now : t.after ≡ ph = cc in
      let (left', e', passes) =
        Move-left limit t.cancelled t.conditional s t.move left (ap left_of now ∙ e) in
      let earlier = inv.settled n deps t.before left' h (ap (lookup s) this ∙ t.at) e' d m in
      elim (Bool-cases (contains left' d)) [
        | inl awaited ↦ still_settled left d (passes d awaited)
        | inr seen ↦ still_settled left d (ground (arith, earlier, seen))
      ]

  settled_step :
      Inv jobs limit s
      → (n : String) (deps : List String) (ph : Phase) (left : List String)
      → lookup (dependencies jobs) n ≡ some deps
      → lookup s' n ≡ some ph
      → left_of ph ≡ some left
      → (d : String) → contains deps d ≡ true
      → is_settled s' left d ≡ true
  settled_step inv n deps ph left h at e d m = elim (Bool-cases (n == t.node)) [
    | inl this ↦ mover inv n deps ph left ((string_eq.eqb_iff n t.node).0 this) h at e d m
    | inr other ↦
        let old : lookup s n ≡ some ph = ground (arith, other, at, found n) in
        still_settled left d (inv.settled n deps ph left h old e d m)
  ]

Reachable-Inv :
    (jobs : List RunJob) (limit : ℕ) {s : State} → Reachable jobs limit s → Inv jobs limit s
Reachable-Inv jobs limit at_start = Inv-start jobs limit
Reachable-Inv jobs limit (then_step r t) =
    let inv = Reachable-Inv jobs limit r in
    record { settled = settled_step t inv; slots = slots_step t inv.slots }

-- No more jobs solve than the limit allows, and a job that is done with waiting has only dependencies that have
-- succeeded.
pub record IsOrdered (jobs : List RunJob) (limit : ℕ) (s : State) : Type 0 where
  pub within_limit : taken s ≤ limit
  pub deps_succeeded :
      (n d : String) (deps : List String) (ph : Phase)
      → lookup (dependencies jobs) n ≡ some deps
      → lookup s n ≡ some ph
      → left_of ph ≡ some []
      → contains deps d ≡ true
      → is_succeeded (lookup s d) ≡ true

-- In every state that a run reaches, whatever the order of the moves, no more jobs solve than the limit allows, and
-- a job that is done with waiting, and so one that solves or has succeeded, has only dependencies that have
-- succeeded.
pub run-IsOrdered :
    (jobs : List RunJob) (limit : ℕ) (s : State) → Reachable jobs limit s → IsOrdered jobs limit s
run-IsOrdered jobs limit s r =
    let inv = Reachable-Inv jobs limit r in
    record {
      within_limit = inv.slots;
      deps_succeeded = λ n d deps ph h at e m. inv.settled n deps ph [] h at e d m;
    }
