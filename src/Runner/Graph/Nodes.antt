-- ===== src/Runner/Graph/Nodes.antt =====
-- The nodes of a state are those of the jobs.
use cicada.Base.{
  ◌≡◌, refl, sym, ◌∙◌, ap, inl, inr, ◌≤◌, String, List, [], ◌∷◌, some, true, false, contains,
  distinct, lookup, insert, map, string_eq, arith, ◌==◌, Bool-cases, eqb_refl,
}
use cicada.Runner.Graph.{
  RunJob, Phase, waiting, acquiring, running, succeeded, failed, skipped, State, is_running, taken,
  start, dependencies, conditions,
}
use cicada.Runner.Graph.Ordered.{slot, slot_none}
use cicada.Runner.Graph.Exports.{has_returned, is_over}

abbrev pub run_names : List RunJob → List String
run_names = map (λ (j : RunJob). j.name)

abbrev pub keys {ℓ} : {V : Type ℓ} → List (String × V) → List String
keys = map (λ (k, v). k)

pub lookup-keys {ℓ} :
    {V : Type ℓ} (m : List (String × V)) (k : String)
    → contains (keys m) k ≡ true
    → (v : V) × (lookup m k ≡ some v)
lookup-keys [] k h = cc
lookup-keys ((j, w) ∷ m) k h = elim (Bool-cases (k == j)) [
  | inl this ↦ (w, rw this refl)
  | inr other ↦ let (v, e) = lookup-keys m k (ground (arith, other, h)) in (v, rw other e)
]

pub contains-keys {ℓ} :
    {V : Type ℓ} (m : List (String × V)) (k : String) {v : V}
    → lookup m k ≡ some v
    → contains (keys m) k ≡ true
contains-keys [] k h = cc
contains-keys ((j, w) ∷ m) k h = elim (Bool-cases (k == j)) [
  | inl this ↦ rw this refl
  | inr other ↦ rw other (contains-keys m k (rw other at h))
]

pub keys-insert {ℓ} :
    {V : Type ℓ} (m : List (String × V)) (k : String) (v : V) {w : V}
    → lookup m k ≡ some w
    → keys (insert m k v) ≡ keys m
keys-insert [] k v h = cc
keys-insert ((j, u) ∷ m) k v h = elim (Bool-cases (k == j)) [
  | inl this ↦ rw this (ap (λ t. t ∷ keys m) ((string_eq.eqb_iff k j).0 this))
  | inr other ↦ rw other (ap (λ t. j ∷ t) (keys-insert m k v (rw other at h)))
]

pub keys-start : (jobs : List RunJob) → keys (start jobs) ≡ run_names jobs
keys-start [] = refl
keys-start (j ∷ jobs) = ap (λ t. j.name ∷ t) (keys-start jobs)

pub keys-dependencies : (jobs : List RunJob) → keys (dependencies jobs) ≡ run_names jobs
keys-dependencies [] = refl
keys-dependencies (j ∷ jobs) = ap (λ t. j.name ∷ t) (keys-dependencies jobs)

pub keys-conditions : (jobs : List RunJob) → keys (conditions jobs) ≡ run_names jobs
keys-conditions [] = refl
keys-conditions (j ∷ jobs) = ap (λ t. j.name ∷ t) (keys-conditions jobs)

-- An entry behind one of another name is found.
behind :
    (m : String) (ph : Phase) (s : State) (n : String) {v : Phase}
    → contains (keys s) m ≡ false
    → lookup s n ≡ some v
    → lookup ((m, ph) ∷ s) n ≡ some v
behind m ph s n new at = elim (Bool-cases (n == m)) [
  | inl this ↦
      let same : n ≡ m = (string_eq.eqb_iff n m).0 this in
      let old : contains (keys s) m ≡ true =
        ap (contains (keys s)) (sym same) ∙ contains-keys s n at in
      absurd (ground (arith, new, old))
  | inr other ↦ rw other at
]

-- With distinct names a node that has not returned is found.
pub unreturned :
    (s : State)
    → distinct (keys s) ≡ true
    → is_over s ≡ false
    → (n : String) × (ph : Phase) × (lookup s n ≡ some ph) × (has_returned ph ≡ false)
unreturned [] d h = cc
unreturned ((m, ph) ∷ s) d h = elim (Bool-cases (has_returned ph)) [
  | inr live ↦ (m, ph, rw (eqb_refl m) refl, live)
  | inl back ↦
      let (n, p, at, live) = unreturned s (ground (arith, d)) (ground (arith, h, back)) in
      (n, p, behind m ph s n (ground (arith, d)) at, live)
]

-- With distinct names a taken slot belongs to a node.
pub taken-running :
    (s : State)
    → distinct (keys s) ≡ true
    → 1 ≤ taken s
    → (n : String) × (lookup s n ≡ some running)
taken-running [] d h = absurd (omega arith)
taken-running ((m, ph) ∷ s) d h = elim (Bool-cases (is_running ph)) [
  | inl runs ↦ (m, rw (is_running-eq ph runs) rw (eqb_refl m) refl)
  | inr idle ↦
      let free : slot ph ≡ 0 = slot_none ph idle in
      let (n, at) = taken-running s (ground (arith, d)) (omega (arith, h, free)) in
      (n, behind m ph s n (ground (arith, d)) at)
]
  where
    is_running-eq : (p : Phase) → is_running p ≡ true → p ≡ running
    is_running-eq running h' = refl
    is_running-eq acquiring h' = cc
    is_running-eq succeeded h' = cc
    is_running-eq failed h' = cc
    is_running-eq skipped h' = cc
    is_running-eq (waiting deps) h' = cc
