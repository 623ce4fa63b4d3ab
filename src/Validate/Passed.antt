-- ===== src/Validate/Passed.antt =====
-- Going through the jobs in the order of a validation: what has been passed before a job.
use cicada.Base.{
  ℕ, zero, suc, ◌<◌, ◌≡◌, refl, sym, ◌∙◌, ap, subst, String, List, [], ◌∷◌, ◌++◌, some, true, false,
  ◌==◌, contains, contains-append, distinct, distinct-append, position, length, ltb→lt, string_eq,
  nat_eq, arith, Bool-cases, inl, inr, eqb_refl,
}
use cicada.Model.{Job}
use cicada.Graph.{job_deps}
use cicada.Validate.Index.{names, name_of}
use cicada.Validate.Order.{IsRunnable}

-- Job `i` depends on the job at `k`.
abbrev pub DependsOn : List Job → ℕ → ℕ → Type 0
DependsOn jobs i k =
    (dep : String) × (contains (job_deps jobs i) dep ≡ true) × (name_of jobs k ≡ some dep)

contains-name_of :
    (jobs : List Job) (k : ℕ) {n : String}
    → name_of jobs k ≡ some n
    → contains (names jobs) n ≡ true
contains-name_of [] k h = cc
contains-name_of (j ∷ jobs) zero {n} h =
    let same : j.name ≡ n = cc in ground (arith, string_eq.eqb_iff n j.name, same)
contains-name_of (j ∷ jobs) (suc k) h = ground (arith, contains-name_of jobs k h)

name_of_unique :
    (jobs : List Job) (k k' : ℕ) {n : String}
    → distinct (names jobs) ≡ true
    → name_of jobs k ≡ some n
    → name_of jobs k' ≡ some n
    → k ≡ k'
name_of_unique [] k k' u h h' = cc
name_of_unique (j ∷ jobs) zero zero u h h' = refl
name_of_unique (j ∷ jobs) zero (suc k') {n} u h h' =
    let same : j.name ≡ n = cc in
    let twice : contains (names jobs) j.name ≡ true =
      ap (contains (names jobs)) same ∙ contains-name_of jobs k' h' in
    absurd (ground (arith, twice, u))
name_of_unique (j ∷ jobs) (suc k) zero {n} u h h' =
    let same : j.name ≡ n = cc in
    let twice : contains (names jobs) j.name ≡ true =
      ap (contains (names jobs)) same ∙ contains-name_of jobs k h in
    absurd (ground (arith, twice, u))
name_of_unique (j ∷ jobs) (suc k) (suc k') u h h' =
    ap suc (name_of_unique jobs k k' (ground (arith, u)) h h')

position_in : (xs ys : List ℕ) (a : ℕ) → position (xs ++ ys) a < length xs → contains xs a ≡ true
position_in [] ys a h = absurd (omega arith)
position_in (x ∷ xs) ys a h = elim (Bool-cases (a == x)) [
  | inl this ↦ rw this refl
  | inr other ↦
      let less : position (xs ++ ys) a < length xs = omega (
        arith,
        let same : position (x ∷ xs ++ ys) a ≡ suc (position (xs ++ ys) a) = rw other refl in same,
      ) in
      rw other (position_in xs ys a less)
]

position-here :
    (xs ys : List ℕ) (a : ℕ) → contains xs a ≡ false → position (xs ++ a ∷ ys) a ≡ length xs
position-here [] ys a h = rw (eqb_refl a) refl
position-here (x ∷ xs) ys a h = ground (arith, h, position-here xs ys a)

module _ (jobs : List Job) (order : List ℕ) (r : IsRunnable jobs order) where
  -- A dependency has been passed before its job.
  pub passed :
      (done rest : List ℕ) (i k : ℕ)
      → done ++ i ∷ rest ≡ order
      → i < length jobs
      → contains done i ≡ false
      → DependsOn jobs i k
      → contains done k ≡ true
  passed done rest i k split lt fresh (dep, listed, named) =
      let (k', named', earlier) = r.before i dep lt listed in
      let same : k ≡ k' = name_of_unique jobs k k' r.unique_names named named' in
      let here : position order i ≡ length done =
        ap (λ l. position l i) (sym split) ∙ position-here done rest i fresh in
      let before : position (done ++ i ∷ rest) k < length done =
        subst (λ l. position l k < length done) (sym split)
          (subst (λ t. position order t < length done) (sym same) (omega (arith, earlier, here))) in
      position_in done (i ∷ rest) k before

  -- The next job of the order has not been passed, and is there.
  pub next_job :
      (done rest : List ℕ) (i : ℕ)
      → done ++ i ∷ rest ≡ order
      → (contains done i ≡ false) × (i < length jobs)
  next_job done rest i split =
      let whole : distinct (done ++ i ∷ rest) ≡ true = ap distinct split ∙ r.unique_order in
      let listed : contains order i ≡ true =
        ap (λ l. contains l i) (sym split)
        ∙ contains-append done (i ∷ rest) i
        ∙ ground (arith, eqb_refl i) in
      (
        ground (arith, whole, distinct-append done (i ∷ rest)),
        ltb→lt i (length jobs) (sym (r.complete i) ∙ listed),
      )
