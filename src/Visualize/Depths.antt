-- ===== src/Visualize/Depths.antt =====
-- The depths that `buildLayers` computes in topological order.
use cicada.Base.{
  ℕ, ◌<◌, ◌≡◌, sym, ◌∙◌, ap, subst, String, List, [], ◌∷◌, ◌++◌, some, true, false, ◌==◌, contains,
  contains-append, distinct, lookup, length, get_or, string_eq, nat_eq, arith, Bool-cases, inl, inr,
}
use mathlib.Core.List.{append-nil, append_assoc}
use cicada.Model.{Job}
use cicada.Graph.{job_deps}
use cicada.Validate.Index.{names, name_of}
use cicada.Validate.Order.{IsRunnable}
use cicada.Validate.Passed.{DependsOn, passed, next_job}
use cicada.Visualize.{name_index, raise_depth, compute_depths}
use cicada.Visualize.Raise.{
  name_index-name_of, length-raise_depth, raise_depth-other, raise_depth-above,
}

-- The jobs that are done lie above their dependencies, which are done as well.
pub record Deep (jobs : List Job) (done : List ℕ) (ds : List ℕ) : Type 0 where
  pub size : length ds ≡ length jobs
  pub above :
      (i k : ℕ)
      → contains done i ≡ true
      → DependsOn jobs i k
      → (contains done k ≡ true) × (get_or ds k 0 < get_or ds i 0)

module _ (jobs : List Job) (unique : distinct (names jobs) ≡ true) where
  abbrev pub index : List (String × ℕ)
  index = name_index 0 jobs []

  found : (k : ℕ) (dep : String) → name_of jobs k ≡ some dep → lookup index dep ≡ some k
  found k dep h = name_index-name_of 0 k jobs [] dep unique h ∙ ap some (omega arith)

  Deep-raise :
      (done : List ℕ) (ds : List ℕ) (idx : ℕ)
      → Deep jobs done ds
      → idx < length jobs
      → contains done idx ≡ false
      → ((k : ℕ) → DependsOn jobs idx k → contains done k ≡ true)
      → Deep jobs (done ++ idx ∷ []) (raise_depth index idx (job_deps jobs idx) ds)
  Deep-raise done ds idx deep lt fresh ready =
      let lt' : idx < length ds = omega (arith, deep.size) in
      let other : (k : ℕ) → contains done k ≡ true → (idx == k) ≡ false = λ k m.
        elim (Bool-cases (idx == k)) [
          | inr apart ↦ apart
          | inl this ↦ absurd (
              let twice : contains done idx ≡ true =
                ap (contains done) ((nat_eq.eqb_iff idx k).0 this) ∙ m in
              ground (arith, twice, fresh))
        ] in
      let same : (k : ℕ)
          → contains done k ≡ true
          → get_or (raise_depth index idx (job_deps jobs idx) ds) k 0 ≡ get_or ds k 0 =
        λ k m. raise_depth-other index idx k (job_deps jobs idx) ds lt' (other k m) in
      let kept : (k : ℕ) → contains done k ≡ true → contains (done ++ idx ∷ []) k ≡ true =
        λ k m. contains-append done (idx ∷ []) k ∙ ground (arith, m) in
      record {
        size = length-raise_depth index idx (job_deps jobs idx) ds ∙ deep.size;
        above = λ i k m edge. elim (Bool-cases (contains done i)) [
          | inl before ↦
              let (there, lower) = deep.above i k before edge in
              (kept k there, omega (arith, same i before, same k there, lower))
          | inr now ↦
              let is_idx : i ≡ idx =
                ground (arith, m, now, contains-append done (idx ∷ []) i, nat_eq.eqb_iff i idx) in
              let edge' : DependsOn jobs idx k = subst (λ t. DependsOn jobs t k) is_idx edge in
              let there = ready k edge' in
              let (dep, listed, named) = edge' in
              let higher =
                raise_depth-above index idx k (job_deps jobs idx) ds dep lt' listed
                  (found k dep named) (other k there) in
              (
                kept k there,
                subst
                    (λ t.
                      get_or (raise_depth index idx (job_deps jobs idx) ds) k 0
                      < get_or (raise_depth index idx (job_deps jobs idx) ds) t 0)
                    (sym is_idx) (omega (arith, same k there, higher)),
              )
        ];
      }

module _ (jobs : List Job) (order : List ℕ) (r : IsRunnable jobs order) where
  pub Deep-compute :
      (done rest ds : List ℕ)
      → done ++ rest ≡ order
      → Deep jobs done ds
      → Deep jobs order (compute_depths jobs (index jobs r.unique_names) rest ds)
  unfolding compute_depths
  Deep-compute done [] ds split deep =
      subst (λ l. Deep jobs l ds) (sym (append-nil done) ∙ split) deep
  Deep-compute done (i ∷ rest) ds split deep =
      let (fresh, lt) = next_job jobs order r done rest i split in
      Deep-compute (done ++ i ∷ []) rest
        (raise_depth (index jobs r.unique_names) i (job_deps jobs i) ds)
        (append_assoc done (i ∷ []) rest ∙ split)
        (Deep-raise jobs r.unique_names done ds i deep lt fresh
          (λ k edge. passed jobs order r done rest i k split lt fresh edge))
