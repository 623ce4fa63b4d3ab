-- ===== src/Visualize/Layers.antt =====
-- The layers of a graph hold each job once, above the jobs that it depends on.
use cicada.Base.{
  distinct, ℕ, zero, suc, ◌+◌, ◌-◌, ◌<◌, ◌≡◌, refl, sym, ◌∙◌, ap, subst, List, [], ◌∷◌, some, Bool,
  true, false, ◌&&◌, ◌||◌, ◌==◌, all, contains, length, get_or, length-replicate, replicate, ltb,
  lt→ltb, leb, string_eq, nat_eq, arith,
}
use cicada.Model.{Job, Pipeline}
use cicada.Validate.Order.{IsRunnable}
use cicada.Visualize.{compute_depths, max_of, order_of, build_layers, build_graph}
use cicada.Validate.Passed.{DependsOn}
use cicada.Visualize.Depths.{Deep, index, Deep-compute}
use cicada.Visualize.Grouping.{all_below, contains-group_from, distinct-group_from}

-- Every job is in one layer and there once, and above the jobs that it depends on.
pub record IsLayered (jobs : List Job) (layers : List (List ℕ)) : Type 0 where
  pub layer : ℕ → ℕ
  pub placed : (d i : ℕ) → contains (get_or layers d []) i ≡ (ltb i (length jobs) && (layer i == d))
  pub once : (d : ℕ) → distinct (get_or layers d []) ≡ true
  pub above : (i k : ℕ) → i < length jobs → DependsOn jobs i k → layer k < layer i

no_layers : (n d i : ℕ) → contains (get_or (replicate n []) d []) i ≡ false
no_layers zero d i = refl
no_layers (suc n) zero i = refl
no_layers (suc n) (suc d) i = no_layers n d i

no_repeats : (n d : ℕ) → distinct {A = ℕ} (get_or (replicate n []) d []) ≡ true
no_repeats zero d = refl
no_repeats (suc n) zero = refl
no_repeats (suc n) (suc d) = no_repeats n d

build_layers-IsLayered :
    (jobs : List Job) (order : List ℕ) (r : IsRunnable jobs order)
    → IsLayered jobs (build_layers jobs order (index jobs r.unique_names))
unfolding build_layers
build_layers-IsLayered [] order r = record {
  layer = λ i. 0;
  placed = λ d i. ground arith;
  once = λ d. refl;
  above = λ i k lt edge. absurd (omega arith);
}
build_layers-IsLayered (j ∷ jobs) [] r = absurd (
    let missing : Path Bool false (ltb 0 (length (j ∷ jobs))) = r.complete 0 in
    ground (arith, missing))
build_layers-IsLayered (j ∷ jobs) (o ∷ order) r =
    let all_jobs = j ∷ jobs in
    let n = length all_jobs in
    let start = replicate n 0 in
    let ds = compute_depths all_jobs (index all_jobs r.unique_names) (o ∷ order) start in
    let deep : Deep all_jobs (o ∷ order) ds =
      Deep-compute all_jobs (o ∷ order) r [] (o ∷ order) start refl
        (record { size = length-replicate n 0; above = λ i k m edge. cc }) in
    let m = max_of ds + 1 in
    let empty : List (List ℕ) = replicate m [] in
    let size : length empty ≡ m = length-replicate m [] in
    let below : all (λ x. ltb x (length empty)) ds ≡ true =
      all_below ds (length empty) (omega (arith, size)) in
    record {
      layer = λ i. get_or ds i 0;
      placed = λ d i.
          contains-group_from 0 ds empty d i below
          ∙ ap (λ b. b || (leb 0 i && (ltb i (0 + length ds) && (get_or ds (i - 0) 0 == d))))
              (no_layers m d i)
          ∙ simpler i d ds n deep.size;
      once =
          distinct-group_from 0 ds empty below (λ d. no_repeats m d)
            (λ d i k. absurd (ground (arith, k, no_layers m d i)));
      above = λ i k lt edge.
          let listed : contains (o ∷ order) i ≡ true = r.complete i ∙ lt→ltb i n lt in
          (deep.above i k listed edge).1;
    }
  where
    simpler :
        (i d : ℕ) (ds : List ℕ) (n : ℕ)
        → length ds ≡ n
        → (false || (leb 0 i && (ltb i (0 + length ds) && (get_or ds (i - 0) 0 == d))))
          ≡ (ltb i n && (get_or ds i 0 == d))
    simpler i d ds n e =
        let same : get_or ds (i - 0) 0 ≡ get_or ds i 0 =
          ap (λ t. get_or ds t 0) (let nothing : i - 0 ≡ i = omega arith in nothing) in
        let from : leb 0 i ≡ true = ground arith in
        let to : ltb i (0 + length ds) ≡ ltb i n = ground (arith, e) in rw (same, from, to) refl

-- In the graph of a validated pipeline the layers hold each job exactly once: each is in one layer only and not twice
-- there. The layer is above those of all jobs that it depends on.
pub build_graph-IsLayered :
    (p : Pipeline) (order : List ℕ)
    → p.topo_order ≡ some order
    → IsRunnable p.jobs order
    → IsLayered p.jobs (build_graph p).layers
unfolding build_graph
build_graph-IsLayered p order stored r =
    subst (λ t. IsLayered p.jobs (build_layers p.jobs (order_of t) (index p.jobs r.unique_names)))
      (sym stored) (build_layers-IsLayered p.jobs order r)
