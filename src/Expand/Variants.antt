-- ===== src/Expand/Variants.antt =====
-- The second phase of `Expand` replaces a dependency by all variants of its job.
use cicada.Base.{
  ◌≡◌, refl, sym, ◌∙◌, ap, String, List, [], ◌∷◌, ◌++◌, some, Bool, true, false, if◌then◌else◌,
  ◌&&◌, ◌||◌, any, all-append, contains, lookup, lookup-insert, map, string_eq, arith, ◌==◌,
  Option-cases, Bool-cases, inl, inr,
}
use cicada.Model.{Job, ok, guard, ◌>>=◌, bind-ok, guard-eq-ok}
use cicada.Merge.{job_names}
use cicada.Params.{Vars, substitute_job_vars, substitute_job}
use cicada.Expand.Matrices.{validate_matrix, combinations}
use cicada.Expand.{
  replicate_job, Expansion, variant_job, add_variants, job_variants, expand_each, rewrite_deps,
  rewrite_job, has_matrix,
}
use cicada.Expand.Known.{all_in, known_in, deps_known, all_in-sub, contains-names}

-- Phase 2: each variant has the dependencies of its job and no matrix.
variants_lem :
    (known : List String) (j : Job) (combos : List Vars)
    → (all_in known j.depends_on ≡ true → known_in known (map (variant_job j) combos) ≡ true)
      × (any has_matrix (map (variant_job j) combos) ≡ false)
unfolding variant_job replicate_job substitute_job_vars substitute_job
variants_lem known j [] = (λ h. refl, refl)
variants_lem known j (combo ∷ combos) =
    let (deps, flat) = variants_lem known j combos in (λ h. ground (arith, h, deps h), flat)

pub job_variants_lem :
    (known : List String) (j : Job) {js : List Job}
    → job_variants j ≡ ok js
    → (all_in known j.depends_on ≡ true → known_in known js ≡ true) × (any has_matrix js ≡ false)
unfolding job_variants replicate_job substitute_job_vars substitute_job
job_variants_lem known j {js} h = elim (Option-cases j.matrix) [
  | inl no_matrix ↦
      let same : record (replicate_job j []) { matrix_values = j.matrix_values } ∷ [] ≡ js =
        ground (arith, no_matrix, h) in
      rw (← same) (λ k. ground (arith, k), rw no_matrix refl)
  | inr (m, matrix) ↦
      let out = λ (combos : List Vars). ok (map (variant_job j) combos) in
      let valued : guard (validate_matrix (some m)) (combinations m >>= out) ≡ ok js =
        ground (arith, matrix, h) in
      let (_, h₁) = guard-eq-ok (validate_matrix (some m)) (combinations m >>= out) valued in
      let (combos, _, done) = bind-ok (combinations m) out h₁ in
      let same : map (variant_job j) combos ≡ js = cc in rw (← same) (variants_lem known j combos)
]

-- The map of variants holds names of expanded jobs, and every job handled so far.
pub record Inv (known handled : List String) (x : Expansion) : Type 0 where
  pub targets :
      (n : String) (vs : List String)
      → lookup x.variants n ≡ some vs
      → all_in (job_names x.expanded) vs ≡ true
  pub present :
      (n : String)
      → contains handled n ≡ true
      → (vs : List String) × (lookup x.variants n ≡ some vs)
  pub deps : known_in known x.expanded ≡ true
  pub flat : any has_matrix x.expanded ≡ false

pub any-append : (p : Job → Bool) (xs ys : List Job) → any p (xs ++ ys) ≡ (any p xs || any p ys)
any-append p [] ys = refl
any-append p (x ∷ xs) ys = ground (arith, any-append p xs ys)

all_in_self : (ns : List String) → all_in ns ns ≡ true
all_in_self ns = all_in-all ns ns (λ n m. m)
  where
    all_in-all :
        (ns ms : List String)
        → ((n : String) → contains ms n ≡ true → contains ns n ≡ true)
        → all_in ns ms ≡ true
    all_in-all ns [] sub = refl
    all_in-all ns (m ∷ ms) sub =
        ground
          (arith, sub m, string_eq.eqb_iff m m, all_in-all ns ms (λ n k. sub n (ground (arith, k))))

module _ (x : Expansion) (name : String) (js : List Job) where
  old_name :
      (n : String)
      → contains (job_names x.expanded) n ≡ true
      → contains (job_names (x.expanded ++ js)) n ≡ true
  old_name n m = contains-names x.expanded js n ∙ ground (arith, m)

  new_name :
      (n : String)
      → contains (job_names js) n ≡ true
      → contains (job_names (x.expanded ++ js)) n ≡ true
  new_name n m = contains-names x.expanded js n ∙ ground (arith, m)

  variants_of :
      (n : String)
      → lookup (add_variants x name js).variants n
        ≡ (if n == name then some (job_names js) else lookup x.variants n)
  variants_of n = lookup-insert x.variants name n (job_names js)

  targets-add_variants :
      ((n : String) (vs : List String)
        → lookup x.variants n ≡ some vs
        → all_in (job_names x.expanded) vs ≡ true)
      → (n : String) (vs : List String) → lookup (add_variants x name js).variants n ≡ some vs
      → all_in (job_names (x.expanded ++ js)) vs ≡ true
  targets-add_variants old n vs h = elim (Bool-cases (n == name)) [
    | inl this ↦
        let same : job_names js ≡ vs = ground (arith, this, h, variants_of n) in
        all_in-sub (job_names js) (job_names (x.expanded ++ js)) vs new_name
          (ap (all_in (job_names js)) (sym same) ∙ all_in_self (job_names js))
    | inr other ↦
        all_in-sub (job_names x.expanded) (job_names (x.expanded ++ js)) vs old_name
          (old n vs (ground (arith, other, h, variants_of n)))
  ]

  present-add_variants :
      (handled : List String)
      → ((n : String)
          → contains handled n ≡ true
          → (vs : List String) × (lookup x.variants n ≡ some vs))
      → (n : String) → contains (name ∷ handled) n ≡ true
      → (vs : List String) × (lookup (add_variants x name js).variants n ≡ some vs)
  present-add_variants handled old n h = elim (Bool-cases (n == name)) [
    | inl this ↦ (job_names js, variants_of n ∙ rw this refl)
    | inr other ↦
        let (vs, e) = old n (ground (arith, other, h)) in
        (vs, variants_of n ∙ ground (arith, other, e))
  ]

Inv-add_variants :
    (known handled : List String) (x : Expansion) (name : String) (js : List Job)
    → Inv known handled x
    → known_in known js ≡ true
    → any has_matrix js ≡ false
    → Inv known (name ∷ handled) (add_variants x name js)
Inv-add_variants known handled x name js inv k f = record {
  targets = targets-add_variants x name js inv.targets;
  present = present-add_variants x name js handled inv.present;
  deps =
      all-append (λ (j : Job). all_in known j.depends_on) x.expanded js
      ∙ ground (arith, inv.deps, k);
  flat = any-append has_matrix x.expanded js ∙ ground (arith, inv.flat, f);
}

-- The names handled at the end, the last one first.
abbrev handle : List Job → List String → List String
handle [] handled = handled
handle (j ∷ jobs) handled = handle jobs (j.name ∷ handled)

contains-handle :
    (jobs : List Job) (handled : List String) (n : String)
    → contains (handle jobs handled) n ≡ (contains (job_names jobs) n || contains handled n)
contains-handle [] handled n = refl
contains-handle (j ∷ jobs) handled n = ground (arith, contains-handle jobs (j.name ∷ handled) n)

Inv-expand_each :
    (known : List String) (jobs : List Job) (handled : List String) (x : Expansion) {x' : Expansion}
    → Inv known handled x
    → known_in known jobs ≡ true
    → expand_each jobs x ≡ ok x'
    → Inv known (handle jobs handled) x'
unfolding expand_each
Inv-expand_each known [] handled x {x'} inv k h = let same : x ≡ x' = cc in rw (← same) inv
Inv-expand_each known (j ∷ jobs) handled x {x'} inv k h =
    let (js, one, rest) =
      bind-ok (job_variants j) (λ (js : List Job). expand_each jobs (add_variants x j.name js)) h in
    let (deps, flat) = job_variants_lem known j one in
    Inv-expand_each known jobs (j.name ∷ handled) (add_variants x j.name js)
      (Inv-add_variants known handled x j.name js inv (deps (ground (arith, k))) flat)
      (ground (arith, k)) rest

module _ (known : List String) (x : Expansion) (inv : Inv known known x) where
  all_in-append : (N vs ws : List String) → all_in N (vs ++ ws) ≡ (all_in N vs && all_in N ws)
  all_in-append N vs ws = all-append (contains N) vs ws

  all_in-rewrite :
      (deps : List String)
      → all_in known deps ≡ true
      → all_in (job_names x.expanded) (rewrite_deps deps x.variants) ≡ true
  unfolding rewrite_deps
  all_in-rewrite [] h = refl
  all_in-rewrite (d ∷ deps) h =
      let (vs, found) = inv.present d (ground (arith, h)) in
      rw found (
        all_in-append (job_names x.expanded) vs (rewrite_deps deps x.variants)
        ∙ ground (arith, inv.targets d vs found, all_in-rewrite deps (ground (arith, h))))

  pub known_in-rewrite :
      (jobs : List Job)
      → known_in known jobs ≡ true
      → known_in (job_names x.expanded) (map (rewrite_job x.variants) jobs) ≡ true
  unfolding rewrite_job
  known_in-rewrite [] h = refl
  known_in-rewrite (j ∷ jobs) h =
      ground (arith, h, all_in-rewrite j.depends_on, known_in-rewrite jobs)

pub rewritten :
    (variants : List (String × List String)) (jobs : List Job)
    → (job_names (map (rewrite_job variants) jobs) ≡ job_names jobs)
      × (any has_matrix (map (rewrite_job variants) jobs) ≡ any has_matrix jobs)
unfolding rewrite_job
rewritten variants [] = (refl, refl)
rewritten variants (j ∷ jobs) =
    let (names, flat) = rewritten variants jobs in
    (ap (λ t. j.name ∷ t) names, ap (λ t. has_matrix j || t) flat)

pub Inv-all :
    (jobs : List Job) {x : Expansion}
    → deps_known jobs ≡ true
    → expand_each jobs (record { variants = []; expanded = [] }) ≡ ok x
    → Inv (job_names jobs) (job_names jobs) x
Inv-all jobs {x} k h =
    let start : Inv (job_names jobs) [] (record { variants = []; expanded = [] }) = record {
      targets = λ n vs e. cc;
      present = λ n e. cc;
      deps = refl;
      flat = refl;
    } in
    let inv =
      Inv-expand_each (job_names jobs) jobs [] (record { variants = []; expanded = [] }) {x' = x}
        start k h in
    record {
      targets = inv.targets;
      present = λ n m. inv.present n (contains-handle jobs [] n ∙ ground (arith, m));
      deps = inv.deps;
      flat = inv.flat;
    }
