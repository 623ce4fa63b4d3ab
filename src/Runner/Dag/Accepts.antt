-- ===== src/Runner/Dag/Accepts.antt =====
-- `buildDAG` accepts exactly the jobs of distinct names whose dependencies can be ranked.
use cicada.Base.{
  ℕ, ◌<◌, ◌≤◌, ◌≡◌, ◌↔◌, refl, sym, ◌∙◌, ap, subst, String, List, [], ◌∷◌, none, some, true, false,
  if◌then◌else◌, ◌==◌, all, contains, distinct, disjoint-nil, lookup, string_eq, arith, Bool-cases,
  Option-cases, inl, inr, eqb_refl,
}
use cicada.Model.{
  ok, err, ◌>>=◌, guard, bind-ok, guard-eq-ok, duplicate_job, unknown_dep, cycle_detected, Error,
}
use cicada.Runner.Graph.{RunJob, dependencies, Reachable, State}
use cicada.Runner.Graph.Exports.{is_over}
use cicada.Runner.Graph.Nodes.{run_names, keys, contains-keys, keys-dependencies}
use cicada.Runner.Graph.Progress.{IsRanked, CanMove, run_progress}
use cicada.Runner.Dag.{
  Nodes, node_deps, node_names, add_nodes, check_known, detect_cycles, build_dag,
}
use cicada.Runner.Dag.Build.{add_nodes-eq, check_known-eq}
use cicada.Runner.Dag.Ranked.{detect_cycles-Visited}
use cicada.Runner.Dag.Total.{detect_cycles-Ends, detect_cycles-Stops}

-- Names are distinct, and every dependency is a job of lower rank, so that no job depends on itself over any number of steps.
pub record IsDag (jobs : List RunJob) : Type 0 where
  pub unique : distinct (run_names jobs) ≡ true
  pub rank : String → ℕ
  pub ranked : IsRanked jobs rank

-- Every listed dependency is known.
deps_known-lookup :
    (jobs : List RunJob) (names : List String)
    → all (λ j. all (contains names) j.depends_on) jobs ≡ true
    → (n : String) (deps : List String) (d : String) → lookup (dependencies jobs) n ≡ some deps
    → contains deps d ≡ true
    → contains names d ≡ true
deps_known-lookup [] names h n deps d e m = cc
deps_known-lookup (j ∷ jobs) names h n deps d e m = elim (Bool-cases (n == j.name)) [
  | inl this ↦
      let same : j.depends_on ≡ deps = ground (arith, this, e) in
      all-contains j.depends_on (ground (arith, h)) d (ap (λ l. contains l d) same ∙ m)
  | inr other ↦
      deps_known-lookup jobs names (ground (arith, h)) n deps d (ground (arith, other, e)) m
]
  where
    all-contains :
        (deps : List String)
        → all (contains names) deps ≡ true
        → (d : String) → contains deps d ≡ true
        → contains names d ≡ true
    all-contains [] h d m = cc
    all-contains (x ∷ deps) h d m = elim (Bool-cases (d == x)) [
      | inl this ↦ ap (contains names) ((string_eq.eqb_iff d x).0 this) ∙ ground (arith, h)
      | inr other ↦ all-contains deps (ground (arith, h)) d (ground (arith, other, m))
    ]

node_deps-found :
    (nodes : Nodes) (n : String) {deps : List String}
    → lookup nodes n ≡ some deps
    → node_deps nodes n ≡ deps
node_deps-found nodes n h = ground (arith, h)

build_dag-IsDag :
    (jobs : List RunJob) {nodes : Nodes}
    → build_dag jobs ≡ ok nodes
    → (nodes ≡ dependencies jobs) × IsDag jobs
unfolding build_dag
build_dag-IsDag jobs {nodes} h =
    let next =
      λ (nodes : Nodes). guard (check_known nodes jobs) (detect_cycles nodes >>= λ _. ok nodes) in
    let (nodes', added, h₁) = bind-ok (add_nodes jobs []) next h in
    let (known, h₂) =
      guard-eq-ok (check_known nodes' jobs) (detect_cycles nodes' >>= λ _. ok nodes') h₁ in
    let (s, searched, h₃) = bind-ok (detect_cycles nodes') (λ _. ok nodes') h₂ in
    let v = detect_cycles-Visited nodes' searched in
    let unique : distinct (run_names jobs) ≡ true =
      ground (arith, added, add_nodes-eq jobs [], disjoint-nil (run_names jobs)) in
    let made : dependencies jobs ≡ nodes' =
      ground (arith, added, add_nodes-eq jobs [], unique, disjoint-nil (run_names jobs)) in
    let all_known : all (λ j. all (contains (keys nodes')) j.depends_on) jobs ≡ true =
      ground (arith, known, check_known-eq nodes' jobs) in
    let names : keys nodes' ≡ run_names jobs = ap keys (sym made) ∙ keys-dependencies jobs in
    let same : nodes' ≡ nodes = cc in
    (
      sym same ∙ sym made,
      record {
        unique = unique;
        rank = v.ranks.rank;
        ranked = λ n deps d at m.
            let at' : lookup nodes' n ≡ some deps = ap (λ t. lookup t n) (sym made) ∙ at in
            let listed : contains (node_names nodes') n ≡ true = contains-keys nodes' n at' in
            let (_, lower) =
              v.ranks.closed n d (v.finished n listed)
                (ap (λ l. contains l d) (node_deps-found nodes' n at') ∙ m) in
            (
              lower,
              deps_known-lookup jobs (run_names jobs)
                  (ap (λ ks. all (λ j. all (contains ks) j.depends_on) jobs) (sym names)
                    ∙ all_known)
                  n deps d at m,
            );
      },
    )

all-contains_of :
    (names deps : List String)
    → ((d : String) → contains deps d ≡ true → contains names d ≡ true)
    → all (contains names) deps ≡ true
all-contains_of names [] h = refl
all-contains_of names (x ∷ deps) h =
    ground (
      arith,
      h x (rw (eqb_refl x) refl),
      all-contains_of names deps (λ d m. h d (ground (arith, m))),
    )

lookup-deps_known :
    (jobs : List RunJob) (names : List String)
    → distinct (run_names jobs) ≡ true
    → ((n : String) (deps : List String) (d : String)
        → lookup (dependencies jobs) n ≡ some deps
        → contains deps d ≡ true
        → contains names d ≡ true)
    → all (λ j. all (contains names) j.depends_on) jobs ≡ true
lookup-deps_known [] names unique h = refl
lookup-deps_known (j ∷ jobs) names unique h = ground (
  arith,
  all-contains_of names j.depends_on (λ d m. h j.name j.depends_on d (rw (eqb_refl j.name) refl) m),
  lookup-deps_known jobs names (ground (arith, unique)) (λ n deps d at m.
      let listed : contains (run_names jobs) n ≡ true =
        ap (λ ks. contains ks n) (sym (keys-dependencies jobs))
        ∙ contains-keys (dependencies jobs) n at in
      h n deps d (later n deps at listed) m),
)
  where
    later :
        (n : String) (deps : List String)
        → lookup (dependencies jobs) n ≡ some deps
        → contains (run_names jobs) n ≡ true
        → lookup (dependencies (j ∷ jobs)) n ≡ some deps
    later n deps at listed = elim (Bool-cases (n == j.name)) [
      | inl this ↦
          let twice : contains (run_names jobs) j.name ≡ true =
            ap (contains (run_names jobs)) (sym ((string_eq.eqb_iff n j.name).0 this)) ∙ listed in
          absurd (ground (arith, twice, unique))
      | inr other ↦ rw other at
    ]

IsDag-build_dag : (jobs : List RunJob) → IsDag jobs → build_dag jobs ≡ ok (dependencies jobs)
unfolding build_dag
IsDag-build_dag jobs dag =
    let nodes = dependencies jobs in
    let names : node_names nodes ≡ run_names jobs = keys-dependencies jobs in
    let added : add_nodes jobs [] ≡ ok nodes =
      ground (arith, add_nodes-eq jobs [], dag.unique, disjoint-nil (run_names jobs)) in
    let all_known =
      lookup-deps_known jobs (run_names jobs) dag.unique
        (λ n deps d at m. (dag.ranked n deps d at m).1) in
    let known : check_known nodes jobs ≡ none =
      check_known-eq nodes jobs
      ∙ ap (λ ks. if all (λ j. all (contains ks) j.depends_on) jobs then none else some unknown_dep)
          names
      ∙ rw all_known refl in
    let (s, searched) = detect_cycles-Ends nodes dag.rank (λ n d m.
      let (lower, there) = ranked_deps n d m in (lower, ap (λ ks. contains ks d) names ∙ there)) in
    ground (arith, added, known, searched)
  where
    ranked_deps :
        (n d : String)
        → contains (node_deps (dependencies jobs) n) d ≡ true
        → (dag.rank d < dag.rank n) × (contains (run_names jobs) d ≡ true)
    ranked_deps n d m = elim (Option-cases (lookup (dependencies jobs) n)) [
      | inl absent ↦ absurd (ground (arith, absent, m))
      | inr (deps, at) ↦
          dag.ranked n deps d at
            (ap (λ l. contains l d) (sym (node_deps-found (dependencies jobs) n at)) ∙ m)
    ]

-- The runner accepts jobs, and then with a node for each, exactly when their names are distinct and every dependency is
-- a job of lower rank for some ranking, so that there is no cycle.
pub build_dag_iff :
    (jobs : List RunJob) (nodes : Nodes)
    → (build_dag jobs ≡ ok nodes) ↔ ((nodes ≡ dependencies jobs) × IsDag jobs)
build_dag_iff jobs nodes =
    ((λ h. build_dag-IsDag jobs h), (λ (same, dag). IsDag-build_dag jobs dag ∙ ap ok (sym same)))

-- A run of jobs that the runner accepts does not get stuck: in every state that it reaches, as long as some job has not
-- returned and there is a slot at all, some node can move without a cancelled context.
pub build_dag-run_progress :
    (jobs : List RunJob) (nodes : Nodes) (limit : ℕ) (s : State)
    → build_dag jobs ≡ ok nodes
    → Reachable jobs limit s
    → 1 ≤ limit
    → is_over s ≡ false
    → CanMove jobs limit s
build_dag-run_progress jobs nodes limit s accepted reached some_slot unfinished =
    let (_, dag) = build_dag-IsDag jobs accepted in
    run_progress jobs limit dag.rank s reached some_slot dag.ranked dag.unique unfinished

-- What each error of `buildDAG` says of the jobs.
abbrev pub Refusal : List RunJob → Error → Type 0
Refusal jobs duplicate_job = distinct (run_names jobs) ≡ false
Refusal jobs unknown_dep = all (λ j. all (contains (run_names jobs)) j.depends_on) jobs ≡ false
Refusal jobs cycle_detected = (rank : String → ℕ) → ¬ IsRanked jobs rank
Refusal jobs _ = ⊥

-- The runner refuses jobs for one of three reasons: a name occurs twice, a dependency is no job, or there is a
-- cycle, so that no ranking puts every job above its dependencies. The fuel of the search never runs out.
pub build_dag-Refusal : (jobs : List RunJob) (e : Error) → build_dag jobs ≡ err e → Refusal jobs e
unfolding build_dag
build_dag-Refusal jobs e h =
    let nodes = dependencies jobs in
    let names : node_names nodes ≡ run_names jobs = keys-dependencies jobs in
    let is_known = all (λ j. all (contains (run_names jobs)) j.depends_on) jobs in
    let checked : check_known nodes jobs ≡ (if is_known then none else some unknown_dep) =
      check_known-eq nodes jobs
      ∙ ap (λ ks. if all (λ j. all (contains ks) j.depends_on) jobs then none else some unknown_dep)
          names in
    let added = add_nodes-eq jobs [] in
    let no_nodes = disjoint-nil (run_names jobs) in
    elim (Bool-cases (distinct (run_names jobs))) [
      | inr twice ↦
          let same : duplicate_job ≡ e = ground (arith, twice, h, added) in
          subst (Refusal jobs) same twice
      | inl unique ↦ elim (Bool-cases is_known) [
        | inr unknown ↦
            let same : unknown_dep ≡ e =
              ground (arith, unique, unknown, h, added, no_nodes, checked) in
            subst (Refusal jobs) same unknown
        | inl known ↦
            elim (detect_cycles-Stops nodes
              (λ n d m. ap (λ ks. contains ks d) names ∙ deps_listed known n d m)) [
                | inl cycle ↦
                    let same : cycle_detected ≡ e =
                      ground (arith, unique, known, h, added, no_nodes, checked, cycle) in
                    subst (Refusal jobs) same (λ rank ranked.
                      let accepted =
                        IsDag-build_dag jobs
                          (record { unique = unique; rank = rank; ranked = ranked }) in
                      cc)
                | inr (s, searched) ↦
                    absurd (ground (arith, unique, known, h, added, no_nodes, checked, searched))
              ]
      ]
    ]
  where
    deps_listed :
        all (λ j. all (contains (run_names jobs)) j.depends_on) jobs ≡ true
        → (n d : String) → contains (node_deps (dependencies jobs) n) d ≡ true
        → contains (run_names jobs) d ≡ true
    deps_listed known n d m = elim (Option-cases (lookup (dependencies jobs) n)) [
      | inl absent ↦ absurd (ground (arith, absent, m))
      | inr (deps, at) ↦
          deps_known-lookup jobs (run_names jobs) known n deps d at
            (ap (λ l. contains l d) (sym (node_deps-found (dependencies jobs) n at)) ∙ m)
    ]
