-- ===== src/Runner/Dag/Build.antt =====
-- The nodes that `buildDAG` makes, and the dependencies that it knows.
use cicada.Base.{
  ◌≡◌, refl, sym, ◌∙◌, ap, String, List, [], ◌∷◌, ◌++◌, none, some, false, not, ◌&&◌, if◌then◌else◌,
  all, contains, contains-append, distinct, disjoint, disjoint-congr, disjoint-cons, lookup, insert,
  string_eq, arith, Option-cases, inl, inr,
}
use mathlib.Core.List.{map-append, append-nil, append_assoc}
use cicada.Model.{ok, err, duplicate_job, unknown_dep}
use cicada.Runner.Graph.{RunJob, dependencies}
use cicada.Runner.Graph.Nodes.{run_names, keys, contains-keys}
use cicada.Runner.Dag.{Nodes, add_nodes, check_deps, check_known}

lookup-none_iff : (m : Nodes) (k : String) → lookup m k ≡ none → contains (keys m) k ≡ false
lookup-none_iff [] k h = refl
lookup-none_iff ((j, v) ∷ m) k h = ground (arith, h, lookup-none_iff m k)

insert_absent :
    (m : Nodes) (k : String) (v : List String) → lookup m k ≡ none → insert m k v ≡ m ++ (k, v) ∷ []
insert_absent [] k v h = refl
insert_absent ((j, w) ∷ m) k v h = ground (arith, h, insert_absent m k v)

disjoint-concat :
    (xs ys : List String) (n : String)
    → disjoint (xs ++ n ∷ []) ys ≡ (not (contains ys n) && disjoint xs ys)
disjoint-concat xs ys n =
    disjoint-congr (xs ++ n ∷ []) (n ∷ xs) ys (λ a. contains-append xs (n ∷ []) a ∙ ground arith)
    ∙ disjoint-cons n xs ys

-- The nodes are the jobs, in order, if the names of the nodes and of the jobs are distinct.
pub add_nodes-eq :
    (jobs : List RunJob) (nodes : Nodes)
    → add_nodes jobs nodes ≡ (
        if distinct (run_names jobs) && disjoint (keys nodes) (run_names jobs)
        then ok (nodes ++ dependencies jobs)
        else err duplicate_job)
unfolding add_nodes
add_nodes-eq [] nodes = ap ok (sym (append-nil nodes))
add_nodes-eq (j ∷ jobs) nodes = elim (Option-cases (lookup nodes j.name)) [
  | inr (deps, e) ↦ ground (arith, e, contains-keys nodes j.name e)
  | inl fresh ↦
      let grown = insert_absent nodes j.name j.depends_on fresh in
      let names : keys (nodes ++ (j.name, j.depends_on) ∷ []) ≡ keys nodes ++ j.name ∷ [] =
        map-append (λ ((k, _) : String × List String). k) nodes _ in
      let apart : disjoint (keys (nodes ++ (j.name, j.depends_on) ∷ [])) (run_names jobs)
          ≡ (not (contains (run_names jobs) j.name) && disjoint (keys nodes) (run_names jobs)) =
        ap (λ ks. disjoint ks (run_names jobs)) names
        ∙ disjoint-concat (keys nodes) (run_names jobs) j.name in
      let rest : add_nodes jobs (insert nodes j.name j.depends_on) ≡ (
          if distinct (run_names jobs)
            && (not (contains (run_names jobs) j.name) && disjoint (keys nodes) (run_names jobs))
          then ok (nodes ++ (j.name, j.depends_on) ∷ dependencies jobs)
          else err duplicate_job) =
        ap (add_nodes jobs) grown
        ∙ add_nodes-eq jobs (nodes ++ (j.name, j.depends_on) ∷ [])
        ∙ rw (apart, append_assoc nodes ((j.name, j.depends_on) ∷ []) (dependencies jobs)) refl in
      ground (arith, fresh, rest, lookup-none_iff nodes j.name)
]

check_deps-eq :
    (nodes : Nodes) (deps : List String)
    → check_deps nodes deps ≡ (if all (contains (keys nodes)) deps then none else some unknown_dep)
unfolding check_deps
check_deps-eq nodes [] = refl
check_deps-eq nodes (d ∷ deps) = elim (Option-cases (lookup nodes d)) [
  | inl absent ↦ ground (arith, absent, lookup-none_iff nodes d absent)
  | inr (ds, e) ↦ ground (arith, e, contains-keys nodes d e, check_deps-eq nodes deps)
]

-- Every dependency of every job has a node.
pub check_known-eq :
    (nodes : Nodes) (jobs : List RunJob)
    → check_known nodes jobs ≡ (
        if all (λ j. all (contains (keys nodes)) j.depends_on) jobs then none else some unknown_dep)
unfolding check_known
check_known-eq nodes [] = refl
check_known-eq nodes (j ∷ jobs) =
    ground (arith, check_deps-eq nodes j.depends_on, check_known-eq nodes jobs)
