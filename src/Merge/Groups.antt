-- ===== src/Merge/Groups.antt =====
-- `MergeJobs` keeps the first job of each name.
use cicada.Base.{
  ◌≡◌, refl, sym, ◌∙◌, ap, ◌⊎◌, inl, inr, String, List, [], ◌∷◌, ◌++◌, none, some, true, false,
  if◌then◌else◌, contains, distinct, lookup, string_eq, arith, Option-cases, Bool-cases,
  contains-append, distinct-concat, lookup-insert,
}
use mathlib.Core.List.{append_assoc, append-nil, map-append}
use cicada.Model.{Job, JobGroup, ConflictStrategy, conflict_error, conflict_skip, ok, bind-ok}
use cicada.Merge.{Merged, add_job, merge_group, merge_groups, merge_jobs, job_names}

-- The jobs whose name is not among `seen` nor that of an earlier job.
abbrev pub firsts : List String → List Job → List Job
firsts seen [] = []
firsts seen (j ∷ jobs) =
    let skip = firsts seen jobs in
    let take = j ∷ firsts (seen ++ j.name ∷ []) jobs in if contains seen j.name then skip else take

abbrev pub all_jobs : List JobGroup → List Job
all_jobs [] = []
all_jobs (g ∷ groups) = g.jobs ++ all_jobs groups

-- `seen` has the names of the merged jobs, which are distinct.
record Inv (m : Merged) : Type 0 where
  known : (n : String) → (lookup m.seen n ≡ none) ⊎ (contains (job_names m.merged) n ≡ true)
  unknown : (n : String) → lookup m.seen n ≡ none → contains (job_names m.merged) n ≡ false
  unique : distinct (job_names m.merged) ≡ true

names-add_job :
    (m : Merged) (j : Job) (origin : String)
    → job_names (add_job m j origin).merged ≡ job_names m.merged ++ j.name ∷ []
names-add_job m j origin = map-append (λ (k : Job). k.name) m.merged (j ∷ [])

Inv-add_job :
    (m : Merged) (j : Job) (origin : String)
    → Inv m
    → lookup m.seen j.name ≡ none
    → Inv (add_job m j origin)
Inv-add_job m j origin inv new = record {
  known = λ n. ground (
    arith,
    inv.known n,
    lookup-insert m.seen j.name n origin,
    names-add_job m j origin,
    contains-append (job_names m.merged) (j.name ∷ []) n,
    string_eq.eqb_iff n j.name,
  );
  unknown = λ n h. ground (
    arith,
    inv.unknown n,
    h,
    lookup-insert m.seen j.name n origin,
    names-add_job m j origin,
    contains-append (job_names m.merged) (j.name ∷ []) n,
    string_eq.eqb_iff n j.name,
  );
  unique =
      rw names-add_job
        (distinct-concat (job_names m.merged) j.name inv.unique (inv.unknown j.name new));
}

-- One group appends the first jobs of its new names.
merge_group-firsts :
    (strategy : ConflictStrategy) (origin : String) (jobs : List Job) (m : Merged) {m' : Merged}
    → Inv m
    → merge_group strategy origin jobs m ≡ ok m'
    → Inv m' × (m'.merged ≡ m.merged ++ firsts (job_names m.merged) jobs)
unfolding merge_group
merge_group-firsts strategy origin [] m {m'} inv h =
    let same : m ≡ m' = cc in rw (← same) (inv, sym (append-nil m.merged))
merge_group-firsts strategy origin (j ∷ jobs) m {m'} inv h =
    elim (Option-cases (lookup m.seen j.name)) [
      | inl new ↦
          let (inv', e) =
            merge_group-firsts strategy origin jobs (add_job m j origin)
              (Inv-add_job m j origin inv new) (rw (new, merge_group) at h) in
          (inv', e ∙ rw (names-add_job, append_assoc, inv.unknown j.name new) refl)
      | inr (o, old) ↦ repeated strategy o old h (merge_group-firsts strategy origin jobs m inv)
    ]
  where
    repeated :
        (strategy' : ConflictStrategy) (o : String)
        → lookup m.seen j.name ≡ some o
        → merge_group strategy' origin (j ∷ jobs) m ≡ ok m'
        → (merge_group strategy' origin jobs m ≡ ok m'
            → Inv m' × (m'.merged ≡ m.merged ++ firsts (job_names m.merged) jobs))
        → Inv m' × (m'.merged ≡ m.merged ++ firsts (job_names m.merged) (j ∷ jobs))
    repeated conflict_error o old h' next = absurd (ground (arith, old, h'))
    repeated conflict_skip o old h' next =
        let seen : contains (job_names m.merged) j.name ≡ true =
          ground (arith, old, inv.known j.name) in
        rw seen (next (rw (old, merge_group) at h'))

-- `firsts` over an append goes on with the names of what it kept.
firsts-append :
    (seen : List String) (xs ys : List Job)
    → firsts seen (xs ++ ys) ≡ firsts seen xs ++ firsts (seen ++ job_names (firsts seen xs)) ys
firsts-append seen [] ys = rw append-nil
firsts-append seen (x ∷ xs) ys = elim (Bool-cases (contains seen x.name)) [
  | inl old ↦ rw old (firsts-append seen xs ys)
  | inr new ↦
      rw new (ap (λ l. x ∷ l) (firsts-append (seen ++ x.name ∷ []) xs ys ∙ rw append_assoc refl))
]

merge_groups-firsts :
    (groups : List JobGroup) (m : Merged) {m' : Merged}
    → Inv m
    → merge_groups groups m ≡ ok m'
    → Inv m' × (m'.merged ≡ m.merged ++ firsts (job_names m.merged) (all_jobs groups))
unfolding merge_groups
merge_groups-firsts [] m {m'} inv h =
    let same : m ≡ m' = cc in rw (← same) (inv, sym (append-nil m.merged))
merge_groups-firsts (g ∷ groups) m {m'} inv h =
    let first = merge_group g.on_conflict g.origin g.jobs m in
    let (m₁, one, rest) = bind-ok first (merge_groups groups) h in
    let (inv₁, e₁) = merge_group-firsts g.on_conflict g.origin g.jobs m inv one in
    let (inv', e') = merge_groups-firsts groups m₁ inv₁ rest in
    (
      inv',
      e'
          ∙ rw (e₁, map-append, append_assoc)
              (ap (λ l. m.merged ++ l)
                (sym (firsts-append (job_names m.merged) g.jobs (all_jobs groups)))),
    )

-- Merged jobs have distinct names, and are the first jobs of their names over all groups, in document
-- order.
pub merge_jobs-firsts :
    (groups : List JobGroup) (out : List Job)
    → merge_jobs groups ≡ ok out
    → (distinct (job_names out) ≡ true) × (out ≡ firsts [] (all_jobs groups))
unfolding merge_jobs
merge_jobs-firsts groups out h =
    let start : Merged = record { merged = []; seen = [] } in
    let (m', merged, e) = bind-ok (merge_groups groups start) (λ (m : Merged). ok m.merged) h in
    let (inv, firsts_of) =
      merge_groups-firsts groups start
        record { known = λ n. inl refl; unknown = λ n h'. refl; unique = refl } merged in
    let same : m'.merged ≡ out = cc in (rw (← same) inv.unique, sym same ∙ firsts_of)
