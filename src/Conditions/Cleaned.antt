-- ===== src/Conditions/Cleaned.antt =====
-- References to skipped jobs are removed together: a dependency and the artifacts that come from it.
use cicada.Base.{
  ◌≡◌, refl, ◌∙◌, ap, String, List, [], ◌∷◌, ◌++◌, Bool, true, not, ◌&&◌, ◌||◌, is_empty, all,
  contains, contains-keep, contains-append, keep, map, string_eq, arith, Bool-cases, inl, inr,
}
use cicada.Model.{Job, Step, Artifact}
use cicada.Merge.{job_names}
use cicada.Expand.Known.{all_in}
use cicada.Conditions.{keep_artifacts, clean_step, clean_job_refs, empty_jobs, drop_empty}

abbrev pub from_deps : List String → List Artifact → Bool
from_deps deps = all (λ (a : Artifact). contains deps a.from)

abbrev pub steps_from_deps : List String → List Step → Bool
steps_from_deps deps = all (λ (s : Step). from_deps deps s.artifacts)

-- Dependencies are known names, and artifacts come from dependencies.
abbrev pub is_linked : List String → Job → Bool
is_linked known j =
    all_in known j.depends_on
    && (from_deps j.depends_on j.artifacts && steps_from_deps j.depends_on j.steps)

abbrev pub linked : List Job → Bool
linked jobs = all (is_linked (job_names jobs)) jobs

abbrev pub has_steps : Job → Bool
has_steps j = not (is_empty j.steps)

is_empty-map : (f : Step → Step) (steps : List Step) → is_empty (map f steps) ≡ is_empty steps
is_empty-map f [] = refl
is_empty-map f (s ∷ steps) = refl

module _ (skipped : List String) where
  abbrev pub stays : String → Bool
  stays n = not (contains skipped n)

  all_in-clean :
      (N M deps : List String)
      → ((n : String) → contains N n ≡ true → (contains M n || contains skipped n) ≡ true)
      → all_in N deps ≡ true
      → all_in M (keep stays deps) ≡ true
  all_in-clean N M [] cover h = refl
  all_in-clean N M (d ∷ deps) cover h = ground (arith, h, cover d, all_in-clean N M deps cover)

  from_deps-clean :
      (deps : List String) (artifacts : List Artifact)
      → from_deps deps artifacts ≡ true
      → from_deps (keep stays deps) (keep_artifacts skipped artifacts) ≡ true
  from_deps-clean deps [] h = refl
  from_deps-clean deps (a ∷ artifacts) h =
      ground (arith, h, contains-keep stays deps a.from, from_deps-clean deps artifacts)

  steps_from_deps-clean :
      (deps : List String) (steps : List Step)
      → steps_from_deps deps steps ≡ true
      → steps_from_deps (keep stays deps) (map (clean_step skipped) steps) ≡ true
  steps_from_deps-clean deps [] h = refl
  steps_from_deps-clean deps (s ∷ steps) h =
      ground (arith, h, from_deps-clean deps s.artifacts, steps_from_deps-clean deps steps)

  is_linked-clean :
      (N M : List String) (j : Job)
      → ((n : String) → contains N n ≡ true → (contains M n || contains skipped n) ≡ true)
      → is_linked N j ≡ true
      → is_linked M (clean_job_refs skipped j) ≡ true
  unfolding clean_job_refs
  is_linked-clean N M j cover h = ground (
    arith,
    h,
    all_in-clean N M j.depends_on cover,
    from_deps-clean j.depends_on j.artifacts,
    steps_from_deps-clean j.depends_on j.steps,
  )

  pub linked-clean :
      (N M : List String) (jobs : List Job)
      → ((n : String) → contains N n ≡ true → (contains M n || contains skipped n) ≡ true)
      → all (is_linked N) jobs ≡ true
      → all (is_linked M) (map (clean_job_refs skipped) jobs) ≡ true
  linked-clean N M [] cover h = refl
  linked-clean N M (j ∷ jobs) cover h =
      ground (arith, h, is_linked-clean N M j cover, linked-clean N M jobs cover)

  pub names-clean :
      (jobs : List Job) → job_names (map (clean_job_refs skipped) jobs) ≡ job_names jobs
  unfolding clean_job_refs
  names-clean [] = refl
  names-clean (j ∷ jobs) = ap (λ t. j.name ∷ t) (names-clean jobs)

  contains-keep_jobs :
      (jobs : List Job) (n : String)
      → contains (job_names (keep (λ (j : Job). stays j.name) jobs)) n
        ≡ (stays n && contains (job_names jobs) n)
  contains-keep_jobs [] n = ground arith
  contains-keep_jobs (j ∷ jobs) n =
      ground (arith, contains-keep_jobs jobs n, string_eq.eqb_iff n j.name)

  all-keep_jobs :
      (p : Job → Bool) (jobs : List Job)
      → all p jobs ≡ true
      → all p (keep (λ (j : Job). stays j.name) jobs) ≡ true
  all-keep_jobs p [] h = refl
  all-keep_jobs p (j ∷ jobs) h = ground (arith, h, all-keep_jobs p jobs)

  -- The skipped names are those of all jobs without steps, at least.
  has_steps-kept :
      (jobs : List Job)
      → ((n : String) → contains (empty_jobs jobs) n ≡ true → contains skipped n ≡ true)
      → all has_steps (map (clean_job_refs skipped) (keep (λ (j : Job). stays j.name) jobs)) ≡ true
  unfolding clean_job_refs
  has_steps-kept [] sub = refl
  has_steps-kept (j ∷ jobs) sub =
      let later = has_steps-kept jobs (λ n m. sub n (ground (arith, m))) in
      ground (
        arith,
        later,
        sub j.name,
        is_empty-map (clean_step skipped) j.steps,
        string_eq.eqb_iff j.name j.name,
      )

module _ (jobs : List Job) (skipped : List String) where
  abbrev dropped : List Job
  dropped = keep (λ (j : Job). stays (empty_jobs jobs) j.name) jobs

  names_left :
      (n : String)
      → contains (job_names (map (clean_job_refs (empty_jobs jobs)) dropped)) n
        ≡ (stays (empty_jobs jobs) n && contains (job_names jobs) n)
  names_left n =
      ap (λ t. contains t n) (names-clean (empty_jobs jobs) dropped)
      ∙ contains-keep_jobs (empty_jobs jobs) jobs n

no_empty : (jobs : List Job) → is_empty (empty_jobs jobs) ≡ true → all has_steps jobs ≡ true
no_empty [] h = refl
no_empty (j ∷ jobs) h = ground (arith, h, no_empty jobs)

empty-sub :
    (jobs : List Job) (n : String)
    → contains (empty_jobs jobs) n ≡ true
    → contains (job_names jobs) n ≡ true
empty-sub [] n h = cc
empty-sub (j ∷ jobs) n h = ground (arith, h, empty-sub jobs n)

-- What phase 3 leaves.
pub record Final (jobs : List Job) (skipped : List String) (out : List Job × List String)
    : Type 0 where
  pub linked_left : linked jobs ≡ true → linked out.0 ≡ true
  pub filled : all has_steps out.0 ≡ true
  pub covers :
      (n : String)
      → (contains (job_names jobs) n || contains skipped n)
        ≡ (contains (job_names out.0) n || contains out.1 n)

drop_some :
    (jobs : List Job) (skipped : List String)
    → Final jobs skipped
        (map (clean_job_refs (empty_jobs jobs)) (dropped jobs skipped), skipped ++ empty_jobs jobs)
drop_some jobs skipped =
    let out = map (clean_job_refs (empty_jobs jobs)) (dropped jobs skipped) in
    record {
      linked_left = λ h.
          linked-clean (empty_jobs jobs) (job_names jobs) (job_names out) (dropped jobs skipped)
            (λ n m. ground (arith, m, names_left jobs skipped n))
            (all-keep_jobs (empty_jobs jobs) (is_linked (job_names jobs)) jobs h);
      filled = has_steps-kept (empty_jobs jobs) jobs (λ n m. m);
      covers = λ n. ground (
        arith,
        names_left jobs skipped n,
        contains-append skipped (empty_jobs jobs) n,
        empty-sub jobs n,
      );
    }

pub drop_empty-Final :
    (jobs : List Job) (skipped : List String) → Final jobs skipped (drop_empty jobs skipped)
unfolding drop_empty
drop_empty-Final jobs skipped = elim (Bool-cases (is_empty (empty_jobs jobs))) [
  | inl full ↦
      rw full record { linked_left = λ h. h; filled = no_empty jobs full; covers = λ n. refl }
  | inr some_empty ↦ rw some_empty (drop_some jobs skipped)
]
