-- ===== src/Expand/Known.antt =====
-- Dependencies that are names of jobs.
use cicada.Base.{
  ◌≡◌, refl, ◌∙◌, ap, String, List, [], ◌∷◌, ◌++◌, Bool, true, ◌||◌, all, all-append, contains,
  contains-append, string_eq, arith,
}
use mathlib.Core.List.{map-append}
use cicada.Model.{Job}
use cicada.Merge.{job_names}

abbrev pub all_in : List String → List String → Bool
all_in known = all (contains known)

-- Every dependency of these jobs is among the known names.
abbrev pub known_in : List String → List Job → Bool
known_in known = all (λ j. all_in known j.depends_on)

abbrev pub deps_known : List Job → Bool
deps_known jobs = known_in (job_names jobs) jobs

pub all_in-sub :
    (M N : List String) (deps : List String)
    → ((n : String) → contains M n ≡ true → contains N n ≡ true)
    → all_in M deps ≡ true
    → all_in N deps ≡ true
all_in-sub M N [] sub h = refl
all_in-sub M N (d ∷ deps) sub h = ground (arith, h, sub d, all_in-sub M N deps sub)

pub known_in-sub :
    (M N : List String) (jobs : List Job)
    → ((n : String) → contains M n ≡ true → contains N n ≡ true)
    → known_in M jobs ≡ true
    → known_in N jobs ≡ true
known_in-sub M N [] sub h = refl
known_in-sub M N (j ∷ jobs) sub h =
    ground (arith, h, all_in-sub M N j.depends_on sub, known_in-sub M N jobs sub)

pub contains-names :
    (xs ys : List Job) (n : String)
    → contains (job_names (xs ++ ys)) n ≡ (contains (job_names xs) n || contains (job_names ys) n)
contains-names xs ys n =
    ap (λ t. contains t n) (map-append (λ (j : Job). j.name) xs ys)
    ∙ contains-append (job_names xs) (job_names ys) n

pub deps_known-append :
    (xs ys : List Job) → deps_known xs ≡ true → deps_known ys ≡ true → deps_known (xs ++ ys) ≡ true
deps_known-append xs ys h h' =
    let N = job_names (xs ++ ys) in
    all-append (λ (j : Job). all_in N j.depends_on) xs ys
    ∙ ground (
      arith,
      known_in-sub (job_names xs) N xs (λ n m. contains-names xs ys n ∙ ground (arith, m)) h,
      known_in-sub (job_names ys) N ys (λ n m. contains-names xs ys n ∙ ground (arith, m)) h',
    )
