-- ===== src/Merge/Terminals.antt =====
-- `TerminalJobs`: the jobs that no job depends on. A validated pipeline has one.
use cicada.Base.{
  ℕ, zero, suc, ◌≤◌, ◌<◌, ◌≡◌, ◌≢◌, refl, sym, ◌∙◌, ap, inl, inr, String, List, [], ◌∷◌, ◌++◌, some,
  true, false, not, ◌&&◌, length, contains, distinct, position, string_eq, nat_eq, arith,
  contains-append, contains-keep, position-concat, position-lt, length-append, distinct-append,
  lt→ltb, ltb→lt, Bool-cases,
}
use cicada.Model.{Job}
use cicada.Graph.{job_deps}
use cicada.Validate.Index.{names, name_of}
use cicada.Validate.Order.{IsRunnable}
use cicada.Merge.{depended, terminal_jobs}

contains-depended :
    (jobs : List Job) (n : String)
    → contains (depended jobs) n ≡ true
    → (i : ℕ) × (i < length jobs) × (contains (job_deps jobs i) n ≡ true)
contains-depended [] n h = cc
contains-depended (j ∷ jobs) n h = elim (Bool-cases (contains j.depends_on n)) [
  | inl here ↦ (0, omega arith, here)
  | inr later ↦
      let (i, lt, m) =
        contains-depended jobs n
          (ground (arith, h, later, contains-append j.depends_on (depended jobs) n)) in
      (suc i, omega arith, m)
]

name_of-contains :
    (jobs : List Job) (k : ℕ) {n : String}
    → name_of jobs k ≡ some n
    → contains (names jobs) n ≡ true
name_of-contains [] k h = cc
name_of-contains (j ∷ jobs) zero {n} h = ground (arith, h, string_eq.eqb_iff n j.name)
name_of-contains (j ∷ jobs) (suc k) {n} h = ground (arith, name_of-contains jobs k h)

-- With distinct names a name has one position.
name_of_unique :
    (jobs : List Job) (k l : ℕ) {n : String}
    → distinct (names jobs) ≡ true
    → name_of jobs k ≡ some n
    → name_of jobs l ≡ some n
    → k ≡ l
name_of_unique [] k l d h h' = cc
name_of_unique (j ∷ jobs) zero zero d h h' = refl
name_of_unique (j ∷ jobs) zero (suc l) {n} d h h' =
    absurd (ground (arith, d, h, name_of-contains jobs l h'))
name_of_unique (j ∷ jobs) (suc k) zero {n} d h h' =
    absurd (ground (arith, d, h', name_of-contains jobs k h))
name_of_unique (j ∷ jobs) (suc k) (suc l) d h h' =
    ap suc (name_of_unique jobs k l (ground (arith, d)) h h')

name_of-some :
    (jobs : List Job) (k : ℕ) → k < length jobs → (n : String) × (name_of jobs k ≡ some n)
name_of-some [] k h = absurd (omega arith)
name_of-some (j ∷ jobs) zero h = (j.name, refl)
name_of-some (j ∷ jobs) (suc k) h = name_of-some jobs k (omega arith)

last_of : (xs : List ℕ) → xs ≢ [] → (ys : List ℕ) × (l : ℕ) × (xs ≡ ys ++ l ∷ [])
last_of [] h = absurd (h refl)
last_of (x ∷ []) h = ([], x, refl)
last_of (x ∷ y ∷ xs) h =
    let (ys, l, e) = last_of (y ∷ xs) (λ e. cc) in (x ∷ ys, l, ap (λ t. x ∷ t) e)

-- Nothing stands behind the last element of a list of distinct elements.
position-le_last :
    (order ys : List ℕ) (l i : ℕ)
    → order ≡ ys ++ l ∷ []
    → distinct order ≡ true
    → contains order i ≡ true
    → position order i ≤ position order l
position-le_last order ys l i e d h =
    let d' : distinct (ys ++ l ∷ []) ≡ true = rw e at d in
    let h' : contains (ys ++ l ∷ []) i ≡ true = rw e at h in
    let new : contains ys l ≡ false = ground (arith, d', distinct-append ys (l ∷ [])) in
    rw (e, position-concat ys l new)
      (omega (arith, position-lt (ys ++ l ∷ []) i h', length-append ys (l ∷ [])))

-- A name is terminal exactly when it names a job that no job depends on.
contains-terminal_jobs :
    (jobs : List Job) (n : String)
    → contains (terminal_jobs jobs) n
      ≡ (not (contains (depended jobs) n) && contains (names jobs) n)
unfolding terminal_jobs
contains-terminal_jobs jobs n = contains-keep (λ m. not (contains (depended jobs) m)) (names jobs) n

module _ (jobs : List Job) (order : List ℕ) (r : IsRunnable jobs order) (ys : List ℕ) (l : ℕ)
    (e : order ≡ ys ++ l ∷ []) where
  -- The last job of the order depends on the job at `k` only from behind.
  not_behind :
      (i k : ℕ) (n : String)
      → name_of jobs l ≡ some n
      → name_of jobs k ≡ some n
      → contains order i ≡ true
      → position order k < position order i
      → ⊥
  not_behind i k n named named' listed earlier = omega (
    arith,
    position-le_last order ys l i e r.unique_order listed,
    ap (position order) (name_of_unique jobs k l r.unique_names named' named),
  )

  depends_behind :
      (i : ℕ) (n : String)
      → name_of jobs l ≡ some n
      → i < length jobs
      → contains (job_deps jobs i) n ≡ true
      → ⊥
  depends_behind i n named lt dep =
      let (k, named', earlier) = r.before i n lt dep in
      not_behind i k n named named' (r.complete i ∙ lt→ltb i (length jobs) lt) earlier

  last_free : (n : String) → name_of jobs l ≡ some n → contains (depended jobs) n ≡ false
  last_free n named = elim (Bool-cases (contains (depended jobs) n)) [
    | inl m ↦
        absurd (let (i, lt, dep) = contains-depended jobs n m in depends_behind i n named lt dep)
    | inr free ↦ free
  ]

  last_lt : l < length jobs
  last_lt = ltb→lt l (length jobs) (
      sym (r.complete l)
      ∙ ap (λ o. contains o l) e
      ∙ contains-append ys (l ∷ []) l
      ∙ ground (arith, nat_eq.eqb_iff l l))

  last_terminal : (n : String) → name_of jobs l ≡ some n → contains (terminal_jobs jobs) n ≡ true
  last_terminal n named =
      ground
        (arith, contains-terminal_jobs jobs n, last_free n named, name_of-contains jobs l named)

first_listed : (jobs : List Job) (order : List ℕ) → IsRunnable jobs order → jobs ≢ [] → order ≢ []
first_listed [] order r some_job empty = some_job refl
first_listed (j ∷ jobs) order r some_job empty =
    cc (ap (λ o. contains o 0) empty, r.complete 0, lt→ltb 0 (suc (length jobs)) (omega arith))

-- Jobs that can be run in some order, as those of a validated pipeline can, and that are not empty have a terminal
-- job.
pub terminal_jobs-ne-nil :
    (jobs : List Job) (order : List ℕ) → IsRunnable jobs order → jobs ≢ [] → terminal_jobs jobs ≢ []
terminal_jobs-ne-nil jobs order r some_job none_terminal =
    let (ys, l, e) = last_of order (first_listed jobs order r some_job) in
    let (n, named) = name_of-some jobs l (last_lt jobs order r ys l e) in
    cc (ap (λ t. contains t n) none_terminal, last_terminal jobs order r ys l e n named)
