-- ===== src/Builder/Ordered.antt =====
-- The loop of `Build` over the order of a validated pipeline.
use cicada.Base.{
  ℕ, zero, suc, ◌<◌, ◌≡◌, refl, sym, ◌∙◌, ap, String, List, [], ◌∷◌, ◌++◌, Option, some, Bool, true,
  false, ◌==◌, if◌then◌else◌, all, contains, contains-append, length, get_elem?, lookup,
  lookup-insert, insert, subst, map, string_eq, nat_eq, arith, Bool-cases, inl, inr,
}
use mathlib.Core.List.{append-nil, append_assoc, map-append}
use cicada.Model.{Job, Pipeline, Result, ok, ◌>>=◌, bind-ok}
use cicada.Graph.{job_deps}
use cicada.Validate.Index.{name_of}
use cicada.Validate.Order.{IsRunnable}
use cicada.Validate.Passed.{passed, next_job}
use cicada.Validate.Sources.{declared}
use cicada.Builder.Llb.{Llb}
use cicada.Builder.Steps.{States}
use cicada.Builder.Jobs.{JobOpts, valid_order}
use cicada.Builder.Build.{
  BuildOpts, BuildResult, append_job, append_jobs, job_opts, empty_result, cached_order, ordered,
  build,
}
use cicada.Builder.Orders.{valid_order_complete}
use cicada.Builder.Complete.{misses, misses-bind, Holds, append_job-finds}
use cicada.Builder.Added.{append_job-Added, Built, nothing_built, job_built}

get_elem?_below :
    (jobs : List Job) (i : ℕ) → i < length jobs → (j : Job) × (get_elem? jobs i ≡ some j)
get_elem?_below [] i h = absurd (omega arith)
get_elem?_below (j ∷ jobs) zero h = (j, refl)
get_elem?_below (j ∷ jobs) (suc i) h = get_elem?_below jobs i (omega arith)

name_of-get_elem? :
    (jobs : List Job) (i : ℕ) {j : Job} → get_elem? jobs i ≡ some j → name_of jobs i ≡ some j.name
name_of-get_elem? [] i h = cc
name_of-get_elem? (x ∷ jobs) zero {j} h = let same : x ≡ j = cc in ap (λ t. some t.name) same
name_of-get_elem? (x ∷ jobs) (suc i) h = name_of-get_elem? jobs i h

declared-get_elem? :
    (jobs : List Job) (i : ℕ) {j : Job}
    → all declared jobs ≡ true
    → get_elem? jobs i ≡ some j
    → declared j ≡ true
declared-get_elem? [] i d h = cc
declared-get_elem? (x ∷ jobs) zero {j} d h =
    let same : x ≡ j = cc in ap declared (sym same) ∙ ground (arith, d)
declared-get_elem? (x ∷ jobs) (suc i) d h = declared-get_elem? jobs i (ground (arith, d)) h

module _ (L : Llb) (jo : JobOpts L) (jobs : List Job) (order : List ℕ) (r : IsRunnable jobs order)
    (known : all declared jobs ≡ true) where
  append_jobs-next :
      (idx : ℕ) (rest : List ℕ) (j : Job) (acc : States L × BuildResult L)
      → get_elem? jobs idx ≡ some j
      → append_jobs L jo jobs (idx ∷ rest) acc
        ≡ (append_job L jo j acc >>= append_jobs L jo jobs rest)
  unfolding append_jobs
  append_jobs-next idx rest j acc e = ground (arith, e)

  -- What the loop has done for the jobs that it has passed.
  record Progress (done : List ℕ) (states : States L) (result : BuildResult L) : Type 0 where
    holds :
        (k : ℕ) (n : String)
        → contains done k ≡ true
        → name_of jobs k ≡ some n
        → (st : L.State) × (lookup states n ≡ some st)
    built : map (λ n. some n) result.job_names ≡ map (name_of jobs) done
    defined : Built L jo jobs done states result.definitions

  Progress-next :
      (done : List ℕ) (idx : ℕ) (j : Job) (states states' : States L)
      (result result' : BuildResult L)
      → get_elem? jobs idx ≡ some j
      → append_job L jo j (states, result) ≡ ok (states', result')
      → Progress done states result
      → Progress (done ++ idx ∷ []) states' result'
  Progress-next done idx j states states' result result' at e p =
      let added = append_job-Added L jo j states result e in
      let st = added.job.state in
      let its_name = name_of-get_elem? jobs idx at in
      let stored_at : (n : String)
          → lookup states' n ≡ (if n == j.name then some st else lookup states n) =
        λ n. ap (λ t. lookup t n) added.stored ∙ lookup-insert states j.name n st in
      record {
        holds = λ k n m at_k. elim (Bool-cases (n == j.name)) [
          | inl this ↦ (st, stored_at n ∙ rw this refl)
          | inr other ↦
              let is_old : contains done k ≡ true = elim (Bool-cases (k == idx)) [
                | inl same_index ↦
                    let names_match : some j.name ≡ some n =
                      sym its_name
                      ∙ ap (name_of jobs) (sym ((nat_eq.eqb_iff k idx).0 same_index))
                      ∙ at_k in
                    let same : n ≡ j.name = cc in
                    absurd (ground (arith, other, (string_eq.eqb_iff n j.name).1 same))
                | inr old ↦ ground (arith, m, old, contains-append done (idx ∷ []) k)
              ] in
              let (st', found) = p.holds k n is_old at_k in (st', stored_at n ∙ rw other found)
        ];
        built =
            ap (map (λ n. some n)) added.named
            ∙ map-append (λ n. some n) result.job_names (j.name ∷ [])
            ∙ ap (λ t. t ++ some j.name ∷ []) p.built
            ∙ ap (λ t. map (name_of jobs) done ++ t ∷ []) (sym its_name)
            ∙ sym (map-append (name_of jobs) done (idx ∷ []));
        defined =
            subst (λ ss. Built L jo jobs (done ++ idx ∷ []) ss result'.definitions)
              (sym added.stored)
              (subst (Built L jo jobs (done ++ idx ∷ []) (insert states j.name st))
                (sym added.defined) (job_built idx j added.job p.defined at added.built));
      }

  append_jobs-lem :
      (done rest : List ℕ) (states : States L) (result : BuildResult L)
      → done ++ rest ≡ order
      → Progress done states result
      → (misses (append_jobs L jo jobs rest (states, result)) ≡ false)
        × ((states' : States L) (result' : BuildResult L)
            → append_jobs L jo jobs rest (states, result) ≡ ok (states', result')
            → (map (λ n. some n) result'.job_names ≡ map (name_of jobs) order)
              × Built L jo jobs order states' result'.definitions)
  unfolding append_jobs
  append_jobs-lem done [] states result split p = (
    refl,
    λ s' r' h.
        let same : result ≡ r' = cc in
        let same_states : states ≡ s' = cc in
        let whole : done ≡ order = sym (append-nil done) ∙ split in
        (
          ap (λ (t : BuildResult L). map (λ n. some n) t.job_names) (sym same)
              ∙ p.built
              ∙ ap (map (name_of jobs)) whole,
          subst (λ d. Built L jo jobs d s' r'.definitions) whole
              (subst (λ (t : BuildResult L). Built L jo jobs done s' t.definitions) same
                (subst (λ t. Built L jo jobs done t result.definitions) same_states p.defined)),
        ),
  )
  append_jobs-lem done (idx ∷ rest) states result split p =
      let (fresh, lt) = next_job jobs order r done rest idx split in
      let (j, at) = get_elem?_below jobs idx lt in
      let deps : job_deps jobs idx ≡ j.depends_on = ground (arith, at) in
      let there : Holds L states j.depends_on = λ n m.
        let (k, named, _) = r.before idx n lt (ap (λ l. contains l n) deps ∙ m) in
        p.holds k n
          (passed jobs order r done rest idx k split lt fresh
            (n, ap (λ l. contains l n) deps ∙ m, named))
          named in
      let finds =
        append_job-finds L jo j states result there (declared-get_elem? jobs idx known at) in
      let next = append_jobs-next idx rest j (states, result) at in
      let after : (states' : States L) (result' : BuildResult L)
          → append_job L jo j (states, result) ≡ ok (states', result')
          → _ =
        λ states' result' e.
          append_jobs-lem (done ++ idx ∷ []) rest states' result'
            (append_assoc done (idx ∷ []) rest ∙ split)
            (Progress-next done idx j states states' result result' at e p) in
      (
        ap misses next
            ∙ misses-bind (append_job L jo j (states, result)) (append_jobs L jo jobs rest) finds
                (λ (s', r') e. (after s' r' e).0),
        λ s' r' h.
            let ((s₁, r₁), e, h₁) =
              bind-ok (append_job L jo j (states, result)) (append_jobs L jo jobs rest)
                (sym next ∙ h) in
            (after s₁ r₁ e).1 s' r' h₁,
      )

-- A pipeline with a stored order that validation gives it, and whose artifacts come from dependencies, never lacks the
-- state of a dependency when it is built. When the build succeeds there are
-- one name and one definition per job, in the stored order.
pub build_ordered :
    (L : Llb) (check_expr : String → Option Bool) (p : Pipeline) (opts : BuildOpts L)
    (order : List ℕ)
    → p.topo_order ≡ some order
    → IsRunnable p.jobs order
    → all declared p.jobs ≡ true
    → (misses (build L check_expr p opts) ≡ false)
      × ((result : BuildResult L)
          → build L check_expr p opts ≡ ok result
          → (map (λ n. some n) result.job_names ≡ map (name_of p.jobs) order)
            × ((states : States L) × Built L
                  (job_opts L opts p.env)
                  p.jobs
                  order
                  states
                  result.definitions))
unfolding build ordered
build_ordered L check_expr p opts order stored r known =
    let jo = job_opts L opts p.env in
    let start : States L × BuildResult L = ([], empty_result L p.secrets) in
    let run = append_jobs L jo p.jobs order start in
    let cached : cached_order L p ≡ order = rw stored refl in
    let valid : valid_order order (length p.jobs) ≡ true =
      valid_order_complete (length p.jobs) order r.unique_order r.complete in
    let ready : ordered L check_expr p ≡ ok (p, order) = rw (cached, valid) refl in
    let same : build L check_expr p opts ≡ (run >>= λ (_, result). ok result) =
      ap
        (λ (m : Result (Pipeline × List ℕ)). m >>= λ (p', order').
          append_jobs L (job_opts L opts p'.env) p'.jobs order' ([], empty_result L p'.secrets)
          >>= λ (_, result). ok result)
        ready in
    let (finds, built) =
      append_jobs-lem L jo p.jobs order r known [] order [] (empty_result L p.secrets) refl
        (record { holds = λ k n m at. cc; built = refl; defined = nothing_built }) in
    (
      ap misses same ∙ misses-bind run (λ (_, result). ok result) finds (λ (_, result) e. refl),
      λ result h.
          let ((states, result'), e, h₁) = bind-ok run (λ (_, result). ok result) (sym same ∙ h) in
          let done : result' ≡ result = cc in
          let (named, defined) = built states result' e in
          (
            ap (λ (t : BuildResult L). map (λ n. some n) t.job_names) (sym done) ∙ named,
            (
              states,
              subst (λ (t : BuildResult L). Built L jo p.jobs order states t.definitions) done
                  defined,
            ),
          ),
    )
