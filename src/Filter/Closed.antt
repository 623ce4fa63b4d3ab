-- ===== src/Filter/Closed.antt =====
-- `FilterJobs` against its specification: the window, its dependencies, and nothing else.
use cicada.Base.{
  ◌≡◌, ◌∙◌, ap, ◌↔◌, ◌⊎◌, inl, inr, String, List, [], ◌∷◌, some, Bool, true, false, ◌&&◌, contains,
  keep, string_eq, arith, is_empty, All, contains-keep, Bool-cases,
}
use cicada.Model.{Job, FilterOpts, ok, bind-ok}
use cicada.Validate.Index.{names}
use cicada.Filter.Reach.{Adjacency, targets}
use cicada.Filter.Reach.Breadth.{Reach, here, next}
use cicada.Filter.Target.{FilterTarget, parse_filter_target}
use cicada.Filter.Trim.Quiet.{quiet}
use cicada.Filter.{
  JobAdj, job_by_name, build_adj, no_adj, build_job_adj, filter_by_adj, filter_jobs,
}
use cicada.Filter.Edges.{
  is_dependent, is_dependency, Chain, Reach-iff, contains-dependents, contains-dependencies,
  dependencies-build_adj, Leads, IsInside,
}
use cicada.Filter.Selected.{Within, InWindow, Selection, filter_by_adj-Selection}

Within-Leads :
    (t : FilterTarget) (adj : Adjacency) (edge : String → String → Bool) (x : String)
    → ((u v : String) → contains (targets adj u) v ≡ edge u v)
    → Within t adj x ↔ Leads edge t x
Within-Leads t adj edge x same =
    let (to, from) = Reach-iff adj edge t.job x same in
    (
      λ w. elim w [ inl e ↦ inl e | inr r ↦ inr (to r) ],
      λ w. elim w [ inl e ↦ inl e | inr r ↦ inr (from r) ],
    )

-- The window of the maps is that of the jobs.
InWindow-iff :
    (jobs : List Job) (start_at stop_after : FilterTarget) (x : String)
    → InWindow start_at stop_after (build_adj jobs no_adj) x ↔ IsInside jobs start_at stop_after x
InWindow-iff jobs start_at stop_after x =
    let adj = build_adj jobs no_adj in
    let (ahead, ahead') =
      Within-Leads start_at adj.dependents (is_dependent jobs) x (contains-dependents jobs) in
    let (behind, behind') =
      Within-Leads stop_after adj.dependencies (is_dependency jobs) x
        (contains-dependencies jobs) in
    (λ (f, b). (ahead f, behind b), λ (f, b). (ahead' f, behind' b))

All-map_of {ℓ κ μ} :
    {A : Type ℓ} {P : A → Type κ} {Q : A → Type μ} (xs : List A)
    → ((x : A) → P x → Q x)
    → All P xs
    → All Q xs
All-map_of [] f h = tt
All-map_of (x ∷ xs) f (p, rest) = (f x p, All-map_of xs f rest)

module _ (jobs : List Job) (start_at stop_after : FilterTarget) (adj : JobAdj) {out : List Job}
    (s : Selection jobs start_at stop_after adj out) where
  -- The set of kept names is closed under the dependency map.
  closed :
      (x y : String)
      → contains s.full x ≡ true
      → contains (targets adj.dependencies x) y ≡ true
      → contains s.full y ≡ true
  closed x y h e = elim (Bool-cases (contains s.window x)) [
    | inl inside ↦ s.closes.worked x y inside e
    | inr outside ↦ s.closes.grows.closed x y h outside e
  ]

  along :
      (w : String)
      → contains s.full w ≡ true
      → {x : String} → Reach adj.dependencies w x
      → contains s.full x ≡ true
  along w h here = h
  along w h (next {u} {v} r e) = closed u v (along w h r) e

  full_exact :
      (x : String)
      → (contains s.full x ≡ true)
        ↔ ((w : String) × InWindow start_at stop_after adj w × Reach adj.dependencies w x)
  full_exact x = (
    λ h. elim (s.closes.below x h) [
      | inl inside ↦ (x, (s.in_window x).0 inside, here)
      | inr (w, m, r) ↦ (w, (s.in_window w).0 m, r)
    ],
    λ (w, m, r). along w (s.closes.grows.kept w ((s.in_window w).1 m)) r,
  )

  kept_exact :
      (x : String)
      → (contains (names out) x ≡ true) ↔ (
          (contains (names jobs) x ≡ true)
          × ((w : String) × InWindow start_at stop_after adj w × Reach adj.dependencies w x))
  kept_exact x =
      let kept : contains (names out) x ≡ (contains s.full x && contains (names jobs) x) =
        ap (λ ns. contains ns x) s.kept ∙ contains-keep (contains s.full) (names jobs) x in
      let (sound, full) = full_exact x in
      (
        λ h. (ground (arith, h, kept), sound (ground (arith, h, kept))),
        λ (m, r). ground (arith, m, kept, full r),
      )

build_job_adj-eq-ok :
    (jobs : List Job) (start_at stop_after : FilterTarget) (adj : JobAdj)
    → build_job_adj jobs start_at stop_after ≡ ok adj
    → build_adj jobs no_adj ≡ adj
unfolding build_job_adj
build_job_adj-eq-ok jobs start_at stop_after adj h = ground arith

filter_jobs-Selection :
    (jobs : List Job) (opts : FilterOpts) (out : List Job)
    → (is_empty opts.start_at && is_empty opts.stop_after) ≡ false
    → filter_jobs jobs opts ≡ ok out
    → Selection jobs
        (parse_filter_target opts.start_at)
        (parse_filter_target opts.stop_after)
        (build_adj jobs no_adj)
        out
unfolding filter_jobs build_job_adj
filter_jobs-Selection jobs opts out asked h =
    let start_at = parse_filter_target opts.start_at in
    let stop_after = parse_filter_target opts.stop_after in
    let run = filter_by_adj jobs start_at stop_after in
    let (adj, built, h₁) = bind-ok (build_job_adj jobs start_at stop_after) run (rw asked at h) in
    rw (build_job_adj-eq-ok jobs start_at stop_after adj built)
      (filter_by_adj-Selection jobs start_at stop_after adj h₁)

-- Where a start or a stop is asked for and the filter succeeds, the kept names are a selection of the
-- given names in their order. A name is kept exactly when it names a job that some name of the window
-- leads to along dependencies. The window is what the start leads to along dependents and the stop along
-- dependencies, as the jobs list them: a dependent of a name is any job that lists it, and the
-- dependencies of a name are those of the last job of the name. A kept job outside the window has no
-- exports and no image to publish.
pub filter_jobs_exact :
    (jobs : List Job) (opts : FilterOpts) (out : List Job)
    → (is_empty opts.start_at && is_empty opts.stop_after) ≡ false
    → filter_jobs jobs opts ≡ ok out
    → let start_at = parse_filter_target opts.start_at in
      let stop_after = parse_filter_target opts.stop_after in
      ((p : String → Bool) × (names out ≡ keep p (names jobs)))
      × ((x : String)
          → (contains (names out) x ≡ true) ↔ (
              (contains (names jobs) x ≡ true)
              × ((w : String) × IsInside jobs start_at stop_after w
                  × Chain (is_dependency jobs) w x)))
      × All (λ j. IsInside jobs start_at stop_after j.name ⊎ (quiet j ≡ true)) out
filter_jobs_exact jobs opts out asked h =
    let s = filter_jobs-Selection jobs opts out asked h in
    let start_at = parse_filter_target opts.start_at in
    let stop_after = parse_filter_target opts.stop_after in
    let adj = build_adj jobs no_adj in
    let inside = InWindow-iff jobs start_at stop_after in
    let walks = λ (w x : String).
      Reach-iff adj.dependencies (is_dependency jobs) w x (contains-dependencies jobs) in
    (
      (contains s.full, s.kept),
      λ x.
          let (to, from) = kept_exact jobs start_at stop_after adj s x in
          (
            λ m. let (named, (w, i, r)) = to m in (named, (w, (inside w).0 i, (walks w x).0 r)),
            λ (named, (w, i, r)). from (named, (w, (inside w).1 i, (walks w x).1 r)),
          ),
      All-map_of out (λ j k. elim k [ inl i ↦ inl ((inside j.name).0 i) | inr q ↦ inr q ])
          s.outputs,
    )

-- After a successful filter every dependency of a kept job that names a job of the pipeline is kept
-- too; a job is looked up by its name, the last one where names repeat.
pub filter_jobs_closed :
    (jobs : List Job) (opts : FilterOpts) (out : List Job)
    → (is_empty opts.start_at && is_empty opts.stop_after) ≡ false
    → filter_jobs jobs opts ≡ ok out
    → (x dep : String) (j : Job) → contains (names out) x ≡ true
    → job_by_name jobs x ≡ some j
    → contains j.depends_on dep ≡ true
    → contains (names jobs) dep ≡ true
    → contains (names out) dep ≡ true
filter_jobs_closed jobs opts out asked h x dep j kept found named known =
    let s = filter_jobs-Selection jobs opts out asked h in
    let start_at = parse_filter_target opts.start_at in
    let stop_after = parse_filter_target opts.stop_after in
    let adj = build_adj jobs no_adj in
    let exact = kept_exact jobs start_at stop_after adj s in
    let (_, (w, inside, r)) = (exact x).0 kept in
    let edge : contains (targets adj.dependencies x) dep ≡ true =
      ground (arith, found, named, dependencies-build_adj jobs no_adj x) in
    (exact dep).1 (known, (w, inside, next r edge))
