-- ===== src/Filter/Selected.antt =====
-- Which jobs `FilterJobs` keeps, and which of them keep their outputs.
use cicada.Base.{
  suc, ◌≡◌, refl, ◌∙◌, ◌↔◌, ◌⊎◌, inl, inr, String, List, [], ◌∷◌, Option, none, some, true, false,
  ◌&&◌, length, contains, keep, map, string_eq, arith, is_empty, All, contains-keep, Bool-cases,
}
use cicada.Model.{Job, Step, ok}
use cicada.Validate.Index.{names}
use cicada.Filter.Reach.{Adjacency, entries}
use cicada.Filter.Reach.Breadth.{Reach, fresh-le, bfs_reachable_exact}
use cicada.Filter.Reach.Closure.{Closes, add_all-Closes}
use cicada.Filter.Target.{FilterTarget}
use cicada.Filter.Trim.{strip_step, apply_step_trimming}
use cicada.Filter.{
  JobAdj, reach_set, intersect_sets, no_names, members, select_job, select_jobs, filter_window,
  filter_by_adj,
}
use cicada.Filter.Trim.Quiet.{quiet, quiet_steps, trim_jobs-keeps}

-- The names that a target leads to; a target without a job leaves all names in.
abbrev pub Within : FilterTarget → Adjacency → String → Type 0
Within t adj x = (is_empty t.job ≡ true) ⊎ Reach adj t.job x

abbrev pub InWindow : FilterTarget → FilterTarget → JobAdj → String → Type 0
InWindow start_at stop_after adj x =
    Within start_at adj.dependents x × Within stop_after adj.dependencies x

names-select_jobs :
    (window full : List String) (jobs : List Job)
    → names (select_jobs window full jobs) ≡ keep (contains full) (names jobs)
unfolding select_jobs
names-select_jobs window full [] = refl
names-select_jobs window full (j ∷ jobs) = ground (arith, names-select_jobs window full jobs)

abbrev InSet : Option (List String) → String → Type 0
InSet none x = Unit
InSet (some a) x = contains a x ≡ true

reach_set-exact :
    (t : FilterTarget) (adj : Adjacency)
    → (set : Option (List String)) × (reach_set t adj ≡ ok set)
      × ((x : String) → InSet set x ↔ Within t adj x)
unfolding reach_set
reach_set-exact t adj = elim (Bool-cases (is_empty t.job)) [
  | inl empty ↦ (none, rw empty, λ x. (λ _. inl empty, λ _. tt))
  | inr named ↦
      let (visited, ends, exact) = bfs_reachable_exact adj t.job in
      (
        some visited,
        rw (named, ends),
        λ x. (λ m. inr ((exact x).0 m), λ w. elim w [ inl e ↦ cc | inr r ↦ (exact x).1 r ]),
      )
]

members-intersect_sets :
    (a b : Option (List String)) (x : String)
    → no_names (intersect_sets a b) ≡ false
    → (contains (members (intersect_sets a b)) x ≡ true) ↔ (InSet a x × InSet b x)
unfolding intersect_sets
members-intersect_sets none none x h = cc
members-intersect_sets none (some b) x h = (λ m. (tt, m), λ m. m.1)
members-intersect_sets (some a) none x h = (λ m. (m, tt), λ m. m.0)
members-intersect_sets (some a) (some b) x h =
    ground (arith, contains-keep (contains a) b x, contains-keep (contains b) a x)

quiet_steps-strip : (steps : List Step) → quiet_steps (map strip_step steps) ≡ true
quiet_steps-strip [] = refl
quiet_steps-strip (s ∷ steps) = quiet_steps-strip steps

All-select_jobs :
    (P : String → Type 0) (window full : List String) (jobs : List Job)
    → ((x : String) → contains window x ≡ true → P x)
    → All (λ j. P j.name ⊎ (quiet j ≡ true)) (select_jobs window full jobs)
unfolding select_jobs
All-select_jobs P window full [] h = tt
All-select_jobs P window full (j ∷ jobs) h =
    let rest = All-select_jobs P window full jobs h in
    elim (Bool-cases (contains full j.name)) [
      | inl kept ↦ rw kept (selected (Bool-cases (contains window j.name)), rest)
      | inr dropped ↦ rw dropped rest
    ]
  where
    selected :
        (contains window j.name ≡ true) ⊎ (contains window j.name ≡ false)
        → P (select_job window j).name ⊎ (quiet (select_job window j) ≡ true)
    selected (inl inside) = rw inside (inl (h j.name inside))
    selected (inr outside) = rw outside (inr (quiet_steps-strip j.steps))

module _ (jobs : List Job) (start_at stop_after : FilterTarget) (adj : JobAdj) where
  -- A successful run: its window, the closure of the window, and what it returns.
  pub record Selection (out : List Job) : Type 0 where
    pub window : List String
    pub full : List String
    pub in_window : (x : String) → (contains window x ≡ true) ↔ InWindow start_at stop_after adj x
    pub closes : Closes adj.dependencies window window full
    pub kept : names out ≡ keep (contains full) (names jobs)
    pub outputs : All (λ j. InWindow start_at stop_after adj j.name ⊎ (quiet j ≡ true)) out

  -- The end of the run, where every selected job is in the window or quiet.
  trimmed :
      (selected : List Job) {out : List Job}
      → apply_step_trimming start_at stop_after selected ≡ ok out
      → (names out ≡ names selected)
        × (All (λ j. InWindow start_at stop_after adj j.name ⊎ (quiet j ≡ true)) selected
            → All (λ j. InWindow start_at stop_after adj j.name ⊎ (quiet j ≡ true)) out)
  unfolding apply_step_trimming
  trimmed selected {out} h =
      elim (Bool-cases (is_empty start_at.step && is_empty stop_after.step)) [
        | inl whole ↦
            let same : ok selected ≡ ok out = rw whole at h in
            let same' : selected ≡ out = cc in rw (← same') (refl, λ a. a)
        | inr steps ↦
            trim_jobs-keeps (InWindow start_at stop_after adj) start_at stop_after selected
              (rw steps at h)
      ]

  filter_window-Selection :
      (window : Option (List String)) {out : List Job}
      → ((x : String)
          → no_names window ≡ false
          → (contains (members window) x ≡ true) ↔ InWindow start_at stop_after adj x)
      → filter_window jobs start_at stop_after adj.dependencies window ≡ ok out
      → Selection out
  unfolding filter_window
  filter_window-Selection window {out} inside h = elim (Bool-cases (no_names window)) [
    | inl empty ↦ absurd (ground (arith, empty, h))
    | inr some_names ↦
        let deps = adj.dependencies in
        let (full, ends, closes) =
          add_all-Closes deps (suc (length (entries deps))) (members window) (members window)
            (omega (arith, fresh-le (members window) (entries deps))) in
        let (named, kept) =
          trimmed (select_jobs (members window) full jobs) (rw (some_names, ends) at h) in
        record {
          window = members window;
          full = full;
          in_window = λ x. inside x some_names;
          closes = closes;
          kept = named ∙ names-select_jobs (members window) full jobs;
          outputs = kept (
              All-select_jobs (InWindow start_at stop_after adj) (members window) full jobs
                (λ x m. (inside x some_names).0 m));
        }
  ]

  pub filter_by_adj-Selection :
      {out : List Job} → filter_by_adj jobs start_at stop_after adj ≡ ok out → Selection out
  unfolding filter_by_adj
  filter_by_adj-Selection {out} h =
      let (forward, ends, ahead) = reach_set-exact start_at adj.dependents in
      let (backward, ends', behind) = reach_set-exact stop_after adj.dependencies in
      filter_window-Selection (intersect_sets forward backward)
        (λ x some_names.
          let m = members-intersect_sets forward backward x some_names in
          (
            λ h'. ((ahead x).0 (m.0 h').0, (behind x).0 (m.0 h').1),
            λ w. m.1 ((ahead x).1 w.0, (behind x).1 w.1),
          ))
        (rw (ends, ends') at h)
