-- ===== src/Defaults/Images.antt =====
-- `CollectImages` lists each image that a job names, once.
use cicada.Base.{
  ◌≡◌, refl, String, List, [], ◌∷◌, ◌++◌, true, not, ◌&&◌, ◌||◌, if◌then◌else◌, is_empty, contains,
  distinct, map, string_eq, arith, contains-append, distinct-concat,
}
use cicada.Model.{Job, Pipeline}
use cicada.Defaults.{collect_unique, collect_images}

module _ {ℓ} {T : Type ℓ} (fn : T → String) where
  collect_unique_lem :
      (vs : List T) (out : List String)
      → distinct out ≡ true
      → (distinct (collect_unique fn out vs) ≡ true)
        × ((n : String)
            → contains (collect_unique fn out vs) n
              ≡ (contains out n || not (is_empty n) && contains (map fn vs) n))
  unfolding collect_unique
  collect_unique_lem [] out h = (h, λ n. ground arith)
  collect_unique_lem (v ∷ vs) out h =
      let out' =
        if is_empty (fn v) then out else if contains out (fn v) then out else out ++ fn v ∷ [] in
      let (unique, members) =
        collect_unique_lem vs out' (ground (arith, h, distinct-concat out (fn v) h)) in
      (
        unique,
        λ n.
            ground
              (arith, members n, contains-append out (fn v ∷ []) n, string_eq.eqb_iff n (fn v)),
      )

-- The images collected are distinct, and are exactly the non-empty image references of the jobs.
pub collect_images_exact :
    (p : Pipeline)
    → (distinct (collect_images p) ≡ true)
      × ((n : String)
          → contains (collect_images p) n
            ≡ (not (is_empty n) && contains (map (λ j. j.image) p.jobs) n))
unfolding collect_images
collect_images_exact p = collect_unique_lem (λ (j : Job). j.image) p.jobs [] refl
