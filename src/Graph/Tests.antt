-- ===== src/Graph/Tests.antt =====
-- Two small graphs for the search.
use cicada.Base.{
  ℕ, zero, suc, ◌≡◌, ◌≢◌, refl, ◌↔◌, ◌⊎◌, Bool, ltb, String, str, List, [], ◌∷◌, none, contains,
  lookup, string_eq, nat_eq, arith,
}
use cicada.Model.{ok, err, cycle_detected, unknown_dep}
use cicada.Model.Samples.{job}
use cicada.Graph.{JobGraph, topo_sort, deps_of}
use cicada.Graph.Spec.{InRange, Walk, IsTopological}
use cicada.Graph.Sort.{topo_sort_sound, topo_sort_total, topo_sort_cycle}

abbrev line : JobGraph
line = record {
  jobs = job (str "b") (str "a" ∷ []) ∷ job (str "a") [] ∷ [];
  index = (str "b", 0) ∷ (str "a", 1) ∷ [];
}

abbrev ring : JobGraph
ring = record {
  jobs = job (str "b") (str "a" ∷ []) ∷ job (str "a") (str "b" ∷ []) ∷ [];
  index = (str "b", 0) ∷ (str "a", 1) ∷ [];
}

line-InRange : InRange line
line-InRange dep j h = ground (arith, h)

ring-InRange : InRange ring
ring-InRange dep j h = ground (arith, h)

topo_sort-line : topo_sort line ≡ ok (1 ∷ 0 ∷ [])
unfolding topo_sort
topo_sort-line = refl

topo_sort_sound_example :
    IsTopological line (1 ∷ 0 ∷ []) × ((v : ℕ) → contains (1 ∷ 0 ∷ []) v ≡ ltb v 2)
topo_sort_sound_example = topo_sort_sound line line-InRange (1 ∷ 0 ∷ []) topo_sort-line

topo_sort_total_example :
    ((order : List ℕ) × (topo_sort ring ≡ ok order))
    ⊎ (topo_sort ring ≡ err cycle_detected)
    ⊎ (topo_sort ring ≡ err unknown_dep)
topo_sort_total_example = topo_sort_total ring ring-InRange

ring_known :
    (i : ℕ) (dep : String)
    → contains (deps_of ring i) dep ≡ Bool.true
    → lookup ring.index dep ≢ none
ring_known zero dep h = ground (arith, h)
ring_known (suc zero) dep h = ground (arith, h)
ring_known (suc (suc i)) dep h = ground (arith, h)

topo_sort_cycle_example : (topo_sort ring ≡ err cycle_detected) ↔ ((v : ℕ) × Walk ring v v)
topo_sort_cycle_example = topo_sort_cycle ring ring-InRange ring_known
