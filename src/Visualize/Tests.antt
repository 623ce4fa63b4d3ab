-- ===== src/Visualize/Tests.antt =====
-- The graph of three jobs in a row.
use cicada.Base.{◌≡◌, refl, [], ◌∷◌}
use cicada.Validate.Tests.{accept_all, pipeline, chain, sorted_chain, validate-chain}
use cicada.Validate.Order.{validate_sound}
use cicada.Visualize.{build_graph}
use cicada.Visualize.Layers.{IsLayered, build_graph-IsLayered}

chain_layers : (build_graph sorted_chain).layers ≡ (1 ∷ []) ∷ (2 ∷ []) ∷ (0 ∷ []) ∷ []
unfolding build_graph
chain_layers = refl

build_graph-IsLayered_example : IsLayered chain (build_graph sorted_chain).layers
build_graph-IsLayered_example =
    build_graph-IsLayered sorted_chain (1 ∷ 2 ∷ 0 ∷ []) refl
      (validate_sound accept_all (pipeline chain) sorted_chain (1 ∷ 2 ∷ 0 ∷ []) validate-chain).0
