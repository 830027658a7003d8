-- ===== src/Flow/Tests.antt =====
-- Parameters of runs with a small tss-lib, and the instances of the theorems about them.
use brosettlement_mpc_core.Base.{◌≡◌, refl, [], ◌∷◌, codes}
use mathlib.Core.List.{Permᴰ}
use brosettlement_mpc_core.Flow.Params.{build_params, build_params_permuted}
use brosettlement_mpc_core.Flow.Toy.{toy}

build_params_permuted_example :
    build_params toy (codes "b" ∷ codes "a" ∷ codes "c" ∷ []) (codes "c") 2 [] (codes "ecdsa")
    ≡ build_params toy (codes "a" ∷ codes "b" ∷ codes "c" ∷ []) (codes "c") 2 [] (codes "ecdsa")
build_params_permuted_example =
    build_params_permuted toy (codes "c") 2 [] (codes "ecdsa") (Permᴰ.swap refl refl)
