-- ===== src/Names/Tests.antt =====
-- Tests of `xdsName`.
use example_envoy_xds.Base.{[], ◌∷◌, codes, ◌≡◌, ◌≢◌, ◌↔◌, refl, All}
use example_envoy_xds.Names.{xds_name, replace_all, underscore, join}
use example_envoy_xds.Names.Laws.{xds_name-eq_iff, xds_name-Lacks}

name : xds_name (codes "example-xds-eds" ∷ codes "user-api" ∷ []) ≡ codes "example_xds_eds_user_api"
unfolding xds_name replace_all underscore join
name = refl

xds_name-eq_iff_example :
    (xds_name (codes "example-xds-eds" ∷ codes "user-api" ∷ [])
      ≡ xds_name (codes "example-xds-eds" ∷ codes "user_api" ∷ []))
    ↔ (replace_all (codes "user-api") ≡ replace_all (codes "user_api"))
xds_name-eq_iff_example =
    xds_name-eq_iff (codes "example-xds-eds") (codes "user-api") (codes "user_api")

no_dash : All (λ c. c ≢ b'-') (xds_name (codes "a-b" ∷ codes "c-d" ∷ []))
no_dash = xds_name-Lacks (codes "a-b" ∷ codes "c-d" ∷ [])
