-- ===== src/Cds/Tests.antt =====
-- Tests of cds.go.
use example_envoy_xds.Base.{
  ℕ, ◌+◌, ◌≤◌, ◌<◌, All, [], ◌∷◌, map, codes, ◌≡◌, ◌≢◌, ◌↔◌, ◌⊎◌, refl, inl, inr, arith,
}
use example_envoy_xds.Decimal.{parse_uint, scan}
use example_envoy_xds.Cds.Options.{
  zero_cds_opt, default_cds_opt, init_cds_opt, or_default, or_default_count,
}
use example_envoy_xds.Cds.Defaults.{IsReady, init_cds_opt-IsReady}
use example_envoy_xds.Cds.Status.{status_uint, statuses_int64_range}
use example_envoy_xds.Cds.Status.Proper.{IsProper, statuses_int64_range-IsProper}
use example_envoy_xds.Cds.Status.Single.{statuses_int64_range_single}
use example_envoy_xds.Cds.Status.Accepts.{
  Accepts, In, statuses_int64_range-Accepts, statuses_int64_range_default, statuses_int64_range_one,
  statuses_int64_range_same,
}

status_302 : status_uint (codes "302") ≡ 302
unfolding status_uint parse_uint scan
status_302 = refl

status_404 : status_uint (codes "404") ≡ 404
unfolding status_uint parse_uint scan
status_404 = refl

-- no number is 200
status_none : status_uint (codes "2xx") ≡ 200
unfolding status_uint parse_uint scan
status_none = refl

statuses_int64_range-Accepts_example :
    Accepts (statuses_int64_range (codes "302" ∷ codes "2xx" ∷ codes "404" ∷ [])) 404
    ↔ In 404 (map status_uint (codes "302" ∷ codes "2xx" ∷ codes "404" ∷ []))
statuses_int64_range-Accepts_example =
    statuses_int64_range-Accepts (codes "302" ∷ codes "2xx" ∷ codes "404" ∷ [])
      (status_uint (codes "302")) (status_uint (codes "2xx")) 404 (inl refl) (inr (inl refl))
      (ground (arith, status_302, status_none))

status_none-Accepts_204 :
    Accepts (statuses_int64_range (codes "2xx" ∷ [])) 204 ↔ ((200 ≤ 204) × (204 < 299))
status_none-Accepts_204 = statuses_int64_range_default (codes "2xx") 204 status_none

status_302-Accepts_302 :
    Accepts (statuses_int64_range (codes "302" ∷ [])) 302 ↔ (302 ≡ status_uint (codes "302"))
status_302-Accepts_302 = statuses_int64_range_one (codes "302") 302 (ground (arith, status_302))

statuses_int64_range_same_example :
    Accepts (statuses_int64_range (codes "302" ∷ codes "302" ∷ [])) 303
    ↔ (◌≡◌ {A = ℕ} 303 302 ⊎ ◌≡◌ {A = ℕ} 303 (302 + 1))
statuses_int64_range_same_example =
    statuses_int64_range_same (codes "302") (codes "302") [] 302 303 (status_302, (status_302, tt))

init_cds_opt-IsReady_example :
    IsReady (init_cds_opt zero_cds_opt)
    × ((init_cds_opt zero_cds_opt ≡ zero_cds_opt) ↔ IsReady zero_cds_opt)
init_cds_opt-IsReady_example = init_cds_opt-IsReady zero_cds_opt

defaults : init_cds_opt zero_cds_opt ≡ default_cds_opt
unfolding init_cds_opt or_default or_default_count
defaults = refl

statuses_int64_range_single_example : Accepts (statuses_int64_range (codes "404" ∷ [])) 404 ↔ (
    ((status_uint (codes "404") ≡ 200) × (200 ≤ 404) × (404 < 299))
    ⊎ ((status_uint (codes "404") ≢ 200) × (404 ≡ status_uint (codes "404"))))
statuses_int64_range_single_example = statuses_int64_range_single (codes "404") 404

statuses_int64_range-IsProper_example :
    All IsProper (statuses_int64_range (codes "302" ∷ codes "302" ∷ codes "2xx" ∷ []))
statuses_int64_range-IsProper_example =
    statuses_int64_range-IsProper (codes "302" ∷ codes "302" ∷ codes "2xx" ∷ [])
