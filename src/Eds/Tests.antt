-- ===== src/Eds/Tests.antt =====
-- Tests of eds.go.
use mathlib.Core.List.{Permᴰ}
use example_envoy_xds.Base.{
  [], ◌∷◌, map, codes, text_eq, false, true, some, pos, ◌≡◌, ◌≢◌, refl, All, Distinct,
}
use example_envoy_xds.Samples.{sample_order, sample_order-VisitsAll, sample_instances}
use example_envoy_xds.Eds.Options.{EdsOpt}
use example_envoy_xds.Eds.{
  lb_endpoints, lb_balancing_endpoints, lb_locality_endpoints, region_loop, zone_loop, group,
  instances_by_region, instances_by_zone, lb_locality_endpoints_by_region, lb_locality_endpoint,
  get, put, add_instance,
}
use example_envoy_xds.Eds.Partition.{IsCell, all_endpoints, localities}
use example_envoy_xds.Eds.Regions.{
  lb_balancing_endpoints-perm, lb_balancing_endpoints-IsCell, lb_balancing_endpoints-Distinct,
}
use example_envoy_xds.Eds.Weights.{
  IsWeighted, IsTold, IsAnnounced, lb_balancing_endpoints-IsAnnounced,
  lb_balancing_endpoints-IsWeighted, lb_balancing_endpoints-IsTold,
}

abbrev opt : EdsOpt
opt = record { load_balancing_weight = 1; health_status = pos 0; set_initial_health_status = false }

locality-not-normal : codes "locality" ≢ codes "normal"
locality-not-normal e = cc

lb_balancing_endpoints-perm_example :
    Permᴰ
      (all_endpoints
        (lb_balancing_endpoints sample_order opt [] (codes "locality") sample_instances))
      (lb_endpoints opt sample_instances)
lb_balancing_endpoints-perm_example =
    lb_balancing_endpoints-perm sample_order opt sample_order-VisitsAll [] (codes "locality")
      sample_instances

lb_balancing_endpoints-IsCell_example :
    All
      (IsCell opt sample_instances)
      (lb_balancing_endpoints sample_order opt [] (codes "locality") sample_instances)
lb_balancing_endpoints-IsCell_example =
    lb_balancing_endpoints-IsCell sample_order opt sample_order-VisitsAll [] (codes "locality")
      sample_instances locality-not-normal

lb_balancing_endpoints-Distinct_example :
    Distinct
      (localities (lb_balancing_endpoints sample_order opt [] (codes "locality") sample_instances))
lb_balancing_endpoints-Distinct_example =
    lb_balancing_endpoints-Distinct sample_order opt sample_order-VisitsAll [] (codes "locality")
      sample_instances locality-not-normal

locality-IsWeighted :
    All IsWeighted (
      all_endpoints
        (lb_balancing_endpoints sample_order opt [] (codes "locality") sample_instances))
locality-IsWeighted =
    lb_balancing_endpoints-IsWeighted sample_order opt [] (codes "locality") sample_instances
      sample_order-VisitsAll refl

abbrev unhealthy : EdsOpt
unhealthy = record opt { health_status = pos 2; set_initial_health_status = true }

unhealthy-IsTold : All (IsTold (pos 2)) (
    all_endpoints
      (lb_balancing_endpoints sample_order unhealthy [] (codes "normal") sample_instances))
unhealthy-IsTold =
    lb_balancing_endpoints-IsTold sample_order unhealthy [] (codes "normal") sample_instances
      sample_order-VisitsAll refl

-- two instances share a region and a zone
regions : map (λ l. l.locality) (lb_locality_endpoints sample_order opt [] sample_instances) ≡ (
    some (record { region = codes "tokyo"; zone = codes "a" })
    ∷ some (record { region = codes "tokyo"; zone = codes "b" })
    ∷ some (record { region = codes "osaka"; zone = codes "a" })
    ∷ [])
unfolding lb_locality_endpoints region_loop zone_loop group instances_by_region instances_by_zone
    lb_locality_endpoints_by_region lb_locality_endpoint get put add_instance text_eq
regions = refl

lb_balancing_endpoints-IsAnnounced_example : All (IsAnnounced unhealthy) (
    all_endpoints
      (lb_balancing_endpoints sample_order unhealthy [] (codes "locality") sample_instances))
lb_balancing_endpoints-IsAnnounced_example =
    lb_balancing_endpoints-IsAnnounced sample_order unhealthy [] (codes "locality") sample_instances
      sample_order-VisitsAll
