-- ===== src/Refs/Tests.antt =====
-- Tests of the references between resources.
use example_envoy_xds.Base.{List, [], ◌∷◌, map, All, inl, inr, codes, ◌≡◌, ◌↔◌, refl}
use example_envoy_xds.Samples.{sample_proto, sample_order, sample_cds, sample_eds, sample_rds}
use example_envoy_xds.Names.{replace_all}
use example_envoy_xds.Xds.{xds_config_source}
use example_envoy_xds.Cds
use example_envoy_xds.Cds.{ClusterDiscoveryService, cluster_config, new_cluster_discovery_service}
use example_envoy_xds.Eds.{eds_endpoints, new_endpoint_discovery_service}
use example_envoy_xds.Rds.{
  cluster, route_configuration, RouteDiscoveryService, new_route_discovery_service,
}
use example_envoy_xds.Refs.Targets.{Among, targets_of_hosts, route_configuration-Among}
use example_envoy_xds.Config.{CdsConfig}
use example_envoy_xds.Refs.{clusters-eds_endpoints, target-cluster}

abbrev cds : ClusterDiscoveryService sample_proto
cds = new_cluster_discovery_service sample_proto (xds_config_source sample_proto) []

sample_names-agree :
    map (λ x. x.eds_cluster_config.service_name) (Cds.clusters cds (sample_cds ∷ []))
    ≡ map
        (λ a. a.cluster_name)
        (eds_endpoints sample_order
          (new_endpoint_discovery_service []).opt
          (1 ∷ [])
          0
          (sample_eds ∷ []))
sample_names-agree =
    clusters-eds_endpoints cds (sample_cds ∷ []) sample_order
      (new_endpoint_discovery_service []).opt (1 ∷ []) (sample_eds ∷ []) refl

user_api-cluster :
    ((cluster (record { cluster_name = codes "user_api"; weight = 80 })).name
      ≡ (cluster_config cds sample_cds).name)
    ↔ (replace_all (codes "user_api") ≡ replace_all (codes "user-api"))
user_api-cluster =
    target-cluster cds sample_cds (record { cluster_name = codes "user_api"; weight = 80 })

abbrev rds : RouteDiscoveryService sample_proto
rds = new_route_discovery_service sample_proto (xds_config_source sample_proto) []

abbrev cds_file : List CdsConfig
cds_file = sample_cds ∷ (record sample_cds { cluster_name = codes "guest" }) ∷ []

route_configuration-Among_example :
    All
      (Among (map (λ x. x.name) (Cds.clusters cds cds_file)))
      (targets_of_hosts (route_configuration rds (sample_rds ∷ [])).virtual_hosts)
route_configuration-Among_example =
    route_configuration-Among rds cds (sample_rds ∷ []) cds_file (inl refl, (inr (inl refl), tt))
