-- ===== src/Refs.antt =====
-- How the resources of cds.go, eds.go, rds.go and lds.go name one another: Envoy joins a cluster
-- and its endpoints, a route and its clusters, and the listener and its routes by these names.
pub mod Targets
pub mod Same
pub mod Library
pub mod Agreement
pub mod TwoFiles
mod Tests
mod AgreementTests
use example_envoy_xds.Base.{
  ℕ, List, [], ◌∷◌, map, Text, codes, ◌≡◌, refl, ap, ap₂, ◌↔◌, Result, ok, err, suc, sym, ◌∙◌,
}
use example_envoy_xds.Config.{CdsConfig, EdsConfig, RdsClusterWeightConfig, LdsConfig, RdsConfig}
use example_envoy_xds.Names.{xds_name, replace_all}
use example_envoy_xds.Names.Laws.{xds_name-eq_iff}
use example_envoy_xds.Xds.{Proto}
use example_envoy_xds.Cds.{ClusterDiscoveryService, Cluster, cluster_config, eds_config}
use example_envoy_xds.Cds
use example_envoy_xds.Eds.{Order, ClusterLoadAssignment, eds_endpoints, cluster_load_assignment}
use example_envoy_xds.Eds.Options.{EdsOpt}
use example_envoy_xds.Rds.{RouteDiscoveryService, cluster, ClusterWeight, route_configuration}
use example_envoy_xds.Lds.{ListenerDiscoveryService, route_specifier}

pub assignment_names :
    (order : Order) (opt : EdsOpt) (path : List ℕ) (n : ℕ) (es : List EdsConfig)
    → map (λ a. a.cluster_name) (eds_endpoints order opt path n es)
      ≡ map (λ n. xds_name (codes "example-xds-eds" ∷ n ∷ [])) (map (λ x. x.cluster_name) es)
unfolding eds_endpoints cluster_load_assignment
assignment_names order opt path n [] = refl
assignment_names order opt path n (e ∷ es) =
    ap (◌∷◌ (xds_name (codes "example-xds-eds" ∷ e.cluster_name ∷ [])))
      (assignment_names order opt path (suc n) es)

pub service_names :
    {p : Proto} (c : ClusterDiscoveryService p) (cs : List CdsConfig)
    → map (λ x. x.eds_cluster_config.service_name) (Cds.clusters c cs)
      ≡ map (λ n. xds_name (codes "example-xds-eds" ∷ n ∷ [])) (map (λ x. x.cluster_name) cs)
unfolding Cds.clusters cluster_config eds_config
service_names c [] = refl
service_names c (x ∷ cs) =
    ap (◌∷◌ (xds_name (codes "example-xds-eds" ∷ x.cluster_name ∷ []))) (service_names c cs)

-- When the cluster file and the endpoint file name the same clusters in the same order, the
-- endpoint service that each cluster asks for is the name of the assignment in its place.
pub clusters-eds_endpoints :
    {p : Proto} (c : ClusterDiscoveryService p) (cs : List CdsConfig) (order : Order) (opt : EdsOpt)
    (path : List ℕ) (es : List EdsConfig)
    → map (λ x. x.cluster_name) cs ≡ map (λ x. x.cluster_name) es
    → map (λ x. x.eds_cluster_config.service_name) (Cds.clusters c cs)
      ≡ map (λ a. a.cluster_name) (eds_endpoints order opt path 0 es)
clusters-eds_endpoints c cs order opt path es e =
    service_names c cs
    ∙ ap (map (λ n. xds_name (codes "example-xds-eds" ∷ n ∷ []))) e
    ∙ sym (assignment_names order opt path 0 es)

-- A route's target names a cluster of the cluster service exactly when the two configured names
-- are the same up to the spelling of `-` as `_`.
pub target-cluster :
    {p : Proto} (c : ClusterDiscoveryService p) (cfg : CdsConfig) (t : RdsClusterWeightConfig)
    → ((cluster t).name ≡ (cluster_config c cfg).name)
      ↔ (replace_all t.cluster_name ≡ replace_all cfg.cluster_name)
unfolding cluster cluster_config
target-cluster c cfg t =
    xds_name-eq_iff (codes "example-xds-cluster") t.cluster_name cfg.cluster_name

-- The listener asks for the route configuration that the route service publishes.
pub route_specifier-route_configuration :
    {p : Proto} (s : ListenerDiscoveryService p) (r : RouteDiscoveryService p) (cs : List RdsConfig)
    → (route_specifier s).route_config_name ≡ (route_configuration r cs).name
unfolding route_specifier route_configuration
route_specifier-route_configuration s r cs = refl
