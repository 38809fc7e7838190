-- ===== src/Refs/Targets.antt =====
-- The clusters that the routes of rds.go name, and the clusters that cds.go publishes.
use example_envoy_xds.Base.{
  List, [], ◌∷◌, ◌++◌, map, Text, codes, ◌≡◌, refl, ap, ap₂, sym, ◌∙◌, All, All-imp, All-map, ◌⊎◌,
  inl, inr, map-append_lem,
}
use example_envoy_xds.Config.{
  CdsConfig, RdsConfig, RdsClusterConfig, RdsClusterWeightConfig, RdsActionConfig,
}
use example_envoy_xds.Names.{xds_name}
use example_envoy_xds.Xds.{Proto}
use example_envoy_xds.Cds
use example_envoy_xds.Cds.{ClusterDiscoveryService, cluster_config}
use example_envoy_xds.Rds.{
  RouteDiscoveryService, VirtualHost, Route, cluster, clusters, route, virtual_routes, virtual_host,
  virtual_hosts, route_configuration, weighted_clusters,
}

-- one of the texts
abbrev pub Among : List Text → Text → Type 0
Among [] t = ⊥
Among (s ∷ ss) t = (s ≡ t) ⊎ Among ss t

-- the cluster names of a file of routes
abbrev pub targets_of_clusters : List RdsClusterConfig → List Text
targets_of_clusters [] = []
targets_of_clusters (c ∷ cs) = map (λ t. t.cluster_name) c.target ++ targets_of_clusters cs

abbrev pub configured_targets : List RdsConfig → List Text
configured_targets [] = []
configured_targets (c ∷ cs) = targets_of_clusters c.cluster ++ configured_targets cs

module _ {p : Proto} where
  abbrev pub targets_of_routes : List (Route p) → List Text
  targets_of_routes [] = []
  targets_of_routes (r ∷ rs) =
      map (λ c. c.name) r.weighted_clusters.clusters ++ targets_of_routes rs

  abbrev pub targets_of_hosts : List (VirtualHost p) → List Text
  targets_of_hosts [] = []
  targets_of_hosts (h ∷ hs) = targets_of_routes h.routes ++ targets_of_hosts hs

abbrev cluster_name : Text → Text
cluster_name n = xds_name (codes "example-xds-cluster" ∷ n ∷ [])

names_of_targets :
    (ts : List RdsClusterWeightConfig)
    → map (λ c. c.name) (clusters ts) ≡ map cluster_name (map (λ t. t.cluster_name) ts)
unfolding clusters cluster
names_of_targets [] = refl
names_of_targets (t ∷ ts) = ap (◌∷◌ (cluster_name t.cluster_name)) (names_of_targets ts)

names_of_clusters :
    {p : Proto} (c : ClusterDiscoveryService p) (cs : List CdsConfig)
    → map (λ x. x.name) (Cds.clusters c cs) ≡ map cluster_name (map (λ x. x.cluster_name) cs)
unfolding Cds.clusters cluster_config
names_of_clusters c [] = refl
names_of_clusters c (x ∷ cs) = ap (◌∷◌ (cluster_name x.cluster_name)) (names_of_clusters c cs)

pub Among-map : (f : Text → Text) (ss : List Text) (t : Text) → Among ss t → Among (map f ss) (f t)
Among-map f (s ∷ ss) t (inl e) = inl (ap f e)
Among-map f (s ∷ ss) t (inr a) = inr (Among-map f ss t a)
Among-map f [] t a = absurd a

module _ {p : Proto} (r : RouteDiscoveryService p) where
  targets-routes :
      (cs : List RdsClusterConfig) (a : RdsActionConfig)
      → targets_of_routes (virtual_routes r cs a) ≡ map cluster_name (targets_of_clusters cs)
  unfolding virtual_routes route weighted_clusters
  targets-routes [] a = refl
  targets-routes (c ∷ cs) a =
      ap₂ ◌++◌ (names_of_targets c.target) (targets-routes cs a)
      ∙ sym (
          map-append_lem cluster_name (map (λ t. t.cluster_name) c.target) (targets_of_clusters cs))

  targets-hosts :
      (cs : List RdsConfig)
      → targets_of_hosts (virtual_hosts r cs) ≡ map cluster_name (configured_targets cs)
  unfolding virtual_hosts virtual_host
  targets-hosts [] = refl
  targets-hosts (c ∷ cs) =
      ap₂ ◌++◌ (targets-routes c.cluster c.action) (targets-hosts cs)
      ∙ sym (map-append_lem cluster_name (targets_of_clusters c.cluster) (configured_targets cs))

-- If the route file names only clusters of the cluster file, then every cluster that a route of
-- the built route configuration names, in any virtual host, is one of the built clusters.
pub route_configuration-Among :
    {p : Proto} (r : RouteDiscoveryService p) (c : ClusterDiscoveryService p) (rds : List RdsConfig)
    (cds : List CdsConfig)
    → All (Among (map (λ x. x.cluster_name) cds)) (configured_targets rds)
    → All
        (Among (map (λ x. x.name) (Cds.clusters c cds)))
        (targets_of_hosts (route_configuration r rds).virtual_hosts)
unfolding route_configuration
route_configuration-Among r c rds cds known =
    let names = map (λ x. x.cluster_name) cds in
    rw (targets-hosts r rds, names_of_clusters c cds)
      (All-map (Among (map cluster_name names)) cluster_name (configured_targets rds) (
        All-imp (Among names) (λ t. Among (map cluster_name names) (cluster_name t))
          (configured_targets rds) (Among-map cluster_name names) known))
