-- ===== src/Resource.antt =====
-- resource.go: what the next snapshot is made of. Every method holds the lock from its first to its
-- last access, so each is one step. A nil pointer is `none`. `cachev3.NewSnapshot` and
-- `Consistent` are parameters.
pub mod Version
pub mod Snapshot
mod Tests
use example_envoy_xds.Base.{ℕ, List, [], ◌∷◌, Text, codes, Option, none, some, Result, ok, err}
use example_envoy_xds.Names.{join}
use example_envoy_xds.Xds.{Proto}
use example_envoy_xds.Eds.{ClusterLoadAssignment}
use example_envoy_xds.Cds.{Cluster}
use example_envoy_xds.Rds.{RouteConfiguration}
use example_envoy_xds.Lds.{Listener}

pub record Resource (p : Proto) : Type 0 where
  pub endpoints : List ClusterLoadAssignment
  pub endpoints_version : Text
  pub clusters : List (Cluster p)
  pub clusters_version : Text
  pub route : Option (RouteConfiguration p)
  pub route_version : Text
  pub listener : Option (Listener p)
  pub listener_version : Text

-- the argument of `NewSnapshot`: the resources by type
pub record ResourceMap (p : Proto) : Type 0 where
  pub endpoint_type : List ClusterLoadAssignment
  pub cluster_type : List (Cluster p)
  pub route_type : List (Option (RouteConfiguration p))
  pub listener_type : List (Option (Listener p))

-- `cachev3.NewSnapshot` and `(*Snapshot).Consistent`, which returns nil where the names agree
pub record SnapshotApi (p : Proto) : Type 1 where
  pub Snapshot : Type 0
  pub new_snapshot : Text → ResourceMap p → Result p.Error Snapshot
  pub consistent : Snapshot → Option p.Error

-- `[]string{endpoint, cluster, route, listener}` joined by dots
unfoldable pub version_string : Text → Text → Text → Text → Text
unfolding join
version_string endpoint cluster route listener =
    join (endpoint ∷ cluster ∷ route ∷ listener ∷ []) (codes ".")

module _ {p : Proto} where
  unfoldable pub update_listener : Text → Listener p → Resource p → Resource p
  update_listener version listener r = record r {
    listener_version = version;
    listener = some listener;
  }

  unfoldable pub current_listener : Resource p → Text × Option (Listener p)
  current_listener r = (r.listener_version, r.listener)

  unfoldable pub update_route : Text → RouteConfiguration p → Resource p → Resource p
  update_route version route r = record r { route_version = version; route = some route }

  unfoldable pub current_route : Resource p → Text × Option (RouteConfiguration p)
  current_route r = (r.route_version, r.route)

  unfoldable pub update_cluster : Text → List (Cluster p) → Resource p → Resource p
  update_cluster version clusters r = record r { clusters_version = version; clusters = clusters }

  unfoldable pub current_cluster : Resource p → Text × List (Cluster p)
  current_cluster r = (r.clusters_version, r.clusters)

  unfoldable pub update_endpoint : Text → List ClusterLoadAssignment → Resource p → Resource p
  update_endpoint version endpoints r = record r {
    endpoints_version = version;
    endpoints = endpoints;
  }

  unfoldable pub current_endpoint : Resource p → Text × List ClusterLoadAssignment
  current_endpoint r = (r.endpoints_version, r.endpoints)

  unfoldable pub version : Resource p → Text
  version r =
      version_string r.endpoints_version r.clusters_version r.route_version r.listener_version

  -- what `Snapshot` hands to `NewSnapshot`; the loops copy the lists
  unfoldable pub resource_map : Resource p → ResourceMap p
  resource_map r = record {
    endpoint_type = r.endpoints;
    cluster_type = r.clusters;
    route_type = r.route ∷ [];
    listener_type = r.listener ∷ [];
  }

  unfoldable pub checked :
      (api : SnapshotApi p) → Text → api.Snapshot → Result p.Error (Text × api.Snapshot)
  checked api v s = elim (api.consistent s) [ some e ↦ err e | none ↦ ok (v, s) ]

  unfoldable pub snapshot :
      (api : SnapshotApi p) → Resource p → Result p.Error (Text × api.Snapshot)
  unfolding checked
  snapshot api r = elim (api.new_snapshot (version r) (resource_map r)) [
    | err e ↦ err e
    | ok s ↦ checked api (version r) s
  ]

  unfoldable pub new_resource : Resource p
  new_resource = record {
    endpoints = [];
    endpoints_version = codes "0";
    clusters = [];
    clusters_version = codes "0";
    route = none;
    route_version = codes "0";
    listener = none;
    listener_version = codes "0";
  }
