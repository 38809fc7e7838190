-- ===== src/Refs/Library.antt =====
-- What the snapshot library documents of `NewSnapshot` and `Consistent`, and the packing of
-- messages of `MarshalAny`: the names by which a snapshot keeps its resources, and those that it must
-- list to be consistent.
use example_envoy_xds.Base.{All, codes, List, [], ◌∷◌, map, Text, none, some, ok, ◌≡◌, ◌↔◌}
use example_envoy_xds.Xds.{Proto}
use example_envoy_xds.Cds
use example_envoy_xds.Cds.{Cluster}
use example_envoy_xds.Eds.{ClusterLoadAssignment}
use example_envoy_xds.Rds.{RouteConfiguration}
use example_envoy_xds.Lds.{Listener, HttpConnectionManager, connection_manager, listener_filters}
use example_envoy_xds.Resource.{ResourceMap}
use example_envoy_xds.Names.Laws.{xds_name-eq_iff}
use example_envoy_xds.Config.{CdsConfig}
use example_envoy_xds.Watch.World.{Env}
use example_envoy_xds.Refs.Same.{Same}

module _ {p : Proto} (env : Env p) where
  abbrev pub asked_endpoints : List (Cluster p) → List Text
  asked_endpoints cs = map (λ c. c.eds_cluster_config.service_name) cs

  abbrev pub listed_endpoints : List ClusterLoadAssignment → List Text
  listed_endpoints es = map (λ e. e.cluster_name) es

  -- clusters of one name ask for one endpoint service
  abbrev pub HaveOneService : List (Cluster p) → Type 0
  HaveOneService cs =
      All
        (λ x.
          All
            (λ y.
              x.name ≡ y.name
              → x.eds_cluster_config.service_name ≡ y.eds_cluster_config.service_name)
            cs)
        cs

  -- the contents of a snapshot of such resources: the library keeps them by their names
  abbrev pub IsIndexed : ResourceMap p → ResourceMap p → Type 0
  IsIndexed c m =
      Same (asked_endpoints c.cluster_type) (asked_endpoints m.cluster_type)
      × Same (listed_endpoints c.endpoint_type) (listed_endpoints m.endpoint_type)
      × (c.route_type ≡ m.route_type)
      × (c.listener_type ≡ m.listener_type)

  -- what the snapshot library documents, with the resources of a snapshot, and the names of the
  -- route configurations that a listener asks for in its packed connection manager
  pub record Documented (contents : env.api.Snapshot → ResourceMap p)
      (routes_of : Listener p → List Text) : Type 0 where
    pub built :
        (v : Text) (m : ResourceMap p) (r : RouteConfiguration p) (l : Listener p)
        → m.route_type ≡ some r ∷ []
        → m.listener_type ≡ some l ∷ []
        → HaveOneService m.cluster_type
        → (s : env.api.Snapshot) × (env.api.new_snapshot v m ≡ ok s) × IsIndexed (contents s) m
    pub packed :
        (l : Listener p) (m : HttpConnectionManager p) (any : p.AnyMsg)
        → env.marshal_any (connection_manager m) ≡ ok any
        → l.filters ≡ listener_filters any
        → routes_of l ≡ m.route_specifier.route_config_name ∷ []
    pub consistent :
        (s : env.api.Snapshot) (r : RouteConfiguration p) (l : Listener p)
        → (contents s).route_type ≡ some r ∷ []
        → (contents s).listener_type ≡ some l ∷ []
        → (env.api.consistent s ≡ none) ↔ (
            Same
              (asked_endpoints (contents s).cluster_type)
              (listed_endpoints (contents s).endpoint_type)
            × Same (routes_of l) (r.name ∷ []))

-- the names of a cluster and of its endpoint service spell the same configured name
pub clusters-HaveOneService :
    {p : Proto} (env : Env p) (c : Cds.ClusterDiscoveryService p) (cs : List CdsConfig)
    → HaveOneService env (Cds.clusters c cs)
unfolding Cds.clusters Cds.cluster_config Cds.eds_config
clusters-HaveOneService {p} env c cs =
    made
      (λ x.
        All
          (λ y.
            x.name ≡ y.name → x.eds_cluster_config.service_name ≡ y.eds_cluster_config.service_name)
          (Cds.clusters c cs))
      (λ x.
        made
          (λ y.
            (Cds.cluster_config c x).name ≡ y.name
            → (Cds.cluster_config c x).eds_cluster_config.service_name
              ≡ y.eds_cluster_config.service_name)
          (λ y e. one x y e) cs)
      cs
  where
    made :
        (P : Cluster p → Type 0)
        → ((x : CdsConfig) → P (Cds.cluster_config c x))
        → (xs : List CdsConfig) → All P (Cds.clusters c xs)
    made P f [] = tt
    made P f (x ∷ xs) = (f x, made P f xs)

    one :
        (x y : CdsConfig)
        → (Cds.cluster_config c x).name ≡ (Cds.cluster_config c y).name
        → (Cds.cluster_config c x).eds_cluster_config.service_name
          ≡ (Cds.cluster_config c y).eds_cluster_config.service_name
    one x y e =
        (xds_name-eq_iff (codes "example-xds-eds") x.cluster_name y.cluster_name).1
          ((xds_name-eq_iff (codes "example-xds-cluster") x.cluster_name y.cluster_name).0 e)
