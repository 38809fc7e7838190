-- ===== src/Rds.antt =====
-- rds.go: the route discovery service. The header matcher's oneof wrappers, which have one case
-- here, are left out of the records; a message pointer that may be nil is an option.
pub mod Laws
mod Tests
pub mod Options
use example_envoy_xds.Base.{
  ℕ, ◌+◌, ◌%◌, List, [], ◌∷◌, map, Text, codes, text_eq, Bool, ◌||◌, Option, none, some,
  if◌then◌else◌, pos, Result, ok, u32_mod, u64_mod, apply_all,
}
use example_envoy_xds.Config.{
  RdsConfig, RdsClusterConfig, RdsClusterWeightConfig, RdsClusterHeaderConfig, RdsActionConfig,
  action_timeout_second, action_idle_timeout_second,
}
use example_envoy_xds.Decimal.{format_uint}
use example_envoy_xds.Names.{xds_name}
use example_envoy_xds.Xds.{Proto, ConfigSource}
use Options.{RdsOpt, RdsOptFunc, init_rds_opt}

pub record RetryBackOff (p : Proto) : Type 0 where
  pub base_interval : p.DurationMsg
  pub max_interval : p.DurationMsg

pub record RetryPolicy (p : Proto) : Type 0 where
  pub retry_on : Text
  pub num_retries : ℕ
  pub per_try_timeout : Option p.DurationMsg
  pub retry_back_off : Option (RetryBackOff p)

pub record ClusterWeight : Type 0 where
  pub name : Text
  pub weight : ℕ

pub record WeightedCluster : Type 0 where
  pub clusters : List ClusterWeight
  pub total_weight : ℕ

pub record HeaderMatcher : Type 0 where
  pub name : Text
  pub exact : Text

pub record Route (p : Proto) : Type 0 where
  pub name : Text
  pub prefix : Text
  pub headers : List HeaderMatcher
  pub weighted_clusters : WeightedCluster
  pub retry_policy : RetryPolicy p
  pub timeout : p.DurationMsg
  pub idle_timeout : p.DurationMsg

pub record VirtualHost (p : Proto) : Type 0 where
  pub name : Text
  pub domains : List Text
  pub routes : List (Route p)

pub record RouteConfiguration (p : Proto) : Type 0 where
  pub name : Text
  pub virtual_hosts : List (VirtualHost p)

pub record RouteDiscoveryService (p : Proto) : Type 0 where
  pub opt : RdsOpt
  pub xds_config : ConfigSource p
  pub version : ℕ

unfoldable pub weighted_clusters : ℕ → List ClusterWeight → WeightedCluster
weighted_clusters total clusters = record { clusters = clusters; total_weight = total }

unfoldable pub cluster : RdsClusterWeightConfig → ClusterWeight
cluster target = record {
  name = xds_name (codes "example-xds-cluster" ∷ target.cluster_name ∷ []);
  weight = target.weight;
}

unfoldable pub clusters : List RdsClusterWeightConfig → List ClusterWeight
clusters targets = map cluster targets

-- `weight += t.Weight` on a `uint32`
unfoldable pub add_weights : ℕ → List RdsClusterWeightConfig → ℕ
add_weights weight [] = weight
add_weights weight (t ∷ targets) = add_weights ((weight + t.weight) % u32_mod) targets

unfoldable pub cluster_total_weight : List RdsClusterWeightConfig → ℕ
cluster_total_weight targets = add_weights 0 targets

unfoldable pub header : RdsClusterHeaderConfig → HeaderMatcher
header h = record { name = h.header_name; exact = h.string_match.exact }

unfoldable pub cluster_headers : RdsClusterConfig → List HeaderMatcher
cluster_headers cluster = map header cluster.headers

module _ {p : Proto} where
  -- `atomic.AddUint64(&r.version, 1)`
  unfoldable pub incre_version : RouteDiscoveryService p → RouteDiscoveryService p
  incre_version r = record r { version = (r.version + 1) % u64_mod }

  unfoldable pub retry_back_off : RouteDiscoveryService p → RetryBackOff p
  retry_back_off r = record {
    base_interval = p.duration_proto r.opt.retry_back_off_interval_base;
    max_interval = p.duration_proto r.opt.retry_back_off_interval_max;
  }

  unfoldable pub retry_policy_retry_on : RouteDiscoveryService p → ℕ → RetryPolicy p
  retry_policy_retry_on r retry_count = record {
    retry_on = codes "5xx,gateway-error,reset,connect-failure";
    num_retries = retry_count;
    per_try_timeout = some (p.duration_proto r.opt.retry_per_try_timeout);
    retry_back_off = some (retry_back_off r);
  }

  unfoldable pub retry_policy_no_retry : RetryPolicy p
  retry_policy_no_retry = record {
    retry_on = [];
    num_retries = 0;
    per_try_timeout = none;
    retry_back_off = none;
  }

  unfoldable pub retry_policy : RouteDiscoveryService p → RdsActionConfig → RetryPolicy p
  retry_policy r action =
      if text_eq action.retry_policy (codes "off") || text_eq action.retry_policy (codes "no")
      then retry_policy_no_retry
      else if text_eq action.retry_policy (codes "retry1")
      then retry_policy_retry_on r 1
      else if text_eq action.retry_policy (codes "retry5")
      then retry_policy_retry_on r 5
      else retry_policy_no_retry

  unfoldable pub route : RouteDiscoveryService p → RdsClusterConfig → RdsActionConfig → Route p
  route r cluster action = record {
    name = xds_name (codes "example-xds-route" ∷ cluster.prefix ∷ []);
    prefix = cluster.prefix;
    headers = cluster_headers cluster;
    weighted_clusters =
        weighted_clusters (cluster_total_weight cluster.target) (clusters cluster.target);
    retry_policy = retry_policy r action;
    timeout = p.duration_proto (action_timeout_second action);
    idle_timeout = p.duration_proto (action_idle_timeout_second action);
  }

  unfoldable pub virtual_routes :
      RouteDiscoveryService p → List RdsClusterConfig → RdsActionConfig → List (Route p)
  virtual_routes r clusters action = map (λ c. route r c action) clusters

  unfoldable pub virtual_host : RouteDiscoveryService p → RdsConfig → VirtualHost p
  virtual_host r config = record {
    name = xds_name (codes "example-xds-vhost" ∷ config.vhost_name ∷ []);
    domains = config.domain;
    routes = virtual_routes r config.cluster config.action;
  }

  unfoldable pub virtual_hosts : RouteDiscoveryService p → List RdsConfig → List (VirtualHost p)
  virtual_hosts r configs = map (virtual_host r) configs

  unfoldable pub route_configuration :
      RouteDiscoveryService p → List RdsConfig → RouteConfiguration p
  route_configuration r configs = record {
    name = xds_name (codes "example-xds-route-config" ∷ []);
    virtual_hosts = virtual_hosts r configs;
  }

  unfoldable pub create :
      RouteDiscoveryService p
      → List RdsConfig
      → RouteDiscoveryService p × Result p.Error (Text × RouteConfiguration p)
  create r configs =
      let r' = incre_version r in (r', ok (format_uint r'.version, route_configuration r' configs))

module _ (p : Proto) where
  unfoldable pub new_route_discovery_service :
      ConfigSource p → List RdsOptFunc → RouteDiscoveryService p
  new_route_discovery_service xds_config funcs = record {
    opt = init_rds_opt (apply_all funcs zero_opt);
    xds_config = xds_config;
    version = 0;
  }
    where
      zero_opt : RdsOpt
      zero_opt = record {
        retry_back_off_interval_base = pos 0;
        retry_back_off_interval_max = pos 0;
        retry_per_try_timeout = pos 0;
        retry_host_selection_attempts = pos 0;
      }
