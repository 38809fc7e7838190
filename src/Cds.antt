-- ===== src/Cds.antt =====
-- cds.go: the cluster discovery service. Messages are records of the fields that the code sets.
pub mod Options
pub mod Status
pub mod Defaults
mod Tests
use example_envoy_xds.Base.{
  ℕ, ◌+◌, ◌%◌, List, [], ◌∷◌, map, Text, codes, text_eq, Bool, true, if◌then◌else◌, Result, ok,
  u64_mod, apply_all,
}
use example_envoy_xds.Config.{CdsConfig, CdsHealthCheckConfig, timeout_second, interval_second}
use example_envoy_xds.Decimal.{format_uint}
use example_envoy_xds.Names.{xds_name}
use example_envoy_xds.Xds.{Proto, ConfigSource}
use Options.{CdsOpt, CdsOptFunc, init_cds_opt, zero_cds_opt}
use Status.{Int64Range, statuses_int64_range}

-- `HealthyPanicThreshold` is `float64(1.0)`, a percentage; `LocalityWeightedLbConfig` is empty.
pub data LocalityConfigSpecifier : Type 0 where
  locality_weighted_lb_config : LocalityConfigSpecifier

pub record CommonLbConfig : Type 0 where
  pub healthy_panic_threshold : ℕ
  pub locality_config_specifier : LocalityConfigSpecifier

pub data FallbackPolicy : Type 0 where
  any_endpoint : FallbackPolicy

pub record LbSubsetConfig : Type 0 where
  pub fallback_policy : FallbackPolicy
  pub locality_weight_aware : Bool
  pub scale_locality_weight : Bool

pub record RefreshRate (p : Proto) : Type 0 where
  pub base_interval : p.DurationMsg
  pub max_interval : p.DurationMsg

pub data LbPolicy : Type 0 where
  round_robin least_request random : LbPolicy

pub record TcpKeepalive : Type 0 where
  pub keepalive_time : ℕ
  pub keepalive_interval : ℕ

pub record HttpHealthCheck : Type 0 where
  pub host : Text
  pub path : Text
  pub expected_statuses : List Int64Range

-- `HealthChecker` is nil until `healthChecks` sets it: the base has all but that field.
pub record HealthCheckBase (p : Proto) : Type 0 where
  pub timeout : p.DurationMsg
  pub interval : p.DurationMsg
  pub healthy_threshold : ℕ
  pub unhealthy_threshold : ℕ
  pub initial_jitter : p.DurationMsg
  pub no_traffic_interval : p.DurationMsg

pub record HealthCheck (p : Proto) : Type 0 where
  pub base : HealthCheckBase p
  pub health_checker : HttpHealthCheck

pub record EdsClusterConfig (p : Proto) : Type 0 where
  pub service_name : Text
  pub eds_config : ConfigSource p

pub record OutlierDetection (p : Proto) : Type 0 where
  pub consecutive_5xx : ℕ
  pub consecutive_gateway_failure : ℕ
  pub interval : p.DurationMsg
  pub base_ejection_time : p.DurationMsg
  pub success_rate_minimum_hosts : ℕ

pub data ClusterDiscoveryType : Type 0 where
  eds : ClusterDiscoveryType

pub data DnsLookupFamily : Type 0 where
  auto : DnsLookupFamily

pub record Cluster (p : Proto) : Type 0 where
  pub name : Text
  pub connect_timeout : p.DurationMsg
  pub upstream_connection_options : TcpKeepalive
  pub cluster_discovery_type : ClusterDiscoveryType
  pub eds_cluster_config : EdsClusterConfig p
  pub common_lb_config : CommonLbConfig
  pub lb_subset_config : LbSubsetConfig
  pub lb_policy : LbPolicy
  pub dns_lookup_family : DnsLookupFamily
  pub dns_failure_refresh_rate : RefreshRate p
  pub respect_dns_ttl : Bool
  pub health_checks : List (HealthCheck p)
  pub ignore_health_on_host_removal : Bool
  pub outlier_detection : OutlierDetection p

pub record ClusterDiscoveryService (p : Proto) : Type 0 where
  pub opt : CdsOpt
  pub xds_config : ConfigSource p
  pub version : ℕ

unfoldable pub common_lb_config : CdsConfig → CommonLbConfig
common_lb_config cfg = record {
  healthy_panic_threshold = 1;
  locality_config_specifier = locality_weighted_lb_config;
}

unfoldable pub subset_lb_config : CdsConfig → LbSubsetConfig
subset_lb_config cfg = record {
  fallback_policy = any_endpoint;
  locality_weight_aware = true;
  scale_locality_weight = true;
}

-- The case `least-reqest` is spelled as in the source.
unfoldable pub lb_policy : CdsConfig → LbPolicy
lb_policy cfg =
    if text_eq cfg.lb_policy (codes "round-robin")
    then round_robin
    else if text_eq cfg.lb_policy (codes "least-reqest")
    then least_request
    else if text_eq cfg.lb_policy (codes "random")
    then random
    else round_robin

unfoldable pub health_checker_http : CdsHealthCheckConfig → HttpHealthCheck
health_checker_http cfg = record {
  host = cfg.host;
  path = cfg.path;
  expected_statuses = statuses_int64_range cfg.status;
}

module _ {p : Proto} (c : ClusterDiscoveryService p) where
  -- `atomic.AddUint64(&c.version, 1)`
  unfoldable pub incre_version : ClusterDiscoveryService p
  incre_version = record c { version = (c.version + 1) % u64_mod }

  unfoldable pub cluster_refresh_rate : CdsConfig → RefreshRate p
  cluster_refresh_rate cfg = record {
    base_interval = p.duration_proto c.opt.cluster_refresh_interval_base;
    max_interval = p.duration_proto c.opt.cluster_refresh_interval_max;
  }

  unfoldable pub upstream_connection_options : TcpKeepalive
  upstream_connection_options = record {
    keepalive_time = c.opt.cluster_upstream_keep_alive_time_seconds;
    keepalive_interval = c.opt.cluster_upstream_keep_alive_interval_seconds;
  }

  unfoldable pub health_check_base : CdsHealthCheckConfig → HealthCheckBase p
  health_check_base cfg = record {
    timeout = p.duration_proto (timeout_second cfg);
    interval = p.duration_proto (interval_second cfg);
    healthy_threshold = cfg.healthy_count;
    unhealthy_threshold = cfg.unhealthy_count;
    initial_jitter = p.duration_proto c.opt.health_check_initial_jitter;
    no_traffic_interval = p.duration_proto c.opt.health_check_initial_interval_on_add_cluster;
  }

  unfoldable pub health_checks : CdsHealthCheckConfig → List (HealthCheck p)
  health_checks cfg =
      (record { base = health_check_base cfg; health_checker = health_checker_http cfg }) ∷ []

  unfoldable pub eds_config : Text → EdsClusterConfig p
  eds_config usage = record {
    service_name = xds_name (codes "example-xds-eds" ∷ usage ∷ []);
    eds_config = c.xds_config;
  }

  unfoldable pub outlier_detection : CdsConfig → OutlierDetection p
  outlier_detection cfg = record {
    consecutive_5xx = c.opt.outlier_consecutive_count5xx;
    consecutive_gateway_failure = c.opt.outlier_consecutive_gateway_failure;
    interval = p.duration_proto c.opt.outlier_interval;
    base_ejection_time = p.duration_proto c.opt.outlier_base_ejection_time;
    success_rate_minimum_hosts = c.opt.outlier_success_rate_min_hosts;
  }

  unfoldable pub cluster_config : CdsConfig → Cluster p
  cluster_config cfg = record {
    name = xds_name (codes "example-xds-cluster" ∷ cfg.cluster_name ∷ []);
    connect_timeout = p.duration_proto c.opt.cluster_connection_timeout;
    upstream_connection_options = upstream_connection_options;
    cluster_discovery_type = eds;
    eds_cluster_config = eds_config cfg.cluster_name;
    common_lb_config = common_lb_config cfg;
    lb_subset_config = subset_lb_config cfg;
    lb_policy = lb_policy cfg;
    dns_lookup_family = auto;
    dns_failure_refresh_rate = cluster_refresh_rate cfg;
    respect_dns_ttl = true;
    health_checks = health_checks cfg.health_check;
    ignore_health_on_host_removal = true;
    outlier_detection = outlier_detection cfg;
  }

  unfoldable pub clusters : List CdsConfig → List (Cluster p)
  clusters configs = map cluster_config configs

unfoldable pub create :
    {p : Proto}
    → ClusterDiscoveryService p
    → List CdsConfig
    → ClusterDiscoveryService p × Result p.Error (Text × List (Cluster p))
create c configs =
    let c' = incre_version c in (c', ok (format_uint c'.version, clusters c' configs))

unfoldable pub new_cluster_discovery_service :
    (p : Proto) → ConfigSource p → List CdsOptFunc → ClusterDiscoveryService p
new_cluster_discovery_service p xds_config funcs = record {
  opt = init_cds_opt (apply_all funcs zero_cds_opt);
  xds_config = xds_config;
  version = 0;
}
