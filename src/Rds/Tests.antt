-- ===== src/Rds/Tests.antt =====
-- Tests of rds.go.
use example_envoy_xds.Base.{◌%◌, [], codes, ◌≡◌, ◌≢◌, ◌⊎◌, u32_mod, refl}
use example_envoy_xds.Samples.{sample_proto, sample_targets, sample_action}
use example_envoy_xds.Xds.{xds_config_source}
use example_envoy_xds.Rds.{
  RouteDiscoveryService, new_route_discovery_service, clusters, cluster_total_weight, add_weights,
  retry_policy,
}
use example_envoy_xds.Rds.Laws.{
  sum_of_weights, cluster_total_weight-sum, Retries, NeverRetries, retry_policy-cases,
}

abbrev rds : RouteDiscoveryService sample_proto
rds = new_route_discovery_service sample_proto (xds_config_source sample_proto) []

total_weight : cluster_total_weight sample_targets ≡ 100
unfolding cluster_total_weight add_weights
total_weight = refl

cluster_total_weight-sum_example :
    cluster_total_weight sample_targets ≡ sum_of_weights (clusters sample_targets) % u32_mod
cluster_total_weight-sum_example = cluster_total_weight-sum sample_targets

retry_policy-cases_example :
    ((sample_action.retry_policy ≡ codes "retry1") × Retries rds 1 (retry_policy rds sample_action))
    ⊎ ((sample_action.retry_policy ≡ codes "retry5")
        × Retries rds 5 (retry_policy rds sample_action))
    ⊎ ((sample_action.retry_policy ≢ codes "retry1")
        × (sample_action.retry_policy ≢ codes "retry5")
        × NeverRetries (retry_policy rds sample_action))
retry_policy-cases_example = retry_policy-cases sample_proto rds sample_action
