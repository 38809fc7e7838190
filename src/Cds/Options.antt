-- ===== src/Cds/Options.antt =====
-- The options of the cluster discovery service in cds.go. A duration is an `int64`, which an option
-- may make negative.
use example_envoy_xds.Base.{ℕ, ◌*◌, ℤ, pos, below_one, if◌then◌else◌, ltb}
use example_envoy_xds.Config.{second}

pub record CdsOpt : Type 0 where
  pub cluster_connection_timeout : ℤ
  pub cluster_upstream_keep_alive_interval_seconds : ℕ
  pub cluster_upstream_keep_alive_time_seconds : ℕ
  pub cluster_refresh_interval_base : ℤ
  pub cluster_refresh_interval_max : ℤ
  pub health_check_initial_jitter : ℤ
  pub health_check_initial_interval_on_add_cluster : ℤ
  pub outlier_consecutive_count5xx : ℕ
  pub outlier_consecutive_gateway_failure : ℕ
  pub outlier_interval : ℤ
  pub outlier_base_ejection_time : ℤ
  pub outlier_success_rate_min_hosts : ℕ

-- the constants that begin with `default`
abbrev pub default_cds_opt : CdsOpt
default_cds_opt = record {
  cluster_connection_timeout = pos (10 * second);
  cluster_upstream_keep_alive_interval_seconds = 60;
  cluster_upstream_keep_alive_time_seconds = 60;
  cluster_refresh_interval_base = pos (5 * second);
  cluster_refresh_interval_max = pos (10 * second);
  health_check_initial_jitter = pos (1 * second);
  health_check_initial_interval_on_add_cluster = pos (5 * second);
  outlier_consecutive_count5xx = 10;
  outlier_consecutive_gateway_failure = 30;
  outlier_interval = pos (10 * second);
  outlier_base_ejection_time = pos (30 * second);
  outlier_success_rate_min_hosts = 5;
}

-- `new(cdsOpt)`
abbrev pub zero_cds_opt : CdsOpt
zero_cds_opt = record {
  cluster_connection_timeout = pos 0;
  cluster_upstream_keep_alive_interval_seconds = 0;
  cluster_upstream_keep_alive_time_seconds = 0;
  cluster_refresh_interval_base = pos 0;
  cluster_refresh_interval_max = pos 0;
  health_check_initial_jitter = pos 0;
  health_check_initial_interval_on_add_cluster = pos 0;
  outlier_consecutive_count5xx = 0;
  outlier_consecutive_gateway_failure = 0;
  outlier_interval = pos 0;
  outlier_base_ejection_time = pos 0;
  outlier_success_rate_min_hosts = 0;
}

abbrev pub CdsOptFunc : Type 0
CdsOptFunc = CdsOpt → CdsOpt

unfoldable pub cds_cluster_connection_timeout : ℤ → CdsOptFunc
cds_cluster_connection_timeout dur opt = record opt { cluster_connection_timeout = dur }

unfoldable pub cds_cluster_upstream_keep_alive_interval_seconds : ℕ → CdsOptFunc
cds_cluster_upstream_keep_alive_interval_seconds seconds opt = record opt {
  cluster_upstream_keep_alive_interval_seconds = seconds;
}

unfoldable pub cds_cluster_upstream_keep_alive_time_seconds : ℕ → CdsOptFunc
cds_cluster_upstream_keep_alive_time_seconds seconds opt = record opt {
  cluster_upstream_keep_alive_time_seconds = seconds;
}

unfoldable pub cds_cluster_refresh_interval_base : ℤ → CdsOptFunc
cds_cluster_refresh_interval_base dur opt = record opt { cluster_refresh_interval_base = dur }

unfoldable pub cds_cluster_refresh_interval_max : ℤ → CdsOptFunc
cds_cluster_refresh_interval_max dur opt = record opt { cluster_refresh_interval_max = dur }

unfoldable pub cds_health_check_initial_jitter : ℤ → CdsOptFunc
cds_health_check_initial_jitter dur opt = record opt { health_check_initial_jitter = dur }

unfoldable pub cds_health_check_initial_interval_on_add_cluster : ℤ → CdsOptFunc
cds_health_check_initial_interval_on_add_cluster dur opt = record opt {
  health_check_initial_interval_on_add_cluster = dur;
}

unfoldable pub cds_outlier_consecutive_count5xx : ℕ → CdsOptFunc
cds_outlier_consecutive_count5xx times opt = record opt { outlier_consecutive_count5xx = times }

unfoldable pub cds_outlier_consecutive_gateway_failure : ℕ → CdsOptFunc
cds_outlier_consecutive_gateway_failure times opt = record opt {
  outlier_consecutive_gateway_failure = times;
}

unfoldable pub cds_outlier_interval : ℤ → CdsOptFunc
cds_outlier_interval dur opt = record opt { outlier_interval = dur }

unfoldable pub cds_outlier_base_ejection_time : ℤ → CdsOptFunc
cds_outlier_base_ejection_time dur opt = record opt { outlier_base_ejection_time = dur }

unfoldable pub cds_outlier_success_rate_min_hosts : ℕ → CdsOptFunc
cds_outlier_success_rate_min_hosts size opt = record opt { outlier_success_rate_min_hosts = size }

-- `if x < 1 { x = d }`, on a duration and on a `uint32`
unfoldable pub or_default : ℤ → ℤ → ℤ
or_default x d = if below_one x then d else x

unfoldable pub or_default_count : ℕ → ℕ → ℕ
or_default_count x d = if ltb x 1 then d else x

-- each `if` writes one field
unfoldable pub init_cds_opt : CdsOpt → CdsOpt
init_cds_opt opt = record {
  cluster_connection_timeout =
      or_default opt.cluster_connection_timeout default_cds_opt.cluster_connection_timeout;
  cluster_upstream_keep_alive_interval_seconds =
      or_default_count opt.cluster_upstream_keep_alive_interval_seconds
        default_cds_opt.cluster_upstream_keep_alive_interval_seconds;
  cluster_upstream_keep_alive_time_seconds =
      or_default_count opt.cluster_upstream_keep_alive_time_seconds
        default_cds_opt.cluster_upstream_keep_alive_time_seconds;
  cluster_refresh_interval_base =
      or_default opt.cluster_refresh_interval_base default_cds_opt.cluster_refresh_interval_base;
  cluster_refresh_interval_max =
      or_default opt.cluster_refresh_interval_max default_cds_opt.cluster_refresh_interval_max;
  health_check_initial_jitter =
      or_default opt.health_check_initial_jitter default_cds_opt.health_check_initial_jitter;
  health_check_initial_interval_on_add_cluster =
      or_default opt.health_check_initial_interval_on_add_cluster
        default_cds_opt.health_check_initial_interval_on_add_cluster;
  outlier_consecutive_count5xx =
      or_default_count opt.outlier_consecutive_count5xx
        default_cds_opt.outlier_consecutive_count5xx;
  outlier_consecutive_gateway_failure =
      or_default_count opt.outlier_consecutive_gateway_failure
        default_cds_opt.outlier_consecutive_gateway_failure;
  outlier_interval = or_default opt.outlier_interval default_cds_opt.outlier_interval;
  outlier_base_ejection_time =
      or_default opt.outlier_base_ejection_time default_cds_opt.outlier_base_ejection_time;
  outlier_success_rate_min_hosts =
      or_default_count opt.outlier_success_rate_min_hosts
        default_cds_opt.outlier_success_rate_min_hosts;
}
