-- ===== src/Rds/Options.antt =====
-- The options of the route discovery service in rds.go.
use example_envoy_xds.Base.{ℕ, ◌*◌, ℤ, pos, below_one, if◌then◌else◌}
use example_envoy_xds.Config.{second}

abbrev pub millisecond : ℕ
millisecond = 1000000

abbrev pub default_retry_back_off_interval_base : ℤ
default_retry_back_off_interval_base = pos (100 * millisecond)

abbrev pub default_retry_back_off_interval_max : ℤ
default_retry_back_off_interval_max = pos (3 * second)

abbrev pub default_retry_per_try_timeout : ℤ
default_retry_per_try_timeout = pos (1 * second)

pub record RdsOpt : Type 0 where
  pub retry_back_off_interval_base : ℤ
  pub retry_back_off_interval_max : ℤ
  pub retry_per_try_timeout : ℤ
  pub retry_host_selection_attempts : ℤ

abbrev pub RdsOptFunc : Type 0
RdsOptFunc = RdsOpt → RdsOpt

unfoldable pub rds_retry_back_off_interval_base : ℤ → RdsOptFunc
rds_retry_back_off_interval_base dur opt = record opt { retry_back_off_interval_base = dur }

unfoldable pub rds_retry_back_off_interval_max : ℤ → RdsOptFunc
rds_retry_back_off_interval_max dur opt = record opt { retry_back_off_interval_max = dur }

unfoldable pub rds_retry_per_try_timeout : ℤ → RdsOptFunc
rds_retry_per_try_timeout dur opt = record opt { retry_per_try_timeout = dur }

unfoldable pub rds_retry_host_selection_attempts : ℤ → RdsOptFunc
rds_retry_host_selection_attempts times opt = record opt { retry_host_selection_attempts = times }

-- each `if` writes one field
unfoldable pub init_rds_opt : RdsOpt → RdsOpt
init_rds_opt opt = record opt {
  retry_back_off_interval_base =
      if below_one opt.retry_back_off_interval_base
      then default_retry_back_off_interval_base
      else opt.retry_back_off_interval_base;
  retry_back_off_interval_max =
      if below_one opt.retry_back_off_interval_max
      then default_retry_back_off_interval_max
      else opt.retry_back_off_interval_max;
  retry_per_try_timeout =
      if below_one opt.retry_per_try_timeout
      then default_retry_per_try_timeout
      else opt.retry_per_try_timeout;
}
