-- ===== src/Eds/Options.antt =====
-- The options of the endpoint discovery service in eds.go.
use example_envoy_xds.Base.{ℕ, ℤ, Bool, true, if◌then◌else◌, ltb}

abbrev pub default_load_balancing_weight : ℕ
default_load_balancing_weight = 1

-- `healthStatus` is an `int32` enumeration of the protocol, zero if it is not set.
pub record EdsOpt : Type 0 where
  pub load_balancing_weight : ℕ
  pub health_status : ℤ
  pub set_initial_health_status : Bool

abbrev pub EdsOptFunc : Type 0
EdsOptFunc = EdsOpt → EdsOpt

unfoldable pub eds_load_balancing_weight : ℕ → EdsOptFunc
eds_load_balancing_weight weight opt = record opt { load_balancing_weight = weight }

unfoldable pub eds_lb_endpoint_health_status : ℤ → EdsOptFunc
eds_lb_endpoint_health_status status opt = record opt {
  health_status = status;
  set_initial_health_status = true;
}

unfoldable pub init_eds_opt : EdsOpt → EdsOpt
init_eds_opt opt =
    if ltb opt.load_balancing_weight 1
    then record opt { load_balancing_weight = default_load_balancing_weight }
    else opt
