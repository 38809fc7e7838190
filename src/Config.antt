-- ===== src/Config.antt =====
-- The configuration structs that the yaml files are bound to: cdsyaml.go, edsyaml.go, rdsyaml.go
-- and ldsyaml.go, with their methods. `uint32` fields are numbers; a duration is an `int64` of
-- nanoseconds.
pub mod Laws
mod Tests
use example_envoy_xds.Base.{ℕ, ◌*◌, ℤ, int64, List, Text, codes, text_eq, Bool, if◌then◌else◌}

-- `time.Second`, in nanoseconds
abbrev pub second : ℕ
second = 1000000000

-- `time.Duration(n) * time.Second`, a product in `int64`
unfoldable pub seconds : ℕ → ℤ
seconds n = int64 (n * second)

pub record CdsHealthCheckConfig : Type 0 where
  pub host : Text
  pub path : Text
  pub status : List Text
  pub timeout : ℕ
  pub interval : ℕ
  pub healthy_count : ℕ
  pub unhealthy_count : ℕ

pub record CdsConfig : Type 0 where
  pub cluster_name : Text
  pub lb_policy : Text
  pub health_check : CdsHealthCheckConfig

unfoldable pub timeout_second : CdsHealthCheckConfig → ℤ
timeout_second c = seconds c.timeout

unfoldable pub interval_second : CdsHealthCheckConfig → ℤ
interval_second c = seconds c.interval

pub record EdsInstanceConfig : Type 0 where
  pub instance_name : Text
  pub ip : Text
  pub port : ℕ
  pub region : Text
  pub zone : Text
  pub protocol : Text
  pub weight : ℕ

pub record EdsConfig : Type 0 where
  pub cluster_name : Text
  pub balancing_policy : Text
  pub instances : List EdsInstanceConfig

-- `corev3.SocketAddress_Protocol` and the socket address that both `addr` methods build
pub data Protocol : Type 0 where
  tcp udp : Protocol

pub record Address : Type 0 where
  pub protocol : Protocol
  pub address : Text
  pub port_value : ℕ

-- the `switch` of both `Address` methods
unfoldable pub protocol_of : Text → Protocol
protocol_of p =
    if text_eq p (codes "tcp") then tcp else if text_eq p (codes "udp") then udp else tcp

unfoldable pub instance_address : EdsInstanceConfig → Address
instance_address c = record {
  protocol = protocol_of c.protocol;
  address = c.ip;
  port_value = c.port;
}

pub record RdsClusterWeightConfig : Type 0 where
  pub cluster_name : Text
  pub weight : ℕ

pub record RdsStringMatcher : Type 0 where
  pub exact : Text

pub record RdsClusterHeaderConfig : Type 0 where
  pub header_name : Text
  pub string_match : RdsStringMatcher

pub record RdsClusterConfig : Type 0 where
  pub prefix : Text
  pub target : List RdsClusterWeightConfig
  pub headers : List RdsClusterHeaderConfig

pub record RdsActionConfig : Type 0 where
  pub timeout : ℕ
  pub idle_timeout : ℕ
  pub retry_policy : Text

pub record RdsConfig : Type 0 where
  pub vhost_name : Text
  pub domain : List Text
  pub cluster : List RdsClusterConfig
  pub action : RdsActionConfig

unfoldable pub action_timeout_second : RdsActionConfig → ℤ
action_timeout_second c = seconds c.timeout

unfoldable pub action_idle_timeout_second : RdsActionConfig → ℤ
action_idle_timeout_second c = seconds c.idle_timeout

pub record LdsListenConfig : Type 0 where
  pub protocol : Text
  pub ip : Text
  pub port : ℕ

unfoldable pub listen_address : LdsListenConfig → Address
listen_address c = record { protocol = protocol_of c.protocol; address = c.ip; port_value = c.port }

pub record LdsServerConfig : Type 0 where
  pub server_name : Text
  pub use_remote_addr : Bool
  pub skip_xff_append : Bool
  pub xff_trusted_hops : ℕ

pub record LdsTimeoutConfig : Type 0 where
  pub request_timeout : ℕ
  pub drain_timeout : ℕ
  pub idle_timeout : ℕ
  pub max_duration : ℕ

unfoldable pub request_timeout_second : LdsTimeoutConfig → ℤ
request_timeout_second c = seconds c.request_timeout

unfoldable pub drain_timeout_second : LdsTimeoutConfig → ℤ
drain_timeout_second c = seconds c.drain_timeout

unfoldable pub idle_timeout_second : LdsTimeoutConfig → ℤ
idle_timeout_second c = seconds c.idle_timeout

unfoldable pub max_duration_second : LdsTimeoutConfig → ℤ
max_duration_second c = seconds c.max_duration

pub record LdsAccessLogConfig : Type 0 where
  pub log_id : Text
  pub flush_interval : ℕ
  pub buffer_size : ℕ

unfoldable pub flush_interval_second : LdsAccessLogConfig → ℤ
flush_interval_second c = seconds c.flush_interval

pub record LdsConfig : Type 0 where
  pub listen : LdsListenConfig
  pub server : LdsServerConfig
  pub timeout : LdsTimeoutConfig
  pub access_log : LdsAccessLogConfig
