-- ===== src/Samples.antt =====
-- Concrete parameters and files for the tests.
pub mod Reload
pub mod Documented
use mathlib.Core.List.{Permᴰ}
use mathlib.Core.List.Permᴰ
use example_envoy_xds.Base.{
  ℕ, List, [], ◌∷◌, Text, codes, text_eq, Bool, true, false, none, some, if◌then◌else◌, ◌==◌,
  length, ℤ, Result, ok, err,
}
use example_envoy_xds.Config.{
  CdsConfig, CdsHealthCheckConfig, EdsConfig, EdsInstanceConfig, RdsConfig, RdsClusterConfig,
  RdsClusterWeightConfig, RdsActionConfig, LdsConfig,
}
use example_envoy_xds.Xds.{Proto}
use example_envoy_xds.Eds.{Order}
use example_envoy_xds.Eds.Regions.{VisitsAll}
use example_envoy_xds.Resource.{SnapshotApi, ResourceMap}
use example_envoy_xds.Watch.World.{Env, Reads}
use example_envoy_xds.Watch.Load.{
  watch_cds_config_file, watch_eds_config_file, watch_rds_config_file, watch_lds_config_file,
  WatchOptFunc,
}
use example_envoy_xds.Watch.{State, new_watch_file}

abbrev pub sample_proto : Proto
sample_proto = record {
  Error = Text;
  DurationMsg = ℤ;
  duration_proto = λ d. d;
  AnyMsg = ℕ;
  ApiVersion = ℕ;
  default_api_version = 3;
  router_name = codes "router";
  http_grpc_access_log_name = codes "log";
  http_connection_manager_name = codes "manager";
}

abbrev pub instance_in : Text → Text → ℕ → EdsInstanceConfig
instance_in region zone weight = record {
  instance_name = codes "host";
  ip = codes "10.0.0.1";
  port = 8080;
  region = region;
  zone = zone;
  protocol = codes "tcp";
  weight = weight;
}

abbrev pub sample_instances : List EdsInstanceConfig
sample_instances =
    instance_in (codes "tokyo") (codes "a") 10
    ∷ instance_in (codes "osaka") (codes "a") 0
    ∷ instance_in (codes "tokyo") (codes "b") 5
    ∷ instance_in (codes "tokyo") (codes "a") 7
    ∷ []

abbrev pub sample_cds : CdsConfig
sample_cds = record {
  cluster_name = codes "user-api";
  lb_policy = codes "random";
  health_check = record {
    host = codes "user";
    path = codes "/status";
    status = codes "200" ∷ codes "302" ∷ [];
    timeout = 5;
    interval = 10;
    healthy_count = 3;
    unhealthy_count = 3;
  };
}

abbrev pub sample_eds : EdsConfig
sample_eds = record {
  cluster_name = codes "user-api";
  balancing_policy = codes "locality";
  instances = sample_instances;
}

abbrev pub sample_targets : List RdsClusterWeightConfig
sample_targets =
    (record { cluster_name = codes "user-api"; weight = 80 })
    ∷ (record { cluster_name = codes "guest"; weight = 20 })
    ∷ []

abbrev pub sample_action : RdsActionConfig
sample_action = record { timeout = 30; idle_timeout = 15; retry_policy = codes "retry5" }

abbrev pub sample_rds : RdsConfig
sample_rds = record {
  vhost_name = codes "vhost";
  domain = codes "*" ∷ [];
  cluster =
      (record {
        prefix = codes "/user";
        target = sample_targets;
        headers =
            (record {
              header_name = codes "x-group";
              string_match = record { exact = codes "beta" };
            })
            ∷ [];
      })
      ∷ [];
  action = sample_action;
}

abbrev pub sample_lds : LdsConfig
sample_lds = record {
  listen = record { protocol = codes "tcp"; ip = codes "0.0.0.0"; port = 8080 };
  server = record {
    server_name = codes "front";
    use_remote_addr = true;
    skip_xff_append = false;
    xff_trusted_hops = 1;
  };
  timeout = record {
    request_timeout = 30;
    drain_timeout = 5;
    idle_timeout = 60;
    max_duration = 90;
  };
  access_log = record { log_id = codes "front-log"; flush_interval = 1; buffer_size = 1024 };
}

-- Maps are visited in the order of their entries.
abbrev pub sample_order : Order
sample_order path m = m

abbrev pub sample_order-VisitsAll : VisitsAll sample_order
sample_order-VisitsAll path m = Permᴰ.refl m

-- A snapshot is its resources, and consistent where clusters and endpoints are as many.
abbrev pub sample_api : SnapshotApi sample_proto
sample_api = record {
  Snapshot = ResourceMap sample_proto;
  new_snapshot = λ v m. ok m;
  consistent = λ m.
      if length m.endpoint_type == length m.cluster_type then none else some (codes "inconsistent");
}

-- A decoder knows one text.
abbrev pub decode : {A : Type 0} → Text → A → Text → Result Text A
decode known a text = if text_eq text known then ok a else err (codes "bad yaml")

abbrev pub sample_env : Env sample_proto
sample_env = record {
  unmarshal_cds = decode (codes "cds") (sample_cds ∷ []);
  unmarshal_eds = decode (codes "eds") (sample_eds ∷ []);
  unmarshal_rds = decode (codes "rds") (sample_rds ∷ []);
  unmarshal_lds = decode (codes "lds") sample_lds;
  validate_cds = λ c. none;
  validate_eds = λ c. none;
  validate_rds = λ c. none;
  validate_lds = λ c. none;
  abs = λ path. ok path;
  marshal_any = λ m. ok 7;
  api = sample_api;
  order = sample_order;
  chmod = 16;
}

-- the same, where no message can be packed
abbrev pub unpacked_env : Env sample_proto
unpacked_env = record sample_env { marshal_any = λ m. err (codes "no packing") }

-- Each file holds its own name.
abbrev pub sample_reads : Reads sample_proto
sample_reads = record {
  cds = λ path. ok path;
  eds = λ path. ok path;
  rds = λ path. ok path;
  lds = λ path. ok path;
}

-- The endpoint file cannot be read.
abbrev pub broken_reads : Reads sample_proto
broken_reads = record sample_reads { eds = λ path. err (codes "no file") }

abbrev pub sample_files : List WatchOptFunc
sample_files =
    watch_cds_config_file (codes "cds")
    ∷ watch_eds_config_file (codes "eds")
    ∷ watch_rds_config_file (codes "rds")
    ∷ watch_lds_config_file (codes "lds")
    ∷ []

abbrev pub sample_state : State sample_env
sample_state = new_watch_file sample_proto sample_env.api.Snapshot (codes "node") sample_files

abbrev pub unpacked_state : State unpacked_env
unpacked_state = new_watch_file sample_proto unpacked_env.api.Snapshot (codes "node") sample_files
