-- ===== src/Xds.antt =====
-- xds.go without `xdsName`, and what the code takes from the protocol's packages: the duration and
-- the `Any` message, their constructors, constants, and errors are parameters. Messages are records
-- of the fields that the code sets.
use example_envoy_xds.Base.{◌*◌, List, [], ◌∷◌, Text, codes, Bool, true, ℤ, pos}
use example_envoy_xds.Config.{second}

pub record Proto : Type 1 where
  pub Error : Type 0
  pub DurationMsg : Type 0
  -- `ptypes.DurationProto`
  pub duration_proto : ℤ → DurationMsg
  pub AnyMsg : Type 0
  pub ApiVersion : Type 0
  -- `resourcev3.DefaultAPIVersion`
  pub default_api_version : ApiVersion
  -- `wellknownv3.Router`, `HTTPGRPCAccessLog` and `HTTPConnectionManager`
  pub router_name : Text
  pub http_grpc_access_log_name : Text
  pub http_connection_manager_name : Text

abbrev pub bootstrap_xds_cluster_name : Text
bootstrap_xds_cluster_name = codes "xds_cluster"

abbrev pub bootstrap_als_cluster_name : Text
bootstrap_als_cluster_name = codes "als_cluster"

abbrev pub envoy_rest_refresh_delay : ℤ
envoy_rest_refresh_delay = pos (10 * second)

abbrev pub envoy_rest_request_timeout : ℤ
envoy_rest_request_timeout = pos (10 * second)

abbrev pub envoy_grpc_request_timeout : ℤ
envoy_grpc_request_timeout = pos (10 * second)

pub record GrpcService (p : Proto) : Type 0 where
  pub timeout : p.DurationMsg
  pub cluster_name : Text

pub data ApiType : Type 0 where
  grpc : ApiType

pub record ConfigSource (p : Proto) : Type 0 where
  pub resource_api_version : p.ApiVersion
  pub transport_api_version : p.ApiVersion
  pub api_type : ApiType
  pub set_node_on_first_message_only : Bool
  pub refresh_delay : p.DurationMsg
  pub request_timeout : p.DurationMsg
  pub grpc_services : List (GrpcService p)

module _ (p : Proto) where
  unfoldable pub grpc_service : Text → GrpcService p
  grpc_service cluster_name = record {
    timeout = p.duration_proto envoy_grpc_request_timeout;
    cluster_name = cluster_name;
  }

  unfoldable pub als_grpc_service : GrpcService p
  als_grpc_service = grpc_service bootstrap_als_cluster_name

  unfoldable pub xds_grpc_services : List (GrpcService p)
  xds_grpc_services = grpc_service bootstrap_xds_cluster_name ∷ []

  unfoldable pub xds_config_source : ConfigSource p
  xds_config_source = record {
    resource_api_version = p.default_api_version;
    transport_api_version = p.default_api_version;
    api_type = grpc;
    set_node_on_first_message_only = true;
    refresh_delay = p.duration_proto envoy_rest_refresh_delay;
    request_timeout = p.duration_proto envoy_rest_request_timeout;
    grpc_services = xds_grpc_services;
  }
