-- ===== src/Lds.antt =====
-- lds.go: the listener discovery service. `ptypes.MarshalAny` packs a message, and may fail. The
-- messages that do nothing but wrap one other (the one filter chain, the common configuration of
-- the access log, the oneof cases) are left out of the records.
pub mod Laws
use example_envoy_xds.Base.{
  ℕ, ◌+◌, ◌%◌, List, [], ◌∷◌, Text, codes, Bool, if◌then◌else◌, ltb, length, Result, ok, err, ◌>>=◌,
  u64_mod, apply_all,
}
use example_envoy_xds.Config.{
  LdsConfig, LdsListenConfig, LdsAccessLogConfig, Address, listen_address, request_timeout_second,
  drain_timeout_second, idle_timeout_second, max_duration_second, flush_interval_second,
}
use example_envoy_xds.Decimal.{format_uint}
use example_envoy_xds.Names.{join, xds_name}
use example_envoy_xds.Xds.{Proto, ConfigSource, GrpcService, als_grpc_service}

-- version.go
abbrev pub app_name : Text
app_name = codes "example-envoy-xds"

abbrev pub app_version : Text
app_version = codes "1.0.4"

pub record LdsOpt : Type 0 where
  pub stat_prefix : Text

abbrev pub LdsOptFunc : Type 0
LdsOptFunc = LdsOpt → LdsOpt

unfoldable pub lds_stat_prefix : Text → LdsOptFunc
lds_stat_prefix prefix opt = record opt { stat_prefix = prefix }

unfoldable pub init_lds_opt : LdsOpt → LdsOpt
init_lds_opt opt =
    if ltb (length opt.stat_prefix) 1
    then record opt { stat_prefix = codes "ingress_http" }
    else opt

pub record HttpProtocolOptions (p : Proto) : Type 0 where
  pub idle_timeout : p.DurationMsg
  pub max_connection_duration : p.DurationMsg

pub record RdsSpecifier (p : Proto) : Type 0 where
  pub route_config_name : Text
  pub config_source : ConfigSource p

-- a filter or an access log: a name and a packed configuration
pub record TypedFilter (p : Proto) : Type 0 where
  pub name : Text
  pub typed_config : p.AnyMsg

pub data CodecType : Type 0 where
  auto : CodecType

-- `AccessLog` is empty until `create` sets it.
pub record HttpConnectionManager (p : Proto) : Type 0 where
  pub codec_type : CodecType
  pub stat_prefix : Text
  pub common_http_protocol_options : HttpProtocolOptions p
  pub use_remote_address : Bool
  pub skip_xff_append : Bool
  pub xff_num_trusted_hops : ℕ
  pub server_name : Text
  pub request_timeout : p.DurationMsg
  pub drain_timeout : p.DurationMsg
  pub route_specifier : RdsSpecifier p
  pub http_filters : List (TypedFilter p)
  pub access_log : List (TypedFilter p)

-- `transport_api_version` is `resourcev3.DefaultAPIVersion`.
pub record HttpGrpcAccessLogConfig (p : Proto) : Type 0 where
  pub log_name : Text
  pub transport_api_version : p.ApiVersion
  pub buffer_flush_interval : p.DurationMsg
  pub buffer_size_bytes : ℕ
  pub grpc_service : GrpcService p

pub record Listener (p : Proto) : Type 0 where
  pub name : Text
  pub address : Address
  pub filters : List (TypedFilter p)

-- the messages that the code packs; `routerv3.Router{}` has no field set
pub data Message (p : Proto) : Type 0 where
  router : Message p
  access_log_config : HttpGrpcAccessLogConfig p → Message p
  connection_manager : HttpConnectionManager p → Message p

-- `ptypes.MarshalAny`
abbrev pub MarshalAny : Proto → Type 0
MarshalAny p = Message p → Result p.Error p.AnyMsg

pub record ListenerDiscoveryService (p : Proto) : Type 0 where
  pub opt : LdsOpt
  pub xds_config : ConfigSource p
  pub version : ℕ

module _ {p : Proto} where
  unfoldable pub common_http_protocol_options : LdsConfig → HttpProtocolOptions p
  common_http_protocol_options config = record {
    idle_timeout = p.duration_proto (idle_timeout_second config.timeout);
    max_connection_duration = p.duration_proto (max_duration_second config.timeout);
  }

  unfoldable pub accesslog_config : LdsAccessLogConfig → HttpGrpcAccessLogConfig p
  accesslog_config config = record {
    log_name = config.log_id;
    transport_api_version = p.default_api_version;
    buffer_flush_interval = p.duration_proto (flush_interval_second config);
    buffer_size_bytes = config.buffer_size;
    grpc_service = als_grpc_service p;
  }

  unfoldable pub conn_http_accesslog : p.AnyMsg → List (TypedFilter p)
  conn_http_accesslog als_config =
      (record { name = p.http_grpc_access_log_name; typed_config = als_config }) ∷ []

  unfoldable pub listener_filters : p.AnyMsg → List (TypedFilter p)
  listener_filters manager_config =
      (record { name = p.http_connection_manager_name; typed_config = manager_config }) ∷ []

  unfoldable pub listener : List (TypedFilter p) → LdsListenConfig → Listener p
  listener filters config = record {
    name = xds_name (codes "example-xds-listener" ∷ []);
    address = listen_address config;
    filters = filters;
  }

module _ {p : Proto} (marshal_any : MarshalAny p) where
  unfoldable pub conn_http_filters : Result p.Error (List (TypedFilter p))
  conn_http_filters = do
    conf ← marshal_any router
    ok ((record { name = p.router_name; typed_config = conf }) ∷ [])

module _ {p : Proto} where
  -- `atomic.AddUint64(&s.version, 1)`
  unfoldable pub incre_version : ListenerDiscoveryService p → ListenerDiscoveryService p
  incre_version s = record s { version = (s.version + 1) % u64_mod }

  unfoldable pub route_specifier : ListenerDiscoveryService p → RdsSpecifier p
  route_specifier s = record {
    route_config_name = xds_name (codes "example-xds-route-config" ∷ []);
    config_source = s.xds_config;
  }

  unfoldable pub http_connection_manager :
      MarshalAny p
      → ListenerDiscoveryService p
      → LdsConfig
      → Result p.Error (HttpConnectionManager p)
  http_connection_manager marshal_any s config = do
    http_filters ← conn_http_filters marshal_any
    ok (record {
      codec_type = auto;
      stat_prefix = s.opt.stat_prefix;
      common_http_protocol_options = common_http_protocol_options config;
      use_remote_address = config.server.use_remote_addr;
      skip_xff_append = config.server.skip_xff_append;
      xff_num_trusted_hops = config.server.xff_trusted_hops;
      server_name = join (config.server.server_name ∷ app_version ∷ []) (codes "/");
      request_timeout = p.duration_proto (request_timeout_second config.timeout);
      drain_timeout = p.duration_proto (drain_timeout_second config.timeout);
      route_specifier = route_specifier s;
      http_filters = http_filters;
      access_log = [];
    })

  -- the filters of the listener, or the error of one of the three calls of `MarshalAny`
  unfoldable pub packed_filters :
      MarshalAny p → ListenerDiscoveryService p → LdsConfig → Result p.Error (List (TypedFilter p))
  unfolding http_connection_manager conn_http_filters accesslog_config
  packed_filters marshal_any s config = do
    als_config ← marshal_any (access_log_config (accesslog_config config.access_log))
    manager ← http_connection_manager marshal_any s config
    let manager' = record manager { access_log = conn_http_accesslog als_config }
    manager_config ← marshal_any (connection_manager manager')
    ok (listener_filters manager_config)

  -- The version goes up only after the last call that can fail.
  unfoldable pub create :
      MarshalAny p
      → ListenerDiscoveryService p
      → LdsConfig
      → ListenerDiscoveryService p × Result p.Error (Text × Listener p)
  create marshal_any s config = elim (packed_filters marshal_any s config) [
    | ok filters ↦
        let s' = incre_version s in
        (s', ok (format_uint s'.version, listener filters config.listen))
    | err e ↦ (s, err e)
  ]

unfoldable pub new_listener_discovery_service :
    (p : Proto) → ConfigSource p → List LdsOptFunc → ListenerDiscoveryService p
new_listener_discovery_service p xds_config funcs = record {
  opt = init_lds_opt (apply_all funcs (record { stat_prefix = [] }));
  xds_config = xds_config;
  version = 0;
}
