-- ===== src/Samples/Reload.antt =====
-- A reload of the sample files that succeeds.
use example_envoy_xds.Base.{List, [], ◌∷◌, codes, none, ok, ◌≡◌, refl, apply_all, text_eq}
use example_envoy_xds.Samples.{
  sample_proto, sample_env, sample_reads, sample_state, sample_cds, sample_eds, sample_rds,
  sample_lds,
}
use example_envoy_xds.Cds
use example_envoy_xds.Eds
use example_envoy_xds.Lds.{
  TypedFilter, packed_filters, http_connection_manager, conn_http_filters, listener_filters,
}
use example_envoy_xds.Resource.{
  resource_map, version, update_cluster, update_endpoint, update_route, update_listener,
}
use example_envoy_xds.Watch.Load.{
  load_cds, load_eds, load_rds, load_lds, load_yaml, validate_all, unless_refused,
  watch_cds_config_file, watch_eds_config_file, watch_rds_config_file, watch_lds_config_file,
}
use example_envoy_xds.Watch.{State, new_watch_file}
use example_envoy_xds.Watch.Steps.{Configs, four_after, load_all}
use example_envoy_xds.Watch.Reload.{reload_all-ok}
use example_envoy_xds.Watch.{reload_all}

abbrev pub configs : Configs
configs = record {
  cds = sample_cds ∷ [];
  eds = sample_eds ∷ [];
  rds = sample_rds ∷ [];
  lds = sample_lds;
}

pub sample_reads-load_all : load_all sample_env sample_reads sample_state.opt ≡ ok configs
unfolding load_cds load_eds load_rds load_lds load_yaml validate_all unless_refused new_watch_file
    apply_all watch_cds_config_file watch_eds_config_file watch_rds_config_file
    watch_lds_config_file text_eq
sample_reads-load_all = refl

abbrev pub filters : List (TypedFilter sample_proto)
filters = (record { name = codes "manager"; typed_config = 7 }) ∷ []

pub sample-packed_filters :
    packed_filters sample_env.marshal_any sample_state.lds sample_lds ≡ ok filters
unfolding packed_filters http_connection_manager conn_http_filters listener_filters
sample-packed_filters = refl

abbrev pub reloaded : State sample_env
reloaded = four_after sample_env configs filters sample_state

pub reloaded-consistent : sample_env.api.consistent (resource_map reloaded.resource) ≡ none
unfolding resource_map update_cluster update_endpoint update_route update_listener new_watch_file
    Cds.clusters Eds.eds_endpoints
reloaded-consistent = refl

-- the object after the reload
abbrev pub reloaded_state : State sample_env
reloaded_state = record reloaded {
  published =
      (record {
        node_id = sample_state.node_id;
        version = version reloaded.resource;
        snapshot = resource_map reloaded.resource;
      })
      ∷ sample_state.published;
}

pub sample_reload : reload_all sample_env sample_reads sample_state ≡ (reloaded_state, ok tt)
sample_reload =
    reload_all-ok sample_env sample_reads sample_state configs filters
      (resource_map reloaded.resource) sample_reads-load_all sample-packed_filters refl
      reloaded-consistent
