-- ===== src/Refs/AgreementTests.antt =====
-- Tests of a reload, and of a change of two files, with a snapshot library that does what it
-- documents.
use example_envoy_xds.Base.{List, [], ◌∷◌, codes, text_eq, ok, ◌≡◌, refl, ◌↔◌, inl, apply_all}
use example_envoy_xds.Samples.{sample_files, sample_lds}
use example_envoy_xds.Samples.Reload.{configs}
use example_envoy_xds.Rds
use example_envoy_xds.Rds.{RouteConfiguration, route_configuration}
use example_envoy_xds.Lds.{
  TypedFilter, packed_filters, http_connection_manager, conn_http_filters, listener_filters,
  route_specifier, listener,
}
use example_envoy_xds.Resource.{update_cluster, update_endpoint, update_route, update_listener}
use example_envoy_xds.Refs.TwoFiles.{HasRoutes, IsPublished, two_files-IsPublished}
use example_envoy_xds.Refs.Same.{Same, spelled}
use example_envoy_xds.Refs.Agreement.{reload_all-NamesAgree}
use example_envoy_xds.Watch.World.{Reads}
use example_envoy_xds.Watch.Load.{
  load_cds, load_eds, load_rds, load_lds, load_yaml, validate_all, unless_refused,
  watch_cds_config_file, watch_eds_config_file, watch_rds_config_file, watch_lds_config_file,
}
use example_envoy_xds.Watch.{State, new_watch_file, reload_all}
use example_envoy_xds.Watch.Steps.{load_all, four_after, perform, change_cds, change_eds}
use example_envoy_xds.Samples.Documented.{named_proto, named_env, routes_of, named-Documented}

abbrev named_state : State named_env
named_state = new_watch_file named_proto named_env.api.Snapshot (codes "node") sample_files

abbrev named_reads : Reads named_proto
named_reads = record {
  cds = λ path. ok path;
  eds = λ path. ok path;
  rds = λ path. ok path;
  lds = λ path. ok path;
}

named_reads-load_all : load_all named_env named_reads named_state.opt ≡ ok configs
unfolding load_cds load_eds load_rds load_lds load_yaml validate_all unless_refused new_watch_file
    apply_all watch_cds_config_file watch_eds_config_file watch_rds_config_file
    watch_lds_config_file text_eq
named_reads-load_all = refl

abbrev named_filters : List (TypedFilter named_proto)
named_filters =
    (record {
      name = codes "manager";
      typed_config = (route_specifier named_state.lds).route_config_name ∷ [];
    })
    ∷ []

named-packed_filters :
    packed_filters named_env.marshal_any named_state.lds sample_lds ≡ ok named_filters
unfolding packed_filters http_connection_manager conn_http_filters listener_filters
named-packed_filters = refl

reload_all-NamesAgree_example :
    ((reload_all named_env named_reads named_state).1 ≡ ok tt)
    ↔ Same (spelled (codes "user-api" ∷ [])) (spelled (codes "user-api" ∷ []))
reload_all-NamesAgree_example =
    reload_all-NamesAgree named_env (λ m. m) routes_of named-Documented named_state configs
      named_filters named-packed_filters named_reads named_reads-load_all

abbrev routed_state : State named_env
routed_state = four_after named_env configs named_filters named_state

routed_state-HasRoutes :
    HasRoutes named_env (λ m. m) routes_of named-Documented routed_state.resource
unfolding update_cluster update_endpoint update_route update_listener listener route_configuration
    route_specifier
routed_state-HasRoutes = (
  route_configuration (Rds.incre_version named_state.rds) configs.rds,
  listener named_filters configs.lds.listen,
  refl,
  refl,
  ((inl refl, tt), (inl refl, tt)),
)

routed-cds : load_cds named_env named_reads.cds routed_state.opt ≡ ok configs.cds
unfolding load_cds load_yaml validate_all unless_refused new_watch_file apply_all
    watch_cds_config_file watch_eds_config_file watch_rds_config_file watch_lds_config_file text_eq
routed-cds = refl

routed-eds : load_eds named_env named_reads.eds routed_state.opt ≡ ok configs.eds
unfolding load_eds load_yaml validate_all unless_refused new_watch_file apply_all
    watch_cds_config_file watch_eds_config_file watch_rds_config_file watch_lds_config_file text_eq
routed-eds = refl

two_files-IsPublished_example :
    IsPublished named_env routed_state configs.cds configs.eds
      (perform named_env (change_cds named_reads.cds) routed_state).0
      (perform named_env
        (change_eds named_reads.eds)
        (perform named_env (change_cds named_reads.cds) routed_state).0)
    × IsPublished named_env routed_state configs.cds configs.eds
        (perform named_env (change_eds named_reads.eds) routed_state).0
        (perform named_env
          (change_cds named_reads.cds)
          (perform named_env (change_eds named_reads.eds) routed_state).0)
two_files-IsPublished_example =
    two_files-IsPublished named_env (λ m. m) routes_of named-Documented routed_state configs.cds
      configs.eds ((inl refl, tt), (inl refl, tt)) routed_state-HasRoutes named_reads.cds
      named_reads.eds routed-cds routed-eds
