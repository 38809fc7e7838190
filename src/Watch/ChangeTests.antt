-- ===== src/Watch/ChangeTests.antt =====
-- Tests of the operations that succeed and of those that fail.
use example_envoy_xds.Base.{none, [], ◌∷◌, ok, err, codes, ◌≡◌, refl, apply_all, text_eq}
use example_envoy_xds.Samples.{
  sample_env, broken_reads, sample_state, sample_reads, sample_cds, sample_eds, sample_rds,
  sample_lds,
}
use example_envoy_xds.Samples.Reload.{filters, reloaded_state}
use example_envoy_xds.Cds
use example_envoy_xds.Eds
use example_envoy_xds.Lds.{
  packed_filters, http_connection_manager, conn_http_filters, listener_filters,
}
use example_envoy_xds.Resource.{
  resource_map, update_cluster, update_endpoint, update_route, update_listener,
}
use example_envoy_xds.Watch.Load.{
  load_cds, load_eds, load_rds, load_lds, load_yaml, validate_all, unless_refused,
  watch_cds_config_file, watch_eds_config_file, watch_rds_config_file, watch_lds_config_file,
}
use example_envoy_xds.Watch.{
  State, new_watch_file, change_cds_yaml, change_eds_yaml, change_rds_yaml, change_lds_yaml,
  equal_path, abs_or_self,
}
use example_envoy_xds.Watch.Loop.{Event, event, done, watch_file_loop}
use example_envoy_xds.Watch.Schedule.{event_commands}
use example_envoy_xds.Watch.Noticed.{event-published}
use example_envoy_xds.Watch.Branches.{IsDescribed, perform-IsDescribed}
use example_envoy_xds.Watch.Operations.{Ready, Failed, perform-ok, perform-err}
use example_envoy_xds.Watch.Steps.{change_cds}
use example_envoy_xds.Watch.Steps.{
  perform, change_lds, change_eds, cds_after, eds_after, rds_after, lds_after,
}
use example_envoy_xds.Watch.Outcome.{published_after, IsSnapshot}
use example_envoy_xds.Watch.Change.{
  change_cds_yaml-ok, change_eds_yaml-ok, change_rds_yaml-ok, change_lds_yaml-ok,
}

abbrev cds_changed : State sample_env
cds_changed = cds_after sample_env (sample_cds ∷ []) reloaded_state

cds-loaded : load_cds sample_env sample_reads.cds reloaded_state.opt ≡ ok (sample_cds ∷ [])
unfolding load_cds load_yaml validate_all unless_refused new_watch_file apply_all
    watch_cds_config_file watch_eds_config_file watch_rds_config_file watch_lds_config_file text_eq
cds-loaded = refl

cds_changed-IsSnapshot : IsSnapshot sample_env (resource_map cds_changed.resource) cds_changed
unfolding resource_map update_cluster update_endpoint update_route update_listener new_watch_file
    Cds.clusters Eds.eds_endpoints
cds_changed-IsSnapshot = (refl, refl)

cds_changed-published :
    change_cds_yaml sample_env sample_reads.cds reloaded_state
    ≡ (published_after sample_env (resource_map cds_changed.resource) cds_changed, ok tt)
cds_changed-published =
    change_cds_yaml-ok sample_env sample_reads.cds reloaded_state (sample_cds ∷ [])
      (resource_map cds_changed.resource) cds-loaded cds_changed-IsSnapshot

abbrev eds_changed : State sample_env
eds_changed = eds_after sample_env (sample_eds ∷ []) reloaded_state

eds-loaded : load_eds sample_env sample_reads.eds reloaded_state.opt ≡ ok (sample_eds ∷ [])
unfolding load_eds load_yaml validate_all unless_refused new_watch_file apply_all
    watch_cds_config_file watch_eds_config_file watch_rds_config_file watch_lds_config_file text_eq
eds-loaded = refl

eds_changed-IsSnapshot : IsSnapshot sample_env (resource_map eds_changed.resource) eds_changed
unfolding resource_map update_cluster update_endpoint update_route update_listener new_watch_file
    Cds.clusters Eds.eds_endpoints
eds_changed-IsSnapshot = (refl, refl)

eds_changed-published :
    change_eds_yaml sample_env sample_reads.eds reloaded_state
    ≡ (published_after sample_env (resource_map eds_changed.resource) eds_changed, ok tt)
eds_changed-published =
    change_eds_yaml-ok sample_env sample_reads.eds reloaded_state (sample_eds ∷ [])
      (resource_map eds_changed.resource) eds-loaded eds_changed-IsSnapshot

abbrev rds_changed : State sample_env
rds_changed = rds_after sample_env (sample_rds ∷ []) reloaded_state

rds-loaded : load_rds sample_env sample_reads.rds reloaded_state.opt ≡ ok (sample_rds ∷ [])
unfolding load_rds load_yaml validate_all unless_refused new_watch_file apply_all
    watch_cds_config_file watch_eds_config_file watch_rds_config_file watch_lds_config_file text_eq
rds-loaded = refl

rds_changed-IsSnapshot : IsSnapshot sample_env (resource_map rds_changed.resource) rds_changed
unfolding resource_map update_cluster update_endpoint update_route update_listener new_watch_file
    Cds.clusters Eds.eds_endpoints
rds_changed-IsSnapshot = (refl, refl)

rds_changed-published :
    change_rds_yaml sample_env sample_reads.rds reloaded_state
    ≡ (published_after sample_env (resource_map rds_changed.resource) rds_changed, ok tt)
rds_changed-published =
    change_rds_yaml-ok sample_env sample_reads.rds reloaded_state (sample_rds ∷ [])
      (resource_map rds_changed.resource) rds-loaded rds_changed-IsSnapshot

abbrev lds_changed : State sample_env
lds_changed = lds_after sample_env sample_lds filters reloaded_state

lds-loaded : load_lds sample_env sample_reads.lds reloaded_state.opt ≡ ok sample_lds
unfolding load_lds load_yaml validate_all unless_refused new_watch_file apply_all
    watch_cds_config_file watch_eds_config_file watch_rds_config_file watch_lds_config_file text_eq
lds-loaded = refl

lds_changed-IsSnapshot : IsSnapshot sample_env (resource_map lds_changed.resource) lds_changed
unfolding resource_map update_cluster update_endpoint update_route update_listener new_watch_file
    Cds.clusters Eds.eds_endpoints
lds_changed-IsSnapshot = (refl, refl)

reloaded-packed_filters :
    packed_filters sample_env.marshal_any reloaded_state.lds sample_lds ≡ ok filters
unfolding packed_filters http_connection_manager conn_http_filters listener_filters
reloaded-packed_filters = refl

lds_changed-published :
    change_lds_yaml sample_env sample_reads.lds reloaded_state
    ≡ (published_after sample_env (resource_map lds_changed.resource) lds_changed, ok tt)
lds_changed-published =
    change_lds_yaml-ok sample_env sample_reads.lds reloaded_state sample_lds filters
      (resource_map lds_changed.resource) lds-loaded reloaded-packed_filters lds_changed-IsSnapshot

lds_changed-performed :
    perform sample_env (change_lds sample_reads.lds) reloaded_state
    ≡ (published_after sample_env (resource_map lds_changed.resource) lds_changed, ok tt)
lds_changed-performed =
    perform-ok sample_env reloaded_state (change_lds sample_reads.lds) lds_changed
      (resource_map lds_changed.resource)
      (Ready.lds sample_reads.lds sample_lds filters lds-loaded reloaded-packed_filters)
      lds_changed-IsSnapshot

eds-missing : load_eds sample_env broken_reads.eds sample_state.opt ≡ err (codes "no file")
unfolding load_eds load_yaml validate_all unless_refused new_watch_file apply_all
    watch_cds_config_file watch_eds_config_file watch_rds_config_file watch_lds_config_file text_eq
eds-missing = refl

eds_missing-performed :
    perform sample_env (change_eds broken_reads.eds) sample_state
    ≡ (sample_state, err (codes "no file"))
eds_missing-performed =
    perform-err sample_env sample_state (change_eds broken_reads.eds) sample_state (codes "no file")
      (Failed.load_eds_err broken_reads.eds (codes "no file") eds-missing)

abbrev cds_event : Event
cds_event = record { name = codes "cds"; op = 2 }

cds_event-commands :
    event_commands sample_env reloaded_state.opt cds_event sample_reads
    ≡ change_cds sample_reads.cds ∷ []
unfolding equal_path abs_or_self new_watch_file apply_all watch_cds_config_file
    watch_eds_config_file watch_rds_config_file watch_lds_config_file text_eq
cds_event-commands = refl

event-published_example :
    watch_file_loop sample_env (event cds_event sample_reads none ∷ done ∷ []) reloaded_state
    ≡ watch_file_loop sample_env
        (done ∷ [])
        (published_after sample_env (resource_map cds_changed.resource) cds_changed)
event-published_example =
    event-published sample_env reloaded_state cds_changed cds_event sample_reads (done ∷ [])
      (change_cds sample_reads.cds) (resource_map cds_changed.resource) cds_event-commands
      (Ready.cds sample_reads.cds (sample_cds ∷ []) cds-loaded) cds_changed-IsSnapshot

perform-IsDescribed_example : IsDescribed sample_env sample_state (change_eds broken_reads.eds)
perform-IsDescribed_example =
    perform-IsDescribed sample_env sample_state (change_eds broken_reads.eds)
