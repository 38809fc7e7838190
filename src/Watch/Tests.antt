-- ===== src/Watch/Tests.antt =====
-- Tests of watch.go.
use example_envoy_xds.Base.{
  List, [], ◌∷◌, codes, none, ok, err, ◌≡◌, refl, All, Distinct, map, arith, apply_all, text_eq,
  ◌⊎◌, ◌↔◌,
}
use example_envoy_xds.Samples.{
  sample_proto, sample_env, unpacked_env, sample_reads, broken_reads, sample_files, sample_state,
  unpacked_state, sample_lds,
}
use example_envoy_xds.Samples.Reload.{
  configs, filters, reloaded, sample_reads-load_all, sample-packed_filters, reloaded-consistent,
}
use example_envoy_xds.Decimal.{format_uint, emit, digits}
use example_envoy_xds.Cds
use example_envoy_xds.Eds
use example_envoy_xds.Rds
use example_envoy_xds.Lds
use example_envoy_xds.Lds.{
  TypedFilter, packed_filters, http_connection_manager, conn_http_filters, listener_filters,
}
use example_envoy_xds.Resource.{resource_map, version, new_resource}
use example_envoy_xds.Watch.Load.{
  load_cds, load_eds, load_rds, load_lds, load_yaml, validate_all, unless_refused,
  watch_cds_config_file, watch_eds_config_file, watch_rds_config_file, watch_lds_config_file,
}
use example_envoy_xds.Watch.Loads.{IsLoadedCds, IsLoadedEds, IsLoadedRds, IsLoadedLds, loads_iff}
use example_envoy_xds.Watch.{new_watch_file}
use example_envoy_xds.Watch.Loop.{Input, event, done, watch_file_loop, running, stopped}
use example_envoy_xds.Watch.LoopEnd.{IsOngoing, watch_file_loop-running}
use example_envoy_xds.Watch.Steps.{Command, change_cds, reload, perform, run, three_after, load_all}
use example_envoy_xds.Watch.Outcome.{Outcome, perform-Outcome}
use example_envoy_xds.Watch.Versions.{Matches, perform-Matches}
use example_envoy_xds.Watch.Fresh.{run-Distinct}
use example_envoy_xds.Watch.Reload.{reload_all-load_err, reload_all-pack_err, reload_all-ok}
use example_envoy_xds.Watch.Isolation.{Untouched, perform-Untouched}
use example_envoy_xds.Watch.Schedule.{commands, watch_file_loop-run}
use example_envoy_xds.Watch.Serving.{IsServed, run-IsServed}
use example_envoy_xds.Watch.{reload_all}

-- a good reload, an endpoint file that cannot be read, a change of the cluster file
abbrev history : List (Command sample_proto)
history = reload sample_reads ∷ reload broken_reads ∷ change_cds sample_reads.cds ∷ []

abbrev inputs : List (Input sample_proto)
inputs =
    event (record { name = codes "cds"; op = 2 }) sample_reads none
    ∷ event (record { name = codes "eds"; op = 16 }) sample_reads none
    ∷ event (record { name = codes "lds"; op = 2 }) sample_reads none
    ∷ done
    ∷ event (record { name = codes "rds"; op = 2 }) sample_reads none
    ∷ []

perform-Outcome_example :
    Outcome sample_env sample_state (perform sample_env (reload sample_reads) sample_state)
perform-Outcome_example = perform-Outcome sample_env (reload sample_reads) sample_state

watch_file_loop-run_example :
    (watch_file_loop sample_env inputs sample_state).0
    ≡ run sample_env (commands sample_env sample_state.opt inputs) sample_state
watch_file_loop-run_example = watch_file_loop-run sample_env inputs sample_state

run-Distinct_example :
    Distinct (map (λ q. q.version) (run sample_env history sample_state).published)
run-Distinct_example = run-Distinct sample_env (codes "node") sample_files history (omega arith)

history-IsServed :
    All (IsServed sample_env (codes "node")) (run sample_env history sample_state).published
history-IsServed = run-IsServed sample_env (codes "node") sample_files history

perform-Untouched_example :
    Untouched sample_env
      (change_cds sample_reads.cds)
      sample_state
      (perform sample_env (change_cds sample_reads.cds) sample_state).0
perform-Untouched_example = perform-Untouched sample_env (change_cds sample_reads.cds) sample_state

sample_state-Matches : Matches sample_env sample_state
unfolding new_watch_file new_resource Cds.new_cluster_discovery_service
    Eds.new_endpoint_discovery_service Rds.new_route_discovery_service
    Lds.new_listener_discovery_service format_uint emit digits
sample_state-Matches = record { eds = refl; cds = refl; rds = refl; lds = refl }

perform-Matches_example :
    Matches sample_env (perform sample_env (reload broken_reads) sample_state).0
perform-Matches_example =
    perform-Matches sample_env (reload broken_reads) sample_state sample_state-Matches

broken_reads-load_all : load_all sample_env broken_reads sample_state.opt ≡ err (codes "no file")
unfolding load_cds load_eds load_yaml validate_all unless_refused new_watch_file apply_all
    watch_cds_config_file watch_eds_config_file watch_rds_config_file watch_lds_config_file text_eq
broken_reads-load_all = refl

broken_reads-changes_nothing :
    reload_all sample_env broken_reads sample_state ≡ (sample_state, err (codes "no file"))
broken_reads-changes_nothing =
    reload_all-load_err sample_env broken_reads sample_state broken_reads-load_all

unpacked-load_all : load_all unpacked_env sample_reads unpacked_state.opt ≡ ok configs
unfolding load_cds load_eds load_rds load_lds load_yaml validate_all unless_refused new_watch_file
    apply_all watch_cds_config_file watch_eds_config_file watch_rds_config_file
    watch_lds_config_file text_eq
unpacked-load_all = refl

unpacked-packed_filters :
    packed_filters unpacked_env.marshal_any unpacked_state.lds sample_lds ≡ err (codes "no packing")
unfolding packed_filters
unpacked-packed_filters = refl

unpacked-keeps_three : reload_all unpacked_env sample_reads unpacked_state ≡ (
  three_after unpacked_env configs.cds configs.eds configs.rds unpacked_state,
  err (codes "no packing"),
)
unpacked-keeps_three =
    reload_all-pack_err unpacked_env sample_reads unpacked_state configs unpacked-load_all
      unpacked-packed_filters

sample_reads-published : reload_all sample_env sample_reads sample_state ≡ (
  record reloaded {
    published =
        (record {
          node_id = sample_state.node_id;
          version = version reloaded.resource;
          snapshot = resource_map reloaded.resource;
        })
        ∷ sample_state.published;
  },
  ok tt,
)
sample_reads-published =
    reload_all-ok sample_env sample_reads sample_state configs filters
      (resource_map reloaded.resource) sample_reads-load_all sample-packed_filters refl
      reloaded-consistent

watch_file_loop-running_example :
    (All IsOngoing inputs × ((watch_file_loop sample_env inputs sample_state).1 ≡ running))
    ⊎ ((¬ All IsOngoing inputs) × ((watch_file_loop sample_env inputs sample_state).1 ≡ stopped))
watch_file_loop-running_example = watch_file_loop-running sample_env inputs sample_state

loads_iff_example :
    ((load_cds sample_env sample_reads.cds sample_state.opt ≡ ok configs.cds)
      ↔ IsLoadedCds sample_env sample_reads sample_state.opt configs.cds)
    × ((load_eds sample_env sample_reads.eds sample_state.opt ≡ ok configs.eds)
        ↔ IsLoadedEds sample_env sample_reads sample_state.opt configs.eds)
    × ((load_rds sample_env sample_reads.rds sample_state.opt ≡ ok configs.rds)
        ↔ IsLoadedRds sample_env sample_reads sample_state.opt configs.rds)
    × ((load_lds sample_env sample_reads.lds sample_state.opt ≡ ok configs.lds)
        ↔ IsLoadedLds sample_env sample_reads sample_state.opt configs.lds)
loads_iff_example =
    loads_iff sample_env sample_reads sample_state.opt configs.cds configs.eds configs.rds
      configs.lds
