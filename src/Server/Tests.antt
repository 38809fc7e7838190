-- ===== src/Server/Tests.antt =====
-- Tests of the start and of the signals.
use example_envoy_xds.Base.{[], ◌∷◌, List, Text, codes, text_eq, none, ok, ◌≡◌, refl}
use example_envoy_xds.Samples.{sample_proto, sample_env, sample_reads, sample_state}
use example_envoy_xds.Watch.World.{Reads}
use example_envoy_xds.Watch.Steps.{run}
use example_envoy_xds.Samples.Reload.{reloaded_state, sample_reload}
use example_envoy_xds.Watch.Loop.{watch, add_paths}
use example_envoy_xds.Server.{
  load_and_watch, unless_unloaded, unless_unwatched, new_server_opt, xds_listen_addr,
  als_listen_addr, Flags, Started, Signal, hup, term, server_action, watch_signal,
  node_id_or_hostname,
}
use example_envoy_xds.Server.Start.{
  IsReadyFor, IsLoadedFrom, reloads, server_action-IsReadyFor, watch_signal-run,
}

abbrev pub flags : Flags
flags = record {
  node_id = [];
  xds_listen_addr = [];
  als_listen_addr = [];
  cds_yaml = codes "cds";
  eds_yaml = codes "eds";
  rds_yaml = codes "rds";
  lds_yaml = codes "lds";
}

abbrev signals : List (Signal × Reads sample_proto)
signals = (hup, sample_reads) ∷ (term, sample_reads) ∷ (hup, sample_reads) ∷ []

signals-reloads :
    (watch_signal sample_env signals sample_state).0
    ≡ run sample_env (reloads sample_env signals) sample_state
signals-reloads = watch_signal-run sample_env signals sample_state

abbrev pub started : Started sample_env
started = record {
  wf = reloaded_state;
  server_opt = new_server_opt (xds_listen_addr [] ∷ als_listen_addr [] ∷ []);
}

watched :
    load_and_watch sample_env sample_reads none (λ path. none) sample_state ≡ ok reloaded_state
unfolding load_and_watch unless_unloaded unless_unwatched watch add_paths
watched = rw sample_reload refl

pub server_action-started :
    server_action sample_env (ok (codes "node")) flags sample_reads none (λ path. none) ≡ ok started
unfolding server_action node_id_or_hostname text_eq
server_action-started = rw watched refl

server_action-IsReadyFor_example :
    (node : Text) × (node_id_or_hostname {E = Text} (ok (codes "node")) [] ≡ ok node)
    × IsReadyFor sample_env node reloaded_state
    × IsLoadedFrom sample_env flags sample_reads reloaded_state
server_action-IsReadyFor_example =
    server_action-IsReadyFor sample_env (ok (codes "node")) flags sample_reads none (λ path. none)
      started server_action-started
