-- ===== src/Server.antt =====
-- server.go, its options, and cli/server/server.go: how the program starts, and what its signals
-- do. The gRPC servers, and what their goroutines do, are in Serve.
pub mod Files
pub mod Start
pub mod Serve
pub mod Lifecycle
mod Tests
mod ServeTests
use example_envoy_xds.Base.{
  ℕ, List, [], ◌∷◌, Text, codes, text_eq, Option, if◌then◌else◌, ltb, length, Result, ok, err,
  ◌>>=◌, apply_all,
}
use example_envoy_xds.Xds.{Proto}
use example_envoy_xds.Watch.World.{Env, Reads}
use example_envoy_xds.Watch.Load.{
  WatchOpt, watch_cds_config_file, watch_eds_config_file, watch_rds_config_file,
  watch_lds_config_file,
}
use example_envoy_xds.Watch.Loop.{Status, running, stopped, watch}
use example_envoy_xds.Watch.{State, reload_all, new_watch_file}

pub record ServerOpt : Type 0 where
  pub xds_listen_addr : Text
  pub als_listen_addr : Text
  pub max_concurrent_streams : ℕ

abbrev pub ServerOptFunc : Type 0
ServerOptFunc = ServerOpt → ServerOpt

unfoldable pub xds_listen_addr : Text → ServerOptFunc
xds_listen_addr addr opt = record opt { xds_listen_addr = addr }

unfoldable pub als_listen_addr : Text → ServerOptFunc
als_listen_addr addr opt = record opt { als_listen_addr = addr }

unfoldable pub max_concurrent_streams : ℕ → ServerOptFunc
max_concurrent_streams n opt = record opt { max_concurrent_streams = n }

abbrev default_xds_listen_addr : Text
default_xds_listen_addr = codes "[0.0.0.0]:8000"

abbrev default_als_listen_addr : Text
default_als_listen_addr = codes "[0.0.0.0]:8001"

abbrev default_grpc_concurrent_streams : ℕ
default_grpc_concurrent_streams = 1000000

-- each `if` writes one field
unfoldable pub init_opt : ServerOpt → ServerOpt
init_opt opt = record {
  xds_listen_addr =
      if ltb (length opt.xds_listen_addr) 1 then default_xds_listen_addr else opt.xds_listen_addr;
  als_listen_addr =
      if ltb (length opt.als_listen_addr) 1 then default_als_listen_addr else opt.als_listen_addr;
  max_concurrent_streams =
      if ltb opt.max_concurrent_streams 1
      then default_grpc_concurrent_streams
      else opt.max_concurrent_streams;
}

-- the options of `NewServer`
unfoldable pub new_server_opt : List ServerOptFunc → ServerOpt
new_server_opt funcs = init_opt (
    apply_all funcs
      (record { xds_listen_addr = []; als_listen_addr = []; max_concurrent_streams = 0 }))

-- what `serverAction` asks the command line for
pub record Flags : Type 0 where
  pub node_id : Text
  pub xds_listen_addr : Text
  pub als_listen_addr : Text
  pub cds_yaml : Text
  pub eds_yaml : Text
  pub rds_yaml : Text
  pub lds_yaml : Text

-- `os.Hostname` is asked only if no node is named
unfoldable pub node_id_or_hostname : {E : Type 0} → Result E Text → Text → Result E Text
node_id_or_hostname hostname node_id = if text_eq node_id [] then hostname else ok node_id

pub data Signal : Type 0 where
  hup quit term int : Signal

module _ {p : Proto} (env : Env p) where
  pub record Started : Type 0 where
    pub wf : State env
    pub server_opt : ServerOpt

  -- `if err := wf.Watch(ctx); err != nil { return err }`
  unfoldable pub unless_unwatched :
      Result p.Error (Unit {0}) → State env → Result p.Error (State env)
  unless_unwatched (ok done) wf = ok wf
  unless_unwatched (err e) wf = err e

  -- `if err := wf.ReloadAll(); err != nil { return err }`, then the watch
  unfoldable pub unless_unloaded :
      Option p.Error
      → (Text → Option p.Error)
      → State env × Result p.Error (Unit {0})
      → Result p.Error (State env)
  unfolding unless_unwatched
  unless_unloaded watcher add (wf, ok done) = unless_unwatched (watch watcher add wf.opt) wf
  unless_unloaded watcher add (wf, err e) = err e

  unfoldable pub load_and_watch :
      Reads p → Option p.Error → (Text → Option p.Error) → State env → Result p.Error (State env)
  unfolding unless_unloaded
  load_and_watch reads watcher add wf = unless_unloaded watcher add (reload_all env reads wf)

  -- `serverAction` up to where it starts its goroutines
  unfoldable pub server_action :
      Result p.Error Text
      → Flags
      → Reads p
      → Option p.Error
      → (Text → Option p.Error)
      → Result p.Error Started
  unfolding load_and_watch
  server_action hostname flags reads watcher add = do
    node_id ← node_id_or_hostname hostname flags.node_id
    wf ← load_and_watch reads watcher add (
        new_watch_file p env.api.Snapshot node_id (
          watch_cds_config_file flags.cds_yaml
          ∷ watch_eds_config_file flags.eds_yaml
          ∷ watch_rds_config_file flags.rds_yaml
          ∷ watch_lds_config_file flags.lds_yaml
          ∷ []))
    ok (record {
      wf = wf;
      server_opt =
          new_server_opt
            (xds_listen_addr flags.xds_listen_addr ∷ als_listen_addr flags.als_listen_addr ∷ []);
    })

  -- `watchSignal`: the signals that are trapped, each with the files as a reload reads them
  unfoldable pub watch_signal : List (Signal × Reads p) → State env → State env × Status
  watch_signal [] w = (w, running)
  watch_signal ((hup, reads) ∷ rest) w = watch_signal rest (reload_all env reads w).0
  watch_signal ((quit, reads) ∷ rest) w = (w, stopped)
  watch_signal ((term, reads) ∷ rest) w = (w, stopped)
  watch_signal ((int, reads) ∷ rest) w = (w, stopped)
