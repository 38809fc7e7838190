-- ===== src/Cli.antt =====
-- cmd/main.go, cli/server/cli.go and the command of cli/server/server.go: the command line. The
-- library that parses it is a parameter, by what a context answers for the name of a flag and by
-- what `Run` of an application returns; so are the levels of the logging library.
pub mod Declared
mod Tests
use example_envoy_xds.Base.{
  List, [], ◌∷◌, ◌++◌, Text, codes, Bool, Option, none, some, if◌then◌else◌,
}
use example_envoy_xds.Lds.{app_name, app_version}
use example_envoy_xds.Server.{Flags}

-- `UA` of version.go
abbrev pub ua : Text
ua = app_name ++ codes "/" ++ app_version

pub data Flag : Type 0 where
  string_flag : (name usage value env_var : Text) → Flag
  bool_flag : (name usage env_var : Text) → Flag

-- the action of a command is `serverAction` itself
pub record Command : Type 0 where
  pub name : Text
  pub flags : List Flag

unfoldable pub server_command : Command
server_command = record {
  name = codes "server";
  flags =
      string_flag (codes "node-id")
        (codes "envoy node-id(must be the value specified in node.id in enovy.yaml)") []
        (codes "XDS_NODE_ID")
      ∷ string_flag (codes "xds-listen-addr") (codes "grpc xds listen address")
          (codes "[0.0.0.0]:8000") (codes "XDS_LISTEN_ADDR")
      ∷ string_flag (codes "als-listen-addr") (codes "grpc als listen address")
          (codes "[0.0.0.0]:8001") (codes "ALS_LISTEN_ADDR")
      ∷ string_flag (codes "cds-yaml") (codes "/path/to/cds.yaml") (codes "./cds.yaml")
          (codes "CDS_YAML")
      ∷ string_flag (codes "eds-yaml") (codes "/path/to/eds.yaml") (codes "./eds.yaml")
          (codes "EDS_YAML")
      ∷ string_flag (codes "rds-yaml") (codes "/path/to/rds.yaml") (codes "./rds.yaml")
          (codes "RDS_YAML")
      ∷ string_flag (codes "lds-yaml") (codes "/path/to/lds.yaml") (codes "./lds.yaml")
          (codes "LDS_YAML")
      ∷ [];
}

-- `addCommand`: the variable `commands` after it
unfoldable pub add_command : Command → List Command → List Command
add_command command commands = commands ++ (command ∷ [])

-- `Commands`, after the `init` of the package
unfoldable pub commands : List Command
unfolding add_command server_command
commands = add_command server_command []

-- what `serverAction` asks a context for, by `c.String`
unfoldable pub flags_of : (Text → Text) → Flags
flags_of c_string = record {
  node_id = c_string (codes "node-id");
  xds_listen_addr = c_string (codes "xds-listen-addr");
  als_listen_addr = c_string (codes "als-listen-addr");
  cds_yaml = c_string (codes "cds-yaml");
  eds_yaml = c_string (codes "eds-yaml");
  rds_yaml = c_string (codes "rds-yaml");
  lds_yaml = c_string (codes "lds-yaml");
}

-- the levels of the logging library
pub record Colog : Type 1 where
  pub Level : Type 0
  pub l_trace : Level
  pub l_debug : Level
  pub l_info : Level

-- what the program sets of it
pub record LogLevels (colog : Colog) : Type 0 where
  pub default_level : colog.Level
  pub min_level : colog.Level

module _ {colog : Colog} where
  -- `initLogLevel`, by what `c.GlobalBool` answers
  unfoldable pub init_log_level : (Text → Bool) → LogLevels colog → LogLevels colog
  init_log_level global_bool levels =
      let debug = record levels { min_level = colog.l_debug } in
      if global_bool (codes "debug")
      then (if global_bool (codes "verbose")
          then record debug { min_level = colog.l_trace }
          else debug)
      else levels

  -- the levels that `main` sets first
  unfoldable pub main_levels : LogLevels colog
  main_levels = record { default_level = colog.l_debug; min_level = colog.l_info }

pub record App : Type 0 where
  pub version : Text
  pub name : Text
  pub usage : Text
  pub commands : List Command
  pub flags : List Flag

unfoldable pub app : App
unfolding commands
app = record {
  version = app_version;
  name = app_name;
  usage = [];
  commands = commands;
  flags =
      bool_flag (codes "debug, d") (codes "debug mode") (codes "XDS_DEBUG")
      ∷ bool_flag (codes "verbose, V") (codes "verbose. more message") (codes "XDS_VERBOSE")
      ∷ [];
}

-- how the process ends: `log.Fatalf` prints and exits with 1
pub data Exit : Type 0 where
  success : Exit
  fatal : Text → Exit

unfoldable pub exit_of : {E : Type 0} → (E → Text) → Option E → Exit
exit_of error_text none = success
exit_of error_text (some e) = fatal (codes "error: " ++ error_text e)

-- `main`, by what `Run` makes of the levels and returns, and by how `%+v` prints an error
unfoldable pub main :
    {E : Type 0} {colog : Colog}
    → (App → LogLevels colog → LogLevels colog × Option E)
    → (E → Text)
    → LogLevels colog × Exit
unfolding app exit_of main_levels
main run error_text = let (levels, e) = run app main_levels in (levels, exit_of error_text e)
