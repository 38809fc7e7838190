-- ===== src/Cli/Tests.antt =====
-- Tests of the command line.
use example_envoy_xds.Base.{[], ◌∷◌, Text, codes, apply_all, text_eq, some, map, ◌≡◌, refl}
use example_envoy_xds.Server.{new_server_opt, init_opt}
use example_envoy_xds.Cli.{
  Flag, string_flag, bool_flag, Colog, init_log_level, main_levels, server_command, add_command,
  commands, app, flags_of, main, exit_of, fatal,
}
use example_envoy_xds.Cli.Declared.{asked, flag_name, flags_of-declared}

declared_flags :
    asked (flags_of (λ name. name)) ≡ map (λ name. name) (map flag_name server_command.flags)
declared_flags = flags_of-declared (λ name. name)

abbrev colog : Colog
colog = record { Level = Text; l_trace = codes "t"; l_debug = codes "d"; l_info = codes "i" }

verbose_only : init_log_level {colog = colog} (text_eq (codes "verbose")) main_levels ≡ main_levels
unfolding init_log_level text_eq
verbose_only = refl

debug_only :
    (init_log_level {colog = colog} (text_eq (codes "debug")) main_levels).min_level ≡ codes "d"
unfolding init_log_level main_levels text_eq
debug_only = refl

abbrev default_value : Flag → Text
default_value (string_flag name usage value env_var) = value
default_value (bool_flag name usage env_var) = []

-- the listen addresses that the command declares are those that the server falls back to
default_addresses :
    map default_value server_command.flags
    ≡ []
      ∷ (new_server_opt []).xds_listen_addr
      ∷ (new_server_opt []).als_listen_addr
      ∷ codes "./cds.yaml"
      ∷ codes "./eds.yaml"
      ∷ codes "./rds.yaml"
      ∷ codes "./lds.yaml"
      ∷ []
unfolding server_command new_server_opt init_opt apply_all
default_addresses = refl

one_command : app.commands ≡ server_command ∷ []
unfolding app commands add_command
one_command = refl

-- an application that sets the levels and fails
main-fatal :
    main
      (λ a levels. (init_log_level {colog = colog} (text_eq (codes "debug")) levels, some a.name))
      (λ e. e)
    ≡ (
      record { default_level = codes "d"; min_level = codes "d" },
      fatal (codes "error: example-envoy-xds"),
    )
unfolding main app exit_of main_levels init_log_level text_eq
main-fatal = refl
