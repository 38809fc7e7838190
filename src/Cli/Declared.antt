-- ===== src/Cli/Declared.antt =====
-- The flags that `serverAction` asks for against those that the command declares.
use example_envoy_xds.Base.{List, [], ◌∷◌, Text, map, ◌≡◌, refl}
use example_envoy_xds.Server.{Flags}
use example_envoy_xds.Cli.{Flag, string_flag, bool_flag, server_command, flags_of}

abbrev pub flag_name : Flag → Text
flag_name (string_flag name usage value env_var) = name
flag_name (bool_flag name usage env_var) = name

-- what was asked for, in the order of the declaration
abbrev pub asked : Flags → List Text
asked f =
    f.node_id ∷ f.xds_listen_addr ∷ f.als_listen_addr ∷ f.cds_yaml ∷ f.eds_yaml ∷ f.rds_yaml
    ∷ f.lds_yaml ∷ []

-- What `serverAction` asks a context for is what the context answers for the declared flags, each
-- of them once and no other name.
pub flags_of-declared :
    (c_string : Text → Text)
    → asked (flags_of c_string) ≡ map c_string (map flag_name server_command.flags)
unfolding flags_of server_command
flags_of-declared c_string = refl
