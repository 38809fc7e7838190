-- ===== src/Watch/Load.antt =====
-- `watchOpt` and the four `load` methods of watch.go. They read files and change nothing.
use example_envoy_xds.Base.{List, [], ◌∷◌, Text, Option, none, some, Result, ok, err, ◌>>=◌}
use example_envoy_xds.Config.{CdsConfig, EdsConfig, RdsConfig, LdsConfig}
use example_envoy_xds.Xds.{Proto}
use example_envoy_xds.Watch.World.{Env, ReadFile}

pub record WatchOpt : Type 0 where
  pub cds_yaml : Text
  pub eds_yaml : Text
  pub rds_yaml : Text
  pub lds_yaml : Text

abbrev pub WatchOptFunc : Type 0
WatchOptFunc = WatchOpt → WatchOpt

unfoldable pub watch_cds_config_file : Text → WatchOptFunc
watch_cds_config_file path opt = record opt { cds_yaml = path }

unfoldable pub watch_eds_config_file : Text → WatchOptFunc
watch_eds_config_file path opt = record opt { eds_yaml = path }

unfoldable pub watch_rds_config_file : Text → WatchOptFunc
watch_rds_config_file path opt = record opt { rds_yaml = path }

unfoldable pub watch_lds_config_file : Text → WatchOptFunc
watch_lds_config_file path opt = record opt { lds_yaml = path }

module _ {E A : Type 0} where
  -- `ioutil.ReadFile`, then `yaml.Unmarshal`
  unfoldable pub load_yaml : (Text → Result E Text) → (Text → Result E A) → Text → Result E A
  load_yaml read unmarshal file = do text ← read file; unmarshal text

  -- `for _, config := range configs`: the first refusal of the validator ends the loop
  unfoldable pub validate_all : (A → Option E) → List A → Option E
  validate_all validate [] = none
  validate_all validate (config ∷ rest) = elim (validate config) [
    | some e ↦ some e
    | none ↦ validate_all validate rest
  ]

  -- `if err != nil { return …{}, err }; return configs, nil`
  unfoldable pub unless_refused : Option E → A → Result E A
  unless_refused none a = ok a
  unless_refused (some e) a = err e

module _ {p : Proto} (env : Env p) (read : ReadFile p) (opt : WatchOpt) where
  unfoldable pub load_cds : Result p.Error (List CdsConfig)
  unfolding load_yaml validate_all unless_refused
  load_cds = do
    configs ← load_yaml read env.unmarshal_cds opt.cds_yaml
    unless_refused (validate_all env.validate_cds configs) configs

  unfoldable pub load_eds : Result p.Error (List EdsConfig)
  unfolding load_yaml validate_all unless_refused
  load_eds = do
    configs ← load_yaml read env.unmarshal_eds opt.eds_yaml
    unless_refused (validate_all env.validate_eds configs) configs

  unfoldable pub load_rds : Result p.Error (List RdsConfig)
  unfolding load_yaml validate_all unless_refused
  load_rds = do
    configs ← load_yaml read env.unmarshal_rds opt.rds_yaml
    unless_refused (validate_all env.validate_rds configs) configs

  unfoldable pub load_lds : Result p.Error LdsConfig
  unfolding load_yaml unless_refused
  load_lds = do
    config ← load_yaml read env.unmarshal_lds opt.lds_yaml
    unless_refused (env.validate_lds config) config
