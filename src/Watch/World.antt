-- ===== src/Watch/World.antt =====
-- What watch.go takes from the outside: the yaml decoder, the validator, absolute paths, the
-- packing of messages, snapshots, the order of maps, and the files at the time when they are read.
use example_envoy_xds.Base.{ℕ, List, Text, Option, Result}
use example_envoy_xds.Config.{CdsConfig, EdsConfig, RdsConfig, LdsConfig}
use example_envoy_xds.Xds.{Proto}
use example_envoy_xds.Eds.{Order}
use example_envoy_xds.Lds.{MarshalAny}
use example_envoy_xds.Resource.{SnapshotApi}

pub record Env (p : Proto) : Type 1 where
  -- `yaml.Unmarshal` into an empty value of each type
  pub unmarshal_cds : Text → Result p.Error (List CdsConfig)
  pub unmarshal_eds : Text → Result p.Error (List EdsConfig)
  pub unmarshal_rds : Text → Result p.Error (List RdsConfig)
  pub unmarshal_lds : Text → Result p.Error LdsConfig
  -- `v.Struct`; `none` is nil
  pub validate_cds : CdsConfig → Option p.Error
  pub validate_eds : EdsConfig → Option p.Error
  pub validate_rds : RdsConfig → Option p.Error
  pub validate_lds : LdsConfig → Option p.Error
  -- `filepath.Abs`
  pub abs : Text → Result p.Error Text
  pub marshal_any : MarshalAny p
  pub api : SnapshotApi p
  pub order : Order
  -- `fsnotify.Chmod`
  pub chmod : ℕ

-- `ioutil.ReadFile` at the moment of one call
abbrev pub ReadFile : Proto → Type 0
ReadFile p = Text → Result p.Error Text

-- The files may change between two reads: one reader for each of the four loads.
pub record Reads (p : Proto) : Type 0 where
  pub cds : ReadFile p
  pub eds : ReadFile p
  pub rds : ReadFile p
  pub lds : ReadFile p
