-- ===== src/Watch/Change.antt =====
-- A change of one file that goes well: what is published then.
use example_envoy_xds.Base.{List, ok, ◌≡◌}
use example_envoy_xds.Config.{CdsConfig, EdsConfig, RdsConfig, LdsConfig}
use example_envoy_xds.Xds.{Proto}
use example_envoy_xds.Lds
use example_envoy_xds.Lds.{TypedFilter}
use example_envoy_xds.Watch.World.{Env, ReadFile}
use example_envoy_xds.Watch.Load.{load_cds, load_eds, load_rds, load_lds}
use example_envoy_xds.Watch.{
  State, change_cds_yaml, change_eds_yaml, change_rds_yaml, change_lds_yaml,
}
use example_envoy_xds.Watch.Steps.{
  cds_after, eds_after, rds_after, lds_after, perform, change_cds, change_eds, change_rds,
  change_lds,
}
use example_envoy_xds.Watch.Outcome.{IsSnapshot, published_after}
use example_envoy_xds.Watch.Operations.{Ready, perform-ok}

module _ {p : Proto} (env : Env p) where
  -- If the cluster file loads and the snapshot with the new resources can be built and is
  -- consistent, then its change succeeds and publishes that snapshot.
  pub change_cds_yaml-ok :
      (read : ReadFile p) (w : State env) (config : List CdsConfig) (s : env.api.Snapshot)
      → load_cds env read w.opt ≡ ok config
      → IsSnapshot env s (cds_after env config w)
      → change_cds_yaml env read w ≡ (published_after env s (cds_after env config w), ok tt)
  unfolding perform
  change_cds_yaml-ok read w config s loaded ready =
      perform-ok env w (change_cds read) (cds_after env config w) s (Ready.cds read config loaded)
        ready

  -- If the endpoint file loads and the snapshot with the new resources can be built and is
  -- consistent, then its change succeeds and publishes that snapshot.
  pub change_eds_yaml-ok :
      (read : ReadFile p) (w : State env) (config : List EdsConfig) (s : env.api.Snapshot)
      → load_eds env read w.opt ≡ ok config
      → IsSnapshot env s (eds_after env config w)
      → change_eds_yaml env read w ≡ (published_after env s (eds_after env config w), ok tt)
  unfolding perform
  change_eds_yaml-ok read w config s loaded ready =
      perform-ok env w (change_eds read) (eds_after env config w) s (Ready.eds read config loaded)
        ready

  -- If the route file loads and the snapshot with the new resources can be built and is
  -- consistent, then its change succeeds and publishes that snapshot.
  pub change_rds_yaml-ok :
      (read : ReadFile p) (w : State env) (config : List RdsConfig) (s : env.api.Snapshot)
      → load_rds env read w.opt ≡ ok config
      → IsSnapshot env s (rds_after env config w)
      → change_rds_yaml env read w ≡ (published_after env s (rds_after env config w), ok tt)
  unfolding perform
  change_rds_yaml-ok read w config s loaded ready =
      perform-ok env w (change_rds read) (rds_after env config w) s (Ready.rds read config loaded)
        ready

  -- If the listener file loads, its messages can be packed, and the snapshot with the new listener
  -- can be built and is consistent, then its change succeeds and publishes that snapshot.
  pub change_lds_yaml-ok :
      (read : ReadFile p) (w : State env) (config : LdsConfig) (fs : List (TypedFilter p))
      (s : env.api.Snapshot)
      → load_lds env read w.opt ≡ ok config
      → Lds.packed_filters env.marshal_any w.lds config ≡ ok fs
      → IsSnapshot env s (lds_after env config fs w)
      → change_lds_yaml env read w ≡ (published_after env s (lds_after env config fs w), ok tt)
  unfolding perform
  change_lds_yaml-ok read w config fs s loaded packed ready =
      perform-ok env w (change_lds read) (lds_after env config fs w) s
        (Ready.lds read config fs loaded packed) ready
