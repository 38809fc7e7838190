-- ===== src/Watch/Operations.antt =====
-- The five operations of the object against what their files, the packing of the listener and the
-- snapshot come to.
use example_envoy_xds.Base.{List, ok, err, ◌≡◌, refl}
use example_envoy_xds.Config.{CdsConfig, EdsConfig, RdsConfig, LdsConfig}
use example_envoy_xds.Xds.{Proto}
use example_envoy_xds.Lds
use example_envoy_xds.Lds.{TypedFilter}
use example_envoy_xds.Resource.{snapshot}
use example_envoy_xds.Watch.World.{Env, ReadFile, Reads}
use example_envoy_xds.Watch.Load.{load_cds, load_eds, load_rds, load_lds}
use example_envoy_xds.Watch.{
  State, change_cds_yaml, change_eds_yaml, change_rds_yaml, change_lds_yaml, update_snapshot,
}
use example_envoy_xds.Watch.Steps.{
  Command, change_cds, change_eds, change_rds, change_lds, reload, perform, Configs, load_all,
  cds_after, eds_after, rds_after, lds_after, three_after, four_after, update_cds_lem,
  update_eds_lem, update_rds_lem, update_lds_ok, update_lds_err, reload_all_lem, update_all_lem,
}
use example_envoy_xds.Watch.Outcome.{
  update_snapshot_err, IsSnapshot, published_after, update_snapshot-published,
}
use example_envoy_xds.Watch.Reload.{reload_all-load_err, reload_all-pack_err}

module _ {p : Proto} (env : Env p) (w : State env) where
  -- the files of an operation load, and with its updates the object comes to the snapshot
  pub data Ready : Command p → State env → Type 0 where
    cds :
        (read : ReadFile p) (config : List CdsConfig)
        → load_cds env read w.opt ≡ ok config
        → Ready (change_cds read) (cds_after env config w)
    eds :
        (read : ReadFile p) (config : List EdsConfig)
        → load_eds env read w.opt ≡ ok config
        → Ready (change_eds read) (eds_after env config w)
    rds :
        (read : ReadFile p) (config : List RdsConfig)
        → load_rds env read w.opt ≡ ok config
        → Ready (change_rds read) (rds_after env config w)
    lds :
        (read : ReadFile p) (config : LdsConfig) (fs : List (TypedFilter p))
        → load_lds env read w.opt ≡ ok config
        → Lds.packed_filters env.marshal_any w.lds config ≡ ok fs
        → Ready (change_lds read) (lds_after env config fs w)
    all :
        (reads : Reads p) (cs : Configs) (fs : List (TypedFilter p))
        → load_all env reads w.opt ≡ ok cs
        → Lds.packed_filters env.marshal_any w.lds cs.lds ≡ ok fs
        → Ready (reload reads) (four_after env cs fs w)

  -- how an operation fails: with an error of a load, of the packing, or of the snapshot, and with
  -- the updates that came before it
  pub data Failed : Command p → State env → p.Error → Type 0 where
    load_cds_err :
        (read : ReadFile p) (e : p.Error)
        → load_cds env read w.opt ≡ err e
        → Failed (change_cds read) w e
    load_eds_err :
        (read : ReadFile p) (e : p.Error)
        → load_eds env read w.opt ≡ err e
        → Failed (change_eds read) w e
    load_rds_err :
        (read : ReadFile p) (e : p.Error)
        → load_rds env read w.opt ≡ err e
        → Failed (change_rds read) w e
    load_lds_err :
        (read : ReadFile p) (e : p.Error)
        → load_lds env read w.opt ≡ err e
        → Failed (change_lds read) w e
    load_all_err :
        (reads : Reads p) (e : p.Error)
        → load_all env reads w.opt ≡ err e
        → Failed (reload reads) w e
    pack_lds_err :
        (read : ReadFile p) (config : LdsConfig) (e : p.Error)
        → load_lds env read w.opt ≡ ok config
        → Lds.packed_filters env.marshal_any w.lds config ≡ err e
        → Failed (change_lds read) w e
    pack_all_err :
        (reads : Reads p) (cs : Configs) (e : p.Error)
        → load_all env reads w.opt ≡ ok cs
        → Lds.packed_filters env.marshal_any w.lds cs.lds ≡ err e
        → Failed (reload reads) (three_after env cs.cds cs.eds cs.rds w) e
    refused :
        (c : Command p) (v : State env) (e : p.Error)
        → Ready c v
        → snapshot env.api v.resource ≡ err e
        → Failed c v e

  pub Ready-perform :
      {c : Command p} {v : State env} → Ready c v → perform env c w ≡ update_snapshot env v
  unfolding perform change_cds_yaml change_eds_yaml change_rds_yaml change_lds_yaml
  Ready-perform (Ready.cds read config loaded) =
      rw (loaded, change_cds_yaml) (rw (update_cds_lem env config w) refl)
  Ready-perform (Ready.eds read config loaded) =
      rw (loaded, change_eds_yaml) (rw (update_eds_lem env config w) refl)
  Ready-perform (Ready.rds read config loaded) =
      rw (loaded, change_rds_yaml) (rw (update_rds_lem env config w) refl)
  Ready-perform (Ready.lds read config fs loaded packed) =
      rw (loaded, change_lds_yaml) (rw (update_lds_ok env config w packed) refl)
  Ready-perform (Ready.all reads cs fs loaded packed) =
      let u = three_after env cs.cds cs.eds cs.rds w in
      rw (reload_all_lem env reads w) (
        rw loaded (
          rw (update_all_lem env cs.cds cs.eds cs.rds cs.lds w)
            (rw (update_lds_ok env cs.lds u packed) refl)))

  -- If the files of an operation load, the messages of its listener can be packed, and the snapshot
  -- of the resources that it then has can be built and is consistent, then the operation succeeds
  -- and publishes that snapshot.
  pub perform-ok :
      (c : Command p) (v : State env) (s : env.api.Snapshot)
      → Ready c v
      → IsSnapshot env s v
      → perform env c w ≡ (published_after env s v, ok tt)
  perform-ok c v s ready good = rw (Ready-perform ready) (update_snapshot-published env s v good)

  -- If a file of an operation does not load, the first such error is returned and nothing has
  -- changed. If the listener cannot be packed, a change of its file leaves the object as it was,
  -- and a full reload has replaced the other three resources. If the snapshot is refused, the
  -- object has the new resources. The error is returned and nothing is published.
  pub perform-err :
      (c : Command p) (v : State env) (e : p.Error) → Failed c v e → perform env c w ≡ (v, err e)
  unfolding perform change_cds_yaml change_eds_yaml change_rds_yaml change_lds_yaml
  perform-err c v e (Failed.load_cds_err read _ bad) = rw (bad, change_cds_yaml) refl
  perform-err c v e (Failed.load_eds_err read _ bad) = rw (bad, change_eds_yaml) refl
  perform-err c v e (Failed.load_rds_err read _ bad) = rw (bad, change_rds_yaml) refl
  perform-err c v e (Failed.load_lds_err read _ bad) = rw (bad, change_lds_yaml) refl
  perform-err c v e (Failed.load_all_err reads _ bad) = reload_all-load_err env reads w bad
  perform-err c v e (Failed.pack_lds_err read config _ loaded bad) =
      rw (loaded, change_lds_yaml) (rw (update_lds_err env config w bad) refl)
  perform-err c v e (Failed.pack_all_err reads cs _ loaded bad) =
      reload_all-pack_err env reads w cs loaded bad
  perform-err c v e (Failed.refused _ _ _ ready bad) =
      rw (Ready-perform ready) (update_snapshot_err env v bad)
