-- ===== src/Watch.antt =====
-- watch.go: the object that loads the files, rebuilds the resources and publishes snapshots.
-- `published` holds the calls of `SetSnapshot`, the last one first, each with the version that is
-- logged beside it; what the cache does with them is not in the repository, and the code ignores
-- the error that the call returns.
pub mod World
pub mod Load
pub mod Loads
pub mod Loop
pub mod LoopEnd
pub mod Noticed
pub mod Steps
pub mod Outcome
pub mod Versions
pub mod Fresh
pub mod Reload
pub mod Change
pub mod Operations
pub mod Branches
pub mod Schedule
pub mod Isolation
pub mod Serving
pub mod Threads
mod Tests
mod ChangeTests
mod ThreadTests
use example_envoy_xds.Base.{
  ℕ, List, [], ◌∷◌, Text, text_eq, Bool, true, false, Option, none, some, if◌then◌else◌, ◌==◌,
  Result, ok, err, Exec, lift, bind, apply_all,
}
use example_envoy_xds.Config.{CdsConfig, EdsConfig, RdsConfig, LdsConfig}
use example_envoy_xds.Xds.{Proto, xds_config_source}
use example_envoy_xds.Cds
use example_envoy_xds.Cds.{ClusterDiscoveryService, new_cluster_discovery_service}
use example_envoy_xds.Eds
use example_envoy_xds.Eds.{EndpointDiscoveryService, new_endpoint_discovery_service}
use example_envoy_xds.Rds
use example_envoy_xds.Rds.{RouteDiscoveryService, new_route_discovery_service}
use example_envoy_xds.Lds
use example_envoy_xds.Lds.{ListenerDiscoveryService, new_listener_discovery_service}
use example_envoy_xds.Resource.{
  Resource, snapshot, new_resource, update_cluster, update_endpoint, update_route, update_listener,
}
use World.{Env, Reads, ReadFile}
use Load.{WatchOpt, WatchOptFunc, load_cds, load_eds, load_rds, load_lds}

pub record Publication (S : Type 0) : Type 0 where
  pub node_id : Text
  pub version : Text
  pub snapshot : S

pub record WatchFile (p : Proto) (S : Type 0) : Type 0 where
  pub node_id : Text
  pub opt : WatchOpt
  pub published : List (Publication S)
  pub cds : ClusterDiscoveryService p
  pub eds : EndpointDiscoveryService
  pub rds : RouteDiscoveryService p
  pub lds : ListenerDiscoveryService p
  pub resource : Resource p

module _ {p : Proto} (env : Env p) where
  abbrev pub State : Type 0
  State = WatchFile p env.api.Snapshot

  abbrev pub Op : Type 0 → Type 0
  Op A = Exec State p.Error A

  infixl 5 ◌>>=◌ ◌>>◌
  abbrev pub ◌>>=◌ : {A B : Type 0} → Op A → (A → Op B) → Op B
  m >>= f = bind m f

  abbrev pub ◌>>◌ : {A B : Type 0} → Op A → Op B → Op B
  m >> n = bind m (λ _. n)

  unfoldable pub update_cds : List CdsConfig → Op (Unit {0})
  update_cds config w =
      let (cds', result) = Cds.create w.cds config in
      elim result [
        | ok (version, clusters) ↦
            (record w { cds = cds'; resource = update_cluster version clusters w.resource }, ok tt)
        | err e ↦ (record w { cds = cds' }, err e)
      ]

  unfoldable pub update_eds : List EdsConfig → Op (Unit {0})
  update_eds config w =
      let (eds', result) = Eds.create env.order w.eds config in
      elim result [
        | ok (version, endpoints) ↦ (
          record w { eds = eds'; resource = update_endpoint version endpoints w.resource },
          ok tt,
        )
        | err e ↦ (record w { eds = eds' }, err e)
      ]

  unfoldable pub update_rds : List RdsConfig → Op (Unit {0})
  update_rds config w =
      let (rds', result) = Rds.create w.rds config in
      elim result [
        | ok (version, route) ↦
            (record w { rds = rds'; resource = update_route version route w.resource }, ok tt)
        | err e ↦ (record w { rds = rds' }, err e)
      ]

  unfoldable pub update_lds : LdsConfig → Op (Unit {0})
  update_lds config w =
      let (lds', result) = Lds.create env.marshal_any w.lds config in
      elim result [
        | ok (version, listener) ↦
            (record w { lds = lds'; resource = update_listener version listener w.resource }, ok tt)
        | err e ↦ (record w { lds = lds' }, err e)
      ]

  unfoldable pub update_snapshot : Op (Unit {0})
  update_snapshot w = elim (snapshot env.api w.resource) [
    | ok (version, s) ↦ (
      record w {
        published = (record { node_id = w.node_id; version = version; snapshot = s }) ∷ w.published;
      },
      ok tt,
    )
    | err e ↦ (w, err e)
  ]

  unfoldable pub change_cds_yaml : ReadFile p → Op (Unit {0})
  change_cds_yaml read w =
      (do config ← lift (load_cds env read w.opt); update_cds config; update_snapshot) w

  unfoldable pub change_eds_yaml : ReadFile p → Op (Unit {0})
  change_eds_yaml read w =
      (do config ← lift (load_eds env read w.opt); update_eds config; update_snapshot) w

  unfoldable pub change_rds_yaml : ReadFile p → Op (Unit {0})
  change_rds_yaml read w =
      (do config ← lift (load_rds env read w.opt); update_rds config; update_snapshot) w

  unfoldable pub change_lds_yaml : ReadFile p → Op (Unit {0})
  change_lds_yaml read w =
      (do config ← lift (load_lds env read w.opt); update_lds config; update_snapshot) w

  -- the four updates of `ReloadAll` and the snapshot, once all files are loaded
  unfoldable pub update_all :
      List CdsConfig → List EdsConfig → List RdsConfig → LdsConfig → Op (Unit {0})
  update_all cds_config eds_config rds_config lds_config = do
    update_cds cds_config
    update_eds eds_config
    update_rds rds_config
    update_lds lds_config
    update_snapshot

  unfoldable pub reload_all : Reads p → Op (Unit {0})
  reload_all reads w =
      (do
        cds_config ← lift (load_cds env reads.cds w.opt)
        eds_config ← lift (load_eds env reads.eds w.opt)
        rds_config ← lift (load_rds env reads.rds w.opt)
        lds_config ← lift (load_lds env reads.lds w.opt)
        update_all cds_config eds_config rds_config lds_config)
        w

  -- the path that `equalPath` compares: the absolute one, or the path itself on an error
  unfoldable pub abs_or_self : Text → Text
  abs_or_self path = elim (env.abs path) [ ok absolute ↦ absolute | err e ↦ path ]

  unfoldable pub equal_path : Text → Text → Bool
  unfolding abs_or_self
  equal_path src target = text_eq (abs_or_self src) (abs_or_self target)

-- `new(watchOpt)`
abbrev pub zero_watch_opt : WatchOpt
zero_watch_opt = record { cds_yaml = []; eds_yaml = []; rds_yaml = []; lds_yaml = [] }

unfoldable pub new_watch_file : (p : Proto) (S : Type 0) → Text → List WatchOptFunc → WatchFile p S
new_watch_file p S node_id funcs = record {
  node_id = node_id;
  opt = apply_all funcs zero_watch_opt;
  published = [];
  cds = new_cluster_discovery_service p (xds_config_source p) [];
  eds = new_endpoint_discovery_service [];
  rds = new_route_discovery_service p (xds_config_source p) [];
  lds = new_listener_discovery_service p (xds_config_source p) [];
  resource = new_resource;
}
