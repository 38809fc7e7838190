-- ===== src/Watch/Steps.antt =====
-- Every operation is some updates of the resources, then at most one attempt to publish.
pub mod After
pub use After.{
  cds_after, eds_after, rds_after, lds_after, update_cds_lem, update_eds_lem, update_rds_lem,
  update_lds_ok, update_lds_err,
}
use example_envoy_xds.Base.{
  ℕ, suc, ◌≤◌, List, [], ◌∷◌, refl, bind, lift, Result, ◌>>=◌, arith, ok, err, ◌≡◌, inl, inr,
  Result-cases,
}
use example_envoy_xds.Config.{CdsConfig, EdsConfig, RdsConfig, LdsConfig}
use example_envoy_xds.Decimal.{format_uint}
use example_envoy_xds.Resource.{update_cluster, update_endpoint, update_route, update_listener}
use example_envoy_xds.Xds.{Proto}
use example_envoy_xds.Cds
use example_envoy_xds.Eds
use example_envoy_xds.Rds
use example_envoy_xds.Lds
use example_envoy_xds.Lds.{TypedFilter}
use example_envoy_xds.Lds.Laws
use example_envoy_xds.Watch.World.{Env, Reads, ReadFile}
use example_envoy_xds.Watch.Load.{WatchOpt, load_cds, load_eds, load_rds, load_lds}
use example_envoy_xds.Watch.{
  State, Op, update_cds, update_eds, update_rds, update_lds, update_snapshot, update_all,
  change_cds_yaml, change_eds_yaml, change_rds_yaml, change_lds_yaml, reload_all,
}

-- what the four files hold
pub record Configs : Type 0 where
  pub cds : List CdsConfig
  pub eds : List EdsConfig
  pub rds : List RdsConfig
  pub lds : LdsConfig

-- the five operations of the object, each with the files that it reads
pub data Command (p : Proto) : Type 0 where
  change_cds change_eds change_rds change_lds : ReadFile p → Command p
  reload : Reads p → Command p

module _ {p : Proto} (env : Env p) where
  unfoldable pub perform : Command p → State env → State env × Result p.Error (Unit {0})
  perform (change_cds read) w = change_cds_yaml env read w
  perform (change_eds read) w = change_eds_yaml env read w
  perform (change_rds read) w = change_rds_yaml env read w
  perform (change_lds read) w = change_lds_yaml env read w
  perform (reload reads) w = reload_all env reads w

  -- one update that succeeds
  pub data Update (w : State env) : State env → Type 0 where
    cds : (config : List CdsConfig) → Update w (cds_after env config w)
    eds : (config : List EdsConfig) → Update w (eds_after env config w)
    rds : (config : List RdsConfig) → Update w (rds_after env config w)
    lds :
        (config : LdsConfig) (fs : List (TypedFilter p))
        → Lds.packed_filters env.marshal_any w.lds config ≡ ok fs
        → Update w (lds_after env config fs w)

  -- a number of updates, one after the other
  pub data Updates (w : State env) : ℕ → State env → Type 0 where
    start : Updates w 0 w
    more : {n : ℕ} {v u : State env} → Updates w n v → Update v u → Updates w (suc n) u

  pub data Performed (w : State env) : State env × Result p.Error (Unit {0}) → Type 0 where
    failed :
        {n : ℕ} {v : State env} → n ≤ 4 → Updates w n v → (e : p.Error) → Performed w (v, err e)
    reached :
        {n : ℕ} {v u : State env}
        → n ≤ 3
        → Updates w n v
        → Update v u
        → Performed w (update_snapshot env u)

  Performed-change_cds :
      (read : ReadFile p) (w : State env) → Performed w (change_cds_yaml env read w)
  unfolding change_cds_yaml
  Performed-change_cds read w = elim (Result-cases (load_cds env read w.opt)) [
    | inr (e, bad) ↦ rw (bad, change_cds_yaml) (Performed.failed (omega arith) Updates.start e)
    | inl (config, loaded) ↦
        rw (loaded, change_cds_yaml)
          (rw (update_cds_lem env config w)
            (Performed.reached (omega arith) Updates.start (Update.cds config)))
  ]

  Performed-change_eds :
      (read : ReadFile p) (w : State env) → Performed w (change_eds_yaml env read w)
  unfolding change_eds_yaml
  Performed-change_eds read w = elim (Result-cases (load_eds env read w.opt)) [
    | inr (e, bad) ↦ rw (bad, change_eds_yaml) (Performed.failed (omega arith) Updates.start e)
    | inl (config, loaded) ↦
        rw (loaded, change_eds_yaml)
          (rw (update_eds_lem env config w)
            (Performed.reached (omega arith) Updates.start (Update.eds config)))
  ]

  Performed-change_rds :
      (read : ReadFile p) (w : State env) → Performed w (change_rds_yaml env read w)
  unfolding change_rds_yaml
  Performed-change_rds read w = elim (Result-cases (load_rds env read w.opt)) [
    | inr (e, bad) ↦ rw (bad, change_rds_yaml) (Performed.failed (omega arith) Updates.start e)
    | inl (config, loaded) ↦
        rw (loaded, change_rds_yaml)
          (rw (update_rds_lem env config w)
            (Performed.reached (omega arith) Updates.start (Update.rds config)))
  ]

  Performed-change_lds :
      (read : ReadFile p) (w : State env) → Performed w (change_lds_yaml env read w)
  unfolding change_lds_yaml
  Performed-change_lds read w = elim (Result-cases (load_lds env read w.opt)) [
    | inr (e, bad) ↦ rw (bad, change_lds_yaml) (Performed.failed (omega arith) Updates.start e)
    | inl (config, loaded) ↦ rw (loaded, change_lds_yaml) (update config)
  ]
    where
      update :
          (config : LdsConfig)
          → Performed w (bind (update_lds env config) (λ _. update_snapshot env) w)
      update config = elim (Result-cases (Lds.packed_filters env.marshal_any w.lds config)) [
        | inr (e, bad) ↦
            rw (update_lds_err env config w bad) (Performed.failed (omega arith) Updates.start e)
        | inl (fs, packed) ↦
            rw (update_lds_ok env config w packed)
              (Performed.reached (omega arith) Updates.start (Update.lds config fs packed))
      ]

  -- the object when `ReloadAll` comes to the listener
  abbrev pub three_after : List CdsConfig → List EdsConfig → List RdsConfig → State env → State env
  three_after c e r w = rds_after env r (eds_after env e (cds_after env c w))

  -- the object when `ReloadAll` comes to the snapshot
  abbrev pub four_after : Configs → List (TypedFilter p) → State env → State env
  four_after cs filters w = lds_after env cs.lds filters (three_after cs.cds cs.eds cs.rds w)

  pub update_all_lem :
      (c : List CdsConfig) (e : List EdsConfig) (r : List RdsConfig) (l : LdsConfig) (w : State env)
      → update_all env c e r l w
        ≡ bind (update_lds env l) (λ _. update_snapshot env) (three_after c e r w)
  unfolding update_all
  update_all_lem c e r l w = rw (update_cds_lem env c w) (
      rw (update_eds_lem env e (cds_after env c w))
        (rw (update_rds_lem env r (eds_after env e (cds_after env c w))) refl))

  Updates-three :
      (c : List CdsConfig) (e : List EdsConfig) (r : List RdsConfig) (w : State env)
      → Updates w 3 (three_after c e r w)
  Updates-three c e r w =
      Updates.more (Updates.more (Updates.more Updates.start (Update.cds c)) (Update.eds e))
        (Update.rds r)

  Performed-update_all :
      (c : List CdsConfig) (e : List EdsConfig) (r : List RdsConfig) (l : LdsConfig) (w : State env)
      → Performed w (update_all env c e r l w)
  Performed-update_all c e r l w =
      rw (update_all_lem c e r l w)
        (elim (Result-cases (Lds.packed_filters env.marshal_any w.lds l)) [
          | inr (x, bad) ↦
              rw (update_lds_err env l (three_after c e r w) bad)
                (Performed.failed (omega arith) (Updates-three c e r w) x)
          | inl (fs, packed) ↦
              rw (update_lds_ok env l (three_after c e r w) packed)
                (Performed.reached (omega arith) (Updates-three c e r w) (Update.lds l fs packed))
        ])

  -- what the four loads return together: all configurations, or the first error
  abbrev pub load_all : Reads p → WatchOpt → Result p.Error Configs
  load_all reads opt = do
    c ← load_cds env reads.cds opt
    e ← load_eds env reads.eds opt
    r ← load_rds env reads.rds opt
    l ← load_lds env reads.lds opt
    ok (record { cds = c; eds = e; rds = r; lds = l })

  abbrev pub apply_configs : Configs → Op env (Unit {0})
  apply_configs cs = update_all env cs.cds cs.eds cs.rds cs.lds

  pub reload_all_lem :
      (reads : Reads p) (w : State env)
      → reload_all env reads w ≡ bind (lift (load_all reads w.opt)) apply_configs w
  unfolding reload_all
  reload_all_lem reads w = ground arith

  Performed-reload_all : (reads : Reads p) (w : State env) → Performed w (reload_all env reads w)
  Performed-reload_all reads w =
      rw (reload_all_lem reads w) (elim (Result-cases (load_all reads w.opt)) [
        | inr (e, bad) ↦ rw bad (Performed.failed (omega arith) Updates.start e)
        | inl (cs, loaded) ↦ rw loaded (Performed-update_all cs.cds cs.eds cs.rds cs.lds w)
      ])

  pub perform-Performed : (c : Command p) (w : State env) → Performed w (perform c w)
  unfolding perform
  perform-Performed (change_cds read) w = Performed-change_cds read w
  perform-Performed (change_eds read) w = Performed-change_eds read w
  perform-Performed (change_rds read) w = Performed-change_rds read w
  perform-Performed (change_lds read) w = Performed-change_lds read w
  perform-Performed (reload reads) w = Performed-reload_all reads w

  -- the object after some operations, whose errors are logged only
  unfoldable pub run : List (Command p) → State env → State env
  run [] w = w
  run (c ∷ rest) w = run rest (perform c w).0
