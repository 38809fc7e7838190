-- ===== src/Watch/Threads/Sequential.antt =====
-- An operation that is not interrupted is one of the interleavings: its accesses in a row, by one
-- goroutine, while the other one does nothing.
use example_envoy_xds.Base.{
  List, [], ◌∷◌, ◌++◌, append_assoc, ok, ◌≡◌, ap, sym, subst, ◌∙◌, inl, inr, err-ne-ok,
}
use example_envoy_xds.Config.{CdsConfig, EdsConfig, RdsConfig, LdsConfig}
use example_envoy_xds.Decimal.{format_uint}
use example_envoy_xds.Xds.{Proto}
use example_envoy_xds.Cds
use example_envoy_xds.Eds
use example_envoy_xds.Rds
use example_envoy_xds.Lds
use example_envoy_xds.Lds.{TypedFilter, packed_filters}
use example_envoy_xds.Lds.Laws.{create_ok}
use example_envoy_xds.Resource.{version}
use example_envoy_xds.Resource.Snapshot.{snapshot_ok}
use example_envoy_xds.Watch.World.{Env}
use example_envoy_xds.Watch.{State}
use example_envoy_xds.Watch.Steps.{
  Command, perform, run, cds_after, eds_after, rds_after, lds_after,
}
use example_envoy_xds.Watch.Outcome.{IsSnapshot, published_after}
use example_envoy_xds.Watch.Operations.{Ready}
use example_envoy_xds.Watch.Branches.{perform-IsDescribed}
use example_envoy_xds.Watch.Threads.{
  Hand, Access, nothing, made_cds, made_eds, made_rds, made_lds, built, hold, publication_of,
}
use example_envoy_xds.Watch.Threads.Scripts.{
  Kind, making, storing, building, setting, cds_service, eds_service, rds_service, lds_service,
  accesses, script, Interleaved,
}

module _ {p : Proto} (env : Env p) where
  module _ (w : State env) (us : List Kind) (b : Hand env) where
    -- the left goroutine has nothing in hand
    abbrev Idle : List Kind → State env → Type 0
    Idle ts v = Interleaved env w ts us nothing b v

    Idle-cds :
        {ts : List Kind} (v : State env) (config : List CdsConfig)
        → Idle ts v
        → Idle (storing cds_service ∷ making cds_service ∷ ts) (cds_after env config v)
    unfolding Cds.create
    Idle-cds v config way =
        let c = Cds.incre_version v.cds in
        let u = record v { cds = c } in
        let x = Cds.clusters c config in
        let n = format_uint c.version in
        Interleaved.left nothing (cds_after env config v)
          (Interleaved.left (made_cds n x) u way (Access.make_cds v config))
          (Access.store_cds u n x)

    Idle-eds :
        {ts : List Kind} (v : State env) (config : List EdsConfig)
        → Idle ts v
        → Idle (storing eds_service ∷ making eds_service ∷ ts) (eds_after env config v)
    unfolding Eds.create
    Idle-eds v config way =
        let c = Eds.incre_version v.eds in
        let u = record v { eds = c } in
        let x = Eds.eds_endpoints env.order c.opt (c.version ∷ []) 0 config in
        let n = format_uint c.version in
        Interleaved.left nothing (eds_after env config v)
          (Interleaved.left (made_eds n x) u way (Access.make_eds v config))
          (Access.store_eds u n x)

    Idle-rds :
        {ts : List Kind} (v : State env) (config : List RdsConfig)
        → Idle ts v
        → Idle (storing rds_service ∷ making rds_service ∷ ts) (rds_after env config v)
    unfolding Rds.create
    Idle-rds v config way =
        let c = Rds.incre_version v.rds in
        let u = record v { rds = c } in
        let x = Rds.route_configuration c config in
        let n = format_uint c.version in
        Interleaved.left nothing (rds_after env config v)
          (Interleaved.left (made_rds n x) u way (Access.make_rds v config))
          (Access.store_rds u n x)

    Idle-lds :
        {ts : List Kind} (v : State env) (config : LdsConfig) (fs : List (TypedFilter p))
        → packed_filters env.marshal_any v.lds config ≡ ok fs
        → Idle ts v
        → Idle (storing lds_service ∷ making lds_service ∷ ts) (lds_after env config fs v)
    Idle-lds {ts} v config fs packed way =
        let c = Lds.incre_version v.lds in
        let u = record v { lds = c } in
        let x = Lds.listener fs config.listen in
        let n = format_uint c.version in
        let done = create_ok env.marshal_any v.lds config packed in
        Interleaved.left nothing (lds_after env config fs v)
          (subst
            (λ r.
              Interleaved env w (making lds_service ∷ ts) us (hold env made_lds r.1) b
                (record v { lds = r.0 }))
            done (Interleaved.left _ _ way (Access.make_lds v config)))
          (Access.store_lds u n x)

    Idle-published :
        {ts : List Kind} (v : State env) (s : env.api.Snapshot)
        → IsSnapshot env s v
        → Idle ts v
        → Idle (setting ∷ building ∷ ts) (published_after env s v)
    Idle-published v s (made, good) way =
        Interleaved.left nothing (published_after env s v)
          (Interleaved.left (built (publication_of env v s)) v way
            (Access.build v (version v.resource) s (snapshot_ok env.api v.resource s made good)))
          (Access.set v (publication_of env v s))

    -- the accesses of an operation that succeeds, whatever the other goroutine has done so far
    Ready-Idle :
        {ts : List Kind} (v u : State env) (c : Command p) (s : env.api.Snapshot)
        → Ready env v c u
        → IsSnapshot env s u
        → Idle ts v
        → Idle (accesses c ++ ts) (published_after env s u)
    unfolding accesses
    Ready-Idle v u c s (Ready.cds read config loaded) good way =
        Idle-published u s good (Idle-cds v config way)
    Ready-Idle v u c s (Ready.eds read config loaded) good way =
        Idle-published u s good (Idle-eds v config way)
    Ready-Idle v u c s (Ready.rds read config loaded) good way =
        Idle-published u s good (Idle-rds v config way)
    Ready-Idle v u c s (Ready.lds read config fs loaded packed) good way =
        Idle-published u s good (Idle-lds v config fs packed way)
    Ready-Idle v u c s (Ready.all reads cs fs loaded packed) good way =
        let v1 = cds_after env cs.cds v in
        let v2 = eds_after env cs.eds v1 in
        let v3 = rds_after env cs.rds v2 in
        Idle-published u s good (
          Idle-lds v3 cs.lds fs packed
            (Idle-rds v2 cs.rds (Idle-eds v1 cs.eds (Idle-cds v cs.cds way))))

    perform-Idle :
        {ts : List Kind} (c : Command p) (v : State env)
        → (perform env c v).1 ≡ ok tt
        → Idle ts v
        → Idle (accesses c ++ ts) (perform env c v).0
    perform-Idle {ts} c v fine way = elim (perform-IsDescribed env v c) [
      | inl (u, s, ready, good, did) ↦
          subst (Idle (accesses c ++ ts)) (sym (ap (λ r. r.0) did))
            (Ready-Idle v u c s ready good way)
      | inr (u, e, _, failed) ↦ absurd (err-ne-ok (sym (ap (λ r. r.1) failed) ∙ fine))
    ]

  -- all the operations succeed, one after the other
  abbrev pub AllSucceed : List (Command p) → State env → Type 0
  AllSucceed [] w = Unit {0}
  AllSucceed (c ∷ rest) w = ((perform env c w).1 ≡ ok tt) × AllSucceed rest (perform env c w).0

  pub run-Interleaved :
      (w v : State env) (ts us : List Kind) (b : Hand env) (cs : List (Command p))
      → AllSucceed cs v
      → Interleaved env w ts us nothing b v
      → Interleaved env w (script cs ++ ts) us nothing b (run env cs v)
  unfolding script run
  run-Interleaved w v ts us b [] fine way = way
  run-Interleaved w v ts us b (c ∷ rest) (now, later) way =
      rw (append_assoc (script rest) (accesses c) ts) (
        run-Interleaved w (perform env c v).0 (accesses c ++ ts) us b rest later
          (perform-Idle w us b c v now way))
