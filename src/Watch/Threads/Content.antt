-- ===== src/Watch/Threads/Content.antt =====
-- However the two goroutines interleave, a version stands for one snapshot.
use mathlib.Core.List.{Memᴰ}
use example_envoy_xds.Base.{
  suc, ◌+◌, ◌%◌, ◌≤◌, ◌<◌, List, [], ◌∷◌, length, Text, codes, none, some, ◌≡◌, refl, sym, ◌∙◌,
  u64_mod, arith, Result-cases, inl, inr, All-Mem, ok_inj, ap₂,
}
use example_envoy_xds.Decimal.{format_uint}
use example_envoy_xds.Xds.{Proto}
use example_envoy_xds.Cds
use example_envoy_xds.Eds
use example_envoy_xds.Rds
use example_envoy_xds.Lds
use example_envoy_xds.Lds.Laws.{create_ok, create_err}
use example_envoy_xds.Resource.Snapshot.{snapshot-accepted}
use example_envoy_xds.Resource.{
  version, update_cluster, update_endpoint, update_route, update_listener, new_resource,
}
use example_envoy_xds.Watch.World.{Env}
use example_envoy_xds.Watch.Load.{WatchOptFunc}
use example_envoy_xds.Watch.{State, Publication, new_watch_file}
use example_envoy_xds.Watch.Threads.{Hand, Access, Run}
use example_envoy_xds.Watch.Threads.Ledger.{
  Ledger, size, empty, entry, IsResource-same, Grows, Grows-refl, Grows-eds, Grows-cds, Grows-rds,
  Grows-lds,
}
use example_envoy_xds.Watch.Threads.Kept.{
  IsEntry-next, steps, IsLogged, IsHeld, Kept, IsHeld-grow, Kept-grow, Kept-put,
}

zero-named : format_uint 0 ≡ codes "0"
unfolding format_uint
zero-named = refl

module _ {p : Proto} (env : Env p) where
  -- what an access makes of the ledger
  abbrev Next : Ledger p → Hand env → State env → Type 0
  Next g b v = (h : Ledger p) × Grows g h × (size h ≤ size g + 1) × IsHeld env h b × Kept env h v

  Access-Next :
      {a : Hand env} {w : State env} {b : Hand env} {v : State env}
      → Access env a w b v
      → (g : Ledger p) → size g + 1 < u64_mod
      → IsHeld env g a
      → Kept env g w
      → Next g b v
  unfolding Cds.create Eds.create Rds.create Cds.incre_version Eds.incre_version Rds.incre_version
      Lds.incre_version update_cluster update_endpoint update_route update_listener
  Access-Next (Access.make_cds w config) g room held kept =
      let x = Cds.clusters (Cds.incre_version w.cds) config in
      let c = kept.counts in
      let next : (w.cds.version + 1) % u64_mod ≡ suc (length g.cds) = omega (arith, c.cds) in
      let more = Grows-cds g x in
      (
        record g { cds = x ∷ g.cds },
        more,
        omega arith,
        IsEntry-next [] x g.cds ((w.cds.version + 1) % u64_mod) next,
        Kept-grow env more w _ refl refl
            (record { eds = c.eds; cds = next; rds = c.rds; lds = c.lds }) kept,
      )
  Access-Next (Access.make_eds w config) g room held kept =
      let x =
        Eds.eds_endpoints env.order (Eds.incre_version w.eds).opt
          ((Eds.incre_version w.eds).version ∷ []) 0 config in
      let c = kept.counts in
      let next : (w.eds.version + 1) % u64_mod ≡ suc (length g.eds) = omega (arith, c.eds) in
      let more = Grows-eds g x in
      (
        record g { eds = x ∷ g.eds },
        more,
        omega arith,
        IsEntry-next [] x g.eds ((w.eds.version + 1) % u64_mod) next,
        Kept-grow env more w _ refl refl
            (record { eds = next; cds = c.cds; rds = c.rds; lds = c.lds }) kept,
      )
  Access-Next (Access.make_rds w config) g room held kept =
      let x = some (Rds.route_configuration (Rds.incre_version w.rds) config) in
      let c = kept.counts in
      let next : (w.rds.version + 1) % u64_mod ≡ suc (length g.rds) = omega (arith, c.rds) in
      let more = Grows-rds g x in
      (
        record g { rds = x ∷ g.rds },
        more,
        omega arith,
        IsEntry-next none x g.rds ((w.rds.version + 1) % u64_mod) next,
        Kept-grow env more w _ refl refl
            (record { eds = c.eds; cds = c.cds; rds = next; lds = c.lds }) kept,
      )
  Access-Next (Access.make_lds w config) g room held kept =
      elim (Result-cases (Lds.packed_filters env.marshal_any w.lds config)) [
        | inr (e, bad) ↦
            rw (create_err env.marshal_any w.lds config bad)
              (g, Grows-refl g, omega arith, tt, kept)
        | inl (fs, packed) ↦ rw (create_ok env.marshal_any w.lds config packed) (
            let x = some (Lds.listener fs config.listen) in
            let c = kept.counts in
            let next : (w.lds.version + 1) % u64_mod ≡ suc (length g.lds) = omega (arith, c.lds) in
            let more = Grows-lds g x in
            (
              record g { lds = x ∷ g.lds },
              more,
              omega arith,
              IsEntry-next none x g.lds ((w.lds.version + 1) % u64_mod) next,
              Kept-grow env more w _ refl refl
                  (record { eds = c.eds; cds = c.cds; rds = c.rds; lds = next }) kept,
            ))
      ]
  Access-Next (Access.store_cds w v x) g room held kept =
      let had = kept.resource in
      (
        g,
        Grows-refl g,
        omega arith,
        tt,
        Kept-put env g w _ (record { eds = had.eds; cds = held; rds = had.rds; lds = had.lds })
            kept,
      )
  Access-Next (Access.store_eds w v x) g room held kept =
      let had = kept.resource in
      (
        g,
        Grows-refl g,
        omega arith,
        tt,
        Kept-put env g w _ (record { eds = held; cds = had.cds; rds = had.rds; lds = had.lds })
            kept,
      )
  Access-Next (Access.store_rds w v x) g room held kept =
      let had = kept.resource in
      (
        g,
        Grows-refl g,
        omega arith,
        tt,
        Kept-put env g w _ (record { eds = had.eds; cds = had.cds; rds = held; lds = had.lds })
            kept,
      )
  Access-Next (Access.store_lds w v x) g room held kept =
      let had = kept.resource in
      (
        g,
        Grows-refl g,
        omega arith,
        tt,
        Kept-put env g w _ (record { eds = had.eds; cds = had.cds; rds = had.rds; lds = held })
            kept,
      )
  Access-Next (Access.build w n s done) g room held kept =
      let (named, made, good) = snapshot-accepted env.api w.resource n s done in
      (g, Grows-refl g, omega arith, (w.resource, kept.resource, named, made), kept)
  Access-Next (Access.set w q) g room held kept = (
    g,
    Grows-refl g,
    omega arith,
    tt,
    record {
      counts = record {
        eds = kept.counts.eds;
        cds = kept.counts.cds;
        rds = kept.counts.rds;
        lds = kept.counts.lds;
      };
      resource = kept.resource;
      published = (held, kept.published);
    },
  )

  Run-Next :
      {w v : State env} {a b : Hand env} (run : Run env w a b v)
      → steps env run < u64_mod
      → Kept env empty w
      → (g : Ledger p) × (size g ≤ steps env run) × IsHeld env g a × IsHeld env g b × Kept env g v
  Run-Next Run.start room kept = (empty, omega arith, tt, tt, kept)
  Run-Next {b = b} (Run.left c u run access) room kept =
      let (g, fits, mine, other, before) = Run-Next run (omega arith) kept in
      let (h, grows, more, held, after) = Access-Next access g (omega arith) mine before in
      (h, omega arith, held, IsHeld-grow env grows b other, after)
  Run-Next {a = a} (Run.right c u run access) room kept =
      let (g, fits, other, mine, before) = Run-Next run (omega arith) kept in
      let (h, grows, more, held, after) = Access-Next access g (omega arith) mine before in
      (h, omega arith, IsHeld-grow env grows a other, held, after)

  start-Kept :
      (node : Text) (funcs : List WatchOptFunc)
      → Kept env empty (new_watch_file p env.api.Snapshot node funcs)
  unfolding new_watch_file new_resource Cds.new_cluster_discovery_service
      Eds.new_endpoint_discovery_service Rds.new_route_discovery_service
      Lds.new_listener_discovery_service entry
  start-Kept node funcs = record {
    counts = record { eds = refl; cds = refl; rds = refl; lds = refl };
    resource = record {
      eds = (0, omega arith, sym zero-named, refl);
      cds = (0, omega arith, sym zero-named, refl);
      rds = (0, omega arith, sym zero-named, refl);
      lds = (0, omega arith, sym zero-named, refl);
    };
    published = tt;
  }

  -- From a new object, however the accesses of the two goroutines interleave, two publications
  -- under one version carry one and the same snapshot, while fewer steps were taken than a counter
  -- has values.
  pub Run-same :
      (node : Text) (funcs : List WatchOptFunc) {a b : Hand env} {v : State env}
      (run : Run env (new_watch_file p env.api.Snapshot node funcs) a b v)
      → steps env run < u64_mod
      → (q r : Publication env.api.Snapshot) → Memᴰ q v.published
      → Memᴰ r v.published
      → q.version ≡ r.version
      → q.snapshot ≡ r.snapshot
  Run-same node funcs {v = v} run room q r here there same =
      let (g, _, _, _, kept) = Run-Next run room (start-Kept node funcs) in
      let (x, x_made, x_named, x_built) =
        All-Mem (IsLogged env g) v.published here kept.published in
      let (y, y_made, y_named, y_built) =
        All-Mem (IsLogged env g) v.published there kept.published in
      let versions : version x ≡ version y = sym x_named ∙ same ∙ y_named in
      let maps = IsResource-same g x y x_made y_made versions in
      ok_inj (sym x_built ∙ ap₂ env.api.new_snapshot versions maps ∙ y_built)
