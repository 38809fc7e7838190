-- ===== src/Watch/Reload.antt =====
-- `ReloadAll`: when it succeeds, and how far it has come when it fails.
use example_envoy_xds.Base.{List, ◌∷◌, none, ok, err, ◌≡◌, refl}
use example_envoy_xds.Xds.{Proto}
use example_envoy_xds.Lds
use example_envoy_xds.Lds.{TypedFilter}
use example_envoy_xds.Resource.{version, resource_map}
use example_envoy_xds.Resource.Snapshot.{snapshot_ok}
use example_envoy_xds.Watch.World.{Env, Reads}
use example_envoy_xds.Watch.{State, reload_all}
use example_envoy_xds.Watch.Steps.{
  Configs, load_all, three_after, four_after, reload_all_lem, update_all_lem, update_lds_ok,
  update_lds_err,
}
use example_envoy_xds.Watch.Outcome.{update_snapshot_ok}

module _ {p : Proto} (env : Env p) (reads : Reads p) (w : State env) where
  -- If one of the four files cannot be read, decoded or validated, `ReloadAll` returns the first
  -- such error, in the order clusters, endpoints, routes, listener, and changes nothing.
  pub reload_all-load_err :
      {e : p.Error} → load_all env reads w.opt ≡ err e → reload_all env reads w ≡ (w, err e)
  reload_all-load_err bad = rw (reload_all_lem env reads w) (rw bad refl)

  -- If the files load but a message of the listener cannot be packed, `ReloadAll` returns that
  -- error and publishes nothing, yet the clusters, endpoints and routes are already the new ones.
  pub reload_all-pack_err :
      (cs : Configs) {e : p.Error}
      → load_all env reads w.opt ≡ ok cs
      → Lds.packed_filters env.marshal_any w.lds cs.lds ≡ err e
      → reload_all env reads w ≡ (three_after env cs.cds cs.eds cs.rds w, err e)
  reload_all-pack_err cs loaded bad = rw (reload_all_lem env reads w) (
      rw loaded (
        rw (update_all_lem env cs.cds cs.eds cs.rds cs.lds w)
          (rw (update_lds_err env cs.lds (three_after env cs.cds cs.eds cs.rds w) bad) refl)))

  -- If the files load, the listener's messages can be packed, and the snapshot of the four new
  -- resources can be built and is consistent, then `ReloadAll` succeeds and publishes it.
  pub reload_all-ok :
      (cs : Configs) (fs : List (TypedFilter p)) (s : env.api.Snapshot)
      → load_all env reads w.opt ≡ ok cs
      → Lds.packed_filters env.marshal_any w.lds cs.lds ≡ ok fs
      → env.api.new_snapshot
          (version (four_after env cs fs w).resource)
          (resource_map (four_after env cs fs w).resource)
        ≡ ok s
      → env.api.consistent s ≡ none
      → reload_all env reads w ≡ (
        record (four_after env cs fs w) {
          published =
              (record {
                node_id = w.node_id;
                version = version (four_after env cs fs w).resource;
                snapshot = s;
              })
              ∷ w.published;
        },
        ok tt,
      )
  reload_all-ok cs fs s loaded packed built good =
      let u = three_after env cs.cds cs.eds cs.rds w in
      rw (reload_all_lem env reads w) (
        rw loaded (
          rw (update_all_lem env cs.cds cs.eds cs.rds cs.lds w) (
            rw (update_lds_ok env cs.lds u packed) (
              update_snapshot_ok env (four_after env cs fs w) s
                (snapshot_ok env.api (four_after env cs fs w).resource s built good)))))
