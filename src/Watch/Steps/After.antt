-- ===== src/Watch/Steps/After.antt =====
-- The object after each of the four updates of watch.go, and when they succeed.
use example_envoy_xds.Base.{List, [], ◌∷◌, refl, ok, err, ◌≡◌}
use example_envoy_xds.Config.{CdsConfig, EdsConfig, RdsConfig, LdsConfig}
use example_envoy_xds.Decimal.{format_uint}
use example_envoy_xds.Resource.{update_cluster, update_endpoint, update_route, update_listener}
use example_envoy_xds.Xds.{Proto}
use example_envoy_xds.Cds
use example_envoy_xds.Eds
use example_envoy_xds.Rds
use example_envoy_xds.Lds
use example_envoy_xds.Lds.{TypedFilter}
use example_envoy_xds.Lds.Laws
use example_envoy_xds.Watch.World.{Env}
use example_envoy_xds.Watch.{State, update_cds, update_eds, update_rds, update_lds}

module _ {p : Proto} (env : Env p) where
  -- the object after each update that succeeds
  abbrev pub cds_after : List CdsConfig → State env → State env
  cds_after config w =
      let c = Cds.incre_version w.cds in
      record w {
        cds = c;
        resource = update_cluster (format_uint c.version) (Cds.clusters c config) w.resource;
      }

  abbrev pub eds_after : List EdsConfig → State env → State env
  eds_after config w =
      let c = Eds.incre_version w.eds in
      record w {
        eds = c;
        resource =
            update_endpoint (format_uint c.version)
              (Eds.eds_endpoints env.order c.opt (c.version ∷ []) 0 config) w.resource;
      }

  abbrev pub rds_after : List RdsConfig → State env → State env
  rds_after config w =
      let c = Rds.incre_version w.rds in
      record w {
        rds = c;
        resource =
            update_route (format_uint c.version) (Rds.route_configuration c config) w.resource;
      }

  abbrev pub lds_after : LdsConfig → List (TypedFilter p) → State env → State env
  lds_after config filters w =
      let c = Lds.incre_version w.lds in
      record w {
        lds = c;
        resource =
            update_listener (format_uint c.version) (Lds.listener filters config.listen) w.resource;
      }

  pub update_cds_lem :
      (config : List CdsConfig) (w : State env)
      → update_cds env config w ≡ (cds_after config w, ok tt)
  unfolding update_cds Cds.create
  update_cds_lem config w = refl

  pub update_eds_lem :
      (config : List EdsConfig) (w : State env)
      → update_eds env config w ≡ (eds_after config w, ok tt)
  unfolding update_eds Eds.create
  update_eds_lem config w = refl

  pub update_rds_lem :
      (config : List RdsConfig) (w : State env)
      → update_rds env config w ≡ (rds_after config w, ok tt)
  unfolding update_rds Rds.create
  update_rds_lem config w = refl

  pub update_lds_ok :
      (config : LdsConfig) (w : State env) {fs : List (TypedFilter p)}
      → Lds.packed_filters env.marshal_any w.lds config ≡ ok fs
      → update_lds env config w ≡ (lds_after config fs w, ok tt)
  unfolding update_lds
  update_lds_ok config w packed =
      let created = Laws.create_ok env.marshal_any w.lds config packed in
      rw (created, update_lds) (rw created)

  pub update_lds_err :
      (config : LdsConfig) (w : State env) {e : p.Error}
      → Lds.packed_filters env.marshal_any w.lds config ≡ err e
      → update_lds env config w ≡ (w, err e)
  unfolding update_lds
  update_lds_err config w bad =
      let failed = Laws.create_err env.marshal_any w.lds config bad in
      rw (failed, update_lds) (rw failed)
