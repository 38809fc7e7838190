-- ===== src/Refs/TwoFiles.antt =====
-- A change that is spread over the cluster file and the endpoint file, as an operator makes it: the
-- first file may leave the snapshot inconsistent until the second one has changed too.
use example_envoy_xds.Base.{
  List, [], ◌∷◌, map, Text, some, Result, ok, ◌≡◌, refl, sym, ap, subst, ◌∙◌, inl, inr,
}
use example_envoy_xds.Config.{CdsConfig, EdsConfig}
use example_envoy_xds.Xds.{Proto}
use example_envoy_xds.Cds
use example_envoy_xds.Eds
use example_envoy_xds.Rds.{RouteConfiguration}
use example_envoy_xds.Lds.{Listener}
use example_envoy_xds.Resource.{
  Resource, ResourceMap, version, resource_map, update_cluster, update_endpoint,
}
use example_envoy_xds.Resource.Snapshot.{snapshot-cases}
use example_envoy_xds.Refs.{service_names, assignment_names}
use example_envoy_xds.Refs.Same.{Same, Same-cast, Same-trans, Same-sym, spelled, service_of_iff}
use example_envoy_xds.Refs.Library.{
  asked_endpoints, listed_endpoints, Documented, HaveOneService, clusters-HaveOneService,
}
use example_envoy_xds.Watch.World.{Env, ReadFile}
use example_envoy_xds.Watch.Load.{load_cds, load_eds}
use example_envoy_xds.Watch.{State, Publication, update_snapshot}
use example_envoy_xds.Watch.Steps.{perform, change_cds, change_eds, cds_after, eds_after}
use example_envoy_xds.Watch.Outcome.{
  IsSnapshot, published_after, update_snapshot_err, update_snapshot_ok,
}
use example_envoy_xds.Watch.Operations.{Ready, Ready-perform, perform-ok}

module _ {p : Proto} (env : Env p) where
  -- an attempt to publish changes nothing but what is published
  update_snapshot-same :
      (v : State env)
      → (ps : List (Publication env.api.Snapshot)) × ((update_snapshot env v).0
          ≡ record v { published = ps })
  update_snapshot-same v = elim (snapshot-cases env.api v.resource) [
    | inl (e, bad) ↦ (v.published, rw (update_snapshot_err env v bad) refl)
    | inr (s, done, built, good) ↦
        ((published_after env s v).published, rw (update_snapshot_ok env v s done) refl)
  ]

  -- From the object `u` an operation has succeeded and added one consistent snapshot to what was
  -- published: of the clusters and the endpoints that `w` makes of the two files, and of its routes
  -- and its listener.
  abbrev pub IsPublished :
      State env
      → List CdsConfig
      → List EdsConfig
      → State env
      → State env × Result p.Error (Unit {0})
      → Type 0
  IsPublished w c e u (v, r) =
      (s : env.api.Snapshot) × (r ≡ ok tt)
      × (v.published
          ≡ (record { node_id = w.node_id; version = version v.resource; snapshot = s })
            ∷ u.published)
      × IsSnapshot env s v
      × (v.resource.clusters ≡ Cds.clusters (Cds.incre_version w.cds) c)
      × (v.resource.endpoints
          ≡ Eds.eds_endpoints env.order (Eds.incre_version w.eds).opt
              ((Eds.incre_version w.eds).version ∷ []) 0 e)
      × (v.resource.route ≡ w.resource.route)
      × (v.resource.listener ≡ w.resource.listener)

module _ {p : Proto} (env : Env p) (contents : env.api.Snapshot → ResourceMap p)
    (routes_of : Listener p → List Text) (documented : Documented env contents routes_of) where
  -- there are routes and a listener, which asks for just them
  abbrev pub HasRoutes : Resource p → Type 0
  HasRoutes x =
      (r : RouteConfiguration p) × (l : Listener p) × (x.route ≡ some r)
      × (x.listener ≡ some l)
      × Same (routes_of l) (r.name ∷ [])

  Same-IsSnapshot :
      (v : State env)
      → HasRoutes v.resource
      → HaveOneService env v.resource.clusters
      → Same (asked_endpoints env v.resource.clusters) (listed_endpoints env v.resource.endpoints)
      → (s : env.api.Snapshot) × IsSnapshot env s v
  unfolding resource_map
  Same-IsSnapshot v (r, l, route, listener, asks) one same =
      let routed : v.resource.route ∷ [] ≡ some r ∷ [] = ap (λ o. o ∷ []) route in
      let listens : v.resource.listener ∷ [] ≡ some l ∷ [] = ap (λ o. o ∷ []) listener in
      let (s, built, (by_asked, by_listed, routes, listeners)) =
        documented.built (version v.resource) (resource_map v.resource) r l routed listens one in
      let (_, from) = documented.consistent s r l (routes ∙ routed) (listeners ∙ listens) in
      let a = asked_endpoints env (contents s).cluster_type in
      let b = asked_endpoints env v.resource.clusters in
      let d = listed_endpoints env v.resource.endpoints in
      let e = listed_endpoints env (contents s).endpoint_type in
      let agreed = Same-trans a d e (Same-trans a b d by_asked same) (Same-sym e d by_listed) in
      (s, (built, from (agreed, asks)))

  module _ (w : State env) (c : List CdsConfig) (e : List EdsConfig)
      (same : Same (spelled (map (λ x. x.cluster_name) c)) (spelled (map (λ x. x.cluster_name) e)))
      (routed : HasRoutes w.resource) where
    named : HaveOneService env (Cds.clusters (Cds.incre_version w.cds) c)
    named = clusters-HaveOneService env (Cds.incre_version w.cds) c

    services : Same (asked_endpoints env (Cds.clusters (Cds.incre_version w.cds) c)) (
        listed_endpoints env (
          Eds.eds_endpoints env.order
            (Eds.incre_version w.eds).opt
            ((Eds.incre_version w.eds).version ∷ [])
            0
            e))
    services =
        let eds = Eds.incre_version w.eds in
        Same-cast (sym (service_names (Cds.incre_version w.cds) c))
          (sym (assignment_names env.order eds.opt (eds.version ∷ []) 0 e))
          ((service_of_iff (map (λ x. x.cluster_name) c) (map (λ x. x.cluster_name) e)).1 same)

    module _ (read_cds read_eds : ReadFile p) (loaded_cds : load_cds env read_cds w.opt ≡ ok c)
        (loaded_eds : load_eds env read_eds w.opt ≡ ok e) where
      second-eds :
          (ps : List (Publication env.api.Snapshot))
          → IsPublished env w c e
              (record (cds_after env c w) { published = ps })
              (perform env (change_eds read_eds) (record (cds_after env c w) { published = ps }))
      unfolding update_cluster update_endpoint
      second-eds ps =
          let u = record (cds_after env c w) { published = ps } in
          let v = eds_after env e u in
          let (s, good) = Same-IsSnapshot v routed named services in
          subst (IsPublished env w c e u)
            (sym
              (perform-ok env u (change_eds read_eds) v s (Ready.eds read_eds e loaded_eds) good))
            (s, refl, refl, good, refl, refl, refl, refl)

      second-cds :
          (ps : List (Publication env.api.Snapshot))
          → IsPublished env w c e
              (record (eds_after env e w) { published = ps })
              (perform env (change_cds read_cds) (record (eds_after env e w) { published = ps }))
      unfolding update_cluster update_endpoint
      second-cds ps =
          let u = record (eds_after env e w) { published = ps } in
          let v = cds_after env c u in
          let (s, good) = Same-IsSnapshot v routed named services in
          subst (IsPublished env w c e u)
            (sym
              (perform-ok env u (change_cds read_cds) v s (Ready.cds read_cds c loaded_cds) good))
            (s, refl, refl, good, refl, refl, refl, refl)

      -- If the new cluster file and the new endpoint file load and name the same clusters, up to
      -- the spelling of dashes, while the object holds routes and a listener that asks for just
      -- them, then the second of the two changes succeeds, in either order and whatever came of the
      -- first, and adds one publication: a consistent snapshot, under its version, of the new
      -- clusters, the new endpoints and the same routes and listener. This takes the snapshot
      -- library to do what it documents.
      pub two_files-IsPublished :
          IsPublished env w c e
            (perform env (change_cds read_cds) w).0
            (perform env (change_eds read_eds) (perform env (change_cds read_cds) w).0)
          × IsPublished env w c e
              (perform env (change_eds read_eds) w).0
              (perform env (change_cds read_cds) (perform env (change_eds read_eds) w).0)
      two_files-IsPublished =
          let (ps, after_cds) = update_snapshot-same env (cds_after env c w) in
          let (qs, after_eds) = update_snapshot-same env (eds_after env e w) in
          let first_cds = Ready-perform env w (Ready.cds read_cds c loaded_cds) in
          let first_eds = Ready-perform env w (Ready.eds read_eds e loaded_eds) in
          (
            subst (λ u. IsPublished env w c e u (perform env (change_eds read_eds) u))
                (sym (ap (λ r. r.0) first_cds ∙ after_cds)) (second-eds ps),
            subst (λ u. IsPublished env w c e u (perform env (change_cds read_cds) u))
                (sym (ap (λ r. r.0) first_eds ∙ after_eds)) (second-cds qs),
          )
