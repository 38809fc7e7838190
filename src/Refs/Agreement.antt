-- ===== src/Refs/Agreement.antt =====
-- A full reload against the names in its files, given what the snapshot library says of `NewSnapshot`
-- and `Consistent`: that the endpoint resources are exactly those that the clusters ask for by name,
-- and the route resources exactly those that the listeners ask for.
use example_envoy_xds.Base.{
  List, [], ◌∷◌, map, Text, none, ok, ◌≡◌, refl, sym, ap, subst, ◌∙◌, ◌↔◌, inl, inr, bind-ok,
  ok_inj, err-ne-ok,
}
use example_envoy_xds.Xds.{Proto}
use example_envoy_xds.Cds
use example_envoy_xds.Cds.{Cluster}
use example_envoy_xds.Eds
use example_envoy_xds.Eds.{ClusterLoadAssignment}
use example_envoy_xds.Rds
use example_envoy_xds.Rds.{RouteConfiguration}
use example_envoy_xds.Lds
use example_envoy_xds.Lds.{
  Listener, TypedFilter, HttpConnectionManager, connection_manager, MarshalAny,
  ListenerDiscoveryService, packed_filters, http_connection_manager, conn_http_filters,
  accesslog_config, access_log_config, listener_filters, route_specifier, conn_http_accesslog,
}
use example_envoy_xds.Config.{LdsConfig}
use example_envoy_xds.Resource.{
  ResourceMap, version, resource_map, update_cluster, update_endpoint, update_route,
  update_listener,
}
use example_envoy_xds.Refs.{service_names, assignment_names, route_specifier-route_configuration}
use example_envoy_xds.Watch.World.{Env, Reads}
use example_envoy_xds.Watch.{State, reload_all}
use example_envoy_xds.Watch.Steps.{Configs, load_all, four_after, reload, perform}
use example_envoy_xds.Watch.Operations.{Ready, Failed, perform-ok, perform-err}
use example_envoy_xds.Resource.Snapshot.{snapshot-cases}
use example_envoy_xds.Refs.Same.{
  Same, Same-cast, Same-trans, Same-sym, service_of, spelled, service_of_iff,
}
use example_envoy_xds.Refs.Library.{
  asked_endpoints, listed_endpoints, IsIndexed, Documented, clusters-HaveOneService,
}

packed_filters-manager :
    {p : Proto} (marshal_any : MarshalAny p) (s : ListenerDiscoveryService p) (config : LdsConfig)
    (fs : List (TypedFilter p))
    → packed_filters marshal_any s config ≡ ok fs
    → (m : HttpConnectionManager p) × (any : p.AnyMsg) × (marshal_any (connection_manager m)
        ≡ ok any)
      × (fs ≡ listener_filters any)
      × (m.route_specifier ≡ route_specifier s)
unfolding packed_filters http_connection_manager
packed_filters-manager marshal_any s config fs h =
    let (als, _, h₁) =
      bind-ok (marshal_any (access_log_config (accesslog_config config.access_log))) _ h in
    let (m, made, h₂) = bind-ok (http_connection_manager marshal_any s config) _ h₁ in
    let m' = record m { access_log = conn_http_accesslog als } in
    let (any, packed, h₃) = bind-ok (marshal_any (connection_manager m')) _ h₂ in
    let (filters, _, same) = bind-ok (conn_http_filters marshal_any) _ made in
    (m', any, packed, sym (ok_inj h₃), sym (ap (λ x. x.route_specifier) (ok_inj same)))

module _ {p : Proto} (env : Env p) (contents : env.api.Snapshot → ResourceMap p)
    (routes_of : Listener p → List Text) (documented : Documented env contents routes_of)
    (w : State env) (cs : Configs) (fs : List (TypedFilter p))
    (packed : packed_filters env.marshal_any w.lds cs.lds ≡ ok fs) where
  -- the object once the four resources are the new ones
  abbrev v : State env
  v = four_after env cs fs w

  abbrev pub NamesAgree : Type 0
  NamesAgree =
      Same (spelled (map (λ c. c.cluster_name) cs.cds)) (spelled (map (λ e. e.cluster_name) cs.eds))

  routes-Same :
      (r : RouteConfiguration p) (l : Listener p)
      → l.filters ≡ fs
      → (route_specifier w.lds).route_config_name ≡ r.name
      → Same (routes_of l) (r.name ∷ [])
  routes-Same r l filters named =
      let (m, any, marshalled, made, asks) =
        packed_filters-manager env.marshal_any w.lds cs.lds fs packed in
      let one : routes_of l ≡ r.name ∷ [] =
        documented.packed l m any marshalled (filters ∙ made)
        ∙ ap (λ x. x.route_config_name ∷ []) asks
        ∙ ap (λ n. n ∷ []) named in
      rw one ((inl refl, tt), (inl refl, tt))

  asked-services :
      asked_endpoints env (resource_map v.resource).cluster_type
      ≡ map service_of (map (λ c. c.cluster_name) cs.cds)
  unfolding resource_map update_cluster update_endpoint update_route update_listener
  asked-services = service_names (Cds.incre_version w.cds) cs.cds

  listed-services :
      listed_endpoints env (resource_map v.resource).endpoint_type
      ≡ map service_of (map (λ e. e.cluster_name) cs.eds)
  unfolding resource_map update_cluster update_endpoint update_route update_listener
  listed-services =
      let c = Eds.incre_version w.eds in assignment_names env.order c.opt (c.version ∷ []) 0 cs.eds

  consistent_iff :
      (s : env.api.Snapshot)
      → IsIndexed env (contents s) (resource_map v.resource)
      → (env.api.consistent s ≡ none) ↔ NamesAgree
  unfolding resource_map update_cluster update_endpoint update_route update_listener Lds.listener
  consistent_iff s (by_asked, by_listed, routed, listens) =
      let r = Rds.route_configuration (Rds.incre_version w.rds) cs.rds in
      let l = Lds.listener fs cs.lds.listen in
      let (to, from) = documented.consistent s r l routed listens in
      let (spell, unspell) =
        service_of_iff (map (λ c. c.cluster_name) cs.cds) (map (λ e. e.cluster_name) cs.eds) in
      let a = asked_endpoints env (contents s).cluster_type in
      let b = asked_endpoints env (resource_map v.resource).cluster_type in
      let d = listed_endpoints env (resource_map v.resource).endpoint_type in
      let e = listed_endpoints env (contents s).endpoint_type in
      (
        λ good. spell (
            Same-cast asked-services listed-services
              (Same-trans b e d (Same-trans b a e (Same-sym a b by_asked) (to good).0) by_listed)),
        λ same. from (
          Same-trans a d e
              (Same-trans a b d by_asked
                (Same-cast (sym asked-services) (sym listed-services) (unspell same)))
              (Same-sym e d by_listed),
          routes-Same r l refl
              (route_specifier-route_configuration w.lds (Rds.incre_version w.rds) cs.rds),
        ),
      )

  module _ (reads : Reads p) (loaded : load_all env reads w.opt ≡ ok cs) where
    reload-ready : Ready env w (reload reads) v
    reload-ready = Ready.all reads cs fs loaded packed

    agreeing :
        (s : env.api.Snapshot)
        → env.api.new_snapshot (version v.resource) (resource_map v.resource) ≡ ok s
        → IsIndexed env (contents s) (resource_map v.resource)
        → NamesAgree
        → (reload_all env reads w).1 ≡ ok tt
    unfolding perform
    agreeing s built holds same =
        ap (λ r. r.1)
          (perform-ok env w (reload reads) v s reload-ready
            (built, (consistent_iff s holds).1 same))

    succeeded :
        (s : env.api.Snapshot)
        → env.api.new_snapshot (version v.resource) (resource_map v.resource) ≡ ok s
        → IsIndexed env (contents s) (resource_map v.resource)
        → (reload_all env reads w).1 ≡ ok tt
        → NamesAgree
    unfolding perform
    succeeded s built holds done = elim (snapshot-cases env.api v.resource) [
      | inl (e, bad) ↦ absurd (
          err-ne-ok (
            sym (
              ap (λ r. r.1)
                (perform-err env w (reload reads) v e
                  (Failed.refused (reload reads) v e reload-ready bad)))
            ∙ done))
      | inr (t, _, made, good) ↦
          let same : s ≡ t = ok_inj (sym built ∙ made) in
          (consistent_iff t
              (subst (λ x. IsIndexed env (contents x) (resource_map v.resource)) same holds)).0
            good
    ]

    -- If the files load and the listener can be packed, then `ReloadAll` succeeds exactly when the
    -- cluster file and the endpoint file name the same clusters, in any order and up to the
    -- spelling of dashes; this takes the snapshot library to do what it documents.
    pub reload_all-NamesAgree : ((reload_all env reads w).1 ≡ ok tt) ↔ NamesAgree
    unfolding resource_map update_cluster update_endpoint update_route update_listener Lds.listener
    reload_all-NamesAgree =
        let (s, built, holds) =
          documented.built (version v.resource) (resource_map v.resource)
            (Rds.route_configuration (Rds.incre_version w.rds) cs.rds)
            (Lds.listener fs cs.lds.listen) refl refl
            (clusters-HaveOneService env (Cds.incre_version w.cds) cs.cds) in
        (succeeded s built holds, agreeing s built holds)
