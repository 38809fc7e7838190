-- ===== src/Server/Files.antt =====
-- What a full reload that succeeds makes of its four files: the first thing that serverAction of
-- cli/server/server.go asks of the object.
use example_envoy_xds.Base.{
  List, [], ◌∷◌, map, codes, some, ok, ◌≡◌, refl, sym, ap, ◌∙◌, err-ne-ok, inl, inr,
}
use example_envoy_xds.Config.{CdsConfig, RdsConfig}
use example_envoy_xds.Names.{xds_name}
use example_envoy_xds.Xds.{Proto}
use example_envoy_xds.Cds
use example_envoy_xds.Rds
use example_envoy_xds.Rds.{
  RouteConfiguration, RouteDiscoveryService, route_configuration, virtual_hosts, virtual_host,
}
use example_envoy_xds.Lds.{Listener, TypedFilter, packed_filters, listener}
use example_envoy_xds.Resource.{
  Resource, update_cluster, update_endpoint, update_route, update_listener,
}
use example_envoy_xds.Refs.{assignment_names}
use example_envoy_xds.Watch.World.{Env, Reads}
use example_envoy_xds.Watch.{State, reload_all}
use example_envoy_xds.Watch.Steps.{Configs, reload, perform, load_all, four_after}
use example_envoy_xds.Watch.Outcome.{IsSnapshot, published_after}
use example_envoy_xds.Watch.Operations.{Ready}
use example_envoy_xds.Watch.Branches.{perform-IsDescribed}

cluster_names :
    {p : Proto} (c : Cds.ClusterDiscoveryService p) (cs : List CdsConfig)
    → map (λ x. x.name) (Cds.clusters c cs)
      ≡ map (λ x. xds_name (codes "example-xds-cluster" ∷ x.cluster_name ∷ [])) cs
unfolding Cds.clusters Cds.cluster_config
cluster_names c [] = refl
cluster_names c (x ∷ cs) =
    ap (◌∷◌ (xds_name (codes "example-xds-cluster" ∷ x.cluster_name ∷ []))) (cluster_names c cs)

host_names :
    {p : Proto} (r : RouteDiscoveryService p) (cs : List RdsConfig)
    → map (λ v. v.name) (virtual_hosts r cs)
      ≡ map (λ x. xds_name (codes "example-xds-vhost" ∷ x.vhost_name ∷ [])) cs
unfolding virtual_hosts virtual_host
host_names r [] = refl
host_names r (x ∷ cs) =
    ap (◌∷◌ (xds_name (codes "example-xds-vhost" ∷ x.vhost_name ∷ []))) (host_names r cs)

host_domains :
    {p : Proto} (r : RouteDiscoveryService p) (cs : List RdsConfig)
    → map (λ v. v.domains) (virtual_hosts r cs) ≡ map (λ x. x.domain) cs
unfolding virtual_hosts virtual_host
host_domains r [] = refl
host_domains r (x ∷ cs) = ap (◌∷◌ x.domain) (host_domains r cs)

-- the resources have the clusters, the assignments and the virtual hosts of the files, by their
-- names, and the packed messages of the listener
abbrev pub IsOfFiles : {p : Proto} → Configs → List (TypedFilter p) → Resource p → Type 0
IsOfFiles {p} cs fs x =
    (map (λ c. c.name) x.clusters
      ≡ map (λ c. xds_name (codes "example-xds-cluster" ∷ c.cluster_name ∷ [])) cs.cds)
    × (map (λ a. a.cluster_name) x.endpoints
        ≡ map (λ n. xds_name (codes "example-xds-eds" ∷ n ∷ [])) (map (λ c. c.cluster_name) cs.eds))
    × ((r : RouteConfiguration p) × (x.route ≡ some r)
        × (map (λ v. v.name) r.virtual_hosts
            ≡ map (λ c. xds_name (codes "example-xds-vhost" ∷ c.vhost_name ∷ [])) cs.rds)
        × (map (λ v. v.domains) r.virtual_hosts ≡ map (λ c. c.domain) cs.rds))
    × ((l : Listener p) × (x.listener ≡ some l) × (l.filters ≡ fs))

module _ {p : Proto} (env : Env p) where
  pub four_after-IsOfFiles :
      (cs : Configs) (fs : List (TypedFilter p)) (w : State env)
      → IsOfFiles cs fs (four_after env cs fs w).resource
  unfolding update_cluster update_endpoint update_route update_listener route_configuration listener
  four_after-IsOfFiles cs fs w =
      let r = Rds.incre_version w.rds in
      (
        cluster_names (Cds.incre_version w.cds) cs.cds,
        assignment_names env.order _ _ 0 cs.eds,
        (route_configuration r cs.rds, refl, host_names r cs.rds, host_domains r cs.rds),
        (listener fs cs.lds.listen, refl, refl),
      )

  -- what a reload that succeeds has done
  abbrev pub Reloaded : Reads p → State env → State env → Type 0
  Reloaded reads w v =
      (cs : Configs) × (fs : List (TypedFilter p)) × (s : env.api.Snapshot) × (load_all env reads
          w.opt
        ≡ ok cs)
      × (packed_filters env.marshal_any w.lds cs.lds ≡ ok fs)
      × IsSnapshot env s (four_after env cs fs w)
      × (v ≡ published_after env s (four_after env cs fs w))

  Ready-Reloaded :
      (reads : Reads p) (w v u : State env) (s : env.api.Snapshot)
      → Ready env w (reload reads) u
      → IsSnapshot env s u
      → v ≡ published_after env s u
      → Reloaded reads w v
  Ready-Reloaded reads w v u s (Ready.all _ cs fs loaded packed) good same =
      (cs, fs, s, loaded, packed, good, same)

  pub reload_all-Reloaded :
      (reads : Reads p) (w v : State env) → reload_all env reads w ≡ (v, ok tt) → Reloaded reads w v
  unfolding perform
  reload_all-Reloaded reads w v h = elim (perform-IsDescribed env w (reload reads)) [
    | inl (u, s, ready, good, did) ↦
        Ready-Reloaded reads w v u s ready good (ap (λ r. r.0) (sym h ∙ did))
    | inr (u, e, _, failed) ↦ absurd (err-ne-ok (ap (λ r. r.1) (sym failed ∙ h)))
  ]
