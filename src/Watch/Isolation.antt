-- ===== src/Watch/Isolation.antt =====
-- What each operation leaves alone.
use example_envoy_xds.Base.{ℕ, List, Result, ◌≡◌, refl, ◌∙◌, inl, inr, Result-cases}
use example_envoy_xds.Xds.{Proto}
use example_envoy_xds.Resource.{
  current_cluster, current_endpoint, current_route, current_listener, update_cluster,
  update_endpoint, update_route, update_listener,
}
use example_envoy_xds.Resource.Snapshot.{snapshot-cases}
use example_envoy_xds.Lds
use example_envoy_xds.Watch.World.{Env}
use example_envoy_xds.Watch.Load.{load_cds, load_eds, load_rds, load_lds}
use example_envoy_xds.Watch.{
  State, Publication, update_snapshot, change_cds_yaml, change_eds_yaml, change_rds_yaml,
  change_lds_yaml,
}
use example_envoy_xds.Watch.Steps.{
  Command, change_cds, change_eds, change_rds, change_lds, reload, perform, perform-Performed,
  Update, Updates, Performed, cds_after, eds_after, rds_after, lds_after, update_cds_lem,
  update_eds_lem, update_rds_lem, update_lds_ok, update_lds_err,
}
use example_envoy_xds.Watch.Outcome.{update_snapshot_ok, update_snapshot_err}

module _ {p : Proto} (env : Env p) where
  abbrev pub KeepsCds : State env → State env → Type 0
  KeepsCds w v = (v.cds ≡ w.cds) × (current_cluster v.resource ≡ current_cluster w.resource)

  abbrev pub KeepsEds : State env → State env → Type 0
  KeepsEds w v = (v.eds ≡ w.eds) × (current_endpoint v.resource ≡ current_endpoint w.resource)

  abbrev pub KeepsRds : State env → State env → Type 0
  KeepsRds w v = (v.rds ≡ w.rds) × (current_route v.resource ≡ current_route w.resource)

  abbrev pub KeepsLds : State env → State env → Type 0
  KeepsLds w v = (v.lds ≡ w.lds) × (current_listener v.resource ≡ current_listener w.resource)

  -- what an operation is not about; every operation keeps the options
  abbrev pub Untouched : Command p → State env → State env → Type 0
  Untouched (change_cds read) w v = (v.opt ≡ w.opt) × KeepsEds w v × KeepsRds w v × KeepsLds w v
  Untouched (change_eds read) w v = (v.opt ≡ w.opt) × KeepsCds w v × KeepsRds w v × KeepsLds w v
  Untouched (change_rds read) w v = (v.opt ≡ w.opt) × KeepsCds w v × KeepsEds w v × KeepsLds w v
  Untouched (change_lds read) w v = (v.opt ≡ w.opt) × KeepsCds w v × KeepsEds w v × KeepsRds w v
  Untouched (reload reads) w v = v.opt ≡ w.opt

  -- publishing touches none of that
  Untouched-update_snapshot :
      (c : Command p) (w v : State env) → Untouched c w v → Untouched c w (update_snapshot env v).0
  Untouched-update_snapshot c w v h = elim (snapshot-cases env.api v.resource) [
    | inl (e, bad) ↦ rw (update_snapshot_err env v bad) h
    | inr (s, done, built, good) ↦ rw (update_snapshot_ok env v s done) (published _ c h)
  ]
    where
      published :
          (q : List (Publication env.api.Snapshot)) (c : Command p)
          → Untouched c w v
          → Untouched c w (record v { published = q })
      published q (change_cds read) h = h
      published q (change_eds read) h = h
      published q (change_rds read) h = h
      published q (change_lds read) h = h
      published q (reload reads) h = h

  Update-opt : {w v : State env} → Update env w v → v.opt ≡ w.opt
  Update-opt (Update.cds config) = refl
  Update-opt (Update.eds config) = refl
  Update-opt (Update.rds config) = refl
  Update-opt (Update.lds config fs packed) = refl

  Updates-opt : {w : State env} {n : ℕ} {v : State env} → Updates env w n v → v.opt ≡ w.opt
  Updates-opt Updates.start = refl
  Updates-opt (Updates.more us u) = Update-opt u ∙ Updates-opt us

  Performed-opt :
      (c : Command p) {w : State env} {r : State env × Result p.Error (Unit {0})}
      → Performed env w r
      → r.0.opt ≡ w.opt
  Performed-opt c (Performed.failed few us e) = Updates-opt us
  Performed-opt c (Performed.reached {u = u} few us step) =
      elim (snapshot-cases env.api u.resource) [
        | inl (e, bad) ↦ rw (update_snapshot_err env u bad) (Updates-opt (Updates.more us step))
        | inr (s, done, built, good) ↦
            rw (update_snapshot_ok env u s done) (Updates-opt (Updates.more us step))
      ]

  pub perform-opt : (c : Command p) (w : State env) → (perform env c w).0.opt ≡ w.opt
  perform-opt c w = Performed-opt c (perform-Performed env c w)

  -- Reloading one kind of file leaves the services and the resources of the other three kinds, with
  -- their versions, as they were, on every branch; no operation changes the options.
  pub perform-Untouched : (c : Command p) (w : State env) → Untouched c w (perform env c w).0
  unfolding perform change_cds_yaml change_eds_yaml change_rds_yaml change_lds_yaml update_cluster
      update_endpoint update_route update_listener current_cluster current_endpoint current_route
      current_listener
  perform-Untouched (change_cds read) w = elim (Result-cases (load_cds env read w.opt)) [
    | inr (e, bad) ↦ rw (bad, change_cds_yaml) (refl, (refl, refl), (refl, refl), (refl, refl))
    | inl (config, loaded) ↦
        rw (loaded, change_cds_yaml)
          (rw (update_cds_lem env config w) (
            Untouched-update_snapshot (change_cds read) w (cds_after env config w)
              (refl, (refl, refl), (refl, refl), (refl, refl))))
  ]
  perform-Untouched (change_eds read) w = elim (Result-cases (load_eds env read w.opt)) [
    | inr (e, bad) ↦ rw (bad, change_eds_yaml) (refl, (refl, refl), (refl, refl), (refl, refl))
    | inl (config, loaded) ↦
        rw (loaded, change_eds_yaml)
          (rw (update_eds_lem env config w) (
            Untouched-update_snapshot (change_eds read) w (eds_after env config w)
              (refl, (refl, refl), (refl, refl), (refl, refl))))
  ]
  perform-Untouched (change_rds read) w = elim (Result-cases (load_rds env read w.opt)) [
    | inr (e, bad) ↦ rw (bad, change_rds_yaml) (refl, (refl, refl), (refl, refl), (refl, refl))
    | inl (config, loaded) ↦
        rw (loaded, change_rds_yaml)
          (rw (update_rds_lem env config w) (
            Untouched-update_snapshot (change_rds read) w (rds_after env config w)
              (refl, (refl, refl), (refl, refl), (refl, refl))))
  ]
  perform-Untouched (change_lds read) w = elim (Result-cases (load_lds env read w.opt)) [
    | inr (e, bad) ↦ rw (bad, change_lds_yaml) (refl, (refl, refl), (refl, refl), (refl, refl))
    | inl (config, loaded) ↦ elim (Result-cases (Lds.packed_filters env.marshal_any w.lds config)) [
      | inr (e, bad) ↦
          rw (loaded, change_lds_yaml)
            (rw (update_lds_err env config w bad) (refl, (refl, refl), (refl, refl), (refl, refl)))
      | inl (fs, packed) ↦
          rw (loaded, change_lds_yaml)
            (rw (update_lds_ok env config w packed) (
              Untouched-update_snapshot (change_lds read) w (lds_after env config fs w)
                (refl, (refl, refl), (refl, refl), (refl, refl))))
    ]
  ]
  perform-Untouched (reload reads) w = perform-opt (reload reads) w
