-- ===== src/Watch/Versions.antt =====
-- The versions of the resources are the counters of their services, and no two snapshots are
-- published under one version.
use example_envoy_xds.Base.{ℕ, Result, ◌≡◌, refl, inl, inr}
use example_envoy_xds.Decimal.{format_uint}
use example_envoy_xds.Xds.{Proto}
use example_envoy_xds.Resource.{update_cluster, update_endpoint, update_route, update_listener}
use example_envoy_xds.Resource.Snapshot.{snapshot-cases}
use example_envoy_xds.Watch.World.{Env}
use example_envoy_xds.Watch.{State, update_snapshot}
use example_envoy_xds.Watch.Steps.{Command, perform, Update, Updates, Performed, perform-Performed}
use example_envoy_xds.Watch.Outcome.{update_snapshot_err, update_snapshot_ok}

module _ {p : Proto} (env : Env p) where
  -- each version of the resources is the print of its service's counter
  pub record Matches (w : State env) : Type 0 where
    pub eds : w.resource.endpoints_version ≡ format_uint w.eds.version
    pub cds : w.resource.clusters_version ≡ format_uint w.cds.version
    pub rds : w.resource.route_version ≡ format_uint w.rds.version
    pub lds : w.resource.listener_version ≡ format_uint w.lds.version

  Update-Matches : {w v : State env} → Update env w v → Matches w → Matches v
  unfolding update_cluster update_endpoint update_route update_listener
  Update-Matches (Update.cds config) m = record {
    eds = m.eds;
    cds = refl;
    rds = m.rds;
    lds = m.lds;
  }
  Update-Matches (Update.eds config) m = record {
    eds = refl;
    cds = m.cds;
    rds = m.rds;
    lds = m.lds;
  }
  Update-Matches (Update.rds config) m = record {
    eds = m.eds;
    cds = m.cds;
    rds = refl;
    lds = m.lds;
  }
  Update-Matches (Update.lds config fs packed) m = record {
    eds = m.eds;
    cds = m.cds;
    rds = m.rds;
    lds = refl;
  }

  pub Updates-Matches :
      {w : State env} {n : ℕ} {v : State env} → Updates env w n v → Matches w → Matches v
  Updates-Matches Updates.start m = m
  Updates-Matches (Updates.more us u) m = Update-Matches u (Updates-Matches us m)

  update_snapshot-Matches : (w : State env) → Matches w → Matches (update_snapshot env w).0
  update_snapshot-Matches w m = elim (snapshot-cases env.api w.resource) [
    | inl (e, bad) ↦ rw (update_snapshot_err env w bad) m
    | inr (s, done, built, good) ↦
        rw (update_snapshot_ok env w s done)
          (record { eds = m.eds; cds = m.cds; rds = m.rds; lds = m.lds })
  ]

  Performed-Matches :
      {w : State env} {r : State env × Result p.Error (Unit {0})}
      → Performed env w r
      → Matches w
      → Matches r.0
  Performed-Matches (Performed.failed few us e) m = Updates-Matches us m
  Performed-Matches (Performed.reached {u = u} few us step) m =
      update_snapshot-Matches u (Updates-Matches (Updates.more us step) m)

  -- Every operation, failing or not, keeps the versions of the four resources equal to the prints
  -- of the counters of their services.
  pub perform-Matches : (c : Command p) (w : State env) → Matches w → Matches (perform env c w).0
  perform-Matches c w m = Performed-Matches (perform-Performed env c w) m
