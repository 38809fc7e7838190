-- ===== src/Watch/Fresh.antt =====
-- No two snapshots are published under one version, until a counter has gone round.
use example_envoy_xds.Base.{
  ℕ, ◌+◌, ◌*◌, ◌≤◌, ◌<◌, List, [], ◌∷◌, map, Text, Result, ◌≡◌, ◌≢◌, refl, ap, sym, ◌∙◌, inl, inr,
  All, All-imp, Distinct, length, u64_mod, arith,
}
use example_envoy_xds.Decimal.{format_uint}
use example_envoy_xds.Xds.{Proto}
use example_envoy_xds.Cds
use example_envoy_xds.Eds
use example_envoy_xds.Rds
use example_envoy_xds.Lds
use example_envoy_xds.Resource.{version, new_resource}
use example_envoy_xds.Resource.Version.{version_of, version_of_inj}
use example_envoy_xds.Resource.Snapshot.{snapshot-cases}
use example_envoy_xds.Watch.World.{Env}
use example_envoy_xds.Watch.Load.{WatchOptFunc}
use example_envoy_xds.Watch.{State, update_snapshot, new_watch_file}
use example_envoy_xds.Watch.Steps.{
  Command, perform, run, Update, Updates, Performed, perform-Performed,
}
use example_envoy_xds.Watch.Outcome.{update_snapshot_err, update_snapshot_ok, Updates-published}
use example_envoy_xds.Watch.Versions.{Matches, Updates-Matches}

module _ {p : Proto} (env : Env p) where
  -- how many versions the services have given out
  abbrev total : State env → ℕ
  total w = w.eds.version + w.cds.version + w.rds.version + w.lds.version

  Update-total : {w v : State env} → Update env w v → total w + 1 < u64_mod → total v ≡ total w + 1
  unfolding Cds.incre_version Eds.incre_version Rds.incre_version Lds.incre_version
  Update-total (Update.cds config) h = omega arith
  Update-total (Update.eds config) h = omega arith
  Update-total (Update.rds config) h = omega arith
  Update-total (Update.lds config fs packed) h = omega arith

  Updates-total :
      {w : State env} {n : ℕ} {v : State env}
      → Updates env w n v
      → total w + n < u64_mod
      → total v ≡ total w + n
  Updates-total Updates.start h = omega arith
  Updates-total (Updates.more us u) h =
      let before = Updates-total us (omega arith) in
      let last = Update-total u (omega (arith, before)) in omega (arith, before, last)

  -- a version that was given when fewer than `n` counts were out, or just then
  abbrev IsPast : ℕ → Text → Type 0
  IsPast n v =
      (e : ℕ) × (c : ℕ) × (r : ℕ) × (l : ℕ) × (v ≡ version_of e c r l) × (e + c + r + l ≤ n)

  abbrev versions : State env → List Text
  versions w = map (λ q. q.version) w.published

  record IsFresh (w : State env) : Type 0 where
    matches : Matches env w
    past : All (IsPast (total w)) (versions w)
    distinct : Distinct (versions w)

  IsPast-mono : {n m : ℕ} → n ≤ m → (v : Text) → IsPast n v → IsPast m v
  IsPast-mono h v (e, c, r, l, same, bound) = (e, c, r, l, same, omega arith)

  version-Matches :
      (w : State env)
      → Matches env w
      → version w.resource ≡ version_of w.eds.version w.cds.version w.rds.version w.lds.version
  unfolding version
  version-Matches w m = rw (m.eds, m.cds, m.rds, m.lds)

  -- a version given later differs from every past one
  version-new :
      (w : State env) {n : ℕ}
      → Matches env w
      → n < total w
      → (v : Text) → IsPast n v
      → version w.resource ≢ v
  version-new w m less v (e, c, r, l, same, bound) eq =
      let (p, q, s, t) =
        version_of_inj w.eds.version w.cds.version w.rds.version w.lds.version e c r l
          (sym (version-Matches w m) ∙ eq ∙ same) in
      absurd (omega arith)

  update_snapshot-IsFresh :
      (w : State env) {n : ℕ}
      → Matches env w
      → n < total w
      → All (IsPast n) (versions w)
      → Distinct (versions w)
      → IsFresh (update_snapshot env w).0
  update_snapshot-IsFresh w {n} m less past distinct = elim (snapshot-cases env.api w.resource) [
    | inl (e, bad) ↦ rw (update_snapshot_err env w bad) (record {
      matches = m;
      past = All-imp (IsPast n) (IsPast (total w)) (versions w) (IsPast-mono (omega arith)) past;
      distinct = distinct;
    })
    | inr (s, done, built, good) ↦ rw (update_snapshot_ok env w s done) (record {
      matches = record { eds = m.eds; cds = m.cds; rds = m.rds; lds = m.lds };
      past = (
        (
          w.eds.version,
          w.cds.version,
          w.rds.version,
          w.lds.version,
          version-Matches w m,
          omega arith,
        ),
        All-imp (IsPast n) (IsPast (total w)) (versions w) (IsPast-mono (omega arith)) past,
      );
      distinct = (
        All-imp (IsPast n) (λ v. version w.resource ≢ v) (versions w) (version-new w m less) past,
        distinct,
      );
    })
  ]

  published-versions : (w v : State env) → v.published ≡ w.published → versions v ≡ versions w
  published-versions w v e = ap (map (λ q. q.version)) e

  Performed-IsFresh :
      {w : State env} {r : State env × Result p.Error (Unit {0})}
      → Performed env w r
      → total w + 4 < u64_mod
      → IsFresh w
      → IsFresh r.0
  Performed-IsFresh {w} (Performed.failed {v = v} few us e) room fresh =
      let grown = Updates-total us (omega arith) in
      let same = published-versions w v (Updates-published env us).0 in
      record {
        matches = Updates-Matches env us fresh.matches;
        past = rw same (
            All-imp (IsPast (total w)) (IsPast (total v)) (versions w)
              (IsPast-mono (omega (arith, grown))) fresh.past);
        distinct = rw same fresh.distinct;
      }
  Performed-IsFresh {w} (Performed.reached {u = u} few us step) room fresh =
      let all = Updates.more us step in
      let grown = Updates-total all (omega arith) in
      let same = published-versions w u (Updates-published env all).0 in
      update_snapshot-IsFresh u {n = total w} (Updates-Matches env all fresh.matches)
        (omega (arith, grown)) (rw same fresh.past) (rw same fresh.distinct)

  update_snapshot-total : (w : State env) → total (update_snapshot env w).0 ≡ total w
  update_snapshot-total w = elim (snapshot-cases env.api w.resource) [
    | inl (e, bad) ↦ rw (update_snapshot_err env w bad) refl
    | inr (s, done, built, good) ↦ rw (update_snapshot_ok env w s done) refl
  ]

  Performed-total :
      {w : State env} {r : State env × Result p.Error (Unit {0})}
      → Performed env w r
      → total w + 4 < u64_mod
      → total r.0 ≤ total w + 4
  Performed-total (Performed.failed few us e) room = omega (arith, Updates-total us)
  Performed-total (Performed.reached {u = u} few us step) room =
      omega (arith, update_snapshot-total u, Updates-total (Updates.more us step))

  run-IsFresh :
      (cs : List (Command p)) (w : State env)
      → total w + 4 * length cs < u64_mod
      → IsFresh w
      → IsFresh (run env cs w)
  unfolding run
  run-IsFresh [] w room fresh = fresh
  run-IsFresh (c ∷ rest) w room fresh =
      let done = perform-Performed env c w in
      run-IsFresh rest (perform env c w).0 (omega (arith, Performed-total done))
        (Performed-IsFresh done (omega arith) fresh)

  new_watch_file-IsFresh :
      (node : Text) (funcs : List WatchOptFunc)
      → IsFresh (new_watch_file p env.api.Snapshot node funcs)
  unfolding new_watch_file new_resource Cds.new_cluster_discovery_service
      Eds.new_endpoint_discovery_service Rds.new_route_discovery_service
      Lds.new_listener_discovery_service format_uint
  new_watch_file-IsFresh node funcs = record {
    matches = record { eds = refl; cds = refl; rds = refl; lds = refl };
    past = tt;
    distinct = tt;
  }

  total-new_watch_file :
      (node : Text) (funcs : List WatchOptFunc)
      → total (new_watch_file p env.api.Snapshot node funcs) ≡ 0
  unfolding new_watch_file Cds.new_cluster_discovery_service Eds.new_endpoint_discovery_service
      Rds.new_route_discovery_service Lds.new_listener_discovery_service
  total-new_watch_file node funcs = refl

  -- From a new object, as long as fewer than 2^64 versions can have been given out, no two
  -- publications have the same version, whatever the operations read and however they end.
  pub run-Distinct :
      (node : Text) (funcs : List WatchOptFunc) (cs : List (Command p))
      → 4 * length cs < u64_mod
      → Distinct (
          map
            (λ q. q.version)
            (run env cs (new_watch_file p env.api.Snapshot node funcs)).published)
  run-Distinct node funcs cs room =
      (run-IsFresh cs (new_watch_file p env.api.Snapshot node funcs)
        (omega (arith, total-new_watch_file node funcs))
        (new_watch_file-IsFresh node funcs)).distinct
