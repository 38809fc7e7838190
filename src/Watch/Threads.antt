-- ===== src/Watch/Threads.antt =====
-- The goroutine of the file loop and the one of the signals, which share the object without a lock
-- around an operation: each of their accesses to it is a step, and the steps interleave in any
-- order. A goroutine holds what its last access gave it. A failing access gives nothing to hold.
pub mod Scripts
pub mod Sequential
pub mod Ledger
pub mod Kept
pub mod Content
pub mod Settled
use example_envoy_xds.Base.{
  List, [], ◌∷◌, Text, Result, Result-cases, ok, err, inl, inr, ◌≡◌, refl, ap, ◌∙◌, All,
}
use example_envoy_xds.Config.{CdsConfig, EdsConfig, RdsConfig, LdsConfig}
use example_envoy_xds.Decimal.{format_uint}
use example_envoy_xds.Xds.{Proto}
use example_envoy_xds.Cds
use example_envoy_xds.Cds.{Cluster}
use example_envoy_xds.Eds
use example_envoy_xds.Eds.{ClusterLoadAssignment}
use example_envoy_xds.Rds
use example_envoy_xds.Rds.{RouteConfiguration}
use example_envoy_xds.Lds
use example_envoy_xds.Lds.{Listener, TypedFilter}
use example_envoy_xds.Lds.Laws.{create_ok, create_err}
use example_envoy_xds.Resource.Snapshot.{snapshot_ok, snapshot-accepted}
use example_envoy_xds.Resource.{
  snapshot, version, resource_map, update_cluster, update_endpoint, update_route, update_listener,
}
use example_envoy_xds.Watch.World.{Env}
use example_envoy_xds.Watch.Load.{WatchOptFunc}
use example_envoy_xds.Watch.{State, Publication, new_watch_file}
use example_envoy_xds.Watch.Steps.{cds_after}
use example_envoy_xds.Watch.Serving.{IsServed}
use example_envoy_xds.Watch.Outcome.{IsSnapshot}

-- what a goroutine has in its hands: the result of a `create`, or a snapshot before `SetSnapshot`
pub data Held (p : Proto) (S : Type 0) : Type 0 where
  nothing : Held p S
  made_cds : Text → List (Cluster p) → Held p S
  made_eds : Text → List ClusterLoadAssignment → Held p S
  made_rds : Text → RouteConfiguration p → Held p S
  made_lds : Text → Listener p → Held p S
  built : Publication S → Held p S

module _ {p : Proto} (env : Env p) where
  abbrev pub Hand : Type 0
  Hand = Held p env.api.Snapshot

  abbrev pub publication_of : State env → env.api.Snapshot → Publication env.api.Snapshot
  publication_of w s = record { node_id = w.node_id; version = version w.resource; snapshot = s }

  -- what a `create` that succeeds leaves in the hands
  abbrev pub hold : {A : Type 0} → (Text → A → Hand) → Result p.Error (Text × A) → Hand
  hold make (ok (n, x)) = make n x
  hold make (err e) = nothing

  -- one access of one goroutine
  pub data Access : Hand → State env → Hand → State env → Type 0 where
    make_cds :
        (w : State env) (config : List CdsConfig)
        → Access nothing w
            (hold made_cds (Cds.create w.cds config).1)
            (record w { cds = (Cds.create w.cds config).0 })
    store_cds :
        (w : State env) (v : Text) (clusters : List (Cluster p))
        → Access
            (made_cds v clusters)
            w
            nothing
            (record w { resource = update_cluster v clusters w.resource })
    make_eds :
        (w : State env) (config : List EdsConfig)
        → Access nothing w
            (hold made_eds (Eds.create {E = p.Error} env.order w.eds config).1)
            (record w { eds = (Eds.create {E = p.Error} env.order w.eds config).0 })
    store_eds :
        (w : State env) (v : Text) (assignments : List ClusterLoadAssignment)
        → Access
            (made_eds v assignments)
            w
            nothing
            (record w { resource = update_endpoint v assignments w.resource })
    make_rds :
        (w : State env) (config : List RdsConfig)
        → Access nothing w
            (hold made_rds (Rds.create w.rds config).1)
            (record w { rds = (Rds.create w.rds config).0 })
    store_rds :
        (w : State env) (v : Text) (route : RouteConfiguration p)
        → Access
            (made_rds v route)
            w
            nothing
            (record w { resource = update_route v route w.resource })
    make_lds :
        (w : State env) (config : LdsConfig)
        → Access nothing w
            (hold made_lds (Lds.create env.marshal_any w.lds config).1)
            (record w { lds = (Lds.create env.marshal_any w.lds config).0 })
    store_lds :
        (w : State env) (v : Text) (listener : Listener p)
        → Access
            (made_lds v listener)
            w
            nothing
            (record w { resource = update_listener v listener w.resource })
    build :
        (w : State env) (n : Text) (s : env.api.Snapshot)
        → snapshot env.api w.resource ≡ ok (n, s)
        → Access nothing w (built (record { node_id = w.node_id; version = n; snapshot = s })) w
    set :
        (w : State env) (q : Publication env.api.Snapshot)
        → Access (built q) w nothing (record w { published = q ∷ w.published })

  -- any number of steps, each an access of the one goroutine or of the other
  pub data Run (w : State env) : Hand → Hand → State env → Type 0 where
    start : Run w nothing nothing w
    left :
        {a b : Hand} {v : State env} (c : Hand) (u : State env)
        → Run w a b v
        → Access a v c u
        → Run w c b u
    right :
        {a b : Hand} {v : State env} (c : Hand) (u : State env)
        → Run w a b v
        → Access b v c u
        → Run w a c u

  module _ (node : Text) where
    abbrev IsSafe : Hand → Type 0
    IsSafe nothing = Unit {0}
    IsSafe (made_cds v x) = Unit {0}
    IsSafe (made_eds v x) = Unit {0}
    IsSafe (made_rds v x) = Unit {0}
    IsSafe (made_lds v x) = Unit {0}
    IsSafe (built q) = IsServed env node q

    abbrev IsKept : State env → Type 0
    IsKept w = (w.node_id ≡ node) × All (IsServed env node) w.published

    Access-IsKept :
        {a : Hand} {w : State env} {b : Hand} {v : State env}
        → Access a w b v
        → IsSafe a
        → IsKept w
        → IsSafe b × IsKept v
    unfolding Cds.create Eds.create Rds.create
    Access-IsKept (Access.make_cds w config) safe kept = (tt, kept)
    Access-IsKept (Access.store_cds w v x) safe kept = (tt, kept)
    Access-IsKept (Access.make_eds w config) safe kept = (tt, kept)
    Access-IsKept (Access.store_eds w v x) safe kept = (tt, kept)
    Access-IsKept (Access.make_rds w config) safe kept = (tt, kept)
    Access-IsKept (Access.store_rds w v x) safe kept = (tt, kept)
    Access-IsKept (Access.make_lds w config) safe kept =
        elim (Result-cases (Lds.packed_filters env.marshal_any w.lds config)) [
          | inl (fs, packed) ↦ rw (create_ok env.marshal_any w.lds config packed) (tt, kept)
          | inr (e, bad) ↦ rw (create_err env.marshal_any w.lds config bad) (tt, kept)
        ]
    Access-IsKept (Access.store_lds w v x) safe kept = (tt, kept)
    Access-IsKept (Access.build w n s done) safe (own, served) =
        let (named, made, good) = snapshot-accepted env.api w.resource n s done in
        (
          (
            own,
            (
              resource_map w.resource,
              ap (λ m. env.api.new_snapshot m (resource_map w.resource)) named ∙ made,
            ),
            good,
          ),
          (own, served),
        )
    Access-IsKept (Access.set w q) safe (own, served) = (tt, (own, (safe, served)))

    Run-IsKept :
        {w v : State env} {a b : Hand} → Run w a b v → IsKept w → IsSafe a × IsSafe b × IsKept v
    Run-IsKept Run.start kept = (tt, tt, kept)
    Run-IsKept (Run.left c u run access) kept =
        let (a, b, before) = Run-IsKept run kept in
        let (after, now) = Access-IsKept access a before in (after, b, now)
    Run-IsKept (Run.right c u run access) kept =
        let (a, b, before) = Run-IsKept run kept in
        let (after, now) = Access-IsKept access b before in (a, after, now)

  -- From a new object, however the accesses of the two goroutines interleave, every publication is
  -- for the node of the object, and its snapshot was built under its version and accepted by
  -- `Consistent`.
  pub Run-IsServed :
      (node : Text) (funcs : List WatchOptFunc) {a b : Hand} {v : State env}
      → Run (new_watch_file p env.api.Snapshot node funcs) a b v
      → All (IsServed env node) v.published
  unfolding new_watch_file
  Run-IsServed node funcs run = (Run-IsKept node run (refl, tt)).2.1

  -- A snapshot can be published over a newer one: if the snapshots before and after an update of
  -- the clusters are both consistent, some order of steps publishes the newer one first and the
  -- older one after it.
  pub Run-stale :
      (w : State env) (config : List CdsConfig) (s t : env.api.Snapshot)
      → IsSnapshot env s w
      → IsSnapshot env t (cds_after env config w)
      → (v : State env) × Run w nothing nothing v
        × (v.published
            ≡ publication_of w s ∷ publication_of (cds_after env config w) t ∷ w.published)
  unfolding Cds.create
  Run-stale w config s t older newer =
      let w' = cds_after env config w in
      let new = publication_of w' t in
      let old = publication_of w s in
      let x = Cds.clusters (Cds.incre_version w.cds) config in
      let n = format_uint (Cds.incre_version w.cds).version in
      let held = Run.left (built old) w Run.start (
        Access.build w (version w.resource) s (snapshot_ok env.api w.resource s older.0 older.1)) in
      let made =
        Run.right (made_cds n x) (record w { cds = Cds.incre_version w.cds }) held
          (Access.make_cds w config) in
      let stored =
        Run.right nothing w' made
          (Access.store_cds (record w { cds = Cds.incre_version w.cds }) n x) in
      let ready = Run.right (built new) w' stored (
        Access.build w' (version w'.resource) t
          (snapshot_ok env.api w'.resource t newer.0 newer.1)) in
      let first = record w' { published = new ∷ w.published } in
      let served = Run.right nothing first ready (Access.set w' new) in
      let last = record first { published = old ∷ new ∷ w.published } in
      (last, Run.left nothing last served (Access.set first old), refl)
