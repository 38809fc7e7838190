-- ===== src/Watch/Outcome.antt =====
-- What an operation of the object publishes.
use example_envoy_xds.Base.{ℕ, List, ◌∷◌, none, Result, ok, err, ◌≡◌, refl, inl, inr, ◌∙◌}
use example_envoy_xds.Xds.{Proto}
use example_envoy_xds.Resource.{version, resource_map, snapshot}
use example_envoy_xds.Resource.Snapshot.{snapshot-cases, snapshot_ok}
use example_envoy_xds.Watch.World.{Env}
use example_envoy_xds.Watch.{State, Publication, update_snapshot}
use example_envoy_xds.Watch.Steps.{Command, perform, Update, Updates, Performed, perform-Performed}

module _ {p : Proto} (env : Env p) where
  -- An error publishes nothing. A success publishes one snapshot, for the node of the object: the
  -- one that is built of the resources that the object now holds, under their version, and it is
  -- consistent.
  abbrev pub Outcome : State env → State env × Result p.Error (Unit {0}) → Type 0
  Outcome w (w', err e) = w'.published ≡ w.published
  Outcome w (w', ok done) =
      (s : env.api.Snapshot) × (w'.published
        ≡ (record { node_id = w.node_id; version = version w'.resource; snapshot = s })
          ∷ w.published)
      × (env.api.new_snapshot (version w'.resource) (resource_map w'.resource) ≡ ok s)
      × (env.api.consistent s ≡ none)

  pub update_snapshot_err :
      (v : State env) {e : p.Error}
      → snapshot env.api v.resource ≡ err e
      → update_snapshot env v ≡ (v, err e)
  unfolding update_snapshot
  update_snapshot_err v bad = rw (bad, update_snapshot)

  pub update_snapshot_ok :
      (v : State env) (s : env.api.Snapshot)
      → snapshot env.api v.resource ≡ ok (version v.resource, s)
      → update_snapshot env v ≡ (
        record v {
          published =
              (record { node_id = v.node_id; version = version v.resource; snapshot = s })
              ∷ v.published;
        },
        ok tt,
      )
  unfolding update_snapshot
  update_snapshot_ok v s done = rw (done, update_snapshot)

  update_snapshot-Outcome :
      (w v : State env)
      → v.published ≡ w.published
      → v.node_id ≡ w.node_id
      → Outcome w (update_snapshot env v)
  update_snapshot-Outcome w v same node = elim (snapshot-cases env.api v.resource) [
    | inl (e, bad) ↦ rw (update_snapshot_err v bad) same
    | inr (s, done, built, good) ↦
        rw (update_snapshot_ok v s done) (s, unfold_published s, built, good)
  ]
    where
      unfold_published :
          (s : env.api.Snapshot)
          → ◌≡◌ {A = List (Publication env.api.Snapshot)}
              ((record { node_id = v.node_id; version = version v.resource; snapshot = s })
                ∷ v.published)
              ((record { node_id = w.node_id; version = version v.resource; snapshot = s })
                ∷ w.published)
      unfold_published s = cc

  -- no update publishes or changes the node
  Update-published :
      {w v : State env} → Update env w v → (v.published ≡ w.published) × (v.node_id ≡ w.node_id)
  Update-published (Update.cds config) = (refl, refl)
  Update-published (Update.eds config) = (refl, refl)
  Update-published (Update.rds config) = (refl, refl)
  Update-published (Update.lds config fs packed) = (refl, refl)

  pub Updates-published :
      {w : State env} {n : ℕ} {v : State env}
      → Updates env w n v
      → (v.published ≡ w.published) × (v.node_id ≡ w.node_id)
  Updates-published Updates.start = (refl, refl)
  Updates-published (Updates.more us u) =
      let (a, b) = Updates-published us in let (c, d) = Update-published u in (c ∙ a, d ∙ b)

  Performed-Outcome :
      (w : State env) {r : State env × Result p.Error (Unit {0})} → Performed env w r → Outcome w r
  Performed-Outcome w (Performed.failed few us e) = (Updates-published us).0
  Performed-Outcome w (Performed.reached {u = u} few us step) =
      let (a, b) = Updates-published (Updates.more us step) in update_snapshot-Outcome w u a b

  -- For each of the five operations: an error publishes nothing, and a success publishes one
  -- snapshot, built of the resources that the object then holds, under their version, for the
  -- node of the object, and `Consistent` has accepted it.
  pub perform-Outcome : (c : Command p) (w : State env) → Outcome w (perform env c w)
  perform-Outcome c w = Performed-Outcome w (perform-Performed env c w)

  Performed-node_id :
      {w : State env} {r : State env × Result p.Error (Unit {0})}
      → Performed env w r
      → r.0.node_id ≡ w.node_id
  Performed-node_id (Performed.failed few us e) = (Updates-published us).1
  Performed-node_id (Performed.reached {u = u} few us step) =
      elim (snapshot-cases env.api u.resource) [
        | inl (e, bad) ↦ rw (update_snapshot_err u bad) (Updates-published (Updates.more us step)).1
        | inr (s, done, built, good) ↦
            rw (update_snapshot_ok u s done) (Updates-published (Updates.more us step)).1
      ]

  pub perform-node_id : (c : Command p) (w : State env) → (perform env c w).0.node_id ≡ w.node_id
  perform-node_id c w = Performed-node_id (perform-Performed env c w)

  -- the object after a snapshot of its resources is published
  abbrev pub published_after : env.api.Snapshot → State env → State env
  published_after s v = record v {
    published =
        (record { node_id = v.node_id; version = version v.resource; snapshot = s }) ∷ v.published;
  }

  -- the snapshot of the resources can be built, and is consistent
  abbrev pub IsSnapshot : env.api.Snapshot → State env → Type 0
  IsSnapshot s v =
      (env.api.new_snapshot (version v.resource) (resource_map v.resource) ≡ ok s)
      × (env.api.consistent s ≡ none)

  pub update_snapshot-published :
      (s : env.api.Snapshot) (v : State env)
      → IsSnapshot s v
      → update_snapshot env v ≡ (published_after s v, ok tt)
  update_snapshot-published s v (built, good) =
      update_snapshot_ok v s (snapshot_ok env.api v.resource s built good)
