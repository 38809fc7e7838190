-- ===== src/Watch/Serving.antt =====
-- Whatever happens to the files, every snapshot that was ever published is consistent.
use example_envoy_xds.Base.{List, [], ◌∷◌, Text, ok, err, Result, none, ◌≡◌, refl, ◌∙◌, All}
use example_envoy_xds.Xds.{Proto}
use example_envoy_xds.Resource.{ResourceMap}
use example_envoy_xds.Watch.World.{Env}
use example_envoy_xds.Watch.Load.{WatchOptFunc}
use example_envoy_xds.Watch.{State, Publication, new_watch_file}
use example_envoy_xds.Watch.Steps.{Command, perform, run}
use example_envoy_xds.Watch.Outcome.{Outcome, perform-Outcome, perform-node_id}

module _ {p : Proto} (env : Env p) (node : Text) where
  -- a snapshot for the node, built under its version and accepted by `Consistent`
  abbrev pub IsServed : Publication env.api.Snapshot → Type 0
  IsServed q =
      (q.node_id ≡ node)
      × ((m : ResourceMap p) × (env.api.new_snapshot q.version m ≡ ok q.snapshot))
      × (env.api.consistent q.snapshot ≡ none)

  Outcome-IsServed :
      (w v : State env) (r : Result p.Error (Unit {0}))
      → w.node_id ≡ node
      → Outcome env w (v, r)
      → All IsServed w.published
      → All IsServed v.published
  Outcome-IsServed w v (err e) own same h = rw same h
  Outcome-IsServed w v (ok done) own (s, same, built, good) h = rw same ((own, (_, built), good), h)

  run-IsServed_from :
      (cs : List (Command p)) (w : State env)
      → w.node_id ≡ node
      → All IsServed w.published
      → All IsServed (run env cs w).published
  unfolding run
  run-IsServed_from [] w own h = h
  run-IsServed_from (c ∷ rest) w own h =
      run-IsServed_from rest (perform env c w).0 (perform-node_id env c w ∙ own)
        (Outcome-IsServed w (perform env c w).0 (perform env c w).1 own (perform-Outcome env c w) h)

  -- From a new object, after any operations on any files, every publication is for the node of the
  -- object, and its snapshot was built under its version and accepted by `Consistent`.
  pub run-IsServed :
      (funcs : List WatchOptFunc) (cs : List (Command p))
      → All IsServed (run env cs (new_watch_file p env.api.Snapshot node funcs)).published
  unfolding new_watch_file
  run-IsServed funcs cs =
      run-IsServed_from cs (new_watch_file p env.api.Snapshot node funcs) refl tt
