-- ===== src/Watch/Noticed.antt =====
-- From the event of a file to its publication.
use example_envoy_xds.Base.{List, [], ◌∷◌, none, ◌≡◌, refl, ap, ◌∙◌}
use example_envoy_xds.Xds.{Proto}
use example_envoy_xds.Watch.World.{Env, Reads}
use example_envoy_xds.Watch.{State}
use example_envoy_xds.Watch.Loop.{Event, Input, event, round, after_add, watch_file_loop}
use example_envoy_xds.Watch.Steps.{Command, perform, run}
use example_envoy_xds.Watch.Outcome.{IsSnapshot, published_after}
use example_envoy_xds.Watch.Operations.{Ready, perform-ok}
use example_envoy_xds.Watch.Schedule.{event_commands, handle_event-run}

module _ {p : Proto} (env : Env p) where
  run_one : (c : Command p) (w : State env) → run env (c ∷ []) w ≡ (perform env c w).0
  unfolding run
  run_one c w = refl

  -- When an event is for exactly one configured file, the file loads, the messages of its listener
  -- can be packed, the snapshot with its resources is consistent, and the path can be watched again,
  -- then the loop publishes that snapshot and waits for what comes next.
  pub event-published :
      (w v : State env) (evt : Event) (reads : Reads p) (rest : List (Input p)) (c : Command p)
      (s : env.api.Snapshot)
      → event_commands env w.opt evt reads ≡ c ∷ []
      → Ready env w c v
      → IsSnapshot env s v
      → watch_file_loop env (event evt reads none ∷ rest) w
        ≡ watch_file_loop env rest (published_after env s v)
  unfolding watch_file_loop round after_add
  event-published w v evt reads rest c s one ready good = ap (watch_file_loop env rest) (
      handle_event-run env evt reads w
      ∙ ap (λ cs. run env cs w) one
      ∙ run_one c w
      ∙ ap (λ r. r.0) (perform-ok env w c v s ready good))
