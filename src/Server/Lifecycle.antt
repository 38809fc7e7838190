-- ===== src/Server/Lifecycle.antt =====
-- `serverAction` of cli/server/server.go from its first line to its last, by the signals that come
-- once it serves; its own log lines are left out. `go svr.Start()` drops the result of `Start`, so
-- it has no part in what follows. The file loop that `Watch` starts is not run beside the signals
-- here, so the object at the end shows the reloads of the hang-ups only.
use example_envoy_xds.Base.{
  List, [], ◌∷◌, Text, Option, none, some, Result, ok, err, ◌≡◌, refl, ◌⊎◌, inl, inr, All, subst,
  sym, true,
}
use example_envoy_xds.Xds.{Proto}
use example_envoy_xds.Watch.World.{Env, Reads}
use example_envoy_xds.Watch.{State, reload_all}
use example_envoy_xds.Watch.Steps.{perform, run}
use example_envoy_xds.Server.Start.{reloads}
use example_envoy_xds.Watch.Loop.{Status, running, stopped}
use example_envoy_xds.Server.{
  Flags, Started, Signal, hup, quit, term, int, server_action, watch_signal,
}
use example_envoy_xds.Server.Serve.{Server, Process, server_with, stop}

-- a signal that `watchSignal` does not stop at
abbrev pub IsReload : {p : Proto} → Signal × Reads p → Type 0
IsReload (hup, reads) = Unit {0}
IsReload (quit, reads) = ⊥
IsReload (term, reads) = ⊥
IsReload (int, reads) = ⊥

module _ {p : Proto} (env : Env p) (L : Type 0) where
  -- what is left when `serverAction` returns
  pub record Ended : Type 0 where
    pub wf : State env
    pub server : Server
    pub process : Process L

  -- `<-ctx.Done()` and what follows it; `watchSignal` cancels the context as it stops
  unfoldable pub wait_stop : Server → Process L → State env × Status → Option (Result p.Error Ended)
  unfolding stop
  wait_stop s q (wf, running) = none
  wait_stop s q (wf, stopped) =
      let (s', q') = stop s q in some (ok (record { wf = wf; server = s'; process = q' }))

  -- what follows the start: an error is returned at once
  unfoldable pub until_stopped :
      List (Signal × Reads p)
      → Process L
      → Result p.Error (Started env)
      → Option (Result p.Error Ended)
  unfolding wait_stop server_with watch_signal
  until_stopped signals q (err e) = some (err e)
  until_stopped signals q (ok st) =
      wait_stop (server_with st.server_opt) q (watch_signal env signals st.wf)

  -- what `serverAction` has returned after these signals; `none` while it waits
  unfoldable pub main_action :
      Result p.Error Text
      → Flags
      → Reads p
      → Option p.Error
      → (Text → Option p.Error)
      → Process L
      → List (Signal × Reads p)
      → Option (Result p.Error Ended)
  unfolding until_stopped server_action
  main_action hostname flags reads watcher add q signals =
      until_stopped signals q (server_action env hostname flags reads watcher add)

  -- it still waits, or it has returned `nil` with both servers stopped
  abbrev pub IsDone : List (Signal × Reads p) → State env → Option (Result p.Error Ended) → Type 0
  IsDone signals w r =
      (All IsReload signals × (r ≡ none))
      ⊎ ((¬ All IsReload signals)
          × ((v : Ended) × (r ≡ some (ok v))
              × (v.wf ≡ run env (reloads env signals) w)
              × (v.server.xds_svr.stopped ≡ true)
              × (v.server.als_svr.stopped ≡ true)))

  wait_stop-IsDone :
      (signals : List (Signal × Reads p)) (s : Server) (q : Process L) (w : State env)
      → IsDone signals w (wait_stop s q (watch_signal env signals w))
  unfolding wait_stop watch_signal stop run perform
  wait_stop-IsDone [] s q w = inl (tt, refl)
  wait_stop-IsDone ((hup, reads) ∷ rest) s q w =
      elim (wait_stop-IsDone rest s q (reload_all env reads w).0) [
        | inl (all, waits) ↦ inl ((tt, all), waits)
        | inr (ends, done) ↦ inr ((λ h. ends h.1), done)
      ]
  wait_stop-IsDone ((quit, reads) ∷ rest) s q w = inr ((λ h. h.0), (_, refl, refl, refl, refl))
  wait_stop-IsDone ((term, reads) ∷ rest) s q w = inr ((λ h. h.0), (_, refl, refl, refl, refl))
  wait_stop-IsDone ((int, reads) ∷ rest) s q w = inr ((λ h. h.0), (_, refl, refl, refl, refl))

  -- Once the program serves, `serverAction` waits while all signals are hang-ups, and with the first
  -- other signal it has returned `nil`, after the reloads of the hang-ups before it and with both
  -- gRPC servers stopped.
  pub main_action-IsDone :
      (hostname : Result p.Error Text) (flags : Flags) (reads : Reads p) (watcher : Option p.Error)
      (add : Text → Option p.Error) (q : Process L) (signals : List (Signal × Reads p))
      (st : Started env)
      → server_action env hostname flags reads watcher add ≡ ok st
      → IsDone signals st.wf (main_action hostname flags reads watcher add q signals)
  unfolding main_action until_stopped
  main_action-IsDone hostname flags reads watcher add q signals st h =
      subst (λ r. IsDone signals st.wf (until_stopped signals q r)) (sym h)
        (wait_stop-IsDone signals (server_with st.server_opt) q st.wf)
