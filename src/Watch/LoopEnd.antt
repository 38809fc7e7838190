-- ===== src/Watch/LoopEnd.antt =====
-- When the loop of `watchFileLoop` ends.
use example_envoy_xds.Base.{List, [], ◌∷◌, none, some, ◌≡◌, refl, ◌⊎◌, inl, inr, All}
use example_envoy_xds.Xds.{Proto}
use example_envoy_xds.Watch.World.{Env}
use example_envoy_xds.Watch.{State}
use example_envoy_xds.Watch.Loop.{
  Input, done, errors_closed, error, events_closed, event, handle_event, after_add, round,
  watch_file_loop, running, stopped,
}

-- an input after which the loop goes on: an error that is logged, or an event whose file could be
-- watched again
abbrev pub IsOngoing : {p : Proto} → Input p → Type 0
IsOngoing done = ⊥
IsOngoing errors_closed = ⊥
IsOngoing events_closed = ⊥
IsOngoing (error e) = Unit {0}
IsOngoing (event evt reads none) = Unit {0}
IsOngoing (event evt reads (some e)) = ⊥

module _ {p : Proto} (env : Env p) where
  -- The loop runs on exactly while every input lets it: it has ended as soon as the context is done,
  -- a channel of the watcher is closed, or the file of an event could not be watched again.
  pub watch_file_loop-running :
      (inputs : List (Input p)) (w : State env)
      → (All IsOngoing inputs × ((watch_file_loop env inputs w).1 ≡ running))
        ⊎ ((¬ All IsOngoing inputs) × ((watch_file_loop env inputs w).1 ≡ stopped))
  unfolding watch_file_loop round after_add
  watch_file_loop-running [] w = inl (tt, refl)
  watch_file_loop-running (done ∷ rest) w = inr ((λ h. h.0), refl)
  watch_file_loop-running (errors_closed ∷ rest) w = inr ((λ h. h.0), refl)
  watch_file_loop-running (events_closed ∷ rest) w = inr ((λ h. h.0), refl)
  watch_file_loop-running (error e ∷ rest) w = elim (watch_file_loop-running rest w) [
    | inl (all, same) ↦ inl ((tt, all), same)
    | inr (ends, same) ↦ inr ((λ h. ends h.1), same)
  ]
  watch_file_loop-running (event evt reads none ∷ rest) w =
      elim (watch_file_loop-running rest (handle_event env evt reads w)) [
        | inl (all, same) ↦ inl ((tt, all), same)
        | inr (ends, same) ↦ inr ((λ h. ends h.1), same)
      ]
  watch_file_loop-running (event evt reads (some e) ∷ rest) w = inr ((λ h. h.0), refl)
