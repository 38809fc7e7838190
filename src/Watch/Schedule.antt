-- ===== src/Watch/Schedule.antt =====
-- The loop of `watchFileLoop` against the list of operations that its inputs call for.
use example_envoy_xds.Base.{
  List, [], ◌∷◌, ◌++◌, Text, none, some, if◌then◌else◌, ◌==◌, ◌≡◌, refl, sym, ap, ◌∙◌, Bool-cases,
  inl, inr,
}
use example_envoy_xds.Xds.{Proto}
use example_envoy_xds.Watch.World.{Env, Reads}
use example_envoy_xds.Watch.Load.{WatchOpt}
use example_envoy_xds.Watch.{State, equal_path}
use example_envoy_xds.Watch.Steps.{
  Command, change_cds, change_eds, change_rds, change_lds, perform, run,
}
use example_envoy_xds.Watch.Isolation.{perform-opt}
use example_envoy_xds.Watch.Loop.{
  Event, Input, done, errors_closed, error, events_closed, event, when_changed, dispatch,
  handle_event, after_add, round, watch_file_loop,
}

module _ {p : Proto} (env : Env p) where
  abbrev pub one : Text → Text → Command p → List (Command p)
  one name path c = if equal_path env name path then c ∷ [] else []

  -- the operations of one event: those of the configured files that have its path
  abbrev pub event_commands : WatchOpt → Event → Reads p → List (Command p)
  event_commands opt evt reads =
      if evt.op == env.chmod
      then []
      else one evt.name opt.cds_yaml (change_cds reads.cds)
        ++ (one evt.name opt.eds_yaml (change_eds reads.eds)
            ++ (one evt.name opt.rds_yaml (change_rds reads.rds)
                ++ one evt.name opt.lds_yaml (change_lds reads.lds)))

  -- the operations of all events up to the first input that ends the loop
  abbrev pub commands : WatchOpt → List (Input p) → List (Command p)
  commands opt [] = []
  commands opt (done ∷ rest) = []
  commands opt (errors_closed ∷ rest) = []
  commands opt (events_closed ∷ rest) = []
  commands opt (error e ∷ rest) = commands opt rest
  commands opt (event evt reads none ∷ rest) = event_commands opt evt reads ++ commands opt rest
  commands opt (event evt reads (some e) ∷ rest) = event_commands opt evt reads

  run-append :
      (cs ds : List (Command p)) (w : State env) → run env (cs ++ ds) w ≡ run env ds (run env cs w)
  unfolding run
  run-append [] ds w = refl
  run-append (c ∷ cs) ds w = run-append cs ds (perform env c w).0

  run-opt : (cs : List (Command p)) (w : State env) → (run env cs w).opt ≡ w.opt
  unfolding run
  run-opt [] w = refl
  run-opt (c ∷ cs) w = run-opt cs (perform env c w).0 ∙ perform-opt env c w

  when_changed-run :
      (name path : Text) (c : Command p) (w : State env)
      → when_changed env name path (perform env c) w ≡ run env (one name path c) w
  unfolding when_changed run
  when_changed-run name path c w = elim (Bool-cases (equal_path env name path)) [
    | inl e ↦ rw e refl
    | inr e ↦ rw e refl
  ]

  -- the four tests in a row, for any four paths and operations
  four_in_row :
      (name p₁ p₂ p₃ p₄ : Text) (c₁ c₂ c₃ c₄ : Command p) (w : State env)
      → when_changed env name p₄ (perform env c₄) (
          when_changed env name p₃ (perform env c₃) (
            when_changed env name p₂
              (perform env c₂)
              (when_changed env name p₁ (perform env c₁) w)))
        ≡ run env (one name p₁ c₁ ++ (one name p₂ c₂ ++ (one name p₃ c₃ ++ one name p₄ c₄))) w
  four_in_row name p₁ p₂ p₃ p₄ c₁ c₂ c₃ c₄ w = simp (when_changed-run, run-append)

  pub handle_event-run :
      (evt : Event) (reads : Reads p) (w : State env)
      → handle_event env evt reads w ≡ run env (event_commands w.opt evt reads) w
  unfolding handle_event dispatch perform run
  handle_event-run evt reads w = elim (Bool-cases (evt.op == env.chmod)) [
    | inl e ↦ rw e refl
    | inr e ↦ rw e (
        four_in_row evt.name w.opt.cds_yaml w.opt.eds_yaml w.opt.rds_yaml w.opt.lds_yaml
          (change_cds reads.cds) (change_eds reads.eds) (change_rds reads.rds)
          (change_lds reads.lds) w)
  ]

  -- What the loop does to the object is exactly this: for each event in turn, until an input ends
  -- the loop, the operations of the configured files whose path is that of the event, none if the
  -- event is a change of mode only.
  pub watch_file_loop-run :
      (inputs : List (Input p)) (w : State env)
      → (watch_file_loop env inputs w).0 ≡ run env (commands w.opt inputs) w
  unfolding watch_file_loop round after_add run
  watch_file_loop-run [] w = refl
  watch_file_loop-run (done ∷ rest) w = refl
  watch_file_loop-run (errors_closed ∷ rest) w = refl
  watch_file_loop-run (events_closed ∷ rest) w = refl
  watch_file_loop-run (error e ∷ rest) w = watch_file_loop-run rest w
  watch_file_loop-run (event evt reads none ∷ rest) w =
      let w' = handle_event env evt reads w in
      let called = handle_event-run evt reads w in
      let same : w'.opt ≡ w.opt =
        ap (λ v. v.opt) called ∙ run-opt (event_commands w.opt evt reads) w in
      watch_file_loop-run rest w'
      ∙ ap (λ o. run env (commands o rest) w') same
      ∙ ap (run env (commands w.opt rest)) called
      ∙ sym (run-append (event_commands w.opt evt reads) (commands w.opt rest) w)
  watch_file_loop-run (event evt reads (some e) ∷ rest) w = handle_event-run evt reads w
