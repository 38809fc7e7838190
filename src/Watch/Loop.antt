-- ===== src/Watch/Loop.antt =====
-- `Watch` and `watchFileLoop` of watch.go. The environment chooses which branch of the `select`
-- runs next: an input is what that branch received, with the files as the handlers read them and
-- the result of the last `watcher.Add`. The sleep on `Rename` has no effect but to let time pass
-- before the reads, and log lines are left out.
use example_envoy_xds.Base.{
  ℕ, List, [], ◌∷◌, Text, Option, none, some, if◌then◌else◌, ◌==◌, Result, ok, err,
}
use example_envoy_xds.Xds.{Proto}
use example_envoy_xds.Watch.World.{Env, Reads}
use example_envoy_xds.Watch.Load.{WatchOpt}
use example_envoy_xds.Watch.{
  State, Op, change_cds_yaml, change_eds_yaml, change_rds_yaml, change_lds_yaml, equal_path,
}

-- `fsnotify.Event`; `op` is a bit set
pub record Event : Type 0 where
  pub name : Text
  pub op : ℕ

pub data Input (p : Proto) : Type 0 where
  done : Input p
  errors_closed : Input p
  error : p.Error → Input p
  events_closed : Input p
  event : Event → Reads p → Option p.Error → Input p

-- the loop goes on, or its goroutine has returned
pub data Status : Type 0 where
  running stopped : Status

module _ {E : Type 0} where
  -- `watcher.Add` of each path in turn, until one fails
  unfoldable pub add_paths : (Text → Option E) → List Text → Option E
  add_paths add [] = none
  add_paths add (path ∷ rest) = elim (add path) [ some e ↦ some e | none ↦ add_paths add rest ]

  -- `Watch`: the goroutine starts only if the watcher and all four paths are there.
  unfoldable pub watch : Option E → (Text → Option E) → WatchOpt → Result E (Unit {0})
  unfolding add_paths
  watch (some e) add opt = err e
  watch none add opt =
      elim (add_paths add (opt.cds_yaml ∷ opt.eds_yaml ∷ opt.lds_yaml ∷ opt.rds_yaml ∷ [])) [
        | some e ↦ err e
        | none ↦ ok tt
      ]

module _ {p : Proto} (env : Env p) where
  -- one `if equalPath(evt.Name, path)`; the error of the handler is logged only
  unfoldable pub when_changed : Text → Text → Op env (Unit {0}) → State env → State env
  when_changed name path change w = if equal_path env name path then (change w).0 else w

  -- the four tests, one after the other
  unfoldable pub dispatch : Text → Reads p → State env → State env
  unfolding when_changed
  dispatch name reads w = when_changed name w.opt.lds_yaml (change_lds_yaml env reads.lds) (
      when_changed name w.opt.rds_yaml (change_rds_yaml env reads.rds) (
        when_changed name w.opt.eds_yaml (change_eds_yaml env reads.eds)
          (when_changed name w.opt.cds_yaml (change_cds_yaml env reads.cds) w)))

  unfoldable pub handle_event : Event → Reads p → State env → State env
  unfolding dispatch
  handle_event evt reads w = if evt.op == env.chmod then w else dispatch evt.name reads w

  -- `watcher.Add(evt.Name)` at the end of the branch
  unfoldable pub after_add : Option p.Error → Status
  after_add none = running
  after_add (some e) = stopped

  -- one round of the `select`
  unfoldable pub round : Input p → State env → State env × Status
  unfolding handle_event after_add
  round done w = (w, stopped)
  round errors_closed w = (w, stopped)
  round (error e) w = (w, running)
  round events_closed w = (w, stopped)
  round (event evt reads add) w = (handle_event evt reads w, after_add add)

  -- what the loop has done after the inputs so far
  unfoldable pub watch_file_loop : List (Input p) → State env → State env × Status
  unfolding round
  watch_file_loop [] w = (w, running)
  watch_file_loop (input ∷ rest) w =
      let (w', status) = round input w in
      let next = watch_file_loop rest w' in elim status [ running ↦ next | stopped ↦ (w', stopped) ]
