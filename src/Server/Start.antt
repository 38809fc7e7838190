-- ===== src/Server/Start.antt =====
-- What holds when the program of cli/server/server.go begins to serve, and what signals do then.
use example_envoy_xds.Base.{
  List, [], ◌∷◌, Text, Option, none, Result, ok, err, ◌≡◌, refl, sym, ap, subst, apply_all, ok_inj,
  err-ne-ok, bind-ok,
}
use example_envoy_xds.Xds.{Proto, xds_config_source}
use example_envoy_xds.Lds.{TypedFilter, packed_filters, new_listener_discovery_service}
use example_envoy_xds.Resource.{version, resource_map}
use example_envoy_xds.Watch.World.{Env, Reads}
use example_envoy_xds.Watch.Loop.{watch}
use example_envoy_xds.Watch.Load.{
  WatchOpt, watch_cds_config_file, watch_eds_config_file, watch_rds_config_file,
  watch_lds_config_file,
}
use example_envoy_xds.Watch.{State, reload_all, new_watch_file}
use example_envoy_xds.Watch.Loads.{AreLoaded, load_all-AreLoaded}
use example_envoy_xds.Watch.Steps.{Configs, Command, reload, perform, run}
use example_envoy_xds.Server.Files.{IsOfFiles, Reloaded, four_after-IsOfFiles, reload_all-Reloaded}
use example_envoy_xds.Server.{
  Flags, Started, Signal, hup, quit, term, int, node_id_or_hostname, load_and_watch,
  unless_unwatched, unless_unloaded, server_action, watch_signal,
}

module _ {p : Proto} (env : Env p) where
  -- one publication, for the node, of the resources that the object holds, accepted by `Consistent`
  abbrev pub IsReadyFor : Text → State env → Type 0
  IsReadyFor node w =
      (s : env.api.Snapshot) × (w.published
        ≡ (record { node_id = node; version = version w.resource; snapshot = s }) ∷ [])
      × (env.api.new_snapshot (version w.resource) (resource_map w.resource) ≡ ok s)
      × (env.api.consistent s ≡ none)

  unless_unwatched_ok :
      (r : Result p.Error (Unit {0})) (w v : State env) → unless_unwatched env r w ≡ ok v → w ≡ v
  unfolding unless_unwatched
  unless_unwatched_ok (ok done) w v h = ok_inj h
  unless_unwatched_ok (err e) w v h = absurd (err-ne-ok h)

  unless_unloaded_ok :
      (watcher : Option p.Error) (add : Text → Option p.Error) (v : State env)
      (r : State env × Result p.Error (Unit {0}))
      → unless_unloaded env watcher add r ≡ ok v
      → r ≡ (v, ok tt)
  unfolding unless_unloaded
  unless_unloaded_ok watcher add v (u, err e) h = absurd (err-ne-ok h)
  unless_unloaded_ok watcher add v (u, ok done) h =
      ap (λ x. (x, ok tt)) (unless_unwatched_ok (watch watcher add u.opt) u v h)

  abbrev first_file : Flags → Text → State env
  first_file flags node = new_watch_file p env.api.Snapshot node (
      watch_cds_config_file flags.cds_yaml
      ∷ watch_eds_config_file flags.eds_yaml
      ∷ watch_rds_config_file flags.rds_yaml
      ∷ watch_lds_config_file flags.lds_yaml
      ∷ [])

  abbrev options : Flags → WatchOpt
  options flags = record {
    cds_yaml = flags.cds_yaml;
    eds_yaml = flags.eds_yaml;
    rds_yaml = flags.rds_yaml;
    lds_yaml = flags.lds_yaml;
  }

  -- the object holds the resources of the files that the flags name
  abbrev pub IsLoadedFrom : Flags → Reads p → State env → Type 0
  IsLoadedFrom flags reads w =
      (cs : Configs) × (fs : List (TypedFilter p)) × AreLoaded env reads (options flags) cs
      × (packed_filters env.marshal_any (new_listener_discovery_service p (xds_config_source p) [])
            cs.lds
          ≡ ok fs)
      × IsOfFiles cs fs w.resource

  Reloaded-IsReadyFor :
      (flags : Flags) (reads : Reads p) (node : Text) (v : State env)
      → Reloaded env reads (first_file flags node) v
      → IsReadyFor node v × IsLoadedFrom flags reads v
  unfolding new_watch_file watch_cds_config_file watch_eds_config_file watch_rds_config_file
      watch_lds_config_file apply_all
  Reloaded-IsReadyFor flags reads node v (cs, fs, s, loaded, packed, good, same) =
      subst (λ u. IsReadyFor node u × IsLoadedFrom flags reads u) (sym same)
        (
          (s, refl, good.0, good.1),
          (
            cs,
            fs,
            load_all-AreLoaded env reads (options flags) cs loaded,
            packed,
            four_after-IsOfFiles env cs fs (first_file flags node),
          ),
        )

  -- When `serverAction` gets as far as its goroutines, so before the servers accept a connection,
  -- exactly one snapshot has been published: for the node that the flag or, without it, the host
  -- names, built of the resources of the object under their version, and accepted by `Consistent`.
  -- Those resources are of four configurations that the files at the paths of the flags hold, each
  -- decoded and passed by its validator: the clusters, the assignments and the virtual hosts with
  -- their domains are those that the files name, and the listener has the messages packed for it.
  pub server_action-IsReadyFor :
      (hostname : Result p.Error Text) (flags : Flags) (reads : Reads p) (watcher : Option p.Error)
      (add : Text → Option p.Error) (st : Started env)
      → server_action env hostname flags reads watcher add ≡ ok st
      → (node : Text) × (node_id_or_hostname hostname flags.node_id ≡ ok node)
        × IsReadyFor node st.wf
        × IsLoadedFrom flags reads st.wf
  unfolding server_action load_and_watch
  server_action-IsReadyFor hostname flags reads watcher add st h =
      let (node, named, rest) = bind-ok (node_id_or_hostname hostname flags.node_id) _ h in
      let w = first_file flags node in
      let (wf, loaded, made) = bind-ok (load_and_watch env reads watcher add w) _ rest in
      let done = unless_unloaded_ok watcher add wf (reload_all env reads w) loaded in
      let (ready, of_files) =
        subst (λ u. IsReadyFor node u × IsLoadedFrom flags reads u) (ap (λ q. q.wf) (ok_inj made))
          (Reloaded-IsReadyFor flags reads node wf (reload_all-Reloaded env reads w wf done)) in
      (node, named, ready, of_files)

  -- the signals up to the first that ends the program, as operations
  abbrev pub reloads : List (Signal × Reads p) → List (Command p)
  reloads [] = []
  reloads ((hup, reads) ∷ rest) = reload reads ∷ reloads rest
  reloads ((quit, reads) ∷ rest) = []
  reloads ((term, reads) ∷ rest) = []
  reloads ((int, reads) ∷ rest) = []

  -- Each hang-up, up to the first other signal, reloads all files, and nothing else is done.
  pub watch_signal-run :
      (signals : List (Signal × Reads p)) (w : State env)
      → (watch_signal env signals w).0 ≡ run env (reloads signals) w
  unfolding watch_signal run perform
  watch_signal-run [] w = refl
  watch_signal-run ((hup, reads) ∷ rest) w = watch_signal-run rest (reload_all env reads w).0
  watch_signal-run ((quit, reads) ∷ rest) w = refl
  watch_signal-run ((term, reads) ∷ rest) w = refl
  watch_signal-run ((int, reads) ∷ rest) w = refl
