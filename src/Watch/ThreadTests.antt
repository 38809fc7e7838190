-- ===== src/Watch/ThreadTests.antt =====
-- Tests of the interleaving of the two goroutines.
use example_envoy_xds.Base.{
  inl, List, [], ◌∷◌, arith, codes, ok, ap, subst, ◌≡◌, refl, All, apply_all, text_eq,
}
use example_envoy_xds.Samples.{
  sample_proto, sample_reads, sample_env, sample_cds, sample_eds, sample_state, sample_files,
}
use example_envoy_xds.Samples.Reload.{reloaded_state}
use example_envoy_xds.Cds
use example_envoy_xds.Eds
use example_envoy_xds.Resource.{
  snapshot, version, resource_map, update_cluster, update_endpoint, update_route, update_listener,
  new_resource,
}
use example_envoy_xds.Watch.{State, new_watch_file}
use example_envoy_xds.Watch.Steps.{cds_after, eds_after}
use example_envoy_xds.Watch.Outcome.{IsSnapshot, published_after}
use example_envoy_xds.Watch.Serving.{IsServed}
use example_envoy_xds.Watch.Steps.{Command, change_cds, change_eds, perform, run}
use example_envoy_xds.Decimal.{format_uint}
use example_envoy_xds.Watch.Threads.Settled.{IsSettled, Interleaved-IsSettled}
use example_envoy_xds.Watch.Threads.Content.{Run-same}
use example_envoy_xds.Watch.Threads.Sequential.{AllSucceed, run-Interleaved}
use example_envoy_xds.Watch.Threads.Scripts.{
  cds_service, making, storing, accesses, script, Interleaved,
}
use example_envoy_xds.Watch.Operations.{Ready, perform-ok}
use example_envoy_xds.Resource.Snapshot.{snapshot_ok}
use example_envoy_xds.Watch.Load.{
  load_cds, load_eds, load_yaml, validate_all, unless_refused, watch_cds_config_file,
  watch_eds_config_file, watch_rds_config_file, watch_lds_config_file,
}
use mathlib.Core.List.{Memᴰ}
use example_envoy_xds.Watch.Threads.{
  Run, Access, made_cds, nothing, built, publication_of, Run-IsServed, Run-stale,
}

abbrev changed : State sample_env
changed = cds_after sample_env (sample_cds ∷ []) reloaded_state

reloaded-IsSnapshot : IsSnapshot sample_env (resource_map reloaded_state.resource) reloaded_state
unfolding resource_map update_cluster update_endpoint update_route update_listener new_watch_file
    Cds.clusters Eds.eds_endpoints
reloaded-IsSnapshot = (refl, refl)

changed-IsSnapshot : IsSnapshot sample_env (resource_map changed.resource) changed
unfolding resource_map update_cluster update_endpoint update_route update_listener new_watch_file
    Cds.clusters Eds.eds_endpoints
changed-IsSnapshot = (refl, refl)

Run-stale_example :
    (v : State sample_env) × Run sample_env reloaded_state nothing nothing v
    × (v.published
        ≡ publication_of sample_env reloaded_state (resource_map reloaded_state.resource)
          ∷ publication_of sample_env changed (resource_map changed.resource)
          ∷ reloaded_state.published)
Run-stale_example =
    Run-stale sample_env reloaded_state (sample_cds ∷ []) (resource_map reloaded_state.resource)
      (resource_map changed.resource) reloaded-IsSnapshot changed-IsSnapshot

start-IsSnapshot : IsSnapshot sample_env (resource_map sample_state.resource) sample_state
unfolding resource_map new_watch_file new_resource
start-IsSnapshot = (refl, refl)

start-snapshot :
    snapshot sample_env.api sample_state.resource
    ≡ ok (version sample_state.resource, resource_map sample_state.resource)
start-snapshot =
    snapshot_ok sample_env.api sample_state.resource (resource_map sample_state.resource)
      start-IsSnapshot.0 start-IsSnapshot.1

abbrev first : State sample_env
first = record sample_state {
  published =
      publication_of sample_env sample_state (resource_map sample_state.resource)
      ∷ sample_state.published;
}

abbrev one_snapshot : Run sample_env sample_state nothing nothing first
one_snapshot =
    Run.right nothing first
      (Run.right
        (built (publication_of sample_env sample_state (resource_map sample_state.resource)))
        sample_state Run.start
        (Access.build sample_state (version sample_state.resource)
          (resource_map sample_state.resource) start-snapshot))
      (Access.set sample_state
        (publication_of sample_env sample_state (resource_map sample_state.resource)))

Run-IsServed_example : All (IsServed sample_env (codes "node")) first.published
Run-IsServed_example = Run-IsServed sample_env (codes "node") sample_files one_snapshot

abbrev second : State sample_env
second = record first {
  published = publication_of sample_env first (resource_map first.resource) ∷ first.published;
}

-- the other goroutine publishes the same resources again
abbrev two_snapshots : Run sample_env sample_state nothing nothing second
two_snapshots =
    Run.left nothing second
      (Run.left (built (publication_of sample_env first (resource_map first.resource))) first
        one_snapshot
        (Access.build first (version first.resource) (resource_map first.resource) start-snapshot))
      (Access.set first (publication_of sample_env first (resource_map first.resource)))

Run-same_example : resource_map first.resource ≡ resource_map sample_state.resource
Run-same_example =
    Run-same sample_env (codes "node") sample_files two_snapshots (omega arith)
      (publication_of sample_env first (resource_map first.resource))
      (publication_of sample_env sample_state (resource_map sample_state.resource)) (Memᴰ.head refl)
      (Memᴰ.tail (Memᴰ.head refl)) refl

-- a change of the cluster file, as far as its store, by the one goroutine
abbrev stored :
    Interleaved sample_env reloaded_state []
      (storing cds_service ∷ making cds_service ∷ [])
      nothing
      nothing
      changed
unfolding Cds.create
stored =
    let c = Cds.incre_version reloaded_state.cds in
    let u = record reloaded_state { cds = c } in
    let x = Cds.clusters c (sample_cds ∷ []) in
    Interleaved.right nothing changed
      (Interleaved.right (made_cds (format_uint c.version) x) u Interleaved.start
        (Access.make_cds reloaded_state (sample_cds ∷ [])))
      (Access.store_cds u (format_uint c.version) x)

abbrev first_commands : List (Command sample_proto)
first_commands = change_cds sample_reads.cds ∷ []

abbrev commands : List (Command sample_proto)
commands = change_eds sample_reads.eds ∷ []

abbrev both : State sample_env
both = eds_after sample_env (sample_eds ∷ []) changed

both-IsSnapshot : IsSnapshot sample_env (resource_map both.resource) both
unfolding resource_map update_cluster update_endpoint update_route update_listener new_watch_file
    Cds.clusters Eds.eds_endpoints
both-IsSnapshot = (refl, refl)

eds-loaded : load_eds sample_env sample_reads.eds changed.opt ≡ ok (sample_eds ∷ [])
unfolding load_cds load_eds load_yaml validate_all unless_refused new_watch_file apply_all
    watch_cds_config_file watch_eds_config_file watch_rds_config_file watch_lds_config_file text_eq
eds-loaded = refl

abbrev both_published : State sample_env
both_published = published_after sample_env (resource_map both.resource) both

eds-performed : perform sample_env (change_eds sample_reads.eds) changed ≡ (both_published, ok tt)
eds-performed =
    perform-ok sample_env changed (change_eds sample_reads.eds) both (resource_map both.resource)
      (Ready.eds sample_reads.eds (sample_eds ∷ []) eds-loaded) both-IsSnapshot

commands-AllSucceed : AllSucceed sample_env commands changed
commands-AllSucceed = (ap (λ r. r.1) eds-performed, tt)

both_published-snapshot :
    snapshot sample_env.api both_published.resource
    ≡ ok (version both.resource, resource_map both.resource)
both_published-snapshot =
    snapshot_ok sample_env.api both.resource (resource_map both.resource) both-IsSnapshot.0
      both-IsSnapshot.1

abbrev final : State sample_env
final = published_after sample_env (resource_map both.resource) both_published

-- and the first one publishes last
finished :
    Interleaved sample_env reloaded_state
      (script commands)
      (script first_commands)
      nothing
      nothing
      final
unfolding script accesses run
finished =
    let way =
      subst
        (λ v.
          Interleaved sample_env reloaded_state (script commands)
            (storing cds_service ∷ making cds_service ∷ []) nothing nothing v)
        (ap (λ r. r.0) eds-performed)
        (run-Interleaved sample_env reloaded_state changed []
          (storing cds_service ∷ making cds_service ∷ []) nothing commands commands-AllSucceed
          stored) in
    let q = publication_of sample_env both (resource_map both.resource) in
    Interleaved.right nothing final
      (Interleaved.right (built q) both_published way (
        Access.build both_published (version both.resource) (resource_map both.resource)
          both_published-snapshot))
      (Access.set both_published q)

reloaded-IsSettled : IsSettled sample_env reloaded_state
reloaded-IsSettled = inl (refl, reloaded-IsSnapshot.0, reloaded-IsSnapshot.1)

abbrev last : State sample_env
last = eds_after sample_env (sample_eds ∷ []) final

last-IsSnapshot : IsSnapshot sample_env (resource_map last.resource) last
unfolding resource_map update_cluster update_endpoint update_route update_listener new_watch_file
    Cds.clusters Eds.eds_endpoints
last-IsSnapshot = (refl, refl)

-- the endpoint file changes once more
final-AllSucceed : AllSucceed sample_env commands final
final-AllSucceed = (
  ap (λ r. r.1)
      (perform-ok sample_env final (change_eds sample_reads.eds) last (resource_map last.resource)
        (Ready.eds sample_reads.eds (sample_eds ∷ []) eds-loaded) last-IsSnapshot),
  tt,
)

Interleaved-IsSettled_example :
    IsSettled sample_env final × IsSettled sample_env (run sample_env commands final)
Interleaved-IsSettled_example =
    Interleaved-IsSettled sample_env reloaded_state final commands first_commands commands finished
      reloaded-IsSettled final-AllSucceed
