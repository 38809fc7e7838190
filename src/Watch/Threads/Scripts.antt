-- ===== src/Watch/Threads/Scripts.antt =====
-- The accesses of each operation of watch.go in the order of its body, and the interleavings with
-- the accesses that each goroutine has made.
use example_envoy_xds.Base.{List, [], ◌∷◌, ◌++◌}
use example_envoy_xds.Xds.{Proto}
use example_envoy_xds.Watch.World.{Env}
use example_envoy_xds.Watch.{State}
use example_envoy_xds.Watch.Steps.{Command, change_cds, change_eds, change_rds, change_lds, reload}
use example_envoy_xds.Watch.Threads.{Hand, Access, nothing}

pub data Service : Type 0 where
  cds_service eds_service rds_service lds_service : Service

-- what an access does: a `create`, the store of its result, `Snapshot` or `SetSnapshot`
pub data Kind : Type 0 where
  making storing : Service → Kind
  building setting : Kind

-- the accesses of `ReloadAll` when it succeeds, the last one first
abbrev reload_accesses : List Kind
reload_accesses =
    setting
    ∷ building
    ∷ storing lds_service
    ∷ making lds_service
    ∷ storing rds_service
    ∷ making rds_service
    ∷ storing eds_service
    ∷ making eds_service
    ∷ storing cds_service
    ∷ making cds_service
    ∷ []

-- the accesses of an operation that succeeds, the last one first
unfoldable pub accesses : {p : Proto} → Command p → List Kind
accesses (change_cds read) = setting ∷ building ∷ storing cds_service ∷ making cds_service ∷ []
accesses (change_eds read) = setting ∷ building ∷ storing eds_service ∷ making eds_service ∷ []
accesses (change_rds read) = setting ∷ building ∷ storing rds_service ∷ making rds_service ∷ []
accesses (change_lds read) = setting ∷ building ∷ storing lds_service ∷ making lds_service ∷ []
accesses (reload reads) = reload_accesses

-- those of some operations, one after the other
unfoldable pub script : {p : Proto} → List (Command p) → List Kind
unfolding accesses
script [] = []
script (c ∷ rest) = script rest ++ accesses c

module _ {p : Proto} (env : Env p) where
  abbrev pub kind :
      {a : Hand env} {w : State env} {b : Hand env} {v : State env} → Access env a w b v → Kind
  kind (Access.make_cds w config) = making cds_service
  kind (Access.store_cds w v x) = storing cds_service
  kind (Access.make_eds w config) = making eds_service
  kind (Access.store_eds w v x) = storing eds_service
  kind (Access.make_rds w config) = making rds_service
  kind (Access.store_rds w v x) = storing rds_service
  kind (Access.make_lds w config) = making lds_service
  kind (Access.store_lds w v x) = storing lds_service
  kind (Access.build w n s done) = building
  kind (Access.set w q) = setting

  -- steps of the two goroutines, with the accesses that each has made, the last one first
  pub data Interleaved (w : State env)
      : List Kind → List Kind → Hand env → Hand env → State env → Type 0 where
    start : Interleaved w [] [] nothing nothing w
    left :
        {ts us : List Kind} {a b : Hand env} {v : State env} (c : Hand env) (u : State env)
        → Interleaved w ts us a b v
        → (access : Access env a v c u) → Interleaved w (kind access ∷ ts) us c b u
    right :
        {ts us : List Kind} {a b : Hand env} {v : State env} (c : Hand env) (u : State env)
        → Interleaved w ts us a b v
        → (access : Access env b v c u) → Interleaved w ts (kind access ∷ us) a c u
