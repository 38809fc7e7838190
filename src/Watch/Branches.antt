-- ===== src/Watch/Branches.antt =====
-- Every run of an operation is one of those that Operations describes.
use example_envoy_xds.Base.{ok, err, ◌≡◌, ◌⊎◌, inl, inr, Result-cases}
use example_envoy_xds.Xds.{Proto}
use example_envoy_xds.Lds
use example_envoy_xds.Resource.Snapshot.{snapshot-cases}
use example_envoy_xds.Watch.World.{Env}
use example_envoy_xds.Watch.Load.{load_cds, load_eds, load_rds, load_lds}
use example_envoy_xds.Watch.{State}
use example_envoy_xds.Watch.Steps.{
  Command, change_cds, change_eds, change_rds, change_lds, reload, perform, load_all,
}
use example_envoy_xds.Watch.Outcome.{IsSnapshot, published_after}
use example_envoy_xds.Watch.Operations.{Ready, Failed, perform-ok, perform-err}

module _ {p : Proto} (env : Env p) (w : State env) where
  -- it succeeds, or it fails, as described
  abbrev pub IsDescribed : Command p → Type 0
  IsDescribed c =
      ((v : State env) × (s : env.api.Snapshot) × Ready env w c v
        × IsSnapshot env s v
        × (perform env c w ≡ (published_after env s v, ok tt)))
      ⊎ ((v : State env) × (e : p.Error) × Failed env w c v e × (perform env c w ≡ (v, err e)))

  Failed-IsDescribed :
      (c : Command p) (v : State env) (e : p.Error) → Failed env w c v e → IsDescribed c
  Failed-IsDescribed c v e failed = inr (v, e, failed, perform-err env w c v e failed)

  Ready-IsDescribed : (c : Command p) (v : State env) → Ready env w c v → IsDescribed c
  Ready-IsDescribed c v ready = elim (snapshot-cases env.api v.resource) [
    | inl (e, bad) ↦ Failed-IsDescribed c v e (Failed.refused c v e ready bad)
    | inr (s, _, built, good) ↦
        inl (v, s, ready, (built, good), perform-ok env w c v s ready (built, good))
  ]

  -- Each of the five operations either succeeds, with its files loaded and the consistent snapshot
  -- of its new resources published, or fails in one of the described ways: with the first file that
  -- does not load, with a listener that cannot be packed, or with a snapshot that is refused.
  pub perform-IsDescribed : (c : Command p) → IsDescribed c
  perform-IsDescribed (change_cds read) = elim (Result-cases (load_cds env read w.opt)) [
    | inl (config, h) ↦ Ready-IsDescribed (change_cds read) _ (Ready.cds read config h)
    | inr (e, h) ↦ Failed-IsDescribed (change_cds read) w e (Failed.load_cds_err read e h)
  ]
  perform-IsDescribed (change_eds read) = elim (Result-cases (load_eds env read w.opt)) [
    | inl (config, h) ↦ Ready-IsDescribed (change_eds read) _ (Ready.eds read config h)
    | inr (e, h) ↦ Failed-IsDescribed (change_eds read) w e (Failed.load_eds_err read e h)
  ]
  perform-IsDescribed (change_rds read) = elim (Result-cases (load_rds env read w.opt)) [
    | inl (config, h) ↦ Ready-IsDescribed (change_rds read) _ (Ready.rds read config h)
    | inr (e, h) ↦ Failed-IsDescribed (change_rds read) w e (Failed.load_rds_err read e h)
  ]
  perform-IsDescribed (change_lds read) = elim (Result-cases (load_lds env read w.opt)) [
    | inr (e, h) ↦ Failed-IsDescribed (change_lds read) w e (Failed.load_lds_err read e h)
    | inl (config, h) ↦ elim (Result-cases (Lds.packed_filters env.marshal_any w.lds config)) [
      | inl (fs, k) ↦ Ready-IsDescribed (change_lds read) _ (Ready.lds read config fs h k)
      | inr (e, k) ↦
          Failed-IsDescribed (change_lds read) w e (Failed.pack_lds_err read config e h k)
    ]
  ]
  perform-IsDescribed (reload reads) = elim (Result-cases (load_all env reads w.opt)) [
    | inr (e, h) ↦ Failed-IsDescribed (reload reads) w e (Failed.load_all_err reads e h)
    | inl (cs, h) ↦ elim (Result-cases (Lds.packed_filters env.marshal_any w.lds cs.lds)) [
      | inl (fs, k) ↦ Ready-IsDescribed (reload reads) _ (Ready.all reads cs fs h k)
      | inr (e, k) ↦ Failed-IsDescribed (reload reads) _ e (Failed.pack_all_err reads cs e h k)
    ]
  ]
