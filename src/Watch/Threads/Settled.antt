-- ===== src/Watch/Threads/Settled.antt =====
-- What two goroutines leave that both run operations to their ends: the resources have been
-- published, though perhaps not last.
use example_envoy_xds.Base.{
  none, ok, List, [], ◌∷◌, ◌++◌, Bool, true, false, ◌≡◌, refl, sym, ◌∙◌, ◌⊎◌, inl, inr,
  Result-cases,
}
use example_envoy_xds.Xds.{Proto}
use example_envoy_xds.Cds
use example_envoy_xds.Eds
use example_envoy_xds.Rds
use example_envoy_xds.Lds
use example_envoy_xds.Lds.Laws.{create_ok, create_err}
use example_envoy_xds.Resource.{version, resource_map}
use example_envoy_xds.Resource.Snapshot.{snapshot-accepted}
use example_envoy_xds.Watch.World.{Env}
use example_envoy_xds.Watch.{State, Publication}
use example_envoy_xds.Watch.Steps.{
  Command, run, change_cds, change_eds, change_rds, change_lds, reload,
}
use example_envoy_xds.Watch.Threads.{
  Hand, Access, nothing, made_cds, made_eds, made_rds, made_lds, built,
}
use example_envoy_xds.Watch.Threads.Sequential.{AllSucceed, run-Interleaved}
use example_envoy_xds.Watch.Threads.Scripts.{
  Kind, making, storing, building, setting, accesses, script, kind, Interleaved,
}

-- one of the elements at least
abbrev pub Any {ℓ} : {A : Type ℓ} → (A → Type 0) → List A → Type 0
Any P [] = ⊥
Any P (x ∷ xs) = P x ⊎ Any P xs

-- whether a goroutine has stored a resource since it last built a snapshot
abbrev is_dirty : List Kind → Bool
is_dirty [] = false
is_dirty (making k ∷ ts) = is_dirty ts
is_dirty (storing k ∷ ts) = true
is_dirty (building ∷ ts) = false
is_dirty (setting ∷ ts) = is_dirty ts

false-ne-true : ◌≡◌ {A = Bool} false true → ⊥
false-ne-true h = cc

is_dirty-append :
    (ts us : List Kind) → is_dirty ts ≡ false → is_dirty us ≡ false → is_dirty (ts ++ us) ≡ false
is_dirty-append [] us h k = k
is_dirty-append (making x ∷ ts) us h k = is_dirty-append ts us h k
is_dirty-append (storing x ∷ ts) us h k = absurd (false-ne-true (sym h))
is_dirty-append (building ∷ ts) us h k = refl
is_dirty-append (setting ∷ ts) us h k = is_dirty-append ts us h k

-- every operation builds a snapshot after its last store
is_dirty-accesses : {p : Proto} (c : Command p) → is_dirty (accesses c) ≡ false
unfolding accesses
is_dirty-accesses (change_cds read) = refl
is_dirty-accesses (change_eds read) = refl
is_dirty-accesses (change_rds read) = refl
is_dirty-accesses (change_lds read) = refl
is_dirty-accesses (reload reads) = refl

is_dirty-script : {p : Proto} (cs : List (Command p)) → is_dirty (script cs) ≡ false
unfolding script
is_dirty-script [] = refl
is_dirty-script (c ∷ rest) =
    is_dirty-append (script rest) (accesses c) (is_dirty-script rest) (is_dirty-accesses c)

module _ {p : Proto} (env : Env p) where
  -- a publication of just the resources that the object holds, under their version
  abbrev pub IsCurrent : State env → Publication env.api.Snapshot → Type 0
  IsCurrent v q =
      (q.version ≡ version v.resource)
      × (env.api.new_snapshot (version v.resource) (resource_map v.resource) ≡ ok q.snapshot)
      × (env.api.consistent q.snapshot ≡ none)

  -- the resources have been published
  abbrev pub IsSettled : State env → Type 0
  IsSettled v = Any (IsCurrent v) v.published

  -- a goroutine will still try to publish the resources
  abbrev IsPending : List Kind → Hand env → State env → Type 0
  IsPending ts nothing v = is_dirty ts ≡ true
  IsPending ts (made_cds n x) v = Unit {0}
  IsPending ts (made_eds n x) v = Unit {0}
  IsPending ts (made_rds n x) v = Unit {0}
  IsPending ts (made_lds n x) v = Unit {0}
  IsPending ts (built q) v = IsCurrent v q

  abbrev IsCovered : List Kind → Hand env → List Kind → Hand env → State env → Type 0
  IsCovered ts a us b v = IsSettled v ⊎ IsPending ts a v ⊎ IsPending us b v

  flip_cover :
      (ts : List Kind) (a : Hand env) (us : List Kind) (b : Hand env) (v : State env)
      → IsCovered ts a us b v
      → IsCovered us b ts a v
  flip_cover ts a us b v (inl h) = inl h
  flip_cover ts a us b v (inr (inl h)) = inr (inr h)
  flip_cover ts a us b v (inr (inr h)) = inr (inl h)

  IsPending-record :
      (us : List Kind) (b : Hand env) (w : State env) (ps : List (Publication env.api.Snapshot))
      → IsPending us b w
      → IsPending us b (record w { published = ps })
  IsPending-record us nothing w ps h = h
  IsPending-record us (made_cds n x) w ps h = tt
  IsPending-record us (made_eds n x) w ps h = tt
  IsPending-record us (made_rds n x) w ps h = tt
  IsPending-record us (made_lds n x) w ps h = tt
  IsPending-record us (built q) w ps h = h

  Access-IsCovered :
      {a : Hand env} {w : State env} {c : Hand env} {u : State env} (access : Access env a w c u)
      (ts us : List Kind) (b : Hand env)
      → IsCovered ts a us b w
      → IsCovered (kind env access ∷ ts) c us b u
  unfolding Cds.create Eds.create Rds.create
  Access-IsCovered (Access.make_cds w config) ts us b h = inr (inl tt)
  Access-IsCovered (Access.store_cds w v x) ts us b h = inr (inl refl)
  Access-IsCovered (Access.make_eds w config) ts us b h = inr (inl tt)
  Access-IsCovered (Access.store_eds w v x) ts us b h = inr (inl refl)
  Access-IsCovered (Access.make_rds w config) ts us b h = inr (inl tt)
  Access-IsCovered (Access.store_rds w v x) ts us b h = inr (inl refl)
  Access-IsCovered (Access.make_lds w config) ts us b h =
      elim (Result-cases (Lds.packed_filters env.marshal_any w.lds config)) [
        | inl (fs, packed) ↦ rw (create_ok env.marshal_any w.lds config packed) (inr (inl tt))
        | inr (e, bad) ↦ rw (create_err env.marshal_any w.lds config bad) h
      ]
  Access-IsCovered (Access.store_lds w v x) ts us b h = inr (inl refl)
  Access-IsCovered (Access.build w n s done) ts us b h =
      inr (inl (snapshot-accepted env.api w.resource n s done))
  Access-IsCovered (Access.set w q) ts us b (inl h) = inl (inr h)
  Access-IsCovered (Access.set w q) ts us b (inr (inl h)) = inl (inl h)
  Access-IsCovered (Access.set w q) ts us b (inr (inr h)) =
      inr (inr (IsPending-record us b w (q ∷ w.published) h))

  Interleaved-IsCovered :
      {w v : State env} {ts us : List Kind} {a b : Hand env}
      → Interleaved env w ts us a b v
      → IsSettled w
      → IsCovered ts a us b v
  Interleaved-IsCovered Interleaved.start settled = inl settled
  Interleaved-IsCovered {us = us} {b = b} (Interleaved.left {ts = ts} c u run access) settled =
      Access-IsCovered access ts us b (Interleaved-IsCovered run settled)
  Interleaved-IsCovered {ts = ts} {a = a}
        (Interleaved.right {us = us} {b = b} {v = v} c u run access) settled =
      flip_cover (kind env access ∷ us) c ts a u (
        Access-IsCovered access us ts a
          (flip_cover ts a us b v (Interleaved-IsCovered run settled)))

  -- If the resources have been published, and the two goroutines then run some operations each, all
  -- to their ends with every access of their scripts, then the resources that the object holds have
  -- been published too, in a consistent snapshot under their version, however the accesses
  -- interleave; and so they have been after any further operations that one goroutine then runs
  -- alone, if these succeed.
  pub Interleaved-IsSettled :
      (w v : State env) (cs ds es : List (Command p))
      → Interleaved env w (script cs) (script ds) nothing nothing v
      → IsSettled w
      → AllSucceed env es v
      → IsSettled v × IsSettled (run env es v)
  Interleaved-IsSettled w v cs ds es way settled fine = (
    clean (script cs) v (is_dirty-script cs) way,
    clean (script es ++ script cs) (run env es v)
        (is_dirty-append (script es) (script cs) (is_dirty-script es) (is_dirty-script cs))
        (run-Interleaved env w v (script cs) (script ds) nothing es fine way),
  )
    where
      clean :
          (ts : List Kind) (u : State env)
          → is_dirty ts ≡ false
          → Interleaved env w ts (script ds) nothing nothing u
          → IsSettled u
      clean ts u no_stores run_so_far = elim (Interleaved-IsCovered run_so_far settled) [
        | inl h ↦ h
        | inr (inl h) ↦ absurd (false-ne-true (sym no_stores ∙ h))
        | inr (inr h) ↦ absurd (false-ne-true (sym (is_dirty-script ds) ∙ h))
      ]
