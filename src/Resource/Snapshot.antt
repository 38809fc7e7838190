-- ===== src/Resource/Snapshot.antt =====
-- When `Snapshot` succeeds, and with what.
use example_envoy_xds.Base.{
  Text, none, ok, err, ◌≡◌, sym, ap, ◌∙◌, ok_inj, err-ne-ok, ◌⊎◌, inl, inr, Result-cases,
  Option-cases,
}
use example_envoy_xds.Xds.{Proto}
use example_envoy_xds.Resource.{Resource, SnapshotApi, version, resource_map, snapshot, checked}

module _ {p : Proto} (api : SnapshotApi p) (r : Resource p) where
  -- It fails, or it returns the snapshot of the resources under their version, and that is
  -- consistent.
  abbrev pub SnapshotCases : Type 0
  SnapshotCases =
      ((e : p.Error) × (snapshot api r ≡ err e))
      ⊎ ((s : api.Snapshot) × (snapshot api r ≡ ok (version r, s))
          × (api.new_snapshot (version r) (resource_map r) ≡ ok s)
          × (api.consistent s ≡ none))

  pub snapshot-cases : SnapshotCases
  unfolding snapshot
  snapshot-cases = elim (Result-cases (api.new_snapshot (version r) (resource_map r))) [
    | inr (e, bad) ↦ inl (e, rw (bad, snapshot))
    | inl (s, built) ↦ elim (Option-cases (api.consistent s)) [
      | inr (e, bad) ↦ inl (e, rw (built, snapshot) (rw (bad, checked)))
      | inl good ↦ inr (s, rw (built, snapshot) (rw (good, checked)), built, good)
    ]
  ]

  pub snapshot_ok :
      (s : api.Snapshot)
      → api.new_snapshot (version r) (resource_map r) ≡ ok s
      → api.consistent s ≡ none
      → snapshot api r ≡ ok (version r, s)
  unfolding snapshot
  snapshot_ok s built good = rw (built, snapshot) (rw (good, checked))

  -- a snapshot that was returned is that of the resources under their version, and `Consistent` has
  -- accepted it
  pub snapshot-accepted :
      (n : Text) (s : api.Snapshot)
      → snapshot api r ≡ ok (n, s)
      → (n ≡ version r)
        × (api.new_snapshot (version r) (resource_map r) ≡ ok s)
        × (api.consistent s ≡ none)
  snapshot-accepted n s h = elim snapshot-cases [
    | inl (e, bad) ↦ absurd (err-ne-ok (sym bad ∙ h))
    | inr (t, done, built, good) ↦
        let same = ok_inj (sym h ∙ done) in
        let eq = sym (ap (λ q. q.1) same) in
        (ap (λ q. q.0) same, built ∙ ap ok eq, ap api.consistent (sym eq) ∙ good)
  ]
