-- ===== src/Cds/Status/Single.antt =====
-- The ranges of a health check with one configured status, whatever it is.
use example_envoy_xds.Base.{
  ℕ, [], ◌∷◌, Text, ◌≡◌, ◌≢◌, ◌↔◌, ◌⊎◌, inl, inr, ◌≤◌, ◌<◌, ◌==◌, Bool-cases, arith,
}
use example_envoy_xds.Cds.Status.{status_uint, statuses_int64_range}
use example_envoy_xds.Cds.Status.Accepts.{
  Accepts, statuses_int64_range_default, statuses_int64_range_one,
}

-- The ranges for one status accept exactly the codes from 200 to 298 if it stands for 200, and
-- exactly the code that it stands for if that is another one.
pub statuses_int64_range_single :
    (s : Text) (m : ℕ)
    → Accepts (statuses_int64_range (s ∷ [])) m ↔ (
        ((status_uint s ≡ 200) × (200 ≤ m) × (m < 299))
        ⊎ ((status_uint s ≢ 200) × (m ≡ status_uint s)))
statuses_int64_range_single s m = elim (Bool-cases (status_uint s == 200)) [
  | inl e ↦
      let is : status_uint s ≡ 200 = ground (arith, e) in
      let (to, from) = statuses_int64_range_default s m is in
      (
        λ h. inl (is, (to h).0, (to h).1),
        λ h. elim h [ inl x ↦ from (x.1, x.2) | inr x ↦ absurd (x.0 is) ],
      )
  | inr e ↦
      let not : status_uint s ≢ 200 = ground (arith, e) in
      let (to, from) = statuses_int64_range_one s m not in
      (λ h. inr (not, to h), λ h. elim h [ inl x ↦ absurd (not x.0) | inr x ↦ from x.1 ])
]
