-- ===== src/Resource/Tests.antt =====
-- Tests of resource.go.
use example_envoy_xds.Base.{ℕ, codes, ◌≡◌, refl}
use example_envoy_xds.Names.{join}
use example_envoy_xds.Resource.{version_string}
use example_envoy_xds.Resource.Version.{version_of_inj}

joined : version_string (codes "1") (codes "2") (codes "0") (codes "12") ≡ codes "1.2.0.12"
unfolding version_string join
joined = refl

version_of_inj_example : ◌≡◌ {A = ℕ} 3 3 × ◌≡◌ {A = ℕ} 1 1 × ◌≡◌ {A = ℕ} 4 4 × ◌≡◌ {A = ℕ} 15 15
version_of_inj_example = version_of_inj 3 1 4 15 3 1 4 15 refl
