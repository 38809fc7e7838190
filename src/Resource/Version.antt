-- ===== src/Resource/Version.antt =====
-- The version of a snapshot tells the four counters that it is made of.
use mathlib.Core.List.{tail-eq_of_cons-eq}
use example_envoy_xds.Base.{ℕ, [], ◌∷◌, ◌++◌, ◌≡◌, refl, Text, All, arith}
use example_envoy_xds.Decimal.{format_uint}
use example_envoy_xds.Decimal.Format.{IsDigit, format_uint-IsDigit, format_uint_inj}
use example_envoy_xds.Names.{join}
use example_envoy_xds.Resource.{version_string}

-- digits end at the first dot
cut_at_dot :
    (s t : Text) {r q : Text}
    → All IsDigit s
    → All IsDigit t
    → s ++ (b'.' ∷ r) ≡ t ++ (b'.' ∷ q)
    → (s ≡ t) × (r ≡ q)
cut_at_dot [] [] hs ht e = (refl, tail-eq_of_cons-eq e)
cut_at_dot [] (d ∷ t) hs (hd, ht) e = absurd (ground arith)
cut_at_dot (c ∷ s) [] (hc, hs) ht e = absurd (ground arith)
cut_at_dot (c ∷ s) (d ∷ t) (hc, hs) (hd, ht) e =
    let (st, rq) = cut_at_dot s t hs ht (tail-eq_of_cons-eq e) in (cc (st), rq)

-- the version of four counters
abbrev pub version_of : ℕ → ℕ → ℕ → ℕ → Text
version_of e c r l = version_string (format_uint e) (format_uint c) (format_uint r) (format_uint l)

-- Two snapshots have one version only if all four counters agree.
pub version_of_inj :
    (e c r l e' c' r' l' : ℕ)
    → version_of e c r l ≡ version_of e' c' r' l'
    → (e ≡ e') × (c ≡ c') × (r ≡ r') × (l ≡ l')
unfolding version_string join
version_of_inj e c r l e' c' r' l' h =
    let dig = format_uint-IsDigit in
    let (p, h₁) = cut_at_dot (format_uint e) (format_uint e') (dig e) (dig e') h in
    let (q, h₂) = cut_at_dot (format_uint c) (format_uint c') (dig c) (dig c') h₁ in
    let (s, t) = cut_at_dot (format_uint r) (format_uint r') (dig r) (dig r') h₂ in
    (format_uint_inj p, format_uint_inj q, format_uint_inj s, format_uint_inj t)
