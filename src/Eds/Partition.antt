-- ===== src/Eds/Partition.antt =====
-- One region: its instances split by zone.
use mathlib.Core.List.{Permᴰ, map-append}
use mathlib.Core.List.Permᴰ
use example_envoy_xds.Base.{
  List, [], ◌∷◌, ◌++◌, map, Text, text_eq, Option, some, ◌≡◌, ◌≢◌, refl, sym, ap, ◌∙◌, append_assoc,
  All, Distinct, select, arith, Bool-cases, inl, inr,
}
use example_envoy_xds.Config.{EdsInstanceConfig}
use example_envoy_xds.Eds.Options.{EdsOpt}
use example_envoy_xds.Eds.{
  LbEndpoint, endpoint_with_status, endpoint_with_weight, Locality, LocalityLbEndpoints,
  InstanceMap, lb_endpoints, lb_endpoints_default, lb_endpoints_with_initial_status,
  lb_locality_endpoint, zone_loop,
}
use example_envoy_xds.Eds.Groups.{IsGroup, keys, contents}

-- the instances of a region and a zone, in the order of the file
abbrev pub cell : Text → Text → List EdsInstanceConfig → List EdsInstanceConfig
cell region zone is = select (λ i. text_eq i.zone zone) (select (λ i. text_eq i.region region) is)

-- a group for a region and a zone, with the endpoints of just the instances that lie there
abbrev pub IsCell : EdsOpt → List EdsInstanceConfig → LocalityLbEndpoints → Type 0
IsCell opt is l =
    (region : Text) × (zone : Text) × (cell region zone is ≢ [])
    × (l.locality ≡ some (record { region = region; zone = zone }))
    × (l.lb_endpoints ≡ lb_endpoints opt (cell region zone is))

abbrev pub all_endpoints : List LocalityLbEndpoints → List LbEndpoint
all_endpoints [] = []
all_endpoints (l ∷ ls) = l.lb_endpoints ++ all_endpoints ls

abbrev pub localities : List LocalityLbEndpoints → List (Option Locality)
localities = map (λ l. l.locality)

-- a locality of the region
abbrev pub InRegion : Text → Option Locality → Type 0
InRegion region o = (zone : Text) × (o ≡ some (record { region = region; zone = zone }))

pub all_endpoints-append :
    (ls ms : List LocalityLbEndpoints)
    → all_endpoints (ls ++ ms) ≡ all_endpoints ls ++ all_endpoints ms
all_endpoints-append [] ms = refl
all_endpoints-append (l ∷ ls) ms =
    ap (◌++◌ l.lb_endpoints) (all_endpoints-append ls ms)
    ∙ sym (append_assoc l.lb_endpoints (all_endpoints ls) (all_endpoints ms))

pub contents-perm : {m n : InstanceMap} → Permᴰ m n → Permᴰ (contents m) (contents n)
contents-perm Permᴰ.nil = Permᴰ.nil
contents-perm (Permᴰ.cons {a = a} e p) = rw (← e) (Permᴰ.append_left a.1 (contents-perm p))
contents-perm (Permᴰ.swap {a = a} {b = b} {l = l} e f) =
    rw (← e, ← f, ← append_assoc a.1 b.1 (contents l), ← append_assoc b.1 a.1 (contents l))
      (Permᴰ.append_right (contents l) (Permᴰ.append_comm a.1 b.1))
contents-perm (Permᴰ.trans p q) = Permᴰ.trans (contents-perm p) (contents-perm q)

module _ (opt : EdsOpt) where
  pub lb_endpoints-nil : lb_endpoints opt [] ≡ []
  unfolding lb_endpoints lb_endpoints_default lb_endpoints_with_initial_status
  lb_endpoints-nil = ground arith

  pub lb_endpoints-append :
      (is js : List EdsInstanceConfig)
      → lb_endpoints opt (is ++ js) ≡ lb_endpoints opt is ++ lb_endpoints opt js
  unfolding lb_endpoints lb_endpoints_default lb_endpoints_with_initial_status
  lb_endpoints-append is js = elim (Bool-cases opt.set_initial_health_status) [
    | inl e ↦ rw e (map-append (endpoint_with_status opt.health_status) is js)
    | inr e ↦ rw e (map-append endpoint_with_weight is js)
  ]

  pub lb_endpoints-perm :
      {is js : List EdsInstanceConfig}
      → Permᴰ is js
      → Permᴰ (lb_endpoints opt is) (lb_endpoints opt js)
  unfolding lb_endpoints lb_endpoints_default lb_endpoints_with_initial_status
  lb_endpoints-perm p = elim (Bool-cases opt.set_initial_health_status) [
    | inl e ↦ rw e (Permᴰ.map (endpoint_with_status opt.health_status) p)
    | inr e ↦ rw e (Permᴰ.map endpoint_with_weight p)
  ]

  pub all_endpoints-zone_loop :
      (region : Text) (m : InstanceMap)
      → all_endpoints (zone_loop opt region m) ≡ lb_endpoints opt (contents m)
  unfolding zone_loop lb_locality_endpoint
  all_endpoints-zone_loop region [] = sym lb_endpoints-nil
  all_endpoints-zone_loop region ((zone, ins) ∷ m) =
      ap (◌++◌ (lb_endpoints opt ins)) (all_endpoints-zone_loop region m)
      ∙ sym (lb_endpoints-append ins (contents m))

  pub zone_loop-IsCell :
      (is : List EdsInstanceConfig) (region : Text) (m : InstanceMap)
      → All (IsGroup (λ i. i.zone) (select (λ i. text_eq i.region region) is)) m
      → All (IsCell opt is) (zone_loop opt region m)
  unfolding zone_loop lb_locality_endpoint
  zone_loop-IsCell is region [] _ = tt
  zone_loop-IsCell is region ((zone, ins) ∷ m) ((e, full), h) =
      ((region, zone, rw e full, refl, rw e refl), zone_loop-IsCell is region m h)

  pub zone_loop-InRegion :
      (region : Text) (m : InstanceMap)
      → All (InRegion region) (localities (zone_loop opt region m))
  unfolding zone_loop lb_locality_endpoint
  zone_loop-InRegion region [] = tt
  zone_loop-InRegion region ((zone, ins) ∷ m) = ((zone, refl), zone_loop-InRegion region m)

  pub zone_loop-Distinct :
      (region : Text) (m : InstanceMap)
      → Distinct (keys m)
      → Distinct (localities (zone_loop opt region m))
  unfolding zone_loop lb_locality_endpoint
  zone_loop-Distinct region [] _ = tt
  zone_loop-Distinct region ((zone, ins) ∷ m) (hz, h) = (other m hz, zone_loop-Distinct region m h)
    where
      other :
          (n : InstanceMap)
          → All (λ z. zone ≢ z) (keys n)
          → All
              (λ o. some (record { region = region; zone = zone }) ≢ o)
              (localities (zone_loop opt region n))
      other [] _ = tt
      other ((z, js) ∷ n) (ne, hn) = (ground arith, other n hn)
