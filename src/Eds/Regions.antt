-- ===== src/Eds/Regions.antt =====
-- All regions: the locality policy loses no instance, repeats none, and announces no locality
-- twice, whatever order Go visits its maps in.
use mathlib.Core.List.{Permᴰ, map-append}
use mathlib.Core.List.Permᴰ
use example_envoy_xds.Base.{
  ℕ, suc, List, [], ◌∷◌, Text, text_eq, codes, Option, some, ◌≡◌, ◌≢◌, sym, ◌∙◌, All, All-append,
  All-imp, All-perm, Distinct, Distinct-append, Distinct-perm, arith, Bool-cases, inl, inr, text_ne,
  if_same,
}
use example_envoy_xds.Config.{EdsInstanceConfig}
use example_envoy_xds.Eds.Options.{EdsOpt}
use example_envoy_xds.Eds.{
  LocalityLbEndpoints, Locality, InstanceMap, Order, lb_endpoints, lb_locality_endpoints_by_region,
  region_loop, lb_locality_endpoints, instances_by_region, instances_by_zone,
  lb_balancing_endpoints, lb_normal_endpoints,
}
use example_envoy_xds.Eds.Groups.{
  IsGroup, group-IsGroup, keys, contents, contents-group, Distinct-group,
}
use example_envoy_xds.Eds.Partition.{
  IsCell, InRegion, all_endpoints, localities, all_endpoints-append, contents-perm,
  lb_endpoints-nil, lb_endpoints-append, lb_endpoints-perm, all_endpoints-zone_loop,
  zone_loop-IsCell, zone_loop-InRegion, zone_loop-Distinct,
}

region_of_path :
    {r s y z : Text}
    → ◌≡◌ {A = Option Locality}
        (some (record { region = r; zone = y }))
        (some (record { region = s; zone = z }))
    → r ≡ s
region_of_path p = ground arith

-- The order that Go takes visits each entry of the map once.
abbrev pub VisitsAll : Order → Type 0
VisitsAll order = (path : List ℕ) (m : InstanceMap) → Permᴰ (order path m) m

module _ (order : Order) (opt : EdsOpt) (visits : VisitsAll order) where
  region_part :
      (path : List ℕ) (region : Text) (is : List EdsInstanceConfig)
      → Permᴰ
          (all_endpoints (lb_locality_endpoints_by_region order opt path region is))
          (lb_endpoints opt is)
  unfolding lb_locality_endpoints_by_region instances_by_zone
  region_part path region is =
      rw (all_endpoints-zone_loop opt region (order path (instances_by_zone is))) (
        lb_endpoints-perm opt (
          Permᴰ.trans (contents-perm (visits path (instances_by_zone is)))
            (contents-group (λ i. i.zone) is [])))

  region_loop_endpoints :
      (path : List ℕ) (n : ℕ) (m : InstanceMap)
      → Permᴰ (all_endpoints (region_loop order opt path n m)) (lb_endpoints opt (contents m))
  unfolding region_loop
  region_loop_endpoints path n [] = rw (lb_endpoints-nil opt) Permᴰ.nil
  region_loop_endpoints path n ((region, is) ∷ m) =
      rw
        (
          all_endpoints-append (lb_locality_endpoints_by_region order opt (n ∷ path) region is)
              (region_loop order opt path (suc n) m),
          lb_endpoints-append opt is (contents m),
        )
        (Permᴰ.trans (Permᴰ.append_right _ (region_part (n ∷ path) region is))
          (Permᴰ.append_left (lb_endpoints opt is) (region_loop_endpoints path (suc n) m)))

  region_loop-IsCell :
      (is : List EdsInstanceConfig) (path : List ℕ) (n : ℕ) (m : InstanceMap)
      → All (IsGroup (λ i. i.region) is) m
      → All (IsCell opt is) (region_loop order opt path n m)
  unfolding region_loop lb_locality_endpoints_by_region instances_by_zone
  region_loop-IsCell is path n [] _ = tt
  region_loop-IsCell is path n ((region, ins) ∷ m) ((e, full), h) =
      All-append (IsCell opt is) _ (region_loop order opt path (suc n) m)
        (zone_loop-IsCell opt is region (order (n ∷ path) (instances_by_zone ins)) (
          rw e (
            All-perm (IsGroup (λ i. i.zone) ins)
              (Permᴰ.symm (visits (n ∷ path) (instances_by_zone ins)))
              (group-IsGroup (λ i. i.zone) ins))))
        (region_loop-IsCell is path (suc n) m h)

  part-InRegion :
      (path : List ℕ) (region : Text) (is : List EdsInstanceConfig)
      → All
          (InRegion region)
          (localities (lb_locality_endpoints_by_region order opt path region is))
  unfolding lb_locality_endpoints_by_region
  part-InRegion path region is = zone_loop-InRegion opt region (order path (instances_by_zone is))

  part-Distinct :
      (path : List ℕ) (region : Text) (is : List EdsInstanceConfig)
      → Distinct (localities (lb_locality_endpoints_by_region order opt path region is))
  unfolding lb_locality_endpoints_by_region instances_by_zone
  part-Distinct path region is = zone_loop-Distinct opt region (order path (instances_by_zone is)) (
      Distinct-perm (Permᴰ.map (λ e. e.0) (Permᴰ.symm (visits path (instances_by_zone is))))
        (Distinct-group (λ i. i.zone) is [] tt))

  locality_start :
      (path : List ℕ) (is : List EdsInstanceConfig)
      → All (IsGroup (λ i. i.region) is) (order path (instances_by_region is))
  unfolding instances_by_region
  locality_start path is =
      All-perm (IsGroup (λ i. i.region) is) (Permᴰ.symm (visits path (instances_by_region is)))
        (group-IsGroup (λ i. i.region) is)

  abbrev Elsewhere : Text → Option Locality → Type 0
  Elsewhere region o = (zone : Text) → some (record { region = region; zone = zone }) ≢ o

  region_loop-Elsewhere :
      (path : List ℕ) (region : Text) (n : ℕ) (m : InstanceMap)
      → All (λ r. region ≢ r) (keys m)
      → All (Elsewhere region) (localities (region_loop order opt path n m))
  unfolding region_loop
  region_loop-Elsewhere path region n [] _ = tt
  region_loop-Elsewhere path region n ((r, is) ∷ m) (ne, h) =
      rw
        (map-append (λ (l : LocalityLbEndpoints). l.locality)
          (lb_locality_endpoints_by_region order opt (n ∷ path) r is)
          (region_loop order opt path (suc n) m))
        (All-append (Elsewhere region) _ (localities (region_loop order opt path (suc n) m))
          (All-imp (InRegion r) (Elsewhere region) _
            (λ o (z, e) zone same. ne (region_of_path (same ∙ e))) (part-InRegion (n ∷ path) r is))
          (region_loop-Elsewhere path region (suc n) m h))

  region_loop-Distinct :
      (path : List ℕ) (n : ℕ) (m : InstanceMap)
      → Distinct (keys m)
      → Distinct (localities (region_loop order opt path n m))
  unfolding region_loop
  region_loop-Distinct path n [] _ = tt
  region_loop-Distinct path n ((r, is) ∷ m) (hr, h) =
      rw
        (map-append (λ (l : LocalityLbEndpoints). l.locality)
          (lb_locality_endpoints_by_region order opt (n ∷ path) r is)
          (region_loop order opt path (suc n) m))
        (Distinct-append _ (localities (region_loop order opt path (suc n) m))
          (part-Distinct (n ∷ path) r is) (region_loop-Distinct path (suc n) m h)
          (All-imp (InRegion r)
            (λ x. All (λ y. x ≢ y) (localities (region_loop order opt path (suc n) m))) _
            (λ x (z, e).
              All-imp (Elsewhere r) (λ y. x ≢ y) _ (λ y away same. away z (sym e ∙ same))
                (region_loop-Elsewhere path r (suc n) m hr))
            (part-InRegion (n ∷ path) r is)))

  locality_endpoints :
      (path : List ℕ) (is : List EdsInstanceConfig)
      → Permᴰ (all_endpoints (lb_locality_endpoints order opt path is)) (lb_endpoints opt is)
  unfolding lb_locality_endpoints instances_by_region
  locality_endpoints path is =
      Permᴰ.trans (region_loop_endpoints path 0 (order path (instances_by_region is))) (
        lb_endpoints-perm opt (
          Permᴰ.trans (contents-perm (visits path (instances_by_region is)))
            (contents-group (λ i. i.region) is [])))

  -- Whatever the balancing policy and whatever order Go visits its maps in, the endpoints of an
  -- assignment are those of the configured instances, each as often as it is configured.
  pub lb_balancing_endpoints-perm :
      (path : List ℕ) (policy : Text) (is : List EdsInstanceConfig)
      → Permᴰ
          (all_endpoints (lb_balancing_endpoints order opt path policy is))
          (lb_endpoints opt is)
  unfolding lb_balancing_endpoints lb_normal_endpoints
  lb_balancing_endpoints-perm path policy is = elim (Bool-cases (text_eq policy (codes "normal"))) [
    | inl e ↦ rw e (Permᴰ.append-nil (lb_endpoints opt is))
    | inr e ↦ rw (e, if_same (text_eq policy (codes "locality"))) (locality_endpoints path is)
  ]

  -- Under every policy but `normal`, each group of the assignment carries one region and zone, and
  -- its endpoints are those of all the instances of the file that lie there, in their order, of
  -- which there is one at least.
  pub lb_balancing_endpoints-IsCell :
      (path : List ℕ) (policy : Text) (is : List EdsInstanceConfig)
      → policy ≢ codes "normal"
      → All (IsCell opt is) (lb_balancing_endpoints order opt path policy is)
  unfolding lb_balancing_endpoints lb_locality_endpoints
  lb_balancing_endpoints-IsCell path policy is h =
      rw (text_ne policy (codes "normal") h, if_same (text_eq policy (codes "locality")))
        (region_loop-IsCell is path 0 (order path (instances_by_region is))
          (locality_start path is))

  -- Under every policy but `normal`, no region and zone is announced twice.
  pub lb_balancing_endpoints-Distinct :
      (path : List ℕ) (policy : Text) (is : List EdsInstanceConfig)
      → policy ≢ codes "normal"
      → Distinct (localities (lb_balancing_endpoints order opt path policy is))
  unfolding lb_balancing_endpoints lb_locality_endpoints instances_by_region
  lb_balancing_endpoints-Distinct path policy is h =
      rw (text_ne policy (codes "normal") h, if_same (text_eq policy (codes "locality")))
        (region_loop-Distinct path 0 (order path (instances_by_region is)) (
          Distinct-perm (Permᴰ.map (λ e. e.0) (Permᴰ.symm (visits path (instances_by_region is))))
            (Distinct-group (λ i. i.region) is [] tt)))
