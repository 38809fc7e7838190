-- ===== src/Eds/Weights.antt =====
-- What Envoy is told of the weight and the health of the endpoints of eds.go.
use mathlib.Core.List.Permᴰ
use example_envoy_xds.Base.{
  ℕ, ◌≤◌, List, Text, true, false, none, some, ◌≡◌, refl, All, All-perm, All-map, All-every,
  All-imp, Bool-cases, ◌⊎◌, inl, inr, ltb, ℤ, arith, if◌then◌else◌,
}
use example_envoy_xds.Config.{EdsInstanceConfig}
use example_envoy_xds.Eds.Options.{EdsOpt}
use example_envoy_xds.Eds.{
  LbEndpoint, Order, endpoint_with_status, endpoint_with_weight, lb_endpoints, lb_endpoints_default,
  lb_endpoints_with_initial_status, lb_balancing_endpoints,
}
use example_envoy_xds.Eds.Partition.{all_endpoints}
use example_envoy_xds.Eds.Regions.{VisitsAll, lb_balancing_endpoints-perm}

-- a weight that Envoy admits
abbrev pub IsWeighted : LbEndpoint → Type 0
IsWeighted l = (w : ℕ) × (l.load_balancing_weight ≡ some w) × (1 ≤ w)

IsWeighted-endpoint : (i : EdsInstanceConfig) → IsWeighted (endpoint_with_weight i)
unfolding endpoint_with_weight
IsWeighted-endpoint i = (if ltb i.weight 1 then 1 else i.weight, refl, ground arith)

-- Whatever the policy and the order of maps, without an initial health status every endpoint of an
-- assignment has a weight of one or more, also where the file gives none.
pub lb_balancing_endpoints-IsWeighted :
    (order : Order) (opt : EdsOpt) (path : List ℕ) (policy : Text) (is : List EdsInstanceConfig)
    → VisitsAll order
    → opt.set_initial_health_status ≡ false
    → All IsWeighted (all_endpoints (lb_balancing_endpoints order opt path policy is))
unfolding lb_endpoints lb_endpoints_default
lb_balancing_endpoints-IsWeighted order opt path policy is visits off =
    All-perm IsWeighted (Permᴰ.symm (lb_balancing_endpoints-perm order opt visits path policy is)) (
      rw (off, lb_endpoints)
        (All-map IsWeighted endpoint_with_weight is
          (All-every (λ i. IsWeighted (endpoint_with_weight i)) IsWeighted-endpoint is)))

-- the health that Envoy is told, and no weight
abbrev pub IsTold : ℤ → LbEndpoint → Type 0
IsTold status l = (l.health_status ≡ status) × (l.load_balancing_weight ≡ none)

-- Whatever the policy and the order of maps, with an initial health status every endpoint of an
-- assignment has that status, and none has a weight, whatever weight the file gives.
pub lb_balancing_endpoints-IsTold :
    (order : Order) (opt : EdsOpt) (path : List ℕ) (policy : Text) (is : List EdsInstanceConfig)
    → VisitsAll order
    → opt.set_initial_health_status ≡ true
    → All
        (IsTold opt.health_status)
        (all_endpoints (lb_balancing_endpoints order opt path policy is))
unfolding lb_endpoints lb_endpoints_with_initial_status endpoint_with_status
lb_balancing_endpoints-IsTold order opt path policy is visits set =
    All-perm (IsTold opt.health_status)
      (Permᴰ.symm (lb_balancing_endpoints-perm order opt visits path policy is))
      (rw (set, lb_endpoints)
        (All-map (IsTold opt.health_status) (endpoint_with_status opt.health_status) is (
          All-every (λ i. IsTold opt.health_status (endpoint_with_status opt.health_status i))
            (λ i. (refl, refl)) is)))

-- what Envoy is told of an endpoint: a weight, or the initial health status that the options set
abbrev pub IsAnnounced : EdsOpt → LbEndpoint → Type 0
IsAnnounced opt l =
    ((opt.set_initial_health_status ≡ false) × IsWeighted l)
    ⊎ ((opt.set_initial_health_status ≡ true) × IsTold opt.health_status l)

-- Whatever the policy and the order of maps, every endpoint of an assignment has a weight of one or
-- more, also where the file gives none, unless the options set an initial health status: then it
-- has that status and no weight, whatever weight the file gives.
pub lb_balancing_endpoints-IsAnnounced :
    (order : Order) (opt : EdsOpt) (path : List ℕ) (policy : Text) (is : List EdsInstanceConfig)
    → VisitsAll order
    → All (IsAnnounced opt) (all_endpoints (lb_balancing_endpoints order opt path policy is))
lb_balancing_endpoints-IsAnnounced order opt path policy is visits =
    let ls = all_endpoints (lb_balancing_endpoints order opt path policy is) in
    elim (Bool-cases opt.set_initial_health_status) [
      | inr off ↦
          All-imp IsWeighted (IsAnnounced opt) ls (λ l h. inl (off, h))
            (lb_balancing_endpoints-IsWeighted order opt path policy is visits off)
      | inl set ↦
          All-imp (IsTold opt.health_status) (IsAnnounced opt) ls (λ l h. inr (set, h))
            (lb_balancing_endpoints-IsTold order opt path policy is visits set)
    ]
