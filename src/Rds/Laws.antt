-- ===== src/Rds/Laws.antt =====
-- The weights and the retry policy of a route of rds.go.
use example_envoy_xds.Base.{
  ℕ, ◌+◌, ◌%◌, List, [], ◌∷◌, Text, codes, text_eq, text_eq_iff, text_ne, ◌≡◌, ◌≢◌, ◌⊎◌, refl, ◌∙◌,
  u32_mod, arith, inl, inr, Bool-cases, ◌||◌, if_same, some, none,
}
use example_envoy_xds.Config.{RdsClusterWeightConfig, RdsActionConfig}
use example_envoy_xds.Xds.{Proto}
use example_envoy_xds.Rds.{
  ClusterWeight, RetryPolicy, retry_back_off, RouteDiscoveryService, cluster, clusters, add_weights,
  cluster_total_weight, retry_policy, retry_policy_retry_on, retry_policy_no_retry,
}

-- the sum of the weights that a message lists, without a bound
unfoldable pub sum_of_weights : List ClusterWeight → ℕ
sum_of_weights [] = 0
sum_of_weights (c ∷ cs) = c.weight + sum_of_weights cs

add_weights-sum :
    (n : ℕ) (ts : List RdsClusterWeightConfig)
    → add_weights (n % u32_mod) ts ≡ (n + sum_of_weights (clusters ts)) % u32_mod
unfolding add_weights sum_of_weights clusters cluster
add_weights-sum n [] = omega arith
add_weights-sum n (t ∷ ts) =
    rw (← add_mod n t.weight) (add_weights-sum (n + t.weight) ts ∙ omega arith)
  where
    add_mod : (a b : ℕ) → (a + b) % u32_mod ≡ (a % u32_mod + b) % u32_mod
    add_mod a b = omega arith

Text-cases : (s t : Text) → (s ≡ t) ⊎ (s ≢ t)
Text-cases s t = elim (Bool-cases (text_eq s t)) [
  | inl e ↦ inl ((text_eq_iff s t).0 e)
  | inr e ↦ inr (λ same. cc (e, (text_eq_iff s t).1 same))
]

-- The total weight of a route is the sum of the weights of its clusters, modulo 2^32.
pub cluster_total_weight-sum :
    (ts : List RdsClusterWeightConfig)
    → cluster_total_weight ts ≡ sum_of_weights (clusters ts) % u32_mod
unfolding cluster_total_weight
cluster_total_weight-sum ts = let e = add_weights-sum 0 ts in omega (arith, e)

module _ {p : Proto} where
  -- a policy that retries so often, with a timeout of each try and a back-off that are the options
  -- of the service
  abbrev pub Retries : RouteDiscoveryService p → ℕ → RetryPolicy p → Type 0
  Retries r n policy =
      (policy.num_retries ≡ n)
      × (policy.retry_on ≡ codes "5xx,gateway-error,reset,connect-failure")
      × (policy.per_try_timeout ≡ some (p.duration_proto r.opt.retry_per_try_timeout))
      × (policy.retry_back_off
          ≡ some (record {
            base_interval = p.duration_proto r.opt.retry_back_off_interval_base;
            max_interval = p.duration_proto r.opt.retry_back_off_interval_max;
          }))

  -- a policy that never retries, and has neither a timeout of a try nor a back-off
  abbrev pub NeverRetries : RetryPolicy p → Type 0
  NeverRetries policy =
      (policy.num_retries ≡ 0)
      × (policy.retry_on ≡ [])
      × (policy.per_try_timeout ≡ none)
      × (policy.retry_back_off ≡ none)

-- A route retries once with the policy `retry1` and five times with `retry5`, on the four kinds of
-- failure, each with the back-off and the timeout per try that the options give, and never, without
-- these, with any other text.
pub retry_policy-cases :
    (p : Proto) (r : RouteDiscoveryService p) (a : RdsActionConfig)
    → ((a.retry_policy ≡ codes "retry1") × Retries r 1 (retry_policy r a))
      ⊎ ((a.retry_policy ≡ codes "retry5") × Retries r 5 (retry_policy r a))
      ⊎ ((a.retry_policy ≢ codes "retry1")
          × (a.retry_policy ≢ codes "retry5")
          × NeverRetries (retry_policy {p = p} r a))
unfolding retry_policy text_eq retry_policy_retry_on retry_back_off retry_policy_no_retry
retry_policy-cases p r a = elim (Text-cases a.retry_policy (codes "retry1")) [
  | inl e ↦ inl (e, rw e (refl, refl, refl, refl))
  | inr f ↦ inr (elim (Text-cases a.retry_policy (codes "retry5")) [
    | inl e ↦ inl (e, rw e (refl, refl, refl, refl))
    | inr g ↦ inr (
      f,
      g,
      rw (text_ne a.retry_policy (codes "retry1") f, text_ne a.retry_policy (codes "retry5") g)
          (rw
            (if_same (text_eq a.retry_policy (codes "off") || text_eq a.retry_policy (codes "no")))
            (refl, refl, refl, refl)),
    )
  ])
]
