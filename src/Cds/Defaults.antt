-- ===== src/Cds/Defaults.antt =====
-- The defaults of the options of cds.go.
use example_envoy_xds.Base.{
  ℕ, ◌≤◌, ℤ, below_one, ◌≡◌, refl, subst, ◌↔◌, false, Bool-cases, inl, inr, arith,
}
use example_envoy_xds.Cds.Options.{CdsOpt, or_default, or_default_count, init_cds_opt}

-- a duration and a count of at least one
abbrev pub IsPositive : ℤ → Type 0
IsPositive x = below_one x ≡ false

abbrev pub IsReady : CdsOpt → Type 0
IsReady o =
    IsPositive o.cluster_connection_timeout
    × (1 ≤ o.cluster_upstream_keep_alive_interval_seconds)
    × (1 ≤ o.cluster_upstream_keep_alive_time_seconds)
    × IsPositive o.cluster_refresh_interval_base
    × IsPositive o.cluster_refresh_interval_max
    × IsPositive o.health_check_initial_jitter
    × IsPositive o.health_check_initial_interval_on_add_cluster
    × (1 ≤ o.outlier_consecutive_count5xx)
    × (1 ≤ o.outlier_consecutive_gateway_failure)
    × IsPositive o.outlier_interval
    × IsPositive o.outlier_base_ejection_time
    × (1 ≤ o.outlier_success_rate_min_hosts)

or_default-IsPositive : (x d : ℤ) → IsPositive d → IsPositive (or_default x d)
unfolding or_default
or_default-IsPositive x d h = elim (Bool-cases (below_one x)) [ inl e ↦ rw e h | inr e ↦ rw e e ]

or_default-set : (x d : ℤ) → IsPositive x → or_default x d ≡ x
unfolding or_default
or_default-set x d h = rw h refl

or_default_count-le : (x d : ℕ) → 1 ≤ d → 1 ≤ or_default_count x d
unfolding or_default_count
or_default_count-le x d h = ground arith

or_default_count-set : (x d : ℕ) → 1 ≤ x → or_default_count x d ≡ x
unfolding or_default_count
or_default_count-set x d h = ground arith

ready : (o : CdsOpt) → IsReady (init_cds_opt o)
unfolding init_cds_opt
ready o = (
  or_default-IsPositive _ _ refl,
  or_default_count-le _ _ (omega arith),
  or_default_count-le _ _ (omega arith),
  or_default-IsPositive _ _ refl,
  or_default-IsPositive _ _ refl,
  or_default-IsPositive _ _ refl,
  or_default-IsPositive _ _ refl,
  or_default_count-le _ _ (omega arith),
  or_default_count-le _ _ (omega arith),
  or_default-IsPositive _ _ refl,
  or_default-IsPositive _ _ refl,
  or_default_count-le _ _ (omega arith),
)

kept : (o : CdsOpt) → IsReady o → init_cds_opt o ≡ o
unfolding init_cds_opt
kept o (a, b, c, d, e, f, g, h, i, j, k, l) =
    rw
      (
        or_default-set o.cluster_connection_timeout _ a,
        or_default_count-set o.cluster_upstream_keep_alive_interval_seconds _ b,
        or_default_count-set o.cluster_upstream_keep_alive_time_seconds _ c,
        or_default-set o.cluster_refresh_interval_base _ d,
        or_default-set o.cluster_refresh_interval_max _ e,
        or_default-set o.health_check_initial_jitter _ f,
        or_default-set o.health_check_initial_interval_on_add_cluster _ g,
        or_default_count-set o.outlier_consecutive_count5xx _ h,
        or_default_count-set o.outlier_consecutive_gateway_failure _ i,
        or_default-set o.outlier_interval _ j,
        or_default-set o.outlier_base_ejection_time _ k,
        or_default_count-set o.outlier_success_rate_min_hosts _ l,
      )
      refl

-- After the defaults every option is at least one, and the defaults leave the options as they are
-- exactly when all of them are at least one.
pub init_cds_opt-IsReady :
    (o : CdsOpt) → IsReady (init_cds_opt o) × ((init_cds_opt o ≡ o) ↔ IsReady o)
init_cds_opt-IsReady o = (ready o, (λ same. subst IsReady same (ready o), kept o))
