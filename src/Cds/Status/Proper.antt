-- ===== src/Cds/Status/Proper.antt =====
-- The ranges of a health check as ranges: none is empty, and none goes round.
use mathlib.Core.List.Permᴰ
use example_envoy_xds.Base.{
  ℕ, ◌+◌, ◌≤◌, ◌<◌, ◌%◌, List, [], ◌∷◌, map, Text, ◌≡◌, refl, All, All-map, All-imp, All-perm,
  int64-pos, ◌==◌, Bool-cases, inl, inr, pos, u32_mod, u64_mod, arith,
}
use example_envoy_xds.Cds.Status.{
  Int64Range, expected_http_status_ok, status_uint, sort, last, bump_last, avoid_same, status_range,
  ranges_of, statuses_int64_range,
}
use example_envoy_xds.Cds.Status.Laws.{sort-perm}
use example_envoy_xds.Cds.Status.Accepts.{map-status_uint-lt}

-- it begins before its end, and its end is at most 2^32 + 1
abbrev pub IsProper : Int64Range → Type 0
IsProper r = (a b : ℕ) × (r ≡ (record { start = pos a; end = pos b })) × (a < b) × (b ≤ u32_mod + 1)

status_range-IsProper : (n : ℕ) → n ≤ u32_mod → IsProper (status_range n)
unfolding status_range
status_range-IsProper n h =
    let next : (n + 1) % u64_mod ≡ n + 1 = omega arith in
    (
      n,
      n + 1,
      rw next (rw (int64-pos n (omega arith)) (rw (int64-pos (n + 1) (omega arith)) refl)),
      omega arith,
      omega arith,
    )

default-IsProper : All IsProper expected_http_status_ok
unfolding expected_http_status_ok
default-IsProper = ((200, 299, refl, omega arith, omega arith), tt)

bump_last-le : (xs : List ℕ) → All (λ x. x < u32_mod) xs → All (λ x. x ≤ u32_mod) (bump_last xs)
unfolding bump_last
bump_last-le [] h = tt
bump_last-le (x ∷ []) (h, _) = (omega (arith, h), tt)
bump_last-le (x ∷ y ∷ ys) (h, hs) = (omega (arith, h), bump_last-le (y ∷ ys) hs)

avoid_same-le : (xs : List ℕ) → All (λ x. x < u32_mod) xs → All (λ x. x ≤ u32_mod) (avoid_same xs)
unfolding avoid_same
avoid_same-le [] h = tt
avoid_same-le (x ∷ xs) h = elim (Bool-cases (x == last x xs)) [
  | inl e ↦ rw e (bump_last-le (x ∷ xs) h)
  | inr e ↦
      rw e (All-imp (λ x. x < u32_mod) (λ x. x ≤ u32_mod) (x ∷ xs) (λ x h. omega (arith, h)) h)
]

ranges_of-IsProper : (ns : List ℕ) → All (λ x. x < u32_mod) ns → All IsProper (ranges_of ns)
unfolding ranges_of
ranges_of-IsProper [] h = default-IsProper
ranges_of-IsProper (n ∷ []) (h, _) = elim (Bool-cases (n == 200)) [
  | inl e ↦ rw e default-IsProper
  | inr e ↦ rw e (status_range-IsProper n (omega (arith, h)), tt)
]
ranges_of-IsProper (n ∷ m ∷ ns) h = All-map IsProper status_range (avoid_same (sort (n ∷ m ∷ ns))) (
    All-imp (λ x. x ≤ u32_mod) (λ x. IsProper (status_range x)) (avoid_same (sort (n ∷ m ∷ ns)))
      status_range-IsProper
      (avoid_same-le (sort (n ∷ m ∷ ns))
        (All-perm (λ x. x < u32_mod) (Permᴰ.symm (sort-perm (n ∷ m ∷ ns))) h)))

-- Whatever the configured statuses, numbers or not, no range is empty, and the numbers do not go
-- round: each range begins before its end, which is at most 2^32 + 1.
pub statuses_int64_range-IsProper : (ss : List Text) → All IsProper (statuses_int64_range ss)
unfolding statuses_int64_range
statuses_int64_range-IsProper ss = ranges_of-IsProper (map status_uint ss) (map-status_uint-lt ss)
