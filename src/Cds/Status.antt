-- ===== src/Cds/Status.antt =====
-- `statusesInt64Range` of cds.go: the ranges of status codes that a health check accepts.
pub mod Laws
pub mod Accepts
pub mod Single
pub mod Proper
use example_envoy_xds.Base.{
  ℕ, suc, ◌+◌, ◌%◌, List, [], ◌∷◌, map, Text, Option, none, some, if◌then◌else◌, ltb, ◌==◌, ℤ,
  int64, pos, u64_mod,
}
use example_envoy_xds.Decimal.{parse_uint}

-- `typev3.Int64Range`
pub record Int64Range : Type 0 where
  pub start : ℤ
  pub end : ℤ

unfoldable pub expected_http_status_ok : List Int64Range
expected_http_status_ok = (record { start = pos 200; end = pos 299 }) ∷ []

-- one round of the loop over `cfg.Status`: a text that is no number falls back to 200
unfoldable pub status_uint : Text → ℕ
status_uint s = elim (parse_uint s) [ none ↦ 200 | some n ↦ n ]

-- `sort.Slice` by `<` on `uint64`: the ascending list of the same numbers, of which there is one
unfoldable pub insert : ℕ → List ℕ → List ℕ
insert x [] = x ∷ []
insert x (y ∷ ys) = if ltb y x then y ∷ insert x ys else x ∷ y ∷ ys

unfoldable pub sort : List ℕ → List ℕ
unfolding insert
sort [] = []
sort (x ∷ xs) = insert x (sort xs)

-- `xs[len(xs)-1]` of `x ∷ xs`
unfoldable pub last : ℕ → List ℕ → ℕ
last x [] = x
last x (y ∷ ys) = last y ys

-- `xs[len(xs)-1] += 1` on a `uint64`
unfoldable pub bump_last : List ℕ → List ℕ
bump_last [] = []
bump_last (x ∷ []) = (x + 1) % u64_mod ∷ []
bump_last (x ∷ y ∷ ys) = x ∷ bump_last (y ∷ ys)

-- `if xs[0] == xs[len(xs)-1] { xs[len(xs)-1] += 1 }`
unfoldable pub avoid_same : List ℕ → List ℕ
unfolding last bump_last
avoid_same [] = []
avoid_same (x ∷ xs) = if x == last x xs then bump_last (x ∷ xs) else x ∷ xs

-- `int64(status)` and `int64(status + 1)`
unfoldable pub status_range : ℕ → Int64Range
status_range n = record { start = int64 n; end = int64 ((n + 1) % u64_mod) }

-- by the number of statuses, which the code has parsed
unfoldable pub ranges_of : List ℕ → List Int64Range
unfolding avoid_same sort
ranges_of [] = expected_http_status_ok
ranges_of (n ∷ []) = if n == 200 then expected_http_status_ok else status_range n ∷ []
ranges_of (n ∷ m ∷ ns) = map status_range (avoid_same (sort (n ∷ m ∷ ns)))

unfoldable pub statuses_int64_range : List Text → List Int64Range
unfolding status_uint
statuses_int64_range status = ranges_of (map status_uint status)
