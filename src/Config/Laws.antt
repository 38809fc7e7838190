-- ===== src/Config/Laws.antt =====
-- The durations that the configuration asks for, in seconds, as nanoseconds.
use example_envoy_xds.Base.{ℕ, ◌*◌, ◌<◌, ◌≡◌, pos, u32_mod, int64-pos, arith}
use example_envoy_xds.Config.{second, seconds}

-- A `uint32` number of seconds is a duration of that many seconds: the product does not wrap.
pub seconds-exact : (n : ℕ) → n < u32_mod → seconds n ≡ pos (n * second)
unfolding seconds
seconds-exact n h = int64-pos (n * second) (omega arith)
