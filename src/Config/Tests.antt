-- ===== src/Config/Tests.antt =====
-- Tests of the configuration.
use example_envoy_xds.Base.{◌*◌, ◌≡◌, pos, arith}
use example_envoy_xds.Config.{second, seconds}
use example_envoy_xds.Config.Laws.{seconds-exact}

seconds-exact_example : seconds 4294967295 ≡ pos (4294967295 * second)
seconds-exact_example = seconds-exact 4294967295 (omega arith)
