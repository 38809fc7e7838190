-- ===== src/Logger/Tests.antt =====
-- Tests of logger.go.
use example_envoy_xds.Base.{ℕ, [], Text, codes, ◌≡◌, refl}
use example_envoy_xds.Als.{new_accesslog_service_handler}
use example_envoy_xds.Logger.{warnf, LogPackage, new_logger_access_log}

warned : warnf {Arg = ℕ} (λ format args. format) (codes "x") [] ≡ codes "warn: x"
unfolding warnf
warned = refl

abbrev log : LogPackage
log = record {
  Writer = ℕ;
  stdout = 1;
  Logger = Text;
  date_and_microseconds = 5;
  new = λ writer prefix flags. prefix;
}

-- the logger that `NewServer` gives to the handler of the access log
named : (new_accesslog_service_handler (new_logger_access_log log)).log ≡ codes "accesslog: "
unfolding new_logger_access_log new_accesslog_service_handler
named = refl
