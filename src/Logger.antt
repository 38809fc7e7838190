-- ===== src/Logger.antt =====
-- logger.go: the logger of the snapshot cache. `log.Printf` is a parameter, by the format and the
-- arguments; the level is told by the first word of the format, which the logging library reads.
mod Tests
use example_envoy_xds.Base.{ℕ, List, Text, codes, ◌++◌}

module _ {Arg Line : Type 0} (printf : Text → List Arg → Line) where
  unfoldable pub debugf : Text → List Arg → Line
  debugf format args = printf (codes "debug: " ++ format) args

  unfoldable pub infof : Text → List Arg → Line
  infof format args = printf (codes "info: " ++ format) args

  unfoldable pub warnf : Text → List Arg → Line
  warnf format args = printf (codes "warn: " ++ format) args

  unfoldable pub errorf : Text → List Arg → Line
  errorf format args = printf (codes "error: " ++ format) args

-- `log.New(os.Stdout, prefix, flags)`, with the standard output and the flags as parameters
pub record LogPackage : Type 1 where
  pub Writer : Type 0
  pub stdout : Writer
  pub Logger : Type 0
  -- `log.Ldate|log.Lmicroseconds`
  pub date_and_microseconds : ℕ
  pub new : Writer → Text → ℕ → Logger

unfoldable pub new_logger_access_log : (log : LogPackage) → log.Logger
new_logger_access_log log = log.new log.stdout (codes "accesslog: ") log.date_and_microseconds
