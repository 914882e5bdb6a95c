-- ===== src/CommandLine/Types.antt =====
-- The types of proj/subpjx/CommandLine/src/api.rs.
use kitchensync.Base.{ℕ, Text, List, Bool, Option}

pub record CommandLineValidationError : Type 0 where
  pub message : Text

pub data CommandLineVerbosity : Type 0 where
  error info debug trace : CommandLineVerbosity

pub record CommandLineSettings : Type 0 where
  pub dry_run : Bool
  pub max_copies : ℕ
  pub retries_copy : ℕ
  pub retries_list : ℕ
  pub timeout_conn_seconds : ℕ
  pub timeout_idle_seconds : ℕ
  pub verbosity : CommandLineVerbosity
  pub excludes : List Text
  pub keep_tmp_days : ℕ
  pub keep_bak_days : ℕ
  pub keep_del_days : ℕ

pub data CommandLinePeerRole : Type 0 where
  normal canon subordinate : CommandLinePeerRole

pub record CommandLineUrlAlternative : Type 0 where
  pub url : Text
  pub timeout_conn_seconds : Option ℕ
  pub timeout_idle_seconds : Option ℕ

pub record CommandLinePeer : Type 0 where
  pub role : CommandLinePeerRole
  pub urls : List CommandLineUrlAlternative

pub record CommandLineRunRequest : Type 0 where
  pub settings : CommandLineSettings
  pub peers : List CommandLinePeer

pub data CommandLineParseResult : Type 0 where
  help : CommandLineParseResult
  validation_error : CommandLineValidationError → CommandLineParseResult
  run : CommandLineRunRequest → CommandLineParseResult

pub record CommandLineProcessOutput : Type 0 where
  pub stdout : Text
  pub exit_code : ℕ
