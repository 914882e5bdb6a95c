-- ===== src/Format/Types.antt =====
-- The types of proj/subpjx/FormatRules/src/api.rs.
use kitchensync.Base.{Text, Option}

-- The text of a timestamp, private to the crate that makes it.
pub record FormatRulesTimestamp : Type 0 where
  pub text : Text

pub record FormatRulesPeerIdentityRequest : Type 0 where
  pub peer_url : Text
  -- `PathBuf::to_str` of the directory, which fails on a path that is not UTF-8.
  pub current_working_directory : Option Text
  pub os_username : Option Text

pub record FormatRulesSnapshotPathIds : Type 0 where
  pub id : Text
  pub parent_id : Text

pub data FormatRulesDeletionEstimateUpdate : Type 0 where
  write : FormatRulesTimestamp → FormatRulesDeletionEstimateUpdate
  no_write : FormatRulesDeletionEstimateUpdate

pub record FormatRulesUserSwapPaths : Type 0 where
  pub directory_path : Text
  pub new_path : Text
  pub old_path : Text

pub record FormatRulesSnapshotSwapPaths : Type 0 where
  pub new_path : Text
  pub old_path : Text

pub data FormatRulesValidationErrorKind : Type 0 where
  invalid_peer_url missing_os_username invalid_relative_path : FormatRulesValidationErrorKind
  root_snapshot_path invalid_timestamp invalid_swap_basename : FormatRulesValidationErrorKind

pub record FormatRulesValidationError : Type 0 where
  pub kind : FormatRulesValidationErrorKind

abbrev pub validation_error : FormatRulesValidationErrorKind → FormatRulesValidationError
validation_error k = record { kind = k }
