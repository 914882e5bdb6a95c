-- ===== src/CommandLine/Parse.antt =====
-- The arguments of the program: `parse_run` and `parse` of proj/subpjx/CommandLine/src/imp.rs.
use kitchensync.Base.{
  ℕ, codes, Text, text_eq, starts_with, Bool, true, false, Option, none, some, List, [], ◌∷◌, ◌++◌,
  filter, length, Result, ok, err, ◌>>=◌, ◌>>◌, ltb, if◌then◌else◌,
}
use kitchensync.CommandLine.Types.{
  info, CommandLineSettings, normal, canon, subordinate, CommandLinePeer, CommandLineRunRequest,
  CommandLineParseResult, help, validation_error, run,
}
use kitchensync.CommandLine.Options.{
  option_value, option_positive_integer, parse_verbosity, validate_exclude,
}
use kitchensync.CommandLine.Urls.{parse_peer}

abbrev pub default_settings : CommandLineSettings
default_settings = record {
  dry_run = false;
  max_copies = 10;
  retries_copy = 3;
  retries_list = 3;
  timeout_conn_seconds = 30;
  timeout_idle_seconds = 30;
  verbosity = info;
  excludes = [];
  keep_tmp_days = 2;
  keep_bak_days = 90;
  keep_del_days = 180;
}

-- What an iteration does: the request so far, and whether the index moves by one or by two
pub data Iteration : Type 0 where
  by_one : CommandLineRunRequest → Iteration
  by_two : CommandLineRunRequest → Iteration

-- The options whose value is a positive integer
pub data NumericOption : Type 0 where
  max_copies retries_copy retries_list timeout_conn timeout_idle keep_tmp_days keep_bak_days
        keep_del_days :
      NumericOption

-- The arms of the match on an argument
pub data Arm : Type 0 where
  dry_run_arm : Arm
  numeric_arm : NumericOption → Arm
  verbosity_arm : Arm
  exclude_arm : Arm
  unrecognized_arm : Arm
  peer_arm : Arm

abbrev pub option_name : NumericOption → Text
option_name max_copies = codes "--max-copies"
option_name retries_copy = codes "--retries-copy"
option_name retries_list = codes "--retries-list"
option_name timeout_conn = codes "--timeout-conn"
option_name timeout_idle = codes "--timeout-idle"
option_name keep_tmp_days = codes "--keep-tmp-days"
option_name keep_bak_days = codes "--keep-bak-days"
option_name keep_del_days = codes "--keep-del-days"

abbrev pub set_number : NumericOption → ℕ → CommandLineSettings → CommandLineSettings
set_number max_copies n settings = record settings { max_copies = n }
set_number retries_copy n settings = record settings { retries_copy = n }
set_number retries_list n settings = record settings { retries_list = n }
set_number timeout_conn n settings = record settings { timeout_conn_seconds = n }
set_number timeout_idle n settings = record settings { timeout_idle_seconds = n }
set_number keep_tmp_days n settings = record settings { keep_tmp_days = n }
set_number keep_bak_days n settings = record settings { keep_bak_days = n }
set_number keep_del_days n settings = record settings { keep_del_days = n }

unfoldable pub arm_of : Text → Arm
unfolding text_eq starts_with
arm_of arg =
    if text_eq arg (codes "--dry-run")
    then dry_run_arm
    else if text_eq arg (option_name max_copies)
    then numeric_arm max_copies
    else if text_eq arg (option_name retries_copy)
    then numeric_arm retries_copy
    else if text_eq arg (option_name retries_list)
    then numeric_arm retries_list
    else if text_eq arg (option_name timeout_conn)
    then numeric_arm timeout_conn
    else if text_eq arg (option_name timeout_idle)
    then numeric_arm timeout_idle
    else if text_eq arg (codes "--verbosity")
    then verbosity_arm
    else if text_eq arg (codes "-x")
    then exclude_arm
    else if text_eq arg (option_name keep_tmp_days)
    then numeric_arm keep_tmp_days
    else if text_eq arg (option_name keep_bak_days)
    then numeric_arm keep_bak_days
    else if text_eq arg (option_name keep_del_days)
    then numeric_arm keep_del_days
    else if starts_with (codes "--") arg
    then unrecognized_arm
    else peer_arm

-- The body of an arm; `next` is the argument behind this one.
unfoldable pub take_arm : Arm → Text → Option Text → CommandLineRunRequest → Result Iteration Text
unfolding option_value option_positive_integer parse_verbosity validate_exclude parse_peer
take_arm dry_run_arm arg next request =
    ok (by_one (record request { settings = record request.settings { dry_run = true } }))
take_arm (numeric_arm name) arg next request = do
  number ← option_positive_integer next (option_name name)
  ok (by_two (record request { settings = set_number name number request.settings }))
take_arm verbosity_arm arg next request = do
  value ← option_value next (codes "--verbosity")
  verbosity ← parse_verbosity value
  ok (by_two (record request { settings = record request.settings { verbosity = verbosity } }))
take_arm exclude_arm arg next request = do
  value ← option_value next (codes "-x")
  validate_exclude value
  ok (
      by_two (record request {
        settings = record request.settings { excludes = request.settings.excludes ++ (value ∷ []) };
      }))
take_arm unrecognized_arm arg next request = err (codes "unrecognized option " ++ arg)
take_arm peer_arm arg next request = do
  peer ← parse_peer arg
  ok (by_one (record request { peers = request.peers ++ (peer ∷ []) }))

abbrev pub request_of : Iteration → CommandLineRunRequest
request_of (by_one request) = request
request_of (by_two request) = request

-- The loop over the index, which ends behind the last argument.
unfoldable pub parse_arguments :
    List Text → CommandLineRunRequest → Result CommandLineRunRequest Text
unfolding arm_of take_arm
parse_arguments [] request = ok request
parse_arguments (arg ∷ []) request = do
  done ← take_arm (arm_of arg) arg none request
  ok (request_of done)
parse_arguments (arg ∷ (next ∷ args)) request =
    take_arm (arm_of arg) arg (some next) request >>= λ done. elim done [
      | by_one request ↦ parse_arguments (next ∷ args) request
      | by_two request ↦ parse_arguments args request
    ]

abbrev pub is_canon : CommandLinePeer → Bool
is_canon peer = elim peer.role [ canon ↦ true | normal ↦ false | subordinate ↦ false ]

-- The tests behind the loop
unfoldable pub check_peers : CommandLineRunRequest → Result CommandLineRunRequest Text
check_peers request =
    if ltb (length request.peers) 2
    then err (codes "at least two peers are required")
    else if ltb 1 (length (filter is_canon request.peers))
    then err (codes "at most one canon peer is allowed")
    else ok request

unfoldable pub parse_run : List Text → Result CommandLineRunRequest Text
unfolding parse_arguments check_peers
parse_run args =
    parse_arguments args (record { settings = default_settings; peers = [] }) >>= check_peers

abbrev pub parse_result : Result CommandLineRunRequest Text → CommandLineParseResult
parse_result (ok request) = run request
parse_result (err message) = validation_error (record { message = message })

unfoldable pub parse : List Text → CommandLineParseResult
unfolding parse_run
parse [] = help
parse (arg ∷ args) = parse_result (parse_run (arg ∷ args))
