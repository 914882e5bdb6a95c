-- ===== src/CommandLine/Options.antt =====
-- The values of options on the command line: proj/subpjx/CommandLine/src/imp.rs.
use kitchensync.Base.{
  codes, Text, text_eq, is_empty, contains, first_byte, is_byte, ends_with, split, Bool, ◌||◌,
  Option, ◌++◌, ℕ, any, Result, ok, err, ◌>>=◌, ok_or, if◌then◌else◌,
}
use kitchensync.CommandLine.Types.{CommandLineVerbosity, error, info, debug, trace}
use kitchensync.CommandLine.Urls.{parse_positive_integer}

-- The argument behind the option's name, if there is one
unfoldable pub option_value : Option Text → Text → Result Text Text
option_value next name = ok_or next (name ++ codes " requires a value")

unfoldable pub option_positive_integer : Option Text → Text → Result ℕ Text
unfolding option_value parse_positive_integer
option_positive_integer next name = do
  value ← option_value next name
  ok_or (parse_positive_integer value) (name ++ codes " requires a positive integer")

unfoldable pub parse_verbosity : Text → Result CommandLineVerbosity Text
unfolding text_eq
parse_verbosity value =
    if text_eq value (codes "error")
    then ok error
    else if text_eq value (codes "info")
    then ok info
    else if text_eq value (codes "debug")
    then ok debug
    else if text_eq value (codes "trace")
    then ok trace
    else err (codes "--verbosity requires error, info, debug, or trace")

abbrev pub is_bad_part : Text → Bool
is_bad_part part = is_empty part || text_eq part (codes ".") || text_eq part (codes "..")

unfoldable pub validate_exclude : Text → Result (Unit {0}) Text
unfolding text_eq split
validate_exclude value =
    if is_empty value
      || is_byte b'/' (first_byte value)
      || ends_with b'/' value
      || contains b'\\' value
      || any is_bad_part (split b'/' value)
    then err (codes "-x requires a relative slash path")
    else ok tt
