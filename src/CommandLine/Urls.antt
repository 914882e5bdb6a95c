-- ===== src/CommandLine/Urls.antt =====
-- The peers on the command line, and their URLs: proj/subpjx/CommandLine/src/imp.rs.
use kitchensync.Base.{
  ℕ, ◌^◌, codes, Text, text_eq, is_empty, strip_prefix, starts_with, first_byte, drop_first, init,
  split_once_text, is_byte, ends_with, split, split_once, rsplit_once, Bool, true, false, ◌&&◌,
  ◌||◌, not, Option, none, some, List, [], ◌∷◌, ◌++◌, all, Result, ok, err, ◌>>=◌, ok_or, ltb,
  if◌then◌else◌, is_ascii_digit, decimal,
}
use kitchensync.CommandLine.Types.{
  CommandLinePeerRole, normal, canon, subordinate, CommandLineUrlAlternative, CommandLinePeer,
}

-- `value.parse::<u64>()` of a text of digits, and then the tests
unfoldable pub parse_positive_integer : Text → Option ℕ
unfolding is_ascii_digit decimal
parse_positive_integer value =
    if is_empty value || not (all is_ascii_digit value)
    then none
    else if ltb (decimal 0 value) (2 ^ 64) && ltb 0 (decimal 0 value)
    then some (decimal 0 value)
    else none

-- The two settings that a URL may have
pub record Timeouts : Type 0 where
  pub timeout_conn_seconds : Option ℕ
  pub timeout_idle_seconds : Option ℕ

abbrev pub name_value : Text → Option (Text × Text) → Text × Text
name_value pair none = (pair, [])
name_value pair (some (name, value)) = (name, value)

unfoldable pub set_timeout : Text → ℕ → Timeouts → Result Timeouts Text
unfolding text_eq
set_timeout name value timeouts =
    if text_eq name (codes "timeout-conn")
    then ok (record timeouts { timeout_conn_seconds = some value })
    else if text_eq name (codes "timeout-idle")
    then ok (record timeouts { timeout_idle_seconds = some value })
    else err (codes "unrecognized URL setting " ++ name)

unfoldable pub parse_setting : Text × Text → Timeouts → Result Timeouts Text
unfolding parse_positive_integer set_timeout
parse_setting (name, raw_value) timeouts = do
  parsed_value ←
      ok_or (parse_positive_integer raw_value)
        (codes "URL setting " ++ (name ++ codes " requires a positive integer"))
  set_timeout name parsed_value timeouts

unfoldable pub parse_pairs : List Text → Timeouts → Result Timeouts Text
unfolding parse_setting split_once
parse_pairs [] timeouts = ok timeouts
parse_pairs (pair ∷ pairs) timeouts = do
  next ← parse_setting (name_value pair (split_once b'=' pair)) timeouts
  parse_pairs pairs next

abbrev no_timeouts : Timeouts
no_timeouts = record { timeout_conn_seconds = none; timeout_idle_seconds = none }

unfoldable pub parse_query : Option (Text × Text) → Result Timeouts Text
unfolding parse_pairs split
parse_query none = ok no_timeouts
parse_query (some (_, query)) = parse_pairs (split b'&' query) no_timeouts

-- `value.contains("://")`
unfoldable pub has_scheme : Text → Bool
unfolding split_once_text
has_scheme value = elim (split_once_text (codes "://") value) [ none ↦ false | some _ ↦ true ]

abbrev pub before : Text → Option (Text × Text) → Text
before value none = value
before value (some (head, _)) = head

-- `map_or(authority, |(_, host)| host)`
abbrev pub after : Text → Option (Text × Text) → Text
after value none = value
after value (some (_, tail)) = tail

unfoldable pub validate_port : Option (Text × Text) → Result (Unit {0}) Text
unfolding is_ascii_digit
validate_port none = ok tt
validate_port (some (_, port)) =
    if all is_ascii_digit port then ok tt else err (codes "sftp URL port must be numeric")

unfoldable pub validate_host_port : Text → Result (Unit {0}) Text
unfolding validate_port rsplit_once
validate_host_port host_port =
    if is_empty host_port || is_byte b':' (first_byte host_port)
    then err (codes "sftp URL requires a host")
    else if ends_with b':' host_port
    then err (codes "sftp URL port cannot be empty")
    else validate_port (rsplit_once b':' host_port)

-- At the first slash before the query
unfoldable pub validate_authority : Option (Text × Text) → Result (Unit {0}) Text
unfolding validate_host_port rsplit_once
validate_authority none = err (codes "sftp URL requires an absolute path")
validate_authority (some (authority, _)) =
    if is_empty authority
    then err (codes "sftp URL requires a host")
    else validate_host_port (after authority (rsplit_once b'@' authority))

unfoldable pub validate_sftp_url : Text → Result (Unit {0}) Text
unfolding validate_authority split_once
validate_sftp_url without_scheme =
    validate_authority (split_once b'/' (before without_scheme (split_once b'?' without_scheme)))

-- Each prefix test hands on what follows the prefix.
unfoldable pub validate_schemed_url : Text → Result (Unit {0}) Text
unfolding validate_sftp_url strip_prefix
validate_schemed_url value = elim (strip_prefix (codes "sftp://") value) [
  | some without_scheme ↦ validate_sftp_url without_scheme
  | none ↦
      if starts_with (codes "file://") value
      then ok tt
      else err (codes "peer URL must be a local path or sftp URL")
]

unfoldable pub schemed_url : Text → Result Text Text
unfolding has_scheme validate_schemed_url
schemed_url value =
    if has_scheme value
    then (validate_schemed_url value >>= λ _. ok value)
    else ok (codes "file://" ++ value)

unfoldable pub parse_url_alternative : Text → Result CommandLineUrlAlternative Text
unfolding parse_query schemed_url split_once
parse_url_alternative value = do
  timeouts ← parse_query (split_once b'?' value)
  url ← schemed_url value
  ok (record {
    url = url;
    timeout_conn_seconds = timeouts.timeout_conn_seconds;
    timeout_idle_seconds = timeouts.timeout_idle_seconds;
  })

abbrev pub role_of : Option ℕ → CommandLinePeerRole
role_of none = normal
role_of (some c) =
    if is_byte b'+' (some c) then canon else if is_byte b'-' (some c) then subordinate else normal

abbrev pub value_of : CommandLinePeerRole → Text → Text
value_of normal arg = arg
value_of _ arg = drop_first arg

unfoldable pub url_values : Text → Result (List Text) Text
unfolding split
url_values value =
    if is_byte b'[' (first_byte value) || ends_with b']' value
    then (if not (is_byte b'[' (first_byte value) && ends_with b']' value)
        then err (codes "fallback peer must use matching brackets")
        else if is_empty (init (drop_first value))
        then err (codes "fallback peer must contain at least one URL")
        else ok (split b',' (init (drop_first value))))
    else ok (value ∷ [])

unfoldable pub parse_urls : List Text → Result (List CommandLineUrlAlternative) Text
unfolding parse_url_alternative
parse_urls [] = ok []
parse_urls (url_value ∷ url_values) =
    if is_empty url_value
    then err (codes "fallback URL cannot be empty")
    else (do url ← parse_url_alternative url_value; urls ← parse_urls url_values; ok (url ∷ urls))

unfoldable pub parse_peer : Text → Result CommandLinePeer Text
unfolding url_values parse_urls
parse_peer arg =
    let role = role_of (first_byte arg) in
    let value = value_of role arg in
    if is_empty value then err (codes "peer cannot be empty") else (do
      values ← url_values value
      urls ← parse_urls values
      ok (record { role = role; urls = urls }))
