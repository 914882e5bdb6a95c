-- ===== src/Format/Identity.antt =====
-- The identities of peer URLs: proj/subpjx/FormatRules/src/imp.rs, normalize_peer_identity and what
-- it calls.
pub mod Normal
pub mod Parts
pub mod Shapes
pub mod Ports
use kitchensync.Base.{
  ℕ, ◌+◌, ◌-◌, ◌*◌, codes, Text, text_eq, is_empty, strip_prefix, starts_with, drop_first,
  split_once_text, contains, is_byte, first_byte, ends_with, split_once, rsplit_once, Bool, true,
  false, ◌&&◌, ◌||◌, not, Option, none, some, [], ◌∷◌, ◌++◌, map, all, Result, ok, err, ◌>>=◌, leb,
  if◌then◌else◌, ◌==◌, is_ascii_digit, is_ascii_alphabetic, is_ascii_alphanumeric,
  to_ascii_lowercase, from_utf8,
}
use kitchensync.Format.Types.{
  FormatRulesPeerIdentityRequest, FormatRulesValidationError, validation_error, invalid_peer_url,
  missing_os_username,
}
use kitchensync.Format.Paths.{is_unreserved}

abbrev pub Checked : Type 0 → Type 0
Checked A = Result A FormatRulesValidationError

abbrev pub invalid_url : {A : Type 0} → Checked A
invalid_url = err (validation_error invalid_peer_url)

unfoldable pub hex_value : ℕ → Option ℕ
hex_value value =
    if leb b'0' value && leb value b'9'
    then some (value - b'0')
    else if leb b'a' value && leb value b'f'
    then some (value - b'a' + 10)
    else if leb b'A' value && leb value b'F'
    then some (value - b'A' + 10)
    else none

abbrev pub push_plain : ℕ → Option Text → Option Text
push_plain byte none = none
push_plain byte (some output) = some (byte ∷ output)

-- What a `%` and two bytes after it become
abbrev pub decode_triple : ℕ → ℕ → Option ℕ → Option ℕ → Option Text → Option Text
decode_triple high_digit low_digit (some high) (some low) (some output) = some (
    if is_unreserved (high * 16 + low)
    then (high * 16 + low) ∷ output
    else b'%' ∷ high_digit ∷ low_digit ∷ output)
decode_triple _ _ _ _ _ = none

-- The loop of `percent_decode_unreserved`; every way to fail is the same error.
unfoldable pub decode_bytes : Text → Option Text
unfolding hex_value is_unreserved
decode_bytes [] = some []
decode_bytes (a ∷ []) = if a == b'%' then none else some (a ∷ [])
decode_bytes (a ∷ b ∷ []) =
    let rest = decode_bytes (b ∷ []) in if a == b'%' then none else push_plain a rest
decode_bytes (a ∷ b ∷ c ∷ s) =
    let decoded = decode_bytes s in
    let rest = decode_bytes (b ∷ c ∷ s) in
    if a == b'%' then decode_triple b c (hex_value b) (hex_value c) decoded else push_plain a rest

abbrev pub as_text : Option Text → Checked Text
as_text none = invalid_url
as_text (some output) = elim (from_utf8 output) [ some text ↦ ok text | none ↦ invalid_url ]

unfoldable pub percent_decode_unreserved : Text → Checked Text
unfolding decode_bytes from_utf8
percent_decode_unreserved text = as_text (decode_bytes text)

-- One byte of `replace('\\', "/")`
abbrev pub slash_of : ℕ → ℕ
slash_of c = if c == 92 then b'/' else c

-- The loop over the characters, from whether the previous one is a slash
unfoldable pub collapse : Bool → Text → Text
collapse previous_slash [] = []
collapse previous_slash (c ∷ s) =
    let rest = collapse (c == b'/') s in if (c == b'/') && previous_slash then rest else c ∷ rest

unfoldable pub trim_end : Text → Text
trim_end [] = []
trim_end (c ∷ s) = let rest = trim_end s in if is_empty rest && (c == b'/') then [] else c ∷ rest

-- `while collapsed.len() > 1 && collapsed.ends_with('/')`
abbrev pub pop_slashes : Text → Text
pop_slashes [] = []
pop_slashes (c ∷ s) = c ∷ trim_end s

unfoldable pub normalize_url_path : Text → Checked Text
unfolding percent_decode_unreserved collapse trim_end
normalize_url_path path = do
  decoded ← percent_decode_unreserved path
  ok (pop_slashes (collapse false (map slash_of decoded)))

unfoldable pub strip_query_and_fragment : Text → Text
strip_query_and_fragment [] = []
strip_query_and_fragment (c ∷ s) =
    let rest = strip_query_and_fragment s in if (c == b'?') || (c == b'#') then [] else c ∷ rest

unfoldable pub looks_like_windows_absolute_path : Text → Bool
unfolding is_ascii_alphabetic
looks_like_windows_absolute_path (a ∷ b ∷ c ∷ s) =
    is_ascii_alphabetic a && (b == b':') && ((c == b'/') || (c == 92))
looks_like_windows_absolute_path _ = false

abbrev pub is_absolute_path_text : Text → Bool
is_absolute_path_text path = is_byte b'/' (first_byte path) || looks_like_windows_absolute_path path

-- `path_to_slash_text`
abbrev pub path_to_slash_text : Option Text → Checked Text
path_to_slash_text none = invalid_url
path_to_slash_text (some value) = ok (map slash_of value)

-- The path of a file URL, without its authority
unfoldable pub file_path_text : Text → Bool → Checked Text
unfolding strip_prefix looks_like_windows_absolute_path
file_path_text path_text has_file_scheme =
    if is_byte b'/' (first_byte path_text) || is_empty path_text
    then ok path_text
    else elim (strip_prefix (codes "localhost/") path_text) [
      | some path_without_authority ↦ ok (b'/' ∷ path_without_authority)
      | none ↦
          if looks_like_windows_absolute_path path_text
          then ok path_text
          else if has_file_scheme && contains b'/' path_text
          then invalid_url
          else ok path_text
    ]

abbrev pub in_directory : Text → Text → Text
in_directory cwd path_text =
    if ends_with b'/' cwd then cwd ++ path_text else cwd ++ codes "/" ++ path_text

unfoldable pub absolute_path_text : Text → Option Text → Checked Text
unfolding looks_like_windows_absolute_path
absolute_path_text path_text current_working_directory =
    if is_absolute_path_text path_text then ok path_text else do
      cwd ← path_to_slash_text current_working_directory
      if is_absolute_path_text cwd then ok (in_directory cwd path_text) else invalid_url

unfoldable pub rooted : Text → Text
unfolding looks_like_windows_absolute_path
rooted normalized =
    if looks_like_windows_absolute_path normalized then b'/' ∷ normalized else normalized

unfoldable pub normalize_file_identity : Text → Option Text → Bool → Checked Text
unfolding strip_query_and_fragment file_path_text absolute_path_text normalize_url_path rooted
normalize_file_identity rest current_working_directory has_file_scheme = do
  path_text ← file_path_text (strip_query_and_fragment rest) has_file_scheme
  absolute ← absolute_path_text path_text current_working_directory
  normalized ← normalize_url_path absolute
  ok (codes "file://" ++ rooted normalized)

abbrev pub is_port : Text → Bool
is_port port = not (is_empty port) && all is_ascii_digit port

-- After the `]` of an authority that starts with `[`
abbrev pub bracketed : Text → Text → Checked (Text × Option Text)
bracketed host remainder = elim (strip_prefix (codes ":") remainder) [
  | some port ↦ if is_port port then ok (host, some port) else invalid_url
  | none ↦ if is_empty remainder then ok (host, none) else invalid_url
]

abbrev pub split_bracketed : Option (Text × Text) → Checked (Text × Option Text)
split_bracketed none = invalid_url
split_bracketed (some (before, remainder)) =
    if is_empty (drop_first before) then invalid_url else bracketed (before ++ codes "]") remainder

abbrev pub split_plain : Text → Option (Text × Text) → Checked (Text × Option Text)
split_plain authority none = ok (authority, none)
split_plain authority (some (host, port)) =
    if not (is_empty host) && is_port port then ok (host, some port) else invalid_url

unfoldable pub split_host_port : Text → Checked (Text × Option Text)
unfolding strip_prefix is_ascii_digit split_once rsplit_once
split_host_port authority =
    if is_empty authority
    then invalid_url
    else if is_byte b'[' (first_byte authority)
    then split_bracketed (split_once b']' authority)
    else if contains b'[' authority || contains b']' authority
    then invalid_url
    else split_plain authority (rsplit_once b':' authority)

abbrev pub authority_path : Text → Option (Text × Text) → Text × Text
authority_path without_query none = (without_query, [])
authority_path without_query (some (authority, path)) = (authority, b'/' ∷ path)

abbrev pub os_user : Option Text → Checked Text
os_user none = err (validation_error missing_os_username)
os_user (some username) =
    if is_empty username then err (validation_error missing_os_username) else ok username

abbrev pub user_host : Text → Option Text → Option (Text × Text) → Checked (Text × Text)
user_host authority os_username (some (username, host_port)) =
    if is_empty username || contains b':' username then invalid_url else ok (username, host_port)
user_host authority os_username none = do username ← os_user os_username; ok (username, authority)

unfoldable pub port_text : Option Text → Text
unfolding text_eq
port_text none = []
port_text (some value) = if text_eq value (codes "22") then [] else codes ":" ++ value

abbrev pub sftp_identity : Text → Text → Option Text → Text → Text
sftp_identity username host port path =
    codes "sftp://"
    ++ username
    ++ codes "@"
    ++ map to_ascii_lowercase host
    ++ port_text port
    ++ path

abbrev pub sftp_parts : Option Text → Text × Text → Checked Text
sftp_parts os_username (authority, path) = if is_empty authority then invalid_url else do
  user ← user_host authority os_username (rsplit_once b'@' authority)
  host ← split_host_port user.1
  normalized ← normalize_url_path path
  ok (sftp_identity user.0 host.0 host.1 normalized)

unfoldable pub normalize_sftp_identity : Text → Option Text → Checked Text
unfolding strip_query_and_fragment split_once rsplit_once split_host_port normalize_url_path
    port_text to_ascii_lowercase
normalize_sftp_identity rest os_username = sftp_parts os_username (
    authority_path (strip_query_and_fragment rest)
      (split_once b'/' (strip_query_and_fragment rest)))

abbrev pub is_scheme_char : ℕ → Bool
is_scheme_char ch = is_ascii_alphanumeric ch || ch == b'+' || ch == b'-' || ch == b'.'

abbrev pub is_scheme : Text → Bool
is_scheme [] = false
is_scheme (first ∷ chars) = is_ascii_alphabetic first && all is_scheme_char chars

abbrev pub checked_scheme : Option (Text × Text) → Option (Text × Text)
checked_scheme none = none
checked_scheme (some (scheme, rest)) = if is_scheme scheme then some (scheme, rest) else none

unfoldable pub split_scheme : Text → Option (Text × Text)
unfolding split_once_text is_ascii_alphabetic is_ascii_alphanumeric
split_scheme text = checked_scheme (split_once_text (codes "://") text)

abbrev pub by_scheme : FormatRulesPeerIdentityRequest → Option (Text × Text) → Checked Text
by_scheme request none =
    normalize_file_identity request.peer_url request.current_working_directory false
by_scheme request (some (scheme, rest)) =
    if text_eq (map to_ascii_lowercase scheme) (codes "file")
    then normalize_file_identity rest request.current_working_directory true
    else if text_eq (map to_ascii_lowercase scheme) (codes "sftp")
    then normalize_sftp_identity rest request.os_username
    else invalid_url

unfoldable pub normalize_peer_identity : FormatRulesPeerIdentityRequest → Checked Text
unfolding normalize_file_identity normalize_sftp_identity split_scheme text_eq to_ascii_lowercase
normalize_peer_identity request = by_scheme request (split_scheme request.peer_url)
