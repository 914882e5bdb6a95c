-- ===== src/Format/Paths.antt =====
-- Paths of proj/subpjx/FormatRules/src/imp.rs: what a relative path may be, the identifiers of a
-- path in a snapshot, and the places of BAK, TMP and SWAP data.
use kitchensync.Base.{
  first_byte, ℕ, zero, suc, ◌+◌, ◌/◌, ◌%◌, codes, Text, text_eq, Bool, ◌||◌, Option, none, some, [],
  ◌∷◌, ◌++◌, any, Result, ok, err, ◌>>=◌, ◌>>◌, is_empty, contains, ends_with, is_byte, split, ltb,
  if◌then◌else◌, rsplit_once, is_ascii_alphanumeric, ◌==◌,
}
use kitchensync.Format.Types.{
  FormatRulesTimestamp, FormatRulesSnapshotPathIds, FormatRulesUserSwapPaths,
  FormatRulesSnapshotSwapPaths, FormatRulesValidationError, validation_error, invalid_relative_path,
  root_snapshot_path, invalid_swap_basename,
}

-- `segment.is_empty() || segment == "." || segment == ".."`
abbrev pub is_bad_segment : Text → Bool
is_bad_segment segment =
    is_empty segment || text_eq segment (codes ".") || text_eq segment (codes "..")

unfoldable pub validate_relative_path_text : Text → Result (Unit {0}) FormatRulesValidationError
unfolding text_eq split
validate_relative_path_text path =
    if is_empty path
      || is_byte b'/' (first_byte path)
      || ends_with b'/' path
      || contains b'\\' path
      || contains 0 path
    then err (validation_error invalid_relative_path)
    else if any is_bad_segment (split b'/' path)
    then err (validation_error invalid_relative_path)
    else ok tt

unfoldable pub validate_relative_path : Text → Result Text FormatRulesValidationError
unfolding validate_relative_path_text
validate_relative_path path = validate_relative_path_text path >>= λ _. ok path

-- `BASE62`: digits, then capitals, then small letters
unfoldable pub base62_digit : ℕ → ℕ
base62_digit n = if ltb n 10 then b'0' + n else if ltb n 36 then 55 + n else 61 + n

-- The digits of `base62_11`, the last first, onto those already there.
unfoldable pub base62_digits : ℕ → ℕ → Text → Text
unfolding base62_digit
base62_digits zero value digits = digits
base62_digits (suc n) value digits =
    base62_digits n (value / 62) (base62_digit (value % 62) ∷ digits)

unfoldable pub base62_11 : ℕ → Text
unfolding base62_digits
base62_11 value = base62_digits 11 value []

unfoldable pub metadata_parent_prefix : Option Text → Result Text FormatRulesValidationError
unfolding validate_relative_path_text
metadata_parent_prefix (some parent) =
    validate_relative_path_text parent >>= λ _. ok (parent ++ codes "/")
metadata_parent_prefix none = ok []

unfoldable pub bak_directory_path :
    Option Text → FormatRulesTimestamp → Result Text FormatRulesValidationError
unfolding metadata_parent_prefix
bak_directory_path parent_relative_path timestamp = do
  base ← metadata_parent_prefix parent_relative_path
  ok (base ++ codes ".kitchensync/BAK/" ++ timestamp.text ++ codes "/")

abbrev pub tmp_directory_path : FormatRulesTimestamp → Text
tmp_directory_path timestamp = codes ".kitchensync/TMP/" ++ timestamp.text ++ codes "/"

unfoldable pub is_unreserved : ℕ → Bool
unfolding is_ascii_alphanumeric
is_unreserved value =
    is_ascii_alphanumeric value || value == b'-' || value == b'.' || value == b'_' || value == b'~'

-- A digit of `{:02X}`
abbrev pub hex_digit : ℕ → ℕ
hex_digit n = if ltb n 10 then b'0' + n else 55 + n

unfoldable pub encode_bytes : Text → Text
unfolding is_unreserved
encode_bytes [] = []
encode_bytes (byte ∷ s) =
    let rest = encode_bytes s in
    if is_unreserved byte
    then byte ∷ rest
    else b'%' ∷ hex_digit (byte / 16) ∷ hex_digit (byte % 16) ∷ rest

-- The condition that `encode_swap_basename` starts with
unfoldable pub is_refused : Text → Bool
unfolding text_eq
is_refused basename =
    is_bad_segment basename
    || contains b'/' basename
    || contains b'\\' basename
    || contains 0 basename

unfoldable pub encode_swap_basename : Text → Result Text FormatRulesValidationError
unfolding encode_bytes is_refused
encode_swap_basename basename =
    if is_refused basename
    then err (validation_error invalid_swap_basename)
    else ok (encode_bytes basename)

unfoldable pub user_swap_paths :
    Option Text → Text → Result FormatRulesUserSwapPaths FormatRulesValidationError
unfolding encode_swap_basename metadata_parent_prefix
user_swap_paths parent_relative_path target_basename = do
  encoded ← encode_swap_basename target_basename
  base ← metadata_parent_prefix parent_relative_path
  ok (record {
    new_path = base ++ codes ".kitchensync/SWAP/" ++ encoded ++ codes "/new";
    old_path = base ++ codes ".kitchensync/SWAP/" ++ encoded ++ codes "/old";
    directory_path = base ++ codes ".kitchensync/SWAP/" ++ encoded;
  })

abbrev pub snapshot_swap_paths : FormatRulesSnapshotSwapPaths
snapshot_swap_paths = record {
  new_path = codes ".kitchensync/SWAP/snapshot.db/new";
  old_path = codes ".kitchensync/SWAP/snapshot.db/old";
}

-- The parent of a path, or "/" for a path at the root.
abbrev pub parent_text : Option (Text × Text) → Text
parent_text none = codes "/"
parent_text (some (parent, _)) = parent

-- `hash` is XxHash64 with the seed 0.
module _ (hash : Text → ℕ) where
  abbrev pub snapshot_id : Text → Text
  snapshot_id bytes = base62_11 (hash bytes)

  unfoldable pub snapshot_path_ids :
      Text → Result FormatRulesSnapshotPathIds FormatRulesValidationError
  unfolding validate_relative_path_text rsplit_once base62_11
  snapshot_path_ids relative_path =
      if is_empty relative_path then err (validation_error root_snapshot_path) else (do
        validate_relative_path_text relative_path
        ok (record {
          id = snapshot_id relative_path;
          parent_id = snapshot_id (parent_text (rsplit_once b'/' relative_path));
        }))
