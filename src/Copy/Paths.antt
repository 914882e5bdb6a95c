-- ===== src/Copy/Paths.antt =====
-- The paths of proj/subpjx/CopyStaging/src/imp.rs, and the decoding of the name of a SWAP directory.
pub mod RoundTrip
use kitchensync.Base.{
  from_utf8, ℕ, ◌+◌, ◌-◌, ◌*◌, codes, Text, Bool, true, false, ◌&&◌, Option, none, some, List, [],
  ◌∷◌, ◌++◌, is_empty, leb, ltb, if◌then◌else◌, rsplit_once, ◌==◌,
}

abbrev pub split_path : Text → Option (Text × Text) → Option Text × Text
split_path path (some (parent, basename)) = (some parent, basename)
split_path path none = (none, path)

unfoldable pub split_parent_basename : Text → Option Text × Text
unfolding rsplit_once
split_parent_basename path = split_path path (rsplit_once b'/' path)

abbrev pub join_parent_basename : Option Text → Text → Text
join_parent_basename (some parent) basename = parent ++ codes "/" ++ basename
join_parent_basename none basename = basename

abbrev pub join_path : Text → Text → Text
join_path parent child = if is_empty parent then child else parent ++ codes "/" ++ child

abbrev pub metadata_child_path : Option Text → Text → Text
metadata_child_path (some parent) child = parent ++ codes "/.kitchensync/" ++ child
metadata_child_path none child = codes ".kitchensync/" ++ child

unfoldable pub hex_value : ℕ → Option ℕ
hex_value byte =
    if leb b'0' byte && leb byte b'9'
    then some (byte - b'0')
    else if leb b'A' byte && leb byte b'F'
    then some (byte - b'A' + 10)
    else if leb b'a' byte && leb byte b'f'
    then some (byte - b'a' + 10)
    else none

abbrev pub push_byte : Option ℕ → Option ℕ → Option (List ℕ) → Option (List ℕ)
push_byte (some high) (some low) (some decoded) = some ((high * 16 + low) ∷ decoded)
push_byte _ _ _ = none

abbrev pub push_plain : ℕ → Option (List ℕ) → Option (List ℕ)
push_plain byte none = none
push_plain byte (some decoded) = some (byte ∷ decoded)

-- The loop of `percent_decode_segment`
unfoldable pub percent_decode : Text → Option (List ℕ)
unfolding hex_value
percent_decode [] = some []
percent_decode (a ∷ []) = if a == b'%' then none else some (a ∷ [])
percent_decode (a ∷ b ∷ []) = if a == b'%' then none else push_plain a (percent_decode (b ∷ []))
percent_decode (a ∷ b ∷ c ∷ s) =
    let decoded = percent_decode s in
    let rest = percent_decode (b ∷ c ∷ s) in
    if a == b'%' then push_byte (hex_value b) (hex_value c) decoded else push_plain a rest

abbrev pub decoded_text : Option (List ℕ) → Option Text
decoded_text none = none
decoded_text (some decoded) = from_utf8 decoded

unfoldable pub percent_decode_segment : Text → Option Text
unfolding percent_decode from_utf8
percent_decode_segment segment = decoded_text (percent_decode segment)
