-- ===== src/Connections/Arguments.antt =====
-- The peer arguments as proj/subpjx/PeerConnections/src/imp.rs reads them.
use kitchensync.Base.{
  ℕ, suc, Text, ◌&&◌, List, [], ◌∷◌, first_byte, drop_first, init, is_byte, ends_with, split,
  if◌then◌else◌,
}
use kitchensync.Connections.Types.{
  ParsedRole, normal_role, canon_role, subordinate_role, ParsedPeer,
}

-- `match argument.as_bytes().first()`
abbrev pub role_value : Text → ParsedRole × Text
role_value argument =
    if is_byte b'+' (first_byte argument)
    then (canon_role, drop_first argument)
    else if is_byte b'-' (first_byte argument)
    then (subordinate_role, drop_first argument)
    else (normal_role, argument)

unfoldable pub candidates_of : Text → List Text
unfolding split
candidates_of value =
    if is_byte b'[' (first_byte value) && ends_with b']' value
    then split b',' (init (drop_first value))
    else value ∷ []

unfoldable pub parse_peer_argument : ℕ → Text → ParsedPeer
unfolding candidates_of
parse_peer_argument peer_index argument =
    let (role, value) = role_value argument in
    record { peer_index = peer_index; role = role; candidates = candidates_of value }

abbrev parse_from : ℕ → List Text → List ParsedPeer
parse_from peer_index [] = []
parse_from peer_index (argument ∷ arguments) =
    parse_peer_argument peer_index argument ∷ parse_from (suc peer_index) arguments

unfoldable pub parse_peer_arguments : List Text → List ParsedPeer
unfolding parse_peer_argument
parse_peer_arguments peer_arguments = parse_from 0 peer_arguments
