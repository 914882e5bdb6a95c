-- ===== src/Transport/Types.antt =====
-- The types of proj/subpjx/PeerTransportSurface/src/api.rs. A modification time is a `SystemTime`,
-- as in Format/Time.
use kitchensync.Base.{ℕ, ℤ, Text, List, Bool}

-- The connected root behind the handle, by its path.
pub record ConnectedPeerRoot : Type 0 where
  pub handle : Text

pub record PeerDirectoryEntry : Type 0 where
  pub child_name : Text
  pub is_dir : Bool
  pub mod_time : ℕ
  pub byte_size : ℤ

pub record PeerMetadata : Type 0 where
  pub is_dir : Bool
  pub mod_time : ℕ
  pub byte_size : ℤ

pub data PeerReadChunk : Type 0 where
  bytes : List ℕ → PeerReadChunk
  eof : PeerReadChunk

pub data PeerTransportError : Type 0 where
  not_found permission_denied io_error : PeerTransportError
