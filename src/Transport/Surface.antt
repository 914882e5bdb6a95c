-- ===== src/Transport/Surface.antt =====
-- The trait `PeerTransportSurface` of proj/subpjx/PeerTransportSurface/src/api.rs over a state that
-- stands for the peers, and the documented effects of its operations on what stands at a path.
use kitchensync.Base.{
  ℕ, ◌≡◌, ◌≢◌, codes, Text, text_eq, starts_with, Bool, true, false, ◌&&◌, ◌||◌, not, Option, none,
  some, List, [], ◌++◌, Result, ok, err, is_ok,
}
use kitchensync.Transport.Types.{
  ConnectedPeerRoot, PeerDirectoryEntry, PeerMetadata, PeerReadChunk, PeerTransportError, not_found,
}

abbrev pub Answer : Type 0 → Type 0 → Type 0
Answer S A = Result A PeerTransportError × S

pub record PeerTransportSurface : Type 1 where
  pub State : Type 0
  pub PeerReadHandle : Type 0
  pub PeerWriteHandle : Type 0
  pub list_dir : ConnectedPeerRoot → Text → State → Answer State (List PeerDirectoryEntry)
  pub stat : ConnectedPeerRoot → Text → State → Answer State PeerMetadata
  pub open_read : ConnectedPeerRoot → Text → State → Answer State PeerReadHandle
  pub read : PeerReadHandle → ℕ → State → Answer State PeerReadChunk
  pub close_read : PeerReadHandle → State → Answer State (Unit {0})
  pub open_write : ConnectedPeerRoot → Text → State → Answer State PeerWriteHandle
  pub write : PeerWriteHandle → List ℕ → State → Answer State (Unit {0})
  pub close_write : PeerWriteHandle → State → Answer State (Unit {0})
  pub rename : ConnectedPeerRoot → Text → Text → State → Answer State (Unit {0})
  pub delete_file : ConnectedPeerRoot → Text → State → Answer State (Unit {0})
  pub create_dir : ConnectedPeerRoot → Text → State → Answer State (Unit {0})
  pub delete_dir : ConnectedPeerRoot → Text → State → Answer State (Unit {0})
  pub set_mod_time : ConnectedPeerRoot → Text → ℕ → State → Answer State (Unit {0})

-- What stands at a path.
pub data Node : Type 0 where
  file : List ℕ → Node
  directory : Node

-- No file stands there.
abbrev pub NoFile : Option Node → Type 0
NoFile none = Unit
NoFile (some directory) = Unit
NoFile (some (file bytes)) = ⊥

-- `q` is `p` or lies below it.
abbrev pub within : Text → Text → Bool
within p q = text_eq p q || starts_with (p ++ codes "/") q

-- Neither path is the other or lies below it.
unfoldable pub apart : Text → Text → Bool
unfolding text_eq starts_with
apart p q = not (within p q) && not (within q p)

-- The laws speak of one root. An operation that fails may have been made in part only where the
-- law says nothing of the failure.
pub record IsLawful (T : PeerTransportSurface) (root : ConnectedPeerRoot) : Type 0 where
  pub node : T.State → Text → Option Node
  -- The path and the root that a handle was opened at.
  pub writes_to : T.PeerWriteHandle → Text
  pub node-stat : (p q : Text) (s : T.State) → node (T.stat root p s).1 q ≡ node s q
  pub stat-ok :
      (p : Text) (s : T.State) (m : PeerMetadata) → (T.stat root p s).0 ≡ ok m → node s p ≢ none
  pub stat-not_found :
      (p : Text) (s : T.State) → (T.stat root p s).0 ≡ err not_found → node s p ≡ none
  pub node-open_write :
      (p q : Text) (s : T.State) → apart p q ≡ true → node (T.open_write root p s).1 q ≡ node s q
  pub open_write-ok :
      (p : Text) (s : T.State) (h : T.PeerWriteHandle)
      → (T.open_write root p s).0 ≡ ok h
      → (writes_to h ≡ p) × (node (T.open_write root p s).1 p ≡ some (file []))
  pub node-write :
      (h : T.PeerWriteHandle) (bytes : List ℕ) (q : Text) (s : T.State)
      → apart (writes_to h) q ≡ true
      → node (T.write h bytes s).1 q ≡ node s q
  pub write-ok :
      (h : T.PeerWriteHandle) (bytes before : List ℕ) (s : T.State)
      → node s (writes_to h) ≡ some (file before)
      → is_ok (T.write h bytes s).0 ≡ true
      → node (T.write h bytes s).1 (writes_to h) ≡ some (file (before ++ bytes))
  pub node-close_write :
      (h : T.PeerWriteHandle) (q : Text) (s : T.State)
      → apart (writes_to h) q ≡ true
      → node (T.close_write h s).1 q ≡ node s q
  pub close_write-ok :
      (h : T.PeerWriteHandle) (s : T.State)
      → is_ok (T.close_write h s).0 ≡ true
      → node (T.close_write h s).1 (writes_to h) ≡ node s (writes_to h)
  pub node-rename :
      (p q x : Text) (s : T.State)
      → apart p x ≡ true
      → apart q x ≡ true
      → node (T.rename root p q s).1 x ≡ node s x
  pub rename-ok :
      (p q : Text) (s : T.State)
      → is_ok (T.rename root p q s).0 ≡ true
      → (node (T.rename root p q s).1 q ≡ node s p) × (node (T.rename root p q s).1 p ≡ none)
  pub rename-err :
      (p q x : Text) (s : T.State)
      → is_ok (T.rename root p q s).0 ≡ false
      → node (T.rename root p q s).1 x ≡ node s x
  pub node-delete_file :
      (p x : Text) (s : T.State) → apart p x ≡ true → node (T.delete_file root p s).1 x ≡ node s x
  pub delete_file-ok :
      (p : Text) (s : T.State)
      → is_ok (T.delete_file root p s).0 ≡ true
      → node (T.delete_file root p s).1 p ≡ none
  pub delete_file-not_found :
      (p : Text) (s : T.State) → (T.delete_file root p s).0 ≡ err not_found → NoFile (node s p)
  pub delete_file-err :
      (p x : Text) (s : T.State)
      → is_ok (T.delete_file root p s).0 ≡ false
      → node (T.delete_file root p s).1 x ≡ node s x
  -- The peer that is read may have another root.
  pub node-open_read :
      (source : ConnectedPeerRoot) (p q : Text) (s : T.State)
      → node (T.open_read source p s).1 q ≡ node s q
  pub node-read :
      (h : T.PeerReadHandle) (n : ℕ) (q : Text) (s : T.State) → node (T.read h n s).1 q ≡ node s q
  pub node-close_read :
      (h : T.PeerReadHandle) (q : Text) (s : T.State) → node (T.close_read h s).1 q ≡ node s q
  pub node-set_mod_time :
      (p q : Text) (time : ℕ) (s : T.State) → node (T.set_mod_time root p time s).1 q ≡ node s q
  -- The directory and its parents are made.
  pub node-create_dir :
      (p q : Text) (s : T.State) → apart p q ≡ true → node (T.create_dir root p s).1 q ≡ node s q
  -- Only the directory itself goes, as one that is not empty stays.
  pub node-delete_dir :
      (p q : Text) (s : T.State) → text_eq p q ≡ false → node (T.delete_dir root p s).1 q ≡ node s q
