-- ===== src/Tests/Walk.antt =====
-- A walk over a tree with a directory and a file, on two peers.
use kitchensync.Base.{
  ◌≢◌, subst, sym, text_eq_iff, ℕ, ◌+◌, ◌<◌, ◌≡◌, ◌⊎◌, ◌↔◌, inl, inr, codes, Text, text_eq,
  is_empty, Bool, true, false, Option, none, some, List, [], ◌∷◌, All, Member, Result, ok, err,
  Returns, Returns-ok, Bool-cases, if◌then◌else◌, arith, pos,
}
use kitchensync.Transport.Types.{
  ConnectedPeerRoot, PeerDirectoryEntry, PeerTransportError, not_found, io_error,
}
use kitchensync.Copy.Types.{
  CopyStagingCopyStatus, CopyStagingSwapRecoveryStatus, CopyStagingDisplacementStatus,
}
use kitchensync.Traversal.Types.{
  SyncTraversalPeer, SyncTraversalPeerRole, SyncTraversalRequest, SyncTraversalResult, ActivePeer,
  ListedDirectory, SyncTraversalDiagnostic,
}
use kitchensync.Traversal.Services.{Services}
use kitchensync.Traversal.Listing.{
  transport_path, join_path, list_dir_for_peer, list_level, names_of,
}
use kitchensync.Traversal.Listing.Attempts.{Answers, list_dir_for_peer-Answers}
use kitchensync.Traversal.Listing.Peers.{Parted, HasCanon, LacksCanon, list_level-ArePartitioned}
use kitchensync.Traversal.Listing.Order.{AreOrdered, IsListed, key_of, names_of-AreOrdered}
use kitchensync.Traversal.Walk.{traverse}
use kitchensync.Traversal.Walk.Depth.{traverse-ends}
use kitchensync.Tests.Sample.{seconds_only}

abbrev entry : Text → Bool → PeerDirectoryEntry
entry name is_dir = record {
  child_name = name;
  is_dir = is_dir;
  mod_time = 5000000000;
  byte_size = pos 3;
}

-- The root holds the directory a, and a holds the file f.
abbrev listing_at : Text → Result (List PeerDirectoryEntry) PeerTransportError
listing_at path =
    if is_empty path
    then ok (entry (codes "a") true ∷ [])
    else if text_eq path (codes "a")
    then ok (entry (codes "f") false ∷ [])
    else err not_found

abbrev level_of : Option Text → ℕ
level_of none = 2
level_of (some path) = if is_empty path then 2 else if text_eq path (codes "a") then 1 else 0

-- The state counts the changes.
abbrev services : Services
services = record {
  State = ℕ;
  chrono = seconds_only;
  to_lowercase = λ name. name;
  snapshot_path_ids = λ path. ok (record { id = path; parent_id = [] });
  current_timestamp = λ s. (record { text = codes "now" }, s);
  list_dir = λ root path s. (listing_at path, s);
  create_dir = λ root path s. (ok tt, s + 1);
  recover_user_swap = λ request s. (CopyStagingSwapRecoveryStatus.recovered, s);
  copy_file = λ request s. (CopyStagingCopyStatus.completed, s + 1);
  displace_to_bak = λ request s. (CopyStagingDisplacementStatus.displaced, s + 1);
  cleanup_metadata = λ request s. s;
  read_snapshot_row = λ database id s. (ok none, s);
  record_confirmed_file = λ database identity time size seen s. s + 1;
  record_intended_file_copy = λ database identity time size s. s + 1;
  record_completed_file_copy = λ database id seen s. s + 1;
  record_listed_directory = λ database identity time seen s. s + 1;
  record_created_directory = λ database identity time seen s. s + 1;
  record_confirmed_absence = λ database id s. s + 1;
  record_successful_displacement = λ database id is_directory s. s + 1;
}

abbrev Deeper : Option Text → List PeerDirectoryEntry → Type 0
Deeper path entries =
    All (λ entry. level_of (some (join_path path entry.child_name)) < level_of path) entries

listing_at-Deeper : (path : Option Text) → Returns (Deeper path) (listing_at (transport_path path))
unfolding join_path text_eq
listing_at-Deeper none = (omega arith, tt)
listing_at-Deeper (some []) = (omega arith, tt)
listing_at-Deeper (some (c ∷ path)) = elim (Bool-cases (text_eq (c ∷ path) (codes "a"))) [
  | inl e ↦
      subst (λ path. Returns (Deeper (some path)) (listing_at path))
        (sym ((text_eq_iff (c ∷ path) (codes "a")).0 e)) (omega arith, tt)
  | inr e ↦ rw e tt
]

deeper :
    (root : ConnectedPeerRoot) (path : Option Text) (s : ℕ) (entries : List PeerDirectoryEntry)
    → listing_at (transport_path path) ≡ ok entries
    → All (λ entry. level_of (some (join_path path entry.child_name)) < level_of path) entries
deeper root path s entries h =
    Returns-ok (Deeper path) (listing_at (transport_path path)) entries (listing_at-Deeper path) h

abbrev peer : ℕ → SyncTraversalPeerRole → SyncTraversalPeer
peer index role = record {
  peer_index = index;
  peer_url = codes "file://a";
  role = role;
  had_snapshot_history = true;
  root = record { handle = codes "a" };
  snapshot_database = record { peer_index = index; local_snapshot_path = codes "db" };
}

abbrev request : SyncTraversalRequest
request = record {
  peers = peer 0 SyncTraversalPeerRole.normal ∷ peer 1 SyncTraversalPeerRole.canon ∷ [];
  retries_list = 3;
  excludes = [];
}

abbrev active : ActivePeer
active = record { peer = peer 1 SyncTraversalPeerRole.canon }

traverse-ends_example :
    (answer : SyncTraversalResult × ℕ) × (traverse services 3 request 0 ≡ some answer)
traverse-ends_example = traverse-ends services level_of deeper 3 request 0 (omega arith)

list_dir_for_peer-Answers_example :
    (CopyStagingSwapRecoveryStatus.recovered ≡ CopyStagingSwapRecoveryStatus.failed
      → list_dir_for_peer services active none 3 7 ≡ (err io_error, 7))
    × (CopyStagingSwapRecoveryStatus.recovered ≢ CopyStagingSwapRecoveryStatus.failed
        → Answers services active.peer.root [] 3 io_error 7
            (list_dir_for_peer services active none 3 7))
list_dir_for_peer-Answers_example = list_dir_for_peer-Answers services active none 3 7

abbrev listing : ListedDirectory
listing = record { peer_index = 1; entries = (codes "a", entry (codes "a") true) ∷ [] }

list_level-ArePartitioned_example :
    (listed : List ListedDirectory) × (told : List SyncTraversalDiagnostic) × ((list_level services
        (active ∷ [])
        none
        3
        (0, [])).1.1
      ≡ told)
    × Parted services none 3
        (active ∷ [])
        0
        listed
        told
        (list_level services (active ∷ []) none 3 (0, [])).1.0
    × ((((list_level services (active ∷ []) none 3 (0, [])).0 ≡ some listed)
          × HasCanon (active ∷ []) listed)
        ⊎ (((list_level services (active ∷ []) none 3 (0, [])).0 ≡ none)
            × LacksCanon (active ∷ []) told))
list_level-ArePartitioned_example = list_level-ArePartitioned services none 3 (active ∷ []) 0 []

names_of-AreOrdered_example :
    AreOrdered (names_of services (listing ∷ listing ∷ []))
    × ((name : Text)
        → Member (key_of services name) (names_of services (listing ∷ listing ∷ []))
          ↔ IsListed name (listing ∷ listing ∷ []))
names_of-AreOrdered_example = names_of-AreOrdered services (listing ∷ listing ∷ [])
