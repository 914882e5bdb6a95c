-- ===== src/Tests/Upkeep.antt =====
-- Tries of a copy and the cleanup of old data, on a peer in memory.
use kitchensync.Base.{
  ◌<◌, ◌≡◌, refl, codes, text_eq, starts_with, Option-cases, inl, inr, some, none, [], ◌∷◌, ok,
  true, pos, arith,
}
use kitchensync.Format.Types.{FormatRulesTimestamp}
use kitchensync.Transport.Types.{ConnectedPeerRoot}
use kitchensync.Transport.Surface.{PeerTransportSurface, apart, file, directory}
use kitchensync.Transport.Memory.{Disk, put, memory}
use kitchensync.Copy.Types.{
  CopyStagingPeer, CopyStagingCopyRequest, CopyStagingDirectoryRequest, CopyStagingRunMode, info,
}
use kitchensync.Copy.Attempt.{dry_run_read_source, read_chunks}
use kitchensync.Copy.Slots.{at_least_one}
use kitchensync.Copy.Tries.{attempt, copy_file}
use kitchensync.Copy.Tries.Bounds.{Ends, IsTried, copy_file-IsTried}
use kitchensync.Copy.Cleanup.{cleanup_metadata}
use kitchensync.Copy.Cleanup.Apart.{apart-not_same}
use kitchensync.Copy.Cleanup.Frame.{IsCareful, cleanup_metadata-Leaves}
use kitchensync.Tests.Sample.{seconds_only}

abbrev root : ConnectedPeerRoot
root = record { handle = codes "/peer" }

abbrev peer : CopyStagingPeer
peer = record { peer_index = 0; peer_url = codes "file:///peer"; root = root }

abbrev still_clock : Disk → FormatRulesTimestamp × Disk
still_clock d = (record { text = codes "t" }, d)

abbrev one_file : Disk
one_file = record {
  at = put (codes "d/f") (some (file (1 ∷ 2 ∷ []))) (λ p. none);
  cursor = [];
  budget = 9;
}

-- A dry run reads the source in two chunks at most.
abbrev request : CopyStagingCopyRequest
request = record {
  options = record {
    mode = CopyStagingRunMode.dry_run;
    max_copies = 2;
    retries_copy = 3;
    keep_bak_days = 90;
    keep_tmp_days = 2;
    verbosity = info;
  };
  source_peer = peer;
  destination_peer = peer;
  source_path = codes "d/f";
  destination_path = codes "e/f";
  relative_path = codes "e/f";
  winning_mod_time = 5;
  winning_byte_size = pos 2;
}

request-Ends : Ends memory still_clock request 3
unfolding attempt dry_run_read_source read_chunks
request-Ends d = elim (Option-cases (d.at (codes "d/f"))) [
  | inl e ↦ rw e (λ h. cc h)
  | inr (directory, e) ↦ rw e (λ h. cc h)
  | inr (file [], e) ↦ rw e (λ h. cc h)
  | inr (file (b ∷ more), e) ↦ rw e (λ h. cc h)
]

free_slot : 1 < at_least_one 2
unfolding at_least_one
free_slot = omega arith

copy_file-IsTried_example :
    IsTried memory still_clock request 3 1 (copy_file memory still_clock request 3 one_file 1)
copy_file-IsTried_example =
    copy_file-IsTried memory still_clock request 3 one_file 1 request-Ends free_slot

-- The peer in memory, with an entry of the fifth second in each directory that is listed
abbrev listed_memory : PeerTransportSurface
listed_memory = record memory {
  list_dir = λ r p d. (
    ok (
        record {
          child_name = codes "0000000000000000005_000000Z";
          is_dir = true;
          mod_time = 0;
          byte_size = pos 0;
        }
        ∷ []),
    d,
  );
}

listed_memory-IsCareful : IsCareful listed_memory root
listed_memory-IsCareful = record {
  node = λ d q. d.at q;
  node-stat = λ p q d. refl;
  node-list_dir = λ p q d. refl;
  node-delete_file = λ p q d a. ground (arith, apart-not_same p q a);
  node-delete_dir = λ p q d e. ground (arith, e);
}

abbrev cleaned : CopyStagingDirectoryRequest
cleaned = record {
  options = record request.options { mode = CopyStagingRunMode.normal };
  peer = peer;
  directory_relative_path = some (codes "d");
}

far_from :
    (apart (codes "d/.kitchensync/BAK") (codes "d/f") ≡ true)
    × (apart (codes "d/.kitchensync/TMP") (codes "d/f") ≡ true)
unfolding apart text_eq starts_with
far_from = (refl, refl)

cleanup_metadata-Leaves_example :
    (cleanup_metadata listed_memory seconds_only 4 8000000000000000000 cleaned one_file).1.at
      (codes "d/f")
    ≡ some (file (1 ∷ 2 ∷ []))
unfolding listed_memory-IsCareful text_eq
cleanup_metadata-Leaves_example =
    cleanup_metadata-Leaves listed_memory seconds_only cleaned listed_memory-IsCareful (codes "d/f")
      4 8000000000000000000 one_file far_from.0 far_from.1
