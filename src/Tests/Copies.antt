-- ===== src/Tests/Copies.antt =====
-- The properties of staged copies on a peer in memory.
use kitchensync.Base.{
  from_utf8, ◌≢◌, true, ◌≡◌, refl, ◌∙◌, codes, text_eq, pos, false, some, none, [], ◌∷◌, ok, arith,
  split, is_ascii_alphanumeric, rsplit_once,
}
use kitchensync.Format.Types.{FormatRulesTimestamp, FormatRulesUserSwapPaths}
use kitchensync.Format.Paths.{
  user_swap_paths, encode_swap_basename, encode_bytes, is_unreserved, is_refused,
  metadata_parent_prefix, validate_relative_path_text,
}
use kitchensync.Transport.Types.{ConnectedPeerRoot}
use kitchensync.Transport.Surface.{file}
use kitchensync.Transport.Memory.{Disk, put, memory, memory-IsLawful, node-memory}
use kitchensync.Copy.Swap.{is_dry_run}
use kitchensync.Copy.Displacement.{displace_to_bak}
use kitchensync.Copy.Displacement.Laws.{IsMoved, displace_to_bak_lem}
use kitchensync.Copy.Types.{
  CopyStagingDisplacementRequest, displaced, planned_dry_run, failed, CopyStagingPeer,
  CopyStagingCopyRequest, normal, info,
}
use kitchensync.Copy.Paths.{percent_decode_segment, split_parent_basename}
use kitchensync.Copy.Paths.RoundTrip.{percent_decode_segment-encode_swap_basename}
use kitchensync.Copy.Places.{metadata}
use kitchensync.Copy.Places.Disjoint.{user_swap_paths-ArePlaces}
use kitchensync.Copy.Swap.{recover_named_swap}
use kitchensync.Copy.Swap.Recovery.{IsRecovery, recover_named_swap_lem}
use kitchensync.Copy.Attempt.{copy_attempt}
use kitchensync.Copy.Attempt.Safety.{IsKept, copy_attempt-IsKept, split_parent_basename-join}

percent_decode_segment-encode_swap_basename_example :
    percent_decode_segment (codes "a%20b") ≡ some (codes "a b")
unfolding encode_swap_basename from_utf8 is_refused encode_bytes is_unreserved is_ascii_alphanumeric
percent_decode_segment-encode_swap_basename_example =
    percent_decode_segment-encode_swap_basename (codes "a b") (codes "a%20b")
      (omega arith, (omega arith, (omega arith, tt))) refl refl

abbrev root : ConnectedPeerRoot
root = record { handle = codes "/peer" }

abbrev peer : CopyStagingPeer
peer = record { peer_index = 0; peer_url = codes "file:///peer"; root = root }

-- A clock that stands still.
abbrev still_clock : Disk → FormatRulesTimestamp × Disk
still_clock d = (record { text = codes "t" }, d)

abbrev swap : FormatRulesUserSwapPaths
swap = record {
  directory_path = codes "d/.kitchensync/SWAP/f";
  new_path = codes "d/.kitchensync/SWAP/f/new";
  old_path = codes "d/.kitchensync/SWAP/f/old";
}

swap_is : user_swap_paths (some (codes "d")) (codes "f") ≡ ok swap
unfolding user_swap_paths encode_swap_basename is_refused encode_bytes is_unreserved
    is_ascii_alphanumeric metadata_parent_prefix validate_relative_path_text split text_eq
swap_is = refl

not_metadata : text_eq (codes "f") metadata ≡ false
unfolding text_eq
not_metadata = refl

-- A copy that was broken off after the existing file moved.
abbrev broken_off : Disk
broken_off = record {
  at =
      put swap.old_path (some (file (1 ∷ 2 ∷ [])))
        (put swap.new_path (some (file (3 ∷ []))) (λ p. none));
  cursor = [];
  budget = 2;
}

recover_named_swap_lem_example :
    IsRecovery memory still_clock peer
      (memory-IsLawful root)
      (λ q s. refl)
      (some (codes "d"))
      (codes "f")
      swap
      (user_swap_paths-ArePlaces (some (codes "d")) (codes "f") swap swap_is not_metadata)
      broken_off
      (recover_named_swap memory still_clock peer (some (codes "d")) (codes "f") broken_off)
recover_named_swap_lem_example =
    recover_named_swap_lem memory still_clock peer (memory-IsLawful root) (λ q s. refl)
      (some (codes "d")) (codes "f") swap swap_is not_metadata broken_off

abbrev request : CopyStagingCopyRequest
request = record {
  options = record {
    mode = normal;
    max_copies = 10;
    retries_copy = 3;
    keep_bak_days = 90;
    keep_tmp_days = 2;
    verbosity = info;
  };
  source_peer = peer;
  destination_peer = peer;
  source_path = codes "other";
  destination_path = codes "d/f";
  relative_path = codes "d/f";
  winning_mod_time = 5;
  winning_byte_size = pos 2;
}

-- A destination and a source, and changes that run out after the existing file moved.
abbrev two_files : Disk
two_files = record {
  at =
      put (codes "d/f") (some (file (1 ∷ 2 ∷ [])))
        (put (codes "other") (some (file (7 ∷ 8 ∷ []))) (λ p. none));
  cursor = [];
  budget = 5;
}

destination_is_there : two_files.at (codes "d/f") ≡ some (file (1 ∷ 2 ∷ []))
unfolding text_eq
destination_is_there = refl

split_swap_is :
    user_swap_paths (split_parent_basename (codes "d/f")).0 (split_parent_basename (codes "d/f")).1
    ≡ ok swap
unfolding split_parent_basename rsplit_once
split_swap_is = swap_is

split_not_metadata : text_eq (split_parent_basename (codes "d/f")).1 metadata ≡ false
unfolding split_parent_basename rsplit_once
split_not_metadata = not_metadata

copy_attempt-IsKept_example :
    IsKept memory still_clock request
      (memory-IsLawful root)
      (λ q s. refl)
      (split_parent_basename (codes "d/f")).0
      (split_parent_basename (codes "d/f")).1
      swap
      (user_swap_paths-ArePlaces
        (split_parent_basename (codes "d/f")).0
        (split_parent_basename (codes "d/f")).1
        swap
        split_swap_is
        split_not_metadata)
      (split_parent_basename-join (codes "d/f"))
      (1 ∷ 2 ∷ [])
      (copy_attempt memory still_clock request 9 two_files).1
copy_attempt-IsKept_example =
    copy_attempt-IsKept memory still_clock request (memory-IsLawful root) (λ q s. refl) swap
      split_swap_is split_not_metadata 9 (1 ∷ 2 ∷ []) two_files
      (node-memory root two_files (codes "d/f") ∙ destination_is_there)

abbrev displacement : CopyStagingDisplacementRequest
displacement = record {
  options = request.options;
  peer = peer;
  relative_path = codes "d/f";
  is_directory = false;
}

displace_to_bak_lem_example :
    (is_dry_run displacement.options.mode ≡ true
      → ((displace_to_bak memory still_clock displacement two_files).0.status ≡ planned_dry_run)
        × ((displace_to_bak memory still_clock displacement two_files).1 ≡ two_files))
    × (is_dry_run displacement.options.mode ≡ false
        → ((displace_to_bak memory still_clock displacement two_files).0.status ≡ displaced
            → IsMoved memory still_clock displacement
                (memory-IsLawful root)
                (λ q s. refl)
                (file (1 ∷ 2 ∷ []))
                (displace_to_bak memory still_clock displacement two_files).1)
          × ((displace_to_bak memory still_clock displacement two_files).0.status ≢ displaced
              → ((displace_to_bak memory still_clock displacement two_files).0.status ≡ failed)
                × ((memory-IsLawful root).node
                      (displace_to_bak memory still_clock displacement two_files).1
                      (codes "d/f")
                    ≡ some (file (1 ∷ 2 ∷ [])))))
displace_to_bak_lem_example =
    displace_to_bak_lem memory still_clock displacement (memory-IsLawful root) (λ q s. refl)
      (file (1 ∷ 2 ∷ [])) two_files split_not_metadata
      (node-memory root two_files (codes "d/f") ∙ destination_is_there)
