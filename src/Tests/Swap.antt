-- ===== src/Tests/Swap.antt =====
-- The upload and the recovery of a snapshot on a peer in memory.
use kitchensync.Base.{◌≡◌, refl, ◌∙◌, codes, text_eq, true, some, none, [], ◌∷◌, is_ok}
use kitchensync.Transport.Types.{ConnectedPeerRoot}
use kitchensync.Transport.Surface.{file}
use kitchensync.Transport.Memory.{Disk, put, memory, memory-IsLawful, node-memory}
use kitchensync.Snapshot.Swap.{
  live_snapshot_path, old_path, new_path, LocalFile, recover_snapshot_swap, upload_snapshot,
}
use kitchensync.Snapshot.Swap.Recovery.{recovered_of, IsSettled, recover_snapshot_swap_lem}
use kitchensync.Snapshot.Swap.Upload.{IsRecoverable, upload_snapshot-IsRecoverable}

abbrev root : ConnectedPeerRoot
root = record { handle = codes "/peer" }

-- An upload that was broken off after the live snapshot moved.
abbrev broken_off : Disk
broken_off = record {
  at = put old_path (some (file (1 ∷ 2 ∷ []))) (put new_path (some (file (3 ∷ []))) (λ p. none));
  cursor = [];
  budget = 1;
}

recover_snapshot_swap_lem_example :
    (recovered_of memory root
        (memory-IsLawful root)
        (recover_snapshot_swap memory root broken_off).1
      ≡ recovered_of memory root (memory-IsLawful root) broken_off)
    × (is_ok (recover_snapshot_swap memory root broken_off).0 ≡ true
        → IsSettled memory root
            (memory-IsLawful root)
            (recovered_of memory root (memory-IsLawful root) broken_off)
            (recover_snapshot_swap memory root broken_off).1)
recover_snapshot_swap_lem_example =
    recover_snapshot_swap_lem memory root (memory-IsLawful root) broken_off

-- The changes run out after the live snapshot is moved.
abbrev with_live : Disk
with_live = record {
  at = put live_snapshot_path (some (file (1 ∷ 2 ∷ []))) (λ p. none);
  cursor = [];
  budget = 4;
}

live_is_there : with_live.at live_snapshot_path ≡ some (file (1 ∷ 2 ∷ []))
unfolding text_eq
live_is_there = refl

abbrev local : LocalFile
local = some (some (7 ∷ 8 ∷ []) ∷ some [] ∷ [])

upload_snapshot-IsRecoverable_example :
    IsRecoverable memory root
      (memory-IsLawful root)
      (file (1 ∷ 2 ∷ []))
      local
      (upload_snapshot memory root 0 local with_live)
upload_snapshot-IsRecoverable_example =
    upload_snapshot-IsRecoverable memory root (memory-IsLawful root) 0 local (file (1 ∷ 2 ∷ []))
      with_live (node-memory root with_live live_snapshot_path ∙ live_is_there)
