-- ===== src/Tests/Snapshots.antt =====
-- The preparation of a snapshot on a peer in memory.
use kitchensync.Base.{ℕ, ◌≡◌, ◌≢◌, refl, codes, none, some, [], ◌∷◌, err, true, false, List}
use kitchensync.Transport.Types.{ConnectedPeerRoot}
use kitchensync.Transport.Surface.{file}
use kitchensync.Transport.Memory.{Disk, put, memory, memory-IsLawful}
use kitchensync.Snapshot.Types.{dry_run, SnapshotDatabasePrepareRequest}
use kitchensync.Snapshot.Swap.{live_snapshot_path}
use kitchensync.Snapshot.Prepare.{LocalFiles, out_of_fuel, download_chunks, prepare_peer_snapshot}
use kitchensync.Snapshot.Prepare.Fuel.{Ends}
use kitchensync.Snapshot.Prepare.History.{
  Tells, prepare_peer_snapshot-Tells, prepare_peer_snapshot-dry_run,
}

abbrev root : ConnectedPeerRoot
root = record { handle = codes "/peer" }

-- A machine on which everything goes well and nothing is there
abbrev machine : LocalFiles
machine = record {
  State = Unit;
  create_parent = λ l. (true, l);
  create_file = λ l. (true, l);
  write_all = λ more l. (true, l);
  exists = λ l. false;
  remove_file = λ l. (true, l);
  create_tables = λ l. (true, l);
}

abbrev request : SnapshotDatabasePrepareRequest
request = record {
  peer_index = 1;
  peer = root;
  local_snapshot_path = codes "/tmp/1.db";
  mode = dry_run;
}

abbrev with_live : Disk
with_live = record {
  at = put live_snapshot_path (some (file (1 ∷ 2 ∷ []))) (λ p. none);
  cursor = [];
  budget = 0;
}

-- The file in memory is read in one turn, and the next turn sees its end.
memory-Ends : Ends memory machine request 2
unfolding download_chunks
memory-Ends read (d, l) = go d.cursor
  where
    go :
        (rest : List ℕ)
        → (download_chunks memory machine root 2 read (record d { cursor = rest }, l)).0
          ≢ err out_of_fuel
    go [] e = cc e
    go (b ∷ more) e = cc e

prepare_peer_snapshot-Tells_example :
    Tells memory machine request
      (memory-IsLawful root)
      (prepare_peer_snapshot memory machine root request 2 (with_live, tt))
prepare_peer_snapshot-Tells_example =
    prepare_peer_snapshot-Tells memory machine request (memory-IsLawful root) 2 (with_live, tt)
      memory-Ends

prepare_peer_snapshot-dry_run_example :
    (memory-IsLawful root).node
      (prepare_peer_snapshot memory machine root request 2 (with_live, tt)).1.0
      live_snapshot_path
    ≡ (memory-IsLawful root).node with_live live_snapshot_path
prepare_peer_snapshot-dry_run_example =
    prepare_peer_snapshot-dry_run memory machine request (memory-IsLawful root) live_snapshot_path 2
      (with_live, tt) refl
