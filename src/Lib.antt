-- ===== src/Lib.antt =====
-- kitchensync keeps several directory trees, on local disks and over SFTP, in step. For each
-- name it decides, from the live entries of the peers and from what each peer's snapshot
-- database remembers of earlier runs, what the trees should hold, and then copies or displaces.
-- This library models the program from its command line to its exit: the arguments, the start of
-- a run, the walk over the trees with its decisions, the snapshot rows, and the staged changes
-- on the peers that must survive being broken off.
--
-- How the parts interact: main.rs hands the arguments to CommandLine, the accepted peers to
-- PeerConnections, the peers that are reached to SyncTraversal, and uploads the snapshots at the
-- end. SyncTraversal lists the peers, takes the decisions, formats and compares times by
-- FormatRules, reads and writes rows through SnapshotDatabase, and has CopyStaging copy files
-- and displace entries. SnapshotDatabase and CopyStaging reach the peers through
-- PeerTransportSurface alone.
--
-- Files, and the code each is about (paths from the root of the repository):
--
--   - Base: shared names, lists, results, integers, texts as lists of bytes, decimal numerals.
--   - CommandLine: proj/subpjx/CommandLine. CommandLine/Types is api.rs; CommandLine/Urls has
--     parse_peer and the validation of URLs, CommandLine/Options the values of options,
--     CommandLine/Parse parse_run and parse, CommandLine/Screens what is printed;
--     CommandLine/Alternatives and CommandLine/Limits are about what is accepted.
--   - Connections: proj/subpjx/PeerConnections. Connections/Arguments reads the peer arguments,
--     Connections/Connect has connect_peer, ensure_local_root and prepare_snapshots,
--     Connections/Start start with its checks; Connections/Ready and Connections/Candidates are
--     about their results.
--   - Program: proj/src/main.rs. Program/Main has main and run_sync over the operations of the
--     components; Program/Arguments and Program/Success are about the way of the peers through
--     it and about its exit.
--   - Format: proj/subpjx/FormatRules. Format/Types is api.rs; Format/Time the timestamps and
--     tolerances of imp.rs (parse_timestamp_text, format_datetime, current_timestamp and the
--     comparisons); Format/Paths the validation of paths, the identifiers of paths, and the
--     places of BAK, TMP and SWAP data; Format/Identity the identities of peer URLs
--     (normalize_peer_identity_request and what it calls).
--   - Transport: proj/subpjx/PeerTransportSurface. Transport/Surface is the trait as an
--     interface over a state, with the documented effects of its operations as laws;
--     Transport/Memory is a peer in memory that fulfils them, where every change fails after a
--     given number of changes; Transport/Action is the sequence of steps that may fail, as the
--     operator ? makes it.
--   - Copy: proj/subpjx/CopyStaging. Copy/Paths has the paths, Copy/Swap recover_named_swap and
--     recover_user_swap, Copy/Attempt copy_attempt and dry_run_read_source, Copy/Displacement
--     displace_to_bak, Copy/Tries copy_file, Copy/Cleanup cleanup_metadata, Copy/Slots the copy
--     slots with the runs of the threads that take them; Copy/Places is about how the places of
--     a copy lie to each other.
--   - Snapshot: proj/subpjx/SnapshotDatabase. Snapshot/Rows has the operations on rows, each SQL
--     statement by its meaning on the table; Snapshot/Cascade the displacement and the cleanup;
--     Snapshot/Swap the upload of a snapshot and the recovery of one that was broken off;
--     Snapshot/Prepare the preparation of a snapshot for a run, with its download or its
--     creation.
--   - Traversal: proj/subpjx/SyncTraversal. Traversal/Decide has decide_outcome,
--     decide_file_outcome and decide_directory_outcome of imp.rs, Traversal/Listing the listing
--     of a level on its peers, Traversal/Apply the three apply operations and displace,
--     Traversal/Walk traverse_directory, collect_live_file_times and traverse;
--     Traversal/Services is what they call of the other components.
--   - Tests: concrete data, and each result at a concrete input.
--
-- The state of a peer is the state of the transport interface; operations take it and return it
-- with their answer, so that an operation that fails on the way leaves the state it had reached.
-- Instants are nanoseconds since the earliest instant that the calendar represents. The calls of
-- the crate chrono, the hash of path identifiers, the local file of an upload, the text of
-- specs/help.md and the calls of the standard library on the machine are parameters; what is
-- used of chrono is in the record IsLawful of Format/Time/Laws. Panics of expect are outside the
-- model, but for the help screen.
--
-- Fuel: the recursive query of a displacement runs on fuel, since it need not end on rows that
-- are their own ancestors; fuel above the depth of the rows is enough. The loop over the source
-- of a copy runs on fuel, since a source may never end; without enough, which is less than the
-- chunks that the source gives, an attempt stops with out_of_fuel; a cleanup runs on fuel for
-- the depth of what it removes. The walk over the tree and the search for the times of live
-- files run on fuel for the depth of the tree, since a peer may list a tree that never ends;
-- fuel above the levels of a tree that ends is enough, which Traversal/Walk/Depth shows.
--
-- Not modelled: the dry run mode and the two transports. Apart from the copy slots, threads run
-- one after the other. Test servers, scripts and documents are not part of the program.
pub mod Base
pub mod Format
pub mod CommandLine
pub mod Connections
pub mod Transport
pub mod Copy
pub mod Program
pub mod Snapshot
pub mod Traversal
mod Tests
