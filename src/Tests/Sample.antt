-- ===== src/Tests/Sample.antt =====
-- Data for the tests: a calendar of seconds, peers, entries and rows.
use kitchensync.Base.{
  ℕ, ◌+◌, ◌*◌, ◌/◌, ◌%◌, ◌-◌, ◌<◌, ◌≤◌, ◌≡◌, refl, ap, codes, Text, Bool, true, false, Option, some,
  ◌++◌, length, pos, negsuc, decimal, six_digits, decimal-six_digits, arith,
}
use kitchensync.Format.Time.{Chrono}
use kitchensync.Format.Time.Laws.{IsLawful}
use kitchensync.Transport.Types.{PeerDirectoryEntry}
use kitchensync.Snapshot.Types.{SnapshotDatabaseRow}
use kitchensync.Traversal.Types.{EntryEvidence, SyncTraversalPeer, SyncTraversalPeerRole}

-- Thirteen zeros and the seconds as six digits, in place of the date and the time of day.
unfoldable pub seconds_only : Chrono
unfolding decimal six_digits
seconds_only = record {
  parse_from_str = λ s. some (decimal 0 s * 1000000000);
  format = λ t. codes "0000000000000" ++ six_digits (t / 1000000000);
  checked_add_signed = λ t micros. some (t + micros * 1000);
}

zeros : (s : Text) → decimal 0 (codes "0000000000000" ++ s) ≡ decimal 0 s
unfolding decimal
zeros s = refl

parse-format :
    (t : ℕ)
    → 0 ≤ t
    → t < 1000000000000000
    → seconds_only.parse_from_str (seconds_only.format t) ≡ some (t - t % 1000000000)
unfolding seconds_only
parse-format t low high =
    rw (zeros (six_digits (t / 1000000000)), decimal-six_digits (t / 1000000000) (omega arith))
      (ap some (omega arith))

same_second :
    (t u : ℕ) → t / 1000000000 ≡ u / 1000000000 → seconds_only.format t ≡ seconds_only.format u
unfolding seconds_only
same_second t u h = rw h refl

length-format : (t : ℕ) → length (seconds_only.format t) ≡ 19
unfolding seconds_only six_digits
length-format t = refl

checked_add_signed_lem :
    (t micros : ℕ) → seconds_only.checked_add_signed t micros ≡ some (t + micros * 1000)
unfolding seconds_only
checked_add_signed_lem t micros = refl

pub seconds_only-IsLawful : IsLawful seconds_only
seconds_only-IsLawful = record {
  year_0 = 0;
  year_10000 = 1000000000000000;
  length-format = λ t low high. length-format t;
  parse_from_str-format = parse-format;
  format-second = same_second;
  checked_add_signed_lem = λ t micros h. checked_add_signed_lem t micros;
}

pub year_0-le : (v : ℕ) → seconds_only-IsLawful.year_0 ≤ v
unfolding seconds_only-IsLawful
year_0-le v = omega arith

pub lt-year_10000 : (v : ℕ) → v < 1000000000000000 → v < seconds_only-IsLawful.year_10000
unfolding seconds_only-IsLawful
lt-year_10000 v h = h

abbrev pub second : ℕ
second = 1000000000

abbrev pub peer_at : ℕ → SyncTraversalPeerRole → Bool → SyncTraversalPeer
peer_at i role history = record {
  peer_index = i;
  peer_url = codes "file:///peer";
  role = role;
  had_snapshot_history = history;
  root = record { handle = codes "/peer" };
  snapshot_database = record { peer_index = i; local_snapshot_path = codes "/tmp/snapshot.db" };
}

abbrev pub plain_file : ℕ → ℕ → PeerDirectoryEntry
plain_file time size = record {
  child_name = codes "a.txt";
  is_dir = false;
  mod_time = time;
  byte_size = pos size;
}

abbrev pub folder : PeerDirectoryEntry
folder = record { child_name = codes "a.txt"; is_dir = true; mod_time = 0; byte_size = negsuc 0 }

abbrev pub item :
    SyncTraversalPeer → Option PeerDirectoryEntry → Option SnapshotDatabaseRow → EntryEvidence
item peer live row = record { peer = record { peer = peer }; live = live; row = row }

abbrev pub row_seen : Text → Option Text → Option Text → Option Text → SnapshotDatabaseRow
row_seen id parent seen deleted = record {
  id = id;
  parent_id = parent;
  basename = codes "a.txt";
  mod_time = codes "m";
  byte_size = pos 3;
  last_seen = seen;
  deleted_time = deleted;
}
