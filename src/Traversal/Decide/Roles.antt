-- ===== src/Traversal/Decide/Roles.antt =====
-- Whose entries a decision depends on: the canon peer's alone, or the contributing peers'.
use kitchensync.Base.{
  length, ltb, is_empty, not, ◌&&◌, false, ◌∙◌, ◌≡◌, refl, ap, Text, Bool, true, false, Bool-cases,
  Option, none, some, List, [], ◌∷◌, map, any, inl, inr, filter, find, arith, if◌then◌else◌,
  eq_ℤ_iff,
}
use kitchensync.Format.Types.{FormatRulesTimestamp}
use kitchensync.Format.Time.{
  Chrono, format_timestamp, max_by_system_time, peer_mod_time_tied_with_max,
}
use kitchensync.Format.Time.Tolerance.{tied_lem}
use kitchensync.Transport.Types.{PeerDirectoryEntry}
use kitchensync.Traversal.Types.{
  ActivePeer, EntryEvidence, FileVersion, file, directory, absence, SyncTraversalPeer,
}
use kitchensync.Traversal.Decide.{
  is_canon, is_contributing, contributes, has_live_dir, has_live_file, decide_file_outcome,
  is_row_absence, decide_by_votes, decide_outcome, decide_directory_outcome, decide_by_canon,
  decide_by_estimate, after_walk, decide_with, tied_sources, live_version,
}

abbrev is_canon_item : EntryEvidence → Bool
is_canon_item item = is_canon item.peer.peer

canon-contributes : (p : SyncTraversalPeer) → is_canon p ≡ true → is_contributing p ≡ true
unfolding is_canon is_contributing
canon-contributes p h = rw h

find-canon :
    (evidence : List EntryEvidence)
    → find is_canon_item evidence ≡ find is_canon_item (filter contributes evidence)
find-canon [] = refl
find-canon (item ∷ items) = ground (arith, find-canon items, canon-contributes item.peer.peer)

abbrev pub live_dir_peers : List EntryEvidence → List ActivePeer
live_dir_peers evidence = map (λ item. item.peer) (filter has_live_dir evidence)

-- A directory, no file, and a row of a directory that is not there
abbrev pub is_walked : List EntryEvidence → Bool
is_walked contributing =
    not (any has_live_file contributing)
    && any has_live_dir contributing
    && any is_row_absence contributing

any-length :
    (p : EntryEvidence → Bool) (items : List EntryEvidence)
    → any p items ≡ true
    → ltb 0 (length (filter p items)) ≡ true
any-length p [] h = absurd (cc h)
any-length p (item ∷ items) h = ground (arith, h, any-length p items)

any-is_empty :
    (p : EntryEvidence → Bool) (items : List EntryEvidence)
    → any p items ≡ false
    → is_empty (filter p items) ≡ true
any-is_empty p [] h = refl
any-is_empty p (item ∷ items) h = ground (arith, h, any-is_empty p items)

module _ (chrono : Chrono) {S : Type 0}
    (collect : Text → List ActivePeer → S → Option (Option (List FormatRulesTimestamp) × S)) where
  decide_by_estimate-same :
      (path : Text) (e f : List EntryEvidence) (estimate : Option FormatRulesTimestamp) (s : S)
      → live_dir_peers e ≡ live_dir_peers f
      → decide_by_estimate chrono collect path e estimate s
        ≡ decide_by_estimate chrono collect path f estimate s
  unfolding decide_by_estimate
  decide_by_estimate-same path e f none s h = refl
  decide_by_estimate-same path e f (some t) s h =
      ap (λ ps. after_walk chrono collect t (collect path ps s)) h

  decide_directory_outcome-same :
      (path : Text) (e f contributing : List EntryEvidence) (s : S)
      → any has_live_dir contributing ≡ true
      → (any is_row_absence contributing ≡ true → live_dir_peers e ≡ live_dir_peers f)
      → decide_directory_outcome chrono collect path e contributing s
        ≡ decide_directory_outcome chrono collect path f contributing s
  unfolding decide_directory_outcome
  decide_directory_outcome-same path e f contributing s dir h =
      elim (Bool-cases (any is_row_absence contributing)) [
        | inl gone ↦ rw (decide_by_estimate-same path e f _ s (h gone))
        | inr none_gone ↦
            rw (any-length has_live_dir contributing dir)
              (rw (any-is_empty is_row_absence contributing none_gone))
      ]

  decide_by_votes-same :
      (path : Text) (e f contributing : List EntryEvidence) (s : S)
      → (is_walked contributing ≡ true → live_dir_peers e ≡ live_dir_peers f)
      → decide_by_votes chrono collect path e contributing s
        ≡ decide_by_votes chrono collect path f contributing s
  unfolding decide_by_votes
  decide_by_votes-same path e f contributing s h =
      elim (Bool-cases (any has_live_file contributing)) [
        | inl has_file ↦ elim (Bool-cases (any has_live_dir contributing)) [
          | inl dir ↦ rw (has_file, dir)
          | inr no_dir ↦ rw (has_file, no_dir)
        ]
        | inr no_file ↦ elim (Bool-cases (any has_live_dir contributing)) [
          | inl dir ↦
              rw (no_file, dir)
                (decide_directory_outcome-same path e f contributing s dir
                  λ gone. h (ground (arith, no_file, dir, gone)))
          | inr no_dir ↦ rw (no_file, no_dir)
        ]
      ]

  decide_with-same :
      (path : Text) (e f contributing : List EntryEvidence) (canon : Option EntryEvidence) (s : S)
      → (canon ≡ none → is_walked contributing ≡ true → live_dir_peers e ≡ live_dir_peers f)
      → decide_with chrono collect path e contributing canon s
        ≡ decide_with chrono collect path f contributing canon s
  decide_with-same path e f contributing none s h =
      decide_by_votes-same path e f contributing s (h refl)
  decide_with-same path e f contributing (some item) s h = refl

  -- Peers that do not contribute have a say in one case at most: there is no canon peer, a
  -- contributing peer has a directory at the name, none has a file there, and one has nothing there
  -- but a row of a directory. Two sets of evidence with the same contributing items have the same
  -- outcome, if in that case the same peers have a live directory at the name.
  pub decide_outcome-contributing :
      (path : Text) (e f : List EntryEvidence) (s : S)
      → filter contributes e ≡ filter contributes f
      → (find is_canon_item f ≡ none
          → is_walked (filter contributes f) ≡ true
          → live_dir_peers e ≡ live_dir_peers f)
      → decide_outcome chrono collect path e s ≡ decide_outcome chrono collect path f s
  unfolding decide_outcome
  decide_outcome-contributing path e f s same dirs =
      rw (find-canon e, find-canon f, same)
        (decide_with-same path e f (filter contributes f)
          (find is_canon_item (filter contributes f)) s λ no_canon. dirs (find-canon f ∙ no_canon))

  abbrev version_of : EntryEvidence → PeerDirectoryEntry → FileVersion
  version_of item entry = record {
    peer = item.peer;
    entry = entry;
    mod_timestamp = format_timestamp chrono entry.mod_time;
  }

  tied_sources_alone : (v : FileVersion) → tied_sources chrono v.mod_timestamp (v ∷ []) ≡ v ∷ []
  unfolding tied_sources
  tied_sources_alone v =
      let near : peer_mod_time_tied_with_max chrono v.mod_timestamp v.mod_timestamp ≡ true =
        ground (arith, tied_lem chrono v.mod_timestamp v.mod_timestamp) in
      rw near (rw ((eq_ℤ_iff v.entry.byte_size v.entry.byte_size).1 refl))

  decide_file_outcome_alone :
      (item : EntryEvidence) (entry : PeerDirectoryEntry)
      → item.live ≡ some entry
      → entry.is_dir ≡ false
      → decide_file_outcome chrono (item ∷ []) ≡ file (version_of item entry ∷ [])
  unfolding decide_file_outcome max_by_system_time
  decide_file_outcome_alone item entry live plain =
      rw (live, live_version) (rw (plain, live_version) (rw (tied_sources_alone _)))

  canon_live :
      (item : EntryEvidence) (entry : PeerDirectoryEntry)
      → item.live ≡ some entry
      → decide_by_canon chrono collect item
        ≡ (if entry.is_dir then directory else file (version_of item entry ∷ []))
  unfolding decide_by_canon
  canon_live item entry live = elim (Bool-cases entry.is_dir) [
    | inl dir ↦ ground (arith, live, dir)
    | inr plain ↦ ground (arith, live, plain, decide_file_outcome_alone item entry live plain)
  ]

  -- With a canon peer, its entry is the outcome whatever the other peers have: its file with itself
  -- as the only source, its directory, or the absence of both.
  pub decide_outcome_canon :
      (path : Text) (evidence : List EntryEvidence) (item : EntryEvidence) (s : S)
      → find is_canon_item evidence ≡ some item
      → ((entry : PeerDirectoryEntry)
          → item.live ≡ some entry
          → decide_outcome chrono collect path evidence s
            ≡ some (if entry.is_dir then directory else file (version_of item entry ∷ []), s))
        × (item.live ≡ none → decide_outcome chrono collect path evidence s ≡ some (absence, s))
  unfolding decide_outcome
  decide_outcome_canon path evidence item s found = (
    λ entry live. rw found (ap (λ o. some (o, s)) (canon_live item entry live)),
    λ dead. rw (found, decide_outcome) (rw (dead, decide_by_canon)),
  )
