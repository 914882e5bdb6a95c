-- ===== src/Traversal/Walk/Depth.antt =====
-- How much fuel the walk of proj/subpjx/SyncTraversal/src/imp.rs needs.
use kitchensync.Base.{
  All-++, All-map, ℕ, zero, suc, ◌<◌, ◌≡◌, inl, inr, refl, Text, Option, none, some, List, [], ◌∷◌,
  ◌++◌, All, any, filter, ok, Bool-cases, arith,
}
use kitchensync.Format.Types.{FormatRulesTimestamp}
use kitchensync.Transport.Types.{ConnectedPeerRoot, PeerDirectoryEntry}
use kitchensync.Snapshot.Types.{SnapshotDatabaseEntryIdentity}
use kitchensync.Traversal.Types.{
  ActivePeer, ListedDirectory, EntryEvidence, Outcome, file, directory, absence, skip_subtree,
  SyncTraversalRequest, SyncTraversalResult,
}
use kitchensync.Traversal.Decide.{is_contributing, decide_outcome}
use kitchensync.Traversal.Services.{Services}
use kitchensync.Traversal.Listing.{
  transport_path, join_path, is_listed, list_peers, list_level, names_of, names_onto, names_from,
  gather_evidence, Run, entry_identity,
}
use kitchensync.Traversal.Apply.{apply_directory_outcome}
use kitchensync.Traversal.Walk.{
  is_builtin, subdirs_in, subdirs_of, Times, collect_subdirs, collect_level,
  collect_live_file_times, Level, recurse_into, apply_outcome, is_hidden, decide_and_apply,
  process_name, process_names, traverse_children, finish_level, traverse_level, traverse_directory,
  result_of, traverse, times_of,
}
use kitchensync.Traversal.Walk.Total.{HasValue, decide_outcome-HasValue}
use kitchensync.Traversal.Walk.Names.{
  AreNamed, AreListed, AreKeys, insert_name-AreKeys, IsDeeper, list_peers-AreListed,
}

module _ (X : Services) (P : Text → Type 0) where
  names_onto-AreKeys :
      (entries : List (Text × PeerDirectoryEntry)) (names : List (Text × Text))
      → AreNamed P entries
      → AreKeys P names
      → AreKeys P (names_onto X entries names)
  names_onto-AreKeys [] names h keys = keys
  names_onto-AreKeys ((name, entry) ∷ entries) names ((p, _), h) keys =
      names_onto-AreKeys entries _ h
        (insert_name-AreKeys P (X.to_lowercase name, name) names p keys)

  names_from-AreKeys :
      (listings : List ListedDirectory) (names : List (Text × Text))
      → AreListed P listings
      → AreKeys P names
      → AreKeys P (names_from X listings names)
  names_from-AreKeys [] names h keys = keys
  names_from-AreKeys (listing ∷ listings) names (h, hs) keys =
      names_from-AreKeys listings _ hs (names_onto-AreKeys listing.entries names h keys)

  names_of-AreKeys :
      (listings : List ListedDirectory) → AreListed P listings → AreKeys P (names_of X listings)
  unfolding names_of
  names_of-AreKeys listings h = names_from-AreKeys listings [] h tt

module _ (P : Text → Type 0) where
  subdirs_in-All :
      (path : Text) (entries : List (Text × PeerDirectoryEntry))
      → AreNamed (λ name. P (join_path (some path) name)) entries
      → All P (subdirs_in path entries)
  subdirs_in-All path [] h = tt
  subdirs_in-All path ((name, entry) ∷ entries) ((_, p), h) =
      elim (Bool-cases (is_builtin entry.child_name)) [
        | inl e ↦ rw e (subdirs_in-All path entries h)
        | inr e ↦ elim (Bool-cases entry.is_dir) [
          | inl f ↦ rw (e, f) (p, subdirs_in-All path entries h)
          | inr f ↦ rw (e, f) (subdirs_in-All path entries h)
        ]
      ]

  subdirs_of-All :
      (path : Text) (listings : List ListedDirectory)
      → AreListed (λ name. P (join_path (some path) name)) listings
      → All P (subdirs_of path listings)
  subdirs_of-All path [] h = tt
  subdirs_of-All path (listing ∷ listings) (h, hs) =
      All-++ P (subdirs_in path listing.entries) (subdirs_of path listings)
        (subdirs_in-All path listing.entries h) (subdirs_of-All path listings hs)

module _ (X : Services) where
  collect_subdirs-HasValue :
      (walk : Text → List ActivePeer → Run X → Times X) (active_peers : List ActivePeer)
      (listings : List ListedDirectory) (subdirs : List Text) (times : List FormatRulesTimestamp)
      (run : Run X)
      → All
          (λ subdir. (peers : List ActivePeer) (run : Run X) → HasValue (walk subdir peers run))
          subdirs
      → HasValue (collect_subdirs X walk active_peers listings subdirs times run)
  collect_subdirs-HasValue walk active_peers listings [] times run h = tt
  collect_subdirs-HasValue walk active_peers listings (subdir ∷ subdirs) times run (h, hs) =
      go (walk subdir _ run) (h _ run)
        (λ times run. collect_subdirs-HasValue walk active_peers listings subdirs times run hs)
    where
      go :
          (found : Times X)
          → HasValue found
          → ((times : List FormatRulesTimestamp) (run : Run X)
              → HasValue (collect_subdirs X walk active_peers listings subdirs times run))
          → HasValue (elim found as (λ _. Times X) [
            | none ↦ none
            | some (none, after) ↦ some (none, after)
            | some (some more, after) ↦
                collect_subdirs X walk active_peers listings subdirs (times ++ more) after
          ])
      go none h rest = h
      go (some (none, after)) h rest = tt
      go (some (some more, after)) h rest = rest (times ++ more) after

  traverse_children-HasValue :
      (walk : List ActivePeer → Option Text → Run X → Option (Run X))
      (children : List (Text × List ActivePeer)) (run : Run X)
      → All (λ (path, peers). (run : Run X) → HasValue (walk peers (some path) run)) children
      → HasValue (traverse_children X walk children run)
  traverse_children-HasValue walk [] run h = tt
  traverse_children-HasValue walk ((path, peers) ∷ children) run (h, hs) =
      go (walk peers (some path) run) (h run)
        (λ run. traverse_children-HasValue walk children run hs)
    where
      go :
          (found : Option (Run X))
          → HasValue found
          → ((run : Run X) → HasValue (traverse_children X walk children run))
          → HasValue (elim found as (λ _. Option (Run X)) [
            | none ↦ none
            | some after ↦ traverse_children X walk children after
          ])
      go none h rest = h
      go (some after) h rest = rest after

AreListed-map :
    (P Q : Text → Type 0) (listings : List ListedDirectory)
    → ((name : Text) → P name → Q name)
    → AreListed P listings
    → AreListed Q listings
AreListed-map P Q listings f h =
    All-map (λ listing. AreNamed P listing.entries) (λ listing. AreNamed Q listing.entries) listings
      (λ listing named.
        All-map (λ (name, entry). P name × P entry.child_name)
          (λ (name, entry). Q name × Q entry.child_name) listing.entries
          (λ (name, entry) (p, q). (f name p, f entry.child_name q)) named)
      h

-- A loop or a call has a result, and what is left to recurse into lies at such paths.
abbrev AreChildren : (Text → Type 0) → List (Text × List ActivePeer) → Type 0
AreChildren P children = All (λ (path, peers). P path) children

abbrev HasChildren :
    {S : Type 0} → (Text → Type 0) → Option (List (Text × List ActivePeer) × S) → Type 0
HasChildren P none = ⊥
HasChildren P (some (children, run)) = AreChildren P children

module _ (X : Services) where
  apply_outcome-AreChildren :
      (P : Text → Type 0) (path : Text) (identity : SnapshotDatabaseEntryIdentity)
      (evidence : List EntryEvidence) (outcome : Outcome) (run : Run X)
      → P path
      → AreChildren P (apply_outcome X path identity evidence outcome run).0
  unfolding apply_outcome
  apply_outcome-AreChildren P path identity evidence (file sources) run p = tt
  apply_outcome-AreChildren P path identity evidence absence run p = tt
  apply_outcome-AreChildren P path identity evidence skip_subtree run p = tt
  apply_outcome-AreChildren P path identity evidence directory (s, diagnostics) p =
      go (apply_directory_outcome X path identity evidence s).0
    where
      go : (peers : List ActivePeer) → AreChildren P (recurse_into X path peers)
      go [] = tt
      go (active ∷ peers) = (p, tt)

  module _ (walk : Text → List ActivePeer → Run X → Times X) (active_peers : List ActivePeer)
      (listings : List ListedDirectory) (excludes : List Text) (path : Option Text)
      (P : Text → Type 0) where
    -- The search for times ends below the name, and the name may be recursed into.
    abbrev Ends : Text → Type 0
    Ends name =
        ((peers : List ActivePeer) (run : Run X) → HasValue (walk (join_path path name) peers run))
        × P (join_path path name)

    decide_and_apply-HasChildren :
        (name : Text) (identity : SnapshotDatabaseEntryIdentity) (evidence : List EntryEvidence)
        (run : Run X)
        → Ends name
        → HasChildren P (
            decide_and_apply X walk active_peers listings excludes
              (join_path path name)
              identity
              evidence
              run)
    decide_and_apply-HasChildren name identity evidence run (total, p) =
        go (decide_outcome X.chrono walk (join_path path name) evidence run)
          (decide_outcome-HasValue X walk (join_path path name) total evidence run)
      where
        go :
            (decided : Option (Outcome × Run X))
            → HasValue decided
            → HasChildren P (elim decided as (λ _. Option (Level X)) [
              | none ↦ none
              | some (outcome, after) ↦
                  some (apply_outcome X (join_path path name) identity evidence outcome after)
            ])
        go none h = h
        go (some (outcome, after)) h =
            apply_outcome-AreChildren P (join_path path name) identity evidence outcome after p

    process_name-HasChildren :
        (name : Text) (run : Run X)
        → Ends name
        → HasChildren P (process_name X walk active_peers listings excludes path name run)
    unfolding process_name
    process_name-HasChildren name (s, diagnostics) ends =
        elim (Bool-cases (is_hidden X listings name (join_path path name) excludes)) [
          | inl e ↦ rw e tt
          | inr e ↦ rw e (go (entry_identity X (join_path path name)))
        ]
      where
        go :
            (found : Option SnapshotDatabaseEntryIdentity)
            → HasChildren P (elim found as (λ _. Option (Level X)) [
              | none ↦ some ([], (s, diagnostics))
              | some identity ↦
                  let (evidence, t) = gather_evidence X active_peers listings name identity.id s in
                  decide_and_apply X walk active_peers listings excludes
                    (join_path path name)
                    identity
                    evidence
                    (t, diagnostics)
            ])
        go none = tt
        go (some identity) = decide_and_apply-HasChildren name identity _ _ ends

    process_names-HasChildren :
        (names : List (Text × Text)) (recursion : List (Text × List ActivePeer)) (run : Run X)
        → AreKeys Ends names
        → AreChildren P recursion
        → HasChildren P
            (process_names X walk active_peers listings excludes path names recursion run)
    unfolding process_names
    process_names-HasChildren [] recursion run h k = k
    process_names-HasChildren ((lower, name) ∷ names) recursion run (ends, h) k =
        go (process_name X walk active_peers listings excludes path name run)
          (process_name-HasChildren name run ends)
          (λ recursion run k. process_names-HasChildren names recursion run h k)
      where
        go :
            (processed : Option (Level X))
            → HasChildren P processed
            → ((recursion : List (Text × List ActivePeer)) (run : Run X)
                → AreChildren P recursion
                → HasChildren P
                    (process_names X walk active_peers listings excludes path names recursion run))
            → HasChildren P (elim processed as (λ _. Option (Level X)) [
              | none ↦ none
              | some (children, after) ↦
                  process_names X walk active_peers listings excludes path names
                    (recursion ++ children)
                    after
            ])
        go none h rest = h
        go (some (children, after)) h rest =
            rest (recursion ++ children) after
              (All-++ (λ (path, peers). P path) recursion children k h)

module _ (X : Services) (level : Option Text → ℕ)
    (deeper : (root : ConnectedPeerRoot) (path : Option Text) (s : X.State)
        (entries : List PeerDirectoryEntry)
      → (X.list_dir root (transport_path path) s).0 ≡ ok entries
      → All (λ entry. level (some (join_path path entry.child_name)) < level path) entries) where
  abbrev WhenListed : Option Text → Option (List ListedDirectory) → Type 0
  WhenListed path none = Unit
  WhenListed path (some listings) = AreListed (IsDeeper X level deeper path) listings

  list_level-WhenListed :
      (peers : List ActivePeer) (path : Option Text) (retries : ℕ) (run : Run X)
      → WhenListed path (list_level X peers path retries run).0
  unfolding list_level
  list_level-WhenListed peers path retries run =
      elim (Bool-cases (list_peers X peers path retries run).1) [
        | inl e ↦ rw e tt
        | inr e ↦ rw e (list_peers-AreListed X level deeper peers path retries run)
      ]

  collect_live_file_times-HasValue :
      (fuel retries : ℕ) (path : Text) (peers : List ActivePeer) (run : Run X)
      → level (some path) < fuel
      → HasValue (collect_live_file_times X fuel retries path peers run)
  unfolding collect_live_file_times
  collect_live_file_times-HasValue zero retries path peers run h = absurd (omega (arith, h))
  collect_live_file_times-HasValue (suc fuel) retries path peers run h =
      go (list_level X peers (some path) retries run)
        (list_level-WhenListed peers (some path) retries run)
        (λ subdir. collect_live_file_times-HasValue fuel retries subdir)
    where
      go :
          (answer : Option (List ListedDirectory) × Run X)
          → WhenListed (some path) answer.0
          → ((subdir : Text) (peers : List ActivePeer) (run : Run X)
              → level (some subdir) < fuel
              → HasValue (collect_live_file_times X fuel retries subdir peers run))
          → HasValue (collect_level X (collect_live_file_times X fuel retries) path peers answer)
      go (none, after) listed rest = tt
      go (some listings, after) listed rest =
          collect_subdirs-HasValue X (collect_live_file_times X fuel retries) _ listings
            (subdirs_of path listings) (times_of X listings) after
            (subdirs_of-All
              (λ subdir.
                (peers : List ActivePeer) (run : Run X)
                → HasValue (collect_live_file_times X fuel retries subdir peers run))
              path listings
              (AreListed-map (IsDeeper X level deeper (some path)) _ listings
                (λ name d peers run. rest _ peers run (omega (arith, d, h))) listed))

  traverse_directory-HasValue :
      (fuel : ℕ) (excludes : List Text) (retries : ℕ) (peers : List ActivePeer) (path : Option Text)
      (run : Run X)
      → level path < fuel
      → HasValue (traverse_directory X fuel excludes retries peers path run)
  unfolding traverse_directory traverse_level
  traverse_directory-HasValue zero excludes retries peers path run h = absurd (omega (arith, h))
  traverse_directory-HasValue (suc fuel) excludes retries peers path run h =
      go (list_level X peers path retries run) (list_level-WhenListed peers path retries run)
        (λ child peers. traverse_directory-HasValue fuel excludes retries peers (some child))
    where
      finish :
          (active_peers : List ActivePeer) (processed : Option (Level X))
          → HasChildren (λ child. level (some child) < fuel) processed
          → ((child : Text) (peers : List ActivePeer) (run : Run X)
              → level (some child) < fuel
              → HasValue (traverse_directory X fuel excludes retries peers (some child) run))
          → HasValue (
              finish_level X
                (traverse_directory X fuel excludes retries)
                active_peers
                path
                processed)
      finish active_peers none k rest = k
      finish active_peers (some (recursion, (s, diagnostics))) k rest =
          traverse_children-HasValue X (traverse_directory X fuel excludes retries) recursion _ (
            All-map (λ (child, peers). level (some child) < fuel) _ recursion
              (λ (child, peers) d run. rest child peers run d) k)

      go :
          (answer : Option (List ListedDirectory) × Run X)
          → WhenListed path answer.0
          → ((child : Text) (peers : List ActivePeer) (run : Run X)
              → level (some child) < fuel
              → HasValue (traverse_directory X fuel excludes retries peers (some child) run))
          → HasValue (
              traverse_level X
                (traverse_directory X fuel excludes retries)
                (collect_live_file_times X fuel retries)
                excludes
                peers
                path
                answer)
      go (none, after) listed rest = tt
      go (some listings, after) listed rest =
          elim (Bool-cases
            (any (λ active. is_contributing active.peer) (filter (is_listed listings) peers))) [
              | inr e ↦ rw e tt
              | inl e ↦ rw e (
                  finish (filter (is_listed listings) peers) _
                    (process_names-HasChildren X (collect_live_file_times X fuel retries)
                      (filter (is_listed listings) peers) listings excludes path
                      (λ child. level (some child) < fuel) (names_of X listings) [] after
                      (names_of-AreKeys X _ listings (
                        AreListed-map (IsDeeper X level deeper path) _ listings
                          (λ name d. (
                            λ peers run.
                                collect_live_file_times-HasValue fuel retries _ peers run
                                  (omega (arith, d, h)),
                            omega (arith, d, h),
                          ))
                          listed))
                      tt)
                    rest)
            ]

  -- If every name that a directory lists leads down one level of a tree that ends, then fuel above
  -- the level of the root lets a traversal come to its end, whatever else the calls answer.
  pub traverse-ends :
      (fuel : ℕ) (request : SyncTraversalRequest) (s : X.State)
      → level none < fuel
      → (answer : SyncTraversalResult × X.State) × (traverse X fuel request s ≡ some answer)
  unfolding traverse
  traverse-ends fuel request s h =
      go (traverse_directory X fuel request.excludes request.retries_list _ none (s, []))
        (traverse_directory-HasValue fuel request.excludes request.retries_list _ none (s, []) h)
    where
      go :
          (found : Option (Run X))
          → HasValue found
          → (answer : SyncTraversalResult × X.State) × (result_of X found ≡ some answer)
      go none k = absurd k
      go (some (t, diagnostics)) k = ((record { diagnostics = diagnostics }, t), refl)
