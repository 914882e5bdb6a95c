-- ===== src/Traversal/Walk/Names.antt =====
-- What holds of the names that are listed holds of the names that are processed.
use kitchensync.Base.{
  ℕ, zero, suc, ◌<◌, ◌≡◌, inl, inr, refl, Text, text_eq, Bool, ◌||◌, Option, some, List, [], ◌∷◌,
  ◌++◌, All, Result, ok, err, Returns, Bool-cases,
}
use kitchensync.Transport.Types.{
  ConnectedPeerRoot, PeerDirectoryEntry, PeerTransportError, io_error,
}
use kitchensync.Copy.Types.{CopyStagingSwapRecoveryStatus, recovered, skipped_dry_run, failed}
use kitchensync.Traversal.Types.{ActivePeer, ListedDirectory}
use kitchensync.Traversal.Decide.{is_canon}
use kitchensync.Traversal.Services.{Services}
use kitchensync.Traversal.Listing.{
  transport_path, join_path, put_entry, put_entries, list_attempts, list_dir_for_peer, attempts_of,
  directory_request, listing_failed, list_peers, insert_name, name_lt, Run,
}

-- The names of entries, and the names by which they are found
abbrev pub AreNamed : (Text → Type 0) → List (Text × PeerDirectoryEntry) → Type 0
AreNamed P entries = All (λ (name, entry). P name × P entry.child_name) entries

module _ (P : Text → Type 0) where
  put_entry-AreNamed :
      (entry : PeerDirectoryEntry) (entries : List (Text × PeerDirectoryEntry))
      → P entry.child_name
      → AreNamed P entries
      → AreNamed P (put_entry entry entries)
  put_entry-AreNamed entry [] p h = ((p, p), tt)
  put_entry-AreNamed entry ((name, old) ∷ entries) p ((a, b), h) =
      elim (Bool-cases (text_eq name entry.child_name)) [
        | inl e ↦ rw e ((a, p), h)
        | inr e ↦ rw e ((a, b), put_entry-AreNamed entry entries p h)
      ]

  put_entries-AreNamed :
      (entries : List PeerDirectoryEntry) (onto : List (Text × PeerDirectoryEntry))
      → All (λ entry. P entry.child_name) entries
      → AreNamed P onto
      → AreNamed P (put_entries entries onto)
  put_entries-AreNamed [] onto p h = h
  put_entries-AreNamed (entry ∷ entries) onto (p, ps) h =
      put_entries-AreNamed entries (put_entry entry onto) ps (put_entry-AreNamed entry onto p h)

  abbrev pub AreListed : List ListedDirectory → Type 0
  AreListed listings = All (λ listing. AreNamed P listing.entries) listings

  abbrev pub AreKeys : List (Text × Text) → Type 0
  AreKeys names = All (λ (_, name). P name) names

  pub insert_name-AreKeys :
      (key : Text × Text) (names : List (Text × Text))
      → P key.1
      → AreKeys names
      → AreKeys (insert_name key names)
  insert_name-AreKeys key [] p h = (p, tt)
  insert_name-AreKeys key (first ∷ names) p (q, h) = elim (Bool-cases (name_lt key first)) [
    | inl e ↦ rw e (p, (q, h))
    | inr e ↦ elim (Bool-cases (name_lt first key)) [
      | inl f ↦ rw (e, f) (q, insert_name-AreKeys key names p h)
      | inr f ↦ rw (e, f) (q, h)
    ]
  ]

module _ (X : Services) (level : Option Text → ℕ)
    (deeper : (root : ConnectedPeerRoot) (path : Option Text) (s : X.State)
        (entries : List PeerDirectoryEntry)
      → (X.list_dir root (transport_path path) s).0 ≡ ok entries
      → All (λ entry. level (some (join_path path entry.child_name)) < level path) entries) where
  abbrev pub IsDeeper : Option Text → Text → Type 0
  IsDeeper path name = level (some (join_path path name)) < level path

  abbrev pub Deepens : Option Text → List PeerDirectoryEntry → Type 0
  Deepens path entries = All (λ entry. IsDeeper path entry.child_name) entries

  list_attempts-Deepens :
      (n : ℕ) (root : ConnectedPeerRoot) (path : Option Text) (last_error : PeerTransportError)
      (s : X.State)
      → Returns (Deepens path) (list_attempts X n root (transport_path path) last_error s).0
  unfolding list_attempts
  list_attempts-Deepens zero root path last_error s = tt
  list_attempts-Deepens (suc n) root path last_error s =
      go (X.list_dir root (transport_path path) s).0 refl (λ failure.
        list_attempts-Deepens n root path failure (X.list_dir root (transport_path path) s).1)
    where
      go :
          (answer : Result (List PeerDirectoryEntry) PeerTransportError)
          → (X.list_dir root (transport_path path) s).0 ≡ answer
          → ((failure : PeerTransportError)
              → Returns
                  (Deepens path)
                  (list_attempts X n root
                    (transport_path path)
                    failure
                    (X.list_dir root (transport_path path) s).1).0)
          → Returns
              (Deepens path)
              (elim answer as (λ _. Result (List PeerDirectoryEntry) PeerTransportError × X.State) [
                | ok entries ↦ (ok entries, (X.list_dir root (transport_path path) s).1)
                | err failure ↦
                    list_attempts X n root
                      (transport_path path)
                      failure
                      (X.list_dir root (transport_path path) s).1
              ]).0
      go (ok entries) e rest = deeper root path s entries e
      go (err failure) e rest = rest failure

  list_dir_for_peer-Deepens :
      (active : ActivePeer) (path : Option Text) (retries : ℕ) (s : X.State)
      → Returns (Deepens path) (list_dir_for_peer X active path retries s).0
  unfolding list_dir_for_peer
  list_dir_for_peer-Deepens active path retries s =
      go (X.recover_user_swap (directory_request X active.peer path) s).0
    where
      go :
          (recovery : CopyStagingSwapRecoveryStatus)
          → Returns
              (Deepens path)
              (elim recovery
                as (λ _. Result (List PeerDirectoryEntry) PeerTransportError × X.State) [
                  | failed ↦ (
                    err io_error,
                    (X.recover_user_swap (directory_request X active.peer path) s).1,
                  )
                  | recovered ↦
                      list_attempts X
                        (attempts_of X retries)
                        active.peer.root
                        (transport_path path)
                        io_error
                        (X.recover_user_swap (directory_request X active.peer path) s).1
                  | skipped_dry_run ↦
                      list_attempts X
                        (attempts_of X retries)
                        active.peer.root
                        (transport_path path)
                        io_error
                        (X.recover_user_swap (directory_request X active.peer path) s).1
                ]).0
      go failed = tt
      go recovered = list_attempts-Deepens _ _ path _ _
      go skipped_dry_run = list_attempts-Deepens _ _ path _ _

  pub list_peers-AreListed :
      (peers : List ActivePeer) (path : Option Text) (retries : ℕ) (run : Run X)
      → AreListed (IsDeeper path) (list_peers X peers path retries run).0
  unfolding list_peers
  list_peers-AreListed [] path retries run = tt
  list_peers-AreListed (active ∷ peers) path retries (s, diagnostics) =
      go (list_dir_for_peer X active path retries s).0
        (list_dir_for_peer-Deepens active path retries s) (list_peers-AreListed peers path retries)
    where
      go :
          (result : Result (List PeerDirectoryEntry) PeerTransportError)
          → Returns (Deepens path) result
          → ((run : Run X) → AreListed (IsDeeper path) (list_peers X peers path retries run).0)
          → AreListed
              (IsDeeper path)
              (elim result as (λ _. List ListedDirectory × Bool × Run X) [
                | ok entries ↦ (
                  record { peer_index = active.peer.peer_index; entries = put_entries entries [] }
                      ∷ (list_peers X peers path retries
                          ((list_dir_for_peer X active path retries s).1, diagnostics)).0,
                  (list_peers X peers path retries
                      ((list_dir_for_peer X active path retries s).1, diagnostics)).1,
                  (list_peers X peers path retries
                      ((list_dir_for_peer X active path retries s).1, diagnostics)).2,
                )
                | err failure ↦
                    let (listed, canon_failed, run) = list_peers X peers path retries (
                      (list_dir_for_peer X active path retries s).1,
                      diagnostics ++ (listing_failed X active path failure ∷ []),
                    ) in
                    (listed, is_canon active.peer || canon_failed, run)
              ]).0
      go (ok entries) h rest = (put_entries-AreNamed (IsDeeper path) entries [] h tt, rest _)
      go (err failure) h rest = rest _
