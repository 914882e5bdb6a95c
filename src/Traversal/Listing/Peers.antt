-- ===== src/Traversal/Listing/Peers.antt =====
-- Which peers a level of the tree is listed on.
use kitchensync.Base.{
  ◌⊎◌, or_right, ℕ, ◌≡◌, refl, sym, ◌∙◌, Text, Bool, true, false, ◌||◌, ◌&&◌, Option, none, some,
  List, [], ◌∷◌, ◌++◌, All, any, append_assoc, append-nil, Result, ok, err, ==_refl, if◌then◌else◌,
  arith, ◌==◌, Bool-cases, inl, inr,
}
use kitchensync.Transport.Types.{PeerDirectoryEntry, PeerTransportError}
use kitchensync.Traversal.Types.{
  ActivePeer, ListedDirectory, SyncTraversalDiagnostic, error, directory_listing_failed,
}
use kitchensync.Traversal.Decide.{is_canon}
use kitchensync.Traversal.Services.{Services}
use kitchensync.Traversal.Listing.{
  put_entries, Run, list_dir_for_peer, listing_failed, list_peers, list_level, is_listed,
}

-- Some diagnostic names the peer.
abbrev pub is_told : List SyncTraversalDiagnostic → ActivePeer → Bool
is_told told active = any (λ diagnostic. diagnostic.peer_index == active.peer.peer_index) told

-- The canon peers are all listed.
abbrev pub HasCanon : List ActivePeer → List ListedDirectory → Type 0
HasCanon peers listed =
    All (λ active. is_canon active.peer ≡ true → is_listed listed active ≡ true) peers

-- Some canon peer has a diagnostic.
abbrev pub LacksCanon : List ActivePeer → List SyncTraversalDiagnostic → Type 0
LacksCanon peers told = any (λ active. is_canon active.peer && is_told told active) peers ≡ true

HasCanon-more :
    (peers : List ActivePeer) (listing : ListedDirectory) (listed : List ListedDirectory)
    → HasCanon peers listed
    → HasCanon peers (listing ∷ listed)
HasCanon-more [] listing listed h = tt
HasCanon-more (active ∷ peers) listing listed (h, hs) =
    (λ e. or_right _ _ (h e), HasCanon-more peers listing listed hs)

LacksCanon-more :
    (peers : List ActivePeer) (diagnostic : SyncTraversalDiagnostic)
    (told : List SyncTraversalDiagnostic)
    → LacksCanon peers told
    → LacksCanon peers (diagnostic ∷ told)
LacksCanon-more [] diagnostic told h = h
LacksCanon-more (active ∷ peers) diagnostic told h =
    ground (arith, h, LacksCanon-more peers diagnostic told)

module _ (X : Services) (path : Option Text) (retries : ℕ) where
  -- One peer after the other is listed, with the entries that it answers, or is told about, with
  -- the failure, in a diagnostic that names the peer and the directory: never both, and never
  -- neither.
  pub data Parted
      : List ActivePeer
        → X.State
        → List ListedDirectory
        → List SyncTraversalDiagnostic
        → X.State
        → Type 0 where
    no_peer : (s : X.State) → Parted [] s [] [] s
    listed_peer :
        (active : ActivePeer) (peers : List ActivePeer) (s t u : X.State)
        (entries : List PeerDirectoryEntry) (listed : List ListedDirectory)
        (told : List SyncTraversalDiagnostic)
        → list_dir_for_peer X active path retries s ≡ (ok entries, t)
        → Parted peers t listed told u
        → Parted
            (active ∷ peers)
            s
            (record { peer_index = active.peer.peer_index; entries = put_entries entries [] }
              ∷ listed)
            told
            u
    told_peer :
        (active : ActivePeer) (peers : List ActivePeer) (s t u : X.State)
        (failure : PeerTransportError) (listed : List ListedDirectory)
        (told : List SyncTraversalDiagnostic)
        → list_dir_for_peer X active path retries s ≡ (err failure, t)
        → Parted peers t listed told u
        → Parted
            (active ∷ peers)
            s
            listed
            (record {
              level = error;
              peer_index = active.peer.peer_index;
              path = path;
              kind = directory_listing_failed failure;
            }
              ∷ told)
            u

  -- What is known of the canon peers from whether one of them failed
  abbrev pub Canons :
      Bool → List ActivePeer → List ListedDirectory → List SyncTraversalDiagnostic → Type 0
  Canons true peers listed told = LacksCanon peers told
  Canons false peers listed told = HasCanon peers listed

  Canons-listed :
      (b : Bool) (active : ActivePeer) (peers : List ActivePeer) (entries : List PeerDirectoryEntry)
      (listed : List ListedDirectory) (told : List SyncTraversalDiagnostic)
      → Canons b peers listed told
      → Canons b
          (active ∷ peers)
          (record { peer_index = active.peer.peer_index; entries = put_entries entries [] }
            ∷ listed)
          told
  Canons-listed true active peers entries listed told h = or_right _ _ h
  Canons-listed false active peers entries listed told h = (
    λ _. ground (arith, ==_refl active.peer.peer_index),
    HasCanon-more peers
        (record { peer_index = active.peer.peer_index; entries = put_entries entries [] }) listed h,
  )

  Canons-told :
      (b : Bool) (active : ActivePeer) (peers : List ActivePeer) (failure : PeerTransportError)
      (listed : List ListedDirectory) (told : List SyncTraversalDiagnostic)
      → Canons b peers listed told
      → Canons
          (is_canon active.peer || b)
          (active ∷ peers)
          listed
          (listing_failed X active path failure ∷ told)
  Canons-told b active peers failure listed told h = elim (Bool-cases (is_canon active.peer)) [
    | inl e ↦ rw e (ground (arith, ==_refl active.peer.peer_index))
    | inr e ↦ rw e (go e b h)
  ]
    where
      go :
          is_canon active.peer ≡ false
          → (b : Bool) → Canons b peers listed told
          → Canons b (active ∷ peers) listed (listing_failed X active path failure ∷ told)
      go e true h =
          or_right _ _ (LacksCanon-more peers (listing_failed X active path failure) told h)
      go e false h = (λ is. absurd (cc (is, e)), h)

  -- The answer of a row of peers, from a state and the diagnostics before it
  abbrev ArePartitioned :
      List ActivePeer
      → X.State
      → List SyncTraversalDiagnostic
      → List ListedDirectory × Bool × Run X
      → Type 0
  ArePartitioned peers s diagnostics (listed, canon_failed, (t, after)) =
      (told : List SyncTraversalDiagnostic) × (after ≡ diagnostics ++ told)
      × Parted peers s listed told t
      × Canons canon_failed peers listed told

  list_peers-ArePartitioned :
      (peers : List ActivePeer) (s : X.State) (diagnostics : List SyncTraversalDiagnostic)
      → ArePartitioned peers s diagnostics (list_peers X peers path retries (s, diagnostics))
  unfolding list_peers
  list_peers-ArePartitioned [] s diagnostics = ([], sym (append-nil diagnostics), no_peer s, tt)
  list_peers-ArePartitioned (active ∷ peers) s diagnostics =
      go (list_dir_for_peer X active path retries s) refl (list_peers-ArePartitioned peers)
    where
      Rest : Type 0
      Rest =
          (t : X.State) (after : List SyncTraversalDiagnostic)
          → ArePartitioned peers t after (list_peers X peers path retries (t, after))

      with_entries :
          (entries : List PeerDirectoryEntry) (t : X.State)
          (rest : List ListedDirectory × Bool × Run X)
          → list_dir_for_peer X active path retries s ≡ (ok entries, t)
          → ArePartitioned peers t diagnostics rest
          → ArePartitioned (active ∷ peers) s diagnostics (
            record { peer_index = active.peer.peer_index; entries = put_entries entries [] }
                ∷ rest.0,
            rest.1,
            rest.2,
          )
      with_entries entries t (listed, failed, (u, after)) e (told, same, parted, canons) = (
        told,
        same,
        listed_peer active peers s t u entries listed told e parted,
        Canons-listed failed active peers entries listed told canons,
      )

      with_failure :
          (failure : PeerTransportError) (t : X.State) (rest : List ListedDirectory × Bool × Run X)
          → list_dir_for_peer X active path retries s ≡ (err failure, t)
          → ArePartitioned peers t (diagnostics ++ (listing_failed X active path failure ∷ [])) rest
          → ArePartitioned
              (active ∷ peers)
              s
              diagnostics
              (rest.0, is_canon active.peer || rest.1, rest.2)
      with_failure failure t (listed, failed, (u, after)) e (told, same, parted, canons) = (
        listing_failed X active path failure ∷ told,
        same ∙ append_assoc diagnostics (listing_failed X active path failure ∷ []) told,
        told_peer active peers s t u failure listed told e parted,
        Canons-told failed active peers failure listed told canons,
      )

      go :
          (answer : Result (List PeerDirectoryEntry) PeerTransportError × X.State)
          → list_dir_for_peer X active path retries s ≡ answer
          → Rest
          → ArePartitioned
              (active ∷ peers)
              s
              diagnostics
              (elim answer.0 as (λ _. List ListedDirectory × Bool × Run X) [
                | ok entries ↦
                    let (listed, canon_failed, run) =
                      list_peers X peers path retries (answer.1, diagnostics) in
                    (
                      record {
                        peer_index = active.peer.peer_index;
                        entries = put_entries entries [];
                      }
                          ∷ listed,
                      canon_failed,
                      run,
                    )
                | err failure ↦
                    let (listed, canon_failed, run) =
                      list_peers X peers path retries
                        (answer.1, diagnostics ++ (listing_failed X active path failure ∷ [])) in
                    (listed, is_canon active.peer || canon_failed, run)
              ])
      go (ok entries, t) e rest =
          with_entries entries t (list_peers X peers path retries (t, diagnostics)) e
            (rest t diagnostics)
      go (err failure, t) e rest =
          with_failure failure t
            (list_peers X peers path retries
              (t, diagnostics ++ (listing_failed X active path failure ∷ [])))
            e (rest t (diagnostics ++ (listing_failed X active path failure ∷ [])))

  -- One peer after the other, each peer of a level is either listed, with the entries that it
  -- answers, or told about in one new diagnostic, which names the peer, the directory and the
  -- failure. Either the level has these listings, and every canon peer is among them; or it has
  -- none, and a canon peer is named by a new diagnostic.
  pub list_level-ArePartitioned :
      (peers : List ActivePeer) (s : X.State) (diagnostics : List SyncTraversalDiagnostic)
      → let (listings, (t, after)) = list_level X peers path retries (s, diagnostics) in
        (listed : List ListedDirectory) × (told : List SyncTraversalDiagnostic) × (after
          ≡ diagnostics ++ told)
        × Parted peers s listed told t
        × (((listings ≡ some listed) × HasCanon peers listed)
            ⊎ ((listings ≡ none) × LacksCanon peers told))
  unfolding list_level
  list_level-ArePartitioned peers s diagnostics =
      go (list_peers X peers path retries (s, diagnostics))
        (list_peers-ArePartitioned peers s diagnostics)
    where
      go :
          (answer : List ListedDirectory × Bool × Run X)
          → ArePartitioned peers s diagnostics answer
          → (listed : List ListedDirectory) × (told : List SyncTraversalDiagnostic) × (answer.2.1
              ≡ diagnostics ++ told)
            × Parted peers s listed told answer.2.0
            × ((((if answer.1 then none else some answer.0) ≡ some listed) × HasCanon peers listed)
                ⊎ (((if answer.1 then none else some answer.0) ≡ none) × LacksCanon peers told))
      go (listed, true, run) (told, same, parted, canons) =
          (listed, told, same, parted, inr (refl, canons))
      go (listed, false, run) (told, same, parted, canons) =
          (listed, told, same, parted, inl (refl, canons))
