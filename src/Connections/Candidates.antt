-- ===== src/Connections/Candidates.antt =====
-- Which candidate of a peer wins, and what is tried before it.
use kitchensync.Base.{
  arith, ◌≡◌, refl, ap, Text, Bool, true, false, not, Option, none, some, List, [], ◌∷◌, ◌++◌,
}
use kitchensync.Connections.Types.{ParsedPeer, ConnectedPeer}
use kitchensync.Connections.Connect.{
  Services, ensure_local_root, located, connected, try_candidates, connect_peer, connect_peers,
}

module _ (X : Services) where
  -- Candidates that are tried in their order, and none of them can be used.
  pub data Passes (dry : Bool) : List Text → X.State → X.State → Type 0 where
    no_candidate : (s : X.State) → Passes dry [] s s
    not_located :
        (candidate : Text) (candidates : List Text) (s t : X.State)
        → located X candidate ≡ none
        → Passes dry candidates s t
        → Passes dry (candidate ∷ candidates) s t
    no_root :
        (candidate url root_path : Text) (candidates : List Text) (s t u : X.State)
        → located X candidate ≡ some (url, root_path)
        → ensure_local_root X root_path (not dry) s ≡ (false, t)
        → Passes dry candidates t u
        → Passes dry (candidate ∷ candidates) s u

  -- The first candidate that can be used
  pub record Wins (candidates : List Text) (dry : Bool) (peer : ConnectedPeer) (s u : X.State)
      : Type 0 where
    pub before : List Text
    pub candidate : Text
    pub after : List Text
    pub between : X.State
    pub candidates-append : candidates ≡ before ++ (candidate ∷ after)
    pub passes : Passes dry before s between
    pub located_at : located X candidate ≡ some (peer.winning_url, peer.peer.handle)
    pub reached : ensure_local_root X peer.peer.handle (not dry) between ≡ (true, u)

  -- One candidate more in front of the winner
  Wins-skip :
      (candidate : Text) (candidates : List Text) (dry : Bool) (peer : ConnectedPeer)
      (s t u : X.State)
      → ((before : List Text) (between : X.State)
          → Passes dry before t between
          → Passes dry (candidate ∷ before) s between)
      → Wins candidates dry peer t u
      → Wins (candidate ∷ candidates) dry peer s u
  Wins-skip candidate candidates dry peer s t u skip wins = record {
    before = candidate ∷ wins.before;
    candidate = wins.candidate;
    after = wins.after;
    between = wins.between;
    candidates-append = ap (λ rest. candidate ∷ rest) wins.candidates-append;
    passes = skip wins.before wins.between wins.passes;
    located_at = wins.located_at;
    reached = wins.reached;
  }

  -- What a search through the candidates has found
  abbrev pub Found : List Text → Bool → X.State → Option ConnectedPeer × X.State → Type 0
  Found candidates dry s (none, u) = Passes dry candidates s u
  Found candidates dry s (some peer, u) = Wins candidates dry peer s u

  Found-skip :
      (candidate : Text) (candidates : List Text) (dry : Bool) (s t : X.State)
      (answer : Option ConnectedPeer × X.State)
      → ((before : List Text) (between : X.State)
          → Passes dry before t between
          → Passes dry (candidate ∷ before) s between)
      → Found candidates dry t answer
      → Found (candidate ∷ candidates) dry s answer
  Found-skip candidate candidates dry s t (none, u) skip passes = skip candidates u passes
  Found-skip candidate candidates dry s t (some peer, u) skip wins =
      Wins-skip candidate candidates dry peer s t u skip wins

  try_candidates-Found :
      (peer : ParsedPeer) (candidates : List Text) (dry : Bool) (s : X.State)
      → Found candidates dry s (try_candidates X peer candidates dry s)
  unfolding try_candidates
  try_candidates-Found peer [] dry s = no_candidate s
  try_candidates-Found peer (candidate ∷ candidates) dry s =
      go (located X candidate) refl (try_candidates-Found peer candidates dry)
    where
      root :
          (url root_path : Text) (answer : Bool × X.State)
          → located X candidate ≡ some (url, root_path)
          → ensure_local_root X root_path (not dry) s ≡ answer
          → ((t : X.State) → Found candidates dry t (try_candidates X peer candidates dry t))
          → Found
              (candidate ∷ candidates)
              dry
              s
              (elim answer.0 as (λ _. Option ConnectedPeer × X.State) [
                | true ↦ (some (connected X peer url root_path), answer.1)
                | false ↦ try_candidates X peer candidates dry answer.1
              ])
      root url root_path (true, t) e f rest = record {
        before = [];
        candidate = candidate;
        after = candidates;
        between = s;
        candidates-append = refl;
        passes = no_candidate s;
        located_at = e;
        reached = f;
      }
      root url root_path (false, t) e f rest =
          Found-skip candidate candidates dry s t _
            (λ before between h. no_root candidate url root_path before s t between e f h) (rest t)

      go :
          (found : Option (Text × Text))
          → located X candidate ≡ found
          → ((t : X.State) → Found candidates dry t (try_candidates X peer candidates dry t))
          → Found
              (candidate ∷ candidates)
              dry
              s
              (elim found as (λ _. Option ConnectedPeer × X.State) [
                | none ↦ try_candidates X peer candidates dry s
                | some (url, root_path) ↦
                    elim (ensure_local_root X root_path (not dry) s).0
                      as (λ _. Option ConnectedPeer × X.State) [
                        | true ↦ (
                          some (connected X peer url root_path),
                          (ensure_local_root X root_path (not dry) s).1,
                        )
                        | false ↦
                            try_candidates X peer candidates dry
                              (ensure_local_root X root_path (not dry) s).1
                      ]
              ])
      go none e rest =
          Found-skip candidate candidates dry s s _
            (λ before between h. not_located candidate before s between e h) (rest s)
      go (some (url, root_path)) e rest =
          root url root_path (ensure_local_root X root_path (not dry) s) e refl rest

  -- A peer connects by its first candidate that has a file URL and a root: each one before it had
  -- been tried and had none. It stays unconnected only if no candidate has any.
  pub connect_peer-Found :
      (peer : ParsedPeer) (dry : Bool) (s : X.State)
      → Found peer.candidates dry s (connect_peer X peer dry s)
  unfolding connect_peer
  connect_peer-Found peer dry s = try_candidates-Found peer peer.candidates dry s

  ensure_local_root-dry : (path : Text) (s : X.State) → (ensure_local_root X path false s).1 ≡ s
  unfolding ensure_local_root
  ensure_local_root-dry path s = refl

  try_candidates-dry :
      (peer : ParsedPeer) (candidates : List Text) (s : X.State)
      → (try_candidates X peer candidates true s).1 ≡ s
  unfolding try_candidates ensure_local_root
  try_candidates-dry peer [] s = refl
  try_candidates-dry peer (candidate ∷ candidates) s =
      ground (arith, try_candidates-dry peer candidates s)

  -- In a dry run, no peer's root is created: the connections leave the state as it was.
  pub connect_peers-dry :
      (peers : List ParsedPeer) (s : X.State) → (connect_peers X peers true s).1 ≡ s
  unfolding connect_peers connect_peer
  connect_peers-dry [] s = refl
  connect_peers-dry (peer ∷ peers) s =
      rw (try_candidates-dry peer peer.candidates s) (connect_peers-dry peers s)
