-- ===== src/Connections/Ready.antt =====
-- What holds of the peers that a start hands on.
use kitchensync.Base.{
  ◌∙◌, subst, sym, ℕ, ◌≤◌, ◌≡◌, ◌≢◌, ◌⊎◌, inl, inr, refl, Bool, true, false, ◌&&◌, not, Option,
  none, some, List, [], ◌∷◌, map, any, all, All, length, ltb, ◌==◌, if◌then◌else◌, Bool-cases,
  ltb→le,
}
use kitchensync.Connections.Types.{
  PeerConnectionsStartupRequest, PeerConnectionsPeer, normal, first_sync_needs_canon,
  no_contributing_peer_reachable, PeerConnectionsDiagnostic, PeerConnectionsStartup,
  PeerConnectionsStartupFailure, PeerConnectionsStartupResult, ready, failed, ParsedRole,
  normal_role, canon_role, subordinate_role, PreparedPeer,
}
use kitchensync.Connections.Arguments.{parse_peer_arguments}
use kitchensync.Connections.Connect.{Services, connect_peers, prepare_snapshots}
use kitchensync.Connections.Start.{
  canon_peer_index, split_reachable, lacks_canon, reachable_set_failure, is_subordinate, is_none,
  into_startup_peer, final_role, finish_start, start, failure,
}

-- The canon peer is among the peers, if there is one.
abbrev pub HasCanon : Option ℕ → List PeerConnectionsPeer → Type 0
HasCanon none peers = Unit
HasCanon (some index) peers = any (λ peer. peer.peer_index == index) peers ≡ true

-- A normal peer has a snapshot from an earlier run.
abbrev pub HasHistory : PeerConnectionsPeer → Type 0
HasHistory peer = peer.role ≡ normal → peer.had_snapshot_history ≡ true

abbrev pub IsReady : Option ℕ → List PeerConnectionsPeer → Type 0
IsReady wanted peers =
    (2 ≤ length peers)
    × HasCanon wanted peers
    × (all (λ peer. is_subordinate peer.role) peers ≡ false)
    × ((any (λ peer. peer.had_snapshot_history) peers ≡ true) ⊎ (wanted ≢ none))
    × All HasHistory peers

module _ {A B : Type 0} where
  any-map : (f : A → B) (p : B → Bool) (xs : List A) → any p (map f xs) ≡ any (λ x. p (f x)) xs
  any-map f p [] = refl
  any-map f p (x ∷ xs) = rw (any-map f p xs) refl

  length-map : (f : A → B) (xs : List A) → length (map f xs) ≡ length xs
  length-map f [] = refl
  length-map f (x ∷ xs) = rw (length-map f xs) refl

not-false : (b : Bool) → not b ≡ false → b ≡ true
not-false true h = refl
not-false false h = absurd (cc h)

reachable_set_failure-none :
    {A : Type 0} (index : A → ℕ) (peers : List A) (wanted : Option ℕ)
    (diagnostics : List PeerConnectionsDiagnostic)
    → reachable_set_failure index peers wanted diagnostics ≡ none
    → (2 ≤ length peers) × (lacks_canon index peers wanted ≡ false)
unfolding reachable_set_failure
reachable_set_failure-none index peers wanted diagnostics h =
    elim (Bool-cases (lacks_canon index peers wanted)) [
      | inl e ↦ absurd (cc (h, e))
      | inr e ↦ elim (Bool-cases (ltb (length peers) 2)) [
        | inl f ↦ absurd (cc (h, e, f))
        | inr f ↦ (ltb→le _ _ f, e)
      ]
    ]

into_startup_peer-HasHistory : (peer : PreparedPeer) → HasHistory (into_startup_peer peer)
unfolding into_startup_peer final_role
into_startup_peer-HasHistory peer = go peer.role peer.had_snapshot_history
  where
    go : (role : ParsedRole) (had : Bool) → final_role role had ≡ normal → had ≡ true
    go normal_role true h = refl
    go normal_role false h = absurd (cc h)
    go canon_role had h = absurd (cc h)
    go subordinate_role had h = absurd (cc h)

map-HasHistory : (peers : List PreparedPeer) → All HasHistory (map into_startup_peer peers)
map-HasHistory [] = tt
map-HasHistory (peer ∷ peers) = (into_startup_peer-HasHistory peer, map-HasHistory peers)

map-HasCanon :
    (wanted : Option ℕ) (prepared : List PreparedPeer)
    → lacks_canon (λ peer. peer.peer_index) prepared wanted ≡ false
    → HasCanon wanted (map into_startup_peer prepared)
unfolding into_startup_peer
map-HasCanon none prepared h = tt
map-HasCanon (some index) prepared h =
    any-map into_startup_peer (λ peer. peer.peer_index == index) prepared
    ∙ not-false (any (λ peer. peer.peer_index == index) prepared) h

-- What holds of the peers of a start that is ready
abbrev WhenReady : (List PeerConnectionsPeer → Type 0) → PeerConnectionsStartupResult → Type 0
WhenReady P (ready startup) = P startup.peers
WhenReady P (failed unmet) = Unit

history_or_canon :
    (had : Bool) (wanted : Option ℕ)
    → not had && is_none wanted ≡ false
    → (had ≡ true) ⊎ (wanted ≢ none)
history_or_canon true wanted h = inl refl
history_or_canon false none h = absurd (cc h)
history_or_canon false (some index) h = inr (λ e. cc e)

finish_start-IsReady :
    (prepared : List PreparedPeer) (wanted : Option ℕ)
    (diagnostics : List PeerConnectionsDiagnostic)
    → WhenReady (IsReady wanted) (finish_start prepared wanted diagnostics)
unfolding finish_start
finish_start-IsReady prepared wanted diagnostics =
    go (reachable_set_failure (λ peer. peer.peer_index) prepared wanted diagnostics) _ _ refl refl
      refl
  where
    go :
        (unmet : Option PeerConnectionsStartupFailure) (first subordinates : Bool)
        → reachable_set_failure (λ peer. peer.peer_index) prepared wanted diagnostics ≡ unmet
        → not (any (λ peer. peer.had_snapshot_history) prepared) && is_none wanted ≡ first
        → all (λ peer. is_subordinate peer.role) (map into_startup_peer prepared) ≡ subordinates
        → WhenReady (IsReady wanted) (elim unmet [
          | some unmet ↦ failed unmet
          | none ↦
              if first
              then failed (failure first_sync_needs_canon diagnostics)
              else if subordinates
              then failed (failure no_contributing_peer_reachable diagnostics)
              else ready
                  (record { peers = map into_startup_peer prepared; diagnostics = diagnostics })
        ])
    go (some unmet) first subordinates e f g = tt
    go none true subordinates e f g = tt
    go none false true e f g = tt
    go none false false e f g =
        let (two, found) = reachable_set_failure-none _ prepared wanted diagnostics e in
        (
          subst (λ n. 2 ≤ n) (sym (length-map into_startup_peer prepared)) two,
          map-HasCanon wanted prepared found,
          g,
          elim (history_or_canon _ wanted f) [
            | inl had ↦
                inl (any-map into_startup_peer (λ peer. peer.had_snapshot_history) prepared ∙ had)
            | inr named ↦ inr named
          ],
          map-HasHistory prepared,
        )

module _ (X : Services) where
  -- A start that is ready hands on at least two peers, the canon peer among them if one was named,
  -- not all of them subordinate, with a snapshot of an earlier run on one of them unless a canon
  -- peer was named, and every normal peer has such a snapshot.
  pub start-IsReady :
      (request : PeerConnectionsStartupRequest) (s : X.State) (startup : PeerConnectionsStartup)
      → (start X request s).0 ≡ ready startup
      → IsReady (canon_peer_index (parse_peer_arguments request.peer_arguments)) startup.peers
  unfolding start
  start-IsReady request s startup h =
      let parsed = parse_peer_arguments request.peer_arguments in
      let wanted = canon_peer_index parsed in
      let (connected, t) = connect_peers X parsed request.dry_run s in
      let (reachable, diagnostics) = split_reachable connected in
      let (prepared, told, u) = prepare_snapshots X reachable request.dry_run diagnostics t in
      subst (WhenReady (IsReady wanted)) h (
        go (reachable_set_failure (λ peer. peer.peer_index) reachable wanted diagnostics) wanted
          prepared told t u)
    where
      go :
          (unmet : Option PeerConnectionsStartupFailure) (wanted : Option ℕ)
          (prepared : List PreparedPeer) (told : List PeerConnectionsDiagnostic) (t u : X.State)
          → WhenReady
              (IsReady wanted)
              (elim unmet as (λ _. PeerConnectionsStartupResult × X.State) [
                | some unmet ↦ (failed unmet, t)
                | none ↦ (finish_start prepared wanted told, u)
              ]).0
      go (some unmet) wanted prepared told t u = tt
      go none wanted prepared told t u = finish_start-IsReady prepared wanted told
