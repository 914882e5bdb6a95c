-- ===== src/Snapshot/Swap/Recovery.antt =====
-- What a recovery of the snapshot's SWAP directory leaves, whether it succeeds or not.
use kitchensync.Base.{
  ◌≡◌, ◌≢◌, refl, subst, sym, Text, Bool, true, false, Option, none, some, Result, ok, err, is_ok,
  arith,
}
use kitchensync.Transport.Types.{ConnectedPeerRoot, PeerMetadata, PeerTransportError, not_found}
use kitchensync.Transport.Surface.{PeerTransportSurface, Node, NoFile, IsLawful, apart}
use kitchensync.Transport.Action.{continue, ◌>>=◌}
use kitchensync.Snapshot.Swap.{
  live_snapshot_path, old_path, new_path, peer_path_exists, exists_of, recover_case,
  recover_snapshot_swap,
}

-- The snapshot that a recovery puts in place: the live one, or else the new one, or else the old.
abbrev pub recovered : Option Node → Option Node → Option Node → Option Node
recovered old new (some live) = some live
recovered old (some new) none = some new
recovered old none none = old

module _ (T : PeerTransportSurface) (root : ConnectedPeerRoot) (law : IsLawful T root) where
  abbrev pub old_of : T.State → Option Node
  old_of s = law.node s old_path

  abbrev pub new_of : T.State → Option Node
  new_of s = law.node s new_path

  abbrev pub live_of : T.State → Option Node
  live_of s = law.node s live_snapshot_path

  abbrev pub recovered_of : T.State → Option Node
  recovered_of s = recovered (old_of s) (new_of s) (live_of s)

  -- The snapshot in place, no old one, and no file for a new one.
  pub record IsSettled (wanted : Option Node) (t : T.State) : Type 0 where
    pub live : live_of t ≡ wanted
    pub old : old_of t ≡ none
    pub new : NoFile (new_of t)

  abbrev Exists : Bool → Option Node → Type 0
  Exists true found = found ≢ none
  Exists false found = found ≡ none

  -- After a step that answers `r`: what can be recovered is what could be, and a success settles it.
  abbrev Recovers : T.State → Result (Unit {0}) PeerTransportError × T.State → Type 0
  Recovers s (r, t) =
      (recovered_of t ≡ recovered_of s) × (is_ok r ≡ true → IsSettled (recovered_of s) t)

  peer_path_exists-Exists :
      (p : Text) (s : T.State) (b : Bool)
      → (peer_path_exists T root p s).0 ≡ ok b
      → Exists b (law.node s p)
  unfolding peer_path_exists
  peer_path_exists-Exists p s b h = go b (T.stat root p s).0 refl h
    where
      go :
          (b : Bool) (r : Result PeerMetadata PeerTransportError)
          → (T.stat root p s).0 ≡ r
          → exists_of r ≡ ok b
          → Exists b (law.node s p)
      go true (ok m) e f = law.stat-ok p s m e
      go false (err not_found) e f = law.stat-not_found p s e
      go true (err not_found) e f = absurd (cc f)
      go false (ok m) e f = absurd (cc f)
      go true (err x) e f = absurd (cc f)
      go false (err x) e f = absurd (cc f)

  recover_case_lem :
      (o n l : Bool) (s : T.State)
      → Exists o (old_of s)
      → Exists n (new_of s)
      → Exists l (live_of s)
      → Recovers s (recover_case T root o n l s)
  unfolding recover_case apart
  recover_case_lem true true true s ho hn hl =
      let t = (T.delete_file root new_path s).1 in
      ground (
        arith,
        law.node-delete_file new_path old_path s refl,
        law.node-delete_file new_path live_snapshot_path s refl,
        law.delete_file-ok new_path s,
        law.delete_file-err new_path new_path s,
        law.delete_file-not_found new_path s,
        law.node-delete_file old_path new_path t refl,
        law.node-delete_file old_path live_snapshot_path t refl,
        law.delete_file-ok old_path t,
        law.delete_file-err old_path old_path t,
      )
  recover_case_lem true false true s ho hn hl = ground (
    arith,
    law.node-delete_file old_path new_path s refl,
    law.node-delete_file old_path live_snapshot_path s refl,
    law.delete_file-ok old_path s,
    law.delete_file-err old_path old_path s,
  )
  recover_case_lem true true false s ho hn hl =
      let t = (T.rename root new_path live_snapshot_path s).1 in
      ground (
        arith,
        law.node-rename new_path live_snapshot_path old_path s refl refl,
        law.rename-ok new_path live_snapshot_path s,
        law.rename-err new_path live_snapshot_path new_path s,
        law.rename-err new_path live_snapshot_path live_snapshot_path s,
        law.node-delete_file old_path new_path t refl,
        law.node-delete_file old_path live_snapshot_path t refl,
        law.delete_file-ok old_path t,
        law.delete_file-err old_path old_path t,
      )
  recover_case_lem true false false s ho hn hl = ground (
    arith,
    law.node-rename old_path live_snapshot_path new_path s refl refl,
    law.rename-ok old_path live_snapshot_path s,
    law.rename-err old_path live_snapshot_path old_path s,
    law.rename-err old_path live_snapshot_path live_snapshot_path s,
  )
  recover_case_lem false true true s ho hn hl = ground (
    arith,
    law.node-delete_file new_path old_path s refl,
    law.node-delete_file new_path live_snapshot_path s refl,
    law.delete_file-ok new_path s,
    law.delete_file-err new_path new_path s,
  )
  recover_case_lem false true false s ho hn hl = ground (
    arith,
    law.node-rename new_path live_snapshot_path old_path s refl refl,
    law.rename-ok new_path live_snapshot_path s,
    law.rename-err new_path live_snapshot_path new_path s,
    law.rename-err new_path live_snapshot_path live_snapshot_path s,
  )
  recover_case_lem false false true s ho hn hl = ground arith
  recover_case_lem false false false s ho hn hl = ground arith

  abbrev stat_state : Text → T.State → T.State
  stat_state p s = (peer_path_exists T root p s).1

  node-stat_state : (p q : Text) (s : T.State) → law.node (stat_state p s) q ≡ law.node s q
  unfolding peer_path_exists
  node-stat_state p q s = law.node-stat p q s

  -- A look at a path changes nothing of what can be recovered.
  Recovers-stat :
      (p : Text) (s : T.State) (out : Result (Unit {0}) PeerTransportError × T.State)
      → Recovers (stat_state p s) out
      → Recovers s out
  Recovers-stat p s out h =
      let same : recovered_of (stat_state p s) ≡ recovered_of s = rw (
        node-stat_state p old_path s,
        node-stat_state p new_path s,
        node-stat_state p live_snapshot_path s,
      ) in
      subst (λ x. (recovered_of out.1 ≡ x) × (is_ok out.0 ≡ true → IsSettled x out.1)) same h

  Recovers-err :
      (p : Text) (s : T.State) (e : PeerTransportError) → Recovers s (err e, stat_state p s)
  Recovers-err p s e = (
    rw (
      node-stat_state p old_path s,
      node-stat_state p new_path s,
      node-stat_state p live_snapshot_path s,
    ),
    λ h. absurd (cc h),
  )

  Exists-stat :
      (b : Bool) (p q : Text) (s : T.State)
      → Exists b (law.node s q)
      → Exists b (law.node (stat_state p s) q)
  Exists-stat b p q s h = subst (Exists b) (sym (node-stat_state p q s)) h

  look :
      (p : Text) (s : T.State) (f : Bool → T.State → Result (Unit {0}) PeerTransportError × T.State)
      → ((b : Bool) → Exists b (law.node s p) → Recovers (stat_state p s) (f b (stat_state p s)))
      → Recovers s ((peer_path_exists T root p >>= f) s)
  look p s f h = go (peer_path_exists T root p s).0 refl
    where
      go :
          (r : Result Bool PeerTransportError)
          → (peer_path_exists T root p s).0 ≡ r
          → Recovers s (continue r f (stat_state p s))
      go (ok b) e = Recovers-stat p s _ (h b (peer_path_exists-Exists p s b e))
      go (err x) e = Recovers-err p s x

  -- Whatever fails on the way, a recovery keeps the snapshot that can be recovered; and if it
  -- succeeds, that snapshot is the live one, the old one is gone, and no file is left for a new one.
  pub recover_snapshot_swap_lem :
      (s : T.State)
      → (recovered_of (recover_snapshot_swap T root s).1 ≡ recovered_of s)
        × (is_ok (recover_snapshot_swap T root s).0 ≡ true
            → IsSettled (recovered_of s) (recover_snapshot_swap T root s).1)
  unfolding recover_snapshot_swap
  recover_snapshot_swap_lem s = look old_path s _ λ o ho.
      look new_path (stat_state old_path s) _ λ n hn.
        let s1 = stat_state old_path s in
        let s2 = stat_state new_path s1 in
        look live_snapshot_path s2 _ λ l hl.
          let s3 = stat_state live_snapshot_path s2 in
          recover_case_lem o n l s3
            (Exists-stat o live_snapshot_path old_path s2
              (Exists-stat o new_path old_path s1 (Exists-stat o old_path old_path s ho)))
            (Exists-stat n live_snapshot_path new_path s2 (Exists-stat n new_path new_path s1 hn))
            (Exists-stat l live_snapshot_path live_snapshot_path s2 hl)
