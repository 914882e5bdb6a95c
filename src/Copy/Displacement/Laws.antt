-- ===== src/Copy/Displacement/Laws.antt =====
-- What a displacement leaves.
use kitchensync.Base.{
  ◌≡◌, ◌≢◌, refl, sym, subst, ap, ◌∙◌, Text, text_eq, true, false, Option, none, some, ◌++◌, Result,
  ok, err, is_ok, arith,
}
use kitchensync.Format.Types.{FormatRulesTimestamp, FormatRulesValidationError}
use kitchensync.Format.Paths.{bak_directory_path}
use kitchensync.Transport.Types.{PeerTransportError}
use kitchensync.Transport.Surface.{PeerTransportSurface, Node, IsLawful, apart}
use kitchensync.Transport.Action.{◌>>◌}
use kitchensync.Copy.Types.{CopyStagingDisplacementRequest, displaced, planned_dry_run, failed}
use kitchensync.Copy.Paths.{split_parent_basename}
use kitchensync.Copy.Swap.{is_dry_run}
use kitchensync.Copy.Attempt.Safety.{split_parent_basename-join}
use kitchensync.Copy.Places.{metadata}
use kitchensync.Copy.Places.Disjoint.{bak_directory_path-apart}
use kitchensync.Copy.Displacement.{move_to_bak, displace_to_bak, moved}

module _ (T : PeerTransportSurface) (current_timestamp : T.State → FormatRulesTimestamp × T.State)
    (request : CopyStagingDisplacementRequest) (law : IsLawful T request.peer.root)
    (clock : (q : Text) (s : T.State) → law.node (current_timestamp s).1 q ≡ law.node s q) where
  abbrev pub parent : Option Text
  parent = (split_parent_basename request.relative_path).0

  abbrev pub basename : Text
  basename = (split_parent_basename request.relative_path).1

  -- `node` stands under its name in the BAK directory of some time, and nothing at its place.
  abbrev pub IsMoved : Node → T.State → Type 0
  IsMoved node t =
      (now : FormatRulesTimestamp) × (dir : Text) × (bak_directory_path parent now ≡ ok dir)
      × (law.node t (dir ++ basename) ≡ some node)
      × (law.node t request.relative_path ≡ none)

  -- The BAK directories lie apart from what is displaced.
  abbrev pub BakApart : Type 0
  BakApart =
      (now : FormatRulesTimestamp) (dir : Text)
      → bak_directory_path parent now ≡ ok dir
      → apart dir request.relative_path ≡ true

  user-BakApart : text_eq basename metadata ≡ false → BakApart
  user-BakApart user now dir h =
      subst (λ p. apart dir p ≡ true) (sym (split_parent_basename-join request.relative_path))
        (bak_directory_path-apart request.relative_path now dir user h)

  move_to_bak-IsMoved :
      (node : Node) (s : T.State)
      → BakApart
      → law.node s request.relative_path ≡ some node
      → (is_ok (move_to_bak T current_timestamp request parent basename s).0 ≡ true
          → IsMoved node (move_to_bak T current_timestamp request parent basename s).1)
        × (is_ok (move_to_bak T current_timestamp request parent basename s).0 ≡ false
            → law.node
                (move_to_bak T current_timestamp request parent basename s).1
                request.relative_path
              ≡ some node)
  unfolding move_to_bak
  move_to_bak-IsMoved node s away held = go (bak_directory_path parent (current_timestamp s).0) refl
    where
      go :
          (r : Result Text FormatRulesValidationError)
          → bak_directory_path parent (current_timestamp s).0 ≡ r
          → (is_ok (move_to_bak T current_timestamp request parent basename s).0 ≡ true
              → IsMoved node (move_to_bak T current_timestamp request parent basename s).1)
            × (is_ok (move_to_bak T current_timestamp request parent basename s).0 ≡ false
                → law.node
                    (move_to_bak T current_timestamp request parent basename s).1
                    request.relative_path
                  ≡ some node)
      go (err e) h = rw h (λ r. absurd (cc r), λ r. clock request.relative_path s ∙ held)
      go (ok dir) h =
          let s1 = (current_timestamp s).1 in
          let t = (T.create_dir request.peer.root dir s1).1 in
          let out =
            (T.create_dir request.peer.root dir
                >> T.rename request.peer.root request.relative_path (dir ++ basename))
              s1 in
          let before =
            law.node-create_dir dir request.relative_path s1 (away (current_timestamp s).0 dir h)
            ∙ clock request.relative_path s
            ∙ held in
          let to_bak = law.rename-ok request.relative_path (dir ++ basename) t in
          let bak : is_ok out.0 ≡ true → law.node out.1 (dir ++ basename) ≡ some node =
            λ r. ground (arith, r, before, to_bak) in
          let gone : is_ok out.0 ≡ true → law.node out.1 request.relative_path ≡ none =
            λ r. ground (arith, r, to_bak) in
          let stays : is_ok out.0 ≡ false → law.node out.1 request.relative_path ≡ some node = λ r.
            ground (
              arith,
              r,
              before,
              law.rename-err request.relative_path (dir ++ basename) request.relative_path t,
            ) in
          rw h (λ r. ((current_timestamp s).0, dir, h, bak r, gone r), stays)

  -- A displacement of what stands at a path that is not the metadata directory. In a normal run it
  -- reports success or failure: on success what stood there stands under its name in a BAK
  -- directory beside it and nothing at the path, and on failure it still stands there. In a dry run
  -- it reports a plan and leaves everything as it is.
  pub displace_to_bak_lem :
      (node : Node) (s : T.State)
      → text_eq basename metadata ≡ false
      → law.node s request.relative_path ≡ some node
      → (is_dry_run request.options.mode ≡ true
          → ((displace_to_bak T current_timestamp request s).0.status ≡ planned_dry_run)
            × ((displace_to_bak T current_timestamp request s).1 ≡ s))
        × (is_dry_run request.options.mode ≡ false
            → ((displace_to_bak T current_timestamp request s).0.status ≡ displaced
                → IsMoved node (displace_to_bak T current_timestamp request s).1)
              × ((displace_to_bak T current_timestamp request s).0.status ≢ displaced
                  → ((displace_to_bak T current_timestamp request s).0.status ≡ failed)
                    × (law.node
                          (displace_to_bak T current_timestamp request s).1
                          request.relative_path
                        ≡ some node)))
  unfolding displace_to_bak
  displace_to_bak_lem node s user held = (
    λ dry. rw dry (refl, refl),
    λ normal. rw normal (go (move_to_bak T current_timestamp request parent basename s).0 refl),
  )
    where
      go :
          (r : Result (Unit {0}) PeerTransportError)
          → (move_to_bak T current_timestamp request parent basename s).0 ≡ r
          → ((moved T current_timestamp request r).status ≡ displaced
              → IsMoved node (move_to_bak T current_timestamp request parent basename s).1)
            × ((moved T current_timestamp request r).status ≢ displaced
                → ((moved T current_timestamp request r).status ≡ failed)
                  × (law.node
                        (move_to_bak T current_timestamp request parent basename s).1
                        request.relative_path
                      ≡ some node))
      go (ok _) e =
          let moves = move_to_bak-IsMoved node s (user-BakApart user) held in
          (λ h. moves.0 (ap is_ok e), λ h. absurd (h refl))
      go (err x) e =
          let moves = move_to_bak-IsMoved node s (user-BakApart user) held in
          (λ h. absurd (cc h), λ h. (refl, moves.1 (ap is_ok e)))
