-- ===== src/Copy/Swap/Archive.antt =====
-- What the archive of a SWAP directory's old file leaves.
use kitchensync.Base.{
  ℕ, ◌≡◌, refl, ◌∙◌, ◌⊎◌, inl, inr, Text, true, false, Bool-cases, Option, none, some, List, ◌++◌,
  Result, ok, err, is_ok, arith,
}
use kitchensync.Format.Types.{
  FormatRulesTimestamp, FormatRulesUserSwapPaths, FormatRulesValidationError,
}
use kitchensync.Format.Paths.{bak_directory_path}
use kitchensync.Transport.Types.{PeerTransportError}
use kitchensync.Transport.Surface.{PeerTransportSurface, file, IsLawful}
use kitchensync.Transport.Action.{◌>>◌}
use kitchensync.Copy.Types.{CopyStagingPeer}
use kitchensync.Copy.Paths.{join_parent_basename}
use kitchensync.Copy.Places.{apart_sym}
use kitchensync.Copy.Places.Disjoint.{ArePlaces}
use kitchensync.Copy.Swap.{archive_swap_old}

module _ (T : PeerTransportSurface) (current_timestamp : T.State → FormatRulesTimestamp × T.State)
    (peer : CopyStagingPeer) (law : IsLawful T peer.root)
    (clock : (q : Text) (s : T.State) → law.node (current_timestamp s).1 q ≡ law.node s q)
    (parent : Option Text) (basename : Text) (swap : FormatRulesUserSwapPaths)
    (places : ArePlaces parent basename swap) where
  abbrev pub live_path : Text
  live_path = join_parent_basename parent basename

  -- In the BAK directory of some time
  abbrev pub InBak : List ℕ → T.State → Type 0
  InBak content t =
      (now : FormatRulesTimestamp) × (dir : Text) × (bak_directory_path parent now ≡ ok dir)
      × (law.node t (dir ++ basename) ≡ some (file content))

  -- What archiving the old file leaves, from `s` on: the destination and the new file as they were,
  -- and the old file in its place if it fails, and in BAK if it succeeds.
  pub record IsArchived (s : T.State) (out : Result (Unit {0}) PeerTransportError × T.State)
      : Type 0 where
    pub live : law.node out.1 live_path ≡ law.node s live_path
    pub new : law.node out.1 swap.new_path ≡ law.node s swap.new_path
    pub failed : is_ok out.0 ≡ false → law.node out.1 swap.old_path ≡ law.node s swap.old_path
    pub done : is_ok out.0 ≡ true → law.node out.1 swap.old_path ≡ none
    pub kept :
        (content : List ℕ)
        → law.node s swap.old_path ≡ some (file content)
        → (law.node out.1 swap.old_path ≡ some (file content)) ⊎ InBak content out.1

  move_to_bak :
      (now : FormatRulesTimestamp) (dir : Text) (s : T.State)
      → bak_directory_path parent now ≡ ok dir
      → IsArchived s
          ((T.create_dir peer.root dir >> T.rename peer.root swap.old_path (dir ++ basename)) s)
  move_to_bak now dir s e =
      let (a, b, c, d, f, g, h) = places.bak now dir e in
      let t = (T.create_dir peer.root dir s).1 in
      let bak_path = dir ++ basename in
      let live1 = law.node-create_dir dir live_path s a in
      let new1 = law.node-create_dir dir swap.new_path s b in
      let old1 = law.node-create_dir dir swap.old_path s c in
      let live2 = law.node-rename swap.old_path bak_path live_path t places.old-live d in
      let new2 =
        law.node-rename swap.old_path bak_path swap.new_path t
          (apart_sym swap.new_path swap.old_path places.new-old) f in
      let out = (T.create_dir peer.root dir >> T.rename peer.root swap.old_path bak_path) s in
      let stays : is_ok out.0 ≡ false → law.node out.1 swap.old_path ≡ law.node s swap.old_path =
        λ r. ground (arith, r, old1, law.rename-err swap.old_path bak_path swap.old_path t) in
      let moves : is_ok out.0 ≡ true → law.node out.1 bak_path ≡ law.node s swap.old_path =
        λ r. ground (arith, r, old1, law.rename-ok swap.old_path bak_path t) in
      record {
        live = ground (arith, live1, live2);
        new = ground (arith, new1, new2);
        failed = stays;
        done = λ r. ground (arith, r, law.rename-ok swap.old_path bak_path t);
        kept = λ content held. elim (Bool-cases (is_ok out.0)) [
          | inl r ↦ inr (now, dir, e, moves r ∙ held)
          | inr r ↦ inl (stays r ∙ held)
        ];
      }

  IsArchived-clock :
      (s : T.State) (out : Result (Unit {0}) PeerTransportError × T.State)
      → IsArchived (current_timestamp s).1 out
      → IsArchived s out
  IsArchived-clock s out h = record {
    live = h.live ∙ clock live_path s;
    new = h.new ∙ clock swap.new_path s;
    failed = λ r. h.failed r ∙ clock swap.old_path s;
    done = h.done;
    kept = λ content held. h.kept content (clock swap.old_path s ∙ held);
  }

  pub archive_swap_old-IsArchived :
      (s : T.State)
      → IsArchived s (archive_swap_old T current_timestamp peer parent basename swap.old_path s)
  unfolding archive_swap_old
  archive_swap_old-IsArchived s = go (bak_directory_path parent (current_timestamp s).0) refl
    where
      go :
          (r : Result Text FormatRulesValidationError)
          → bak_directory_path parent (current_timestamp s).0 ≡ r
          → IsArchived s (archive_swap_old T current_timestamp peer parent basename swap.old_path s)
      go (err e) h = rw h (record {
        live = clock live_path s;
        new = clock swap.new_path s;
        failed = λ r. clock swap.old_path s;
        done = λ r. cc r;
        kept = λ content held. inl (clock swap.old_path s ∙ held);
      })
      go (ok dir) h =
          rw h (
            IsArchived-clock s _
              (move_to_bak (current_timestamp s).0 dir (current_timestamp s).1 h))
