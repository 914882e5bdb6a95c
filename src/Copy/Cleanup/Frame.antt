-- ===== src/Copy/Cleanup/Frame.antt =====
-- What a cleanup leaves alone.
use kitchensync.Base.{
  ℕ, zero, suc, ◌≡◌, ◌≢◌, refl, ◌∙◌, codes, Text, text_eq, true, false, not, Option, none, some,
  List, [], ◌∷◌, Result, ok, err, Bool-cases, inl, inr,
}
use kitchensync.Format.Time.{Chrono}
use kitchensync.Transport.Types.{
  ConnectedPeerRoot, PeerDirectoryEntry, PeerTransportError, not_found, permission_denied, io_error,
}
use kitchensync.Transport.Surface.{PeerTransportSurface, Node, apart}
use kitchensync.Transport.Action.{Action}
use kitchensync.Transport.Keeps.{Keeps, bind-Keeps, if-Keeps}
use kitchensync.Copy.Types.{CopyStagingDirectoryRequest}
use kitchensync.Copy.Swap.{is_dry_run}
use kitchensync.Copy.Cleanup.{
  Halt, join_child, metadata_child_path, lifted, each, recursive_delete, is_expired, clean_entry,
  clean_listed, cleanup_timestamp_dir, cleanup_metadata,
}
use kitchensync.Copy.Cleanup.Apart.{apart-join_child, join_child-some, apart-not_same}

-- The documented effects of the operations that a cleanup calls: looking changes nothing, and a
-- removal concerns the path it is given.
pub record IsCareful (T : PeerTransportSurface) (root : ConnectedPeerRoot) : Type 0 where
  pub node : T.State → Text → Option Node
  pub node-stat : (p q : Text) (s : T.State) → node (T.stat root p s).1 q ≡ node s q
  pub node-list_dir : (p q : Text) (s : T.State) → node (T.list_dir root p s).1 q ≡ node s q
  pub node-delete_file :
      (p q : Text) (s : T.State) → apart p q ≡ true → node (T.delete_file root p s).1 q ≡ node s q
  pub node-delete_dir :
      (p q : Text) (s : T.State) → text_eq p q ≡ false → node (T.delete_dir root p s).1 q ≡ node s q

metadata_child_path-some :
    (parent : Option Text) (child : Text) → metadata_child_path parent child ≢ []
metadata_child_path-some none child e = cc e
metadata_child_path-some (some []) child e = cc e
metadata_child_path-some (some (c ∷ parent)) child e = cc e

module _ (T : PeerTransportSurface) (chrono : Chrono) (request : CopyStagingDirectoryRequest)
    (law : IsCareful T request.peer.root) (q : Text) where
  -- A step leaves what stands at `q`.
  abbrev pub Leaves : {A : Type 0} → Action T.State Halt A → Type 0
  Leaves step = Keeps (λ s. law.node s q) step

  each-Leaves :
      (step : PeerDirectoryEntry → Action T.State Halt (Unit {0}))
      (entries : List PeerDirectoryEntry)
      → ((entry : PeerDirectoryEntry) → Leaves (step entry))
      → Leaves (each T step entries)
  each-Leaves step [] h s = refl
  each-Leaves step (entry ∷ entries) h s =
      bind-Keeps (λ s. law.node s q) (step entry) (λ _. each T step entries) (h entry)
        (λ _. each-Leaves step entries h) s

  recursive_delete-Leaves :
      (fuel : ℕ) (path : Text)
      → path ≢ []
      → apart path q ≡ true
      → Leaves (recursive_delete T fuel request.peer path)
  unfolding recursive_delete
  recursive_delete-Leaves zero path some_path away s = refl
  recursive_delete-Leaves (suc fuel) path some_path away s =
      let child = λ (entry : PeerDirectoryEntry).
        recursive_delete T fuel request.peer (join_child path entry.child_name) in
      let listed =
        bind-Keeps (λ s. law.node s q) (lifted T (T.list_dir request.peer.root path)) (each T child)
          (law.node-list_dir path q)
          (λ entries. each-Leaves child entries λ entry.
            recursive_delete-Leaves fuel (join_child path entry.child_name)
              (join_child-some path entry.child_name some_path)
              (apart-join_child path entry.child_name q some_path away)) in
      bind-Keeps (λ s. law.node s q) (lifted T (T.stat request.peer.root path)) _
        (law.node-stat path q)
        (λ metadata.
          if-Keeps (λ s. law.node s q) metadata.is_dir _
            (lifted T (T.delete_file request.peer.root path))
            (bind-Keeps (λ s. law.node s q) _ (λ _. lifted T (T.delete_dir request.peer.root path))
              listed (λ _ s. law.node-delete_dir path q s (apart-not_same path q away)))
            (λ s. law.node-delete_file path q s away))
        s

  clean_entry-Leaves :
      (fuel : ℕ) (root_path : Text) (keep_days now : ℕ) (entry : PeerDirectoryEntry)
      → root_path ≢ []
      → apart root_path q ≡ true
      → Leaves (clean_entry T chrono fuel request.peer root_path keep_days now entry)
  unfolding clean_entry
  clean_entry-Leaves fuel root_path keep_days now entry some_path away =
      if-Keeps (λ s. law.node s q) (not entry.is_dir) _ _ (λ s. refl)
        (if-Keeps (λ s. law.node s q) (is_expired T chrono keep_days now entry)
          (recursive_delete T fuel request.peer (join_child root_path entry.child_name)) _
          (recursive_delete-Leaves fuel (join_child root_path entry.child_name)
            (join_child-some root_path entry.child_name some_path)
            (apart-join_child root_path entry.child_name q some_path away))
          (λ s. refl))

  cleanup_timestamp_dir-Leaves :
      (fuel : ℕ) (root_path : Text) (keep_days now : ℕ)
      → root_path ≢ []
      → apart root_path q ≡ true
      → Leaves (cleanup_timestamp_dir T chrono fuel request.peer root_path keep_days now)
  unfolding cleanup_timestamp_dir clean_listed
  cleanup_timestamp_dir-Leaves fuel root_path keep_days now some_path away s =
      go (T.list_dir request.peer.root root_path s).0 (T.list_dir request.peer.root root_path s).1
      ∙ law.node-list_dir root_path q s
    where
      go :
          (listed : Result (List PeerDirectoryEntry) PeerTransportError)
          → Leaves (clean_listed T chrono fuel request.peer root_path keep_days now listed)
      go (ok entries) t =
          each-Leaves (clean_entry T chrono fuel request.peer root_path keep_days now) entries
            (λ entry. clean_entry-Leaves fuel root_path keep_days now entry some_path away) t
      go (err not_found) t = refl
      go (err permission_denied) t = refl
      go (err io_error) t = refl

  -- A cleanup of a directory's metadata leaves all that lies apart from its BAK and its TMP
  -- directory as it was, whatever it removes there and wherever it stops.
  pub cleanup_metadata-Leaves :
      (fuel now : ℕ) (s : T.State)
      → apart (metadata_child_path request.directory_relative_path (codes "BAK")) q ≡ true
      → apart (metadata_child_path request.directory_relative_path (codes "TMP")) q ≡ true
      → law.node (cleanup_metadata T chrono fuel now request s).1 q ≡ law.node s q
  unfolding cleanup_metadata
  cleanup_metadata-Leaves fuel now s bak tmp = elim (Bool-cases (is_dry_run request.options.mode)) [
    | inl e ↦ rw e refl
    | inr e ↦ rw e (
        bind-Keeps (λ s. law.node s q)
          (cleanup_timestamp_dir T chrono fuel request.peer
            (metadata_child_path request.directory_relative_path (codes "BAK"))
            request.options.keep_bak_days now)
          (λ _.
            cleanup_timestamp_dir T chrono fuel request.peer
              (metadata_child_path request.directory_relative_path (codes "TMP"))
              request.options.keep_tmp_days now)
          (cleanup_timestamp_dir-Leaves fuel _ request.options.keep_bak_days now
            (metadata_child_path-some request.directory_relative_path (codes "BAK")) bak)
          (λ _.
            cleanup_timestamp_dir-Leaves fuel _ request.options.keep_tmp_days now
              (metadata_child_path-some request.directory_relative_path (codes "TMP")) tmp)
          s)
  ]
