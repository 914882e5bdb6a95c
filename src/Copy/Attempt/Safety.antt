-- ===== src/Copy/Attempt/Safety.antt =====
-- What a copy leaves of the file that it replaces.
use kitchensync.Base.{
  ℕ, ◌≡◌, ◌≢◌, refl, sym, subst, ap, ◌∙◌, ◌⊎◌, inl, inr, Text, text_eq, Bool, true, false, Option,
  none, some, List, [], ◌∷◌, ◌++◌, Result, ok, err, codes, append_assoc, rsplit_once, ◌==◌, is_ok,
  arith, if◌then◌else◌,
}
use kitchensync.Format.Types.{FormatRulesTimestamp, FormatRulesUserSwapPaths}
use kitchensync.Format.Paths.{user_swap_paths}
use kitchensync.Transport.Types.{PeerMetadata, PeerTransportError, not_found}
use kitchensync.Transport.Surface.{PeerTransportSurface, file, IsLawful, apart}
use kitchensync.Transport.Action.{continue, ◌>>◌}
use kitchensync.Copy.Types.{CopyStagingCopyRequest}
use kitchensync.Copy.Types.{set_mod_time, cleanup}
use kitchensync.Copy.Paths.{join_parent_basename, split_parent_basename, split_path}
use kitchensync.Copy.Places.{metadata, apart_sym}
use kitchensync.Copy.Places.Disjoint.{ArePlaces, user_swap_paths-ArePlaces}
use kitchensync.Copy.Swap.{path_exists, recover_named_swap, found}
use kitchensync.Copy.Swap.Archive.{InBak, archive_swap_old-IsArchived}
use kitchensync.Copy.Swap.Recovery.{recover_named_swap-IsRecovery}
use kitchensync.Copy.Attempt.{
  Stop, at_phase, transfer, install, rename_new, finish_copy, move_existing, after_old, after_final,
  archive_if, copy_to, copy_attempt,
}
use kitchensync.Copy.Attempt.Transfer.{transfer-leaves}

module _ (T : PeerTransportSurface) (current_timestamp : T.State → FormatRulesTimestamp × T.State)
    (request : CopyStagingCopyRequest) (law : IsLawful T request.destination_peer.root)
    (clock : (q : Text) (s : T.State) → law.node (current_timestamp s).1 q ≡ law.node s q) where
  module _ (parent : Option Text) (basename : Text) (swap : FormatRulesUserSwapPaths)
      (places : ArePlaces parent basename swap)
      (destination : request.destination_path ≡ join_parent_basename parent basename) where
    abbrev InBakOf : List ℕ → T.State → Type 0
    InBakOf content t =
        InBak T current_timestamp request.destination_peer law clock parent basename swap places
          content t

    abbrev IsOld : List ℕ → T.State → Type 0
    IsOld content t = (law.node t swap.old_path ≡ some (file content)) ⊎ InBakOf content t

    -- The content is at the destination, in SWAP as the old file, or in BAK.
    abbrev pub IsKept : List ℕ → T.State → Type 0
    IsKept content t =
        (law.node t request.destination_path ≡ some (file content))
        ⊎ (law.node t swap.old_path ≡ some (file content))
        ⊎ InBakOf content t

    archive_if-IsOld :
        (content : List ℕ) (s : T.State)
        → law.node s swap.old_path ≡ some (file content)
        → IsOld content
            (archive_if T current_timestamp request true parent basename swap.old_path s).1
    archive_if-IsOld content s held =
        let archived =
          archive_swap_old-IsArchived T current_timestamp request.destination_peer law clock parent
            basename swap places s in
        archived.kept content held

    delete_dir-IsOld :
        (content : List ℕ) (s : T.State)
        → IsOld content s
        → IsOld content (T.delete_dir request.destination_peer.root swap.directory_path s).1
    delete_dir-IsOld content s (inl h) =
        inl (law.node-delete_dir swap.directory_path swap.old_path s places.directory-old ∙ h)
    delete_dir-IsOld content s (inr (now, dir, e, h)) = inr (
      now,
      dir,
      e,
      law.node-delete_dir swap.directory_path (dir ++ basename) s (places.bak now dir e).6 ∙ h,
    )

    bind_state :
        {A B : Type 0} (P : T.State → Type 0) (s : T.State) (m : T.State → Result A Stop × T.State)
        (f : A → T.State → Result B Stop × T.State)
        → P (m s).1
        → ((a : A) → P (f a (m s).1).1)
        → P (continue (m s).0 f (m s).1).1
    bind_state {A} {B} P s m f h g = go (m s).0
      where
        go : (r : Result A Stop) → P (continue r f (m s).1).1
        go (ok a) = g a
        go (err x) = h

    finish_copy-IsOld :
        (content : List ℕ) (s : T.State)
        → law.node s swap.old_path ≡ some (file content)
        → IsOld content (finish_copy T current_timestamp request parent basename swap true s).1
    unfolding finish_copy
    finish_copy-IsOld content s held =
        let setting = at_phase T current_timestamp set_mod_time true (
          T.set_mod_time request.destination_peer.root request.destination_path
            request.winning_mod_time) in
        let archiving = archive_if T current_timestamp request true parent basename swap.old_path in
        let clearing =
          at_phase T current_timestamp cleanup true
            (T.delete_dir request.destination_peer.root swap.directory_path) in
        let s1 = (setting s).1 in
        let held1 =
          law.node-set_mod_time request.destination_path swap.old_path request.winning_mod_time s
          ∙ held in
        let held2 = archive_if-IsOld content s1 held1 in
        bind_state (IsOld content) s setting (λ _. archiving >> clearing) (inl held1)
          λ a.
            bind_state (IsOld content) s1 archiving (λ _. clearing) held2
              λ b. delete_dir-IsOld content (archiving s1).1 held2

    new-destination : apart swap.new_path request.destination_path ≡ true
    new-destination = rw destination places.new-live

    old-destination : apart swap.old_path request.destination_path ≡ true
    old-destination = rw destination places.old-live

    rename_new-IsOld :
        (content : List ℕ) (s : T.State)
        → law.node s swap.old_path ≡ some (file content)
        → IsOld content (rename_new T current_timestamp request parent basename swap true s).1
    unfolding rename_new
    rename_new-IsOld content s held =
        go (T.rename request.destination_peer.root swap.new_path request.destination_path s).0
      where
        t : T.State
        t = (T.rename request.destination_peer.root swap.new_path request.destination_path s).1

        held1 : law.node t swap.old_path ≡ some (file content)
        held1 =
            law.node-rename swap.new_path request.destination_path swap.old_path s places.new-old
              (apart_sym swap.old_path request.destination_path old-destination)
            ∙ held

        go :
            (r : Result (Unit {0}) PeerTransportError)
            → IsOld content
                (after_final T current_timestamp request parent basename swap true r t).1
        go (ok _) = finish_copy-IsOld content t held1
        go (err e) = inl held1

    move_existing-IsKept :
        (content : List ℕ) (found_live : Result Bool PeerTransportError) (s : T.State)
        → found_live ≢ ok false
        → law.node s request.destination_path ≡ some (file content)
        → (law.node
              (move_existing T current_timestamp request parent basename swap found_live s).1
              request.destination_path
            ≡ some (file content))
          ⊎ IsOld content
              (move_existing T current_timestamp request parent basename swap found_live s).1
    move_existing-IsKept content (ok false) s there held = absurd (there refl)
    move_existing-IsKept content (err e) s there held =
        inl (law.node-delete_file swap.new_path request.destination_path s new-destination ∙ held)
    move_existing-IsKept content (ok true) s there held =
        go (T.rename request.destination_peer.root request.destination_path swap.old_path s).0 refl
      where
        t : T.State
        t = (T.rename request.destination_peer.root request.destination_path swap.old_path s).1

        go :
            (r : Result (Unit {0}) PeerTransportError)
            → (T.rename request.destination_peer.root request.destination_path swap.old_path s).0
              ≡ r
            → (law.node
                  (after_old T current_timestamp request parent basename swap r t).1
                  request.destination_path
                ≡ some (file content))
              ⊎ IsOld content (after_old T current_timestamp request parent basename swap r t).1
        go (ok _) e = inr (
            rename_new-IsOld content t
              ((law.rename-ok request.destination_path swap.old_path s (ap is_ok e)).0 ∙ held))
        go (err x) e = inl (
            law.node-delete_file swap.new_path request.destination_path t new-destination
            ∙ law.rename-err request.destination_path swap.old_path request.destination_path s
                (ap is_ok e)
            ∙ held)

    not_missing :
        (s : T.State) (content : List ℕ)
        → law.node s request.destination_path ≡ some (file content)
        → (path_exists T current_timestamp request.destination_peer request.destination_path s).0
          ≢ ok false
    unfolding path_exists
    not_missing s content held =
        go (T.stat request.destination_peer.root request.destination_path s).0 refl
      where
        go :
            (r : Result PeerMetadata PeerTransportError)
            → (T.stat request.destination_peer.root request.destination_path s).0 ≡ r
            → found r ≢ ok false
        go (ok m) e f = cc f
        go (err not_found) e f = cc (law.stat-not_found request.destination_path s e, held)
        go (err x) e f = cc f

    install-IsKept :
        (content : List ℕ) (s : T.State)
        → law.node s request.destination_path ≡ some (file content)
        → (law.node
              (install T current_timestamp request parent basename swap s).1
              request.destination_path
            ≡ some (file content))
          ⊎ IsOld content (install T current_timestamp request parent basename swap s).1
    unfolding install path_exists
    install-IsKept content s held =
        move_existing-IsKept content _ _ (not_missing s content held)
          (law.node-stat request.destination_path request.destination_path s ∙ held)

    pub copy_to-IsKept :
        (fuel : ℕ) (content : List ℕ) (s : T.State)
        → user_swap_paths parent basename ≡ ok swap
        → law.node s request.destination_path ≡ some (file content)
        → IsKept content (copy_to T current_timestamp request fuel parent basename s).1
    unfolding copy_to
    copy_to-IsKept fuel content s paths held =
        let recovering =
          at_phase T current_timestamp cleanup false
            (recover_named_swap T current_timestamp request.destination_peer parent basename) in
        let moving = transfer T current_timestamp request fuel swap in
        let installing = install T current_timestamp request parent basename swap in
        let recovery =
          recover_named_swap-IsRecovery T current_timestamp request.destination_peer law clock
            parent basename swap places s paths in
        let s1 = (recovering s).1 in
        let held0 : law.node s (join_parent_basename parent basename) ≡ some (file content) =
          subst (λ p. law.node s p ≡ some (file content)) destination held in
        let still = recovery.still (λ gone. cc (gone, held0)) ∙ held0 in
        let held1 : law.node s1 request.destination_path ≡ some (file content) =
          subst (λ p. law.node s1 p ≡ some (file content)) (sym destination) still in
        let s2 = (moving s1).1 in
        let held2 =
          transfer-leaves T current_timestamp request law clock fuel swap request.destination_path
            s1 new-destination
          ∙ held1 in
        rw (paths, copy_to)
          (bind_state (IsKept content) s recovering (λ _. moving >> installing) (inl held1)
            λ a.
              bind_state (IsKept content) s1 moving (λ _. installing) (inl held2)
                λ b. install-IsKept content s2 held2)

rsplit_once-join : (c : ℕ) (s a b : Text) → rsplit_once c s ≡ some (a, b) → s ≡ a ++ (c ∷ b)
unfolding rsplit_once
rsplit_once-join c [] a b h = absurd (cc h)
rsplit_once-join c (x ∷ s) a b h = go (λ u v e. rsplit_once-join c s u v e) (rsplit_once c s) refl h
  where
    go :
        ((u v : Text) → rsplit_once c s ≡ some (u, v) → s ≡ u ++ (c ∷ v))
        → (r : Option (Text × Text)) → rsplit_once c s ≡ r
        → ◌≡◌ {A = Option (Text × Text)}
            (elim r [
              | some (u, v) ↦ some (x ∷ u, v)
              | none ↦ if x == c then some ([], s) else none
            ])
            (some (a, b))
        → x ∷ s ≡ a ++ (c ∷ b)
    go shorter none e h = ground (arith, h)
    go shorter (some (u, v)) e h = ground (arith, h, shorter u v e)

pub split_parent_basename-join :
    (path : Text)
    → path ≡ join_parent_basename (split_parent_basename path).0 (split_parent_basename path).1
unfolding split_parent_basename
split_parent_basename-join path = go (rsplit_once b'/' path) refl
  where
    go :
        (r : Option (Text × Text))
        → rsplit_once b'/' path ≡ r
        → path ≡ join_parent_basename (split_path path r).0 (split_path path r).1
    go none h = refl
    go (some (parent, basename)) h =
        rsplit_once-join b'/' path parent basename h
        ∙ sym (append_assoc parent (codes "/") basename)

-- A copy to a path that has SWAP paths and is not the metadata directory. Whatever fails, and
-- wherever the attempt stops, the content of the file that stood at the destination is afterwards
-- at the destination, in SWAP as the old file, or under its name in a BAK directory beside it.
pub copy_attempt-IsKept :
    (T : PeerTransportSurface) (current_timestamp : T.State → FormatRulesTimestamp × T.State)
    (request : CopyStagingCopyRequest) (law : IsLawful T request.destination_peer.root)
    (clock : (q : Text) (s : T.State) → law.node (current_timestamp s).1 q ≡ law.node s q)
    (swap : FormatRulesUserSwapPaths)
    (paths : user_swap_paths
        (split_parent_basename request.destination_path).0
        (split_parent_basename request.destination_path).1
      ≡ ok swap)
    (user : text_eq (split_parent_basename request.destination_path).1 metadata ≡ false) (fuel : ℕ)
    (content : List ℕ) (s : T.State)
    → law.node s request.destination_path ≡ some (file content)
    → IsKept T current_timestamp request law clock
        (split_parent_basename request.destination_path).0
        (split_parent_basename request.destination_path).1
        swap
        (user_swap_paths-ArePlaces
          (split_parent_basename request.destination_path).0
          (split_parent_basename request.destination_path).1
          swap
          paths
          user)
        (split_parent_basename-join request.destination_path)
        content
        (copy_attempt T current_timestamp request fuel s).1
unfolding copy_attempt
copy_attempt-IsKept T current_timestamp request law clock swap paths user fuel content s held =
    let parent = (split_parent_basename request.destination_path).0 in
    let basename = (split_parent_basename request.destination_path).1 in
    copy_to-IsKept T current_timestamp request law clock parent basename swap
      (user_swap_paths-ArePlaces parent basename swap paths user)
      (split_parent_basename-join request.destination_path) fuel content s paths held
