-- ===== src/Snapshot/Swap/Upload.antt =====
-- What an upload of the snapshot leaves, wherever it stops.
use kitchensync.Base.{
  ℕ, ◌≡◌, ◌≢◌, ◌∙◌, refl, subst, sym, ◌⊎◌, inl, inr, Text, Bool, true, false, Bool-cases, Option,
  none, some, List, [], ◌∷◌, ◌++◌, append_assoc, append-nil, Result, ok, err, is_ok, arith,
}
use kitchensync.Transport.Types.{ConnectedPeerRoot, PeerMetadata, PeerTransportError, not_found}
use kitchensync.Transport.Surface.{PeerTransportSurface, Node, file, NoFile, IsLawful, apart}
use kitchensync.Snapshot.Types.{SnapshotDatabaseUploadResult, uploaded}
use kitchensync.Snapshot.Swap.{
  live_snapshot_path, old_path, new_path, LocalFile, peer_path_exists, exists_of, upload_chunks,
  upload_opened, close_upload, upload_local_file, install_new, move_live, after_upload,
  finish_upload, upload_snapshot,
}
use kitchensync.Snapshot.Swap.Recovery.{old_of, new_of, live_of, recovered_of}

-- The bytes up to the end of a local file, or to the read that fails.
abbrev pub contents : List (Option (List ℕ)) → List ℕ
contents [] = []
contents (none ∷ reads) = []
contents (some [] ∷ reads) = []
contents (some (b ∷ buffer) ∷ reads) = (b ∷ buffer) ++ contents reads

module _ (T : PeerTransportSurface) (root : ConnectedPeerRoot) (law : IsLawful T root) where
  upload_chunks-apart :
      (h : T.PeerWriteHandle) (reads : List (Option (List ℕ))) (q : Text) (s : T.State)
      → apart (law.writes_to h) q ≡ true
      → law.node (upload_chunks T root h reads s).1 q ≡ law.node s q
  unfolding upload_chunks
  upload_chunks-apart h [] q s away = refl
  upload_chunks-apart h (none ∷ reads) q s away = refl
  upload_chunks-apart h (some [] ∷ reads) q s away = refl
  upload_chunks-apart h (some (b ∷ buffer) ∷ reads) q s away =
      elim (Bool-cases (is_ok (T.write h (b ∷ buffer) s).0)) [
        | inl e ↦
            rw (e, upload_chunks)
              (upload_chunks-apart h reads q (T.write h (b ∷ buffer) s).1 away
                ∙ law.node-write h (b ∷ buffer) q s away)
        | inr e ↦ rw (e, upload_chunks) (law.node-write h (b ∷ buffer) q s away)
      ]

  upload_chunks-contents :
      (h : T.PeerWriteHandle) (reads : List (Option (List ℕ))) (before : List ℕ) (s : T.State)
      → law.node s (law.writes_to h) ≡ some (file before)
      → (upload_chunks T root h reads s).0 ≡ true
      → law.node (upload_chunks T root h reads s).1 (law.writes_to h)
        ≡ some (file (before ++ contents reads))
  unfolding upload_chunks
  upload_chunks-contents h [] before s start done = rw append-nil start
  upload_chunks-contents h (none ∷ reads) before s start done = absurd (cc done)
  upload_chunks-contents h (some [] ∷ reads) before s start done = rw append-nil start
  upload_chunks-contents h (some (b ∷ buffer) ∷ reads) before s start done =
      elim (Bool-cases (is_ok (T.write h (b ∷ buffer) s).0)) [
        | inl e ↦
            rw (e, upload_chunks)
              (rw (← append_assoc) (
                upload_chunks-contents h reads (before ++ (b ∷ buffer)) (T.write h (b ∷ buffer) s).1
                  (law.write-ok h (b ∷ buffer) before s start e) (rw (e, upload_chunks) at done)))
        | inr e ↦ absurd (cc (rw (e, upload_chunks) at done))
      ]

  close_upload-apart :
      (h : T.PeerWriteHandle) (out : Bool × T.State) (q : Text)
      → apart (law.writes_to h) q ≡ true
      → law.node (close_upload T root h out).1 q ≡ law.node out.1 q
  close_upload-apart h (true, s) q away = law.node-close_write h q s away
  close_upload-apart h (false, s) q away = refl

  close_upload-contents :
      (h : T.PeerWriteHandle) (out : Bool × T.State)
      → (close_upload T root h out).0 ≡ true
      → (out.0 ≡ true)
        × (law.node (close_upload T root h out).1 (law.writes_to h)
            ≡ law.node out.1 (law.writes_to h))
  close_upload-contents h (true, s) done = (refl, law.close_write-ok h s done)
  close_upload-contents h (false, s) done = absurd (cc done)

  abbrev pub wanted : LocalFile → List ℕ
  wanted none = []
  wanted (some reads) = contents reads

  -- The upload writes nowhere but at its path.
  upload_local_file-apart :
      (local : LocalFile) (p q : Text) (s : T.State)
      → apart p q ≡ true
      → law.node (upload_local_file T root local p s).1 q ≡ law.node s q
  unfolding upload_local_file
  upload_local_file-apart none p q s away = refl
  upload_local_file-apart (some reads) p q s away =
      go (T.open_write root p s).0 refl ∙ law.node-open_write p q s away
    where
      go :
          (r : Result T.PeerWriteHandle PeerTransportError)
          → (T.open_write root p s).0 ≡ r
          → law.node (upload_opened T root reads (r, (T.open_write root p s).1)).1 q
            ≡ law.node (T.open_write root p s).1 q
      go (err e) f = refl
      go (ok h) f =
          let at = (law.open_write-ok p s h f).0 in
          let away_h = subst (λ x. apart x q ≡ true) (sym at) away in
          close_upload-apart h (upload_chunks T root h reads (T.open_write root p s).1) q away_h
          ∙ upload_chunks-apart h reads q (T.open_write root p s).1 away_h

  upload_local_file-contents :
      (local : LocalFile) (p : Text) (s : T.State)
      → (upload_local_file T root local p s).0 ≡ true
      → law.node (upload_local_file T root local p s).1 p ≡ some (file (wanted local))
  unfolding upload_local_file
  upload_local_file-contents none p s done = absurd (cc done)
  upload_local_file-contents (some reads) p s done = go (T.open_write root p s).0 refl done
    where
      go :
          (r : Result T.PeerWriteHandle PeerTransportError)
          → (T.open_write root p s).0 ≡ r
          → (upload_opened T root reads (r, (T.open_write root p s).1)).0 ≡ true
          → law.node (upload_opened T root reads (r, (T.open_write root p s).1)).1 p
            ≡ some (file (contents reads))
      go (err e) f end = absurd (cc end)
      go (ok h) f end =
          let (at, empty) = law.open_write-ok p s h f in
          let t = (T.open_write root p s).1 in
          let out = upload_chunks T root h reads t in
          let (all_written, same) = close_upload-contents h out end in
          let start = subst (λ x. law.node t x ≡ some (file [])) (sym at) empty in
          subst (λ x. law.node (close_upload T root h out).1 x ≡ some (file (contents reads))) at
            (same ∙ upload_chunks-contents h reads [] t start all_written)

  -- Where the new snapshot is live, or was moved away from for it to be, it is what can be recovered.
  finish_upload-recovered :
      (peer_index : ℕ) (s : T.State) (n : Node)
      → live_of T root law s ≡ some n
      → (live_of T root law (finish_upload T root peer_index s).1 ≡ some n)
        × ((finish_upload T root peer_index s).0 ≡ uploaded
            → NoFile (old_of T root law (finish_upload T root peer_index s).1))
  unfolding apart
  finish_upload-recovered peer_index s n live = ground (
    arith,
    law.node-delete_file old_path live_snapshot_path s refl,
    law.delete_file-ok old_path s,
    law.delete_file-err old_path old_path s,
    law.delete_file-not_found old_path s,
  )

  install_new-recovered :
      (peer_index : ℕ) (s : T.State) (n : Node)
      → live_of T root law s ≡ none
      → new_of T root law s ≡ some n
      → (recovered_of T root law (install_new T root peer_index true s).1 ≡ some n)
        × ((install_new T root peer_index true s).0 ≡ uploaded
            → (live_of T root law (install_new T root peer_index true s).1 ≡ some n)
              × NoFile (old_of T root law (install_new T root peer_index true s).1))
  unfolding apart
  install_new-recovered peer_index s n live new =
      let t = (T.rename root new_path live_snapshot_path s).1 in
      ground (
        arith,
        law.rename-ok new_path live_snapshot_path s,
        law.rename-err new_path live_snapshot_path new_path s,
        law.rename-err new_path live_snapshot_path live_snapshot_path s,
        finish_upload-recovered peer_index t n,
      )

  -- What an upload of `local` over a live snapshot `before` may leave, with the result `out`.
  abbrev pub IsRecoverable : Node → LocalFile → SnapshotDatabaseUploadResult × T.State → Type 0
  IsRecoverable before local (result, t) =
      ((recovered_of T root law t ≡ some before)
        ⊎ (recovered_of T root law t ≡ some (file (wanted local))))
      × (result ≡ uploaded
          → (live_of T root law t ≡ some (file (wanted local))) × NoFile (old_of T root law t))

  move_live-IsRecoverable :
      (peer_index : ℕ) (local : LocalFile) (before : Node) (found : Result Bool PeerTransportError)
      (s : T.State)
      → (found ≢ ok false)
      → live_of T root law s ≡ some before
      → new_of T root law s ≡ some (file (wanted local))
      → IsRecoverable before local (move_live T root peer_index found s)
  unfolding apart
  move_live-IsRecoverable peer_index local before (err e) s seen live new = ground (arith, live)
  move_live-IsRecoverable peer_index local before (ok false) s seen live new = absurd (seen refl)
  move_live-IsRecoverable peer_index local before (ok true) s seen live new =
      let t = (T.rename root live_snapshot_path old_path s).1 in
      ground (
        arith,
        law.rename-ok live_snapshot_path old_path s,
        law.rename-err live_snapshot_path old_path live_snapshot_path s,
        law.node-rename live_snapshot_path old_path new_path s refl refl,
        install_new-recovered peer_index t (file (wanted local)),
      )

  -- The live snapshot is there, so a look at it does not find it missing.
  not_missing :
      (s : T.State) (before : Node)
      → live_of T root law s ≡ some before
      → (peer_path_exists T root live_snapshot_path s).0 ≢ ok false
  unfolding peer_path_exists
  not_missing s before live = go (T.stat root live_snapshot_path s).0 refl
    where
      go :
          (r : Result PeerMetadata PeerTransportError)
          → (T.stat root live_snapshot_path s).0 ≡ r
          → exists_of r ≢ ok false
      go (ok m) e f = cc f
      go (err not_found) e f = cc (law.stat-not_found live_snapshot_path s e, live)
      go (err x) e f = cc f

  after_upload-IsRecoverable :
      (peer_index : ℕ) (local : LocalFile) (before : Node) (out : Bool × T.State)
      → live_of T root law out.1 ≡ some before
      → (out.0 ≡ true → new_of T root law out.1 ≡ some (file (wanted local)))
      → IsRecoverable before local (after_upload T root peer_index out)
  after_upload-IsRecoverable peer_index local before (false, s) live new = ground (arith, live)
  after_upload-IsRecoverable peer_index local before (true, s) live new =
      move_live-IsRecoverable peer_index local before
        (peer_path_exists T root live_snapshot_path s).0
        (peer_path_exists T root live_snapshot_path s).1 (not_missing s before live)
        (same live_snapshot_path ∙ live) (same new_path ∙ new refl)
    where
      same : (q : Text) → law.node (peer_path_exists T root live_snapshot_path s).1 q ≡ law.node s q
      same q = unfold peer_path_exists in law.node-stat live_snapshot_path q s

  -- An upload over a live snapshot leaves, wherever it stops, that snapshot or the whole new one as
  -- the one that a recovery puts in place; and if it reports success, the new one is live and no
  -- file is left as the old one.
  pub upload_snapshot-IsRecoverable :
      (peer_index : ℕ) (local : LocalFile) (before : Node) (s : T.State)
      → live_of T root law s ≡ some before
      → IsRecoverable before local (upload_snapshot T root peer_index local s)
  unfolding upload_snapshot apart
  upload_snapshot-IsRecoverable peer_index local before s live =
      after_upload-IsRecoverable peer_index local before (upload_local_file T root local new_path s)
        (upload_local_file-apart local new_path live_snapshot_path s refl ∙ live)
        (upload_local_file-contents local new_path s)
