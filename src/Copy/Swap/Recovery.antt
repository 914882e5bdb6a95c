-- ===== src/Copy/Swap/Recovery.antt =====
-- What the recovery of a user file's SWAP directory leaves.
use kitchensync.Base.{
  ℕ, ◌≡◌, ◌≢◌, refl, sym, subst, ◌∙◌, ◌⊎◌, inl, inr, Text, text_eq, Bool, true, false, Option, none,
  some, List, ◌++◌, Result, ok, err, is_ok, arith,
}
use kitchensync.Format.Types.{FormatRulesTimestamp, FormatRulesUserSwapPaths}
use kitchensync.Format.Paths.{user_swap_paths}
use kitchensync.Transport.Types.{PeerMetadata, PeerTransportError, not_found}
use kitchensync.Transport.Surface.{PeerTransportSurface, Node, file, NoFile, IsLawful}
use kitchensync.Transport.Action.{continue, ◌>>=◌}
use kitchensync.Copy.Types.{CopyStagingPeer}
use kitchensync.Copy.Places.{metadata, apart_sym}
use kitchensync.Copy.Places.Disjoint.{ArePlaces, user_swap_paths-ArePlaces}
use kitchensync.Copy.Swap.{
  path_exists, archive_swap_old, recover_files, recover_named_swap, found, delete_swap_directory,
}
use kitchensync.Copy.Swap.Archive.{live_path, InBak, archive_swap_old-IsArchived}

module _ (T : PeerTransportSurface) (current_timestamp : T.State → FormatRulesTimestamp × T.State)
    (peer : CopyStagingPeer) (law : IsLawful T peer.root)
    (clock : (q : Text) (s : T.State) → law.node (current_timestamp s).1 q ≡ law.node s q)
    (parent : Option Text) (basename : Text) (swap : FormatRulesUserSwapPaths)
    (places : ArePlaces parent basename swap) where
  abbrev pub live_at : Text
  live_at = live_path T current_timestamp peer law clock parent basename swap places

  abbrev pub recovered : Option Node → Option Node → Option Node → Option Node
  recovered old new (some live) = some live
  recovered old (some new) none = some new
  recovered old none none = old

  abbrev pub recovered_of : T.State → Option Node
  recovered_of s =
      recovered (law.node s swap.old_path) (law.node s swap.new_path) (law.node s live_at)

  abbrev Exists : Bool → Option Node → Type 0
  Exists true node = node ≢ none
  Exists false node = node ≡ none

  -- What can be put in place stays the same, and a success puts it in place; what the old file
  -- holds stays too, in its place, at the destination or in BAK; what is at the destination stays.
  pub record IsRecovery (s : T.State) (out : Result (Unit {0}) PeerTransportError × T.State)
      : Type 0 where
    pub same : recovered_of out.1 ≡ recovered_of s
    pub done :
        is_ok out.0 ≡ true
        → (law.node out.1 live_at ≡ recovered_of s)
          × (law.node out.1 swap.old_path ≡ none)
          × NoFile (law.node out.1 swap.new_path)
    pub still : law.node s live_at ≢ none → law.node out.1 live_at ≡ law.node s live_at
    pub kept :
        (content : List ℕ)
        → law.node s swap.old_path ≡ some (file content)
        → (law.node out.1 swap.old_path ≡ some (file content))
          ⊎ (law.node out.1 live_at ≡ some (file content))
          ⊎ InBak T current_timestamp peer law clock parent basename swap places content out.1

  -- A step that keeps the old file and, if it succeeds, puts the right file in place; and then the
  -- archive.
  IsRecovery-archive :
      (s : T.State) (r : Result (Unit {0}) PeerTransportError) (t : T.State)
      → recovered_of t ≡ recovered_of s
      → law.node t swap.old_path ≡ law.node s swap.old_path
      → (law.node s live_at ≢ none → law.node t live_at ≡ law.node s live_at)
      → (is_ok r ≡ true
          → (law.node t live_at ≡ recovered_of s)
            × (law.node t live_at ≢ none)
            × NoFile (law.node t swap.new_path))
      → IsRecovery s (
          continue r
            (λ _. archive_swap_old T current_timestamp peer parent basename swap.old_path)
            t)
  IsRecovery-archive s (err e) t same old still ready = record {
    same = same;
    still = still;
    done = λ r. absurd (cc r);
    kept = λ content held. inl (old ∙ held);
  }
  IsRecovery-archive s (ok _) t same old still ready =
      let archived =
        archive_swap_old-IsArchived T current_timestamp peer law clock parent basename swap places
          t in
      let (live, there, new) = ready refl in
      record {
        same = ground (arith, archived.live, live, there);
        still = λ h. archived.live ∙ still h;
        done = λ r. ground (arith, archived.live, live, new, archived.new, archived.done r);
        kept = λ content held. elim (archived.kept content (old ∙ held)) [
          | inl a ↦ inl a
          | inr b ↦ inr (inr b)
        ];
      }

  recover_files-IsRecovery :
      (o n l : Bool) (s : T.State)
      → Exists o (law.node s swap.old_path)
      → Exists n (law.node s swap.new_path)
      → Exists l (law.node s live_at)
      → IsRecovery s (recover_files T current_timestamp peer parent basename swap o n l s)
  unfolding recover_files
  recover_files-IsRecovery true true true s ho hn hl =
      let t = (T.delete_file peer.root swap.new_path s).1 in
      let old = law.node-delete_file swap.new_path swap.old_path s places.new-old in
      let live = law.node-delete_file swap.new_path live_at s places.new-live in
      IsRecovery-archive s (T.delete_file peer.root swap.new_path s).0 t (ground (arith, live, hl))
        old (λ h. live) (λ r. ground (arith, live, hl, r, law.delete_file-ok swap.new_path s))
  recover_files-IsRecovery true false true s ho hn hl =
      let archived =
        archive_swap_old-IsArchived T current_timestamp peer law clock parent basename swap places
          s in
      record {
        same = ground (arith, archived.live, archived.new, hl);
        still = λ h. archived.live;
        done = λ r. ground (arith, archived.live, archived.new, archived.done r, hl, hn);
        kept = λ content held. elim (archived.kept content held) [
          | inl a ↦ inl a
          | inr b ↦ inr (inr b)
        ];
      }
  recover_files-IsRecovery true true false s ho hn hl =
      let t = (T.rename peer.root swap.new_path live_at s).1 in
      let moved = law.rename-ok swap.new_path live_at s in
      let fails = λ (x : Text). law.rename-err swap.new_path live_at x s in
      let old =
        law.node-rename swap.new_path live_at swap.old_path s places.new-old
          (apart_sym swap.old_path live_at places.old-live) in
      IsRecovery-archive s (T.rename peer.root swap.new_path live_at s).0 t
        (ground (arith, moved, fails live_at, fails swap.new_path, old, hl, hn)) old
        (λ h. absurd (h hl)) (λ r. ground (arith, r, moved, hl, hn))
  recover_files-IsRecovery true false false s ho hn hl =
      let moved = law.rename-ok swap.old_path live_at s in
      let fails = λ (x : Text). law.rename-err swap.old_path live_at x s in
      let new =
        law.node-rename swap.old_path live_at swap.new_path s
          (apart_sym swap.new_path swap.old_path places.new-old)
          (apart_sym swap.new_path live_at places.new-live) in
      record {
        same = ground (arith, moved, new, fails swap.old_path, fails live_at, hn, hl);
        still = λ h. absurd (h hl);
        done = λ r. ground (arith, r, moved, new, hn, hl);
        kept = λ content held. ground (arith, held, moved, fails swap.old_path);
      }
  recover_files-IsRecovery false true true s ho hn hl =
      let old = law.node-delete_file swap.new_path swap.old_path s places.new-old in
      let live = law.node-delete_file swap.new_path live_at s places.new-live in
      record {
        same = ground (arith, old, live, hl);
        still = λ h. live;
        done = λ r. ground (arith, r, live, old, ho, hl, law.delete_file-ok swap.new_path s);
        kept = λ content held. absurd (cc (held, ho));
      }
  recover_files-IsRecovery false true false s ho hn hl =
      let moved = law.rename-ok swap.new_path live_at s in
      let fails = λ (x : Text). law.rename-err swap.new_path live_at x s in
      let old =
        law.node-rename swap.new_path live_at swap.old_path s places.new-old
          (apart_sym swap.old_path live_at places.old-live) in
      record {
        same = ground (arith, moved, old, fails swap.new_path, fails live_at, hl, hn);
        still = λ h. absurd (h hl);
        done = λ r. ground (arith, r, moved, old, ho, hl, hn);
        kept = λ content held. absurd (cc (held, ho));
      }
  recover_files-IsRecovery false false true s ho hn hl = record {
    same = refl;
    still = λ h. refl;
    done = λ r. ground (arith, ho, hn, hl);
    kept = λ content held. inl held;
  }
  recover_files-IsRecovery false false false s ho hn hl = record {
    same = refl;
    still = λ h. refl;
    done = λ r. ground (arith, ho, hn, hl);
    kept = λ content held. inl held;
  }

  stat_state : Text → T.State → T.State
  stat_state p s = (path_exists T current_timestamp peer p s).1

  node-stat_state : (p q : Text) (s : T.State) → law.node (stat_state p s) q ≡ law.node s q
  unfolding stat_state path_exists
  node-stat_state p q s = law.node-stat p q s

  IsRecovery-stat :
      (p : Text) (s : T.State) (out : Result (Unit {0}) PeerTransportError × T.State)
      → IsRecovery (stat_state p s) out
      → IsRecovery s out
  IsRecovery-stat p s out h =
      let same : recovered_of (stat_state p s) ≡ recovered_of s =
        rw
          (
            node-stat_state p swap.old_path s,
            node-stat_state p swap.new_path s,
            node-stat_state p live_at s,
          )
          refl in
      record {
        same = h.same ∙ same;
        still = λ there.
            h.still (λ gone. there (sym (node-stat_state p live_at s) ∙ gone))
            ∙ node-stat_state p live_at s;
        done = λ r. let (a, b, c) = h.done r in (a ∙ same, b, c);
        kept = λ content held. h.kept content (node-stat_state p swap.old_path s ∙ held);
      }

  IsRecovery-err :
      (p : Text) (s : T.State) (e : PeerTransportError) → IsRecovery s (err e, stat_state p s)
  IsRecovery-err p s e =
      IsRecovery-stat p s (err e, stat_state p s)
        (record {
          same = refl;
          still = λ h. refl;
          done = λ r. absurd (cc r);
          kept = λ content held. inl held;
        })

  path_exists-Exists :
      (p : Text) (s : T.State) (b : Bool)
      → (path_exists T current_timestamp peer p s).0 ≡ ok b
      → Exists b (law.node s p)
  unfolding path_exists
  path_exists-Exists p s b h = go b (T.stat peer.root p s).0 refl h
    where
      go :
          (b : Bool) (r : Result PeerMetadata PeerTransportError)
          → (T.stat peer.root p s).0 ≡ r
          → found r ≡ ok b
          → Exists b (law.node s p)
      go true (ok m) e f = law.stat-ok p s m e
      go false (err not_found) e f = law.stat-not_found p s e
      go true (err not_found) e f = absurd (cc f)
      go false (ok m) e f = absurd (cc f)
      go true (err x) e f = absurd (cc f)
      go false (err x) e f = absurd (cc f)

  Exists-stat :
      (b : Bool) (p q : Text) (s : T.State)
      → Exists b (law.node s q)
      → Exists b (law.node (stat_state p s) q)
  Exists-stat b p q s h = subst (Exists b) (sym (node-stat_state p q s)) h

  look :
      (p : Text) (s : T.State) (f : Bool → T.State → Result (Unit {0}) PeerTransportError × T.State)
      → ((b : Bool) → Exists b (law.node s p) → IsRecovery (stat_state p s) (f b (stat_state p s)))
      → IsRecovery s ((path_exists T current_timestamp peer p >>= f) s)
  unfolding stat_state
  look p s f h = go (path_exists T current_timestamp peer p s).0 refl
    where
      go :
          (r : Result Bool PeerTransportError)
          → (path_exists T current_timestamp peer p s).0 ≡ r
          → IsRecovery s (continue r f (stat_state p s))
      go (ok b) e = IsRecovery-stat p s _ (h b (path_exists-Exists p s b e))
      go (err x) e = IsRecovery-err p s x

  -- The removal of the SWAP directory, once the files are done.
  IsRecovery-directory :
      (s : T.State) (r : Result (Unit {0}) PeerTransportError) (t : T.State)
      → IsRecovery s (r, t)
      → IsRecovery s
          (continue r (λ _. delete_swap_directory T current_timestamp peer swap.directory_path) t)
  unfolding delete_swap_directory
  IsRecovery-directory s (err e) t h = h
  IsRecovery-directory s (ok _) t h =
      let live = law.node-delete_dir swap.directory_path live_at t places.directory-live in
      let old = law.node-delete_dir swap.directory_path swap.old_path t places.directory-old in
      let new = law.node-delete_dir swap.directory_path swap.new_path t places.directory-new in
      let (a, b, c) = h.done refl in
      record {
        same = rw (old, new, live) h.same;
        still = λ there. live ∙ h.still there;
        done = λ r. (live ∙ a, old ∙ b, subst NoFile (sym new) c);
        kept = λ content held. elim (h.kept content held) [
          | inl x ↦ inl (old ∙ x)
          | inr (inl x) ↦ inr (inl (live ∙ x))
          | inr (inr (now, dir, e, x)) ↦ inr (
              inr (
                now,
                dir,
                e,
                law.node-delete_dir swap.directory_path (dir ++ basename) t (places.bak now dir e).6
                    ∙ x,
              ))
        ];
      }

  pub recover_named_swap-IsRecovery :
      (s : T.State)
      → user_swap_paths parent basename ≡ ok swap
      → IsRecovery s (recover_named_swap T current_timestamp peer parent basename s)
  unfolding recover_named_swap stat_state
  recover_named_swap-IsRecovery s paths =
      rw (paths, recover_named_swap)
        (look swap.old_path s _ λ o ho. look swap.new_path (stat_state swap.old_path s) _ λ n hn.
          let s1 = stat_state swap.old_path s in
          let s2 = stat_state swap.new_path s1 in
          look live_at s2 _ λ l hl.
            let s3 = stat_state live_at s2 in
            IsRecovery-directory s3 _ _ (
              recover_files-IsRecovery o n l s3
                (Exists-stat o live_at swap.old_path s2 (
                  Exists-stat o swap.new_path swap.old_path s1
                    (Exists-stat o swap.old_path swap.old_path s ho)))
                (Exists-stat n live_at swap.new_path s2
                  (Exists-stat n swap.new_path swap.new_path s1 hn))
                (Exists-stat l live_at live_at s2 hl)))

-- The recovery of a user file's SWAP directory, for a file that is not the metadata directory and
-- has SWAP paths. Whatever fails on the way, the file that can be put in place stays the same, what
-- stands at the destination stays there, and the content of the old file is still in its place, at
-- the destination or in a BAK directory; and a success has the file in place, no old and no new one.
pub recover_named_swap_lem :
    (T : PeerTransportSurface) (current_timestamp : T.State → FormatRulesTimestamp × T.State)
    (peer : CopyStagingPeer) (law : IsLawful T peer.root)
    (clock : (q : Text) (s : T.State) → law.node (current_timestamp s).1 q ≡ law.node s q)
    (parent : Option Text) (basename : Text) (swap : FormatRulesUserSwapPaths)
    (paths : user_swap_paths parent basename ≡ ok swap) (user : text_eq basename metadata ≡ false)
    (s : T.State)
    → IsRecovery T current_timestamp peer law clock parent basename swap
        (user_swap_paths-ArePlaces parent basename swap paths user)
        s
        (recover_named_swap T current_timestamp peer parent basename s)
recover_named_swap_lem T current_timestamp peer law clock parent basename swap paths user s =
    recover_named_swap-IsRecovery T current_timestamp peer law clock parent basename swap
      (user_swap_paths-ArePlaces parent basename swap paths user) s paths
