-- ===== src/Traversal/Listing/Attempts.antt =====
-- How often a directory of a peer is listed.
use kitchensync.Base.{
  ◌≢◌, ℕ, zero, suc, ◌<◌, ◌≡◌, refl, Text, Option, List, Result, ok, err, max, arith,
}
use kitchensync.Transport.Types.{
  ConnectedPeerRoot, PeerDirectoryEntry, PeerTransportError, io_error,
}
use kitchensync.Copy.Types.{CopyStagingSwapRecoveryStatus, recovered, skipped_dry_run, failed}
use kitchensync.Traversal.Types.{ActivePeer}
use kitchensync.Traversal.Services.{Services}
use kitchensync.Traversal.Listing.{
  transport_path, directory_request, list_attempts, attempts_of, list_dir_for_peer,
}

module _ (X : Services) where
  -- A number of attempts at a listing, all of which fail, with the last error; or none, with the
  -- error there was.
  pub data Failures (root : ConnectedPeerRoot) (path : Text)
      : ℕ → PeerTransportError → PeerTransportError → X.State → X.State → Type 0 where
    no_attempt : (e : PeerTransportError) (s : X.State) → Failures root path 0 e e s s
    failure :
        (n : ℕ) (before e last : PeerTransportError) (s t u : X.State)
        → X.list_dir root path s ≡ (err e, t)
        → Failures root path n e last t u
        → Failures root path (suc n) before last s u

  -- The answer of a row of attempts: the first success, or the last of as many failures as may be
  abbrev pub Answers :
      ConnectedPeerRoot
      → Text
      → ℕ
      → PeerTransportError
      → X.State
      → Result (List PeerDirectoryEntry) PeerTransportError × X.State
      → Type 0
  Answers root path n before s (ok entries, u) =
      (failed_before : ℕ) × (last : PeerTransportError) × (t : X.State) × (failed_before < n)
      × Failures root path failed_before before last s t
      × (X.list_dir root path t ≡ (ok entries, u))
  Answers root path n before s (err last, u) = Failures root path n before last s u

  list_attempts-Answers :
      (n : ℕ) (root : ConnectedPeerRoot) (path : Text) (before : PeerTransportError) (s : X.State)
      → Answers root path n before s (list_attempts X n root path before s)
  unfolding list_attempts
  list_attempts-Answers zero root path before s = no_attempt before s
  list_attempts-Answers (suc n) root path before s =
      go (X.list_dir root path s) refl (list_attempts-Answers n root path)
    where
      later :
          (e : PeerTransportError) (t : X.State)
          (answer : Result (List PeerDirectoryEntry) PeerTransportError × X.State)
          → X.list_dir root path s ≡ (err e, t)
          → Answers root path n e t answer
          → Answers root path (suc n) before s answer
      later e t (ok entries, u) listed (k, last, v, bound, failures, found) = (
        suc k,
        last,
        v,
        omega (arith, bound),
        failure k before e last s t v listed failures,
        found,
      )
      later e t (err last, u) listed failures = failure n before e last s t u listed failures

      go :
          (listed : Result (List PeerDirectoryEntry) PeerTransportError × X.State)
          → X.list_dir root path s ≡ listed
          → ((e : PeerTransportError) (t : X.State)
              → Answers root path n e t (list_attempts X n root path e t))
          → Answers root path
              (suc n)
              before
              s
              (elim listed.0
                as (λ _. Result (List PeerDirectoryEntry) PeerTransportError × X.State) [
                  | ok entries ↦ (ok entries, listed.1)
                  | err e ↦ list_attempts X n root path e listed.1
                ])
      go (ok entries, t) e rest = (0, before, s, omega arith, no_attempt before s, e)
      go (err failed_with, t) e rest =
          later failed_with t (list_attempts X n root path failed_with t) e (rest failed_with t)

  -- A peer's directory is listed only after a swap recovery that has not failed: a failed one ends
  -- the listing with an input or output error, in the state that it leaves. Else the directory is
  -- listed at most as many times as the retries say, and once if they say none: the answer is that
  -- of the first attempt that succeeds, or the error of the last one after all of them have failed.
  pub list_dir_for_peer-Answers :
      (active : ActivePeer) (path : Option Text) (retries : ℕ) (s : X.State)
      → let (recovery, t) = X.recover_user_swap (directory_request X active.peer path) s in
        (recovery ≡ failed → list_dir_for_peer X active path retries s ≡ (err io_error, t))
        × (recovery ≢ failed
            → Answers active.peer.root
                (transport_path path)
                (max 1 retries)
                io_error
                t
                (list_dir_for_peer X active path retries s))
  unfolding list_dir_for_peer
  list_dir_for_peer-Answers active path retries s =
      go (X.recover_user_swap (directory_request X active.peer path) s).0
        (X.recover_user_swap (directory_request X active.peer path) s).1
    where
      attempts_of-max : attempts_of X retries ≡ max 1 retries
      attempts_of-max = ground arith

      listed :
          (t : X.State)
          → Answers active.peer.root (transport_path path) (max 1 retries) io_error t (
              list_attempts X
                (attempts_of X retries)
                active.peer.root
                (transport_path path)
                io_error
                t)
      listed t = rw attempts_of-max (list_attempts-Answers (max 1 retries) _ _ _ _)

      after :
          CopyStagingSwapRecoveryStatus
          → X.State
          → Result (List PeerDirectoryEntry) PeerTransportError × X.State
      after recovery t = elim recovery [
        | failed ↦ (err io_error, t)
        | recovered ↦
            list_attempts X (attempts_of X retries) active.peer.root (transport_path path) io_error
              t
        | skipped_dry_run ↦
            list_attempts X (attempts_of X retries) active.peer.root (transport_path path) io_error
              t
      ]

      go :
          (recovery : CopyStagingSwapRecoveryStatus) (t : X.State)
          → (recovery ≡ failed → after recovery t ≡ (err io_error, t))
            × (recovery ≢ failed
                → Answers active.peer.root
                    (transport_path path)
                    (max 1 retries)
                    io_error
                    t
                    (after recovery t))
      go failed t = (λ _. refl, λ h. absurd (h refl))
      go recovered t = (λ e. absurd (cc e), λ _. listed t)
      go skipped_dry_run t = (λ e. absurd (cc e), λ _. listed t)
