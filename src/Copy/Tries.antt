-- ===== src/Copy/Tries.antt =====
-- The tries of `copy_file` of proj/subpjx/CopyStaging/src/imp.rs. `none` is a thread that waits for a
-- slot, or a source that is longer than the fuel.
pub mod Bounds
use kitchensync.Base.{
  ℕ, zero, suc, ◌+◌, ◌-◌, ◌/◌, ◌%◌, codes, Text, Bool, true, false, Option, none, some, List, [],
  ◌∷◌, ◌++◌, Result, ok, err, ltb, leb, if◌then◌else◌,
}
use kitchensync.Format.Types.{
  FormatRulesTimestamp, FormatRulesUserSwapPaths, FormatRulesValidationError,
}
use kitchensync.Format.Paths.{user_swap_paths}
use kitchensync.Transport.Types.{PeerTransportError}
use kitchensync.Transport.Surface.{PeerTransportSurface}
use kitchensync.Copy.Types.{
  CopyStagingVerbosity, error, info, debug, trace, CopyStagingCopyRequest, CopyStagingFailurePhase,
  read_source, CopyStagingCopyStatus, completed, planned_dry_run, failed, CopyStagingDiagnostic,
  CopyStagingDiagnosticLevel, transfer_failed, copy_tries_exhausted, CopyStagingCopyResult,
}
use kitchensync.Copy.Paths.{split_parent_basename}
use kitchensync.Copy.Swap.{is_dry_run}
use kitchensync.Copy.Displacement.{is_shown}
use kitchensync.Copy.Slots.{at_least_one, acquire, release}
use kitchensync.Copy.Attempt.{Stop, failure, out_of_fuel, copy_attempt, dry_run_read_source}

-- The decimal digits of a number, the last first, onto those already there
unfoldable pub show_digits : ℕ → ℕ → Text → Text
show_digits zero n digits = digits
show_digits (suc fuel) n digits =
    let more = show_digits fuel (n / 10) ((b'0' + n % 10) ∷ digits) in
    if ltb n 10 then (b'0' + n) ∷ digits else more

unfoldable pub show_number : ℕ → Text
unfolding show_digits
show_number n = show_digits (suc n) n []

abbrev pub is_trace : CopyStagingVerbosity → Bool
is_trace trace = true
is_trace _ = false

unfoldable pub slot_lines : CopyStagingCopyRequest → ℕ → List Text
unfolding show_number at_least_one
slot_lines request active =
    if is_trace request.options.verbosity
    then (codes "copy-slots active="
        ++ (show_number active
            ++ (codes "/" ++ show_number (at_least_one request.options.max_copies))))
      ∷ []
    else []

unfoldable pub push_copy_progress : CopyStagingVerbosity → Text → List Text
push_copy_progress verbosity relative_path =
    if is_shown verbosity then (codes "C " ++ relative_path) ∷ [] else []

abbrev pub copy_diagnostics :
    CopyStagingCopyRequest
    → CopyStagingFailurePhase
    → Option PeerTransportError
    → Bool
    → List CopyStagingDiagnostic
copy_diagnostics request phase failed_with exhausted =
    record {
      level = CopyStagingDiagnosticLevel.error;
      peer_index = request.destination_peer.peer_index;
      peer_url = request.destination_peer.peer_url;
      relative_path = some request.relative_path;
      kind = transfer_failed phase failed_with;
    }
    ∷ (if exhausted
        then record {
          level = CopyStagingDiagnosticLevel.error;
          peer_index = request.destination_peer.peer_index;
          peer_url = request.destination_peer.peer_url;
          relative_path = some request.relative_path;
          kind = copy_tries_exhausted;
        }
          ∷ []
        else [])

unfoldable pub failed_copy :
    CopyStagingCopyRequest
    → ℕ
    → List Text
    → CopyStagingFailurePhase
    → Option PeerTransportError
    → Bool
    → CopyStagingCopyResult
failed_copy request attempts output_lines phase failed_with exhausted = record {
  destination_peer_index = request.destination_peer.peer_index;
  destination_peer_url = request.destination_peer.peer_url;
  relative_path = request.relative_path;
  status = failed;
  attempts = attempts;
  output_lines = output_lines;
  diagnostics = copy_diagnostics request phase failed_with exhausted;
}

unfoldable pub completed_copy : CopyStagingCopyRequest → ℕ → List Text → CopyStagingCopyResult
unfolding push_copy_progress
completed_copy request attempts output_lines = record {
  destination_peer_index = request.destination_peer.peer_index;
  destination_peer_url = request.destination_peer.peer_url;
  relative_path = request.relative_path;
  status = if is_dry_run request.options.mode then planned_dry_run else completed;
  attempts = attempts;
  output_lines = output_lines ++ push_copy_progress request.options.verbosity request.relative_path;
  diagnostics = [];
}

module _ (T : PeerTransportSurface) (current_timestamp : T.State → FormatRulesTimestamp × T.State)
    (request : CopyStagingCopyRequest) where
  abbrev pub delete_new :
      Result FormatRulesUserSwapPaths FormatRulesValidationError → T.State → T.State
  delete_new (err _) s = s
  delete_new (ok swap) s = (T.delete_file request.destination_peer.root swap.new_path s).1

  unfoldable pub cleanup_copy_swap_new : T.State → T.State
  cleanup_copy_swap_new s =
      let (parent, basename) = split_parent_basename request.destination_path in
      delete_new (user_swap_paths parent basename) s

  unfoldable pub attempt : ℕ → T.State → Result (Unit {0}) Stop × T.State
  unfolding copy_attempt dry_run_read_source
  attempt fuel s =
      if is_dry_run request.options.mode
      then dry_run_read_source T current_timestamp request fuel s
      else copy_attempt T current_timestamp request fuel s

  -- The result, the state, and the count of the slots
  abbrev pub Tried : Type 0
  Tried = Option (CopyStagingCopyResult × T.State × ℕ)

  -- The match on the answer of an attempt; `again` is the next turn of the loop.
  abbrev pub after_attempt :
      ℕ → ℕ → List Text → Result (Unit {0}) Stop → T.State → ℕ → (T.State → Tried) → Tried
  after_attempt max_attempts attempts lines (ok _) s active again =
      some (completed_copy request attempts lines, s, active)
  after_attempt max_attempts attempts lines (err out_of_fuel) s active again = none
  after_attempt max_attempts attempts lines (err (failure phase failed_with true)) s active again =
      some (failed_copy request attempts lines phase failed_with false, s, active)
  after_attempt max_attempts attempts lines (err (failure phase failed_with false)) s active again =
      let next = again (cleanup_copy_swap_new s) in
      if leb max_attempts attempts
      then some (
        failed_copy request attempts lines phase failed_with true,
        cleanup_copy_swap_new s,
        active,
      )
      else next

  -- The loop, by the attempts that are left
  unfoldable pub copy_tries : ℕ → ℕ → ℕ → ℕ → List Text → T.State → ℕ → Tried
  unfolding failed_copy completed_copy slot_lines acquire release attempt cleanup_copy_swap_new
  copy_tries fuel max_attempts zero attempts lines s active =
      some (failed_copy request attempts lines read_source none true, s, active)
  copy_tries fuel max_attempts (suc left) attempts lines s active =
      elim (acquire request.options.max_copies active) [
        | none ↦ none
        | some taken ↦
            let (answer, t) = attempt fuel s in
            let said = lines ++ (slot_lines request taken ++ slot_lines request (release taken)) in
            after_attempt max_attempts (attempts + 1) said answer t (release taken)
              (λ u. copy_tries fuel max_attempts left (attempts + 1) said u (release taken))
      ]

  unfoldable pub copy_file : ℕ → T.State → ℕ → Tried
  unfolding copy_tries
  copy_file fuel s active =
      let max_attempts = at_least_one request.options.retries_copy in
      copy_tries fuel max_attempts max_attempts 0 [] s active
