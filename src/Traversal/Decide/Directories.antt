-- ===== src/Traversal/Decide/Directories.antt =====
-- When a deletion wins over a live directory.
use kitchensync.Base.{
  ℕ, ◌+◌, ◌≤◌, ◌≡◌, ◌≢◌, refl, ◌↔◌, Bool-cases, some, List, [], ◌∷◌, inl, inr, All, All-Member,
  Member, arith,
}
use kitchensync.Format.Types.{FormatRulesTimestamp}
use kitchensync.Format.Time.{
  Chrono, max_by_time, directory_live_file_timestamp_evidence,
  directory_deletion_estimate_newer_than_live_file_evidence,
}
use kitchensync.Format.Time.Tolerance.{
  margin, directory_deletion_lem, max_by_time-le, max_by_time-Member,
}
use kitchensync.Traversal.Types.{directory, absence}
use kitchensync.Traversal.Decide.{weigh_directory}
use kitchensync.Traversal.Decide.File.{instant}

module _ (chrono : Chrono) (estimate : FormatRulesTimestamp) where
  abbrev pub BeatsTimes : List FormatRulesTimestamp → Type 0
  BeatsTimes times = All (λ t. instant chrono t + margin ≤ instant chrono estimate) times

  BeatsTimes-earlier :
      (bound : ℕ) (times : List FormatRulesTimestamp)
      → bound + margin ≤ instant chrono estimate
      → All (λ t. instant chrono t ≤ bound) times
      → BeatsTimes times
  BeatsTimes-earlier bound [] h below = tt
  BeatsTimes-earlier bound (t ∷ ts) h below =
      (omega (arith, below.0), BeatsTimes-earlier bound ts h below.1)

  newest_beaten :
      (times : List FormatRulesTimestamp)
      → BeatsTimes times
      → (t : FormatRulesTimestamp) → Member t times
      → instant chrono t + margin ≤ instant chrono estimate
  newest_beaten times h t m =
      All-Member (λ u. instant chrono u + margin ≤ instant chrono estimate) t times h m

  -- A directory whose subtree could be listed is decided absent exactly when the deletion estimate
  -- is later than every live file in it by more than the tolerance, so also when it holds none;
  -- and is kept otherwise.
  pub weigh_directory-absence :
      (times : List FormatRulesTimestamp)
      → ((weigh_directory chrono estimate (some times) ≡ absence) ↔ BeatsTimes times)
        × (weigh_directory chrono estimate (some times) ≢ absence
            → weigh_directory chrono estimate (some times) ≡ directory)
  unfolding weigh_directory directory_live_file_timestamp_evidence
  weigh_directory-absence [] = ((λ h. tt, λ h. refl), λ h. absurd (h refl))
  weigh_directory-absence (t ∷ ts) =
      let newest = max_by_time chrono t ts in
      let below = max_by_time-le chrono (instant chrono newest) t ts (omega arith) in
      let newer =
        directory_deletion_estimate_newer_than_live_file_evidence chrono estimate newest in
      elim (Bool-cases newer) [
        | inl e ↦ (
          (
            λ h.
                BeatsTimes-earlier (instant chrono newest) (t ∷ ts)
                  (ground (arith, e, directory_deletion_lem chrono estimate newest)) below,
            λ h. rw e,
          ),
          λ h. absurd (h (rw e)),
        )
        | inr e ↦ (
          (
            λ h. cc (h, e),
            λ h. ground (
              arith,
              directory_deletion_lem chrono estimate newest,
              e,
              newest_beaten (t ∷ ts) h newest (max_by_time-Member chrono t ts),
            ),
          ),
          λ h. rw e,
        )
      ]
