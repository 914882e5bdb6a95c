-- ===== src/Format/Time/Tolerance.antt =====
-- The five-second tolerance: each test of two timestamps as one comparison of their instants.
use kitchensync.Base.{
  ℕ, ◌+◌, ◌≤◌, ◌≡◌, refl, pos, le_ℤ, lt_ℤ, leb, ltb, sub_ℕ, arith, List, [], ◌∷◌, Member, inl, All,
  true, ◌↔◌, ◌<◌,
}
use kitchensync.Format.Types.{FormatRulesTimestamp}
use kitchensync.Format.Time.{
  Chrono, expect_datetime, num_microseconds, peer_mod_time_tied_with_max,
  peer_mod_time_older_than_max, deletion_estimate_wins_over_file_mod_time,
  absent_unconfirmed_file_counts_as_deletion, file_mod_times_same, max_by_time,
  directory_deletion_estimate_newer_than_live_file_evidence,
}

-- The nanoseconds from which a difference counts: one microsecond above five seconds.
abbrev pub margin : ℕ
margin = 5000001000

exceeds_lem : (a b : ℕ) → lt_ℤ (pos 5000000) (num_microseconds (sub_ℕ a b)) ≡ leb (b + margin) a
exceeds_lem a b = ground arith

within_lem : (a b : ℕ) → le_ℤ (num_microseconds (sub_ℕ a b)) (pos 5000000) ≡ ltb a (b + margin)
within_lem a b = ground arith

module _ (chrono : Chrono) (a b : FormatRulesTimestamp) where
  pub older_lem :
      peer_mod_time_older_than_max chrono a b
      ≡ leb (expect_datetime chrono a + margin) (expect_datetime chrono b)
  unfolding peer_mod_time_older_than_max
  older_lem = exceeds_lem _ _

  pub tied_lem :
      peer_mod_time_tied_with_max chrono a b
      ≡ ltb (expect_datetime chrono b) (expect_datetime chrono a + margin)
  unfolding peer_mod_time_tied_with_max
  tied_lem = within_lem _ _

  pub deletion_wins_lem :
      deletion_estimate_wins_over_file_mod_time chrono a b
      ≡ leb (expect_datetime chrono b + margin) (expect_datetime chrono a)
  unfolding deletion_estimate_wins_over_file_mod_time
  deletion_wins_lem = exceeds_lem _ _

  pub counts_as_deletion_lem :
      absent_unconfirmed_file_counts_as_deletion chrono a b
      ≡ leb (expect_datetime chrono b + margin) (expect_datetime chrono a)
  unfolding absent_unconfirmed_file_counts_as_deletion
  counts_as_deletion_lem = exceeds_lem _ _

  pub directory_deletion_lem :
      directory_deletion_estimate_newer_than_live_file_evidence chrono a b
      ≡ leb (expect_datetime chrono b + margin) (expect_datetime chrono a)
  unfolding directory_deletion_estimate_newer_than_live_file_evidence
  directory_deletion_lem = exceeds_lem _ _

  -- The same-time test is symmetric: neither side is ahead of the other by the margin.
  pub file_mod_times_same_lem :
      (file_mod_times_same chrono a b ≡ true)
      ↔ (expect_datetime chrono a < expect_datetime chrono b + margin)
        × (expect_datetime chrono b < expect_datetime chrono a + margin)
  unfolding file_mod_times_same
  file_mod_times_same_lem = ground arith

module _ (chrono : Chrono) where
  -- What bounds the latest of the times bounds each of them.
  pub max_by_time-le :
      (bound : ℕ) (best : FormatRulesTimestamp) (ts : List FormatRulesTimestamp)
      → expect_datetime chrono (max_by_time chrono best ts) ≤ bound
      → (expect_datetime chrono best ≤ bound) × All (λ t. expect_datetime chrono t ≤ bound) ts
  unfolding max_by_time
  max_by_time-le bound best [] h = (h, tt)
  max_by_time-le bound best (u ∷ ts) h =
      ground (arith, max_by_time-le bound u ts, max_by_time-le bound best ts)

  pub max_by_time-Member :
      (best : FormatRulesTimestamp) (ts : List FormatRulesTimestamp)
      → Member (max_by_time chrono best ts) (best ∷ ts)
  unfolding max_by_time
  max_by_time-Member best [] = inl refl
  max_by_time-Member best (u ∷ ts) =
      ground (arith, max_by_time-Member u ts, max_by_time-Member best ts)
