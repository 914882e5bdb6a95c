-- ===== src/Format/Time.antt =====
-- Timestamps of proj/subpjx/FormatRules/src/imp.rs. A `SystemTime`, a `DateTime<Utc>` and a
-- `NaiveDateTime` are the number of nanoseconds since the earliest instant that chrono represents.
pub mod Laws
pub mod Tolerance
use kitchensync.Base.{
  init, ℕ, zero, suc, ◌+◌, ◌-◌, ◌*◌, ◌/◌, ◌%◌, Text, Bool, true, false, ◌&&◌, ◌||◌, not, Option,
  none, some, List, [], ◌∷◌, ◌++◌, length, all, Result, ok, err, ◌>>=◌, ok_or, ◌==◌, leb, ltb,
  if◌then◌else◌, ends_with, rsplit_once, is_ascii_digit, decimal, six_digits, ℤ, pos, negsuc, sub_ℕ,
  abs, lt_ℤ, le_ℤ,
}
use kitchensync.Format.Types.{
  FormatRulesTimestamp, FormatRulesValidationError, invalid_timestamp, validation_error,
  FormatRulesDeletionEstimateUpdate, write, no_write,
}

-- What the program calls of chrono: `NaiveDateTime::parse_from_str` and `DateTime::format` with
-- "%Y-%m-%d_%H-%M-%S", and `checked_add_signed` of a number of microseconds.
pub record Chrono : Type 0 where
  pub parse_from_str : Text → Option ℕ
  pub format : ℕ → Text
  pub checked_add_signed : ℕ → ℕ → Option ℕ

abbrev pub invalid {ℓ} : {A : Type ℓ} → Result A FormatRulesValidationError
invalid = err (validation_error invalid_timestamp)

abbrev pub nanos_per_second : ℕ
nanos_per_second = 1000000000

-- `DateTime::timestamp_subsec_micros`
unfoldable pub timestamp_subsec_micros : ℕ → ℕ
timestamp_subsec_micros value = value % nanos_per_second / 1000

-- The mutex's value and the reading of `Utc::now()`; the value left in the mutex.
unfoldable pub next_generated : Option ℕ → ℕ → ℕ
next_generated none now = now
next_generated (some previous) now = if leb now previous then previous + 1000 else now

module _ (chrono : Chrono) where
  unfoldable pub parse_parts : Text → Text → Result ℕ FormatRulesValidationError
  parse_parts seconds micros =
      if not (length micros == 6) || not (all is_ascii_digit micros) then invalid else (do
        naive ← ok_or (chrono.parse_from_str seconds) (validation_error invalid_timestamp)
        ok_or (chrono.checked_add_signed naive (decimal 0 micros))
            (validation_error invalid_timestamp))

  unfoldable pub parse_body : Option (Text × Text) → Result ℕ FormatRulesValidationError
  unfolding parse_parts
  parse_body none = invalid
  parse_body (some (seconds, micros)) = parse_parts seconds micros

  unfoldable pub parse_timestamp_text : Text → Result ℕ FormatRulesValidationError
  unfolding parse_body
  parse_timestamp_text text =
      if not (length text == 27) || not (ends_with b'Z' text)
      then invalid
      else parse_body (rsplit_once b'_' (init text))

  unfoldable pub format_datetime : ℕ → Text
  unfolding timestamp_subsec_micros
  format_datetime value =
      chrono.format value ++ (b'_' ∷ six_digits (timestamp_subsec_micros value) ++ (b'Z' ∷ []))

  unfoldable pub parse_timestamp : Text → Result FormatRulesTimestamp FormatRulesValidationError
  unfolding parse_timestamp_text
  parse_timestamp timestamp =
      parse_timestamp_text timestamp >>= λ _. ok (record { text = timestamp })

  unfoldable pub format_timestamp : ℕ → FormatRulesTimestamp
  unfolding format_datetime
  format_timestamp timestamp = record { text = format_datetime timestamp }

  unfoldable pub current_timestamp : Option ℕ → ℕ → FormatRulesTimestamp × Option ℕ
  unfolding next_generated format_datetime
  current_timestamp last_generated now =
      let next = next_generated last_generated now in
      (record { text = format_datetime next }, some next)

  -- `expect("stored timestamp is invalid")`; on an invalid text the program panics, which is
  -- outside the model, and the value here is 0.
  unfoldable pub expect_datetime : FormatRulesTimestamp → ℕ
  expect_datetime timestamp = elim (parse_timestamp_text timestamp.text) [
    | ok value ↦ value
    | err _ ↦ 0
  ]

  unfoldable pub timestamp_system_time : FormatRulesTimestamp → ℕ
  unfolding expect_datetime
  timestamp_system_time timestamp = expect_datetime timestamp

  abbrev pub timestamp_text : FormatRulesTimestamp → Text
  timestamp_text timestamp = timestamp.text

abbrev pub five_seconds_micros : ℕ
five_seconds_micros = 5000000

abbrev pub negate : ℕ → ℤ
negate zero = pos 0
negate (suc n) = negsuc n

-- `Duration::num_microseconds`, which rounds towards zero.
abbrev pub num_microseconds : ℤ → ℤ
num_microseconds (pos n) = pos (n / 1000)
num_microseconds (negsuc n) = negate (suc n / 1000)

module _ (chrono : Chrono) where
  unfoldable pub signed_difference_micros : FormatRulesTimestamp → FormatRulesTimestamp → ℤ
  signed_difference_micros newer older =
      num_microseconds (sub_ℕ (expect_datetime chrono newer) (expect_datetime chrono older))

  unfoldable pub absolute_difference_micros : FormatRulesTimestamp → FormatRulesTimestamp → ℤ
  unfolding signed_difference_micros
  absolute_difference_micros left right = abs (signed_difference_micros left right)

  unfoldable pub file_mod_times_same : FormatRulesTimestamp → FormatRulesTimestamp → Bool
  unfolding absolute_difference_micros
  file_mod_times_same current_mod_time snapshot_mod_time =
      le_ℤ (absolute_difference_micros current_mod_time snapshot_mod_time) (pos five_seconds_micros)

  unfoldable pub peer_mod_time_tied_with_max : FormatRulesTimestamp → FormatRulesTimestamp → Bool
  unfolding signed_difference_micros
  peer_mod_time_tied_with_max candidate_mod_time max_mod_time =
      le_ℤ (signed_difference_micros max_mod_time candidate_mod_time) (pos five_seconds_micros)

  unfoldable pub peer_mod_time_older_than_max : FormatRulesTimestamp → FormatRulesTimestamp → Bool
  unfolding signed_difference_micros
  peer_mod_time_older_than_max candidate_mod_time max_mod_time =
      lt_ℤ (pos five_seconds_micros) (signed_difference_micros max_mod_time candidate_mod_time)

  unfoldable pub deletion_estimate_wins_over_file_mod_time :
      FormatRulesTimestamp → FormatRulesTimestamp → Bool
  unfolding signed_difference_micros
  deletion_estimate_wins_over_file_mod_time deletion_estimate file_mod_time =
      lt_ℤ (pos five_seconds_micros) (signed_difference_micros deletion_estimate file_mod_time)

  unfoldable pub absent_unconfirmed_file_counts_as_deletion :
      FormatRulesTimestamp → FormatRulesTimestamp → Bool
  unfolding signed_difference_micros
  absent_unconfirmed_file_counts_as_deletion last_seen max_live_file_mod_time =
      lt_ℤ (pos five_seconds_micros) (signed_difference_micros last_seen max_live_file_mod_time)

  -- `Iterator::max_by_key`: of equal keys the last one stays.
  unfoldable pub max_by_time :
      FormatRulesTimestamp → List FormatRulesTimestamp → FormatRulesTimestamp
  max_by_time best [] = best
  max_by_time best (t ∷ ts) =
      max_by_time (if leb (expect_datetime chrono best) (expect_datetime chrono t) then t else best)
        ts

  unfoldable pub max_by_system_time : List FormatRulesTimestamp → Option FormatRulesTimestamp
  unfolding max_by_time
  max_by_system_time [] = none
  max_by_system_time (t ∷ ts) = some (max_by_time t ts)

  unfoldable pub directory_live_file_timestamp_evidence :
      List FormatRulesTimestamp → Option FormatRulesTimestamp
  unfolding max_by_system_time
  directory_live_file_timestamp_evidence live_file_mod_times =
      max_by_system_time live_file_mod_times

  unfoldable pub directory_deletion_estimate_newer_than_live_file_evidence :
      FormatRulesTimestamp → FormatRulesTimestamp → Bool
  unfolding signed_difference_micros
  directory_deletion_estimate_newer_than_live_file_evidence deletion_estimate
        newest_live_file_mod_time =
      lt_ℤ (pos five_seconds_micros)
        (signed_difference_micros deletion_estimate newest_live_file_mod_time)

unfoldable pub confirmed_absence_deleted_time :
    FormatRulesTimestamp → Option FormatRulesTimestamp → FormatRulesDeletionEstimateUpdate
confirmed_absence_deleted_time existing_last_seen (some _) = no_write
confirmed_absence_deleted_time existing_last_seen none = write existing_last_seen

abbrev pub displacement_deleted_time : FormatRulesTimestamp → FormatRulesTimestamp
displacement_deleted_time existing_last_seen = existing_last_seen

abbrev pub displacement_cascade_deleted_time : FormatRulesTimestamp → FormatRulesTimestamp
displacement_cascade_deleted_time displaced_deleted_time = displaced_deleted_time
