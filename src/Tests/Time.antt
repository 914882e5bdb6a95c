-- ===== src/Tests/Time.antt =====
-- The properties of timestamps at concrete instants.
use kitchensync.Base.{◌-◌, ◌%◌, ◌≡◌, some, [], ◌∷◌, ok, arith}
use kitchensync.Format.Time.{
  parse_timestamp_text, format_datetime, current_timestamp, format_timestamp,
}
use kitchensync.Format.Time.Laws.{
  Increasing, generated, parse_timestamp_text-format_datetime, generated-Increasing,
  current_timestamp_repeats,
}
use kitchensync.Tests.Sample.{seconds_only, seconds_only-IsLawful, year_0-le, lt-year_10000}

parse_timestamp_text-format_datetime_example :
    parse_timestamp_text seconds_only (format_datetime seconds_only 5123456789)
    ≡ ok (5123456789 - 5123456789 % 1000)
parse_timestamp_text-format_datetime_example =
    parse_timestamp_text-format_datetime seconds_only seconds_only-IsLawful 5123456789
      (year_0-le 5123456789) (lt-year_10000 5123456789 (omega arith))

generated-Increasing_example :
    Increasing 5000 (generated seconds_only (some 5000) (9000 ∷ 3000 ∷ 9999 ∷ []))
generated-Increasing_example = generated-Increasing seconds_only 5000 (9000 ∷ 3000 ∷ 9999 ∷ [])

current_timestamp_repeats_example :
    (current_timestamp seconds_only (some 5000) 5999).0 ≡ format_timestamp seconds_only 5000
current_timestamp_repeats_example =
    current_timestamp_repeats seconds_only seconds_only-IsLawful 5000 5999 (omega arith)
      (omega arith)
