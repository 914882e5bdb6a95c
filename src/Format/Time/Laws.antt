-- ===== src/Format/Time/Laws.antt =====
-- Timestamps as texts: formatting and parsing, and the generator of fresh timestamps.
use kitchensync.Base.{
  init, ℕ, ◌+◌, ◌-◌, ◌*◌, ◌/◌, ◌%◌, ◌<◌, ◌≤◌, ◌≡◌, refl, Text, true, false, Option, none, some,
  List, [], ◌∷◌, ◌++◌, length, length-append, all, ok, leb, last, contains, rsplit_once,
  is_ascii_digit, six_digits, all-six_digits, decimal-six_digits, arith, append_assoc, ap,
}
use kitchensync.Format.Time.{
  Chrono, parse_timestamp_text, format_datetime, timestamp_subsec_micros, next_generated,
  current_timestamp, format_timestamp,
}

-- What chrono documents of the calls. The instants between the two bounds have a year of four
-- digits, and `format` prints such an instant to the second in 19 bytes.
pub record IsLawful (chrono : Chrono) : Type 0 where
  pub year_0 : ℕ
  pub year_10000 : ℕ
  pub length-format : (t : ℕ) → year_0 ≤ t → t < year_10000 → length (chrono.format t) ≡ 19
  pub parse_from_str-format :
      (t : ℕ)
      → year_0 ≤ t
      → t < year_10000
      → chrono.parse_from_str (chrono.format t) ≡ some (t - t % 1000000000)
  pub format-second :
      (t u : ℕ) → t / 1000000000 ≡ u / 1000000000 → chrono.format t ≡ chrono.format u
  pub checked_add_signed_lem :
      (t micros : ℕ)
      → t + micros * 1000 < year_10000
      → chrono.checked_add_signed t micros ≡ some (t + micros * 1000)

init-snoc : (s : Text) (c : ℕ) → init (s ++ (c ∷ [])) ≡ s
init-snoc [] c = refl
init-snoc (x ∷ []) c = refl
init-snoc (x ∷ y ∷ s) c = ap (λ r. x ∷ r) (init-snoc (y ∷ s) c)

ends_with-snoc : (s : Text) (c : ℕ) → last (s ++ (c ∷ [])) ≡ some c
ends_with-snoc [] c = refl
ends_with-snoc (x ∷ []) c = refl
ends_with-snoc (x ∷ y ∷ s) c = ends_with-snoc (y ∷ s) c

pub rsplit_once-absent : (c : ℕ) (s : Text) → contains c s ≡ false → rsplit_once c s ≡ none
unfolding rsplit_once
rsplit_once-absent c [] h = refl
rsplit_once-absent c (x ∷ s) h = ground (arith, rsplit_once-absent c s)

pub rsplit_once-append :
    (c : ℕ) (s t : Text) → contains c t ≡ false → rsplit_once c (s ++ (c ∷ t)) ≡ some (s, t)
unfolding rsplit_once
rsplit_once-append c [] t h = rw (rsplit_once-absent c t h) (ground arith)
rsplit_once-append c (x ∷ s) t h = rw (rsplit_once-append c s t h)

contains-digits : (s : Text) → all is_ascii_digit s ≡ true → contains b'_' s ≡ false
unfolding is_ascii_digit
contains-digits [] h = refl
contains-digits (x ∷ s) h = ground (arith, contains-digits s)

length-six_digits : (n : ℕ) → length (six_digits n) ≡ 6
unfolding six_digits
length-six_digits n = refl

module _ (chrono : Chrono) where
  body_shape :
      (v : ℕ)
      → format_datetime chrono v
        ≡ (chrono.format v ++ (b'_' ∷ six_digits (timestamp_subsec_micros v))) ++ (b'Z' ∷ [])
  unfolding format_datetime
  body_shape v = rw append_assoc

  micros_part : (v : ℕ) → timestamp_subsec_micros v < 1000000
  unfolding timestamp_subsec_micros
  micros_part v = omega arith

  module _ (law : IsLawful chrono) (v : ℕ) (low : law.year_0 ≤ v) (high : v < law.year_10000) where
    length-format_datetime : length (format_datetime chrono v) ≡ 27
    unfolding format_datetime
    length-format_datetime = rw length-append (
        rw (law.length-format v low high)
          (rw length-append (omega (arith, length-six_digits (timestamp_subsec_micros v)))))

    whole_micros : v - v % 1000000000 + timestamp_subsec_micros v * 1000 ≡ v - v % 1000
    unfolding timestamp_subsec_micros
    whole_micros = omega arith

    -- A formatted instant of a four-digit year parses back to it, down to the microsecond.
    pub parse_timestamp_text-format_datetime :
        parse_timestamp_text chrono (format_datetime chrono v) ≡ ok (v - v % 1000)
    unfolding parse_timestamp_text
    parse_timestamp_text-format_datetime = rw length-format_datetime (
        rw
          (
            body_shape,
            ends_with-snoc _ b'Z',
            init-snoc _ b'Z',
            rsplit_once-append b'_' _ _ (contains-digits _ (all-six_digits _)),
            length-six_digits,
            all-six_digits,
            law.parse_from_str-format v low high,
            decimal-six_digits _ (micros_part v),
            law.checked_add_signed_lem (v - v % 1000000000) (timestamp_subsec_micros v)
                (omega (arith, whole_micros)),
          )
          (ap ok whole_micros))

-- The generator's instants: each is at least the clock, and later than the one before.
pub next_generated_later :
    (previous now : ℕ)
    → (previous < next_generated (some previous) now) × (now ≤ next_generated (some previous) now)
unfolding next_generated
next_generated_later previous now = ground arith

-- The instants that a run of calls generates, from the clock readings that the calls make.
abbrev pub generated : Chrono → Option ℕ → List ℕ → List ℕ
generated chrono previous [] = []
generated chrono previous (now ∷ clock) = elim (current_timestamp chrono previous now).1 [
  | none ↦ []
  | some next ↦ next ∷ generated chrono (some next) clock
]

abbrev pub Increasing : ℕ → List ℕ → Type 0
Increasing bound [] = Unit
Increasing bound (t ∷ ts) = (bound < t) × Increasing t ts

-- Whatever the clock does between the calls, the instants that `current_timestamp` leaves in the
-- mutex grow strictly, from the one that was there before.
pub generated-Increasing :
    (chrono : Chrono) (previous : ℕ) (clock : List ℕ)
    → Increasing previous (generated chrono (some previous) clock)
unfolding current_timestamp
generated-Increasing chrono previous [] = tt
generated-Increasing chrono previous (now ∷ clock) = (
  (next_generated_later previous now).0,
  generated-Increasing chrono (next_generated (some previous) now) clock,
)

same_micros :
    (chrono : Chrono) (law : IsLawful chrono) (t u : ℕ)
    → t / 1000 ≡ u / 1000
    → format_datetime chrono t ≡ format_datetime chrono u
unfolding format_datetime
same_micros chrono law t u same =
    let second : t / 1000000000 ≡ u / 1000000000 = omega arith in
    let micros : t % 1000000000 / 1000 ≡ u % 1000000000 / 1000 = omega arith in
    rw (law.format-second t u second, micros)

-- The texts need not grow: a reading later than the previous instant, but within the same
-- microsecond, gives the text of the previous instant again.
pub current_timestamp_repeats :
    (chrono : Chrono) (law : IsLawful chrono) (previous now : ℕ)
    → previous < now
    → previous / 1000 ≡ now / 1000
    → (current_timestamp chrono (some previous) now).0 ≡ format_timestamp chrono previous
unfolding current_timestamp format_timestamp
current_timestamp_repeats chrono law previous now later same =
    let after : leb now previous ≡ false = ground arith in
    rw after (cc (same_micros chrono law previous now same))
