-- ===== src/Base/Digits.antt =====
-- ASCII classes of bytes, and decimal numerals.
use Prim.Native.Nat.{ℕ, ◌+◌, ◌-◌, ◌*◌, ◌/◌, ◌%◌, ◌<◌}
use mathlib.Core.Path.{◌≡◌}
use mathlib.Core.Bool.{Bool, true, ◌&&◌, ◌||◌}
use mathlib.Core.List.{[], ◌∷◌}
use native.Mathlib.Omega.{arith}
use kitchensync.Base.Tests.{leb, if◌then◌else◌}
use kitchensync.Base.Lists.{all}
use kitchensync.Base.Bytes.{Text}

unfoldable pub is_ascii_digit : ℕ → Bool
is_ascii_digit c = leb b'0' c && leb c b'9'

unfoldable pub is_ascii_alphabetic : ℕ → Bool
is_ascii_alphabetic c = (leb b'a' c && leb c b'z') || (leb b'A' c && leb c b'Z')

unfoldable pub is_ascii_alphanumeric : ℕ → Bool
unfolding is_ascii_alphabetic is_ascii_digit
is_ascii_alphanumeric c = is_ascii_alphabetic c || is_ascii_digit c

unfoldable pub to_ascii_lowercase : ℕ → ℕ
to_ascii_lowercase c = if leb b'A' c && leb c b'Z' then c + 32 else c

-- The number that a run of digits stands for, after the digits read so far.
unfoldable pub decimal : ℕ → Text → ℕ
decimal n [] = n
decimal n (c ∷ s) = decimal (n * 10 + (c - b'0')) s

abbrev pub digit : ℕ → ℕ
digit n = b'0' + n % 10

-- `{:06}` of a number below a million
unfoldable pub six_digits : ℕ → Text
six_digits n =
    digit (n / 100000)
    ∷ digit (n / 10000)
    ∷ digit (n / 1000)
    ∷ digit (n / 100)
    ∷ digit (n / 10)
    ∷ digit n
    ∷ []

pub is_ascii_digit-digit : (n : ℕ) → is_ascii_digit (digit n) ≡ true
unfolding is_ascii_digit
is_ascii_digit-digit n = ground arith

pub all-six_digits : (n : ℕ) → all is_ascii_digit (six_digits n) ≡ true
unfolding six_digits
all-six_digits n = simp is_ascii_digit-digit

pub decimal-six_digits : (n : ℕ) → n < 1000000 → decimal 0 (six_digits n) ≡ n
unfolding six_digits decimal
decimal-six_digits n h = omega arith
