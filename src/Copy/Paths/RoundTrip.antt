-- ===== src/Copy/Paths/RoundTrip.antt =====
-- The name of a SWAP directory decodes to the name that it was encoded from.
use kitchensync.Base.{
  from_utf8, ℕ, ◌+◌, ◌*◌, ◌/◌, ◌%◌, ◌<◌, ◌≡◌, refl, Text, true, false, Bool-cases, inl, inr, Option,
  none, some, List, [], ◌∷◌, All, ok, arith, ◌==◌, is_ascii_alphanumeric,
}
use kitchensync.Format.Paths.{
  encode_swap_basename, encode_bytes, is_unreserved, hex_digit, is_refused,
}
use kitchensync.Copy.Paths.{
  hex_value, percent_decode, percent_decode_segment, push_byte, push_plain,
}

hex_value-hex_digit : (n : ℕ) → n < 16 → hex_value (hex_digit n) ≡ some n
unfolding hex_value
hex_value-hex_digit n h = ground arith

percent_decode-plain :
    (a : ℕ) (s : Text)
    → (a == b'%') ≡ false
    → percent_decode (a ∷ s) ≡ push_plain a (percent_decode s)
unfolding percent_decode
percent_decode-plain a [] h = rw h refl
percent_decode-plain a (b ∷ []) h = rw h refl
percent_decode-plain a (b ∷ c ∷ s) h = rw h refl

unreserved_plain : (a : ℕ) → is_unreserved a ≡ true → (a == b'%') ≡ false
unfolding is_unreserved is_ascii_alphanumeric
unreserved_plain a h = ground (arith, h)

escaped :
    (a : ℕ) (s : Text)
    → a < 256
    → percent_decode (b'%' ∷ hex_digit (a / 16) ∷ hex_digit (a % 16) ∷ s)
      ≡ push_plain a (percent_decode s)
unfolding percent_decode
escaped a s h =
    rw (hex_value-hex_digit (a / 16) (omega arith), hex_value-hex_digit (a % 16) (omega arith))
      (joined (percent_decode s))
  where
    whole : a / 16 * 16 + a % 16 ≡ a
    whole = omega arith

    joined :
        (rest : Option (List ℕ))
        → push_byte (some (a / 16)) (some (a % 16)) rest ≡ push_plain a rest
    joined none = refl
    joined (some decoded) = rw whole refl

percent_decode-encode_bytes :
    (s : Text) → All (λ b. b < 256) s → percent_decode (encode_bytes s) ≡ some s
unfolding encode_bytes percent_decode
percent_decode-encode_bytes [] h = refl
percent_decode-encode_bytes (a ∷ s) h = elim (Bool-cases (is_unreserved a)) [
  | inl e ↦
      rw (e, encode_bytes)
        (rw
          (
            percent_decode-plain a (encode_bytes s) (unreserved_plain a e),
            percent_decode-encode_bytes s h.1,
          )
          refl)
  | inr e ↦
      rw (e, encode_bytes)
        (rw (escaped a (encode_bytes s) h.0, percent_decode-encode_bytes s h.1) refl)
]

encoded_bytes :
    (basename encoded : Text)
    → encode_swap_basename basename ≡ ok encoded
    → encode_bytes basename ≡ encoded
unfolding encode_swap_basename
encoded_bytes basename encoded h = elim (Bool-cases (is_refused basename)) [
  | inl e ↦ absurd (cc (rw e at h))
  | inr e ↦ cc (rw e at h)
]

-- A name of bytes in UTF-8 that can be encoded as a SWAP directory decodes to itself.
pub percent_decode_segment-encode_swap_basename :
    (basename encoded : Text)
    → All (λ b. b < 256) basename
    → from_utf8 basename ≡ some basename
    → encode_swap_basename basename ≡ ok encoded
    → percent_decode_segment encoded ≡ some basename
unfolding percent_decode_segment
percent_decode_segment-encode_swap_basename basename encoded bytes utf8 h =
    rw (← encoded_bytes basename encoded h) (rw (percent_decode-encode_bytes basename bytes) utf8)
