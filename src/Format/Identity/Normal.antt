-- ===== src/Format/Identity/Normal.antt =====
-- What the path of an identity looks like.
use kitchensync.Base.{
  ℕ, ◌≡◌, refl, Text, is_byte, first_byte, both_true, Returns, Returns->>=, Returns-any, ap₂,
  is_empty, ends_with, Bool, true, false, ◌&&◌, not, [], ◌∷◌, map, all, ok, ◌==◌, if◌then◌else◌,
  arith,
}
use kitchensync.Format.Identity.{
  slash_of, collapse, trim_end, pop_slashes, percent_decode_unreserved, normalize_url_path,
}

abbrev pub is_slash : ℕ → Bool
is_slash c = c == b'/'

-- No two slashes stand next to each other.
unfoldable pub is_collapsed : Text → Bool
is_collapsed [] = true
is_collapsed (x ∷ []) = true
is_collapsed (x ∷ y ∷ s) = not (is_slash x && is_slash y) && is_collapsed (y ∷ s)

abbrev pub has_no_backslash : Text → Bool
has_no_backslash s = all (λ c. not (c == 92)) s

all-slash_of : (s : Text) → has_no_backslash (map slash_of s) ≡ true
all-slash_of [] = refl
all-slash_of (c ∷ s) = ground (arith, all-slash_of s)

collapse-no_backslash :
    (b : Bool) (s : Text) → has_no_backslash s ≡ true → has_no_backslash (collapse b s) ≡ true
unfolding collapse
collapse-no_backslash b [] h = refl
collapse-no_backslash b (c ∷ s) h = ground (arith, h, collapse-no_backslash (c == b'/') s)

trim_end-no_backslash :
    (s : Text) → has_no_backslash s ≡ true → has_no_backslash (trim_end s) ≡ true
unfolding trim_end
trim_end-no_backslash [] h = refl
trim_end-no_backslash (c ∷ s) h = ground (arith, h, trim_end-no_backslash s)

collapse-collapsed :
    (b : Bool) (s : Text)
    → (is_collapsed (collapse b s) ≡ true)
      × (b ≡ true → is_byte b'/' (first_byte (collapse b s)) ≡ false)
unfolding collapse is_collapsed
collapse-collapsed b [] = (refl, λ _. refl)
collapse-collapsed b (c ∷ s) = go (collapse (c == b'/') s) (collapse-collapsed (c == b'/') s)
  where
    go :
        (rest : Text)
        → (is_collapsed rest ≡ true) × (is_slash c ≡ true → is_byte b'/' (first_byte rest) ≡ false)
        → (is_collapsed (if (c == b'/') && b then rest else c ∷ rest) ≡ true)
          × (b ≡ true
              → is_byte b'/' (first_byte (if (c == b'/') && b then rest else c ∷ rest)) ≡ false)
    go [] (h, k) = ground (arith, h, k)
    go (d ∷ rest) (h, k) = ground (arith, h, k)

trim_end-collapsed :
    (c : ℕ) (s : Text) → is_collapsed (c ∷ s) ≡ true → is_collapsed (c ∷ trim_end s) ≡ true
unfolding trim_end is_collapsed
trim_end-collapsed c [] h = refl
trim_end-collapsed c (d ∷ s) h = ground (
  arith,
  h,
  trim_end-collapsed d s (both_true (not (is_slash c && is_slash d)) (is_collapsed (d ∷ s)) h).1,
)

trim_end-ends_with :
    (c : ℕ) (s : Text) → ends_with b'/' (c ∷ trim_end s) ≡ true → (trim_end s ≡ []) × (c ≡ b'/')
unfolding trim_end
trim_end-ends_with c [] h = (refl, ground (arith, h))
trim_end-ends_with c (d ∷ s) h = go (trim_end s) (trim_end-ends_with d s) h
  where
    go :
        (rest : Text)
        → (ends_with b'/' (d ∷ rest) ≡ true → (rest ≡ []) × (d ≡ b'/'))
        → ends_with b'/' (c ∷ (if is_empty rest && (d == b'/') then [] else d ∷ rest)) ≡ true
        → ((if is_empty rest && (d == b'/') then [] else d ∷ rest) ≡ []) × (c ≡ b'/')
    go [] k h = ground (arith, k, h)
    go (e ∷ rest) k h = ground (arith, k, h)

-- No backslash, no two slashes in a row, and no slash at the end but that of the root
abbrev pub IsNormal : Text → Type 0
IsNormal path =
    (has_no_backslash path ≡ true)
    × (is_collapsed path ≡ true)
    × (ends_with b'/' path ≡ true → path ≡ b'/' ∷ [])

pop_slashes-IsNormal :
    (s : Text) → has_no_backslash s ≡ true → is_collapsed s ≡ true → IsNormal (pop_slashes s)
unfolding is_collapsed
pop_slashes-IsNormal [] h k = (refl, refl, λ e. cc e)
pop_slashes-IsNormal (c ∷ s) h k = (
  ground (arith, h, trim_end-no_backslash s),
  trim_end-collapsed c s k,
  λ e. ap₂ (λ x t. x ∷ t) (trim_end-ends_with c s e).1 (trim_end-ends_with c s e).0,
)

pub normalize_url_path-IsNormal : (path : Text) → Returns IsNormal (normalize_url_path path)
unfolding normalize_url_path
normalize_url_path-IsNormal path =
    Returns->>= (λ _. Unit {0}) IsNormal (percent_decode_unreserved path)
      (λ decoded. ok (pop_slashes (collapse false (map slash_of decoded))))
      (Returns-any (percent_decode_unreserved path))
      λ decoded _.
        pop_slashes-IsNormal (collapse false (map slash_of decoded))
          (collapse-no_backslash false (map slash_of decoded) (all-slash_of decoded))
          (collapse-collapsed false (map slash_of decoded)).0
