-- ===== src/Format/Identity/Parts.antt =====
-- The parts of an SFTP URL: which of them have no slash.
use kitchensync.Base.{
  ℕ, ◌≡◌, refl, codes, Text, is_empty, contains, Bool, true, false, not, ◌&&◌, ◌||◌, Option, none,
  some, [], ◌∷◌, ◌++◌, ◌⊎◌, inl, inr, Returns, Returns->>=, Returns-if, Bool-cases, map, all, leb,
  to_ascii_lowercase, rsplit_once, split_once, strip_prefix, first_byte, is_byte, from_utf8,
  utf8_rest, subst, sym, ==_iff, is_ascii_digit, drop_first, both_false, both_true, ◌==◌, arith, ok,
  if◌then◌else◌,
}
use kitchensync.Format.Identity.{
  normalize_url_path, percent_decode_unreserved, decode_bytes, push_plain, as_text, collapse,
  pop_slashes, slash_of, Checked, invalid_url, split_host_port, split_plain, split_bracketed,
  bracketed, is_port,
}

-- Neither part of a split has the byte.
abbrev pub AreFree : ℕ → Option (Text × Text) → Type 0
AreFree d none = Unit
AreFree d (some (a, b)) = (contains d a ≡ false) × (contains d b ≡ false)

pub rsplit_once-AreFree : (c d : ℕ) (s : Text) → contains d s ≡ false → AreFree d (rsplit_once c s)
unfolding rsplit_once
rsplit_once-AreFree c d [] h = tt
rsplit_once-AreFree c d (x ∷ s) h =
    let (not_x, rest) = both_false (x == d) (contains d s) h in
    go not_x rest (rsplit_once c s) (rsplit_once-AreFree c d s rest)
  where
    go :
        (x == d) ≡ false
        → contains d s ≡ false
        → (split : Option (Text × Text)) → AreFree d split
        → AreFree d (elim split as (λ _. Option (Text × Text)) [
          | some (a, b) ↦ some (x ∷ a, b)
          | none ↦ if x == c then some ([], s) else none
        ])
    go not_x rest none k = elim (Bool-cases (x == c)) [
      | inl e ↦ rw e (refl, rest)
      | inr e ↦ rw e tt
    ]
    go not_x rest (some (a, b)) (k, l) = (rw not_x k, l)

pub split_once-AreFree : (c d : ℕ) (s : Text) → contains d s ≡ false → AreFree d (split_once c s)
unfolding split_once
split_once-AreFree c d [] h = tt
split_once-AreFree c d (x ∷ s) h =
    let (not_x, rest) = both_false (x == d) (contains d s) h in
    elim (Bool-cases (x == c)) [
      | inl e ↦ rw e (refl, rest)
      | inr e ↦ rw e (go not_x (split_once c s) (split_once-AreFree c d s rest))
    ]
  where
    go :
        (x == d) ≡ false
        → (split : Option (Text × Text)) → AreFree d split
        → AreFree d (elim split as (λ _. Option (Text × Text)) [
          | none ↦ none
          | some (a, b) ↦ some (x ∷ a, b)
        ])
    go not_x none k = tt
    go not_x (some (a, b)) (k, l) = (rw not_x k, l)

-- What stands before the first of a byte does not have it.
abbrev pub IsBefore : ℕ → Text → Option (Text × Text) → Type 0
IsBefore c s none = contains c s ≡ false
IsBefore c s (some (a, b)) = contains c a ≡ false

pub split_once-IsBefore : (c : ℕ) (s : Text) → IsBefore c s (split_once c s)
unfolding split_once
split_once-IsBefore c [] = refl
split_once-IsBefore c (x ∷ s) = elim (Bool-cases (x == c)) [
  | inl e ↦ rw e refl
  | inr e ↦ rw e (go e (split_once c s) (split_once-IsBefore c s))
]
  where
    go :
        (x == c) ≡ false
        → (split : Option (Text × Text)) → IsBefore c s split
        → IsBefore c (x ∷ s) (elim split as (λ _. Option (Text × Text)) [
          | none ↦ none
          | some (a, b) ↦ some (x ∷ a, b)
        ])
    go e none k = rw e k
    go e (some (a, b)) k = rw e k

contains-bracket : (s : Text) → contains b'/' s ≡ false → contains b'/' (s ++ codes "]") ≡ false
contains-bracket [] h = refl
contains-bracket (x ∷ s) h =
    let (not_x, rest) = both_false (x == b'/') (contains b'/' s) h in
    rw not_x (contains-bracket s rest)

pub contains-map : (s : Text) → contains b'/' (map to_ascii_lowercase s) ≡ contains b'/' s
unfolding to_ascii_lowercase
contains-map [] = refl
contains-map (x ∷ s) = ground (arith, contains-map s)

abbrev pub has_no_capital : Text → Bool
has_no_capital s = all (λ c. not (leb b'A' c && leb c b'Z')) s

pub map-no_capital : (s : Text) → has_no_capital (map to_ascii_lowercase s) ≡ true
unfolding to_ascii_lowercase
map-no_capital [] = refl
map-no_capital (x ∷ s) = ground (arith, map-no_capital s)

-- The value of a port is digits.
abbrev pub IsValue : Option Text → Type 0
IsValue none = Unit
IsValue (some value) = is_port value ≡ true

abbrev pub IsServer : Text × Option Text → Type 0
IsServer (host, port) = (contains b'/' host ≡ false) × IsValue port

bracketed-IsServer :
    (host remainder : Text)
    → contains b'/' host ≡ false
    → Returns IsServer (bracketed host remainder)
unfolding is_ascii_digit
bracketed-IsServer host remainder h = go (strip_prefix (codes ":") remainder)
  where
    go :
        (port : Option Text)
        → Returns IsServer (elim port as (λ _. Checked (Text × Option Text)) [
          | some port ↦ if is_port port then ok (host, some port) else invalid_url
          | none ↦ if is_empty remainder then ok (host, none) else invalid_url
        ])
    go none = elim (Bool-cases (is_empty remainder)) [ inl e ↦ rw e (h, tt) | inr e ↦ rw e tt ]
    go (some port) = elim (Bool-cases (is_port port)) [ inl e ↦ rw e (h, e) | inr e ↦ rw e tt ]

split_bracketed-IsServer :
    (split : Option (Text × Text)) → AreFree b'/' split → Returns IsServer (split_bracketed split)
split_bracketed-IsServer none h = tt
split_bracketed-IsServer (some (before, remainder)) (h, _) =
    elim (Bool-cases (is_empty (drop_first before))) [
      | inl e ↦ rw e tt
      | inr e ↦
          rw e (bracketed-IsServer (before ++ codes "]") remainder (contains-bracket before h))
    ]

split_plain-IsServer :
    (authority : Text) (split : Option (Text × Text))
    → contains b'/' authority ≡ false
    → AreFree b'/' split
    → Returns IsServer (split_plain authority split)
split_plain-IsServer authority none h k = (h, tt)
split_plain-IsServer authority (some (host, port)) h (k, _) =
    elim (Bool-cases (not (is_empty host) && is_port port)) [
      | inl e ↦ rw e (k, (both_true (not (is_empty host)) (is_port port) e).1)
      | inr e ↦ rw e tt
    ]

pub split_host_port-IsServer :
    (authority : Text)
    → contains b'/' authority ≡ false
    → Returns IsServer (split_host_port authority)
unfolding split_host_port
split_host_port-IsServer authority h = Returns-if IsServer (is_empty authority) _ _ tt (
    Returns-if IsServer (is_byte b'[' (first_byte authority)) _ _
      (split_bracketed-IsServer (split_once b']' authority)
        (split_once-AreFree b']' b'/' authority h))
      (Returns-if IsServer (contains b'[' authority || contains b']' authority) _ _ tt (
        split_plain-IsServer authority (rsplit_once b':' authority) h
          (rsplit_once-AreFree b':' b'/' authority h))))

-- Empty, or from the root
abbrev pub IsRooted : Text → Type 0
IsRooted path = (path ≡ []) ⊎ (is_byte b'/' (first_byte path) ≡ true)

abbrev StartsSlash : Text → Type 0
StartsSlash text = is_byte b'/' (first_byte text) ≡ true

as_text-StartsSlash :
    (output : Option Text) → Returns StartsSlash (as_text (push_plain b'/' output))
unfolding from_utf8
as_text-StartsSlash none = tt
as_text-StartsSlash (some output) = elim (Bool-cases (utf8_rest [] (b'/' ∷ output))) [
  | inl e ↦ rw e refl
  | inr e ↦ rw e tt
]

percent_decode_unreserved-StartsSlash :
    (path : Text) → Returns StartsSlash (percent_decode_unreserved (b'/' ∷ path))
unfolding percent_decode_unreserved decode_bytes
percent_decode_unreserved-StartsSlash [] = as_text-StartsSlash (some [])
percent_decode_unreserved-StartsSlash (b ∷ []) = as_text-StartsSlash (decode_bytes (b ∷ []))
percent_decode_unreserved-StartsSlash (b ∷ c ∷ s) = as_text-StartsSlash (decode_bytes (b ∷ c ∷ s))

pop_slashes-StartsSlash :
    (s : Text) → StartsSlash s → StartsSlash (pop_slashes (collapse false (map slash_of s)))
unfolding collapse
pop_slashes-StartsSlash [] h = cc h
pop_slashes-StartsSlash (c ∷ s) h = ground (arith, h)

pub normalize_url_path-IsRooted :
    (path : Text) → IsRooted path → Returns IsRooted (normalize_url_path path)
unfolding normalize_url_path percent_decode_unreserved decode_bytes from_utf8 collapse
normalize_url_path-IsRooted [] h = inl refl
normalize_url_path-IsRooted (c ∷ path) (inl e) = absurd (cc e)
normalize_url_path-IsRooted (c ∷ path) (inr e) =
    subst (λ d. Returns IsRooted (normalize_url_path (d ∷ path))) (sym ((==_iff c b'/').0 e))
      (Returns->>= StartsSlash IsRooted (percent_decode_unreserved (b'/' ∷ path))
        (λ decoded. ok (pop_slashes (collapse false (map slash_of decoded))))
        (percent_decode_unreserved-StartsSlash path)
        λ decoded h. inr (pop_slashes-StartsSlash decoded h))
