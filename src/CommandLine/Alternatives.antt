-- ===== src/CommandLine/Alternatives.antt =====
-- What the URLs of an accepted peer fulfil: their schemes, and the numbers of their settings.
use kitchensync.Base.{
  ◌||◌, ◌&&◌, not, is_byte, ends_with, Returns-if, contains, cons_head, ◌∙◌, init, drop_first,
  first_byte, length, ◌==◌, ℕ, ◌^◌, ◌<◌, ◌≡◌, ◌⊎◌, inl, inr, refl, codes, Text, text_eq, is_empty,
  Bool, true, false, Option, none, some, List, [], ◌∷◌, All, Result, ok, err, Returns, Returns->>=,
  ok_or, Option-cases, Bool-cases, strip_prefix, starts_with, split, split_once, if◌then◌else◌,
  arith,
}
use kitchensync.CommandLine.Types.{CommandLineUrlAlternative, CommandLinePeer}
use kitchensync.CommandLine.Urls.{
  validate_sftp_url, parse_positive_integer, Timeouts, name_value, set_timeout, parse_setting,
  parse_pairs, parse_query, has_scheme, validate_schemed_url, schemed_url, parse_url_alternative,
  parse_urls, parse_peer, url_values, role_of, value_of,
}

-- A positive number that fits in 64 bits
abbrev pub IsNumber : ℕ → Type 0
IsNumber n = (0 < n) × (n < 2 ^ 64)

abbrev pub IsTimeout : Option ℕ → Type 0
IsTimeout none = Unit
IsTimeout (some n) = IsNumber n

-- The URL has one of the two schemes.
abbrev pub IsSchemed : Text → Type 0
IsSchemed url =
    (starts_with (codes "sftp://") url ≡ true) ⊎ (starts_with (codes "file://") url ≡ true)

abbrev pub IsUrl : CommandLineUrlAlternative → Type 0
IsUrl alternative =
    IsSchemed alternative.url
    × IsTimeout alternative.timeout_conn_seconds
    × IsTimeout alternative.timeout_idle_seconds

abbrev pub IsPeer : CommandLinePeer → Type 0
IsPeer peer = All IsUrl peer.urls

abbrev AreTimeouts : Timeouts → Type 0
AreTimeouts timeouts =
    IsTimeout timeouts.timeout_conn_seconds × IsTimeout timeouts.timeout_idle_seconds

parse_positive_integer-IsNumber :
    (value : Text) (n : ℕ) → parse_positive_integer value ≡ some n → IsNumber n
unfolding parse_positive_integer
parse_positive_integer-IsNumber value n h = ground (arith, h)

pub ok_or-IsNumber :
    (value message : Text) → Returns IsNumber (ok_or (parse_positive_integer value) message)
ok_or-IsNumber value message = elim (Option-cases (parse_positive_integer value)) [
  | inl e ↦ rw e tt
  | inr (n, e) ↦ rw e (parse_positive_integer-IsNumber value n e)
]

set_timeout-AreTimeouts :
    (name : Text) (n : ℕ) (timeouts : Timeouts)
    → IsNumber n
    → AreTimeouts timeouts
    → Returns AreTimeouts (set_timeout name n timeouts)
unfolding set_timeout
set_timeout-AreTimeouts name n timeouts h (conn, idle) =
    elim (Bool-cases (text_eq name (codes "timeout-conn"))) [
      | inl e ↦ rw e (h, idle)
      | inr e ↦ elim (Bool-cases (text_eq name (codes "timeout-idle"))) [
        | inl f ↦ rw (e, f) (conn, h)
        | inr f ↦ rw (e, f) tt
      ]
    ]

parse_pairs-AreTimeouts :
    (pairs : List Text) (timeouts : Timeouts)
    → AreTimeouts timeouts
    → Returns AreTimeouts (parse_pairs pairs timeouts)
unfolding parse_pairs parse_setting
parse_pairs-AreTimeouts [] timeouts h = h
parse_pairs-AreTimeouts (pair ∷ pairs) timeouts h =
    let (name, value) = name_value pair (split_once b'=' pair) in
    Returns->>= AreTimeouts AreTimeouts (parse_setting (name, value) timeouts) _
      (Returns->>= IsNumber AreTimeouts (ok_or (parse_positive_integer value) _) _
        (ok_or-IsNumber value _) λ n p. set_timeout-AreTimeouts name n timeouts p h)
      λ next p. parse_pairs-AreTimeouts pairs next p

parse_query-AreTimeouts : (query : Option (Text × Text)) → Returns AreTimeouts (parse_query query)
unfolding parse_query
parse_query-AreTimeouts none = (tt, tt)
parse_query-AreTimeouts (some (head, query)) = parse_pairs-AreTimeouts (split b'&' query) _ (tt, tt)

strip_prefix-starts_with : (p s rest : Text) → strip_prefix p s ≡ some rest → starts_with p s ≡ true
unfolding strip_prefix starts_with
strip_prefix-starts_with [] s rest h = refl
strip_prefix-starts_with (x ∷ p) [] rest h = cc h
strip_prefix-starts_with (x ∷ p) (y ∷ s) rest h =
    ground (arith, strip_prefix-starts_with p s rest, h)

Returns-const {ℓ} : {A : Type ℓ} (r : Result (Unit {0}) Text) → A → Returns (λ _. A) r
Returns-const (ok u) a = a
Returns-const (err m) a = tt

validate_schemed_url-IsSchemed :
    (value : Text) → Returns (λ _. IsSchemed value) (validate_schemed_url value)
unfolding validate_schemed_url
validate_schemed_url-IsSchemed value = go (strip_prefix (codes "sftp://") value) refl
  where
    go :
        (prefix : Option Text)
        → strip_prefix (codes "sftp://") value ≡ prefix
        → Returns (λ _. IsSchemed value) (validate_schemed_url value)
    go (some rest) e =
        let schemed = strip_prefix-starts_with (codes "sftp://") value rest e in
        rw e (Returns-const (validate_sftp_url rest) (inl schemed))
    go none e = elim (Bool-cases (starts_with (codes "file://") value)) [
      | inl f ↦ rw (e, f) (inr refl)
      | inr f ↦ rw (e, f) tt
    ]

-- The scheme in front adds no comma.
abbrev HasSame : Text → Text → Type 0
HasSame value url = IsSchemed url × (contains b',' url ≡ contains b',' value)

schemed_url-IsSchemed : (value : Text) → Returns (HasSame value) (schemed_url value)
unfolding schemed_url starts_with
schemed_url-IsSchemed value = elim (Bool-cases (has_scheme value)) [
  | inl e ↦ rw e (
      Returns->>= (λ _. IsSchemed value) (HasSame value) (validate_schemed_url value) _
        (validate_schemed_url-IsSchemed value) λ _ h. (h, refl))
  | inr e ↦ rw e (inr refl, refl)
]

abbrev IsUrlOf : Text → CommandLineUrlAlternative → Type 0
IsUrlOf value alternative =
    IsUrl alternative × (contains b',' alternative.url ≡ contains b',' value)

parse_url_alternative-IsUrl : (value : Text) → Returns (IsUrlOf value) (parse_url_alternative value)
unfolding parse_url_alternative
parse_url_alternative-IsUrl value =
    Returns->>= AreTimeouts (IsUrlOf value) (parse_query (split_once b'?' value)) _
      (parse_query-AreTimeouts (split_once b'?' value))
      λ timeouts (conn, idle).
        Returns->>= (HasSame value) (IsUrlOf value) (schemed_url value) _
          (schemed_url-IsSchemed value) λ url (h, same). ((h, conn, idle), same)

-- One text, or texts without a comma
abbrev AreSeparate : List Text → Type 0
AreSeparate values =
    (length values ≡ 1) ⊎ ((0 < length values) × All (λ value. contains b',' value ≡ false) values)

-- The URLs can be written one behind the other and found again.
abbrev pub AreSeparable : List CommandLineUrlAlternative → Type 0
AreSeparable urls =
    (length urls ≡ 1)
    ⊎ ((0 < length urls) × All (λ alternative. contains b',' alternative.url ≡ false) urls)

abbrev AreUrlsOf : List Text → List CommandLineUrlAlternative → Type 0
AreUrlsOf values urls =
    All IsUrl urls
    × (length urls ≡ length values)
    × (All (λ value. contains b',' value ≡ false) values
        → All (λ alternative. contains b',' alternative.url ≡ false) urls)

parse_urls-IsUrl : (values : List Text) → Returns (AreUrlsOf values) (parse_urls values)
unfolding parse_urls
parse_urls-IsUrl [] = (tt, refl, λ h. h)
parse_urls-IsUrl (value ∷ values) =
    Returns-if (AreUrlsOf (value ∷ values)) (is_empty value) _ _ tt (
      Returns->>= (IsUrlOf value) (AreUrlsOf (value ∷ values)) (parse_url_alternative value) _
        (parse_url_alternative-IsUrl value)
        λ url (h, same).
          Returns->>= (AreUrlsOf values) (AreUrlsOf (value ∷ values)) (parse_urls values) _
            (parse_urls-IsUrl values)
            λ urls (rest, n, free). ((h, rest), omega (arith, n), λ (c, cs). (same ∙ c, free cs)))

cons_head-free :
    (c x : ℕ) (parts : List Text)
    → (x == c) ≡ false
    → All (λ part. contains c part ≡ false) parts
    → All (λ part. contains c part ≡ false) (cons_head x parts)
cons_head-free c x [] e h = (rw e refl, tt)
cons_head-free c x (part ∷ parts) e (h, hs) = (rw e h, hs)

split-free : (c : ℕ) (s : Text) → All (λ part. contains c part ≡ false) (split c s)
unfolding split
split-free c [] = (refl, tt)
split-free c (x ∷ s) = elim (Bool-cases (x == c)) [
  | inl e ↦ rw e (refl, split-free c s)
  | inr e ↦ rw e (cons_head-free c x (split c s) e (split-free c s))
]

cons_head-length : (x : ℕ) (parts : List Text) → 0 < length (cons_head x parts)
cons_head-length x [] = omega arith
cons_head-length x (part ∷ parts) = omega arith

split-length : (c : ℕ) (s : Text) → 0 < length (split c s)
unfolding split
split-length c [] = omega arith
split-length c (x ∷ s) = elim (Bool-cases (x == c)) [
  | inl e ↦ rw e (omega arith)
  | inr e ↦ rw e (cons_head-length x (split c s))
]

url_values-AreSeparate : (value : Text) → Returns AreSeparate (url_values value)
unfolding url_values
url_values-AreSeparate value =
    go (is_byte b'[' (first_byte value) || ends_with b']' value)
      (not (is_byte b'[' (first_byte value) && ends_with b']' value))
      (is_empty (init (drop_first value)))
  where
    go :
        (bracketed unmatched empty : Bool)
        → Returns AreSeparate (
            if bracketed
            then (if unmatched
                then err (codes "fallback peer must use matching brackets")
                else if empty
                then err (codes "fallback peer must contain at least one URL")
                else ok (split b',' (init (drop_first value))))
            else ok (value ∷ []))
    go true true empty = tt
    go true false true = tt
    go true false false =
        inr (split-length b',' (init (drop_first value)), split-free b',' (init (drop_first value)))
    go false unmatched empty = inl refl

-- What the parser of peers accepts has URLs with a known scheme and settings in their limits, and
-- the URLs can be separated again.
pub parse_peer-IsPeer :
    (arg : Text) → Returns (λ peer. IsPeer peer × AreSeparable peer.urls) (parse_peer arg)
unfolding parse_peer
parse_peer-IsPeer arg =
    Returns-if (λ peer. IsPeer peer × AreSeparable peer.urls)
      (is_empty (value_of (role_of (first_byte arg)) arg)) _ _ tt
      (Returns->>= AreSeparate (λ peer. IsPeer peer × AreSeparable peer.urls)
        (url_values (value_of (role_of (first_byte arg)) arg)) _
        (url_values-AreSeparate (value_of (role_of (first_byte arg)) arg))
        λ values separate.
          Returns->>= (AreUrlsOf values) (λ peer. IsPeer peer × AreSeparable peer.urls)
            (parse_urls values) _ (parse_urls-IsUrl values)
            λ urls (all, n, free). (
              all,
              elim separate [
                | inl one ↦ inl (n ∙ one)
                | inr (some_value, cs) ↦ inr (omega (arith, n, some_value), free cs)
              ],
            ))
