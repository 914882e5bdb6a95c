-- ===== src/CommandLine/Limits.antt =====
-- What a run request that the command line accepts fulfils.
use kitchensync.Base.{
  ◌≢◌, codes, is_byte, first_byte, ends_with, contains, split, text_eq, text_eq_iff, both_false,
  is_empty, any, Bool, false, ◌||◌, ltb→le, Bool-cases, ℕ, ◌≤◌, ◌≡◌, refl, Text, Option, none, some,
  List, [], ◌∷◌, ◌++◌, All, length, filter, ok, Returns, Returns->>=, Returns-ok, Returns-any, inl,
  inr, ltb, arith,
}
use kitchensync.CommandLine.Types.{CommandLineSettings, CommandLineRunRequest}
use kitchensync.CommandLine.Options.{
  option_value, option_positive_integer, parse_verbosity, validate_exclude, is_bad_part,
}
use kitchensync.CommandLine.Alternatives.{
  IsNumber, ok_or-IsNumber, IsPeer, AreSeparable, parse_peer-IsPeer,
}
use kitchensync.CommandLine.Parse.{
  NumericOption, max_copies, retries_copy, retries_list, timeout_conn, timeout_idle, keep_tmp_days,
  keep_bak_days, keep_del_days, set_number, option_name, Arm, dry_run_arm, numeric_arm,
  verbosity_arm, exclude_arm, unrecognized_arm, peer_arm, take_arm, arm_of, Iteration, by_one,
  by_two, request_of, parse_arguments, default_settings, parse_run, check_peers, is_canon,
}
use kitchensync.CommandLine.Urls.{parse_peer}

abbrev pub AreNumbers : CommandLineSettings → Type 0
AreNumbers settings =
    IsNumber settings.max_copies
    × IsNumber settings.retries_copy
    × IsNumber settings.retries_list
    × IsNumber settings.timeout_conn_seconds
    × IsNumber settings.timeout_idle_seconds
    × IsNumber settings.keep_tmp_days
    × IsNumber settings.keep_bak_days
    × IsNumber settings.keep_del_days

-- A segment that names an entry of its directory
abbrev pub IsSegment : Text → Type 0
IsSegment part = (part ≢ []) × (part ≢ codes ".") × (part ≢ codes "..")

-- A relative slash path
abbrev pub IsExclude : Text → Type 0
IsExclude value =
    (value ≢ [])
    × (is_byte b'/' (first_byte value) ≡ false)
    × (ends_with b'/' value ≡ false)
    × (contains b'\\' value ≡ false)
    × All IsSegment (split b'/' value)

abbrev pub AreSettings : CommandLineRunRequest → Type 0
AreSettings request = AreNumbers request.settings × All IsExclude request.settings.excludes

module _ {ℓ κ} {A : Type ℓ} where
  All-append : (P : A → Type κ) (xs : List A) (a : A) → All P xs → P a → All P (xs ++ (a ∷ []))
  All-append P [] a h p = (p, tt)
  All-append P (x ∷ xs) a (px, h) p = (px, All-append P xs a h p)

option_positive_integer-IsNumber :
    (next : Option Text) (name : Text) → Returns IsNumber (option_positive_integer next name)
unfolding option_positive_integer option_value
option_positive_integer-IsNumber none name = tt
option_positive_integer-IsNumber (some value) name = ok_or-IsNumber value _

set_number-AreNumbers :
    (name : NumericOption) (n : ℕ) (settings : CommandLineSettings)
    → IsNumber n
    → AreNumbers settings
    → AreNumbers (set_number name n settings)
set_number-AreNumbers max_copies n settings x (a, b, c, d, e, f, g, h) = (x, b, c, d, e, f, g, h)
set_number-AreNumbers retries_copy n settings x (a, b, c, d, e, f, g, h) = (a, x, c, d, e, f, g, h)
set_number-AreNumbers retries_list n settings x (a, b, c, d, e, f, g, h) = (a, b, x, d, e, f, g, h)
set_number-AreNumbers timeout_conn n settings x (a, b, c, d, e, f, g, h) = (a, b, c, x, e, f, g, h)
set_number-AreNumbers timeout_idle n settings x (a, b, c, d, e, f, g, h) = (a, b, c, d, x, f, g, h)
set_number-AreNumbers keep_tmp_days n settings x (a, b, c, d, e, f, g, h) = (a, b, c, d, e, x, g, h)
set_number-AreNumbers keep_bak_days n settings x (a, b, c, d, e, f, g, h) = (a, b, c, d, e, f, x, h)
set_number-AreNumbers keep_del_days n settings x (a, b, c, d, e, f, g, h) = (a, b, c, d, e, f, g, x)

set_number-excludes :
    (name : NumericOption) (n : ℕ) (settings : CommandLineSettings)
    → (set_number name n settings).excludes ≡ settings.excludes
set_number-excludes max_copies n settings = refl
set_number-excludes retries_copy n settings = refl
set_number-excludes retries_list n settings = refl
set_number-excludes timeout_conn n settings = refl
set_number-excludes timeout_idle n settings = refl
set_number-excludes keep_tmp_days n settings = refl
set_number-excludes keep_bak_days n settings = refl
set_number-excludes keep_del_days n settings = refl

text_eq-false : (s t : Text) → text_eq s t ≡ false → s ≢ t
text_eq-false s t h e = cc (h, (text_eq_iff s t).1 e)

is_bad_part-IsSegment : (part : Text) → is_bad_part part ≡ false → IsSegment part
is_bad_part-IsSegment [] h = absurd (cc h)
is_bad_part-IsSegment (c ∷ s) h =
    let (not_dot, not_dots) =
      both_false (text_eq (c ∷ s) (codes ".")) (text_eq (c ∷ s) (codes "..")) h in
    (λ e. cc e, text_eq-false _ _ not_dot, text_eq-false _ _ not_dots)

any-All-IsSegment : (parts : List Text) → any is_bad_part parts ≡ false → All IsSegment parts
any-All-IsSegment [] h = tt
any-All-IsSegment (part ∷ parts) h =
    let (good, rest) = both_false (is_bad_part part) (any is_bad_part parts) h in
    (is_bad_part-IsSegment part good, any-All-IsSegment parts rest)

is_empty-false : (s : Text) → is_empty s ≡ false → s ≢ []
is_empty-false [] h = absurd (cc h)
is_empty-false (c ∷ s) h = λ e. cc e

abbrev is_refused_exclude : Text → Bool
is_refused_exclude value =
    is_empty value
    || is_byte b'/' (first_byte value)
    || ends_with b'/' value
    || contains b'\\' value
    || any is_bad_part (split b'/' value)

is_refused-IsExclude : (value : Text) → is_refused_exclude value ≡ false → IsExclude value
is_refused-IsExclude value h =
    let (h1, segments) = both_false _ (any is_bad_part (split b'/' value)) h in
    let (h2, no_backslash) = both_false _ (contains b'\\' value) h1 in
    let (h3, no_end) = both_false _ (ends_with b'/' value) h2 in
    let (some_byte, no_root) = both_false (is_empty value) (is_byte b'/' (first_byte value)) h3 in
    (is_empty-false value some_byte, no_root, no_end, no_backslash, any-All-IsSegment _ segments)

validate_exclude-IsExclude :
    (value : Text) → Returns (λ _. IsExclude value) (validate_exclude value)
unfolding validate_exclude
validate_exclude-IsExclude value = elim (Bool-cases (is_refused_exclude value)) [
  | inl e ↦ rw e tt
  | inr e ↦ rw e (is_refused-IsExclude value e)
]

abbrev Accepted : CommandLineRunRequest → Type 0
Accepted request = AreSettings request × All IsPeer request.peers

-- Every arm keeps the request within the limits.
take_arm-Accepted :
    (arm : Arm) (arg : Text) (next : Option Text) (request : CommandLineRunRequest)
    → Accepted request
    → Returns (λ done. Accepted (request_of done)) (take_arm arm arg next request)
unfolding take_arm option_value
take_arm-Accepted dry_run_arm arg next request valid = valid
take_arm-Accepted (numeric_arm name) arg next request ((numbers, excludes), peers) =
    Returns->>= IsNumber (λ done. Accepted (request_of done))
      (option_positive_integer next (option_name name)) _
      (option_positive_integer-IsNumber next (option_name name))
      λ n h. (
        (
          set_number-AreNumbers name n request.settings h numbers,
          rw (set_number-excludes name n request.settings) excludes,
        ),
        peers,
      )
take_arm-Accepted verbosity_arm arg none request valid = tt
take_arm-Accepted verbosity_arm arg (some value) request valid =
    Returns->>= (λ _. Unit {0}) (λ done. Accepted (request_of done)) (parse_verbosity value) _
      (Returns-any (parse_verbosity value)) λ verbosity _. valid
take_arm-Accepted exclude_arm arg none request valid = tt
take_arm-Accepted exclude_arm arg (some value) request ((numbers, excludes), peers) =
    Returns->>= (λ _. IsExclude value) (λ done. Accepted (request_of done)) (validate_exclude value)
      _ (validate_exclude-IsExclude value)
      λ _ h. ((numbers, All-append IsExclude request.settings.excludes value excludes h), peers)
take_arm-Accepted unrecognized_arm arg next request valid = tt
take_arm-Accepted peer_arm arg next request (settings, peers) =
    Returns->>= (λ peer. IsPeer peer × AreSeparable peer.urls) (λ done. Accepted (request_of done))
      (parse_peer arg) _ (parse_peer-IsPeer arg)
      λ peer (h, _). (settings, All-append IsPeer request.peers peer peers h)

parse_arguments-Accepted :
    (args : List Text) (request : CommandLineRunRequest)
    → Accepted request
    → Returns Accepted (parse_arguments args request)
unfolding parse_arguments
parse_arguments-Accepted [] request valid = valid
parse_arguments-Accepted (arg ∷ []) request valid =
    Returns->>= (λ done. Accepted (request_of done)) Accepted
      (take_arm (arm_of arg) arg none request) _
      (take_arm-Accepted (arm_of arg) arg none request valid) λ done h. h
parse_arguments-Accepted (arg ∷ (next ∷ args)) request valid =
    Returns->>= (λ done. Accepted (request_of done)) Accepted
      (take_arm (arm_of arg) arg (some next) request) _
      (take_arm-Accepted (arm_of arg) arg (some next) request valid)
      (go (parse_arguments-Accepted (next ∷ args)) (parse_arguments-Accepted args))
  where
    go :
        (one : (after : CommandLineRunRequest)
          → Accepted after
          → Returns Accepted (parse_arguments (next ∷ args) after))
        (two : (after : CommandLineRunRequest)
          → Accepted after
          → Returns Accepted (parse_arguments args after))
        (done : Iteration)
        → Accepted (request_of done)
        → Returns Accepted (elim done [
          | by_one after ↦ parse_arguments (next ∷ args) after
          | by_two after ↦ parse_arguments args after
        ])
    go one two (by_one after) h = one after h
    go one two (by_two after) h = two after h

-- At least two peers, at most one of them canon, and every part in its limits
abbrev pub IsRun : CommandLineRunRequest → Type 0
IsRun request =
    (2 ≤ length request.peers)
    × (length (filter is_canon request.peers) ≤ 1)
    × AreSettings request
    × All IsPeer request.peers

check_peers-IsRun :
    (request : CommandLineRunRequest) → Accepted request → Returns IsRun (check_peers request)
unfolding check_peers
check_peers-IsRun request (settings, peers) = elim (Bool-cases (ltb (length request.peers) 2)) [
  | inl e ↦ rw e tt
  | inr e ↦ elim (Bool-cases (ltb 1 (length (filter is_canon request.peers)))) [
    | inl f ↦ rw (e, f) tt
    | inr f ↦ rw (e, f) (ltb→le _ _ e, ltb→le _ _ f, settings, peers)
  ]
]

abbrev no_request : CommandLineRunRequest
no_request = record { settings = default_settings; peers = [] }

no_request-Accepted : Accepted no_request
no_request-Accepted = (
  (
    (
      (omega arith, omega arith),
      (omega arith, omega arith),
      (omega arith, omega arith),
      (omega arith, omega arith),
      (omega arith, omega arith),
      (omega arith, omega arith),
      (omega arith, omega arith),
      (omega arith, omega arith),
    ),
    tt,
  ),
  tt,
)

-- A run request that the command line accepts has at least two peers and at most one of them canon;
-- its numbers are positive and fit in 64 bits; its excludes are relative slash paths, without a
-- backslash and without a segment that is empty, `.` or `..`; every URL of every peer is an SFTP or a
-- file URL, and a timeout of its own is positive and fits in 64 bits.
pub parse_run-IsRun :
    (args : List Text) (request : CommandLineRunRequest)
    → parse_run args ≡ ok request
    → IsRun request
unfolding parse_run
parse_run-IsRun args request h =
    Returns-ok IsRun (parse_run args) request
      (Returns->>= Accepted IsRun (parse_arguments args no_request) check_peers
        (parse_arguments-Accepted args no_request no_request-Accepted) check_peers-IsRun)
      h
