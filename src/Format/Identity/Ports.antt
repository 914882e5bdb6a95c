-- ===== src/Format/Identity/Ports.antt =====
-- The default port of an SFTP peer.
use kitchensync.Base.{
  ℕ, ◌≡◌, refl, ◌∙◌, sym, ap, subst, codes, Text, is_empty, contains, Bool, true, false, ◌||◌, not,
  Option, none, some, [], ◌∷◌, ◌++◌, all, ok, ◌>>=◌, if◌then◌else◌, Bool-cases, Option-cases, inl,
  inr, ◌==◌, arith, rsplit_once, split_once, text_eq, is_ascii_digit, both_true,
}
use kitchensync.Format.Identity.{
  Checked, normalize_url_path, split_host_port, sftp_identity, user_host, sftp_parts,
  normalize_sftp_identity, strip_query_and_fragment, authority_path, port_text,
}

-- A byte that separates no parts of an authority
unfoldable pub is_plain : ℕ → Bool
is_plain c =
    not ((c == b'/') || (c == b'?') || (c == b'#') || (c == b':') || (c == b'[') || (c == b']'))

abbrev default_port : Text
default_port = codes ":22"

-- A byte that does not end an authority
abbrev is_inner : ℕ → Bool
is_inner c = not ((c == b'/') || (c == b'?') || (c == b'#'))

all-is_inner : (a : Text) → all is_plain a ≡ true → all is_inner a ≡ true
unfolding is_plain
all-is_inner [] h = refl
all-is_inner (c ∷ a) h =
    ground (arith, h, all-is_inner a (both_true (is_plain c) (all is_plain a) h).1)

all-default_port : (a : Text) → all is_plain a ≡ true → all is_inner (a ++ default_port) ≡ true
unfolding is_plain
all-default_port [] h = refl
all-default_port (c ∷ a) h =
    ground (arith, h, all-default_port a (both_true (is_plain c) (all is_plain a) h).1)

strip_query-append :
    (a t : Text)
    → all is_inner a ≡ true
    → strip_query_and_fragment (a ++ (b'/' ∷ t)) ≡ a ++ (b'/' ∷ strip_query_and_fragment t)
unfolding strip_query_and_fragment
strip_query-append [] t h = refl
strip_query-append (c ∷ a) t h =
    ground (arith, h, strip_query-append a t (both_true (is_inner c) (all is_inner a) h).1)

split_once-append :
    (a t : Text) → all is_inner a ≡ true → split_once b'/' (a ++ (b'/' ∷ t)) ≡ some (a, t)
unfolding split_once
split_once-append [] t h = refl
split_once-append (c ∷ a) t h =
    ground (arith, h, split_once-append a t (both_true (is_inner c) (all is_inner a) h).1)

normalize_sftp_identity-append :
    (os_username : Option Text) (a t : Text)
    → all is_inner a ≡ true
    → normalize_sftp_identity (a ++ (b'/' ∷ t)) os_username
      ≡ sftp_parts os_username (a, b'/' ∷ strip_query_and_fragment t)
unfolding normalize_sftp_identity
normalize_sftp_identity-append os_username a t h =
    ap (λ url. sftp_parts os_username (authority_path url (split_once b'/' url)))
      (strip_query-append a t h)
    ∙ ap
        (λ split.
          sftp_parts os_username (authority_path (a ++ (b'/' ∷ strip_query_and_fragment t)) split))
        (split_once-append a (strip_query_and_fragment t) h)

rsplit_once-none : (a : Text) → all is_plain a ≡ true → rsplit_once b':' a ≡ none
unfolding is_plain rsplit_once
rsplit_once-none [] h = refl
rsplit_once-none (c ∷ a) h =
    ground (arith, h, rsplit_once-none a (both_true (is_plain c) (all is_plain a) h).1)

rsplit_once-default_port : (a : Text) → rsplit_once b':' (a ++ default_port) ≡ some (a, codes "22")
unfolding rsplit_once
rsplit_once-default_port [] = refl
rsplit_once-default_port (c ∷ a) = rw (rsplit_once-default_port a) refl

abbrev with_port : Option (Text × Text) → Option (Text × Text)
with_port none = none
with_port (some (user, host)) = some (user, host ++ default_port)

rsplit_once-with_port :
    (a : Text) → rsplit_once b'@' (a ++ default_port) ≡ with_port (rsplit_once b'@' a)
unfolding rsplit_once
rsplit_once-with_port [] = refl
rsplit_once-with_port (c ∷ a) =
    rw (rsplit_once-with_port a) (elim (Option-cases (rsplit_once b'@' a)) [
      | inl e ↦ rw e (elim (Bool-cases (c == b'@')) [ inl k ↦ rw k refl | inr k ↦ rw k refl ])
      | inr (split, e) ↦ rw e refl
    ])

abbrev second_plain : Option (Text × Text) → Bool
second_plain none = true
second_plain (some (user, host)) = all is_plain host

rsplit_once-second_plain :
    (a : Text) → all is_plain a ≡ true → second_plain (rsplit_once b'@' a) ≡ true
unfolding rsplit_once
rsplit_once-second_plain [] h = refl
rsplit_once-second_plain (c ∷ a) h = elim (Option-cases (rsplit_once b'@' a)) [
  | inl e ↦ rw e (elim (Bool-cases (c == b'@')) [
    | inl k ↦ rw k (both_true (is_plain c) (all is_plain a) h).1
    | inr k ↦ rw k refl
  ])
  | inr (split, e) ↦
      subst
        (λ o.
          second_plain (elim o [
            | some (x, y) ↦ some (c ∷ x, y)
            | none ↦ if c == b'@' then some ([], a) else none
          ])
          ≡ true)
        (sym e)
        (subst (λ o. second_plain o ≡ true) e
          (rsplit_once-second_plain a (both_true (is_plain c) (all is_plain a) h).1))
]

contains-plain :
    (c : ℕ) (a t : Text)
    → is_plain c ≡ false
    → all is_plain a ≡ true
    → contains c (a ++ t) ≡ contains c t
unfolding is_plain
contains-plain c [] t p h = refl
contains-plain c (x ∷ a) t p h =
    ground (arith, p, h, contains-plain c a t p (both_true (is_plain x) (all is_plain a) h).1)

contains_none :
    (c : ℕ) (a : Text) → is_plain c ≡ false → all is_plain a ≡ true → contains c a ≡ false
unfolding is_plain
contains_none c [] p h = refl
contains_none c (x ∷ a) p h =
    ground (arith, p, h, contains_none c a p (both_true (is_plain x) (all is_plain a) h).1)

is_plain-not_bracket : (c : ℕ) → is_plain c ≡ true → (c == b'[') ≡ false
unfolding is_plain
is_plain-not_bracket c h = ground (arith, h)

open_bracket : is_plain b'[' ≡ false
unfolding is_plain
open_bracket = refl

close_bracket : is_plain b']' ≡ false
unfolding is_plain
close_bracket = refl

split_host_port-plain :
    (c : ℕ) (h : Text) → all is_plain (c ∷ h) ≡ true → split_host_port (c ∷ h) ≡ ok (c ∷ h, none)
unfolding split_host_port
split_host_port-plain c h p =
    rw (is_plain-not_bracket c (both_true (is_plain c) (all is_plain h) p).0) (
      rw (contains_none b'[' h open_bracket (both_true (is_plain c) (all is_plain h) p).1)
        (rw (contains_none b']' (c ∷ h) close_bracket p) (rw (rsplit_once-none (c ∷ h) p) refl)))

split_host_port-default_port :
    (c : ℕ) (h : Text)
    → all is_plain (c ∷ h) ≡ true
    → split_host_port (c ∷ h ++ default_port) ≡ ok (c ∷ h, some (codes "22"))
unfolding split_host_port is_ascii_digit
split_host_port-default_port c h p =
    rw (is_plain-not_bracket c (both_true (is_plain c) (all is_plain h) p).0) (
      rw
        (contains-plain b'[' h default_port open_bracket
          (both_true (is_plain c) (all is_plain h) p).1)
        (rw (contains-plain b']' (c ∷ h) default_port close_bracket p)
          (rw (rsplit_once-default_port (c ∷ h)) refl)))

-- Once the user is known
abbrev with_user : Text → Checked (Text × Text) → Checked Text
with_user path user_result = do
  user ← user_result
  host ← split_host_port user.1
  normalized ← normalize_url_path path
  ok (sftp_identity user.0 host.0 host.1 normalized)

with_user-default_port :
    (path user host : Text)
    → all is_plain host ≡ true
    → with_user path (ok (user, host ++ default_port)) ≡ with_user path (ok (user, host))
unfolding port_text text_eq split_host_port is_ascii_digit rsplit_once
with_user-default_port path user [] p = refl
with_user-default_port path user (c ∷ h) p =
    rw (split_host_port-default_port c h p) (rw (split_host_port-plain c h p) refl)

sftp_parts-default_port :
    (os_username : Option Text) (authority path : Text)
    → all is_plain authority ≡ true
    → is_empty authority ≡ false
    → sftp_parts os_username (authority ++ default_port, path)
      ≡ sftp_parts os_username (authority, path)
sftp_parts-default_port os_username [] path p h = cc h
sftp_parts-default_port os_username (c ∷ a) path p h =
    ap (λ o. with_user path (user_host (c ∷ a ++ default_port) os_username o))
      (rsplit_once-with_port (c ∷ a))
    ∙ go (rsplit_once b'@' (c ∷ a)) (rsplit_once-second_plain (c ∷ a) p) os_username
  where
    go :
        (split : Option (Text × Text))
        → second_plain split ≡ true
        → (os_username : Option Text)
        → with_user path (user_host (c ∷ a ++ default_port) os_username (with_port split))
          ≡ with_user path (user_host (c ∷ a) os_username split)
    go none k none = refl
    go none k (some []) = refl
    go none k (some (x ∷ name)) = with_user-default_port path (x ∷ name) (c ∷ a) p
    go (some (user, host)) k name = elim (Bool-cases (is_empty user || contains b':' user)) [
      | inl e ↦ rw e refl
      | inr e ↦ rw e (with_user-default_port path user host k)
    ]

-- An SFTP URL whose authority has no `/`, `?`, `#`, `:`, `[` or `]` and is not empty has the same
-- identity, or is refused with the same error, with the port 22 and without a port.
pub normalize_sftp_identity-default_port :
    (os_username : Option Text) (authority path : Text)
    → all is_plain authority ≡ true
    → is_empty authority ≡ false
    → normalize_sftp_identity (authority ++ codes ":22" ++ (b'/' ∷ path)) os_username
      ≡ normalize_sftp_identity (authority ++ (b'/' ∷ path)) os_username
normalize_sftp_identity-default_port os_username authority path p h =
    normalize_sftp_identity-append os_username (authority ++ default_port) path
      (all-default_port authority p)
    ∙ sftp_parts-default_port os_username authority (b'/' ∷ strip_query_and_fragment path) p h
    ∙ sym (normalize_sftp_identity-append os_username authority path (all-is_inner authority p))
