-- ===== src/Program/Arguments.antt =====
-- The way of the peers from the command line through proj/src/main.rs to PeerConnections.
use kitchensync.Base.{
  both_false, ℕ, ◌<◌, ◌≡◌, ◌⊎◌, inl, inr, refl, ◌∙◌, ap, codes, Text, false, some, List, [], ◌∷◌,
  ◌++◌, map, All, length, join, split, contains, starts_with, first_byte, init, last, ok,
  Returns-ok, ◌==◌, arith,
}
use kitchensync.CommandLine.Types.{
  CommandLinePeerRole, normal, canon, subordinate, CommandLineUrlAlternative, CommandLinePeer,
}
use kitchensync.CommandLine.Urls.{parse_peer}
use kitchensync.CommandLine.Alternatives.{IsSchemed, IsUrl, IsPeer, AreSeparable, parse_peer-IsPeer}
use kitchensync.Connections.Types.{ParsedRole, normal_role, canon_role, subordinate_role}
use kitchensync.Connections.Arguments.{role_value, candidates_of, parse_peer_argument}
use kitchensync.Program.Main.{role_prefix, written_urls, urls_of, peer_argument}

abbrev pub parsed_role : CommandLinePeerRole → ParsedRole
parsed_role normal = normal_role
parsed_role canon = canon_role
parsed_role subordinate = subordinate_role

abbrev IsFree : ℕ → Text → Type 0
IsFree c text = contains c text ≡ false

split-stop :
    (c : ℕ) (part rest : Text) → IsFree c part → split c (part ++ (c ∷ rest)) ≡ part ∷ split c rest
unfolding split
split-stop c [] rest h = ground arith
split-stop c (x ∷ part) rest h =
    let (e, free) = both_false (x == c) (contains c part) h in
    rw (e, split-stop c part rest free) refl

split-whole : (c : ℕ) (part : Text) → IsFree c part → split c part ≡ part ∷ []
unfolding split
split-whole c [] h = refl
split-whole c (x ∷ part) h =
    let (e, free) = both_false (x == c) (contains c part) h in rw (e, split-whole c part free) refl

split-join :
    (c : ℕ) (parts : List Text)
    → 0 < length parts
    → All (IsFree c) parts
    → split c (join c parts) ≡ parts
unfolding join
split-join c [] some_part free = absurd (omega (arith, some_part))
split-join c (part ∷ []) some_part (h, _) = split-whole c part h
split-join c (part ∷ next ∷ parts) some_part (h, free) =
    split-stop c part (join c (next ∷ parts)) h
    ∙ ap (λ rest. part ∷ rest) (split-join c (next ∷ parts) (omega arith) free)

last-append : (s : Text) (c : ℕ) → last (s ++ (c ∷ [])) ≡ some c
last-append [] c = refl
last-append (x ∷ []) c = refl
last-append (x ∷ y ∷ s) c = last-append (y ∷ s) c

init-append : (s : Text) (c : ℕ) → init (s ++ (c ∷ [])) ≡ s
init-append [] c = refl
init-append (x ∷ []) c = refl
init-append (x ∷ y ∷ s) c = ap (λ rest. x ∷ rest) (init-append (y ∷ s) c)

-- The first byte of a URL is neither a role nor a bracket.
IsSchemed-first :
    (url : Text) → IsSchemed url → (first_byte url ≡ some b's') ⊎ (first_byte url ≡ some b'f')
unfolding starts_with
IsSchemed-first [] (inl h) = absurd (cc h)
IsSchemed-first [] (inr h) = absurd (cc h)
IsSchemed-first (c ∷ url) (inl h) = inl (ap some (ground (arith, h)))
IsSchemed-first (c ∷ url) (inr h) = inr (ap some (ground (arith, h)))

candidates_of-plain : (url : Text) → IsSchemed url → candidates_of url ≡ url ∷ []
unfolding candidates_of
candidates_of-plain url h = elim (IsSchemed-first url h) [ inl e ↦ rw e refl | inr e ↦ rw e refl ]

candidates_of-bracketed :
    (inner : Text) → candidates_of (codes "[" ++ (inner ++ codes "]")) ≡ split b',' inner
unfolding candidates_of
candidates_of-bracketed inner = rw (last-append (b'[' ∷ inner) b']', init-append inner b']') refl

map-IsFree :
    (c : ℕ) (urls : List CommandLineUrlAlternative)
    → All (λ alternative. contains c alternative.url ≡ false) urls
    → All (IsFree c) (map (λ alternative. alternative.url) urls)
map-IsFree c [] h = tt
map-IsFree c (url ∷ urls) (h, hs) = (h, map-IsFree c urls hs)

candidates_of-written_urls :
    (urls : List CommandLineUrlAlternative)
    → All IsUrl urls
    → AreSeparable urls
    → candidates_of (written_urls (map (λ alternative. alternative.url) urls))
      ≡ map (λ alternative. alternative.url) urls
unfolding written_urls
candidates_of-written_urls [] h (inl e) = absurd (omega (arith, e))
candidates_of-written_urls [] h (inr (some_url, _)) = absurd (omega (arith, some_url))
candidates_of-written_urls (url ∷ []) ((schemed, _, _), _) separable =
    candidates_of-plain url.url schemed
candidates_of-written_urls (url ∷ next ∷ urls) h (inl e) = absurd (omega (arith, e))
candidates_of-written_urls (url ∷ next ∷ urls) h (inr (some_url, free)) =
    candidates_of-bracketed (join b',' (map (λ alternative. alternative.url) (url ∷ next ∷ urls)))
    ∙ split-join b',' (map (λ alternative. alternative.url) (url ∷ next ∷ urls)) (omega arith)
        (map-IsFree b',' (url ∷ next ∷ urls) free)

-- No role is read off what a peer without one is written as.
role_value-written_urls :
    (urls : List CommandLineUrlAlternative)
    → All IsUrl urls
    → role_value (written_urls (map (λ alternative. alternative.url) urls))
      ≡ (normal_role, written_urls (map (λ alternative. alternative.url) urls))
unfolding written_urls
role_value-written_urls [] h = refl
role_value-written_urls (url ∷ []) ((schemed, _, _), _) = elim (IsSchemed-first url.url schemed) [
  | inl e ↦ rw e refl
  | inr e ↦ rw e refl
]
role_value-written_urls (url ∷ next ∷ urls) h = refl

role_value-peer_argument :
    (peer : CommandLinePeer)
    → IsPeer peer
    → role_value (peer_argument peer) ≡ (parsed_role peer.role, written_urls (urls_of peer))
unfolding peer_argument
role_value-peer_argument peer h = go peer.role
  where
    go :
        (role : CommandLinePeerRole)
        → role_value (role_prefix role ++ written_urls (urls_of peer))
          ≡ (parsed_role role, written_urls (urls_of peer))
    go normal = role_value-written_urls peer.urls h
    go canon = refl
    go subordinate = refl

-- A peer that the command line accepts, written as an argument by the program and read again by the
-- connections, keeps its role and its URLs in their order, whatever its place in the list.
pub parse_peer_argument-peer_argument :
    (arg : Text) (peer : CommandLinePeer) (index : ℕ)
    → parse_peer arg ≡ ok peer
    → parse_peer_argument index (peer_argument peer)
      ≡ record { peer_index = index; role = parsed_role peer.role; candidates = urls_of peer }
unfolding parse_peer_argument
parse_peer_argument-peer_argument arg peer index h =
    let (valid, separable) =
      Returns-ok (λ peer. IsPeer peer × AreSeparable peer.urls) (parse_peer arg) peer
        (parse_peer-IsPeer arg) h in
    rw (role_value-peer_argument peer valid, candidates_of-written_urls peer.urls valid separable)
      refl
