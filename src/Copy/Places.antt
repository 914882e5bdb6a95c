-- ===== src/Copy/Places.antt =====
-- How the places of a staged copy lie to each other: the destination, the new and the old file in
-- SWAP, and the BAK directory next to it.
pub mod Disjoint
use kitchensync.Base.{
  ℕ, ◌≡◌, ◌≢◌, ◌⊎◌, refl, sym, ap, ◌∙◌, codes, Text, text_eq, text_eq_iff, starts_with, contains,
  Bool, true, false, Bool-cases, inl, inr, ◌&&◌, ◌||◌, not, Option, none, some, List, [], ◌∷◌, ◌++◌,
  append_assoc, append-nil, Result, ok, err, arith, if◌then◌else◌, ◌==◌,
}
use kitchensync.Format.Types.{
  FormatRulesTimestamp, FormatRulesUserSwapPaths, FormatRulesValidationError, validation_error,
}
use kitchensync.Format.Paths.{
  user_swap_paths, bak_directory_path, metadata_parent_prefix, encode_swap_basename, encode_bytes,
  is_refused, validate_relative_path_text, is_bad_segment,
}
use kitchensync.Transport.Surface.{apart, within}
use kitchensync.Copy.Paths.{join_parent_basename, split_parent_basename}

pub starts_with-common : (p x y : Text) → starts_with (p ++ x) (p ++ y) ≡ starts_with x y
unfolding starts_with
starts_with-common [] x y = refl
starts_with-common (c ∷ p) x y = ground (arith, starts_with-common p x y)

pub text_eq-common : (p x y : Text) → text_eq (p ++ x) (p ++ y) ≡ text_eq x y
unfolding text_eq
text_eq-common [] x y = refl
text_eq-common (c ∷ p) x y = ground (arith, text_eq-common p x y)

within-common : (p x y : Text) → within (p ++ x) (p ++ y) ≡ within x y
within-common p x y =
    rw (text_eq-common p x y, append_assoc, starts_with-common p (x ++ codes "/") y) refl

pub apart-common : (p x y : Text) → apart (p ++ x) (p ++ y) ≡ apart x y
unfolding apart
apart-common p x y = rw (within-common p x y, within-common p y x) refl

pub slash_not_name :
    (n k r : Text)
    → contains b'/' n ≡ false
    → (text_eq n (k ++ (b'/' ∷ r)) ≡ false) × (text_eq (k ++ (b'/' ∷ r)) n ≡ false)
unfolding text_eq
slash_not_name [] [] r h = ground (arith, h)
slash_not_name [] (c ∷ k) r h = ground (arith, h)
slash_not_name (a ∷ n) [] r h = ground (arith, h)
slash_not_name (a ∷ n) (c ∷ k) r h = ground (arith, h, slash_not_name n k r)

not_below_name :
    (n k r : Text)
    → contains b'/' n ≡ false
    → starts_with ((k ++ (b'/' ∷ r)) ++ codes "/") n ≡ false
unfolding starts_with
not_below_name [] [] r h = ground (arith, h)
not_below_name [] (c ∷ k) r h = ground (arith, h)
not_below_name (a ∷ n) [] r h = ground (arith, h)
not_below_name (a ∷ n) (c ∷ k) r h = ground (arith, h, not_below_name n k r)

below_name :
    (n k r : Text)
    → contains b'/' n ≡ false
    → contains b'/' k ≡ false
    → starts_with (n ++ codes "/") (k ++ (b'/' ∷ r)) ≡ text_eq n k
unfolding starts_with text_eq
below_name [] [] r h g = ground (arith, h, g)
below_name [] (c ∷ k) r h g = ground (arith, h, g)
below_name (a ∷ n) [] r h g = ground (arith, h, g)
below_name (a ∷ n) (c ∷ k) r h g = ground (arith, h, g, below_name n k r)

-- A name is apart from what lies below another name.
pub apart_name :
    (n k r : Text)
    → contains b'/' n ≡ false
    → contains b'/' k ≡ false
    → text_eq n k ≡ false
    → apart n (k ++ (b'/' ∷ r)) ≡ true
unfolding apart
apart_name n k r h g d =
    rw
      (
        (slash_not_name n k r h).0,
        (slash_not_name n k r h).1,
        below_name n k r h g,
        d,
        not_below_name n k r h,
      )
      refl

pub apart_sym : (p q : Text) → apart p q ≡ true → apart q p ≡ true
unfolding apart
apart_sym p q h = ground (arith, h)

-- What stands before the names in a directory.
abbrev pub prefix : Option Text → Text
prefix none = []
prefix (some parent) = parent ++ codes "/"

pub join_parent_basename-prefix :
    (parent : Option Text) (basename : Text)
    → join_parent_basename parent basename ≡ prefix parent ++ basename
join_parent_basename-prefix none basename = refl
join_parent_basename-prefix (some parent) basename = rw append_assoc refl

metadata_parent_prefix_lem :
    (parent : Option Text)
    → (metadata_parent_prefix parent ≡ ok (prefix parent))
      ⊎ ((e : FormatRulesValidationError) × (metadata_parent_prefix parent ≡ err e))
unfolding metadata_parent_prefix
metadata_parent_prefix_lem none = inl refl
metadata_parent_prefix_lem (some parent) = go (validate_relative_path_text parent) refl
  where
    go :
        (r : Result (Unit {0}) FormatRulesValidationError)
        → validate_relative_path_text parent ≡ r
        → (metadata_parent_prefix (some parent) ≡ ok (prefix (some parent)))
          ⊎ ((e : FormatRulesValidationError) × (metadata_parent_prefix (some parent) ≡ err e))
    go (ok _) h = inl (rw h refl)
    go (err e) h = inr (e, rw h refl)

abbrev pub metadata : Text
metadata = codes ".kitchensync"

abbrev pub swap_directory : Text → Text
swap_directory encoded = metadata ++ codes "/SWAP/" ++ encoded

bak_shape :
    (p t : Text)
    → p ++ codes ".kitchensync/BAK/" ++ t ++ codes "/"
      ≡ p ++ (metadata ++ codes "/BAK/" ++ t ++ codes "/")
bak_shape p t = simp append_assoc

swap_shape :
    (p e t : Text) → p ++ codes ".kitchensync/SWAP/" ++ e ++ t ≡ p ++ (swap_directory e ++ t)
swap_shape p e t = simp append_assoc

swap_directory_shape : (p e : Text) → p ++ codes ".kitchensync/SWAP/" ++ e ≡ p ++ swap_directory e
swap_directory_shape p e = simp append_assoc

text_or : Text → Result Text FormatRulesValidationError → Text
text_or t (ok r) = r
text_or t (err e) = t

pub bak_directory_path-prefix :
    (parent : Option Text) (now : FormatRulesTimestamp) (dir : Text)
    → bak_directory_path parent now ≡ ok dir
    → dir ≡ prefix parent ++ (metadata ++ codes "/BAK/" ++ now.text ++ codes "/")
unfolding bak_directory_path text_or
bak_directory_path-prefix parent now dir h = elim (metadata_parent_prefix_lem parent) [
  | inl e ↦ ap (text_or dir) (sym (rw e at h)) ∙ bak_shape (prefix parent) now.text
  | inr (x, e) ↦ absurd (cc (rw e at h))
]

paths_or :
    FormatRulesUserSwapPaths
    → Result FormatRulesUserSwapPaths FormatRulesValidationError
    → FormatRulesUserSwapPaths
paths_or swap (ok r) = r
paths_or swap (err e) = swap

-- What `user_swap_paths` answers, by the prefix.
pub record AreSwapPaths (parent : Option Text) (basename : Text) (swap : FormatRulesUserSwapPaths)
    : Type 0 where
  pub accepted : is_refused basename ≡ false
  pub new :
      swap.new_path ≡ prefix parent ++ (swap_directory (encode_bytes basename) ++ codes "/new")
  pub old :
      swap.old_path ≡ prefix parent ++ (swap_directory (encode_bytes basename) ++ codes "/old")
  pub directory : swap.directory_path ≡ prefix parent ++ swap_directory (encode_bytes basename)

pub user_swap_paths-AreSwapPaths :
    (parent : Option Text) (basename : Text) (swap : FormatRulesUserSwapPaths)
    → user_swap_paths parent basename ≡ ok swap
    → AreSwapPaths parent basename swap
unfolding user_swap_paths encode_swap_basename paths_or
user_swap_paths-AreSwapPaths parent basename swap h = elim (Bool-cases (is_refused basename)) [
  | inl e ↦ absurd (cc (rw e at h))
  | inr e ↦ elim (metadata_parent_prefix_lem parent) [
    | inl f ↦
        let g = sym (rw (e, f) at h) in
        let name = encode_bytes basename in
        record {
          accepted = e;
          new =
              ap (λ r. (paths_or swap r).new_path) g
              ∙ swap_shape (prefix parent) name (codes "/new");
          old =
              ap (λ r. (paths_or swap r).old_path) g
              ∙ swap_shape (prefix parent) name (codes "/old");
          directory =
              ap (λ r. (paths_or swap r).directory_path) g
              ∙ swap_directory_shape (prefix parent) name;
        }
    | inr (x, f) ↦ absurd (cc (rw (e, f) at h))
  ]
]
