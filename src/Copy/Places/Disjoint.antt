-- ===== src/Copy/Places/Disjoint.antt =====
-- No two of the places of a staged copy overlap.
use kitchensync.Base.{
  if◌then◌else◌, ◌==◌, arith, none, some, rsplit_once, ℕ, ◌≡◌, refl, ap, ◌∙◌, codes, Text, text_eq,
  starts_with, contains, true, false, Option, [], ◌∷◌, ◌++◌, append_assoc, ok, arith,
}
use kitchensync.Format.Types.{FormatRulesTimestamp, FormatRulesUserSwapPaths}
use kitchensync.Format.Paths.{user_swap_paths, bak_directory_path, encode_bytes, is_refused}
use kitchensync.Transport.Surface.{apart}
use kitchensync.Copy.Paths.{join_parent_basename, split_parent_basename, split_path}
use kitchensync.Copy.Places.{
  prefix, metadata, swap_directory, user_swap_paths-AreSwapPaths, bak_directory_path-prefix,
  join_parent_basename-prefix, apart-common, apart_name, apart_sym, text_eq-common, slash_not_name,
}

-- The places of a copy to `basename` in the directory `parent`.
pub record ArePlaces (parent : Option Text) (basename : Text) (swap : FormatRulesUserSwapPaths)
    : Type 0 where
  pub new-live : apart swap.new_path (join_parent_basename parent basename) ≡ true
  pub old-live : apart swap.old_path (join_parent_basename parent basename) ≡ true
  pub new-old : apart swap.new_path swap.old_path ≡ true
  pub directory-live : text_eq swap.directory_path (join_parent_basename parent basename) ≡ false
  pub directory-old : text_eq swap.directory_path swap.old_path ≡ false
  pub directory-new : text_eq swap.directory_path swap.new_path ≡ false
  pub bak :
      (now : FormatRulesTimestamp) (dir : Text)
      → bak_directory_path parent now ≡ ok dir
      → (apart dir (join_parent_basename parent basename) ≡ true)
        × (apart dir swap.new_path ≡ true)
        × (apart dir swap.old_path ≡ true)
        × (apart (dir ++ basename) (join_parent_basename parent basename) ≡ true)
        × (apart (dir ++ basename) swap.new_path ≡ true)
        × (apart (dir ++ basename) swap.old_path ≡ true)
        × (text_eq swap.directory_path (dir ++ basename) ≡ false)

text_eq-longer : (s : Text) (c : ℕ) (t : Text) → text_eq s (s ++ (c ∷ t)) ≡ false
unfolding text_eq
text_eq-longer [] c t = refl
text_eq-longer (a ∷ s) c t = ground (arith, text_eq-longer s c t)

is_refused-slash : (n : Text) → is_refused n ≡ false → contains b'/' n ≡ false
unfolding is_refused
is_refused-slash n h = ground (arith, h)

module _ (parent : Option Text) (basename : Text) (named : contains b'/' basename ≡ false)
    (user : text_eq basename metadata ≡ false) where
  -- The destination is apart from the metadata beside it.
  live_apart :
      (rest place : Text)
      → place ≡ prefix parent ++ (metadata ++ (b'/' ∷ rest))
      → apart place (join_parent_basename parent basename) ≡ true
  live_apart rest place e =
      rw
        (
          e,
          join_parent_basename-prefix parent basename,
          apart-common (prefix parent) (metadata ++ (b'/' ∷ rest)) basename,
        )
        (apart_sym basename (metadata ++ (b'/' ∷ rest))
          (apart_name basename metadata rest named refl user))

  live_other :
      (rest place : Text)
      → place ≡ prefix parent ++ (metadata ++ (b'/' ∷ rest))
      → text_eq place (join_parent_basename parent basename) ≡ false
  live_other rest place e =
      rw
        (
          e,
          join_parent_basename-prefix parent basename,
          text_eq-common (prefix parent) (metadata ++ (b'/' ∷ rest)) basename,
        )
        (slash_not_name basename metadata rest named).1

bak_swap :
    (p x y b w : Text)
    → b ≡ p ++ (metadata ++ (codes "/BAK/" ++ x))
    → w ≡ p ++ (metadata ++ (codes "/SWAP/" ++ y))
    → (apart b w ≡ true) × (text_eq w b ≡ false)
unfolding apart text_eq starts_with
bak_swap p x y b w e f = (
  rw (e, f, apart-common p (metadata ++ (codes "/BAK/" ++ x)) (metadata ++ (codes "/SWAP/" ++ y)))
      refl,
  rw (e, f, text_eq-common p (metadata ++ (codes "/SWAP/" ++ y)) (metadata ++ (codes "/BAK/" ++ x)))
      refl,
)

new_old :
    (p x n o : Text)
    → n ≡ p ++ (x ++ codes "/new")
    → o ≡ p ++ (x ++ codes "/old")
    → apart n o ≡ true
unfolding apart text_eq starts_with
new_old p x n o e f =
    rw
      (
        e,
        f,
        apart-common p (x ++ codes "/new") (x ++ codes "/old"),
        apart-common x (codes "/new") (codes "/old"),
      )
      refl

directory_other :
    (p x d w t : Text) (c : ℕ) → d ≡ p ++ x → w ≡ p ++ (x ++ (c ∷ t)) → text_eq d w ≡ false
directory_other p x d w t c e f =
    rw (e, f, text_eq-common p x (x ++ (c ∷ t)), text_eq-longer x c t) refl

pub user_swap_paths-ArePlaces :
    (parent : Option Text) (basename : Text) (swap : FormatRulesUserSwapPaths)
    → user_swap_paths parent basename ≡ ok swap
    → text_eq basename metadata ≡ false
    → ArePlaces parent basename swap
user_swap_paths-ArePlaces parent basename swap h user =
    let shape = user_swap_paths-AreSwapPaths parent basename swap h in
    let named = is_refused-slash basename shape.accepted in
    let name = encode_bytes basename in
    let p = prefix parent in
    record {
      new-live =
          live_apart parent basename named user (codes "SWAP/" ++ (name ++ codes "/new"))
            swap.new_path shape.new;
      old-live =
          live_apart parent basename named user (codes "SWAP/" ++ (name ++ codes "/old"))
            swap.old_path shape.old;
      new-old = new_old p (swap_directory name) swap.new_path swap.old_path shape.new shape.old;
      directory-live =
          live_other parent basename named user (codes "SWAP/" ++ name) swap.directory_path
            shape.directory;
      directory-old =
          directory_other p (swap_directory name) swap.directory_path swap.old_path (codes "old")
            b'/' shape.directory shape.old;
      directory-new =
          directory_other p (swap_directory name) swap.directory_path swap.new_path (codes "new")
            b'/' shape.directory shape.new;
      bak = λ now dir e.
          let below = bak_directory_path-prefix parent now dir e in
          let inside : dir ++ basename
              ≡ p ++ (metadata ++ (codes "/BAK/" ++ (now.text ++ codes "/" ++ basename))) =
            ap (λ d. d ++ basename) below
            ∙ append_assoc p (metadata ++ codes "/BAK/" ++ now.text ++ codes "/") basename in
          (
            live_apart parent basename named user (codes "BAK/" ++ (now.text ++ codes "/")) dir
                below,
            (bak_swap p (now.text ++ codes "/") (name ++ codes "/new") dir swap.new_path below
                shape.new).0,
            (bak_swap p (now.text ++ codes "/") (name ++ codes "/old") dir swap.old_path below
                shape.old).0,
            live_apart parent basename named user
                (codes "BAK/" ++ (now.text ++ codes "/" ++ basename)) (dir ++ basename) inside,
            (bak_swap p (now.text ++ codes "/" ++ basename) (name ++ codes "/new") (dir ++ basename)
                swap.new_path inside shape.new).0,
            (bak_swap p (now.text ++ codes "/" ++ basename) (name ++ codes "/old") (dir ++ basename)
                swap.old_path inside shape.old).0,
            (bak_swap p (now.text ++ codes "/" ++ basename) name (dir ++ basename)
                swap.directory_path inside shape.directory).1,
          );
    }

rsplit_once-plain :
    (c : ℕ) (s : Text)
    → (rsplit_once c s ≡ none → contains c s ≡ false)
      × ((a b : Text) → rsplit_once c s ≡ some (a, b) → contains c b ≡ false)
unfolding rsplit_once
rsplit_once-plain c [] = (λ h. refl, λ a b h. absurd (cc h))
rsplit_once-plain c (x ∷ s) = go (rsplit_once-plain c s) (rsplit_once c s) refl
  where
    next : Option (Text × Text) → Option (Text × Text)
    next r = elim r [ some (u, v) ↦ some (x ∷ u, v) | none ↦ if x == c then some ([], s) else none ]

    go :
        ((rsplit_once c s ≡ none → contains c s ≡ false)
          × ((a b : Text) → rsplit_once c s ≡ some (a, b) → contains c b ≡ false))
        → (r : Option (Text × Text)) → rsplit_once c s ≡ r
        → (next r ≡ none → contains c (x ∷ s) ≡ false)
          × ((a b : Text) → next r ≡ some (a, b) → contains c b ≡ false)
    go ih none e = (λ h. ground (arith, h, ih.0 e), λ a b h. ground (arith, h, ih.0 e))
    go ih (some (u, v)) e = (λ h. absurd (cc h), λ a b h. ground (arith, h, ih.1 u v e))

-- The last name of a path has no slash.
split_parent_basename-plain : (path : Text) → contains b'/' (split_parent_basename path).1 ≡ false
unfolding split_parent_basename
split_parent_basename-plain path = go (rsplit_once b'/' path) refl
  where
    go :
        (r : Option (Text × Text))
        → rsplit_once b'/' path ≡ r
        → contains b'/' (split_path path r).1 ≡ false
    go none h = (rsplit_once-plain b'/' path).0 h
    go (some (a, b)) h = (rsplit_once-plain b'/' path).1 a b h

-- The BAK directories beside a path are apart from it, unless it is the metadata directory.
pub bak_directory_path-apart :
    (path : Text) (now : FormatRulesTimestamp) (dir : Text)
    → text_eq (split_parent_basename path).1 metadata ≡ false
    → bak_directory_path (split_parent_basename path).0 now ≡ ok dir
    → apart dir (join_parent_basename (split_parent_basename path).0 (split_parent_basename path).1)
      ≡ true
bak_directory_path-apart path now dir user h =
    live_apart (split_parent_basename path).0 (split_parent_basename path).1
      (split_parent_basename-plain path) user (codes "BAK/" ++ (now.text ++ codes "/")) dir
      (bak_directory_path-prefix (split_parent_basename path).0 now dir h)
