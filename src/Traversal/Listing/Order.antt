-- ===== src/Traversal/Listing/Order.antt =====
-- The order in which the names of a level are processed.
use kitchensync.Base.{
  ◌∙◌, both_false, and_false, ◌≡◌, ◌⊎◌, ◌↔◌, inl, inr, refl, sym, ap, ap₂, Text, text_eq_iff, true,
  false, List, [], ◌∷◌, Member, Bool-cases, arith,
}
use kitchensync.Transport.Types.{PeerDirectoryEntry}
use kitchensync.Snapshot.Rows.{text_lt}
use kitchensync.Traversal.Types.{ListedDirectory}
use kitchensync.Traversal.Services.{Services}
use kitchensync.Traversal.Listing.{name_lt, insert_name, names_onto, names_from, names_of}

-- Each name comes before the next one.
abbrev pub IsBefore : Text × Text → List (Text × Text) → Type 0
IsBefore key [] = Unit
IsBefore key (first ∷ names) = name_lt key first ≡ true

abbrev pub AreOrdered : List (Text × Text) → Type 0
AreOrdered [] = Unit
AreOrdered (first ∷ names) = IsBefore first names × AreOrdered names

insert_name-IsBefore :
    (key first : Text × Text) (names : List (Text × Text))
    → name_lt first key ≡ true
    → IsBefore first names
    → IsBefore first (insert_name key names)
insert_name-IsBefore key first [] e h = e
insert_name-IsBefore key first (second ∷ names) e h = elim (Bool-cases (name_lt key second)) [
  | inl f ↦ rw f e
  | inr f ↦ elim (Bool-cases (name_lt second key)) [ inl g ↦ rw (f, g) h | inr g ↦ rw (f, g) h ]
]

insert_name-AreOrdered :
    (key : Text × Text) (names : List (Text × Text))
    → AreOrdered names
    → AreOrdered (insert_name key names)
insert_name-AreOrdered key [] h = (tt, tt)
insert_name-AreOrdered key (first ∷ names) (before, h) = elim (Bool-cases (name_lt key first)) [
  | inl e ↦ rw e (e, (before, h))
  | inr e ↦ elim (Bool-cases (name_lt first key)) [
    | inl f ↦
        rw (e, f)
          (insert_name-IsBefore key first names f before, insert_name-AreOrdered key names h)
    | inr f ↦ rw (e, f) (before, h)
  ]
]

text_lt-trichotomy : (s t : Text) → text_lt s t ≡ false → text_lt t s ≡ false → s ≡ t
unfolding text_lt
text_lt-trichotomy [] [] h k = refl
text_lt-trichotomy [] (b ∷ t) h k = absurd (cc h)
text_lt-trichotomy (a ∷ s) [] h k = absurd (cc k)
text_lt-trichotomy (a ∷ s) (b ∷ t) h k =
    let e : a ≡ b = ground (arith, h, k) in
    let f : text_lt s t ≡ false = ground (arith, h, k, e) in
    let g : text_lt t s ≡ false = ground (arith, h, k, e) in
    ap₂ (λ c u. c ∷ u) e (text_lt-trichotomy s t f g)

name_lt-trichotomy :
    (key first : Text × Text) → name_lt key first ≡ false → name_lt first key ≡ false → key ≡ first
unfolding name_lt
name_lt-trichotomy (lower, name) (lower', name') h k =
    let (less, later) = both_false (text_lt lower lower') _ h in
    let (more, earlier) = both_false (text_lt lower' lower) _ k in
    let same = text_lt-trichotomy lower lower' less more in
    ap₂ (λ a b. (a, b)) same
      (text_lt-trichotomy name name' (and_false _ _ ((text_eq_iff lower lower').1 same) later)
        (and_false _ _ ((text_eq_iff lower' lower).1 (sym same)) earlier))

insert_name-Member :
    (key x : Text × Text) (names : List (Text × Text))
    → Member x (insert_name key names) ↔ ((x ≡ key) ⊎ Member x names)
insert_name-Member key x [] = (λ m. m, λ m. m)
insert_name-Member key x (first ∷ names) = elim (Bool-cases (name_lt key first)) [
  | inl e ↦ rw e (λ m. m, λ m. m)
  | inr e ↦ elim (Bool-cases (name_lt first key)) [
    | inl f ↦ rw (e, f) (swapped (insert_name-Member key x names))
    | inr f ↦ rw (e, f) (same (name_lt-trichotomy key first e f))
  ]
]
  where
    swapped :
        Member x (insert_name key names) ↔ ((x ≡ key) ⊎ Member x names)
        → ((x ≡ first) ⊎ Member x (insert_name key names))
          ↔ ((x ≡ key) ⊎ ((x ≡ first) ⊎ Member x names))
    swapped (there, back) = (
      λ m. elim m [
        | inl e ↦ inr (inl e)
        | inr m ↦ elim (there m) [ inl e ↦ inl e | inr m ↦ inr (inr m) ]
      ],
      λ m. elim m [
        | inl e ↦ inr (back (inl e))
        | inr m ↦ elim m [ inl e ↦ inl e | inr m ↦ inr (back (inr m)) ]
      ],
    )

    same :
        key ≡ first → ((x ≡ first) ⊎ Member x names) ↔ ((x ≡ key) ⊎ ((x ≡ first) ⊎ Member x names))
    same e = (λ m. inr m, λ m. elim m [ inl f ↦ inl (f ∙ e) | inr m ↦ m ])

abbrev pub HasName : Text → List (Text × PeerDirectoryEntry) → Type 0
HasName name [] = ⊥
HasName name ((key, entry) ∷ entries) = (name ≡ key) ⊎ HasName name entries

-- The name stands in a listing.
abbrev pub IsListed : Text → List ListedDirectory → Type 0
IsListed name [] = ⊥
IsListed name (listing ∷ listings) = HasName name listing.entries ⊎ IsListed name listings

module _ (X : Services) where
  -- A name as it stands in the set
  abbrev pub key_of : Text → Text × Text
  key_of name = (X.to_lowercase name, name)

  names_onto-AreOrdered :
      (entries : List (Text × PeerDirectoryEntry)) (names : List (Text × Text))
      → AreOrdered names
      → AreOrdered (names_onto X entries names)
  names_onto-AreOrdered [] names h = h
  names_onto-AreOrdered ((name, entry) ∷ entries) names h =
      names_onto-AreOrdered entries _ (insert_name-AreOrdered (key_of name) names h)

  names_from-AreOrdered :
      (listings : List ListedDirectory) (names : List (Text × Text))
      → AreOrdered names
      → AreOrdered (names_from X listings names)
  names_from-AreOrdered [] names h = h
  names_from-AreOrdered (listing ∷ listings) names h =
      names_from-AreOrdered listings _ (names_onto-AreOrdered listing.entries names h)

  names_onto-Member :
      (name : Text) (entries : List (Text × PeerDirectoryEntry)) (names : List (Text × Text))
      → Member (key_of name) (names_onto X entries names)
        ↔ (HasName name entries ⊎ Member (key_of name) names)
  names_onto-Member name [] names = (λ m. inr m, λ m. elim m [ inl e ↦ absurd e | inr m ↦ m ])
  names_onto-Member name ((key, entry) ∷ entries) names =
      let (there, back) = names_onto-Member name entries (insert_name (key_of key) names) in
      let (into, out) = insert_name-Member (key_of key) (key_of name) names in
      (
        λ m. elim (there m) [
          | inl e ↦ inl (inr e)
          | inr m ↦ elim (into m) [ inl e ↦ inl (inl (ap (λ (a, b). b) e)) | inr m ↦ inr m ]
        ],
        λ m. elim m [
          | inl found ↦ elim found [
            | inl e ↦ back (inr (out (inl (ap key_of e))))
            | inr e ↦ back (inl e)
          ]
          | inr m ↦ back (inr (out (inr m)))
        ],
      )

  names_from-Member :
      (name : Text) (listings : List ListedDirectory) (names : List (Text × Text))
      → Member (key_of name) (names_from X listings names)
        ↔ (IsListed name listings ⊎ Member (key_of name) names)
  names_from-Member name [] names = (λ m. inr m, λ m. elim m [ inl e ↦ absurd e | inr m ↦ m ])
  names_from-Member name (listing ∷ listings) names =
      let (there, back) = names_from-Member name listings (names_onto X listing.entries names) in
      let (into, out) = names_onto-Member name listing.entries names in
      (
        λ m. elim (there m) [
          | inl e ↦ inl (inr e)
          | inr m ↦ elim (into m) [ inl e ↦ inl (inl e) | inr m ↦ inr m ]
        ],
        λ m. elim m [
          | inl found ↦ elim found [ inl e ↦ back (inr (out (inl e))) | inr e ↦ back (inl e) ]
          | inr m ↦ back (inr (out (inr m)))
        ],
      )

  -- The names of a level are those that some peer lists, each of them once, in the order of their
  -- small letters and then of the names themselves.
  pub names_of-AreOrdered :
      (listings : List ListedDirectory)
      → AreOrdered (names_of X listings)
        × ((name : Text) → Member (key_of name) (names_of X listings) ↔ IsListed name listings)
  unfolding names_of
  names_of-AreOrdered listings = (
    names_from-AreOrdered listings [] tt,
    λ name.
        let (there, back) = names_from-Member name listings [] in
        (λ m. elim (there m) [ inl e ↦ e | inr m ↦ absurd m ], λ m. back (inl m)),
  )
