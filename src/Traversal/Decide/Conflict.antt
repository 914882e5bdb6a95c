-- ===== src/Traversal/Decide/Conflict.antt =====
-- What becomes of a name that is a file on one peer and a directory on another.
use kitchensync.Base.{
  ◌≡◌, refl, sym, ◌∙◌, ap, subst, Text, Bool, true, false, Bool-cases, Option, Option-cases, none,
  some, List, [], ◌∷◌, any, inl, inr, filter, filter_map, find, arith,
}
use kitchensync.Format.Types.{FormatRulesTimestamp}
use kitchensync.Format.Time.{Chrono, format_timestamp, max_by_system_time}
use kitchensync.Traversal.Types.{ActivePeer, EntryEvidence, FileVersion, file}
use kitchensync.Traversal.Decide.{
  contributes, has_live_dir, has_live_file, decide_file_outcome, decide_by_votes, decide_outcome,
  file_deletion_vote, choose_sources, live_version, reduce_max, tied_sources, is_canon,
}
use kitchensync.Traversal.Decide.File.{AreSources, decide_file_outcome-AreSources}

module _ {ℓ κ} {A : Type ℓ} {B : Type κ} (g : A → Option B) (p : A → Bool) where
  filter_map-skip : (x : A) (xs : List A) → g x ≡ none → filter_map g (x ∷ xs) ≡ filter_map g xs
  filter_map-skip x xs h = rw (h, filter_map) refl

  filter_map-keep :
      (x : A) (y : B) (xs : List A) → g x ≡ some y → filter_map g (x ∷ xs) ≡ y ∷ filter_map g xs
  filter_map-keep x y xs h = rw (h, filter_map) refl

  filter_map-more :
      (x : A) (xs ys : List A)
      → filter_map g xs ≡ filter_map g ys
      → filter_map g (x ∷ xs) ≡ filter_map g (x ∷ ys)
  filter_map-more x xs ys h = elim (Option-cases (g x)) [
    | inl k ↦ filter_map-skip x xs k ∙ h ∙ sym (filter_map-skip x ys k)
    | inr (y, k) ↦ filter_map-keep x y xs k ∙ ap (λ r. y ∷ r) h ∙ sym (filter_map-keep x y ys k)
  ]

  filter_map-filter :
      (xs : List A)
      → ((x : A) → p x ≡ false → g x ≡ none)
      → filter_map g (filter p xs) ≡ filter_map g xs
  filter_map-filter [] h = refl
  filter_map-filter (x ∷ xs) h = elim (Bool-cases (p x)) [
    | inl e ↦ rw e (filter_map-more x (filter p xs) xs (filter_map-filter xs h))
    | inr e ↦ rw e (filter_map-filter xs h ∙ sym (filter_map-skip x xs (h x e)))
  ]

  filter_map-none :
      (xs : List A) → ((x : A) → p x ≡ true → g x ≡ none) → filter_map g (filter p xs) ≡ []
  filter_map-none [] h = refl
  filter_map-none (x ∷ xs) h = elim (Bool-cases (p x)) [
    | inl e ↦ rw e (filter_map-skip x (filter p xs) (h x e) ∙ filter_map-none xs h)
    | inr e ↦ rw e (filter_map-none xs h)
  ]

  filter_map-some :
      (xs : List A)
      → ((x : A) → p x ≡ true → (y : B) × (g x ≡ some y))
      → any p xs ≡ true
      → (y : B) × (ys : List B) × (filter_map g xs ≡ y ∷ ys)
  filter_map-some [] h e = absurd (cc e)
  filter_map-some (x ∷ xs) h e = elim (Option-cases (g x)) [
    | inr (y, k) ↦ (y, filter_map g xs, filter_map-keep x y xs k)
    | inl k ↦ elim (Bool-cases (p x)) [
      | inl here ↦ let (y, found) = h x here in absurd (cc (k, found))
      | inr not_here ↦
          let (y, ys, found) = filter_map-some xs h (ground (arith, not_here, e)) in
          (y, ys, filter_map-skip x xs k ∙ found)
    ]
  ]

module _ (chrono : Chrono) where
  live_version-none :
      (item : EntryEvidence) → has_live_file item ≡ false → live_version chrono item ≡ none
  unfolding live_version
  live_version-none item h = ground (arith, h)

  live_version-some :
      (item : EntryEvidence)
      → has_live_file item ≡ true
      → (v : FileVersion) × (live_version chrono item ≡ some v)
  unfolding live_version
  live_version-some item h = elim (Option-cases item.live) [
    | inl e ↦ absurd (ground (arith, h, e))
    | inr (entry, e) ↦ (
      record {
        peer = item.peer;
        entry = entry;
        mod_timestamp = format_timestamp chrono entry.mod_time;
      },
      ground (arith, h, e),
    )
  ]

  file_deletion_vote-none :
      (max : FormatRulesTimestamp) (item : EntryEvidence)
      → has_live_file item ≡ true
      → file_deletion_vote chrono max item ≡ none
  unfolding file_deletion_vote
  file_deletion_vote-none max item h = rw h refl

  -- Items with a live file only have a file for their outcome.
  filter-has_live_file :
      (items : List EntryEvidence)
      → any has_live_file items ≡ true
      → (sources : List FileVersion) × (decide_file_outcome chrono (filter has_live_file items)
          ≡ file sources)
  unfolding decide_file_outcome max_by_system_time
  filter-has_live_file items h =
      let (v, vs, found) =
        filter_map-some (live_version chrono) has_live_file items live_version-some h in
      (
        tied_sources chrono (reduce_max chrono v.mod_timestamp vs) (v ∷ vs),
        rw (filter_map-filter (live_version chrono) has_live_file items live_version-none)
            (rw found (chosen (reduce_max chrono v.mod_timestamp vs) (v ∷ vs))),
      )
    where
      chosen :
          (max : FormatRulesTimestamp) (vs : List FileVersion)
          → choose_sources chrono max (filter has_live_file items) vs
            ≡ file (tied_sources chrono max vs)
      chosen max vs =
          rw
            (filter_map-none (file_deletion_vote chrono max) has_live_file items
              (file_deletion_vote-none max))
            refl

  -- A file on one contributing peer and a directory on another, without a canon peer: the outcome is
  -- a file, whatever the rows of deleted entries say, and the peers are not walked to decide it. Its
  -- sources are the sources among all the live files of the contributing peers.
  pub decide_outcome_conflict :
      {S : Type 0}
      (collect : Text → List ActivePeer → S → Option (Option (List FormatRulesTimestamp) × S))
      (path : Text) (evidence : List EntryEvidence) (s : S)
      → find (λ item. is_canon item.peer.peer) evidence ≡ none
      → any has_live_file (filter contributes evidence) ≡ true
      → any has_live_dir (filter contributes evidence) ≡ true
      → (sources : List FileVersion) × (max : FormatRulesTimestamp) × (decide_outcome chrono collect
            path evidence s
          ≡ some (file sources, s))
        × AreSources chrono max
            (filter_map (live_version chrono) (filter contributes evidence))
            sources
  unfolding decide_outcome decide_by_votes
  decide_outcome_conflict collect path evidence s no_canon has_file has_dir =
      let contributing = filter contributes evidence in
      let (sources, decided) = filter-has_live_file contributing has_file in
      let (max, chosen) =
        decide_file_outcome-AreSources chrono (filter has_live_file contributing) sources decided in
      (
        sources,
        max,
        rw (no_canon, has_file, has_dir) (ap (λ o. some (o, s)) decided),
        subst (λ vs. AreSources chrono max vs sources)
            (filter_map-filter (live_version chrono) has_live_file contributing live_version-none)
            chosen,
      )
