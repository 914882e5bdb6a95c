-- ===== src/Traversal/Decide/Deletion.antt =====
-- When a deletion wins over the live files, and over the files of a live directory.
use kitchensync.Base.{
  ◌+◌, ◌≤◌, ◌≡◌, refl, inl, inr, ◌↔◌, true, Bool-cases, List, [], ◌∷◌, all, filter_map, Member, All,
  All-Member, arith,
}
use kitchensync.Format.Types.{FormatRulesTimestamp}
use kitchensync.Format.Time.{
  Chrono, max_by_time, max_by_system_time, deletion_estimate_wins_over_file_mod_time,
}
use kitchensync.Format.Time.Tolerance.{
  margin, deletion_wins_lem, max_by_time-le, max_by_time-Member,
}
use kitchensync.Traversal.Types.{EntryEvidence, FileVersion, absence}
use kitchensync.Traversal.Decide.{
  reduce_max, deletion_wins, file_deletion_vote, choose_sources, decide_versions,
  decide_file_outcome, live_version,
}
use kitchensync.Traversal.Decide.File.{instant}

module _ (chrono : Chrono) where
  -- Later than each of the versions by more than five seconds.
  abbrev pub Beats : FormatRulesTimestamp → List FileVersion → Type 0
  Beats estimate vs =
      All (λ v. instant chrono v.mod_timestamp + margin ≤ instant chrono estimate) vs

  all-Beats :
      (t : FormatRulesTimestamp) (vs : List FileVersion)
      → (all (λ v. deletion_estimate_wins_over_file_mod_time chrono t v.mod_timestamp) vs ≡ true)
        ↔ Beats t vs
  all-Beats t [] = (λ h. tt, λ h. refl)
  all-Beats t (v ∷ vs) = ground (arith, deletion_wins_lem chrono t v.mod_timestamp, all-Beats t vs)

  Beats-later :
      (t u : FormatRulesTimestamp) (vs : List FileVersion)
      → instant chrono t ≤ instant chrono u
      → Beats t vs
      → Beats u vs
  Beats-later t u [] h b = tt
  Beats-later t u (v ∷ vs) h b = (omega (arith, b.0), Beats-later t u vs h b.1)

  deletion_wins_iff :
      (votes : List FormatRulesTimestamp) (vs : List FileVersion)
      → (deletion_wins chrono (max_by_system_time chrono votes) vs ≡ true)
        ↔ ((vote : FormatRulesTimestamp) × Member vote votes × Beats vote vs)
  unfolding deletion_wins max_by_system_time
  deletion_wins_iff [] vs = (λ h. absurd (cc h), λ h. elim h.1 [ ])
  deletion_wins_iff (t ∷ ts) vs =
      let newest = max_by_time chrono t ts in
      (
        λ h. (newest, max_by_time-Member chrono t ts, (all-Beats newest vs).0 h),
        λ h.
            let (vote, m, b) = h in
            let above = max_by_time-le chrono (instant chrono newest) t ts (omega arith) in
            (all-Beats newest vs).1 (
              Beats-later vote newest vs
                (All-Member (λ u. instant chrono u ≤ instant chrono newest) vote (t ∷ ts) above m)
                b),
      )

  -- With live versions, the file is deleted exactly when some peer's vote for the deletion is later
  -- than every live version by more than the tolerance.
  choose_sources-absence :
      (max : FormatRulesTimestamp) (evidence : List EntryEvidence) (vs : List FileVersion)
      → (choose_sources chrono max evidence vs ≡ absence) ↔ (
          (vote : FormatRulesTimestamp) × Member vote
            (filter_map (file_deletion_vote chrono max) evidence)
          × Beats vote vs)
  unfolding choose_sources
  choose_sources-absence max evidence vs =
      let votes = filter_map (file_deletion_vote chrono max) evidence in
      let wins = deletion_wins chrono (max_by_system_time chrono votes) vs in
      (
        λ h.
            (deletion_wins_iff votes vs).0
              (elim (Bool-cases wins) [ inl e ↦ e | inr e ↦ absurd (cc (h, e)) ]),
        λ h. rw ((deletion_wins_iff votes vs).1 h),
      )

  -- No version is live, or some peer's vote for the deletion beats all that are.
  abbrev pub IsDeleted : List EntryEvidence → List FileVersion → Type 0
  IsDeleted evidence [] = Unit
  IsDeleted evidence (v ∷ vs) =
      (vote : FormatRulesTimestamp) × Member vote
        (filter_map (file_deletion_vote chrono (reduce_max chrono v.mod_timestamp vs)) evidence)
      × Beats vote (v ∷ vs)

  decide_versions-absence :
      (evidence : List EntryEvidence) (vs : List FileVersion)
      → (decide_versions chrono evidence vs ≡ absence) ↔ IsDeleted evidence vs
  unfolding decide_versions
  decide_versions-absence evidence [] = (λ h. tt, λ h. refl)
  decide_versions-absence evidence (v ∷ vs) =
      choose_sources-absence (reduce_max chrono v.mod_timestamp vs) evidence (v ∷ vs)

  -- A file is decided absent exactly when no peer has it live, or when some peer's vote for its
  -- deletion is later than every live version by more than the tolerance.
  pub decide_file_outcome-absence :
      (evidence : List EntryEvidence)
      → (decide_file_outcome chrono evidence ≡ absence)
        ↔ IsDeleted evidence (filter_map (live_version chrono) evidence)
  unfolding decide_file_outcome
  decide_file_outcome-absence evidence = decide_versions-absence evidence _
