-- ===== src/Traversal/Decide/File.antt =====
-- What `decide_file_outcome` decides: the sources of a file, and when a deletion wins.
use kitchensync.Base.{
  ℕ, ◌+◌, ◌<◌, ◌≤◌, ◌≡◌, refl, sym, subst, inl, inr, ◌↔◌, ℤ, lt_ℤ, le_ℤ, eq_ℤ, eq_ℤ_iff, le_ℤ-refl,
  le_ℤ-antisymm, le_ℤ-of_lt, le_ℤ-of_not_lt, le_ℤ-trans, Bool, true, Bool-cases, List, [], ◌∷◌, map,
  filter, filter_map, Member, Member-filter, filter-Member, All, All-Member, arith,
}
use kitchensync.Format.Types.{FormatRulesTimestamp}
use kitchensync.Format.Time.{Chrono, expect_datetime, peer_mod_time_tied_with_max}
use kitchensync.Format.Time.Tolerance.{margin, older_lem, tied_lem}
use kitchensync.Traversal.Types.{EntryEvidence, FileVersion, file}
use kitchensync.Traversal.Decide.{
  reduce_max, max_size, max_size_or_zero, tied_sources, decide_versions, decide_file_outcome,
  live_version,
}

max_size-le :
    (bound size : ℤ) (vs : List FileVersion)
    → le_ℤ (max_size size vs) bound ≡ true
    → (le_ℤ size bound ≡ true) × All (λ v. le_ℤ v.entry.byte_size bound ≡ true) vs
unfolding max_size
max_size-le bound size [] h = (h, tt)
max_size-le bound size (v ∷ vs) h = elim (Bool-cases (lt_ℤ v.entry.byte_size size)) [
  | inl e ↦
      let ih = max_size-le bound size vs (rw e at h) in
      (ih.0, (le_ℤ-trans _ size bound (le_ℤ-of_lt _ size e) ih.0, ih.1))
  | inr e ↦
      let ih = max_size-le bound v.entry.byte_size vs (rw e at h) in
      (le_ℤ-trans size _ bound (le_ℤ-of_not_lt _ size e) ih.0, (ih.0, ih.1))
]

max_size-Member :
    (size : ℤ) (vs : List FileVersion)
    → Member (max_size size vs) (size ∷ map (λ v. v.entry.byte_size) vs)
unfolding max_size
max_size-Member size [] = inl refl
max_size-Member size (v ∷ vs) =
    ground (arith, max_size-Member size vs, max_size-Member v.entry.byte_size vs)

-- The largest size is that of one of the versions.
max_size-attained :
    (v : FileVersion) (vs : List FileVersion)
    → (w : FileVersion) × Member w (v ∷ vs) × (w.entry.byte_size ≡ max_size_or_zero (v ∷ vs))
max_size-attained v vs = go (v ∷ vs) (max_size-Member v.entry.byte_size vs)
  where
    go :
        {z : ℤ} (ws : List FileVersion)
        → Member z (map (λ w. w.entry.byte_size) ws)
        → (w : FileVersion) × Member w ws × (w.entry.byte_size ≡ z)
    go [] h = elim h [ ]
    go (w ∷ ws) (inl e) = (w, inl refl, sym e)
    go (w ∷ ws) (inr h) = let (x, m, e) = go ws h in (x, inr m, e)

abbrev largest : List FileVersion → List FileVersion
largest vs = filter (λ v. eq_ℤ v.entry.byte_size (max_size_or_zero vs)) vs

largest_some :
    (w : FileVersion) (vs : List FileVersion)
    → Member w vs
    → (s : FileVersion) × Member s (largest vs)
largest_some w [] m = elim m [ ]
largest_some w (v ∷ vs) m =
    let (s, n, e) = max_size-attained v vs in
    let largest_size : FileVersion → Bool =
      λ x. eq_ℤ x.entry.byte_size (max_size_or_zero (v ∷ vs)) in
    (s, filter-Member largest_size s (v ∷ vs) n ((eq_ℤ_iff _ _).1 e))

max_size_or_zero-le :
    (vs : List FileVersion) (u : FileVersion)
    → Member u vs
    → le_ℤ u.entry.byte_size (max_size_or_zero vs) ≡ true
max_size_or_zero-le [] u m = elim m [ ]
max_size_or_zero-le (v ∷ vs) u m =
    let most = max_size v.entry.byte_size vs in
    All-Member (λ w. le_ℤ w.entry.byte_size most ≡ true) u (v ∷ vs)
      (max_size-le most v.entry.byte_size vs (le_ℤ-refl most)) m

-- At least as large as each version of a list: the size among the largest.
abbrev pub IsLargest : FileVersion → List FileVersion → Type 0
IsLargest s vs = (u : FileVersion) → Member u vs → le_ℤ u.entry.byte_size s.entry.byte_size ≡ true

size-eq-max_size_or_zero :
    (vs : List FileVersion) (s : FileVersion)
    → Member s vs
    → IsLargest s vs
    → s.entry.byte_size ≡ max_size_or_zero vs
size-eq-max_size_or_zero [] s m above = elim m [ ]
size-eq-max_size_or_zero (v ∷ vs) s m above =
    let (x, n, e) = max_size-attained v vs in
    le_ℤ-antisymm _ _ (max_size_or_zero-le (v ∷ vs) s m)
      (subst (λ z. le_ℤ z s.entry.byte_size ≡ true) e (above x n))

Member-largest :
    (vs : List FileVersion) (s : FileVersion)
    → Member s (largest vs) ↔ (Member s vs × IsLargest s vs)
Member-largest vs s = (
  λ m.
      let (n, e) = Member-filter (λ v. eq_ℤ v.entry.byte_size (max_size_or_zero vs)) s vs m in
      (
        n,
        λ u k.
            subst (λ z. le_ℤ u.entry.byte_size z ≡ true) (sym ((eq_ℤ_iff _ _).0 e))
              (max_size_or_zero-le vs u k),
      ),
  λ h.
      filter-Member (λ v. eq_ℤ v.entry.byte_size (max_size_or_zero vs)) s vs h.0
        ((eq_ℤ_iff _ _).1 (size-eq-max_size_or_zero vs s h.0 h.1)),
)

module _ (chrono : Chrono) where
  abbrev pub instant : FormatRulesTimestamp → ℕ
  instant t = expect_datetime chrono t

  -- What lies a margin above the chosen maximum lies above every live version.
  reduce_max-le :
      (bound : ℕ) (max : FormatRulesTimestamp) (vs : List FileVersion)
      → instant (reduce_max chrono max vs) + margin ≤ bound
      → (instant max + margin ≤ bound) × All (λ v. instant v.mod_timestamp < bound) vs
  unfolding reduce_max
  reduce_max-le bound max [] h = (h, tt)
  reduce_max-le bound max (v ∷ vs) h = ground (
    arith,
    older_lem chrono max v.mod_timestamp,
    reduce_max-le bound max vs,
    reduce_max-le bound v.mod_timestamp vs,
  )

  reduce_max-Member :
      (max : FormatRulesTimestamp) (vs : List FileVersion)
      → Member (reduce_max chrono max vs) (max ∷ map (λ v. v.mod_timestamp) vs)
  unfolding reduce_max
  reduce_max-Member max [] = inl refl
  reduce_max-Member max (v ∷ vs) =
      ground (arith, reduce_max-Member max vs, reduce_max-Member v.mod_timestamp vs)

  -- Some version lies within the margin of the chosen maximum: the version that was chosen.
  reduce_max-tied :
      (v : FileVersion) (vs : List FileVersion)
      → (w : FileVersion) × Member w (v ∷ vs)
        × (peer_mod_time_tied_with_max chrono w.mod_timestamp (reduce_max chrono v.mod_timestamp vs)
            ≡ true)
  reduce_max-tied v vs =
      go (reduce_max chrono v.mod_timestamp vs) (v ∷ vs) (reduce_max-Member v.mod_timestamp vs)
    where
      go :
          (m : FormatRulesTimestamp) (ws : List FileVersion)
          → Member m (map (λ w. w.mod_timestamp) ws)
          → (w : FileVersion) × Member w ws
            × (peer_mod_time_tied_with_max chrono w.mod_timestamp m ≡ true)
      go m [] h = elim h [ ]
      go m (w ∷ ws) (inl e) =
          (w, inl refl, rw e (ground (arith, tied_lem chrono w.mod_timestamp w.mod_timestamp)))
      go m (w ∷ ws) (inr h) = let (x, n, e) = go m ws h in (x, inr n, e)

  -- Less than the margin behind `max`.
  abbrev pub IsTied : FormatRulesTimestamp → FileVersion → Type 0
  IsTied max v = instant max < instant v.mod_timestamp + margin

  abbrev tied : FormatRulesTimestamp → List FileVersion → List FileVersion
  tied max vs = filter (λ v. peer_mod_time_tied_with_max chrono v.mod_timestamp max) vs

  Member-tied :
      (max : FormatRulesTimestamp) (vs : List FileVersion) (v : FileVersion)
      → Member v (tied max vs) ↔ (Member v vs × IsTied max v)
  Member-tied max vs v = (
    λ m.
        let (n, e) =
          Member-filter (λ w. peer_mod_time_tied_with_max chrono w.mod_timestamp max) v vs m in
        (n, ground (arith, e, tied_lem chrono v.mod_timestamp max)),
    λ h.
        filter-Member (λ w. peer_mod_time_tied_with_max chrono w.mod_timestamp max) v vs h.0
          (ground (arith, tied_lem chrono v.mod_timestamp max, h.1)),
  )

  -- `max` is the chosen maximum of the live versions `vs`, and `sources` are its sources: exactly
  -- the versions less than the margin behind it that no other such version exceeds in size.
  pub record AreSources (max : FormatRulesTimestamp) (vs sources : List FileVersion) : Type 0 where
    pub some_source : (s : FileVersion) × Member s sources
    pub of_a_version : Member max (map (λ v. v.mod_timestamp) vs)
    pub none_later : All (λ v. instant v.mod_timestamp < instant max + margin) vs
    pub exactly :
        (s : FileVersion)
        → Member s sources ↔ (
            Member s vs
            × IsTied max s
            × ((u : FileVersion)
                → Member u vs
                → IsTied max u
                → le_ℤ u.entry.byte_size s.entry.byte_size ≡ true))

  tied_sources-exactly :
      (max : FormatRulesTimestamp) (vs : List FileVersion) (s : FileVersion)
      → Member s (tied_sources chrono max vs) ↔ (
          Member s vs
          × IsTied max s
          × ((u : FileVersion)
              → Member u vs
              → IsTied max u
              → le_ℤ u.entry.byte_size s.entry.byte_size ≡ true))
  unfolding tied_sources
  tied_sources-exactly max vs s = (
    λ m.
        let (n, above) = (Member-largest (tied max vs) s).0 m in
        let (k, near) = (Member-tied max vs s).0 n in
        (k, near, λ u mu nu. above u ((Member-tied max vs u).1 (mu, nu))),
    λ h. (Member-largest (tied max vs) s).1 (
      (Member-tied max vs s).1 (h.0, h.1),
      λ u mu. let (k, near) = (Member-tied max vs u).0 mu in h.2 u k near,
    ),
  )

  tied_sources-AreSources :
      (v : FileVersion) (vs : List FileVersion)
      → AreSources
          (reduce_max chrono v.mod_timestamp vs)
          (v ∷ vs)
          (tied_sources chrono (reduce_max chrono v.mod_timestamp vs) (v ∷ vs))
  unfolding tied_sources
  tied_sources-AreSources v vs =
      let max = reduce_max chrono v.mod_timestamp vs in
      let (w, m, near) = reduce_max-tied v vs in
      let below = reduce_max-le (instant max + margin) v.mod_timestamp vs (omega arith) in
      record {
        some_source = largest_some w (tied max (v ∷ vs)) (
            filter-Member (λ x. peer_mod_time_tied_with_max chrono x.mod_timestamp max) w (v ∷ vs) m
              near);
        of_a_version = reduce_max-Member v.mod_timestamp vs;
        none_later = (omega (arith, below.0), below.1);
        exactly = tied_sources-exactly max (v ∷ vs);
      }

  -- If the decision is a file, its sources are live versions: for one of the times as the maximum,
  -- which no version is ahead of by more than the tolerance, they are exactly the versions tied
  -- with it that are largest in size among the tied; and there is at least one.
  pub decide_file_outcome-AreSources :
      (evidence : List EntryEvidence) (sources : List FileVersion)
      → decide_file_outcome chrono evidence ≡ file sources
      → (max : FormatRulesTimestamp) × AreSources max
          (filter_map (live_version chrono) evidence)
          sources
  unfolding decide_file_outcome
  decide_file_outcome-AreSources evidence sources h =
      go (filter_map (live_version chrono) evidence) h
    where
      go :
          (vs : List FileVersion)
          → decide_versions chrono evidence vs ≡ file sources
          → (max : FormatRulesTimestamp) × AreSources max vs sources
      go [] e = absurd (cc e)
      go (v ∷ vs) e =
          let max = reduce_max chrono v.mod_timestamp vs in
          let same : tied_sources chrono max (v ∷ vs) ≡ sources = ground (arith, e) in
          (max, subst (AreSources max (v ∷ vs)) same (tied_sources-AreSources v vs))
