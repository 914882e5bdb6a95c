-- ===== src/Snapshot/Cascade/Laws.antt =====
-- What a displacement marks: the untombstoned rows below the displaced one, and only those.
use kitchensync.Base.{
  ℕ, zero, suc, ◌<◌, ◌≡◌, refl, sym, ap, ◌↔◌, ◌⊎◌, inl, inr, Text, text_eq, text_eq_iff, Bool, true,
  Bool-cases, Option, none, some, List, [], ◌∷◌, ◌++◌, map, any, filter, Member, Member-filter,
  filter-Member, arith, subst,
}
use kitchensync.Snapshot.Types.{SnapshotDatabaseRow}
use kitchensync.Snapshot.Rows.{Table, update_where, set_deleted}
use kitchensync.Snapshot.Cascade.{is_child_of, children, subtree, in_subtree, tombstone_subtree}

-- `Below table p x`: from `p` down to `x` by parent links of untombstoned rows.
pub data Below (table : Table) : Text → Text → Type 0 where
  here : (x : Text) → Below table x x
  down :
      (p x : Text) (row : SnapshotDatabaseRow)
      → Member row table
      → row.parent_id ≡ some p
      → row.deleted_time ≡ none
      → Below table row.id x
      → Below table p x

any-Member : (s : Text) (xs : List Text) → (any (text_eq s) xs ≡ true) ↔ Member s xs
any-Member s [] = (λ h. cc h, λ h. elim h [ ])
any-Member s (x ∷ xs) = ground (arith, text_eq_iff s x, any-Member s xs)

Member-append : (x : Text) (xs ys : List Text) → Member x (xs ++ ys) ↔ (Member x xs ⊎ Member x ys)
Member-append x [] ys = (λ h. inr h, λ h. elim h [ inl m ↦ elim m [ ] | inr m ↦ m ])
Member-append x (y ∷ xs) ys = ground (arith, Member-append x xs ys)

Member-ids_of :
    (x : Text) (table : Table)
    → Member x (map (λ row. row.id) table)
    → (row : SnapshotDatabaseRow) × Member row table × (x ≡ row.id)
Member-ids_of x [] h = elim h [ ]
Member-ids_of x (r ∷ table) (inl e) = (r, inl refl, e)
Member-ids_of x (r ∷ table) (inr h) = let (row, m, e) = Member-ids_of x table h in (row, inr m, e)

Member-ids :
    (row : SnapshotDatabaseRow) (table : Table)
    → Member row table
    → Member row.id (map (λ r. r.id) table)
Member-ids row [] m = elim m [ ]
Member-ids row (r ∷ table) (inl e) = inl (ap (λ x. x.id) e)
Member-ids row (r ∷ table) (inr m) = inr (Member-ids row table m)

-- A child of a level is an untombstoned row with its parent in the level.
is_child_of-parent :
    (level : List Text) (row : SnapshotDatabaseRow)
    → is_child_of level row ≡ true
    → (p : Text) × Member p level × (row.parent_id ≡ some p) × (row.deleted_time ≡ none)
is_child_of-parent level row h = go row.parent_id row.deleted_time refl refl
  where
    go :
        (parent deleted : Option Text)
        → row.parent_id ≡ parent
        → row.deleted_time ≡ deleted
        → (p : Text) × Member p level × (row.parent_id ≡ some p) × (row.deleted_time ≡ none)
    go none deleted e f = absurd (ground (arith, h, e))
    go (some p) (some d) e f = absurd (ground (arith, h, e, f))
    go (some p) none e f = (p, (any-Member p level).0 (ground (arith, h, e, f)), e, f)

parent-is_child_of :
    (level : List Text) (p : Text) (row : SnapshotDatabaseRow)
    → Member p level
    → row.parent_id ≡ some p
    → row.deleted_time ≡ none
    → is_child_of level row ≡ true
parent-is_child_of level p row m e f =
    let found = (any-Member p level).1 m in ground (arith, e, f, found)

BelowLevel : Table → List Text → Text → Type 0
BelowLevel table level x = (p : Text) × Member p level × Below table p x

subtree-suc :
    (fuel : ℕ) (table : Table) (id : Text) (level ids : List Text)
    → subtree (suc fuel) table (id ∷ level) ≡ some ids
    → (below : List Text) × (subtree fuel table (children table (id ∷ level)) ≡ some below)
      × (ids ≡ (id ∷ level) ++ below)
unfolding subtree
subtree-suc fuel table id level ids h = go (subtree fuel table (children table (id ∷ level))) refl
  where
    go :
        (found : Option (List Text))
        → subtree fuel table (children table (id ∷ level)) ≡ found
        → (below : List Text) × (subtree fuel table (children table (id ∷ level)) ≡ some below)
          × (ids ≡ (id ∷ level) ++ below)
    go none e = absurd (ground (arith, h, e))
    go (some below) e = (below, e, ground (arith, h, e))

-- One more step from the top.
child-Below :
    (table : Table) (level : List Text) (x : Text)
    → BelowLevel table (children table level) x
    → BelowLevel table level x
unfolding BelowLevel
child-Below table level x (q, m, b) =
    let (row, k, e) = Member-ids_of q (filter (is_child_of level) table) m in
    let (n, c) = Member-filter (is_child_of level) row table k in
    let (p, l, f, g) = is_child_of-parent level row c in
    (p, l, down p x row n f g (subst (λ y. Below table y x) e b))

-- The query finds only what lies below the level, with the level itself.
subtree-Below :
    (fuel : ℕ) (table : Table) (level ids : List Text) (x : Text)
    → subtree fuel table level ≡ some ids
    → Member x ids
    → BelowLevel table level x
unfolding subtree BelowLevel
subtree-Below fuel table [] ids x h m =
    let e : ids ≡ [] = ground (arith, h) in elim (subst (Member x) e m) [ ]
subtree-Below zero table (id ∷ level) ids x h m = absurd (cc h)
subtree-Below (suc fuel) table (id ∷ level) ids x h m =
    let (below, e, f) = subtree-suc fuel table id level ids h in
    elim ((Member-append x (id ∷ level) below).0 (subst (Member x) f m)) [
      | inl n ↦ (x, n, here x)
      | inr n ↦ child-Below table (id ∷ level) x (subtree-Below fuel table _ below x e n)
    ]

Below-subtree :
    (fuel : ℕ) (table : Table) (level ids : List Text) (p x : Text)
    → subtree fuel table level ≡ some ids
    → Member p level
    → Below table p x
    → Member x ids
unfolding subtree
Below-subtree fuel table [] ids p x h m b = elim m [ ]
Below-subtree zero table (id ∷ level) ids p x h m b = absurd (cc h)
Below-subtree (suc fuel) table (id ∷ level) ids p x h m (here _) =
    let (below, e, f) = subtree-suc fuel table id level ids h in
    subst (Member x) (sym f) ((Member-append x (id ∷ level) below).1 (inl m))
Below-subtree (suc fuel) table (id ∷ level) ids p x h m (down _ _ row n parent live b) =
    let (below, e, f) = subtree-suc fuel table id level ids h in
    let child = Member-ids row (filter (is_child_of (id ∷ level)) table) (
      filter-Member (is_child_of (id ∷ level)) row table n
        (parent-is_child_of (id ∷ level) p row m parent live)) in
    subst (Member x) (sym f) (
      (Member-append x (id ∷ level) below).1
        (inr (Below-subtree fuel table (children table (id ∷ level)) below row.id x e child b)))

-- The parent links of untombstoned rows go down in a rank, so that no row is below itself.
abbrev pub Descends : (Text → ℕ) → Table → Type 0
Descends rank table =
    (p : Text) (row : SnapshotDatabaseRow)
    → Member row table
    → row.parent_id ≡ some p
    → row.deleted_time ≡ none
    → rank row.id < rank p

children_lower :
    (rank : Text → ℕ) (fuel : ℕ) (table : Table) (level : List Text)
    → Descends rank table
    → ((id : Text) → Member id level → rank id < suc fuel)
    → (id : Text) → Member id (children table level)
    → rank id < fuel
children_lower rank fuel table level falls low x m =
    let (row, k, f) = Member-ids_of x (filter (is_child_of level) table) m in
    let (n, c) = Member-filter (is_child_of level) row table k in
    let (p, l, g, live) = is_child_of-parent level row c in
    subst (λ y. rank y < fuel) (sym f) (omega (arith, falls p row n g live, low p l))

suc-subtree :
    (fuel : ℕ) (table : Table) (id : Text) (level below : List Text)
    → subtree fuel table (children table (id ∷ level)) ≡ some below
    → subtree (suc fuel) table (id ∷ level) ≡ some ((id ∷ level) ++ below)
unfolding subtree
suc-subtree fuel table id level below e = rw (e, subtree)

subtree_ends :
    (rank : Text → ℕ) (fuel : ℕ) (table : Table) (level : List Text)
    → Descends rank table
    → ((id : Text) → Member id level → rank id < fuel)
    → (ids : List Text) × (subtree fuel table level ≡ some ids)
unfolding subtree
subtree_ends rank fuel table [] falls low = ([], refl)
subtree_ends rank zero table (id ∷ level) falls low = absurd (omega (arith, low id (inl refl)))
subtree_ends rank (suc fuel) table (id ∷ level) falls low =
    let (below, e) =
      subtree_ends rank fuel table (children table (id ∷ level)) falls
        (children_lower rank fuel table (id ∷ level) falls low) in
    ((id ∷ level) ++ below, suc-subtree fuel table id level below e)

-- Row by row: what meets the condition gets the deletion time, and the rest stays as it is.
abbrev pub Marked : (SnapshotDatabaseRow → Type 0) → Text → Table → Table → Type 0
Marked P time [] [] = Unit
Marked P time [] (_ ∷ _) = ⊥
Marked P time (_ ∷ _) [] = ⊥
Marked P time (r ∷ rows) (r' ∷ rows') =
    (P r → r' ≡ set_deleted time r) × (¬ (P r) → r' ≡ r) × Marked P time rows rows'

update_where-Marked :
    (p : SnapshotDatabaseRow → Bool) (P : SnapshotDatabaseRow → Type 0) (time : Text)
    → ((row : SnapshotDatabaseRow) → (p row ≡ true) ↔ P row)
    → (table : Table) → Marked P time table (update_where p (set_deleted time) table)
unfolding update_where
update_where-Marked p P time same [] = tt
update_where-Marked p P time same (r ∷ rows) = elim (Bool-cases (p r)) [
  | inl e ↦ (λ h. rw e, λ h. absurd (h ((same r).0 e)), update_where-Marked p P time same rows)
  | inr e ↦ (λ h. absurd (cc (e, (same r).1 h)), λ h. rw e, update_where-Marked p P time same rows)
]

in_subtree_iff :
    (ids : List Text) (row : SnapshotDatabaseRow)
    → (in_subtree ids row ≡ true) ↔ ((row.deleted_time ≡ none) × Member row.id ids)
in_subtree_iff ids row = ground (arith, any-Member row.id ids)

-- Untombstoned, and at or below the displaced entry.
abbrev pub IsDisplaced : Table → Text → SnapshotDatabaseRow → Type 0
IsDisplaced table id row = (row.deleted_time ≡ none) × Below table id row.id

in_subtree-IsDisplaced :
    (fuel : ℕ) (table : Table) (id : Text) (ids : List Text)
    → subtree fuel table (id ∷ []) ≡ some ids
    → (row : SnapshotDatabaseRow) → (in_subtree ids row ≡ true) ↔ IsDisplaced table id row
unfolding BelowLevel
in_subtree-IsDisplaced fuel table id ids e row = (
  λ h.
      let (live, m) = (in_subtree_iff ids row).0 h in
      let (p, l, b) = subtree-Below fuel table (id ∷ []) ids row.id e m in
      (
        live,
        elim l [
          | inl same ↦ subst (λ y. Below table y row.id) same b
          | inr no_more ↦ absurd no_more
        ],
      ),
  λ h.
      (in_subtree_iff ids row).1
        (h.0, Below-subtree fuel table (id ∷ []) ids id row.id e (inl refl) h.1),
)

tombstone_subtree-some :
    (fuel : ℕ) (id time : Text) (table : Table) (ids : List Text)
    → subtree fuel table (id ∷ []) ≡ some ids
    → tombstone_subtree fuel id time table
      ≡ some (update_where (in_subtree ids) (set_deleted time) table)
unfolding tombstone_subtree
tombstone_subtree-some fuel id time table ids e = rw (e, tombstone_subtree)

pub tombstone_subtree_lem :
    (rank : Text → ℕ) (fuel : ℕ) (id time : Text) (table : Table)
    → Descends rank table
    → rank id < fuel
    → (table' : Table) × (tombstone_subtree fuel id time table ≡ some table')
      × Marked (IsDisplaced table id) time table table'
unfolding tombstone_subtree
tombstone_subtree_lem rank fuel id time table falls low =
    let (ids, e) = subtree_ends rank fuel table (id ∷ []) falls (λ x m. elim m [
      | inl same ↦ subst (λ y. rank y < fuel) (sym same) low
      | inr no_more ↦ absurd no_more
    ]) in
    (
      update_where (in_subtree ids) (set_deleted time) table,
      tombstone_subtree-some fuel id time table ids e,
      update_where-Marked (in_subtree ids) (IsDisplaced table id) time
          (in_subtree-IsDisplaced fuel table id ids e) table,
    )
