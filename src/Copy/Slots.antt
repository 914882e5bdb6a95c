-- ===== src/Copy/Slots.antt =====
-- The copy slots of proj/subpjx/CopyStaging/src/imp.rs: `CopySlotState`, its `acquire` and its
-- `release`, and the runs of threads that call them in any order.
use kitchensync.Base.{
  ℕ, ◌+◌, ◌-◌, ◌≤◌, ◌<◌, ◌≡◌, refl, Option, none, some, List, [], ◌∷◌, ◌++◌, length, length-append,
  leb, if◌then◌else◌, arith,
}

-- `max_copies.max(1)`
unfoldable pub at_least_one : ℕ → ℕ
at_least_one max_copies = if leb 1 max_copies then max_copies else 1

-- The count after the slot is taken; `none` is a thread that waits.
unfoldable pub acquire : ℕ → ℕ → Option ℕ
unfolding at_least_one
acquire max_copies active = if leb (at_least_one max_copies) active then none else some (active + 1)

-- `saturating_sub(1)`
unfoldable pub release : ℕ → ℕ
release active = active - 1

-- The threads that hold a slot, and the count, after some calls by threads with the same limit. A
-- thread releases only a slot that it holds.
pub data Runs (max_copies : ℕ) : List ℕ → ℕ → Type 0 where
  start : Runs max_copies [] 0
  acquires :
      (thread : ℕ) (holders : List ℕ) (active next : ℕ)
      → Runs max_copies holders active
      → acquire max_copies active ≡ some next
      → Runs max_copies (thread ∷ holders) next
  releases :
      (before : List ℕ) (thread : ℕ) (after : List ℕ) (active : ℕ)
      → Runs max_copies (before ++ (thread ∷ after)) active
      → Runs max_copies (before ++ after) (release active)

acquire-some :
    (max_copies active next : ℕ)
    → acquire max_copies active ≡ some next
    → (next ≡ active + 1) × (active < at_least_one max_copies)
unfolding acquire
acquire-some max_copies active next h = ground (arith, h)

-- In whatever order threads take and give back slots, the count is the number of the threads that
-- hold one, and it never exceeds the limit, or one if the limit is zero.
pub Runs-bounded :
    (max_copies : ℕ) (holders : List ℕ) (active : ℕ)
    → Runs max_copies holders active
    → (length holders ≡ active) × (active ≤ at_least_one max_copies)
unfolding release
Runs-bounded max_copies holders active start = (refl, omega arith)
Runs-bounded max_copies holders active (acquires thread rest before next runs h) =
    let (count, bound) = Runs-bounded max_copies rest before runs in
    let (step, free) = acquire-some max_copies before next h in
    (omega (arith, count, step), omega (arith, step, free))
Runs-bounded max_copies holders active (releases before thread after count runs) =
    let (held, bound) = Runs-bounded max_copies (before ++ (thread ∷ after)) count runs in
    (
      omega (arith, held, length-append before (thread ∷ after), length-append before after),
      omega (arith, bound),
    )
