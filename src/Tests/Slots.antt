-- ===== src/Tests/Slots.antt =====
-- The copy slots in a run of two threads.
use kitchensync.Base.{ℕ, List, ◌≤◌, ◌≡◌, refl, [], ◌∷◌, length}
use kitchensync.Copy.Slots.{at_least_one, acquire, release, Runs, Runs-bounded}

-- Thread 7 takes a slot, thread 8 another, and thread 7 gives its slot back.
two_threads : Runs 2 (8 ∷ []) (release 2)
unfolding acquire
two_threads =
    Runs.releases (8 ∷ []) 7 [] 2
      (Runs.acquires 8 (7 ∷ []) 1 2 (Runs.acquires 7 [] 0 1 Runs.start refl) refl)

abbrev holders : List ℕ
holders = 8 ∷ []

Runs-bounded_example : (length holders ≡ release 2) × (release 2 ≤ at_least_one 2)
Runs-bounded_example = Runs-bounded 2 holders (release 2) two_threads
