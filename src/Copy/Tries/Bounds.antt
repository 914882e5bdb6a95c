-- ===== src/Copy/Tries/Bounds.antt =====
-- How often a copy is tried, and what a result tells of the last try.
use mathlib.Core.Option.{some-injective}
use kitchensync.Base.{
  ℕ, zero, suc, ◌+◌, ◌≤◌, ◌<◌, ◌≡◌, ◌≢◌, refl, Text, true, false, Option, none, some, List, [],
  ◌++◌, Bool-cases, inl, inr, Result, ok, err, leb, arith,
}
use kitchensync.Format.Types.{FormatRulesTimestamp}
use kitchensync.Transport.Surface.{PeerTransportSurface}
use kitchensync.Copy.Types.{CopyStagingCopyRequest, failed}
use kitchensync.Copy.Slots.{at_least_one, acquire, release}
use kitchensync.Copy.Attempt.{Stop, failure, out_of_fuel}
use kitchensync.Copy.Tries.{
  slot_lines, failed_copy, completed_copy, cleanup_copy_swap_new, attempt, Tried, after_attempt,
  copy_tries, copy_file,
}

at_least_one-le : (n : ℕ) → 1 ≤ at_least_one n
unfolding at_least_one
at_least_one-le n = ground arith

acquire-free :
    (max_copies active : ℕ)
    → active < at_least_one max_copies
    → acquire max_copies active ≡ some (active + 1)
unfolding acquire
acquire-free max_copies active h = ground (arith, h)

module _ (T : PeerTransportSurface) (current_timestamp : T.State → FormatRulesTimestamp × T.State)
    (request : CopyStagingCopyRequest) (fuel : ℕ) where
  -- The source ends within the fuel.
  abbrev pub Ends : Type 0
  Ends = (s : T.State) → (attempt T current_timestamp request fuel s).0 ≢ err out_of_fuel

  -- There is a result, the slot is given back, the attempts are within the retries, and unless the
  -- copy failed, the last attempt succeeded and left the state.
  abbrev pub IsTried : ℕ → Tried T current_timestamp request → Type 0
  IsTried active none = ⊥
  IsTried active (some (result, t, after)) =
      (after ≡ active)
      × (1 ≤ result.attempts)
      × (result.attempts ≤ at_least_one request.options.retries_copy)
      × (result.status ≢ failed
          → (s : T.State) × (attempt T current_timestamp request fuel s ≡ (ok tt, t)))

  after_attempt-IsTried :
      (attempts : ℕ) (lines : List Text) (s : T.State) (answer : Result (Unit {0}) Stop × T.State)
      (active : ℕ) (again : T.State → Tried T current_timestamp request)
      → attempt T current_timestamp request fuel s ≡ answer
      → answer.0 ≢ err out_of_fuel
      → 1 ≤ attempts
      → attempts ≤ at_least_one request.options.retries_copy
      → (attempts < at_least_one request.options.retries_copy
          → (u : T.State) → IsTried active (again u))
      → IsTried active (
          after_attempt T current_timestamp request
            (at_least_one request.options.retries_copy)
            attempts
            lines
            answer.0
            answer.1
            active
            again)
  unfolding failed_copy completed_copy
  after_attempt-IsTried attempts lines s (ok tt, t) active again e ends low high rest =
      (refl, low, high, λ _. (s, e))
  after_attempt-IsTried attempts lines s (err out_of_fuel, t) active again e ends low high rest =
      absurd (ends refl)
  after_attempt-IsTried attempts lines s (err (failure phase failed_with true), t) active again e
        ends low high rest =
      (refl, low, high, λ f. absurd (f refl))
  after_attempt-IsTried attempts lines s (err (failure phase failed_with false), t) active again e
        ends low high rest =
      elim (Bool-cases (leb (at_least_one request.options.retries_copy) attempts)) [
        | inl f ↦ rw f (refl, low, high, λ g. absurd (g refl))
        | inr f ↦
            rw f (rest (ground (arith, f)) (cleanup_copy_swap_new T current_timestamp request t))
      ]

  copy_tries-IsTried :
      (left attempts : ℕ) (lines : List Text) (s : T.State) (active : ℕ)
      → Ends
      → active < at_least_one request.options.max_copies
      → attempts + left ≡ at_least_one request.options.retries_copy
      → IsTried active (
          copy_tries T current_timestamp request fuel
            (at_least_one request.options.retries_copy)
            left
            attempts
            lines
            s
            active)
  unfolding copy_tries failed_copy release
  copy_tries-IsTried zero attempts lines s active ends free total = (
    refl,
    omega (arith, total, at_least_one-le request.options.retries_copy),
    omega (arith, total),
    λ f. absurd (f refl),
  )
  copy_tries-IsTried (suc left) attempts lines s active ends free total =
      go (acquire request.options.max_copies active)
        (acquire-free request.options.max_copies active free)
        (λ said u.
          copy_tries-IsTried left (attempts + 1) said u active ends free (omega (arith, total)))
    where
      go :
          (found : Option ℕ)
          → found ≡ some (active + 1)
          → ((said : List Text) (u : T.State)
              → IsTried active (
                  copy_tries T current_timestamp request fuel
                    (at_least_one request.options.retries_copy)
                    left
                    (attempts + 1)
                    said
                    u
                    active))
          → IsTried active (elim found as (λ _. Tried T current_timestamp request) [
            | none ↦ none
            | some taken ↦
                after_attempt T current_timestamp request
                  (at_least_one request.options.retries_copy)
                  (attempts + 1)
                  (lines ++ (slot_lines request taken ++ slot_lines request (release taken)))
                  (attempt T current_timestamp request fuel s).0
                  (attempt T current_timestamp request fuel s).1
                  (release taken)
                  (λ u.
                    copy_tries T current_timestamp request fuel
                      (at_least_one request.options.retries_copy)
                      left
                      (attempts + 1)
                      (lines ++ (slot_lines request taken ++ slot_lines request (release taken)))
                      u
                      (release taken))
          ])
      go none e rest = absurd (cc e)
      go (some taken) e rest =
          let same : release taken ≡ active = omega (arith, some-injective taken (active + 1) e) in
          rw same (
            after_attempt-IsTried (attempts + 1) _ s (attempt T current_timestamp request fuel s)
              active _ refl (ends s) (omega arith) (omega (arith, total)) (λ _ u. rest _ u))

  -- If a slot is free and the source ends within the fuel, a copy has a result: after one attempt at
  -- least, and at most as many as the retries say, or one if they say none. The slot is given back,
  -- and a result that does not say failed is that of an attempt that succeeded, with the state that
  -- it left.
  pub copy_file-IsTried :
      (s : T.State) (active : ℕ)
      → Ends
      → active < at_least_one request.options.max_copies
      → IsTried active (copy_file T current_timestamp request fuel s active)
  unfolding copy_file
  copy_file-IsTried s active ends free =
      copy_tries-IsTried (at_least_one request.options.retries_copy) 0 [] s active ends free
        (omega arith)
