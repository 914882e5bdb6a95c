-- ===== src/Traversal/Walk/Total.antt =====
-- The decisions have a result where the search for live file times has one.
use kitchensync.Base.{
  inl, inr, Text, is_empty, ◌&&◌, Option, none, some, List, any, filter, find, length, ltb, leb,
  Bool-cases,
}
use kitchensync.Format.Types.{FormatRulesTimestamp}
use kitchensync.Traversal.Types.{ActivePeer, EntryEvidence}
use kitchensync.Traversal.Decide.{
  contributes, has_live_file, has_live_dir, is_row_absence, is_canon, after_walk,
  decide_by_estimate, decide_directory_outcome, decide_by_votes, decide_with, decide_outcome,
}
use kitchensync.Traversal.Services.{Services}
use kitchensync.Traversal.Listing.{Run}
use kitchensync.Traversal.Walk.{Times}

-- There is a result.
abbrev pub HasValue {ℓ} : {A : Type ℓ} → Option A → Type 0
HasValue none = ⊥
HasValue (some a) = Unit

module _ (X : Services) (walk : Text → List ActivePeer → Run X → Times X) (path : Text)
    (total : (peers : List ActivePeer) (run : Run X) → HasValue (walk path peers run)) where
  after_walk-HasValue :
      (estimate : FormatRulesTimestamp) (times : Times X)
      → HasValue times
      → HasValue (after_walk X.chrono walk estimate times)
  after_walk-HasValue estimate none h = h
  after_walk-HasValue estimate (some answer) h = tt

  decide_by_estimate-HasValue :
      (evidence : List EntryEvidence) (estimate : Option FormatRulesTimestamp) (run : Run X)
      → HasValue (decide_by_estimate X.chrono walk path evidence estimate run)
  unfolding decide_by_estimate
  decide_by_estimate-HasValue evidence none run = tt
  decide_by_estimate-HasValue evidence (some estimate) run =
      after_walk-HasValue estimate _ (total _ run)

  decide_directory_outcome-HasValue :
      (evidence contributing : List EntryEvidence) (run : Run X)
      → HasValue (decide_directory_outcome X.chrono walk path evidence contributing run)
  unfolding decide_directory_outcome
  decide_directory_outcome-HasValue evidence contributing run =
      elim (Bool-cases (
        ltb 0 (length (filter has_live_dir contributing))
        && is_empty (filter is_row_absence contributing))) [
          | inl e ↦ rw e tt
          | inr e ↦ elim (Bool-cases (leb (length (filter has_live_dir contributing)) 0)) [
            | inl f ↦ rw (e, f) tt
            | inr f ↦ rw (e, f) (decide_by_estimate-HasValue evidence _ run)
          ]
        ]

  decide_by_votes-HasValue :
      (evidence contributing : List EntryEvidence) (run : Run X)
      → HasValue (decide_by_votes X.chrono walk path evidence contributing run)
  unfolding decide_by_votes
  decide_by_votes-HasValue evidence contributing run =
      elim (Bool-cases (any has_live_file contributing)) [
        | inl e ↦ elim (Bool-cases (any has_live_dir contributing)) [
          | inl f ↦ rw (e, f) tt
          | inr f ↦ rw (e, f) tt
        ]
        | inr e ↦ elim (Bool-cases (any has_live_dir contributing)) [
          | inl f ↦ rw (e, f) (decide_directory_outcome-HasValue evidence contributing run)
          | inr f ↦ rw (e, f) tt
        ]
      ]

  pub decide_outcome-HasValue :
      (evidence : List EntryEvidence) (run : Run X)
      → HasValue (decide_outcome X.chrono walk path evidence run)
  unfolding decide_outcome
  decide_outcome-HasValue evidence run = go (find (λ item. is_canon item.peer.peer) evidence)
    where
      go :
          (found : Option EntryEvidence)
          → HasValue
              (decide_with X.chrono walk path evidence (filter contributes evidence) found run)
      go none = decide_by_votes-HasValue evidence (filter contributes evidence) run
      go (some item) = tt
