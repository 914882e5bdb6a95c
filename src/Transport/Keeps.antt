-- ===== src/Transport/Keeps.antt =====
-- Steps that leave what is seen of the state as it was.
use kitchensync.Base.{◌≡◌, ◌∙◌, Bool, true, false, Result, ok, err, if◌then◌else◌}
use kitchensync.Transport.Action.{Action, continue}

module _ {S E V : Type 0} (view : S → V) where
  abbrev pub Keeps : {A : Type 0} → Action S E A → Type 0
  Keeps step = (s : S) → view (step s).1 ≡ view s

  pub bind-Keeps :
      {A B : Type 0} (m : Action S E A) (f : A → Action S E B)
      → Keeps m
      → ((a : A) → Keeps (f a))
      → Keeps (λ s. continue (m s).0 f (m s).1)
  bind-Keeps {A} {B} m f h k s = go (m s).0
    where
      go : (r : Result A E) → view (continue r f (m s).1).1 ≡ view s
      go (ok a) = k a (m s).1 ∙ h s
      go (err e) = h s

  pub if-Keeps :
      {A : Type 0} (b : Bool) (m n : Action S E A) → Keeps m → Keeps n → Keeps (if b then m else n)
  if-Keeps true m n h k = h
  if-Keeps false m n h k = k
