-- ===== src/Base/Failure.antt =====
-- Rust's `Result`, its `?` operator, and the chain of optional values.
use mathlib.Core.Path.{◌≡◌, refl, subst}
use mathlib.Core.Bool.{Bool, true, false}
use mathlib.Core.Option.{Option, none, some}
use kitchensync.Base.Tests.{if◌then◌else◌}

pub data Result {ℓ κ} (A : Type ℓ) (E : Type κ) : Type (ℓ ⊔ κ) where
  ok : A → Result A E
  err : E → Result A E

infixl 5 ◌>>=◌ ◌>>◌
abbrev pub ◌>>=◌ {ℓ κ ι} :
    {A : Type ℓ} {B : Type κ} {E : Type ι} → Result A E → (A → Result B E) → Result B E
ok a >>= f = f a
err e >>= f = err e

abbrev pub ◌>>◌ {κ ι} : {B : Type κ} {E : Type ι} → Result (Unit {0}) E → Result B E → Result B E
m >> k = m >>= λ _. k

-- `Result::is_ok`
abbrev pub is_ok {ℓ κ} : {A : Type ℓ} {E : Type κ} → Result A E → Bool
is_ok (ok a) = true
is_ok (err e) = false

-- `Result::ok`
abbrev pub to_option {ℓ κ} : {A : Type ℓ} {E : Type κ} → Result A E → Option A
to_option (ok a) = some a
to_option (err e) = none

-- `Option::and_then`
abbrev pub and_then {ℓ κ} : {A : Type ℓ} {B : Type κ} → Option A → (A → Option B) → Option B
and_then none f = none
and_then (some a) f = f a

-- `Option::ok_or_else`
abbrev pub ok_or {ℓ κ} : {A : Type ℓ} {E : Type κ} → Option A → E → Result A E
ok_or none e = err e
ok_or (some a) e = ok a

-- `Result::map_err`
abbrev pub map_err {ℓ κ ι} :
    {A : Type ℓ} {E : Type κ} {F : Type ι} → (E → F) → Result A E → Result A F
map_err f (ok a) = ok a
map_err f (err e) = err (f e)

-- Inversion of a chain that succeeds.
pub >>=_ok {ℓ κ ι} :
    {A : Type ℓ} {B : Type κ} {E : Type ι} {f : A → Result B E} {b : B} (r : Result A E)
    → (r >>= f) ≡ ok b
    → (a : A) × (f a ≡ ok b) × (r ≡ ok a)
>>=_ok (ok a) h = (a, h, refl)
>>=_ok (err e) h = cc

-- What holds of the answer, if there is one
abbrev pub Returns {ℓ κ ι} : {A : Type ℓ} {E : Type κ} → (A → Type ι) → Result A E → Type ι
Returns P (ok a) = P a
Returns P (err e) = Unit

pub Returns->>= {ℓ κ ι ξ ζ} :
    {A : Type ℓ} {B : Type κ} {E : Type ι} (P : A → Type ξ) (Q : B → Type ζ) (r : Result A E)
    (f : A → Result B E)
    → Returns P r
    → ((a : A) → P a → Returns Q (f a))
    → Returns Q (r >>= f)
Returns->>= P Q (ok a) f h k = k a h
Returns->>= P Q (err e) f h k = tt

pub Returns-ok {ℓ κ ι} :
    {A : Type ℓ} {E : Type κ} (P : A → Type ι) (r : Result A E) (a : A)
    → Returns P r
    → r ≡ ok a
    → P a
Returns-ok P r a h e = subst (Returns P) e h

pub Returns-any {ℓ κ} : {A : Type ℓ} {E : Type κ} (r : Result A E) → Returns (λ _. Unit {0}) r
Returns-any (ok a) = tt
Returns-any (err e) = tt

-- What the answer is, kept with it
pub Returns-same {ℓ κ} : {A : Type ℓ} {E : Type κ} (r : Result A E) → Returns (λ a. r ≡ ok a) r
Returns-same (ok a) = refl
Returns-same (err e) = tt

pub Returns-if {ℓ κ ι} :
    {A : Type ℓ} {E : Type κ} (P : A → Type ι) (b : Bool) (r q : Result A E)
    → Returns P r
    → Returns P q
    → Returns P (if b then r else q)
Returns-if P true r q h k = h
Returns-if P false r q h k = k

pub Returns-both {ℓ κ ι ξ} :
    {A : Type ℓ} {E : Type κ} (P : A → Type ι) (Q : A → Type ξ) (r : Result A E)
    → Returns P r
    → Returns Q r
    → Returns (λ a. P a × Q a) r
Returns-both P Q (ok a) h k = (h, k)
Returns-both P Q (err e) h k = tt

pub Returns-map {ℓ κ ι ξ} :
    {A : Type ℓ} {E : Type κ} (P : A → Type ι) (Q : A → Type ξ) (r : Result A E)
    → ((a : A) → P a → Q a)
    → Returns P r
    → Returns Q r
Returns-map P Q (ok a) f h = f a h
Returns-map P Q (err e) f h = tt
