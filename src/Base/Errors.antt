-- ===== src/Base/Errors.antt =====
-- Go's `(value, error)` results, and code that also changes a state.
use mathlib.Core.Path.{◌≡◌, refl}
use mathlib.Core.Logic.{◌⊎◌, inl, inr}
use homelink_monitor.Base.Bytes.{Text}

-- An error is known by its message.
pub data Result {ℓ} (A : Type ℓ) : Type ℓ where
  ok : A → Result A
  err : Text → Result A

pub Result-cases : {A : Type 0} (r : Result A) → ((e : Text) × (r ≡ err e)) ⊎ ((a : A) × (r ≡ ok a))
Result-cases (err e) = inl (e, refl)
Result-cases (ok a) = inr (a, refl)

abbrev pub Eff : Type 0 → Type 0 → Type 0
Eff S A = S → Result A × S

module _ {S A B : Type 0} where
  -- `if err != nil { return …, err }` between two calls.
  abbrev pub proceed : Result A × S → (A → Eff S B) → Result B × S
  proceed (ok a, s) f = f a s
  proceed (err e, s) f = (err e, s)

  -- `if err != nil { … }` with a handler of its own.
  abbrev pub handle : Result A × S → (Text → S → B × S) → (A → S → B × S) → B × S
  handle (ok a, s) g f = f a s
  handle (err e, s) g f = g e s

infixl 5 ◌>>=◌ ◌>>◌
abbrev pub ◌>>=◌ : {S A B : Type 0} → Eff S A → (A → Eff S B) → Eff S B
◌>>=◌ m f s = proceed (m s) f

abbrev pub ◌>>◌ : {S A B : Type 0} → Eff S A → Eff S B → Eff S B
◌>>◌ m k s = proceed (m s) (λ _. k)

abbrev pub pure : {S A : Type 0} → A → Eff S A
pure a s = (ok a, s)

abbrev pub fail : {S A : Type 0} → Text → Eff S A
fail e s = (err e, s)

-- A postcondition: `Q` of the value and the state if the code returned a value, `E` of the state if
-- it returned an error.
module _ {S A : Type 0} where
  abbrev pub Ends : (A → S → Type 0) → (S → Type 0) → Result A × S → Type 0
  Ends Q E (ok a, s) = Q a s
  Ends Q E (err e, s) = E s

  pub Ends-state : (P : S → Type 0) (r : Result A × S) → Ends (λ _ s. P s) P r → P r.1
  Ends-state P (ok a, s) h = h
  Ends-state P (err e, s) h = h

pub proceed-Ends :
    {S A B : Type 0} (Q : A → S → Type 0) (R : B → S → Type 0) (E : S → Type 0) (r : Result A × S)
    (f : A → S → Result B × S)
    → Ends Q E r
    → ((a : A) (s : S) → Q a s → Ends R E (f a s))
    → Ends R E (proceed r f)
proceed-Ends Q R E (ok a, s) f h next = next a s h
proceed-Ends Q R E (err e, s) f h next = h

-- The rule for a call whose error has a handler.
pub handle-Ends :
    {S A B : Type 0} (Q : A → S → Type 0) (E : S → Type 0) (R : B × S → Type 0) (r : Result A × S)
    (g : Text → S → B × S) (f : A → S → B × S)
    → Ends Q E r
    → ((e : Text) (s : S) → E s → R (g e s))
    → ((a : A) (s : S) → Q a s → R (f a s))
    → R (handle r g f)
handle-Ends Q E R (ok a, s) g f h bad good = good a s h
handle-Ends Q E R (err e, s) g f h bad good = bad e s h
