-- ===== src/Base/Exec.antt =====
-- Methods that change state and may raise. What was written before a raise stays written, so the
-- state comes back beside the exception too.
use mathlib.Core.Bool.{Bool, true, false}
use mathlib.Core.Path.{◌≡◌, refl}
use mathlib.Core.Logic.{◌⊎◌, inl, inr}

-- The exceptions that the program raises, catches or tells apart. `decode_error` is Python's
-- UnicodeDecodeError, a subclass of ValueError; `external` is any other `Exception` that a called
-- service raises.
pub data Fault : Type 0 where
  value_error decode_error index_error key_error type_error : Fault
  timeout_error runtime_error unbound_local external : Fault
  keyboard_interrupt : Fault

-- `except ValueError`
abbrev pub is_value_error : Fault → Bool
is_value_error Fault.value_error = true
is_value_error Fault.decode_error = true
is_value_error _ = false

-- `except Exception`, which does not catch KeyboardInterrupt.
abbrev pub is_exception : Fault → Bool
is_exception Fault.keyboard_interrupt = false
is_exception _ = true

pub data Result {ℓ} (A : Type ℓ) : Type ℓ where
  ok : A → Result A
  err : Fault → Result A

abbrev pub Exec {ℓ} : Type ℓ → Type ℓ → Type ℓ
Exec S A = S → Result A × S

module _ {ℓ} {S A : Type ℓ} where
  abbrev pub pure : A → Exec S A
  pure a s = (ok a, s)

  abbrev pub raise : Fault → Exec S A
  raise e s = (err e, s)

  abbrev pub lift : Result A → Exec S A
  lift r s = (r, s)

module _ {ℓ} {S A B : Type ℓ} where
  abbrev continue : Result A → (A → Exec S B) → Exec S B
  continue (ok a) f s = f a s
  continue (err e) f s = (err e, s)

  infixl 10 ◌>>=◌ ◌>>◌
  abbrev pub ◌>>=◌ : Exec S A → (A → Exec S B) → Exec S B
  ◌>>=◌ m f s = let (r, s') = m s in continue r f s'

  abbrev pub ◌>>◌ : Exec S A → Exec S B → Exec S B
  m >> n = m >>= λ _. n

pub Result-cases {ℓ} :
    {A : Type ℓ} (r : Result A) → ((a : A) × (r ≡ ok a)) ⊎ ((e : Fault) × (r ≡ err e))
Result-cases (ok a) = inl (a, refl)
Result-cases (err e) = inr (e, refl)

-- To split on how a call ended.
pub Outcome-cases {ℓ} :
    {S A : Type ℓ} (x : Result A × S)
    → ((a : A) × (s : S) × (x ≡ (ok a, s))) ⊎ ((e : Fault) × (s : S) × (x ≡ (err e, s)))
Outcome-cases (ok a, s) = inl (a, s, refl)
Outcome-cases (err e, s) = inr (e, s, refl)

-- A sequence that returns went through its first part.
pub bind-eq-ok {ℓ} :
    {S A B : Type ℓ} (m : Exec S A) (f : A → Exec S B) (s : S) {b : B} {u : S}
    → (m >>= f) s ≡ (ok b, u)
    → (a : A) × (t : S) × (m s ≡ (ok a, t)) × (f a t ≡ (ok b, u))
bind-eq-ok m f s {b} {u} e = elim (Outcome-cases (m s)) [
  | inl (a, t, q) ↦ (a, t, q, rw q at e)
  | inr (x, t, q) ↦ absurd (let k : (continue (err x) f t) ≡ (ok b, u) = rw q at e in cc k)
]

-- Whatever the state, what a computation returns satisfies a predicate.
abbrev pub Returns {ℓ κ} : {S A : Type ℓ} → (A → Type κ) → Exec S A → Type (ℓ ⊔ κ)
Returns {S} {A} P m = (s : S) (a : A) (u : S) → m s ≡ (ok a, u) → P a
