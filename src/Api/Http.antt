-- ===== src/Api/Http.antt =====
-- How a route of the web service ends.
use byte_battles.Base.{ℕ, ◌≡◌, refl, ◌≢◌, ◌⊎◌, inl, inr}
use byte_battles.Base.Text.{Text}
use byte_battles.Base.Exec.{Fault}

-- A value, a raised HTTPException with its status and detail, or any other exception, which the
-- framework answers as an internal server error.
pub data Reply {ℓ} (A : Type ℓ) : Type ℓ where
  reply : A → Reply A
  http_exception : ℕ → Text → Reply A
  unhandled : Fault → Reply A

module _ {ℓ} {A B : Type ℓ} where
  infixl 10 ◌>>=◌
  abbrev pub ◌>>=◌ : Reply A → (A → Reply B) → Reply B
  reply a >>= f = f a
  http_exception status detail >>= f = http_exception status detail
  unhandled e >>= f = unhandled e

-- To split on how a route ended.
pub Reply-cases {ℓ} :
    {A : Type ℓ} (r : Reply A) → ((a : A) × (r ≡ reply a)) ⊎ ((a : A) → r ≢ reply a)
Reply-cases (reply a) = inl (a, refl)
Reply-cases (http_exception status detail) = inr (λ a e. cc e)
Reply-cases (unhandled x) = inr (λ a e. cc e)
