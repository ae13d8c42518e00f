-- ===== src/Api/Site.antt =====
-- The state that the routes of problems and submissions share, and a route as a computation over it.
use byte_battles.Base.{◌≡◌, ◌≢◌, refl, inl, inr, ℕ, ◌≡◌, refl, ◌≢◌, inl, inr}
use byte_battles.Base.Text.{Text}
use byte_battles.Base.Exec.{Exec, Result, ok, err}
use byte_battles.Redis.{Redis}
use byte_battles.Database.{Db}
use byte_battles.Api.Http.{Reply, reply, http_exception, unhandled, Reply-cases}
use byte_battles.Api.Accounts.{Users}
use byte_battles.Api.Backend.{Backend}

pub record Site (B : Backend) : Type 0 where
  pub store : B.State
  pub db : Db
  pub redis : Redis
  pub users : Users

abbrev pub Route : Backend → Type 0 → Type 0
Route B A = Site B → Reply A × Site B

-- An exception of a call is not caught by the route.
abbrev of_result : {A : Type 0} → Result A → Reply A
of_result (ok a) = reply a
of_result (err e) = unhandled e

module _ {B : Backend} {A : Type 0} where
  abbrev pub answer : A → Route B A
  answer a s = (reply a, s)

  abbrev pub refuse : ℕ → Text → Route B A
  refuse status detail s = (http_exception status detail, s)

  -- A call of the backend.
  abbrev pub call : Exec B.State A → Route B A
  call m s = let (r, t) = m s.store in (of_result r, record s { store = t })

module _ {B : Backend} {A C : Type 0} where
  abbrev continue : Reply A → (A → Route B C) → Route B C
  continue (reply a) f s = f a s
  continue (http_exception status detail) f s = (http_exception status detail, s)
  continue (unhandled e) f s = (unhandled e, s)

  infixl 10 ◌>>=◌ ◌>>◌
  abbrev pub ◌>>=◌ : Route B A → (A → Route B C) → Route B C
  ◌>>=◌ m f s = let (r, t) = m s in continue r f t

  abbrev pub ◌>>◌ : Route B A → Route B C → Route B C
  m >> n = m >>= λ _. n

  continue-no_reply :
      (r : Reply A) (f : A → Route B C) (s : Site B) (c : C)
      → ((a : A) → r ≢ reply a)
      → (continue r f s).0 ≢ reply c
  continue-no_reply (reply a) f s c n h = n a refl
  continue-no_reply (http_exception status detail) f s c n h = cc h
  continue-no_reply (unhandled e) f s c n h = cc h

  -- A route that answers went through its first part.
  pub bind-eq-reply :
      (m : Route B A) (f : A → Route B C) (s : Site B) (c : C)
      → ((m >>= f) s).0 ≡ reply c
      → (a : A) × ((m s).0 ≡ reply a) × ((f a (m s).1).0 ≡ reply c)
  bind-eq-reply m f s c h = elim (Reply-cases (m s).0) [
    | inl (a, e) ↦ (a, e, rw e at h)
    | inr no_reply ↦ absurd (continue-no_reply (m s).0 f (m s).1 c no_reply h)
  ]
