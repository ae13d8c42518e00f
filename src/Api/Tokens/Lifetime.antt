-- ===== src/Api/Tokens/Lifetime.antt =====
-- What a token is good for: its type, its time, and the guards of the routes.
use byte_battles.Base.{
  ℕ, ◌+◌, ◌*◌, ◌<◌, ◌≡◌, refl, ◌↔◌, false, ◌&&◌, none, some, arith, ltb, if◌then◌else◌, is_empty,
}
use byte_battles.Base.Text.{Text, codes, text_eq}
use byte_battles.Base.Number.{str}
use byte_battles.Base.Number.Decimal.{int-str}
use byte_battles.Api.Http.{reply}
use byte_battles.Api.Accounts.{User, Users}
use byte_battles.Api.Tokens.{
  Claims, Jwt, TokenPayload, credentials_exception, create_token, create_access_token,
  create_refresh_token, Lifetimes, verify_token, get_current_user, get_current_admin,
  get_optional_current_user, get_optional_current_admin,
}

-- What PyJWT documents: a token that it encoded is decoded to the same payload until its expiry time,
-- and refused from then on.
abbrev pub IsJwt : Jwt → Type 0
IsJwt jwt =
    (now e : ℕ) (c : Claims)
    → c.exp ≡ some e
    → jwt.decode now (jwt.encode c) ≡ (if ltb now e then some c else none)

-- Where PyJWT keeps what it documents, a token that was created with a payload, a lifetime and a
-- type is verified to that payload before its expiry and for its own type, and answered with 401
-- later or for any other type.
pub verify_token-create_token :
    (jwt : Jwt) (now later expire : ℕ) (payload : TokenPayload) (t u : Text)
    → IsJwt jwt
    → verify_token jwt later (create_token jwt now payload expire t) u
      ≡ (if ltb later (now + expire) && text_eq t u then reply payload else credentials_exception)
unfolding create_token verify_token
verify_token-create_token jwt now later expire payload t u law =
    rw
      (law later (now + expire)
        (record { sub = some (str payload.sub); token_type = some t; exp = some (now + expire) })
        refl)
      (ground (arith, int-str payload.sub))

-- For a token that is not empty, the optional dependency yields an administrator exactly when the
-- mandatory one returns that administrator.
pub optional_admin_iff :
    (jwt : Jwt) (now : ℕ) (db : Users) (token : Text) (u : User)
    → is_empty token ≡ false
    → (get_optional_current_admin jwt now db (some token) ≡ some u)
      ↔ (get_current_admin jwt now db token ≡ reply u)
unfolding get_optional_current_admin get_optional_current_user get_current_admin get_current_user
optional_admin_iff jwt now db token u h = ground arith

pub verify-access_token :
    (jwt : Jwt) (config : Lifetimes) (now later : ℕ) (payload : TokenPayload)
    → IsJwt jwt
    → later < now + config.access_token_expire_minutes * 60
    → verify_token jwt later (create_access_token jwt now config payload) (codes "access")
      ≡ reply payload
unfolding create_access_token text_eq
verify-access_token jwt config now later payload law h = ground (
  arith,
  h,
  verify_token-create_token jwt now later (config.access_token_expire_minutes * 60) payload
      (codes "access") (codes "access") law,
)

pub verify-refresh_token :
    (jwt : Jwt) (config : Lifetimes) (now later : ℕ) (payload : TokenPayload)
    → IsJwt jwt
    → verify_token jwt later (create_refresh_token jwt now config payload) (codes "access")
      ≡ credentials_exception
unfolding create_refresh_token text_eq
verify-refresh_token jwt config now later payload law = ground (
  arith,
  verify_token-create_token jwt now later (config.refresh_token_expire_days * 86400) payload
      (codes "refresh") (codes "access") law,
)
