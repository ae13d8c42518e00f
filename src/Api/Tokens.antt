-- ===== src/Api/Tokens.antt =====
-- api/app/utils/oauth2.py: the tokens that the service gives out, and who a token stands for.
pub mod Lifetime
use byte_battles.Base.{
  ℕ, ◌+◌, ◌*◌, Bool, true, false, not, Option, none, some, if◌then◌else◌, is_empty,
}
use byte_battles.Base.Text.{Text, codes, text_eq}
use byte_battles.Base.Exec.{Fault, Result, ok, err}
use byte_battles.Base.Number.{str, int}
use byte_battles.Enums.{UserType}
use byte_battles.Database.{first}
use byte_battles.Api.Http.{Reply, reply, http_exception, unhandled, ◌>>=◌}
use byte_battles.Api.Accounts.{User, Users, has_id}

-- The payload of a decoded token: of its keys those that the service reads.
pub record Claims : Type 0 where
  pub sub : Option Text
  pub token_type : Option Text
  pub exp : Option ℕ

-- PyJWT with the secret key and the algorithm of the configuration: `jwt.encode`, and `jwt.decode`
-- at a time, `none` when it raises InvalidTokenError.
pub record Jwt : Type 0 where
  pub encode : Claims → Text
  pub decode : ℕ → Text → Option Claims

-- The two lifetimes of the configuration.
pub record Lifetimes : Type 0 where
  pub access_token_expire_minutes : ℕ
  pub refresh_token_expire_days : ℕ

-- `TokenPayload`
pub record TokenPayload : Type 0 where
  pub sub : ℕ

-- `credentials_exception`
abbrev pub credentials_exception {ℓ} : {A : Type ℓ} → Reply A
credentials_exception = http_exception 401 (codes "Could not validate credentials")

abbrev is_type : Text → Option Text → Bool
is_type t none = false
is_type t (some s) = text_eq s t

abbrev of_result : Result ℕ → Reply TokenPayload
of_result (ok n) = reply (record { sub = n })
of_result (err e) = unhandled e

-- `int(payload["sub"])`
abbrev read_sub : Option Text → Reply TokenPayload
read_sub none = unhandled Fault.key_error
read_sub (some s) = of_result (int s)

abbrev read_claims : Text → Option Claims → Reply TokenPayload
read_claims t none = credentials_exception
read_claims t (some payload) =
    if is_type t payload.token_type then read_sub payload.sub else credentials_exception

abbrev or_refuse : Option User → Reply User
or_refuse none = credentials_exception
or_refuse (some u) = reply u

abbrev is_admin : UserType → Bool
is_admin UserType.admin = true
is_admin UserType.user = false

-- Times are in seconds, which is what a token holds.
module _ (jwt : Jwt) (now : ℕ) where
  unfoldable pub create_token : TokenPayload → ℕ → Text → Text
  create_token payload expire token_type = jwt.encode (record {
    sub = some (str payload.sub);
    token_type = some token_type;
    exp = some (now + expire);
  })

  unfoldable pub create_access_token : Lifetimes → TokenPayload → Text
  unfolding create_token
  create_access_token config payload =
      create_token payload (config.access_token_expire_minutes * 60) (codes "access")

  unfoldable pub create_refresh_token : Lifetimes → TokenPayload → Text
  unfolding create_token
  create_refresh_token config payload =
      create_token payload (config.refresh_token_expire_days * 86400) (codes "refresh")

  unfoldable pub verify_token : Text → Text → Reply TokenPayload
  verify_token token token_type = read_claims token_type (jwt.decode now token)

  unfoldable pub refresh_access_token : Lifetimes → Text → Reply Text
  unfolding verify_token create_access_token
  refresh_access_token config refresh_token =
      verify_token refresh_token (codes "refresh") >>= λ token_data.
      reply (create_access_token config token_data)

  unfoldable pub get_current_user : Users → Text → Reply User
  unfolding verify_token
  get_current_user db access_token = verify_token access_token (codes "access") >>= λ token_data.
      or_refuse (first (has_id token_data.sub) db.rows)

  unfoldable pub get_current_admin : Users → Text → Reply User
  unfolding get_current_user
  get_current_admin db access_token = get_current_user db access_token >>= λ current_user.
      if is_admin current_user.user_type
      then reply current_user
      else http_exception 403 (codes "Not enough permissions")

  -- The body of the `try`, and the `except`.
  abbrev find_user : Users → Reply TokenPayload → Option User
  find_user db (reply token_data) = first (has_id token_data.sub) db.rows
  find_user db (http_exception status detail) = none
  find_user db (unhandled e) = none

  unfoldable pub get_optional_current_user : Users → Option Text → Option User
  unfolding verify_token
  get_optional_current_user db none = none
  get_optional_current_user db (some access_token) =
      if is_empty access_token
      then none
      else find_user db (verify_token access_token (codes "access"))

  abbrev keep_admin : Option User → Option User
  keep_admin none = none
  keep_admin (some u) = if is_admin u.user_type then some u else none

  unfoldable pub get_optional_current_admin : Users → Option Text → Option User
  unfolding get_optional_current_user
  get_optional_current_admin db access_token =
      keep_admin (get_optional_current_user db access_token)
