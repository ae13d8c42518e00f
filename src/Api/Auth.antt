-- ===== src/Api/Auth.antt =====
-- api/app/routes/auth.py and utils/password_manager.py: registration and login.
pub mod Accounts
pub mod Registration
use byte_battles.Base.{ℕ, Bool, Option, none, some, if◌then◌else◌}
use byte_battles.Base.Text.{Text, codes, text_eq}
use byte_battles.Database.{first}
use byte_battles.Api.Http.{Reply, reply, http_exception}
use byte_battles.Api.Accounts.{User, Users, Connection, has_username, has_email, insert_user}
use byte_battles.Api.Tokens.{
  Jwt, Lifetimes, TokenPayload, create_access_token, create_refresh_token, refresh_access_token,
}

-- pwdlib behind utils/password_manager.py: `hash` draws a salt each time.
pub record Passwords : Type 1 where
  pub Salt : Type 0
  pub hash : Salt → Text → Text
  pub verify : Text → Text → Bool

-- `UserCreate`, after its validators.
pub record UserCreate : Type 0 where
  pub username : Text
  pub email : Text
  pub password : Text
  pub conf_password : Text

-- `OAuth2PasswordRequestForm`
pub record Credentials : Type 0 where
  pub username : Text
  pub password : Text

pub record Tokens : Type 0 where
  pub access_token : Text
  pub refresh_token : Text

-- The first row that passes the one test, else the first that passes the other.
abbrev or_first : (User → Bool) → Users → Option User → Option User
or_first test db none = first test db.rows
or_first test db (some u) = some u

abbrev pub find_by_either : Text → Text → Users → Option User
find_by_either username email db =
    or_first (has_email email) db (first (has_username username) db.rows)

abbrev unauthorized {ℓ} : {A : Type ℓ} → Reply A
unauthorized = http_exception 401 (codes "Invalid username or password")

module _ (passwords : Passwords) (now : ℕ) where
  abbrev register_unless :
      Option User → passwords.Salt → UserCreate → Connection → Users → Reply User × Users
  register_unless (some user) salt new_user connection db =
      (http_exception 409 (codes "user with this username or email already exists"), db)
  register_unless none salt new_user connection db =
      insert_user new_user.username new_user.email (passwords.hash salt new_user.password) now
        connection db

  unfoldable pub register : passwords.Salt → UserCreate → Connection → Users → Reply User × Users
  register salt new_user connection db =
      if text_eq new_user.password new_user.conf_password
      then register_unless (find_by_either new_user.username new_user.email db) salt new_user
          connection db
      else (http_exception 400 (codes "confirm password and given password don't match"), db)

  -- What `verify` answers for the dummy password is not looked at.
  abbrev login_as : Jwt → Lifetimes → Text → Option User → Reply Tokens
  login_as jwt config password none = unauthorized
  login_as jwt config password (some user) =
      if passwords.verify password user.password_hash
      then (let payload : TokenPayload = record { sub = user.id } in
          reply (record {
            access_token = create_access_token jwt now config payload;
            refresh_token = create_refresh_token jwt now config payload;
          }))
      else unauthorized

  unfoldable pub login : Jwt → Lifetimes → Credentials → Users → Reply Tokens
  login jwt config cred db =
      login_as jwt config cred.password (find_by_either cred.username cred.username db)

-- `refresh`
unfoldable refresh : Jwt → Lifetimes → (now : ℕ) → Text → Reply Text
unfolding refresh_access_token
refresh jwt config now refresh_token = refresh_access_token jwt now config refresh_token
