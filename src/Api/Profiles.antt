-- ===== src/Api/Profiles.antt =====
-- api/app/routes/users.py: what a user may read and change of the accounts.
pub mod Columns
pub mod Clashes
pub mod Changes
use byte_battles.Base.{ℕ, Bool, not, ◌&&◌, ◌||◌, Option, none, some, if◌then◌else◌, is_empty}
use byte_battles.Base.Text.{Text, codes, text_eq}
use byte_battles.Base.Exec.{Fault}
use byte_battles.Database.{first}
use byte_battles.Api.Http.{Reply, reply, http_exception, unhandled, ◌>>=◌}
use byte_battles.Api.Accounts.{
  User, Users, Connection, has_username, has_email, any_user, update_user, delete_user,
}
use byte_battles.Api.Auth.{Passwords}

-- `UserUpdate`, after its validators. The route tests its fields for truth alone, so that a field
-- that is not given is the empty text.
pub record UserUpdate : Type 0 where
  pub username : Text
  pub email : Text
  pub password : Text
  pub conf_password : Text

abbrev pub given : Text → Bool
given t = not (is_empty t)

abbrev pub set_username : Users → Text → User → Reply User
set_username db username u =
    if given username
    then (if not (text_eq u.username username) && any_user (has_username username) db
        then http_exception 409 (codes "username already in use")
        else reply (record u { username = username }))
    else reply u

abbrev pub set_email : Users → Text → User → Reply User
set_email db email u =
    if given email
    then (if not (text_eq u.email email) && any_user (has_email email) db
        then http_exception 409 (codes "email already in use")
        else reply (record u { email = email }))
    else reply u

-- What a raise leaves of the session is rolled back when the session is closed.
abbrev pub commit_user : Reply User → Connection → Users → Reply User × Users
commit_user (reply u) connection db = update_user u connection db
commit_user (http_exception status detail) connection db = (http_exception status detail, db)
commit_user (unhandled e) connection db = (unhandled e, db)

module _ (passwords : Passwords) (salt : passwords.Salt) where
  abbrev pub set_password : Text → Text → User → Reply User
  set_password password conf_password u =
      if given password && given conf_password
      then (if text_eq password conf_password
          then reply (record u { password_hash = passwords.hash salt password })
          else http_exception 400 (codes "confirm password and given password don't match"))
      else (if given password || given conf_password
          then http_exception 400 (codes "Bad Request")
          else reply u)

  unfoldable pub update_current_user : UserUpdate → User → Connection → Users → Reply User × Users
  update_current_user updates current_user connection db =
      commit_user
        (set_password updates.password updates.conf_password current_user
          >>= set_username db updates.username
          >>= set_email db updates.email)
        connection db

-- The rows of other tables that go with the user are not in this table.
unfoldable pub delete_current_user : User → Users → Users
delete_current_user current_user db = delete_user current_user db

-- `UserResponse` and `UserResponseUnknown`
pub data Profile : Type 0 where
  user_response : (username email : Text) (is_verified : Bool) (created_at : ℕ) → Profile
  user_response_unknown : (username : Text) (is_verified : Bool) (created_at : ℕ) → Profile

-- The constructor of `UserResponseUnknown`: a field that is not given, none having a default, makes
-- pydantic raise a ValidationError, which is a ValueError.
abbrev make_unknown : Text → Option Bool → ℕ → Reply Profile
make_unknown username none created_at = unhandled Fault.value_error
make_unknown username (some is_verified) created_at =
    reply (Profile.user_response_unknown username is_verified created_at)

abbrev verified_named : Text → User → Bool
verified_named username u = has_username username u && u.is_verified

abbrev show_unknown : Option User → Reply Profile
show_unknown none = http_exception 404 (codes "User with the given username was not found")
show_unknown (some user) = make_unknown user.username none user.created_at

unfoldable pub get_user : Text → Users → Option User → Reply Profile
get_user username db none = show_unknown (first (verified_named username) db.rows)
get_user username db (some u) =
    if has_username username u
    then reply (Profile.user_response u.username u.email u.is_verified u.created_at)
    else show_unknown (first (verified_named username) db.rows)
