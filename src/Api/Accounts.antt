-- ===== src/Api/Accounts.antt =====
-- api/app/models/user.py: the table of users, with its constraints.
pub mod Uniqueness
pub mod Updates
use byte_battles.Base.{
  ℕ, suc, Bool, true, false, not, ◌&&◌, ◌||◌, Option, none, some, List, [], ◌∷◌, ◌++◌, ◌==◌,
  if◌then◌else◌,
}
use byte_battles.Base.Text.{Text, text_eq}
use byte_battles.Base.Exec.{Fault}
use byte_battles.Enums.{UserType}
use byte_battles.Database.{first, update_first, select}
use byte_battles.Api.Http.{Reply, reply, unhandled}

-- `User`, without its submissions.
pub record User : Type 0 where
  pub id : ℕ
  pub username : Text
  pub email : Text
  pub password_hash : Text
  pub is_verified : Bool
  pub created_at : ℕ
  pub user_type : UserType

-- The rows, and the next value of the primary key's sequence.
pub record Users : Type 0 where
  pub rows : List User
  pub next_id : ℕ

abbrev pub has_username : Text → User → Bool
has_username name u = text_eq u.username name

abbrev pub has_email : Text → User → Bool
has_email email u = text_eq u.email email

abbrev pub has_id : ℕ → User → Bool
has_id id u = u.id == id

-- The row that `User(username=..., email=..., password_hash=...)` becomes, with the columns' defaults.
abbrev pub new_row : Text → Text → Text → (now id : ℕ) → User
new_row username email password_hash now id = record {
  id = id;
  username = username;
  email = email;
  password_hash = password_hash;
  is_verified = false;
  created_at = now;
  user_type = UserType.user;
}

abbrev is_some : Option User → Bool
is_some none = false
is_some (some u) = true

abbrev pub any_user : (User → Bool) → Users → Bool
any_user test db = is_some (first test db.rows)

-- How the connection answers a `commit()` and the `refresh(...)` behind it. A commit that raises has
-- stored nothing; one that raises though it has stored counts as a failing refresh.
pub data Connection : Type 0 where
  works : Connection
  commit_fails refresh_fails : Fault → Connection

-- A row that the database accepts, and the table without and with it.
abbrev pub commit_row : Connection → User → (before after : Users) → Reply User × Users
commit_row works u before after = (reply u, after)
commit_row (commit_fails e) u before after = (unhandled e, before)
commit_row (refresh_fails e) u before after = (unhandled e, after)

-- `db.add(...)`, `db.commit()` and `db.refresh(...)` of a new row. The columns that are declared `unique` make the
-- database refuse a row whose username or e-mail is there already.
abbrev pub insert_user : Text → Text → Text → ℕ → Connection → Users → Reply User × Users
insert_user username email password_hash now connection db =
    let row = new_row username email password_hash now db.next_id in
    if any_user (has_username username) db || any_user (has_email email) db
    then (unhandled Fault.external, db)
    else commit_row connection row db
        (record { rows = db.rows ++ row ∷ []; next_id = suc db.next_id })

-- Another row with a value that must be unique.
abbrev pub clashes : User → User → Bool
clashes u v = not (has_id u.id v) && (has_username u.username v || has_email u.email v)

-- `db.commit()` and `db.refresh(...)` after the columns of a row were changed, the row with its new columns given.
abbrev pub update_user : User → Connection → Users → Reply User × Users
update_user u connection db =
    if any_user (clashes u) db
    then (unhandled Fault.external, db)
    else commit_row connection u db
        (record db { rows = update_first (has_id u.id) (λ v. u) db.rows })

-- `db.delete(...)` and `db.commit()`, where the commit returns: one that raises leaves the table.
abbrev pub delete_user : User → Users → Users
delete_user u db = record db { rows = select (λ v. not (has_id u.id v)) db.rows }
