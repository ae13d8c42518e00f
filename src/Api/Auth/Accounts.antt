-- ===== src/Api/Auth/Accounts.antt =====
-- That a registered account can be used.
use byte_battles.Database.Queries.{first-last}
use byte_battles.Base.{
  ℕ, suc, ◌+◌, ◌*◌, ◌<◌, ◌≡◌, refl, inl, inr, true, none, some, [], ◌∷◌, ◌++◌, arith, Bool-cases,
  Option-cases,
}
use byte_battles.Base.Text.{Text, text_eq, text_eq_iff}
use byte_battles.Database.{first}
use byte_battles.Api.Http.{reply}
use byte_battles.Api.Accounts.{
  User, Users, Connection, works, commit_fails, refresh_fails, commit_row, has_username, has_email,
  has_id, new_row,
}
use byte_battles.Api.Accounts.Uniqueness.{IsKeyed, insert_user-IsKeyed, id-fresh}
use byte_battles.Api.Tokens.{
  Jwt, Lifetimes, TokenPayload, credentials_exception, create_access_token, create_refresh_token,
  get_current_user,
}
use byte_battles.Api.Tokens.Lifetime.{verify-access_token, verify-refresh_token, IsJwt}
use byte_battles.Api.Auth.{
  Passwords, UserCreate, Credentials, Tokens, find_by_either, register, login,
}

-- What pwdlib documents: a password verifies against its hash, whatever the salt.
abbrev pub IsHash : Passwords → Type 0
IsHash passwords =
    (salt : passwords.Salt) (password : Text)
    → passwords.verify password (passwords.hash salt password) ≡ true

-- From a table where ids, names and e-mails are distinct and the sequence is ahead of every id,
-- register leaves such a table on every path.
pub register-IsKeyed :
    (passwords : Passwords) (now : ℕ) (salt : passwords.Salt) (new_user : UserCreate)
    (connection : Connection) (db : Users)
    → IsKeyed db
    → IsKeyed (register passwords now salt new_user connection db).1
unfolding register
register-IsKeyed passwords now salt new_user connection db inv =
    elim (Bool-cases (text_eq new_user.password new_user.conf_password)) [
      | inl e ↦ elim (Option-cases (find_by_either new_user.username new_user.email db)) [
        | inl n ↦ rw e (
            rw n (
              insert_user-IsKeyed new_user.username new_user.email
                (passwords.hash salt new_user.password) now connection db inv))
        | inr (u, n) ↦ rw e (rw n inv)
      ]
      | inr e ↦ rw e inv
    ]

commit_row-reply :
    (connection : Connection) (row u : User) (before after db' : Users)
    → commit_row connection row before after ≡ (reply u, db')
    → (u ≡ row) × (db' ≡ after)
commit_row-reply works row u before after db' h = (cc h, cc h)
commit_row-reply (commit_fails e) row u before after db' h = absurd (cc h)
commit_row-reply (refresh_fails e) row u before after db' h = absurd (cc h)

-- What a registration that returned a row found and wrote.
register-created :
    (passwords : Passwords) (now : ℕ) (salt : passwords.Salt) (new_user : UserCreate)
    (connection : Connection) (db : Users)
    → (u : User) (db' : Users) → register passwords now salt new_user connection db ≡ (reply u, db')
    → (first (has_username new_user.username) db.rows ≡ none)
      × (first (has_email new_user.email) db.rows ≡ none)
      × (u
          ≡ new_row new_user.username new_user.email
              (passwords.hash salt new_user.password)
              now
              db.next_id)
      × (db' ≡ record { rows = db.rows ++ u ∷ []; next_id = suc db.next_id })
unfolding register
register-created passwords now salt new_user connection db u db' h =
    elim (Option-cases (first (has_username new_user.username) db.rows)) [
      | inl m ↦ elim (Option-cases (first (has_email new_user.email) db.rows)) [
        | inl n ↦ elim (Bool-cases (text_eq new_user.password new_user.conf_password)) [
          | inl k ↦
              let x = rw (k, m, n) at h in
              let y = rw (m, n) at x in
              let (e, f) = commit_row-reply connection _ u db _ db' y in (m, n, e, rw e f)
          | inr k ↦ absurd (let x = rw k at h in cc x)
        ]
        | inr (v, n) ↦ absurd (ground (arith, h, m, n))
      ]
      | inr (v, m) ↦ absurd (ground (arith, h, m))
    ]

has_username_refl : (name : Text) (u : User) → u.username ≡ name → has_username name u ≡ true
has_username_refl name u e = (text_eq_iff u.username name).1 e

login-last :
    (passwords : Passwords) (now : ℕ) (jwt : Jwt) (config : Lifetimes) (cred : Credentials)
    (db : Users) (u : User)
    → first (has_username cred.username) db.rows ≡ some u
    → passwords.verify cred.password u.password_hash ≡ true
    → login passwords now jwt config cred db
      ≡ reply (record {
        access_token = create_access_token jwt now config (record { sub = u.id });
        refresh_token = create_refresh_token jwt now config (record { sub = u.id });
      })
unfolding login
login-last passwords now jwt config cred db u h k = rw h (rw k refl)

user-access_token :
    (jwt : Jwt) (config : Lifetimes) (now later : ℕ) (db : Users) (u : User)
    → IsJwt jwt
    → later < now + config.access_token_expire_minutes * 60
    → first (has_id u.id) db.rows ≡ some u
    → get_current_user jwt later db (create_access_token jwt now config (record { sub = u.id }))
      ≡ reply u
unfolding get_current_user
user-access_token jwt config now later db u law h k =
    rw (verify-access_token jwt config now later (record { sub = u.id }) law h) (rw k refl)

user-refresh_token :
    (jwt : Jwt) (config : Lifetimes) (now later : ℕ) (db : Users) (payload : TokenPayload)
    → IsJwt jwt
    → get_current_user jwt later db (create_refresh_token jwt now config payload)
      ≡ credentials_exception
unfolding get_current_user
user-refresh_token jwt config now later db payload law =
    rw (verify-refresh_token jwt config now later payload law) refl

-- Where PyJWT and pwdlib keep what they document, the table's unique columns are distinct and its
-- sequence is ahead, an account that was registered can be logged into with its name and password;
-- until its expiry the access token stands for the registered row, and the refresh token is
-- refused as an access token.
pub register-login :
    (passwords : Passwords) (jwt : Jwt) (config : Lifetimes) (now later : ℕ) (salt : passwords.Salt)
    (new_user : UserCreate) (connection : Connection) (db : Users) (u : User) (db' : Users)
    → IsHash passwords
    → IsJwt jwt
    → IsKeyed db
    → register passwords now salt new_user connection db ≡ (reply u, db')
    → later < now + config.access_token_expire_minutes * 60
    → (tokens : Tokens) × (login passwords now jwt config
          (record { username = new_user.username; password = new_user.password })
          db'
        ≡ reply tokens)
      × (get_current_user jwt later db' tokens.access_token ≡ reply u)
      × (get_current_user jwt later db' tokens.refresh_token ≡ credentials_exception)
register-login passwords jwt config now later salt new_user connection db u db' is_hash is_jwt inv h
      soon =
    let (m, n, e, f) = register-created passwords now salt new_user connection db u db' h in
    let row =
      new_row new_user.username new_user.email (passwords.hash salt new_user.password) now
        db.next_id in
    let by_name : first (has_username new_user.username) db'.rows ≡ some u = rw f (
      first-last (has_username new_user.username) db.rows u m
        (rw e (has_username_refl new_user.username row refl))) in
    let by_id : first (has_id u.id) db'.rows ≡ some u =
      rw f (first-last (has_id u.id) db.rows u (rw e (id-fresh db inv)) (ground arith)) in
    (
      record {
        access_token = create_access_token jwt now config (record { sub = u.id });
        refresh_token = create_refresh_token jwt now config (record { sub = u.id });
      },
      login-last passwords now jwt config
          (record { username = new_user.username; password = new_user.password }) db' u by_name
          (rw e (is_hash salt new_user.password)),
      user-access_token jwt config now later db' u is_jwt soon by_id,
      user-refresh_token jwt config now later db' (record { sub = u.id }) is_jwt,
    )
