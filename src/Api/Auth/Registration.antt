-- ===== src/Api/Auth/Registration.antt =====
-- What `register` of api/app/routes/auth.py answers, and what it leaves in the table of users.
use byte_battles.Database.Queries.{first-none, first-some}
use byte_battles.Base.{
  ℕ, suc, ◌≡◌, refl, ◌≢◌, ◌⊎◌, inl, inr, true, false, [], ◌∷◌, ◌++◌, Bool-cases, Option-cases, All,
  Any, All-map, Any-map,
}
use byte_battles.Base.Text.{codes, text_eq, text_eq_iff}
use byte_battles.Base.Exec.{Fault}
use byte_battles.Database.{first}
use byte_battles.Api.Http.{Reply, reply, http_exception, unhandled}
use byte_battles.Api.Accounts.{
  User, Users, Connection, works, commit_fails, refresh_fails, commit_row, has_username, has_email,
  new_row,
}
use byte_battles.Api.Accounts.Uniqueness.{text_eq-false}
use byte_battles.Api.Auth.{Passwords, UserCreate, register}

-- The passwords agree, and no row has the name or the e-mail.
abbrev IsNew : UserCreate → Users → Type 0
IsNew new_user db =
    (new_user.password ≡ new_user.conf_password)
    × All (λ u. u.username ≢ new_user.username) db.rows
    × All (λ u. u.email ≢ new_user.email) db.rows

-- How a registration may end, and on what condition.
pub data Registered (passwords : Passwords) (now : ℕ) (salt : passwords.Salt)
    (new_user : UserCreate) (connection : Connection) (db : Users)
    : Reply User × Users → Type 0 where
  mismatch :
      new_user.password ≢ new_user.conf_password
      → Registered passwords now salt new_user connection db
          (http_exception 400 (codes "confirm password and given password don't match"), db)
  taken :
      new_user.password ≡ new_user.conf_password
      → Any (λ u. (u.username ≡ new_user.username) ⊎ (u.email ≡ new_user.email)) db.rows
      → Registered passwords now salt new_user connection db
          (http_exception 409 (codes "user with this username or email already exists"), db)
  created :
      IsNew new_user db
      → connection ≡ works
      → (row : User)
      → row
        ≡ new_row new_user.username new_user.email
            (passwords.hash salt new_user.password)
            now
            db.next_id
      → Registered passwords now salt new_user connection db
          (reply row, record { rows = db.rows ++ row ∷ []; next_id = suc db.next_id })
  unstored :
      IsNew new_user db
      → (e : Fault) → connection ≡ commit_fails e
      → Registered passwords now salt new_user connection db (unhandled e, db)
  unanswered :
      IsNew new_user db
      → (e : Fault) → connection ≡ refresh_fails e
      → (row : User)
      → row
        ≡ new_row new_user.username new_user.email
            (passwords.hash salt new_user.password)
            now
            db.next_id
      → Registered passwords now salt new_user connection db
          (unhandled e, record { rows = db.rows ++ row ∷ []; next_id = suc db.next_id })

commit_row-Registered :
    (passwords : Passwords) (now : ℕ) (salt : passwords.Salt) (new_user : UserCreate)
    (connection : Connection) (db : Users)
    → IsNew new_user db
    → let row =
        new_row new_user.username new_user.email
          (passwords.hash salt new_user.password)
          now
          db.next_id in
      Registered passwords now salt new_user connection db (
        commit_row connection row db
          (record { rows = db.rows ++ row ∷ []; next_id = suc db.next_id }))
commit_row-Registered passwords now salt new_user works db h = Registered.created h refl _ refl
commit_row-Registered passwords now salt new_user (commit_fails e) db h =
    Registered.unstored h e refl
commit_row-Registered passwords now salt new_user (refresh_fails e) db h =
    Registered.unanswered h e refl _ refl

-- A registration ends with 400 exactly when the two passwords differ; with 409 when they agree and
-- some row has the name or the e-mail, both with the table unchanged; and otherwise, when no row
-- has either, with the new row appended and returned where the connection works, with an exception
-- and the table unchanged where the commit fails, and with an exception and the new row appended
-- where the load behind the commit fails. So the database never refuses the row for a taken
-- column.
pub register-Registered :
    (passwords : Passwords) (now : ℕ) (salt : passwords.Salt) (new_user : UserCreate)
    (connection : Connection) (db : Users)
    → Registered passwords now salt new_user connection db
        (register passwords now salt new_user connection db)
unfolding register
register-Registered passwords now salt new_user connection db =
    elim (Bool-cases (text_eq new_user.password new_user.conf_password)) [
      | inl e ↦
          let same : new_user.password ≡ new_user.conf_password =
            (text_eq_iff new_user.password new_user.conf_password).0 e in
          elim (Option-cases (first (has_username new_user.username) db.rows)) [
            | inl m ↦ elim (Option-cases (first (has_email new_user.email) db.rows)) [
              | inl n ↦
                  rw (e, m, n)
                    (rw (m, n)
                      (commit_row-Registered passwords now salt new_user connection db (
                        same,
                        All-map
                            (λ u (k : has_username new_user.username u ≡ false).
                              text_eq-false u.username new_user.username k)
                            db.rows (first-none (has_username new_user.username) db.rows m),
                        All-map
                            (λ u (k : has_email new_user.email u ≡ false).
                              text_eq-false u.email new_user.email k)
                            db.rows (first-none (has_email new_user.email) db.rows n),
                      )))
              | inr (v, n) ↦
                  rw (e, m, n)
                    (Registered.taken same (
                      Any-map
                        (λ u (k : has_email new_user.email u ≡ true).
                          inr ((text_eq_iff u.email new_user.email).0 k))
                        db.rows (first-some (has_email new_user.email) db.rows v n)))
            ]
            | inr (v, m) ↦
                rw (e, m)
                  (Registered.taken same (
                    Any-map
                      (λ u (k : has_username new_user.username u ≡ true).
                        inl ((text_eq_iff u.username new_user.username).0 k))
                      db.rows (first-some (has_username new_user.username) db.rows v m)))
          ]
      | inr e ↦
          rw e (Registered.mismatch (text_eq-false new_user.password new_user.conf_password e))
    ]
