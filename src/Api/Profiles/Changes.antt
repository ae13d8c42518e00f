-- ===== src/Api/Profiles/Changes.antt =====
-- What a request to change one's own account does to the table of users, and what a profile shows.
use byte_battles.Database.Queries.{first-satisfies}
use byte_battles.Base.{◌<◌, ◌≡◌, refl, ◌≢◌, ◌⊎◌, inl, inr, Option, none, some, arith}
use byte_battles.Base.Text.{Text, text_eq_iff}
use byte_battles.Base.Exec.{Fault}
use byte_battles.Database.{first, update_first}
use byte_battles.Api.Http.{Reply, reply, http_exception, unhandled, ◌>>=◌}
use byte_battles.Api.Accounts.{
  User, Users, Connection, works, commit_fails, refresh_fails, commit_row, has_id,
}
use byte_battles.Api.Accounts.Uniqueness.{IsKeyed}
use byte_battles.Api.Accounts.Updates.{update_user-IsKeyed}
use byte_battles.Api.Auth.{Passwords}
use byte_battles.Api.Profiles.Clashes.{clashes-changed}
use byte_battles.Api.Profiles.Columns.{
  chosen, new_hash, IsTaken, set_username-cases, set_email-cases, set_password-cases,
}
use byte_battles.Api.Profiles.{
  UserUpdate, Profile, set_username, set_email, set_password, commit_user, update_current_user,
  get_user,
}

-- get_user returns a profile only where the current user is the one with that name: it never shows
-- the profile of another user.
get_user-own :
    (username : Text) (db : Users) (current_user : Option User) (profile : Profile)
    → get_user username db current_user ≡ reply profile
    → (u : User) × (current_user ≡ some u) × (u.username ≡ username)
unfolding get_user
get_user-own username db none profile h = absurd (ground (arith, h))
get_user-own username db (some u) profile h =
    (u, refl, (text_eq_iff u.username username).0 (ground (arith, h)))

-- The row after a change.
abbrev pub IsChanged : (passwords : Passwords) → passwords.Salt → UserUpdate → User → User → Type 0
IsChanged passwords salt updates me u = u ≡ record me {
  username = chosen updates.username me.username;
  email = chosen updates.email me.email;
  password_hash = new_hash passwords salt updates.password me;
}

-- How a change of the user's own account may end.
pub data Updated (passwords : Passwords) (salt : passwords.Salt) (updates : UserUpdate) (me : User)
    (connection : Connection) (db : Users) : Reply User × Users → Type 0 where
  mismatch :
      (detail : Text)
      → updates.password ≢ updates.conf_password
      → Updated passwords salt updates me connection db (http_exception 400 detail, db)
  taken :
      (detail : Text)
      → updates.password ≡ updates.conf_password
      → IsTaken (λ v. v.username) updates.username me db
        ⊎ IsTaken (λ v. v.email) updates.email me db
      → Updated passwords salt updates me connection db (http_exception 409 detail, db)
  updated :
      updates.password ≡ updates.conf_password
      → connection ≡ works
      → (u : User) → IsChanged passwords salt updates me u
      → Updated passwords salt updates me connection db
          (reply u, record db { rows = update_first (has_id u.id) (λ v. u) db.rows })
  unstored :
      updates.password ≡ updates.conf_password
      → (e : Fault) → connection ≡ commit_fails e
      → Updated passwords salt updates me connection db (unhandled e, db)
  unanswered :
      updates.password ≡ updates.conf_password
      → (e : Fault) → connection ≡ refresh_fails e
      → (u : User) → IsChanged passwords salt updates me u
      → Updated passwords salt updates me connection db
          (unhandled e, record db { rows = update_first (has_id u.id) (λ v. u) db.rows })

commit_row-Updated :
    (passwords : Passwords) (salt : passwords.Salt) (updates : UserUpdate) (me u : User)
    (connection : Connection) (db : Users)
    → updates.password ≡ updates.conf_password
    → IsChanged passwords salt updates me u
    → Updated passwords salt updates me connection db (
        commit_row connection u db
          (record db { rows = update_first (has_id u.id) (λ v. u) db.rows }))
commit_row-Updated passwords salt updates me u works db h k = Updated.updated h refl u k
commit_row-Updated passwords salt updates me u (commit_fails e) db h k = Updated.unstored h e refl
commit_row-Updated passwords salt updates me u (refresh_fails e) db h k =
    Updated.unanswered h e refl u k

-- From a table where ids, names and e-mails are distinct, the sequence is ahead and the user is
-- found by its id, update_current_user answers 400 and leaves the table exactly when the two
-- passwords differ, one not given included; answers 409 and leaves the table only where another
-- value was asked for the name or the e-mail and some row has it; and otherwise puts in place of
-- the user's row the one with the name and the e-mail that were given and the hash of the
-- password, if it was given, and returns it where the connection works; where the commit fails it
-- raises and leaves the table, and where the load behind the commit fails it raises with the row
-- changed. So the database never refuses the row for a taken column.
pub update_current_user-Updated :
    (passwords : Passwords) (salt : passwords.Salt) (updates : UserUpdate) (me : User)
    (connection : Connection) (db : Users)
    → IsKeyed db
    → first (has_id me.id) db.rows ≡ some me
    → Updated passwords salt updates me connection db
        (update_current_user passwords salt updates me connection db)
unfolding update_current_user
update_current_user-Updated passwords salt updates me connection db inv found =
    let hash = new_hash passwords salt updates.password me in
    elim (set_password-cases passwords salt updates.password updates.conf_password me) [
      | inl (detail, e, d) ↦ rw e (Updated.mismatch detail d)
      | inr (e, s) ↦
          elim (set_username-cases db updates.username (record me { password_hash = hash })) [
            | inl (detail, f, t) ↦ rw (e, f) (Updated.taken detail s (inl t))
            | inr (name, f, p, h) ↦
                elim (set_email-cases db updates.email
                  (record me { username = name; password_hash = hash })) [
                    | inl (detail, g, t) ↦ rw (e, f, g) (Updated.taken detail s (inr t))
                    | inr (email, g, q, k) ↦
                        let u = record me {
                          username = name;
                          email = email;
                          password_hash = hash;
                        } in
                        rw (e, f, g, clashes-changed name email hash me db inv found h k)
                          (commit_row-Updated passwords salt updates me u connection db s
                            (rw (p, q) refl))
                  ]
          ]
    ]

commit_user-IsKeyed :
    (r : Reply User) (connection : Connection) (db : Users)
    → IsKeyed db
    → ((u : User) → r ≡ reply u → u.id < db.next_id)
    → IsKeyed (commit_user r connection db).1
commit_user-IsKeyed (reply u) connection db inv h =
    update_user-IsKeyed u connection db inv (h u refl)
commit_user-IsKeyed (http_exception status detail) connection db inv h = inv
commit_user-IsKeyed (unhandled e) connection db inv h = inv

-- A changed row keeps its id.
changed-id :
    (passwords : Passwords) (salt : passwords.Salt) (updates : UserUpdate) (me : User) (db : Users)
    (u : User)
    → (set_password passwords salt updates.password updates.conf_password me
        >>= set_username db updates.username
        >>= set_email db updates.email)
      ≡ reply u
    → u.id ≡ me.id
changed-id passwords salt updates me db u h =
    let hash = new_hash passwords salt updates.password me in
    elim (set_password-cases passwords salt updates.password updates.conf_password me) [
      | inl (detail, e, d) ↦ absurd (let k = rw e at h in cc k)
      | inr (e, s) ↦
          let k = rw e at h in
          elim (set_username-cases db updates.username (record me { password_hash = hash })) [
            | inl (detail, f, t) ↦ absurd (let l = rw f at k in cc l)
            | inr (name, f, p, o) ↦
                let l = rw f at k in
                elim (set_email-cases db updates.email
                  (record me { username = name; password_hash = hash })) [
                    | inl (detail, g, t) ↦ absurd (let m = rw g at l in cc m)
                    | inr (email, g, q, r) ↦ let m = rw g at l in cc m
                  ]
          ]
    ]

-- From a table where ids, names and e-mails are distinct, the user is found by its id and the
-- sequence is ahead of every id, update_current_user leaves such ids, names and e-mails and such a
-- sequence on every path.
pub update_current_user-IsKeyed :
    (passwords : Passwords) (salt : passwords.Salt) (updates : UserUpdate) (me : User)
    (connection : Connection) (db : Users)
    → IsKeyed db
    → first (has_id me.id) db.rows ≡ some me
    → IsKeyed (update_current_user passwords salt updates me connection db).1
unfolding update_current_user
update_current_user-IsKeyed passwords salt updates me connection db inv found =
    commit_user-IsKeyed _ connection db inv (λ u e.
      let k : u.id ≡ me.id = changed-id passwords salt updates me db u e in
      let l : me.id < db.next_id =
        first-satisfies (λ v. v.id < db.next_id) (has_id me.id) db.rows me found inv.ahead in
      omega arith)
