-- ===== src/Api/Profiles/Columns.antt =====
-- How each of the changes that a request asks for may end.
use byte_battles.Base.{
  ◌≡◌, refl, sym, ◌≢◌, ◌⊎◌, inl, inr, Bool, true, false, [], ◌∷◌, if◌then◌else◌, Bool-cases,
  Option-cases, Any, Any-map,
}
use byte_battles.Base.Text.{Text, codes, text_eq, text_eq_iff}
use byte_battles.Api.Http.{reply, http_exception}
use byte_battles.Api.Accounts.{User, Users, has_username, has_email, any_user}
use byte_battles.Database.{first}
use byte_battles.Database.Queries.{first-some}
use byte_battles.Api.Accounts.Uniqueness.{text_eq-false}
use byte_battles.Api.Auth.{Passwords}
use byte_battles.Api.Profiles.{given, set_username, set_email, set_password}

abbrev pub chosen : Text → Text → Text
chosen new old = if given new then new else old

abbrev pub new_hash : (passwords : Passwords) → passwords.Salt → Text → User → Text
new_hash passwords salt password u =
    if given password then passwords.hash salt password else u.password_hash

-- A new value that some row has.
abbrev pub IsTaken : (User → Text) → Text → User → Users → Type 0
IsTaken column new u db = (column u ≢ new) × Any (λ v. column v ≡ new) db.rows

any_user-Any :
    (test : User → Bool) (db : Users) → any_user test db ≡ true → Any (λ v. test v ≡ true) db.rows
any_user-Any test db h = elim (Option-cases (first test db.rows)) [
  | inl e ↦ absurd (let k = rw e at h in cc k)
  | inr (u, e) ↦ first-some test db.rows u e
]

pub set_username-cases :
    (db : Users) (name : Text) (u : User)
    → ((detail : Text) × (set_username db name u ≡ http_exception 409 detail)
        × IsTaken (λ v. v.username) name u db)
      ⊎ ((n : Text) × (set_username db name u ≡ reply (record u { username = n }))
          × (n ≡ chosen name u.username)
          × ((n ≡ u.username) ⊎ (any_user (has_username n) db ≡ false)))
set_username-cases db name u = elim (Bool-cases (given name)) [
  | inr e ↦ inr (u.username, rw e refl, rw e refl, inl refl)
  | inl e ↦ elim (Bool-cases (text_eq u.username name)) [
    | inl q ↦ inr (name, rw (e, q) refl, rw e refl, inl (sym ((text_eq_iff u.username name).0 q)))
    | inr q ↦ elim (Bool-cases (any_user (has_username name) db)) [
      | inl a ↦ inl (
        codes "username already in use",
        rw (e, q, a) refl,
        (
          text_eq-false u.username name q,
          Any-map (λ v (k : has_username name v ≡ true). (text_eq_iff v.username name).0 k) db.rows
              (any_user-Any (has_username name) db a),
        ),
      )
      | inr a ↦ inr (name, rw (e, q, a) refl, rw e refl, inr a)
    ]
  ]
]

pub set_email-cases :
    (db : Users) (email : Text) (u : User)
    → ((detail : Text) × (set_email db email u ≡ http_exception 409 detail)
        × IsTaken (λ v. v.email) email u db)
      ⊎ ((n : Text) × (set_email db email u ≡ reply (record u { email = n }))
          × (n ≡ chosen email u.email)
          × ((n ≡ u.email) ⊎ (any_user (has_email n) db ≡ false)))
set_email-cases db email u = elim (Bool-cases (given email)) [
  | inr e ↦ inr (u.email, rw e refl, rw e refl, inl refl)
  | inl e ↦ elim (Bool-cases (text_eq u.email email)) [
    | inl q ↦ inr (email, rw (e, q) refl, rw e refl, inl (sym ((text_eq_iff u.email email).0 q)))
    | inr q ↦ elim (Bool-cases (any_user (has_email email) db)) [
      | inl a ↦ inl (
        codes "email already in use",
        rw (e, q, a) refl,
        (
          text_eq-false u.email email q,
          Any-map (λ v (k : has_email email v ≡ true). (text_eq_iff v.email email).0 k) db.rows
              (any_user-Any (has_email email) db a),
        ),
      )
      | inr a ↦ inr (email, rw (e, q, a) refl, rw e refl, inr a)
    ]
  ]
]

pub set_password-cases :
    (passwords : Passwords) (salt : passwords.Salt) (password conf : Text) (u : User)
    → ((detail : Text) × (set_password passwords salt password conf u ≡ http_exception 400 detail)
        × (password ≢ conf))
      ⊎ ((set_password passwords salt password conf u
            ≡ reply (record u { password_hash = new_hash passwords salt password u }))
          × (password ≡ conf))
set_password-cases passwords salt [] [] u = inr (refl, refl)
set_password-cases passwords salt [] (c ∷ conf) u = inl (codes "Bad Request", refl, λ q. cc q)
set_password-cases passwords salt (c ∷ password) [] u = inl (codes "Bad Request", refl, λ q. cc q)
set_password-cases passwords salt (c ∷ password) (d ∷ conf) u =
    elim (Bool-cases (text_eq (c ∷ password) (d ∷ conf))) [
      | inl q ↦ inr (rw q refl, (text_eq_iff (c ∷ password) (d ∷ conf)).0 q)
      | inr q ↦ inl (
        codes "confirm password and given password don't match",
        rw q refl,
        text_eq-false (c ∷ password) (d ∷ conf) q,
      )
    ]
