-- ===== src/Tests/ApiTests.antt =====
-- The theorems about the web service at small tables.
use byte_battles.Base.{
  All, Any, Bool, [], arith, false, if◌then◌else◌, leb, length, ltb, none, refl, some, true, ℕ,
  ◌&&◌, ◌↔◌, ◌∷◌, ◌≡◌, ◌≤◌,
}
use byte_battles.Base.Text.{Text, codes, text_eq}
use byte_battles.Base.Number.{int, read_digits}
use byte_battles.Database.{Submission, first, update_first, select}
use byte_battles.Api.Http.{reply, unhandled}
use byte_battles.Api.Accounts.{User, Users, has_id, has_username}
use byte_battles.Api.Tokens.{
  TokenPayload, credentials_exception, create_token, verify_token, get_current_user,
  get_current_admin, get_optional_current_admin,
}
use byte_battles.Api.Tokens.Lifetime.{verify_token-create_token, optional_admin_iff}
use byte_battles.Base.Exec.{Fault}
use byte_battles.Api.Http.{unhandled}
use byte_battles.Api.Accounts.{works, refresh_fails}
use byte_battles.Api.Auth.{UserCreate, Tokens, register, login}
use byte_battles.Base.Exec.{ok, err, Fault}
use byte_battles.Api.Profiles.{UserUpdate, Profile, update_current_user, get_user, given}
use byte_battles.Api.Profiles.Changes.{Updated, update_current_user-Updated}
use byte_battles.Api.Schemas.{
  is_letter, is_word, is_any, span, exists, validate_username, validate_password,
  validate_new_username, validate_new_password,
}
use byte_battles.Api.Schemas.Patterns.{EndsLine, validate_username_iff, validate_password_iff}
use byte_battles.Tests.Fixtures.{submission_7, world}
use byte_battles.Api.Submissions.{Listed, get_submissions, latest_first, insert_latest}
use byte_battles.Api.Submissions.Listing.{Shown, get_submissions-Shown}
use byte_battles.Api.Auth.Accounts.{register-login}
use byte_battles.Api.Auth.Registration.{Registered, register-Registered}
use byte_battles.Tests.ApiFixtures.{
  shift, add_char, cut, jwt, jwt-IsJwt, passwords, passwords-IsHash, lifetimes, ann, bob, cat,
  users, with_cat, users-IsKeyed,
}

abbrev form : UserCreate
form = record {
  username = codes "cat";
  email = codes "c@x.org";
  password = codes "secret3";
  conf_password = codes "secret3";
}

register_run : register passwords 100 5 form works users ≡ (reply cat, with_cat)
unfolding register first text_eq
register_run = refl

register-Registered_example :
    Registered passwords 100 5 form works users (register passwords 100 5 form works users)
register-Registered_example = register-Registered passwords 100 5 form works users

register-login_example :
    (tokens : Tokens) × (login passwords 100 jwt lifetimes
        (record { username = codes "cat"; password = codes "secret3" })
        with_cat
      ≡ reply tokens)
    × (get_current_user jwt 200 with_cat tokens.access_token ≡ reply cat)
    × (get_current_user jwt 200 with_cat tokens.refresh_token ≡ credentials_exception)
register-login_example =
    register-login passwords jwt lifetimes 100 200 5 form works users cat with_cat passwords-IsHash
      jwt-IsJwt users-IsKeyed register_run (omega arith)

abbrev payload : TokenPayload
payload = record { sub = 12 }

verify_token-create_token_example :
    verify_token jwt 200 (create_token jwt 100 payload 900 (codes "access")) (codes "refresh") ≡ (
      if ltb 200 1000 && text_eq (codes "access") (codes "refresh")
      then reply payload
      else credentials_exception)
verify_token-create_token_example =
    verify_token-create_token jwt 100 200 900 payload (codes "access") (codes "refresh") jwt-IsJwt

abbrev token : Text
token =
    jwt.encode
      (record { sub = some (codes "1"); token_type = some (codes "access"); exp = some 500 })

get_current_admin_run : get_current_admin jwt 100 users token ≡ reply ann
unfolding get_current_admin get_current_user verify_token text_eq int first read_digits cut shift
    add_char
get_current_admin_run = refl

optional_admin_iff_example :
    (get_optional_current_admin jwt 100 users (some token) ≡ some ann)
    ↔ (get_current_admin jwt 100 users token ≡ reply ann)
optional_admin_iff_example = optional_admin_iff jwt 100 users token ann refl

-- Bob takes a new name and keeps his e-mail.
abbrev updates : UserUpdate
updates = record { username = codes "bo"; email = []; password = []; conf_password = [] }

update_current_user_run : update_current_user passwords 5 updates bob works users ≡ (
  reply (record bob { username = codes "bo" }),
  record { rows = ann ∷ record bob { username = codes "bo" } ∷ []; next_id = 3 },
)
unfolding update_current_user first update_first text_eq
update_current_user_run = refl

bob_found : first (has_id 2) users.rows ≡ some bob
unfolding first
bob_found = refl

update_current_user-Updated_example :
    Updated passwords 5 updates bob works users
      (update_current_user passwords 5 updates bob works users)
update_current_user-Updated_example =
    update_current_user-Updated passwords 5 updates bob works users users-IsKeyed bob_found

own_profile :
    get_user (codes "bob") users (some bob)
    ≡ reply (Profile.user_response (codes "bob") (codes "b@x.org") false 60)
unfolding get_user text_eq
own_profile = refl

-- A verified user's profile, asked for by another.
abbrev verified : Users
verified = record { rows = record ann { is_verified = true } ∷ []; next_id = 3 }

other_profile : get_user (codes "ann") verified (some bob) ≡ unhandled Fault.value_error
unfolding get_user text_eq first
other_profile = refl

-- A name with a newline behind it.
abbrev odd_name : Text
odd_name = codes "ab_\n"

odd_name_run : validate_username odd_name ≡ ok odd_name
unfolding validate_username span
odd_name_run = refl

validate_username_iff_example : (validate_username odd_name ≡ ok odd_name) ↔ (
    (name : Text) × All (λ c. is_word c ≡ true) name
    × (3 ≤ length name)
    × (length name ≤ 20)
    × EndsLine name odd_name)
validate_username_iff_example = validate_username_iff odd_name

abbrev is_ascii_digit : ℕ → Bool
is_ascii_digit c = leb 48 c && leb c 57

weak_password_run : validate_password is_ascii_digit (codes "12345678") ≡ err Fault.value_error
unfolding validate_password span exists
weak_password_run = refl

validate_password_iff_example :
    (validate_password is_ascii_digit (codes "secret 12") ≡ ok (codes "secret 12")) ↔ (
      (line : Text) × All (λ c. is_any c ≡ true) line
      × Any (λ c. is_letter c ≡ true) line
      × Any (λ c. is_ascii_digit c ≡ true) line
      × (8 ≤ length line)
      × EndsLine line (codes "secret 12"))
validate_password_iff_example = validate_password_iff is_ascii_digit (codes "secret 12")

new_password_run :
    (validate_new_password is_ascii_digit none ≡ ok none)
    × (validate_new_password is_ascii_digit (some (codes "12345678")) ≡ err Fault.value_error)
    × (validate_new_username (some (codes "ab")) ≡ err Fault.value_error)
unfolding validate_new_password validate_new_username validate_username validate_password span
    exists
new_password_run = (refl, refl, refl)

-- Ann's submission to a visible problem, and one to a problem that is not there any more.
abbrev posted : Submission
posted = submission_7

abbrev gone : Submission
gone = record submission_7 { id = 8; problem_id = codes "P2"; submitted_at = 80 }

abbrev request : Listed
request = record { problem_id = []; username = codes "ann"; page = 1; limit = 20 }

get_submissions_run :
    get_submissions world.db.problems (gone ∷ posted ∷ []) users request none ≡ reply (posted ∷ [])
unfolding get_submissions latest_first insert_latest first select text_eq
get_submissions_run = refl

get_submissions-Shown_example :
    (owner : User) × ((if given (codes "ann")
        then first (has_username (codes "ann")) users.rows
        else none)
      ≡ some owner)
    × All (Shown world.db.problems owner) (posted ∷ [])
    × (length (posted ∷ []) ≤ 20)
get_submissions-Shown_example =
    get_submissions-Shown world.db.problems (gone ∷ posted ∷ []) users request none (posted ∷ [])
      get_submissions_run

-- The row is stored, and the load behind the commit fails.
unanswered_run :
    register passwords 100 5 form (refresh_fails Fault.external) users
    ≡ (unhandled Fault.external, with_cat)
unfolding register first text_eq
unanswered_run = refl
