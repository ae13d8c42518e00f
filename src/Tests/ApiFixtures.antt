-- ===== src/Tests/ApiFixtures.antt =====
-- What the tests of the web service share. A password is its own hash; a token holds its expiry time
-- and its texts, each with what ends it.
use byte_battles.Base.{
  Option, [], arith, if◌then◌else◌, ltb, none, refl, some, suc, zero, ℕ, ◌∷◌, ◌≡◌,
}
use byte_battles.Base.Text.{Text, codes, text_eq, text_eq_iff}
use byte_battles.Enums.{UserType}
use byte_battles.Api.Accounts.{User, Users, new_row}
use byte_battles.Api.Accounts.Uniqueness.{IsKeyed}
use byte_battles.Api.Tokens.{Claims, Jwt, Lifetimes}
use byte_battles.Api.Tokens.Lifetime.{IsJwt}
use byte_battles.Api.Auth.{Passwords}
use byte_battles.Api.Auth.Accounts.{IsHash}

unfoldable pub shift : Text → Text → Text
shift [] rest = 0 ∷ rest
shift (c ∷ s) rest = suc c ∷ shift s rest

unfoldable pub add_char : ℕ → Text × Text → Text × Text
add_char c (s, rest) = (c ∷ s, rest)

unfoldable pub cut : Text → Text × Text
unfolding add_char
cut [] = ([], [])
cut (zero ∷ rest) = ([], rest)
cut (suc c ∷ s) = add_char c (cut s)

abbrev put : Option Text → Text → Text
put none rest = 0 ∷ rest
put (some s) rest = 1 ∷ shift s rest

abbrev pub get : Text → Option Text × Text
get [] = (none, [])
get (zero ∷ rest) = (none, rest)
get (suc c ∷ s) = (some (cut s).0, (cut s).1)

abbrev write : Option ℕ → Text → Text
write none rest = []
write (some e) rest = e ∷ rest

abbrev pub read : ℕ → Text → Option Claims
read now [] = none
read now (e ∷ s) =
    if ltb now e
    then some (record { sub = (get s).0; token_type = (get (get s).1).0; exp = some e })
    else none

abbrev pub jwt : Jwt
jwt = record { encode = λ c. write c.exp (put c.sub (put c.token_type [])); decode = read }

cut-shift : (s rest : Text) → cut (shift s rest) ≡ (s, rest)
unfolding shift cut add_char
cut-shift [] rest = refl
cut-shift (c ∷ s) rest = rw (cut-shift s rest) refl

get-put : (o : Option Text) (rest : Text) → get (put o rest) ≡ (o, rest)
get-put none rest = refl
get-put (some s) rest = rw (cut-shift s rest) refl

pub jwt-IsJwt : IsJwt jwt
jwt-IsJwt now e c h =
    rw h (rw (get-put c.sub (put c.token_type [])) (rw (get-put c.token_type []) refl))

abbrev unsalted : Text → Text
unsalted [] = []
unsalted (salt ∷ password) = password

abbrev pub passwords : Passwords
passwords = record {
  Salt = ℕ;
  hash = λ salt password. salt ∷ password;
  verify = λ password hash. text_eq password (unsalted hash);
}

pub passwords-IsHash : IsHash passwords
passwords-IsHash salt password = (text_eq_iff password password).1 refl

abbrev pub lifetimes : Lifetimes
lifetimes = record { access_token_expire_minutes = 15; refresh_token_expire_days = 7 }

abbrev pub ann : User
ann = record (new_row (codes "ann") (codes "a@x.org") (9 ∷ codes "secret1") 50 1) {
  user_type = UserType.admin;
}

abbrev pub bob : User
bob = new_row (codes "bob") (codes "b@x.org") (9 ∷ codes "secret2") 60 2

abbrev pub cat : User
cat = new_row (codes "cat") (codes "c@x.org") (5 ∷ codes "secret3") 100 3

abbrev pub users : Users
users = record { rows = ann ∷ bob ∷ []; next_id = 3 }

abbrev pub with_cat : Users
with_cat = record { rows = ann ∷ bob ∷ cat ∷ []; next_id = 4 }

pub users-IsKeyed : IsKeyed users
users-IsKeyed = record {
  distinct = (((omega arith, ground arith, ground arith), tt), (tt, tt));
  ahead = (omega arith, (omega arith, tt));
}
