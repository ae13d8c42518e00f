-- ===== src/Api/Schemas.antt =====
-- api/app/schemas/user.py: the validators of user names and passwords.
pub mod Patterns
use byte_battles.Base.{
  ℕ, Bool, true, false, not, ◌&&◌, ◌||◌, Option, none, some, [], ◌∷◌, leb, ◌==◌, if◌then◌else◌,
  length,
}
use byte_battles.Base.Text.{Text}
use byte_battles.Base.Exec.{Result, ok, err, Fault}

abbrev pub is_letter : ℕ → Bool
is_letter c = (leb 65 c && leb c 90) || (leb 97 c && leb c 122)

-- `[a-zA-Z0-9_]`
abbrev pub is_word : ℕ → Bool
is_word c = is_letter c || (leb 48 c && leb c 57) || c == 95

-- `.` matches every code point but the newline.
abbrev pub is_any : ℕ → Bool
is_any c = not (c == 10)

abbrev add_code : ℕ → Text × Text → Text × Text
add_code c (s, rest) = (c ∷ s, rest)

-- The code points that a text begins with and that pass the test, and the rest.
unfoldable pub span : (ℕ → Bool) → Text → Text × Text
span test [] = ([], [])
span test (c ∷ s) = let more = span test s in if test c then add_code c more else ([], c ∷ s)

-- `$` matches at the end, and before a newline that is the last code point.
abbrev pub at_end : Text → Bool
at_end [] = true
at_end (c ∷ []) = c == 10
at_end (c ∷ d ∷ s) = false

unfoldable pub exists : (ℕ → Bool) → Text → Bool
exists test [] = false
exists test (c ∷ s) = let rest = exists test s in test c || rest

-- `re.match(USERNAME_REGEX, v)`. What the repetition matched is all of the word's code points, since
-- `$` matches before none of them.
abbrev pub match_username : Text × Text → Bool
match_username (name, rest) = leb 3 (length name) && leb (length name) 20 && at_end rest

unfoldable pub validate_username : Text → Result Text
unfolding span
validate_username v = if match_username (span is_word v) then ok v else err Fault.value_error

-- A validator of `UserUpdate` passes `None` on.
abbrev if_given : (Text → Result Text) → Option Text → Result (Option Text)
if_given validate none = ok none
if_given validate (some v) = elim (validate v) [ ok w ↦ ok (some w) | err e ↦ err e ]

unfoldable pub validate_new_username : Option Text → Result (Option Text)
unfolding validate_username
validate_new_username v = if_given validate_username v

-- `re.match(PASSWORD_REGEX, v)`. `is_decimal` is the class `\d`, the decimal digits of Unicode.
module _ (is_decimal : ℕ → Bool) where
  abbrev pub match_password : Text × Text → Bool
  match_password (line, rest) =
      exists is_letter line && exists is_decimal line && leb 8 (length line) && at_end rest

  unfoldable pub validate_password : Text → Result Text
  unfolding span
  validate_password v = if match_password (span is_any v) then ok v else err Fault.value_error

  unfoldable pub validate_new_password : Option Text → Result (Option Text)
  unfolding validate_password
  validate_new_password v = if_given validate_password v
