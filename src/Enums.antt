-- ===== src/Enums.antt =====
-- api/app/models/enums.py, and the tables over `Language` of judge/models.py.
use byte_battles.Base.{List, [], ◌∷◌, Bool, true, false, ◌≡◌, arith}
use byte_battles.Base.Text.{Text, codes}

pub data UserType : Type 0 where
  user admin : UserType

pub data Difficulty : Type 0 where
  easy medium hard : Difficulty

pub data Verdict : Type 0 where
  pending accepted wrong_answer time_limit_exceeded memory_limit_exceeded : Verdict
  compilation_error runtime_error skipped : Verdict

pub data Language : Type 0 where
  c cpp python : Language

-- `for language in Language`
abbrev pub languages : List Language
languages = Language.c ∷ Language.cpp ∷ Language.python ∷ []

-- `Language(...).value`
unfoldable pub language_value : Language → Text
language_value Language.c = codes "C"
language_value Language.cpp = codes "CPP"
language_value Language.python = codes "PY"

-- `EXTENSIONS`
unfoldable pub extension : Language → Text
extension Language.c = codes "c"
extension Language.cpp = codes "cpp"
extension Language.python = codes "py"

-- `FILENAME`
unfoldable pub file_name : Language → Text
file_name Language.c = codes "main.c"
file_name Language.cpp = codes "main.cpp"
file_name Language.python = codes "main.py"

-- `IMAGE`
unfoldable pub image : Language → Text
image Language.c = codes "judge-gcc:latest"
image Language.cpp = codes "judge-gcc:latest"
image Language.python = codes "judge-python:latest"

-- Equality of enumeration members.
abbrev pub language_eq : Language → Language → Bool
language_eq Language.c Language.c = true
language_eq Language.cpp Language.cpp = true
language_eq Language.python Language.python = true
language_eq _ _ = false

abbrev pub is_accepted : Verdict → Bool
is_accepted Verdict.accepted = true
is_accepted _ = false

abbrev pub is_pending : Verdict → Bool
is_pending Verdict.pending = true
is_pending _ = false

pub language_eq_sound : (l m : Language) → language_eq l m ≡ true → l ≡ m
language_eq_sound l m h = ground arith

pub language_eq_refl : (l : Language) → language_eq l l ≡ true
language_eq_refl l = ground arith
