-- ===== src/Base/Number.antt =====
-- Decimal numbers in texts: what `str(n)`, `int(s)` and `int(float(s))` do with a natural number.
pub mod Decimal
use byte_battles.Base.Tests.{leb, ltb, ◌==◌, if◌then◌else◌}
use byte_battles.Base.Text.{Text}
use byte_battles.Base.Exec.{Result, ok, err, Fault}
use Prim.Native.Nat.{ℕ, zero, suc, ◌+◌, ◌-◌, ◌*◌, ◌/◌, ◌%◌}
use mathlib.Core.Bool.{Bool, true, false, ◌&&◌}
use mathlib.Core.List.{[], ◌∷◌}

abbrev pub is_digit : ℕ → Bool
is_digit c = leb 48 c && leb c 57

-- The digits of `n` before those of `acc`; `fuel` above the number of digits is enough.
digits_onto : ℕ → ℕ → Text → Text
digits_onto zero n acc = acc
digits_onto (suc fuel) n acc =
    let rest = digits_onto fuel (n / 10) ((48 + n % 10) ∷ acc) in
    if ltb n 10 then (48 + n) ∷ acc else rest

-- `str(n)`
unfoldable pub str : ℕ → Text
unfolding digits_onto
str n = digits_onto (suc n) n []

-- The digits that a text begins with, as a number after `n`, and the rest.
unfoldable pub read_digits : ℕ → Text → ℕ × Text
read_digits n [] = (n, [])
read_digits n (c ∷ s) =
    let more = read_digits (n * 10 + (c - 48)) s in if is_digit c then more else (n, c ∷ s)

-- The number that was read, if nothing follows it.
abbrev whole : ℕ × Text → Result ℕ
whole (n, []) = ok n
whole (n, c ∷ rest) = err Fault.value_error

abbrev is_point : ℕ → ℕ × Text → Bool
is_point c (n, []) = c == 46
is_point c (n, d ∷ rest) = false

-- What may follow the whole part: nothing, or a point and digits.
abbrev is_fraction : Text → Bool
is_fraction [] = true
is_fraction (c ∷ s) = is_point c (read_digits 0 s)

abbrev truncated : ℕ × Text → Result ℕ
truncated (n, rest) = if is_fraction rest then ok n else err Fault.value_error

-- `int(s)`. Of the forms that Python accepts the digits alone are modelled: `%M` prints no other.
unfoldable pub int : Text → Result ℕ
int [] = err Fault.value_error
int (c ∷ s) = whole (read_digits 0 (c ∷ s))

-- `int(float(s))`: a number `12.34` without its fraction. Of the forms that Python accepts digits,
-- a point and digits are modelled: `%e` prints no other.
unfoldable pub int_float : Text → Result ℕ
int_float [] = err Fault.value_error
int_float (c ∷ s) = if is_digit c then truncated (read_digits 0 (c ∷ s)) else err Fault.value_error
