-- ===== src/Base/Number/Decimal.antt =====
-- `int` reads back what `str` wrote.
use Prim.Native.Nat.{ℕ, zero, suc, ◌+◌, ◌*◌, ◌/◌, ◌%◌, ◌<◌}
use mathlib.Core.Path.{◌≡◌, refl, ap, ◌∙◌}
use mathlib.Core.Logic.{inl, inr}
use mathlib.Core.Bool.{false}
use mathlib.Core.List.{[], ◌∷◌, ◌++◌}
use native.Mathlib.Omega.{arith}
use byte_battles.Base.Tests.{ltb, Bool-cases}
use byte_battles.Base.Lists.{is_empty}
use byte_battles.Base.Text.{Text}
use byte_battles.Base.Exec.{ok}
use byte_battles.Base.Number.{is_digit, digits_onto, read_digits, str, int}

read_digit :
    (m d : ℕ) (acc : Text) → d < 10 → read_digits m ((48 + d) ∷ acc) ≡ read_digits (m * 10 + d) acc
unfolding read_digits
read_digit m d acc h = ground arith

read_digits-digits_onto :
    (fuel n : ℕ) (acc : Text)
    → n < fuel
    → read_digits 0 (digits_onto fuel n acc) ≡ read_digits n acc
unfolding digits_onto
read_digits-digits_onto zero n acc h = absurd (omega arith)
read_digits-digits_onto (suc fuel) n acc h = elim (Bool-cases (ltb n 10)) [
  | inl small ↦
      rw small (read_digit 0 n acc (ground arith) ∙ ap (λ (m : ℕ). read_digits m acc) (omega arith))
  | inr large ↦
      let back : n / 10 * 10 + n % 10 ≡ n = omega arith in
      rw large (
        read_digits-digits_onto fuel (n / 10) ((48 + n % 10) ∷ acc) (ground arith)
        ∙ read_digit (n / 10) (n % 10) acc (omega arith)
        ∙ ap (λ (m : ℕ). read_digits m acc) back)
]

is_empty-digits_onto :
    (fuel n : ℕ) (acc : Text) → is_empty acc ≡ false → is_empty (digits_onto fuel n acc) ≡ false
unfolding digits_onto
is_empty-digits_onto zero n acc h = h
is_empty-digits_onto (suc fuel) n acc h =
    ground (arith, is_empty-digits_onto fuel (n / 10) ((48 + n % 10) ∷ acc) refl)

is_empty-str : (n : ℕ) → is_empty (str n) ≡ false
unfolding str
is_empty-str n = ground (arith, is_empty-digits_onto n (n / 10) ((48 + n % 10) ∷ []) refl)

int-read : (s : Text) (n : ℕ) → is_empty s ≡ false → read_digits 0 s ≡ (n, []) → int s ≡ ok n
unfolding int
int-read [] n e h = cc e
int-read (c ∷ s) n e h = rw h

-- The text of a number is read back as the number.
pub int-str : (n : ℕ) → int (str n) ≡ ok n
unfolding read_digits
int-str n =
    int-read (str n) n (is_empty-str n)
      (unfold str in read_digits-digits_onto (suc n) n [] (omega arith))

digits_onto-append :
    (fuel n : ℕ) (acc rest : Text)
    → digits_onto fuel n acc ++ rest ≡ digits_onto fuel n (acc ++ rest)
unfolding digits_onto
digits_onto-append zero n acc rest = refl
digits_onto-append (suc fuel) n acc rest =
    ground (arith, digits_onto-append fuel (n / 10) ((48 + n % 10) ∷ acc) rest)

read_digits-then :
    (n c : ℕ) (rest : Text) → is_digit c ≡ false → read_digits n (c ∷ rest) ≡ (n, c ∷ rest)
unfolding read_digits
read_digits-then n c rest h = rw h refl

-- The digits of a number end where something else begins.
pub read_digits-str :
    (n c : ℕ) (rest : Text) → is_digit c ≡ false → read_digits 0 (str n ++ c ∷ rest) ≡ (n, c ∷ rest)
unfolding str
read_digits-str n c rest h =
    ap (read_digits 0) (digits_onto-append (suc n) n [] (c ∷ rest))
    ∙ read_digits-digits_onto (suc n) n (c ∷ rest) (omega arith)
    ∙ read_digits-then n c rest h
