-- ===== src/Executor/Stats.antt =====
-- How `run_program` of executor.py reads the line `%e %M` that `/usr/bin/time` writes.
use byte_battles.Base.{
  ℕ, ◌+◌, ◌-◌, ◌*◌, ◌≡◌, refl, true, false, Option, none, some, List, [], ◌∷◌, ◌++◌, arith, ◌==◌,
  is_empty, split_last-append,
}
use mathlib.Core.List.{append_assoc}
use byte_battles.Base.Text.{Text, is_space, split_on}
use byte_battles.Base.Text.Words.{IsWord, IsWord-cons, split-word, split-word_sep}
use byte_battles.Base.Number.{is_digit, read_digits, int, int_float}
use byte_battles.Executor.{read_stats, last_but_one}
use byte_battles.Base.Exec.{ok}

-- A text of one digit or more.
abbrev IsNumeral : Text → Type 0
IsNumeral [] = ⊥
IsNumeral (c ∷ []) = is_digit c ≡ true
IsNumeral (c ∷ d ∷ s) = (is_digit c ≡ true) × IsNumeral (d ∷ s)

-- The number that digits stand for, after the digits of `n`.
abbrev pub value : ℕ → Text → ℕ
value n [] = n
value n (c ∷ s) = value (n * 10 + (c - 48)) s

digit-not_space : (c : ℕ) → is_digit c ≡ true → is_space c ≡ false
unfolding is_space
digit-not_space c h = ground arith

digit-ne_newline : (c : ℕ) → is_digit c ≡ true → (c == 10) ≡ false
digit-ne_newline c h = ground arith

read_digits-numeral : (n : ℕ) (s : Text) → IsNumeral s → read_digits n s ≡ (value n s, [])
unfolding read_digits
read_digits-numeral n [] h = absurd h
read_digits-numeral n (c ∷ []) h = rw h
read_digits-numeral n (c ∷ d ∷ s) h = rw h.0 (read_digits-numeral (n * 10 + (c - 48)) (d ∷ s) h.1)

read_digits-point :
    (n : ℕ) (s t : Text) → IsNumeral s → read_digits n (s ++ 46 ∷ t) ≡ (value n s, 46 ∷ t)
unfolding read_digits
read_digits-point n [] t h = absurd h
read_digits-point n (c ∷ []) t h = rw h
read_digits-point n (c ∷ d ∷ s) t h = rw h.0 (read_digits-point (n * 10 + (c - 48)) (d ∷ s) t h.1)

int-numeral : (s : Text) → IsNumeral s → int s ≡ ok (value 0 s)
unfolding int
int-numeral [] h = absurd h
int-numeral (c ∷ s) h = rw (read_digits-numeral 0 (c ∷ s) h)

first_digit : (c : ℕ) (s : Text) → IsNumeral (c ∷ s) → is_digit c ≡ true
first_digit c [] h = h
first_digit c (d ∷ s) h = h.0

int_float-numeral :
    (s t : Text) → IsNumeral s → IsNumeral t → int_float (s ++ 46 ∷ t) ≡ ok (value 0 s)
unfolding int_float
int_float-numeral [] t h k = absurd h
int_float-numeral (c ∷ s) t h k =
    rw (first_digit c s h) (rw (read_digits-point 0 (c ∷ s) t h) (rw (read_digits-numeral 0 t k)))

IsWord-numeral : (s : Text) → IsNumeral s → IsWord s
IsWord-numeral [] h = h
IsWord-numeral (c ∷ []) h = digit-not_space c h
IsWord-numeral (c ∷ d ∷ s) h = (digit-not_space c h.0, IsWord-numeral (d ∷ s) h.1)

IsWord-elapsed : (s t : Text) → IsNumeral s → IsNumeral t → IsWord (s ++ 46 ∷ t)
IsWord-elapsed [] t h k = absurd h
IsWord-elapsed (c ∷ []) t h k =
    IsWord-cons c (46 ∷ t) (digit-not_space c h)
      (IsWord-cons 46 t (unfold is_space in refl) (IsWord-numeral t k))
IsWord-elapsed (c ∷ d ∷ s) t h k = (digit-not_space c h.0, IsWord-elapsed (d ∷ s) t h.1 k)

is_empty-split_on : (sep : ℕ) (s : Text) → is_empty (split_on sep s) ≡ false
unfolding split_on
is_empty-split_on sep [] = refl
is_empty-split_on sep (c ∷ s) = ground (arith, is_empty-split_on sep s)

-- Splitting at a separator distributes over it.
split_on-append :
    (sep : ℕ) (a b : Text) → split_on sep (a ++ sep ∷ b) ≡ split_on sep a ++ split_on sep b
unfolding split_on
split_on-append sep [] b = ground arith
split_on-append sep (c ∷ a) b = ground (arith, split_on-append sep a b, is_empty-split_on sep a)

split_on-numeral : (s : Text) → IsNumeral s → split_on 10 s ≡ s ∷ []
unfolding split_on
split_on-numeral [] h = absurd h
split_on-numeral (c ∷ []) h = rw (digit-ne_newline c h)
split_on-numeral (c ∷ d ∷ s) h =
    rw (digit-ne_newline c h.0) (rw (split_on-numeral (d ∷ s) h.1) refl)

split_on-elapsed :
    (s t : Text) → IsNumeral s → split_on 10 t ≡ t ∷ [] → split_on 10 (s ++ t) ≡ (s ++ t) ∷ []
unfolding split_on
split_on-elapsed [] t h k = absurd h
split_on-elapsed (c ∷ []) t h k = rw (digit-ne_newline c h, k)
split_on-elapsed (c ∷ d ∷ s) t h k =
    rw (digit-ne_newline c h.0) (rw (split_on-elapsed (d ∷ s) t h.1 k) refl)

last_but_one-line : (ps : List Text) (l e : Text) → last_but_one (ps ++ l ∷ e ∷ []) ≡ ok l
last_but_one-line ps l e =
    rw (← append_assoc ps (l ∷ []) (e ∷ []))
      (rw (split_last-append (ps ++ l ∷ []) e, last_but_one) (rw (split_last-append ps l)))

-- The line that `/usr/bin/time` writes for the format `%e %M`, and what stands before it: nothing, or
-- a notice such as `Command terminated by signal 9`.
abbrev pub time_line : Text → Text → Text → Text
time_line whole fraction memory = (whole ++ 46 ∷ fraction) ++ 32 ∷ memory

abbrev pub time_output : Option Text → Text → Text
time_output none line = line ++ 10 ∷ []
time_output (some notice) line = notice ++ 10 ∷ (line ++ 10 ∷ [])

last_line :
    (notice : Option Text) (line : Text)
    → split_on 10 line ≡ line ∷ []
    → last_but_one (split_on 10 (time_output notice line)) ≡ ok line
last_line none line h = rw (split_on-append 10 line []) (rw h (unfold split_on in refl))
last_line (some notice) line h = rw (split_on-append 10 notice (line ++ 10 ∷ [])) (
    rw (split_on-append 10 line [])
      (rw h (unfold split_on in last_but_one-line (split_on 10 notice) line [])))

split_on-cons :
    (c : ℕ) (s : Text)
    → (c == 10) ≡ false
    → split_on 10 s ≡ s ∷ []
    → split_on 10 (c ∷ s) ≡ (c ∷ s) ∷ []
unfolding split_on
split_on-cons c s e h = rw (e, h)

time_line-line :
    (w f m : Text)
    → IsNumeral w
    → IsNumeral f
    → IsNumeral m
    → split_on 10 (time_line w f m) ≡ time_line w f m ∷ []
time_line-line w f m h k l = rw append_assoc (
    split_on-elapsed w _ h (
      split_on-cons 46 _ refl
        (split_on-elapsed f (32 ∷ m) k (split_on-cons 32 m refl (split_on-numeral m l)))))

-- From a last line of stderr with elapsed seconds, a point, a fraction and kilobytes, with or
-- without a notice before it, run_program takes the number before the point and the kilobytes: the
-- fraction is dropped, and seconds stay seconds.
pub read_stats-time_output :
    (notice : Option Text) (whole fraction memory : Text)
    → IsNumeral whole
    → IsNumeral fraction
    → IsNumeral memory
    → read_stats (time_output notice (time_line whole fraction memory))
      ≡ ok (value 0 whole, value 0 memory)
unfolding read_stats
read_stats-time_output notice w f m h k l =
    rw (last_line notice (time_line w f m) (time_line-line w f m h k l)) (
      rw (split-word_sep 32 (w ++ 46 ∷ f) m (unfold is_space in refl) (IsWord-elapsed w f h k)) (
        rw (int_float-numeral w f h k)
          (rw (split-word m (IsWord-numeral m l)) (rw (int-numeral m l)))))
