-- ===== src/Base/Text/Words.antt =====
-- What `strip`, `split` and `join` have to do with one another.
use mathlib.Core.Path.{◌≡◌, refl, ap, ◌∙◌}
use mathlib.Core.Logic.{inl, inr}
use mathlib.Core.Bool.{true, false}
use mathlib.Core.List.{List, [], ◌∷◌, ◌++◌}
use native.Mathlib.Omega.{arith}
use Prim.Native.Nat.{ℕ}
use byte_battles.Base.Tests.{Bool-cases}
use byte_battles.Base.Lists.{All}
use byte_battles.Base.Text.{
  Text, is_space, lstrip, rstrip, strip, split, join, begin_word, add_to_first,
}

-- A word has a code point, and no space.
abbrev pub IsWord : Text → Type 0
IsWord [] = ⊥
IsWord (c ∷ []) = is_space c ≡ false
IsWord (c ∷ d ∷ w) = (is_space c ≡ false) × IsWord (d ∷ w)

split-lstrip : (s : Text) → split (lstrip s) ≡ split s
unfolding split lstrip
split-lstrip [] = refl
split-lstrip (c ∷ s) = ground (arith, split-lstrip s)

split-rstrip : (s : Text) → split (rstrip s) ≡ split s
unfolding split rstrip
split-rstrip [] = refl
split-rstrip (c ∷ []) = ground arith
split-rstrip (c ∷ d ∷ s) = ground (arith, split-rstrip (d ∷ s))

-- Stripping a text does not change its words.
pub split-strip : (s : Text) → split (strip s) ≡ split s
unfolding strip
split-strip s = split-rstrip (lstrip s) ∙ split-lstrip s

pub IsWord-cons : (c : ℕ) (w : Text) → is_space c ≡ false → IsWord w → IsWord (c ∷ w)
IsWord-cons c [] h i = absurd i
IsWord-cons c (d ∷ w) h i = (h, i)

IsWord-add_to_first :
    (c : ℕ) (ws : List Text) → is_space c ≡ false → All IsWord ws → All IsWord (add_to_first c ws)
IsWord-add_to_first c [] h a = (h, a)
IsWord-add_to_first c (w ∷ ws) h a = (IsWord-cons c w h a.0, a.1)

IsWord-begin_word :
    (c : ℕ) (s : Text) (ws : List Text)
    → is_space c ≡ false
    → All IsWord ws
    → All IsWord (begin_word c s ws)
IsWord-begin_word c [] ws h a = (h, a)
IsWord-begin_word c (d ∷ s) ws h a = elim (Bool-cases (is_space d)) [
  | inl e ↦ rw e (h, a)
  | inr e ↦ rw e (IsWord-add_to_first c ws h a)
]

pub split-IsWord : (s : Text) → All IsWord (split s)
unfolding split
split-IsWord [] = tt
split-IsWord (c ∷ s) = elim (Bool-cases (is_space c)) [
  | inl e ↦ rw e (split-IsWord s)
  | inr e ↦ rw e (IsWord-begin_word c s (split s) e (split-IsWord s))
]

pub split-word : (w : Text) → IsWord w → split w ≡ w ∷ []
unfolding split
split-word [] h = absurd h
split-word (c ∷ []) h = rw h
split-word (c ∷ d ∷ w) h = ground (arith, split-word (d ∷ w) h.1)

pub split-word_sep :
    (sep : ℕ) (w s : Text) → is_space sep ≡ true → IsWord w → split (w ++ sep ∷ s) ≡ w ∷ split s
unfolding split
split-word_sep sep [] s e h = absurd h
split-word_sep sep (c ∷ []) s e h = ground arith
split-word_sep sep (c ∷ d ∷ w) s e h = ground (arith, split-word_sep sep (d ∷ w) s e h.1)

-- Words joined by a space are found again.
pub split-join :
    (sep : ℕ) (ws : List Text) → is_space sep ≡ true → All IsWord ws → split (join sep ws) ≡ ws
unfolding join
split-join sep [] e a = unfold split in refl
split-join sep (w ∷ []) e a = split-word w a.0
split-join sep (w ∷ v ∷ ws) e a =
    split-word_sep sep w (join sep (v ∷ ws)) e a.0 ∙ ap (◌∷◌ w) (split-join sep (v ∷ ws) e a.1)
