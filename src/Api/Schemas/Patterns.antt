-- ===== src/Api/Schemas/Patterns.antt =====
-- Which user names and passwords the validators let pass.
use byte_battles.Base.{
  ℕ, ◌≤◌, ◌≡◌, refl, sym, ap, subst, ◌↔◌, ◌⊎◌, inl, inr, Bool, true, false, [], ◌∷◌, ◌++◌, arith,
  Bool-cases, length, All, Any,
}
use mathlib.Core.List.{append-nil}
use byte_battles.Base.Text.{Text}
use byte_battles.Base.Exec.{ok}
use byte_battles.Api.Schemas.{
  is_letter, is_word, is_any, span, at_end, exists, match_username, validate_username,
  match_password, validate_password,
}

-- A text is `line`, with or without a newline after it.
abbrev pub EndsLine : Text → Text → Type 0
EndsLine line s = (s ≡ line) ⊎ (s ≡ line ++ 10 ∷ [])

EndsLine-at_end : (line rest : Text) → at_end rest ≡ true → EndsLine line (line ++ rest)
EndsLine-at_end line [] h = inl (append-nil line)
EndsLine-at_end line (c ∷ []) h = inr (ap (λ (d : ℕ). line ++ d ∷ []) (ground arith))
EndsLine-at_end line (c ∷ d ∷ s) h = cc h

append-span : (test : ℕ → Bool) (s : Text) → s ≡ (span test s).0 ++ (span test s).1
unfolding span
append-span test [] = refl
append-span test (c ∷ s) = elim (Bool-cases (test c)) [
  | inl e ↦ rw e (ap (◌∷◌ c) (append-span test s))
  | inr e ↦ rw e refl
]

span-All : (test : ℕ → Bool) (s : Text) → All (λ c. test c ≡ true) (span test s).0
unfolding span
span-All test [] = tt
span-All test (c ∷ s) = elim (Bool-cases (test c)) [
  | inl e ↦ rw e (e, span-All test s)
  | inr e ↦ rw e tt
]

-- What ends the line is not of the class.
span-EndsLine :
    (test : ℕ → Bool) (line s : Text)
    → test 10 ≡ false
    → All (λ c. test c ≡ true) line
    → EndsLine line s
    → ((span test s).0 ≡ line) × (at_end (span test s).1 ≡ true)
unfolding span
span-EndsLine test [] s n h (inl e) = rw e (refl, refl)
span-EndsLine test [] s n h (inr e) = rw (e, n) (refl, refl)
span-EndsLine test (c ∷ line) s n h (inl e) =
    let ih = span-EndsLine test line line n h.1 (inl refl) in rw (e, h.0) (ap (◌∷◌ c) ih.0, ih.1)
span-EndsLine test (c ∷ line) s n h (inr e) =
    let ih = span-EndsLine test line (line ++ 10 ∷ []) n h.1 (inr refl) in
    rw (e, h.0) (ap (◌∷◌ c) ih.0, ih.1)

-- Where the rest of the span ends the text, the text is the span, with or without a newline.
span-at_end :
    (test : ℕ → Bool) (s : Text) → at_end (span test s).1 ≡ true → EndsLine (span test s).0 s
span-at_end test s h =
    subst (λ t. EndsLine (span test s).0 t) (sym (append-span test s))
      (EndsLine-at_end (span test s).0 (span test s).1 h)

exists-Any : (test : ℕ → Bool) (s : Text) → exists test s ≡ true → Any (λ c. test c ≡ true) s
unfolding exists
exists-Any test [] h = cc h
exists-Any test (c ∷ s) h = elim (Bool-cases (test c)) [
  | inl e ↦ inl e
  | inr e ↦ inr (exists-Any test s (ground (arith, h, e)))
]

Any-exists : (test : ℕ → Bool) (s : Text) → Any (λ c. test c ≡ true) s → exists test s ≡ true
unfolding exists
Any-exists test [] h = absurd h
Any-exists test (c ∷ s) (inl e) = rw e refl
Any-exists test (c ∷ s) (inr h) = ground (arith, Any-exists test s h)

-- A user name passes the validator exactly when it is 3 to 20 ASCII letters, digits and
-- underscores, or such a name with one newline behind it.
pub validate_username_iff :
    (v : Text)
    → (validate_username v ≡ ok v) ↔ (
        (name : Text) × All (λ c. is_word c ≡ true) name
        × (3 ≤ length name)
        × (length name ≤ 20)
        × EndsLine name v)
unfolding validate_username
validate_username_iff v = (
  (λ h.
      let name = (span is_word v).0 in
      let k : match_username (span is_word v) ≡ true = ground (arith, h) in
      (
        name,
        span-All is_word v,
        ground (arith, k),
        ground (arith, k),
        span-at_end is_word v (ground (arith, k)),
      )),
  (λ x.
      let (name, a, low, high, e) = x in
      let (p, q) = span-EndsLine is_word name v refl a e in
      ground (arith, low, high, p, q, ap length p)),
)

-- A password passes the validator exactly when it is one line of at least 8 code points, a letter
-- and a decimal digit among them, or such a line with one newline behind it.
pub validate_password_iff :
    (is_decimal : ℕ → Bool) (v : Text)
    → (validate_password is_decimal v ≡ ok v) ↔ (
        (line : Text) × All (λ c. is_any c ≡ true) line
        × Any (λ c. is_letter c ≡ true) line
        × Any (λ c. is_decimal c ≡ true) line
        × (8 ≤ length line)
        × EndsLine line v)
unfolding validate_password
validate_password_iff is_decimal v = (
  (λ h.
      let line = (span is_any v).0 in
      let k : match_password is_decimal (span is_any v) ≡ true = ground (arith, h) in
      (
        line,
        span-All is_any v,
        exists-Any is_letter line (ground (arith, k)),
        exists-Any is_decimal line (ground (arith, k)),
        ground (arith, k),
        span-at_end is_any v (ground (arith, k)),
      )),
  (λ x.
      let (line, a, letter, digit, long, e) = x in
      let (p, q) = span-EndsLine is_any line v refl a e in
      ground (
        arith,
        long,
        p,
        q,
        ap length p,
        ap (exists is_letter) p,
        ap (exists is_decimal) p,
        Any-exists is_letter line letter,
        Any-exists is_decimal line digit,
      )),
)
