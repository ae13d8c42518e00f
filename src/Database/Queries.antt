-- ===== src/Database/Queries.antt =====
-- What a query returns, and what a test says of the rows that are left.
use byte_battles.Base.{
  ◌≡◌, refl, sym, inl, inr, Bool, true, false, none, some, List, [], ◌∷◌, ◌++◌, arith, Bool-cases,
  All, Any,
}
use byte_battles.Database.{first, select, update_first}

-- Where no row is found, every row fails the test.
pub first-none {ℓ} :
    {A : Type ℓ} (test : A → Bool) (xs : List A)
    → first test xs ≡ none
    → All (λ a. test a ≡ false) xs
unfolding first
first-none test [] h = tt
first-none test (x ∷ xs) h = (ground arith, first-none test xs (ground arith))

-- Where a row is found, some row passes the test.
pub first-some {ℓ} :
    {A : Type ℓ} (test : A → Bool) (xs : List A) (x : A)
    → first test xs ≡ some x
    → Any (λ a. test a ≡ true) xs
unfolding first
first-some test [] x h = cc h
first-some test (y ∷ ys) x h = elim (Bool-cases (test y)) [
  | inl e ↦ inl e
  | inr e ↦ inr (first-some test ys x (ground (arith, e, h)))
]

pub first-All {ℓ} :
    {A : Type ℓ} (test : A → Bool) (xs : List A)
    → All (λ a. test a ≡ false) xs
    → first test xs ≡ none
unfolding first
first-All test [] h = refl
first-All test (x ∷ xs) h = rw h.0 (first-All test xs h.1)

-- A new last row is found where no row before it is.
pub first-last {ℓ} :
    {A : Type ℓ} (test : A → Bool) (xs : List A) (x : A)
    → first test xs ≡ none
    → test x ≡ true
    → first test (xs ++ x ∷ []) ≡ some x
unfolding first
first-last test [] x h k = rw k refl
first-last test (y ∷ ys) x h k = elim (Bool-cases (test y)) [
  | inl e ↦ absurd (ground arith)
  | inr e ↦ rw e (first-last test ys x (ground arith) k)
]

pub first-passes {ℓ} :
    {A : Type ℓ} (test : A → Bool) (xs : List A) (x : A) → first test xs ≡ some x → test x ≡ true
unfolding first
first-passes test [] x h = cc h
first-passes test (y ∷ ys) x h = elim (Bool-cases (test y)) [
  | inl e ↦ let q : y ≡ x = ground (arith, h, e) in rw (sym q) e
  | inr e ↦ first-passes test ys x (ground (arith, h, e))
]

-- A selection passes its test.
pub select-All {ℓ} :
    {A : Type ℓ} (test : A → Bool) (xs : List A) → All (λ x. test x ≡ true) (select test xs)
unfolding select
select-All test [] = tt
select-All test (x ∷ xs) = elim (Bool-cases (test x)) [
  | inl e ↦ rw e (e, select-All test xs)
  | inr e ↦ rw e (select-All test xs)
]

pub first-satisfies {ℓ κ} :
    {A : Type ℓ} (P : A → Type κ) (test : A → Bool) (xs : List A) (x : A)
    → first test xs ≡ some x
    → All P xs
    → P x
unfolding first
first-satisfies P test [] x h k = cc h
first-satisfies P test (y ∷ ys) x h k = elim (Bool-cases (test y)) [
  | inl e ↦ let q : y ≡ x = ground (arith, h, e) in rw (sym q) k.0
  | inr e ↦ first-satisfies P test ys x (ground (arith, h, e)) k.1
]

pub All-update_first {ℓ κ} :
    {A : Type ℓ} (P : A → Type κ) (test : A → Bool) (new : A) (xs : List A)
    → All P xs
    → P new
    → All P (update_first test (λ x. new) xs)
unfolding update_first
All-update_first P test new [] h k = tt
All-update_first P test new (x ∷ xs) h k = elim (Bool-cases (test x)) [
  | inl e ↦ rw e (k, h.1)
  | inr e ↦ rw e (h.0, All-update_first P test new xs h.1 k)
]

pub All-select {ℓ κ} :
    {A : Type ℓ} (P : A → Type κ) (test : A → Bool) (xs : List A)
    → All P xs
    → All P (select test xs)
unfolding select
All-select P test [] h = tt
All-select P test (x ∷ xs) h = elim (Bool-cases (test x)) [
  | inl e ↦ rw e (h.0, All-select P test xs h.1)
  | inr e ↦ rw e (All-select P test xs h.1)
]
