-- ===== src/System/Rows.antt =====
-- Submissions by their ids: which ids are in a list, and what the changes of the table keep.
use byte_battles.Base.{
  ℕ, ◌<◌, ◌≡◌, refl, ◌≢◌, inl, inr, Bool, true, false, ◌||◌, List, [], ◌∷◌, ◌++◌, arith, ◌==◌,
  ==_iff, Bool-cases, All, All-map, All-last,
}
use byte_battles.Enums.{Verdict}
use byte_battles.Database.{Submission, select, update_first}
use byte_battles.Database.Queries.{All-select}
use byte_battles.Pipeline.{SubmissionResult, update_result}

abbrev pub occurs : ℕ → List ℕ → Bool
occurs id [] = false
occurs id (j ∷ ids) = j == id || occurs id ids

pub occurs-append :
    (id : ℕ) (xs ys : List ℕ) → occurs id (xs ++ ys) ≡ (occurs id xs || occurs id ys)
occurs-append id [] ys = refl
occurs-append id (x ∷ xs) ys = ground (arith, occurs-append id xs ys)

-- A submission that waits for its verdict is in the list.
abbrev pub Traced : List ℕ → Submission → Type 0
Traced ids s = s.verdict ≡ Verdict.pending → occurs s.id ids ≡ true

pub All-Traced :
    (ids js : List ℕ) (rows : List Submission)
    → ((id : ℕ) → occurs id ids ≡ true → occurs id js ≡ true)
    → All (Traced ids) rows
    → All (Traced js) rows
All-Traced ids js rows h v = All-map {Q = Traced js} (λ s (t : Traced ids s) p. h s.id (t p)) rows v

-- No two rows have the same id.
abbrev pub IdsDiffer : List Submission → Type 0
IdsDiffer [] = Unit
IdsDiffer (s ∷ ss) = All (λ t. t.id ≢ s.id) ss × IdsDiffer ss

pub IdsDiffer-last :
    (ss : List Submission) (t : Submission)
    → IdsDiffer ss
    → All (λ s. s.id < t.id) ss
    → IdsDiffer (ss ++ t ∷ [])
IdsDiffer-last [] t h k = (tt, tt)
IdsDiffer-last (s ∷ ss) t h k = (
  All-last (λ u. u.id ≢ s.id) ss h.0 (λ e. let l = k.0 in omega (arith, e, l)),
  IdsDiffer-last ss t h.1 k.1,
)

pub IdsDiffer-select :
    (test : Submission → Bool) (ss : List Submission) → IdsDiffer ss → IdsDiffer (select test ss)
unfolding select
IdsDiffer-select test [] h = tt
IdsDiffer-select test (s ∷ ss) h = elim (Bool-cases (test s)) [
  | inl e ↦ rw e (All-select (λ t. t.id ≢ s.id) test ss h.0, IdsDiffer-select test ss h.1)
  | inr e ↦ rw e (IdsDiffer-select test ss h.1)
]

module _ (id : ℕ) (result : SubmissionResult) where
  abbrev pub updated : List Submission → List Submission
  updated rows =
      (update_result id result (record {
        problems = [];
        testcases = [];
        submissions = rows;
        categories = [];
        next_testcase = 0;
        next_submission = 0;
      })).submissions

  -- What holds of every id holds of the ids of the changed rows.
  pub All-updated {κ} :
      (P : ℕ → Type κ) (rows : List Submission)
      → All (λ s. P s.id) rows
      → All (λ s. P s.id) (updated rows)
  unfolding update_result update_first
  All-updated P [] h = tt
  All-updated P (s ∷ rows) h = elim (Bool-cases (s.id == id)) [
    | inl e ↦ rw e h
    | inr e ↦ rw e (h.0, All-updated P rows h.1)
  ]

  pub IdsDiffer-updated : (rows : List Submission) → IdsDiffer rows → IdsDiffer (updated rows)
  unfolding update_result update_first
  IdsDiffer-updated [] h = tt
  IdsDiffer-updated (s ∷ rows) h = elim (Bool-cases (s.id == id)) [
    | inl e ↦ rw e h
    | inr e ↦ rw e (All-updated (λ i. i ≢ s.id) rows h.0, IdsDiffer-updated rows h.1)
  ]

  -- A result that is a verdict settles its row, so that the id may leave the list.
  pub All-Traced-updated :
      (ids js : List ℕ) (rows : List Submission)
      → ((i : ℕ) → i ≢ id → occurs i ids ≡ true → occurs i js ≡ true)
      → result.verdict ≢ Verdict.pending
      → IdsDiffer rows
      → All (Traced ids) rows
      → All (Traced js) (updated rows)
  unfolding update_result update_first
  All-Traced-updated ids js [] h n d v = tt
  All-Traced-updated ids js (s ∷ rows) h n d v = elim (Bool-cases (s.id == id)) [
    | inl e ↦
        let same : s.id ≡ id = (==_iff s.id id).0 e in
        rw e ((λ p. absurd (n p)), others rows (rw same at d.0) v.1)
    | inr e ↦ rw e (
      (λ p. h s.id (λ q. let k : (s.id == id) ≡ true = (==_iff s.id id).1 q in cc) (v.0 p)),
      All-Traced-updated ids js rows h n d.1 v.1,
    )
  ]
    where
      others :
          (rows : List Submission)
          → All (λ t. t.id ≢ id) rows
          → All (Traced ids) rows
          → All (Traced js) rows
      others [] k v = tt
      others (t ∷ rows) k v = ((λ p. h t.id k.0 (v.0 p)), others rows k.1 v.1)
