-- ===== src/Database.antt =====
-- The tables of problems and submissions: api/app/models/problem.py and submission.py.
pub mod Queries
use byte_battles.Base.{ℕ, Bool, Option, none, some, List, [], ◌∷◌, leb, if◌then◌else◌}
use byte_battles.Base.Text.{Text}
use byte_battles.Enums.{Difficulty, Language, Verdict}

-- `Category`
pub record Category : Type 0 where
  pub name : Text
  pub slug : Text

-- `Problem`, with the slugs that the table `tags` joins to it, in the order of the relationship.
pub record Problem : Type 0 where
  pub id : Text
  pub title : Text
  pub difficulty : Difficulty
  pub description : Text
  pub constraints : List Text
  pub input_desc : Text
  pub output_desc : Text
  pub sample_io : List (Text × Text)
  pub explanation : Option Text
  pub created_at : ℕ
  pub memory_limit_mb : ℕ
  pub time_limit_sec : ℕ
  pub tags : List Text
  pub visibility : Bool
  pub source : Option Text
  pub accepted_submissions : ℕ
  pub total_submissions : ℕ
  pub editorial : Option Text

pub record TestCase : Type 0 where
  pub id : ℕ
  pub problem_id : Text
  pub input_key : Text
  pub output_key : Text

-- `Submission`
pub record Submission : Type 0 where
  pub id : ℕ
  pub language : Language
  pub code_object_key : Text
  pub submitted_at : ℕ
  pub problem_id : Text
  pub user_id : ℕ
  pub verdict : Verdict
  pub incorrect_testcase_key : Option Text
  pub output : Option Text
  pub walltime_ms : Option ℕ
  pub memory_kb : Option ℕ

-- The tables, and the next values of the sequences that number test cases and submissions.
pub record Db : Type 0 where
  pub problems : List Problem
  pub testcases : List TestCase
  pub submissions : List Submission
  pub categories : List Category
  pub next_testcase : ℕ
  pub next_submission : ℕ

module _ {ℓ} {A : Type ℓ} where
  -- `query(...).filter(test).first()`
  unfoldable pub first : (A → Bool) → List A → Option A
  first test [] = none
  first test (x ∷ xs) = if test x then some x else first test xs

  -- `query(...).filter(test).all()`
  unfoldable pub select : (A → Bool) → List A → List A
  select test [] = []
  select test (x ∷ xs) = let rest = select test xs in if test x then x ∷ rest else rest

  -- The same rows, the first that passes the test replaced.
  unfoldable pub update_first : (A → Bool) → (A → A) → List A → List A
  update_first test f [] = []
  update_first test f (x ∷ xs) = if test x then f x ∷ xs else x ∷ update_first test f xs

  -- `order_by(key)`
  unfoldable insert_by : (A → ℕ) → A → List A → List A
  insert_by key x [] = x ∷ []
  insert_by key x (y ∷ ys) = if leb (key x) (key y) then x ∷ y ∷ ys else y ∷ insert_by key x ys

  unfoldable pub order_by : (A → ℕ) → List A → List A
  unfolding insert_by
  order_by key [] = []
  order_by key (x ∷ xs) = insert_by key x (order_by key xs)
