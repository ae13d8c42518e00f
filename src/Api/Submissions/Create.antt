-- ===== src/Api/Submissions/Create.antt =====
-- api/app/routes/submissions.py: the creation of a submission, and the view of one.
pub mod Accepted
pub mod Shown
use byte_battles.Base.{
  ℕ, suc, Bool, true, false, not, Option, none, some, [], ◌∷◌, ◌++◌, ◌==◌, if◌then◌else◌,
}
use byte_battles.Base.Text.{Text, codes, text_eq}
use byte_battles.Base.Exec.{lift, Result, ok, err, Fault}
use byte_battles.Enums.{Language, Verdict, extension}
use byte_battles.Services.{Bytes}
use byte_battles.Redis.{push_job}
use byte_battles.Database.{Problem, Submission, Db, first}
use byte_battles.Api.Http.{reply, unhandled}
use byte_battles.Api.Accounts.{User, has_id}
use byte_battles.Api.Backend.{Backend}
use byte_battles.Api.Site.{Route, answer, refuse, call, ◌>>=◌, ◌>>◌}
use byte_battles.Api.Storage.Testcases
use byte_battles.Api.Storage.SubmissionCode
use byte_battles.Api.Submissions.{visible_with}

-- `SubmissionCreate`
pub record SubmissionCreate : Type 0 where
  pub problem_id : Text
  pub code : Text
  pub language : Language

-- `SubmissionResponse`
pub record SubmissionResponse : Type 0 where
  pub id : ℕ
  pub language : Language
  pub submitted_at : ℕ
  pub problem_id : Text
  pub username : Text
  pub verdict : Verdict
  pub incorrect_testcase : Option Text
  pub output : Option Text
  pub walltime_ms : Option ℕ
  pub memory_kb : Option ℕ
  pub code : Text

abbrev pub new_submission : SubmissionCreate → User → (key : Text) (now id : ℕ) → Submission
new_submission details user key now id = record {
  id = id;
  language = details.language;
  code_object_key = key;
  submitted_at = now;
  problem_id = details.problem_id;
  user_id = user.id;
  verdict = Verdict.pending;
  incorrect_testcase_key = none;
  output = none;
  walltime_ms = none;
  memory_kb = none;
}

abbrev pub add_submission : Submission → Db → Db
add_submission row db = record db {
  submissions = db.submissions ++ row ∷ [];
  next_submission = suc db.next_submission;
}

abbrev pub has_key : Text → Submission → Bool
has_key key s = text_eq s.code_object_key key

abbrev pub view :
    Submission
    → (username : Text) (incorrect_testcase : Option Text) (code : Text) → SubmissionResponse
view s username incorrect_testcase code = record {
  id = s.id;
  language = s.language;
  submitted_at = s.submitted_at;
  problem_id = s.problem_id;
  username = username;
  verdict = s.verdict;
  incorrect_testcase = incorrect_testcase;
  output = s.output;
  walltime_ms = s.walltime_ms;
  memory_kb = s.memory_kb;
  code = code;
}

-- `encode` and `decode` are UTF-8: `str.encode`, and what pydantic does with bytes for a `str`.
module _ (B : Backend) (encode : Text → Bytes) (decode : Bytes → Result Text) (now : ℕ) where
  -- `db.add(...)` and `db.commit()`: `code_object_key` is unique.
  unfoldable pub save_submission : SubmissionCreate → User → Text → Route B Submission
  save_submission details user key s =
      let row = new_submission details user key now s.db.next_submission in
      elim (first (has_key key) s.db.submissions) [
        | none ↦ (do call B.commit; λ t. (reply row, record t { db = add_submission row t.db })) s
        | some other ↦ (unhandled Fault.external, s)
      ]

  -- `enqueue_job`
  abbrev enqueue_job : ℕ → Route B Unit
  enqueue_job id s = (reply tt, record s { redis = push_job id s.redis })

  -- `db.refresh(submission)` is before the push, and behind it `submission.user` is loaded.
  abbrev pub submit : SubmissionCreate → User → Text → Route B SubmissionResponse
  submit details current_user key = do
    row ← save_submission details current_user key
    call B.refresh
    enqueue_job row.id
    call B.refresh
    answer (view row current_user.username none details.code)

  unfoldable pub create_submission : SubmissionCreate → User → Route B SubmissionResponse
  create_submission details current_user s =
      elim (first (visible_with details.problem_id) s.db.problems) [
        | none ↦ refuse 404 (codes "Problem with the given ID was not found") s
        | some problem ↦
            (do
              key ←
                  call (
                    SubmissionCode.upload_bytes B (extension details.language)
                      (encode details.code))
              submit details current_user key)
              s
      ]

  abbrev read_testcase : Text → Bool → Route B (Option Bytes)
  read_testcase key false = answer none
  read_testcase key true = do bytes ← call (Testcases.get_file B key); answer (some bytes)

  -- `submission.incorrect_testcase`
  unfoldable pub incorrect_testcase : Option Text → Route B (Option Bytes)
  incorrect_testcase none = answer none
  incorrect_testcase (some []) = answer none
  incorrect_testcase (some (c ∷ key)) = do
    exists ← call (SubmissionCode.file_exists B (c ∷ key))
    read_testcase (c ∷ key) exists

  abbrev decoded : Option Bytes → Result (Option Text)
  decoded none = ok none
  decoded (some bytes) = elim (decode bytes) [ ok t ↦ ok (some t) | err e ↦ err e ]

  -- The answer's bytes become texts when the response is validated.
  abbrev pub show_with : Submission → User → Option Bytes → Route B SubmissionResponse
  show_with s user testcase = do
    bytes ← call (SubmissionCode.get_file B s.code_object_key)
    shown ← call (lift (decoded testcase))
    code ← call (lift (decode bytes))
    answer (view s user.username shown code)

  abbrev pub show : Submission → User → Route B SubmissionResponse
  show s user = incorrect_testcase s.incorrect_testcase_key >>= show_with s user

  abbrev not_found : Route B SubmissionResponse
  not_found = refuse 404 (codes "Submission not found")

  -- A submission has a problem and a user by its foreign keys; without them the access to their
  -- fields would raise.
  abbrev pub show_visible : Submission → Option Problem → Option User → Route B SubmissionResponse
  show_visible s none user t = (unhandled Fault.external, t)
  show_visible s (some problem) none t =
      if problem.visibility then (unhandled Fault.external, t) else not_found t
  show_visible s (some problem) (some user) t =
      if problem.visibility then show s user t else not_found t

  unfoldable pub get_submission_by_id : ℕ → Route B SubmissionResponse
  get_submission_by_id submission_id t =
      elim (first (λ s. s.id == submission_id) t.db.submissions) [
        | none ↦ not_found t
        | some s ↦
            show_visible s (first (λ p. text_eq p.id s.problem_id) t.db.problems)
              (first (has_id s.user_id) t.users.rows) t
      ]
