-- ===== src/Api/Submissions/Create/Shown.antt =====
-- What the view of a submission shows of its failed test case.
use byte_battles.Base.{
  ℕ, ◌≡◌, sym, ap, ◌∙◌, subst, inl, inr, true, false, Option, none, some, [], ◌∷◌, arith, ◌==◌,
  Bool-cases,
}
use byte_battles.Base.Text.{Text, text_eq}
use byte_battles.Base.Exec.{Result, Result-cases}
use byte_battles.Services.{Bytes}
use byte_battles.Database.{Submission, Problem, first}
use byte_battles.Api.Http.{Reply, reply}
use byte_battles.Api.Accounts.{User, has_id}
use byte_battles.Api.Backend.{Backend, Bucket, IsObjectStore}
use byte_battles.Api.Site.{Site, bind-eq-reply}
use byte_battles.Api.Storage.SubmissionCode
use byte_battles.Api.Submissions.Create.{
  SubmissionResponse, incorrect_testcase, show_with, show, show_visible, get_submission_by_id,
}

module _ (B : Backend) (object : B.State → Bucket → Text → Option Bytes)
    (L : IsObjectStore B object) (encode : Text → Bytes) (decode : Bytes → Result Text)
    (now : ℕ) where
  incorrect_testcase-absent :
      (key : Text) (s : Site B) (o : Option Bytes)
      → object s.store Bucket.submission_bucket key ≡ none
      → (incorrect_testcase B encode decode now (some key) s).0 ≡ reply o
      → o ≡ none
  unfolding incorrect_testcase SubmissionCode.file_exists
  incorrect_testcase-absent [] s o none_there h = cc h
  incorrect_testcase-absent (c ∷ key) s o none_there h =
      let m = B.head_object Bucket.submission_bucket (c ∷ key) in
      elim (Result-cases (m s.store).0) [
        | inr (x, e) ↦ absurd (let k = rw e at h in cc k)
        | inl (true, e) ↦
            absurd (L.head_self s.store Bucket.submission_bucket (c ∷ key) e none_there)
        | inl (false, e) ↦ let k = rw e at h in cc k
      ]

  abbrev shown_in : Reply SubmissionResponse → Option Text
  shown_in (reply v) = v.incorrect_testcase
  shown_in _ = none

  show_with-none :
      (row : Submission) (user : User) (s : Site B) (v : SubmissionResponse)
      → (show_with B encode decode now row user none s).0 ≡ reply v
      → v.incorrect_testcase ≡ none
  unfolding SubmissionCode.get_file
  show_with-none row user s v h =
      elim (Result-cases (B.get_object Bucket.submission_bucket row.code_object_key s.store).0) [
        | inr (x, e) ↦ absurd (let k = rw e at h in cc k)
        | inl (bytes, e) ↦ elim (Result-cases (decode bytes)) [
          | inr (x, f) ↦ absurd (let k = rw (e, f) at h in cc k)
          | inl (code, f) ↦ let k = rw (e, f) at h in sym (ap shown_in k)
        ]
      ]

  show-absent :
      (row : Submission) (user : User) (key : Text) (s : Site B) (v : SubmissionResponse)
      → row.incorrect_testcase_key ≡ some key
      → object s.store Bucket.submission_bucket key ≡ none
      → (show B encode decode now row user s).0 ≡ reply v
      → v.incorrect_testcase ≡ none
  show-absent row user key s v e none_there h =
      let m = incorrect_testcase B encode decode now row.incorrect_testcase_key in
      let (o, f, g) = bind-eq-reply m (show_with B encode decode now row user) s v h in
      let absent : o ≡ none =
        incorrect_testcase-absent key s o none_there
          (ap (λ (k : Option Text). (incorrect_testcase B encode decode now k s).0) (sym e) ∙ f) in
      show_with-none row user (m s).1 v
        (subst (λ p. (show_with B encode decode now row user p (m s).1).0 ≡ reply v) absent g)

  visible :
      (problem : Option Problem) (user : Option User) (row : Submission) (key : Text) (s : Site B)
      (v : SubmissionResponse)
      → row.incorrect_testcase_key ≡ some key
      → object s.store Bucket.submission_bucket key ≡ none
      → (show_visible B encode decode now row problem user s).0 ≡ reply v
      → v.incorrect_testcase ≡ none
  visible none user row key s v e none_there h = cc h
  visible (some p) none row key s v e none_there h = ground (arith, h)
  visible (some p) (some u) row key s v e none_there h = elim (Bool-cases p.visibility) [
    | inl f ↦ show-absent row u key s v e none_there (rw f at h)
    | inr f ↦ absurd (let k = rw f at h in cc k)
  ]

  -- Over an object store that does what S3 documents, where the key of a submission's incorrect
  -- test case holds nothing in the bucket of submissions, every answer to a request for the
  -- submission shows no test case, whatever the bucket of test cases holds.
  pub get_submission_by_id-hidden :
      (id : ℕ) (row : Submission) (key : Text) (s : Site B) (v : SubmissionResponse)
      → first (λ r. r.id == id) s.db.submissions ≡ some row
      → row.incorrect_testcase_key ≡ some key
      → object s.store Bucket.submission_bucket key ≡ none
      → (get_submission_by_id B encode decode now id s).0 ≡ reply v
      → v.incorrect_testcase ≡ none
  unfolding get_submission_by_id
  get_submission_by_id-hidden id row key s v m e none_there h =
      visible (first (λ p. text_eq p.id row.problem_id) s.db.problems)
        (first (has_id row.user_id) s.users.rows) row key s v e none_there
        (rw (m, get_submission_by_id) at h)
