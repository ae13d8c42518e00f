-- ===== src/System/Requests.antt =====
-- What the requests (api/app/routes) do to the table of submissions, to the queue and to the users.
use byte_battles.Base.{ℕ, ◌≡◌, refl, inl, inr, Bool, not, Bool-cases, Option-cases}
use byte_battles.Base.Text.{Text}
use byte_battles.Base.Exec.{Result, Fault, Result-cases, is_exception}
use byte_battles.Services.{Bytes}
use byte_battles.Enums.{extension}
use byte_battles.Redis.{push_job}
use byte_battles.Database.{Submission, first, select}
use byte_battles.Api.Http.{Reply, reply, http_exception, unhandled}
use byte_battles.Api.Accounts.{User}
use byte_battles.Api.Backend.{Backend}
use byte_battles.Api.Site.{Site}
use byte_battles.Api.Storage.SubmissionCode.{upload_bytes}
use byte_battles.Api.Submissions.{visible_with}
use byte_battles.Api.Submissions.Create.{
  SubmissionCreate, SubmissionResponse, new_submission, add_submission, has_key, save_submission,
  submit, create_submission,
}
use byte_battles.Api.Problems.Form.{Archives, ProblemForm, Upload, check_upload}
use byte_battles.Api.Problems.Upload.{
  has_id, store_tests, clean_up, save_problem, continue_upload, create_after_read,
}
use byte_battles.Api.Problems.Removal.{of_problem, delete_objects_of, remove, delete_problem}

-- Submissions with their sequence, the queue and the users are the same.
pub record Untouched {B : Backend} (s t : Site B) : Type 0 where
  pub submissions : t.db.submissions ≡ s.db.submissions
  pub sequence : t.db.next_submission ≡ s.db.next_submission
  pub redis : t.redis ≡ s.redis
  pub users : t.users ≡ s.users

module _ (B : Backend) where
  -- A submission is appended, and queued or not, or nothing happens.
  pub data Queued (details : SubmissionCreate) (user : User) (now : ℕ)
      (r : Reply SubmissionResponse) (s t : Site B) : Type 0 where
    unchanged : Untouched s t → Queued details user now r s t
    added :
        (key : Text)
        → t.db ≡ add_submission (new_submission details user key now s.db.next_submission) s.db
        → t.redis ≡ push_job s.db.next_submission s.redis
        → t.users ≡ s.users
        → Queued details user now r s t
    -- The request broke off between the commit and the push.
    left :
        (key : Text) (x : Fault)
        → r ≡ unhandled x
        → t.db ≡ add_submission (new_submission details user key now s.db.next_submission) s.db
        → t.redis ≡ s.redis
        → t.users ≡ s.users
        → Queued details user now r s t

  module _ (encode : Text → Bytes) (decode : Bytes → Result Text) (now : ℕ)
      (details : SubmissionCreate) (user : User) where
    submit-Queued :
        (key : Text) (s : Site B) (u : B.State)
        → let p = submit B encode decode now details user key (record s { store = u }) in
          Queued details user now p.0 s p.1
    unfolding save_submission
    submit-Queued key s u = elim (Option-cases (first (has_key key) s.db.submissions)) [
      | inr (other, e) ↦
          rw (e, save_submission)
            (Queued.unchanged
              (record { submissions = refl; sequence = refl; redis = refl; users = refl }))
      | inl e ↦ elim (Result-cases (B.commit u).0) [
        | inr (x, f) ↦
            rw (e, f, save_submission)
              (Queued.unchanged
                (record { submissions = refl; sequence = refl; redis = refl; users = refl }))
        | inl (x, f) ↦
            let v = (B.commit u).1 in
            elim (Result-cases (B.refresh v).0) [
              | inr (x, g) ↦ rw (e, f, g, save_submission) (Queued.left key x refl refl refl refl)
              | inl (x, g) ↦ elim (Result-cases (B.refresh (B.refresh v).1).0) [
                | inr (x, h) ↦ rw (e, f, g, h, save_submission) (Queued.added key refl refl refl)
                | inl (x, h) ↦ rw (e, f, g, h, save_submission) (Queued.added key refl refl refl)
              ]
            ]
      ]
    ]

    pub create_submission-Queued :
        (s : Site B)
        → let p = create_submission B encode decode now details user s in
          Queued details user now p.0 s p.1
    unfolding create_submission
    create_submission-Queued s =
        elim (Option-cases (first (visible_with details.problem_id) s.db.problems)) [
          | inl e ↦
              rw (e, create_submission)
                (Queued.unchanged
                  (record { submissions = refl; sequence = refl; redis = refl; users = refl }))
          | inr (p, e) ↦
              let upload = upload_bytes B (extension details.language) (encode details.code) in
              elim (Result-cases (upload s.store).0) [
                | inr (x, f) ↦
                    rw (e, f, create_submission)
                      (Queued.unchanged (record {
                        submissions = refl;
                        sequence = refl;
                        redis = refl;
                        users = refl;
                      }))
                | inl (key, f) ↦
                    rw (e, f, create_submission) (submit-Queued key s (upload s.store).1)
              ]
        ]

  module _ (A : Archives) (form : ProblemForm) (now : ℕ) where
    clean_up-Untouched :
        (s : Site B) (u : B.State) → Untouched s (clean_up B A form.id (record s { store = u })).1
    clean_up-Untouched s u = record {
      submissions = refl;
      sequence = refl;
      redis = refl;
      users = refl;
    }

    save_problem-Untouched :
        (upload : Upload A.Zip) (s : Site B) → Untouched s (save_problem B A form now upload s).1
    save_problem-Untouched upload s =
        let m = store_tests B A form upload s.db in
        elim (Result-cases (m s.store).0) [
          | inl (keys, e) ↦
              rw e (record { submissions = refl; sequence = refl; redis = refl; users = refl })
          | inr (x, e) ↦ elim (Bool-cases (is_exception x)) [
            | inl f ↦ rw (e, f) (clean_up-Untouched s (m s.store).1)
            | inr f ↦
                rw (e, f)
                  (record { submissions = refl; sequence = refl; redis = refl; users = refl })
          ]
        ]

    continue_upload-Untouched :
        (r : Reply (Upload A.Zip)) (s : Site B) → Untouched s (continue_upload B A form now r s).1
    continue_upload-Untouched (reply upload) s = save_problem-Untouched upload s
    continue_upload-Untouched (http_exception status detail) s = record {
      submissions = refl;
      sequence = refl;
      redis = refl;
      users = refl;
    }
    continue_upload-Untouched (unhandled x) s = record {
      submissions = refl;
      sequence = refl;
      redis = refl;
      users = refl;
    }

    pub create_after_read-Untouched :
        (s : Site B) → Untouched s (create_after_read B A form now s).1
    unfolding create_after_read
    create_after_read-Untouched s = continue_upload-Untouched (check_upload A form s.db) s

  -- Submissions may be deleted; all else that matters stays.
  pub data Reduced (s t : Site B) : Type 0 where
    selected :
        (test : Submission → Bool)
        → t.db.submissions ≡ select test s.db.submissions
        → t.db.next_submission ≡ s.db.next_submission
        → t.redis ≡ s.redis
        → t.users ≡ s.users
        → Reduced s t
    whole : Untouched s t → Reduced s t

  remove-Reduced : (id : Text) (s : Site B) → Reduced s (remove B id s).1
  remove-Reduced id s =
      let m = delete_objects_of B id (select (of_problem id) s.db.submissions) in
      elim (Result-cases (m s.store).0) [
        | inr (x, e) ↦ rw e (
            Reduced.whole
              (record { submissions = refl; sequence = refl; redis = refl; users = refl }))
        | inl (x, e) ↦ rw e (Reduced.selected (λ t. not (of_problem id t)) refl refl refl refl)
      ]

  pub delete_problem-Reduced : (id : Text) (s : Site B) → Reduced s (delete_problem B id s).1
  unfolding delete_problem
  delete_problem-Reduced id s = elim (Option-cases (first (has_id id) s.db.problems)) [
    | inl e ↦
        rw (e, delete_problem)
          (Reduced.whole
            (record { submissions = refl; sequence = refl; redis = refl; users = refl }))
    | inr (p, e) ↦ rw (e, delete_problem) (remove-Reduced p.id s)
  ]
