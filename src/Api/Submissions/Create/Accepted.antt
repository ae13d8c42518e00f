-- ===== src/Api/Submissions/Create/Accepted.antt =====
-- What the creation of a submission leaves in the tables, the queue and the store.
use byte_battles.Base.{
  ℕ, suc, ◌≡◌, refl, ◌∙◌, ◌≢◌, ◌⊎◌, inl, inr, Option, none, some, [], ◌∷◌, ◌++◌, Option-cases,
}
use byte_battles.Base.Text.{Text, codes}
use byte_battles.Base.Exec.{Exec, Fault, Result, ok, err, Result-cases}
use byte_battles.Enums.{Verdict, extension}
use byte_battles.Services.{Bytes}
use byte_battles.Redis.{push_job}
use byte_battles.Database.{Problem, Submission, first}
use byte_battles.Api.Http.{Reply, reply, http_exception, unhandled}
use byte_battles.Api.Accounts.{User}
use byte_battles.Api.Backend.{Backend, Bucket, IsObjectStore}
use byte_battles.Api.Site.{Site}
use byte_battles.Api.Storage.SubmissionCode
use byte_battles.Api.Storage.SubmissionCode.{upload_bytes}
use byte_battles.Api.Submissions.{visible_with}
use byte_battles.Api.Submissions.Create.{
  SubmissionCreate, SubmissionResponse, new_submission, add_submission, has_key, save_submission,
  submit, create_submission,
}

-- A submission of these details that has no verdict yet.
pub record IsPending (details : SubmissionCreate) (user : User) (key : Text) (now id : ℕ)
    (row : Submission) : Type 0 where
  pub same_id : row.id ≡ id
  pub language : row.language ≡ details.language
  pub code_object_key : row.code_object_key ≡ key
  pub submitted_at : row.submitted_at ≡ now
  pub problem_id : row.problem_id ≡ details.problem_id
  pub user_id : row.user_id ≡ user.id
  pub verdict : row.verdict ≡ Verdict.pending
  pub incorrect_testcase_key : row.incorrect_testcase_key ≡ none
  pub output : row.output ≡ none
  pub walltime_ms : row.walltime_ms ≡ none
  pub memory_kb : row.memory_kb ≡ none

new_submission-IsPending :
    (details : SubmissionCreate) (user : User) (key : Text) (now id : ℕ)
    → IsPending details user key now id (new_submission details user key now id)
new_submission-IsPending details user key now id = record {
  same_id = refl;
  language = refl;
  code_object_key = refl;
  submitted_at = refl;
  problem_id = refl;
  user_id = refl;
  verdict = refl;
  incorrect_testcase_key = refl;
  output = refl;
  walltime_ms = refl;
  memory_kb = refl;
}

module _ (B : Backend) (object : B.State → Bucket → Text → Option Bytes)
    (L : IsObjectStore B object) where
  -- An upload that returns a key has put the bytes there.
  object-upload_bytes :
      (ext key : Text) (bytes : Bytes) (s : B.State)
      → (upload_bytes B ext bytes s).0 ≡ ok key
      → object (upload_bytes B ext bytes s).1 Bucket.submission_bucket key ≡ some bytes
  unfolding upload_bytes
  object-upload_bytes ext key bytes s h = elim (Result-cases (B.uuid_hex s).0) [
    | inr (x, e) ↦ absurd (let k = rw e at h in cc k)
    | inl (u, e) ↦
        let put = B.put_object Bucket.submission_bucket (SubmissionCode.object_key u ext) bytes in
        let t = (B.uuid_hex s).1 in
        elim (Result-cases (put t).0) [
          | inr (x, f) ↦ absurd (let k = rw (e, f) at h in cc k)
          | inl (x, f) ↦
              let k = rw (e, f) at h in
              let same : SubmissionCode.object_key u ext ≡ key = cc k in
              rw (e, f)
                (rw (← same)
                  (L.put_self t Bucket.submission_bucket (SubmissionCode.object_key u ext) bytes f))
        ]
  ]

  -- The upload of the code.
  abbrev upload : (Text → Bytes) → SubmissionCreate → Exec B.State Text
  upload encode details = upload_bytes B (extension details.language) (encode details.code)

  -- The upload raised; or the key is taken; or the commit raised.
  abbrev IsBlocked : (Text → Bytes) → SubmissionCreate → Site B → Type 0
  IsBlocked encode details s =
      ((x : Fault) × ((upload encode details s.store).0 ≡ err x))
      ⊎ ((key : Text) × ((upload encode details s.store).0 ≡ ok key)
          × ((first (has_key key) s.db.submissions ≢ none)
              ⊎ ((x : Fault) × ((B.commit (upload encode details s.store).1).0 ≡ err x))))

  -- What the answer says of it.
  abbrev answer_for : SubmissionCreate → User → ℕ → Site B → SubmissionResponse
  answer_for details user now s = record {
    id = s.db.next_submission;
    language = details.language;
    submitted_at = now;
    problem_id = details.problem_id;
    username = user.username;
    verdict = Verdict.pending;
    incorrect_testcase = none;
    output = none;
    walltime_ms = none;
    memory_kb = none;
    code = details.code;
  }

  -- The connection after the commit, which has returned.
  abbrev committed : (Text → Bytes) → SubmissionCreate → Site B → B.State
  committed encode details s = (B.commit (upload encode details s.store).1).1

  -- The row is stored, for a problem that was visible, under a key that no other row had.
  pub record Stored (encode : Text → Bytes) (now : ℕ) (details : SubmissionCreate) (user : User)
      (s t : Site B) : Type 0 where
    pub problem : Problem
    pub key : Text
    pub row : Submission
    pub visible : first (visible_with details.problem_id) s.db.problems ≡ some problem
    pub uploaded : (upload encode details s.store).0 ≡ ok key
    pub fresh : first (has_key key) s.db.submissions ≡ none
    pub saved : (B.commit (upload encode details s.store).1).0 ≡ ok tt
    pub pending : IsPending details user key now s.db.next_submission row
    pub db : t.db ≡ record s.db {
      submissions = s.db.submissions ++ row ∷ [];
      next_submission = suc s.db.next_submission;
    }
    pub object_there : object t.store Bucket.submission_bucket key ≡ some (encode details.code)

  -- How a request to submit may end.
  pub data Submitted (encode : Text → Bytes) (now : ℕ) (details : SubmissionCreate) (user : User)
      (s : Site B) : Reply SubmissionResponse × Site B → Type 0 where
    unknown :
        first (visible_with details.problem_id) s.db.problems ≡ none
        → Submitted encode now details user s
            (http_exception 404 (codes "Problem with the given ID was not found"), s)
    failed :
        (x : Fault) (t : Site B)
        → IsBlocked encode details s
        → t.db ≡ s.db
        → t.redis ≡ s.redis
        → Submitted encode now details user s (unhandled x, t)
    unqueued :
        (x : Fault) (t : Site B)
        → Stored encode now details user s t
        → (B.refresh (committed encode details s)).0 ≡ err x
        → t.redis ≡ s.redis
        → Submitted encode now details user s (unhandled x, t)
    unanswered :
        (x : Fault) (t : Site B)
        → Stored encode now details user s t
        → (B.refresh (B.refresh (committed encode details s)).1).0 ≡ err x
        → t.redis ≡ push_job s.db.next_submission s.redis
        → Submitted encode now details user s (unhandled x, t)
    accepted :
        (t : Site B)
        → Stored encode now details user s t
        → t.redis ≡ push_job s.db.next_submission s.redis
        → Submitted encode now details user s (reply (answer_for details user now s), t)

  module _ (encode : Text → Bytes) (decode : Bytes → Result Text) (now : ℕ)
      (details : SubmissionCreate) (user : User) where
    -- What the loads behind the commit leave of the code.
    code_kept :
        (key : Text) (s : Site B)
        → (upload encode details s.store).0 ≡ ok key
        → object (committed encode details s) Bucket.submission_bucket key
          ≡ some (encode details.code)
    code_kept key s g =
        L.object-commit (upload encode details s.store).1 Bucket.submission_bucket key
        ∙ object-upload_bytes (extension details.language) key (encode details.code) s.store g

    stored_as :
        (s t : Site B) (problem : Problem) (key : Text)
        → first (visible_with details.problem_id) s.db.problems ≡ some problem
        → (upload encode details s.store).0 ≡ ok key
        → first (has_key key) s.db.submissions ≡ none
        → (B.commit (upload encode details s.store).1).0 ≡ ok tt
        → t.db ≡ add_submission (new_submission details user key now s.db.next_submission) s.db
        → object t.store Bucket.submission_bucket key ≡ some (encode details.code)
        → Stored encode now details user s t
    stored_as s t problem key m g e f d o = record {
      problem = problem;
      key = key;
      row = new_submission details user key now s.db.next_submission;
      visible = m;
      uploaded = g;
      fresh = e;
      saved = f;
      pending = new_submission-IsPending details user key now s.db.next_submission;
      db = d;
      object_there = o;
    }

    submit-Submitted :
        (s : Site B) (problem : Problem) (key : Text)
        → first (visible_with details.problem_id) s.db.problems ≡ some problem
        → (upload encode details s.store).0 ≡ ok key
        → Submitted encode now details user s (
            submit B encode decode now details user key
              (record s { store = (upload encode details s.store).1 }))
    unfolding save_submission
    submit-Submitted s problem key m g =
        let u = (upload encode details s.store).1 in
        let v = committed encode details s in
        let w = (B.refresh v).1 in
        let sub_bucket = Bucket.submission_bucket in
        let there = code_kept key s g in
        let there_still = L.object-refresh v sub_bucket key ∙ there in
        let row = new_submission details user key now s.db.next_submission in
        elim (Option-cases (first (has_key key) s.db.submissions)) [
          | inr (other, e) ↦
              rw (e, save_submission)
                (Submitted.failed _ _ (inr (key, g, inl (λ q. let k = rw e at q in cc k))) refl
                  refl)
          | inl e ↦ elim (Result-cases (B.commit u).0) [
            | inr (x, f) ↦
                rw (e, f, save_submission)
                  (Submitted.failed _ _ (inr (key, g, inr (x, f))) refl refl)
            | inl (tt, f) ↦
                let stored =
                  λ (t : Site B) (d : t.db ≡ add_submission row s.db)
                      (o : object t.store sub_bucket key ≡ some (encode details.code)).
                    stored_as s t problem key m g e f d o in
                elim (Result-cases (B.refresh v).0) [
                  | inr (x, h) ↦
                      rw (e, f, h, save_submission)
                        (Submitted.unqueued x _ (stored _ refl there_still) h refl)
                  | inl (y, h) ↦ elim (Result-cases (B.refresh w).0) [
                    | inr (x, k) ↦
                        rw (e, f, h, k, save_submission)
                          (Submitted.unanswered x _
                            (stored _ refl (L.object-refresh w sub_bucket key ∙ there_still)) k
                            refl)
                    | inl (x, k) ↦
                        rw (e, f, h, k, save_submission)
                          (Submitted.accepted _
                            (stored _ refl (L.object-refresh w sub_bucket key ∙ there_still)) refl)
                  ]
                ]
          ]
        ]

  -- Over an object store that does what S3 documents, create_submission answers 404 and changes
  -- nothing where the problem is not visible; or raises with the tables and the queue unchanged,
  -- only where the upload or the commit raised or another row has the key; or the problem is
  -- visible, a new pending submission with the fields of the request and without a result is
  -- appended under a key that no other row has, and the code is stored under that key. In the last
  -- case either the load behind the commit raised, and the request raises with the queue
  -- unchanged; or the submission's id is pushed to the queue, and the request raises, only where
  -- the load of the user raised, or answers with the fields of the row.
  pub create_submission-Submitted :
      (encode : Text → Bytes) (decode : Bytes → Result Text) (now : ℕ) (details : SubmissionCreate)
      (user : User) (s : Site B)
      → Submitted encode now details user s (create_submission B encode decode now details user s)
  unfolding create_submission
  create_submission-Submitted encode decode now details user s =
      elim (Option-cases (first (visible_with details.problem_id) s.db.problems)) [
        | inl m ↦ rw (m, create_submission) (Submitted.unknown m)
        | inr (problem, m) ↦ elim (Result-cases (upload encode details s.store).0) [
          | inr (x, e) ↦ rw (m, e, create_submission) (Submitted.failed _ _ (inl (x, e)) refl refl)
          | inl (key, e) ↦
              rw (m, e, create_submission)
                (submit-Submitted encode decode now details user s problem key m e)
        ]
      ]
