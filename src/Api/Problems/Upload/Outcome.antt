-- ===== src/Api/Problems/Upload/Outcome.antt =====
-- How the creation of a problem may end.
use byte_battles.Base.{ℕ, ◌≡◌, ◌≢◌, ◌⊎◌, true, Option, none, List}
use byte_battles.Base.Text.{Text}
use byte_battles.Base.Text.Affixes.{starts_with}
use byte_battles.Base.Exec.{Fault, err}
use byte_battles.Services.{Bytes}
use byte_battles.Database.{first}
use byte_battles.Api.Http.{Reply, reply, http_exception, unhandled}
use byte_battles.Api.Backend.{Backend, Bucket, IsObjectStore}
use byte_battles.Api.Site.{Site}
use byte_battles.Api.Storage.Testcases.{folder}
use byte_battles.Api.Storage.Folders.{IsMissed}
use byte_battles.Api.Problems.Form.{
  ProblemForm, Archives, Upload, ProblemCreateResponse, zip, check_upload,
}
use byte_battles.Api.Problems.Form.Checked.{IsChecked, IsRefusal}
use byte_battles.Api.Problems.Upload.{new_problem, add_problem, has_id, store_tests, response}
use byte_battles.Api.Problems.Upload.Pairs.{Stored}

module _ (B : Backend) (object : B.State → Bucket → Text → Option Bytes)
    (L : IsObjectStore B object) (A : Archives) where
  -- The problem is stored with its tests.
  pub record Added (form : ProblemForm) (now : ℕ) (s : Site B) (upload : Upload A.Zip)
      (keys : List (Text × Text)) (t : Site B) : Type 0 where
    pub fresh : first (has_id form.id) s.db.problems ≡ none
    pub checked : IsChecked upload
    pub stored :
        Stored B object L A form.id upload.archive
          (zip upload.input_files upload.output_files)
          keys
          t.store
    pub db : t.db ≡ add_problem (new_problem form upload.array_data upload.categories now) keys s.db
    pub redis : t.redis ≡ s.redis
    pub users : t.users ≡ s.users

  -- Objects, tables and the queue, with `s` as they are when the archive has been read.
  pub data Creation (form : ProblemForm) (now : ℕ) (s : Site B)
      : Reply ProblemCreateResponse × Site B → Type 0 where
    refused :
        (r : Reply ProblemCreateResponse)
        → IsRefusal r
        → IsRefusal (check_upload A form s.db)
        → Creation form now s (r, s)
    failed :
        (upload : Upload A.Zip) (x : Fault) (r : Reply ProblemCreateResponse) (t : Site B)
        → check_upload A form s.db ≡ reply upload
        → (store_tests B A form upload s.db s.store).0 ≡ err x
        → ((a : ProblemCreateResponse) → r ≢ reply a)
        → t.db ≡ s.db
        → t.redis ≡ s.redis
        → t.users ≡ s.users
        → ((detail k : Text)
            → r ≡ http_exception 500 detail
            → starts_with (folder form.id) k ≡ true
            → (object t.store Bucket.testcase_bucket k ≡ none)
              ⊎ IsMissed B object L form.id k (store_tests B A form upload s.db s.store).1)
        → Creation form now s (r, t)
    created :
        (upload : Upload A.Zip) (keys : List (Text × Text)) (t : Site B)
        → Added form now s upload keys t
        → Creation form now s (reply (response B A form upload), t)
    unanswered :
        (upload : Upload A.Zip) (keys : List (Text × Text)) (x : Fault) (t : Site B)
        → Added form now s upload keys t
        → (B.refresh (store_tests B A form upload s.db s.store).1).0 ≡ err x
        → Creation form now s (unhandled x, t)
