-- ===== src/Api/Problems/Removal/Traces.antt =====
-- What a deleted problem leaves behind.
use byte_battles.Base.{◌≡◌, ◌⊎◌, false, Option, none, List, All}
use byte_battles.Base.Text.{Text, codes}
use byte_battles.Base.Exec.{ok, Fault, err}
use byte_battles.Services.{Bytes}
use byte_battles.Database.{Submission, Db, first, select}
use byte_battles.Api.Http.{Reply, reply, http_exception, unhandled}
use byte_battles.Api.Backend.{Backend, Bucket, IsObjectStore}
use byte_battles.Api.Site.{Site}
use byte_battles.Api.Storage.Testcases.{delete_problem_folder}
use byte_battles.Api.Storage.Folders.{IsMissed}
use byte_battles.Api.Problems.Upload.{has_id}
use byte_battles.Api.Problems.Removal.{
  of_problem, is_test_of, remove_problem, delete_code, delete_objects_of,
}

module _ (B : Backend) (object : B.State → Bucket → Text → Option Bytes)
    (L : IsObjectStore B object) where
  -- The code of each row is gone.
  abbrev CodeGone : List Submission → B.State → Type 0
  CodeGone rows u = All (λ r. object u Bucket.submission_bucket r.code_object_key ≡ none) rows

  -- All three calls have gone through.
  abbrev AllDone : Text → List Submission → B.State → Type 0
  AllDone id rows s =
      ((delete_code B rows s).0 ≡ ok tt)
      × ((delete_problem_folder B id (delete_code B rows s).1).0 ≡ ok tt)
      × ((delete_objects_of B id rows s).1
          ≡ (B.commit (delete_problem_folder B id (delete_code B rows s).1).1).1)

-- No row of a problem.
abbrev NoRows : Text → Db → Type 0
NoRows id db =
    All (λ p. has_id id p ≡ false) db.problems
    × All (λ t. is_test_of id t ≡ false) db.testcases
    × All (λ s. of_problem id s ≡ false) db.submissions

module _ (B : Backend) (object : B.State → Bucket → Text → Option Bytes)
    (L : IsObjectStore B object) where
  -- How the deletion of a problem may end, and what is left under a key then.
  pub data Removal (id k : Text) (s : Site B) : Reply (Unit {0}) × Site B → Type 0 where
    unknown :
        first (has_id id) s.db.problems ≡ none
        → Removal id k s (http_exception 404 (codes "Problem with given ID not found"), s)
    failed :
        (x : Fault) (t : Site B)
        → (delete_objects_of B id (select (of_problem id) s.db.submissions) s.store).0 ≡ err x
        → t.db ≡ s.db
        → Removal id k s (unhandled x, t)
    removed :
        (t : Site B)
        → t.db ≡ remove_problem id s.db
        → NoRows id t.db
        → CodeGone B object L (select (of_problem id) s.db.submissions) t.store
        → (object t.store Bucket.testcase_bucket k ≡ none)
          ⊎ IsMissed B object L id k
              (delete_code B (select (of_problem id) s.db.submissions) s.store).1
        → Removal id k s (reply tt, t)
