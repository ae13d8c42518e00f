-- ===== src/Api/Problems/Removal.antt =====
-- api/app/routes/problems.py: the deletion of a problem.
pub mod Traces
use byte_battles.Base.{Bool, not, Option, none, some, List, [], ◌∷◌}
use byte_battles.Base.Text.{Text, codes, text_eq}
use byte_battles.Base.Exec.{Exec, Result, ok, err, pure, ◌>>=◌, ◌>>◌}
use byte_battles.Database.{Problem, TestCase, Submission, Db, first, select}
use byte_battles.Api.Http.{reply, unhandled}
use byte_battles.Api.Backend.{Backend}
use byte_battles.Api.Site.{Route, refuse}
use byte_battles.Api.Storage.Testcases.{delete_problem_folder}
use byte_battles.Api.Storage.SubmissionCode.{delete_file}
use byte_battles.Api.Problems.Upload.{has_id}

abbrev pub of_problem : Text → Submission → Bool
of_problem id s = text_eq s.problem_id id

abbrev pub is_test_of : Text → TestCase → Bool
is_test_of id t = text_eq t.problem_id id

-- `db.delete(problem)`, with the rows that the relationships delete with it.
abbrev pub remove_problem : Text → Db → Db
remove_problem id db = record db {
  problems = select (λ p. not (has_id id p)) db.problems;
  testcases = select (λ t. not (is_test_of id t)) db.testcases;
  submissions = select (λ s. not (of_problem id s)) db.submissions;
}

module _ (B : Backend) where
  -- `for submission in submissions`
  unfoldable pub delete_code : List Submission → Exec B.State Unit
  delete_code [] = pure tt
  delete_code (s ∷ ss) = do delete_file B s.code_object_key; delete_code ss

  -- Everything before the tables are written.
  unfoldable pub delete_objects_of : Text → List Submission → Exec B.State Unit
  unfolding delete_code
  delete_objects_of id submissions = do
    delete_code submissions
    delete_problem_folder B id
    B.commit

  -- A commit that fails leaves the tables.
  abbrev finish : Text → Result (Unit {0}) → Route B Unit
  finish id (ok _) s = (reply tt, record s { db = remove_problem id s.db })
  finish id (err e) s = (unhandled e, s)

  abbrev pub remove : Text → Route B Unit
  remove id s =
      let (r, t) = delete_objects_of id (select (of_problem id) s.db.submissions) s.store in
      finish id r (record s { store = t })

  abbrev remove_if_found : Option Problem → Route B Unit
  remove_if_found none = refuse 404 (codes "Problem with given ID not found")
  remove_if_found (some problem) = remove problem.id

  unfoldable pub delete_problem : Text → Route B Unit
  unfolding delete_objects_of
  delete_problem id s = remove_if_found (first (has_id id) s.db.problems) s
