-- ===== src/Api/Problems/Upload.antt =====
-- api/app/routes/problems.py: the creation of a problem with its tests.
pub mod Files
pub mod Pairs
pub mod Outcome
use byte_battles.Base.{
  ℕ, suc, ◌+◌, Bool, Option, none, some, List, [], ◌∷◌, ◌++◌, map, if◌then◌else◌, length,
}
use byte_battles.Base.Text.{Text, codes, text_eq}
use byte_battles.Base.Text.Affixes.{ends_with}
use byte_battles.Base.Exec.{
  Exec, Result, ok, err, Fault, is_exception, pure, raise, lift, ◌>>=◌, ◌>>◌,
}
use byte_battles.Database.{Problem, TestCase, Category, Db, first}
use byte_battles.Api.Http.{Reply, reply, http_exception, unhandled}
use byte_battles.Api.Backend.{Backend}
use byte_battles.Api.Site.{Site, Route, refuse}
use byte_battles.Api.Storage.Testcases.{upload_bytes, delete_problem_folder}
use byte_battles.Api.Problems.Form.{
  ProblemForm, Archives, ArrayData, Upload, ProblemCreateResponse, base_name, zip, check_upload,
}

abbrev slugs : List Category → List Text
slugs = map (λ c. c.slug)

abbrev pub new_problem : ProblemForm → ArrayData → List Category → (now : ℕ) → Problem
new_problem form array_data categories now = record {
  id = form.id;
  title = form.title;
  difficulty = form.difficulty;
  description = form.description;
  constraints = array_data.constraints;
  input_desc = form.input_desc;
  output_desc = form.output_desc;
  sample_io = array_data.sample_io;
  explanation = form.explanation;
  created_at = now;
  memory_limit_mb = form.memory_limit_mb;
  time_limit_sec = form.time_limit_sec;
  tags = slugs categories;
  visibility = form.visibility;
  source = form.source;
  accepted_submissions = 0;
  total_submissions = 0;
  editorial = form.editorial;
}

-- The rows of the test cases, numbered by their sequence.
unfoldable pub test_rows : Text → ℕ → List (Text × Text) → List TestCase
test_rows problem_id id [] = []
test_rows problem_id id ((input_key, output_key) ∷ keys) =
    record { id = id; problem_id = problem_id; input_key = input_key; output_key = output_key }
    ∷ test_rows problem_id (suc id) keys

abbrev pub add_problem : Problem → List (Text × Text) → Db → Db
add_problem problem keys db = record db {
  problems = db.problems ++ problem ∷ [];
  testcases = db.testcases ++ test_rows problem.id db.next_testcase keys;
  next_testcase = db.next_testcase + length keys;
}

abbrev pub has_id : Text → Problem → Bool
has_id id p = text_eq p.id id

module _ (B : Backend) (A : Archives) where
  -- The body of the loop.
  unfoldable pub upload_pair : Text → A.Zip → Text × Text → Exec B.State (Text × Text)
  upload_pair problem_id archive (input_path, output_path) = do
    input_data ← lift (A.read archive input_path)
    output_data ← lift (A.read archive output_path)
    input_key ← upload_bytes B problem_id (base_name input_path) input_data
    output_key ← upload_bytes B problem_id (base_name output_path) output_data
    pure (input_key, output_key)

  unfoldable pub upload_tests :
      Text → A.Zip → List (Text × Text) → Exec B.State (List (Text × Text))
  unfolding upload_pair
  upload_tests problem_id archive [] = pure []
  upload_tests problem_id archive (pair ∷ pairs) = do
    k ← upload_pair problem_id archive pair
    keys ← upload_tests problem_id archive pairs
    pure (k ∷ keys)

  abbrev flush_unless : Option Problem → Exec B.State Unit
  flush_unless none = B.flush
  flush_unless (some other) = raise Fault.external

  -- `db.flush()` inserts the problem, whose id is the primary key.
  abbrev flush_problem : Text → Db → Exec B.State Unit
  flush_problem id db = flush_unless (first (has_id id) db.problems)

  -- The body of the `try`.
  unfoldable pub store_tests : ProblemForm → Upload A.Zip → Db → Exec B.State (List (Text × Text))
  unfolding upload_tests
  store_tests form upload db = do
    flush_problem form.id db
    keys ← upload_tests form.id upload.archive (zip upload.input_files upload.output_files)
    B.commit
    pure keys

  abbrev pub response : ProblemForm → Upload A.Zip → ProblemCreateResponse
  response form upload = record {
    id = form.id;
    title = form.title;
    difficulty = form.difficulty;
    tags = slugs upload.categories;
    testcases = length upload.input_files;
  }

  abbrev after_cleaning : Result (Unit {0}) → Reply ProblemCreateResponse
  after_cleaning (ok _) = http_exception 500 (codes "Unknown Error Occurred")
  after_cleaning (err e) = unhandled e

  -- The `except`, whose roll-back leaves the tables as they were.
  abbrev pub clean_up : Text → Route B ProblemCreateResponse
  clean_up id s =
      let (r, t) = delete_problem_folder B id s.store in (after_cleaning r, record s { store = t })

  -- The answer reads the problem again, which the commit has made expire.
  abbrev after_reload : ProblemForm → Upload A.Zip → Result (Unit {0}) → Reply ProblemCreateResponse
  after_reload form upload (ok _) = reply (response form upload)
  after_reload form upload (err e) = unhandled e

  abbrev pub conclude :
      ProblemForm
      → Upload A.Zip
      → (now : ℕ) → Result (List (Text × Text))
      → Route B ProblemCreateResponse
  conclude form upload now (ok keys) s =
      let (r, t) = B.refresh s.store in
      (
        after_reload form upload r,
        record s {
          store = t;
          db = add_problem (new_problem form upload.array_data upload.categories now) keys s.db;
        },
      )
  conclude form upload now (err e) s =
      if is_exception e then clean_up form.id s else (unhandled e, s)

  abbrev pub save_problem : ProblemForm → (now : ℕ) → Upload A.Zip → Route B ProblemCreateResponse
  save_problem form now upload s =
      let (r, t) = store_tests form upload s.db s.store in
      conclude form upload now r (record s { store = t })

  abbrev pub continue_upload :
      ProblemForm → (now : ℕ) → Reply (Upload A.Zip) → Route B ProblemCreateResponse
  continue_upload form now (reply upload) s = save_problem form now upload s
  continue_upload form now (http_exception status detail) s = (http_exception status detail, s)
  continue_upload form now (unhandled e) s = (unhandled e, s)

  -- What comes after `await tests_zip.read()`.
  unfoldable pub create_after_read : ProblemForm → (now : ℕ) → Route B ProblemCreateResponse
  unfolding check_upload store_tests
  create_after_read form now s = continue_upload form now (check_upload A form s.db) s

  -- Other requests run while the archive is read.
  unfoldable pub create_problem :
      ProblemForm → (now : ℕ) → (others : Site B → Site B) → Route B ProblemCreateResponse
  create_problem form now others s = elim (first (has_id form.id) s.db.problems) [
    | some problem ↦ refuse 400 (codes "Problem with key already exists") s
    | none ↦
        if ends_with (codes ".zip") form.filename
        then create_after_read form now (others s)
        else refuse 400 (codes "Only ZIP files are allowed") s
  ]
